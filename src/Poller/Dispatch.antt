-- ===== src/Poller/Dispatch.antt =====
-- src/poller.c, `recheck_state` and `poll_do`: the events that the kernel reports go to the handlers
-- of their descriptors, and the flags that a handler returns change what is wanted of it.
-- The handlers are the parameters `read`, `write` and `clo`, the three `fdtab[fd].cb[…].f`; they may
-- change the whole state. `events` is what `epoll_wait` reports, pairs of a descriptor and a mask.
-- An `int` flag is its two's complement as a number.
pub mod Flags
pub mod Hangup
mod Tests
use Prim.Native.Nat.{bit_and}
use zeroserv.Prelude.{ℕ, ◌+◌, Bool, List, [], ◌∷◌, ◌==◌, not, if◌then◌else◌, length, Run, ok, ◌>>=◌}
use zeroserv.Epoll.{Epoll}
use zeroserv.Poller.{Poller, FdTab, dir_rd, dir_wr, fd_set, fd_clr, fd_delete, fd_flush_changes}

abbrev pub zb_close : ℕ
zb_close = 3

-- `x & mask`
abbrev pub has : ℕ → ℕ → Bool
has x mask = not (bit_and x mask == 0)

abbrev pub epoll_in_err_hup : ℕ
epoll_in_err_hup = 1 + 8 + 16

abbrev pub epoll_out_err_hup : ℕ
epoll_out_err_hup = 4 + 8 + 16

module _ (E : Epoll) (maxconn : ℕ) where
  -- `EV_FD_SET` and `EV_FD_CLR` under a test of the flag.
  unfoldable pub set_if : Bool → ℕ → ℕ → FdTab E → Run (FdTab E)
  set_if test fd dir t =
      if test
      then (do (ret, p) ← fd_set maxconn fd dir t.poller; ok (record t { poller = p }))
      else ok t

  unfoldable pub clr_if : Bool → ℕ → ℕ → FdTab E → Run (FdTab E)
  clr_if test fd dir t =
      if test
      then (do (ret, p) ← fd_clr maxconn fd dir t.poller; ok (record t { poller = p }))
      else ok t

  module _ {ℓ} {App : Type ℓ} (read : ℕ → FdTab E × App → Run (ℕ × (FdTab E × App)))
      (write : ℕ → FdTab E × App → Run (ℕ × (FdTab E × App)))
      (clo : ℕ → FdTab E × App → Run (FdTab E × App)) where
    -- `if (flag == ZB_CLOSE) … else …`
    unfoldable pub close_or_clear : ℕ → ℕ → FdTab E × App → Run (FdTab E × App)
    unfolding clr_if
    close_or_clear fd flag (t, app) =
        if flag == zb_close then (do u ← fd_delete E maxconn fd t; clo fd (u, app)) else do
          u ← clr_if (has flag 1) fd dir_rd t
          v ← clr_if (has flag 2) fd dir_wr u
          ok (v, app)

    unfoldable pub recheck_state : ℕ → ℕ → FdTab E × App → Run (FdTab E × App)
    unfolding close_or_clear set_if
    recheck_state fd flag w = do
      (t, app) ← close_or_clear fd flag w
      u ← set_if (has flag 4) fd dir_rd t
      v ← set_if (has flag 8) fd dir_wr u
      ok (v, app)

    -- One round of the loop of `poll_do`.
    unfoldable pub dispatch : ℕ × ℕ → FdTab E × App → Run (FdTab E × App)
    unfolding recheck_state
    dispatch (fd, event) (t, app) = if t.state fd == 0 then ok (t, app) else do
      (ret, w) ← if has event epoll_in_err_hup then read fd (t, app) else ok (0, (t, app))
      (u, app1) ← recheck_state fd ret w
      if u.state fd == 0 then ok (u, app1) else do
        (ret', w') ← if has event epoll_out_err_hup then write fd (u, app1) else ok (ret, (u, app1))
        recheck_state fd ret' w'

    unfoldable pub dispatch_all : List (ℕ × ℕ) → FdTab E × App → Run (FdTab E × App)
    unfolding dispatch
    dispatch_all [] w = ok w
    dispatch_all (e ∷ events) w = do w' ← dispatch e w; dispatch_all events w'

    -- `if (nbchanges) fd_flush_changes()`, then the loop over the reported events.
    unfoldable pub poll_do : List (ℕ × ℕ) → FdTab E × App → Run (FdTab E × App)
    unfolding dispatch_all
    poll_do events (t, app) =
        let (p, s) =
          if length t.poller.chg_list == 0
          then (t.poller, t.epoll)
          else fd_flush_changes E t.poller t.epoll in
        dispatch_all events (record t { poller = p; epoll = s }, app)
