-- ===== src/Poller/Dispatch/Hangup.antt =====
-- src/poller.c, `poll_do`: a handler that returns ZB_CLOSE.
use zeroserv.Prelude.{ℕ, ◌<◌, ◌≡◌, ap, ◌∙◌, true, false, none, ◌==◌, arith, Run, ok}
use zeroserv.Epoll.{Epoll}
use zeroserv.Poller.{FdTab, update}
use zeroserv.Poller.Table.{IsTable, fd_delete-IsTable}
use zeroserv.Poller.Dispatch.{
  zb_close, has, epoll_in_err_hup, set_if, close_or_clear, recheck_state, dispatch,
}

module _ {ℓ} {App : Type ℓ} (E : Epoll) (maxconn : ℕ)
    (read write : ℕ → FdTab E × App → Run (ℕ × (FdTab E × App)))
    (clo : ℕ → FdTab E × App → Run (FdTab E × App)) where
  open E use {interest}

  -- The disconnect handler frees what belongs to the connection and leaves the table alone.
  abbrev pub KeepsTable : ℕ → Type ℓ
  KeepsTable fd = (t : FdTab E) (app : App) → (app' : App) × (clo fd (t, app) ≡ ok (t, app'))

  -- If the read handler of an open descriptor, which an input, error or hangup event called, returns
  -- ZB_CLOSE and a valid table, the descriptor is closed and the kernel stops watching it, the
  -- disconnect handler runs, and the write handler is not called whatever else was reported.
  pub dispatch-hangup :
      (fd event : ℕ) {t t' : FdTab E} (app : App) {app' : App}
      → (t.state fd == 0) ≡ false
      → has event epoll_in_err_hup ≡ true
      → read fd (t, app) ≡ ok (zb_close, (t', app'))
      → IsTable E t'
      → fd < maxconn
      → KeepsTable fd
      → (u : FdTab E) × (app'' : App) × (dispatch E maxconn read write clo (fd, event) (t, app)
          ≡ ok (u, app''))
        × IsTable E u
        × (u.state ≡ update t'.state fd 0)
        × (interest fd u.epoll ≡ none)
        × (clo fd (u, app') ≡ ok (u, app''))
  unfolding dispatch recheck_state close_or_clear set_if
  dispatch-hangup fd event {t} {t'} app {app'} open' called ret v inside keeps =
      let (u, run, valid, state, masks, watched) = fd_delete-IsTable E maxconn fd v inside in
      let (app'', freed) = keeps u app' in
      let closed : (u.state fd == 0) ≡ true = ap (λ s. s fd == 0) state ∙ ground arith in
      (
        u,
        app'',
        rw (open', called, ret, run, freed, closed),
        valid,
        state,
        watched fd ∙ ground arith,
        freed,
      )
