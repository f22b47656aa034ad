-- ===== src/Poller/Dispatch/Flags.antt =====
-- src/poller.c, `recheck_state`: the flags other than ZB_CLOSE.
use zeroserv.Prelude.{
  ℕ, ◌+◌, ◌≤◌, ◌<◌, ◌≡◌, refl, sym, ap, ◌∙◌, Bool, true, false, ◌==◌, length, arith, Run, ok, ◌>>=◌,
  bind_assoc,
}
use zeroserv.Epoll.{Epoll}
use zeroserv.Poller.{FdTab, dir_rd, dir_wr, fd_set, fd_clr}
use zeroserv.Poller.Sync.{Op, want, unwant, wanted, IsInside, step, step-Stepped}
use zeroserv.Poller.Table.{IsTable}
use zeroserv.Poller.Dispatch.{zb_close, has, set_if, clr_if, close_or_clear, recheck_state}

-- The wanted events after an operation that is made if the test holds.
abbrev pub wanted_if : Bool → Op → (ℕ → ℕ) → ℕ → ℕ
wanted_if true op evts = wanted op evts
wanted_if false op evts = evts

-- The specification of a flag other than ZB_CLOSE, on the wanted events: two events are given up,
-- then two are asked for, as its four bits say.
abbrev pub after_flag : ℕ → ℕ → (ℕ → ℕ) → ℕ → ℕ
after_flag fd flag evts = wanted_if (has flag 8) (want fd dir_wr) (
    wanted_if (has flag 4) (want fd dir_rd)
      (wanted_if (has flag 2) (unwant fd dir_wr) (wanted_if (has flag 1) (unwant fd dir_rd) evts)))

module _ (E : Epoll) (maxconn : ℕ) where
  -- What an operation under a test leaves of the table.
  record Tested (test : Bool) (op : Op) (t u : FdTab E) : Type 0 where
    valid : IsTable E u
    masks : u.poller.evts ≡ wanted_if test op t.poller.evts
    one_more : length u.poller.chg_list ≤ length t.poller.chg_list + 1
    same_state : u.state ≡ t.state

  -- The table with the poller that one operation left.
  abbrev made : Op → FdTab E → Run (FdTab E)
  made op t =
      step E maxconn op (t.poller, t.epoll) >>= λ x. ok (record t { poller = x.0; epoll = x.1 })

  skipped : (op : Op) {t : FdTab E} → IsTable E t → Tested false op t t
  skipped op {t} v = record { valid = v; masks = refl; one_more = omega arith; same_state = refl }

  set_if_step : (fd dir : ℕ) (t : FdTab E) → set_if E maxconn true fd dir t ≡ made (want fd dir) t
  unfolding set_if step
  set_if_step fd dir t = sym (bind_assoc (fd_set maxconn fd dir t.poller) _ _)

  clr_if_step : (fd dir : ℕ) (t : FdTab E) → clr_if E maxconn true fd dir t ≡ made (unwant fd dir) t
  unfolding clr_if step
  clr_if_step fd dir t = sym (bind_assoc (fd_clr maxconn fd dir t.poller) _ _)

  made-Tested :
      (op : Op) {t : FdTab E}
      → IsTable E t
      → IsInside maxconn op
      → length t.poller.chg_list < maxconn
      → (u : FdTab E) × (made op t ≡ ok u) × Tested true op t u
  made-Tested op {t} v inside room =
      let (x, run, st) = step-Stepped E maxconn v.linked room op inside in
      (
        record t { poller = x.0; epoll = x.1 },
        rw run,
        record {
          valid = record { linked = st.valid; bound = v.bound };
          masks = st.masks;
          one_more = st.one_more;
          same_state = refl;
        },
      )

  module _ {t : FdTab E} (v : IsTable E t) (fd dir : ℕ) (inside : fd < maxconn) (small : dir < 2)
      (room : length t.poller.chg_list < maxconn) where
    set_if-Tested :
        (test : Bool)
        → (u : FdTab E) × (set_if E maxconn test fd dir t ≡ ok u) × Tested test (want fd dir) t u
    set_if-Tested true =
        let (u, run, st) = made-Tested (want fd dir) v (inside, small) room in
        (u, set_if_step fd dir t ∙ run, st)
    set_if-Tested false = (t, unfold set_if in refl, skipped (want fd dir) v)

    clr_if-Tested :
        (test : Bool)
        → (u : FdTab E) × (clr_if E maxconn test fd dir t ≡ ok u) × Tested test (unwant fd dir) t u
    clr_if-Tested true =
        let (u, run, st) = made-Tested (unwant fd dir) v (inside, small) room in
        (u, clr_if_step fd dir t ∙ run, st)
    clr_if-Tested false = (t, unfold clr_if in refl, skipped (unwant fd dir) v)

  module _ {ℓ} {App : Type ℓ} (clo : ℕ → FdTab E × App → Run (FdTab E × App)) where
    -- On a valid table with room for four more changes, a handler's flag other than ZB_CLOSE, of a
    -- descriptor inside the arrays, closes nothing and changes what is wanted of the descriptor as
    -- the flag's four bits say, clearing before setting; the table stays valid.
    pub recheck_state-after_flag :
        (read write : ℕ → FdTab E × App → Run (ℕ × (FdTab E × App))) (fd flag : ℕ) {t : FdTab E}
        (app : App)
        → IsTable E t
        → fd < maxconn
        → (flag == zb_close) ≡ false
        → length t.poller.chg_list + 4 ≤ maxconn
        → (u : FdTab E) × (recheck_state E maxconn read write clo fd flag (t, app) ≡ ok (u, app))
          × IsTable E u
          × (u.poller.evts ≡ after_flag fd flag t.poller.evts)
          × (u.state ≡ t.state)
    unfolding recheck_state close_or_clear
    recheck_state-after_flag read write fd flag {t} app v inside open' room =
        let (a, run1, s1) =
          clr_if-Tested v fd dir_rd inside (omega arith) (omega arith) (has flag 1) in
        let (b, run2, s2) =
          clr_if-Tested s1.valid fd dir_wr inside (omega arith) (omega (arith, s1.one_more))
            (has flag 2) in
        let (c, run3, s3) =
          set_if-Tested s2.valid fd dir_rd inside (omega arith)
            (omega (arith, s1.one_more, s2.one_more)) (has flag 4) in
        let (d, run4, s4) =
          set_if-Tested s3.valid fd dir_wr inside (omega arith)
            (omega (arith, s1.one_more, s2.one_more, s3.one_more)) (has flag 8) in
        (
          d,
          rw (open', run1, run2, run3, run4),
          s4.valid,
          s4.masks
              ∙ ap (wanted_if (has flag 8) (want fd dir_wr)) (
                  s3.masks
                  ∙ ap (wanted_if (has flag 4) (want fd dir_rd))
                      (s2.masks ∙ ap (wanted_if (has flag 2) (unwant fd dir_wr)) s1.masks)),
          s4.same_state ∙ (s3.same_state ∙ (s2.same_state ∙ s1.same_state)),
        )
