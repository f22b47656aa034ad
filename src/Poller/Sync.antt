-- ===== src/Poller/Sync.antt =====
-- src/poller.c: sequences of `__fd_set`, `__fd_clr`, `__fd_rem` and `__fd_clo`, and the flush
-- behind them.
use Prim.Native.Nat.{bit_and, bit_or}
use zeroserv.Prelude.{
  ℕ, zero, suc, ◌+◌, ◌-◌, ◌≤◌, ◌<◌, ◌≡◌, refl, sym, ap, ◌∙◌, fun_ext, true, false, List, [], ◌∷◌,
  ◌==◌, length, arith, Bool-cases, inl, inr,
}
use zeroserv.Prelude.{Run, ok, ◌>>=◌}
use zeroserv.Epoll.{Epoll}
use zeroserv.Poller.{Poller, update, dir2msk, fd_set, fd_clr, fd_rem, fd_clo, fd_flush_changes}
use zeroserv.Poller.Inv.{Inv, reg, change-Changed}
use zeroserv.Poller.Close.{fd_clo-Inv}
use zeroserv.Poller.Flush.{fd_flush_changes-synced}

-- `shut` is `fd_clo` with the `close` behind it, as `fd_delete` calls them.
pub data Op : Type 0 where
  want : ℕ → ℕ → Op
  unwant : ℕ → ℕ → Op
  drop_all : ℕ → Op
  shut : ℕ → Op

-- The specification: what an operation makes of the wanted events, one mask for each descriptor.
abbrev pub wanted : Op → (ℕ → ℕ) → ℕ → ℕ
wanted (want fd dir) evts = update evts fd (bit_or (evts fd) (dir2msk dir))
wanted (unwant fd dir) evts = update evts fd (bit_and (evts fd) (3 - dir2msk dir))
wanted (drop_all fd) evts = update evts fd 0
wanted (shut fd) evts = update evts fd 0

abbrev pub wanted_all : List Op → (ℕ → ℕ) → ℕ → ℕ
wanted_all [] evts = evts
wanted_all (op ∷ ops) evts = wanted_all ops (wanted op evts)

-- The descriptor is inside the arrays, and the direction is one of the two.
abbrev pub IsInside : ℕ → Op → Type 0
IsInside maxconn (want fd dir) = (fd < maxconn) × (dir < 2)
IsInside maxconn (unwant fd dir) = (fd < maxconn) × (dir < 2)
IsInside maxconn (drop_all fd) = fd < maxconn
IsInside maxconn (shut fd) = fd < maxconn

abbrev pub AreInside : ℕ → List Op → Type 0
AreInside maxconn [] = Unit {0}
AreInside maxconn (op ∷ ops) = IsInside maxconn op × AreInside maxconn ops

or_small : (m dir : ℕ) → m < 4 → dir < 2 → bit_or m (dir2msk dir) < 4
or_small zero zero h k = ground arith
or_small (suc zero) zero h k = ground arith
or_small (suc (suc zero)) zero h k = ground arith
or_small (suc (suc (suc zero))) zero h k = ground arith
or_small zero (suc zero) h k = ground arith
or_small (suc zero) (suc zero) h k = ground arith
or_small (suc (suc zero)) (suc zero) h k = ground arith
or_small (suc (suc (suc zero))) (suc zero) h k = ground arith
or_small (suc (suc (suc (suc m)))) dir h k = absurd (omega arith)
or_small m (suc (suc dir)) h k = absurd (omega arith)

-- Setting a bit that is set, and clearing one that is not, change nothing.
or_same :
    (m dir : ℕ)
    → m < 4
    → dir < 2
    → (bit_and m (dir2msk dir) == 0) ≡ false
    → bit_or m (dir2msk dir) ≡ m
or_same zero zero h k e = ground (arith, e)
or_same (suc zero) zero h k e = refl
or_same (suc (suc zero)) zero h k e = ground (arith, e)
or_same (suc (suc (suc zero))) zero h k e = refl
or_same zero (suc zero) h k e = ground (arith, e)
or_same (suc zero) (suc zero) h k e = ground (arith, e)
or_same (suc (suc zero)) (suc zero) h k e = refl
or_same (suc (suc (suc zero))) (suc zero) h k e = refl
or_same (suc (suc (suc (suc m)))) dir h k e = absurd (omega arith)
or_same m (suc (suc dir)) h k e = absurd (omega arith)

and_clear :
    (m dir : ℕ)
    → m < 4
    → dir < 2
    → (bit_and m (3 - dir2msk dir) < 4)
      × ((bit_and m (dir2msk dir) == 0) ≡ true → bit_and m (3 - dir2msk dir) ≡ m)
and_clear zero zero h k = (omega arith, λ e. refl)
and_clear (suc zero) zero h k = (omega arith, λ e. ground (arith, e))
and_clear (suc (suc zero)) zero h k = (omega arith, λ e. refl)
and_clear (suc (suc (suc zero))) zero h k = (omega arith, λ e. ground (arith, e))
and_clear zero (suc zero) h k = (omega arith, λ e. refl)
and_clear (suc zero) (suc zero) h k = (omega arith, λ e. refl)
and_clear (suc (suc zero)) (suc zero) h k = (omega arith, λ e. ground (arith, e))
and_clear (suc (suc (suc zero))) (suc zero) h k = (omega arith, λ e. ground (arith, e))
and_clear (suc (suc (suc (suc m)))) dir h k = absurd (omega arith)
and_clear m (suc (suc dir)) h k = absurd (omega arith)

update_same : (evts : ℕ → ℕ) (fd v : ℕ) → v ≡ evts fd → evts ≡ update evts fd v
update_same evts fd v h = fun_ext (λ j. elim (Bool-cases (fd == j)) [
  | inl e ↦ rw e (sym (h ∙ ap evts (ground (arith, e))))
  | inr e ↦ rw e refl
])

module _ (E : Epoll) (maxconn : ℕ) where
  open E use {State, interest, close}

  unfoldable pub step : Op → Poller × State → Run (Poller × State)
  step (want fd dir) (p, s) = do (ret, q) ← fd_set maxconn fd dir p; ok (q, s)
  step (unwant fd dir) (p, s) = do (ret, q) ← fd_clr maxconn fd dir p; ok (q, s)
  step (drop_all fd) (p, s) = do q ← fd_rem maxconn fd p; ok (q, s)
  step (shut fd) (p, s) = do q ← fd_clo maxconn fd p; ok (q, close fd s)

  unfoldable pub steps : List Op → Poller × State → Run (Poller × State)
  steps [] x = ok x
  steps (op ∷ ops) x = do y ← step op x; steps ops y

  pub record Stepped (op : Op) (p : Poller) (x : Poller × State) : Type 0 where
    pub valid : Inv E x.0 x.1
    pub masks : x.0.evts ≡ wanted op p.evts
    pub one_more : length x.0.chg_list ≤ length p.chg_list + 1

  module _ {p : Poller} {s : State} (inv : Inv E p s) (room : length p.chg_list < maxconn) where
    unchanged : (op : Op) → p.evts ≡ wanted op p.evts → Stepped op p (p, s)
    unchanged op same = record { valid = inv; masks = same; one_more = omega arith }

    step_want :
        (fd dir : ℕ)
        → fd < maxconn
        → dir < 2
        → (x : Poller × State) × (step (want fd dir) (p, s) ≡ ok x) × Stepped (want fd dir) p x
    unfolding step fd_set
    step_want fd dir inside small = elim (Bool-cases (bit_and (p.evts fd) (dir2msk dir) == 0)) [
      | inr e ↦ (
        (p, s),
        rw e,
        unchanged (want fd dir)
            (update_same p.evts fd _ (or_same (p.evts fd) dir (inv.small fd) small e)),
      )
      | inl e ↦
          let new = bit_or (p.evts fd) (dir2msk dir) in
          let (q, run, same, c) =
            change-Changed E maxconn fd new inv (or_small (p.evts fd) dir (inv.small fd) small)
              inside room in
          (
            (record q { evts = update q.evts fd new }, s),
            rw (e, run),
            record { valid = c.valid; masks = c.masks; one_more = c.one_more },
          )
    ]

    step_unwant :
        (fd dir : ℕ)
        → fd < maxconn
        → dir < 2
        → (x : Poller × State) × (step (unwant fd dir) (p, s) ≡ ok x) × Stepped (unwant fd dir) p x
    unfolding step fd_clr
    step_unwant fd dir inside small =
        let (lt, same') = and_clear (p.evts fd) dir (inv.small fd) small in
        elim (Bool-cases (bit_and (p.evts fd) (dir2msk dir) == 0)) [
          | inl e ↦ ((p, s), rw e, unchanged (unwant fd dir) (update_same p.evts fd _ (same' e)))
          | inr e ↦
              let new = bit_and (p.evts fd) (3 - dir2msk dir) in
              let (q, run, same, c) = change-Changed E maxconn fd new inv lt inside room in
              (
                (record q { evts = update q.evts fd new }, s),
                rw (e, run),
                record { valid = c.valid; masks = c.masks; one_more = c.one_more },
              )
        ]

    step_drop :
        (fd : ℕ)
        → fd < maxconn
        → (x : Poller × State) × (step (drop_all fd) (p, s) ≡ ok x) × Stepped (drop_all fd) p x
    unfolding step fd_rem
    step_drop fd inside = elim (Bool-cases (p.evts fd == 0)) [
      | inl e ↦
          ((p, s), rw e, unchanged (drop_all fd) (update_same p.evts fd 0 (ground (arith, e))))
      | inr e ↦
          let (q, run, same, c) = change-Changed E maxconn fd 0 inv (omega arith) inside room in
          (
            (record q { evts = update q.evts fd 0 }, s),
            rw (e, run),
            record { valid = c.valid; masks = c.masks; one_more = c.one_more },
          )
    ]

    step_shut :
        (fd : ℕ)
        → fd < maxconn
        → (x : Poller × State) × (step (shut fd) (p, s) ≡ ok x) × Stepped (shut fd) p x
    unfolding step
    step_shut fd inside =
        let (q, run, valid, masks, le) = fd_clo-Inv E fd inv maxconn inside in
        ((q, close fd s), rw run, record { valid = valid; masks = masks; one_more = omega arith })

    pub step-Stepped :
        (op : Op)
        → IsInside maxconn op
        → (x : Poller × State) × (step op (p, s) ≡ ok x) × Stepped op p x
    step-Stepped (want fd dir) h = step_want fd dir h.0 h.1
    step-Stepped (unwant fd dir) h = step_unwant fd dir h.0 h.1
    step-Stepped (drop_all fd) h = step_drop fd h
    step-Stepped (shut fd) h = step_shut fd h

  steps-wanted_all :
      (ops : List Op) {p : Poller} {s : State}
      → Inv E p s
      → AreInside maxconn ops
      → length p.chg_list + length ops ≤ maxconn
      → (x : Poller × State) × (steps ops (p, s) ≡ ok x)
        × Inv E x.0 x.1
        × (x.0.evts ≡ wanted_all ops p.evts)
  unfolding steps
  steps-wanted_all [] {p} {s} inv inside room = ((p, s), refl, inv, refl)
  steps-wanted_all (op ∷ ops) {p} {s} inv inside room =
      let (y, run, st) = step-Stepped inv (omega arith) op inside.0 in
      let (x, run', valid, masks) =
        steps-wanted_all ops st.valid inside.1 (omega (arith, st.one_more)) in
      (x, rw run run', valid, masks ∙ ap (wanted_all ops) st.masks)

  -- From a state of the invariant, operations on descriptors inside the arrays, as many as there is
  -- room for in the list of changes, all succeed, and after the flush the kernel watches every
  -- descriptor exactly as the operations, taken in order, want it: no change is lost or doubled,
  -- whatever is closed and opened again in between.
  pub steps-flush :
      (ops : List Op) {p : Poller} {s : State}
      → Inv E p s
      → AreInside maxconn ops
      → length p.chg_list + length ops ≤ maxconn
      → (x : Poller × State) × (steps ops (p, s) ≡ ok x)
        × ((fd : ℕ) → interest fd (fd_flush_changes E x.0 x.1).1 ≡ reg (wanted_all ops p.evts fd))
  steps-flush ops {p} inv inside room =
      let (x, run, valid, masks) = steps-wanted_all ops inv inside room in
      let (synced, _, _, _) = fd_flush_changes-synced E valid in
      (x, run, λ fd. synced fd ∙ ap (λ e. reg (e fd)) masks)
