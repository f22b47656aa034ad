-- ===== src/Routing/Ports/Virtual.antt =====
-- src/handler_udp/routing/local_port.c: the search of `register_virtual_port`.
use zeroserv.Prelude.{
  ℕ, zero, suc, ◌+◌, ◌%◌, ◌≤◌, ◌<◌, ◌≡◌, ◌≢◌, refl, ap, true, false, List, [], ◌∷◌, ◌++◌, some,
  ◌==◌, length, arith, elem, distinct, pigeonhole, Bool-cases, Option-cases, inl, inr,
}
use zeroserv.UtHash.{UtHash}
use zeroserv.Routing.Ports.{
  LocalPort, Ports, max_port, u16, get_local_port, add_port, virtual_loop, register_virtual_port,
}
use zeroserv.Routing.Ports.Inv.{Inv, used, add_port-Inv, get_local_port-elem}

-- The ids that the loop tries from `last` on, going round at 2 ^ 16.
probes : ℕ → ℕ → List ℕ
probes last zero = []
probes last (suc n) = (last + 1) % u16 ∷ probes ((last + 1) % u16) n

length-probes : (last n : ℕ) → length (probes last n) ≡ n
unfolding probes
length-probes last zero = refl
length-probes last (suc n) = ap suc (length-probes ((last + 1) % u16) n)

elem-probes :
    (a last n : ℕ)
    → last < u16
    → elem a (probes last n) ≡ true
    → (k : ℕ) × (0 < k) × (k ≤ n) × (a ≡ (last + k) % u16)
unfolding probes elem
elem-probes a last zero lt h = absurd (ground arith)
elem-probes a last (suc n) lt h = elim (Bool-cases ((last + 1) % u16 == a)) [
  | inl e ↦ (1, omega arith, omega arith, ground (arith, e))
  | inr e ↦
      let (k, pos, le, eq) = elem-probes a ((last + 1) % u16) n (omega arith) (ground arith) in
      (suc k, omega arith, omega arith, omega arith)
]

distinct-probes : (last n : ℕ) → last < u16 → n < u16 → distinct (probes last n) ≡ true
unfolding probes distinct
distinct-probes last zero lt h = refl
distinct-probes last (suc n) lt h =
    let id = (last + 1) % u16 in
    let rest = distinct-probes id n (omega arith) (omega arith) in
    elim (Bool-cases (elem id (probes id n))) [
      | inr no' ↦ rw (no', rest) refl
      | inl twice ↦
          let (k, pos, le, eq) = elem-probes id id n (omega arith) twice in absurd (omega arith)
    ]

elem-probes_mono :
    (a last m n : ℕ) → m ≤ n → elem a (probes last m) ≡ true → elem a (probes last n) ≡ true
unfolding probes elem
elem-probes_mono a last zero n h e = absurd (ground arith)
elem-probes_mono a last (suc m) zero h e = absurd (omega arith)
elem-probes_mono a last (suc m) (suc n) h e =
    ground (arith, elem-probes_mono a ((last + 1) % u16) m n)

module _ (U : UtHash LocalPort) where
  -- Either the loop ends within the fuel, at a free id, or every id that it tried is in use.
  data Outcome (fuel context : ℕ) (ps : Ports U) : Type 0 where
    found :
        (id : ℕ)
        → id < u16
        → elem id (used U ps) ≡ false
        → virtual_loop U fuel 0 context ps
          ≡ some (
            record { id = id; context = context },
            add_port U id context (record ps { last = id }),
          )
        → Outcome fuel context ps
    tried :
        ((a : ℕ) → elem a (probes ps.last fuel) ≡ true → elem a (used U ps) ≡ true)
        → Outcome fuel context ps

  virtual_loop-Outcome : (fuel context : ℕ) (ps : Ports U) → Outcome fuel context ps
  unfolding virtual_loop probes elem
  virtual_loop-Outcome zero context ps = tried (λ a h. ground arith)
  virtual_loop-Outcome (suc fuel) context ps =
      let id = (ps.last + 1) % u16 in
      let ps' : Ports U = record ps { last = id } in
      elim (Option-cases (get_local_port U 0 id ps')) [
        | inl e ↦
            found id (omega arith) (ground (arith, get_local_port-elem U id ps'))
              (rw (e, virtual_loop) refl)
        | inr (p, e) ↦
            let there : elem id (used U ps) ≡ true = ground (arith, get_local_port-elem U id ps') in
            elim (virtual_loop-Outcome fuel context ps') [
              | found id' lt new run ↦ found id' lt new (rw (e, virtual_loop) run)
              | tried all ↦ tried (λ a h. ground (arith, there, all a))
            ]
      ]

  -- Below the limit of 13 ports, and with the two bytes zero, the search ends within 13 rounds: the
  -- port that it hands out was not in use, is added, and the invariant is kept.
  pub register_virtual_port-fresh :
      (fuel context : ℕ) {ps : Ports U}
      → Inv U ps
      → ps.last < u16
      → ps.cur_port ≢ max_port
      → max_port ≤ fuel
      → (id : ℕ) × (ps' : Ports U) × (register_virtual_port U fuel 0 context ps
          ≡ some (some (record { id = id; context = context }), ps'))
        × (elem id (used U ps) ≡ false)
        × Inv U ps'
        × (used U ps' ≡ used U ps ++ id ∷ [])
        × (ps'.last ≡ id)
        × (id < u16)
  unfolding register_virtual_port add_port
  register_virtual_port-fresh fuel context {ps} inv lt room enough =
      elim (virtual_loop-Outcome fuel context ps) [
        | found id small new run ↦
            let ps' : Ports U = record ps { last = id } in
            let inv' : Inv U ps' = record {
              once = inv.once;
              small = inv.small;
              count = inv.count;
              limit = inv.limit;
              ids = inv.ids;
            } in
            let (valid, more, _) = add_port-Inv U inv' id context small new room in
            (id, add_port U id context ps', ground (arith, run), new, valid, more, refl, small)
        | tried all ↦
            let short =
              pigeonhole (probes ps.last max_port) (used U ps)
                (distinct-probes ps.last max_port lt (omega arith))
                (λ a m. all a (elem-probes_mono a ps.last max_port fuel enough m)) in
            absurd (omega (arith, length-probes ps.last max_port, short, inv.count, inv.limit))
      ]
