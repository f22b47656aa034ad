-- ===== src/Poller/Inv.antt =====
-- src/poller.c: the invariant that links the wanted events, the list of changes and the kernel,
-- and the changes of one mask (`alloc_chg_list` and its callers).
use zeroserv.Prelude.{
  ℕ, zero, suc, ◌+◌, ◌≤◌, ◌<◌, ◌≡◌, ◌≢◌, refl, sym, ap, ◌∙◌, true, List, [], ◌∷◌, ◌++◌, Option,
  none, some, ltb, ◌==◌, length, arith, get_elem?, length-append, Bool-cases, Option-cases, ◌⊎◌,
  subst, inl, inr,
}
use zeroserv.Prelude.{ok}
use zeroserv.Epoll.{Epoll}
use zeroserv.Poller.{FdChg, Poller, update, alloc_chg_list}

-- The kernel's entry for a mask: a descriptor with no wanted event is not watched.
abbrev pub reg : ℕ → Option ℕ
reg zero = none
reg (suc n) = some (suc n)

get_elem?-append_left :
    (xs : List FdChg) (c d : FdChg) (i : ℕ)
    → get_elem? xs i ≡ some d
    → get_elem? (xs ++ c ∷ []) i ≡ some d
get_elem?-append_left [] c d i h = absurd (ground arith)
get_elem?-append_left (x ∷ xs) c d zero h = h
get_elem?-append_left (x ∷ xs) c d (suc i) h = get_elem?-append_left xs c d i h

get_elem?-append_end : (xs : List FdChg) (c : FdChg) → get_elem? (xs ++ c ∷ []) (length xs) ≡ some c
get_elem?-append_end [] c = refl
get_elem?-append_end (x ∷ xs) c = get_elem?-append_end xs c

get_elem?-append_cases :
    (xs : List FdChg) (c d : FdChg) (i : ℕ)
    → get_elem? (xs ++ c ∷ []) i ≡ some d
    → (get_elem? xs i ≡ some d) ⊎ ((i ≡ length xs) × (c ≡ d))
get_elem?-append_cases [] c d zero h = inr (refl, ground (arith, h))
get_elem?-append_cases [] c d (suc i) h = inl h
get_elem?-append_cases (x ∷ xs) c d zero h = inl h
get_elem?-append_cases (x ∷ xs) c d (suc i) h = elim (get_elem?-append_cases xs c d i h) [
  | inl e ↦ inl e
  | inr (e, k) ↦ inr (ap suc e, k)
]

module _ (E : Epoll) where
  open E use {State, interest}

  pub record Inv (p : Poller) (s : State) : Type 0 where
    pub small : (fd : ℕ) → p.evts fd < 4
    pub told : (i : ℕ) (c : FdChg) → get_elem? p.chg_list i ≡ some c → interest c.fd s ≡ reg c.prev
    pub orphans :
        (i : ℕ) (c : FdChg)
        → get_elem? p.chg_list i ≡ some c
        → (p.chg_ptr c.fd ≡ some i) ⊎ (c.prev ≡ 0)
    pub idle : (fd : ℕ) → p.chg_ptr fd ≡ none → interest fd s ≡ reg (p.evts fd)
    pub listed :
        (fd i : ℕ)
        → p.chg_ptr fd ≡ some i
        → (prev : ℕ) × (get_elem? p.chg_list i ≡ some (record { prev = prev; fd = fd }))

  idle_other :
      (fd j new : ℕ) (p : Poller) {s : State}
      → ((g : ℕ) → p.chg_ptr g ≡ none → interest g s ≡ reg (p.evts g))
      → p.chg_ptr fd ≢ none
      → p.chg_ptr j ≡ none
      → interest j s ≡ reg (update p.evts fd new j)
  idle_other fd j new p idle has none' = elim (Bool-cases (fd == j)) [
    | inl e ↦ absurd (has (ap p.chg_ptr (ground (arith, e)) ∙ none'))
    | inr e ↦ rw e (idle j none')
  ]

  pub small_update :
      (fd new j : ℕ) (p : Poller) → p.evts j < 4 → new < 4 → update p.evts fd new j < 4
  small_update fd new j p h k = ground arith

  -- What a change of the mask of `fd` leaves, with an entry for `fd` in the list.
  pub record Changed (fd new : ℕ) (p q : Poller) (s : State) : Type 0 where
    pub valid : Inv q s
    pub masks : q.evts ≡ update p.evts fd new
    pub one_more : length q.chg_list ≤ length p.chg_list + 1

  abbrev entered : ℕ → Poller → Poller
  entered fd p = record p {
    chg_list = p.chg_list ++ record { prev = p.evts fd; fd = fd } ∷ [];
    chg_ptr = update p.chg_ptr fd (some (length p.chg_list));
  }

  entered-listed :
      (fd : ℕ) {p : Poller} {s : State}
      → Inv p s
      → (j i : ℕ) → (entered fd p).chg_ptr j ≡ some i
      → (prev : ℕ) × (get_elem? (entered fd p).chg_list i ≡ some (record { prev = prev; fd = j }))
  entered-listed fd {p} inv j i h = elim (Bool-cases (fd == j)) [
    | inl e ↦
        let at : length p.chg_list ≡ i = ground (arith, h, e) in
        let eq : fd ≡ j = ground (arith, e) in
        (
          p.evts fd,
          rw (← at, ← eq) (get_elem?-append_end p.chg_list (record { prev = p.evts fd; fd = fd })),
        )
    | inr e ↦
        let (prev, there) = inv.listed j i (ground (arith, h, e)) in
        (prev, get_elem?-append_left p.chg_list _ _ i there)
  ]

  entered-told :
      (fd : ℕ) {p : Poller} {s : State}
      → Inv p s
      → p.chg_ptr fd ≡ none
      → (i : ℕ) (c : FdChg) → get_elem? (entered fd p).chg_list i ≡ some c
      → interest c.fd s ≡ reg c.prev
  entered-told fd {p} {s} inv free i c h =
      elim (get_elem?-append_cases p.chg_list (record { prev = p.evts fd; fd = fd }) c i h) [
        | inl old ↦ inv.told i c old
        | inr (e, k) ↦ subst (λ d. interest d.fd s ≡ reg d.prev) k (inv.idle fd free)
      ]

  entered-orphans :
      (fd : ℕ) {p : Poller} {s : State}
      → Inv p s
      → p.chg_ptr fd ≡ none
      → (i : ℕ) (c : FdChg) → get_elem? (entered fd p).chg_list i ≡ some c
      → ((entered fd p).chg_ptr c.fd ≡ some i) ⊎ (c.prev ≡ 0)
  entered-orphans fd {p} inv free i c h =
      elim (get_elem?-append_cases p.chg_list (record { prev = p.evts fd; fd = fd }) c i h) [
        | inr (e, k) ↦ let same : fd ≡ c.fd = ap (λ d. d.fd) k in inl (ground (arith, same, e))
        | inl old ↦ elim (inv.orphans i c old) [
          | inr zero' ↦ inr zero'
          | inl ptr ↦ elim (Bool-cases (fd == c.fd)) [
            | inr other ↦ inl (rw other ptr)
            | inl same ↦
                let eq : fd ≡ c.fd = ground (arith, same) in
                absurd (ground (arith, sym (ap p.chg_ptr eq) ∙ free, ptr))
          ]
        ]
      ]

  entered-Changed :
      (fd new : ℕ) {p : Poller} {s : State}
      → Inv p s
      → new < 4
      → p.chg_ptr fd ≡ none
      → Changed fd new p (record (entered fd p) { evts = update p.evts fd new }) s
  entered-Changed fd new {p} {s} inv lt free = record {
    valid = record {
      small = λ j. small_update fd new j p (inv.small j) lt;
      told = entered-told fd inv free;
      orphans = entered-orphans fd inv free;
      idle = λ j h. ground (arith, h, inv.idle j);
      listed = entered-listed fd inv;
    };
    masks = refl;
    one_more = omega (arith, length-append p.chg_list (record { prev = p.evts fd; fd = fd } ∷ []));
  }

  -- With room in the list, the mask of a descriptor can be changed.
  pub change-Changed :
      {p : Poller} {s : State} (maxconn fd new : ℕ)
      → Inv p s
      → new < 4
      → fd < maxconn
      → length p.chg_list < maxconn
      → (q : Poller) × (alloc_chg_list maxconn fd (p.evts fd) p ≡ ok q)
        × (q.evts ≡ p.evts)
        × Changed fd new p (record q { evts = update q.evts fd new }) s
  unfolding alloc_chg_list
  change-Changed {p} {s} maxconn fd new inv lt inside room =
      let here : ltb fd maxconn ≡ true = ground arith in
      let space : ltb (length p.chg_list) maxconn ≡ true = ground arith in
      elim (Option-cases (p.chg_ptr fd)) [
        | inl free ↦
            (entered fd p, rw (here, free, space), refl, entered-Changed fd new inv lt free)
        | inr (i, has) ↦ (
          p,
          rw (here, has),
          refl,
          record {
            valid = record {
              small = λ j. small_update fd new j p (inv.small j) lt;
              told = inv.told;
              orphans = inv.orphans;
              idle = λ j h. idle_other fd j new p inv.idle (λ e. ground (arith, e, has)) h;
              listed = inv.listed;
            };
            masks = refl;
            one_more = omega arith;
          },
        )
      ]
