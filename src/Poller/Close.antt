-- ===== src/Poller/Close.antt =====
-- src/poller.c: `__fd_clo` and the invariant.
use zeroserv.Prelude.{
  ℕ, zero, suc, ◌<◌, ◌≤◌, ◌≡◌, ◌≢◌, refl, sym, ap, subst, ◌∙◌, true, false, List, [], ◌∷◌, Option,
  none, some, ltb, ◌==◌, if◌then◌else◌, length, arith, get_elem?, Bool-cases, Option-cases, ◌⊎◌,
  inl, inr,
}
use zeroserv.Prelude.{ok}
use zeroserv.Epoll.{Epoll}
use zeroserv.Poller.{FdChg, Poller, update, forget_prev, fd_clo}
use zeroserv.Poller.Inv.{Inv, reg, small_update}

abbrev forgot : Option FdChg → Option FdChg
forgot none = none
forgot (some c) = some (record c { prev = 0 })

abbrev fd_of : Option FdChg → ℕ
fd_of none = 0
fd_of (some c) = c.fd

get_elem?-forget_prev :
    (i j : ℕ) (list : List FdChg)
    → get_elem? (forget_prev i list) j
      ≡ (if i == j then forgot (get_elem? list j) else get_elem? list j)
unfolding forget_prev
get_elem?-forget_prev i j [] = ground arith
get_elem?-forget_prev zero zero (c ∷ list) = refl
get_elem?-forget_prev zero (suc j) (c ∷ list) = ground arith
get_elem?-forget_prev (suc i) zero (c ∷ list) = ground arith
get_elem?-forget_prev (suc i) (suc j) (c ∷ list) = ground (arith, get_elem?-forget_prev i j list)

pub length-forget_prev : (i : ℕ) (list : List FdChg) → length (forget_prev i list) ≡ length list
unfolding forget_prev
length-forget_prev i [] = refl
length-forget_prev zero (c ∷ list) = refl
length-forget_prev (suc i) (c ∷ list) = ap suc (length-forget_prev i list)

-- An entry of the list with the forgotten one is that one, or an entry of the old list.
forget_prev_cases :
    (i j : ℕ) (list : List FdChg) (c d : FdChg)
    → get_elem? list i ≡ some d
    → get_elem? (forget_prev i list) j ≡ some c
    → ((i ≡ j) × (record d { prev = 0 } ≡ c)) ⊎ ((i ≢ j) × (get_elem? list j ≡ some c))
forget_prev_cases i j list c d h k = elim (Bool-cases (i == j)) [
  | inr e ↦
      let same : get_elem? (forget_prev i list) j ≡ get_elem? list j =
        get_elem?-forget_prev i j list ∙ ground (arith, e) in
      inr (ground (arith, e), sym same ∙ k)
  | inl e ↦
      let eq : i ≡ j = ground (arith, e) in
      let there : get_elem? list j ≡ some d = subst (λ n. get_elem? list n ≡ some d) eq h in
      let now : get_elem? (forget_prev i list) j ≡ some (record d { prev = 0 }) =
        get_elem?-forget_prev i j list ∙ rw (e, there) in
      inl (eq, ground (arith, sym now ∙ k))
]

module _ (E : Epoll) where
  open E use {State, interest, close, interest-close}

  closed : (fd : ℕ) (s : State) → interest fd (close fd s) ≡ none
  closed fd s = ground (arith, interest-close fd fd s)

  still : (fd j : ℕ) (s : State) → (fd == j) ≡ false → interest j (close fd s) ≡ interest j s
  still fd j s e = rw (interest-close, e)

  module _ {p : Poller} {s : State} (fd : ℕ) (inv : Inv E p s) where
    -- The entry of a closed descriptor without a pointer says that nothing is watched.
    orphan_told :
        (c : FdChg)
        → interest c.fd s ≡ reg c.prev
        → (fd ≡ c.fd → c.prev ≡ 0)
        → interest c.fd (close fd s) ≡ reg c.prev
    orphan_told c told orphan = elim (Bool-cases (fd == c.fd)) [
      | inr e ↦ still fd c.fd s e ∙ told
      | inl e ↦
          let eq : fd ≡ c.fd = ground (arith, e) in
          subst (λ n. interest n (close fd s) ≡ none) eq (closed fd s) ∙ sym (ap reg (orphan eq))
    ]

    idle_close :
        (j : ℕ)
        → ((fd == j) ≡ false → interest j s ≡ reg (p.evts j))
        → interest j (close fd s) ≡ reg (update p.evts fd 0 j)
    idle_close j idle = elim (Bool-cases (fd == j)) [
      | inr e ↦ still fd j s e ∙ rw e (idle e)
      | inl e ↦ rw e (subst (λ n. interest n (close fd s) ≡ none) (ground (arith, e)) (closed fd s))
    ]

    free-Inv : p.chg_ptr fd ≡ none → Inv E (record p { evts = update p.evts fd 0 }) (close fd s)
    free-Inv free = record {
      small = λ j. small_update E fd 0 j p (inv.small j) (omega arith);
      told = λ i c h. orphan_told c (inv.told i c h) (λ eq. elim (inv.orphans i c h) [
        | inr zero' ↦ zero'
        | inl ptr ↦ absurd (ground (arith, sym (ap p.chg_ptr eq) ∙ free, ptr))
      ]);
      orphans = inv.orphans;
      idle = λ j h. idle_close j (λ e. inv.idle j h);
      listed = inv.listed;
    }

    module _ (at : ℕ) (has : p.chg_ptr fd ≡ some at) where
      abbrev left : Poller
      left = record {
        evts = update p.evts fd 0;
        chg_list = forget_prev at p.chg_list;
        chg_ptr = update p.chg_ptr fd none;
      }

      not_pointed : (i : ℕ) (c : FdChg) → at ≢ i → p.chg_ptr c.fd ≡ some i → fd ≢ c.fd
      not_pointed i c ne ptr eq = ne (ground (arith, sym (ap p.chg_ptr eq) ∙ has, ptr))

      left-Inv : Inv E left (close fd s)
      left-Inv =
          let (prev, there) = inv.listed fd at has in
          record {
            small = λ j. small_update E fd 0 j p (inv.small j) (omega arith);
            told = λ i c h.
                elim (forget_prev_cases at i p.chg_list c (record { prev = prev; fd = fd }) there
                  h) [
                    | inl (e, k) ↦
                        subst (λ d. interest d.fd (close fd s) ≡ reg d.prev) k (closed fd s)
                    | inr (ne, old) ↦ orphan_told c (inv.told i c old) (λ eq.
                        elim (inv.orphans i c old) [
                          | inr zero' ↦ zero'
                          | inl ptr ↦ absurd (not_pointed i c ne ptr eq)
                        ])
                  ];
            orphans = λ i c h.
                elim (forget_prev_cases at i p.chg_list c (record { prev = prev; fd = fd }) there
                  h) [
                    | inl (e, k) ↦ inr (sym (ap (λ d. d.prev) k))
                    | inr (ne, old) ↦ elim (inv.orphans i c old) [
                      | inr zero' ↦ inr zero'
                      | inl ptr ↦ inl (ground (arith, not_pointed i c ne ptr, ptr))
                    ]
                  ];
            idle = λ j h. idle_close j (λ e. inv.idle j (ground (arith, h, e)));
            listed = λ j i h.
                let other : (fd == j) ≡ false = ground (arith, h) in
                let ptr : p.chg_ptr j ≡ some i = ground (arith, h, other) in
                let (prev', there') = inv.listed j i ptr in
                let apart : (at == i) ≡ false = elim (Bool-cases (at == i)) [
                  | inr e ↦ e
                  | inl e ↦
                      let eq : at ≡ i = ground (arith, e) in
                      let one : FdChg = record { prev = prev; fd = fd } in
                      let two : FdChg = record { prev = prev'; fd = j } in
                      let first : get_elem? p.chg_list i ≡ some one =
                        subst (λ n. get_elem? p.chg_list n ≡ some one) eq there in
                      let entry : some one ≡ some two = sym first ∙ there' in
                      let same_fd : fd ≡ j = ap fd_of entry in
                      absurd (ground (arith, same_fd, other))
                ] in
                (prev', get_elem?-forget_prev at i p.chg_list ∙ rw apart there');
          }

    -- `fd_clo` and the `close` behind it.
    pub fd_clo-Inv :
        (maxconn : ℕ)
        → fd < maxconn
        → (q : Poller) × (fd_clo maxconn fd p ≡ ok q)
          × Inv E q (close fd s)
          × (q.evts ≡ update p.evts fd 0)
          × (length q.chg_list ≤ length p.chg_list)
    unfolding fd_clo
    fd_clo-Inv maxconn inside =
        let here : ltb fd maxconn ≡ true = ground arith in
        elim (Option-cases (p.chg_ptr fd)) [
          | inl free ↦ (
            record p { evts = update p.evts fd 0 },
            rw (here, free),
            free-Inv free,
            refl,
            omega arith,
          )
          | inr (at, has) ↦ (
            left at has,
            rw (here, has),
            left-Inv at has,
            refl,
            omega (arith, length-forget_prev at p.chg_list),
          )
        ]
