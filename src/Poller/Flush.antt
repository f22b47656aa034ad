-- ===== src/Poller/Flush.antt =====
-- src/poller.c: `fd_flush_changes` against what the kernel watches.
use zeroserv.Prelude.{
  ℕ, zero, suc, ◌≡◌, refl, ap, subst, ◌∙◌, Bool, true, false, List, [], ◌∷◌, Option, none, some,
  ◌==◌, if◌then◌else◌, arith, get_elem?, Bool-cases, Option-cases, ◌⊎◌, inl, inr,
}
use zeroserv.Epoll.{Epoll, after, ctl_add, ctl_mod, ctl_del}
use zeroserv.Poller.{FdChg, Poller, update, flush_one, flush_list, clear_ptrs, fd_flush_changes}
use zeroserv.Poller.Inv.{Inv, reg}

abbrev mentions : ℕ → List FdChg → Bool
mentions g [] = false
mentions g (c ∷ list) = if c.fd == g then true else mentions g list

mentions_elem :
    (list : List FdChg) (i : ℕ) (c : FdChg) → get_elem? list i ≡ some c → mentions c.fd list ≡ true
mentions_elem [] i c h = absurd (ground arith)
mentions_elem (x ∷ list) zero c h = ground (arith, h)
mentions_elem (x ∷ list) (suc i) c h = ground (arith, mentions_elem list i c h)

clear_ptrs-mentions :
    (list : List FdChg) (ptr : ℕ → Option ℕ) (g : ℕ)
    → clear_ptrs list ptr g ≡ (if mentions g list then none else ptr g)
unfolding clear_ptrs
clear_ptrs-mentions [] ptr g = refl
clear_ptrs-mentions (c ∷ list) ptr g =
    ground (arith, clear_ptrs-mentions list (update ptr c.fd none) g)

module _ (E : Epoll) where
  open E use {State, interest, ctl, interest-ctl}

  -- The call that the two masks select turns either into the new one.
  ctl_after :
      (prev next : ℕ) (entry : Option ℕ)
      → (entry ≡ reg prev) ⊎ (entry ≡ reg next)
      → (prev == next) ≡ false
      → (if prev == 0
          then after ctl_add next entry
          else if next == 0
          then after ctl_del next entry
          else after ctl_mod next entry)
        ≡ reg next
  ctl_after zero zero entry h e = absurd (ground (arith, e))
  ctl_after zero (suc next) entry (inl h) e = rw h
  ctl_after zero (suc next) entry (inr h) e = rw h
  ctl_after (suc prev) zero entry (inl h) e = ground arith
  ctl_after (suc prev) zero entry (inr h) e = ground arith
  ctl_after (suc prev) (suc next) entry (inl h) e = rw h (ground arith)
  ctl_after (suc prev) (suc next) entry (inr h) e = rw h (ground arith)

  flush_one-ctl :
      (c : FdChg) (next g : ℕ) (s : State)
      → (c.prev == next) ≡ false
      → interest g (flush_one E c next s) ≡ (
          if c.fd == g
          then (if c.prev == 0
              then after ctl_add next (interest g s)
              else if next == 0
              then after ctl_del next (interest g s)
              else after ctl_mod next (interest g s))
          else interest g s)
  unfolding flush_one
  flush_one-ctl c next g s e = elim (Bool-cases (c.prev == 0)) [
    | inl add ↦ rw (e, add) (interest-ctl ctl_add c.fd next g s)
    | inr watched ↦ elim (Bool-cases (next == 0)) [
      | inl del ↦ rw (e, watched, del) (interest-ctl ctl_del c.fd next g s)
      | inr change ↦ rw (e, watched, change) (interest-ctl ctl_mod c.fd next g s)
    ]
  ]

  flush_one-interest :
      (c : FdChg) (next g : ℕ) (s : State)
      → (interest c.fd s ≡ reg c.prev) ⊎ (interest c.fd s ≡ reg next)
      → interest g (flush_one E c next s) ≡ (if c.fd == g then reg next else interest g s)
  unfolding flush_one
  flush_one-interest c next g s h = elim (Bool-cases (c.fd == g)) [
    | inr other ↦ elim (Bool-cases (c.prev == next)) [
      | inl same ↦ rw (same, other)
      | inr e ↦ flush_one-ctl c next g s e ∙ rw other
    ]
    | inl here ↦
        let eq : c.fd ≡ g = ground (arith, here) in
        let at : (interest g s ≡ reg c.prev) ⊎ (interest g s ≡ reg next) =
          subst (λ n. (interest n s ≡ reg c.prev) ⊎ (interest n s ≡ reg next)) eq h in
        elim (Bool-cases (c.prev == next)) [
          | inr e ↦ flush_one-ctl c next g s e ∙ rw here (ctl_after c.prev next (interest g s) at e)
          | inl same ↦
              let masks : c.prev ≡ next = ground (arith, same) in
              rw (same, here) (elim at [ inl told ↦ told ∙ ap reg masks | inr done ↦ done ])
        ]
  ]

  -- Entries that hold what the kernel watches, or that were flushed already.
  abbrev Pending : List FdChg → (ℕ → ℕ) → State → Type 0
  Pending list evts s =
      (i : ℕ) (c : FdChg)
      → get_elem? list i ≡ some c
      → (interest c.fd s ≡ reg c.prev) ⊎ (interest c.fd s ≡ reg (evts c.fd))

  flush_one-Pending :
      (c : FdChg) (list : List FdChg) (evts : ℕ → ℕ) (s : State)
      → Pending (c ∷ list) evts s
      → Pending list evts (flush_one E c (evts c.fd) s)
  flush_one-Pending c list evts s pending i d h =
      let law = flush_one-interest c (evts c.fd) d.fd s (pending 0 c refl) in
      elim (Bool-cases (c.fd == d.fd)) [
        | inl same ↦
            let eq : c.fd ≡ d.fd = ground (arith, same) in
            inr (law ∙ rw same (ap (λ n. reg (evts n)) eq))
        | inr other ↦ elim (pending (suc i) d h) [
          | inl told ↦ inl (law ∙ rw other told)
          | inr done ↦ inr (law ∙ rw other done)
        ]
      ]

  flush_list-interest :
      (list : List FdChg) (evts : ℕ → ℕ) (s : State)
      → Pending list evts s
      → (g : ℕ)
      → interest g (flush_list E list evts s)
        ≡ (if mentions g list then reg (evts g) else interest g s)
  unfolding flush_list
  flush_list-interest [] evts s pending g = refl
  flush_list-interest (c ∷ list) evts s pending g =
      let rest =
        flush_list-interest list evts (flush_one E c (evts c.fd) s)
          (flush_one-Pending c list evts s pending) g in
      let law = flush_one-interest c (evts c.fd) g s (pending 0 c refl) in
      elim (Bool-cases (c.fd == g)) [
        | inr other ↦ rest ∙ rw (law, other)
        | inl same ↦
            let eq : c.fd ≡ g = ground (arith, same) in
            rest ∙ rw (law, same) (ground (arith, ap (λ n. reg (evts n)) eq))
      ]

  -- Under the invariant `fd_flush_changes` makes the kernel watch every descriptor exactly as
  -- wanted, changes no wanted event, empties the list, and keeps the invariant.
  pub fd_flush_changes-synced :
      {p : Poller} {s : State}
      → Inv E p s
      → let (q, s') = fd_flush_changes E p s in
        ((fd : ℕ) → interest fd s' ≡ reg (p.evts fd))
        × (q.evts ≡ p.evts)
        × (q.chg_list ≡ [])
        × Inv E q s'
  unfolding fd_flush_changes
  fd_flush_changes-synced {p} {s} inv =
      let law = flush_list-interest p.chg_list p.evts s (λ i c h. inl (inv.told i c h)) in
      let synced : (fd : ℕ) → interest fd (flush_list E p.chg_list p.evts s) ≡ reg (p.evts fd) =
        λ fd. elim (Bool-cases (mentions fd p.chg_list)) [
          | inl there ↦ law fd ∙ rw there
          | inr gone ↦ law fd ∙ rw gone (inv.idle fd (unlisted p fd inv.listed gone))
        ] in
      (
        synced,
        refl,
        refl,
        record {
          small = inv.small;
          told = λ i c h. absurd (ground arith);
          orphans = λ i c h. absurd (ground arith);
          idle = λ fd h. synced fd;
          listed = λ fd i h. absurd (omega (arith, no_ptr p fd i inv.listed h));
        },
      )
    where
      unlisted :
          (p : Poller) (fd : ℕ)
          → ((g i : ℕ)
              → p.chg_ptr g ≡ some i
              → (prev : ℕ) × (get_elem? p.chg_list i ≡ some (record { prev = prev; fd = g })))
          → mentions fd p.chg_list ≡ false
          → p.chg_ptr fd ≡ none
      unlisted p fd listed gone = elim (Option-cases (p.chg_ptr fd)) [
        | inl e ↦ e
        | inr (i, e) ↦
            let (prev, there) = listed fd i e in
            absurd
              (ground (arith, mentions_elem p.chg_list i (record { prev = prev; fd = fd }) there))
      ]

      no_ptr :
          (p : Poller) (fd i : ℕ)
          → ((g i : ℕ)
              → p.chg_ptr g ≡ some i
              → (prev : ℕ) × (get_elem? p.chg_list i ≡ some (record { prev = prev; fd = g })))
          → clear_ptrs p.chg_list p.chg_ptr fd ≡ some i
          → zero ≡ suc zero
      no_ptr p fd i listed h = elim (Bool-cases (mentions fd p.chg_list)) [
        | inl there ↦ absurd (ground (arith, clear_ptrs-mentions p.chg_list p.chg_ptr fd))
        | inr gone ↦
            absurd (
              ground
                (arith, clear_ptrs-mentions p.chg_list p.chg_ptr fd, unlisted p fd listed gone))
      ]
