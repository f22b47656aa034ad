-- ===== src/Poller/Table.antt =====
-- src/fd.c: `fd_delete` on the table of descriptors, and `maxfd`.
use zeroserv.Prelude.{
  ℕ, zero, suc, ◌+◌, ◌≤◌, ◌<◌, ◌≡◌, ◌≢◌, refl, sym, ap, subst, ◌∙◌, inl, inr, none, ◌==◌,
  if◌then◌else◌, arith, Bool-cases,
}
use zeroserv.Prelude.{ok}
use zeroserv.Epoll.{Epoll}
use zeroserv.Poller.{FdTab, update, shrink, fd_delete}
use zeroserv.Poller.Inv.{Inv}
use zeroserv.Poller.Close.{fd_clo-Inv}

-- `n` is the least bound: everything from it on is closed, and what is just below it is open.
pub record IsBound (state : ℕ → ℕ) (n : ℕ) : Type 0 where
  pub above : (fd : ℕ) → n ≤ fd → state fd ≡ 0
  pub below : (fd : ℕ) → n ≡ fd + 1 → state fd ≢ 0

shrink-IsBound :
    (state : ℕ → ℕ) (n : ℕ) → ((fd : ℕ) → n ≤ fd → state fd ≡ 0) → IsBound state (shrink state n)
unfolding shrink
shrink-IsBound state zero above = record { above = above; below = λ fd h. absurd (omega arith) }
shrink-IsBound state (suc n) above = elim (Bool-cases (state n == 0)) [
  | inl closed ↦ rw closed (
      shrink-IsBound state n (λ fd h. elim (Bool-cases (n == fd)) [
        | inl e ↦
            let same : n ≡ fd = ground (arith, e) in
            subst (λ k. state k ≡ 0) same (ground (arith, closed))
        | inr e ↦ above fd (ground (arith, e))
      ]))
  | inr open' ↦ rw open' (record {
    above = above;
    below = λ fd h z. let eq : fd ≡ n = omega arith in ground (arith, open', sym (ap state eq) ∙ z);
  })
]

-- The descriptors of the table: `maxfd` is the least bound of the open ones.
pub record IsTable (E : Epoll) (t : FdTab E) : Type 0 where
  pub linked : Inv E t.poller t.epoll
  pub bound : IsBound t.state t.maxfd

module _ (E : Epoll) where
  open E use {interest}

  -- `fd_delete` of a descriptor inside the arrays succeeds on a valid table: the descriptor is
  -- closed, wants no event and is not watched any more, the others stay as they were, and `maxfd`
  -- is again one above the highest open descriptor, or 0 if none is open.
  pub fd_delete-IsTable :
      {t : FdTab E} (maxconn fd : ℕ)
      → IsTable E t
      → fd < maxconn
      → (u : FdTab E) × (fd_delete E maxconn fd t ≡ ok u)
        × IsTable E u
        × (u.state ≡ update t.state fd 0)
        × (u.poller.evts ≡ update t.poller.evts fd 0)
        × ((g : ℕ) → interest g u.epoll ≡ (if fd == g then none else interest g t.epoll))
  unfolding fd_delete
  fd_delete-IsTable {t} maxconn fd valid inside =
      let (q, run, inv, masks, _) = fd_clo-Inv E fd valid.linked maxconn inside in
      let state = update t.state fd 0 in
      (
        record {
          poller = q;
          epoll = E.close fd t.epoll;
          state = state;
          maxfd = shrink state t.maxfd;
        },
        rw run,
        record {
          linked = inv;
          bound = shrink-IsBound state t.maxfd (λ g h. ground (arith, valid.bound.above g));
        },
        refl,
        masks,
        λ g. E.interest-close fd g t.epoll,
      )
