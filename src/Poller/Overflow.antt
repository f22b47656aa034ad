-- ===== src/Poller/Overflow.antt =====
-- src/poller.c: the list of changes when a descriptor is closed and opened again between two
-- flushes.
use Prim.Native.Nat.{bit_or}
use zeroserv.Prelude.{
  ℕ, zero, suc, ◌+◌, ◌≤◌, ◌<◌, ◌≡◌, sym, ◌∙◌, true, false, List, [], ◌∷◌, ◌++◌, none, some, ltb,
  ◌==◌, length, length-append, arith, Bool-cases, inl, inr,
}
use zeroserv.Prelude.{ok, fault, out_of_bounds, ◌>>=◌, bind_assoc}
use zeroserv.Epoll.{Epoll}
use zeroserv.Poller.{Poller, update, dir_rd, forget_prev, alloc_chg_list, fd_set, fd_clo}
use zeroserv.Poller.Close.{length-forget_prev}
use zeroserv.Poller.Sync.{Op, want, shut, step, steps}

-- A connection that is accepted, watched for reading and closed, over and over.
abbrev pub cycles : ℕ → ℕ → List Op
cycles zero fd = []
cycles (suc n) fd = want fd dir_rd ∷ (shut fd ∷ cycles n fd)

module _ (E : Epoll) (maxconn : ℕ) where
  open E use {State, close}

  -- The poller behind one round that fits.
  abbrev round : ℕ → Poller → Poller
  round fd p = record {
    evts = update (update p.evts fd (bit_or 0 1)) fd 0;
    chg_list = forget_prev (length p.chg_list) (p.chg_list ++ record { prev = 0; fd = fd } ∷ []);
    chg_ptr = update (update p.chg_ptr fd (some (length p.chg_list))) fd none;
  }

  round-run :
      (fd : ℕ) (p : Poller) (s : State)
      → fd < maxconn
      → p.evts fd ≡ 0
      → p.chg_ptr fd ≡ none
      → length p.chg_list < maxconn
      → (step E maxconn (want fd dir_rd) (p, s) >>= step E maxconn (shut fd))
        ≡ ok (round fd p, close fd s)
  unfolding step fd_set alloc_chg_list fd_clo
  round-run fd p s inside quiet free room =
      let here : ltb fd maxconn ≡ true = ground arith in
      let space : ltb (length p.chg_list) maxconn ≡ true = ground arith in
      let self : (fd == fd) ≡ true = ground arith in
      rw (quiet, here, free, space, here, self, quiet)

  full_list :
      (fd : ℕ) (p : Poller) (s : State)
      → fd < maxconn
      → p.evts fd ≡ 0
      → p.chg_ptr fd ≡ none
      → maxconn ≤ length p.chg_list
      → step E maxconn (want fd dir_rd) (p, s) ≡ fault out_of_bounds
  unfolding step fd_set alloc_chg_list
  full_list fd p s inside quiet free full =
      let here : ltb fd maxconn ≡ true = ground arith in
      let space : ltb (length p.chg_list) maxconn ≡ false = ground arith in
      rw (quiet, here, free, space)

  -- Between two flushes, more rounds of opening, watching and closing one descriptor than the list
  -- has free entries write behind the list, although never more than one descriptor is open.
  pub cycles_overflow :
      (n fd : ℕ) (p : Poller) (s : State)
      → fd < maxconn
      → p.evts fd ≡ 0
      → p.chg_ptr fd ≡ none
      → maxconn < length p.chg_list + n
      → length p.chg_list ≤ maxconn
      → steps E maxconn (cycles n fd) (p, s) ≡ fault out_of_bounds
  unfolding steps
  cycles_overflow zero fd p s inside quiet free many fits = absurd (omega arith)
  cycles_overflow (suc n) fd p s inside quiet free many fits =
      elim (Bool-cases (ltb (length p.chg_list) maxconn)) [
        | inr full ↦ rw (full_list fd p s inside quiet free (ground (arith, full)))
        | inl room ↦
            let size : length (round fd p).chg_list ≡ length p.chg_list + 1 =
              length-forget_prev (length p.chg_list)
                (p.chg_list ++ record { prev = 0; fd = fd } ∷ [])
              ∙ length-append p.chg_list (record { prev = 0; fd = fd } ∷ []) in
            sym (
              bind_assoc (step E maxconn (want fd dir_rd) (p, s)) (step E maxconn (shut fd))
                (steps E maxconn (cycles n fd)))
            ∙ (rw (round-run fd p s inside quiet free (ground (arith, room))) (
                cycles_overflow n fd (round fd p) (close fd s) inside (ground arith) (ground arith)
                  (omega (arith, size)) (ground (arith, size, room))))
      ]
