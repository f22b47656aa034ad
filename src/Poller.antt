-- ===== src/Poller.antt =====
-- src/poller.c and src/fd.c: which events of which descriptor are wanted, the list of changes that
-- are not yet told to the kernel, and the table of descriptors.
-- `evts fd` is the two-bit descriptor of `fd` in the words of `fd_evts` (sixteen to a word): the
-- comment above the array describes it so, and the shift by FD2BIT selects it. `chg_list` is the
-- list of the first `nbchanges` entries, and a pointer into it is its index. All arrays have
-- `maxconn` entries; LIMIT_NUMBER_OF_CHANGES is not defined. A descriptor is not negative.
-- The kernel's side is the parameter `E`.
pub mod Inv
pub mod Close
pub mod Flush
pub mod Sync
pub mod Overflow
pub mod Table
pub mod Dispatch
mod Tests
use Prim.Native.Nat.{bit_and, bit_or}
use zeroserv.Prelude.{
  ℕ, zero, suc, ◌+◌, ◌-◌, Bool, true, false, List, [], ◌∷◌, ◌++◌, Option, none, some, ltb, ◌==◌,
  if◌then◌else◌, length,
}
use zeroserv.Prelude.{Run, ok, fault, out_of_bounds, ◌>>=◌, ◌>>◌, demand}
use zeroserv.Epoll.{Epoll, Opcode, ctl_add, ctl_mod, ctl_del}

abbrev pub dir_rd : ℕ
dir_rd = 0

abbrev pub dir_wr : ℕ
dir_wr = 1

abbrev pub dir2msk : ℕ → ℕ
dir2msk dir = dir + 1

-- `struct fd_chg`
pub record FdChg : Type 0 where
  pub prev : ℕ
  pub fd : ℕ

pub record Poller : Type 0 where
  pub evts : ℕ → ℕ
  pub chg_list : List FdChg
  pub chg_ptr : ℕ → Option ℕ

abbrev pub update {ℓ} : {A : Type ℓ} → (ℕ → A) → ℕ → A → ℕ → A
update f k v j = if k == j then v else f j

-- `chg_list[i].prev = 0`
unfoldable pub forget_prev : ℕ → List FdChg → List FdChg
forget_prev i [] = []
forget_prev zero (c ∷ list) = record c { prev = 0 } ∷ list
forget_prev (suc i) (c ∷ list) = c ∷ forget_prev i list

unfoldable pub fd_is_set : ℕ → ℕ → Poller → ℕ
fd_is_set fd dir p = bit_and (p.evts fd) (dir2msk dir)

module _ (maxconn : ℕ) where
  unfoldable pub alloc_chg_list : ℕ → ℕ → Poller → Run Poller
  alloc_chg_list fd old_evt p = do
    demand (ltb fd maxconn) out_of_bounds
    elim (p.chg_ptr fd) [
      | some ptr ↦ ok p
      | none ↦ do
        demand (ltb (length p.chg_list) maxconn) out_of_bounds
        ok (record p {
          chg_list = p.chg_list ++ record { prev = old_evt; fd = fd } ∷ [];
          chg_ptr = update p.chg_ptr fd (some (length p.chg_list));
        })
    ]

  unfoldable pub fd_set : ℕ → ℕ → Poller → Run (ℕ × Poller)
  fd_set fd dir p =
      let old_evt = p.evts fd in
      if bit_and old_evt (dir2msk dir) == 0
      then (do
        q ← alloc_chg_list fd old_evt p
        ok (1, record q { evts = update q.evts fd (bit_or old_evt (dir2msk dir)) }))
      else ok (0, p)

  unfoldable pub fd_clr : ℕ → ℕ → Poller → Run (ℕ × Poller)
  fd_clr fd dir p =
      let old_evt = p.evts fd in
      if bit_and old_evt (dir2msk dir) == 0 then ok (0, p) else do
        q ← alloc_chg_list fd old_evt p
        ok (1, record q { evts = update q.evts fd (bit_and old_evt (3 - dir2msk dir)) })

  unfoldable pub fd_rem : ℕ → Poller → Run Poller
  fd_rem fd p =
      if p.evts fd == 0
      then ok p
      else do q ← alloc_chg_list fd (p.evts fd) p; ok (record q { evts = update q.evts fd 0 })

  unfoldable pub fd_clo : ℕ → Poller → Run Poller
  unfolding forget_prev
  fd_clo fd p = do
    demand (ltb fd maxconn) out_of_bounds
    elim (p.chg_ptr fd) [
      | none ↦ ok (record p { evts = update p.evts fd 0 })
      | some ptr ↦ ok (record {
        evts = update p.evts fd 0;
        chg_list = forget_prev ptr p.chg_list;
        chg_ptr = update p.chg_ptr fd none;
      })
    ]

-- The pointers of the descriptors in the list are reset.
unfoldable pub clear_ptrs : List FdChg → (ℕ → Option ℕ) → ℕ → Option ℕ
clear_ptrs [] ptr = ptr
clear_ptrs (c ∷ list) ptr = clear_ptrs list (update ptr c.fd none)

-- `while ((maxfd - 1 >= 0) && (fdtab[maxfd - 1].state == FD_STCLOSE)) maxfd--;`
unfoldable pub shrink : (ℕ → ℕ) → ℕ → ℕ
shrink state zero = zero
shrink state (suc n) = let rest = shrink state n in if state n == 0 then rest else suc n

module _ (E : Epoll) where
  open E use {State, ctl, close}

  -- One round of the loop of `fd_flush_changes`; `next` is what is wanted now.
  unfoldable pub flush_one : FdChg → ℕ → State → State
  flush_one c next s =
      if c.prev == next
      then s
      else if c.prev == 0
      then ctl ctl_add c.fd next s
      else if next == 0
      then ctl ctl_del c.fd next s
      else ctl ctl_mod c.fd next s

  unfoldable pub flush_list : List FdChg → (ℕ → ℕ) → State → State
  flush_list [] evts s = s
  flush_list (c ∷ list) evts s = flush_list list evts (flush_one c (evts c.fd) s)

  unfoldable pub fd_flush_changes : Poller → State → Poller × State
  fd_flush_changes p s = (
    record p { chg_list = []; chg_ptr = clear_ptrs p.chg_list p.chg_ptr },
    flush_list p.chg_list p.evts s,
  )

  -- `fdtab[fd].state`, with FD_STCLOSE = 0, and `maxfd`.
  pub record FdTab : Type 0 where
    pub poller : Poller
    pub epoll : State
    pub state : ℕ → ℕ
    pub maxfd : ℕ

  unfoldable pub fd_delete : ℕ → ℕ → FdTab → Run FdTab
  fd_delete maxconn fd t = do
    p ← fd_clo maxconn fd t.poller
    let state = update t.state fd 0
    ok (record {
      poller = p;
      epoll = close fd t.epoll;
      state = state;
      maxfd = shrink state t.maxfd;
    })

  unfoldable pub fd_insert : ℕ → FdTab → FdTab
  fd_insert fd t = if ltb t.maxfd (fd + 1) then record t { maxfd = fd + 1 } else t
