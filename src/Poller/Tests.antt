-- ===== src/Poller/Tests.antt =====
-- Examples for the poller with arrays of four entries: descriptor 1 is wanted for reading, which the
-- kernel knows already.
use zeroserv.Prelude.{
  ℕ, ◌≡◌, refl, [], ◌∷◌, Option, none, some, ◌==◌, if◌then◌else◌, arith, ok, fault, out_of_bounds,
}
use zeroserv.Epoll.Kernel.{kernel}
use zeroserv.Poller.{
  Poller, FdTab, update, dir_rd, dir_wr, fd_set, alloc_chg_list, fd_delete, fd_flush_changes,
}
use zeroserv.Poller.Inv.{Inv, reg}
use zeroserv.Poller.Flush.{fd_flush_changes-synced}
use zeroserv.Poller.Sync.{want, unwant, shut, steps, wanted_all, steps-flush}
use zeroserv.Poller.Overflow.{cycles, cycles_overflow}
use zeroserv.Poller.Table.{IsTable, fd_delete-IsTable}

abbrev reading : Poller
reading = record { evts = λ fd. if 1 == fd then 1 else 0; chg_list = []; chg_ptr = λ fd. none }

abbrev watching : ℕ → Option ℕ
watching fd = if 1 == fd then some 1 else none

reading-Inv : Inv kernel reading watching
reading-Inv = record {
  small = λ fd. ground arith;
  told = λ i c h. absurd (ground arith);
  orphans = λ i c h. absurd (ground arith);
  idle = λ fd h. ground arith;
  listed = λ fd i h. absurd (ground arith);
}

set_writes :
    fd_set 4 1 dir_wr reading
    ≡ ok (
      1,
      record {
        evts = update reading.evts 1 3;
        chg_list = record { prev = 1; fd = 1 } ∷ [];
        chg_ptr = update reading.chg_ptr 1 (some 0);
      },
    )
unfolding fd_set alloc_chg_list
set_writes = refl

fd_flush_changes-synced_example :
    let (q, s') = fd_flush_changes kernel reading watching in
    ((fd : ℕ) → s' fd ≡ reg (reading.evts fd))
    × (q.evts ≡ reading.evts)
    × (q.chg_list ≡ [])
    × Inv kernel q s'
fd_flush_changes-synced_example = fd_flush_changes-synced kernel reading-Inv

steps-flush_example :
    let ops = want 1 dir_wr ∷ (shut 1 ∷ (want 1 dir_rd ∷ (unwant 2 dir_rd ∷ []))) in
    (x : Poller × (ℕ → Option ℕ)) × (steps kernel 4 ops (reading, watching) ≡ ok x)
    × ((fd : ℕ) → (fd_flush_changes kernel x.0 x.1).1 fd ≡ reg (wanted_all ops reading.evts fd))
steps-flush_example =
    steps-flush kernel 4 (want 1 dir_wr ∷ (shut 1 ∷ (want 1 dir_rd ∷ (unwant 2 dir_rd ∷ []))))
      reading-Inv
      (
        (omega arith, omega arith),
        (omega arith, ((omega arith, omega arith), ((omega arith, omega arith), tt))),
      )
      (omega arith)

cycles_overflow_example : steps kernel 4 (cycles 5 2) (reading, watching) ≡ fault out_of_bounds
cycles_overflow_example =
    cycles_overflow kernel 4 5 2 reading watching (omega arith) refl refl (omega arith)
      (omega arith)

abbrev one_open : FdTab kernel
one_open = record {
  poller = reading;
  epoll = watching;
  state = λ fd. if 1 == fd then 3 else 0;
  maxfd = 2;
}

one_open-IsTable : IsTable kernel one_open
one_open-IsTable = record {
  linked = reading-Inv;
  bound = record { above = λ fd h. ground arith; below = λ fd h z. ground arith };
}

fd_delete-IsTable_example :
    (u : FdTab kernel) × (fd_delete kernel 4 1 one_open ≡ ok u)
    × IsTable kernel u
    × (u.state ≡ update one_open.state 1 0)
    × (u.poller.evts ≡ update reading.evts 1 0)
    × ((g : ℕ) → u.epoll g ≡ (if 1 == g then none else watching g))
fd_delete-IsTable_example = fd_delete-IsTable kernel 4 1 one_open-IsTable (omega arith)
