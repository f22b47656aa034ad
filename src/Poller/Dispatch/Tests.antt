-- ===== src/Poller/Dispatch/Tests.antt =====
-- Examples for the dispatch: the handlers of the table with descriptor 1 open.
use zeroserv.Prelude.{ℕ, ◌+◌, ◌≡◌, refl, [], none, some, ◌==◌, if◌then◌else◌, arith, Run, ok}
use zeroserv.Epoll.Kernel.{kernel}
use zeroserv.Poller.{Poller, FdTab, update}
use zeroserv.Poller.Table.{IsTable}
use zeroserv.Poller.Dispatch.{zb_close, recheck_state, dispatch}
use zeroserv.Poller.Dispatch.Flags.{recheck_state-after_flag}
use zeroserv.Poller.Dispatch.Hangup.{dispatch-hangup}

abbrev reader : Poller
reader = record { evts = λ fd. if 1 == fd then 1 else 0; chg_list = []; chg_ptr = λ fd. none }

abbrev table : FdTab kernel
table = record {
  poller = reader;
  epoll = λ fd. if 1 == fd then some 1 else none;
  state = λ fd. if 1 == fd then 3 else 0;
  maxfd = 2;
}

table-IsTable : IsTable kernel table
table-IsTable = record {
  linked = record {
    small = λ fd. ground arith;
    told = λ i c h. absurd (ground arith);
    orphans = λ i c h. absurd (ground arith);
    idle = λ fd h. ground arith;
    listed = λ fd i h. absurd (ground arith);
  };
  bound = record { above = λ fd h. ground arith; below = λ fd h z. ground arith };
}

-- The application counts the calls of `clo`.
abbrev hang_up : ℕ → FdTab kernel × ℕ → Run (ℕ × (FdTab kernel × ℕ))
hang_up fd w = ok (zb_close, w)

abbrev count_closed : ℕ → FdTab kernel × ℕ → Run (FdTab kernel × ℕ)
count_closed fd (t, n) = ok (t, n + 1)

-- ZB_SET_WR
recheck_state-after_flag_example :
    (u : FdTab kernel) × (recheck_state kernel 4 hang_up hang_up count_closed 1 8 (table, 0)
      ≡ ok (u, 0))
    × IsTable kernel u
    × (u.poller.evts ≡ update reader.evts 1 3)
    × (u.state ≡ table.state)
recheck_state-after_flag_example =
    recheck_state-after_flag kernel 4 count_closed hang_up hang_up 1 8 0 table-IsTable (omega arith)
      refl (omega arith)

dispatch-hangup_example :
    (u : FdTab kernel) × (n : ℕ) × (dispatch kernel 4 hang_up hang_up count_closed (1, 5) (table, 0)
      ≡ ok (u, n))
    × IsTable kernel u
    × (u.state ≡ update table.state 1 0)
    × (u.epoll 1 ≡ none)
    × (count_closed 1 (u, 0) ≡ ok (u, n))
dispatch-hangup_example =
    dispatch-hangup kernel 4 hang_up hang_up count_closed 1 5 0 refl refl refl table-IsTable
      (omega arith) (λ t n. (n + 1, refl))
