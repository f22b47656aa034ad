-- ===== src/Signal.antt =====
-- src/signal.c: signals are queued by the handler that the kernel calls, and the functions that
-- the program registered run later, from the main loop. `signal_state[sig]` is a pair of
-- functions of `sig`, and `signal_queue` the list of its first `signal_queue_len` entries. A
-- registered function is a number; `run` says what it does to the rest of the program, and does
-- not touch the signal state (those of src/zeroserv.c only log and set `_is_stop`).
-- `sigprocmask` is left out: a step of the model is not interrupted. The children are about the
-- queue's invariant (Inv), the order in which the registered functions run (Order), and what a
-- second registration does to a pending signal (Rearm).
pub mod Inv
pub mod Order
pub mod Rearm
mod Tests
use zeroserv.Prelude.{
  ℕ, ◌+◌, ◌%◌, ◌^◌, Bool, true, false, List, [], ◌∷◌, ◌++◌, Option, none, some, ◌==◌, ltb,
  if◌then◌else◌, length, ℤ, pos, negsuc, Run, ok, ◌>>=◌, ◌>>◌, demand, signed_overflow,
}

-- What the kernel does with a signal: `SIG_DFL`, `SIG_IGN`, or a call of `signal_handler`.
pub data Disposition : Type 0 where
  sig_dfl sig_ign caught : Disposition

-- The second argument of `signal_register`: NULL, SIG_IGN, SIG_DFL or a function.
pub data Action : Type 0 where
  null ignore standard : Action
  function : ℕ → Action

pub record Signals : Type 0 where
  pub queue : List ℕ
  pub count : ℕ → ℕ
  pub handler : ℕ → Option ℕ
  pub disposition : ℕ → Disposition

abbrev pub max_signal : ℕ
max_signal = 256

abbrev pub update {ℓ} : {A : Type ℓ} → (ℕ → A) → ℕ → A → ℕ → A
update f k v j = if k == j then v else f j

unfoldable pub signal_init : (ℕ → Disposition) → Signals
signal_init d = record { queue = []; count = λ _. 0; handler = λ _. none; disposition = d }

-- The queue, the count and the disposition that `signal_handler` leaves behind its guard.
abbrev pub queued : ℕ → Signals → Signals
queued sig s = record s {
  queue =
      if s.count sig == 0
      then (if ltb (length s.queue) max_signal then s.queue ++ sig ∷ [] else s.queue)
      else s.queue;
  count = update s.count sig (s.count sig + 1);
  disposition = update s.disposition sig caught;
}

-- The part of `signal_handler` behind its guard; the count is an `int` that starts at 0.
unfoldable pub signal_enqueue : ℕ → Signals → Run Signals
signal_enqueue sig s = do demand (ltb (s.count sig + 1) (2 ^ 31)) signed_overflow; ok (queued sig s)

-- A number outside the table reaches no disposition: `signal` refuses it.
unfoldable pub signal_handler : ℤ → Signals → Run Signals
unfolding signal_enqueue
signal_handler (negsuc n) s = ok s
signal_handler (pos sig) s =
    if ltb sig max_signal
    then elim (s.handler sig) [
      | none ↦ ok (record s { disposition = update s.disposition sig sig_ign })
      | some h ↦ signal_enqueue sig s
    ]
    else ok s

unfoldable pub signal_set : ℕ → Action → Signals → Signals
signal_set sig (function h) s = record s {
  count = update s.count sig 0;
  handler = update s.handler sig (some h);
  disposition = update s.disposition sig caught;
}
signal_set sig standard s = record s {
  count = update s.count sig 0;
  handler = update s.handler sig none;
  disposition = update s.disposition sig sig_dfl;
}
signal_set sig ignore s = record s {
  count = update s.count sig 0;
  handler = update s.handler sig none;
  disposition = update s.disposition sig sig_ign;
}
signal_set sig null s = record s {
  count = update s.count sig 0;
  handler = update s.handler sig none;
  disposition = update s.disposition sig sig_ign;
}

unfoldable pub signal_register : ℤ → Action → Signals → Signals
unfolding signal_set
signal_register (negsuc n) a s = s
signal_register (pos sig) a s = if ltb sig max_signal then signal_set sig a s else s

module _ {ℓ} {App : Type ℓ} (run : ℕ → ℕ → App → App) where
  -- One round of the loop in `__signal_process_queue`.
  unfoldable pub process_one : ℕ → Signals × App → Signals × App
  process_one sig (s, app) = if s.count sig == 0 then (s, app) else (
    record s { count = update s.count sig 0 },
    elim (s.handler sig) [ none ↦ app | some h ↦ run h sig app ],
  )

  unfoldable pub process_list : List ℕ → Signals × App → Signals × App
  process_list [] p = p
  process_list (sig ∷ rest) p = process_list rest (process_one sig p)

  unfoldable pub signal_process_queue : Signals → App → Signals × App
  signal_process_queue s app =
      let (s', app') = process_list s.queue (s, app) in (record s' { queue = [] }, app')
