-- ===== src/Signal/Rearm.antt =====
-- src/signal.c: `signal_register` on a signal that is pending.
use zeroserv.Prelude.{
  ℕ, ◌<◌, ◌≡◌, true, false, List, [], ◌∷◌, ◌++◌, length, arith, pos, elem, distinct, elem-append,
  ok, ltb,
}
use zeroserv.Signal.{
  Signals, max_signal, queued, signal_enqueue, signal_set, signal_handler, signal_register,
  function,
}
use zeroserv.Signal.Inv.{Inv}

distinct_twice : (xs : List ℕ) (a : ℕ) → elem a xs ≡ true → distinct (xs ++ a ∷ []) ≡ false
unfolding distinct elem
distinct_twice [] a h = ground arith
distinct_twice (x ∷ xs) a h = ground (arith, distinct_twice xs a, elem-append x xs (a ∷ []))

-- Registering a function for a pending signal resets its count and leaves its entry in the queue,
-- so the next delivery queues the signal a second time, and the queue's entries are not distinct.
pub signal_register_pending :
    {s : Signals} (sig h : ℕ)
    → Inv s
    → elem sig s.queue ≡ true
    → length s.queue < max_signal
    → (s' : Signals) × (signal_handler (pos sig) (signal_register (pos sig) (function h) s) ≡ ok s')
      × (s'.queue ≡ s.queue ++ sig ∷ [])
      × (distinct s'.queue ≡ false)
unfolding signal_handler signal_register signal_enqueue signal_set
signal_register_pending {s} sig h inv there room =
    let s1 : Signals = signal_set sig (function h) s in
    let lt : ltb sig max_signal ≡ true = ground (arith, inv.small sig there) in
    (
      queued sig s1,
      ground (arith, lt),
      ground arith,
      ground (arith, distinct_twice s.queue sig there),
    )
