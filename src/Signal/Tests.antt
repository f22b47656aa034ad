-- ===== src/Signal/Tests.antt =====
-- Examples for src/signal.c: SIGTERM (15) and SIGPIPE (13) have functions, and SIGTERM is pending.
use zeroserv.Prelude.{
  ℕ, ◌+◌, ◌^◌, ◌<◌, ◌≡◌, refl, List, [], ◌∷◌, ◌++◌, none, some, arith, pos, ok, elem, distinct,
  ◌==◌, if◌then◌else◌,
}
use zeroserv.Signal.{Signals, Disposition, signal_handler, signal_process_queue}
use zeroserv.Signal.Inv.{Inv, signal_handler-Inv}
use zeroserv.Signal.Order.{deliver, deliver-process}

abbrev waiting : Signals
waiting = record {
  queue = 15 ∷ [];
  count = λ n. if 15 == n then 1 else 0;
  handler = λ n. if 15 == n then some 1 else if 13 == n then some 2 else none;
  disposition = λ n. Disposition.caught;
}

waiting-Inv : Inv waiting
unfolding elem distinct
waiting-Inv = record { once = refl; small = λ sig h. ground arith; pending = λ sig. ground arith }

few : (n : ℕ) → waiting.count n + 1 < 2 ^ 31
few n = ground arith

signal_handler-Inv_example : (s : Signals) × (signal_handler (pos 13) waiting ≡ ok s) × Inv s
signal_handler-Inv_example = signal_handler-Inv (pos 13) waiting-Inv few

-- The log of the calls: the function and the signal.
abbrev note_call : ℕ → ℕ → List (ℕ × ℕ) → List (ℕ × ℕ)
note_call h sig log = log ++ (h, sig) ∷ []

deliver-process_example :
    (s : Signals) × (deliver (13 ∷ 15 ∷ 13 ∷ []) waiting ≡ ok s)
    × ((signal_process_queue note_call s []).1 ≡ (1, 15) ∷ (2, 13) ∷ [])
unfolding elem
deliver-process_example =
    deliver-process note_call (13 ∷ 15 ∷ 13 ∷ []) [] waiting-Inv (λ a h. ground arith)
      (λ a. ground arith)
