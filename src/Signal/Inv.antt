-- ===== src/Signal/Inv.antt =====
-- src/signal.c: the invariant of the queue, under `signal_init` and `signal_handler`.
use zeroserv.Prelude.{
  ℕ, zero, suc, ◌+◌, ◌^◌, ◌<◌, ◌≡◌, refl, ap, true, false, List, [], ◌∷◌, ◌++◌, ◌==◌, ltb,
  if◌then◌else◌, length, arith, ℤ, pos, negsuc, Bool-cases, inl, inr, elem, distinct, elem-append,
  distinct-append, pigeonhole, ◌||◌, not, Option-cases, ok,
}
use zeroserv.Signal.{
  Signals, Disposition, sig_ign, max_signal, update, signal_init, queued, signal_enqueue,
  signal_handler,
}

-- The pending signals stand in the queue, each once.
pub record Inv (s : Signals) : Type 0 where
  pub once : distinct s.queue ≡ true
  pub small : (sig : ℕ) → elem sig s.queue ≡ true → sig < max_signal
  pub pending : (sig : ℕ) → elem sig s.queue ≡ not (s.count sig == 0)

pub signal_init-Inv : (d : ℕ → Disposition) → Inv (signal_init d)
unfolding signal_init elem distinct
signal_init-Inv d = record { once = refl; small = ground arith; pending = λ sig. refl }

-- The numbers below `n`.
below : ℕ → List ℕ
below zero = []
below (suc n) = n ∷ below n

elem-below : (n a : ℕ) → a < n → elem a (below n) ≡ true
unfolding elem below
elem-below zero a h = absurd (omega arith)
elem-below (suc n) a h = ground (arith, elem-below n a)

length-below : (n : ℕ) → length (below n) ≡ n
unfolding below
length-below zero = refl
length-below (suc n) = ap suc (length-below n)

-- A queue of distinct signals that lacks one of the numbers below 256 has room.
has_room :
    (queue : List ℕ) (sig : ℕ)
    → distinct queue ≡ true
    → ((a : ℕ) → elem a queue ≡ true → a < max_signal)
    → elem sig queue ≡ false
    → sig < max_signal
    → length queue < max_signal
unfolding elem distinct
has_room queue sig once small new lt = rw length-below at (
    pigeonhole (sig ∷ queue) (below max_signal) (ground arith)
      (λ a m. elem-below max_signal a (ground (arith, small a))))

-- Under the invariant a signal that is not pending is appended: the queue is never found full.
pub queued-queue :
    {s : Signals} (sig : ℕ)
    → Inv s
    → sig < max_signal
    → (queued sig s).queue ≡ (if elem sig s.queue then s.queue else s.queue ++ sig ∷ [])
queued-queue {s} sig inv lt =
    ground (arith, inv.pending sig, has_room s.queue sig inv.once inv.small)

-- The queue with `sig` behind it, if it is not there yet.
abbrev pub joined : ℕ → List ℕ → List ℕ
joined sig queue = if elem sig queue then queue else queue ++ sig ∷ []

elem-joined : (a sig : ℕ) (queue : List ℕ) → elem a (joined sig queue) ≡ (elem a queue || sig == a)
unfolding elem
elem-joined a sig queue = ground (arith, elem-append a queue (sig ∷ []))

distinct-joined :
    (sig : ℕ) (queue : List ℕ) → distinct queue ≡ true → distinct (joined sig queue) ≡ true
distinct-joined sig queue h = ground (arith, distinct-append queue sig)

pub queued-Inv : {s : Signals} (sig : ℕ) → Inv s → sig < max_signal → Inv (queued sig s)
queued-Inv {s} sig inv lt =
    let queue = queued-queue sig inv lt in
    record {
      once = rw queue (distinct-joined sig s.queue inv.once);
      small = λ a m.
          let m' : elem a (joined sig s.queue) ≡ true = rw queue at m in
          ground (arith, elem-joined a sig s.queue, m', inv.small a);
      pending = λ a. rw (queue, elem-joined a sig s.queue) (ground (arith, inv.pending a));
    }

-- `signal_handler` keeps the invariant for every signal number, as long as no pending signal was
-- counted 2 ^ 31 - 1 times: the call does not overflow the count.
pub signal_handler-Inv :
    {s : Signals} (sig : ℤ)
    → Inv s
    → ((n : ℕ) → s.count n + 1 < 2 ^ 31)
    → (s' : Signals) × (signal_handler sig s ≡ ok s') × Inv s'
unfolding signal_handler signal_enqueue
signal_handler-Inv {s} (negsuc n) inv few = (s, refl, inv)
signal_handler-Inv {s} (pos sig) inv few = elim (Bool-cases (ltb sig max_signal)) [
  | inr out ↦ (s, rw out, inv)
  | inl lt ↦ elim (Option-cases (s.handler sig)) [
    | inl none' ↦ (
      record s { disposition = update s.disposition sig sig_ign },
      rw (lt, none') refl,
      record { once = inv.once; small = inv.small; pending = inv.pending },
    )
    | inr (h, some') ↦
        (queued sig s, rw (lt, some') (ground (arith, few sig)), queued-Inv sig inv (ground arith))
  ]
]
