-- ===== src/Signal/Order.antt =====
-- src/signal.c: deliveries of signals and `__signal_process_queue` behind them.
use zeroserv.Prelude.{
  ℕ, ◌+◌, ◌^◌, ◌<◌, ◌≡◌, ◌≢◌, refl, ◌∙◌, ap, ap₂, true, false, List, [], ◌∷◌, Option, none, some,
  ◌==◌, if◌then◌else◌, length, arith, pos, inl, inr, elem, distinct, Option-cases, Run, ok, ◌>>=◌,
}
use zeroserv.Signal.{
  Signals, max_signal, update, queued, signal_handler, signal_enqueue, process_one, process_list,
  signal_process_queue,
}
use zeroserv.Signal.Inv.{Inv, joined, queued-queue, queued-Inv}

-- The specification: the functions of the listed signals, one after the other.
abbrev pub run_all {ℓ} : {App : Type ℓ} → (ℕ → ℕ → App → App) → (ℕ → Option ℕ) → List ℕ → App → App
run_all run handler [] app = app
run_all run handler (sig ∷ rest) app =
    run_all run handler rest (elim (handler sig) [ none ↦ app | some h ↦ run h sig app ])

-- The signals of `sigs` behind those of `queue`, each where it first came.
abbrev pub arrivals : List ℕ → List ℕ → List ℕ
arrivals queue [] = queue
arrivals queue (sig ∷ sigs) = arrivals (joined sig queue) sigs

-- The kernel calls `signal_handler` for each of the signals.
unfoldable pub deliver : List ℕ → Signals → Run Signals
deliver [] s = ok s
deliver (sig ∷ sigs) s = signal_handler (pos sig) s >>= deliver sigs

module _ {ℓ} {App : Type ℓ} (run : ℕ → ℕ → App → App) where
  process_one-pending :
      (sig : ℕ) (s : Signals) (app : App)
      → (s.count sig == 0) ≡ false
      → process_one run sig (s, app) ≡ (
        record s { count = update s.count sig 0 },
        elim (s.handler sig) [ none ↦ app | some h ↦ run h sig app ],
      )
  unfolding process_one
  process_one-pending sig s app h = rw h

  process_list-run_all :
      (queue : List ℕ) (s : Signals) (app : App)
      → distinct queue ≡ true
      → ((a : ℕ) → elem a queue ≡ true → (s.count a == 0) ≡ false)
      → let (s', app') = process_list run queue (s, app) in
        (app' ≡ run_all run s.handler queue app)
        × (s'.handler ≡ s.handler)
        × ((a : ℕ) → s'.count a ≡ (if elem a queue then 0 else s.count a))
  unfolding process_list elem distinct
  process_list-run_all [] s app d h = (refl, refl, λ a. refl)
  process_list-run_all (sig ∷ rest) s app d h =
      let next : Signals = record s { count = update s.count sig 0 } in
      let ih =
        process_list-run_all rest next
          (elim (s.handler sig) [ none ↦ app | some f ↦ run f sig app ]) (ground arith)
          (λ a m. ground (arith, h a, absent a sig rest m)) in
      rw (process_one-pending sig s app (h sig (ground arith)), process_list)
        (ih.0, ih.1, λ a. ground (arith, ih.2 a))
    where
      absent :
          (a sig : ℕ) (rest : List ℕ)
          → elem a rest ≡ true
          → elem sig rest ≡ false
          → (sig == a) ≡ false
      absent a sig rest m n = ground arith

  -- Under the invariant `__signal_process_queue` runs the function of each pending signal once, in
  -- the order of the queue, and leaves no pending signal, an empty queue and the same functions.
  pub signal_process_queue-run_all :
      {s : Signals} (app : App)
      → Inv s
      → let (s', app') = signal_process_queue run s app in
        (app' ≡ run_all run s.handler s.queue app)
        × (s'.queue ≡ [])
        × ((a : ℕ) → s'.count a ≡ 0)
        × (s'.handler ≡ s.handler)
  unfolding signal_process_queue
  signal_process_queue-run_all {s} app inv =
      let done =
        process_list-run_all s.queue s app inv.once (λ a m. ground (arith, inv.pending a)) in
      (done.0, refl, (λ a. ground (arith, done.2 a, inv.pending a)), done.1)

-- A signal of the table with a registered function.
abbrev pub IsCaught : Signals → ℕ → Type 0
IsCaught s sig = (sig < max_signal) × (s.handler sig ≢ none)

-- Where the count has room, the handler queues a signal that has a function.
signal_handler-queued :
    (sig : ℕ) (s : Signals)
    → IsCaught s sig
    → s.count sig + 1 < 2 ^ 31
    → signal_handler (pos sig) s ≡ ok (queued sig s)
unfolding signal_handler signal_enqueue
signal_handler-queued sig s caught few = elim (Option-cases (s.handler sig)) [
  | inl none' ↦ absurd (caught.1 none')
  | inr (h, some') ↦ ground (arith, caught.0, some', few)
]

-- What deliveries leave.
record Delivered (sigs : List ℕ) (s s' : Signals) : Type 0 where
  queue : s'.queue ≡ arrivals s.queue sigs
  handler : s'.handler ≡ s.handler
  valid : Inv s'

deliver-Delivered :
    (sigs : List ℕ) {s : Signals}
    → Inv s
    → ((a : ℕ) → elem a sigs ≡ true → IsCaught s a)
    → ((a : ℕ) → s.count a + length sigs < 2 ^ 31)
    → (s' : Signals) × (deliver sigs s ≡ ok s') × Delivered sigs s s'
unfolding deliver elem
deliver-Delivered [] {s} inv caught few =
    (s, refl, record { queue = refl; handler = refl; valid = inv })
deliver-Delivered (sig ∷ sigs) {s} inv caught few =
    let now = caught sig (ground arith) in
    let run = signal_handler-queued sig s now (omega (arith, few sig)) in
    let queue = queued-queue sig inv now.0 in
    let (s', rest, ih) =
      deliver-Delivered sigs (queued-Inv sig inv now.0) (λ a m. caught a (ground (arith, m)))
        (λ a. ground (arith, few a)) in
    (
      s',
      rw run rest,
      record {
        queue = ih.queue ∙ ap (λ q. arrivals q sigs) queue;
        handler = ih.handler;
        valid = ih.valid;
      },
    )

-- Any deliveries of signals that have a function, which do not count one to 2 ^ 31, succeed, and
-- the main loop behind them runs each delivered signal's function once, however often the signal
-- came, in the order of the first arrivals and behind those that were pending before.
pub deliver-process {ℓ} :
    {App : Type ℓ} (run : ℕ → ℕ → App → App) (sigs : List ℕ) {s : Signals} (app : App)
    → Inv s
    → ((a : ℕ) → elem a sigs ≡ true → IsCaught s a)
    → ((a : ℕ) → s.count a + length sigs < 2 ^ 31)
    → (s' : Signals) × (deliver sigs s ≡ ok s')
      × ((signal_process_queue run s' app).1 ≡ run_all run s.handler (arrivals s.queue sigs) app)
deliver-process run sigs app inv caught few =
    let (s', done, d) = deliver-Delivered sigs inv caught few in
    (
      s',
      done,
      (signal_process_queue-run_all run app d.valid).0
          ∙ ap₂ (λ h q. run_all run h q app) d.handler d.queue,
    )
