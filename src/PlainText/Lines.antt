-- ===== src/PlainText/Lines.antt =====
-- src/handler/pubsub.c: `process_plain_text` on whole lines.
use zeroserv.Prelude.{
  ℕ, zero, suc, ◌+◌, ◌-◌, ◌≤◌, ◌≡◌, ◌≢◌, refl, sym, ap, subst, ◌∙◌, true, false, List, [], ◌∷◌,
  ◌++◌, append_assoc, some, leb, ◌==◌, length, length-append, length-take, length-drop, take, drop,
  take-append_left, take_all, take-append-drop, arith, Run, ok, fault, ◌>>=◌, bind_assoc,
}
use zeroserv.Buffer.{Buffer, buffer_empty, buffer_reset}
use zeroserv.Buffer.Bounds.{IsValid, sizes_exact}
use zeroserv.Buffer.Queue.{pending}
use zeroserv.PlainText.{format_msg, strlen, frame_loop, process_plain_text}

-- A line holds no zero byte and no end of line.
abbrev pub IsLine : List ℕ → Type 0
IsLine [] = Unit {0}
IsLine (c ∷ line) = ((c ≢ 0) × (c ≢ 10) × (c ≢ 13)) × IsLine line

abbrev pub AreLines : List (List ℕ) → Type 0
AreLines [] = Unit {0}
AreLines (line ∷ lines) = IsLine line × AreLines lines

-- What a client sends: each line with a carriage return and a line feed behind it.
abbrev pub sent_lines : List (List ℕ) → List ℕ
sent_lines [] = []
sent_lines (line ∷ lines) = line ++ (13 ∷ (10 ∷ sent_lines lines))

-- The bytes of the lines when the ends are zero bytes, with `rest` behind them.
abbrev cut_lines : List (List ℕ) → List ℕ → List ℕ
cut_lines [] rest = rest
cut_lines (line ∷ lines) rest = line ++ (0 ∷ (0 ∷ cut_lines lines rest))

format_msg-line :
    (line msg : List ℕ) (n : ℕ)
    → IsLine line
    → format_msg (length line + n) (line ++ msg) ≡ line ++ format_msg n msg
unfolding format_msg
format_msg-line [] msg n h = ap (λ k. format_msg k msg) (omega arith)
format_msg-line (c ∷ line) msg n h =
    let next : length (c ∷ line) + n ≡ suc (length line + n) = omega arith in
    rw next (ground (arith, h.0.0, h.0.1, h.0.2, format_msg-line line msg n h.1))

format_msg-sent_lines :
    (lines : List (List ℕ)) (rest : List ℕ)
    → AreLines lines
    → format_msg (length (sent_lines lines)) (sent_lines lines ++ rest) ≡ cut_lines lines rest
unfolding format_msg
format_msg-sent_lines [] rest h = refl
format_msg-sent_lines (line ∷ lines) rest h =
    let size = length-append line (13 ∷ (10 ∷ sent_lines lines)) in
    rw (size, append_assoc line (13 ∷ (10 ∷ sent_lines lines)) rest)
      (format_msg-line line (13 ∷ (10 ∷ (sent_lines lines ++ rest)))
          (suc (suc (length (sent_lines lines)))) h.0
        ∙ ap (λ l. line ++ (0 ∷ (0 ∷ l))) (format_msg-sent_lines lines rest h.1))

strlen-line : (line rest : List ℕ) → IsLine line → strlen (line ++ (0 ∷ rest)) ≡ ok (length line)
unfolding strlen
strlen-line [] rest h = refl
strlen-line (c ∷ line) rest h = ground (arith, h.0.0, strlen-line line rest h.1)

bind_cong {ℓ κ} :
    {A : Type ℓ} {B : Type κ} (m : Run A) (f g : A → Run B)
    → ((a : A) → f a ≡ g a)
    → (m >>= f) ≡ (m >>= g)
bind_cong (ok a) f g h = h a
bind_cong (fault e) f g h = refl

length-sent_line :
    (line : List ℕ) (lines : List (List ℕ))
    → length (sent_lines (line ∷ lines)) ≡ length line + 2 + length (sent_lines lines)
length-sent_line line lines = length-append line (13 ∷ (10 ∷ sent_lines lines)) ∙ omega arith

length-format_msg : (n : ℕ) (msg : List ℕ) → length (format_msg n msg) ≡ length msg
unfolding format_msg
length-format_msg zero msg = refl
length-format_msg (suc n) [] = refl
length-format_msg (suc n) (c ∷ msg) = ap suc (length-format_msg n msg)

length-pending : {ib : Buffer} → IsValid ib → length (pending ib) ≡ ib.r - ib.curr
length-pending {ib} v = omega (
  arith,
  length-take (ib.r - ib.curr) (drop ib.curr ib.buff),
  length-drop ib.curr ib.buff,
  v.block,
  v.inside,
  v.behind,
)

drop-line : (line rest : List ℕ) → drop (length line + 2) (line ++ (0 ∷ (0 ∷ rest))) ≡ rest
drop-line [] rest = refl
drop-line (c ∷ line) rest =
    let next : length (c ∷ line) + 2 ≡ suc (length line + 2) = omega arith in
    rw next (drop-line line rest)

module _ {ℓ} {App : Type ℓ} (process : List ℕ → App → Run (ℕ × App)) where
  -- The specification: the lines are processed in order, and the last one's flag is kept.
  abbrev pub run_lines : List (List ℕ) → ℕ → App → Run (ℕ × App)
  run_lines [] ret app = ok (ret, app)
  run_lines (line ∷ lines) ret app = process line app >>= λ x. run_lines lines x.0 x.1

  frame_loop-run_lines :
      (fuel : ℕ) (lines : List (List ℕ)) (rest : List ℕ) (ret : ℕ) (app : App)
      → AreLines lines
      → length (sent_lines lines) ≤ fuel
      → frame_loop process fuel (length (sent_lines lines)) (cut_lines lines rest) ret app
        ≡ (run_lines lines ret app >>= λ x. ok (some x))
  unfolding frame_loop
  frame_loop-run_lines zero [] rest ret app h enough = refl
  frame_loop-run_lines (suc fuel) [] rest ret app h enough = refl
  frame_loop-run_lines zero (line ∷ lines) rest ret app h enough =
      absurd (omega (arith, length-sent_line line lines))
  frame_loop-run_lines (suc fuel) (line ∷ lines) rest ret app h enough =
      let left = length-sent_line line lines in
      let behind : List ℕ = cut_lines lines rest in
      let some_left : (length (sent_lines (line ∷ lines)) == 0) ≡ false = ground (arith, left) in
      let fits : leb (length line + 2) (length (sent_lines (line ∷ lines))) ≡ true =
        ground (arith, left) in
      let cut : take (length line) (line ++ (0 ∷ (0 ∷ behind))) ≡ line =
        take-append_left (length line) line (0 ∷ (0 ∷ behind)) (omega arith)
        ∙ take_all (length line) line (omega arith) in
      let next : drop (length line + 2) (line ++ (0 ∷ (0 ∷ behind))) ≡ behind =
        drop-line line behind in
      let less : length (sent_lines (line ∷ lines)) - (length line + 2)
          ≡ length (sent_lines lines) =
        omega (arith, left) in
      rw (some_left, strlen-line line (0 ∷ behind) h.0, cut, fits, next, less)
        (bind_cong (process line app) _ _
            (λ x. frame_loop-run_lines fuel lines rest x.0 x.1 h.1 (omega (arith, left)))
          ∙ sym (bind_assoc (process line app) (λ x. run_lines lines x.0 x.1) (λ x. ok (some x))))

  -- On a valid buffer whose unread bytes are whole lines, each ended by a carriage return and a line
  -- feed, `process_plain_text` ends, gives every line once and in order to `process`, returns the
  -- last one's flag, and leaves the buffer empty and valid; it fails only as `process` does.
  pub process_plain_text-run_lines :
      (lines : List (List ℕ)) {ib : Buffer} (app : App)
      → IsValid ib
      → AreLines lines
      → pending ib ≡ sent_lines lines
      → (b : Buffer) × (process_plain_text process ib app
          ≡ (run_lines lines 0 app >>= λ x. ok (some (x.0, b, x.1))))
        × IsValid b
        × (pending b ≡ [])
  unfolding process_plain_text buffer_empty buffer_reset
  process_plain_text-run_lines lines {ib} app v h same =
      let (read, _, _, _, _) = sizes_exact v in
      let size : ib.r - ib.curr ≡ length (sent_lines lines) =
        sym (length-pending v) ∙ ap length same in
      let tail : List ℕ = drop (ib.r - ib.curr) (drop ib.curr ib.buff) in
      let split : drop ib.curr ib.buff ≡ sent_lines lines ++ tail =
        sym (take-append-drop (ib.r - ib.curr) (drop ib.curr ib.buff)) ∙ ap (λ l. l ++ tail) same in
      let msg : List ℕ = format_msg (ib.r - ib.curr) (drop ib.curr ib.buff) in
      let cut : msg ≡ cut_lines lines tail =
        ap (λ n. format_msg n (drop ib.curr ib.buff)) size
        ∙ (ap (format_msg (length (sent_lines lines))) split
            ∙ format_msg-sent_lines lines tail h) in
      let loop : frame_loop process (ib.r - ib.curr) (ib.r - ib.curr) msg 0 app
          ≡ (run_lines lines 0 app >>= λ x. ok (some x)) =
        ap (λ m. frame_loop process (ib.r - ib.curr) (ib.r - ib.curr) m 0 app) cut
        ∙ subst
            (λ n.
              frame_loop process n n (cut_lines lines tail) 0 app
              ≡ (run_lines lines 0 app >>= λ x. ok (some x)))
            (sym size)
            (frame_loop-run_lines (length (sent_lines lines)) lines tail 0 app h (omega arith)) in
      let empty : (ib.r == ib.curr + (ib.r - ib.curr)) ≡ true = ground arith in
      (
        record ib { buff = take ib.curr ib.buff ++ msg; r = 0; curr = 0 },
        rw (read, loop)
            (bind_assoc (run_lines lines 0 app) (λ x. ok (some x)) _
              ∙ bind_cong (run_lines lines 0 app) _ _ (λ x. rw (read, empty) refl)),
        record {
          behind = omega arith;
          inside = omega arith;
          block =
              length-append (take ib.curr ib.buff) msg
              ∙ omega (
                arith,
                length-take ib.curr ib.buff,
                length-format_msg (ib.r - ib.curr) (drop ib.curr ib.buff),
                length-drop ib.curr ib.buff,
                v.block,
                v.inside,
                v.behind,
              );
          small = v.small;
        },
        refl,
      )
