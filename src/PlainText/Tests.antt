-- ===== src/PlainText/Tests.antt =====
-- Examples for the plain text protocol: the lines `ab` and `c` in one read.
use zeroserv.Prelude.{ℕ, ◌≡◌, refl, List, [], ◌∷◌, ◌++◌, some, arith, length, Run, ok}
use zeroserv.Buffer.{Buffer}
use zeroserv.Buffer.Bounds.{IsValid}
use zeroserv.Buffer.Queue.{pending}
use zeroserv.PlainText.{process_plain_text}
use zeroserv.PlainText.Lines.{process_plain_text-run_lines}

abbrev two_lines : List ℕ
two_lines = 97 ∷ 98 ∷ 13 ∷ 10 ∷ 99 ∷ 13 ∷ 10 ∷ []

abbrev inbox : Buffer
inbox = record { r = 7; curr = 0; total = 9; buff = two_lines ++ (0 ∷ 0 ∷ []) }

-- A command is kept, and the flag is its length.
abbrev keep : List ℕ → List (List ℕ) → Run (ℕ × List (List ℕ))
keep line log = ok (length line, log ++ line ∷ [])

process_plain_text-run_lines_example :
    (b : Buffer) × (process_plain_text keep inbox []
      ≡ ok (some (1, b, (97 ∷ 98 ∷ []) ∷ (99 ∷ []) ∷ [])))
    × IsValid b
    × (pending b ≡ [])
process_plain_text-run_lines_example =
    process_plain_text-run_lines keep ((97 ∷ 98 ∷ []) ∷ ((99 ∷ []) ∷ [])) [] (omega arith)
      (
        ((omega arith, omega arith, omega arith), ((omega arith, omega arith, omega arith), tt)),
        (((omega arith, omega arith, omega arith), tt), tt),
      )
      refl
