-- ===== src/Buffer/Tests.antt =====
-- Examples for src/buffer.h: a block of eight bytes with three unread ones.
use zeroserv.Prelude.{ℕ, ◌≡◌, refl, List, [], ◌∷◌, ◌++◌, arith, ℤ, pos, ok}
use zeroserv.Buffer.{Buffer, buffer_remain_write, buffer_sprintf, buffer_write}
use zeroserv.Buffer.Bounds.{IsValid}
use zeroserv.Buffer.Queue.{pending, Wrote, buffer_write-Wrote}
use zeroserv.Buffer.Format.{buffer_sprintf_fits}

abbrev some_bytes : Buffer
some_bytes = record { r = 4; curr = 1; total = 8; buff = 1 ∷ 2 ∷ 3 ∷ 4 ∷ 0 ∷ 0 ∷ 0 ∷ 0 ∷ [] }

some_bytes-IsValid : IsValid some_bytes
some_bytes-IsValid = omega arith

abbrev hey : List ℕ
hey = 104 ∷ 101 ∷ 121 ∷ []

write_fits :
    buffer_write some_bytes hey (pos 3)
    ≡ ok (
      pos 3,
      record { r = 7; curr = 1; total = 8; buff = 1 ∷ 2 ∷ 3 ∷ 4 ∷ 104 ∷ 101 ∷ 121 ∷ 0 ∷ [] },
    )
unfolding buffer_write buffer_remain_write
write_fits = refl

buffer_write-Wrote_example :
    (out : ℤ × Buffer) × (buffer_write some_bytes hey (pos 3) ≡ ok out)
    × Wrote some_bytes hey 3 out.0 out.1
buffer_write-Wrote_example = buffer_write-Wrote hey 3 some_bytes-IsValid (omega arith)

buffer_sprintf_fits_example :
    (b' : Buffer) × (buffer_sprintf some_bytes hey ≡ ok (pos 3, b'))
    × IsValid b'
    × (pending b' ≡ (2 ∷ 3 ∷ 4 ∷ []) ++ hey)
buffer_sprintf_fits_example = buffer_sprintf_fits hey some_bytes-IsValid (omega arith)
