-- ===== src/Prelude/Words.antt =====
-- Machine words: conversions between `size_t`, `unsigned` and `int`.
use Prim.Native.Nat.{ℕ, ◌+◌, ◌-◌, ◌%◌, ◌^◌}
use zeroserv.Prelude.Tests.{ltb, if◌then◌else◌}
use zeroserv.Prelude.Int.{ℤ, pos, negsuc}

-- The `int` with the low 32 bits of a word.
abbrev pub signed32 : ℕ → ℤ
signed32 w = if ltb w (2 ^ 31) then pos w else negsuc (2 ^ 32 - w - 1)

abbrev pub to_int : ℕ → ℤ
to_int w = signed32 (w % 2 ^ 32)

-- An `int` as the `size_t` that it converts to.
abbrev pub to_size : ℤ → ℕ
to_size (pos n) = n
to_size (negsuc n) = 2 ^ 64 - n - 1

-- `size_t` subtraction.
abbrev pub sub64 : ℕ → ℕ → ℕ
sub64 a b = (a + 2 ^ 64 - b) % 2 ^ 64
