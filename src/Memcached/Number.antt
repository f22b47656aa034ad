-- ===== src/Memcached/Number.antt =====
-- `strtol(text, NULL, 10)` of the C library, which src/handler/memcached.c reads numbers with: the
-- text is the bytes before the terminator, and `long` has 64 bits.
use zeroserv.Prelude.{
  ℕ, ◌+◌, ◌-◌, ◌*◌, ◌^◌, ◌%◌, Bool, true, false, ◌&&◌, ◌||◌, List, [], ◌∷◌, leb, ltb, ◌==◌,
  if◌then◌else◌, ℤ, pos, negsuc,
}

abbrev pub is_digit : ℕ → Bool
is_digit ch = leb 48 ch && leb ch 57

abbrev pub is_space : ℕ → Bool
is_space ch = (ch == 32) || (leb 9 ch && leb ch 13)

abbrev pub skip_spaces : List ℕ → List ℕ
skip_spaces [] = []
skip_spaces (ch ∷ text) = if is_space ch then skip_spaces text else ch ∷ text

-- The number that the digits in front make, behind the digits that make `n`.
abbrev pub read_digits : ℕ → List ℕ → ℕ
read_digits n [] = n
read_digits n (ch ∷ text) = if is_digit ch then read_digits (10 * n + (ch - 48)) text else n

-- The value, and whether it is out of range, which sets errno to ERANGE.
abbrev pub saturate : Bool → ℕ → ℤ × Bool
saturate false n = if ltb n (2 ^ 63) then (pos n, false) else (pos (2 ^ 63 - 1), true)
saturate true n =
    if n == 0
    then (pos 0, false)
    else if leb n (2 ^ 63)
    then (negsuc (n - 1), false)
    else (negsuc (2 ^ 63 - 1), true)

abbrev pub strtol_signed : List ℕ → ℤ × Bool
strtol_signed [] = (pos 0, false)
strtol_signed (ch ∷ text) =
    if ch == 45
    then saturate true (read_digits 0 text)
    else if ch == 43
    then saturate false (read_digits 0 text)
    else saturate false (read_digits 0 (ch ∷ text))

abbrev pub strtol : List ℕ → ℤ × Bool
strtol text = strtol_signed (skip_spaces text)

-- `strtoul`: a sign negates the value, modulo 2 ^ 64.
abbrev pub saturate_unsigned : Bool → ℕ → ℕ × Bool
saturate_unsigned minus n =
    if ltb n (2 ^ 64)
    then (if minus then (2 ^ 64 - n) % 2 ^ 64 else n, false)
    else (2 ^ 64 - 1, true)

abbrev pub strtoul_signed : List ℕ → ℕ × Bool
strtoul_signed [] = (0, false)
strtoul_signed (ch ∷ text) =
    if ch == 45
    then saturate_unsigned true (read_digits 0 text)
    else if ch == 43
    then saturate_unsigned false (read_digits 0 text)
    else saturate_unsigned false (read_digits 0 (ch ∷ text))

abbrev pub strtoul : List ℕ → ℕ × Bool
strtoul text = strtoul_signed (skip_spaces text)
