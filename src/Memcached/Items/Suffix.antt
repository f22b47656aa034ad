-- ===== src/Memcached/Items/Suffix.antt =====
-- item_make_header in src/handler/mc/items.c: what snprintf prints for " %d %d\r\n".
use zeroserv.Prelude.{
  ℕ, zero, suc, ◌+◌, ◌-◌, ◌%◌, ◌/◌, List, [], ◌∷◌, ◌++◌, ltb, if◌then◌else◌, ℤ, pos, negsuc,
}

-- The decimal digits of a number below 10 ^ fuel.
abbrev pub digits : ℕ → ℕ → List ℕ
digits zero n = []
digits (suc fuel) n =
    let rest = digits fuel (n / 10) in
    if ltb n 10 then (48 + n) ∷ [] else rest ++ ((48 + n % 10) ∷ [])

-- `%d` of an int.
abbrev pub print_int : ℤ → List ℕ
print_int (pos n) = digits 10 n
print_int (negsuc n) = 45 ∷ digits 10 (n + 1)

-- At most 26 bytes, so that the 40 of the caller's buffer do not cut it.
abbrev pub item_make_suffix : ℤ → ℕ → List ℕ
item_make_suffix flags nbytes =
    32 ∷ (print_int flags ++ (32 ∷ (digits 10 (nbytes - 2) ++ (13 ∷ (10 ∷ [])))))
