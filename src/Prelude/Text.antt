-- ===== src/Prelude/Text.antt =====
-- Strings: the bytes before the terminator.
use Prim.Native.Nat.{ℕ}
use mathlib.Core.Path.{◌≡◌, refl, ap₂}
use mathlib.Core.Bool.{Bool, true, false}
use mathlib.Core.List.{List, [], ◌∷◌}
use native.Mathlib.Omega.{arith}
use zeroserv.Prelude.Tests.{◌==◌, if◌then◌else◌}

-- `!strcmp(a, b)`
abbrev pub same_text : List ℕ → List ℕ → Bool
same_text [] [] = true
same_text [] (b ∷ y) = false
same_text (a ∷ x) [] = false
same_text (a ∷ x) (b ∷ y) = if a == b then same_text x y else false

pub same_text_refl : (t : List ℕ) → same_text t t ≡ true
same_text_refl [] = refl
same_text_refl (c ∷ t) = ground (arith, same_text_refl t)

pub same_text→eq : (x y : List ℕ) → same_text x y ≡ true → x ≡ y
same_text→eq [] [] h = refl
same_text→eq [] (b ∷ y) h = ground arith
same_text→eq (a ∷ x) [] h = ground arith
same_text→eq (a ∷ x) (b ∷ y) h = ap₂ (◌∷◌) (ground arith) (same_text→eq x y (ground arith))

pub same_text_sym : (x y : List ℕ) → same_text x y ≡ same_text y x
same_text_sym [] [] = refl
same_text_sym [] (b ∷ y) = refl
same_text_sym (a ∷ x) [] = refl
same_text_sym (a ∷ x) (b ∷ y) = ground (arith, same_text_sym x y)
