-- ===== src/Prelude/Elems.antt =====
-- Lists of numbers as sets: Boolean membership, no repetition, and the pigeonhole principle.
use Prim.Native.Nat.{ℕ, suc, ◌≤◌}
use mathlib.Core.Path.{◌≡◌, refl}
use mathlib.Core.Bool.{Bool, true, false, ◌||◌, ◌&&◌, not}
use mathlib.Core.List.{List, [], ◌∷◌, ◌++◌}
use native.Mathlib.Omega.{arith}
use zeroserv.Prelude.Tests.{◌==◌, if◌then◌else◌}
use zeroserv.Prelude.Lists.{length}

unfoldable pub elem : ℕ → List ℕ → Bool
elem a [] = false
elem a (x ∷ xs) = (x == a) || elem a xs

unfoldable pub distinct : List ℕ → Bool
distinct [] = true
distinct (x ∷ xs) = not (elem x xs) && distinct xs

-- The list without the first occurrence of `a`.
unfoldable pub remove_first : ℕ → List ℕ → List ℕ
remove_first a [] = []
remove_first a (x ∷ xs) = if x == a then xs else x ∷ remove_first a xs

pub elem-append : (a : ℕ) (xs ys : List ℕ) → elem a (xs ++ ys) ≡ (elem a xs || elem a ys)
unfolding elem
elem-append a [] ys = refl
elem-append a (x ∷ xs) ys = ground (arith, elem-append a xs ys)

pub length-remove_first :
    (a : ℕ) (xs : List ℕ) → elem a xs ≡ true → suc (length (remove_first a xs)) ≡ length xs
unfolding elem remove_first
length-remove_first a [] h = ground arith
length-remove_first a (x ∷ xs) h = ground (arith, length-remove_first a xs)

pub remove_first_absent : (a : ℕ) (xs : List ℕ) → elem a xs ≡ false → remove_first a xs ≡ xs
unfolding elem remove_first
remove_first_absent a [] h = refl
remove_first_absent a (x ∷ xs) h = ground (arith, remove_first_absent a xs)

pub elem-remove_first_ne :
    (b a : ℕ) (xs : List ℕ) → (b == a) ≡ false → elem b (remove_first a xs) ≡ elem b xs
unfolding elem remove_first
elem-remove_first_ne b a [] h = refl
elem-remove_first_ne b a (x ∷ xs) h = ground (arith, elem-remove_first_ne b a xs)

-- More distinct numbers than `ys` has places are not all in `ys`.
pub pigeonhole :
    (xs ys : List ℕ)
    → distinct xs ≡ true
    → ((a : ℕ) → elem a xs ≡ true → elem a ys ≡ true)
    → length xs ≤ length ys
unfolding distinct elem
pigeonhole [] ys d h = omega arith
pigeonhole (x ∷ xs) ys d h =
    let here : elem x ys ≡ true = h x (ground arith) in
    omega (
      arith,
      length-remove_first x ys here,
      pigeonhole xs (remove_first x ys) (ground arith)
          (λ a m. ground (arith, h a, elem-remove_first_ne a x ys, elem_ne a x xs)),
    )
  where
    elem_ne : (a x : ℕ) (xs : List ℕ) → elem a xs ≡ true → elem x xs ≡ false → (a == x) ≡ false
    elem_ne a x xs p q = ground arith

pub distinct-append :
    (xs : List ℕ) (a : ℕ) → distinct xs ≡ true → elem a xs ≡ false → distinct (xs ++ a ∷ []) ≡ true
unfolding distinct elem
distinct-append [] a h e = refl
distinct-append (x ∷ xs) a h e = ground (arith, distinct-append xs a, elem-append x xs (a ∷ []))

pub distinct-remove_first :
    (a : ℕ) (xs : List ℕ)
    → distinct xs ≡ true
    → (distinct (remove_first a xs) ≡ true) × (elem a (remove_first a xs) ≡ false)
unfolding distinct elem remove_first
distinct-remove_first a [] h = (refl, refl)
distinct-remove_first a (x ∷ xs) h =
    ground (arith, distinct-remove_first a xs, elem-remove_first_ne x a xs)

pub elem-remove_first→elem :
    (b a : ℕ) (xs : List ℕ) → elem b (remove_first a xs) ≡ true → elem b xs ≡ true
unfolding elem remove_first
elem-remove_first→elem b a [] h = h
elem-remove_first→elem b a (x ∷ xs) h = ground (arith, elem-remove_first→elem b a xs)

pub elem_differ : (a b : ℕ) (xs : List ℕ) → elem a xs ≡ true → elem b xs ≡ false → (a == b) ≡ false
unfolding elem
elem_differ a b [] h k = ground arith
elem_differ a b (x ∷ xs) h k = ground (arith, elem_differ a b xs)
