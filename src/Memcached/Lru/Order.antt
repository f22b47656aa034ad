-- ===== src/Memcached/Lru/Order.antt =====
-- A list of addresses as a doubly linked list: what stands before and behind an address, with 0 at
-- the ends.
use zeroserv.Prelude.{
  ℕ, ◌≡◌, refl, true, false, List, [], ◌∷◌, ◌==◌, if◌then◌else◌, arith, elem, distinct,
  remove_first, elem_differ,
}

unfoldable pub first : List ℕ → ℕ
first [] = 0
first (x ∷ xs) = x

unfoldable pub last_from : ℕ → List ℕ → ℕ
last_from p [] = p
last_from p (x ∷ xs) = last_from x xs

unfoldable pub next_of : ℕ → List ℕ → ℕ
next_of a [] = 0
next_of a (x ∷ xs) = if x == a then first xs else next_of a xs

unfoldable pub prev_from : ℕ → ℕ → List ℕ → ℕ
prev_from p a [] = 0
prev_from p a (x ∷ xs) = if x == a then p else prev_from x a xs

pub elem-last_from : (p : ℕ) (xs : List ℕ) → elem (last_from p xs) (p ∷ xs) ≡ true
unfolding last_from elem
elem-last_from p [] = ground arith
elem-last_from p (x ∷ xs) = ground (arith, elem-last_from x xs)

pub elem-next_of :
    (a : ℕ) (xs : List ℕ) → (next_of a xs == 0) ≡ false → elem (next_of a xs) xs ≡ true
unfolding next_of elem first
elem-next_of a [] h = ground arith
elem-next_of a (x ∷ []) h = ground arith
elem-next_of a (x ∷ y ∷ xs) h = ground (arith, elem-next_of a (y ∷ xs))

pub elem-prev_from :
    (p a : ℕ) (xs : List ℕ)
    → (prev_from p a xs == 0) ≡ false
    → elem (prev_from p a xs) (p ∷ xs) ≡ true
unfolding prev_from elem
elem-prev_from p a [] h = ground arith
elem-prev_from p a (x ∷ xs) h = ground (arith, elem-prev_from x a xs)

pub elem-prev_from_member :
    (p a : ℕ) (xs : List ℕ) → elem a xs ≡ true → elem (prev_from p a xs) (p ∷ xs) ≡ true
unfolding prev_from elem
elem-prev_from_member p a [] h = ground arith
elem-prev_from_member p a (x ∷ xs) h = ground (arith, elem-prev_from_member x a xs)

pub elem-first : (xs : List ℕ) → (first xs == 0) ≡ false → elem (first xs) xs ≡ true
unfolding elem first
elem-first [] h = ground arith
elem-first (x ∷ xs) h = ground arith

next_of_not_first :
    (a y : ℕ) (xs : List ℕ)
    → distinct (y ∷ xs) ≡ true
    → elem 0 (y ∷ xs) ≡ false
    → (next_of a (y ∷ xs) == y) ≡ false
unfolding next_of distinct elem
next_of_not_first a y xs d z = ground (
  arith,
  elem-first xs,
  elem-next_of a xs,
  elem_differ (first xs) y xs,
  elem_differ (next_of a xs) y xs,
)

module _ (x : ℕ) where
  pub first-remove_first :
      (xs : List ℕ)
      → elem x xs ≡ true
      → first (remove_first x xs) ≡ (if first xs == x then next_of x xs else first xs)
  unfolding first next_of elem remove_first
  first-remove_first [] h = ground arith
  first-remove_first (y ∷ xs) h = ground arith

  pub last_from-remove_first :
      (p : ℕ) (xs : List ℕ)
      → distinct (p ∷ xs) ≡ true
      → elem x xs ≡ true
      → last_from p (remove_first x xs)
        ≡ (if last_from p xs == x then prev_from p x xs else last_from p xs)
  unfolding last_from prev_from elem remove_first distinct
  last_from-remove_first p [] d h = ground arith
  last_from-remove_first p (y ∷ []) d h = ground arith
  last_from-remove_first p (y ∷ z ∷ xs) d h =
      ground (arith, last_from-remove_first y (z ∷ xs), elem-last_from z xs)

  pub next_of-remove_first :
      (a : ℕ) (xs : List ℕ)
      → distinct xs ≡ true
      → elem 0 xs ≡ false
      → (x == a) ≡ false
      → elem x xs ≡ true
      → next_of a (remove_first x xs) ≡ (if next_of a xs == x then next_of x xs else next_of a xs)
  unfolding first next_of elem remove_first distinct
  next_of-remove_first a [] d z ne h = ground arith
  next_of-remove_first a (y ∷ xs) d z ne h =
      ground (arith, next_of-remove_first a xs, first-remove_first xs, elem-next_of a xs)

  pub prev_from-remove_first :
      (p a : ℕ) (xs : List ℕ)
      → distinct (p ∷ xs) ≡ true
      → elem 0 xs ≡ false
      → (x == a) ≡ false
      → (x == p) ≡ false
      → elem x xs ≡ true
      → prev_from p a (remove_first x xs)
        ≡ (if prev_from p a xs == x then prev_from p x xs else prev_from p a xs)
  unfolding prev_from elem remove_first distinct
  prev_from-remove_first p a [] d z ne h np = ground arith
  prev_from-remove_first p a (y ∷ []) d z ne h np = ground arith
  prev_from-remove_first p a (y ∷ w ∷ xs) d z ne h np =
      ground (arith, prev_from-remove_first y a (w ∷ xs), elem-prev_from w a xs)

pub prev_from_head :
    (p x : ℕ) (xs : List ℕ) → (first xs == x) ≡ true → elem x xs ≡ true → prev_from p x xs ≡ p
unfolding first prev_from elem
prev_from_head p x [] h m = ground arith
prev_from_head p x (y ∷ xs) h m = ground arith

pub next_of_last :
    (p x : ℕ) (xs : List ℕ)
    → distinct (p ∷ xs) ≡ true
    → (last_from p xs == x) ≡ true
    → next_of x xs ≡ 0
unfolding first last_from next_of distinct elem
next_of_last p x [] d h = refl
next_of_last p x (y ∷ []) d h = ground arith
next_of_last p x (y ∷ z ∷ xs) d h = ground (arith, next_of_last y x (z ∷ xs), elem-last_from z xs)

pub prev-next :
    (p a x : ℕ) (xs : List ℕ)
    → distinct (p ∷ xs) ≡ true
    → elem 0 xs ≡ false
    → elem x xs ≡ true
    → elem a (p ∷ xs) ≡ true
    → (prev_from p x xs == a) ≡ (next_of a (p ∷ xs) == x)
unfolding first prev_from next_of distinct elem
prev-next p a x [] d z h k = ground arith
prev-next p a x (y ∷ []) d z h k = ground arith
prev-next p a x (y ∷ w ∷ xs) d z h k = ground (
  arith,
  prev-next y a x (w ∷ xs),
  elem-prev_from_member y x (w ∷ xs),
  next_of_not_first a y (w ∷ xs),
  elem_differ (prev_from y x (w ∷ xs)) p (y ∷ w ∷ xs),
)

pub next_of_ne :
    (x : ℕ) (xs : List ℕ)
    → distinct xs ≡ true
    → elem 0 xs ≡ false
    → elem x xs ≡ true
    → (next_of x xs == x) ≡ false
unfolding first next_of distinct elem
next_of_ne x [] d z h = ground arith
next_of_ne x (y ∷ []) d z h = ground arith
next_of_ne x (y ∷ w ∷ xs) d z h = ground (arith, next_of_ne x (w ∷ xs))

pub prev_from_shift :
    (p a : ℕ) (xs : List ℕ)
    → elem a xs ≡ true
    → prev_from p a xs ≡ (if first xs == a then p else prev_from 0 a xs)
unfolding first prev_from elem
prev_from_shift p a [] m = ground arith
prev_from_shift p a (x ∷ xs) m = ground arith
