-- ===== src/UtHash/Assoc.antt =====
-- An instance of the interface to src/common/uthash.h: an association list.
use zeroserv.Prelude.{
  ℕ, ◌≡◌, refl, true, List, [], ◌∷◌, ◌++◌, Option, none, some, ◌==◌, if◌then◌else◌, elem, distinct,
  remove_first, arith, ap,
}
use zeroserv.UtHash.Interface.{UtHash, is_some}

module _ {V : Type 0} where
  abbrev pub keys_of : List (ℕ × V) → List ℕ
  keys_of [] = []
  keys_of ((k, v) ∷ t) = k ∷ keys_of t

  abbrev pub find_in : ℕ → List (ℕ × V) → Option V
  find_in k [] = none
  find_in k ((j, v) ∷ t) = if j == k then some v else find_in k t

  abbrev pub add_to : ℕ → V → List (ℕ × V) → List (ℕ × V)
  add_to k v [] = (k, v) ∷ []
  add_to k v ((j, w) ∷ t) = (j, w) ∷ add_to k v t

  abbrev pub delete_from : ℕ → List (ℕ × V) → List (ℕ × V)
  delete_from k [] = []
  delete_from k ((j, v) ∷ t) = if j == k then t else (j, v) ∷ delete_from k t

  pub elem-keys_of : (k : ℕ) (t : List (ℕ × V)) → elem k (keys_of t) ≡ is_some (find_in k t)
  unfolding elem
  elem-keys_of k [] = refl
  elem-keys_of k ((j, v) ∷ t) = ground (arith, elem-keys_of k t)

  pub find_in-add_to :
      (k j : ℕ) (v : V) (t : List (ℕ × V))
      → find_in k t ≡ none
      → find_in j (add_to k v t) ≡ (if k == j then some v else find_in j t)
  find_in-add_to k j v [] h = refl
  find_in-add_to k j v ((i, w) ∷ t) h = ground (arith, find_in-add_to k j v t)

  pub keys_of-add_to :
      (k : ℕ) (v : V) (t : List (ℕ × V)) → keys_of (add_to k v t) ≡ keys_of t ++ k ∷ []
  keys_of-add_to k v [] = refl
  keys_of-add_to k v ((j, w) ∷ t) = ap (◌∷◌ j) (keys_of-add_to k v t)

  pub find_in-delete_from :
      (k j : ℕ) (t : List (ℕ × V))
      → distinct (keys_of t) ≡ true
      → find_in j (delete_from k t) ≡ (if k == j then none else find_in j t)
  unfolding distinct
  find_in-delete_from k j [] d = ground arith
  find_in-delete_from k j ((i, v) ∷ t) d =
      ground (arith, find_in-delete_from k j t, elem-keys_of j t)

  pub keys_of-delete_from :
      (k : ℕ) (t : List (ℕ × V)) → keys_of (delete_from k t) ≡ remove_first k (keys_of t)
  unfolding remove_first
  keys_of-delete_from k [] = refl
  keys_of-delete_from k ((j, v) ∷ t) = ground (arith, keys_of-delete_from k t)

abbrev pub assoc : (V : Type 0) → UtHash V
assoc V = record {
  Table = List (ℕ × V);
  empty = [];
  find = find_in;
  add = add_to;
  delete = delete_from;
  keys = keys_of;
  keys-empty = refl;
  elem-keys = elem-keys_of;
  find-add = find_in-add_to;
  keys-add = λ k v t h. keys_of-add_to k v t;
  find-delete = λ k j t d h. find_in-delete_from k j t d;
  keys-delete = λ k t h. keys_of-delete_from k t;
}
