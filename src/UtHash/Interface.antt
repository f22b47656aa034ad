-- ===== src/UtHash/Interface.antt =====
-- The interface to src/common/uthash.h.
use zeroserv.Prelude.{
  ℕ, ◌≡◌, Bool, true, false, List, [], ◌∷◌, ◌++◌, Option, none, some, ◌==◌, if◌then◌else◌, elem,
  distinct, remove_first,
}

abbrev pub is_some {ℓ} : {A : Type ℓ} → Option A → Bool
is_some none = false
is_some (some a) = true

pub record UtHash (V : Type 0) : Type 1 where
  pub Table : Type 0
  pub empty : Table
  pub find : ℕ → Table → Option V
  pub add : ℕ → V → Table → Table
  pub delete : ℕ → Table → Table
  pub keys : Table → List ℕ
  pub keys-empty : keys empty ≡ []
  pub elem-keys : (k : ℕ) (t : Table) → elem k (keys t) ≡ is_some (find k t)
  pub find-add :
      (k j : ℕ) (v : V) (t : Table)
      → find k t ≡ none
      → find j (add k v t) ≡ (if k == j then some v else find j t)
  pub keys-add : (k : ℕ) (v : V) (t : Table) → find k t ≡ none → keys (add k v t) ≡ keys t ++ k ∷ []
  pub find-delete :
      (k j : ℕ) (t : Table)
      → distinct (keys t) ≡ true
      → is_some (find k t) ≡ true
      → find j (delete k t) ≡ (if k == j then none else find j t)
  pub keys-delete :
      (k : ℕ) (t : Table) → is_some (find k t) ≡ true → keys (delete k t) ≡ remove_first k (keys t)
