-- ===== src/Memcached/Assoc/Chains.antt =====
-- Chains of the hash table in src/handler/mc/assoc.c as finite maps from keys to items.
use zeroserv.Prelude.{
  ℕ, ◌≡◌, refl, sym, ap, ap₂, ◌∙◌, Bool, true, ◌&&◌, not, List, [], ◌∷◌, ◌++◌, Option, none, some,
  if◌then◌else◌, arith, same_text, same_text_refl, same_text→eq, same_text_sym, Bool-cases, inl,
  inr,
}
use zeroserv.Memcached.Assoc.{Entry, Chain, find_chain, split_chain}
use zeroserv.UtHash.{is_some}

-- The first of two lookups that finds something.
unfoldable pub first_of : Option ℕ → Option ℕ → Option ℕ
first_of none o = o
first_of (some a) o = some a

-- The chain without the first item of the key.
unfoldable pub without : List ℕ → Chain → Chain
without key [] = []
without key (e ∷ chain) = if same_text key e.key then chain else e ∷ without key chain

-- No two items of the chain have one key.
unfoldable pub distinct_keys : Chain → Bool
distinct_keys [] = true
distinct_keys (e ∷ chain) = not (is_some (find_chain e.key chain)) && distinct_keys chain

-- Two keys that a third is equal to.
pub same_text_joins :
    (k a b : List ℕ) → same_text k a ≡ true → same_text k b ≡ true → same_text a b ≡ true
same_text_joins k a b p q =
    ap₂ same_text (sym (same_text→eq k a p)) (sym (same_text→eq k b q)) ∙ same_text_refl k

pub find_chain-eq :
    (j k : List ℕ) (chain : Chain) → same_text j k ≡ true → find_chain j chain ≡ find_chain k chain
find_chain-eq j k chain h = ap (λ x. find_chain x chain) (same_text→eq j k h)

pub find_chain-without :
    (k j : List ℕ) (chain : Chain)
    → distinct_keys chain ≡ true
    → find_chain j (without k chain) ≡ (if same_text k j then none else find_chain j chain)
unfolding find_chain without distinct_keys
find_chain-without k j [] d = ground arith
find_chain-without k j (e ∷ chain) d = ground (
  arith,
  find_chain-without k j chain,
  same_text_joins k e.key j,
  same_text_joins k j e.key,
  same_text_joins j k e.key,
  same_text_joins e.key k j,
  same_text_sym k e.key,
  same_text_sym j e.key,
  same_text_sym k j,
  find_chain-eq j e.key chain,
)

pub distinct_keys-without :
    (k : List ℕ) (chain : Chain)
    → distinct_keys chain ≡ true
    → distinct_keys (without k chain) ≡ true
unfolding distinct_keys without
distinct_keys-without k [] d = refl
distinct_keys-without k (e ∷ chain) d =
    ground (arith, distinct_keys-without k chain, find_chain-without k e.key chain)

-- The cut of a chain in which the key is found.
pub split_chain-without :
    (k : List ℕ) (chain : Chain) (a : ℕ)
    → find_chain k chain ≡ some a
    → (e : Entry) × (nxt : Chain) × ((split_chain k chain).1 ≡ e ∷ nxt)
      × ((split_chain k chain).0 ++ nxt ≡ without k chain)
unfolding find_chain split_chain without
split_chain-without k [] a h = ground arith
split_chain-without k (e ∷ chain) a h = elim (Bool-cases (same_text k e.key)) [
  | inl p ↦ (e, chain, ground arith, ground arith)
  | inr p ↦
      let (e', nxt, q, r) = split_chain-without k chain a (ground arith) in
      (e', nxt, ground arith, ground arith)
]
