-- ===== src/Memcached/Assoc/Inv.antt =====
-- The hash table in src/handler/mc/assoc.c: which chains a key can stand in.
use zeroserv.Prelude.{ℕ, ◌-◌, ◌^◌, ◌≤◌, ◌<◌, ◌≡◌, true, false, List, none, leb, ◌==◌}
use zeroserv.Memcached.Assoc.{Assoc, Buckets, find_chain, bucket_of, u32}
use zeroserv.Memcached.Assoc.Chains.{distinct_keys}

module _ (hash : List ℕ → ℕ) where
  -- A key is found only in its own bucket of a table of 2 ^ n buckets, and no bucket repeats one.
  pub record IsPlaced (n : ℕ) (buckets : Buckets) : Type 0 where
    pub placed :
        (b : ℕ) (key : List ℕ)
        → (bucket_of hash key n == b) ≡ false
        → find_chain key (buckets b) ≡ none
    pub distinct : (b : ℕ) → distinct_keys (buckets b) ≡ true

  -- While the table grows, a bucket of the old table from `expand_bucket` on has not been moved.
  pub record IsGrowing (t : Assoc) : Type 0 where
    pub old : IsPlaced (t.hashpower - 1) t.old_hashtable
    pub unmoved :
        (key : List ℕ)
        → leb t.expand_bucket (bucket_of hash key (t.hashpower - 1)) ≡ true
        → find_chain key (t.primary_hashtable (bucket_of hash key t.hashpower)) ≡ none
    pub bound : t.expand_bucket < 2 ^ (t.hashpower - 1)

  pub record IsAssoc (t : Assoc) : Type 0 where
    pub primary : IsPlaced t.hashpower t.primary_hashtable
    pub growing : t.expanding ≡ true → IsGrowing t
    pub items : t.hash_items < u32
    pub power : t.hashpower ≤ 32
