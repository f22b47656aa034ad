-- ===== src/Memcached/Assoc/Put.antt =====
-- Replacing a chain of the hash table in src/handler/mc/assoc.c.
use zeroserv.Prelude.{
  ℕ, ◌-◌, ◌<◌, ◌≡◌, refl, sym, ap, ◌∙◌, subst, Bool, true, false, List, ◌==◌, if◌then◌else◌, arith,
  Bool-cases, inl, inr, same_text,
}
use zeroserv.Memcached.Assoc.{
  Chain, Assoc, find_chain, put_bucket, bucket_of, in_old, get_chain, put_chain, assoc_find, u32,
}
use zeroserv.Memcached.Assoc.Chains.{distinct_keys, find_chain-eq}
use zeroserv.Memcached.Assoc.Inv.{IsAssoc}
use zeroserv.Memcached.Assoc.Move.{bucket_of-eq, IsPlaced-put_bucket}

pub at_bucket :
    (k : List ℕ) (a b : ℕ) (buckets : ℕ → Chain)
    → (a == b) ≡ true
    → find_chain k (buckets a) ≡ find_chain k (buckets b)
at_bucket k a b buckets p = ap (λ x. find_chain k (buckets x)) (ground arith)

module _ (hash : List ℕ → ℕ) where
  pub distinct_keys-get_chain :
      (key : List ℕ) (t : Assoc) → IsAssoc hash t → distinct_keys (get_chain hash key t) ≡ true
  unfolding get_chain in_old
  distinct_keys-get_chain key t h = elim (Bool-cases t.expanding) [
    | inl on ↦ ground (
      arith,
      h.primary.distinct (bucket_of hash key t.hashpower),
      (h.growing on).old.distinct (bucket_of hash key (t.hashpower - 1)),
    )
    | inr off ↦ ground (arith, h.primary.distinct (bucket_of hash key t.hashpower))
  ]

  -- A chain that replaces the chain of `key`, and differs from it in that key alone.
  pub find-put_chain :
      (key k : List ℕ) (chain : Chain) (t : Assoc)
      → ((j : List ℕ)
          → same_text j key ≡ false
          → find_chain j chain ≡ find_chain j (get_chain hash key t))
      → assoc_find hash k (put_chain hash key chain t)
        ≡ (if same_text k key then find_chain key chain else assoc_find hash k t)
  unfolding get_chain in_old assoc_find put_chain
  find-put_chain key k chain t h =
      let n = t.hashpower in
      elim (Bool-cases (same_text k key)) [
        | inl p ↦ ground (
          arith,
          bucket_of-eq hash n k key,
          bucket_of-eq hash (n - 1) k key,
          find_chain-eq k key chain,
        )
        | inr p ↦ ground (
          arith,
          h k,
          at_bucket k (bucket_of hash k n) (bucket_of hash key n) t.primary_hashtable,
          at_bucket k (bucket_of hash k (n - 1)) (bucket_of hash key (n - 1)) t.old_hashtable,
        )
      ]

  pub IsAssoc-put_chain :
      (key : List ℕ) (chain : Chain) (t : Assoc)
      → IsAssoc hash t
      → distinct_keys chain ≡ true
      → ((j : List ℕ)
          → same_text j key ≡ false
          → find_chain j chain ≡ find_chain j (get_chain hash key t))
      → IsAssoc hash (put_chain hash key chain t)
  unfolding get_chain put_chain in_old
  IsAssoc-put_chain key chain t h d others = elim (Bool-cases (in_old hash key t)) [
    | inl old ↦
        subst (λ b. IsAssoc hash (put b)) (sym old)
          (record {
            primary = h.primary;
            growing = λ on.
                let g = h.growing on in
                record {
                  old =
                      IsPlaced-put_bucket hash (t.hashpower - 1)
                        (bucket_of hash key (t.hashpower - 1)) chain t.old_hashtable g.old d
                        (λ j off.
                          others j (differs (t.hashpower - 1) j off)
                          ∙ ground
                              (arith, old, g.old.placed (bucket_of hash key (t.hashpower - 1)) j));
                  unmoved = g.unmoved;
                  bound = g.bound;
                };
            items = h.items;
            power = h.power;
          })
    | inr new ↦
        subst (λ b. IsAssoc hash (put b)) (sym new)
          (record {
            primary =
                IsPlaced-put_bucket hash t.hashpower (bucket_of hash key t.hashpower) chain
                  t.primary_hashtable h.primary d
                  (λ j off.
                    others j (differs t.hashpower j off)
                    ∙ ground (arith, new, h.primary.placed (bucket_of hash key t.hashpower) j));
            growing = λ on.
                let g = h.growing on in
                record {
                  old = g.old;
                  unmoved = λ j off.
                      let own = bucket_of hash key t.hashpower in
                      let b = bucket_of hash j t.hashpower in
                      ground (
                        arith,
                        g.unmoved j,
                        others j,
                        bucket_of-eq hash (t.hashpower - 1) j key,
                        at_bucket j b own t.primary_hashtable,
                      );
                  bound = g.bound;
                };
            items = h.items;
            power = h.power;
          })
  ]
    where
      put : Bool → Assoc
      put b =
          if b
          then record t {
            old_hashtable = put_bucket (bucket_of hash key (t.hashpower - 1)) chain t.old_hashtable;
          }
          else record t {
            primary_hashtable =
                put_bucket (bucket_of hash key t.hashpower) chain t.primary_hashtable;
          }

      differs :
          (n : ℕ) (j : List ℕ)
          → (bucket_of hash j n == bucket_of hash key n) ≡ false
          → same_text j key ≡ false
      differs n j off = ground (arith, bucket_of-eq hash n j key)

  pub IsAssoc-count :
      (n : ℕ) (t : Assoc) → IsAssoc hash t → n < u32 → IsAssoc hash (record t { hash_items = n })
  IsAssoc-count n t h p = record {
    primary = h.primary;
    growing =
        λ on. let g = h.growing on in record { old = g.old; unmoved = g.unmoved; bound = g.bound };
    items = p;
    power = h.power;
  }

  pub assoc_find-count :
      (n : ℕ) (t : Assoc) (key : List ℕ)
      → assoc_find hash key (record t { hash_items = n }) ≡ assoc_find hash key t
  unfolding assoc_find get_chain in_old
  assoc_find-count n t key = refl

  pub put_chain-rest :
      (key : List ℕ) (chain : Chain) (t : Assoc)
      → ((put_chain hash key chain t).hashpower ≡ t.hashpower)
        × ((put_chain hash key chain t).expanding ≡ t.expanding)
  unfolding put_chain
  put_chain-rest key chain t = (ground arith, ground arith)
