-- ===== src/Memcached/Assoc/Move.antt =====
-- do_assoc_move_next_bucket and assoc_expand in src/handler/mc/assoc.c.
use zeroserv.Prelude.{
  ℕ, ◌+◌, ◌-◌, ◌%◌, ◌^◌, ◌≤◌, ◌<◌, ◌≡◌, refl, sym, ap, ◌∙◌, subst, true, false, List, [], ◌∷◌, none,
  ◌==◌, if◌then◌else◌, arith, Bool-cases, inl, inr, same_text, same_text→eq, same_text_refl,
}
use native.Mathlib.Nat.{pow-le-pow_right, mod-lt}
use zeroserv.Memcached.Assoc.{
  Chain, Buckets, Assoc, find_chain, put_bucket, bucket_of, in_old, get_chain, assoc_find,
  move_chain, do_assoc_move_next_bucket, move_bucket, u32,
}
use zeroserv.Memcached.Assoc.Chains.{distinct_keys, first_of, find_chain-eq}
use zeroserv.Memcached.Assoc.Inv.{IsPlaced, IsGrowing, IsAssoc}
use zeroserv.UtHash.{is_some}

module _ (hash : List ℕ → ℕ) where
  pub bucket_of-eq :
      (n : ℕ) (j k : List ℕ) → same_text j k ≡ true → bucket_of hash j n ≡ bucket_of hash k n
  bucket_of-eq n j k h = ap (λ x. bucket_of hash x n) (same_text→eq j k h)

  pub find_chain-move_chain :
      (n : ℕ) (chain : Chain) (buckets : Buckets) (b : ℕ) (key : List ℕ)
      → distinct_keys chain ≡ true
      → find_chain key (move_chain hash n chain buckets b) ≡ (
          if bucket_of hash key n == b
          then first_of (find_chain key chain) (find_chain key (buckets b))
          else find_chain key (buckets b))
  unfolding find_chain move_chain first_of distinct_keys
  find_chain-move_chain n [] buckets b key d = ground arith
  find_chain-move_chain n (e ∷ chain) buckets b key d =
      let own = bucket_of hash e.key n in
      let buckets' = put_bucket own (e ∷ buckets own) buckets in
      ground (
        arith,
        find_chain-move_chain n chain buckets' b key,
        bucket_of-eq n key e.key,
        find_chain-eq key e.key chain,
      )

  pub distinct_keys-move_chain :
      (n : ℕ) (chain : Chain) (buckets : Buckets) (b : ℕ)
      → distinct_keys chain ≡ true
      → distinct_keys (buckets b) ≡ true
      → ((key : List ℕ)
          → is_some (find_chain key chain) ≡ true
          → is_some (find_chain key (buckets b)) ≡ false)
      → distinct_keys (move_chain hash n chain buckets b) ≡ true
  unfolding find_chain move_chain distinct_keys
  distinct_keys-move_chain n [] buckets b d e apart = e
  distinct_keys-move_chain n (x ∷ chain) buckets b d e apart =
      let own = bucket_of hash x.key n in
      let buckets' = put_bucket own (x ∷ buckets own) buckets in
      distinct_keys-move_chain n chain buckets' b (ground arith)
        (ground (arith, apart x.key, same_text_refl x.key))
        (λ key h. ground (arith, apart key, find_chain-eq key x.key chain))

  -- What the invariant says of the bucket that is moved.
  bucket_apart :
      (t : Assoc) (b : ℕ)
      → IsAssoc hash t
      → IsGrowing hash t
      → (key : List ℕ) → is_some (find_chain key (t.old_hashtable t.expand_bucket)) ≡ true
      → is_some (find_chain key (t.primary_hashtable b)) ≡ false
  bucket_apart t b h g key found = ground (
    arith,
    h.primary.placed b key,
    g.unmoved key,
    g.old.placed t.expand_bucket key,
    here b (bucket_of hash key t.hashpower),
  )
    where
      here :
          (b c : ℕ)
          → (c == b) ≡ true
          → find_chain key (t.primary_hashtable b) ≡ find_chain key (t.primary_hashtable c)
      here b c p = ap (λ x. find_chain key (t.primary_hashtable x)) (ground arith)

  pub u32_bound : (a n : ℕ) → a < 2 ^ (n - 1) → n ≤ 32 → (a + 1) % u32 ≡ a + 1
  u32_bound a n h k =
      omega (arith, pow-le-pow_right {n = 2} (omega arith) {i = n - 1} {j = 31} (omega arith))

  pub assoc_find-do_assoc_move_next_bucket :
      (t : Assoc) (key : List ℕ)
      → IsAssoc hash t
      → assoc_find hash key (do_assoc_move_next_bucket hash t) ≡ assoc_find hash key t
  unfolding assoc_find get_chain in_old do_assoc_move_next_bucket move_bucket first_of
  assoc_find-do_assoc_move_next_bucket t key h = elim (Bool-cases t.expanding) [
    | inr off ↦ ground arith
    | inl on ↦
        let g = h.growing on in
        let old = t.old_hashtable t.expand_bucket in
        ground (
          arith,
          u32_bound t.expand_bucket t.hashpower g.bound h.power,
          g.unmoved key,
          g.old.placed t.expand_bucket key,
          g.old.distinct t.expand_bucket,
          find_chain-move_chain t.hashpower old t.primary_hashtable (bucket_of hash key t.hashpower)
              key,
        )
  ]

  pub bucket_bound : (key : List ℕ) (n : ℕ) → bucket_of hash key n < 2 ^ n
  bucket_bound key n =
      mod-lt (hash key)
        (omega (arith, pow-le-pow_right {n = 2} (omega arith) {i = 0} {j = n} (omega arith)))

  pub IsPlaced-put_bucket :
      (n b : ℕ) (chain : Chain) (buckets : Buckets)
      → IsPlaced hash n buckets
      → distinct_keys chain ≡ true
      → ((key : List ℕ) → (bucket_of hash key n == b) ≡ false → find_chain key chain ≡ none)
      → IsPlaced hash n (put_bucket b chain buckets)
  IsPlaced-put_bucket n b chain buckets h d own = record {
    placed =
        λ a key off. ground (arith, h.placed a key, own key, eq_trans (bucket_of hash key n) a b);
    distinct = λ a. ground (arith, h.distinct a);
  }
    where
      eq_trans : (c a b : ℕ) → (a == b) ≡ true → (c == a) ≡ false → (c == b) ≡ false
      eq_trans c a b p q = ground arith

  pub IsPlaced-empty : (n : ℕ) → IsPlaced hash n (λ b. [])
  unfolding find_chain distinct_keys
  IsPlaced-empty n = record { placed = λ b key off. refl; distinct = λ b. refl }

  IsAssoc-move_bucket :
      (t : Assoc) → IsAssoc hash t → IsGrowing hash t → IsAssoc hash (move_bucket hash t)
  unfolding find_chain distinct_keys move_bucket first_of
  IsAssoc-move_bucket t h g =
      let chain = t.old_hashtable t.expand_bucket in
      let next = u32_bound t.expand_bucket t.hashpower g.bound h.power in
      let moved = find_chain-move_chain t.hashpower chain t.primary_hashtable in
      let once = g.old.distinct t.expand_bucket in
      record {
        primary = record {
          placed = λ b key off. moved b key once ∙ ground (arith, h.primary.placed b key);
          distinct = λ b.
              distinct_keys-move_chain t.hashpower chain t.primary_hashtable b once
                (h.primary.distinct b) (bucket_apart t b h g);
        };
        growing = λ on. record {
          old =
              IsPlaced-put_bucket (t.hashpower - 1) t.expand_bucket [] t.old_hashtable g.old refl
                (λ key off. refl);
          unmoved = λ key off.
              moved (bucket_of hash key t.hashpower) key once
              ∙ ground (arith, next, g.unmoved key, g.old.placed t.expand_bucket key);
          bound = ground (arith, next, g.bound);
        };
        items = h.items;
        power = h.power;
      }

  pub IsAssoc-do_assoc_move_next_bucket :
      (t : Assoc) → IsAssoc hash t → IsAssoc hash (do_assoc_move_next_bucket hash t)
  unfolding do_assoc_move_next_bucket
  IsAssoc-do_assoc_move_next_bucket t h = elim (Bool-cases t.expanding) [
    | inr off ↦ subst (λ b. IsAssoc hash (if b then move_bucket hash t else t)) (sym off) h
    | inl on ↦
        subst (λ b. IsAssoc hash (if b then move_bucket hash t else t)) (sym on)
          (IsAssoc-move_bucket t h (h.growing on))
  ]
