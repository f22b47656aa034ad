-- ===== src/Memcached/Assoc/Expand.antt =====
-- assoc_expand in src/handler/mc/assoc.c.
use zeroserv.Prelude.{
  ℕ, ◌+◌, ◌-◌, ◌<◌, ◌≡◌, refl, sym, ap, ◌∙◌, subst, Bool, true, false, List, [], arith,
}
use native.Mathlib.Nat.{pow-le-pow_right}
use zeroserv.Memcached.Assoc.{
  Assoc, find_chain, bucket_of, in_old, get_chain, assoc_find, do_assoc_move_next_bucket,
  move_bucket, assoc_expand,
}
use zeroserv.Memcached.Assoc.Inv.{IsPlaced, IsAssoc}
use zeroserv.Memcached.Assoc.Move.{
  IsPlaced-empty, assoc_find-do_assoc_move_next_bucket, IsAssoc-do_assoc_move_next_bucket,
}
use zeroserv.Memcached.Assoc.Put.{at_bucket}

module _ (hash : List ℕ → ℕ) where
  -- What assoc_expand starts from: the table as the old one, and an empty one of twice the size.
  expand_start : Assoc → Assoc
  expand_start t = record t {
    old_hashtable = t.primary_hashtable;
    primary_hashtable = λ b. [];
    hashpower = t.hashpower + 1;
    expanding = true;
    expand_bucket = 0;
  }

  add_sub : (n : ℕ) → n + 1 - 1 ≡ n
  add_sub n = omega arith

  IsAssoc-expand_start :
      (t : Assoc) → IsAssoc hash t → t.hashpower < 32 → IsAssoc hash (expand_start t)
  unfolding expand_start find_chain
  IsAssoc-expand_start t h p = record {
    primary = IsPlaced-empty hash (t.hashpower + 1);
    growing = λ on. record {
      old = subst (λ n. IsPlaced hash n t.primary_hashtable) (sym (add_sub t.hashpower)) h.primary;
      unmoved = λ key off. refl;
      bound = omega (
        arith,
        pow-le-pow_right {n = 2} (omega arith) {i = 0} {j = t.hashpower + 1 - 1} (omega arith),
      );
    };
    items = h.items;
    power = omega (arith, p);
  }

  assoc_find-expand_start :
      (t : Assoc) (key : List ℕ)
      → t.expanding ≡ false
      → assoc_find hash key (expand_start t) ≡ assoc_find hash key t
  unfolding expand_start assoc_find get_chain in_old
  assoc_find-expand_start t key off =
      let same = ap (λ n. bucket_of hash key n) (add_sub t.hashpower) in
      ground (
        arith,
        off,
        same,
        at_bucket key (bucket_of hash key (t.hashpower + 1 - 1)) (bucket_of hash key t.hashpower)
            t.primary_hashtable,
      )

  pub IsAssoc-assoc_expand :
      (room : Bool) (t : Assoc)
      → IsAssoc hash t
      → t.hashpower < 32
      → IsAssoc hash (assoc_expand hash room t)
  unfolding assoc_expand expand_start
  IsAssoc-assoc_expand false t h p = h
  IsAssoc-assoc_expand true t h p =
      IsAssoc-do_assoc_move_next_bucket hash (expand_start t) (IsAssoc-expand_start t h p)

  pub assoc_find-assoc_expand :
      (room : Bool) (t : Assoc) (key : List ℕ)
      → IsAssoc hash t
      → t.hashpower < 32
      → t.expanding ≡ false
      → assoc_find hash key (assoc_expand hash room t) ≡ assoc_find hash key t
  unfolding assoc_expand expand_start
  assoc_find-assoc_expand false t key h p off = refl
  assoc_find-assoc_expand true t key h p off =
      assoc_find-do_assoc_move_next_bucket hash (expand_start t) key (IsAssoc-expand_start t h p)
      ∙ assoc_find-expand_start t key off

  pub hash_items-assoc_expand :
      (room : Bool) (t : Assoc) → (assoc_expand hash room t).hash_items ≡ t.hash_items
  unfolding assoc_expand do_assoc_move_next_bucket move_bucket
  hash_items-assoc_expand false t = refl
  hash_items-assoc_expand true t = refl
