-- ===== src/Memcached/Assoc/Lookup.antt =====
-- Lookups after assoc_insert and assoc_delete in src/handler/mc/assoc.c.
use zeroserv.Prelude.{
  ℕ, ◌+◌, ◌-◌, ◌*◌, ◌/◌, ◌%◌, ◌^◌, ◌≤◌, ◌<◌, ◌≡◌, refl, sym, ap, ◌∙◌, subst, Bool, true, false,
  ◌&&◌, not, List, ◌∷◌, none, some, ltb, ◌==◌, if◌then◌else◌, arith, Bool-cases, inl, inr,
  same_text, same_text_sym, same_text_refl, ok,
}
use zeroserv.Memcached.Assoc.{
  Entry, Assoc, find_chain, in_old, get_chain, put_chain, assoc_find, hashitem_before, assoc_expand,
  assoc_insert, assoc_delete, u32,
}
use zeroserv.Memcached.Assoc.Chains.{
  distinct_keys, without, find_chain-without, distinct_keys-without, split_chain-without,
}
use zeroserv.Memcached.Assoc.Inv.{IsAssoc}
use zeroserv.Memcached.Assoc.Put.{
  distinct_keys-get_chain, find-put_chain, IsAssoc-put_chain, IsAssoc-count, assoc_find-count,
  put_chain-rest,
}
use zeroserv.Memcached.Assoc.Expand.{
  IsAssoc-assoc_expand, assoc_find-assoc_expand, hash_items-assoc_expand,
}

module _ (hash : List ℕ → ℕ) where
  -- The item is in front of its chain, and the table has not grown yet.
  linked : Entry → Assoc → Assoc
  linked e t = record (put_chain hash e.key (e ∷ get_chain hash e.key t) t) {
    hash_items = (t.hash_items + 1) % u32;
  }

  assoc_find-linked :
      (e : Entry) (t : Assoc) (key : List ℕ)
      → assoc_find hash key (linked e t)
        ≡ (if same_text key e.key then some e.item else assoc_find hash key t)
  unfolding linked assoc_find get_chain in_old find_chain
  assoc_find-linked e t key =
      find-put_chain hash e.key key (e ∷ get_chain hash e.key t) t (λ j p. ground arith)
      ∙ ground (arith, same_text_refl e.key)

  IsAssoc-linked :
      (e : Entry) (t : Assoc)
      → IsAssoc hash t
      → assoc_find hash e.key t ≡ none
      → IsAssoc hash (linked e t)
  unfolding linked find_chain distinct_keys assoc_find
  IsAssoc-linked e t h absent =
      let h' =
        IsAssoc-put_chain hash e.key (e ∷ get_chain hash e.key t) t h
          (ground (arith, distinct_keys-get_chain hash e.key t h)) (λ j p. ground arith) in
      IsAssoc-count hash ((t.hash_items + 1) % u32)
        (put_chain hash e.key (e ∷ get_chain hash e.key t) t) h' (omega arith)

  -- What assoc_insert does once the item is linked.
  grow : Bool → Bool → Assoc → Assoc
  grow full room t = if full then assoc_expand hash room t else t

  full_below : (n m : ℕ) → 2 ^ n * 3 / 2 < m → m < u32 → n ≤ 32 → n < 32
  full_below n m h k p = elim (Bool-cases (n == 32)) [
    | inl e ↦ absurd (omega (arith, at_32 n e, h, k))
    | inr d ↦ ground arith
  ]
    where
      at_32 : (n : ℕ) → (n == 32) ≡ true → 2 ^ n ≡ 2 ^ 32
      at_32 n e = ap (λ x. 2 ^ x) {y = 32} (ground arith)

  grow_cases :
      (full room : Bool) (t : Assoc)
      → IsAssoc hash t
      → (full ≡ true → (t.hashpower < 32) × (t.expanding ≡ false))
      → IsAssoc hash (grow full room t)
        × ((key : List ℕ) → assoc_find hash key (grow full room t) ≡ assoc_find hash key t)
        × ((grow full room t).hash_items ≡ t.hash_items)
  unfolding grow
  grow_cases false room t h p = (h, λ key. refl, refl)
  grow_cases true room t h p =
      let (q, off) = p refl in
      (
        IsAssoc-assoc_expand hash room t h q,
        λ key. assoc_find-assoc_expand hash room t key h q off,
        hash_items-assoc_expand hash room t,
      )

  -- What assoc_insert of an item with a new key leaves.
  pub record Inserted (e : Entry) (t t' : Assoc) : Type 0 where
    pub valid : IsAssoc hash t'
    pub found :
        (key : List ℕ)
        → assoc_find hash key t'
          ≡ (if same_text key e.key then some e.item else assoc_find hash key t)
    pub items : t'.hash_items ≡ (t.hash_items + 1) % u32

  -- On a valid table, in any stage of an expansion and whether calloc finds memory or not,
  -- assoc_insert of an item whose key is not found keeps the table valid, makes the key find the
  -- item, and changes no other lookup, also when it starts an expansion and moves a bucket.
  pub assoc_insert-Inserted :
      (room : Bool) (e : Entry) (t : Assoc)
      → IsAssoc hash t
      → assoc_find hash e.key t ≡ none
      → Inserted e t (assoc_insert hash room e t)
  unfolding assoc_insert linked grow
  assoc_insert-Inserted room e t h absent =
      let full = not t.expanding && ltb (2 ^ t.hashpower * 3 / 2) ((t.hash_items + 1) % u32) in
      let h' = IsAssoc-linked e t h absent in
      let (power, expanding) = put_chain-rest hash e.key (e ∷ get_chain hash e.key t) t in
      let n = (t.hash_items + 1) % u32 in
      let (valid, same, items) = grow_cases full room (linked e t) h' (λ p. (
        subst (λ n. n < 32) (sym power)
            (full_below t.hashpower n (ground (arith, p)) (omega arith) h.power),
        expanding ∙ ground (arith, p),
      )) in
      record { valid = valid; found = λ key. same key ∙ assoc_find-linked e t key; items = items }

  -- What assoc_delete of a key that is found leaves.
  pub record Deleted (key : List ℕ) (t t' : Assoc) : Type 0 where
    pub valid : IsAssoc hash t'
    pub lost :
        (k : List ℕ)
        → assoc_find hash k t' ≡ (if same_text k key then none else assoc_find hash k t)
    pub items : t'.hash_items ≡ (t.hash_items + u32 - 1) % u32

  -- On a valid table, in any stage of an expansion, assoc_delete of a key that is found passes its
  -- assert, keeps the table valid, makes the key not found, and changes no other lookup.
  pub assoc_delete-Deleted :
      (key : List ℕ) (t : Assoc) (a : ℕ)
      → IsAssoc hash t
      → assoc_find hash key t ≡ some a
      → (t' : Assoc) × (assoc_delete hash key t ≡ ok t') × Deleted key t t'
  unfolding assoc_delete hashitem_before assoc_find
  assoc_delete-Deleted key t a h found =
      let chain = get_chain hash key t in
      let d = distinct_keys-get_chain hash key t h in
      let (e, nxt, rest, cut) = split_chain-without key chain a found in
      let cut_table = put_chain hash key (without key chain) t in
      let others : (k : List ℕ)
          → same_text k key ≡ false
          → find_chain k (without key chain) ≡ find_chain k chain =
        λ k p. find_chain-without key k chain d ∙ ground (arith, p, same_text_sym k key) in
      (
        record cut_table { hash_items = (t.hash_items + u32 - 1) % u32 },
        ground (arith, rest, cut),
        record {
          valid =
              IsAssoc-count hash ((t.hash_items + u32 - 1) % u32) cut_table
                (IsAssoc-put_chain hash key (without key chain) t h
                  (distinct_keys-without key chain d) others)
                (omega arith);
          lost = λ k.
              assoc_find-count hash ((t.hash_items + u32 - 1) % u32) cut_table k
              ∙ find-put_chain hash key k (without key chain) t others
              ∙ ground (arith, find_chain-without key key chain d, same_text_refl key);
          items = refl;
        },
      )
