-- ===== src/Memcached/Store/Values.antt =====
-- The values that the cache of src/handler/memcached.c finds, after the operations of items.c.
use zeroserv.Prelude.{
  ℕ, ◌≡◌, refl, sym, ap, ◌∙◌, subst, true, false, List, Option, none, some, ◌==◌, if◌then◌else◌,
  arith, Option-cases, Bool-cases, inl, inr, same_text, same_text_sym, elem,
}
use zeroserv.Memcached.Assoc.{assoc_find}
use zeroserv.Memcached.Assoc.Chains.{same_text_joins}
use zeroserv.Memcached.Item.{Item}
use zeroserv.Memcached.Lru.Cells.{payload}
use zeroserv.Memcached.Items.{Cache, key_of}
use zeroserv.Memcached.Items.Index.{indexed, some_inj, same_cell}
use zeroserv.Memcached.Items.Inv.{IsCache, info}
use zeroserv.Memcached.Store.Spec.{put, contents_of, contents_at, values}

pub contents_of-payload :
    (o p : Option Item) → payload o ≡ payload p → contents_of o ≡ contents_of p
contents_of-payload o p e = plain o ∙ ap contents_of e ∙ sym (plain p)
  where
    plain : (o : Option Item) → contents_of o ≡ contents_of (payload o)
    plain none = refl
    plain (some i) = refl

module _ (hash : List ℕ → ℕ) where
  -- The lookups and the values of the items in the list are the same.
  pub values_same :
      (c c' : Cache) (xs : List ℕ)
      → IsCache hash c xs
      → ((key : List ℕ) → assoc_find hash key c'.table ≡ assoc_find hash key c.table)
      → ((a : ℕ) → elem a xs ≡ true → contents_of (c'.lists.heap a) ≡ contents_of (c.lists.heap a))
      → (key : List ℕ) → values hash c' key ≡ values hash c key
  values_same c c' xs h table heap key =
      ap (contents_at c'.lists.heap) (table key)
      ∙ elim (Option-cases (assoc_find hash key c.table)) [
        | inl e ↦ ap (contents_at c'.lists.heap) e ∙ sym (ap (contents_at c.lists.heap) e)
        | inr (a, e) ↦
            ap (contents_at c'.lists.heap) e
            ∙ heap a (h.index.found key a e).member
            ∙ sym (ap (contents_at c.lists.heap) e)
      ]

  -- Another key's item is not the one that has this key.
  pub other_item :
      (c : Cache) (xs : List ℕ) (key k : List ℕ) (a old : ℕ) (i : Item)
      → IsCache hash c xs
      → assoc_find hash key c.table ≡ some a
      → c.lists.heap old ≡ some i
      → same_text k (key_of i) ≡ true
      → same_text key k ≡ false
      → (a == old) ≡ false
  other_item c xs key k a old i h e cell own other = elim (Bool-cases (a == old)) [
    | inr ne ↦ ne
    | inl here ↦
        let m = h.index.found key a e in
        let same =
          some_inj m.item (record i { next = 0; prev = 0; time = 0; refcount = 0; cas_id = 0 })
            (sym m.cell ∙ same_cell (info c) a old here ∙ ap indexed cell) in
        let its = subst (λ j. same_text key (key_of j) ≡ true) same m.own in
        absurd (
          ground (
            arith,
            other,
            same_text_joins (key_of i) key k (same_text_sym (key_of i) key ∙ its)
                (same_text_sym (key_of i) k ∙ own),
          ))
  ]

  -- The key finds a new item, and the others find what they found.
  pub values-put :
      (c c' : Cache) (xs : List ℕ) (it : ℕ) (k v : List ℕ)
      → IsCache hash c xs
      → ((key : List ℕ)
          → assoc_find hash key c'.table
            ≡ (if same_text key k then some it else assoc_find hash key c.table))
      → contents_of (c'.lists.heap it) ≡ some v
      → ((key : List ℕ) (a : ℕ)
          → same_text key k ≡ false
          → assoc_find hash key c.table ≡ some a
          → contents_of (c'.lists.heap a) ≡ contents_of (c.lists.heap a))
      → (key : List ℕ) → values hash c' key ≡ put k v (values hash c) key
  values-put c c' xs it k v h table new others key = elim (Bool-cases (same_text key k)) [
    | inl same ↦
        ap (contents_at c'.lists.heap) {y = some it} (table key ∙ ground (arith, same))
        ∙ new
        ∙ ground (arith, same)
    | inr other ↦
        ap (contents_at c'.lists.heap) {y = assoc_find hash key c.table}
          (table key ∙ ground (arith, other))
        ∙ elim (Option-cases (assoc_find hash key c.table)) [
          | inl e ↦
              ap (contents_at c'.lists.heap) e
              ∙ sym (ap (contents_at c.lists.heap) e)
              ∙ ground (arith, other)
          | inr (a, e) ↦
              ap (contents_at c'.lists.heap) e
              ∙ others key a other e
              ∙ sym (ap (contents_at c.lists.heap) e)
              ∙ ground (arith, other)
        ]
  ]
