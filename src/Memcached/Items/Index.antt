-- ===== src/Memcached/Items/Index.antt =====
-- The items of src/handler/mc/items.c beside the hash table and the list: which items are found
-- under their keys.
use zeroserv.Prelude.{
  ℕ, ◌≡◌, sym, ap, ◌∙◌, true, false, List, ◌∷◌, Option, none, some, ◌==◌, if◌then◌else◌, arith,
  elem, remove_first, same_text, same_text→eq, same_text_refl, Bool-cases, inl, inr, distinct,
  distinct-remove_first, elem-remove_first_ne, elem-remove_first→elem, elem_differ, subst,
}
use zeroserv.Memcached.Assoc.{Assoc, assoc_find}
use zeroserv.Memcached.Item.{Item}
use zeroserv.Memcached.Items.{key_of}

-- An item without its place in the list and what changes while it is linked.
abbrev pub indexed : Option Item → Option Item
indexed none = none
indexed (some i) = some (record i { next = 0; prev = 0; time = 0; refcount = 0; cas_id = 0 })

abbrev pub Index : Type 0
Index = ℕ → Option Item

pub same_cell : (f : Index) (a b : ℕ) → (a == b) ≡ true → f a ≡ f b
same_cell f a b h = ap f (ground arith)

pub some_inj : (i j : Item) → some i ≡ some j → i ≡ j
some_inj i j e = ap (get i) e
  where
    get : Item → Option Item → Item
    get d none = d
    get d (some k) = k

module _ (hash : List ℕ → ℕ) where
  pub record IsMember (f : Index) (t : Assoc) (a : ℕ) : Type 0 where
    pub item : Item
    pub cell : f a ≡ some item
    pub linked : item.linked ≡ true
    pub found : assoc_find hash (key_of item) t ≡ some a

  pub record IsFound (f : Index) (xs : List ℕ) (key : List ℕ) (a : ℕ) : Type 0 where
    pub member : elem a xs ≡ true
    pub item : Item
    pub cell : f a ≡ some item
    pub own : same_text key (key_of item) ≡ true

  -- Each linked item is found under its key, a key finds a linked item that has it, and no item is
  -- locked for deletion or has a time at which it expires.
  pub record IsIndex (f : Index) (t : Assoc) (xs : List ℕ) : Type 0 where
    pub member : (a : ℕ) → elem a xs ≡ true → IsMember f t a
    pub found : (key : List ℕ) (a : ℕ) → assoc_find hash key t ≡ some a → IsFound f xs key a
    pub outside : (a : ℕ) (i : Item) → elem a xs ≡ false → f a ≡ some i → i.linked ≡ false
    pub plain : (a : ℕ) (i : Item) → f a ≡ some i → (i.deleted ≡ false) × (i.exptime ≡ 0)

  find_eq :
      (j k : List ℕ) (t : Assoc) → same_text j k ≡ true → assoc_find hash j t ≡ assoc_find hash k t
  find_eq j k t h = ap (λ x. assoc_find hash x t) (same_text→eq j k h)

  -- `i` is linked at `it`, which was not in the list, under a key that was not found.
  pub IsIndex-link :
      (f f' : Index) (t t' : Assoc) (xs : List ℕ) (it : ℕ) (i : Item)
      → IsIndex f t xs
      → ((a : ℕ) → f' a ≡ (if a == it then some i else f a))
      → ((key : List ℕ)
          → assoc_find hash key t'
            ≡ (if same_text key (key_of i) then some it else assoc_find hash key t))
      → i.linked ≡ true
      → (i.deleted ≡ false) × (i.exptime ≡ 0)
      → elem it xs ≡ false
      → assoc_find hash (key_of i) t ≡ none
      → IsIndex f' t' (it ∷ xs)
  unfolding elem
  IsIndex-link f f' t t' xs it i h at find l p new absent = record {
    member = λ a k. elim (Bool-cases (it == a)) [
      | inl here ↦
          subst (λ b. IsMember f' t' b) {x = it} (ground (arith, here))
            (record {
              item = i;
              cell = at it ∙ ground arith;
              linked = l;
              found = find (key_of i) ∙ ground (arith, same_text_refl (key_of i));
            })
      | inr there ↦
          let m = h.member a (ground (arith, k, there)) in
          record {
            item = m.item;
            cell = at a ∙ ground (arith, there, m.cell);
            linked = m.linked;
            found =
                find (key_of m.item)
                ∙ ground (arith, m.found, absent, find_eq (key_of m.item) (key_of i) t);
          }
    ];
    found = λ key a e. elim (Bool-cases (same_text key (key_of i))) [
      | inl same ↦
          subst (λ b. IsFound f' (it ∷ xs) key b) {x = it} (ground (arith, e, find key, same))
            (record { member = ground arith; item = i; cell = at it ∙ ground arith; own = same })
      | inr other ↦
          let m = h.found key a (ground (arith, e, find key, other)) in
          record {
            member = ground (arith, m.member);
            item = m.item;
            cell = at a ∙ ground (arith, m.cell, m.member, new, elem_differ a it xs);
            own = m.own;
          }
    ];
    outside = λ a j k e. h.outside a j (ground (arith, k)) (ground (arith, k, at a, e));
    plain = λ a j e. elim (Bool-cases (a == it)) [
      | inl here ↦
          let same = some_inj i j (ground (arith, at a, e, here)) in
          subst (λ x. (x.deleted ≡ false) × (x.exptime ≡ 0)) same p
      | inr there ↦ h.plain a j (ground (arith, at a, e, there))
    ];
  }

  -- What stands at an address whose item is not linked any more: the item, or nothing.
  pub data IsGone (i : Item) : Option Item → Type 0 where
    freed : IsGone i none
    kept :
        (j : Item)
        → j.linked ≡ false
        → j.deleted ≡ i.deleted
        → j.exptime ≡ i.exptime
        → IsGone i (some j)

  gone_outside : (i j : Item) (o : Option Item) → IsGone i o → o ≡ some j → j.linked ≡ false
  gone_outside i j o freed e = absurd (ground (arith, e))
  gone_outside i j o (kept k l d x) e = subst (λ u. u.linked ≡ false) (some_inj k j e) l

  gone_plain :
      (i j : Item) (o : Option Item)
      → IsGone i o
      → o ≡ some j
      → (i.deleted ≡ false) × (i.exptime ≡ 0)
      → (j.deleted ≡ false) × (j.exptime ≡ 0)
  gone_plain i j o freed e p = absurd (ground (arith, e))
  gone_plain i j o (kept k l d x) e p =
      subst (λ u. (u.deleted ≡ false) × (u.exptime ≡ 0)) (some_inj k j e) (d ∙ p.0, x ∙ p.1)

  -- `it` is no longer linked, and its key is no longer found.
  pub IsIndex-unlink :
      (f f' : Index) (t t' : Assoc) (xs : List ℕ) (it : ℕ) (i : Item) (o : Option Item)
      → IsIndex f t xs
      → f it ≡ some i
      → IsGone i o
      → ((a : ℕ) → f' a ≡ (if a == it then o else f a))
      → ((key : List ℕ)
          → assoc_find hash key t'
            ≡ (if same_text key (key_of i) then none else assoc_find hash key t))
      → elem it xs ≡ true
      → distinct xs ≡ true
      → IsIndex f' t' (remove_first it xs)
  IsIndex-unlink f f' t t' xs it i o h cell gone at find k d =
      let own : assoc_find hash (key_of i) t ≡ some it =
        let m = h.member it k in
        subst (λ x. assoc_find hash (key_of x) t ≡ some it) (some_inj m.item i (sym m.cell ∙ cell))
          m.found in
      let off = (distinct-remove_first it xs d).1 in
      record {
        member = λ a e.
            let ne : (a == it) ≡ false = elem_differ a it (remove_first it xs) e off in
            let m = h.member a (elem-remove_first→elem a it xs e) in
            record {
              item = m.item;
              cell = at a ∙ ground (arith, ne, m.cell);
              linked = m.linked;
              found =
                  find (key_of m.item)
                  ∙ ground (arith, m.found, own, ne, find_eq (key_of m.item) (key_of i) t);
            };
        found = λ key a e. elim (Bool-cases (same_text key (key_of i))) [
          | inl same ↦ absurd (ground (arith, e, find key, same))
          | inr other ↦
              let m = h.found key a (ground (arith, e, find key, other)) in
              let ne : (a == it) ≡ false = apart key a m other in
              record {
                member = elem-remove_first_ne a it xs ne ∙ m.member;
                item = m.item;
                cell = at a ∙ ground (arith, m.cell, ne);
                own = m.own;
              }
        ];
        outside = λ a j e c. elim (Bool-cases (a == it)) [
          | inl here ↦ gone_outside i j o gone (ground (arith, at a, c, here))
          | inr ne ↦
              h.outside a j (sym (elem-remove_first_ne a it xs ne) ∙ e)
                (ground (arith, at a, c, ne))
        ];
        plain = λ a j c. elim (Bool-cases (a == it)) [
          | inl here ↦ gone_plain i j o gone (ground (arith, at a, c, here)) (h.plain it i cell)
          | inr ne ↦ h.plain a j (ground (arith, at a, c, ne))
        ];
      }
    where
      apart :
          (key : List ℕ) (a : ℕ)
          → IsFound f xs key a
          → same_text key (key_of i) ≡ false
          → (a == it) ≡ false
      apart key a m other = elim (Bool-cases (a == it)) [
        | inr ne ↦ ne
        | inl here ↦
            let same = some_inj m.item i (sym m.cell ∙ same_cell f a it here ∙ cell) in
            let own = subst (λ x. same_text key (key_of x) ≡ true) same m.own in
            absurd (ground (arith, own, other))
      ]
