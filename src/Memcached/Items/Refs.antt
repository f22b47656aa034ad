-- ===== src/Memcached/Items/Refs.antt =====
-- The references to an item in src/handler/mc/items.c: taken by a lookup, given back by
-- do_item_remove.
use zeroserv.Prelude.{
  ℕ, ◌+◌, ◌-◌, ◌%◌, ◌≡◌, refl, sym, ap, ◌∙◌, subst, fun_ext, true, false, ◌&&◌, ◌||◌, not, List,
  none, some, ◌==◌, if◌then◌else◌, arith, elem, Bool-cases, inl, inr, elem_differ, ok,
}
use zeroserv.Memcached.Assoc.{Assoc}
use zeroserv.Memcached.Item.{Item, Heap, put_item}
use zeroserv.Memcached.Item.Update.{updated, load_item-cell, modify-updated}
use zeroserv.Memcached.Lru.Cells.{IsLists, payload, map_item-some}
use zeroserv.Memcached.Items.{Cache, with_heap, item_free, do_item_remove, take_reference, u16}
use zeroserv.Memcached.Items.Index.{Index, indexed, IsIndex}
use zeroserv.Memcached.Items.Inv.{
  info, IsCache, indexed-change, indexed_known, IsLists-updated, IsLists-put_item,
}
use zeroserv.Memcached.Items.Unlink.{item_free_runs, key_found}

module _ (hash : List ℕ → ℕ) where
  pub IsCache-with_heap :
      (c : Cache) (xs : List ℕ) (heap : Heap)
      → IsCache hash c xs
      → IsLists (record c.lists { heap = heap }) xs
      → ((a : ℕ) → indexed (heap a) ≡ indexed (c.lists.heap a))
      → IsCache hash (with_heap heap c) xs
  IsCache-with_heap c xs heap h lists same = record {
    lists = lists;
    table = h.table;
    index = subst (λ f. IsIndex hash f c.table xs) {x = info c} (sym (fun_ext same)) h.index;
    items = h.items;
    curr = h.curr;
  }

  -- An item outside the list is freed.
  IsIndex-drop :
      (f f' : Index) (t : Assoc) (xs : List ℕ) (it : ℕ)
      → IsIndex hash f t xs
      → elem it xs ≡ false
      → ((a : ℕ) → f' a ≡ (if a == it then none else f a))
      → IsIndex hash f' t xs
  IsIndex-drop f f' t xs it h off at = record {
    member = λ a k.
        let m = h.member a k in
        record {
          item = m.item;
          cell = at a ∙ ground (arith, m.cell, elem_differ a it xs k off);
          linked = m.linked;
          found = m.found;
        };
    found = λ key a e.
        let m = h.found key a e in
        record {
          member = m.member;
          item = m.item;
          cell = at a ∙ ground (arith, m.cell, elem_differ a it xs m.member off);
          own = m.own;
        };
    outside = λ a i k e. h.outside a i k (ground (arith, at a, e));
    plain = λ a i e. h.plain a i (ground (arith, at a, e));
  }

  pub IsCache-drop :
      (c : Cache) (xs : List ℕ) (it : ℕ)
      → IsCache hash c xs
      → elem it xs ≡ false
      → IsCache hash (with_heap (put_item it none c.lists.heap) c) xs
  IsCache-drop c xs it h off = record {
    lists = IsLists-put_item c.lists xs it none h.lists off;
    table = h.table;
    index =
        IsIndex-drop (info c) (λ a. indexed (put_item it none c.lists.heap a)) c.table xs it h.index
          off (λ a. ground arith);
    items = h.items;
    curr = h.curr;
  }

  -- What a function leaves that changes `refcount` of the item `i` at `it` to `n`.
  pub record Counted (it : ℕ) (i : Item) (n : ℕ) (c c' : Cache) (xs : List ℕ) : Type 0 where
    pub valid : IsCache hash c' xs
    pub item : payload (c'.lists.heap it) ≡ payload (some (record i { refcount = n }))
    pub others : (a : ℕ) → (a == it) ≡ false → payload (c'.lists.heap a) ≡ payload (c.lists.heap a)
    pub table : c'.table ≡ c.table

  counted-Counted :
      (it : ℕ) (i : Item) (n : ℕ) (c : Cache) (xs : List ℕ) (change : Item → Item)
      → ((j : Item) → ((change j).next ≡ j.next) × ((change j).prev ≡ j.prev))
      → change i ≡ record i { refcount = n }
      → IsCache hash c xs
      → c.lists.heap it ≡ some i
      → Counted it i n c (with_heap (updated it change c.lists.heap) c) xs
  counted-Counted it i n c xs change keeps to h cell =
      let heap = updated it change c.lists.heap in
      let at : payload (heap it) ≡ payload (some (record i { refcount = n })) =
        ap payload {y = some (record i { refcount = n })}
          (ground (arith, map_item-some change (c.lists.heap it) i cell) ∙ ap some to) in
      let others : (a : ℕ) → (a == it) ≡ false → payload (heap a) ≡ payload (c.lists.heap a) =
        λ a ne. ap payload (ground (arith, ne)) in
      record {
        valid =
            IsCache-with_heap c xs heap h (IsLists-updated c.lists xs it change h.lists keeps) (λ a.
              indexed-change c.lists.heap heap it (some (record i { refcount = n })) at others a
              ∙ indexed_known c.lists.heap it i cell a);
        item = at;
        others = others;
        table = refl;
      }

  -- On a valid cache take_reference of a live item counts one more reference, modulo 2 ^ 16, and
  -- changes nothing else.
  pub take_reference-Counted :
      (it : ℕ) (i : Item) (c : Cache) (xs : List ℕ)
      → IsCache hash c xs
      → (it == 0) ≡ false
      → c.lists.heap it ≡ some i
      → (c' : Cache) × (take_reference hash it c ≡ ok c')
        × Counted it i ((i.refcount + 1) % u16) c c' xs
  unfolding take_reference
  take_reference-Counted it i c xs h z cell =
      let change : Item → Item = λ i. record i { refcount = (i.refcount + 1) % u16 } in
      (
        with_heap (updated it change c.lists.heap) c,
        rw (modify-updated it change c.lists.heap i z cell) refl,
        counted-Counted it i ((i.refcount + 1) % u16) c xs change (λ j. (refl, refl)) refl h cell,
      )

  -- What do_item_remove of the item `i` at `it` leaves.
  pub record Released (it : ℕ) (i : Item) (c c' : Cache) (xs : List ℕ) : Type 0 where
    pub valid : IsCache hash c' xs
    pub item : payload (c'.lists.heap it) ≡ (
        if (i.refcount - 1 == 0) && not i.linked
        then none
        else payload (some (record i { refcount = i.refcount - 1 })))
    pub others : (a : ℕ) → (a == it) ≡ false → payload (c'.lists.heap a) ≡ payload (c.lists.heap a)
    pub table : c'.table ≡ c.table

  remove_runs :
      (it : ℕ) (i : Item) (c : Cache)
      → (it == 0) ≡ false
      → c.lists.heap it ≡ some i
      → i.deleted ≡ false
      → let c1 =
          with_heap (updated it (λ j. record j { refcount = i.refcount - 1 }) c.lists.heap) c in
        do_item_remove hash it c
        ≡ (if (i.refcount - 1 == 0) && not i.linked then item_free it c1 else ok c1)
  unfolding do_item_remove
  remove_runs it i c z cell plain =
      let change : Item → Item = λ j. record j { refcount = i.refcount - 1 } in
      let passes : (not i.deleted || not (i.refcount - 1 == 0)) ≡ true = ground (arith, plain) in
      rw
        (
          load_item-cell it c.lists.heap i z cell,
          modify-updated it change c.lists.heap i z cell,
          passes,
        )
        refl

  -- On a valid cache do_item_remove of a live item passes the asserts and gives one reference back;
  -- it frees the item exactly when that was the last one and the item is not linked, and changes
  -- no other item, no lookup and not the list.
  pub do_item_remove-Released :
      (it : ℕ) (i : Item) (c : Cache) (xs : List ℕ)
      → IsCache hash c xs
      → (it == 0) ≡ false
      → c.lists.heap it ≡ some i
      → (c' : Cache) × (do_item_remove hash it c ≡ ok c') × Released it i c c' xs
  do_item_remove-Released it i c xs h z cell =
      let left = i.refcount - 1 in
      let change : Item → Item = λ i. record i { refcount = left } in
      let heap = updated it change c.lists.heap in
      let c1 = with_heap heap c in
      let k = counted-Counted it i left c xs change (λ j. (refl, refl)) refl h cell in
      let plain =
        (h.index.plain it (record i { next = 0; prev = 0; time = 0; refcount = 0; cas_id = 0 })
          (ap indexed cell)).0 in
      let start = remove_runs it i c z cell plain in
      elim (Bool-cases ((left == 0) && not i.linked)) [
        | inr stays ↦ (
          c1,
          start ∙ ground (arith, stays),
          record {
            valid = k.valid;
            item = k.item ∙ ground (arith, stays);
            others = k.others;
            table = refl;
          },
        )
        | inl last ↦
            let off : elem it xs ≡ false = elim (Bool-cases (elem it xs)) [
              | inr e ↦ e
              | inl m ↦ absurd (ground (arith, (key_found hash it c xs i h m cell).0, last))
            ] in
            (
              with_heap (put_item it none heap) c1,
              start
                  ∙ ground (arith, last)
                  ∙ item_free_runs it c1 (change i) z
                      (ground (arith, map_item-some change (c.lists.heap it) i cell))
                      (ground (arith, last)) (ground (arith, last)),
              record {
                valid = IsCache-drop c1 xs it k.valid off;
                item = ground (arith, last);
                others = λ a ne. ap payload (ground (arith, ne)) ∙ k.others a ne;
                table = refl;
              },
            )
      ]
