-- ===== src/Memcached/Items/Touch.antt =====
-- do_item_update and the lookup do_item_get_notedeleted in src/handler/mc/items.c.
use zeroserv.Prelude.{
  ℕ, ◌+◌, ◌-◌, ◌%◌, ◌≡◌, refl, sym, ap, ◌∙◌, subst, fun_ext, true, false, List, ◌∷◌, some, ◌==◌,
  if◌then◌else◌, arith, elem, Bool-cases, inl, inr, ◌⊎◌, elem_differ, ok, ltb, remove_first,
  distinct-remove_first, elem-remove_first_ne, length-remove_first,
}
use zeroserv.Memcached.Assoc.{Assoc}
use zeroserv.Memcached.Item.{Item}
use zeroserv.Memcached.Item.Update.{updated, load_item-cell, modify-updated}
use zeroserv.Memcached.Lru.Cells.{payload, map_item-some}
use zeroserv.Memcached.Lru.Unlink.{item_unlink_q-Relinked}
use zeroserv.Memcached.Lru.Link.{item_link_q-Relinked}
use zeroserv.Memcached.Items.{Cache, do_item_update, update_linked, u32}
use zeroserv.Memcached.Items.Index.{Index, indexed, IsIndex}
use zeroserv.Memcached.Items.Inv.{
  info, IsCache, indexed-change, indexed_known, IsLists-updated, payload-IsLive,
}
use zeroserv.Memcached.Items.Unlink.{key_found}

module _ (hash : List ℕ → ℕ) where
  -- The same items in another order.
  IsIndex-order :
      (f : Index) (t : Assoc) (xs ys : List ℕ)
      → IsIndex hash f t xs
      → ((a : ℕ) → elem a ys ≡ elem a xs)
      → IsIndex hash f t ys
  IsIndex-order f t xs ys h same = record {
    member = λ a k. h.member a (sym (same a) ∙ k);
    found = λ key a e.
        let m = h.found key a e in
        record { member = same a ∙ m.member; item = m.item; cell = m.cell; own = m.own };
    outside = λ a i k e. h.outside a i (sym (same a) ∙ k) e;
    plain = h.plain;
  }

  elem-front :
      (a it : ℕ) (xs : List ℕ) → elem it xs ≡ true → elem a (it ∷ remove_first it xs) ≡ elem a xs
  unfolding elem
  elem-front a it xs m = elim (Bool-cases (it == a)) [
    | inl e ↦ ground (arith, e, m, same_member it a xs)
    | inr e ↦ ground (arith, e, elem-remove_first_ne a it xs)
  ]
    where
      same_member : (a b : ℕ) (xs : List ℕ) → (a == b) ≡ true → elem a xs ≡ elem b xs
      same_member a b xs e = ap (λ x. elem x xs) (ground arith)

  -- What do_item_update leaves when it moves the item `i` at `it` to the front.
  pub record Touched (it : ℕ) (i : Item) (c c' : Cache) (xs : List ℕ) : Type 0 where
    pub valid : IsCache hash c' xs
    pub item :
        (payload (c'.lists.heap it) ≡ payload (some i))
        ⊎ (payload (c'.lists.heap it) ≡ payload (some (record i { time = c.now_ms })))
    pub others : (a : ℕ) → (a == it) ≡ false → payload (c'.lists.heap a) ≡ payload (c.lists.heap a)
    pub table : c'.table ≡ c.table

  moved :
      (it : ℕ) (i : Item) (c : Cache) (xs : List ℕ)
      → IsCache hash c xs
      → elem it xs ≡ true
      → c.lists.heap it ≡ some i
      → (c' : Cache) × (update_linked hash it c ≡ ok c')
        × Touched it i c c' (it ∷ remove_first it xs)
  unfolding update_linked elem
  moved it i c xs h m cell =
      let z = elem_differ it 0 xs m h.lists.nonzero in
      let change : Item → Item = λ j. record j { time = c.now_ms } in
      let (lists1, runs1, u) = item_unlink_q-Relinked it c.lists xs h.lists m in
      let l = payload-IsLive (lists1.heap it) i (u.payloads it ∙ ap payload cell) in
      let heap = updated it change lists1.heap in
      let cell1 : heap it ≡ some (change l.item) =
        ground (arith, map_item-some change (lists1.heap it) l.item l.cell) in
      let (once, gone) = distinct-remove_first it xs h.lists.distinct in
      let (lists2, runs2, v) =
        item_link_q-Relinked it (record lists1 { heap = heap }) (remove_first it xs) (change l.item)
          (IsLists-updated lists1 (remove_first it xs) it change u.lists (λ j. (refl, refl)))
          (ground (arith, z, gone)) cell1 in
      let at : payload (lists2.heap it) ≡ payload (some (change i)) =
        v.payloads it
        ∙ ap payload cell1
        ∙ ap (λ (j : Item). payload (some (record j { time = c.now_ms }))) l.same in
      let others : (a : ℕ)
          → (a == it) ≡ false
          → payload (lists2.heap a) ≡ payload (c.lists.heap a) =
        λ a ne. v.payloads a ∙ ap payload (ground (arith, ne)) ∙ u.payloads a in
      (
        record c { lists = lists2 },
        rw (runs1, modify-updated it change lists1.heap l.item z l.cell, runs2) refl,
        record {
          valid = record {
            lists = v.lists;
            table = h.table;
            index =
                IsIndex-order (λ a. indexed (lists2.heap a)) c.table xs (it ∷ remove_first it xs)
                  (subst (λ f. IsIndex hash f c.table xs) {x = info c}
                    (sym (
                      fun_ext (λ a.
                        indexed-change c.lists.heap lists2.heap it (some (change i)) at others a
                        ∙ indexed_known c.lists.heap it i cell a)))
                    h.index)
                  (λ a. elem-front a it xs m);
            items = omega (arith, h.items, length-remove_first it xs m);
            curr = omega (arith, h.curr, length-remove_first it xs m);
          };
          item = inr at;
          others = others;
          table = refl;
        },
      )

  -- The list after do_item_update.
  abbrev pub touched_list : ℕ → Item → Cache → List ℕ → List ℕ
  touched_list it i c xs =
      if ltb i.time ((c.now_ms + u32 - 60) % u32) then it ∷ remove_first it xs else xs

  -- On a valid cache do_item_update of an item of the list passes the asserts, moves the item to the
  -- front if its time is before the interval that ends now, in unsigned arithmetic, and leaves the
  -- list as it was otherwise; no lookup and no other item changes.
  pub do_item_update-Touched :
      (it : ℕ) (i : Item) (c : Cache) (xs : List ℕ)
      → IsCache hash c xs
      → elem it xs ≡ true
      → c.lists.heap it ≡ some i
      → (c' : Cache) × (do_item_update hash it c ≡ ok c')
        × Touched it i c c' (touched_list it i c xs)
  unfolding do_item_update
  do_item_update-Touched it i c xs h m cell =
      let z = elem_differ it 0 xs m h.lists.nonzero in
      let start = load_item-cell it c.lists.heap i z cell in
      let (linked, own) = key_found hash it c xs i h m cell in
      let old = ltb i.time ((c.now_ms + u32 - 60) % u32) in
      elim (Bool-cases old) [
        | inl e ↦
            let (c', runs, t) = moved it i c xs h m cell in
            (
              c',
              rw start (
                  ap (λ b. if b then update_linked hash it c else ok c) {y = true}
                    (ground (arith, e, linked))
                  ∙ runs),
              subst (λ ys. Touched it i c c' ys) (sym (ground (arith, e))) t,
            )
        | inr e ↦ (
          c,
          rw start (
              ap (λ b. if b then update_linked hash it c else ok c) {y = false}
                (ground (arith, e))),
          subst (λ ys. Touched it i c c ys) (sym (ground (arith, e)))
              (record {
                valid = h;
                item = inl (ap payload cell);
                others = λ a ne. refl;
                table = refl;
              }),
        )
      ]
