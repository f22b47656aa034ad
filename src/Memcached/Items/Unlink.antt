-- ===== src/Memcached/Items/Unlink.antt =====
-- do_item_unlink and item_free in src/handler/mc/items.c.
use zeroserv.Prelude.{
  ℕ, ◌≡◌, refl, sym, ap, ◌∙◌, subst, true, false, List, Option, none, some, ◌==◌, if◌then◌else◌,
  arith, elem, Bool-cases, inl, inr, elem_differ, ok, same_text, remove_first,
  distinct-remove_first, length-remove_first,
}
use zeroserv.Memcached.Assoc.{assoc_find}
use zeroserv.Memcached.Assoc.Lookup.{Deleted, assoc_delete-Deleted}
use zeroserv.Memcached.Item.{Item, Heap, put_item, load_item}
use zeroserv.Memcached.Item.Update.{updated, load_item-cell, modify-updated}
use zeroserv.Memcached.Lru.{Lists}
use zeroserv.Memcached.Lru.Cells.{IsLists, payload, map_item-some}
use zeroserv.Memcached.Lru.Unlink.{item_unlink_q-Relinked}
use zeroserv.Memcached.Items.{
  Cache, key_of, with_heap, item_free, unlink_linked, do_item_unlink, count_unlinked,
}
use zeroserv.Memcached.Items.Index.{indexed, some_inj, IsGone, freed, kept, IsIndex-unlink}
use zeroserv.Memcached.Items.Inv.{
  info, IsCache, indexed-change, IsLists-updated, IsLists-put_item, payload-IsLive,
}

pub item_free_runs :
    (it : ℕ) (c : Cache) (i : Item)
    → (it == 0) ≡ false
    → c.lists.heap it ≡ some i
    → i.linked ≡ false
    → (i.refcount == 0) ≡ true
    → item_free it c ≡ ok (with_heap (put_item it none c.lists.heap) c)
unfolding item_free
item_free_runs it c i z cell l r = rw (load_item-cell it c.lists.heap i z cell, l, r) refl

module _ (hash : List ℕ → ℕ) where
  -- What do_item_unlink of the item `i` at `it` leaves.
  pub record Unlinked (it : ℕ) (i : Item) (c c' : Cache) (xs : List ℕ) : Type 0 where
    pub valid : IsCache hash c' (remove_first it xs)
    pub item :
        payload (c'.lists.heap it)
        ≡ (if i.refcount == 0 then none else payload (some (record i { linked = false })))
    pub others : (a : ℕ) → (a == it) ≡ false → payload (c'.lists.heap a) ≡ payload (c.lists.heap a)
    pub lost :
        (key : List ℕ)
        → assoc_find hash key c'.table
          ≡ (if same_text key (key_of i) then none else assoc_find hash key c.table)

  -- The state before item_free.
  record Cut (it : ℕ) (i : Item) (c c1 : Cache) (xs : List ℕ) : Type 0 where
    pub lists : IsLists c1.lists (remove_first it xs)
    pub table : Deleted hash (key_of i) c.table c1.table
    pub item : payload (c1.lists.heap it) ≡ payload (some (record i { linked = false }))
    pub others : (a : ℕ) → (a == it) ≡ false → payload (c1.lists.heap a) ≡ payload (c.lists.heap a)
    pub stats : c1.stats ≡ count_unlinked i c.stats
    pub runs : unlink_linked hash i it c ≡ (if i.refcount == 0 then item_free it c1 else ok c1)

  pub key_found :
      (it : ℕ) (c : Cache) (xs : List ℕ) (i : Item)
      → IsCache hash c xs
      → elem it xs ≡ true
      → c.lists.heap it ≡ some i
      → (i.linked ≡ true) × (assoc_find hash (key_of i) c.table ≡ some it)
  key_found it c xs i h m cell =
      let k = h.index.member it m in
      let same =
        some_inj k.item (record i { next = 0; prev = 0; time = 0; refcount = 0; cas_id = 0 })
          (sym k.cell ∙ ap indexed cell) in
      (
        subst (λ x. x.linked ≡ true) same k.linked,
        subst (λ x. assoc_find hash (key_of x) c.table ≡ some it) same k.found,
      )

  cut :
      (it : ℕ) (c : Cache) (xs : List ℕ) (i : Item)
      → IsCache hash c xs
      → elem it xs ≡ true
      → c.lists.heap it ≡ some i
      → (c1 : Cache) × Cut it i c c1 xs
  unfolding unlink_linked
  cut it c xs i h m cell =
      let z = elem_differ it 0 xs m h.lists.nonzero in
      let change : Item → Item = λ i. record i { linked = false } in
      let heap1 = updated it change c.lists.heap in
      let cell1 : heap1 it ≡ some (change i) =
        ground (arith, map_item-some change (c.lists.heap it) i cell) in
      let lists1 : Lists = record c.lists { heap = heap1 } in
      let (table, deletes, t) =
        assoc_delete-Deleted hash (key_of i) c.table it h.table (key_found it c xs i h m cell).1 in
      let (lists2, runs, unlinked) =
        item_unlink_q-Relinked it lists1 xs
          (IsLists-updated c.lists xs it change h.lists (λ i. (refl, refl))) m in
      (
        record c { lists = lists2; table = table; stats = count_unlinked i c.stats },
        record {
          lists = unlinked.lists;
          table = t;
          item = unlinked.payloads it ∙ ap payload cell1;
          others = λ a ne. unlinked.payloads a ∙ ap payload (ground (arith, ne));
          stats = refl;
          runs = rw (modify-updated it change c.lists.heap i z cell, deletes, runs) refl;
        },
      )

  plain_index : Item → Item
  plain_index i = record i { next = 0; prev = 0; time = 0; refcount = 0; cas_id = 0 }

  -- A state that differs from `c1` in memory, at `it`, and holds there what is left of the item.
  Cut-valid :
      (it : ℕ) (c c1 : Cache) (xs : List ℕ) (i : Item) (heap : Heap) (o : Option Item)
      → IsCache hash c xs
      → elem it xs ≡ true
      → c.lists.heap it ≡ some i
      → Cut it i c c1 xs
      → IsLists (record c1.lists { heap = heap }) (remove_first it xs)
      → payload (heap it) ≡ payload o
      → IsGone hash (plain_index i) (indexed o)
      → ((a : ℕ) → (a == it) ≡ false → payload (heap a) ≡ payload (c.lists.heap a))
      → IsCache hash (with_heap heap c1) (remove_first it xs)
  unfolding plain_index count_unlinked
  Cut-valid it c c1 xs i heap o h m cell k lists at gone others = record {
    lists = lists;
    table = k.table.valid;
    index =
        IsIndex-unlink hash (info c) (λ a. indexed (heap a)) c.table c1.table xs it (plain_index i)
          (indexed o) h.index (ap indexed cell) gone
          (indexed-change c.lists.heap heap it o at others) k.table.lost m h.lists.distinct;
    items = omega (arith, k.table.items, h.items, length-remove_first it xs m);
    curr = ap (λ st. st.curr_items) k.stats ∙ omega (arith, h.curr, length-remove_first it xs m);
  }

  unlink_starts :
      (it : ℕ) (c : Cache) (i : Item)
      → load_item it c.lists.heap ≡ ok i
      → i.linked ≡ true
      → do_item_unlink hash it c ≡ unlink_linked hash i it c
  unfolding do_item_unlink
  unlink_starts it c i load linked =
      rw load (ap (λ b. if b then unlink_linked hash i it c else ok c) linked)

  -- do_item_unlink of an item of the list passes all the asserts on its way and leaves a valid cache
  -- without the item, which is freed exactly when nothing refers to it; its key is not found any
  -- more, and no other lookup and no other item changes.
  pub do_item_unlink-Unlinked :
      (it : ℕ) (c : Cache) (xs : List ℕ) (i : Item)
      → IsCache hash c xs
      → elem it xs ≡ true
      → c.lists.heap it ≡ some i
      → (c' : Cache) × (do_item_unlink hash it c ≡ ok c') × Unlinked it i c c' xs
  unfolding plain_index
  do_item_unlink-Unlinked it c xs i h m cell =
      let z = elem_differ it 0 xs m h.lists.nonzero in
      let (linked, own) = key_found it c xs i h m cell in
      let (c1, k) = cut it c xs i h m cell in
      let off = (distinct-remove_first it xs h.lists.distinct).1 in
      let start = unlink_starts it c i (load_item-cell it c.lists.heap i z cell) linked in
      elim (Bool-cases (i.refcount == 0)) [
        | inr used ↦ (
          c1,
          start ∙ k.runs ∙ ground (arith, used),
          record {
            valid =
                Cut-valid it c c1 xs i c1.lists.heap (some (record i { linked = false })) h m cell k
                  k.lists k.item (kept (record (plain_index i) { linked = false }) refl refl refl)
                  k.others;
            item = k.item ∙ ground (arith, used);
            others = k.others;
            lost = k.table.lost;
          },
        )
        | inl unused ↦
            let l = payload-IsLive (c1.lists.heap it) (record i { linked = false }) k.item in
            let heap2 = put_item it none c1.lists.heap in
            let others2 : (a : ℕ)
                → (a == it) ≡ false
                → payload (heap2 a) ≡ payload (c.lists.heap a) =
              λ a ne. ap payload (ground (arith, ne)) ∙ k.others a ne in
            (
              with_heap heap2 c1,
              start
                  ∙ k.runs
                  ∙ ground (arith, unused)
                  ∙ item_free_runs it c1 l.item z l.cell (ap (λ j. j.linked) l.same)
                      (ap (λ j. j.refcount == 0) l.same ∙ unused),
              record {
                valid =
                    Cut-valid it c c1 xs i heap2 none h m cell k
                      (IsLists-put_item c1.lists (remove_first it xs) it none k.lists off)
                      (ground arith) freed others2;
                item = ground (arith, unused);
                others = others2;
                lost = k.table.lost;
              },
            )
      ]
