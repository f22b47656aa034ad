-- ===== src/Memcached/Items/Link.antt =====
-- do_item_link in src/handler/mc/items.c.
use zeroserv.Prelude.{
  ℕ, ◌+◌, ◌*◌, ◌%◌, ◌≡◌, refl, ap, ◌∙◌, Bool, true, false, List, ◌∷◌, none, some, ◌==◌,
  if◌then◌else◌, arith, elem, ok, ltb, same_text,
}
use zeroserv.Memcached.Assoc.{assoc_find, assoc_insert}
use zeroserv.Memcached.Assoc.Lookup.{assoc_insert-Inserted}
use zeroserv.Memcached.Item.{Item}
use zeroserv.Memcached.Item.Update.{updated, load_item-cell, modify-updated}
use zeroserv.Memcached.Lru.{Lists}
use zeroserv.Memcached.Lru.Cells.{payload, map_item-some}
use zeroserv.Memcached.Lru.Link.{item_link_q-Relinked}
use zeroserv.Memcached.Items.{Cache, key_of, do_item_link, count_linked, u64}
use zeroserv.Memcached.Items.Index.{indexed, IsIndex-link}
use zeroserv.Memcached.Items.Inv.{info, IsCache, indexed-change, IsLists-updated}

-- The item that do_item_link leaves for `i`, but for its place in the list.
unfoldable pub linked_item : Item → Cache → Item
linked_item i c = record i { linked = true; time = c.now_ms; cas_id = (c.cas_id + 1) % u64 }

module _ (hash : List ℕ → ℕ) where
  -- What do_item_link of the item `i` at `it` leaves.
  pub record Linked (it : ℕ) (i : Item) (c c' : Cache) (xs : List ℕ) : Type 0 where
    pub valid : IsCache hash c' (it ∷ xs)
    pub item : payload (c'.lists.heap it) ≡ payload (some (linked_item i c))
    pub others : (a : ℕ) → (a == it) ≡ false → payload (c'.lists.heap a) ≡ payload (c.lists.heap a)
    pub found :
        (key : List ℕ)
        → assoc_find hash key c'.table
          ≡ (if same_text key (key_of i) then some it else assoc_find hash key c.table)

  -- On a valid cache, do_item_link of a live item below a megabyte that is not linked, and whose key
  -- is not found, passes the asserts and leaves a valid cache in which the item is the latest, is
  -- found under its key and carries a new cas id; no other lookup and no other item changes.
  pub do_item_link-Linked :
      (room : Bool) (it : ℕ) (c : Cache) (xs : List ℕ) (i : Item)
      → IsCache hash c xs
      → elem it (0 ∷ xs) ≡ false
      → c.lists.heap it ≡ some i
      → assoc_find hash (key_of i) c.table ≡ none
      → ltb i.nbytes (1024 * 1024) ≡ true
      → (c' : Cache) × (do_item_link hash room it c ≡ ok c') × Linked it i c c' xs
  unfolding do_item_link elem linked_item count_linked
  do_item_link-Linked room it c xs i h new live absent small =
      let z : (it == 0) ≡ false = ground (arith, new) in
      let off : elem it xs ≡ false = ground (arith, new) in
      let change : Item → Item =
        λ i. record i { linked = true; time = c.now_ms; cas_id = (c.cas_id + 1) % u64 } in
      let heap1 = updated it change c.lists.heap in
      let lists1 : Lists = record c.lists { heap = heap1 } in
      let cell1 : heap1 it ≡ some (change i) =
        ground (arith, map_item-some change (c.lists.heap it) i live) in
      let table = assoc_insert hash room (record { item = it; key = key_of i }) c.table in
      let t =
        assoc_insert-Inserted hash room (record { item = it; key = key_of i }) c.table h.table
          absent in
      let (lists2, runs, linked) =
        item_link_q-Relinked it lists1 xs (change i)
          (IsLists-updated c.lists xs it change h.lists (λ i. (refl, refl))) new cell1 in
      let at_it : payload (lists2.heap it) ≡ payload (some (change i)) =
        linked.payloads it ∙ ap payload cell1 in
      let at_other : (a : ℕ)
          → (a == it) ≡ false
          → payload (lists2.heap a) ≡ payload (c.lists.heap a) =
        λ a ne. linked.payloads a ∙ ap payload (ground (arith, ne)) in
      (
        record c {
          lists = lists2;
          table = table;
          stats = count_linked i c.stats;
          cas_id = (c.cas_id + 1) % u64;
        },
        rw
            (
              load_item-cell it c.lists.heap i z live,
              small,
              modify-updated it change c.lists.heap i z live,
              runs,
            )
            refl,
        record {
          valid = record {
            lists = linked.lists;
            table = t.valid;
            index =
                IsIndex-link hash (info c) (λ a. indexed (lists2.heap a)) c.table table xs it
                  (record i {
                    next = 0;
                    prev = 0;
                    time = 0;
                    refcount = 0;
                    cas_id = 0;
                    linked = true;
                  })
                  h.index
                  (indexed-change c.lists.heap lists2.heap it (some (change i)) at_it at_other)
                  t.found refl
                  (h.index.plain it
                    (record i { next = 0; prev = 0; time = 0; refcount = 0; cas_id = 0 })
                    (ap indexed live))
                  off absent;
            items = omega (arith, t.items, h.items);
            curr = omega (arith, h.curr);
          };
          item = at_it;
          others = at_other;
          found = t.found;
        },
      )
