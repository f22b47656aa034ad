-- ===== src/Memcached/Items/Replace.antt =====
-- do_item_replace in src/handler/mc/items.c.
use zeroserv.Prelude.{
  ℕ, ◌*◌, ◌≡◌, sym, ap, ◌∙◌, Bool, true, false, List, ◌∷◌, none, some, ◌==◌, if◌then◌else◌, arith,
  same_text, same_text→eq, elem, elem_differ, ltb, ok, remove_first, elem-remove_first_ne,
}
use zeroserv.Memcached.Assoc.{assoc_find}
use zeroserv.Memcached.Item.{Item}
use zeroserv.Memcached.Lru.Cells.{payload}
use zeroserv.Memcached.Items.{Cache, key_of, do_item_link, do_item_replace}
use zeroserv.Memcached.Items.Inv.{IsCache, payload-IsLive}
use zeroserv.Memcached.Items.Link.{Linked, linked_item, do_item_link-Linked}
use zeroserv.Memcached.Items.Unlink.{Unlinked, do_item_unlink-Unlinked}

module _ (hash : List ℕ → ℕ) where
  -- What do_item_replace of the item `o` at `old_it` by the item `i` at `it` leaves.
  pub record Replaced (old_it it : ℕ) (o i : Item) (c c' : Cache) (xs : List ℕ) : Type 0 where
    pub valid : IsCache hash c' (it ∷ remove_first old_it xs)
    pub item :
        (j : Item) × (payload (c'.lists.heap it) ≡ payload (some j))
        × (j.contents ≡ i.contents)
        × (j.refcount ≡ i.refcount)
    pub old : payload (c'.lists.heap old_it) ≡ payload (some (record o { linked = false }))
    pub others :
        (a : ℕ)
        → (a == it) ≡ false
        → (a == old_it) ≡ false
        → payload (c'.lists.heap a) ≡ payload (c.lists.heap a)
    pub found :
        (key : List ℕ)
        → assoc_find hash key c'.table
          ≡ (if same_text key (key_of i) then some it else assoc_find hash key c.table)

  -- Equal keys.
  same_key : (key a b : List ℕ) → same_text a b ≡ true → same_text key b ≡ same_text key a
  same_key key a b h = ap (λ k. same_text key k) (sym (same_text→eq a b h))

  after_unlink :
      (old_it it : ℕ) (o i n : Item) (c c1 c2 : Cache) (xs : List ℕ)
      → Unlinked hash old_it o c c1 xs
      → Linked hash it n c1 c2 (remove_first old_it xs)
      → (old_it == it) ≡ false
      → (o.refcount == 0) ≡ false
      → same_text (key_of i) (key_of o) ≡ true
      → record n { next = 0; prev = 0 } ≡ record i { next = 0; prev = 0 }
      → Replaced old_it it o i c c2 xs
  unfolding linked_item
  after_unlink old_it it o i n c c1 c2 xs u l apart held same whole = record {
    valid = l.valid;
    item = (linked_item n c1, l.item, ap (λ j. j.contents) whole, ap (λ j. j.refcount) whole);
    old = l.others old_it apart ∙ u.item ∙ ground (arith, held);
    others = λ a x y. l.others a x ∙ u.others a y;
    found = λ key.
        l.found key
        ∙ ap (λ j. if same_text key (key_of j) then some it else assoc_find hash key c1.table) whole
        ∙ ground (arith, u.lost key, same_key key (key_of i) (key_of o) same);
  }

  -- On a valid cache, do_item_replace of an item of the list, to which something refers, by a live
  -- item below a megabyte outside the list with the same key passes the asserts. The new item takes
  -- the old one's place in the hash table and is the latest of the list; the old item is not linked
  -- any more and not freed; no other lookup and no other item changes.
  pub do_item_replace-Replaced :
      (room : Bool) (old_it it : ℕ) (o i : Item) (c : Cache) (xs : List ℕ)
      → IsCache hash c xs
      → elem old_it xs ≡ true
      → c.lists.heap old_it ≡ some o
      → (o.refcount == 0) ≡ false
      → elem it (0 ∷ xs) ≡ false
      → payload (c.lists.heap it) ≡ payload (some i)
      → same_text (key_of i) (key_of o) ≡ true
      → ltb i.nbytes (1024 * 1024) ≡ true
      → (c' : Cache) × (do_item_replace hash room old_it it c ≡ ok c')
        × Replaced old_it it o i c c' xs
  unfolding do_item_replace elem
  do_item_replace-Replaced room old_it it o i c xs h m cell_o held new cell_i same small =
      let (c1, unlinks, u) = do_item_unlink-Unlinked hash old_it c xs o h m cell_o in
      let (c2, links, r) = step c1 u in (c2, rw unlinks links, r)
    where
      step :
          (c1 : Cache)
          → Unlinked hash old_it o c c1 xs
          → (c2 : Cache) × (do_item_link hash room it c1 ≡ ok c2) × Replaced old_it it o i c c2 xs
      step c1 u =
          let apart : (old_it == it) ≡ false = elem_differ old_it it xs m (ground (arith, new)) in
          let n =
            payload-IsLive (c1.lists.heap it) i (u.others it (ground (arith, apart)) ∙ cell_i) in
          let own : key_of n.item ≡ key_of i = ap (λ j. key_of j) n.same in
          let absent : assoc_find hash (key_of n.item) c1.table ≡ none =
            ap (λ key. assoc_find hash key c1.table) own
            ∙ u.lost (key_of i)
            ∙ ground (arith, same) in
          let (c2, links, l) =
            do_item_link-Linked hash room it c1 (remove_first old_it xs) n.item u.valid
              (ground (arith, new, elem-remove_first_ne it old_it xs (ground (arith, apart))))
              n.cell absent (ap (λ j. ltb j.nbytes (1024 * 1024)) n.same ∙ small) in
          (c2, links, after_unlink old_it it o i n.item c c1 c2 xs u l apart held same n.same)
