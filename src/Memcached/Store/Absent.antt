-- ===== src/Memcached/Store/Absent.antt =====
-- do_store_item in src/handler/memcached.c of an item whose key is not found.
use zeroserv.Prelude.{
  ℕ, ◌*◌, ◌≡◌, refl, true, false, List, ◌∷◌, none, some, arith, elem, elem_differ, ltb, ok,
}
use zeroserv.Memcached.Assoc.{assoc_find}
use zeroserv.Memcached.Item.{Item}
use zeroserv.Memcached.Items.{Cache, key_of}
use zeroserv.Memcached.Items.Inv.{IsCache}
use zeroserv.Memcached.Items.Link.{linked_item, do_item_link-Linked}
use zeroserv.Memcached.Store.{System, store_over, find_hidden, finish}
use zeroserv.Memcached.Store.Spec.{Map, put, values}
use zeroserv.Memcached.Store.Values.{contents_of-payload, values-put}

module _ (hash : List ℕ → ℕ) where
  -- A valid cache that holds the map `m`.
  pub record Holds (m : Map) (c : Cache) : Type 0 where
    pub latest : List ℕ
    pub valid : IsCache hash c latest
    pub map : (key : List ℕ) → values hash c key ≡ m key

  pub store_absent :
      (sys : System) (it : ℕ) (i : Item) (c : Cache) (xs : List ℕ)
      → IsCache hash c xs
      → elem it (0 ∷ xs) ≡ false
      → c.lists.heap it ≡ some i
      → assoc_find hash (key_of i) c.table ≡ none
      → ltb i.nbytes (1024 * 1024) ≡ true
      → (c' : Cache) × (store_over hash sys (key_of i) false none it none c ≡ ok (1, c'))
        × Holds (put (key_of i) i.contents (values hash c)) c'
  unfolding store_over find_hidden finish elem linked_item
  store_absent sys it i c xs h new cell absent small =
      let (c', runs, l) = do_item_link-Linked hash sys.room it c xs i h new cell absent small in
      let off : elem it xs ≡ false = ground (arith, new) in
      (
        c',
        rw runs refl,
        record {
          latest = it ∷ xs;
          valid = l.valid;
          map =
              values-put hash c c' xs it (key_of i) i.contents h l.found
                (contents_of-payload (c'.lists.heap it) (some (linked_item i c)) l.item)
                (λ key a other e.
                  contents_of-payload (c'.lists.heap a) (c.lists.heap a)
                    (l.others a (elem_differ a it xs (h.index.found key a e).member off)));
        },
      )
