-- ===== src/Memcached/Store/Present.antt =====
-- do_store_item in src/handler/memcached.c of an item whose key is found.
use zeroserv.Prelude.{
  ℕ, ◌+◌, ◌-◌, ◌*◌, ◌%◌, ◌<◌, ◌≡◌, refl, sym, ap, ◌∙◌, true, false, List, ◌∷◌, none, some, ◌==◌,
  if◌then◌else◌, arith, same_text, elem, elem_differ, ltb, ok, ◌>>=◌, remove_first, Bool-cases, inl,
  inr,
}
use zeroserv.Memcached.Assoc.{assoc_find}
use zeroserv.Memcached.Item.{Item, Heap}
use zeroserv.Memcached.Lru.Cells.{payload}
use zeroserv.Memcached.Items.{Cache, key_of, do_item_remove, do_item_update, u16}
use zeroserv.Memcached.Items.Index.{same_cell}
use zeroserv.Memcached.Items.Unlink.{key_found}
use zeroserv.Memcached.Items.Inv.{IsCache, payload-IsLive}
use zeroserv.Memcached.Items.Replace.{Replaced, do_item_replace-Replaced}
use zeroserv.Memcached.Items.Refs.{Released, do_item_remove-Released}
use zeroserv.Memcached.Items.Touch.{Touched, do_item_update-Touched, touched_list}
use zeroserv.Memcached.Items.Get.{Hit}
use zeroserv.Memcached.Store.{System, store_over, find_hidden, finish}
use zeroserv.Memcached.Store.Spec.{put, contents_of, values}
use zeroserv.Memcached.Store.Values.{contents_of-payload, values_same, values-put, other_item}
use zeroserv.Memcached.Store.Absent.{Holds}

module _ (hash : List ℕ → ℕ) where
  -- The map after the lookup, the replacing and the release of the old item.
  Replaced-Holds :
      (it : ℕ) (i : Item) (old_it : ℕ) (o p : Item) (c c1 c3 c4 : Cache) (xs : List ℕ)
      → IsCache hash c xs
      → elem it xs ≡ false
      → (old_it == it) ≡ false
      → assoc_find hash (key_of i) c.table ≡ some old_it
      → (hit : Hit hash (key_of i) old_it c c1 xs) → Replaced hash old_it it o i c1 c3 xs
      → Released hash old_it p c3 c4 (it ∷ remove_first old_it xs)
      → Holds hash (put (key_of i) i.contents (values hash c)) c4
  Replaced-Holds it i old_it o p c c1 c3 c4 xs h off apart e hit l r =
      let k = hit.counted in
      let (j, at_it, same, refs) = l.item in
      record {
        latest = it ∷ remove_first old_it xs;
        valid = r.valid;
        map =
            values-put hash c c4 xs it (key_of i) i.contents h
              (λ key.
                ap (λ t. assoc_find hash key t) r.table
                ∙ l.found key
                ∙ ap (λ t. if same_text key (key_of i) then some it else assoc_find hash key t)
                    k.table)
              (contents_of-payload (c4.lists.heap it) (some j)
                  (r.others it (ground (arith, apart)) ∙ at_it)
                ∙ ap some same)
              (λ key a other f.
                let x = elem_differ a it xs (h.index.found key a f).member off in
                let y =
                  other_item hash c xs key (key_of i) a old_it hit.item h f hit.cell hit.own
                    other in
                contents_of-payload (c4.lists.heap a) (c.lists.heap a)
                  (r.others a y ∙ l.others a x y ∙ k.others a y));
      }

  -- `c1` is the state after the lookup, which found `old_it`.
  pub store_present :
      (sys : System) (it : ℕ) (i : Item) (old_it : ℕ) (c c1 : Cache) (xs : List ℕ)
      → IsCache hash c xs
      → elem it (0 ∷ xs) ≡ false
      → c.lists.heap it ≡ some i
      → (hit : Hit hash (key_of i) old_it c c1 xs) → hit.item.refcount + 1 < u16
      → assoc_find hash (key_of i) c.table ≡ some old_it
      → ltb i.nbytes (1024 * 1024) ≡ true
      → (c' : Cache) × (store_over hash sys (key_of i) false (some old_it) it none c1 ≡ ok (1, c'))
        × Holds hash (put (key_of i) i.contents (values hash c)) c'
  unfolding store_over find_hidden finish elem
  store_present sys it i old_it c c1 xs h new cell hit few e small =
      let off : elem it xs ≡ false = ground (arith, new) in
      let apart : (old_it == it) ≡ false = elem_differ old_it it xs hit.member off in
      let k = hit.counted in
      let o =
        payload-IsLive (c1.lists.heap old_it)
          (record hit.item { refcount = (hit.item.refcount + 1) % u16 }) k.item in
      let live : payload (c1.lists.heap it) ≡ payload (some i) =
        k.others it (ground (arith, apart)) ∙ ap payload cell in
      let keys : same_text (key_of i) (key_of o.item) ≡ true =
        ap (λ j. same_text (key_of i) (key_of j)) o.same ∙ hit.own in
      let held : (o.item.refcount == 0) ≡ false =
        ap (λ j. j.refcount == 0) o.same ∙ ground (arith, few) in
      let (c3, replaces, l) =
        do_item_replace-Replaced hash sys.room old_it it o.item i c1 xs k.valid hit.member o.cell
          held new live keys small in
      let (c4, removes, holds) = step o.item off apart c3 l in
      (c4, rw (replaces, removes) refl, holds)
    where
      step :
          (o : Item)
          → elem it xs ≡ false
          → (old_it == it) ≡ false
          → (c3 : Cache) → Replaced hash old_it it o i c1 c3 xs
          → (c4 : Cache) × (do_item_remove hash old_it c3 ≡ ok c4)
            × Holds hash (put (key_of i) i.contents (values hash c)) c4
      step o off apart c3 l =
          let p = payload-IsLive (c3.lists.heap old_it) (record o { linked = false }) l.old in
          let (c4, removes, r) =
            do_item_remove-Released hash old_it p.item c3 (it ∷ remove_first old_it xs) l.valid
              (elem_differ old_it 0 xs hit.member h.lists.nonzero) p.cell in
          (c4, removes, Replaced-Holds it i old_it o p.item c c1 c3 c4 xs h off apart e hit l r)

  touched_time :
      (it : ℕ) (o : Item) (c c' : Cache) (ys : List ℕ)
      → Touched hash it o c c' ys
      → (time : ℕ) × (payload (c'.lists.heap it) ≡ payload (some (record o { time = time })))
  touched_time it o c c' ys t = elim t.item [ inl e ↦ (o.time, e) | inr e ↦ (c.now_ms, e) ]

  same_cell_contents :
      (heap heap' : Heap) (a b : ℕ)
      → (a == b) ≡ true
      → contents_of (heap b) ≡ contents_of (heap' b)
      → contents_of (heap a) ≡ contents_of (heap' a)
  same_cell_contents heap heap' a b e same =
      ap contents_of (same_cell heap a b e) ∙ same ∙ ap contents_of (sym (same_cell heap' a b e))

  -- add of a key that is there: the item is touched and released, and the map stays.
  pub add_present :
      (key : List ℕ) (old_it : ℕ) (c c1 : Cache) (xs : List ℕ)
      → IsCache hash c xs
      → Hit hash key old_it c c1 xs
      → (c' : Cache) × ((do_item_update hash old_it c1 >>= λ c2. do_item_remove hash old_it c2)
          ≡ ok c')
        × Holds hash (values hash c) c'
  add_present key old_it c c1 xs h hit =
      let k = hit.counted in
      let o =
        payload-IsLive (c1.lists.heap old_it)
          (record hit.item { refcount = (hit.item.refcount + 1) % u16 }) k.item in
      let (c2, updates, t) =
        do_item_update-Touched hash old_it o.item c1 xs k.valid hit.member o.cell in
      let (c3, removes, holds) = step o.item c2 o.cell t in (c3, rw updates removes, holds)
    where
      step :
          (o : Item) (c2 : Cache)
          → c1.lists.heap old_it ≡ some o
          → Touched hash old_it o c1 c2 (touched_list hash old_it o c1 xs)
          → (c3 : Cache) × (do_item_remove hash old_it c2 ≡ ok c3) × Holds hash (values hash c) c3
      step o c2 cell t =
          let k = hit.counted in
          let z = elem_differ old_it 0 xs hit.member h.lists.nonzero in
          let (time, at) = touched_time old_it o c1 c2 (touched_list hash old_it o c1 xs) t in
          let p = payload-IsLive (c2.lists.heap old_it) (record o { time = time }) at in
          let linked : p.item.linked ≡ true =
            ap (λ j. j.linked) p.same ∙ (key_found hash old_it c1 xs o k.valid hit.member cell).0 in
          let (c3, removes, r) =
            do_item_remove-Released hash old_it p.item c2 (touched_list hash old_it o c1 xs) t.valid
              z p.cell in
          let kept : contents_of (c3.lists.heap old_it) ≡ contents_of (c.lists.heap old_it) =
            contents_of-payload (c3.lists.heap old_it)
              (some (record p.item { refcount = p.item.refcount - 1 }))
              (r.item ∙ ground (arith, linked))
            ∙ ap (λ j. some j.contents) p.same
            ∙ sym (contents_of-payload (c1.lists.heap old_it) (some o) (ap payload cell))
            ∙ contents_of-payload (c1.lists.heap old_it)
                (some (record hit.item { refcount = (hit.item.refcount + 1) % u16 })) k.item
            ∙ sym (ap contents_of hit.cell) in
          (
            c3,
            removes,
            record {
              latest = touched_list hash old_it o c1 xs;
              valid = r.valid;
              map =
                  values_same hash c c3 xs h
                    (λ key. ap (λ t. assoc_find hash key t) (r.table ∙ t.table ∙ k.table))
                    (λ a m. elim (Bool-cases (a == old_it)) [
                      | inl here ↦ same_cell_contents c3.lists.heap c.lists.heap a old_it here kept
                      | inr ne ↦
                          contents_of-payload (c3.lists.heap a) (c.lists.heap a)
                            (r.others a ne ∙ t.others a ne ∙ k.others a ne)
                    ]);
            },
          )
