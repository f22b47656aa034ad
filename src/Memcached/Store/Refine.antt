-- ===== src/Memcached/Store/Refine.antt =====
-- do_store_item in src/handler/memcached.c for add, set and replace.
use zeroserv.Prelude.{
  ℕ, ◌+◌, ◌*◌, ◌<◌, ◌≡◌, refl, sym, ap, ◌∙◌, subst, Bool, true, false, List, ◌∷◌, Option, none,
  some, ◌==◌, arith, elem, ltb, Run, ok, ◌>>=◌, inl, inr, bind_assoc,
}
use zeroserv.Memcached.Assoc.{assoc_find}
use zeroserv.Memcached.Item.{Item}
use zeroserv.Memcached.Item.Update.{load_item-cell}
use zeroserv.Memcached.Items.{
  Cache, key_of, do_item_update, do_item_remove, do_item_get_notedeleted, u16,
}
use zeroserv.Memcached.Items.Inv.{IsCache}
use zeroserv.Memcached.Items.Get.{Hit, do_item_get_notedeleted-GetOutcome}
use zeroserv.Memcached.Store.{System, do_store_item, store_found, finish}
use zeroserv.Memcached.Store.Spec.{
  Map, contents_of, contents_at, values, Command, add, set, replace, comm_of, spec_of, store_spec,
}
use zeroserv.Memcached.Store.Absent.{Holds, store_absent}
use zeroserv.UtHash.{is_some}
use zeroserv.Memcached.Store.Present.{store_present, add_present}

module _ (hash : List ℕ → ℕ) where
  -- What do_store_item returns and leaves, by the map.
  abbrev pub Stores : System → ℕ → Item → Cache → Command → Type 0
  Stores sys it i c cmd =
      let spec = store_spec cmd (key_of i) i.contents (values hash c) in
      (c' : Cache) × (do_store_item hash sys it (comm_of cmd) c ≡ ok (spec.0, c'))
      × Holds hash spec.1 c'

  -- The same, when it is known whether the key has a value.
  abbrev Found : System → ℕ → Item → Cache → Command → Bool → Run (ℕ × Cache) → Type 0
  Found sys it i c cmd present result =
      let spec = spec_of cmd present (key_of i) i.contents (values hash c) in
      (c' : Cache) × (result ≡ ok (spec.0, c')) × Holds hash spec.1 c'

  starts :
      (sys : System) (it comm : ℕ) (i : Item) (c c1 : Cache) (o : Option ℕ)
      → (it == 0) ≡ false
      → c.lists.heap it ≡ some i
      → do_item_get_notedeleted hash (key_of i) c ≡ ok (o, (false, c1))
      → do_store_item hash sys it comm c ≡ store_found hash sys i it comm o false c1
  unfolding do_store_item
  starts sys it comm i c c1 o z cell finds =
      rw (load_item-cell it c.lists.heap i z cell, finds) refl

  absent_cases :
      (sys : System) (it : ℕ) (i : Item) (c : Cache) (xs : List ℕ) (cmd : Command)
      → IsCache hash c xs
      → elem it (0 ∷ xs) ≡ false
      → c.lists.heap it ≡ some i
      → assoc_find hash (key_of i) c.table ≡ none
      → ltb i.nbytes (1024 * 1024) ≡ true
      → Found sys it i c cmd false (store_found hash sys i it (comm_of cmd) none false c)
  unfolding store_found finish
  absent_cases sys it i c xs add h new cell absent small =
      store_absent hash sys it i c xs h new cell absent small
  absent_cases sys it i c xs set h new cell absent small =
      store_absent hash sys it i c xs h new cell absent small
  absent_cases sys it i c xs replace h new cell absent small =
      (c, refl, record { latest = xs; valid = h; map = λ key. refl })

  present_cases :
      (sys : System) (it : ℕ) (i : Item) (old_it : ℕ) (c c1 : Cache) (xs : List ℕ) (cmd : Command)
      → IsCache hash c xs
      → elem it (0 ∷ xs) ≡ false
      → c.lists.heap it ≡ some i
      → (hit : Hit hash (key_of i) old_it c c1 xs) → hit.item.refcount + 1 < u16
      → assoc_find hash (key_of i) c.table ≡ some old_it
      → ltb i.nbytes (1024 * 1024) ≡ true
      → Found sys it i c cmd true (store_found hash sys i it (comm_of cmd) (some old_it) false c1)
  unfolding store_found finish
  present_cases sys it i old_it c c1 xs add h new cell hit few e small =
      let (c', runs, holds) = add_present hash (key_of i) old_it c c1 xs h hit in
      (
        c',
        sym (
              bind_assoc (do_item_update hash old_it c1) (do_item_remove hash old_it)
                (λ c2. ok (0, c2)))
            ∙ ap (λ r. r >>= λ c2. ok (0, c2)) runs,
        holds,
      )
  present_cases sys it i old_it c c1 xs set h new cell hit few e small =
      store_present hash sys it i old_it c c1 xs h new cell hit few e small
  present_cases sys it i old_it c c1 xs replace h new cell hit few e small =
      store_present hash sys it i old_it c c1 xs h new cell hit few e small

  decided :
      (sys : System) (it : ℕ) (i : Item) (c : Cache) (cmd : Command) (value : Option (List ℕ))
      (result : Run (ℕ × Cache))
      → values hash c (key_of i) ≡ value
      → do_store_item hash sys it (comm_of cmd) c ≡ result
      → Found sys it i c cmd (is_some value) result
      → Stores sys it i c cmd
  decided sys it i c cmd value result e runs (c', ends, holds) =
      let spec : ℕ × Map → Type 0 =
        λ r. (do_store_item hash sys it (comm_of cmd) c ≡ ok (r.0, c')) × Holds hash r.1 c' in
      let (returns, map) =
        subst (λ o. spec (spec_of cmd (is_some o) (key_of i) i.contents (values hash c)))
          {x = value} (sym e) (runs ∙ ends, holds) in
      (c', returns, map)

  -- On a valid cache where nothing was flushed and no item has 2 ^ 16 - 1 references, do_store_item of
  -- a live item below a megabyte that is not linked passes every assert on its way and does what
  -- the specification of add, set and replace says: it returns 1 exactly when the value is stored,
  -- the map of keys to values is the specified one, and the cache stays valid.
  pub do_store_item-Stores :
      (sys : System) (it : ℕ) (i : Item) (c : Cache) (xs : List ℕ) (cmd : Command)
      → IsCache hash c xs
      → elem it (0 ∷ xs) ≡ false
      → c.lists.heap it ≡ some i
      → c.oldest_live ≡ 0
      → ltb i.nbytes (1024 * 1024) ≡ true
      → ((a : ℕ) (j : Item) → elem a xs ≡ true → c.lists.heap a ≡ some j → j.refcount + 1 < u16)
      → Stores sys it i c cmd
  unfolding elem
  do_store_item-Stores sys it i c xs cmd h new cell fresh small few =
      let z : (it == 0) ≡ false = ground (arith, new) in
      elim (do_item_get_notedeleted-GetOutcome hash (key_of i) c xs h fresh) [
        | inl (absent, finds) ↦
            decided sys it i c cmd none (store_found hash sys i it (comm_of cmd) none false c)
              (ap (contents_at c.lists.heap) absent)
              (starts sys it (comm_of cmd) i c c none z cell finds)
              (absent_cases sys it i c xs cmd h new cell absent small)
        | inr (old_it, c1, e, finds, hit) ↦
            decided sys it i c cmd (some hit.item.contents)
              (store_found hash sys i it (comm_of cmd) (some old_it) false c1)
              (ap (contents_at c.lists.heap) e ∙ ap contents_of hit.cell)
              (starts sys it (comm_of cmd) i c c1 (some old_it) z cell finds)
              (present_cases sys it i old_it c c1 xs cmd h new cell hit
                (few old_it hit.item hit.member hit.cell) e small)
      ]
