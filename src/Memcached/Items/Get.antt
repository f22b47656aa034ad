-- ===== src/Memcached/Items/Get.antt =====
-- The lookup do_item_get_notedeleted in src/handler/mc/items.c.
use zeroserv.Prelude.{
  ℕ, ◌+◌, ◌%◌, ◌≡◌, refl, ap, ◌∙◌, Bool, true, false, not, List, Option, none, some, ◌==◌,
  if◌then◌else◌, arith, elem, Option-cases, inl, inr, ◌⊎◌, elem_differ, Run, ok, ◌>>=◌, same_text,
}
use zeroserv.Memcached.Assoc.{assoc_find}
use zeroserv.Memcached.Item.{Item}
use zeroserv.Memcached.Item.Update.{load_item-cell}
use zeroserv.Memcached.Items.{
  Cache, key_of, do_item_get_notedeleted, get_chosen, get_found, get_live, is_expired,
  item_delete_lock_over, do_item_unlink, take_reference, u16,
}
use zeroserv.Memcached.Items.Index.{indexed, some_inj}
use zeroserv.Memcached.Items.Inv.{IsCache}
use zeroserv.Memcached.Items.Refs.{Counted, take_reference-Counted}

-- The item at an address of which the index tells.
indexed_live :
    (o : Option Item) (j : Item)
    → indexed o ≡ some j
    → (i : Item) × (o ≡ some i)
      × (record i { next = 0; prev = 0; time = 0; refcount = 0; cas_id = 0 } ≡ j)
indexed_live none j e = absurd (ground (arith, e))
indexed_live (some i) j e =
    (i, refl, some_inj (record i { next = 0; prev = 0; time = 0; refcount = 0; cas_id = 0 }) j e)

module _ (hash : List ℕ → ℕ) where
  -- What do_item_get_notedeleted of a key returns and leaves.
  pub record Hit (key : List ℕ) (it : ℕ) (c c' : Cache) (xs : List ℕ) : Type 0 where
    pub item : Item
    pub cell : c.lists.heap it ≡ some item
    pub own : same_text key (key_of item) ≡ true
    pub member : elem it xs ≡ true
    pub counted : Counted hash it item ((item.refcount + 1) % u16) c c' xs

  abbrev pub GetOutcome : List ℕ → Cache → List ℕ → Run (Option ℕ × (Bool × Cache)) → Type 0
  GetOutcome key c xs result =
      ((assoc_find hash key c.table ≡ none) × (result ≡ ok (none, (false, c))))
      ⊎ ((it : ℕ) × (c' : Cache) × (assoc_find hash key c.table ≡ some it)
          × (result ≡ ok (some it, (false, c')))
          × Hit key it c c' xs)

  never : (i : Item) (c : Cache) → i.exptime ≡ 0 → c.oldest_live ≡ 0 → is_expired hash i c ≡ false
  unfolding is_expired
  never i c forever fresh = ground (arith, forever, fresh)

  get_runs :
      (it : ℕ) (i : Item) (c c' : Cache)
      → (it == 0) ≡ false
      → c.lists.heap it ≡ some i
      → i.deleted ≡ false
      → i.exptime ≡ 0
      → c.oldest_live ≡ 0
      → take_reference hash it c ≡ ok c'
      → get_found hash it c ≡ ok (some it, (false, c'))
  unfolding get_found get_live
  get_runs it i c c' z cell plain forever fresh runs =
      rw (load_item-cell it c.lists.heap i z cell) (
        ap
          (λ b. (if b then item_delete_lock_over hash i else ok true) >>= λ over.
            if not over then ok (none, (true, c)) else get_live hash it i c)
          plain
        ∙ ap
            (λ b.
              if b
              then (do_item_unlink hash it c >>= λ c'. ok (none, (false, c')))
              else (take_reference hash it c >>= λ c'. ok (some it, (false, c'))))
            (never i c forever fresh)
        ∙ ap (λ r. r >>= λ c'. ok (some it, (false, c'))) runs)

  pub do_item_get_notedeleted-GetOutcome :
      (key : List ℕ) (c : Cache) (xs : List ℕ)
      → IsCache hash c xs
      → c.oldest_live ≡ 0
      → GetOutcome key c xs (do_item_get_notedeleted hash key c)
  unfolding do_item_get_notedeleted
  do_item_get_notedeleted-GetOutcome key c xs h fresh =
      elim (Option-cases (assoc_find hash key c.table)) [
        | inl e ↦ inl (e, ap (λ o. get_chosen hash o c) e)
        | inr (it, e) ↦
            let m = h.index.found key it e in
            let (i, cell, same) = indexed_live (c.lists.heap it) m.item m.cell in
            let z = elem_differ it 0 xs m.member h.lists.nonzero in
            let (plain, forever) = h.index.plain it m.item m.cell in
            let (c', runs, k) = take_reference-Counted hash it i c xs h z cell in
            inr (
              it,
              c',
              e,
              ap (λ o. get_chosen hash o c) e
                  ∙ get_runs it i c c' z cell (ap (λ j. j.deleted) same ∙ plain)
                      (ap (λ j. j.exptime) same ∙ forever) fresh runs,
              record {
                item = i;
                cell = cell;
                own = ap (λ j. same_text key (key_of j)) same ∙ m.own;
                member = m.member;
                counted = k;
              },
            )
      ]
