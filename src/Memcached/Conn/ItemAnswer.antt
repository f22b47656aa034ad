-- ===== src/Memcached/Conn/ItemAnswer.antt =====
-- What process_get_command in src/handler/memcached.c adds to the output for a found item.
use zeroserv.Prelude.{
  ℕ, ◌+◌, ◌%◌, ◌≤◌, ◌≡◌, refl, sym, ap, ◌∙◌, subst, true, false, List, ◌++◌, Option, none, some,
  ◌==◌, arith, elem, elem_differ, Bool-cases, inl, inr, length, take, ok, ◌-◌, read_bytes,
  length-append,
}
use zeroserv.Memcached.Assoc.{assoc_find}
use zeroserv.Memcached.Item.{Item, load_item}
use zeroserv.Memcached.Item.Update.{load_item-cell}
use zeroserv.Memcached.Lru.Cells.{payload}
use zeroserv.Memcached.Items.{Cache, Stats, key_of, do_item_remove, u64}
use zeroserv.Memcached.Items.Index.{some_inj}
use zeroserv.Memcached.Items.Inv.{IsCache}
use zeroserv.Memcached.Items.Refs.{Released, do_item_remove-Released}
use zeroserv.Memcached.Items.Unlink.{key_found}
use zeroserv.Memcached.Store.Spec.{values, contents_of}
use zeroserv.Memcached.Store.Values.{contents_of-payload, values_same}
use zeroserv.Memcached.Conn.{Server, add_out_string, answer_item, with_cache}
use zeroserv.Memcached.Conn.Texts.{value_text, end_text}
use zeroserv.Memcached.Conn.Output.{Added, HasRoom, add_out_string-Added, add_twice}

-- The suffix and the value of an item.
abbrev pub data_of : Item → List ℕ
data_of i = take (i.nsuffix + i.nbytes) (i.suffix ++ i.contents)

abbrev pub item_answer : Item → List ℕ
item_answer i = (value_text ++ key_of i) ++ data_of i

-- "VALUE ", the key and the data for an item, and "END" in any case.
abbrev pub get_answer : Option Item → List ℕ
get_answer none = end_text
get_answer (some i) = item_answer i ++ end_text

-- The lengths of an item's header are not larger than what stands behind it.
abbrev pub IsWhole : Item → Type 0
IsWhole i = i.nsuffix + i.nbytes ≤ length (i.suffix ++ i.contents)

-- The item at an address whose header fields and data are those of `i`.
pub same_payload :
    (o : Option Item) (i : Item)
    → payload o ≡ payload (some i)
    → (j : Item) × (o ≡ some j)
      × (record j { next = 0; prev = 0 } ≡ record i { next = 0; prev = 0 })
same_payload none i e = absurd (ground (arith, e))
same_payload (some j) i e =
    (j, refl, some_inj (record j { next = 0; prev = 0 }) (record i { next = 0; prev = 0 }) e)

module _ (hash : List ℕ → ℕ) where
  -- The statistics other than the number of items do not matter.
  pub IsCache-with_stats :
      (c : Cache) (xs : List ℕ) (st : Stats)
      → IsCache hash c xs
      → st.curr_items ≡ c.stats.curr_items
      → IsCache hash (record c { stats = st }) xs
  IsCache-with_stats c xs st h same = record {
    lists = h.lists;
    table = h.table;
    index = h.index;
    items = h.items;
    curr = same ∙ h.curr;
  }

  -- What is left in the cache after the reference of a lookup is given back.
  pub record Kept (c c' : Cache) (xs : List ℕ) : Type 0 where
    pub valid : IsCache hash c' xs
    pub values : (key : List ℕ) → values hash c' key ≡ values hash c key

  -- The values do not change when a count of references does.
  pub values_counted :
      (it : ℕ) (i : Item) (n : ℕ) (c c' : Cache) (xs : List ℕ)
      → IsCache hash c xs
      → c.lists.heap it ≡ some i
      → payload (c'.lists.heap it) ≡ payload (some (record i { refcount = n }))
      → ((a : ℕ) → (a == it) ≡ false → payload (c'.lists.heap a) ≡ payload (c.lists.heap a))
      → c'.table ≡ c.table
      → (key : List ℕ) → values hash c' key ≡ values hash c key
  values_counted it i n c c' xs h cell at others table =
      let here : contents_of (c'.lists.heap it) ≡ contents_of (c.lists.heap it) =
        contents_of-payload (c'.lists.heap it) (some (record i { refcount = n })) at
        ∙ sym (ap contents_of cell) in
      values_same hash c c' xs h (λ key. ap (assoc_find hash key) table)
        (λ a m. elim (Bool-cases (a == it)) [
          | inl e ↦
              subst (λ b. contents_of (c'.lists.heap b) ≡ contents_of (c.lists.heap b)) {x = it}
                {y = a} (ground (arith, e)) here
          | inr e ↦ contents_of-payload (c'.lists.heap a) (c.lists.heap a) (others a e)
        ])

  Released-Kept :
      (it : ℕ) (i : Item) (c c' : Cache) (xs : List ℕ)
      → IsCache hash c xs
      → c.lists.heap it ≡ some i
      → elem it xs ≡ true
      → Released hash it i c c' xs
      → Kept c c' xs
  Released-Kept it i c c' xs h cell m k =
      let linked = (key_found hash it c xs i h m cell).0 in
      record {
        valid = k.valid;
        values =
            values_counted it i (i.refcount - 1) c c' xs h cell (k.item ∙ ground (arith, linked))
              k.others k.table;
      }

  abbrev hit_stats : Server → Stats
  hit_stats s = record s.cache.stats { get_hits = (s.cache.stats.get_hits + 1) % u64 }

  answer_item_runs :
      (it : ℕ) (i : Item) (s s1 s2 s3 : Server) (c' : Cache)
      → load_item it s.cache.lists.heap ≡ ok i
      → add_out_string value_text s ≡ ok s1
      → add_out_string (key_of i) s1 ≡ ok s2
      → read_bytes (i.suffix ++ i.contents) (i.nsuffix + i.nbytes) ≡ ok (data_of i)
      → add_out_string (data_of i) s2 ≡ ok s3
      → do_item_remove hash it (record s3.cache { stats = hit_stats s3 }) ≡ ok c'
      → answer_item hash it s ≡ ok (with_cache c' s3)
  unfolding answer_item
  answer_item_runs it i s s1 s2 s3 c' e0 e1 e2 e3 e4 e5 = rw (e0, e1, e2, e3, e4, e5) refl

  -- The item's text behind the output, its reference given back and the rest of the cache kept.
  pub answer_item-Kept :
      (it : ℕ) (i : Item) (s : Server) (xs : List ℕ)
      → IsCache hash s.cache xs
      → s.cache.lists.heap it ≡ some i
      → elem it xs ≡ true
      → IsWhole i
      → HasRoom (length (item_answer i)) s
      → (s3 : Server) × (c' : Cache) × (answer_item hash it s ≡ ok (with_cache c' s3))
        × Added (item_answer i) s s3
        × Kept s.cache c' xs
  answer_item-Kept it i s xs h cell m whole room =
      let z = elem_differ it 0 xs m h.lists.nonzero in
      let key = key_of i in
      let front = value_text ++ key in
      let body = data_of i in
      let sum = length-append front body in
      let sum1 = length-append value_text key in
      let (s1, e1, a1) = add_out_string-Added value_text s (omega (arith, room, sum, sum1)) in
      let (s2, e2, a2) = add_twice value_text key s s1 (omega (arith, room, sum, sum1)) a1 in
      let (s3, e4, a3) = add_twice front body s s2 (omega (arith, room, sum)) a2 in
      let counted = record s3.cache { stats = hit_stats s3 } in
      let h3 = subst (λ c. IsCache hash c xs) (sym a3.cache) h in
      let cell3 = ap (λ c. c.lists.heap it) a3.cache ∙ cell in
      let valid = IsCache-with_stats s3.cache xs (hit_stats s3) h3 refl in
      let (c', e5, k) = do_item_remove-Released hash it i counted xs valid z cell3 in
      let kept = Released-Kept it i counted c' xs valid cell3 m k in
      (
        s3,
        c',
        answer_item_runs it i s s1 s2 s3 c' (load_item-cell it s.cache.lists.heap i z cell) e1 e2
            (ground (arith, whole)) e4 e5,
        a3,
        record {
          valid = kept.valid;
          values = λ key. kept.values key ∙ ap (λ c. values hash c key) a3.cache;
        },
      )
