-- ===== src/Memcached/Store.antt =====
-- do_store_item in src/handler/memcached.c: what set, add, replace, append, prepend and cas do with
-- an item whose value is complete. The arguments that stand for the system are those of Items. The
-- children are the map that the commands work on (Spec) and the three commands that store the item
-- as it is (Refine, from Values, Absent and Present).
pub mod Spec
pub mod Values
pub mod Absent
pub mod Present
pub mod Refine
use zeroserv.Prelude.{
  ℕ, ◌+◌, ◌-◌, Bool, true, false, ◌&&◌, ◌||◌, not, List, Option, none, some, ◌==◌, if◌then◌else◌,
  Run, ok, ◌>>=◌, take, memcpy, read_bytes, to_int, to_size,
}
use zeroserv.Memcached.Item.{Item, load_item, modify}
use zeroserv.Memcached.Items.{
  Cache, key_of, with_heap, new_item, do_item_alloc, do_item_link, do_item_remove, do_item_update,
  do_item_replace, do_item_get_notedeleted, do_item_get_nocheck,
}
use zeroserv.Memcached.Number.{strtol}
use zeroserv.UtHash.{is_some}

abbrev pub nread_add : ℕ
nread_add = 1

abbrev pub nread_set : ℕ
nread_set = 2

abbrev pub nread_replace : ℕ
nread_replace = 3

abbrev pub nread_append : ℕ
nread_append = 4

abbrev pub nread_prepend : ℕ
nread_prepend = 5

abbrev pub nread_cas : ℕ
nread_cas = 6

-- What the system answers: calloc for the hash table, malloc, and the bytes that malloc's memory holds.
pub record System : Type 0 where
  pub room : Bool
  pub fresh1 : ℕ
  pub fresh2 : ℕ
  pub garbage : List ℕ

abbrev pub is_concat : ℕ → Bool
is_concat comm = (comm == nread_append) || (comm == nread_prepend)

module _ (hash : List ℕ → ℕ) (sys : System) where
  -- `if (it != NULL) do_item_remove(it);`
  abbrev pub release : Option ℕ → Cache → Run Cache
  release none c = ok c
  release (some it) c = do_item_remove hash it c

  unfoldable pub finish : Option ℕ → Option ℕ → ℕ → Cache → Run (ℕ × Cache)
  finish old_it new_it stored c =
      release old_it c >>= λ c1. release new_it c1 >>= λ c2. ok (stored, c2)

  -- `if (delete_locked) old_it = do_item_get_nocheck(key, it->nkey);`
  unfoldable pub find_hidden : Bool → List ℕ → Option ℕ → Cache → Run (Option ℕ × Cache)
  find_hidden delete_locked key old_it c =
      if delete_locked then do_item_get_nocheck hash key c else ok (old_it, c)

  unfoldable pub store_cas : Item → ℕ → Option ℕ → Cache → Run (ℕ × Cache)
  store_cas i it none c = finish none none 3 c
  store_cas i it (some old_it) c = do
    old ← load_item old_it c.lists.heap
    if i.cas_id == old.cas_id
        then (do_item_replace hash sys.room old_it it c >>= finish (some old_it) none 1)
        else finish (some old_it) none 2 c

  -- The replacing or linking at the end of the last branch.
  abbrev pub link_over : Option ℕ → ℕ → Cache → Run Cache
  link_over none it c = do_item_link hash sys.room it c
  link_over (some old_it) it c = do_item_replace hash sys.room old_it it c

  unfoldable pub store_over : List ℕ → Bool → Option ℕ → ℕ → Option ℕ → Cache → Run (ℕ × Cache)
  store_over key delete_locked old_it it new_it c =
      find_hidden delete_locked key old_it c >>= λ r. link_over r.0 it r.1 >>= finish r.0 new_it 1

  -- The two values in one, without the first one's line end.
  unfoldable pub join_values : Item → Item → Run (List ℕ)
  join_values front back = do
    first ← read_bytes front.contents front.nbytes
    second ← read_bytes back.contents back.nbytes
    joined ← memcpy sys.garbage 0 first
    memcpy joined (front.nbytes - 2) second

  abbrev pub store_joined : ℕ → Item → Item → ℕ → Bool → Option ℕ → Cache → Run (ℕ × Cache)
  store_joined comm i old old_it delete_locked none c =
      do_item_remove hash old_it c >>= λ c1. ok (0, c1)
  store_joined comm i old old_it delete_locked (some new_it) c = do
    joined ← if comm == nread_append then join_values old i else join_values i old
    heap ← modify new_it (λ j. record j { contents = joined }) c.lists.heap
    store_over (key_of i) delete_locked (some old_it) new_it (some new_it) (with_heap heap c)

  -- append and prepend: a new item that holds both values.
  unfoldable pub store_concat : ℕ → Item → ℕ → Bool → Cache → Run (ℕ × Cache)
  store_concat comm i old_it delete_locked c = do
    old ← load_item old_it c.lists.heap
    let flags = to_int (to_size (strtol old.suffix).0)
    let item = new_item i.key i.nkey flags old.exptime (i.nbytes + old.nbytes - 2) sys.garbage
    let alloc = do_item_alloc sys.fresh1 sys.fresh2 item c
    store_joined comm i old old_it delete_locked alloc.0 alloc.1

  -- The branches of do_store_item, by what do_item_get_notedeleted found.
  unfoldable pub store_found : Item → ℕ → ℕ → Option ℕ → Bool → Cache → Run (ℕ × Cache)
  store_found i it comm none delete_locked c =
      if (comm == nread_replace) || is_concat comm
      then finish none none 0 c
      else if delete_locked && ((comm == nread_replace) || ((comm == nread_add) || is_concat comm))
      then finish none none 0 c
      else if comm == nread_cas
      then (find_hidden delete_locked (key_of i) none c >>= λ r. store_cas i it r.0 r.1)
      else store_over (key_of i) delete_locked none it none c
  store_found i it comm (some old_it) delete_locked c =
      if comm == nread_add
      then (do_item_update hash old_it c >>= finish (some old_it) none 0)
      else if delete_locked && ((comm == nread_replace) || is_concat comm)
      then finish (some old_it) none 0 c
      else if comm == nread_cas
      then (find_hidden delete_locked (key_of i) (some old_it) c >>= λ r. store_cas i it r.0 r.1)
      else if is_concat comm
      then store_concat comm i old_it delete_locked c
      else store_over (key_of i) delete_locked (some old_it) it none c

  unfoldable pub do_store_item : ℕ → ℕ → Cache → Run (ℕ × Cache)
  do_store_item it comm c = do
    i ← load_item it c.lists.heap
    r ← do_item_get_notedeleted hash (key_of i) c
    store_found i it comm r.0 r.1.0 r.1.1
