-- ===== src/Memcached/Items.antt =====
-- src/handler/mc/items.c: linking, unlinking, finding and freeing the items of the cache. The text
-- of do_item_alloc's suffix, which snprintf prints, is in Suffix. `room` says whether calloc finds
-- memory when the hash table grows; `fresh1` and `fresh2` are what the two calls of malloc return,
-- 0 for NULL, and `garbage` is what the bytes of a new item's value hold. The static variables and
-- the globals that these functions read are the record `Cache`.
pub mod Suffix
pub mod Index
pub mod Inv
pub mod Link
pub mod Unlink
pub mod Refs
pub mod Touch
pub mod Get
pub mod Replace
pub mod Init
use zeroserv.Prelude.{
  ℕ, ◌+◌, ◌-◌, ◌*◌, ◌%◌, ◌^◌, Bool, true, false, ◌&&◌, ◌||◌, not, List, [], Option, none, some, ltb,
  leb, ◌==◌, if◌then◌else◌, take, length, Run, ok, ◌>>=◌, ◌>>◌, demand, assert_failed, ℤ,
}
use zeroserv.Memcached.Assoc.{Assoc, Entry, assoc_find, assoc_insert, assoc_delete}
use zeroserv.Memcached.Item.{Item, Heap, put_item, load_item, modify, item_ntotal}
use zeroserv.Memcached.Lru.{Lists, item_link_q, item_unlink_q}
use zeroserv.Memcached.Items.Suffix.{item_make_suffix}

abbrev pub u16 : ℕ
u16 = 2 ^ 16

abbrev pub u32 : ℕ
u32 = 2 ^ 32

abbrev pub u64 : ℕ
u64 = 2 ^ 64

-- `struct stats`, without the fields that nothing changes.
pub record Stats : Type 0 where
  pub curr_items : ℕ
  pub total_items : ℕ
  pub curr_bytes : ℕ
  pub curr_conns : ℕ
  pub total_conns : ℕ
  pub get_cmds : ℕ
  pub set_cmds : ℕ
  pub get_hits : ℕ
  pub get_misses : ℕ
  pub bytes_read : ℕ
  pub bytes_written : ℕ

pub record Cache : Type 0 where
  pub lists : Lists
  pub table : Assoc
  pub stats : Stats
  pub outofmemory : ℕ
  pub cas_id : ℕ
  pub now_ms : ℕ
  pub oldest_live : ℕ
  pub evict_to_free : Bool

abbrev pub with_heap : Heap → Cache → Cache
with_heap heap c = record c { lists = record c.lists { heap = heap } }

-- The `nkey` bytes at `ITEM_key(it)`.
abbrev pub key_of : Item → List ℕ
key_of i = take i.nkey i.key

unfoldable pub count_linked : Item → Stats → Stats
count_linked i st = record st {
  curr_bytes = (st.curr_bytes + item_ntotal i) % u64;
  curr_items = (st.curr_items + 1) % u32;
  total_items = (st.total_items + 1) % u32;
}

unfoldable pub count_unlinked : Item → Stats → Stats
count_unlinked i st = record st {
  curr_bytes = (st.curr_bytes + u64 - item_ntotal i % u64) % u64;
  curr_items = (st.curr_items + u32 - 1) % u32;
}

unfoldable pub item_free : ℕ → Cache → Run Cache
item_free it c = do
  i ← load_item it c.lists.heap
  demand (not i.linked) assert_failed
  demand (i.refcount == 0) assert_failed
  ok (with_heap (put_item it none c.lists.heap) c)

-- The item that do_item_alloc fills in; `exptime` and `garbage` as they are given.
unfoldable pub new_item : List ℕ → ℕ → ℤ → ℕ → ℕ → List ℕ → Item
new_item key nkey flags exptime nbytes garbage = record {
  next = 0;
  prev = 0;
  time = 0;
  exptime = exptime;
  nbytes = nbytes;
  refcount = 1;
  nsuffix = length (item_make_suffix flags nbytes);
  linked = false;
  deleted = false;
  nkey = nkey % 2 ^ 8;
  cas_id = 0;
  key = key;
  suffix = item_make_suffix flags nbytes;
  contents = garbage;
}

-- malloc gave the memory at `it`, and the item is filled in.
unfoldable pub alloc_at : ℕ → Item → Cache → Option ℕ × Cache
alloc_at it item c = (some it, with_heap (put_item it (some item) c.lists.heap) c)

unfoldable pub alloc_fails : Cache → Option ℕ × Cache
alloc_fails c = (none, record c { outofmemory = (c.outofmemory + 1) % u32 })

unfoldable pub do_item_alloc : ℕ → ℕ → Item → Cache → Option ℕ × Cache
do_item_alloc fresh1 fresh2 item c =
    if not (fresh1 == 0)
    then alloc_at fresh1 item c
    else if not c.evict_to_free
    then alloc_fails c
    else if c.lists.tails == 0
    then alloc_fails c
    else if fresh2 == 0
    then alloc_fails c
    else alloc_at fresh2 item c

module _ (hash : List ℕ → ℕ) where
  unfoldable pub do_item_link : Bool → ℕ → Cache → Run Cache
  do_item_link room it c = do
    i ← load_item it c.lists.heap
    demand (ltb i.nbytes (1024 * 1024)) assert_failed
    let table = assoc_insert hash room (record { item = it; key = key_of i }) c.table
    let cas = (c.cas_id + 1) % u64
    heap ← modify it (λ i. record i { linked = true; time = c.now_ms; cas_id = cas }) c.lists.heap
    lists ← item_link_q it (record c.lists { heap = heap })
    ok (record c { lists = lists; table = table; stats = count_linked i c.stats; cas_id = cas })

  unfoldable pub unlink_linked : Item → ℕ → Cache → Run Cache
  unlink_linked i it c = do
    heap ← modify it (λ i. record i { linked = false }) c.lists.heap
    table ← assoc_delete hash (key_of i) c.table
    lists ← item_unlink_q it (record c.lists { heap = heap })
    let c' = record c { lists = lists; table = table; stats = count_unlinked i c.stats }
    if i.refcount == 0 then item_free it c' else ok c'

  unfoldable pub do_item_unlink : ℕ → Cache → Run Cache
  do_item_unlink it c = do
    i ← load_item it c.lists.heap
    if i.linked then unlink_linked i it c else ok c

  -- A count of 0 stays 0.
  unfoldable pub do_item_remove : ℕ → Cache → Run Cache
  do_item_remove it c = do
    i ← load_item it c.lists.heap
    let left = i.refcount - 1
    heap ← modify it (λ i. record i { refcount = left }) c.lists.heap
    demand (not i.deleted || not (left == 0)) assert_failed
    if (left == 0) && not i.linked then item_free it (with_heap heap c) else ok (with_heap heap c)

  unfoldable pub update_linked : ℕ → Cache → Run Cache
  update_linked it c = do
    lists1 ← item_unlink_q it c.lists
    heap ← modify it (λ i. record i { time = c.now_ms }) lists1.heap
    lists2 ← item_link_q it (record lists1 { heap = heap })
    ok (record c { lists = lists2 })

  -- `#define ITEM_UPDATE_INTERVAL 60`
  unfoldable pub do_item_update : ℕ → Cache → Run Cache
  do_item_update it c = do
    i ← load_item it c.lists.heap
    if ltb i.time ((c.now_ms + u32 - 60) % u32) && i.linked then update_linked it c else ok c

  unfoldable pub do_item_replace : Bool → ℕ → ℕ → Cache → Run Cache
  do_item_replace room it new_it c = do c1 ← do_item_unlink it c; do_item_link room new_it c1

  unfoldable pub item_delete_lock_over : Item → Run Bool
  item_delete_lock_over i = demand i.deleted assert_failed >> ok false

  -- `it->refcount++`
  unfoldable pub take_reference : ℕ → Cache → Run Cache
  take_reference it c = do
    heap ← modify it (λ i. record i { refcount = (i.refcount + 1) % u16 }) c.lists.heap
    ok (with_heap heap c)

  -- Whether the item is flushed, or its time is over.
  unfoldable pub is_expired : Item → Cache → Bool
  is_expired i c =
      (not (c.oldest_live == 0) && leb c.oldest_live c.now_ms && leb i.time c.oldest_live)
      || (not (i.exptime == 0) && leb i.exptime c.now_ms)

  unfoldable pub get_live : ℕ → Item → Cache → Run (Option ℕ × (Bool × Cache))
  get_live it i c =
      if is_expired i c
      then (do_item_unlink it c >>= λ c'. ok (none, (false, c')))
      else (take_reference it c >>= λ c'. ok (some it, (false, c')))

  -- The item was found: NULL if it is locked or expired.
  unfoldable pub get_found : ℕ → Cache → Run (Option ℕ × (Bool × Cache))
  get_found it c = do
    i ← load_item it c.lists.heap
    over ← if i.deleted then item_delete_lock_over i else ok true
    if not over then ok (none, (true, c)) else get_live it i c

  abbrev pub get_chosen : Option ℕ → Cache → Run (Option ℕ × (Bool × Cache))
  get_chosen none c = ok (none, (false, c))
  get_chosen (some it) c = get_found it c

  -- The item or NULL, `*delete_locked`, and the state.
  unfoldable pub do_item_get_notedeleted : List ℕ → Cache → Run (Option ℕ × (Bool × Cache))
  do_item_get_notedeleted key c = get_chosen (assoc_find hash key c.table) c

  unfoldable pub item_get : List ℕ → Cache → Run (Option ℕ × Cache)
  item_get key c = do_item_get_notedeleted key c >>= λ r. ok (r.0, r.1.1)

  unfoldable pub do_item_get_nocheck : List ℕ → Cache → Run (Option ℕ × Cache)
  do_item_get_nocheck key c = elim (assoc_find hash key c.table) [
    | none ↦ ok (none, c)
    | some it ↦ take_reference it c >>= λ c'. ok (some it, c')
  ]
