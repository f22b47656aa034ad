-- ===== src/Memcached/Tests.antt =====
-- The memcached clone of src/handler/memcached.c on concrete inputs.
use zeroserv.Prelude.{
  ℕ, ◌≡◌, refl, sym, ap, ◌∙◌, subst, true, false, List, [], ◌∷◌, none, some, arith, elem, distinct,
  Bool-cases, inl, inr, ◌==◌, if◌then◌else◌, map, take, Run, ok, fault, exit_one, remove_first,
  replicate,
}
use zeroserv.Buffer.{buffer_init}
use zeroserv.Buffer.Bounds.{buffer_init-IsValid}
use zeroserv.Memcached.Assoc.{
  Assoc, Entry, assoc_init, assoc_find, assoc_insert, assoc_expand, do_assoc_move_next_bucket,
  move_bucket, move_chain, find_chain, get_chain, put_chain, in_old, assoc_delete, hashitem_before,
  split_chain,
}
use zeroserv.Memcached.Assoc.Inv.{IsAssoc}
use zeroserv.Memcached.Assoc.Move.{IsPlaced-empty}
use zeroserv.Memcached.Assoc.Lookup.{Inserted, assoc_insert-Inserted}
use zeroserv.Memcached.Assoc.Expand.{IsAssoc-assoc_expand}
use zeroserv.Memcached.Assoc.Finish.{
  Finished, moves, moves-Finished, Call, insert, delete, run_calls, Begun, assoc_expand-stuck,
}
use zeroserv.Memcached.Item.{Item, Heap, put_item}
use zeroserv.Memcached.Lru.{Lists, item_unlink_q}
use zeroserv.Memcached.Lru.Cells.{IsLists, Relinked}
use zeroserv.Memcached.Lru.Order.{first, last_from, next_of, prev_from}
use zeroserv.Memcached.Lru.Unlink.{item_unlink_q-Relinked}
use zeroserv.Memcached.Items.{Cache, do_item_remove}
use zeroserv.Memcached.Items.Index.{indexed, some_inj, IsIndex-link}
use zeroserv.Memcached.Items.Inv.{IsCache, info}
use zeroserv.Memcached.Items.Init.{cache_init, IsCache-cache_init}
use zeroserv.Memcached.Items.Refs.{Released, do_item_remove-Released}
use zeroserv.Memcached.Conn.{Server, conn_read, process_get_command}
use zeroserv.Memcached.Conn.Answer.{Answered, process_get_command-Answered}
use zeroserv.Memcached.Conn.ItemAnswer.{IsWhole}
use zeroserv.Memcached.Read.{Socket, find_newline, mc_read}
use zeroserv.Memcached.Read.Spin.{IsWaiting, mc_read_spins}
use zeroserv.Memcached.Read.Flood.{IsFlooding, mc_read_exits}
use zeroserv.Memcached.Store.{System}
use zeroserv.Memcached.Store.Spec.{set}
use zeroserv.Memcached.Store.Refine.{Stores, do_store_item-Stores}
use zeroserv.Memcached.Tokens.{Token, word_token, tokenize_command}
use zeroserv.Memcached.Tokens.Words.{front, words, tokenize_command-words}

abbrev key_hash : List ℕ → ℕ
key_hash [] = 0
key_hash (ch ∷ key) = ch

abbrev sys : System
sys = record { room = true; fresh1 = 24; fresh2 = 0; garbage = [] }

-- The item that "set a 0 0 1" with the value "x" makes.
abbrev item_a : Item
item_a = record {
  next = 0;
  prev = 0;
  time = 0;
  exptime = 0;
  nbytes = 3;
  refcount = 1;
  nsuffix = 6;
  linked = false;
  deleted = false;
  nkey = 1;
  cas_id = 0;
  key = 97 ∷ [];
  suffix = 32 ∷ 48 ∷ 32 ∷ 49 ∷ 13 ∷ 10 ∷ [];
  contents = 120 ∷ 13 ∷ 10 ∷ [];
}

abbrev one_item : Heap
one_item = put_item 8 (some item_a) (λ a. none)

abbrev cache : Cache
cache = cache_init one_item 5000

one_item_idle :
    (a : ℕ) (i : Item)
    → indexed (one_item a) ≡ some i
    → (i.linked ≡ false) × (i.deleted ≡ false) × (i.exptime ≡ 0)
one_item_idle a i e = elim (Bool-cases (a == 8)) [
  | inl here ↦
      let same =
        some_inj (record item_a { refcount = 0 }) i
          (sym (ap (λ b. indexed (if b then some item_a else none)) here) ∙ e) in
      (
        ap (λ j. j.linked) (sym same),
        ap (λ j. j.deleted) (sym same),
        ap (λ j. j.exptime) (sym same),
      )
  | inr other ↦
      absurd (ground (arith, sym (ap (λ b. indexed (if b then some item_a else none)) other) ∙ e))
]

cache-IsCache : IsCache key_hash cache []
cache-IsCache = IsCache-cache_init key_hash one_item 5000 one_item_idle

do_store_item-Stores_example : Stores key_hash sys 8 item_a cache set
unfolding elem
do_store_item-Stores_example =
    do_store_item-Stores key_hash sys 8 item_a cache [] set cache-IsCache refl refl refl refl
      (λ a j m e. absurd (ground (arith, m)))

do_item_remove-Released_example :
    (c' : Cache) × (do_item_remove key_hash 8 cache ≡ ok c')
    × Released key_hash 8 item_a cache c' []
do_item_remove-Released_example =
    do_item_remove-Released key_hash 8 item_a cache [] cache-IsCache refl refl

abbrev entry_a : Entry
entry_a = record { item = 8; key = 97 ∷ [] }

-- A table of two buckets.
abbrev small_table : Assoc
small_table = record assoc_init { hashpower = 1 }

small_table-IsAssoc : IsAssoc key_hash small_table
small_table-IsAssoc = record {
  primary = IsPlaced-empty key_hash 1;
  growing = λ on. absurd (ground (arith, on));
  items = omega arith;
  power = omega arith;
}

assoc_insert-Inserted_example :
    Inserted key_hash entry_a small_table (assoc_insert key_hash true entry_a small_table)
unfolding assoc_find find_chain get_chain in_old
assoc_insert-Inserted_example =
    assoc_insert-Inserted key_hash true entry_a small_table small_table-IsAssoc refl

abbrev one_entry : Assoc
one_entry = assoc_insert key_hash true entry_a small_table

abbrev half_grown : Assoc
half_grown = assoc_expand key_hash true one_entry

half_grown-IsAssoc : IsAssoc key_hash half_grown
unfolding assoc_find find_chain get_chain in_old assoc_insert put_chain
half_grown-IsAssoc =
    IsAssoc-assoc_expand key_hash true one_entry
      (assoc_insert-Inserted key_hash true entry_a small_table small_table-IsAssoc refl).valid
      (omega arith)

moves-Finished_example : Finished key_hash half_grown (moves key_hash 1 half_grown)
unfolding assoc_expand do_assoc_move_next_bucket move_bucket assoc_insert put_chain get_chain in_old
moves-Finished_example = moves-Finished key_hash 1 half_grown half_grown-IsAssoc refl refl

abbrev some_calls : List Call
some_calls = insert true (record { item = 16; key = 98 ∷ [] }) ∷ delete (97 ∷ []) ∷ []

abbrev get_ok : Run Assoc → Assoc
get_ok (ok t) = t
get_ok (fault e) = assoc_init

assoc_expand-stuck_example : Begun one_entry (get_ok (run_calls key_hash some_calls half_grown))
unfolding assoc_expand do_assoc_move_next_bucket move_bucket move_chain assoc_insert put_chain
    get_chain in_old assoc_delete hashitem_before split_chain
assoc_expand-stuck_example =
    assoc_expand-stuck key_hash one_entry (get_ok (run_calls key_hash some_calls half_grown))
      some_calls (omega arith) refl

-- The list of the item at 8 alone.
abbrev one_link : Lists
one_link = record { heap = one_item; heads = 8; tails = 8; sizes = 1 }

one_link-IsLists : IsLists one_link (8 ∷ [])
unfolding elem distinct first last_from next_of prev_from
one_link-IsLists = record {
  nonzero = refl;
  distinct = refl;
  heads = refl;
  tails = refl;
  sizes = omega arith;
  nodes = λ a m. record {
    item = item_a;
    cell = ap (λ b. if b then some item_a else none) {y = true} (ground (arith, m));
    next = ground (arith, m);
    prev = ground (arith, m);
  };
}

item_unlink_q-Relinked_example :
    (s : Lists) × (item_unlink_q 8 one_link ≡ ok s) × Relinked one_link s (remove_first 8 (8 ∷ []))
unfolding elem
item_unlink_q-Relinked_example = item_unlink_q-Relinked 8 one_link (8 ∷ []) one_link-IsLists refl

-- "get a"
tokenize_command-words_example :
    (tokens : List Token) × (tokenize_command (103 ∷ 101 ∷ 116 ∷ 32 ∷ 97 ∷ []) 8 ≡ ok tokens)
    × (front tokens ≡ map word_token (take 7 (words (103 ∷ 101 ∷ 116 ∷ 32 ∷ 97 ∷ []))))
tokenize_command-words_example =
    tokenize_command-words (103 ∷ 101 ∷ 116 ∷ 32 ∷ 97 ∷ []) 8 (omega arith)

-- A server at the start, with an empty input buffer of 8 bytes.
abbrev idle : Server
idle = record {
  cache = cache;
  conn = record {
    state = conn_read;
    write_and_go = conn_read;
    item = 0;
    ritem = 0;
    rlbytes = 0;
    item_comm = 0;
    sbytes = 0;
    ib = buffer_init (replicate 8 0) 8;
    ob = buffer_init (replicate 8 0) 8;
    rd = true;
    wr = false;
  };
  errno = 0;
}

abbrev quiet : Socket
quiet = record { server = idle; net = []; ended = false; alive = true }

quiet-IsWaiting : IsWaiting quiet
unfolding buffer_init find_newline
quiet-IsWaiting = record {
  state = refl;
  valid = buffer_init-IsValid (replicate 8 0) 8 refl (omega arith);
  free = omega arith;
  partial = refl;
  net = refl;
  ended = refl;
}

mc_read_spins_example : mc_read key_hash sys 1 100 quiet ≡ ok none
mc_read_spins_example = mc_read_spins key_hash sys 1 100 quiet quiet-IsWaiting

-- The client sends eight bytes without a line end.
abbrev flooded : Socket
flooded = record quiet { net = replicate 8 97 ∷ [] }

flooded-IsFlooding : IsFlooding flooded
unfolding buffer_init find_newline
flooded-IsFlooding = record {
  state = refl;
  partial = refl;
  piece = replicate 8 97;
  later = [];
  net = refl;
  enough = omega arith;
}

mc_read_exits_example : mc_read key_hash sys 1 5 flooded ≡ fault exit_one
mc_read_exits_example =
    mc_read_exits key_hash sys 1 4 flooded
      (buffer_init-IsValid (replicate 8 0) 8 refl (omega arith)) (inl flooded-IsFlooding)

-- The cache with the item of "set a 0 0 1" stored.
abbrev stored_item : Item
stored_item = record item_a { linked = true; refcount = 0 }

abbrev stored : Cache
stored = record cache {
  lists = record { heap = put_item 8 (some stored_item) one_item; heads = 8; tails = 8; sizes = 1 };
  table = assoc_insert key_hash true entry_a cache.table;
  stats = record cache.stats { curr_items = 1 };
}

stored-IsLists : IsLists stored.lists (8 ∷ [])
unfolding elem distinct first last_from next_of prev_from
stored-IsLists = record {
  nonzero = refl;
  distinct = refl;
  heads = refl;
  tails = refl;
  sizes = omega arith;
  nodes = λ a m. record {
    item = stored_item;
    cell = ap (λ b. if b then some stored_item else one_item a) {y = true} (ground (arith, m));
    next = ground (arith, m);
    prev = ground (arith, m);
  };
}

stored-Inserted : Inserted key_hash entry_a cache.table stored.table
unfolding assoc_find find_chain get_chain in_old
stored-Inserted = assoc_insert-Inserted key_hash true entry_a cache.table cache-IsCache.table refl

stored-IsCache : IsCache key_hash stored (8 ∷ [])
unfolding assoc_find find_chain get_chain in_old assoc_insert put_chain elem
stored-IsCache = record {
  lists = stored-IsLists;
  table = stored-Inserted.valid;
  index =
      IsIndex-link key_hash (info cache) (info stored) cache.table stored.table [] 8
        (record stored_item { refcount = 0 }) cache-IsCache.index (λ a. ground arith)
        stored-Inserted.found refl (refl, refl) refl refl;
  items = omega arith;
  curr = omega arith;
}

abbrev get_a : List Token
get_a = word_token (103 ∷ 101 ∷ 116 ∷ []) ∷ word_token (97 ∷ []) ∷ []

abbrev serving : Server
serving = record idle {
  cache = stored;
  conn = record idle.conn { ob = buffer_init (replicate 32 0) 32 };
}

process_get_command-Answered_example :
    (s : Server) × (process_get_command key_hash get_a serving ≡ ok s)
    × Answered key_hash (97 ∷ []) serving s (8 ∷ [])
unfolding assoc_find find_chain get_chain in_old assoc_insert put_chain buffer_init
process_get_command-Answered_example =
    process_get_command-Answered key_hash get_a (word_token (97 ∷ [])) (97 ∷ []) serving (8 ∷ [])
      refl refl stored-IsCache refl (λ i e. subst IsWhole (some_inj stored_item i e) (omega arith))
      (omega arith)
