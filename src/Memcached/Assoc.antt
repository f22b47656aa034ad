-- ===== src/Memcached/Assoc.antt =====
-- src/handler/mc/assoc.c: the hash table of the cache. An item is its address and its key, and a
-- chain of `h_next` is the list of its items. The hash function (a copy of a published routine in
-- the same file) is the parameter `hash`, with the result a `uint32_t`; a table of pointers is a
-- function of the index, which is always taken under the table's mask. `room` says whether calloc
-- finds memory. The children are about chains (Chains), the invariant (Inv), lookups while the
-- table grows (Move, Expand), a changed chain (Put), insertion and deletion (Lookup), and the end
-- of an expansion (Finish).
pub mod Chains
pub mod Inv
pub mod Move
pub mod Put
pub mod Expand
pub mod Lookup
pub mod Finish
use zeroserv.Prelude.{
  ℕ, ◌+◌, ◌-◌, ◌*◌, ◌/◌, ◌%◌, ◌^◌, Bool, true, false, ◌&&◌, not, List, [], ◌∷◌, ◌++◌, Option, none,
  some, ltb, leb, ◌==◌, if◌then◌else◌, same_text, Run, ok, fault, assert_failed,
}

pub record Entry : Type 0 where
  pub item : ℕ
  pub key : List ℕ

abbrev pub Chain : Type 0
Chain = List Entry

abbrev pub Buckets : Type 0
Buckets = ℕ → Chain

-- `buckets[b] = chain`
abbrev pub put_bucket : ℕ → Chain → Buckets → Buckets
put_bucket b chain buckets a = if a == b then chain else buckets a

-- The static variables.
pub record Assoc : Type 0 where
  pub hashpower : ℕ
  pub primary_hashtable : Buckets
  pub old_hashtable : Buckets
  pub hash_items : ℕ
  pub expanding : Bool
  pub expand_bucket : ℕ

abbrev pub u32 : ℕ
u32 = 2 ^ 32

abbrev pub assoc_init : Assoc
assoc_init = record {
  hashpower = 16;
  primary_hashtable = λ b. [];
  old_hashtable = λ b. [];
  hash_items = 0;
  expanding = false;
  expand_bucket = 0;
}

-- The loop of assoc_find over the chain.
unfoldable pub find_chain : List ℕ → Chain → Option ℕ
find_chain key [] = none
find_chain key (e ∷ chain) = if same_text key e.key then some e.item else find_chain key chain

-- The loop of _hashitem_before: the part of the chain before the position, and the rest from it.
unfoldable pub split_chain : List ℕ → Chain → Chain × Chain
split_chain key [] = ([], [])
split_chain key (e ∷ chain) =
    let (before, rest) = split_chain key chain in
    if same_text key e.key then ([], e ∷ chain) else (e ∷ before, rest)

module _ (hash : List ℕ → ℕ) where
  -- `hash(...) & hashmask(n)`
  abbrev pub bucket_of : List ℕ → ℕ → ℕ
  bucket_of key n = hash key % 2 ^ n

  -- Whether the key is looked for in the old table: it has not been moved yet.
  unfoldable pub in_old : List ℕ → Assoc → Bool
  in_old key t = t.expanding && leb t.expand_bucket (bucket_of key (t.hashpower - 1))

  unfoldable pub get_chain : List ℕ → Assoc → Chain
  get_chain key t =
      if in_old key t
      then t.old_hashtable (bucket_of key (t.hashpower - 1))
      else t.primary_hashtable (bucket_of key t.hashpower)

  unfoldable pub put_chain : List ℕ → Chain → Assoc → Assoc
  put_chain key chain t =
      if in_old key t
      then record t {
        old_hashtable = put_bucket (bucket_of key (t.hashpower - 1)) chain t.old_hashtable;
      }
      else record t {
        primary_hashtable = put_bucket (bucket_of key t.hashpower) chain t.primary_hashtable;
      }

  unfoldable pub assoc_find : List ℕ → Assoc → Option ℕ
  assoc_find key t = find_chain key (get_chain key t)

  unfoldable pub hashitem_before : List ℕ → Assoc → Chain × Chain
  hashitem_before key t = split_chain key (get_chain key t)

  -- The loop of do_assoc_move_next_bucket: each item goes to the front of its new bucket. `int bucket`
  -- holds its number as long as the power is below 32.
  unfoldable pub move_chain : ℕ → Chain → Buckets → Buckets
  move_chain power [] buckets = buckets
  move_chain power (e ∷ chain) buckets =
      let b = bucket_of e.key power in move_chain power chain (put_bucket b (e ∷ buckets b) buckets)

  -- The body of the test `if (expanding)`.
  unfoldable pub move_bucket : Assoc → Assoc
  move_bucket t = record t {
    primary_hashtable =
        move_chain t.hashpower (t.old_hashtable t.expand_bucket) t.primary_hashtable;
    old_hashtable = put_bucket t.expand_bucket [] t.old_hashtable;
    expand_bucket = (t.expand_bucket + 1) % u32;
    expanding = not ((t.expand_bucket + 1) % u32 == 2 ^ (t.hashpower - 1));
  }

  unfoldable pub do_assoc_move_next_bucket : Assoc → Assoc
  do_assoc_move_next_bucket t = if t.expanding then move_bucket t else t

  unfoldable pub assoc_expand : Bool → Assoc → Assoc
  assoc_expand room t =
      if room
      then do_assoc_move_next_bucket (record t {
        old_hashtable = t.primary_hashtable;
        primary_hashtable = λ b. [];
        hashpower = t.hashpower + 1;
        expanding = true;
        expand_bucket = 0;
      })
      else t

  unfoldable pub assoc_insert : Bool → Entry → Assoc → Assoc
  assoc_insert room e t =
      let t' = put_chain e.key (e ∷ get_chain e.key t) t in
      let t'' : Assoc = record t' { hash_items = (t.hash_items + 1) % u32 } in
      if not t.expanding && ltb (2 ^ t.hashpower * 3 / 2) t''.hash_items
      then assoc_expand room t''
      else t''

  -- `assert(*before != 0)` is reached when the key is not found.
  unfoldable pub assoc_delete : List ℕ → Assoc → Run Assoc
  assoc_delete key t =
      let (before, rest) = hashitem_before key t in
      elim rest [
        | [] ↦ fault assert_failed
        | e ∷ nxt ↦
            let t' = put_chain key (before ++ nxt) t in
            ok (record t' { hash_items = (t.hash_items + u32 - 1) % u32 })
      ]
