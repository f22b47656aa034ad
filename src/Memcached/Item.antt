-- ===== src/Memcached/Item.antt =====
-- src/handler/mc/type/item.h and items.h: the items of the cache, in memory that malloc gives. The
-- hash chain through `h_next` is the list of the model of assoc.c, the two bits of `it_flags` are
-- two fields, and `slabs_clsid`, which no call of malloc's memory reads, is left out.
pub mod Update
use zeroserv.Prelude.{
  ℕ, ◌+◌, ◌%◌, ◌^◌, Bool, List, Option, none, some, ◌==◌, if◌then◌else◌, Run, ok, fault, ◌>>=◌,
  null_pointer, out_of_bounds,
}

-- `struct _stritem`; `key`, `suffix` and `contents` are the parts of `end`.
pub record Item : Type 0 where
  pub next : ℕ
  pub prev : ℕ
  pub time : ℕ
  pub exptime : ℕ
  pub nbytes : ℕ
  pub refcount : ℕ
  pub nsuffix : ℕ
  pub linked : Bool
  pub deleted : Bool
  pub nkey : ℕ
  pub cas_id : ℕ
  pub key : List ℕ
  pub suffix : List ℕ
  pub contents : List ℕ

-- What malloc gave out and free did not take back.
abbrev pub Heap : Type 0
Heap = ℕ → Option Item

abbrev pub put_item : ℕ → Option Item → Heap → Heap
put_item p cell heap a = if a == p then cell else heap a

-- A read of `*p`.
unfoldable pub load_item : ℕ → Heap → Run Item
load_item p heap =
    if p == 0
    then fault null_pointer
    else elim (heap p) [ none ↦ fault out_of_bounds | some it ↦ ok it ]

-- A write of fields of `*p`.
unfoldable pub modify : ℕ → (Item → Item) → Heap → Run Heap
modify p change heap = do it ← load_item p heap; ok (put_item p (some (change it)) heap)

-- `sizeof (struct _stritem)`: six padding bytes stand before `cas_id`.
abbrev pub sizeof_item : ℕ
sizeof_item = 56

-- `ITEM_ntotal(item)`
unfoldable pub item_ntotal : Item → ℕ
item_ntotal it = sizeof_item + it.nkey + 1 + it.nsuffix + it.nbytes
