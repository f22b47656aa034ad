-- ===== src/Memcached/Store/Spec.antt =====
-- The map of keys to values that do_store_item in src/handler/memcached.c works on.
use zeroserv.Prelude.{ℕ, Bool, not, true, List, Option, none, some, if◌then◌else◌, same_text}
use zeroserv.Memcached.Assoc.{assoc_find}
use zeroserv.Memcached.Item.{Item, Heap}
use zeroserv.Memcached.Items.{Cache}
use zeroserv.Memcached.Store.{nread_add, nread_set, nread_replace}
use zeroserv.UtHash.{is_some}

-- A key is the list of its bytes, a value that of its bytes with the line end.
abbrev pub Map : Type 0
Map = List ℕ → Option (List ℕ)

abbrev pub put : List ℕ → List ℕ → Map → Map
put key value m k = if same_text k key then some value else m k

abbrev pub contents_of : Option Item → Option (List ℕ)
contents_of none = none
contents_of (some i) = some i.contents

abbrev pub contents_at : Heap → Option ℕ → Option (List ℕ)
contents_at heap none = none
contents_at heap (some it) = contents_of (heap it)

-- The values that the cache finds.
abbrev pub values : (List ℕ → ℕ) → Cache → Map
values hash c key = contents_at c.lists.heap (assoc_find hash key c.table)

-- The commands that store the item as it is.
pub data Command : Type 0 where
  add : Command
  set : Command
  replace : Command

abbrev pub comm_of : Command → ℕ
comm_of add = nread_add
comm_of set = nread_set
comm_of replace = nread_replace

-- Whether a command stores when a value is there, or not there.
abbrev pub stores : Command → Bool → Bool
stores add present = not present
stores set present = true
stores replace present = present

-- What a command returns, 1 for stored, and the map, if the key has a value or not.
abbrev pub spec_of : Command → Bool → List ℕ → List ℕ → Map → ℕ × Map
spec_of cmd present key value m = if stores cmd present then (1, put key value m) else (0, m)

abbrev pub store_spec : Command → List ℕ → List ℕ → Map → ℕ × Map
store_spec cmd key value m = spec_of cmd (is_some (m key)) key value m
