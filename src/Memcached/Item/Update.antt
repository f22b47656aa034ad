-- ===== src/Memcached/Item/Update.antt =====
-- Memory after writes to fields of items, for the items of src/handler/mc/type/item.h.
use zeroserv.Prelude.{
  ℕ, ◌≡◌, ap, ◌∙◌, fun_ext, true, false, Option, none, some, ◌==◌, if◌then◌else◌, arith, ok, ◌>>=◌,
}
use zeroserv.Memcached.Item.{Item, Heap, put_item, load_item, modify}

abbrev pub map_item : (Item → Item) → Option Item → Option Item
map_item change none = none
map_item change (some i) = some (change i)

-- The memory after `*p = ...`.
abbrev pub updated : ℕ → (Item → Item) → Heap → Heap
updated p change heap a = if a == p then map_item change (heap a) else heap a

pub load_item-cell :
    (p : ℕ) (heap : Heap) (i : Item) → (p == 0) ≡ false → heap p ≡ some i → load_item p heap ≡ ok i
unfolding load_item
load_item-cell p heap i z e = ground (arith, z, e)

pub modify-updated :
    (p : ℕ) (change : Item → Item) (heap : Heap) (i : Item)
    → (p == 0) ≡ false
    → heap p ≡ some i
    → modify p change heap ≡ ok (updated p change heap)
unfolding modify
modify-updated p change heap i z e =
    ap (λ r. r >>= λ it. ok (put_item p (some (change it)) heap)) (load_item-cell p heap i z e)
    ∙ ap ok (fun_ext (λ a. at_cell a))
  where
    same_cell : (a : ℕ) → (a == p) ≡ true → heap a ≡ heap p
    same_cell a h = ap heap (ground arith)

    at_cell : (a : ℕ) → put_item p (some (change i)) heap a ≡ updated p change heap a
    at_cell a = ground (arith, same_cell a, e)
