-- ===== src/Memcached/Items/Inv.antt =====
-- The invariant of the cache in src/handler/mc/items.c, and writes that keep the list.
use zeroserv.Prelude.{
  ℕ, ◌%◌, ◌≡◌, refl, sym, ap, ◌∙◌, true, false, List, Option, none, some, ◌==◌, if◌then◌else◌,
  arith, elem, Bool-cases, inl, inr, length, elem_differ,
}
use zeroserv.Memcached.Assoc.Inv.{IsAssoc}
use zeroserv.Memcached.Item.{Item, Heap, put_item}
use zeroserv.Memcached.Item.Update.{updated}
use zeroserv.Memcached.Lru.{Lists}
use zeroserv.Memcached.Lru.Cells.{IsLists, payload, map_item-some}
use zeroserv.Memcached.Items.{Cache, u32}
use zeroserv.Memcached.Items.Index.{Index, IsIndex, indexed, some_inj, same_cell}

abbrev pub info : Cache → Index
info c a = indexed (c.lists.heap a)

-- The linked items are `xs`, the latest first: the list, the hash table and the counts agree on it.
pub record IsCache (hash : List ℕ → ℕ) (c : Cache) (xs : List ℕ) : Type 0 where
  pub lists : IsLists c.lists xs
  pub table : IsAssoc hash c.table
  pub index : IsIndex hash (info c) c.table xs
  pub items : c.table.hash_items ≡ length xs % u32
  pub curr : c.stats.curr_items ≡ length xs % u32

pub indexed-payload : (o p : Option Item) → payload o ≡ payload p → indexed o ≡ indexed p
indexed-payload o p e = of_payload o ∙ ap indexed e ∙ sym (of_payload p)
  where
    of_payload : (o : Option Item) → indexed o ≡ indexed (payload o)
    of_payload none = refl
    of_payload (some i) = refl

-- Memory that differs in the item at `it`, and in places in the list.
pub indexed-change :
    (heap heap' : Heap) (it : ℕ) (o : Option Item)
    → payload (heap' it) ≡ payload o
    → ((a : ℕ) → (a == it) ≡ false → payload (heap' a) ≡ payload (heap a))
    → (a : ℕ) → indexed (heap' a) ≡ (if a == it then indexed o else indexed (heap a))
indexed-change heap heap' it o here others a = elim (Bool-cases (a == it)) [
  | inl e ↦
      ap indexed (same_cell heap' a it e) ∙ indexed-payload (heap' it) o here ∙ ground (arith, e)
  | inr e ↦ indexed-payload (heap' a) (heap a) (others a e) ∙ ground (arith, e)
]

pub indexed_known :
    (heap : Heap) (it : ℕ) (i : Item)
    → heap it ≡ some i
    → (a : ℕ) → (if a == it then indexed (some i) else indexed (heap a)) ≡ indexed (heap a)
indexed_known heap it i cell a = elim (Bool-cases (a == it)) [
  | inl e ↦
      ground (arith, e) ∙ ap indexed (sym cell) ∙ sym (same_cell (λ b. indexed (heap b)) a it e)
  | inr e ↦ ground (arith, e)
]

-- The item at an address, if all but its place is known.
pub record IsLive (o : Option Item) (i : Item) : Type 0 where
  pub item : Item
  pub cell : o ≡ some item
  pub same : record item { next = 0; prev = 0 } ≡ record i { next = 0; prev = 0 }

pub payload-IsLive : (o : Option Item) (i : Item) → payload o ≡ payload (some i) → IsLive o i
payload-IsLive none i e = absurd (ground (arith, e))
payload-IsLive (some j) i e = record {
  item = j;
  cell = refl;
  same = some_inj (record j { next = 0; prev = 0 }) (record i { next = 0; prev = 0 }) e;
}

-- Memory that holds the same items of the list, with the same places.
pub IsLists-agree :
    (s : Lists) (xs : List ℕ) (heap : Heap)
    → IsLists s xs
    → ((a : ℕ) (i : Item)
        → elem a xs ≡ true
        → s.heap a ≡ some i
        → (j : Item) × (heap a ≡ some j) × (j.next ≡ i.next) × (j.prev ≡ i.prev))
    → IsLists (record s { heap = heap }) xs
IsLists-agree s xs heap h agree = record {
  nonzero = h.nonzero;
  distinct = h.distinct;
  heads = h.heads;
  tails = h.tails;
  sizes = h.sizes;
  nodes = λ a k.
      let n = h.nodes a k in
      let (j, cell, next, prev) = agree a n.item k n.cell in
      record { item = j; cell = cell; next = next ∙ n.next; prev = prev ∙ n.prev };
}

pub IsLists-updated :
    (s : Lists) (xs : List ℕ) (p : ℕ) (change : Item → Item)
    → IsLists s xs
    → ((i : Item) → ((change i).next ≡ i.next) × ((change i).prev ≡ i.prev))
    → IsLists (record s { heap = updated p change s.heap }) xs
IsLists-updated s xs p change h keeps = IsLists-agree s xs (updated p change s.heap) h (λ a i k e.
    elim (Bool-cases (a == p)) [
      | inl here ↦ (
        change i,
        ground (arith, here, map_item-some change (s.heap a) i e),
        (keeps i).0,
        (keeps i).1,
      )
      | inr there ↦ (i, ground (arith, there, e), refl, refl)
    ])

-- Memory that differs in an item outside the list.
pub IsLists-put_item :
    (s : Lists) (xs : List ℕ) (p : ℕ) (o : Option Item)
    → IsLists s xs
    → elem p xs ≡ false
    → IsLists (record s { heap = put_item p o s.heap }) xs
IsLists-put_item s xs p o h off =
    IsLists-agree s xs (put_item p o s.heap) h
      (λ a i k e. (i, ground (arith, elem_differ a p xs k off, e), refl, refl))
