-- ===== src/Memcached/Lru/Cells.antt =====
-- The list in src/handler/mc/items.c: the items in memory beside the list of addresses in order.
use zeroserv.Prelude.{
  ℕ, ◌%◌, ◌≡◌, refl, ap, fun_ext, Bool-cases, inl, inr, ◌∙◌, true, false, List, Option, none, some,
  ◌==◌, if◌then◌else◌, arith, elem, distinct, length, ok,
}
use zeroserv.Memcached.Item.{Item, Heap}
use zeroserv.Memcached.Item.Update.{map_item, updated, modify-updated}
use zeroserv.Memcached.Lru.{Lists, modify_if, u32}
use zeroserv.Memcached.Lru.Order.{first, last_from, next_of, prev_from}

pub record IsNode (heap : Heap) (xs : List ℕ) (a : ℕ) : Type 0 where
  pub item : Item
  pub cell : heap a ≡ some item
  pub next : item.next ≡ next_of a xs
  pub prev : item.prev ≡ prev_from 0 a xs

-- The items at the addresses `xs` are the list, from the head to the tail.
pub record IsLists (s : Lists) (xs : List ℕ) : Type 0 where
  pub nonzero : elem 0 xs ≡ false
  pub distinct : distinct xs ≡ true
  pub heads : s.heads ≡ first xs
  pub tails : s.tails ≡ last_from 0 xs
  pub sizes : s.sizes ≡ length xs % u32
  pub nodes : (a : ℕ) → elem a xs ≡ true → IsNode s.heap xs a

-- All of an item but its place in the list.
abbrev pub payload : Option Item → Option Item
payload none = none
payload (some i) = some (record i { next = 0; prev = 0 })

abbrev pub SamePayloads : Heap → Heap → Type 0
SamePayloads heap heap' = (a : ℕ) → payload (heap' a) ≡ payload (heap a)

-- The memory after `if (p) *p = ...`.
unfoldable pub updated_if : ℕ → (Item → Item) → Heap → Heap
updated_if p change heap a = if p == 0 then heap a else updated p change heap a

pub modify_if-updated :
    (p : ℕ) (change : Item → Item) (heap : Heap)
    → ((p == 0) ≡ false → (i : Item) × (heap p ≡ some i))
    → modify_if p change heap ≡ ok (updated_if p change heap)
unfolding modify_if updated_if
modify_if-updated p change heap live = elim (Bool-cases (p == 0)) [
  | inl z ↦
      ground (arith, z)
      ∙ ap ok {x = heap} (fun_ext {g = updated_if p change heap} (λ a. ground (arith, z)))
  | inr z ↦
      let (i, e) = live z in
      ground (arith, z)
      ∙ modify-updated p change heap i z e
      ∙ ap ok (fun_ext {g = updated_if p change heap} (λ a. ground (arith, z)))
]

pub map_item-some :
    (change : Item → Item) (o : Option Item) (i : Item)
    → o ≡ some i
    → map_item change o ≡ some (change i)
map_item-some change o i e = ap (map_item change) e

pub cell_updated_if :
    (p : ℕ) (change : Item → Item) (heap : Heap) (a : ℕ)
    → ((i : Item) × (heap a ≡ some i))
    → (i : Item) × (updated_if p change heap a ≡ some i)
unfolding updated_if
cell_updated_if p change heap a (i, e) = elim (Bool-cases (p == 0)) [
  | inl z ↦ (i, ground (arith, z, e))
  | inr z ↦ elim (Bool-cases (a == p)) [
    | inl here ↦ (change i, ground (arith, z, here, map_item-some change (heap a) i e))
    | inr there ↦ (i, ground (arith, z, there, e))
  ]
]

-- The fields of a live item after a write of one of them, if the pointer is not NULL.
pub updated_if_at :
    (p : ℕ) (change : Item → Item) (heap : Heap) (a : ℕ) (i : Item)
    → (a == 0) ≡ false
    → heap a ≡ some i
    → updated_if p change heap a ≡ some (if p == a then change i else i)
unfolding updated_if
updated_if_at p change heap a i z e = ground (arith, z, e, map_item-some change (heap a) i e)

pub payload-updated :
    (p : ℕ) (change : Item → Item) (heap : Heap) (a : ℕ)
    → ((i : Item) → payload (some (change i)) ≡ payload (some i))
    → payload (updated p change heap a) ≡ payload (heap a)
payload-updated p change heap a keeps =
    elim (a == p)
      as (λ b. payload (if b then map_item change (heap a) else heap a) ≡ payload (heap a)) [
        | true ↦ mapped (heap a)
        | false ↦ refl
      ]
  where
    mapped : (o : Option Item) → payload (map_item change o) ≡ payload o
    mapped none = refl
    mapped (some i) = keeps i

pub payload-updated_if :
    (p : ℕ) (change : Item → Item) (heap : Heap) (a : ℕ)
    → ((i : Item) → payload (some (change i)) ≡ payload (some i))
    → payload (updated_if p change heap a) ≡ payload (heap a)
unfolding updated_if
payload-updated_if p change heap a keeps =
    elim (p == 0)
      as (λ b. payload (if b then heap a else updated p change heap a) ≡ payload (heap a)) [
        | true ↦ refl
        | false ↦ payload-updated p change heap a keeps
      ]

-- What a function leaves that makes `xs` the list and changes nothing else of the items.
pub record Relinked (s s' : Lists) (xs : List ℕ) : Type 0 where
  pub lists : IsLists s' xs
  pub payloads : SamePayloads s.heap s'.heap

pub cell_updated :
    (p : ℕ) (change : Item → Item) (heap : Heap) (a : ℕ)
    → ((i : Item) × (heap a ≡ some i))
    → (i : Item) × (updated p change heap a ≡ some i)
cell_updated p change heap a (i, e) = elim (Bool-cases (a == p)) [
  | inl here ↦ (change i, ground (arith, here, map_item-some change (heap a) i e))
  | inr there ↦ (i, ground (arith, there, e))
]
