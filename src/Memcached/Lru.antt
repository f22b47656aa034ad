-- ===== src/Memcached/Lru.antt =====
-- src/handler/mc/items.c: the list of the linked items, the latest first, through their `next` and
-- `prev`. The children are about the order of a list of addresses (Order), the invariant (Cells),
-- and the two functions (Unlink, Link).
pub mod Order
pub mod Cells
pub mod Unlink
pub mod Link
use zeroserv.Prelude.{
  ℕ, ◌+◌, ◌-◌, ◌%◌, ◌^◌, Bool, true, false, ◌&&◌, ◌||◌, not, ◌==◌, if◌then◌else◌, Run, ok, ◌>>=◌,
  ◌>>◌, demand, assert_failed,
}
use zeroserv.Memcached.Item.{Item, Heap, load_item, modify}

-- The items in memory and the static variables `heads`, `tails` and `sizes`.
pub record Lists : Type 0 where
  pub heap : Heap
  pub heads : ℕ
  pub tails : ℕ
  pub sizes : ℕ

abbrev pub u32 : ℕ
u32 = 2 ^ 32

abbrev pub item_init : Heap → Lists
item_init heap = record { heap = heap; heads = 0; tails = 0; sizes = 0 }

-- `if (p) *p = ...`
unfoldable pub modify_if : ℕ → (Item → Item) → Heap → Run Heap
modify_if p change heap = if p == 0 then ok heap else modify p change heap

unfoldable pub item_link_q : ℕ → Lists → Run Lists
item_link_q it s = do
  demand (not (it == s.heads)) assert_failed
  demand ((not (s.heads == 0) && not (s.tails == 0)) || ((s.heads == 0) && (s.tails == 0)))
      assert_failed
  heap1 ← modify it (λ i. record i { prev = 0; next = s.heads }) s.heap
  heap2 ← modify_if s.heads (λ i. record i { prev = it }) heap1
  ok (record {
    heap = heap2;
    heads = it;
    tails = if s.tails == 0 then it else s.tails;
    sizes = (s.sizes + 1) % u32;
  })

unfoldable pub item_unlink_q : ℕ → Lists → Run Lists
item_unlink_q it s = do
  i ← load_item it s.heap
  demand (not (s.heads == it) || (i.prev == 0)) assert_failed
  demand (not (s.tails == it) || (i.next == 0)) assert_failed
  demand (not (i.next == it)) assert_failed
  demand (not (i.prev == it)) assert_failed
  heap1 ← modify_if i.next (λ j. record j { prev = i.prev }) s.heap
  heap2 ← modify_if i.prev (λ j. record j { next = i.next }) heap1
  ok (record {
    heap = heap2;
    heads = if s.heads == it then i.next else s.heads;
    tails = if s.tails == it then i.prev else s.tails;
    sizes = (s.sizes + u32 - 1) % u32;
  })
