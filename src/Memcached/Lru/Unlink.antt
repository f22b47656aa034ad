-- ===== src/Memcached/Lru/Unlink.antt =====
-- item_unlink_q in src/handler/mc/items.c.
use zeroserv.Prelude.{
  ℕ, ◌+◌, ◌-◌, ◌%◌, ◌≡◌, refl, ◌∙◌, true, false, ◌||◌, not, List, ◌∷◌, some, ◌==◌, if◌then◌else◌,
  arith, elem, distinct, remove_first, ok, distinct-remove_first, elem-remove_first_ne,
  length-remove_first, elem-remove_first→elem, elem_differ,
}
use zeroserv.Memcached.Item.{Item}
use zeroserv.Memcached.Item.Update.{load_item-cell}
use zeroserv.Memcached.Lru.{Lists, item_unlink_q, u32}
use zeroserv.Memcached.Lru.Order.{
  next_of, prev_from, elem-prev_from_member, elem-next_of, prev-next, prev_from_head, next_of_last,
  next_of_ne, next_of-remove_first, prev_from-remove_first, first-remove_first,
  last_from-remove_first,
}
use zeroserv.Memcached.Lru.Cells.{
  IsNode, IsLists, SamePayloads, Relinked, updated_if, modify_if-updated, cell_updated_if,
  updated_if_at, payload-updated_if,
}

prev_in :
    (a : ℕ) (xs : List ℕ)
    → elem a xs ≡ true
    → ((0 == prev_from 0 a xs) || elem (prev_from 0 a xs) xs) ≡ true
unfolding elem
prev_in a xs m = elem-prev_from_member 0 a xs m

distinct-zero : (xs : List ℕ) → elem 0 xs ≡ false → distinct xs ≡ true → distinct (0 ∷ xs) ≡ true
unfolding distinct
distinct-zero xs z d = ground (arith, z, d)

-- The item before `x` is the one that has `x` behind it.
turn :
    (a x : ℕ) (xs : List ℕ)
    → distinct xs ≡ true
    → elem 0 xs ≡ false
    → elem x xs ≡ true
    → elem a xs ≡ true
    → (prev_from 0 x xs == a) ≡ (next_of a xs == x)
unfolding elem next_of
turn a x xs d z h k =
    ground
      (arith, elem_differ a 0 xs, prev-next 0 a x xs (distinct-zero xs z d) z h (ground (arith, k)))

module _ (it : ℕ) where
  -- What item_unlink_q leaves for the item `i` at `it`.
  unlinked : Item → Lists → Lists
  unlinked i s = record {
    heap =
        updated_if i.prev (λ j. record j { next = i.next })
          (updated_if i.next (λ j. record j { prev = i.prev }) s.heap);
    heads = if s.heads == it then i.next else s.heads;
    tails = if s.tails == it then i.prev else s.tails;
    sizes = (s.sizes + u32 - 1) % u32;
  }

  unlink_asserts :
      (s : Lists) (xs : List ℕ) (n : IsNode s.heap xs it)
      → IsLists s xs
      → elem it xs ≡ true
      → ((it == 0) ≡ false)
        × ((not (s.heads == it) || (n.item.prev == 0)) ≡ true)
        × ((not (s.tails == it) || (n.item.next == 0)) ≡ true)
        × (not (n.item.next == it) ≡ true)
        × (not (n.item.prev == it) ≡ true)
  unfolding distinct elem next_of
  unlink_asserts s xs n h m =
      let z : (it == 0) ≡ false = elem_differ it 0 xs m h.nonzero in
      let self = next_of_ne it xs h.distinct h.nonzero m in
      (
        z,
        ground (arith, h.heads, n.prev, prev_from_head 0 it xs),
        ground
            (arith, h.tails, n.next, next_of_last 0 it xs (distinct-zero xs h.nonzero h.distinct)),
        ground (arith, n.next, self),
        ground (arith, n.prev, turn it it xs h.distinct h.nonzero m m, self),
      )

  unlink_runs :
      (s : Lists) (xs : List ℕ) (n : IsNode s.heap xs it)
      → IsLists s xs
      → elem it xs ≡ true
      → item_unlink_q it s ≡ ok (unlinked n.item s)
  unfolding item_unlink_q unlinked
  unlink_runs s xs n h m =
      let i = n.item in
      let (z, head, tail, next, prev) = unlink_asserts s xs n h m in
      let live : (a : ℕ) → elem a xs ≡ true → (j : Item) × (s.heap a ≡ some j) =
        λ a e. ((h.nodes a e).item, (h.nodes a e).cell) in
      let first_write =
        modify_if-updated i.next (λ j. record j { prev = i.prev }) s.heap
          (λ e. live i.next (ground (arith, e, n.next, elem-next_of it xs))) in
      let heap1 = updated_if i.next (λ j. record j { prev = i.prev }) s.heap in
      let second_write =
        modify_if-updated i.prev (λ j. record j { next = i.next }) heap1
          (λ e.
            cell_updated_if i.next (λ j. record j { prev = i.prev }) s.heap i.prev
              (live i.prev (ground (arith, e, n.prev, prev_in it xs m)))) in
      rw (load_item-cell it s.heap i z n.cell, head, tail, next, prev, first_write, second_write)
        refl

  SamePayloads-unlinked : (i : Item) (s : Lists) → SamePayloads s.heap (unlinked i s).heap
  unfolding unlinked
  SamePayloads-unlinked i s a =
      payload-updated_if i.prev (λ j. record j { next = i.next })
        (updated_if i.next (λ j. record j { prev = i.prev }) s.heap) a (λ j. refl)
      ∙ payload-updated_if i.next (λ j. record j { prev = i.prev }) s.heap a (λ j. refl)

  IsNode-unlinked :
      (s : Lists) (xs : List ℕ) (n : IsNode s.heap xs it) (a : ℕ)
      → IsLists s xs
      → elem it xs ≡ true
      → elem a xs ≡ true
      → (it == a) ≡ false
      → IsNode (unlinked n.item s).heap (remove_first it xs) a
  unfolding unlinked elem
  IsNode-unlinked s xs n a h m k ne =
      let i = n.item in
      let o = h.nodes a k in
      let j = o.item in
      let z = elem_differ a 0 xs k h.nonzero in
      let j1 : Item = if i.next == a then record j { prev = i.prev } else j in
      let j2 : Item = if i.prev == a then record j1 { next = i.next } else j1 in
      record {
        item = j2;
        cell =
            updated_if_at i.prev (λ j. record j { next = i.next })
              (updated_if i.next (λ j. record j { prev = i.prev }) s.heap) a j1 z
              (updated_if_at i.next (λ j. record j { prev = i.prev }) s.heap a j z o.cell);
        next = ground (
          arith,
          n.next,
          o.next,
          n.prev,
          turn a it xs h.distinct h.nonzero m k,
          next_of-remove_first it a xs h.distinct h.nonzero ne m,
        );
        prev = ground (
          arith,
          n.next,
          o.prev,
          n.prev,
          turn it a xs h.distinct h.nonzero k m,
          prev_from-remove_first it 0 a xs (distinct-zero xs h.nonzero h.distinct) h.nonzero ne
              (elem_differ it 0 xs m h.nonzero) m,
        );
      }

-- On a valid list, item_unlink_q of an item of the list passes its asserts, leaves a valid list
-- without the item and with the others in their order, and changes nothing of any item but its
-- place.
pub item_unlink_q-Relinked :
    (it : ℕ) (s : Lists) (xs : List ℕ)
    → IsLists s xs
    → elem it xs ≡ true
    → (s' : Lists) × (item_unlink_q it s ≡ ok s') × Relinked s s' (remove_first it xs)
unfolding unlinked
item_unlink_q-Relinked it s xs h m =
    let n = h.nodes it m in
    let (once, gone) = distinct-remove_first it xs h.distinct in
    let z = elem_differ it 0 xs m h.nonzero in
    (
      unlinked it n.item s,
      unlink_runs it s xs n h m,
      record {
        lists = record {
          nonzero = ground (arith, z, elem-remove_first_ne 0 it xs, h.nonzero);
          distinct = once;
          heads = ground (arith, h.heads, n.next, first-remove_first it xs m);
          tails = ground (
            arith,
            h.tails,
            n.prev,
            last_from-remove_first it 0 xs (distinct-zero xs h.nonzero h.distinct) m,
          );
          sizes = omega (arith, h.sizes, length-remove_first it xs m);
          nodes = λ a k. IsNode-unlinked it s xs n a h m (member a k) (other a k gone);
        };
        payloads = SamePayloads-unlinked it n.item s;
      },
    )
  where
    other :
        (a : ℕ)
        → elem a (remove_first it xs) ≡ true
        → elem it (remove_first it xs) ≡ false
        → (it == a) ≡ false
    other a k gone = ground (arith, elem_differ a it (remove_first it xs) k gone)

    member : (a : ℕ) → elem a (remove_first it xs) ≡ true → elem a xs ≡ true
    member a k = elem-remove_first→elem a it xs k
