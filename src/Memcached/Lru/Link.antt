-- ===== src/Memcached/Lru/Link.antt =====
-- item_link_q in src/handler/mc/items.c.
use zeroserv.Prelude.{
  ℕ, ◌+◌, ◌%◌, ◌≡◌, refl, subst, Bool-cases, inl, inr, ◌∙◌, true, false, ◌&&◌, ◌||◌, not, List, [],
  ◌∷◌, some, ◌==◌, if◌then◌else◌, arith, elem, distinct, ok, elem_differ,
}
use zeroserv.Memcached.Item.{Item}
use zeroserv.Memcached.Item.Update.{updated, modify-updated}
use zeroserv.Memcached.Lru.{Lists, item_link_q, u32}
use zeroserv.Memcached.Lru.Order.{
  first, last_from, next_of, prev_from, elem-first, elem-last_from, prev_from_shift,
}
use zeroserv.Memcached.Lru.Cells.{
  IsNode, IsLists, Relinked, updated_if, modify_if-updated, map_item-some, cell_updated,
  updated_if_at, payload-updated_if, payload-updated,
}

not_first : (it : ℕ) (xs : List ℕ) → elem it (0 ∷ xs) ≡ false → (it == first xs) ≡ false
unfolding first elem
not_first it [] h = ground arith
not_first it (x ∷ xs) h = ground arith

both_ends :
    (xs : List ℕ)
    → elem 0 xs ≡ false
    → ((not (first xs == 0) && not (last_from 0 xs == 0))
        || ((first xs == 0) && (last_from 0 xs == 0)))
      ≡ true
unfolding first last_from elem
both_ends [] z = refl
both_ends (x ∷ xs) z = ground (arith, elem_differ (last_from x xs) 0 (x ∷ xs), elem-last_from x xs)

last_shift :
    (p : ℕ) (xs : List ℕ)
    → elem 0 xs ≡ false
    → (if last_from 0 xs == 0 then p else last_from 0 xs) ≡ last_from p xs
unfolding last_from elem
last_shift p [] z = refl
last_shift p (x ∷ xs) z =
    ground (arith, elem_differ (last_from x xs) 0 (x ∷ xs), elem-last_from x xs)

head_live :
    (s : Lists) (xs : List ℕ)
    → IsLists s xs
    → (s.heads == 0) ≡ false
    → (i : Item) × (s.heap s.heads ≡ some i)
head_live s xs h e =
    let n = h.nodes s.heads (ground (arith, e, h.heads, elem-first xs)) in (n.item, n.cell)

module _ (it : ℕ) where
  -- What item_link_q leaves.
  pushed : Lists → Lists
  pushed s = record {
    heap =
        updated_if s.heads (λ j. record j { prev = it })
          (updated it (λ i. record i { prev = 0; next = s.heads }) s.heap);
    heads = it;
    tails = if s.tails == 0 then it else s.tails;
    sizes = (s.sizes + 1) % u32;
  }

  link_runs :
      (s : Lists) (xs : List ℕ) (i : Item)
      → IsLists s xs
      → elem it (0 ∷ xs) ≡ false
      → s.heap it ≡ some i
      → item_link_q it s ≡ ok (pushed s)
  unfolding item_link_q pushed elem
  link_runs s xs i h new live =
      let z : (it == 0) ≡ false = ground (arith, new) in
      let apart : not (it == s.heads) ≡ true = ground (arith, h.heads, not_first it xs new) in
      let ends : ((not (s.heads == 0) && not (s.tails == 0)) || ((s.heads == 0) && (s.tails == 0)))
          ≡ true =
        ground (arith, h.heads, h.tails, both_ends xs h.nonzero) in
      let heap1 = updated it (λ i. record i { prev = 0; next = s.heads }) s.heap in
      rw
        (
          apart,
          ends,
          modify-updated it (λ i. record i { prev = 0; next = s.heads }) s.heap i z live,
          modify_if-updated s.heads (λ j. record j { prev = it }) heap1
              (λ e.
                cell_updated it (λ i. record i { prev = 0; next = s.heads }) s.heap s.heads
                  (head_live s xs h e)),
        )
        refl

  IsNode-pushed :
      (s : Lists) (xs : List ℕ) (i : Item) (a : ℕ)
      → IsLists s xs
      → elem it (0 ∷ xs) ≡ false
      → s.heap it ≡ some i
      → elem a (it ∷ xs) ≡ true
      → IsNode (pushed s).heap (it ∷ xs) a
  unfolding pushed elem next_of prev_from
  IsNode-pushed s xs i a h new live k =
      let change : Item → Item = λ i. record i { prev = 0; next = s.heads } in
      let heap1 = updated it change s.heap in
      let back : Item → Item = λ j. record j { prev = it } in
      elim (Bool-cases (it == a)) [
        | inl here ↦
            subst (λ b. IsNode (pushed s).heap (it ∷ xs) b) {x = it} (ground (arith, here))
              (record {
                item = change i;
                cell =
                    updated_if_at s.heads back heap1 it (change i) (ground (arith, new))
                      (ground (arith, map_item-some change (s.heap it) i live))
                    ∙ ground (arith, h.heads, not_first it xs new);
                next = ground (arith, h.heads);
                prev = ground arith;
              })
        | inr there ↦
            let m : elem a xs ≡ true = ground (arith, k, there) in
            let o = h.nodes a m in
            let j = o.item in
            record {
              item = if s.heads == a then back j else j;
              cell =
                  updated_if_at s.heads back heap1 a j (elem_differ a 0 xs m h.nonzero)
                    (ground (arith, there, o.cell));
              next = ground (arith, there, o.next);
              prev = ground (arith, there, h.heads, o.prev, prev_from_shift it a xs m);
            }
      ]

-- On a valid list, item_link_q of a live item outside the list passes its asserts, leaves a valid
-- list with the item in front of the others, and changes nothing of any item but its place.
pub item_link_q-Relinked :
    (it : ℕ) (s : Lists) (xs : List ℕ) (i : Item)
    → IsLists s xs
    → elem it (0 ∷ xs) ≡ false
    → s.heap it ≡ some i
    → (s' : Lists) × (item_link_q it s ≡ ok s') × Relinked s s' (it ∷ xs)
unfolding elem distinct first last_from pushed
item_link_q-Relinked it s xs i h new live = (
  pushed it s,
  link_runs it s xs i h new live,
  record {
    lists = record {
      nonzero = ground (arith, new, h.nonzero);
      distinct = ground (arith, new, h.distinct);
      heads = refl;
      tails = ground (arith, h.tails, last_shift it xs h.nonzero);
      sizes = omega (arith, h.sizes);
      nodes = λ a k. IsNode-pushed it s xs i a h new live k;
    };
    payloads = λ a.
        payload-updated_if s.heads (λ j. record j { prev = it })
          (updated it (λ i. record i { prev = 0; next = s.heads }) s.heap) a (λ j. refl)
        ∙ payload-updated it (λ i. record i { prev = 0; next = s.heads }) s.heap a (λ j. refl);
  },
)
