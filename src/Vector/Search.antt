-- ===== src/Vector/Search.antt =====
-- src/common/vector.h: `vector_is_exist` and `vector_remove` against the list of the stored
-- pointers.
use zeroserv.Prelude.{
  ℕ, zero, suc, ◌+◌, ◌-◌, ◌≤◌, ◌<◌, ◌≡◌, refl, ap, ◌∙◌, List, [], ◌∷◌, ◌++◌, none, some, true,
  false, ◌==◌, if◌then◌else◌, length, take, drop, arith, Bool-cases, inl, inr, elem, remove_first,
}
use zeroserv.Prelude.{
  ok, fault, out_of_bounds, take-append_left, length-take, length-drop, length-append, take-take,
  sym, remove_first_absent,
}
use zeroserv.Vector.{Vector, vector_scan, move_down, vector_remove, vector_is_exist}
use zeroserv.Vector.Grow.{IsValid, contents}

-- Where the loop finds the object: the index, and what moving the words behind it down leaves.
record Found (object : ℕ) (ws : List ℕ) (n : ℕ) (k : ℕ) : Type 0 where
  inside : k < n
  left :
      (rest : List ℕ)
      → n < length ws
      → take (n - 1) (take k ws ++ (take (n - k) (drop (suc k) ws) ++ rest))
        ≡ remove_first object (take n ws)

left_here :
    (ws rest : List ℕ) (n : ℕ)
    → suc n ≤ length ws
    → take (suc n - 1) (take (suc n - 0) ws ++ rest) ≡ take n ws
left_here ws rest n h =
    let one_less : suc n - 1 ≡ n = omega arith in
    let all : suc n - 0 ≡ suc n = omega arith in
    rw (one_less, all)
      (take-append_left n (take (suc n) ws) rest (omega (arith, length-take (suc n) ws))
        ∙ take-take n (suc n) ws (omega arith))

left_step :
    (w : ℕ) (ws rest moved : List ℕ) (n k : ℕ)
    → k < n
    → take (n - 1) (take k ws ++ (take (n - k) (drop (suc k) ws) ++ rest)) ≡ moved
    → take (suc n - 1) (w ∷ (take k ws ++ (take (suc n - suc k) (drop (suc k) ws) ++ rest)))
      ≡ w ∷ moved
left_step w ws rest moved zero k h e = elim h [ ]
left_step w ws rest moved (suc m) k h e =
    let one_less : suc (suc m) - 1 ≡ suc m = omega arith in
    let less : suc (suc m) - suc k ≡ suc m - k = omega arith in
    let before : suc m - 1 ≡ m = omega arith in rw (one_less, less) (ap (◌∷◌ w) (rw before at e))

scan_absent :
    (object : ℕ) (ws : List ℕ) (idx n : ℕ)
    → n ≤ length ws
    → elem object (take n ws) ≡ false
    → vector_scan object ws idx n ≡ ok none
unfolding vector_scan elem
scan_absent object ws idx zero h e = refl
scan_absent object [] idx (suc n) h e = absurd (omega arith)
scan_absent object (w ∷ ws) idx (suc n) h e = ground (arith, scan_absent object ws (idx + 1) n)

scan_Found :
    (object : ℕ) (ws : List ℕ) (idx n : ℕ)
    → n ≤ length ws
    → elem object (take n ws) ≡ true
    → (k : ℕ) × (vector_scan object ws idx n ≡ ok (some (idx + k))) × Found object ws n k
unfolding vector_scan elem remove_first
scan_Found object ws idx zero h e = absurd (ground arith)
scan_Found object [] idx (suc n) h e = absurd (omega arith)
scan_Found object (w ∷ ws) idx (suc n) h e = elim (Bool-cases (w == object)) [
  | inl here ↦ (
    0,
    rw here (ap (λ i. ok (some i)) (omega arith)),
    record {
      inside = omega arith;
      left = λ rest room. rw here (left_here ws rest n (omega arith));
    },
  )
  | inr other ↦
      let (k, run, f) = scan_Found object ws (idx + 1) n (omega arith) (ground arith) in
      (
        suc k,
        rw other (run ∙ ap (λ i. ok (some i)) (omega arith)),
        record {
          inside = omega (arith, f.inside);
          left = λ rest room. rw other (
              left_step w ws rest (remove_first object (take n ws)) n k f.inside
                (f.left rest (omega arith)));
        },
      )
]

-- On a valid vector `vector_is_exist` says whether the object is among the stored pointers.
pub vector_is_exist-elem :
    {v : Vector} (object : ℕ) → IsValid v → vector_is_exist v object ≡ ok (elem object (contents v))
unfolding vector_is_exist
vector_is_exist-elem {v} object h = elim (Bool-cases (elem object (contents v))) [
  | inr absent ↦
      rw absent
        (ground (arith, h.some_room, scan_absent object v.words 0 v.size (omega arith) absent))
  | inl there ↦
      let (k, run, f) = scan_Found object v.words 0 v.size (omega arith) there in
      rw there (ground (arith, h.some_room, run))
]

move_down_fits :
    (ws : List ℕ) (idx n : ℕ)
    → idx + 1 + n ≤ length ws
    → move_down ws idx n ≡ ok (take idx ws ++ (take n (drop (suc idx) ws) ++ drop (idx + n) ws))
unfolding move_down
move_down_fits ws idx n h = let next : idx + 1 ≡ suc idx = omega arith in rw next (ground arith)

length-moved :
    (ws : List ℕ) (idx n : ℕ)
    → idx + 1 + n ≤ length ws
    → length (take idx ws ++ (take n (drop (suc idx) ws) ++ drop (idx + n) ws)) ≡ length ws
length-moved ws idx n h =
    rw
      (
        length-append (take idx ws),
        length-append (take n (drop (suc idx) ws)),
        length-take,
        length-take,
        length-drop,
        length-drop,
      )
      (omega arith)

-- What `vector_remove` gives where there is a slot behind the stored pointers.
pub record Removed (v : Vector) (object : ℕ) (w : Vector) : Type 0 where
  pub valid : IsValid w
  pub same_capacity : w.capacity ≡ v.capacity
  pub left : contents w ≡ remove_first object (contents v)
  pub rest :
      w ≡ (if elem object (contents v) then record v { words = w.words; size = v.size - 1 } else v)

-- On a valid vector that is not full `vector_remove` removes the first occurrence of the object and
-- returns 0, where only the words and the size change, or returns 1 and changes nothing if the
-- object is not stored. The vector stays valid.
pub vector_remove-Removed :
    {v : Vector} (object : ℕ)
    → IsValid v
    → v.size < v.capacity
    → (w : Vector) × (vector_remove v object ≡ ok ((if elem object (contents v) then 0 else 1), w))
      × Removed v object w
unfolding vector_remove
vector_remove-Removed {v} object h room = elim (Bool-cases (elem object (contents v))) [
  | inr absent ↦ (
    v,
    rw absent
        (ground (arith, h.some_room, scan_absent object v.words 0 v.size (omega arith) absent)),
    record {
      valid = h;
      same_capacity = refl;
      left = sym (remove_first_absent object (contents v) absent);
      rest = rw absent;
    },
  )
  | inl there ↦
      let (k, run, f) = scan_Found object v.words 0 v.size (omega arith) there in
      let n = v.size - k in
      let fits : k + 1 + n ≤ length v.words = omega (arith, f.inside) in
      let moved : List ℕ =
        take k v.words ++ (take n (drop (suc k) v.words) ++ drop (k + n) v.words) in
      (
        record v { words = moved; size = v.size - 1 },
        rw there (ground (arith, h.some_room, run, move_down_fits v.words k n fits)),
        record {
          valid = record {
            some_room = h.some_room;
            fits = omega arith;
            block = length-moved v.words k n fits ∙ h.block;
            grows = h.grows;
            fraction = h.fraction;
          };
          same_capacity = refl;
          left = f.left (drop (k + n) v.words) (omega arith);
          rest = rw there;
        },
      )
]

-- On a full vector the move reads one word behind the block: removing any stored pointer faults.
pub vector_remove_full :
    {v : Vector} (object : ℕ)
    → IsValid v
    → v.size ≡ v.capacity
    → elem object (contents v) ≡ true
    → vector_remove v object ≡ fault out_of_bounds
unfolding vector_remove move_down
vector_remove_full {v} object h full there =
    let (k, run, f) = scan_Found object v.words 0 v.size (omega arith) there in
    ground (arith, h.some_room, h.block, run, f.inside)
