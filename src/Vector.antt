-- ===== src/Vector.antt =====
-- src/common/vector.h: the growing array of pointers that holds members, subscriptions and
-- sockets. A pointer is a number and NULL is 0; `data` is the block of words, so that index `i`
-- stands for ELEM(i) and `type_size` (always sizeof (void *)) cancels. The float `growth_factor`
-- is a fraction: for the factors in use (2 and 1.25) and capacities below 2 ^ 22 the float
-- product is exact. The children are about `vector_insert` and `vector_access` (Grow), and
-- `vector_remove` and `vector_is_exist` (Search).
pub mod Grow
pub mod Search
mod Tests
use zeroserv.Prelude.{
  ℕ, zero, suc, ◌+◌, ◌-◌, ◌*◌, ◌/◌, Bool, true, false, not, List, [], ◌∷◌, ◌++◌, Option, none, some,
  ◌==◌, ltb, leb, if◌then◌else◌, length, take, drop, set,
}
use zeroserv.Prelude.{
  ℤ, pos, negsuc, Run, ok, fault, out_of_bounds, assert_failed, ◌>>=◌, ◌>>◌, demand, load,
  signed_overflow, ◌^◌,
}

-- `struct vector`; `growth_factor` is `growth_num / growth_den`.
pub record Vector : Type 0 where
  pub words : List ℕ
  pub growth_num : ℕ
  pub growth_den : ℕ
  pub size : ℕ
  pub capacity : ℕ

-- The allocator: whether it gives a block of so many words, and what stands in a slot before it is
-- written.
pub record Memory : Type 0 where
  pub gives : ℕ → Bool
  pub junk : ℕ → ℕ

-- `count` words of memory that nobody has written, from slot `i` on.
abbrev pub unwritten : (ℕ → ℕ) → ℕ → ℕ → List ℕ
unwritten junk i zero = []
unwritten junk i (suc count) = junk i ∷ unwritten junk (i + 1) count

unfoldable pub vector_create : Memory → ℕ → ℕ → ℕ → Run Vector
vector_create mem initial_capacity num den = do
  demand (ltb den num) assert_failed
  demand (mem.gives initial_capacity) assert_failed
  ok (record {
    words = unwritten mem.junk 0 initial_capacity;
    growth_num = num;
    growth_den = den;
    size = 0;
    capacity = initial_capacity;
  })

unfoldable pub vector_access : Vector → ℤ → Run ℕ
vector_access v (negsuc i) = fault assert_failed
vector_access v (pos i) = do demand (ltb i v.capacity) assert_failed; load v.words i

unfoldable pub vector_size : Vector → ℕ
vector_size v = v.size

unfoldable pub vector_is_empty : Vector → Bool
vector_is_empty v = v.size == 0

-- `(int) (v->capacity * v->growth_factor + 1)`
unfoldable pub new_capacity : Vector → ℕ
new_capacity v = (v.capacity * v.growth_num + v.growth_den) / v.growth_den

-- `realloc` to the new capacity keeps the old words.
unfoldable pub grown : Memory → Vector → Vector
unfolding new_capacity
grown mem v = record v {
  words = v.words ++ unwritten mem.junk v.capacity (new_capacity v - v.capacity);
  capacity = new_capacity v;
}

-- The size in bytes of the new block, of 8 for each pointer, is an `int`.
unfoldable pub vector_grow : Memory → Vector → Run Vector
vector_grow mem v =
    if v.size == v.capacity
    then (do
      demand (ltb (new_capacity v * 8) (2 ^ 31)) signed_overflow
      demand (mem.gives (new_capacity v)) assert_failed
      ok (grown mem v))
    else ok v

-- NULL is not stored: the slot keeps the word that it had.
unfoldable pub vector_insert : Memory → Vector → ℕ → Run Vector
vector_insert mem v object = do
  demand (ltb 0 v.capacity) assert_failed
  demand (leb v.size v.capacity) assert_failed
  w ← vector_grow mem v
  demand (leb (w.size + 1) w.capacity) assert_failed
  demand (ltb w.size (length w.words)) out_of_bounds
  ok (record w {
    words = if object == 0 then w.words else set w.words w.size object;
    size = w.size + 1;
  })

-- The loop of `vector_remove` and `vector_is_exist`: the list is the memory from ELEM(idx) on, and
-- the last number the rounds left.
unfoldable pub vector_scan : ℕ → List ℕ → ℕ → ℕ → Run (Option ℕ)
vector_scan object ws idx zero = ok none
vector_scan object [] idx (suc n) = fault out_of_bounds
vector_scan object (w ∷ ws) idx (suc n) =
    if w == object then ok (some idx) else vector_scan object ws (idx + 1) n

-- `memmove(ELEM(idx), ELEM(idx + 1), n words)`
unfoldable pub move_down : List ℕ → ℕ → ℕ → Run (List ℕ)
move_down ws idx n =
    if leb (idx + 1 + n) (length ws)
    then ok (take idx ws ++ (take n (drop (idx + 1) ws) ++ drop (idx + n) ws))
    else fault out_of_bounds

-- `(v->size-- - idx)` is the number of words to move: the size before the decrement, less `idx`.
unfoldable pub vector_remove : Vector → ℕ → Run (ℕ × Vector)
vector_remove v object = do
  demand (ltb 0 v.capacity) assert_failed
  found ← vector_scan object v.words 0 v.size
  elim found [
    | none ↦ ok (1, v)
    | some idx ↦ do
      ws ← move_down v.words idx (v.size - idx)
      ok (0, record v { words = ws; size = v.size - 1 })
  ]

unfoldable pub vector_is_exist : Vector → ℕ → Run Bool
vector_is_exist v object = do
  demand (ltb 0 v.capacity) assert_failed
  found ← vector_scan object v.words 0 v.size
  elim found [ none ↦ ok false | some idx ↦ ok true ]
