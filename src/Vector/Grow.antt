-- ===== src/Vector/Grow.antt =====
-- src/common/vector.h: `vector_create`, `vector_insert` and `vector_access` against the list of
-- the stored pointers.
use zeroserv.Prelude.{
  ℕ, zero, suc, ◌+◌, ◌-◌, ◌≤◌, ◌<◌, ◌≡◌, refl, ap, ◌∙◌, List, [], ◌∷◌, ◌++◌, ◌==◌, if◌then◌else◌,
  length, take, set, get_or, true, Bool, not, ◌&&◌, ◌||◌, ltb, ◌*◌, ◌^◌, arith, length-append,
  length-set, Bool-cases, inl, inr,
}
use zeroserv.Prelude.{pos, ok, load, take-append_left}
use native.Mathlib.Numerals.{towards_suc}
use zeroserv.Vector.{
  Vector, Memory, grown, unwritten, vector_create, vector_access, vector_insert, vector_grow,
  new_capacity,
}

pub record IsValid (v : Vector) : Type 0 where
  pub some_room : 0 < v.capacity
  pub fits : v.size ≤ v.capacity
  pub block : length v.words ≡ v.capacity
  pub grows : v.growth_den < v.growth_num
  pub fraction : 0 < v.growth_den

-- The pointers stored, oldest first.
abbrev pub contents : Vector → List ℕ
contents v = take v.size v.words

length-unwritten : (junk : ℕ → ℕ) (i n : ℕ) → length (unwritten junk i n) ≡ n
length-unwritten junk i zero = refl
length-unwritten junk i (suc n) = ap suc (length-unwritten junk (i + 1) n)

new_capacity-gt : {v : Vector} → IsValid v → v.capacity < new_capacity v
unfolding new_capacity
new_capacity-gt {v} h = grind arith

take-set : (ws : List ℕ) (n x : ℕ) → n < length ws → take (n + 1) (set ws n x) ≡ take n ws ++ x ∷ []
take-set [] n x h = absurd (omega arith)
take-set (w ∷ ws) zero x h = refl
take-set (w ∷ ws) (suc n) x h =
    simp towards_suc (ap (◌∷◌ w) (simp towards_suc at (take-set ws n x (omega arith))))

take-suc : (ws : List ℕ) (n : ℕ) → n < length ws → take (n + 1) ws ≡ take n ws ++ get_or ws n 0 ∷ []
take-suc [] n h = absurd (omega arith)
take-suc (w ∷ ws) zero h = refl
take-suc (w ∷ ws) (suc n) h =
    simp towards_suc (ap (◌∷◌ w) (simp towards_suc at (take-suc ws n (omega arith))))

pub load-get_or : (ws : List ℕ) (i : ℕ) → i < length ws → load ws i ≡ ok (get_or ws i 0)
load-get_or [] i h = absurd (omega arith)
load-get_or (w ∷ ws) zero h = refl
load-get_or (w ∷ ws) (suc i) h = load-get_or ws i (omega arith)

pub vector_create-IsValid :
    (mem : Memory) (n num den : ℕ)
    → 0 < n
    → 0 < den
    → den < num
    → mem.gives n ≡ true
    → (v : Vector) × (vector_create mem n num den ≡ ok v)
      × IsValid v
      × (v.capacity ≡ n)
      × (contents v ≡ [])
unfolding vector_create
vector_create-IsValid mem n num den h j k room = (
  record {
    words = unwritten mem.junk 0 n;
    growth_num = num;
    growth_den = den;
    size = 0;
    capacity = n;
  },
  ground (arith, room),
  record {
    some_room = h;
    fits = omega arith;
    block = length-unwritten mem.junk 0 n;
    grows = k;
    fraction = j;
  },
  refl,
  refl,
)

-- The vector has a free slot, or its new block is smaller than 2 ^ 31 bytes and the allocator gives
-- it.
abbrev pub can_grow : Memory → Vector → Bool
can_grow mem v =
    not (v.size == v.capacity) || (ltb (new_capacity v * 8) (2 ^ 31) && mem.gives (new_capacity v))

-- What stands in the slot behind the stored pointers, which is new when the vector is full.
abbrev pub free_word : Memory → Vector → ℕ
free_word mem v = if v.size == v.capacity then mem.junk v.capacity else get_or v.words v.size 0

-- Growing keeps the stored pointers, and there is a free slot behind them.
record Grown (mem : Memory) (v w : Vector) : Type 0 where
  valid : IsValid w
  room : w.size < w.capacity
  same : contents w ≡ contents v
  same_size : w.size ≡ v.size
  capacity : w.capacity ≡ (if v.size == v.capacity then new_capacity v else v.capacity)
  free : get_or w.words w.size 0 ≡ free_word mem v

get_or-append : (ws vs : List ℕ) (n : ℕ) → length ws ≡ n → get_or (ws ++ vs) n 0 ≡ get_or vs 0 0
get_or-append [] vs zero h = refl
get_or-append [] vs (suc n) h = absurd (omega (arith, h))
get_or-append (w ∷ ws) vs zero h = absurd (omega (arith, h))
get_or-append (w ∷ ws) vs (suc n) h = get_or-append ws vs n (omega (arith, h))

first_unwritten : (junk : ℕ → ℕ) (i n : ℕ) → 0 < n → get_or (unwritten junk i n) 0 0 ≡ junk i
first_unwritten junk i zero h = absurd (omega arith)
first_unwritten junk i (suc n) h = refl

grown-Grown :
    (mem : Memory) {v : Vector}
    → IsValid v
    → (v.size == v.capacity) ≡ true
    → Grown mem v (grown mem v)
unfolding grown
grown-Grown mem {v} h full =
    let more = new_capacity-gt h in
    let count = new_capacity v - v.capacity in
    let extra : List ℕ = unwritten mem.junk v.capacity count in
    let at_end : v.size ≡ v.capacity = ground (arith, full) in
    record {
      valid = record {
        some_room = omega arith;
        fits = omega (arith, h.fits);
        block =
            length-append v.words extra
            ∙ omega (arith, h.block, length-unwritten mem.junk v.capacity count);
        grows = h.grows;
        fraction = h.fraction;
      };
      room = omega (arith, h.fits);
      same = take-append_left v.size v.words extra (omega (arith, h.fits, h.block));
      same_size = refl;
      capacity = rw full refl;
      free =
          get_or-append v.words extra v.size (omega (arith, h.block, at_end))
          ∙ first_unwritten mem.junk v.capacity count (omega (arith, more))
          ∙ rw full refl;
    }

vector_grow-Grown :
    (mem : Memory) {v : Vector}
    → IsValid v
    → can_grow mem v ≡ true
    → (w : Vector) × (vector_grow mem v ≡ ok w) × Grown mem v w
unfolding vector_grow
vector_grow-Grown mem {v} h can = elim (Bool-cases (v.size == v.capacity)) [
  | inr less ↦ (
    v,
    rw less refl,
    record {
      valid = h;
      room = ground arith;
      same = refl;
      same_size = refl;
      capacity = rw less refl;
      free = rw less refl;
    },
  )
  | inl full ↦ (grown mem v, ground (arith, full, can), grown-Grown mem h full)
]

abbrev pushed : Vector → ℕ → Vector
pushed w object = record w {
  words = if object == 0 then w.words else set w.words w.size object;
  size = w.size + 1;
}

pushed-IsValid :
    {w : Vector} (object : ℕ) → IsValid w → w.size < w.capacity → IsValid (pushed w object)
pushed-IsValid {w} object h room = elim (Bool-cases (object == 0)) [
  | inl null ↦ rw null (record {
    some_room = h.some_room;
    fits = omega arith;
    block = h.block;
    grows = h.grows;
    fraction = h.fraction;
  })
  | inr real ↦ rw real (record {
    some_room = h.some_room;
    fits = omega arith;
    block = length-set w.words w.size object ∙ h.block;
    grows = h.grows;
    fraction = h.fraction;
  })
]

contents-pushed :
    (w : Vector) (object : ℕ)
    → w.size < length w.words
    → contents (pushed w object)
      ≡ contents w ++ (if object == 0 then get_or w.words w.size 0 else object) ∷ []
contents-pushed w object room = elim (Bool-cases (object == 0)) [
  | inl null ↦ rw null (take-suc w.words w.size room)
  | inr real ↦ rw real (take-set w.words w.size object room)
]

insert_steps :
    (mem : Memory) {v w : Vector} (object : ℕ)
    → IsValid v
    → vector_grow mem v ≡ ok w
    → Grown mem v w
    → vector_insert mem v object ≡ ok (pushed w object)
unfolding vector_insert
insert_steps mem {v} {w} object h run g =
    rw run (ground (arith, g.room, g.valid.block, h.fits, h.some_room))

-- On a valid vector that has a free slot or can grow, `vector_insert` passes its asserts and keeps
-- the vector valid; it takes the new capacity exactly when the vector is full, and appends one
-- pointer to the stored ones: the object, or, if the object is NULL, the word that stands in the
-- slot behind them.
pub vector_insert-append :
    (mem : Memory) {v : Vector} (object : ℕ)
    → IsValid v
    → can_grow mem v ≡ true
    → (w : Vector) × (vector_insert mem v object ≡ ok w)
      × IsValid w
      × (w.size ≡ v.size + 1)
      × (w.capacity ≡ (if v.size == v.capacity then new_capacity v else v.capacity))
      × (contents w ≡ contents v ++ (if object == 0 then free_word mem v else object) ∷ [])
vector_insert-append mem {v} object h can =
    let (w, run, g) = vector_grow-Grown mem h can in
    let room : w.size < length w.words = rw g.valid.block g.room in
    (
      pushed w object,
      insert_steps mem object h run g,
      pushed-IsValid object g.valid g.room,
      ap (λ k. k + 1) g.same_size,
      g.capacity,
      contents-pushed w object room
          ∙ ap (λ l. l ++ (if object == 0 then get_or w.words w.size 0 else object) ∷ []) g.same
          ∙ ap (λ k. contents v ++ (if object == 0 then k else object) ∷ []) g.free,
    )

get_or-take : (ws : List ℕ) (n i : ℕ) → i < n → get_or (take n ws) i 0 ≡ get_or ws i 0
get_or-take ws zero i h = absurd (omega arith)
get_or-take [] (suc n) i h = refl
get_or-take (w ∷ ws) (suc n) zero h = refl
get_or-take (w ∷ ws) (suc n) (suc i) h = get_or-take ws n i (omega arith)

-- On a valid vector `vector_access` returns the stored pointer at every index below the size.
pub vector_access-contents :
    {v : Vector} (i : ℕ)
    → IsValid v
    → i < v.size
    → vector_access v (pos i) ≡ ok (get_or (contents v) i 0)
unfolding vector_access
vector_access-contents {v} i h j =
    ground (arith, load-get_or v.words i, get_or-take v.words v.size i j)
