-- ===== src/Buffer/Format.antt =====
-- src/buffer.h: `buffer_sprintf`, where the text fits and where it does not.
use zeroserv.Prelude.{
  ℕ, zero, suc, ◌+◌, ◌-◌, ◌^◌, ◌≤◌, ◌<◌, ◌≡◌, refl, ap, ◌∙◌, List, [], ◌∷◌, ◌++◌, length, take,
  drop, arith, pos, take-append_left,
}
use zeroserv.Prelude.{ok, fault, out_of_bounds, ◌>>=◌, take_all, length-append, length-take, to_int}
use zeroserv.Buffer.{Buffer, buffer_sprintf, buffer_remain_write, vsnprintf}
use zeroserv.Buffer.Bounds.{IsValid, sizes_exact, to_int-sub64_neg}
use zeroserv.Buffer.Queue.{
  pending, appended, appended-IsValid, memcpy_fits, length-memcpy, window_write,
}

vsnprintf_fits :
    (mem : List ℕ) (off size : ℕ) (text : List ℕ)
    → length text < size
    → off + length text < length mem
    → vsnprintf mem off size text
      ≡ ok (take off mem ++ ((text ++ 0 ∷ []) ++ drop (off + length (text ++ 0 ∷ [])) mem))
unfolding vsnprintf
vsnprintf_fits mem off size text h j =
    rw (take_all (size - 1) text (omega arith))
      (ground (arith, length-append text (0 ∷ []), memcpy_fits mem off (text ++ 0 ∷ [])))

-- A size that stays inside the block never faults.
vsnprintf_inside :
    (mem : List ℕ) (off size : ℕ) (text : List ℕ)
    → off + size ≤ length mem
    → (m : List ℕ) × (vsnprintf mem off size text ≡ ok m) × (length m ≡ length mem)
unfolding vsnprintf
vsnprintf_inside mem off zero text h = (mem, refl, refl)
vsnprintf_inside mem off (suc k) text h =
    let src : List ℕ = take (suc k - 1) text ++ 0 ∷ [] in
    let size = length-append (take (suc k - 1) text) (0 ∷ []) in
    let cut = length-take (suc k - 1) text in
    (
      take off mem ++ (src ++ drop (off + length src) mem),
      ground (arith, memcpy_fits mem off src),
      length-memcpy mem off src (omega arith),
    )

vsnprintf_outside :
    (mem : List ℕ) (off size : ℕ) (text : List ℕ)
    → length mem ≤ off
    → 0 < size
    → vsnprintf mem off size text ≡ fault out_of_bounds
unfolding vsnprintf
vsnprintf_outside mem off size text h k =
    ground (arith, length-append (take (size - 1) text) (0 ∷ []))

-- The terminator that `vsnprintf` stores is behind the write position, so it is no unread byte.
abbrev printed : Buffer → List ℕ → Buffer
printed b text = record (appended b (text ++ 0 ∷ [])) { r = b.r + length text }

pending-printed :
    {b : Buffer} (text : List ℕ)
    → IsValid b
    → b.r + length text < b.total
    → pending (printed b text) ≡ pending b ++ text
pending-printed {b} text v h =
    window_write b.buff (text ++ 0 ∷ []) _ b.curr b.r (length text) v.behind (omega arith)
      (omega (arith, length-append text (0 ∷ [])))
    ∙ ap (λ k. pending b ++ k)
        (take-append_left (length text) text (0 ∷ []) (omega arith)
          ∙ take_all (length text) text (omega arith))

to_int_small : (n : ℕ) → n < 2 ^ 31 → to_int n ≡ pos n
to_int_small n h = ground arith

-- If the text and its terminator fit, `buffer_sprintf` returns the text's length, appends the text
-- to the unread bytes and keeps the buffer valid.
pub buffer_sprintf_fits :
    {b : Buffer} (text : List ℕ)
    → IsValid b
    → b.r + length text < b.total
    → (b' : Buffer) × (buffer_sprintf b text ≡ ok (pos (length text), b'))
      × IsValid b'
      × (pending b' ≡ pending b ++ text)
unfolding buffer_sprintf
buffer_sprintf_fits {b} text v h = (
  printed b text,
  rw (
    (sizes_exact v).1,
    vsnprintf_fits b.buff b.r (b.total - b.r) text (omega arith) (omega arith),
    to_int_small (length text) (omega arith),
  ),
  record {
    behind = omega arith;
    inside = omega arith;
    block =
        (appended-IsValid (text ++ 0 ∷ []) v (omega (arith, length-append text (0 ∷ [])))).block;
    small = v.small;
  },
  pending-printed text v h,
)

-- Behind the end of the block any `buffer_sprintf` faults.
sprintf_outside :
    (b : Buffer) (text : List ℕ)
    → length b.buff ≤ b.r
    → b.total < b.r
    → b.r < 2 ^ 31
    → buffer_sprintf b text ≡ fault out_of_bounds
unfolding buffer_sprintf buffer_remain_write
sprintf_outside b text h j k = rw (
  to_int-sub64_neg b.total b.r j k,
  vsnprintf_outside b.buff b.r (2 ^ 64 - (b.r - b.total - 1) - 1) text h (omega arith),
)

-- Where the text is longer than the free space, `buffer_sprintf` still moves the write position by
-- the whole length, behind the end of the block: the free space turns negative, is passed on as a
-- size of nearly 2 ^ 64, and the next `buffer_sprintf` writes outside the block.
pub buffer_sprintf_overruns :
    {b : Buffer} (text next : List ℕ)
    → IsValid b
    → b.total < b.r + length text
    → b.r + length text < 2 ^ 31
    → (buffer_sprintf b text >>= λ out. buffer_sprintf out.1 next) ≡ fault out_of_bounds
unfolding buffer_sprintf
buffer_sprintf_overruns {b} text next v long small =
    let (m, stored, size) = vsnprintf_inside b.buff b.r (b.total - b.r) text (omega arith) in
    let out : Buffer = record b { buff = m; r = b.r + length text } in
    rw ((sizes_exact v).1, stored) (sprintf_outside out next (omega arith) long small)
