-- ===== src/Buffer/Queue.antt =====
-- src/buffer.h: `buffer_write` on the unread bytes of a buffer.
use zeroserv.Prelude.{
  ℕ, ◌+◌, ◌-◌, ◌^◌, ◌≤◌, ◌<◌, ◌≡◌, refl, List, [], ◌++◌, length, take, drop, arith, ℤ, pos, negsuc,
  sub_ℕ, ◌-ℤ◌, ap, Bool-cases, inl, inr, ltb, append-nil,
}
use zeroserv.Prelude.{ok, fault, out_of_bounds, memcpy}
use zeroserv.Prelude.{
  if◌then◌else◌, take-append, take-append_left, drop-append, drop-take, length-take_le,
  length-append, length-drop, length-take, take_all, ◌∙◌,
}
use zeroserv.Buffer.{Buffer, buffer_write}
use zeroserv.Buffer.Bounds.{IsValid, sizes_exact}

-- The bytes between the read and the write position.
abbrev pub pending : Buffer → List ℕ
pending b = take (b.r - b.curr) (drop b.curr b.buff)

-- The buffer after `src` was copied to its write position.
abbrev pub appended : Buffer → List ℕ → Buffer
appended b src = record b {
  r = b.r + length src;
  buff = take b.r b.buff ++ (src ++ drop (b.r + length src) b.buff);
}

pub memcpy_fits :
    (mem : List ℕ) (off : ℕ) (src : List ℕ)
    → off + length src ≤ length mem
    → memcpy mem off src ≡ ok (take off mem ++ (src ++ drop (off + length src) mem))
memcpy_fits mem off src h = ground arith

pub length-memcpy :
    (mem : List ℕ) (off : ℕ) (src : List ℕ)
    → off + length src ≤ length mem
    → length (take off mem ++ (src ++ drop (off + length src) mem)) ≡ length mem
length-memcpy mem off src h =
    rw (length-append (take off mem), length-append src)
      (omega (arith, length-take off mem, length-drop (off + length src) mem))

pub appended-IsValid :
    {b : Buffer} (src : List ℕ) → IsValid b → b.r + length src ≤ b.total → IsValid (appended b src)
appended-IsValid {b} src v h = record {
  behind = omega arith;
  inside = h;
  block = length-memcpy b.buff b.r src (omega arith) ∙ v.block;
  small = v.small;
}

-- The bytes from `c` on, after `src` was written at `r`, up to the `k`-th byte of it.
pub window_write :
    (mem src rest : List ℕ) (c r k : ℕ)
    → c ≤ r
    → r ≤ length mem
    → k ≤ length src
    → take (r + k - c) (drop c (take r mem ++ (src ++ rest)))
      ≡ take (r - c) (drop c mem) ++ take k src
window_write mem src rest c r k h j i =
    let front : length (take r mem) ≡ r = length-take_le r mem j in
    let old : List ℕ = take (r - c) (drop c mem) in
    let size : length old ≡ r - c =
      length-take_le (r - c) (drop c mem) (omega (arith, length-drop c mem)) in
    rw (drop-append c (take r mem) (src ++ rest) (omega arith), drop-take c r mem)
      (take-append (r + k - c) old (src ++ rest) (omega arith)
        ∙ ap (λ l. old ++ l)
            (ap (λ n. take n (src ++ rest)) (omega arith) ∙ take-append_left k src rest i))

-- Copying to the write position appends to the unread bytes.
pub pending-appended :
    {b : Buffer} (src : List ℕ)
    → IsValid b
    → b.r + length src ≤ b.total
    → pending (appended b src) ≡ pending b ++ src
pending-appended {b} src v h =
    window_write b.buff src _ b.curr b.r (length src) v.behind (omega arith) (omega arith)
    ∙ ap (λ k. pending b ++ k) (take_all (length src) src (omega arith))

-- What a call of `buffer_write` with a length of `n` gives: the returned `int`, and the buffer.
pub record Wrote (b : Buffer) (content : List ℕ) (n : ℕ) (z : ℤ) (b' : Buffer) : Type 0 where
  pub returns : z ≡ (if ltb n (b.total - b.r) then pos n else sub_ℕ (b.total - b.r) n)
  pub valid : IsValid b'
  pub same_curr : b'.curr ≡ b.curr
  pub same_total : b'.total ≡ b.total
  pub queue : pending b' ≡ pending b ++ (if ltb n (b.total - b.r) then take n content else [])
  pub buffer : b' ≡ (if ltb n (b.total - b.r) then appended b (take n content) else b)

-- On a valid buffer `buffer_write` never leaves the block. If more than `n` bytes are free it
-- returns `n` and appends the first `n` bytes of the content to the unread bytes; otherwise, also
-- where they would just fit, it returns the free space less `n` and changes nothing.
pub buffer_write-Wrote :
    {b : Buffer} (content : List ℕ) (n : ℕ)
    → IsValid b
    → n ≤ length content
    → (out : ℤ × Buffer) × (buffer_write b content (pos n) ≡ ok out) × Wrote b content n out.0 out.1
unfolding buffer_write ◌-ℤ◌
buffer_write-Wrote {b} content n v h = elim (Bool-cases (ltb n (b.total - b.r))) [
  | inr full ↦ (
    (sub_ℕ (b.total - b.r) n, b),
    rw ((sizes_exact v).1) (ground arith),
    record {
      returns = rw full;
      valid = v;
      same_curr = refl;
      same_total = refl;
      queue = rw (full, append-nil);
      buffer = rw full;
    },
  )
  | inl fits ↦
      let src : List ℕ = take n content in
      let size : length src ≡ n = length-take_le n content h in
      let room : b.r + length src ≤ b.total = ground arith in
      (
        (pos n, appended b src),
        rw ((sizes_exact v).1) (ground (arith, memcpy_fits b.buff b.r src)),
        record {
          returns = rw fits;
          valid = appended-IsValid src v room;
          same_curr = refl;
          same_total = refl;
          queue = rw fits (pending-appended src v room);
          buffer = rw fits;
        },
      )
]

-- A negative length is smaller than any free space, so it passes the test, and `memcpy` gets it as
-- a size of nearly 2 ^ 64: the call faults on every valid buffer.
pub buffer_write_negative :
    {b : Buffer} (content : List ℕ) (k : ℕ)
    → IsValid b
    → k < 2 ^ 31
    → length content < 2 ^ 63
    → buffer_write b content (negsuc k) ≡ fault out_of_bounds
unfolding buffer_write
buffer_write_negative {b} content k v small short = rw ((sizes_exact v).1) (ground arith)
