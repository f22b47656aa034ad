-- ===== src/Buffer/Bounds.antt =====
-- src/buffer.h: the representation invariant of `struct buffer`, and the size functions.
use zeroserv.Prelude.{
  ℕ, ◌+◌, ◌-◌, ◌^◌, ◌≤◌, ◌<◌, ◌≡◌, List, length, arith, pos, negsuc, to_int, sub64,
}
use zeroserv.Buffer.{
  Buffer, buffer_init, buffer_reset, buffer_remain_read, buffer_remain_write, buffer_write_bytes,
  buffer_read_bytes,
}

-- The read position is behind the write position, inside a block of `total` bytes.
pub record IsValid (b : Buffer) : Type 0 where
  pub behind : b.curr ≤ b.r
  pub inside : b.r ≤ b.total
  pub block : length b.buff ≡ b.total
  pub small : b.total < 2 ^ 31

pub buffer_init-IsValid :
    (block : List ℕ) (total : ℕ)
    → length block ≡ total
    → total < 2 ^ 31
    → IsValid (buffer_init block total)
unfolding buffer_init
buffer_init-IsValid block total h k = omega arith

pub buffer_reset-IsValid : {b : Buffer} → IsValid b → IsValid (buffer_reset b)
unfolding buffer_reset
buffer_reset-IsValid v = omega arith

to_int-sub64 : (a b : ℕ) → b ≤ a → a < 2 ^ 31 → to_int (sub64 a b) ≡ pos (a - b)
to_int-sub64 a b h k = ground arith

-- A position behind the end gives a negative `int`.
pub to_int-sub64_neg : (a b : ℕ) → a < b → b < 2 ^ 31 → to_int (sub64 a b) ≡ negsuc (b - a - 1)
to_int-sub64_neg a b h k = ground arith

-- On a valid buffer the four size functions return the true differences: none of the conversions
-- between `size_t` and `int` changes a value, and what was read, what is unread and what is free add up.
pub sizes_exact :
    {b : Buffer}
    → IsValid b
    → (buffer_remain_read b ≡ pos (b.r - b.curr))
      × (buffer_remain_write b ≡ pos (b.total - b.r))
      × (buffer_write_bytes b ≡ pos b.r)
      × (buffer_read_bytes b ≡ pos b.curr)
      × (b.r - b.curr + b.curr + (b.total - b.r) ≡ b.total)
unfolding buffer_remain_read buffer_remain_write buffer_write_bytes buffer_read_bytes
sizes_exact {b} v = (
  to_int-sub64 b.r b.curr v.behind (omega arith),
  to_int-sub64 b.total b.r v.inside v.small,
  ground arith,
  ground arith,
  omega arith,
)
