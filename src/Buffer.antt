-- ===== src/Buffer.antt =====
-- src/buffer.h and src/type/buffer.h: the byte buffer that every handler reads into and writes
-- from. A pointer into the buffer is its offset from `buff`; `buff` is the block that `malloc`
-- returned. The children are about the sizes (Bounds), the buffer as a queue of unread bytes
-- (Queue), and `buffer_sprintf` (Format).
pub mod Bounds
pub mod Queue
pub mod Format
mod Tests
use zeroserv.Prelude.{
  ℕ, ◌+◌, ◌-◌, ◌≤◌, ◌≡◌, Bool, List, ◌∷◌, [], ◌++◌, ◌==◌, if◌then◌else◌, ltb, length, take,
}
use zeroserv.Prelude.{ℤ, pos, negsuc, ◌-ℤ◌, pos_part, neg_part, to_int, to_size, sub64, leb}
use zeroserv.Prelude.{Run, ok, fault, out_of_bounds, ◌>>=◌, memcpy, read_bytes}

-- `struct buffer`.
pub record Buffer : Type 0 where
  pub r : ℕ
  pub curr : ℕ
  pub total : ℕ
  pub buff : List ℕ

unfoldable pub buffer_empty : Buffer → Bool
buffer_empty b = b.r == b.curr

-- `block` is what `malloc(total)` returned; the code does not test it.
unfoldable pub buffer_init : List ℕ → ℕ → Buffer
buffer_init block total = record { r = 0; curr = 0; total = total; buff = block }

unfoldable pub buffer_reset : Buffer → Buffer
buffer_reset b = record b { r = 0; curr = 0 }

-- The difference of two pointers, or of a size and one, as the `int` that is returned.
unfoldable pub buffer_remain_read : Buffer → ℤ
buffer_remain_read b = to_int (sub64 b.r b.curr)

unfoldable pub buffer_remain_write : Buffer → ℤ
buffer_remain_write b = to_int (sub64 b.total b.r)

unfoldable pub buffer_write_bytes : Buffer → ℤ
buffer_write_bytes b = to_int b.r

unfoldable pub buffer_read_bytes : Buffer → ℤ
buffer_read_bytes b = to_int b.curr

-- `vsnprintf(mem + off, size, …)` where the whole formatted text is `text`: at most `size - 1`
-- bytes of it are stored, and a terminator behind them.
unfoldable pub vsnprintf : List ℕ → ℕ → ℕ → List ℕ → Run (List ℕ)
vsnprintf mem off size text =
    if size == 0 then ok mem else memcpy mem off (take (size - 1) text ++ 0 ∷ [])

-- `text` is what the format and its arguments print; `vsnprintf` returns its length.
unfoldable pub buffer_sprintf : Buffer → List ℕ → Run (ℤ × Buffer)
buffer_sprintf b text = do
  m ← vsnprintf b.buff b.r (to_size (buffer_remain_write b)) text
  let ret : ℕ = length text
  ok (to_int ret, record b { buff = m; r = b.r + ret })

-- `remain <= length` on `int`s.
abbrev le_int : ℤ → ℤ → Bool
le_int a b = leb (pos_part a + neg_part b) (pos_part b + neg_part a)

-- The length is an `int`; `memcpy` takes it as a `size_t`.
unfoldable pub buffer_write : Buffer → List ℕ → ℤ → Run (ℤ × Buffer)
unfolding buffer_remain_write ◌-ℤ◌
buffer_write b content n =
    if le_int (buffer_remain_write b) n then ok (buffer_remain_write b -ℤ n, b) else do
      src ← read_bytes content (to_size n)
      m ← memcpy b.buff b.r src
      ok (n, record b { buff = m; r = b.r + to_size n })
