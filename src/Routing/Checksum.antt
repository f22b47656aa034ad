-- ===== src/Routing/Checksum.antt =====
-- `tcp_checksum` of src/util.h, the checksum of the router's packets, on a little-endian
-- machine. `buf` is the block of bytes from the pointer on: a read behind it is a fault. The
-- pointer is never NULL where the program calls it. The children are about the sum of 16-bit
-- words (Ones), and the bytes that the tail reads (Overread).
pub mod Ones
pub mod Overread
mod Tests
use zeroserv.Prelude.{
  ℕ, zero, suc, ◌+◌, ◌-◌, ◌*◌, ◌/◌, ◌%◌, ◌^◌, List, [], ◌∷◌, ltb, ◌==◌, if◌then◌else◌, drop,
}
use zeroserv.Prelude.{Run, ok, fault, out_of_bounds, ◌>>=◌}

-- The `n` bytes at the pointer as a little-endian number.
unfoldable pub le_value : ℕ → List ℕ → Run ℕ
le_value zero buf = ok 0
le_value (suc n) [] = fault out_of_bounds
le_value (suc n) (b ∷ buf) = do v ← le_value n buf; ok (b + 256 * v)

-- `sum += s; if (sum < s) sum++;` on 64 bits.
unfoldable pub add_carry : ℕ → ℕ → ℕ
add_carry sum s = let t = (sum + s) % 2 ^ 64 in if ltb t s then (t + 1) % 2 ^ 64 else t

-- The loop over 8 bytes at a time; the first argument is the rounds left, `size / 8`.
unfoldable pub sum_words : ℕ → List ℕ → ℕ → Run ℕ
sum_words zero buf sum = ok sum
sum_words (suc rounds) buf sum = do
  s ← le_value 8 buf
  sum_words rounds (drop 8 buf) (add_carry sum s)

-- One part of the tail: `n` bytes are added if the test holds.
unfoldable pub sum_part : ℕ → ℕ → List ℕ → ℕ → Run ℕ
sum_part test n buf sum =
    if test == 0 then ok sum else (do s ← le_value n buf; ok (add_carry sum s))

-- The tail of fewer than 8 bytes; the last test is `if (size)`.
unfoldable pub sum_tail : ℕ → List ℕ → ℕ → Run ℕ
unfolding sum_part
sum_tail size buf sum = do
  let four = size / 4 % 2
  let two = size / 2 % 2
  let buf4 = drop (4 * four) buf
  let buf2 = drop (2 * two) buf4
  sum4 ← sum_part four 4 buf sum
  sum2 ← sum_part two 2 buf4 sum4
  sum_part size 1 buf2 sum2

-- `t1 = sum; t2 = sum >> 32; t1 += t2; if (t1 < t2) t1++;`
unfoldable pub fold32 : ℕ → ℕ
fold32 sum =
    let t2 = sum / 2 ^ 32 in
    let t1 = (sum % 2 ^ 32 + t2) % 2 ^ 32 in if ltb t1 t2 then (t1 + 1) % 2 ^ 32 else t1

-- `t3 = t1; t4 = t1 >> 16; t3 += t4; if (t3 < t4) t3++;`
unfoldable pub fold16 : ℕ → ℕ
fold16 t1 =
    let t4 = t1 / 2 ^ 16 in
    let t3 = (t1 % 2 ^ 16 + t4) % 2 ^ 16 in if ltb t3 t4 then (t3 + 1) % 2 ^ 16 else t3

unfoldable pub tcp_checksum : List ℕ → ℕ → Run ℕ
tcp_checksum buf size = do
  sum ← sum_words (size / 8) buf 0
  total ← sum_tail (size % 8) (drop (8 * (size / 8)) buf) sum
  ok (2 ^ 16 - 1 - fold16 (fold32 total))
