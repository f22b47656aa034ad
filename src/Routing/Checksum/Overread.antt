-- ===== src/Routing/Checksum/Overread.antt =====
-- src/util.h: the last test of the tail of `tcp_checksum`.
use zeroserv.Prelude.{
  ℕ, zero, suc, ◌*◌, ◌/◌, ◌%◌, ◌<◌, ◌≡◌, refl, List, [], ◌∷◌, drop, length, length-drop, arith, ok,
  fault, out_of_bounds,
}
use zeroserv.Routing.Checksum.{le_value, sum_words, sum_tail, tcp_checksum}

tail_overread :
    (buf : List ℕ) (sum k : ℕ)
    → length buf ≡ k
    → k < 8
    → 0 < k
    → k % 2 ≡ 0
    → sum_tail k buf sum ≡ fault out_of_bounds
unfolding sum_tail le_value
tail_overread (b0 ∷ b1 ∷ []) sum k size small pos even = rw (← size)
tail_overread (b0 ∷ b1 ∷ b2 ∷ b3 ∷ []) sum k size small pos even = rw (← size)
tail_overread (b0 ∷ b1 ∷ b2 ∷ b3 ∷ b4 ∷ b5 ∷ []) sum k size small pos even = rw (← size)
tail_overread _ sum k size small pos even = absurd (omega arith)

sum_words_ends :
    (rounds : ℕ) (buf : List ℕ) (sum : ℕ)
    → 8 * rounds < length buf
    → (t : ℕ) × (sum_words rounds buf sum ≡ ok t)
unfolding sum_words le_value
sum_words_ends zero buf sum h = (sum, refl)
sum_words_ends (suc r) (b0 ∷ b1 ∷ b2 ∷ b3 ∷ b4 ∷ b5 ∷ b6 ∷ b7 ∷ rest) sum h =
    sum_words_ends r rest _ (omega arith)
sum_words_ends (suc r) _ sum h = absurd (omega arith)

-- If the length is even and no multiple of 8, `tcp_checksum` reads the byte behind the block.
pub tcp_checksum_overread :
    (buf : List ℕ)
    → 0 < length buf % 8
    → length buf % 2 ≡ 0
    → tcp_checksum buf (length buf) ≡ fault out_of_bounds
unfolding tcp_checksum
tcp_checksum_overread buf pos even =
    let (t, run) = sum_words_ends (length buf / 8) buf 0 (omega arith) in
    let rest : List ℕ = drop (8 * (length buf / 8)) buf in
    rw (
      run,
      tail_overread rest t (length buf % 8) (omega (arith, length-drop (8 * (length buf / 8)) buf))
          (omega arith) pos (omega arith),
    )
