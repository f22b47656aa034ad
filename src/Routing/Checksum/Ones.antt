-- ===== src/Routing/Checksum/Ones.antt =====
-- src/util.h: `tcp_checksum` against the sum of 16-bit words modulo 2 ^ 16 - 1.
use zeroserv.Prelude.{
  ℕ, zero, suc, ◌+◌, ◌-◌, ◌*◌, ◌/◌, ◌%◌, ◌^◌, ◌≤◌, ◌<◌, ◌≡◌, refl, sym, ◌∙◌, List, [], ◌∷◌, ◌⊎◌,
  drop, length, arith, Run, ok, ◌>>=◌, bind_assoc,
}
use zeroserv.Routing.Checksum.{
  le_value, add_carry, sum_words, sum_tail, fold32, fold16, tcp_checksum,
}

-- The sum of the little-endian 16-bit words; a last odd byte counts alone.
abbrev pub word_sum : List ℕ → ℕ
word_sum [] = 0
word_sum (a ∷ []) = a
word_sum (a ∷ b ∷ rest) = a + 256 * b + word_sum rest

abbrev pub IsBytes : List ℕ → Type 0
IsBytes [] = Unit {0}
IsBytes (b ∷ buf) = (b < 256) × IsBytes buf

abbrev pub m : ℕ
m = 2 ^ 16 - 1

-- Adding with the carry is adding modulo 2 ^ 16 - 1.
add_carry-mod :
    (sum s : ℕ)
    → sum < 2 ^ 64
    → s < 2 ^ 64
    → (add_carry sum s % m ≡ (sum + s) % m) × (add_carry sum s < 2 ^ 64)
unfolding add_carry
add_carry-mod sum s h k = ground arith

fold32-mod : (sum : ℕ) → sum < 2 ^ 64 → (fold32 sum < 2 ^ 32) × (fold32 sum % m ≡ sum % m)
unfolding fold32
fold32-mod sum h = ground arith

fold16-mod : (t1 : ℕ) → t1 < 2 ^ 32 → (fold16 t1 ≤ m) × (fold16 t1 % m ≡ t1 % m)
unfolding fold16
fold16-mod t1 h = ground arith

complement-mod :
    (sum : ℕ)
    → sum < 2 ^ 64
    → (2 ^ 16 - 1 - fold16 (fold32 sum) ≤ m)
      × ((m - (2 ^ 16 - 1 - fold16 (fold32 sum))) % m ≡ sum % m)
complement-mod sum h =
    let (lt, eq) = fold32-mod sum h in
    let (le, eq') = fold16-mod (fold32 sum) lt in
    let back : m - (2 ^ 16 - 1 - fold16 (fold32 sum)) ≡ fold16 (fold32 sum) = omega arith in
    (omega arith, rw back (eq' ∙ eq))

-- What a run of a part of the function leaves: a sum that fits and adds `words` modulo 2 ^ 16 - 1.
abbrev Adds : ℕ → ℕ → Run ℕ → Type 0
Adds sum words r = (t : ℕ) × (r ≡ ok t) × (t < 2 ^ 64) × (t % m ≡ (sum + words) % m)

-- The tail of 0, 1, 3, 5 or 7 bytes.
tail-Adds :
    (buf : List ℕ) (sum k : ℕ)
    → IsBytes buf
    → sum < 2 ^ 64
    → length buf ≡ k
    → k < 8
    → (k ≡ 0) ⊎ (k % 2 ≡ 1)
    → Adds sum (word_sum buf) (sum_tail k buf sum)
unfolding sum_tail le_value
tail-Adds [] sum k bytes h size small safe = rw (← size) (sum, refl, h, omega arith)
tail-Adds (b0 ∷ []) sum k bytes h size small safe =
    let (e, lt) = add_carry-mod sum (b0 + 256 * 0) h (omega arith) in
    rw (← size) (_, refl, lt, omega arith)
tail-Adds (b0 ∷ b1 ∷ b2 ∷ []) sum k bytes h size small safe =
    let (e, lt) = add_carry-mod sum (b0 + 256 * (b1 + 256 * 0)) h (omega arith) in
    let (e', lt') =
      add_carry-mod (add_carry sum (b0 + 256 * (b1 + 256 * 0))) (b2 + 256 * 0) lt (omega arith) in
    rw (← size) (_, refl, lt', omega arith)
tail-Adds (b0 ∷ b1 ∷ b2 ∷ b3 ∷ b4 ∷ []) sum k bytes h size small safe =
    let (e, lt) =
      add_carry-mod sum (b0 + 256 * (b1 + 256 * (b2 + 256 * (b3 + 256 * 0)))) h (omega arith) in
    let (e', lt') =
      add_carry-mod (add_carry sum (b0 + 256 * (b1 + 256 * (b2 + 256 * (b3 + 256 * 0)))))
        (b4 + 256 * 0) lt (omega arith) in
    rw (← size) (_, refl, lt', omega arith)
tail-Adds (b0 ∷ b1 ∷ b2 ∷ b3 ∷ b4 ∷ b5 ∷ b6 ∷ []) sum k bytes h size small safe =
    let (e, lt) =
      add_carry-mod sum (b0 + 256 * (b1 + 256 * (b2 + 256 * (b3 + 256 * 0)))) h (omega arith) in
    let (e', lt') =
      add_carry-mod (add_carry sum (b0 + 256 * (b1 + 256 * (b2 + 256 * (b3 + 256 * 0)))))
        (b4 + 256 * (b5 + 256 * 0)) lt (omega arith) in
    let (e'', lt'') =
      add_carry-mod
        (add_carry (add_carry sum (b0 + 256 * (b1 + 256 * (b2 + 256 * (b3 + 256 * 0)))))
          (b4 + 256 * (b5 + 256 * 0)))
        (b6 + 256 * 0) lt' (omega arith) in
    rw (← size) (_, refl, lt'', omega arith)
tail-Adds _ sum k bytes h size small safe = absurd (omega arith)

-- The whole function up to the folding: the loop, then the tail.
sum-Adds :
    (rounds : ℕ) (buf : List ℕ) (sum k : ℕ)
    → IsBytes buf
    → sum < 2 ^ 64
    → length buf ≡ 8 * rounds + k
    → k < 8
    → (k ≡ 0) ⊎ (k % 2 ≡ 1)
    → Adds sum (word_sum buf) (sum_words rounds buf sum >>= sum_tail k (drop (8 * rounds) buf))
unfolding sum_words le_value
sum-Adds zero buf sum k bytes h size small safe =
    tail-Adds buf sum k bytes h (omega arith) small safe
sum-Adds (suc r) (b0 ∷ b1 ∷ b2 ∷ b3 ∷ b4 ∷ b5 ∷ b6 ∷ b7 ∷ rest) sum k bytes h size small safe =
    let s =
      b0
      + 256
        * (b1
            + 256
              * (b2 + 256 * (b3 + 256 * (b4 + 256 * (b5 + 256 * (b6 + 256 * (b7 + 256 * 0))))))) in
    let (e, lt) = add_carry-mod sum s h (omega arith) in
    let cut : 8 * suc r ≡ suc (suc (suc (suc (suc (suc (suc (suc (8 * r)))))))) = omega arith in
    let (t, run, lt', e') =
      sum-Adds r rest (add_carry sum s) k bytes.1.1.1.1.1.1.1.1 lt (omega arith) small safe in
    rw cut (t, run, lt', omega arith)
sum-Adds (suc r) _ sum k bytes h size small safe = absurd (omega arith)

finish :
    (words : ℕ) (r : Run ℕ)
    → Adds 0 words r
    → (c : ℕ) × ((r >>= λ total. ok (2 ^ 16 - 1 - fold16 (fold32 total))) ≡ ok c)
      × (c ≤ 2 ^ 16 - 1)
      × ((2 ^ 16 - 1 - c) % (2 ^ 16 - 1) ≡ words % (2 ^ 16 - 1))
finish words r (t, run, lt, e) =
    let (le, e') = complement-mod t lt in
    (2 ^ 16 - 1 - fold16 (fold32 t), rw run, le, e' ∙ (e ∙ omega arith))

-- Over a block of bytes whose length is a multiple of 8 or odd, `tcp_checksum` reads exactly the
-- block, and its result is 2 ^ 16 - 1 less a number that is the sum of the 16-bit words modulo
-- 2 ^ 16 - 1: the 64-bit additions, their carries and the two folds lose nothing.
pub tcp_checksum-word_sum :
    (buf : List ℕ)
    → IsBytes buf
    → (length buf % 8 ≡ 0) ⊎ (length buf % 8 % 2 ≡ 1)
    → (c : ℕ) × (tcp_checksum buf (length buf) ≡ ok c)
      × (c ≤ 2 ^ 16 - 1)
      × ((2 ^ 16 - 1 - c) % (2 ^ 16 - 1) ≡ word_sum buf % (2 ^ 16 - 1))
unfolding tcp_checksum
tcp_checksum-word_sum buf bytes safe =
    let whole =
      sum-Adds (length buf / 8) buf 0 (length buf % 8) bytes (omega arith) (omega arith)
        (omega arith) safe in
    let tail = sum_tail (length buf % 8) (drop (8 * (length buf / 8)) buf) in
    let (c, run, le, e) = finish (word_sum buf) (sum_words (length buf / 8) buf 0 >>= tail) whole in
    (c, sym (bind_assoc (sum_words (length buf / 8) buf 0) tail _) ∙ run, le, e)
