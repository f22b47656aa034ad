-- ===== src/Routing/Checksum/Tests.antt =====
-- Examples for `tcp_checksum`: three bytes, and two.
use zeroserv.Prelude.{ℕ, ◌-◌, ◌%◌, ◌≤◌, ◌≡◌, refl, [], ◌∷◌, arith, ok, inr}
use zeroserv.Routing.Checksum.{tcp_checksum}
use zeroserv.Routing.Checksum.Ones.{tcp_checksum-word_sum}

tcp_checksum-word_sum_example :
    (c : ℕ) × (tcp_checksum (1 ∷ 2 ∷ 3 ∷ []) 3 ≡ ok c) × (c ≤ 65535) × ((65535 - c) % 65535 ≡ 516)
tcp_checksum-word_sum_example =
    tcp_checksum-word_sum (1 ∷ 2 ∷ 3 ∷ []) (omega arith, (omega arith, (omega arith, tt)))
      (inr refl)
