-- ===== src/Routing/Parse/Refuse.antt =====
-- src/handler_udp/routing/proto_routing.c: the acknowledgements of `ack_response` in
-- `routing_parse`.
use zeroserv.Prelude.{
  ℕ, ◌+◌, ◌-◌, ◌%◌, ◌^◌, ◌≡◌, refl, ◌∙◌, List, [], arith, ok, pos, ltb, Bool-cases, inl, inr,
}
use zeroserv.Buffer.{Buffer}
use zeroserv.Buffer.Bounds.{IsValid}
use zeroserv.Buffer.Queue.{pending}
use zeroserv.UtHash.{UtHash}
use zeroserv.Routing.Ports.{LocalPort}
use zeroserv.Routing.Checksum.{tcp_checksum, sum_words, sum_tail, sum_part, fold32, fold16}
use zeroserv.Routing.Packet.{Packet, encode}
use zeroserv.Routing.Packet.Layout.{InRange}
use zeroserv.Routing.Routes.{Libc}
use zeroserv.Routing.Parse.{Router, value, Setup, ack_packet, routing_parse}
use zeroserv.Routing.Parse.Trip.{judged, routing_parse-judged}

pub ack_packet-InRange : {pk : Packet} → InRange pk → InRange (ack_packet pk)
unfolding ack_packet
ack_packet-InRange r = omega arith

checksum_empty : tcp_checksum [] 0 ≡ ok (2 ^ 16 - 1)
unfolding tcp_checksum sum_words sum_tail sum_part fold32 fold16
checksum_empty = refl

module _ (L : Libc) (U : UtHash LocalPort) (detail : ℕ → ℕ → List ℕ) where
  judged_ack :
      (e : Setup L U detail) (pk : Packet) (s : Router)
      → judged L U detail e (ack_packet pk) (2 ^ 16 - 1) s
        ≡ ok (value (pos 1), record s { broken = (s.broken + 1) % 2 ^ 64 })
  unfolding ack_packet
  judged_ack e pk s = elim (Bool-cases (ltb e.max_packet 24)) [ inl h ↦ rw h | inr h ↦ rw h ]

  -- A router that receives the acknowledgement another one built for a packet counts it as broken
  -- and does nothing else, whatever its routes, addresses and ports are.
  pub ack_refused :
      {ib : Buffer} {pk : Packet} (e : Setup L U detail) (s : Router)
      → IsValid ib
      → InRange pk
      → pending ib ≡ encode (ack_packet pk)
      → routing_parse L U detail e ib s
        ≡ ok (
          value (pos 1),
          record s { recv = (s.recv + 1) % 2 ^ 64; broken = (s.broken + 1) % 2 ^ 64 },
        )
  unfolding ack_packet
  ack_refused {ib} {pk} e s v r same =
      routing_parse-judged L U detail e s (2 ^ 16 - 1) v (ack_packet-InRange r) same refl
        checksum_empty
      ∙ judged_ack e pk (record s { recv = (s.recv + 1) % 2 ^ 64 })
