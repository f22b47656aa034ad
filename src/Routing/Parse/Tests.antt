-- ===== src/Routing/Parse/Tests.antt =====
-- Examples for the handling of a datagram. Machine 1 has the local port 9, a packet with one byte of
-- data comes from machine 2, and every destination has a route to itself.
use zeroserv.Prelude.{
  ℕ, ◌^◌, ◌<◌, ◌≡◌, refl, List, [], ◌∷◌, length, none, some, arith, ok, pos, inl, true,
}
use zeroserv.Buffer.{Buffer}
use zeroserv.Buffer.Bounds.{IsValid}
use zeroserv.UtHash.Assoc.{assoc}
use zeroserv.Routing.Ports.{LocalPort, get_local_port}
use zeroserv.Routing.Checksum.{
  tcp_checksum, sum_words, sum_tail, sum_part, fold32, fold16, le_value, add_carry,
}
use zeroserv.Routing.Packet.{Packet, encode, le_bytes}
use zeroserv.Routing.Routes.{Libc, Route, is_mine_ip, route_get_by_dst}
use zeroserv.Routing.Parse.{Router, value, unspecified, Setup, ack_packet, routing_parse}
use zeroserv.Routing.Parse.Refuse.{ack_refused}
use zeroserv.Routing.Parse.Hop.{
  WellFormed, passed_on, counted, routing_parse_forwards, routing_parse_acknowledges,
}

-- A C library whose expressions match everything.
abbrev any_dest : Libc
any_dest = record {
  Regex = ℕ;
  regcomp = λ text. some 0;
  regexec = λ rex text. true;
  inet_aton = λ text. none;
  atoi = λ text. 0;
}

abbrev detail : ℕ → ℕ → List ℕ
detail ip port = ip ∷ 58 ∷ port ∷ []

abbrev direct : Route any_dest
direct = record { name = []; dest = []; rex_dest = 0; remote = 42 ∷ []; s_remote = none }

abbrev machine : Setup any_dest (assoc LocalPort) detail
machine = record {
  routes = direct ∷ [];
  mine = record { ip = 1; name = [] } ∷ [];
  ports = record { last = 0; cur_port = 1; table = (9, record { id = 9; context = 0 }) ∷ [] };
  above = 0;
  max_packet = 4096;
}

-- A packet with the byte 7 for port 9 of the given machine.
abbrev to_machine : ℕ → Packet
to_machine ip = record {
  frame_size = 25;
  src_ip = 2;
  src_port = 5;
  dst_ip = ip;
  dst_port = 9;
  seq = 1;
  ack = 0;
  control = 1;
  checksum = 65528;
  payload = 7 ∷ [];
}

checksum_seven : tcp_checksum (7 ∷ []) 1 ≡ ok 65528
unfolding tcp_checksum sum_words sum_tail sum_part fold32 fold16 le_value add_carry
checksum_seven = refl

to_machine-WellFormed :
    (ip : ℕ) → ip < 2 ^ 32 → WellFormed any_dest (assoc LocalPort) detail (to_machine ip)
to_machine-WellFormed ip h = record { range = omega arith; size = refl; check = checksum_seven }

abbrev buffer_of : Packet → Buffer
buffer_of p = record { r = length (encode p); curr = 0; total = length (encode p); buff = encode p }

buffer_of-IsValid : (ip : ℕ) → IsValid (buffer_of (to_machine ip))
unfolding encode le_bytes
buffer_of-IsValid ip = omega arith

abbrev idle : Router
idle = record { recv = 0; broken = 0; sent = [] }

ack_buffer-IsValid : IsValid (buffer_of (ack_packet (to_machine 1)))
unfolding encode le_bytes ack_packet
ack_buffer-IsValid = omega arith

ack_refused_example :
    routing_parse any_dest
      (assoc LocalPort)
      detail
      machine
      (buffer_of (ack_packet (to_machine 1)))
      idle
    ≡ ok (value (pos 1), record { recv = 1; broken = 1; sent = [] })
ack_refused_example =
    ack_refused any_dest (assoc LocalPort) detail machine idle ack_buffer-IsValid
      (to_machine-WellFormed 1 (omega arith)).range (unfold encode le_bytes ack_packet in refl)

routing_parse_forwards_example :
    routing_parse any_dest (assoc LocalPort) detail machine (buffer_of (to_machine 3)) idle
    ≡ ok (
      value (pos 0),
      passed_on any_dest
          (assoc LocalPort)
          detail
          (to_machine 3)
          3
          9
          (counted any_dest (assoc LocalPort) detail idle),
    )
routing_parse_forwards_example =
    routing_parse_forwards any_dest (assoc LocalPort) detail machine idle (buffer_of-IsValid 3)
      (to_machine-WellFormed 3 (omega arith)) (unfold encode le_bytes in refl) (omega arith)
      {rout = direct} (unfold is_mine_ip in refl) (unfold route_get_by_dst in refl)
      (inl (refl, refl, refl))

routing_parse_acknowledges_example :
    routing_parse any_dest (assoc LocalPort) detail machine (buffer_of (to_machine 1)) idle
    ≡ ok (
      unspecified,
      passed_on any_dest
          (assoc LocalPort)
          detail
          (ack_packet (to_machine 1))
          2
          5
          (counted any_dest (assoc LocalPort) detail idle),
    )
routing_parse_acknowledges_example =
    routing_parse_acknowledges any_dest (assoc LocalPort) detail machine idle (buffer_of-IsValid 1)
      (to_machine-WellFormed 1 (omega arith)) (unfold encode le_bytes in refl) (omega arith)
      {rout = direct} {port = record { id = 9; context = 0 }} (unfold is_mine_ip in refl)
      (unfold get_local_port in refl) refl (unfold route_get_by_dst in refl)
      (inl (refl, unfold ack_packet in refl, unfold ack_packet in refl))
