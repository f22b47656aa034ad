-- ===== src/Routing/Parse/Hop.antt =====
-- src/handler_udp/routing/proto_routing.c: one hop of a well-formed packet.
use zeroserv.Prelude.{
  ℕ, ◌+◌, ◌%◌, ◌^◌, ◌≤◌, ◌≡◌, ◌⊎◌, inl, inr, refl, ◌∙◌, List, [], ◌∷◌, ◌++◌, some, arith, ok, pos,
  ltb, leb, ◌==◌, true, false, length, take, take_all,
}
use zeroserv.Buffer.{Buffer}
use zeroserv.Buffer.Bounds.{IsValid}
use zeroserv.Buffer.Queue.{pending}
use zeroserv.UtHash.{UtHash}
use zeroserv.Routing.Ports.{LocalPort, get_local_port}
use zeroserv.Routing.Checksum.{tcp_checksum}
use zeroserv.Routing.Packet.{Packet, header_size, encode}
use zeroserv.Routing.Packet.Layout.{InRange, decode-encode}
use zeroserv.Routing.Routes.{Libc, Route, is_mine_ip, route_get_by_dst, star}
use zeroserv.Prelude.{same_text}
use zeroserv.Routing.Parse.{
  Router, value, unspecified, Setup, ctl_send, ack_packet, send_packet_direct, send_packet,
  send_to_next, ack_response, proc_mine, routing_proc, routing_parse,
}
use zeroserv.Routing.Parse.Trip.{judged, routing_parse-judged}
use zeroserv.Routing.Parse.Refuse.{ack_packet-InRange}

module _ (L : Libc) (U : UtHash LocalPort) (detail : ℕ → ℕ → List ℕ) where
  -- A sender's packet: its fields fit, and its size and its checksum are right.
  pub record WellFormed (p : Packet) : Type 0 where
    pub range : InRange p
    pub size : p.frame_size ≡ header_size + length p.payload
    pub check : tcp_checksum p.payload (length p.payload) ≡ ok p.checksum

  -- Where a packet goes: to its destination if the route says `*`, to the route's node otherwise.
  abbrev pub Goes : Route L → Packet → ℕ → ℕ → Type 0
  Goes rout p host port =
      ((same_text rout.remote star ≡ true) × (host ≡ p.dst_ip) × (port ≡ p.dst_port))
      ⊎ ((same_text rout.remote star ≡ false) × (rout.s_remote ≡ some (host, port)))

  abbrev pub passed_on : Packet → ℕ → ℕ → Router → Router
  passed_on p host port s = record s {
    sent = s.sent ++ record { host = host; port = port; bytes = encode p } ∷ [];
  }

  send-passed_on :
      {p : Packet} (host port : ℕ) (s : Router)
      → InRange p
      → p.frame_size ≡ header_size + length p.payload
      → send_packet_direct host port p s ≡ ok (passed_on p host port s)
  unfolding send_packet_direct
  send-passed_on {p} host port s r size =
      let (_, len) = decode-encode r in
      let fits : leb p.frame_size (length (encode p)) ≡ true = ground arith in
      let all : take p.frame_size (encode p) ≡ encode p =
        take_all p.frame_size (encode p) (omega arith) in
      rw (fits, all)

  send_to_next-passed_on :
      (p : Packet) (rout : Route L) (host port : ℕ) (s : Router)
      → InRange p
      → p.frame_size ≡ header_size + length p.payload
      → Goes rout p host port
      → send_to_next L U detail rout p s ≡ ok (passed_on p host port s)
  unfolding send_to_next send_packet
  send_to_next-passed_on p rout host port s r size (inl (e, h, k)) =
      rw (e, h, k, send-passed_on p.dst_ip p.dst_port s r size)
  send_to_next-passed_on p rout host port s r size (inr (e, h)) =
      rw (e, h, send-passed_on host port s r size)

  ack_packet_size :
      (p : Packet) → (ack_packet p).frame_size ≡ header_size + length (ack_packet p).payload
  unfolding ack_packet
  ack_packet_size p = refl

  judged-proc :
      (p : Packet) (e : Setup L U detail) (s : Router)
      → p.frame_size ≤ e.max_packet
      → judged L U detail e p p.checksum s ≡ routing_proc L U detail e p s
  judged-proc p e s small =
      let fits : ltb e.max_packet p.frame_size ≡ false = ground arith in
      let same : (p.checksum == p.checksum) ≡ true = ground arith in rw (fits, same)

  abbrev pub counted : Router → Router
  counted s = record s { recv = (s.recv + 1) % 2 ^ 64 }

  module _ {ib : Buffer} {p : Packet} (e : Setup L U detail) (s : Router) (v : IsValid ib)
      (w : WellFormed p) (same : pending ib ≡ encode p) (small : p.frame_size ≤ e.max_packet) where
    parsed : routing_parse L U detail e ib s ≡ routing_proc L U detail e p (counted s)
    parsed =
        routing_parse-judged L U detail e s p.checksum v w.range same w.size w.check
        ∙ judged-proc p e (counted s) small

    -- A well-formed packet for another machine, for which there is a route, is counted and sent on
    -- byte by byte as it came, to the destination or to the next node; nothing else changes.
    pub routing_parse_forwards :
        {rout : Route L} {host port : ℕ}
        → is_mine_ip p.dst_ip e.mine ≡ 0
        → route_get_by_dst L (detail p.dst_ip p.dst_port) e.routes ≡ some rout
        → Goes rout p host port
        → routing_parse L U detail e ib s ≡ ok (value (pos 0), passed_on p host port (counted s))
    unfolding routing_proc
    routing_parse_forwards {rout} {host} {port} other route goes =
        parsed
        ∙ rw (other, route, send_to_next-passed_on p rout host port (counted s) w.range w.size goes)

    -- A well-formed packet with data for this machine and a registered port is counted and
    -- answered with the acknowledgement, to its sender or to the node towards it.
    pub routing_parse_acknowledges :
        {rout : Route L} {port : LocalPort} {host node : ℕ}
        → is_mine_ip p.dst_ip e.mine ≡ 1
        → get_local_port U e.above p.dst_port e.ports ≡ some port
        → p.control ≡ ctl_send
        → route_get_by_dst L (detail p.src_ip p.src_port) e.routes ≡ some rout
        → Goes rout (ack_packet p) host node
        → routing_parse L U detail e ib s
          ≡ ok (unspecified, passed_on (ack_packet p) host node (counted s))
    unfolding routing_proc proc_mine ack_response
    routing_parse_acknowledges {rout} {host = host} {node = node} mine known send route goes =
        let is_send : (p.control == ctl_send) ≡ true = ground arith in
        let sent =
          send_to_next-passed_on (ack_packet p) rout host node (counted s)
            (ack_packet-InRange w.range) (ack_packet_size p) goes in
        parsed ∙ rw (mine, known, is_send, ack_response, route, sent)
