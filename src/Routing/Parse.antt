-- ===== src/Routing/Parse.antt =====
-- src/handler_udp/routing/proto_routing.c: what the router does with a received datagram.
-- `sendto` is the C library's: a datagram that is sent is a value in the list `sent`. The text of
-- an address, `ip:port`, is printed by `inet_ntoa` and `snprintf`, the parameter `detail`. The table
-- `tasks` stays NULL, since no code of the repository adds to it, so an acknowledgement that comes
-- in finds no task. The packet is freed by no path that gets past the tests; memory is not modelled
-- beyond the bounds of the block.
pub mod Trip
pub mod Refuse
pub mod Hop
mod Tests
use zeroserv.Prelude.{
  ℕ, zero, suc, ◌+◌, ◌-◌, ◌%◌, ◌^◌, Bool, List, [], ◌∷◌, ◌++◌, Option, none, some, ltb, ◌==◌, not,
  if◌then◌else◌, length, drop,
}
use zeroserv.Prelude.{
  ℤ, pos, negsuc, Run, ok, fault, out_of_bounds, ◌>>=◌, read_bytes, to_size, pos_part, neg_part,
  leb,
}
use zeroserv.Buffer.{Buffer, buffer_remain_read}
use zeroserv.UtHash.{UtHash}
use zeroserv.Routing.Ports.{LocalPort, Ports, get_local_port}
use zeroserv.Routing.Checksum.{tcp_checksum}
use zeroserv.Routing.Packet.{Packet, header_size, decode, encode}
use zeroserv.Routing.Routes.{Libc, Route, Mip, is_mine_ip, route_get_by_dst, star}
use zeroserv.Prelude.{same_text}

abbrev pub ctl_send : ℕ
ctl_send = 1

abbrev pub ctl_ack : ℕ
ctl_ack = 2

pub record Datagram : Type 0 where
  pub host : ℕ
  pub port : ℕ
  pub bytes : List ℕ

-- The two counters of `router_stat` that the receiver changes, `uint64_t` both, and what was sent.
pub record Router : Type 0 where
  pub recv : ℕ
  pub broken : ℕ
  pub sent : List Datagram

-- The value of an `int` function; `return;` leaves it unspecified.
pub data Result : Type 0 where
  value : ℤ → Result
  unspecified : Result

-- The packet that `ack_response` builds for `pk`.
unfoldable pub ack_packet : Packet → Packet
ack_packet pk = record {
  frame_size = header_size;
  src_ip = pk.dst_ip;
  src_port = pk.dst_port;
  dst_ip = pk.src_ip;
  dst_port = pk.src_port;
  seq = pk.seq;
  ack = pk.ack;
  control = ctl_ack;
  checksum = 0;
  payload = [];
}

unfoldable pub send_packet_direct : ℕ → ℕ → Packet → Router → Run Router
send_packet_direct host port pk s = do
  bytes ← read_bytes (encode pk) pk.frame_size
  ok (record s { sent = s.sent ++ record { host = host; port = port; bytes = bytes } ∷ [] })

-- The comparison of an `int` with HEADER_SIZE.
abbrev pub short : ℤ → Bool
short n = ltb (pos_part n) (header_size + neg_part n)

module _ (L : Libc) (U : UtHash LocalPort) (detail : ℕ → ℕ → List ℕ) where
  -- What the receiver reads and does not change; `above` is as in the module of the ports, and
  -- `max_packet` is the setting as the `uint32_t` that it is compared as.
  pub record Setup : Type 0 where
    pub routes : List (Route L)
    pub mine : List Mip
    pub ports : Ports U
    pub above : ℕ
    pub max_packet : ℕ

  -- Sending to the node of a route whose address was never set reads what no statement wrote.
  unfoldable pub send_packet : Route L → Packet → Router → Run Router
  unfolding send_packet_direct
  send_packet rout pk s = elim rout.s_remote [
    | none ↦ fault out_of_bounds
    | some (host, port) ↦ send_packet_direct host port pk s
  ]

  -- `if (strcmp(rout->remote, "*")) … else …`, in both functions that send.
  unfoldable pub send_to_next : Route L → Packet → Router → Run Router
  send_to_next rout pk s =
      if same_text rout.remote star
      then send_packet_direct pk.dst_ip pk.dst_port pk s
      else send_packet rout pk s

  unfoldable pub ack_response : Setup → Packet → Router → Run (ℤ × Router)
  ack_response e pk s = elim (route_get_by_dst L (detail pk.src_ip pk.src_port) e.routes) [
    | none ↦ ok (pos 1, s)
    | some rout ↦ (do s' ← send_to_next rout (ack_packet pk) s; ok (pos 0, s'))
  ]

  unfoldable pub proc_mine : Setup → Packet → Router → Run Router
  proc_mine e pk s =
      if pk.control == ctl_send then (do (ret, s') ← ack_response e pk s; ok s') else ok s

  unfoldable pub routing_proc : Setup → Packet → Router → Run (Result × Router)
  routing_proc e pk s =
      let forward : Run (Result × Router) =
        elim (route_get_by_dst L (detail pk.dst_ip pk.dst_port) e.routes) [
          | none ↦ ok (value (pos 1), s)
          | some rout ↦ (do s' ← send_to_next rout pk s; ok (value (pos 0), s'))
        ] in
      if is_mine_ip pk.dst_ip e.mine == 0
      then forward
      else elim (get_local_port U e.above pk.dst_port e.ports) [
        | none ↦ forward
        | some port ↦ (do s' ← proc_mine e pk s; ok (unspecified, s'))
      ]

  -- `router_stat.broken++`
  abbrev pub reject : Router → Run (Result × Router)
  reject s = ok (value (pos 1), record s { broken = (s.broken + 1) % 2 ^ 64 })

  unfoldable pub routing_parse : Setup → Buffer → Router → Run (Result × Router)
  routing_parse e ib s =
      let len : ℤ = buffer_remain_read ib in
      let s1 : Router = record s { recv = (s.recv + 1) % 2 ^ 64 } in
      if short len then ok (value (negsuc 0), s1) else do
        bytes ← read_bytes (drop ib.curr ib.buff) (to_size len)
        pk ← decode bytes
        if ltb e.max_packet pk.frame_size
            then reject s1
            else if not (pk.frame_size == to_size len)
            then reject s1
            else do
              sum ← tcp_checksum pk.payload (to_size len - header_size)
              if not (sum == pk.checksum) then reject s1 else routing_proc e pk s1
