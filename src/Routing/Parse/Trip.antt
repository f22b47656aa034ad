-- ===== src/Routing/Parse/Trip.antt =====
-- src/handler_udp/routing/proto_routing.c: the tests of `routing_parse` on the bytes of a
-- packet.
use zeroserv.Prelude.{
  ℕ, ◌+◌, ◌-◌, ◌%◌, ◌^◌, ◌≡◌, sym, ap, ◌∙◌, List, length, drop, arith, Run, ok, read_bytes, ltb,
  ◌==◌, not, if◌then◌else◌, leb, length-take, length-drop, false, true,
}
use zeroserv.Buffer.{Buffer}
use zeroserv.Buffer.Bounds.{IsValid, sizes_exact}
use zeroserv.Buffer.Queue.{pending}
use zeroserv.UtHash.{UtHash}
use zeroserv.Routing.Ports.{LocalPort}
use zeroserv.Routing.Checksum.{tcp_checksum}
use zeroserv.Routing.Packet.{Packet, header_size, encode}
use zeroserv.Routing.Packet.Layout.{InRange, decode-encode}
use zeroserv.Routing.Routes.{Libc}
use zeroserv.Routing.Parse.{Router, Result, Setup, routing_proc, routing_parse, reject}

module _ (L : Libc) (U : UtHash LocalPort) (detail : ℕ → ℕ → List ℕ) where
  -- What the tests after the length do with a packet whose checksum comes out as `sum`.
  abbrev pub judged : Setup L U detail → Packet → ℕ → Router → Run (Result × Router)
  judged e p sum s1 =
      if ltb e.max_packet p.frame_size
      then reject L U detail s1
      else if not (sum == p.checksum)
      then reject L U detail s1
      else routing_proc L U detail e p s1

  length-pending : {ib : Buffer} → IsValid ib → length (pending ib) ≡ ib.r - ib.curr
  length-pending {ib} v =
      omega
        (arith, length-take (ib.r - ib.curr) (drop ib.curr ib.buff), length-drop ib.curr ib.buff)

  read_pending :
      {ib : Buffer} {n : ℕ}
      → IsValid ib
      → ib.r - ib.curr ≡ n
      → read_bytes (drop ib.curr ib.buff) n ≡ ok (pending ib)
  read_pending {ib} {n} v e =
      let fits : leb n (length (drop ib.curr ib.buff)) ≡ true =
        ground (arith, length-drop ib.curr ib.buff) in
      rw (fits, e)

  pub routing_parse-judged :
      {ib : Buffer} {p : Packet} (e : Setup L U detail) (s : Router) (sum : ℕ)
      → IsValid ib
      → InRange p
      → pending ib ≡ encode p
      → p.frame_size ≡ header_size + length p.payload
      → tcp_checksum p.payload (length p.payload) ≡ ok sum
      → routing_parse L U detail e ib s ≡ judged e p sum (record s { recv = (s.recv + 1) % 2 ^ 64 })
  unfolding routing_parse
  routing_parse-judged {ib} {p} e s sum v r same size check =
      let (dec, len) = decode-encode r in
      let (read, _, _, _, _) = sizes_exact v in
      let count : ib.r - ib.curr ≡ p.frame_size =
        sym (length-pending v) ∙ (ap length same ∙ (len ∙ sym size)) in
      let long : ltb p.frame_size header_size ≡ false = ground arith in
      let whole : (p.frame_size == p.frame_size) ≡ true = ground arith in
      let rest : p.frame_size - header_size ≡ length p.payload = omega arith in
      rw (
        read,
        count,
        long,
        read_pending v count ∙ ap (λ bytes. ok bytes) same,
        dec,
        whole,
        rest,
        check,
      )
