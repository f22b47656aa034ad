-- ===== src/Routing/Packet/Layout.antt =====
-- src/handler_udp/routing/type/routing.h: the packed layout, written and read.
use zeroserv.Prelude.{ℕ, ◌+◌, ◌*◌, ◌/◌, ◌%◌, ◌^◌, ◌<◌, ◌≡◌, length, arith, ok}
use zeroserv.Routing.Packet.{Packet, header_size, field, decode, le_bytes, encode}
use zeroserv.Routing.Checksum.{le_value}

-- Every field fits its width.
pub record InRange (p : Packet) : Type 0 where
  pub frame_size_range : p.frame_size < 2 ^ 32
  pub src_ip_range : p.src_ip < 2 ^ 32
  pub src_port_range : p.src_port < 2 ^ 16
  pub dst_ip_range : p.dst_ip < 2 ^ 32
  pub dst_port_range : p.dst_port < 2 ^ 16
  pub seq_range : p.seq < 2 ^ 32
  pub ack_range : p.ack < 2 ^ 8
  pub control_range : p.control < 2 ^ 8
  pub checksum_range : p.checksum < 2 ^ 16

-- What reading back one, two and four bytes of a number makes of it.
abbrev word1 : ℕ → ℕ
word1 n = n % 256 + 256 * 0

abbrev word2 : ℕ → ℕ
word2 n = n % 256 + 256 * word1 (n / 256)

abbrev word4 : ℕ → ℕ
word4 n = n % 256 + 256 * (n / 256 % 256 + 256 * word2 (n / 256 / 256))

one : (n : ℕ) → n < 2 ^ 8 → word1 n ≡ n
one n h = omega arith

two : (n : ℕ) → n < 2 ^ 16 → word2 n ≡ n
two n h = omega arith

four : (n : ℕ) → n < 2 ^ 32 → word4 n ≡ n
four n h = omega arith

-- The header of every packet takes 24 bytes, and reading the fields of a packet whose fields fit
-- their widths back from its bytes gives the packet.
pub decode-encode :
    {p : Packet}
    → InRange p
    → (decode (encode p) ≡ ok p) × (length (encode p) ≡ header_size + length p.payload)
unfolding decode encode field le_value le_bytes
decode-encode {p} r =
    let e1 : word4 p.frame_size ≡ p.frame_size = four p.frame_size r.frame_size_range in
    let e2 : word4 p.src_ip ≡ p.src_ip = four p.src_ip r.src_ip_range in
    let e3 : word2 p.src_port ≡ p.src_port = two p.src_port r.src_port_range in
    let e4 : word4 p.dst_ip ≡ p.dst_ip = four p.dst_ip r.dst_ip_range in
    let e5 : word2 p.dst_port ≡ p.dst_port = two p.dst_port r.dst_port_range in
    let e6 : word4 p.seq ≡ p.seq = four p.seq r.seq_range in
    let e7 : word1 p.ack ≡ p.ack = one p.ack r.ack_range in
    let e8 : word1 p.control ≡ p.control = one p.control r.control_range in
    let e9 : word2 p.checksum ≡ p.checksum = two p.checksum r.checksum_range in
    (
      (λ i. ok (record {
        frame_size = e1 i;
        src_ip = e2 i;
        src_port = e3 i;
        dst_ip = e4 i;
        dst_port = e5 i;
        seq = e6 i;
        ack = e7 i;
        control = e8 i;
        checksum = e9 i;
        payload = p.payload;
      })),
      omega arith,
    )
