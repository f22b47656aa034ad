-- ===== src/Routing/Packet.antt =====
-- `union packet` of src/handler_udp/routing/type/routing.h: a header of 24 bytes, packed to two
-- bytes and little-endian, and the data behind it. `field` reads the bytes of one field;
-- `encode` is the block of bytes that the fields of a packet occupy, which `sendto` passes on.
-- The child is about the two together.
pub mod Layout
use zeroserv.Prelude.{ℕ, zero, suc, ◌+◌, ◌*◌, ◌/◌, ◌%◌, List, [], ◌∷◌, ◌++◌, drop, Run, ok, ◌>>=◌}
use zeroserv.Routing.Checksum.{le_value}

abbrev pub header_size : ℕ
header_size = 24

pub record Packet : Type 0 where
  pub frame_size : ℕ
  pub src_ip : ℕ
  pub src_port : ℕ
  pub dst_ip : ℕ
  pub dst_port : ℕ
  pub seq : ℕ
  pub ack : ℕ
  pub control : ℕ
  pub checksum : ℕ
  pub payload : List ℕ

-- The `width` bytes at offset `at` of the block.
unfoldable pub field : List ℕ → ℕ → ℕ → Run ℕ
unfolding le_value
field bytes at width = le_value width (drop at bytes)

unfoldable pub decode : List ℕ → Run Packet
unfolding field
decode bytes = do
  frame_size ← field bytes 0 4
  src_ip ← field bytes 4 4
  src_port ← field bytes 8 2
  dst_ip ← field bytes 10 4
  dst_port ← field bytes 14 2
  seq ← field bytes 16 4
  ack ← field bytes 20 1
  control ← field bytes 21 1
  checksum ← field bytes 22 2
  ok (record {
    frame_size = frame_size;
    src_ip = src_ip;
    src_port = src_port;
    dst_ip = dst_ip;
    dst_port = dst_port;
    seq = seq;
    ack = ack;
    control = control;
    checksum = checksum;
    payload = drop header_size bytes;
  })

-- The `width` low bytes of a number.
unfoldable pub le_bytes : ℕ → ℕ → List ℕ
le_bytes zero n = []
le_bytes (suc width) n = n % 256 ∷ le_bytes width (n / 256)

unfoldable pub encode : Packet → List ℕ
unfolding le_bytes
encode p =
    le_bytes 4 p.frame_size
    ++ (le_bytes 4 p.src_ip
        ++ (le_bytes 2 p.src_port
            ++ (le_bytes 4 p.dst_ip
                ++ (le_bytes 2 p.dst_port
                    ++ (le_bytes 4 p.seq
                        ++ (le_bytes 1 p.ack
                            ++ (le_bytes 1 p.control ++ (le_bytes 2 p.checksum ++ p.payload))))))))
