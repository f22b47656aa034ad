-- ===== src/Echo/Tests.antt =====
-- Examples for the echo handler: a block of eight bytes, of which one is unread.
use zeroserv.Prelude.{◌≡◌, [], ◌∷◌, arith}
use zeroserv.Buffer.Bounds.{IsValid}
use zeroserv.Echo.{Conn, echo_write}
use zeroserv.Echo.Order.{stream, ReadOutcome, echo_read-ReadOutcome, echo_write-stream}

abbrev talk : Conn
talk = record {
  buffer = record { r = 2; curr = 1; total = 8; buff = 104 ∷ 105 ∷ 0 ∷ 0 ∷ 0 ∷ 0 ∷ 0 ∷ 0 ∷ [] };
  incoming = 33 ∷ 33 ∷ [];
  outgoing = 104 ∷ [];
}

echo_read-ReadOutcome_example : ReadOutcome 10 talk
echo_read-ReadOutcome_example = echo_read-ReadOutcome 10 talk (omega arith)

echo_write-stream_example :
    let (flag, d) = echo_write 10 talk in
    IsValid d.buffer
    × (stream d ≡ 104 ∷ 105 ∷ 33 ∷ 33 ∷ [])
    × (flag ≡ 2)
    × (d ≡ record {
      buffer = record talk.buffer { r = 0; curr = 0 };
      incoming = talk.incoming;
      outgoing = 104 ∷ 105 ∷ [];
    })
echo_write-stream_example = echo_write-stream 10 talk (omega arith)
