-- ===== src/Echo.antt =====
-- src/handler/echo.c: the echo handler over one connection.
-- `recv` and `send` are the system's: the kernel picks `k`, and the call moves at most `k` bytes,
-- what the buffer has room for or holds, and what is there; nothing moved stands for a closed
-- connection or an error. `incoming` is what the client will send, `outgoing` what it got back.
pub mod Order
mod Tests
use zeroserv.Prelude.{
  ℕ, ◌+◌, List, [], ◌∷◌, ◌++◌, ltb, ◌==◌, if◌then◌else◌, length, take, drop, min, Run, ok, ◌>>=◌,
  memcpy, to_size,
}
use zeroserv.Buffer.{
  Buffer, buffer_init, buffer_empty, buffer_reset, buffer_remain_read, buffer_remain_write,
}
use zeroserv.Poller.Dispatch.{zb_close}

abbrev pub zb_nop : ℕ
zb_nop = 0

abbrev pub zb_close_wr : ℕ
zb_close_wr = 2

abbrev pub zb_set_wr : ℕ
zb_set_wr = 8

abbrev pub zb_fail : ℕ
zb_fail = 255

abbrev pub http_buffer_size : ℕ
http_buffer_size = 4096

-- `_stat`
pub record Stat : Type 0 where
  pub conn : ℕ
  pub max_conn : ℕ

unfoldable pub echo_request_accept : Stat → ℕ
echo_request_accept s = if ltb s.conn s.max_conn then zb_nop else zb_fail

-- `block` is what `malloc` returns for the bytes of the buffer.
unfoldable pub echo_accept : List ℕ → Stat → ℕ × Buffer × Stat
echo_accept block s =
    let b = buffer_init block http_buffer_size in
    if ltb s.conn s.max_conn then (zb_nop, b, record s { conn = s.conn + 1 }) else (zb_fail, b, s)

pub record Conn : Type 0 where
  pub buffer : Buffer
  pub incoming : List ℕ
  pub outgoing : List ℕ

-- `*ib->r = 0` behind the received bytes.
unfoldable pub echo_read : ℕ → Conn → Run (ℕ × Conn)
echo_read k c =
    let ib = c.buffer in
    let n = min k (min (to_size (buffer_remain_write ib)) (length c.incoming)) in
    if n == 0 then ok (zb_close, c) else do
      m ← memcpy ib.buff ib.r (take n c.incoming)
      m' ← memcpy m (ib.r + n) (0 ∷ [])
      ok (
        zb_set_wr,
        record c { buffer = record ib { buff = m'; r = ib.r + n }; incoming = drop n c.incoming },
      )

unfoldable pub echo_write : ℕ → Conn → ℕ × Conn
echo_write k c =
    let ob = c.buffer in
    let n = min k (to_size (buffer_remain_read ob)) in
    let sent : Buffer = record ob { curr = ob.curr + n } in
    let out = c.outgoing ++ take n (drop ob.curr ob.buff) in
    if n == 0
    then (zb_close, c)
    else if buffer_empty sent
    then (zb_close_wr, record c { buffer = buffer_reset sent; outgoing = out })
    else (zb_nop, record c { buffer = sent; outgoing = out })
