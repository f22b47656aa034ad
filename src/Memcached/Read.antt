-- ===== src/Memcached/Read.antt =====
-- src/handler/memcached.c: the handlers of a connection that the poller calls, and what they read.
-- The kernel's side of the socket is the list `net` of the pieces that arrive, and whether it is
-- closed behind them; recv gives at most as much of the next piece as is asked for, and -1 with
-- EAGAIN when there is none. The children are about a connection that waits for the rest of a
-- command (Spin) and about clients that send or announce too much (Flood).
pub mod Spin
pub mod Flood
use zeroserv.Prelude.{
  ℕ, zero, suc, ◌+◌, ◌-◌, ◌%◌, ◌^◌, Bool, true, false, ◌&&◌, ◌||◌, not, List, [], ◌∷◌, ◌++◌, Option,
  none, some, leb, ◌==◌, if◌then◌else◌, length, take, drop, Run, ok, fault, ◌>>=◌, ◌>>◌, demand,
  memcpy, exit_one, assert_failed, ℤ, pos, negsuc, ltb,
}
use zeroserv.Buffer.{
  Buffer, buffer_init, buffer_empty, buffer_reset, buffer_remain_read, buffer_remain_write,
}
use zeroserv.Memcached.Item.{Item, load_item, modify}
use zeroserv.Memcached.Items.{Cache, Stats, with_heap, do_item_remove, u32, u64}
use zeroserv.Memcached.Store.{System, do_store_item}
use zeroserv.Memcached.Conn.{
  ConnState, conn_listening, conn_read, conn_write, conn_nread, conn_swallow, conn_closing,
  conn_mwrite, Conn, Server, out_string, with_cache, with_stats, process_command,
}
use zeroserv.Memcached.Conn.Texts.{
  crlf, bad_chunk, stored_reply, exists_reply, not_found, not_stored,
}

-- EAGAIN of Linux.
abbrev pub eagain : ℕ
eagain = 11

-- A server, the connection's socket, and whether the descriptor is open.
pub record Socket : Type 0 where
  pub server : Server
  pub net : List (List ℕ)
  pub ended : Bool
  pub alive : Bool

-- What recv returns.
pub data Received : Type 0 where
  got : List ℕ → Received
  nothing : Received
  end_of_stream : Received

abbrev pub recv_piece : ℕ → Socket → List (List ℕ) → Received × Socket
recv_piece n k [] = (if k.ended then end_of_stream else nothing, k)
recv_piece n k (piece ∷ net) =
    if leb (length piece) n
    then (got piece, record k { net = net })
    else (got (take n piece), record k { net = drop n piece ∷ net })

unfoldable pub recv : ℕ → Socket → Received × Socket
recv n k = recv_piece n k k.net

abbrev pub with_conn : Conn → Server → Server
with_conn c s = record s { conn = c }

-- The unread bytes of the input buffer.
abbrev pub unread : Buffer → List ℕ
unread b = take (b.r - b.curr) (drop b.curr b.buff)

-- `memchr(ib->curr, '\n', ...)`, as the offset from `curr`.
unfoldable pub find_newline : List ℕ → Option ℕ
find_newline [] = none
find_newline (ch ∷ text) =
    let rest = find_newline text in
    if ch == 10 then some 0 else elim rest [ none ↦ none | some n ↦ some (suc n) ]

-- The bytes before the first zero byte.
unfoldable pub c_string : List ℕ → List ℕ
c_string [] = []
c_string (ch ∷ text) = let rest = c_string text in if ch == 0 then [] else ch ∷ rest

-- Whether the value ends in a line end: `strncmp(ITEM_data(it) + it->nbytes - 2, "\r\n", 2)`.
unfoldable pub ends_line : Item → Bool
ends_line i = elim (drop (i.nbytes - 2) i.contents) [
  | a ∷ b ∷ rest ↦ (a == 13) && (b == 10)
  | _ ↦ false
]

abbrev pub store_reply : ℕ → List ℕ
store_reply ret =
    if ret == 1
    then stored_reply
    else if ret == 2
    then exists_reply
    else if ret == 3
    then not_found
    else not_stored

module _ (hash : List ℕ → ℕ) (sys : System) where
  abbrev pub store_value : Server → Run Server
  store_value s = do
    r ← do_store_item hash sys s.conn.item s.conn.item_comm s.cache
    out_string (store_reply r.0) (with_cache r.1 s)

  unfoldable pub complete_nread : Server → Run Server
  complete_nread s = do
    i ← load_item s.conn.item s.cache.lists.heap
    s1 ← if ends_line i then store_value s else out_string bad_chunk s
    cache ← do_item_remove hash s1.conn.item s1.cache
    ok (record s1 { cache = cache; conn = record s1.conn { item = 0; rd = false } })

  -- The length of the command before the line end.
  abbrev pub command_length : ℕ → List ℕ → ℕ
  command_length el text =
      if ltb 1 el && elim (drop (el - 1) text) [ [] ↦ false | ch ∷ rest ↦ ch == 13 ]
      then el - 1
      else el

  -- The command up to the line end at `el`, and the bytes behind it.
  unfoldable pub run_command : ℕ → ℕ → Server → Run Server
  run_command pid el s = do
    let ib = s.conn.ib
    let text = unread ib
    let len = command_length el text
    buff ← memcpy ib.buff (ib.curr + len) (0 ∷ [])
    demand (leb (ib.curr + el + 1) ib.r) assert_failed
    let c = record s.conn { ib = record ib { buff = buff } }
    s1 ← process_command hash sys pid (c_string (take len text)) (with_conn c s)
    let ib1 = record s1.conn.ib { curr = ib.curr + el + 1 }
    demand (leb ib1.curr ib1.r) assert_failed
    ok (with_conn (record s1.conn { ib = ib1 }) s1)

  abbrev pub run_found : ℕ → Server → Option ℕ → Run (Bool × Server)
  run_found pid s none = ok (false, s)
  run_found pid s (some el) = run_command pid el s >>= λ s'. ok (true, s')

  -- Whether a command was processed.
  unfoldable pub try_read_command : ℕ → Server → Run (Bool × Server)
  try_read_command pid s =
      if buffer_empty s.conn.ib
      then ok (false, s)
      else run_found pid s (find_newline (unread s.conn.ib))

abbrev pub lt_int : ℤ → ℤ → Bool
lt_int (pos a) (pos b) = ltb a b
lt_int (pos a) (negsuc b) = false
lt_int (negsuc a) (pos b) = true
lt_int (negsuc a) (negsuc b) = ltb b a

abbrev with_server : Server → Socket → Socket
with_server s k = record k { server = s }

abbrev set_state : ConnState → Socket → Socket
set_state state k = with_server (with_conn (record k.server.conn { state = state }) k.server) k

-- `ib->r += n` behind the bytes that recv wrote.
abbrev pub receive_into : Received → Socket → Run (Received × Socket)
receive_into (got piece) k = do
  let s = k.server
  let ib = s.conn.ib
  buff ← memcpy ib.buff ib.r piece
  let c = record s.conn { ib = record ib { buff = buff; r = ib.r + length piece } }
  ok (got piece, with_server (with_conn c s) k)
receive_into nothing k = ok (nothing, with_server (record k.server { errno = eagain }) k)
receive_into end_of_stream k = ok (end_of_stream, k)

-- `log_fatal` ends the process.
unfoldable pub read_bytes : ℤ → Socket → Run (Received × Socket)
read_bytes (negsuc n) k = fault exit_one
read_bytes (pos n) k =
    let r = recv n k in
    if (n == 0) || lt_int (buffer_remain_write k.server.conn.ib) (pos n)
    then fault exit_one
    else receive_into r.0 r.1

unfoldable pub count_read : ℕ → Socket → Socket
count_read n k =
    let st = k.server.cache.stats in
    with_server (with_stats (record st { bytes_read = (st.bytes_read + n) % u64 }) k.server) k

-- The number of bytes that recv returned, 0 at the end of the stream and for no bytes.
abbrev pub received : Received → ℕ
received (got piece) = length piece
received nothing = 0
received end_of_stream = 0

abbrev pub is_again : Received → Bool
is_again nothing = true
is_again r = false

abbrev pub same_int : ℤ → ℕ → Bool
same_int (pos a) b = a == b
same_int (negsuc a) b = false

-- The loop of try_read_network, on fuel; `none` means that the fuel ran out. The function returns 1.
unfoldable pub try_read_network : ℕ → Socket → Run (Option Socket)
try_read_network zero k = ok none
try_read_network (suc fuel) k = do
  let avail = buffer_remain_write k.server.conn.ib
  r ← read_bytes avail k
  let n = received r.0
  let again = try_read_network fuel (count_read n r.1)
  if n == 0
      then ok (some (if is_again r.0 then r.1 else set_state conn_closing r.1))
      else if same_int avail n
      then again
      else ok (some (count_read n r.1))

abbrev pub map_server : (Server → Run Server) → Socket → Run Socket
map_server f k = f k.server >>= λ s. ok (with_server s k)

module _ (hash : List ℕ → ℕ) where
  -- conn_close with conn_cleanup; fd_delete and mc_disconnect give the descriptor and the memory back.
  unfoldable pub conn_cleanup : Server → Run Server
  conn_cleanup s =
      if s.conn.item == 0
      then ok s
      else do_item_remove hash s.conn.item s.cache >>= λ cache.
          ok (record s { cache = cache; conn = record s.conn { item = 0 } })

  unfoldable pub conn_close : Socket → Run Socket
  conn_close k = do
    s ← conn_cleanup k.server
    let st = s.cache.stats
    let s1 = with_stats (record st { curr_conns = (st.curr_conns + u32 - 1) % u32 }) s
    ok (record k { server = s1; alive = false })

  -- `sent` is what send returns, 0 or less for none.
  unfoldable pub mc_write : ℕ → Socket → Run Socket
  mc_write sent k =
      let s = k.server in
      let st = s.cache.stats in
      let ob = record s.conn.ob { curr = s.conn.ob.curr + sent } in
      let counted = with_stats (record st { bytes_written = (st.bytes_written + sent) % u64 }) s in
      if sent == 0
      then conn_close k
      else if buffer_empty ob
      then ok (
          with_server
            (with_conn
              (record s.conn {
                ib = buffer_reset s.conn.ib;
                ob = buffer_reset ob;
                state = conn_read;
                wr = false;
                rd = true;
              })
              counted)
            k)
      else ok (with_server (with_conn (record s.conn { ob = ob }) counted) k)

  -- The value's bytes that are in the input buffer already.
  unfoldable pub copy_value : Server → Run Server
  copy_value s = do
    let c = s.conn
    let text = unread c.ib
    let n = if ltb c.rlbytes (length text) then c.rlbytes else length text
    i ← load_item c.item s.cache.lists.heap
    contents ← memcpy i.contents c.ritem (take n text)
    heap ← modify c.item (λ j. record j { contents = contents }) s.cache.lists.heap
    let c' = record c {
      ritem = c.ritem + n;
      rlbytes = c.rlbytes - n;
      ib = record c.ib { curr = c.ib.curr + n };
    }
    ok (record s { cache = with_heap heap s.cache; conn = c' })

  -- The read of the rest of a value.
  unfoldable pub read_value : Socket → Run Socket
  read_value k = do
    r ← read_bytes (pos k.server.conn.rlbytes) k
    let n = received r.0
    let k1 = count_read n r.1
    let c = k1.server.conn
    let moved = record c { ritem = c.ritem + n; rlbytes = c.rlbytes - n }
    ok (if n == 0 then set_state conn_closing r.1 else with_server (with_conn moved k1.server) k1)

  abbrev or_same : Socket → Option Socket → Socket
  or_same k none = k
  or_same k (some k') = k'

  module _ (sys : System) (pid : ℕ) where
    -- The case conn_read of mc_read: whether the loop ends. Two rounds are enough for the inner loop.
    unfoldable pub round_read : Socket → Run (Bool × Socket)
    round_read k = do
      r ← try_read_command hash sys pid k.server
      if r.0
          then ok (r.1.conn.wr, with_server r.1 k)
          else (try_read_network 2 (with_server r.1 k) >>= λ o. ok (false, or_same k o))

    -- The case conn_nread.
    unfoldable pub round_nread : Socket → Run (Bool × Socket)
    round_nread k =
        if k.server.conn.rlbytes == 0
        then (map_server (complete_nread hash sys) k >>= λ k'. ok (k'.server.conn.wr, k'))
        else if buffer_empty k.server.conn.ib
        then (read_value k >>= λ k'. ok (false, k'))
        else (map_server copy_value k >>= λ k'. ok (false, k'))

    abbrev pub round_of : ConnState → Socket → Run (Bool × Socket)
    round_of conn_read k = round_read k
    round_of conn_nread k = round_nread k
    round_of conn_closing k = conn_close k >>= λ k'. ok (true, k')
    round_of state k = ok (false, k)

    -- The loop of mc_read on fuel; `none` means that the fuel ran out.
    unfoldable pub mc_read : ℕ → Socket → Run (Option Socket)
    mc_read zero k = ok none
    mc_read (suc fuel) k = do
      r ← round_of k.server.conn.state k
      let again = mc_read fuel r.1
      if r.0 then ok (some r.1) else again

-- The connection's other fields are what malloc's memory holds, here those of `s`; `block1` and `block2` are what the two mallocs for the
-- buffers' memory return.
unfoldable pub mc_accept : List ℕ → List ℕ → Server → Server
mc_accept block1 block2 s =
    let conn = s.conn in
    let cache = s.cache in
    let st = cache.stats in
    record s {
      cache = record cache {
        stats = record st {
          curr_conns = (st.curr_conns + 1) % u32;
          total_conns = (st.total_conns + 1) % u32;
        };
      };
      conn = record conn {
        ib = buffer_init block1 4096;
        ob = buffer_init block2 4096;
        state = conn_read;
        item = 0;
      };
    }
