-- ===== src/Memcached/Read/Flood.antt =====
-- src/handler/memcached.c: reads of more than the input buffer holds.
use zeroserv.Prelude.{
  ℕ, suc, ◌+◌, ◌-◌, ◌≤◌, ◌<◌, ◌≡◌, refl, ap, ◌∙◌, true, false, ◌||◌, List, ◌∷◌, ◌++◌, none, some,
  ◌==◌, if◌then◌else◌, arith, Bool-cases, inl, inr, ◌⊎◌, length, take, drop, leb, ok, fault,
  exit_one, out_of_bounds, ◌>>=◌, pos, ltb, memcpy, length-take, length-append, length-drop,
}
use zeroserv.Buffer.{buffer_empty, buffer_remain_write}
use zeroserv.Buffer.Bounds.{IsValid, sizes_exact}
use zeroserv.Memcached.Conn.{ConnState, conn_read, conn_nread, Server}
use zeroserv.Memcached.Store.{System}
use zeroserv.Memcached.Read.Spin.{no_command}
use zeroserv.Memcached.Read.{
  Socket, got, find_newline, unread, recv, recv_piece, lt_int, receive_into, read_bytes,
  try_read_network, round_of, round_read, round_nread, read_value, mc_read, count_read, same_int,
}

-- No room for as much as is asked for, or nothing is asked for.
pub read_bytes_exits :
    (n : ℕ) (k : Socket)
    → IsValid k.server.conn.ib
    → ((n == 0) || ltb (k.server.conn.ib.total - k.server.conn.ib.r) n) ≡ true
    → read_bytes (pos n) k ≡ fault exit_one
unfolding read_bytes
read_bytes_exits n k valid full =
    let (read, remain, written, passed, sum) = sizes_exact valid in
    ap (λ b. if b then fault exit_one else receive_into (recv n k).0 (recv n k).1) {y = true}
      (ap (λ z. (n == 0) || lt_int z (pos n)) remain ∙ full)

-- The client has sent at least as many bytes as the buffer has free, without an end of the command.
pub record IsFlooding (k : Socket) : Type 0 where
  pub state : k.server.conn.state ≡ conn_read
  pub partial : find_newline (unread k.server.conn.ib) ≡ none
  pub piece : List ℕ
  pub later : List (List ℕ)
  pub net : k.net ≡ piece ∷ later
  pub enough : k.server.conn.ib.total - k.server.conn.ib.r ≤ length piece

-- The value that the client announced does not fit behind the command, and does not stand there.
pub record IsAnnounced (k : Socket) : Type 0 where
  pub state : k.server.conn.state ≡ conn_nread
  pub empty : buffer_empty k.server.conn.ib ≡ true
  pub large : k.server.conn.ib.total - k.server.conn.ib.r < k.server.conn.rlbytes

recv_full :
    (n : ℕ) (k : Socket) (piece : List ℕ) (later : List (List ℕ))
    → k.net ≡ piece ∷ later
    → n ≤ length piece
    → (d : List ℕ) × (k1 : Socket) × (recv n k ≡ (got d, k1))
      × (length d ≡ n)
      × (k1.server ≡ k.server)
unfolding recv
recv_full n k piece later net enough = elim (Bool-cases (leb (length piece) n)) [
  | inl all ↦ (
    piece,
    record k { net = later },
    ap (recv_piece n k) net ∙ ground (arith, all),
    ground (arith, all, enough),
    refl,
  )
  | inr part ↦ (
    take n piece,
    record k { net = drop n piece ∷ later },
    ap (recv_piece n k) net ∙ ground (arith, part),
    length-take n piece ∙ omega (arith, enough),
    refl,
  )
]

-- A read that fills the buffer.
record IsFilled (d : List ℕ) (k k' : Socket) : Type 0 where
  pub reads : read_bytes (buffer_remain_write k.server.conn.ib) k ≡ ok (got d, k')
  pub all : length d ≡ k.server.conn.ib.total - k.server.conn.ib.r
  pub valid : IsValid k'.server.conn.ib
  pub full : k'.server.conn.ib.r ≡ k'.server.conn.ib.total

-- The socket after the bytes `d` came into the buffer's memory `m`.
abbrev received_at : List ℕ → Socket → Server → List ℕ → Socket
received_at d k1 s m =
    let b = s.conn.ib in
    let c = record s.conn { ib = record b { buff = m; r = b.r + length d } } in
    record k1 { server = record s { conn = c } }

fills :
    (d : List ℕ) (k k1 : Socket)
    → IsValid k.server.conn.ib
    → k.server.conn.ib.r < k.server.conn.ib.total
    → recv (k.server.conn.ib.total - k.server.conn.ib.r) k ≡ (got d, k1)
    → length d ≡ k.server.conn.ib.total - k.server.conn.ib.r
    → k1.server ≡ k.server
    → (k' : Socket) × IsFilled d k k'
unfolding read_bytes
fills d k k1 valid free gets all same =
    let b = k.server.conn.ib in
    let n = b.total - b.r in
    let (read, remain, written, passed, sum) = sizes_exact valid in
    let buff = take b.r b.buff ++ (d ++ drop (b.r + length d) b.buff) in
    let c = record k.server.conn { ib = record b { buff = buff; r = b.r + length d } } in
    let k' = record k1 { server = record k.server { conn = c } } in
    let test : ((n == 0) || lt_int (buffer_remain_write b) (pos n)) ≡ false =
      ap (λ z. (n == 0) || lt_int z (pos n)) remain ∙ ground (arith, free) in
    let fits : leb (b.r + length d) (length b.buff) ≡ true =
      ground (arith, all, valid.block, valid.inside) in
    (
      k',
      record {
        reads =
            ap (λ z. read_bytes z k) remain
            ∙ ap (λ b. if b then fault exit_one else receive_into (recv n k).0 (recv n k).1) test
            ∙ ap (λ r. receive_into r.0 r.1) gets
            ∙ ap
                (λ s. memcpy s.conn.ib.buff s.conn.ib.r d >>= λ m. ok (got d, received_at d k1 s m))
                same
            ∙ ap
                (λ b. (if b then ok buff else fault out_of_bounds) >>= λ m.
                  ok (got d, received_at d k1 k.server m))
                fits;
        all = all;
        valid = record {
          behind = omega (arith, valid.behind);
          inside = omega (arith, all, free);
          block =
              length-append (take b.r b.buff) (d ++ drop (b.r + length d) b.buff)
              ∙ omega (
                arith,
                length-take b.r b.buff,
                length-append d (drop (b.r + length d) b.buff),
                length-drop (b.r + length d) b.buff,
                all,
                free,
                valid.block,
              );
          small = valid.small;
        };
        full = omega (arith, all, free);
      },
    )

full_exits :
    (k : Socket)
    → IsValid k.server.conn.ib
    → k.server.conn.ib.r ≡ k.server.conn.ib.total
    → read_bytes (buffer_remain_write k.server.conn.ib) k ≡ fault exit_one
full_exits k valid full =
    let (read, remain, written, passed, sum) = sizes_exact valid in
    ap (λ z. read_bytes z k) remain
    ∙ read_bytes_exits (k.server.conn.ib.total - k.server.conn.ib.r) k valid (ground (arith, full))

-- Reading as many bytes as are free, or having none free, ends the process.
flood_exits :
    (k : Socket) (piece : List ℕ) (later : List (List ℕ))
    → IsValid k.server.conn.ib
    → k.net ≡ piece ∷ later
    → k.server.conn.ib.total - k.server.conn.ib.r ≤ length piece
    → try_read_network 2 k ≡ fault exit_one
unfolding try_read_network count_read
flood_exits k piece later valid net enough =
    elim (Bool-cases (ltb k.server.conn.ib.r k.server.conn.ib.total)) [
      | inr none_free ↦ rw (full_exits k valid (ground (arith, none_free, valid.inside))) refl
      | inl free ↦
          let (d, k1, gets, all, same) =
            recv_full (k.server.conn.ib.total - k.server.conn.ib.r) k piece later net enough in
          let (k', f) = fills d k k1 valid (ground (arith, free)) gets all same in
          let (read, remain, written, passed, sum) = sizes_exact valid in
          let some_bytes : (length d == 0) ≡ false = ground (arith, all, free) in
          let all_free : same_int (buffer_remain_write k.server.conn.ib) (length d) ≡ true =
            ap (λ z. same_int z (length d)) remain ∙ ground (arith, all) in
          rw (f.reads, some_bytes, all_free, full_exits (count_read (length d) k') f.valid f.full)
            refl
    ]

module _ (hash : List ℕ → ℕ) (sys : System) (pid : ℕ) where
  -- The loop of mc_read ends with what its first round ends with.
  first_round :
      (fuel : ℕ) (k : Socket) (state : ConnState)
      → k.server.conn.state ≡ state
      → round_of hash sys pid state k ≡ fault exit_one
      → mc_read hash sys pid (suc fuel) k ≡ fault exit_one
  unfolding mc_read
  first_round fuel k state at ends =
      ap
        (λ state. round_of hash sys pid state k >>= λ r.
          if r.0 then ok (some r.1) else mc_read hash sys pid fuel r.1)
        at
      ∙ ap (λ r. r >>= λ r. if r.0 then ok (some r.1) else mc_read hash sys pid fuel r.1) ends

  -- One client ends the whole server: on a valid input buffer, mc_read calls exit(1) in its first
  -- round if no command is complete and the client has sent at least as many bytes as the buffer
  -- has free, or if a value is awaited that is longer than the free space and nothing is unread.
  pub mc_read_exits :
      (fuel : ℕ) (k : Socket)
      → IsValid k.server.conn.ib
      → IsFlooding k ⊎ IsAnnounced k
      → mc_read hash sys pid (suc fuel) k ≡ fault exit_one
  unfolding round_read round_nread read_value
  mc_read_exits fuel k valid (inl h) = first_round fuel k conn_read h.state (
      rw (no_command hash sys pid k h.partial, flood_exits k h.piece h.later valid h.net h.enough)
        refl)
  mc_read_exits fuel k valid (inr h) = first_round fuel k conn_nread h.state (
      let asked : (k.server.conn.rlbytes == 0) ≡ false = ground (arith, h.large) in
      rw (asked, h.empty, read_bytes_exits k.server.conn.rlbytes k valid (ground (arith, h.large)))
        refl)
