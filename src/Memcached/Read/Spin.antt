-- ===== src/Memcached/Read/Spin.antt =====
-- mc_read in src/handler/memcached.c on a connection whose command is not complete.
use zeroserv.Prelude.{
  ℕ, zero, suc, ◌-◌, ◌<◌, ◌≡◌, refl, ap, ◌∙◌, false, List, [], none, some, ◌==◌, if◌then◌else◌,
  arith, Bool-cases, inl, inr, ok, fault, exit_one, ◌>>=◌, ◌||◌, pos,
}
use zeroserv.Buffer.{buffer_empty, buffer_remain_write}
use zeroserv.Buffer.Bounds.{IsValid, sizes_exact}
use zeroserv.Memcached.Conn.{conn_read}
use zeroserv.Memcached.Store.{System}
use zeroserv.Memcached.Read.{
  Socket, nothing, end_of_stream, recv_piece, lt_int, receive_into, run_found, find_newline, unread,
  recv, read_bytes, try_read_command, try_read_network, round_of, round_read, mc_read, eagain,
}

-- A connection that waits for the rest of a command, while the kernel has nothing for it.
pub record IsWaiting (k : Socket) : Type 0 where
  pub state : k.server.conn.state ≡ conn_read
  pub valid : IsValid k.server.conn.ib
  pub free : k.server.conn.ib.r < k.server.conn.ib.total
  pub partial : find_newline (unread k.server.conn.ib) ≡ none
  pub net : k.net ≡ []
  pub ended : k.ended ≡ false

-- All that a round changes.
abbrev pub set_errno : Socket → Socket
set_errno k = record k { server = record k.server { errno = eagain } }

recv_nothing : (n : ℕ) (k : Socket) → k.net ≡ [] → k.ended ≡ false → recv n k ≡ (nothing, k)
unfolding recv
recv_nothing n k net ended =
    ap (recv_piece n k) net ∙ ap (λ b. (if b then end_of_stream else nothing, k)) ended

read_nothing :
    (k : Socket)
    → IsWaiting k
    → read_bytes (buffer_remain_write k.server.conn.ib) k ≡ ok (nothing, set_errno k)
unfolding read_bytes
read_nothing k h =
    let n = k.server.conn.ib.total - k.server.conn.ib.r in
    let (read, remain, written, passed, sum) = sizes_exact h.valid in
    let b = k.server.conn.ib in
    let free : ((n == 0) || lt_int (buffer_remain_write b) (pos n)) ≡ false =
      ap (λ z. (n == 0) || lt_int z (pos n)) remain ∙ ground (arith, h.free) in
    let r = recv_nothing n k h.net h.ended in
    ap (λ z. read_bytes z k) remain
    ∙ ap (λ b. if b then fault exit_one else receive_into (recv n k).0 (recv n k).1) free
    ∙ ap (λ r. receive_into r.0 r.1) r

module _ (hash : List ℕ → ℕ) (sys : System) (pid : ℕ) where
  pub no_command :
      (k : Socket)
      → find_newline (unread k.server.conn.ib) ≡ none
      → try_read_command hash sys pid k.server ≡ ok (false, k.server)
  unfolding try_read_command
  no_command k h = elim (Bool-cases (buffer_empty k.server.conn.ib)) [
    | inl e ↦ ground (arith, e)
    | inr e ↦ ground (arith, e) ∙ ap (run_found hash sys pid k.server) h
  ]

  still : (k : Socket) → IsWaiting k → IsWaiting (set_errno k)
  still k h = record {
    state = h.state;
    valid = h.valid;
    free = h.free;
    partial = h.partial;
    net = h.net;
    ended = h.ended;
  }

  round_waits : (k : Socket) → IsWaiting k → round_read hash sys pid k ≡ ok (false, set_errno k)
  unfolding round_read try_read_network
  round_waits k h = rw (no_command k h.partial, read_nothing k h) refl

  -- As long as the rest of a command does not come, mc_read does not end: no number of rounds of its
  -- loop is enough, on a valid input buffer that is not full.
  pub mc_read_spins : (fuel : ℕ) (k : Socket) → IsWaiting k → mc_read hash sys pid fuel k ≡ ok none
  unfolding mc_read
  mc_read_spins zero k h = refl
  mc_read_spins (suc fuel) k h =
      ap
        (λ state. round_of hash sys pid state k >>= λ r.
          if r.0 then ok (some r.1) else mc_read hash sys pid fuel r.1)
        h.state
      ∙ ap (λ r. r >>= λ r. if r.0 then ok (some r.1) else mc_read hash sys pid fuel r.1)
          (round_waits k h)
      ∙ mc_read_spins fuel (set_errno k) (still k h)
