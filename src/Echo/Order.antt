-- ===== src/Echo/Order.antt =====
-- src/handler/echo.c: `echo_read` and `echo_write` on the stream of a connection's bytes.
use zeroserv.Prelude.{
  ℕ, ◌+◌, ◌-◌, ◌≤◌, ◌<◌, ◌≡◌, refl, sym, ap, subst, ◌∙◌, List, [], ◌∷◌, ◌++◌, append_assoc,
  append-nil, take-append-drop, ltb, ◌==◌, if◌then◌else◌, length, take, drop, min, arith,
  Bool-cases, ◌⊎◌, inl, inr, Run, ok, fault, out_of_bounds, memcpy, length-take_le, drop-drop,
  drop-take, take-take,
}
use zeroserv.Buffer.{Buffer, buffer_empty, buffer_reset}
use zeroserv.Buffer.Bounds.{IsValid, sizes_exact}
use zeroserv.Buffer.Queue.{
  pending, appended, appended-IsValid, pending-appended, memcpy_fits, length-memcpy, window_write,
}
use zeroserv.Echo.{Conn, echo_read, echo_write}

-- Everything that the client sent or will send, in order, as the connection holds it.
abbrev pub stream : Conn → List ℕ
stream c = c.outgoing ++ (pending c.buffer ++ c.incoming)

-- How many bytes `recv` moves when the kernel picks `k`.
abbrev pub moved : ℕ → Conn → ℕ
moved k c = min k (min (c.buffer.total - c.buffer.r) (length c.incoming))

-- The buffer with a terminator written at the write position.
abbrev terminated : Buffer → Buffer
terminated b = record b { buff = take b.r b.buff ++ ((0 ∷ []) ++ drop (b.r + 1) b.buff) }

terminated-IsValid :
    {b : Buffer}
    → IsValid b
    → b.r < b.total
    → IsValid (terminated b) × (pending (terminated b) ≡ pending b)
terminated-IsValid {b} v room =
    let none_more : b.r + 0 - b.curr ≡ b.r - b.curr = omega arith in
    let rest : List ℕ = drop (b.r + 1) b.buff in
    let window =
      window_write b.buff (0 ∷ []) rest b.curr b.r 0 v.behind (omega arith) (omega arith) in
    (
      record {
        behind = v.behind;
        inside = v.inside;
        block = length-memcpy b.buff b.r (0 ∷ []) (omega arith) ∙ v.block;
        small = v.small;
      },
      ap (λ k. take k (drop b.curr (take b.r b.buff ++ ((0 ∷ []) ++ rest)))) (sym none_more)
          ∙ (window ∙ append-nil (pending b)),
    )

-- The connection after the bytes `src` of it were received.
abbrev received : List ℕ → List ℕ → Conn → Conn
received src rest c = record {
  buffer = terminated (appended c.buffer src);
  incoming = rest;
  outgoing = c.outgoing;
}

stream-received :
    (c : Conn) (src rest : List ℕ)
    → IsValid c.buffer
    → src ++ rest ≡ c.incoming
    → c.buffer.r + length src < c.buffer.total
    → IsValid (received src rest c).buffer × (stream (received src rest c) ≡ stream c)
stream-received c src rest v split room =
    let v1 : IsValid (appended c.buffer src) = appended-IsValid src v (omega arith) in
    let (valid, same) = terminated-IsValid v1 room in
    let whole : pending (terminated (appended c.buffer src)) ≡ pending c.buffer ++ src =
      same ∙ pending-appended src v (omega arith) in
    (
      valid,
      ap (λ p. c.outgoing ++ (p ++ rest)) whole
          ∙ ap (λ p. c.outgoing ++ p)
              (append_assoc (pending c.buffer) src rest ∙ ap (λ p. pending c.buffer ++ p) split),
    )

-- What `echo_read` can give: nothing was moved, the bytes fill the buffer, or they fit.
abbrev pub ReadOutcome : ℕ → Conn → Type 0
ReadOutcome k c =
    ((moved k c ≡ 0) × (echo_read k c ≡ ok (3, c)))
    ⊎ (((0 < moved k c)
          × (c.buffer.r + moved k c ≡ c.buffer.total)
          × (echo_read k c ≡ fault out_of_bounds))
        ⊎ ((0 < moved k c)
            × (c.buffer.r + moved k c < c.buffer.total)
            × (d : Conn) × (echo_read k c ≡ ok (8, d))
            × IsValid d.buffer
            × (stream d ≡ stream c)))

-- On a valid buffer, however many bytes the kernel moves, `echo_read` does one of three things.
-- Nothing was moved: it returns ZB_CLOSE and changes nothing. The bytes fill the buffer: the
-- terminator is written behind the block. Otherwise it asks for writing, and the stream of the
-- connection's bytes is the same as before and the buffer valid.
pub echo_read-ReadOutcome : (k : ℕ) (c : Conn) → IsValid c.buffer → ReadOutcome k c
unfolding echo_read
echo_read-ReadOutcome k c v =
    let moved_to : List ℕ → ℕ → Run (ℕ × Conn) = λ m n. ok (
      8,
      record c {
        buffer = record c.buffer { buff = m; r = n };
        incoming = drop (moved k c) c.incoming;
      },
    ) in
    let (_, remain, _, _, _) = sizes_exact v in
    let src : List ℕ = take (moved k c) c.incoming in
    let size : length src ≡ moved k c = length-take_le (moved k c) c.incoming (omega arith) in
    let b : Buffer = appended c.buffer src in
    let at : c.buffer.r + length src ≡ c.buffer.r + moved k c = ap (λ n. c.buffer.r + n) size in
    let first : memcpy c.buffer.buff c.buffer.r src ≡ ok b.buff =
      memcpy_fits c.buffer.buff c.buffer.r src (omega (arith, size, v.block, v.inside)) in
    let block : length b.buff ≡ c.buffer.total =
      length-memcpy c.buffer.buff c.buffer.r src (omega (arith, size, v.block, v.inside))
      ∙ v.block in
    elim (Bool-cases (moved k c == 0)) [
      | inl e ↦ inl (ground (arith, e), rw (remain, e))
      | inr some' ↦
          let pos' : 0 < moved k c = ground (arith, some') in
          elim (Bool-cases (ltb (c.buffer.r + moved k c) c.buffer.total)) [
            | inr full ↦
                let end : c.buffer.r + moved k c ≡ c.buffer.total =
                  ground (arith, full, v.inside) in
                let behind : memcpy b.buff (c.buffer.r + moved k c) (0 ∷ []) ≡ fault out_of_bounds =
                  ground (arith, block, end) in
                inr (inl (pos', end, rw (remain, some', first, behind)))
            | inl fits ↦
                let room : c.buffer.r + moved k c < c.buffer.total = ground (arith, fits) in
                let second : memcpy b.buff (c.buffer.r + moved k c) (0 ∷ [])
                    ≡ ok (terminated b).buff =
                  subst (λ n. memcpy b.buff n (0 ∷ []) ≡ ok (terminated b).buff) at
                    (memcpy_fits b.buff b.r (0 ∷ []) (omega (arith, block, size, room))) in
                let (valid, same) =
                  stream-received c src (drop (moved k c) c.incoming) v
                    (take-append-drop (moved k c) c.incoming) (omega (arith, size, room)) in
                inr (
                  inr (
                    pos',
                    room,
                    received src (drop (moved k c) c.incoming) c,
                    rw (remain, some', first, second) (ap (moved_to (terminated b).buff) (sym at)),
                    valid,
                    same,
                  ))
          ]
    ]

-- How many bytes `send` moves when the kernel picks `k`.
abbrev pub sendable : ℕ → Conn → ℕ
sendable k c = min k (c.buffer.r - c.buffer.curr)

-- The bytes that are left, behind the `n` that were sent.
pending_rest :
    (b : Buffer) (n : ℕ)
    → n ≤ b.r - b.curr
    → take n (drop b.curr b.buff) ++ pending (record b { curr = b.curr + n }) ≡ pending b
pending_rest b n le =
    let ys : List ℕ = drop b.curr b.buff in
    let cut : b.r - (b.curr + n) ≡ b.r - b.curr - n = omega arith in
    let rest : take (b.r - (b.curr + n)) (drop (b.curr + n) b.buff)
        ≡ drop n (take (b.r - b.curr) ys) =
      rw (← drop-drop n b.curr b.buff, cut) (sym (drop-take n (b.r - b.curr) ys)) in
    ap (λ l. take n ys ++ l) rest
    ∙ (ap (λ l. l ++ drop n (take (b.r - b.curr) ys)) (sym (take-take n (b.r - b.curr) ys le))
        ∙ take-append-drop n (take (b.r - b.curr) ys))

-- The stream after `n` bytes were sent, whatever buffer holds the rest.
sent_stream :
    (c : Conn) (n : ℕ) (b : Buffer)
    → n ≤ c.buffer.r - c.buffer.curr
    → pending b ≡ pending (record c.buffer { curr = c.buffer.curr + n })
    → stream (record c {
      buffer = b;
      outgoing = c.outgoing ++ take n (drop c.buffer.curr c.buffer.buff);
    })
      ≡ stream c
sent_stream c n b le same =
    let out : List ℕ = take n (drop c.buffer.curr c.buffer.buff) in
    append_assoc c.outgoing out (pending b ++ c.incoming)
    ∙ ap (λ l. c.outgoing ++ l)
        (sym (append_assoc out (pending b) c.incoming)
          ∙ ap (λ l. l ++ c.incoming) (ap (λ l. out ++ l) same ∙ pending_rest c.buffer n le))

empty_pending :
    (b : Buffer) (n : ℕ)
    → b.r ≡ b.curr + n
    → pending (record b { r = 0; curr = 0 }) ≡ pending (record b { curr = b.curr + n })
empty_pending b n e = let none_left : b.r - (b.curr + n) ≡ 0 = omega arith in rw none_left refl

-- The buffer after `n` bytes were sent: it starts again when none is left.
abbrev pub sent_buffer : Buffer → ℕ → Buffer
sent_buffer b n =
    if b.r == b.curr + n then record b { r = 0; curr = 0 } else record b { curr = b.curr + n }

-- On a valid buffer `echo_write` returns ZB_CLOSE and changes nothing if the kernel moves nothing.
-- Otherwise the first unread bytes go out, the stream of the connection's bytes is the same as
-- before, the buffer stays valid, and exactly when every byte received was sent the handler stops
-- writing and both positions go back to the start.
pub echo_write-stream :
    (k : ℕ) (c : Conn)
    → IsValid c.buffer
    → let (flag, d) = echo_write k c in
      IsValid d.buffer
      × (stream d ≡ stream c)
      × (flag ≡ (
          if sendable k c == 0
          then 3
          else if c.buffer.r == c.buffer.curr + sendable k c
          then 2
          else 0))
      × (d ≡ (
          if sendable k c == 0 then c else record c {
            buffer = sent_buffer c.buffer (sendable k c);
            outgoing = c.outgoing ++ take (sendable k c) (pending c.buffer);
          }))
unfolding echo_write buffer_empty buffer_reset
echo_write-stream k c v =
    let (read, _, _, _, _) = sizes_exact v in
    let n = sendable k c in
    let unsent : List ℕ = drop c.buffer.curr c.buffer.buff in
    let first : take n unsent ≡ take n (pending c.buffer) =
      sym (take-take n (c.buffer.r - c.buffer.curr) unsent (omega arith)) in
    let written : Buffer → List ℕ → Conn =
      λ b out. record c { buffer = b; outgoing = c.outgoing ++ out } in
    elim (Bool-cases (sendable k c == 0)) [
      | inl e ↦ rw (read, e) (v, refl, refl, refl)
      | inr some' ↦ elim (Bool-cases (c.buffer.r == c.buffer.curr + sendable k c)) [
        | inl done ↦
            rw (read, some', done)
              (
                record {
                  behind = omega arith;
                  inside = omega arith;
                  block = v.block;
                  small = v.small;
                },
                sent_stream c (sendable k c) (record c.buffer { r = 0; curr = 0 }) (omega arith)
                    (empty_pending c.buffer (sendable k c) (ground (arith, done))),
                refl,
                ap (written (record c.buffer { r = 0; curr = 0 })) first,
              )
        | inr more ↦
            rw (read, some', more)
              (
                record {
                  behind = omega (arith, v.behind);
                  inside = v.inside;
                  block = v.block;
                  small = v.small;
                },
                sent_stream c (sendable k c)
                    (record c.buffer { curr = c.buffer.curr + sendable k c }) (omega arith) refl,
                refl,
                ap (written (record c.buffer { curr = c.buffer.curr + sendable k c })) first,
              )
      ]
    ]
