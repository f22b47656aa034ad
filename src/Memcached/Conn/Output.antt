-- ===== src/Memcached/Conn/Output.antt =====
-- src/handler/memcached.c: what add_out_string adds to the output buffer, and several calls of it.
use zeroserv.Prelude.{
  ℕ, ◌+◌, ◌≤◌, ◌≡◌, refl, ap, ◌∙◌, true, false, List, ◌++◌, arith, length, take, drop, ok,
  length-append, length-take, length-drop, append_assoc, append-nil, take-append,
}
use zeroserv.Memcached.Conn.{Server, add_out_string}

-- The bytes of the output buffer that are filled, sent ones included.
abbrev pub filled : Server → List ℕ
filled s = take s.conn.ob.r s.conn.ob.buff

-- `s'` has the text behind the output of `s`, and the same cache.
pub record Added (text : List ℕ) (s s' : Server) : Type 0 where
  pub cache : s'.cache ≡ s.cache
  pub filled : filled s' ≡ filled s ++ text
  pub end_at : s'.conn.ob.r ≡ s.conn.ob.r + length text
  pub size : length s'.conn.ob.buff ≡ length s.conn.ob.buff
  pub watched : s'.conn.wr ≡ true

abbrev pub HasRoom : ℕ → Server → Type 0
HasRoom n s = s.conn.ob.r + n ≤ length s.conn.ob.buff

overwrite : List ℕ → ℕ → List ℕ → List ℕ
overwrite mem off text = take off mem ++ (text ++ drop (off + length text) mem)

length-overwrite :
    (mem : List ℕ) (off : ℕ) (text : List ℕ)
    → off + length text ≤ length mem
    → length (overwrite mem off text) ≡ length mem
unfolding overwrite
length-overwrite mem off text h = omega (
  arith,
  length-append (take off mem) (text ++ drop (off + length text) mem),
  length-append text (drop (off + length text) mem),
  length-take off mem,
  length-drop (off + length text) mem,
)

take-overwrite :
    (mem : List ℕ) (off : ℕ) (text : List ℕ)
    → off + length text ≤ length mem
    → take (off + length text) (overwrite mem off text) ≡ take off mem ++ text
unfolding overwrite
take-overwrite mem off text h =
    let front : length (take off mem) ≡ off = omega (arith, length-take off mem) in
    let rest = drop (off + length text) mem in
    take-append (off + length text) (take off mem) (text ++ rest) (omega (arith, front))
    ∙ ap (λ n. take off mem ++ take n (text ++ rest)) {y = length text} (omega (arith, front))
    ∙ ap (λ t. take off mem ++ t)
        (take-append (length text) text rest (omega arith)
          ∙ ap (λ n. text ++ take n rest) {y = 0} (omega arith)
          ∙ append-nil text)

-- With room for the text add_out_string adds it behind the output.
pub add_out_string-Added :
    (text : List ℕ) (s : Server)
    → HasRoom (length text) s
    → (s' : Server) × (add_out_string text s ≡ ok s') × Added text s s'
unfolding add_out_string overwrite
add_out_string-Added text s room =
    let ob = s.conn.ob in
    (
      record s {
        conn = record s.conn {
          ob = record ob { buff = overwrite ob.buff ob.r text; r = ob.r + length text };
          rd = false;
          wr = true;
        };
      },
      ground (arith, room),
      record {
        cache = refl;
        filled = take-overwrite ob.buff ob.r text room;
        end_at = refl;
        size = length-overwrite ob.buff ob.r text room;
        watched = refl;
      },
    )

Added-trans :
    (text more : List ℕ) (s s1 s2 : Server)
    → Added text s s1
    → Added more s1 s2
    → Added (text ++ more) s s2
Added-trans text more s s1 s2 a b = record {
  cache = b.cache ∙ a.cache;
  filled = b.filled ∙ ap (λ t. t ++ more) a.filled ∙ append_assoc (filled s) text more;
  end_at = omega (arith, a.end_at, b.end_at, length-append text more);
  size = b.size ∙ a.size;
  watched = b.watched;
}

-- Two texts, one behind the other.
pub add_twice :
    (text more : List ℕ) (s s1 : Server)
    → HasRoom (length text + length more) s
    → Added text s s1
    → (s2 : Server) × (add_out_string more s1 ≡ ok s2) × Added (text ++ more) s s2
add_twice text more s s1 room a =
    let (s2, runs, b) = add_out_string-Added more s1 (omega (arith, a.end_at, a.size, room)) in
    (s2, runs, Added-trans text more s s1 s2 a b)
