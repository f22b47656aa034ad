-- ===== src/Memcached/Conn.antt =====
-- src/handler/memcached.c: the commands of a connection and the answers in its output buffer. The
-- cache, the connection and errno are the record `Server`. A connection's `rd` and `wr` say whether
-- its descriptor is watched for reading and writing, which the EV_FD macros change. `sys` and
-- `pid` are what the system answers. The children are the texts (Texts), what is added to the output
-- buffer (Output), the text of a found item (ItemAnswer) and the answer of a get (Answer).
pub mod Texts
pub mod Output
pub mod ItemAnswer
pub mod Answer
use zeroserv.Prelude.{
  ℕ, ◌+◌, ◌-◌, ◌%◌, ◌^◌, Bool, true, false, ◌&&◌, ◌||◌, not, List, [], ◌∷◌, ◌++◌, Option, none,
  some, ltb, ◌==◌, if◌then◌else◌, length, take, same_text, Run, ok, fault, null_pointer, ◌>>=◌,
  memcpy, ℤ, pos, negsuc, to_int, to_size,
}
use zeroserv.Prelude.{zero, suc, ◌>>◌, demand, out_of_bounds, signed_overflow, read_bytes}
use zeroserv.Buffer.{Buffer}
use zeroserv.Memcached.Item.{Item, load_item}
use zeroserv.Memcached.Items.{
  Cache, Stats, key_of, new_item, do_item_alloc, do_item_unlink, do_item_remove, item_get, u64,
}
use zeroserv.Memcached.Items.Suffix.{digits}
use zeroserv.Memcached.Number.{strtol, strtoul}
use zeroserv.Memcached.Store.{
  System, nread_add, nread_set, nread_replace, nread_append, nread_prepend,
}
use zeroserv.Memcached.Tokens.{Token, tokenize_command}
use zeroserv.Memcached.Conn.Texts.*

-- `enum conn_states`
pub data ConnState : Type 0 where
  conn_listening : ConnState
  conn_read : ConnState
  conn_write : ConnState
  conn_nread : ConnState
  conn_swallow : ConnState
  conn_closing : ConnState
  conn_mwrite : ConnState

-- `struct conn`, without the fields that nothing uses. `item` is 0 for NULL, and `ritem` is the
-- offset in the item's value.
pub record Conn : Type 0 where
  pub state : ConnState
  pub write_and_go : ConnState
  pub item : ℕ
  pub ritem : ℕ
  pub rlbytes : ℕ
  pub item_comm : ℕ
  pub sbytes : ℕ
  pub ib : Buffer
  pub ob : Buffer
  pub rd : Bool
  pub wr : Bool

pub record Server : Type 0 where
  pub cache : Cache
  pub conn : Conn
  pub errno : ℕ

-- `set_wr`
abbrev pub set_wr : Conn → Conn
set_wr c = record c { rd = false; wr = true }

-- No function that adds to the output buffer looks at its size.
unfoldable pub add_out_string : List ℕ → Server → Run Server
add_out_string text s = do
  let ob = s.conn.ob
  buff ← memcpy ob.buff ob.r text
  let c = record s.conn { ob = record ob { buff = buff; r = ob.r + length text } }
  ok (record s { conn = set_wr c })

unfoldable pub out_string : List ℕ → Server → Run Server
out_string text s = do
  let ob = s.conn.ob
  buff1 ← memcpy ob.buff ob.r text
  buff2 ← memcpy buff1 (ob.r + length text) crlf
  let c = record s.conn { ob = record ob { buff = buff2; r = ob.r + (length text + 2) } }
  ok (record s { conn = set_wr c })

abbrev pub with_cache : Cache → Server → Server
with_cache cache s = record s { cache = cache }

abbrev pub with_stats : Stats → Server → Server
with_stats stats s = record s { cache = record s.cache { stats = stats } }

-- The text at a token's pointer; a NULL pointer is not read through.
abbrev pub text_of : Token → Run (List ℕ)
text_of t = elim t.value [ none ↦ fault null_pointer | some text ↦ ok text ]

-- `tokens[i]`, of which `i` is below their number.
abbrev pub token_at : List Token → ℕ → Run Token
token_at [] i = fault out_of_bounds
token_at (t ∷ tokens) zero = ok t
token_at (t ∷ tokens) (suc i) = token_at tokens i

module _ (hash : List ℕ → ℕ) where
  -- The three parts of an item's answer, and the reference given back.
  unfoldable pub answer_item : ℕ → Server → Run Server
  answer_item it s = do
    i ← load_item it s.cache.lists.heap
    s1 ← add_out_string value_text s
    s2 ← add_out_string (key_of i) s1
    data_bytes ← read_bytes (i.suffix ++ i.contents) (i.nsuffix + i.nbytes)
    s3 ← add_out_string data_bytes s2
    let st = s3.cache.stats
    cache ←
        do_item_remove hash it
          (record s3.cache { stats = record st { get_hits = (st.get_hits + 1) % u64 } })
    ok (with_cache cache s3)

  abbrev pub answer : Option ℕ → Server → Run Server
  answer none s =
      let st = s.cache.stats in
      ok (with_stats (record st { get_misses = (st.get_misses + 1) % u64 }) s)
  answer (some it) s = answer_item it s

  unfoldable pub process_get_command : List Token → Server → Run Server
  process_get_command tokens s = do
    token ← token_at tokens 1
    key ← text_of token
    let st = s.cache.stats
    let counted = record s.cache { stats = record st { get_cmds = (st.get_cmds + 1) % u64 } }
    r ← item_get hash (take token.length key) counted
    s1 ← answer r.0 (with_cache r.1 s)
    add_out_string end_text s1

-- `%ld` of an unsigned 64-bit field.
abbrev print_long : ℕ → List ℕ
print_long n = if ltb n (2 ^ 63) then digits 20 n else 45 ∷ digits 20 (2 ^ 64 - n)

abbrev stat_line : List ℕ → List ℕ → List ℕ
stat_line name value = name ++ (value ++ crlf)

-- What the sprintf calls of "stats" print; `evictions` is never changed.
unfoldable pub stats_reply : ℕ → Stats → List ℕ
stats_reply pid st =
    stat_line stat_pid (digits 10 pid)
    ++ (stat_line stat_pointer_size (digits 20 64)
        ++ (stat_line stat_curr_items (digits 10 st.curr_items)
            ++ (stat_line stat_total_items (digits 10 st.total_items)
                ++ (stat_line stat_bytes (print_long st.curr_bytes)
                    ++ (stat_line stat_curr_connections
                          (digits 10 ((st.curr_conns + 2 ^ 32 - 1) % 2 ^ 32))
                        ++ (stat_line stat_total_connections (digits 10 st.total_conns)
                            ++ (stat_line stat_cmd_get (print_long st.get_cmds)
                                ++ (stat_line stat_cmd_set (print_long st.set_cmds)
                                    ++ (stat_line stat_get_hits (print_long st.get_hits)
                                        ++ (stat_line stat_get_misses (print_long st.get_misses)
                                            ++ (stat_line stat_evictions (digits 20 0)
                                                ++ (stat_line stat_bytes_read
                                                      (print_long st.bytes_read)
                                                    ++ (stat_line stat_bytes_written
                                                          (print_long st.bytes_written)
                                                        ++ end_reply)))))))))))))

-- The command's number, in the order of the tests.
abbrev pub update_comm : List ℕ → Option ℕ
update_comm name =
    if same_text name add_text
    then some nread_add
    else if same_text name set_text
    then some nread_set
    else if same_text name replace_text
    then some nread_replace
    else if same_text name prepend_text
    then some nread_prepend
    else if same_text name append_text
    then some nread_append
    else none

abbrev pub key_max_length : ℕ
key_max_length = 250

-- ERANGE and EINVAL of Linux.
abbrev pub erange : ℕ
erange = 34

abbrev pub einval : ℕ
einval = 22

abbrev pub is_zero : ℤ → Bool
is_zero (pos n) = n == 0
is_zero (negsuc n) = false

-- The numbers of a storage command: flags, exptime, the length and errno behind the three calls.
pub record Numbers : Type 0 where
  pub flags : ℤ
  pub exptime : ℤ
  pub vlen : ℤ
  pub errno : ℕ

unfoldable pub read_numbers : List ℕ → List ℕ → List ℕ → ℕ → Numbers
read_numbers flags exptime vlen errno =
    let f = strtoul flags in
    let e = strtol exptime in
    let v = strtol vlen in
    record {
      flags = to_int f.0;
      exptime = e.0;
      vlen = to_int (to_size v.0);
      errno = if f.1 || (e.1 || v.1) then erange else errno;
    }

unfoldable pub bad_numbers : Numbers → Bool
bad_numbers n =
    (n.errno == erange) || ((is_zero n.flags || is_zero n.exptime) && (n.errno == einval))

module _ (hash : List ℕ → ℕ) (sys : System) where
  -- `it = item_get(key, nkey); if (it) { item_unlink(it); item_remove(it); }`
  abbrev pub drop_item : Option ℕ × Cache → Run Cache
  drop_item (none, c) = ok c
  drop_item (some it, c) = do_item_unlink hash it c >>= do_item_remove hash it

  unfoldable pub drop_stale : List ℕ → Server → Run Server
  drop_stale key s = do r ← item_get hash key s.cache; cache ← drop_item r; ok (with_cache cache s)

  -- No item: item_size_ok is always true. The data line is to be passed over.
  unfoldable pub alloc_failed : List ℕ → ℕ → ℕ → Server → Run Server
  alloc_failed key nbytes comm s = do
    s1 ← out_string out_of_memory s
    let s2 : Server = record s1 {
      conn = record s1.conn { write_and_go = conn_swallow; sbytes = nbytes };
    }
    if comm == nread_set then drop_stale key s2 else ok s2

  -- The connection waits for the value.
  unfoldable pub await_value : ℕ → ℕ → ℕ → Server → Server
  await_value it nbytes comm s = record s {
    conn = record s.conn {
      item = it;
      ritem = 0;
      rlbytes = nbytes;
      item_comm = comm;
      state = conn_nread;
      rd = true;
    };
  }

  abbrev pub after_alloc : List ℕ → ℕ → ℕ → Option ℕ → Server → Run Server
  after_alloc key nbytes comm none s = alloc_failed key nbytes comm s
  after_alloc key nbytes comm (some it) s = ok (await_value it nbytes comm s)

  -- The length is not negative; the sum is an `int`.
  unfoldable pub update_item : List ℕ → ℕ → ℤ → ℕ → ℕ → Server → Run Server
  update_item key nkey flags vlen comm s = do
    demand (ltb (vlen + 2) (2 ^ 31)) signed_overflow
    let item = new_item key nkey flags 0 (vlen + 2) sys.garbage
    let r = do_item_alloc sys.fresh1 sys.fresh2 item s.cache
    after_alloc key (vlen + 2) comm r.0 (with_cache r.1 s)

  unfoldable pub update_with : List ℕ → ℕ → Numbers → ℤ → ℕ → Server → Run Server
  update_with key nkey n (negsuc v) comm s = out_string bad_format s
  update_with key nkey n (pos v) comm s =
      if bad_numbers n then out_string bad_format s else update_item key nkey n.flags v comm s

  unfoldable pub update_key : List Token → Token → ℕ → Server → Run Server
  update_key tokens token comm s = do
    key ← text_of token
    flags ← token_at tokens 2 >>= text_of
    exptime ← token_at tokens 3 >>= text_of
    vlen ← token_at tokens 4 >>= text_of
    let n = read_numbers flags exptime vlen s.errno
    update_with key token.length n n.vlen comm (record s { errno = n.errno })

  unfoldable pub process_update_command : List Token → ℕ → Server → Run Server
  process_update_command tokens comm s = do
    let st = s.cache.stats
    let s1 = with_stats (record st { set_cmds = (st.set_cmds + 1) % u64 }) s
    token ← token_at tokens 1
    if ltb key_max_length token.length
        then out_string bad_format s1
        else update_key tokens token comm s1

  -- The first token's text; it is not read when there is no word.
  abbrev name_of : List Token → List ℕ
  name_of [] = []
  name_of (t ∷ tokens) = elim t.value [ none ↦ [] | some text ↦ text ]

  abbrev pub update_or : Option ℕ → ℕ → List Token → ℕ → List ℕ → Server → Run Server
  update_or (some comm) pid tokens n name s = process_update_command tokens comm s
  update_or none pid tokens n name s =
      if (n == 2) && same_text name version_text
      then out_string version_reply s
      else if (n == 2) && same_text name stats_text
      then out_string (stats_reply pid s.cache.stats) s
      else out_string error_reply s

  unfoldable pub other_command : ℕ → List Token → ℕ → List ℕ → Server → Run Server
  other_command pid tokens n name s =
      let comm = if (n == 6) || (n == 7) then update_comm name else none in
      update_or comm pid tokens n name s

  unfoldable pub process_command : ℕ → List ℕ → Server → Run Server
  process_command pid command s = do
    tokens ← tokenize_command command 8
    let n = length tokens
    let name = name_of tokens
    if ltb 2 n && (same_text name get_text || same_text name bget_text)
        then process_get_command hash tokens s
        else other_command pid tokens n name s
