-- ===== src/PubSub.antt =====
-- src/handler/pubsub: accounts, topics, and the commands on them (account.c, topic.c, model.c).
-- A pointer to an account or a topic is its address, a number; the two static lists hold the
-- objects in the order of creation, and writing to an object replaces the one with its address.
-- `addr` is what `malloc` returns, and `mem` the allocator that the vectors use. `Owners` is what
-- the table of descriptors says of the owner of each, and `respond` is the `on_response` of the
-- descriptor's listener, which does not change that. A string is the list of its bytes. The
-- parser of the clients' commands, `topic_delete` and the two listings are left out. The
-- children are about the fan-out of a message (Fanout), the accounts (Auth), lookups in the lists
-- (Lookup) and subscribing
-- (Sub).
pub mod Fanout
pub mod Auth
pub mod Lookup
pub mod Sub
mod Tests
use zeroserv.Prelude.{
  ℕ, zero, suc, ◌+◌, ◌-◌, Bool, true, false, List, [], ◌∷◌, ◌++◌, Option, none, some, ltb, ◌==◌,
  if◌then◌else◌, length, take,
}
use zeroserv.Prelude.{
  ℤ, pos, negsuc, neg_part, to_int, Run, ok, fault, ◌>>=◌, ◌>>◌, demand, exit_one,
}
use zeroserv.Vector.{
  Vector, Memory, vector_create, vector_access, vector_size, vector_insert, vector_remove,
  vector_is_exist,
}
use zeroserv.Prelude.{same_text}

-- `struct topic` and `struct account`, the fields that the code uses.
pub record Topic : Type 0 where
  pub addr : ℕ
  pub name : List ℕ
  pub members : Vector
  pub fds : Vector

pub record Account : Type 0 where
  pub addr : ℕ
  pub id : ℕ
  pub name : List ℕ
  pub auth : List ℕ
  pub sub_lists : Vector
  pub fds : Vector

-- `inc_id` is the counter that `id_zen("account")` increments.
pub record Model : Type 0 where
  pub topics : List Topic
  pub accounts : List Account
  pub inc_id : ℕ

abbrev pub c_success : ℕ
c_success = 0

abbrev pub c_fail : ℕ
c_fail = 1

unfoldable pub topic_get : List ℕ → List Topic → Option Topic
topic_get name [] = none
topic_get name (top ∷ rest) = if same_text top.name name then some top else topic_get name rest

unfoldable pub account_get : List ℕ → List Account → Option Account
account_get name [] = none
account_get name (acc ∷ rest) = if same_text acc.name name then some acc else account_get name rest

unfoldable pub account_get_by_fd : ℕ → List Account → Run (Option Account)
account_get_by_fd fd [] = ok none
account_get_by_fd fd (acc ∷ rest) = do
  there ← vector_is_exist acc.fds fd
  elim there [ true ↦ ok (some acc) | false ↦ account_get_by_fd fd rest ]

unfoldable pub put_topic : Topic → List Topic → List Topic
put_topic top [] = []
put_topic top (t ∷ rest) = if t.addr == top.addr then top ∷ rest else t ∷ put_topic top rest

unfoldable pub put_account : Account → List Account → List Account
put_account acc [] = []
put_account acc (a ∷ rest) = if a.addr == acc.addr then acc ∷ rest else a ∷ put_account acc rest

-- `!strncmp(stored, given, strlen(stored))`
unfoldable pub same_prefix : List ℕ → List ℕ → Bool
same_prefix [] given = true
same_prefix (c ∷ stored) [] = false
same_prefix (c ∷ stored) (d ∷ given) = if c == d then same_prefix stored given else false

module _ (mem : Memory) where
  unfoldable pub account_create : ℕ → List ℕ → List ℕ → Model → Run (ℤ × Model)
  account_create addr name auth m = elim (account_get name m.accounts) [
    | some acc ↦ ok (negsuc 0, m)
    | none ↦ do
      sub_lists ← vector_create mem 20 2 1
      fds ← vector_create mem 20 2 1
      ok (
        to_int (m.inc_id + 1),
        record m {
          inc_id = m.inc_id + 1;
          accounts =
              m.accounts
              ++ record {
                addr = addr;
                id = m.inc_id + 1;
                name = name;
                auth = auth;
                sub_lists = sub_lists;
                fds = fds;
              }
                ∷ [];
        },
      )
  ]

  unfoldable pub topic_create : ℕ → List ℕ → Model → Run (Topic × Model)
  topic_create addr name m = elim (topic_get name m.topics) [
    | some top ↦ ok (top, m)
    | none ↦ do
      members ← vector_create mem 20 2 1
      fds ← vector_create mem 20 2 1
      let top : Topic = record { addr = addr; name = name; members = members; fds = fds }
      ok (top, record m { topics = m.topics ++ top ∷ [] })
  ]

  unfoldable pub topic_join : Topic → Account → Run (Topic × Account)
  topic_join top acc = do
    there ← vector_is_exist top.members acc.addr
    elim there [
      | true ↦ ok (top, acc)
      | false ↦ do
        members ← vector_insert mem top.members acc.addr
        sub_lists ← vector_insert mem acc.sub_lists top.addr
        ok (record top { members = members }, record acc { sub_lists = sub_lists })
    ]

  unfoldable pub topic_sub : Topic → ℕ → Run Topic
  topic_sub top fd = do
    there ← vector_is_exist top.fds fd
    elim there [
      | true ↦ ok top
      | false ↦ (do fds ← vector_insert mem top.fds fd; ok (record top { fds = fds }))
    ]

  unfoldable pub topic_unsub : Topic → ℕ → Run Topic
  topic_unsub top fd = do (code, fds) ← vector_remove top.fds fd; ok (record top { fds = fds })

  unfoldable pub topic_left : Topic → Account → Run (Topic × Account)
  topic_left top acc = do
    (code, members) ← vector_remove top.members acc.addr
    (code', sub_lists) ← vector_remove acc.sub_lists top.addr
    ok (record top { members = members }, record acc { sub_lists = sub_lists })

  unfoldable pub model_acc_create : ℕ → List ℕ → List ℕ → Model → Run (ℕ × Model)
  model_acc_create addr user auth m = do
    (id, m') ← account_create addr user auth m
    ok (if ltb 0 (neg_part id) then c_fail else c_success, m')

  unfoldable pub model_acc_auth : ℕ → List ℕ → List ℕ → Model → Run (ℕ × Model)
  model_acc_auth fd user auth m = elim (account_get user m.accounts) [
    | none ↦ ok (c_fail, m)
    | some acc ↦ elim (same_prefix acc.auth auth) [
      | false ↦ ok (c_fail, m)
      | true ↦ do
        fds ← vector_insert mem acc.fds fd
        ok (c_success, record m { accounts = put_account (record acc { fds = fds }) m.accounts })
    ]
  ]

  unfoldable pub model_acc_offline : ℕ → Model → Run (ℕ × Model)
  model_acc_offline fd m = do
    found ← account_get_by_fd fd m.accounts
    elim found [
      | none ↦ ok (1, m)
      | some acc ↦ do
        (code, fds) ← vector_remove acc.fds fd
        ok (0, record m { accounts = put_account (record acc { fds = fds }) m.accounts })
    ]

  unfoldable pub model_sub : ℕ → List ℕ → Model → Run (ℕ × Model)
  model_sub fd topic m = do
    found ← account_get_by_fd fd m.accounts
    elim (topic_get topic m.topics) [
      | none ↦ ok (c_fail, m)
      | some top ↦ elim found [
        | none ↦ ok (c_fail, m)
        | some acc ↦ do
          (top', acc') ← topic_join top acc
          top'' ← topic_sub top' fd
          ok (
            c_success,
            record m { topics = put_topic top'' m.topics; accounts = put_account acc' m.accounts },
          )
      ]
    ]

  unfoldable pub model_unsub : ℕ → List ℕ → Model → Run (ℕ × Model)
  model_unsub fd topic m = do
    found ← account_get_by_fd fd m.accounts
    elim (topic_get topic m.topics) [
      | none ↦ ok (c_fail, m)
      | some top ↦ elim found [
        | none ↦ ok (c_fail, m)
        | some acc ↦ do
          (top', acc') ← topic_left top acc
          top'' ← topic_unsub top' fd
          ok (
            c_success,
            record m { topics = put_topic top'' m.topics; accounts = put_account acc' m.accounts },
          )
      ]
    ]

  unfoldable pub model_topic_create : ℕ → ℕ → List ℕ → Model → Run (ℕ × Model)
  model_topic_create addr fd topic m = do
    (top, m') ← topic_create addr topic m
    acc ← account_get_by_fd fd m'.accounts
    top' ← topic_sub top fd
    ok (c_success, record m' { topics = put_topic top' m'.topics })

-- The broadcast text: `"%s: %s"` cut to the 4095 bytes that the static array holds, with the length
-- of the whole text, which `snprintf` returns and the code passes on.
unfoldable pub broadcast : List ℕ → List ℕ → List ℕ × ℕ
broadcast name msg = let text = name ++ (58 ∷ (32 ∷ msg)) in (take (4096 - 1) text, length text)

-- The table of descriptors: whether fdtab[fd].cb[DIR_WR].b is set, whether the descriptor has a
-- listener as its owner, and whether that listener's handler has `user_data`.
pub record Owners : Type 0 where
  pub live : ℕ → Bool
  pub owned : ℕ → Bool
  pub user_data : ℕ → Bool

-- The two ASSERTs before `on_response`; a failed one ends the process.
abbrev pub check_owner : Owners → ℕ → Run (Unit {0})
check_owner os fd = do demand (os.owned fd) exit_one; demand (os.user_data fd) exit_one

module _ {ℓ} {App : Type ℓ} (os : Owners) (respond : ℕ → List ℕ × ℕ → App → App) where
  -- The loop of `model_pub` with `i` rounds left; a broadcast is never empty.
  unfoldable pub pub_loop : ℕ → List ℕ × ℕ → Vector → App → Run (Vector × App)
  pub_loop zero text fds app = ok (fds, app)
  pub_loop (suc i) text fds app = do
    cfd ← vector_access fds (pos i)
    elim (os.live cfd) [
      | false ↦ (do (code, fds') ← vector_remove fds cfd; pub_loop i text fds' app)
      | true ↦ (do check_owner os cfd; pub_loop i text fds (respond cfd text app))
    ]

  unfoldable pub model_pub : ℕ → List ℕ → List ℕ → Model → App → Run (ℕ × Model × App)
  unfolding pub_loop broadcast
  model_pub fd topic msg m app = do
    found ← account_get_by_fd fd m.accounts
    elim (topic_get topic m.topics) [
      | none ↦ ok (c_fail, m, app)
      | some top ↦ elim found [
        | none ↦ ok (c_fail, m, app)
        | some acc ↦ do
          (fds, app') ← pub_loop (vector_size top.fds) (broadcast acc.name msg) top.fds app
          ok (c_success, record m { topics = put_topic (record top { fds = fds }) m.topics }, app')
      ]
    ]
