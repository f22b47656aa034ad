-- ===== src/PubSub/Sub.antt =====
-- src/handler/pubsub/topic.c and model.c: `topic_join`, `topic_sub` and `model_sub`.
use zeroserv.Prelude.{
  ℕ, ◌<◌, ◌≡◌, refl, ap, ◌∙◌, true, false, List, [], ◌∷◌, ◌++◌, some, ◌==◌, if◌then◌else◌, arith,
  Bool-cases, inl, inr, elem, distinct, distinct-append,
}
use zeroserv.Prelude.{ok}
use zeroserv.Vector.{Vector, Memory, vector_is_exist, vector_insert}
use zeroserv.Vector.Grow.{IsValid, contents, can_grow, vector_insert-append}
use zeroserv.Vector.Search.{vector_is_exist-elem}
use zeroserv.PubSub.Lookup.{
  topic_addrs, account_addrs, topic_get-put_topic, account_get_by_fd-put_account,
}
use zeroserv.PubSub.{
  Topic, Account, Model, c_success, topic_get, account_get_by_fd, put_topic, put_account, topic_sub,
  topic_join, model_sub,
}

-- The list with `a` behind it, if it is not there yet.
abbrev pub with_one : ℕ → List ℕ → List ℕ
with_one a xs = if elem a xs then xs else xs ++ a ∷ []

-- A valid vector that repeats no pointer, and its pointers.
pub record Holds (v : Vector) (xs : List ℕ) : Type 0 where
  pub valid : IsValid v
  pub same : contents v ≡ xs
  pub once : distinct xs ≡ true

vector_insert-Holds :
    (mem : Memory) (a : ℕ) {v : Vector} {xs : List ℕ}
    → Holds v xs
    → can_grow mem v ≡ true
    → 0 < a
    → elem a xs ≡ false
    → (w : Vector) × (vector_insert mem v a ≡ ok w) × Holds w (xs ++ a ∷ [])
vector_insert-Holds mem a {v} {xs} h can real new =
    let (w, run, valid, _, _, kept) = vector_insert-append mem a h.valid can in
    let some_a : (a == 0) ≡ false = ground arith in
    (
      w,
      run,
      record {
        valid = valid;
        same = kept ∙ (rw some_a refl ∙ ap (λ l. l ++ a ∷ []) h.same);
        once = distinct-append xs a h.once new;
      },
    )

vector_is_exist-Holds :
    (a : ℕ) {v : Vector} {xs : List ℕ} → Holds v xs → vector_is_exist v a ≡ ok (elem a xs)
vector_is_exist-Holds a h = vector_is_exist-elem a h.valid ∙ ap (λ l. ok (elem a l)) h.same

module _ (mem : Memory) where
  -- The subscriptions of an account behind a join: the topic is new to a new member only.
  abbrev pub with_topic : Topic → Account → List ℕ → List ℕ → List ℕ
  with_topic top acc members subs = if elem acc.addr members then subs else subs ++ top.addr ∷ []

  -- The vectors that `topic_join` leaves.
  record Joined (top : Topic) (acc : Account) (members subs : List ℕ) (v u : Vector) : Type 0 where
    members_of : Holds v (with_one acc.addr members)
    sub_lists : IsValid u × (contents u ≡ with_topic top acc members subs)

  topic_join-Joined :
      {top : Topic} {acc : Account} {members subs : List ℕ}
      → Holds top.members members
      → Holds acc.sub_lists subs
      → can_grow mem top.members ≡ true
      → can_grow mem acc.sub_lists ≡ true
      → 0 < acc.addr
      → 0 < top.addr
      → (v : Vector) × (u : Vector) × (topic_join mem top acc
          ≡ ok (record top { members = v }, record acc { sub_lists = u }))
        × Joined top acc members subs v u
  unfolding topic_join
  topic_join-Joined {top} {acc} {members} {subs} h k can can' real real' =
      let exist = vector_is_exist-Holds acc.addr h in
      elim (Bool-cases (elem acc.addr members)) [
        | inl e ↦ (
          top.members,
          acc.sub_lists,
          rw (exist, e),
          record { members_of = rw e h; sub_lists = (k.valid, k.same ∙ rw e refl) },
        )
        | inr e ↦
            let (w, run, held) = vector_insert-Holds mem acc.addr h can real e in
            let (u, run', valid, _, _, kept) = vector_insert-append mem top.addr k.valid can' in
            let some_topic : (top.addr == 0) ≡ false = ground arith in
            (
              w,
              u,
              rw (exist, e, run, run'),
              record {
                members_of = rw e held;
                sub_lists = (
                  valid,
                  kept ∙ rw some_topic refl ∙ ap (λ l. l ++ top.addr ∷ []) k.same ∙ rw e refl,
                );
              },
            )
      ]

  topic_sub-Holds :
      (fd : ℕ) {top : Topic} {fds : List ℕ}
      → Holds top.fds fds
      → can_grow mem top.fds ≡ true
      → 0 < fd
      → (v : Vector) × (topic_sub mem top fd ≡ ok (record top { fds = v }))
        × Holds v (with_one fd fds)
  unfolding topic_sub
  topic_sub-Holds fd {top} {fds} h can real =
      let exist = vector_is_exist-Holds fd h in
      elim (Bool-cases (elem fd fds)) [
        | inl e ↦ (top.fds, rw (exist, e), rw e h)
        | inr e ↦
            let (w, run, held) = vector_insert-Holds mem fd h can real e in
            (w, rw (exist, e, run), rw e held)
      ]

  -- What subscribing leaves: `top` with new members and descriptors under its name, and `acc` with
  -- new subscriptions under its descriptor; the other fields are the same.
  pub record Subscribed (fd : ℕ) (name : List ℕ) (top : Topic) (acc : Account)
      (members subs fds : List ℕ) (m m' : Model) : Type 0 where
    pub new_members : Vector
    pub new_fds : Vector
    pub new_subs : Vector
    pub members_of : Holds new_members (with_one acc.addr members)
    pub fds_of : Holds new_fds (with_one fd fds)
    pub subs_of : IsValid new_subs × (contents new_subs ≡ with_topic top acc members subs)
    pub topic :
        topic_get name m'.topics ≡ some (record top { members = new_members; fds = new_fds })
    pub account : account_get_by_fd fd m'.accounts ≡ ok (some (record acc { sub_lists = new_subs }))
    pub rest : m' ≡ record m {
      topics = put_topic (record top { members = new_members; fds = new_fds }) m.topics;
      accounts = put_account (record acc { sub_lists = new_subs }) m.accounts;
    }

  -- A client that is logged in subscribes to an existing topic: the call succeeds, and in the topic
  -- that the name finds afterwards the account is among the members once and the descriptor among the
  -- descriptors once, behind those that were there, however often it subscribes. The account that
  -- the descriptor finds has the topic behind its subscriptions if it was no member. Nothing else of
  -- them, no other topic and no other account changes. The vectors are valid, repeat no pointer and
  -- have a free slot or memory to grow, the addresses and the descriptor are not 0, and no two topics
  -- and no two accounts have the same address.
  pub model_sub-with_one :
      (fd : ℕ) (name : List ℕ) (m : Model) {top : Topic} {acc : Account} {members subs fds : List ℕ}
      → topic_get name m.topics ≡ some top
      → account_get_by_fd fd m.accounts ≡ ok (some acc)
      → distinct (topic_addrs m.topics) ≡ true
      → distinct (account_addrs m.accounts) ≡ true
      → Holds top.members members
      → Holds acc.sub_lists subs
      → Holds top.fds fds
      → can_grow mem top.members ≡ true
      → can_grow mem acc.sub_lists ≡ true
      → can_grow mem top.fds ≡ true
      → 0 < fd
      → 0 < acc.addr
      → 0 < top.addr
      → (m' : Model) × (model_sub mem fd name m ≡ ok (c_success, m'))
        × Subscribed fd name top acc members subs fds m m'
  unfolding model_sub
  model_sub-with_one fd name m {top = top} {acc = acc} {fds = fds} there logged once_t once_a hm hs
        hf cm cs cf real real_acc real_top =
      let (w, u, run, j) =
        topic_join-Joined {top = top} {acc = acc} hm hs cm cs real_acc real_top in
      let (v, run', held) = topic_sub-Holds fd {top = record top { members = w }} hf cf real in
      let top' : Topic = record top { members = w; fds = v } in
      let acc' : Account = record acc { sub_lists = u } in
      (
        record m { topics = put_topic top' m.topics; accounts = put_account acc' m.accounts },
        rw (logged, there, run, run'),
        record {
          new_members = w;
          new_fds = v;
          new_subs = u;
          members_of = j.members_of;
          fds_of = held;
          subs_of = j.sub_lists;
          topic = topic_get-put_topic name m.topics top top' there once_t refl refl;
          account = account_get_by_fd-put_account fd m.accounts acc acc' logged once_a refl refl;
          rest = refl;
        },
      )
