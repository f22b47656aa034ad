-- ===== src/PubSub/Lookup.antt =====
-- src/handler/pubsub/topic.c and account.c: lookups after a write to the object that was found.
use zeroserv.Prelude.{
  ℕ, ◌≡◌, refl, ap, ◌∙◌, Bool, true, false, List, [], ◌∷◌, Option, none, some, ◌==◌, arith, map,
  Bool-cases, inl, inr, ◌⊎◌, elem, elem_differ, distinct, same_text, sym, Run, ok, ok_bind,
}
use zeroserv.Vector.{vector_is_exist}
use zeroserv.PubSub.{Topic, Account, topic_get, put_topic, account_get_by_fd, put_account}

abbrev pub topic_addrs : List Topic → List ℕ
topic_addrs = map (λ t. t.addr)

abbrev pub account_addrs : List Account → List ℕ
account_addrs = map (λ a. a.addr)

some_topic : (t u : Topic) → some t ≡ some u → t ≡ u
some_topic t u e = ap (get t) e
  where
    get : Topic → Option Topic → Topic
    get d none = d
    get d (some x) = x

found_topic :
    (name : List ℕ) (topics : List Topic) (top : Topic)
    → topic_get name topics ≡ some top
    → elem top.addr (topic_addrs topics) ≡ true
unfolding topic_get elem
found_topic name [] top h = absurd (ground (arith, h))
found_topic name (t ∷ rest) top h = elim (Bool-cases (same_text t.name name)) [
  | inl e ↦
      let same : t.addr ≡ top.addr = ap (λ u. u.addr) (some_topic t top (ground (arith, h, e))) in
      ground (arith, same)
  | inr e ↦ ground (arith, found_topic name rest top (ground (arith, h, e)))
]

-- The name finds the topic as it was written, where no two topics have the same address.
pub topic_get-put_topic :
    (name : List ℕ) (topics : List Topic) (top top' : Topic)
    → topic_get name topics ≡ some top
    → distinct (topic_addrs topics) ≡ true
    → top'.addr ≡ top.addr
    → top'.name ≡ top.name
    → topic_get name (put_topic top' topics) ≡ some top'
unfolding topic_get put_topic distinct elem
topic_get-put_topic name [] top top' h once a n = absurd (ground (arith, h))
topic_get-put_topic name (t ∷ rest) top top' h once a n =
    elim (Bool-cases (same_text t.name name)) [
      | inl e ↦
          let same : t ≡ top = some_topic t top (ground (arith, h, e)) in
          let here : (t.addr == top'.addr) ≡ true = ground (arith, a, ap (λ u. u.addr) same) in
          let named : same_text top'.name name ≡ true =
            ap (λ w. same_text w name) (n ∙ sym (ap (λ u. u.name) same)) ∙ e in
          ground (arith, here, named)
      | inr e ↦
          let later : topic_get name rest ≡ some top = ground (arith, h, e) in
          let member = found_topic name rest top later in
          let other : (t.addr == top'.addr) ≡ false = ground (
            arith,
            a,
            elem_differ top.addr t.addr (topic_addrs rest) member (ground (arith, once)),
          ) in
          ground (
            arith,
            other,
            e,
            topic_get-put_topic name rest top top' later (ground (arith, once)) a n,
          )
    ]

some_account : (t u : Account) → ok (some t) ≡ ok (some u) → t ≡ u
some_account t u e = ap (get t) e
  where
    get : Account → Run (Option Account) → Account
    get d (ok (some x)) = x
    get d r = d

-- The account found has the descriptor at the head, or it is behind an account that has not.
head_or_later :
    (fd : ℕ) (a : Account) (rest : List Account) (acc : Account)
    → account_get_by_fd fd (a ∷ rest) ≡ ok (some acc)
    → ((vector_is_exist a.fds fd ≡ ok true) × (a ≡ acc))
      ⊎ ((vector_is_exist a.fds fd ≡ ok false) × (account_get_by_fd fd rest ≡ ok (some acc)))
unfolding account_get_by_fd
head_or_later fd a rest acc h =
    let step : Bool → Run (Option Account) =
      λ b. elim b [ true ↦ ok (some a) | false ↦ account_get_by_fd fd rest ] in
    let (b, e, k) = ok_bind (vector_is_exist a.fds fd) step (some acc) h in
    elim (Bool-cases b) [
      | inl y ↦ inl (e ∙ ap ok y, some_account a acc (sym (ap step y) ∙ k))
      | inr n ↦ inr (e ∙ ap ok n, sym (ap step n) ∙ k)
    ]

found_account :
    (fd : ℕ) (accs : List Account) (acc : Account)
    → account_get_by_fd fd accs ≡ ok (some acc)
    → elem acc.addr (account_addrs accs) ≡ true
unfolding elem account_get_by_fd
found_account fd [] acc h = absurd (ground (arith, h))
found_account fd (a ∷ rest) acc h = elim (head_or_later fd a rest acc h) [
  | inl (_, e) ↦ let same : a.addr ≡ acc.addr = ap (λ u. u.addr) e in ground (arith, same)
  | inr (_, later) ↦ ground (arith, found_account fd rest acc later)
]

-- The descriptor finds the account as it was written, where no two accounts have the same address
-- and the write does not change the descriptors.
pub account_get_by_fd-put_account :
    (fd : ℕ) (accs : List Account) (acc acc' : Account)
    → account_get_by_fd fd accs ≡ ok (some acc)
    → distinct (account_addrs accs) ≡ true
    → acc'.addr ≡ acc.addr
    → acc'.fds ≡ acc.fds
    → account_get_by_fd fd (put_account acc' accs) ≡ ok (some acc')
unfolding account_get_by_fd put_account distinct elem
account_get_by_fd-put_account fd [] acc acc' h once a n = absurd (ground (arith, h))
account_get_by_fd-put_account fd (b ∷ rest) acc acc' h once a n =
    elim (head_or_later fd b rest acc h) [
      | inl (there, e) ↦
          let here : (b.addr == acc'.addr) ≡ true = ground (arith, a, ap (λ u. u.addr) e) in
          let has : vector_is_exist acc'.fds fd ≡ ok true =
            ap (λ v. vector_is_exist v fd) (n ∙ sym (ap (λ u. u.fds) e)) ∙ there in
          rw (here, has) refl
      | inr (absent, later) ↦
          let member = found_account fd rest acc later in
          let other : (b.addr == acc'.addr) ≡ false = ground (
            arith,
            a,
            elem_differ acc.addr b.addr (account_addrs rest) member (ground (arith, once)),
          ) in
          rw (other, absent)
            (account_get_by_fd-put_account fd rest acc acc' later (ground (arith, once)) a n)
    ]
