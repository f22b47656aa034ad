-- ===== src/PubSub/Auth.antt =====
-- src/handler/pubsub/account.c and model.c: logging up and logging in.
use zeroserv.Prelude.{
  ℕ, ◌+◌, ◌^◌, ◌<◌, ◌≡◌, refl, ◌∙◌, true, false, List, [], ◌∷◌, ◌++◌, none, some, ◌==◌, same_text,
  arith, Option-cases, inl, inr, ◌⊎◌, pos, to_int,
}
use zeroserv.Prelude.{ok, Run, same_text_refl}
use zeroserv.Vector.{Vector, Memory}
use zeroserv.Vector.Grow.{IsValid, contents, can_grow, vector_insert-append, vector_create-IsValid}
use zeroserv.PubSub.{
  Account, Model, c_success, c_fail, account_get, put_account, same_prefix, account_create,
  model_acc_create, model_acc_auth,
}

same_prefix-append : (stored rest : List ℕ) → same_prefix stored (stored ++ rest) ≡ true
unfolding same_prefix
same_prefix-append [] rest = refl
same_prefix-append (c ∷ stored) rest = ground (arith, same_prefix-append stored rest)

account_get-append :
    (name : List ℕ) (accs : List Account) (acc : Account)
    → account_get name accs ≡ none
    → same_text acc.name name ≡ true
    → account_get name (accs ++ acc ∷ []) ≡ some acc
unfolding account_get
account_get-append name [] acc h k = ground arith
account_get-append name (a ∷ accs) acc h k = ground (arith, account_get-append name accs acc)

module _ (mem : Memory) where
  -- A user who has the stored password followed by anything is let in: the descriptor is put behind
  -- the account's descriptors, for which there is memory.
  pub model_acc_auth_prefix :
      (fd : ℕ) (user rest : List ℕ) (m : Model) {acc : Account}
      → account_get user m.accounts ≡ some acc
      → IsValid acc.fds
      → can_grow mem acc.fds ≡ true
      → 0 < fd
      → (fds : Vector) × (model_acc_auth mem fd user (acc.auth ++ rest) m
          ≡ ok (
            c_success,
            record m { accounts = put_account (record acc { fds = fds }) m.accounts },
          ))
        × IsValid fds
        × (contents fds ≡ contents acc.fds ++ fd ∷ [])
  unfolding model_acc_auth
  model_acc_auth_prefix fd user rest m {acc} there h can real =
      let (fds, run, valid, _, _, kept) = vector_insert-append mem fd h can in
      let some_fd : (fd == 0) ≡ false = ground arith in
      (
        fds,
        rw (there, model_acc_auth, same_prefix-append acc.auth rest, run),
        valid,
        kept ∙ rw some_fd refl,
      )

  -- A user who does not exist, or gives a password of which the stored one is no prefix, is refused
  -- and nothing changes.
  pub model_acc_auth_refuses :
      (fd : ℕ) (user auth : List ℕ) (m : Model)
      → ((acc : Account)
          → account_get user m.accounts ≡ some acc
          → same_prefix acc.auth auth ≡ false)
      → model_acc_auth mem fd user auth m ≡ ok (c_fail, m)
  unfolding model_acc_auth
  model_acc_auth_refuses fd user auth m wrong = elim (Option-cases (account_get user m.accounts)) [
    | inl e ↦ rw (e, model_acc_auth)
    | inr (acc, e) ↦ rw (e, model_acc_auth, wrong acc e)
  ]

  -- What creating a user gives: a name that is taken is refused and nothing changes; otherwise the
  -- new account is behind the others.
  abbrev pub Created : List ℕ → List ℕ → Model → Run (ℕ × Model) → Type 0
  Created user auth m out =
      ((acc : Account) × (account_get user m.accounts ≡ some acc) × (out ≡ ok (c_fail, m)))
      ⊎ ((account_get user m.accounts ≡ none)
          × (acc : Account) × (m' : Model) × (out ≡ ok (c_success, m'))
          × (m'.topics ≡ m.topics)
          × (m'.accounts ≡ m.accounts ++ acc ∷ [])
          × (account_get user m'.accounts ≡ some acc)
          × (acc.auth ≡ auth)
          × IsValid acc.fds
          × (contents acc.fds ≡ [])
          × (contents acc.sub_lists ≡ []))

  -- As long as fewer than 2 ^ 31 - 1 users were created, and there is memory for 20 pointers,
  -- creating a user of a new name succeeds: the account is behind the others, the name finds it, it
  -- has the given password, no open descriptor and no subscription, and the topics are the same. A
  -- name that is taken is refused and nothing changes.
  pub model_acc_create-account_get :
      (addr : ℕ) (user auth : List ℕ) (m : Model)
      → m.inc_id + 1 < 2 ^ 31
      → mem.gives 20 ≡ true
      → Created user auth m (model_acc_create mem addr user auth m)
  unfolding model_acc_create account_create
  model_acc_create-account_get addr user auth m small given =
      elim (Option-cases (account_get user m.accounts)) [
        | inr (acc, e) ↦ inl (acc, e, rw (e, account_create))
        | inl e ↦
            let (v, run, valid, _, empty) =
              vector_create-IsValid mem 20 2 1 (omega arith) (omega arith) (omega arith) given in
            let id : to_int (m.inc_id + 1) ≡ pos (m.inc_id + 1) = ground arith in
            let acc : Account = record {
              addr = addr;
              id = m.inc_id + 1;
              name = user;
              auth = auth;
              sub_lists = v;
              fds = v;
            } in
            inr (
              e,
              acc,
              record m { inc_id = m.inc_id + 1; accounts = m.accounts ++ acc ∷ [] },
              rw (e, account_create, run, id),
              refl,
              refl,
              account_get-append user m.accounts acc e (same_text_refl user),
              refl,
              valid,
              empty,
              empty,
            )
      ]
