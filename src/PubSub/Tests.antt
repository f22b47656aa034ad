-- ===== src/PubSub/Tests.antt =====
-- Examples for the publish/subscribe model: the account `a` with the password `pw` is logged in on
-- descriptor 5, and the topic `t` has the descriptors 5, 6 and 7, of which 6 is closed.
use zeroserv.Prelude.{
  ℕ, ◌≡◌, refl, List, [], ◌∷◌, ◌++◌, some, ◌==◌, not, elem, distinct, arith, ok, ltb,
}
use zeroserv.Vector.{Vector, Memory, vector_is_exist, vector_scan}
use zeroserv.Vector.Grow.{IsValid, contents}
use zeroserv.PubSub.{
  Topic, Account, Model, Owners, c_success, topic_get, account_get, account_get_by_fd, put_account,
  model_sub, model_acc_auth, model_acc_create,
}
use zeroserv.PubSub.Auth.{model_acc_auth_prefix, Created, model_acc_create-account_get}
use zeroserv.PubSub.Sub.{Subscribed, model_sub-with_one}

abbrev room_for_two : List ℕ → ℕ → Vector
room_for_two words size = record {
  words = words;
  growth_num = 2;
  growth_den = 1;
  size = size;
  capacity = 4;
}

abbrev acc_a : Account
acc_a = record {
  addr = 100;
  id = 1;
  name = 97 ∷ [];
  auth = 112 ∷ 119 ∷ [];
  sub_lists = room_for_two (0 ∷ 0 ∷ 0 ∷ 0 ∷ []) 0;
  fds = room_for_two (5 ∷ 0 ∷ 0 ∷ 0 ∷ []) 1;
}

abbrev top_t : Topic
top_t = record {
  addr = 200;
  name = 116 ∷ [];
  members = room_for_two (0 ∷ 0 ∷ 0 ∷ 0 ∷ []) 0;
  fds = room_for_two (5 ∷ 6 ∷ 7 ∷ 0 ∷ []) 3;
}

abbrev model : Model
model = record { topics = top_t ∷ []; accounts = acc_a ∷ []; inc_id = 1 }

abbrev mem : Memory
mem = record { gives = λ n. ltb n 1000; junk = λ i. 0 }

abbrev owners : Owners
owners = record {
  live = λ fd. not (fd == 6);
  owned = λ fd. not (fd == 6);
  user_data = λ fd. not (fd == 6);
}

abbrev respond : ℕ → List ℕ × ℕ → List (ℕ × List ℕ) → List (ℕ × List ℕ)
respond fd (text, len) log = log ++ (fd, text) ∷ []

find_topic : topic_get (116 ∷ []) model.topics ≡ some top_t
unfolding topic_get
find_topic = refl

find_account : account_get (97 ∷ []) model.accounts ≡ some acc_a
unfolding account_get
find_account = refl

find_by_fd : account_get_by_fd 5 model.accounts ≡ ok (some acc_a)
unfolding account_get_by_fd vector_is_exist vector_scan
find_by_fd = refl

model_acc_auth_prefix_example :
    (fds : Vector) × (model_acc_auth mem 8 (97 ∷ []) (112 ∷ 119 ∷ 33 ∷ []) model
      ≡ ok (
        c_success,
        record {
          topics = top_t ∷ [];
          accounts = put_account (record acc_a { fds = fds }) (acc_a ∷ []);
          inc_id = 1;
        },
      ))
    × IsValid fds
    × (contents fds ≡ 5 ∷ 8 ∷ [])
model_acc_auth_prefix_example =
    model_acc_auth_prefix mem 8 (97 ∷ []) (33 ∷ []) model find_account (omega arith) refl
      (omega arith)

model_acc_create-account_get_example :
    Created mem (98 ∷ []) (120 ∷ []) model (model_acc_create mem 300 (98 ∷ []) (120 ∷ []) model)
model_acc_create-account_get_example =
    model_acc_create-account_get mem 300 (98 ∷ []) (120 ∷ []) model (omega arith) refl

model_sub-with_one_example :
    (m' : Model) × (model_sub mem 5 (116 ∷ []) model ≡ ok (c_success, m'))
    × Subscribed mem 5 (116 ∷ []) top_t acc_a [] [] (5 ∷ 6 ∷ 7 ∷ []) model m'
unfolding elem distinct
model_sub-with_one_example =
    model_sub-with_one mem 5 (116 ∷ []) model {members = []} {subs = []} {fds = 5 ∷ 6 ∷ 7 ∷ []}
      find_topic find_by_fd refl refl (record { valid = omega arith; same = refl; once = refl })
      (record { valid = omega arith; same = refl; once = refl })
      (record { valid = omega arith; same = refl; once = refl }) refl refl refl (omega arith)
      (omega arith) (omega arith)
