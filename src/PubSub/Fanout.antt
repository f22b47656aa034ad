-- ===== src/PubSub/Fanout.antt =====
-- src/handler/pubsub/model.c: the loop of `model_pub` over the descriptors of a topic.
use zeroserv.Prelude.{
  ℕ, suc, ◌+◌, ◌<◌, ◌≡◌, refl, sym, ap, subst, ◌∙◌, Bool, true, false, List, [], ◌∷◌, ◌++◌, ◌==◌,
  if◌then◌else◌, length, length-take_le, append-nil, get_or, arith, Bool-cases, inl, inr, elem,
  distinct, remove_first, distinct-remove_first,
}
use zeroserv.Prelude.{ok, pos, ◌||◌}
use zeroserv.Vector.{Vector, vector_access}
use zeroserv.Vector.Grow.{IsValid, contents, vector_access-contents}
use zeroserv.Vector.Search.{vector_remove-Removed}
use zeroserv.PubSub.{Owners, pub_loop}

-- The descriptors that are open, in order.
abbrev pub open_ones : (ℕ → Bool) → List ℕ → List ℕ
open_ones live [] = []
open_ones live (c ∷ cs) = if live c then c ∷ open_ones live cs else open_ones live cs

-- The list behind `ks`, turned round.
abbrev pub rev_onto : List ℕ → List ℕ → List ℕ
rev_onto [] ks = ks
rev_onto (c ∷ cs) ks = rev_onto cs (c ∷ ks)

-- The specification: the message is given to each of the listed descriptors in turn.
abbrev pub send_each {ℓ} :
    {App : Type ℓ} → (ℕ → List ℕ × ℕ → App → App) → List ℕ → List ℕ × ℕ → App → App
send_each respond [] text app = app
send_each respond (c ∷ cs) text app = send_each respond cs text (respond c text app)

get_or-rev_onto :
    (r ks : List ℕ) (j d : ℕ) → get_or (rev_onto r ks) (length r + j) d ≡ get_or ks j d
get_or-rev_onto [] ks j d = ap (λ n. get_or ks n d) (omega arith)
get_or-rev_onto (c ∷ r) ks j d =
    let shift : length (c ∷ r) + j ≡ length r + suc j = omega arith in
    rw shift (get_or-rev_onto r (c ∷ ks) (suc j) d)

rev_onto-rev_onto : (r s ks : List ℕ) → rev_onto (rev_onto r s) ks ≡ rev_onto s (r ++ ks)
rev_onto-rev_onto [] s ks = refl
rev_onto-rev_onto (c ∷ r) s ks = rev_onto-rev_onto r (c ∷ s) ks

distinct-behind : (r ks : List ℕ) → distinct (rev_onto r ks) ≡ true → distinct ks ≡ true
unfolding distinct
distinct-behind [] ks h = h
distinct-behind (c ∷ r) ks h = ground (arith, distinct-behind r (c ∷ ks) h)

elem-before :
    (r ks : List ℕ) (a : ℕ) → distinct (rev_onto r ks) ≡ true → elem a ks ≡ true → elem a r ≡ false
unfolding distinct elem
elem-before [] ks a h k = refl
elem-before (c ∷ r) ks a h k =
    ground (arith, elem-before r (c ∷ ks) a h, distinct-behind r (c ∷ ks) h)

remove_first-rev_onto :
    (r ks : List ℕ) (a : ℕ)
    → elem a r ≡ false
    → remove_first a (rev_onto r ks) ≡ rev_onto r (remove_first a ks)
unfolding elem remove_first
remove_first-rev_onto [] ks a h = refl
remove_first-rev_onto (c ∷ r) ks a h =
    let other : (c == a) ≡ false = ground (arith, h) in
    remove_first-rev_onto r (c ∷ ks) a (ground (arith, h)) ∙ ap (rev_onto r) (rw other refl)

length-rev_onto : (r ks : List ℕ) → length (rev_onto r ks) ≡ length r + length ks
length-rev_onto [] ks = omega arith
length-rev_onto (c ∷ r) ks = omega (arith, length-rev_onto r (c ∷ ks))

length-contents : {v : Vector} → IsValid v → length (contents v) ≡ v.size
length-contents {v} h = length-take_le v.size v.words (omega (arith, h.fits, h.block))

remove_first_head : (c : ℕ) (ks : List ℕ) → remove_first c (c ∷ ks) ≡ ks
unfolding remove_first
remove_first_head c ks = ground arith

open_ones-rev_onto :
    (live : ℕ → Bool) (r ks : List ℕ)
    → open_ones live (rev_onto r ks) ≡ rev_onto (open_ones live r) (open_ones live ks)
open_ones-rev_onto live [] ks = refl
open_ones-rev_onto live (c ∷ r) ks = elim (Bool-cases (live c)) [
  | inl e ↦ open_ones-rev_onto live r (c ∷ ks) ∙ rw e
  | inr e ↦ open_ones-rev_onto live r (c ∷ ks) ∙ rw e
]

elem-rev_onto : (r ks : List ℕ) (a : ℕ) → elem a (rev_onto r ks) ≡ (elem a r || elem a ks)
unfolding elem
elem-rev_onto [] ks a = refl
elem-rev_onto (c ∷ r) ks a = ground (arith, elem-rev_onto r (c ∷ ks) a)

elem-turned : (r : List ℕ) (a : ℕ) → elem a (rev_onto r []) ≡ true → elem a r ≡ true
unfolding elem
elem-turned r a h = ground (arith, elem-rev_onto r [] a, h)

-- Every open descriptor of the list has a listener as its owner, whose handler has `user_data`.
abbrev pub CanRespond : Owners → List ℕ → Type 0
CanRespond os fds =
    (c : ℕ) → elem c fds ≡ true → os.live c ≡ true → (os.owned c ≡ true) × (os.user_data c ≡ true)

module _ {ℓ} {App : Type ℓ} (os : Owners) (respond : ℕ → List ℕ × ℕ → App → App) where
  -- What the loop leaves: the open descriptors in the vector, and the sent messages.
  record Sent (text : List ℕ × ℕ) (r ks : List ℕ) (app : App) (x : Vector × App) : Type ℓ where
    valid : IsValid x.0
    kept : contents x.0 ≡ rev_onto (open_ones os.live r) ks
    sent : x.1 ≡ send_each respond (open_ones os.live r) text app

  pub_loop-Sent :
      (text : List ℕ × ℕ) (r ks : List ℕ) (v : Vector) (app : App)
      → IsValid v
      → v.size < v.capacity
      → contents v ≡ rev_onto r ks
      → distinct (rev_onto r ks) ≡ true
      → CanRespond os r
      → (x : Vector × App) × (pub_loop os respond (length r) text v app ≡ ok x)
        × Sent text r ks app x
  unfolding pub_loop elem
  pub_loop-Sent text [] ks v app h room same once can =
      ((v, app), refl, record { valid = h; kept = same; sent = refl })
  pub_loop-Sent text (c ∷ r) ks v app h room same once can =
      let size : length r + suc (length ks) ≡ v.size =
        sym (length-rev_onto r (c ∷ ks)) ∙ (ap length (sym same) ∙ length-contents h) in
      let at : get_or (contents v) (length r) 0 ≡ c =
        ap (λ l. get_or l (length r) 0) same
        ∙ (ap (λ n. get_or (rev_onto r (c ∷ ks)) n 0) (omega arith)
            ∙ get_or-rev_onto r (c ∷ ks) 0 0) in
      let access : vector_access v (pos (length r)) ≡ ok c =
        vector_access-contents (length r) h (omega arith) ∙ ap (λ k. ok k) at in
      let later : CanRespond os r = λ a m. can a (ground (arith, m)) in
      elim (Bool-cases (os.live c)) [
        | inl open' ↦
            let (x, run, st) =
              pub_loop-Sent text r (c ∷ ks) v (respond c text app) h room same once later in
            let (owned, data_set) = can c (ground arith) open' in
            (
              x,
              rw (access, open', owned, data_set) run,
              record {
                valid = st.valid;
                kept = st.kept ∙ rw open' refl;
                sent = st.sent ∙ rw open' refl;
              },
            )
        | inr closed ↦
            let (w, removed, rem) = vector_remove-Removed c h room in
            let gone : elem c r ≡ false = elem-before r (c ∷ ks) c once (ground arith) in
            let once' = distinct-remove_first c (rev_onto r (c ∷ ks)) once in
            let left : remove_first c (rev_onto r (c ∷ ks)) ≡ rev_onto r ks =
              remove_first-rev_onto r (c ∷ ks) c gone ∙ ap (rev_onto r) (remove_first_head c ks) in
            let same' : contents w ≡ rev_onto r ks = rem.left ∙ (ap (remove_first c) same ∙ left) in
            let size' : length r + length ks ≡ w.size =
              sym (length-rev_onto r ks) ∙ (ap length (sym same') ∙ length-contents rem.valid) in
            let (x, run, st) =
              pub_loop-Sent text r ks w app rem.valid
                (omega (arith, rem.same_capacity, size, size')) same'
                (subst (λ l. distinct l ≡ true) left once'.0) later in
            (
              x,
              rw (access, closed, removed) run,
              record {
                valid = st.valid;
                kept = st.kept ∙ rw closed refl;
                sent = st.sent ∙ rw closed refl;
              },
            )
      ]

  -- From a valid vector with room and without a repeated descriptor, where each open
  -- descriptor has such a listener, the loop ends: each open
  -- descriptor gets the text once, the last subscribed first, and the vector is left valid with
  -- the open descriptors in their order.
  pub pub_loop-send_each :
      (text : List ℕ × ℕ) {v : Vector} (app : App)
      → IsValid v
      → v.size < v.capacity
      → distinct (contents v) ≡ true
      → CanRespond os (contents v)
      → (w : Vector) × (pub_loop os respond v.size text v app
          ≡ ok (w, send_each respond (rev_onto (open_ones os.live (contents v)) []) text app))
        × IsValid w
        × (contents w ≡ open_ones os.live (contents v))
  pub_loop-send_each text {v} app h room once can =
      let r : List ℕ = rev_onto (contents v) [] in
      let back : rev_onto r [] ≡ contents v =
        rev_onto-rev_onto (contents v) [] [] ∙ append-nil (contents v) in
      let count : length r ≡ v.size =
        length-rev_onto (contents v) [] ∙ (omega (arith, length-contents h)) in
      let (x, run, st) =
        pub_loop-Sent text r [] v app h room (sym back)
          (subst (λ l. distinct l ≡ true) (sym back) once)
          (λ c m. can c (elem-turned (contents v) c m)) in
      let kept : contents x.0 ≡ open_ones os.live (contents v) =
        st.kept ∙ (sym (open_ones-rev_onto os.live r []) ∙ ap (open_ones os.live) back) in
      let order : open_ones os.live r ≡ rev_onto (open_ones os.live (contents v)) [] =
        open_ones-rev_onto os.live (contents v) [] in
      (
        x.0,
        subst (λ n. pub_loop os respond n text v app ≡ ok x) count run
            ∙ ap (λ a. ok (x.0, a)) (st.sent ∙ ap (λ l. send_each respond l text app) order),
        st.valid,
        kept,
      )
