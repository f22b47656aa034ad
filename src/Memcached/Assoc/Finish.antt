-- ===== src/Memcached/Assoc/Finish.antt =====
-- How far an expansion in src/handler/mc/assoc.c gets. `assoc_move_next_bucket`, the name under
-- which items.h gives do_assoc_move_next_bucket to the rest of the program, has no call there.
use zeroserv.Prelude.{
  ℕ, zero, suc, ◌+◌, ◌-◌, ◌%◌, ◌^◌, ◌≤◌, ◌≡◌, refl, sym, ap, ◌∙◌, subst, Bool, true, false, not,
  List, [], ◌∷◌, ◌++◌, arith, if◌then◌else◌, ◌&&◌, ltb, ◌*◌, ◌/◌, assert_failed, ok_bind,
  Bool-cases, inl, inr, Run, ok, fault, ◌>>=◌,
}
use native.Mathlib.Nat.{pow-le-pow_right}
use zeroserv.Memcached.Assoc.{
  Entry, Assoc, assoc_find, do_assoc_move_next_bucket, move_bucket, assoc_expand, assoc_insert,
  assoc_delete, hashitem_before, get_chain, put_chain, u32,
}
use zeroserv.Memcached.Assoc.Inv.{IsAssoc}
use zeroserv.Memcached.Assoc.Move.{
  u32_bound, assoc_find-do_assoc_move_next_bucket, IsAssoc-do_assoc_move_next_bucket,
}

-- The calls that items.c makes.
pub data Call : Type 0 where
  insert : Bool → Entry → Call
  delete : List ℕ → Call

-- The variables that tell how far an expansion is.
pub record SameStage (t t' : Assoc) : Type 0 where
  pub expanding : t'.expanding ≡ true
  pub expand_bucket : t'.expand_bucket ≡ t.expand_bucket
  pub hashpower : t'.hashpower ≡ t.hashpower

-- The stage that assoc_expand reaches, for a table of at least two buckets.
pub record Begun (t t' : Assoc) : Type 0 where
  pub expanding : t'.expanding ≡ true
  pub expand_bucket : t'.expand_bucket ≡ 1
  pub hashpower : t'.hashpower ≡ t.hashpower + 1

module _ (hash : List ℕ → ℕ) where
  -- `n` calls of do_assoc_move_next_bucket.
  abbrev pub moves : ℕ → Assoc → Assoc
  moves zero t = t
  moves (suc n) t = moves n (do_assoc_move_next_bucket hash t)

  pub record Finished (t t' : Assoc) : Type 0 where
    pub valid : IsAssoc hash t'
    pub expanding : t'.expanding ≡ false
    pub found : (key : List ℕ) → assoc_find hash key t' ≡ assoc_find hash key t

  moves_off : (n : ℕ) (t : Assoc) → IsAssoc hash t → t.expanding ≡ false → Finished t (moves n t)
  unfolding do_assoc_move_next_bucket
  moves_off zero t h off = record { valid = h; expanding = off; found = λ key. refl }
  moves_off (suc n) t h off =
      subst (λ u. Finished t (moves n u)) (sym (ground arith)) (moves_off n t h off)

  left :
      (t : Assoc) (n : ℕ)
      → t.expanding ≡ true
      → (t.expand_bucket + 1) % u32 ≡ t.expand_bucket + 1
      → t.expand_bucket + suc n ≡ 2 ^ (t.hashpower - 1)
      → (do_assoc_move_next_bucket hash t).expand_bucket + n
        ≡ 2 ^ ((do_assoc_move_next_bucket hash t).hashpower - 1)
  unfolding do_assoc_move_next_bucket move_bucket
  left t n on next e =
      subst
        (λ b.
          (if b then move_bucket hash t else t).expand_bucket + n
          ≡ 2 ^ ((if b then move_bucket hash t else t).hashpower - 1))
        (sym on) (ap (λ x. x + n) next ∙ omega (arith, e))

  -- From any valid table that is growing, as many calls of do_assoc_move_next_bucket as the old
  -- table has buckets left end the expansion, with the table valid and every lookup as it was.
  pub moves-Finished :
      (n : ℕ) (t : Assoc)
      → IsAssoc hash t
      → t.expanding ≡ true
      → t.expand_bucket + n ≡ 2 ^ (t.hashpower - 1)
      → Finished t (moves n t)
  moves-Finished zero t h on e = absurd (omega (arith, (h.growing on).bound))
  moves-Finished (suc n) t h on e =
      let t' = do_assoc_move_next_bucket hash t in
      let h' = IsAssoc-do_assoc_move_next_bucket hash t h in
      let same = assoc_find-do_assoc_move_next_bucket hash t in
      let next = u32_bound hash t.expand_bucket t.hashpower (h.growing on).bound h.power in
      let rest : Finished t' (moves n t') = elim (Bool-cases t'.expanding) [
        | inl more ↦ moves-Finished n t' h' more (left t n on next e)
        | inr off ↦ moves_off n t' h' off
      ] in
      record {
        valid = rest.valid;
        expanding = rest.expanding;
        found = λ key. rest.found key ∙ same key h;
      }

  abbrev pub run_calls : List Call → Assoc → Run Assoc
  run_calls [] t = ok t
  run_calls (insert room e ∷ calls) t = run_calls calls (assoc_insert hash room e t)
  run_calls (delete key ∷ calls) t = assoc_delete hash key t >>= run_calls calls

  SameStage-trans : (t t' t'' : Assoc) → SameStage t t' → SameStage t' t'' → SameStage t t''
  SameStage-trans t t' t'' h k = record {
    expanding = k.expanding;
    expand_bucket = k.expand_bucket ∙ h.expand_bucket;
    hashpower = k.hashpower ∙ h.hashpower;
  }

  SameStage-put_chain :
      (key : List ℕ) (chain : List Entry) (n : ℕ) (t : Assoc)
      → t.expanding ≡ true
      → SameStage t (record (put_chain hash key chain t) { hash_items = n })
  unfolding put_chain
  SameStage-put_chain key chain n t on = record {
    expanding = ground (arith, on);
    expand_bucket = ground arith;
    hashpower = ground arith;
  }

  SameStage-assoc_insert :
      (room : Bool) (e : Entry) (t : Assoc)
      → t.expanding ≡ true
      → SameStage t (assoc_insert hash room e t)
  unfolding assoc_insert
  SameStage-assoc_insert room e t on =
      let n = (t.hash_items + 1) % u32 in
      let t' : Assoc = record (put_chain hash e.key (e ∷ get_chain hash e.key t) t) {
        hash_items = n;
      } in
      let full = ltb (2 ^ t.hashpower * 3 / 2) n in
      subst (λ b. SameStage t (if not b && full then assoc_expand hash room t' else t')) (sym on)
        (SameStage-put_chain e.key (e ∷ get_chain hash e.key t) n t on)

  SameStage-assoc_delete :
      (key : List ℕ) (t t' : Assoc)
      → t.expanding ≡ true
      → assoc_delete hash key t ≡ ok t'
      → SameStage t t'
  unfolding assoc_delete
  SameStage-assoc_delete key t t' on e =
      go (hashitem_before hash key t).0 (hashitem_before hash key t).1 e
    where
      go :
          (before rest : List Entry)
          → (elim rest [
            | [] ↦ fault assert_failed
            | x ∷ nxt ↦ ok (record (put_chain hash key (before ++ nxt) t) {
              hash_items = (t.hash_items + u32 - 1) % u32;
            })
          ])
            ≡ ok t'
          → SameStage t t'
      go before [] e = absurd (ground (arith, e))
      go before (x ∷ nxt) e =
          subst (λ u. SameStage t u) (ground (arith, e))
            (SameStage-put_chain key (before ++ nxt) ((t.hash_items + u32 - 1) % u32) t on)

  run_calls-SameStage :
      (calls : List Call) (t t' : Assoc)
      → t.expanding ≡ true
      → run_calls calls t ≡ ok t'
      → SameStage t t'
  run_calls-SameStage [] t t' on e =
      subst (λ u. SameStage t u) {x = t} (ground (arith, e))
        (record { expanding = on; expand_bucket = refl; hashpower = refl })
  run_calls-SameStage (insert room x ∷ calls) t t' on e =
      let h = SameStage-assoc_insert room x t on in
      SameStage-trans t (assoc_insert hash room x t) t' h
        (run_calls-SameStage calls (assoc_insert hash room x t) t' h.expanding e)
  run_calls-SameStage (delete key ∷ calls) t t' on e =
      let (u, p, q) = ok_bind (assoc_delete hash key t) (run_calls calls) t' e in
      let h = SameStage-assoc_delete key t u on p in
      SameStage-trans t u t' h (run_calls-SameStage calls u t' h.expanding q)

  assoc_expand-Begun : (t : Assoc) → 1 ≤ t.hashpower → Begun t (assoc_expand hash true t)
  unfolding assoc_expand do_assoc_move_next_bucket move_bucket
  assoc_expand-Begun t h =
      let two =
        pow-le-pow_right {n = 2} (omega arith) {i = 1} {j = t.hashpower + 1 - 1}
          (omega (arith, h)) in
      record { expanding = ground (arith, two); expand_bucket = ground arith; hashpower = refl }

  -- After assoc_expand of a table with at least two buckets, for which calloc finds memory, no
  -- sequence of insertions and deletions that succeeds moves another bucket, ends the expansion or
  -- makes the table larger: it stays in the stage after the first bucket.
  pub assoc_expand-stuck :
      (t t' : Assoc) (calls : List Call)
      → 1 ≤ t.hashpower
      → run_calls calls (assoc_expand hash true t) ≡ ok t'
      → Begun t t'
  assoc_expand-stuck t t' calls h e =
      let u = assoc_expand hash true t in
      let b = assoc_expand-Begun t h in
      let s = run_calls-SameStage calls u t' b.expanding e in
      record {
        expanding = s.expanding;
        expand_bucket = s.expand_bucket ∙ b.expand_bucket;
        hashpower = s.hashpower ∙ b.hashpower;
      }
