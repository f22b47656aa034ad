-- ===== src/Memcached/Conn/Answer.antt =====
-- The answer of process_get_command in src/handler/memcached.c.
use zeroserv.Prelude.{[], append-nil}
use zeroserv.Prelude.{
  ℕ, ◌+◌, ◌%◌, ◌≡◌, refl, sym, ap, ◌∙◌, subst, true, List, ◌++◌, Option, none, some, arith, inl,
  inr, length, take, ok, ◌>>=◌, length-append, append_assoc,
}
use zeroserv.Memcached.Assoc.{assoc_find}
use zeroserv.Memcached.Item.{Item}
use zeroserv.Memcached.Items.{Cache, Stats, item_get, u16, u64}
use zeroserv.Memcached.Items.Inv.{IsCache}
use zeroserv.Memcached.Items.Get.{Hit, do_item_get_notedeleted-GetOutcome}
use zeroserv.Memcached.Store.Spec.{values}
use zeroserv.Memcached.Tokens.{Token}
use zeroserv.Memcached.Conn.{
  Server, add_out_string, answer, process_get_command, token_at, text_of, with_cache,
}
use zeroserv.Memcached.Conn.Texts.{end_text}
use zeroserv.Memcached.Conn.Output.{Added, HasRoom, filled, add_out_string-Added}
use zeroserv.Memcached.Conn.ItemAnswer.{
  item_answer, get_answer, IsWhole, same_payload, IsCache-with_stats, values_counted,
  answer_item-Kept,
}

module _ (hash : List ℕ → ℕ) where
  -- The item that the cache finds for a key.
  abbrev pub item_at : Cache → Option ℕ → Option Item
  item_at c none = none
  item_at c (some it) = c.lists.heap it

  abbrev pub found_item : List ℕ → Cache → Option Item
  found_item key c = item_at c (assoc_find hash key c.table)

  -- What a get of the key leaves.
  pub record Answered (key : List ℕ) (s s' : Server) (xs : List ℕ) : Type 0 where
    pub valid : IsCache hash s'.cache xs
    pub values : (k : List ℕ) → values hash s'.cache k ≡ values hash s.cache k
    pub filled : filled s' ≡ filled s ++ get_answer (found_item key s.cache)
    pub watched : s'.conn.wr ≡ true

  abbrev get_stats : Server → Stats
  get_stats s = record s.cache.stats { get_cmds = (s.cache.stats.get_cmds + 1) % u64 }

  abbrev counted_get : Server → Cache
  counted_get s = record s.cache { stats = get_stats s }

  get_runs :
      (tokens : List Token) (token : Token) (text : List ℕ) (r : Option ℕ × Cache)
      (s s1 s2 : Server)
      → token_at tokens 1 ≡ ok token
      → text_of token ≡ ok text
      → item_get hash (take token.length text) (counted_get s) ≡ ok r
      → answer hash r.0 (with_cache r.1 s) ≡ ok s1
      → add_out_string end_text s1 ≡ ok s2
      → process_get_command hash tokens s ≡ ok s2
  unfolding process_get_command
  get_runs tokens token text r s s1 s2 e0 e1 e2 e3 e4 = rw (e0, e1, e2, e3, e4) refl

  -- "END" behind the text of an item, or behind no text.
  end-Answered :
      (key text : List ℕ) (s s1 s2 : Server) (xs : List ℕ)
      → IsCache hash s1.cache xs
      → ((k : List ℕ) → values hash s1.cache k ≡ values hash s.cache k)
      → filled s1 ≡ filled s ++ text
      → get_answer (found_item key s.cache) ≡ text ++ end_text
      → Added end_text s1 s2
      → Answered key s s2 xs
  end-Answered key text s s1 s2 xs valid same front found b = record {
    valid = subst (λ c. IsCache hash c xs) (sym b.cache) valid;
    values = λ k. ap (λ c. values hash c k) b.cache ∙ same k;
    filled =
        b.filled
        ∙ ap (λ t. t ++ end_text) front
        ∙ append_assoc (filled s) text end_text
        ∙ ap (λ t. filled s ++ t) (sym found);
    watched = b.watched;
  }

  -- A found key.
  answer-Hit :
      (key : List ℕ) (it : ℕ) (s : Server) (c1 : Cache) (xs : List ℕ)
      → IsCache hash s.cache xs
      → assoc_find hash key s.cache.table ≡ some it
      → Hit hash key it (counted_get s) c1 xs
      → ((i : Item) → found_item key s.cache ≡ some i → IsWhole i)
      → HasRoom (length (get_answer (found_item key s.cache))) s
      → (s1 : Server) × (s2 : Server) × (answer hash (some it) (with_cache c1 s) ≡ ok s1)
        × (add_out_string end_text s1 ≡ ok s2)
        × Answered key s s2 xs
  answer-Hit key it s c1 xs h e hit whole room =
      let i = hit.item in
      let found : found_item key s.cache ≡ some i = ap (item_at s.cache) e ∙ hit.cell in
      let room_i = subst (λ o. HasRoom (length (get_answer o)) s) found room in
      let sum = length-append (item_answer i) end_text in
      let refs = (i.refcount + 1) % u16 in
      let (j, cell, same) =
        same_payload (c1.lists.heap it) (record i { refcount = refs }) hit.counted.item in
      let text : item_answer j ≡ item_answer i = ap item_answer same in
      let whole_j : IsWhole j = subst IsWhole (sym same) (whole i found) in
      let room_j : HasRoom (length (item_answer j)) (with_cache c1 s) =
        ground (arith, room_i, sum, ap length text) in
      let (s3, c', run, a, k) =
        answer_item-Kept hash it j (with_cache c1 s) xs hit.counted.valid cell hit.member whole_j
          room_j in
      let s1 = with_cache c' s3 in
      let room_end : HasRoom (length end_text) s1 =
        ground (arith, room_i, sum, ap length text, a.end_at, a.size) in
      let (s2, run_end, b) = add_out_string-Added end_text s1 room_end in
      let same_values : (k : List ℕ) → values hash c' k ≡ values hash s.cache k = λ key.
        k.values key
        ∙ values_counted hash it i refs (counted_get s) c1 xs
            (IsCache-with_stats hash s.cache xs (get_stats s) h refl) hit.cell hit.counted.item
            hit.counted.others hit.counted.table key in
      (
        s1,
        s2,
        run,
        run_end,
        end-Answered key (item_answer i) s s1 s2 xs k.valid same_values
            (a.filled ∙ ap (λ t. filled s ++ t) text) (ap get_answer found) b,
      )

  answer_miss :
      (key : List ℕ) (s : Server) (xs : List ℕ)
      → IsCache hash s.cache xs
      → assoc_find hash key s.cache.table ≡ none
      → HasRoom (length (get_answer (found_item key s.cache))) s
      → (s1 : Server) × (s2 : Server) × (answer hash none (with_cache (counted_get s) s) ≡ ok s1)
        × (add_out_string end_text s1 ≡ ok s2)
        × Answered key s s2 xs
  answer_miss key s xs h e room =
      let found : found_item key s.cache ≡ none = ap (item_at s.cache) e in
      let st = get_stats s in
      let missed : Stats = record st { get_misses = (st.get_misses + 1) % u64 } in
      let s1 = with_cache (record s.cache { stats = missed }) s in
      let room_end = subst (λ o. HasRoom (length (get_answer o)) s) found room in
      let (s2, run_end, b) = add_out_string-Added end_text s1 room_end in
      let valid = IsCache-with_stats hash s.cache xs missed h refl in
      (
        s1,
        s2,
        refl,
        run_end,
        end-Answered key [] s s1 s2 xs valid (λ k. refl) (sym (append-nil (filled s)))
            (ap get_answer found) b,
      )

  -- On a valid cache where nothing was flushed, process_get_command of tokens whose second one is a
  -- key answers "VALUE " with the key and the data of the item that the cache finds, if it finds
  -- one, and "END". The cache stays valid with the same values, and the descriptor is watched for
  -- writing. The output buffer has room for the answer, and the item's data is as long as its
  -- header says.
  pub process_get_command-Answered :
      (tokens : List Token) (token : Token) (text : List ℕ) (s : Server) (xs : List ℕ)
      → token_at tokens 1 ≡ ok token
      → text_of token ≡ ok text
      → IsCache hash s.cache xs
      → s.cache.oldest_live ≡ 0
      → ((i : Item) → found_item (take token.length text) s.cache ≡ some i → IsWhole i)
      → HasRoom (length (get_answer (found_item (take token.length text) s.cache))) s
      → (s' : Server) × (process_get_command hash tokens s ≡ ok s')
        × Answered (take token.length text) s s' xs
  unfolding item_get
  process_get_command-Answered tokens token text s xs e0 e1 h fresh whole room =
      let key = take token.length text in
      let counted = counted_get s in
      let valid = IsCache-with_stats hash s.cache xs (get_stats s) h refl in
      elim (do_item_get_notedeleted-GetOutcome hash key counted xs valid fresh) [
        | inl (e, run) ↦
            let (s1, s2, e3, e4, k) = answer_miss key s xs h e room in
            (
              s2,
              get_runs tokens token text (none, counted) s s1 s2 e0 e1
                  (ap (λ r. r >>= λ r. ok (r.0, r.1.1)) run) e3 e4,
              k,
            )
        | inr (it, c1, e, run, hit) ↦
            let (s1, s2, e3, e4, k) = answer-Hit key it s c1 xs h e hit whole room in
            (
              s2,
              get_runs tokens token text (some it, c1) s s1 s2 e0 e1
                  (ap (λ r. r >>= λ r. ok (r.0, r.1.1)) run) e3 e4,
              k,
            )
      ]
