-- ===== src/Routing/Ports/Inv.antt =====
-- src/handler_udp/routing/local_port.c: the invariant of the table of local ports, and
-- registration and removal.
use zeroserv.Prelude.{
  ℕ, ◌+◌, ◌-◌, ◌%◌, ◌≤◌, ◌<◌, ◌≡◌, ◌≢◌, refl, ap, ◌∙◌, sym, Bool, true, false, List, [], ◌∷◌, ◌++◌,
  Option, none, some, ◌==◌, if◌then◌else◌, length, arith, elem, distinct, elem-append,
  distinct-append, distinct-remove_first, length-append, remove_first, length-remove_first,
  remove_first_absent, elem-remove_first_ne, Bool-cases, Option-cases, inl, inr, ◌||◌,
}
use zeroserv.UtHash.{UtHash, is_some}
use zeroserv.Routing.Ports.{
  LocalPort, Ports, max_port, u16, get_local_port, add_port, register_port, unregister_port,
}

module _ (U : UtHash LocalPort) where
  open U use {
    Table, empty, find, add, delete, keys, elem-keys, find-add, keys-add, find-delete, keys-delete,
  }

  pub record Inv (ps : Ports U) : Type 0 where
    pub once : distinct (keys ps.table) ≡ true
    pub small : (a : ℕ) → elem a (keys ps.table) ≡ true → a < u16
    pub count : ps.cur_port ≡ length (keys ps.table)
    pub limit : ps.cur_port ≤ max_port
    pub ids : (k : ℕ) (p : LocalPort) → find k ps.table ≡ some p → p.id ≡ k

  -- The ids in use.
  abbrev pub used : Ports U → List ℕ
  used ps = keys ps.table

  pub absent_find : (k : ℕ) (t : Table) → elem k (keys t) ≡ false → find k t ≡ none
  absent_find k t h = elim (Option-cases (find k t)) [
    | inl e ↦ e
    | inr (p, e) ↦ absurd (ground (arith, elem-keys k t))
  ]

  module _ {ps : Ports U} (inv : Inv ps) (id context : ℕ) (lt : id < u16) where
    -- A free id can be added below the limit.
    pub add_port-Inv :
        elem id (used ps) ≡ false
        → ps.cur_port ≢ max_port
        → Inv (add_port U id context ps)
          × (used (add_port U id context ps) ≡ used ps ++ id ∷ [])
          × ((j : ℕ)
              → find j (add_port U id context ps).table ≡ (
                  if id == j
                  then some (record { id = id; context = context })
                  else find j ps.table))
    unfolding add_port
    add_port-Inv new room =
        let port : LocalPort = record { id = id; context = context } in
        let gone = absent_find id ps.table new in
        let more = keys-add id port ps.table gone in
        (
          record {
            once = rw more (distinct-append (used ps) id inv.once new);
            small = λ a m.
                let m' : elem a (used ps ++ id ∷ []) ≡ true = rw more at m in
                unfold elem in ground (arith, elem-append a (used ps) (id ∷ []), inv.small a, m');
            count =
                rw more (omega (arith, length-append (used ps) (id ∷ []), inv.count, inv.limit));
            limit = omega (arith, inv.limit);
            ids = λ k p e. ground (arith, find-add id k port ps.table gone, inv.ids k p);
          },
          more,
          λ j. find-add id j port ps.table gone,
        )

  pub get_local_port-find : (id : ℕ) (ps : Ports U) → get_local_port U 0 id ps ≡ find id ps.table
  unfolding get_local_port
  get_local_port-find id ps = ap (λ k. find k ps.table) (omega arith)

  pub get_local_port-elem :
      (id : ℕ) (ps : Ports U) → is_some (get_local_port U 0 id ps) ≡ elem id (used ps)
  get_local_port-elem id ps = rw (get_local_port-find, elem-keys)

  -- What a registration of `id` leaves, if it is refused or done.
  pub record Registered (id context : ℕ) (ps : Ports U) (refused : Bool)
      (out : Option LocalPort × Ports U) : Type 0 where
    pub returns : out.0 ≡ (if refused then none else some (record { id = id; context = context }))
    pub valid : Inv out.1
    pub in_use : used out.1 ≡ (if refused then used ps else used ps ++ id ∷ [])
    pub found :
        (j : ℕ)
        → get_local_port U 0 j out.1 ≡ (
            if refused
            then get_local_port U 0 j ps
            else if id == j
            then some (record { id = id; context = context })
            else get_local_port U 0 j ps)

  refused_Registered :
      {ps : Ports U} (id context : ℕ) → Inv ps → Registered id context ps true (none, ps)
  refused_Registered id context inv = record {
    returns = refl;
    valid = inv;
    in_use = refl;
    found = λ j. refl;
  }

  added_Registered :
      {ps : Ports U} (id context : ℕ)
      → Inv ps
      → id < u16
      → elem id (used ps) ≡ false
      → ps.cur_port ≢ max_port
      → Registered id context ps false
          (some (record { id = id; context = context }), add_port U id context ps)
  added_Registered {ps} id context inv lt new room =
      let (valid, more, found') = add_port-Inv inv id context lt new room in
      record {
        returns = refl;
        valid = valid;
        in_use = more;
        found = λ j. rw (get_local_port-find, get_local_port-find) (found' j);
      }

  -- With the two bytes zero, `register_port` refuses exactly when 13 ports are in use or this one
  -- is; otherwise it adds the port. It keeps the invariant, and afterwards a lookup finds what it
  -- found before and the new port.
  pub register_port-Registered :
      {ps : Ports U} (id context : ℕ)
      → Inv ps
      → id < u16
      → Registered id context ps
          (ps.cur_port == max_port || elem id (used ps))
          (register_port U 0 id context ps)
  unfolding register_port
  register_port-Registered {ps} id context inv lt = elim (Bool-cases (ps.cur_port == max_port)) [
    | inl full ↦ rw full (refused_Registered id context inv)
    | inr room ↦ elim (Option-cases (get_local_port U 0 id ps)) [
      | inr (p, e) ↦
          let there : elem id (used ps) ≡ true = ground (arith, get_local_port-elem id ps) in
          rw (room, there, e) (refused_Registered id context inv)
      | inl e ↦
          let new : elem id (used ps) ≡ false = ground (arith, get_local_port-elem id ps) in
          rw (room, new, e) (added_Registered id context inv lt new (ground (arith, room)))
    ]
  ]

  -- The table without the port that a lookup of `id` found.
  abbrev pub removed : ℕ → Ports U → Ports U
  removed id ps = record ps { cur_port = (ps.cur_port + u16 - 1) % u16; table = delete id ps.table }

  removed-Inv :
      {ps : Ports U} (id : ℕ)
      → Inv ps
      → elem id (used ps) ≡ true
      → Inv (removed id ps)
        × (used (removed id ps) ≡ remove_first id (used ps))
        × ((j : ℕ)
            → get_local_port U 0 j (removed id ps)
              ≡ (if id == j then none else get_local_port U 0 j ps))
  removed-Inv {ps} id inv there =
      let present : is_some (find id ps.table) ≡ true = ground (arith, elem-keys id ps.table) in
      let less = keys-delete id ps.table present in
      let found' = λ (j : ℕ). find-delete id j ps.table inv.once present in
      let once' = distinct-remove_first id (used ps) inv.once in
      (
        record {
          once = rw less once'.0;
          small = λ a m.
              let m' : elem a (remove_first id (used ps)) ≡ true = rw less at m in
              ground
                (arith, inv.small a, inv.small id, m', elem-remove_first_ne a id (used ps), there);
          count =
              rw less (omega (arith, length-remove_first id (used ps) there, inv.count, inv.limit));
          limit = omega (arith, length-remove_first id (used ps) there, inv.count, inv.limit);
          ids = λ k p e. ground (arith, found' k, inv.ids k p);
        },
        less,
        λ j. rw (get_local_port-find j (removed id ps), get_local_port-find j ps) (found' j),
      )

  same :
      (id j : ℕ) (ps : Ports U)
      → (id == j) ≡ true
      → get_local_port U 0 id ps ≡ get_local_port U 0 j ps
  same id j ps h = ap (λ k. get_local_port U 0 k ps) (ground (arith, h))

  -- With the two bytes zero, `unregister_port` returns 1 and takes the port out if it is in use, where
  -- only the table and the count change, and returns 0 and changes nothing otherwise. It keeps the
  -- invariant, and afterwards a lookup finds every other port as before, and not this one.
  pub unregister_port-removes :
      {ps : Ports U} (id : ℕ)
      → Inv ps
      → let (code, ps') = unregister_port U 0 id ps in
        (code ≡ (if elem id (used ps) then 1 else 0))
        × Inv ps'
        × (ps' ≡ (if elem id (used ps) then removed id ps else ps))
        × (used ps' ≡ remove_first id (used ps))
        × ((j : ℕ) → get_local_port U 0 j ps' ≡ (if id == j then none else get_local_port U 0 j ps))
  unfolding unregister_port
  unregister_port-removes {ps} id inv = elim (Option-cases (get_local_port U 0 id ps)) [
    | inl e ↦
        let gone : elem id (used ps) ≡ false = ground (arith, get_local_port-elem id ps) in
        rw (e, unregister_port, gone, remove_first_absent id (used ps) gone)
          (refl, inv, refl, refl, λ j. ground (arith, e, same id j ps))
    | inr (p, e) ↦
        let there : elem id (used ps) ≡ true = ground (arith, get_local_port-elem id ps) in
        let key : p.id ≡ id = inv.ids id p (sym (get_local_port-find id ps) ∙ e) in
        rw (e, unregister_port, there, key)
          (
            refl,
            (removed-Inv id inv there).0,
            refl,
            (removed-Inv id inv there).1,
            (removed-Inv id inv there).2,
          )
  ]
