-- ===== src/Routing/Routes/Cut.antt =====
-- src/handler_udp/routing/route_map.c: the address of the next node, cut at its first colon.
use zeroserv.Prelude.{
  ℕ, zero, suc, ◌+◌, ◌%◌, ◌^◌, ◌≤◌, ◌<◌, ◌≡◌, ◌⊎◌, refl, ap, false, List, [], ◌∷◌, ◌++◌, none, some,
  ◌==◌, ltb, length, take, drop, arith, Bool-cases, Option-cases, inl, inr, elem, ok, fault,
  out_of_bounds,
}
use native.Mathlib.Numerals.{towards_suc}
use zeroserv.Routing.Routes.{Libc, strchr, node_at, parse_remote}

-- `remote` is `host:port`, cut at its first colon.
pub record IsCut (remote host port : List ℕ) : Type 0 where
  pub whole : remote ≡ host ++ 58 ∷ port
  pub first : elem 58 host ≡ false

strchr-none : (xs : List ℕ) (c : ℕ) → strchr xs c ≡ none → elem c xs ≡ false
unfolding strchr elem
strchr-none [] c h = refl
strchr-none (x ∷ xs) c h = elim (Option-cases (strchr xs c)) [
  | inl e ↦ ground (arith, strchr-none xs c e, h)
  | inr (n, e) ↦ ground (arith, h, e)
]

strchr-some :
    (xs : List ℕ) (c n : ℕ)
    → strchr xs c ≡ some n
    → (xs ≡ take n xs ++ c ∷ drop (suc n) xs) × (elem c (take n xs) ≡ false)
unfolding strchr elem
strchr-some [] c n h = absurd (ground (arith, h))
strchr-some (x ∷ xs) c zero h = elim (Bool-cases (x == c)) [
  | inl e ↦ (ap (λ y. y ∷ xs) (ground (arith, e)), refl)
  | inr e ↦ elim (Option-cases (strchr xs c)) [
    | inl e' ↦ absurd (ground (arith, h, e, e'))
    | inr (k, e') ↦ absurd (ground (arith, h, e, e'))
  ]
]
strchr-some (x ∷ xs) c (suc n) h = elim (Bool-cases (x == c)) [
  | inl e ↦ absurd (ground (arith, h, e))
  | inr e ↦ elim (Option-cases (strchr xs c)) [
    | inl e' ↦ absurd (ground (arith, h, e, e'))
    | inr (k, e') ↦
        let (whole, first) = strchr-some xs c n (ground (arith, h, e, e')) in
        (ap (λ l. x ∷ l) whole, ground (arith, first, e))
  ]
]

strchr-IsCut :
    (remote : List ℕ) (n : ℕ)
    → strchr remote 58 ≡ some n
    → IsCut remote (take n remote) (drop (n + 1) remote)
strchr-IsCut remote n h =
    let (whole, first) = strchr-some remote 58 n h in
    record { whole = simp towards_suc whole; first = first }

module _ (L : Libc) where
  open L use {inet_aton, atoi}

  -- The text names no node.
  abbrev pub BadNode : List ℕ → Type 0
  BadNode remote =
      (elem 58 remote ≡ false)
      ⊎ ((host : List ℕ) × (port : List ℕ) × IsCut remote host port
          × (length port < 20)
          × (inet_aton host ≡ none))

  -- The text of the port does not fit its array.
  abbrev pub LongPort : List ℕ → Type 0
  LongPort remote = (host : List ℕ) × (port : List ℕ) × IsCut remote host port × (20 ≤ length port)

  abbrev pub GoodNode : List ℕ → ℕ × ℕ → Type 0
  GoodNode remote node =
      (host : List ℕ) × (port : List ℕ) × (ip : ℕ) × IsCut remote host port
      × (length port < 20)
      × (inet_aton host ≡ some ip)
      × (node ≡ (ip, atoi port % 2 ^ 16))

  abbrev pub Parsed : List ℕ → Type 0
  Parsed remote =
      (BadNode remote × (parse_remote L remote ≡ ok none))
      ⊎ ((LongPort remote × (parse_remote L remote ≡ fault out_of_bounds))
          ⊎ ((node : ℕ × ℕ) × GoodNode remote node × (parse_remote L remote ≡ ok (some node))))

  -- What `parse_remote` gives, by the host and the port of the text.
  pub parse_remote-Parsed : (remote : List ℕ) → Parsed remote
  unfolding parse_remote
  parse_remote-Parsed remote = elim (Option-cases (strchr remote 58)) [
    | inl e ↦ inl (inl (strchr-none remote 58 e), rw (e, parse_remote) refl)
    | inr (n, e) ↦
        let cut = strchr-IsCut remote n e in
        let port : List ℕ = drop (n + 1) remote in
        elim (Bool-cases (ltb (length port) 20)) [
          | inr long ↦ inr (
              inl
                ((take n remote, port, cut, ground (arith, long)), rw (e, parse_remote, long) refl))
          | inl short ↦
              let fits : length port < 20 = ground (arith, short) in
              elim (Option-cases (inet_aton (take n remote))) [
                | inl e' ↦ inl (
                  inr (take n remote, port, cut, fits, e'),
                  rw (e, parse_remote, short) (ap (λ o. ok (node_at L o port)) e'),
                )
                | inr (ip, e') ↦ inr (
                    inr (
                      (ip, atoi port % 2 ^ 16),
                      (take n remote, port, ip, cut, fits, e', refl),
                      rw (e, parse_remote, short) (ap (λ o. ok (node_at L o port)) e'),
                    ))
              ]
        ]
  ]
