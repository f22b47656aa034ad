-- ===== src/Routing/Routes/Order.antt =====
-- src/handler_udp/routing/route_map.c: which route a destination gets.
use zeroserv.Prelude.{
  ◌≡◌, ◌⊎◌, refl, ℕ, ◌||◌, List, [], ◌∷◌, Option, none, some, if◌then◌else◌, Bool-cases,
  Option-cases, inl, inr, arith, leb, length,
}
use zeroserv.Routing.Routes.Cut.{BadNode, LongPort, GoodNode, parse_remote-Parsed}
use zeroserv.Routing.Routes.{
  Libc, Route, route_register, route_get_by_dst, route_register_config, star,
}
use zeroserv.Prelude.{same_text, Bool, true, false, ok, fault, out_of_bounds, Run}

module _ (L : Libc) where
  open L use {Regex, regexec, regcomp}

  -- The routes found so far win over a route that is registered later.
  abbrev or_else : Option (Route L) → Option (Route L) → Option (Route L)
  or_else none o = o
  or_else (some r) o = some r

  get-register :
      (dst : List ℕ) (r : Route L) (routes : List (Route L))
      → route_get_by_dst L dst (route_register L r routes)
        ≡ or_else (route_get_by_dst L dst routes) (if regexec r.rex_dest dst then some r else none)
  unfolding route_get_by_dst route_register
  get-register dst r [] = refl
  get-register dst r (q ∷ routes) = ground (arith, get-register dst r routes)

  -- Whether one of the texts is longer than the arrays allow.
  abbrev pub too_long : List ℕ → List ℕ → List ℕ → Bool
  too_long name src remote =
      leb 127 (length name) || (leb 127 (length src) || leb 127 (length remote))

  -- A text is too long, the expression does not compile, or the remote names no node.
  abbrev pub Refused : List ℕ → List ℕ → List ℕ → Type 0
  Refused name src remote =
      (too_long name src remote ≡ true)
      ⊎ ((regcomp src ≡ none) ⊎ ((same_text remote star ≡ false) × BadNode L remote))

  -- The text of the port does not fit its array.
  pub record Overrun (name src remote : List ℕ) : Type 0 where
    pub short : too_long name src remote ≡ false
    pub compiles : (rex : L.Regex) × (regcomp src ≡ some rex)
    pub no_star : same_text remote star ≡ false
    pub port : LongPort L remote

  -- The address that a route for `remote` sends to, none for `*`.
  abbrev pub NodeOf : List ℕ → Option (ℕ × ℕ) → Type 0
  NodeOf remote node =
      ((same_text remote star ≡ true) × (node ≡ none))
      ⊎ ((same_text remote star ≡ false) × (n : ℕ × ℕ) × GoodNode L remote n × (node ≡ some n))

  -- A route with these texts is behind the others.
  pub record Accepted (name src remote : List ℕ) (routes : List (Route L)) (r : Route L)
      (out : List (Route L)) : Type 0 where
    pub short : too_long name src remote ≡ false
    pub same_name : r.name ≡ name
    pub compiled : regcomp src ≡ some r.rex_dest
    pub dest : r.dest ≡ src
    pub node : NodeOf remote r.s_remote
    pub found :
        (dst : List ℕ)
        → route_get_by_dst L dst out
          ≡ or_else
              (route_get_by_dst L dst routes)
              (if regexec r.rex_dest dst then some r else none)

  abbrev pub Outcome : List ℕ → List ℕ → List ℕ → List (Route L) → Run (ℕ × List (Route L)) → Type 0
  Outcome name src remote routes out =
      (Refused name src remote × (out ≡ ok (1, routes)))
      ⊎ ((Overrun name src remote × (out ≡ fault out_of_bounds))
          ⊎ ((r : Route L) × (routes' : List (Route L)) × (out ≡ ok (0, routes'))
              × Accepted name src remote routes r routes'))

  -- A configured route is refused and changes nothing exactly when a text is too long, the expression
  -- does not compile, or the remote is neither `*` nor `host:port` with an address that inet_aton
  -- knows. A port of 20 bytes or more leaves its array. Otherwise the route, with the expression and
  -- the address of its texts, is put behind the others: a destination goes where it went before if
  -- a route matched it, and to the new route if only that one matches.
  pub route_register_config-Outcome :
      (name src remote : List ℕ) (routes : List (Route L))
      → Outcome name src remote routes (route_register_config L name src remote routes)
  unfolding route_register_config
  route_register_config-Outcome name src remote routes =
      elim (Bool-cases (too_long name src remote)) [
        | inl e ↦ inl (inl e, rw e refl)
        | inr short ↦ elim (Option-cases (regcomp src)) [
          | inl e ↦ inl (inr (inl e), rw (short, e) refl)
          | inr (rex, re) ↦
              let route : Option (ℕ × ℕ) → Route L = λ node. record {
                name = name;
                dest = src;
                rex_dest = rex;
                remote = remote;
                s_remote = node;
              } in
              let accepted : (node : Option (ℕ × ℕ))
                  → NodeOf remote node
                  → Accepted name src remote routes (route node)
                      (route_register L (route node) routes) =
                λ node n. record {
                  short = short;
                  same_name = refl;
                  compiled = re;
                  dest = refl;
                  node = n;
                  found = λ dst. get-register dst (route node) routes;
                } in
              elim (Bool-cases (same_text remote star)) [
                | inl e ↦ inr (
                    inr (
                      route none,
                      route_register L (route none) routes,
                      rw (short, re, e) refl,
                      accepted none (inl (e, refl)),
                    ))
                | inr e ↦ elim (parse_remote-Parsed L remote) [
                  | inl (bad, run) ↦ inl (inr (inr (e, bad)), rw (short, re, e, run) refl)
                  | inr (inl (long, run)) ↦ inr (
                      inl (
                        record { short = short; compiles = (rex, re); no_star = e; port = long },
                        rw (short, re, e, run) refl,
                      ))
                  | inr (inr (node, good, run)) ↦ inr (
                      inr (
                        route (some node),
                        route_register L (route (some node)) routes,
                        rw (short, re, e, run) refl,
                        accepted (some node) (inr (e, node, good, refl)),
                      ))
                ]
              ]
        ]
      ]
