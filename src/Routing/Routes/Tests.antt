-- ===== src/Routing/Routes/Tests.antt =====
-- Examples for the routes: an expression is a text that matches itself, and every address is known.
use zeroserv.Prelude.{ℕ, ◌≡◌, refl, List, [], ◌∷◌, none, some, if◌then◌else◌, ok}
use zeroserv.Routing.Routes.{
  Libc, Route, route_register_config, parse_remote, strchr, route_register,
}
use zeroserv.Prelude.{same_text}
use zeroserv.Routing.Routes.Order.{Outcome, route_register_config-Outcome}

abbrev pub exact : Libc
exact = record {
  Regex = List ℕ;
  regcomp = λ text. if same_text text (40 ∷ []) then none else some text;
  regexec = same_text;
  inet_aton = λ text. some 16777343;
  atoi = λ text. 80;
}

-- A route for `a`, to its destination.
abbrev pub direct : Route exact
direct = record {
  name = 110 ∷ [];
  dest = 97 ∷ [];
  rex_dest = 97 ∷ [];
  remote = 42 ∷ [];
  s_remote = none;
}

-- `b` goes to the node `h:8`.
config_run :
    route_register_config exact (110 ∷ []) (98 ∷ []) (104 ∷ 58 ∷ 56 ∷ []) (direct ∷ [])
    ≡ ok (
      0,
      direct
          ∷ record {
            name = 110 ∷ [];
            dest = 98 ∷ [];
            rex_dest = 98 ∷ [];
            remote = 104 ∷ 58 ∷ 56 ∷ [];
            s_remote = some (16777343, 80);
          }
          ∷ [],
    )
unfolding route_register_config parse_remote strchr route_register
config_run = refl

route_register_config-Outcome_example :
    Outcome exact
      (110 ∷ [])
      (98 ∷ [])
      (104 ∷ 58 ∷ 56 ∷ [])
      (direct ∷ [])
      (route_register_config exact (110 ∷ []) (98 ∷ []) (104 ∷ 58 ∷ 56 ∷ []) (direct ∷ []))
route_register_config-Outcome_example =
    route_register_config-Outcome exact (110 ∷ []) (98 ∷ []) (104 ∷ 58 ∷ 56 ∷ []) (direct ∷ [])
