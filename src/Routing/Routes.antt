-- ===== src/Routing/Routes.antt =====
-- src/handler_udp/routing/route_map.c and mineip.c: the routes in the order of the configuration,
-- and the addresses of this machine. A string is the list of its bytes before the terminator.
-- `regcomp`, `regexec`, `inet_aton` and `atoi` are the C library's, the fields of `Libc`.
pub mod Cut
pub mod Order
mod Tests
use zeroserv.Prelude.{
  ℕ, zero, suc, ◌+◌, ◌-◌, ◌%◌, ◌^◌, Bool, true, false, ◌||◌, List, [], ◌∷◌, ◌++◌, Option, none,
  some, leb, ◌==◌, if◌then◌else◌, same_text, length, take, drop, ltb, Run, ok, ◌>>=◌, ◌>>◌, demand,
  out_of_bounds,
}

pub record Libc : Type 1 where
  pub Regex : Type 0
  pub regcomp : List ℕ → Option Regex
  pub regexec : Regex → List ℕ → Bool
  pub inet_aton : List ℕ → Option ℕ
  pub atoi : List ℕ → ℕ

-- `ROUT_BUF_REV`
abbrev pub rout_buf_rev : ℕ
rout_buf_rev = 128 - 1

abbrev pub star : List ℕ
star = 42 ∷ []

-- `strchr`: the offset of the first `c`.
unfoldable pub strchr : List ℕ → ℕ → Option ℕ
strchr [] c = none
strchr (x ∷ xs) c =
    if x == c then some 0 else elim (strchr xs c) [ none ↦ none | some n ↦ some (suc n) ]

-- `struct mip`
pub record Mip : Type 0 where
  pub ip : ℕ
  pub name : List ℕ

unfoldable pub is_mine_ip : ℕ → List Mip → ℕ
is_mine_ip ip [] = 0
is_mine_ip ip (mip ∷ rest) = if mip.ip == ip then 1 else is_mine_ip ip rest

unfoldable pub get_ip_nic : List ℕ → List Mip → ℕ
get_ip_nic name [] = 0
get_ip_nic name (mip ∷ rest) = if same_text mip.name name then mip.ip else get_ip_nic name rest

module _ (L : Libc) where
  open L use {Regex, regcomp, regexec, inet_aton, atoi}

  -- `struct route`; `s_remote` is the address and the port of the next node, and is not set for the
  -- remote `*`.
  pub record Route : Type 0 where
    pub name : List ℕ
    pub dest : List ℕ
    pub rex_dest : Regex
    pub remote : List ℕ
    pub s_remote : Option (ℕ × ℕ)

  unfoldable pub route_register : Route → List Route → List Route
  route_register r routes = routes ++ r ∷ []

  unfoldable pub route_get_by_name : List ℕ → List Route → Option Route
  route_get_by_name name [] = none
  route_get_by_name name (r ∷ rest) =
      if same_text r.name name then some r else route_get_by_name name rest

  unfoldable pub route_get_by_dst : List ℕ → List Route → Option Route
  route_get_by_dst dst [] = none
  route_get_by_dst dst (r ∷ rest) =
      if regexec r.rex_dest dst then some r else route_get_by_dst dst rest

  abbrev pub node_at : Option ℕ → List ℕ → Option (ℕ × ℕ)
  node_at none port = none
  node_at (some host) port = some (host, atoi port % 2 ^ 16)

  -- The address of the next node, `host:port`; the port is `htons(atoi(port))`. The host fits its
  -- 128 bytes. `char port[20]` holds the text of the port: a longer one is written behind it, and one
  -- of 20 bytes leaves no terminator, so `atoi` reads behind it.
  unfoldable pub parse_remote : List ℕ → Run (Option (ℕ × ℕ))
  parse_remote remote = elim (strchr remote 58) [
    | none ↦ ok none
    | some at ↦ do
      let port = drop (at + 1) remote
      demand (ltb (length port) 20) out_of_bounds
      ok (node_at (inet_aton (take at remote)) port)
  ]

  abbrev pub register_node : Route → List Route → Option (ℕ × ℕ) → ℕ × List Route
  register_node r routes none = (1, routes)
  register_node r routes (some node) =
      (0, route_register (record r { s_remote = some node }) routes)

  unfoldable pub route_register_config :
      List ℕ → List ℕ → List ℕ → List Route → Run (ℕ × List Route)
  route_register_config name src remote routes =
      if leb rout_buf_rev (length name)
        || (leb rout_buf_rev (length src) || leb rout_buf_rev (length remote))
      then ok (1, routes)
      else elim (regcomp src) [
        | none ↦ ok (1, routes)
        | some rex ↦
            let rout : Route = record {
              name = name;
              dest = src;
              rex_dest = rex;
              remote = remote;
              s_remote = none;
            } in
            if same_text remote star
            then ok (0, route_register rout routes)
            else parse_remote remote >>= λ node. ok (register_node rout routes node)
      ]
