-- ===== src/Routing/Ports/Above.antt =====
-- src/handler_udp/routing/local_port.c: the lookups when the two bytes behind the `unsigned
-- short` are not zero.
use zeroserv.Prelude.{ℕ, ◌+◌, ◌*◌, ◌<◌, ◌≡◌, ◌≢◌, none, some, arith, elem, Bool-cases, inl, inr}
use zeroserv.UtHash.{UtHash}
use zeroserv.Routing.Ports.{
  LocalPort, Ports, max_port, u16, get_local_port, add_port, register_port, unregister_port,
}
use zeroserv.Routing.Ports.Inv.{Inv, used, absent_find}

module _ (U : UtHash LocalPort) {ps : Ports U} (inv : Inv U ps) (above : ℕ) where
  -- If the two bytes behind the `unsigned short` are not zero, a lookup finds no port, whichever
  -- ports are registered: `unregister_port` removes nothing, and below the limit `register_port`
  -- adds a port that is in use a second time.
  pub lookup_misses :
      (id context : ℕ)
      → 0 < above
      → ps.cur_port ≢ max_port
      → (get_local_port U above id ps ≡ none)
        × (unregister_port U above id ps ≡ (0, ps))
        × (register_port U above id context ps
            ≡ (some (record { id = id; context = context }), add_port U id context ps))
  unfolding get_local_port unregister_port register_port
  lookup_misses id context pos room = elim (Bool-cases (elem (id + u16 * above) (used U ps))) [
    | inl there ↦ absurd (omega (arith, inv.small (id + u16 * above) there))
    | inr gone ↦ ground (arith, absent_find U (id + u16 * above) ps.table gone)
  ]
