-- ===== src/Routing/Ports/Tests.antt =====
-- Examples for the local ports: port 9 is registered, and the next virtual port would be 9.
use zeroserv.Prelude.{
  ℕ, ◌<◌, ◌≡◌, refl, false, [], ◌∷◌, none, some, arith, elem, distinct, remove_first, ◌==◌,
  if◌then◌else◌,
}
use zeroserv.UtHash.Assoc.{assoc}
use zeroserv.Routing.Ports.{
  LocalPort, Ports, get_local_port, register_port, register_virtual_port, unregister_port,
}
use zeroserv.Routing.Ports.Inv.{
  Inv, used, Registered, register_port-Registered, removed, unregister_port-removes,
}
use zeroserv.Routing.Ports.Virtual.{register_virtual_port-fresh}

abbrev nine : LocalPort
nine = record { id = 9; context = 0 }

abbrev one_port : Ports (assoc LocalPort)
one_port = record { last = 8; cur_port = 1; table = (9, nine) ∷ [] }

one_port-Inv : Inv (assoc LocalPort) one_port
unfolding elem distinct
one_port-Inv = record {
  once = refl;
  small = λ a h. ground arith;
  count = refl;
  limit = omega arith;
  ids = λ k p h. ground arith;
}

register_port-Registered_example :
    Registered (assoc LocalPort) 4 5 one_port false (register_port (assoc LocalPort) 0 4 5 one_port)
unfolding elem
register_port-Registered_example =
    register_port-Registered (assoc LocalPort) 4 5 one_port-Inv (omega arith)

unregister_port-removes_example :
    let (code, ps') = unregister_port (assoc LocalPort) 0 9 one_port in
    (code ≡ 1)
    × Inv (assoc LocalPort) ps'
    × (ps' ≡ removed (assoc LocalPort) 9 one_port)
    × (used (assoc LocalPort) ps' ≡ [])
    × ((j : ℕ)
        → get_local_port (assoc LocalPort) 0 j ps'
          ≡ (if 9 == j then none else get_local_port (assoc LocalPort) 0 j one_port))
unfolding elem remove_first
unregister_port-removes_example = unregister_port-removes (assoc LocalPort) 9 one_port-Inv

register_virtual_port-fresh_example :
    (id : ℕ) × (ps' : Ports (assoc LocalPort)) × (register_virtual_port
        (assoc LocalPort)
        13
        0
        5
        one_port
      ≡ some (some (record { id = id; context = 5 }), ps'))
    × (elem id (9 ∷ []) ≡ false)
    × Inv (assoc LocalPort) ps'
    × (used (assoc LocalPort) ps' ≡ 9 ∷ id ∷ [])
    × (ps'.last ≡ id)
    × (id < 65536)
register_virtual_port-fresh_example =
    register_virtual_port-fresh (assoc LocalPort) 13 5 one_port-Inv (omega arith) (omega arith)
      (omega arith)
