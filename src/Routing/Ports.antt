-- ===== src/Routing/Ports.antt =====
-- src/handler_udp/routing/local_port.c: the table of local ports, real and virtual. The table is
-- the hash table library's (the parameter `U`); `_port` and `cur_port` are `unsigned short`. A
-- lookup passes the address of an `unsigned short id` for a key of `sizeof (int)` bytes, so the
-- key has two more bytes, which no statement sets: `above` is the number that they hold. The
-- children are about the table's invariant (Inv), the search for a virtual port (Virtual), and
-- lookups when the two bytes are not zero (Above).
pub mod Inv
pub mod Virtual
pub mod Above
mod Tests
use Prim.Native.Nat.{bit_xor}
use zeroserv.Prelude.{
  ℕ, zero, suc, ◌+◌, ◌-◌, ◌*◌, ◌%◌, ◌^◌, Option, none, some, ◌==◌, if◌then◌else◌,
}
use zeroserv.UtHash.{UtHash}

-- `struct local_port`
pub record LocalPort : Type 0 where
  pub id : ℕ
  pub context : ℕ

-- `#define MAX_PORT (2^16 - 1)`: in C, `^` is exclusive or and binds less than `-`.
abbrev pub max_port : ℕ
max_port = bit_xor 2 (16 - 1)

abbrev pub u16 : ℕ
u16 = 2 ^ 16

module _ (U : UtHash LocalPort) where
  open U use {Table, find, add, delete}

  -- The static variables.
  pub record Ports : Type 0 where
    pub last : ℕ
    pub cur_port : ℕ
    pub table : Table

  -- `HASH_FIND_INT(local_ports, &id, port)`
  unfoldable pub get_local_port : ℕ → ℕ → Ports → Option LocalPort
  get_local_port above id ps = find (id + u16 * above) ps.table

  -- The new element, keyed by its own `unsigned int id`.
  unfoldable pub add_port : ℕ → ℕ → Ports → Ports
  add_port id context ps = record ps {
    cur_port = (ps.cur_port + 1) % u16;
    table = add id (record { id = id; context = context }) ps.table;
  }

  unfoldable pub register_port : ℕ → ℕ → ℕ → Ports → Option LocalPort × Ports
  register_port above id context ps =
      if ps.cur_port == max_port then (none, ps) else elim (get_local_port above id ps) [
        | some port ↦ (none, ps)
        | none ↦ (some (record { id = id; context = context }), add_port id context ps)
      ]

  -- `while (1)` on fuel; `none` means that the fuel ran out.
  unfoldable pub virtual_loop : ℕ → ℕ → ℕ → Ports → Option (LocalPort × Ports)
  virtual_loop zero above context ps = none
  virtual_loop (suc fuel) above context ps =
      let id = (ps.last + 1) % u16 in
      let ps' : Ports = record ps { last = id } in
      elim (get_local_port above id ps') [
        | none ↦ some (record { id = id; context = context }, add_port id context ps')
        | some port ↦ virtual_loop fuel above context ps'
      ]

  unfoldable pub register_virtual_port : ℕ → ℕ → ℕ → Ports → Option (Option LocalPort × Ports)
  register_virtual_port fuel above context ps =
      if ps.cur_port == max_port
      then some (none, ps)
      else elim (virtual_loop fuel above context ps) [
        | none ↦ none
        | some (port, ps') ↦ some (some port, ps')
      ]

  unfoldable pub unregister_port : ℕ → ℕ → Ports → ℕ × Ports
  unregister_port above id ps = elim (get_local_port above id ps) [
    | none ↦ (0, ps)
    | some port ↦
        (1, record ps { cur_port = (ps.cur_port + u16 - 1) % u16; table = delete port.id ps.table })
  ]
