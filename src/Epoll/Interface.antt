-- ===== src/Epoll/Interface.antt =====
-- The interface to the kernel's epoll instance, which src/poller.c calls.
use zeroserv.Prelude.{ℕ, ◌≡◌, Option, none, some, ◌==◌, if◌then◌else◌}

pub data Opcode : Type 0 where
  ctl_add ctl_mod ctl_del : Opcode

-- The entry of the descriptor after the call: adding one that is watched fails with EEXIST, changing
-- or removing one that is not fails with ENOENT.
abbrev pub after : Opcode → ℕ → Option ℕ → Option ℕ
after ctl_add events none = some events
after ctl_add events (some old) = some old
after ctl_mod events none = none
after ctl_mod events (some old) = some events
after ctl_del events entry = none

pub record Epoll : Type 1 where
  pub State : Type 0
  pub interest : ℕ → State → Option ℕ
  pub ctl : Opcode → ℕ → ℕ → State → State
  pub close : ℕ → State → State
  pub interest-ctl :
      (op : Opcode) (fd events g : ℕ) (s : State)
      → interest g (ctl op fd events s)
        ≡ (if fd == g then after op events (interest g s) else interest g s)
  pub interest-close :
      (fd g : ℕ) (s : State) → interest g (close fd s) ≡ (if fd == g then none else interest g s)
