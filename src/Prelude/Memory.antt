-- ===== src/Prelude/Memory.antt =====
-- C memory: a block is the list of its bytes, and an access outside it is a fault.
use Prim.Native.Nat.{ℕ, zero, suc, ◌+◌}
use mathlib.Core.Path.{◌≡◌, refl}
use mathlib.Core.Bool.{Bool, true, false}
use mathlib.Core.List.{List, [], ◌∷◌, ◌++◌}
use native.Mathlib.Omega.{arith}
use zeroserv.Prelude.Tests.{leb, if◌then◌else◌}
use zeroserv.Prelude.Lists.{length, take, drop}

-- What stops the process: undefined behaviour, a failed `assert`, or `exit(1)` in `log_fatal`.
pub data Fault : Type 0 where
  out_of_bounds : Fault
  null_pointer : Fault
  signed_overflow : Fault
  assert_failed : Fault
  exit_one : Fault

pub data Run {ℓ} (A : Type ℓ) : Type ℓ where
  ok : A → Run A
  fault : Fault → Run A

infixl 5 ◌>>=◌ ◌>>◌
abbrev pub ◌>>=◌ {ℓ κ} : {A : Type ℓ} {B : Type κ} → Run A → (A → Run B) → Run B
ok x >>= next = next x
fault reason >>= next = fault reason

abbrev pub ◌>>◌ {ℓ} : {B : Type ℓ} → Run (Unit {0}) → Run B → Run B
check >> next = check >>= λ done. next

-- `assert(b)`, and other checks that stop the process.
abbrev pub demand : Bool → Fault → Run (Unit {0})
demand true e = ok tt
demand false e = fault e

-- `memcpy(mem + off, src, length src)`.
abbrev pub memcpy : List ℕ → ℕ → List ℕ → Run (List ℕ)
memcpy mem off src =
    if leb (off + length src) (length mem)
    then ok (take off mem ++ (src ++ drop (off + length src) mem))
    else fault out_of_bounds

-- The first `n` bytes of `src`.
abbrev pub read_bytes : List ℕ → ℕ → Run (List ℕ)
read_bytes src n = if leb n (length src) then ok (take n src) else fault out_of_bounds

-- The word at index `i` of a block of words.
abbrev pub load : List ℕ → ℕ → Run ℕ
load [] i = fault out_of_bounds
load (x ∷ xs) zero = ok x
load (x ∷ xs) (suc i) = load xs i

pub bind_assoc {ℓ κ μ} :
    {A : Type ℓ} {B : Type κ} {C : Type μ} (m : Run A) (f : A → Run B) (g : B → Run C)
    → ((m >>= f) >>= g) ≡ (m >>= λ a. f a >>= g)
bind_assoc (ok a) f g = refl
bind_assoc (fault e) f g = refl

-- A sequence that succeeds has a first part that succeeds.
pub ok_bind {ℓ κ} :
    {A : Type ℓ} {B : Type κ} (m : Run A) (f : A → Run B) (b : B)
    → (m >>= f) ≡ ok b
    → (a : A) × (m ≡ ok a) × (f a ≡ ok b)
ok_bind (ok a) f b e = (a, refl, e)
ok_bind (fault reason) f b e = absurd (ground (arith, e))
