-- ===== src/Vm/Fetch.antt =====
-- src/vm/vm.c: one round of `vm_execute_opcodes`, in code of which the rest behind the program counter
-- is known.
use Prim.Native.Nat.add
use native.Mathlib.Nat.{mod-eq_of_lt}
use native.Mathlib.Numerals.{add-one}
use phantomshell.Base.{
  ℕ, zero, suc, ◌+◌, ◌%◌, ◌^◌, ◌<◌, ◌≡◌, refl, sym, ap, ◌∙◌, List, [], ◌∷◌, ◌++◌, arith, length,
  get_elem?, drop, some, drop-append, lt→ltb, ≤→ltb,
}
use phantomshell.Vm.{ok, ◌>>=◌, >>=_assoc}
use phantomshell.Vm.Opcodes.{handler_at}
use phantomshell.Vm.Pool.{byte_at}
use phantomshell.Vm.Machine.{Host, Machine, run_handler, advance, execute_one, vm_execute_opcodes}

drop-cons :
    (bytes : List ℕ) (pc b : ℕ) (rest : List ℕ)
    → drop pc bytes ≡ b ∷ rest
    → (get_elem? bytes pc ≡ some b) × (drop (suc pc) bytes ≡ rest) × (pc < length bytes)
drop-cons [] zero b rest e = absurd (ground arith)
drop-cons [] (suc pc) b rest e = absurd (ground arith)
drop-cons (x ∷ bytes) zero b rest e = ground arith
drop-cons (x ∷ bytes) (suc pc) b rest e =
    let (at, more, lt) = drop-cons bytes pc b rest e in (at, more, omega arith)

drop-nil : (k : ℕ) → drop {A = ℕ} k [] ≡ []
drop-nil zero = refl
drop-nil (suc k) = refl

pub drop-drop : (bytes : List ℕ) (pc k : ℕ) → drop (pc + k) bytes ≡ drop k (drop pc bytes)
drop-drop bytes zero k = rw add.zero
drop-drop [] (suc pc) k = rw add.suc (sym (drop-nil k))
drop-drop (x ∷ bytes) (suc pc) k = rw add.suc (drop-drop bytes pc k)

-- Behind a piece of code stands what follows it.
pub drop-code :
    (bytes : List ℕ) (pc : ℕ) (code rest : List ℕ)
    → drop pc bytes ≡ code ++ rest
    → drop (pc + length code) bytes ≡ rest
drop-code bytes pc code rest e =
    drop-drop bytes pc (length code) ∙ ap (drop (length code)) e ∙ drop-append code rest

-- At the end of the code the loop stops.
pub halt :
    (host : Host) (fuel : ℕ) (vm : Machine) (bytes : List ℕ) (pc : ℕ)
    → pc ≡ length bytes
    → vm_execute_opcodes host (suc fuel) vm bytes pc ≡ ok (pc, vm)
unfolding vm_execute_opcodes
halt host fuel vm bytes pc h = rw (≤→ltb (length bytes) pc (omega arith)) refl

module _ (host : Host) (fuel : ℕ) (vm : Machine) (bytes : List ℕ) (pc b : ℕ) (rest : List ℕ)
    (e : drop pc bytes ≡ b ∷ rest) where
  fetched : byte_at bytes pc ≡ ok b
  unfolding byte_at
  fetched = ground (arith, drop-cons bytes pc b rest e)

  behind : drop (pc + 1) bytes ≡ rest
  behind = rw add-one ((drop-cons bytes pc b rest e).1)

  -- What the loop does from a program counter with an opcode behind it.
  pub round : vm_execute_opcodes host (suc fuel) vm bytes pc ≡ (
      run_handler host (vm_execute_opcodes host fuel) (handler_at b) rest vm >>= λ r.
      vm_execute_opcodes host fuel (advance r.0 r.1) bytes ((pc + r.0) % 2 ^ 64))
  unfolding vm_execute_opcodes execute_one
  round =
      rw (lt→ltb pc (length bytes) (drop-cons bytes pc b rest e).2, fetched, behind)
        (>>=_assoc (run_handler host (vm_execute_opcodes host fuel) (handler_at b) rest vm) _ _)

  -- The same where the handler succeeds and the new program counter is known.
  pub round-ok :
      (vm' : Machine) (res : ℕ)
      → run_handler host (vm_execute_opcodes host fuel) (handler_at b) rest vm ≡ ok (res, vm')
      → pc + res < 2 ^ 64
      → vm_execute_opcodes host (suc fuel) vm bytes pc
        ≡ vm_execute_opcodes host fuel (advance res vm') bytes (pc + res)
  round-ok vm' res h small = round ∙ rw (h, mod-eq_of_lt small) refl
