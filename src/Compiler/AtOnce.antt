-- ===== src/Compiler/AtOnce.antt =====
-- src/compiler_emit.c beside src/vm/vm.c: code that is run as it is emitted.
use mathlib.Core.List.{append-nil}
use phantomshell.Base.{
  ℕ, suc, ◌+◌, ◌-◌, false, ◌^◌, ◌<◌, ◌≡◌, refl, sym, List, [], ◌∷◌, length, arith, ltb,
}
use phantomshell.Vm.{ok}
use phantomshell.Vm.Machine.{Host, Machine, vm_execute_opcodes}
use phantomshell.Emitter.Pages.{flatten}
use phantomshell.Emitter.Unbuffered.{emitter_emit_unbuffered, emit_unbuffered_all}
use phantomshell.Compiler.Moves.{Moves, nothing-Moves, append-Moves}

-- Writes that each take the machine over themselves.
pub data Writes (host : Host) : List (List ℕ) → Machine → Machine → Type 0 where
  no_writes : {vm : Machine} → Writes host [] vm vm
  one_write :
      {bytes : List ℕ} {writes : List (List ℕ)} {vm mid vm' : Machine}
      → Moves host bytes vm mid
      → length bytes < 2 ^ 64
      → Writes host writes mid vm'
      → Writes host (bytes ∷ writes) vm vm'

-- The rounds that the writes take together.
abbrev pub all_rounds :
    {host : Host} {writes : List (List ℕ)} {vm vm' : Machine} → Writes host writes vm vm' → ℕ
all_rounds no_writes = 0
all_rounds (one_write m small w) = m.rounds + all_rounds w

-- At the end of the code the loop ends.
at_end :
    (host : Host) (fuel : ℕ) (bytes : List ℕ) (vm : Machine)
    → vm_execute_opcodes host (suc fuel) vm bytes (0 + length bytes) ≡ ok (0 + length bytes, vm)
unfolding vm_execute_opcodes
at_end host fuel bytes vm =
    let over : ltb (0 + length bytes) (length bytes) ≡ false = ground arith in rw over refl

emit-Moves :
    (host : Host) (bytes : List ℕ) (vm vm' : Machine) (m : Moves host bytes vm vm') (fuel : ℕ)
    → length bytes < 2 ^ 64
    → m.rounds < fuel
    → emitter_emit_unbuffered host fuel bytes vm ≡ ok vm'
unfolding emitter_emit_unbuffered
emit-Moves host bytes vm vm' m fuel small enough =
    let left = fuel - m.rounds - 1 in
    let split : fuel ≡ m.rounds + suc left = omega arith in
    let run = m.runs (suc left) bytes 0 [] (sym (append-nil bytes)) (omega arith) in
    rw (split, run, at_end host left bytes vm') refl

-- Writes that each take the machine over themselves leave it, emitted without a buffer, with fuel for the
-- rounds of them all and one more, where the whole of their bytes does that is run as one piece of code.
pub emit_unbuffered_all-Moves :
    (host : Host) (writes : List (List ℕ)) (vm vm' : Machine) (w : Writes host writes vm vm')
    (fuel : ℕ)
    → all_rounds w < fuel
    → (emit_unbuffered_all host fuel writes vm ≡ ok vm') × Moves host (flatten writes) vm vm'
unfolding emit_unbuffered_all
emit_unbuffered_all-Moves host writes vm vm' no_writes fuel enough = (refl, nothing-Moves host vm)
emit_unbuffered_all-Moves host writes vm vm'
      (one_write {bytes = bytes} {writes = rest} {mid = mid} m small w) fuel enough =
    let (emitted, moves) = emit_unbuffered_all-Moves host rest mid vm' w fuel (omega arith) in
    (
      rw (emit-Moves host bytes vm mid m fuel small (omega arith)) emitted,
      append-Moves host bytes (flatten rest) m moves,
    )
