-- ===== src/Emitter/Unbuffered.antt =====
-- src/compiler_emit.c: the emitter of the root scope, which hands each write to the machine at once. A
-- sequence of writes goes to the machine one after the other.
use phantomshell.Base.{ℕ, List, [], ◌∷◌}
use phantomshell.Vm.{Run, ok, ◌>>=◌}
use phantomshell.Vm.Machine.{Host, Machine, vm_execute_opcodes}

unfoldable pub emitter_emit_unbuffered : Host → ℕ → List ℕ → Machine → Run Machine
emitter_emit_unbuffered host fuel bytes vm = vm_execute_opcodes host fuel vm bytes 0 >>= λ r. ok r.1

unfoldable pub emit_unbuffered_all : Host → ℕ → List (List ℕ) → Machine → Run Machine
emit_unbuffered_all host fuel [] vm = ok vm
emit_unbuffered_all host fuel (bytes ∷ writes) vm =
    emitter_emit_unbuffered host fuel bytes vm >>= emit_unbuffered_all host fuel writes
