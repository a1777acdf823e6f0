-- ===== src/Compiler/Moves.antt =====
-- src/vm/vm.c: pieces of code that take the machine from their start to their end.
use mathlib.Core.List.{append_assoc}
use native.Mathlib.Nat.{add_assoc}
use phantomshell.Base.{
  ℕ, suc, ◌+◌, ◌-◌, ◌*◌, ◌%◌, ◌^◌, ◌≤◌, ◌<◌, ◌≡◌, ◌≢◌, refl, ap, ◌∙◌, List, [], ◌∷◌, ◌++◌, arith,
  false, length, length-append, drop, ◌==◌, if◌then◌else◌,
}
use phantomshell.Vm.{Run, ok}
use phantomshell.Vm.Opcodes.{opcode, handler_at, handler_at-opcode, jez, jmp, rjmp}
use phantomshell.Vm.Handlers.{execute_jez, execute_jmp, execute_rjmp}
use phantomshell.Vm.Machine.{Host, Machine, run_handler, advance, vm_execute_opcodes}
use phantomshell.Vm.Fetch.{round-ok, drop-code}
use phantomshell.Compiler.Integer.{IntExpr, eval, code_of, steps, depth}
use phantomshell.Compiler.Correct.{after, run-code}

-- Wherever the code stands, a number of rounds of the loop of `vm_execute_opcodes` lead from its first
-- byte to the byte behind its last one, and from the one machine to the other.
pub record Moves (host : Host) (code : List ℕ) (vm vm' : Machine) : Type 0 where
  pub rounds : ℕ
  pub runs :
      (fuel : ℕ) (bytes : List ℕ) (pc : ℕ) (rest : List ℕ)
      → drop pc bytes ≡ code ++ rest
      → pc + length code < 2 ^ 64
      → vm_execute_opcodes host (rounds + fuel) vm bytes pc
        ≡ vm_execute_opcodes host fuel vm' bytes (pc + length code)

-- The stack without its top.
abbrev pub popped : List ℕ → Machine → Machine
popped s vm = record vm { current = record (vm.current) { stack = s } }

module _ (host : Host) where
  pub nothing-Moves : (vm : Machine) → Moves host [] vm vm
  nothing-Moves vm = record {
    rounds = 0;
    runs = λ fuel bytes pc rest at small.
        let f : 0 + fuel ≡ fuel = omega arith in
        let p : pc ≡ pc + 0 = omega arith in
        ap (λ n. vm_execute_opcodes host n vm bytes pc) f
        ∙ ap (vm_execute_opcodes host fuel vm bytes) p;
  }

  pub append-Moves :
      {vm mid vm' : Machine} (first second : List ℕ)
      → Moves host first vm mid
      → Moves host second mid vm'
      → Moves host (first ++ second) vm vm'
  append-Moves {vm} {mid} {vm'} first second m n = record {
    rounds = m.rounds + n.rounds;
    runs = λ fuel bytes pc rest at small.
        let size = length-append first second in
        let at' : drop pc bytes ≡ first ++ (second ++ rest) = at ∙ append_assoc first second rest in
        let p : pc + length first + length second ≡ pc + length (first ++ second) =
          omega (arith, size) in
        ap (λ k. vm_execute_opcodes host k vm bytes pc) (add_assoc m.rounds n.rounds fuel)
        ∙ m.runs (n.rounds + fuel) bytes pc (second ++ rest) at' (omega (arith, size))
        ∙ n.runs fuel bytes (pc + length first) rest (drop-code bytes pc first (second ++ rest) at')
            (omega (arith, size))
        ∙ ap (vm_execute_opcodes host fuel vm' bytes) p;
  }

  -- The code of an expression that has a value.
  pub expression-Moves :
      (e : IntExpr) (vm : Machine) (v : ℕ)
      → eval e ≡ ok v
      → 4 * (length vm.current.stack + depth e) ≤ vm.current.stack_bytes
      → Moves host (code_of e) vm (after (length (code_of e)) (v ∷ vm.current.stack) vm)
  expression-Moves e vm v value room = record {
    rounds = steps e;
    runs = λ fuel bytes pc rest at small.
        run-code host bytes fuel e vm pc rest at room small ∙ rw value refl;
  }

  jez-handler :
      (call : Machine → List ℕ → ℕ → Run (ℕ × Machine)) (hi lo v : ℕ) (s rest : List ℕ)
      (vm : Machine)
      → vm.current.stack ≡ v ∷ s
      → run_handler host call (handler_at (opcode jez)) (hi ∷ lo ∷ rest) vm
        ≡ ok (3 + (if v == 0 then hi * 2 ^ 8 + lo else 0), popped s vm)
  unfolding run_handler execute_jez
  jez-handler call hi lo v s rest vm h = rw (handler_at-opcode jez, h) refl

  jmp-handler :
      (call : Machine → List ℕ → ℕ → Run (ℕ × Machine)) (hi lo : ℕ) (rest : List ℕ) (vm : Machine)
      → run_handler host call (handler_at (opcode jmp)) (hi ∷ lo ∷ rest) vm
        ≡ ok (3 + (hi * 2 ^ 8 + lo), vm)
  unfolding run_handler execute_jmp
  jmp-handler call hi lo rest vm = rw (handler_at-opcode jmp) refl

  pub rjmp-handler :
      (call : Machine → List ℕ → ℕ → Run (ℕ × Machine)) (hi lo : ℕ) (rest : List ℕ) (vm : Machine)
      → run_handler host call (handler_at (opcode rjmp)) (hi ∷ lo ∷ rest) vm
        ≡ ok ((2 ^ 64 + 3 - (hi * 2 ^ 8 + lo)) % 2 ^ 64, vm)
  unfolding run_handler execute_rjmp
  rjmp-handler call hi lo rest vm = rw (handler_at-opcode rjmp) refl

  -- `jez` on 0 jumps over the code behind it, if that has the size in its operands.
  pub jez-Moves :
      (hi lo : ℕ) (over s : List ℕ) (vm : Machine)
      → vm.current.stack ≡ 0 ∷ s
      → hi * 2 ^ 8 + lo ≡ length over
      → Moves host (opcode jez ∷ hi ∷ lo ∷ over) vm (advance (3 + length over) (popped s vm))
  jez-Moves hi lo over s vm h size = record {
    rounds = 1;
    runs = λ fuel bytes pc rest at small.
        let next = jez-handler (vm_execute_opcodes host fuel) hi lo 0 s (over ++ rest) vm h in
        let f : 1 + fuel ≡ suc fuel = omega arith in
        let p : pc + (3 + length over) ≡ pc + length (opcode jez ∷ hi ∷ lo ∷ over) = omega arith in
        ap (λ n. vm_execute_opcodes host n vm bytes pc) f
        ∙ round-ok host fuel vm bytes pc (opcode jez) (hi ∷ lo ∷ (over ++ rest)) at (popped s vm)
            (3 + length over) (next ∙ rw size refl) (omega arith)
        ∙ ap (vm_execute_opcodes host fuel (advance (3 + length over) (popped s vm)) bytes) p;
  }

  -- `jez` on another word goes on behind its operands.
  pub jez_on-Moves :
      (hi lo v : ℕ) (s : List ℕ) (vm : Machine)
      → vm.current.stack ≡ v ∷ s
      → v ≢ 0
      → Moves host (opcode jez ∷ hi ∷ lo ∷ []) vm (advance 3 (popped s vm))
  jez_on-Moves hi lo v s vm h nonzero = record {
    rounds = 1;
    runs = λ fuel bytes pc rest at small.
        let next = jez-handler (vm_execute_opcodes host fuel) hi lo v s rest vm h in
        let other : (v == 0) ≡ false = ground arith in
        let f : 1 + fuel ≡ suc fuel = omega arith in
        ap (λ n. vm_execute_opcodes host n vm bytes pc) f
        ∙ round-ok host fuel vm bytes pc (opcode jez) (hi ∷ lo ∷ rest) at (popped s vm) 3
            (next ∙ rw other refl) (omega arith);
  }

  -- `jmp` jumps over the code behind it.
  pub jmp-Moves :
      (hi lo : ℕ) (over : List ℕ) (vm : Machine)
      → hi * 2 ^ 8 + lo ≡ length over
      → Moves host (opcode jmp ∷ hi ∷ lo ∷ over) vm (advance (3 + length over) vm)
  jmp-Moves hi lo over vm size = record {
    rounds = 1;
    runs = λ fuel bytes pc rest at small.
        let next = jmp-handler (vm_execute_opcodes host fuel) hi lo (over ++ rest) vm in
        let f : 1 + fuel ≡ suc fuel = omega arith in
        let p : pc + (3 + length over) ≡ pc + length (opcode jmp ∷ hi ∷ lo ∷ over) = omega arith in
        ap (λ n. vm_execute_opcodes host n vm bytes pc) f
        ∙ round-ok host fuel vm bytes pc (opcode jmp) (hi ∷ lo ∷ (over ++ rest)) at vm
            (3 + length over) (next ∙ rw size refl) (omega arith)
        ∙ ap (vm_execute_opcodes host fuel (advance (3 + length over) vm) bytes) p;
  }

  -- A handler that goes on behind its operands.
  pub round-Moves :
      (b : ℕ) (operands : List ℕ) (vm vm' : Machine)
      → ((call : Machine → List ℕ → ℕ → Run (ℕ × Machine)) (rest : List ℕ)
          → run_handler host call (handler_at b) (operands ++ rest) vm
            ≡ ok (1 + length operands, vm'))
      → Moves host (b ∷ operands) vm (advance (1 + length operands) vm')
  round-Moves b operands vm vm' handled = record {
    rounds = 1;
    runs = λ fuel bytes pc rest at small.
        let f : 1 + fuel ≡ suc fuel = omega arith in
        let p : pc + (1 + length operands) ≡ pc + length (b ∷ operands) = omega arith in
        ap (λ n. vm_execute_opcodes host n vm bytes pc) f
        ∙ round-ok host fuel vm bytes pc b (operands ++ rest) at vm' (1 + length operands)
            (handled (vm_execute_opcodes host fuel) rest) (omega arith)
        ∙ ap (vm_execute_opcodes host fuel (advance (1 + length operands) vm') bytes) p;
  }
