-- ===== src/Compiler/Branches.antt =====
-- src/compiler_stat.c beside src/vm/vm.c: the code of `if` and of `while` on the machine.
use mathlib.Core.List.{append_assoc}
use native.Mathlib.Nat.{add_assoc}
use phantomshell.Base.{
  ℕ, suc, ◌+◌, ◌-◌, ◌*◌, ◌/◌, ◌%◌, ◌^◌, ◌<◌, ◌≡◌, ◌≢◌, refl, sym, ap, ◌∙◌, List, [], ◌∷◌, ◌++◌,
  arith, length, length-append, drop,
}
use phantomshell.Vm.Opcodes.{opcode, jez, rjmp}
use phantomshell.Vm.Machine.{Host, Machine, advance, vm_execute_opcodes}
use phantomshell.Vm.Fetch.{round, drop-code}
use phantomshell.Compiler.Stat.{jump_over}
use phantomshell.Compiler.Moves.{
  Moves, popped, append-Moves, jez-Moves, jez_on-Moves, jmp-Moves, rjmp-handler,
}

-- The code of `if` from that of the condition and of the two branches.
abbrev pub if_code : List ℕ → List ℕ → List ℕ → List ℕ
if_code c t f = c ++ (opcode jez ∷ 0 ∷ (length t + 3) ∷ ((t ++ jump_over (length f)) ++ f))

-- The code of `while` from that of the condition and of the body.
abbrev pub while_code : List ℕ → List ℕ → List ℕ
while_code c b =
    c
    ++ (opcode jez ∷ 0 ∷ (length b + 3) ∷ (b ++ (opcode rjmp ∷ 0 ∷ (length c + length b + 6) ∷ [])))

next : (n fuel : ℕ) → suc n + fuel ≡ suc (n + fuel)
next n fuel = omega arith

length-jump_over : (n : ℕ) → length (jump_over n) ≡ 3
unfolding jump_over
length-jump_over n = refl

-- The branch that is taken, on the word `v` that the condition has left above the stack `s`: the machine
-- behind the statement.
pub data Taken (host : Host) (t f : List ℕ) (tested : Machine) (v : ℕ) (s : List ℕ)
    : Machine → Type 0 where
  true_branch :
      {vm' : Machine}
      → v ≢ 0
      → Moves host t (advance 3 (popped s tested)) vm'
      → Taken host t f tested v s (advance (3 + length f) vm')
  false_branch :
      {vm' : Machine}
      → v ≡ 0
      → Moves host f (advance (6 + length t) (popped s tested)) vm'
      → Taken host t f tested v s vm'

module _ (host : Host) (c t f : List ℕ) (vm tested : Machine) (v : ℕ) (s : List ℕ)
    (condition : Moves host c vm tested) (value : tested.current.stack ≡ v ∷ s) where
  -- The condition is not 0: the true branch, and over the false one.
  true-Moves :
      (vm' : Machine)
      → v ≢ 0
      → length f < 2 ^ 16
      → Moves host t (advance 3 (popped s tested)) vm'
      → Moves host (if_code c t f) vm (advance (3 + length f) vm')
  unfolding jump_over
  true-Moves vm' nonzero fits m =
      let over =
        jmp-Moves host (length f % 2 ^ 16 / 2 ^ 8) (length f % 2 ^ 16 % 2 ^ 8) f vm'
          (omega arith) in
      let on = jez_on-Moves host 0 (length t + 3) v s tested value nonzero in
      rw (append_assoc t (jump_over (length f)) f) (
        append-Moves host c
          ((opcode jez ∷ 0 ∷ (length t + 3) ∷ []) ++ (t ++ (jump_over (length f) ++ f))) condition
          (append-Moves host (opcode jez ∷ 0 ∷ (length t + 3) ∷ [])
            (t ++ (jump_over (length f) ++ f)) on
            (append-Moves host t (jump_over (length f) ++ f) m over)))

  -- The condition is 0: over the true branch, and the false one.
  false-Moves :
      (vm' : Machine)
      → v ≡ 0
      → Moves host f (advance (6 + length t) (popped s tested)) vm'
      → Moves host (if_code c t f) vm vm'
  false-Moves vm' zero_value m =
      let over =
        jez-Moves host 0 (length t + 3) (t ++ jump_over (length f)) s tested
          (rw (← zero_value) value)
          (omega (arith, length-append t (jump_over (length f)), length-jump_over (length f))) in
      let sum : 3 + length (t ++ jump_over (length f)) ≡ 6 + length t =
        omega (arith, length-append t (jump_over (length f)), length-jump_over (length f)) in
      append-Moves host c (opcode jez ∷ 0 ∷ (length t + 3) ∷ ((t ++ jump_over (length f)) ++ f))
        condition
        (append-Moves host (opcode jez ∷ 0 ∷ (length t + 3) ∷ (t ++ jump_over (length f))) f
          (rw sum at over) m)

  pub Taken-Moves :
      {vm' : Machine}
      → length f < 2 ^ 16
      → Taken host t f tested v s vm'
      → Moves host (if_code c t f) vm vm'
  Taken-Moves fits (true_branch nonzero m) = true-Moves _ nonzero fits m
  Taken-Moves fits (false_branch zero_value m) = false-Moves _ zero_value m

-- The rounds of a loop: the machine in which it ends. The condition leaves a word on the stack; on 0 the
-- loop ends, and otherwise the body follows and then the loop again.
pub data Loop (host : Host) (c b : List ℕ) : Machine → Machine → Type 0 where
  ends :
      {vm tested : Machine} (s : List ℕ)
      → Moves host c vm tested
      → tested.current.stack ≡ 0 ∷ s
      → Loop host c b vm (advance (length b + 6) (popped s tested))
  again :
      {vm tested mid vm' : Machine} (v : ℕ) (s : List ℕ)
      → Moves host c vm tested
      → tested.current.stack ≡ v ∷ s
      → v ≢ 0
      → Moves host b (advance 3 (popped s tested)) mid
      → Loop host c b (advance ((2 ^ 64 + 3 - (length c + length b + 6)) % 2 ^ 64) mid) vm'
      → Loop host c b vm vm'

module _ (host : Host) (c b : List ℕ) where
  ends-Moves :
      (vm tested : Machine) (s : List ℕ)
      → Moves host c vm tested
      → tested.current.stack ≡ 0 ∷ s
      → Moves host (while_code c b) vm (advance (length b + 6) (popped s tested))
  ends-Moves vm tested s condition value =
      let back : List ℕ = opcode rjmp ∷ 0 ∷ (length c + length b + 6) ∷ [] in
      let size : length (b ++ back) ≡ length b + 3 = length-append b back in
      let over = jez-Moves host 0 (length b + 3) (b ++ back) s tested value (omega (arith, size)) in
      let sum : 3 + length (b ++ back) ≡ length b + 6 = omega (arith, size) in
      append-Moves host c (opcode jez ∷ 0 ∷ (length b + 3) ∷ (b ++ back)) condition (rw sum at over)

  -- The jump behind the body.
  jump_back :
      (fuel : ℕ) (bytes : List ℕ) (end pc : ℕ) (rest : List ℕ) (vm : Machine)
      → drop end bytes ≡ opcode rjmp ∷ 0 ∷ (length c + length b + 6) ∷ rest
      → end ≡ pc + (length c + length b + 3)
      → end + 3 < 2 ^ 64
      → vm_execute_opcodes host (suc fuel) vm bytes end
        ≡ vm_execute_opcodes host fuel
            (advance ((2 ^ 64 + 3 - (length c + length b + 6)) % 2 ^ 64) vm)
            bytes
            pc
  jump_back fuel bytes end pc rest vm at e small =
      let offset : 0 * 2 ^ 8 + (length c + length b + 6) ≡ length c + length b + 6 = omega arith in
      let home : (end + (2 ^ 64 + 3 - (length c + length b + 6)) % 2 ^ 64) % 2 ^ 64 ≡ pc =
        omega arith in
      round host fuel vm bytes end (opcode rjmp) (0 ∷ (length c + length b + 6) ∷ rest) at
      ∙ rw
          (
            rjmp-handler host (vm_execute_opcodes host fuel) 0 (length c + length b + 6) rest vm,
            offset,
            home,
          )
          refl

  -- A round that comes back to the start.
  again-Moves :
      (vm tested mid vm' : Machine) (v : ℕ) (s : List ℕ)
      → Moves host c vm tested
      → tested.current.stack ≡ v ∷ s
      → v ≢ 0
      → Moves host b (advance 3 (popped s tested)) mid
      → Moves host
          (while_code c b)
          (advance ((2 ^ 64 + 3 - (length c + length b + 6)) % 2 ^ 64) mid)
          vm'
      → Moves host (while_code c b) vm vm'
  again-Moves vm tested mid vm' v s condition value nonzero body more =
      let test : List ℕ = opcode jez ∷ 0 ∷ (length b + 3) ∷ [] in
      let back : List ℕ = opcode rjmp ∷ 0 ∷ (length c + length b + 6) ∷ [] in
      let down = append-Moves host c (test ++ b) condition (
        append-Moves host test b (jez_on-Moves host 0 (length b + 3) v s tested value nonzero)
          body) in
      let sizes : length (c ++ (test ++ b)) ≡ length c + (length b + 3) =
        omega (arith, length-append c (test ++ b)) in
      let all : length (while_code c b) ≡ length c + length b + 6 =
        omega (arith, length-append c (test ++ (b ++ back)), length-append b back) in
      let split : while_code c b ≡ (c ++ (test ++ b)) ++ back =
        sym (append_assoc c (test ++ b) back) in
      record {
        rounds = down.rounds + suc more.rounds;
        runs = λ fuel bytes pc rest at small.
            let at' : drop pc bytes ≡ (c ++ (test ++ b)) ++ (back ++ rest) =
              at ∙ ap (λ x. x ++ rest) split ∙ append_assoc (c ++ (test ++ b)) back rest in
            let end : ℕ = pc + length (c ++ (test ++ b)) in
            let p : end ≡ pc + (length c + length b + 3) = omega (arith, sizes) in
            ap (λ k. vm_execute_opcodes host k vm bytes pc)
              (add_assoc down.rounds (suc more.rounds) fuel)
            ∙ down.runs (suc more.rounds + fuel) bytes pc (back ++ rest) at'
                (omega (arith, sizes, all))
            ∙ ap (λ k. vm_execute_opcodes host k mid bytes end) (next more.rounds fuel)
            ∙ jump_back (more.rounds + fuel) bytes end pc rest mid
                (drop-code bytes pc (c ++ (test ++ b)) (back ++ rest) at') p
                (omega (arith, sizes, all))
            ∙ more.runs fuel bytes pc rest at small;
      }

-- A loop that ends takes the machine over its code.
pub Loop-Moves :
    (host : Host) (c b : List ℕ) {vm vm' : Machine}
    → Loop host c b vm vm'
    → Moves host (while_code c b) vm vm'
Loop-Moves host c b (ends {vm} {tested} s condition value) =
    ends-Moves host c b vm tested s condition value
Loop-Moves host c b (again {vm} {tested} {mid} {vm'} v s condition value nonzero body more) =
    again-Moves host c b vm tested mid vm' v s condition value nonzero body
      (Loop-Moves host c b more)
