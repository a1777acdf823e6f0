-- ===== src/Compiler/Correct.antt =====
-- src/compiler_expr.c beside src/vm/vm.c: the code of an integer expression on the machine.
use native.Mathlib.Nat.{add_assoc, mod-add-mod, mod-eq_of_lt}
use mathlib.Core.List.{append_assoc, append-nil}
use phantomshell.Base.{
  ℕ, suc, ◌+◌, ◌*◌, ◌/◌, ◌%◌, ◌^◌, ◌≤◌, ◌<◌, ◌≡◌, refl, sym, ap, ◌∙◌, Option, List, [], ◌∷◌, ◌++◌,
  arith, length, length-append, drop, ltb, if◌then◌else◌, le→leb,
}
use phantomshell.Ast.{type_unknown}
use phantomshell.Vm.{Frame, Run, ok, ◌>>=◌, >>=_assoc, bind_cong, push_word}
use phantomshell.Vm.Opcodes.{opcode, handler_at, handler_at-opcode, iconst}
use phantomshell.Vm.Handlers.{execute_iconst, execute_binary, binary_on}
use phantomshell.Vm.Machine.{Host, Machine, run_handler, advance, vm_execute_opcodes}
use phantomshell.Vm.Fetch.{round, round-ok, drop-code, halt}
use phantomshell.Compiler.Scope.{Scope, done}
use phantomshell.Compiler.Expr.{be32, compile_expression}
use phantomshell.Compiler.Integer.{
  IntOp, add, IntExpr, lit, paren, op, handler, meaning, tree, eval, code_of, nodes, steps, depth,
}
use phantomshell.Compiler.Emission.{extend, extend-code, compile-extend}
use phantomshell.Compiler.Depth.{extend-depth}

-- The machine after `n` bytes of straight code that push a word on the current stack `s`.
unfoldable pub after : ℕ → List ℕ → Machine → Machine
after n s vm =
    let frame = vm.current in
    record vm { current = record frame { frame_pc = (frame.frame_pc + n) % 2 ^ 64; stack = s } }

bytes :
    (n : ℕ)
    → n / 2 ^ 24 % 2 ^ 8 * 2 ^ 24
        + n / 2 ^ 16 % 2 ^ 8 * 2 ^ 16
        + n / 2 ^ 8 % 2 ^ 8 * 2 ^ 8
        + n % 2 ^ 8
      ≡ n % 2 ^ 32
bytes n = omega arith

be32-word :
    (n : ℕ) (frame : Frame) (rest : List ℕ)
    → 4 * length frame.stack + 4 ≤ frame.stack_bytes
    → execute_iconst frame (be32 n ++ rest)
      ≡ ok (5, record frame { stack = n % 2 ^ 32 ∷ frame.stack })
unfolding execute_iconst be32 push_word
be32-word n frame rest room = rw (bytes n, le→leb _ _ room) refl

module _ (host : Host) (call : Machine → List ℕ → ℕ → Run (ℕ × Machine)) (rest : List ℕ)
    (vm : Machine) where
  iconst-run :
      (n : ℕ)
      → 4 * length vm.current.stack + 4 ≤ vm.current.stack_bytes
      → run_handler host call (handler_at (opcode iconst)) (be32 n ++ rest) vm
        ≡ ok (
          5,
          record vm { current = record (vm.current) { stack = n % 2 ^ 32 ∷ vm.current.stack } },
        )
  unfolding run_handler
  iconst-run n room = rw (handler_at-opcode iconst, be32-word n vm.current rest room) refl

  -- A handler of an integer operator is `execute_binary`.
  binary-handler :
      (o : IntOp)
      → run_handler host call (handler o) rest vm ≡ (
          execute_binary (meaning o) vm.current rest >>= λ r. ok (r.0, record vm { current = r.1 }))
  unfolding run_handler handler meaning
  binary-handler add = refl
  binary-handler _ = refl

  binary-run :
      (o : IntOp) (a b : ℕ) (s : List ℕ)
      → vm.current.stack ≡ b ∷ a ∷ s
      → run_handler host call (handler_at (opcode (handler o))) rest vm ≡ (
          meaning o a b >>= λ v.
          ok (1, record vm { current = record (vm.current) { stack = v ∷ s } }))
  unfolding execute_binary binary_on
  binary-run o a b s h =
      rw (handler_at-opcode (handler o), binary-handler o, h) (>>=_assoc (meaning o a b) _ _)

-- Code that has been run in two parts.
after-after :
    (n k : ℕ) (s t : List ℕ) (vm : Machine) → after k t (after n s vm) ≡ after (n + k) t vm
unfolding after
after-after n k s t vm =
    rw (mod-add-mod (vm.current.frame_pc + n) (2 ^ 64) k, add_assoc vm.current.frame_pc n k) refl

split_code :
    (xs ys : List ℕ) (o : ℕ) (rest : List ℕ)
    → xs ++ (ys ++ (o ∷ [])) ++ rest ≡ xs ++ (ys ++ (o ∷ rest))
split_code xs ys o rest =
    append_assoc xs (ys ++ (o ∷ [])) rest ∙ ap (λ c. xs ++ c) (append_assoc ys (o ∷ []) rest)

operation_length :
    (xs ys : List ℕ) (o : ℕ) → length (xs ++ (ys ++ (o ∷ []))) ≡ length xs + length ys + 1
operation_length xs ys o =
    omega (arith, length-append xs (ys ++ (o ∷ [])), length-append ys (o ∷ []))

max-le : (a b : ℕ) → (a ≤ (if ltb a b then b else a)) × (b ≤ (if ltb a b then b else a))
max-le a b = (ground arith, ground arith)

module _ (host : Host) (bytes : List ℕ) where
  -- One round at the opcode of an operator whose operands are on the stack.
  operate :
      (fuel : ℕ) (o : IntOp) (a b : ℕ) (s rest : List ℕ) (vm : Machine) (pc : ℕ)
      → drop pc bytes ≡ opcode (handler o) ∷ rest
      → vm.current.stack ≡ b ∷ a ∷ s
      → pc + 1 < 2 ^ 64
      → vm_execute_opcodes host (suc fuel) vm bytes pc
        ≡ (meaning o a b >>= λ v. vm_execute_opcodes host fuel (after 1 (v ∷ s) vm) bytes (pc + 1))
  unfolding after advance
  operate fuel o a b s rest vm pc at h small =
      round host fuel vm bytes pc (opcode (handler o)) rest at
      ∙ rw
          (
            binary-run host (vm_execute_opcodes host fuel) rest vm o a b s h,
            >>=_assoc (meaning o a b),
            mod-eq_of_lt small,
          )
          refl

  joined :
      (fuel n k m : ℕ) (s t u : List ℕ) (vm : Machine) (pc : ℕ)
      → m ≡ n + k + 1
      → vm_execute_opcodes host fuel (after 1 u (after k t (after n s vm))) bytes (pc + n + k + 1)
        ≡ vm_execute_opcodes host fuel (after m u vm) bytes (pc + m)
  joined fuel n k m s t u vm pc e =
      ap (λ x. vm_execute_opcodes host fuel x bytes (pc + n + k + 1))
        (after-after k 1 t u (after n s vm)
          ∙ after-after n (k + 1) s u vm
          ∙ ap (λ x. after x u vm) (omega arith))
      ∙ ap (vm_execute_opcodes host fuel (after m u vm) bytes) (omega arith)

  -- The loop over the code of an expression comes to the end of the code with the value on the stack,
  -- or to the trap that the expression's meaning ends in.
  pub run-code :
      (fuel : ℕ) (e : IntExpr) (vm : Machine) (pc : ℕ) (rest : List ℕ)
      → drop pc bytes ≡ code_of e ++ rest
      → 4 * (length vm.current.stack + depth e) ≤ vm.current.stack_bytes
      → pc + length (code_of e) < 2 ^ 64
      → vm_execute_opcodes host (steps e + fuel) vm bytes pc ≡ (
          eval e >>= λ v.
          vm_execute_opcodes host fuel
            (after (length (code_of e)) (v ∷ vm.current.stack) vm)
            bytes
            (pc + length (code_of e)))
  unfolding eval steps code_of depth be32 after advance
  run-code fuel (lit n) vm pc rest at room small =
      ap (λ f. vm_execute_opcodes host f vm bytes pc) (omega arith)
      ∙ round-ok host fuel vm bytes pc (opcode iconst) (be32 n ++ rest) at _ 5
          (iconst-run host (vm_execute_opcodes host fuel) rest vm n (omega arith)) small
  run-code fuel (paren e) vm pc rest at room small = run-code fuel e vm pc rest at room small
  run-code fuel (op o l r) vm pc rest at room small =
      let n = length (code_of l) in
      let k = length (code_of r) in
      let s = vm.current.stack in
      let all = split_code (code_of l) (code_of r) (opcode (handler o)) rest in
      let size = operation_length (code_of l) (code_of r) (opcode (handler o)) in
      let at_r =
        drop-code bytes pc (code_of l) (code_of r ++ (opcode (handler o) ∷ rest)) (at ∙ all) in
      let at_o = drop-code bytes (pc + n) (code_of r) (opcode (handler o) ∷ rest) at_r in
      ap (λ f. vm_execute_opcodes host f vm bytes pc) (omega arith)
      ∙ run-code (steps r + suc fuel) l vm pc _ (at ∙ all)
          (omega (arith, max-le (depth l) (1 + depth r))) (omega (arith, size))
      ∙ bind_cong (eval l) (λ a.
        run-code (suc fuel) r (after n (a ∷ s) vm) (pc + n) _ at_r
          (omega (arith, max-le (depth l) (1 + depth r))) (omega (arith, size))
        ∙ bind_cong (eval r) (λ b.
          operate fuel o a b s rest (after k (b ∷ a ∷ s) (after n (a ∷ s) vm)) (pc + n + k) at_o
            refl (omega (arith, size))
          ∙ bind_cong (meaning o a b)
              (λ v. joined fuel n k _ (a ∷ s) (b ∷ a ∷ s) (v ∷ s) vm pc size)))
      ∙ sym (
          >>=_assoc (eval l) (λ a. eval r >>= λ b. meaning o a b) _
          ∙ bind_cong (eval l) (λ a. >>=_assoc (eval r) (meaning o a) _))

-- An integer expression, as the parser hands it over, compiles without an error, with fuel for its nodes
-- and a depth that does not wrap: its code is appended, and the counted depth grows by one word.
pub compile-done :
    (functions : List ℕ → Option ℕ) (fuel : ℕ) (e : IntExpr) (scope : Scope)
    → nodes e ≤ fuel
    → scope.stack_size + 4 * nodes e < 2 ^ 64
    → (scope' : Scope) × (compile_expression functions fuel (tree type_unknown e) scope
        ≡ done 0 scope')
      × (scope'.code ≡ scope.code ++ code_of e)
      × (scope'.stack_size ≡ scope.stack_size + 4)
compile-done functions fuel e scope enough small = (
  extend e scope,
  (compile-extend functions fuel e scope enough).0,
  extend-code e scope,
  (extend-depth e scope small).0,
)

done-injective : (s s' : Scope) → done 0 s ≡ done 0 s' → s ≡ s'
done-injective s s' h = cc

module _ (functions : List ℕ → Option ℕ) (host : Host) (fuel : ℕ) (e : IntExpr)
    (scope scope' : Scope) (vm : Machine) where
  -- Code that an integer expression has compiled to, with fuel for its nodes and no code before it, run
  -- from its start on a machine whose stack is as deep as the compiler counted and has the size of the
  -- greatest depth that it counted, where neither that depth nor the program counter wraps: the run
  -- ends at the end of the code, with the value of the expression above what was on the stack and nothing
  -- else changed but the program counter. Where the value is the trap of a division, the run ends in
  -- that trap.
  pub compile-run :
      nodes e ≤ fuel
      → compile_expression functions fuel (tree type_unknown e) scope ≡ done 0 scope'
      → scope.code ≡ []
      → scope.stack_size ≡ 4 * length vm.current.stack
      → scope.stack_size + 4 * nodes e < 2 ^ 64
      → scope'.stack_max_size ≤ vm.current.stack_bytes
      → length scope'.code < 2 ^ 64
      → vm_execute_opcodes host (steps e + 1) vm scope'.code 0 ≡ (
          eval e >>= λ v.
          ok (length scope'.code, after (length scope'.code) (v ∷ vm.current.stack) vm))
  compile-run enough compiled empty deep nowrap room small =
      let same : extend e scope ≡ scope' =
        done-injective _ _ (sym (compile-extend functions fuel e scope enough).0 ∙ compiled) in
      let code : scope'.code ≡ code_of e =
        ap (λ s. s.code) (sym same) ∙ extend-code e scope ∙ ap (λ c. c ++ code_of e) empty in
      let fits : scope.stack_size + 4 * depth e ≤ scope'.stack_max_size =
        rw (← same) ((extend-depth e scope nowrap).1) in
      let below : length (code_of e) < 2 ^ 64 = rw (← code) small in
      rw code (
        run-code host (code_of e) 1 e vm 0 [] (sym (append-nil (code_of e))) (omega arith)
          (omega arith)
        ∙ bind_cong (eval e) (λ v.
          halt host 0 _ (code_of e) (0 + length (code_of e)) (omega arith)
          ∙ ap (λ n. ok (n, after (length (code_of e)) (v ∷ vm.current.stack) vm)) (omega arith)))
