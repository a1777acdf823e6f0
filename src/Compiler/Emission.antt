-- ===== src/Compiler/Emission.antt =====
-- src/compiler_expr.c: what `compile_expression` emits for an integer expression.
use mathlib.Core.List.{append_assoc}
use phantomshell.Base.{
  ℕ, zero, suc, ◌≤◌, ◌≡◌, refl, ap, ◌∙◌, Option, some, false, ◌==◌, List, [], ◌∷◌, ◌++◌, arith,
}
use phantomshell.Ast.{Expr, static_type, binary_op, type_unknown, type_int}
use phantomshell.Vm.Opcodes.{opcode, iconst}
use phantomshell.Compiler.StackMap.{stack_inc}
use phantomshell.Compiler.Scope.{Scope, Compiled, done, frame_increment_stack_size, compiler_emit}
use phantomshell.Compiler.Types.{
  ast_node_trace_data_type, trace_binary_op, is_function_call, int_operator_to_opcode,
}
use phantomshell.Compiler.Expr.{
  emit_op, be32, compile_typical, compile_binary_op, compile_expression, binary_opcode,
}
use phantomshell.Compiler.Integer.{
  IntOp, add, IntExpr, lit, paren, op, operator, handler, tree, code_of, nodes,
}

unfoldable pub emitted : ℕ → List ℕ → Scope → Scope
emitted code operands scope =
    let s = frame_increment_stack_size (stack_inc code) scope in
    record s { code = s.code ++ (code ∷ operands) }

emit_op-emitted :
    (code : ℕ) (operands : List ℕ) (scope : Scope)
    → emit_op code operands scope ≡ done 0 (emitted code operands scope)
unfolding emit_op emitted compiler_emit
emit_op-emitted code operands scope = refl

-- The scope after the code of the expression.
unfoldable pub extend : IntExpr → Scope → Scope
unfolding emitted
extend (lit n) scope = emitted (opcode iconst) (be32 n) scope
extend (paren e) scope = extend e scope
extend (op o l r) scope = emitted (opcode (handler o)) [] (extend r (extend l scope))

emitted-code :
    (code : ℕ) (operands : List ℕ) (scope : Scope)
    → (emitted code operands scope).code ≡ scope.code ++ (code ∷ operands)
unfolding emitted frame_increment_stack_size
emitted-code code operands scope = refl

pub extend-code : (e : IntExpr) (scope : Scope) → (extend e scope).code ≡ scope.code ++ code_of e
unfolding extend code_of
extend-code (lit n) scope = emitted-code (opcode iconst) (be32 n) scope
extend-code (paren e) scope = extend-code e scope
extend-code (op o l r) scope =
    emitted-code (opcode (handler o)) [] (extend r (extend l scope))
    ∙ rw (extend-code r (extend l scope), extend-code l scope)
        (ap (λ c. c ++ (opcode (handler o) ∷ [])) (append_assoc scope.code (code_of l) (code_of r))
          ∙ append_assoc scope.code (code_of l ++ code_of r) (opcode (handler o) ∷ [])
          ∙ ap (λ c. scope.code ++ c)
              (append_assoc (code_of l) (code_of r) (opcode (handler o) ∷ [])))

static_type-tree : (e : IntExpr) → static_type (tree type_int e) ≡ type_int
unfolding static_type tree
static_type-tree (lit n) = refl
static_type-tree (paren e) = refl
static_type-tree (op o l r) = refl

no_call : (o : IntOp) → is_function_call (operator o) ≡ false
unfolding is_function_call operator
no_call add = refl
no_call _ = refl

trace-tree :
    (scope : Scope) (e : IntExpr)
    → ast_node_trace_data_type scope (tree type_unknown e) ≡ some (tree type_int e)
unfolding ast_node_trace_data_type tree trace_binary_op
trace-tree scope (lit n) = refl
trace-tree scope (paren e) = rw (trace-tree scope e, static_type-tree e) refl
trace-tree scope (op o l r) =
    rw (no_call o, trace-tree scope l, trace-tree scope r, static_type-tree l, static_type-tree r)
      refl

opcode-operator : (o : IntOp) → binary_opcode type_int (operator o) ≡ opcode (handler o)
unfolding binary_opcode int_operator_to_opcode operator handler opcode
opcode-operator add = refl
opcode-operator _ = refl

opcode_nonzero : (o : IntOp) → (opcode (handler o) == 0) ≡ false
unfolding handler opcode
opcode_nonzero add = refl
opcode_nonzero _ = refl

typed_trace :
    (scope : Scope) (o : IntOp) (l r : IntExpr)
    → ast_node_trace_data_type scope (tree type_int (op o l r)) ≡ some (tree type_int (op o l r))
unfolding ast_node_trace_data_type tree
typed_trace scope o l r = refl

module _ (functions : List ℕ → Option ℕ) where
  -- Every integer operator takes the way of `compile_binary_op_typical`.
  binary-typical :
      (compile : Expr → Scope → Compiled) (t : ℕ) (o : IntOp) (l r traced : Expr) (scope : Scope)
      → ast_node_trace_data_type scope (binary_op t (operator o) l r) ≡ some traced
      → compile_binary_op functions compile t (operator o) l r scope
        ≡ compile_typical compile traced scope
  unfolding compile_binary_op operator
  binary-typical compile t add l r traced scope h = rw (h, compile_binary_op) refl
  binary-typical compile t _ l r traced scope h = rw (h, compile_binary_op) refl

  typical :
      (compile : Expr → Scope → Compiled) (o : IntOp) (l r : Expr) (scope s s' : Scope)
      → compile l scope ≡ done 0 s
      → compile r s ≡ done 0 s'
      → compile_typical compile (binary_op type_int (operator o) l r) scope
        ≡ done 0 (emitted (opcode (handler o)) [] s')
  unfolding compile_typical
  typical compile o l r scope s s' hl hr =
      rw (opcode-operator o, opcode_nonzero o, hl, hr, emit_op-emitted (opcode (handler o)) [] s')
        refl

  -- The trees of an integer expression, with and without types, compile to its code.
  pub compile-extend :
      (fuel : ℕ) (e : IntExpr) (scope : Scope)
      → nodes e ≤ fuel
      → (compile_expression functions fuel (tree type_unknown e) scope ≡ done 0 (extend e scope))
        × (compile_expression functions fuel (tree type_int e) scope ≡ done 0 (extend e scope))
  unfolding nodes compile_expression tree extend
  compile-extend zero (lit n) scope h = absurd (omega arith)
  compile-extend zero (paren e) scope h = absurd (omega arith)
  compile-extend zero (op o l r) scope h = absurd (omega arith)
  compile-extend (suc fuel) (lit n) scope h = (refl, refl)
  compile-extend (suc fuel) (paren e) scope h = compile-extend fuel e scope (omega arith)
  compile-extend (suc fuel) (op o l r) scope h =
      let left = compile-extend fuel l scope (omega arith) in
      let right = compile-extend fuel r (extend l scope) (omega arith) in
      let code =
        typical (compile_expression functions fuel) o (tree type_int l) (tree type_int r) scope
          (extend l scope) (extend r (extend l scope)) left.1 right.1 in
      (
        binary-typical (compile_expression functions fuel) type_unknown o _ _ _ scope
              (trace-tree scope (op o l r))
            ∙ code,
        binary-typical (compile_expression functions fuel) type_int o _ _ _ scope
              (typed_trace scope o l r)
            ∙ code,
      )
