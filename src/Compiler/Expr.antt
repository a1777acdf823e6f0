-- ===== src/Compiler/Expr.antt =====
-- src/compiler_expr.c: the code of expressions. An expression is compiled after its nodes have been
-- given types and casts, so the recursion is not on the tree that was handed over: fuel bounds the
-- height. `functions` gives the pool index of the signature of a function that has been defined.
use phantomshell.Base.{
  ℕ, zero, suc, ◌/◌, ◌%◌, ◌^◌, Option, none, some, List, [], ◌∷◌, ◌==◌, if◌then◌else◌,
}
use phantomshell.Operator.{Operator}
use phantomshell.Ast.{
  Expr, literal_int, literal_float, ident, group, unary_op, binary_op, special_cast, static_type,
  type_int, type_float,
}
use phantomshell.Vm.Opcodes.{opcode, iconst, fconst, call}
use phantomshell.Compiler.StackMap.{stack_inc}
use phantomshell.Compiler.Scope.{
  Scope, ScopeVar, Compiled, done, panic, undefined, stuck, ◌>>=◌, and_then,
  frame_lookup_var_by_name, frame_define_var, frame_increment_stack_size, compiler_emit,
}
use phantomshell.Compiler.Types.{
  CastRequest, int_operator_to_opcode, float_operator_to_opcode, opcode_save, opcode_load,
  type_select_cast_method, ast_node_trace_data_type,
}

-- `frame_increment_stack_size(scope, opcode_to_stack_inc_map[code])`, then the bytes.
unfoldable pub emit_op : ℕ → List ℕ → Scope → Compiled
unfolding frame_increment_stack_size compiler_emit stack_inc
emit_op code operands scope =
    compiler_emit (code ∷ operands) (frame_increment_stack_size (stack_inc code) scope)

-- `htobe32` and `htobe16`.
unfoldable pub be32 : ℕ → List ℕ
be32 w = (w / 2 ^ 24 % 2 ^ 8) ∷ (w / 2 ^ 16 % 2 ^ 8) ∷ (w / 2 ^ 8 % 2 ^ 8) ∷ (w % 2 ^ 8) ∷ []

-- The bytes of a float in the order of the (little-endian) host.
unfoldable pub le32 : ℕ → List ℕ
le32 w = (w % 2 ^ 8) ∷ (w / 2 ^ 8 % 2 ^ 8) ∷ (w / 2 ^ 16 % 2 ^ 8) ∷ (w / 2 ^ 24 % 2 ^ 8) ∷ []

unfoldable pub compile_literal_int : ℕ → Scope → Compiled
unfolding emit_op be32 opcode
compile_literal_int value scope = emit_op (opcode iconst) (be32 value) scope

unfoldable pub compile_literal_float : ℕ → Scope → Compiled
unfolding emit_op le32 opcode
compile_literal_float value scope = emit_op (opcode fconst) (le32 value) scope

unfoldable pub compile_ident : List ℕ → Scope → Compiled
unfolding emit_op opcode_load
compile_ident name scope = elim (frame_lookup_var_by_name scope name) [
  | none ↦ done 1 scope
  | some var ↦ emit_op (opcode_load var.static_type) (var.index ∷ []) scope
]

-- The opcode of a binary operator on operands of this type; 0 if there is none.
unfoldable pub binary_opcode : ℕ → Operator → ℕ
unfolding int_operator_to_opcode float_operator_to_opcode
binary_opcode t o =
    if t == type_int
    then int_operator_to_opcode o
    else if t == type_float
    then float_operator_to_opcode o
    else 0

-- What an assignment to a variable of the scope does: the variable, the opcode of a cast or 0, and
-- the type that is saved. `none` is the panic.
unfoldable pub assignment_target : Scope → List ℕ → ℕ → Option (ScopeVar × ℕ × ℕ × Scope)
unfolding type_select_cast_method frame_define_var
assignment_target scope name r_type = elim (frame_lookup_var_by_name scope name) [
  | none ↦ elim (frame_define_var scope r_type name) [
    | none ↦ none
    | some (var, scope') ↦ some (var, 0, r_type, scope')
  ]
  | some var ↦
      let cr = type_select_cast_method var.static_type r_type in
      if var.static_type == r_type
      then some (var, 0, r_type, scope)
      else if cr.var_index == 0
      then none
      else some (var, CastRequest.opcode cr, CastRequest.static_type cr, scope)
]

-- The rest of an assignment once its target is known, for a given `compile_expression`.
unfoldable pub compile_assignment_to :
    (Expr → Scope → Compiled) → Option (ScopeVar × ℕ × ℕ × Scope) → Expr → Compiled
unfolding emit_op opcode_save
compile_assignment_to compile none right = panic
compile_assignment_to compile (some (var, cast_opcode, var_type, scope)) right = do
  s ← compile right scope
  s' ← if cast_opcode == 0 then done 0 s else emit_op cast_opcode [] s
  emit_op (opcode_save var_type) (var.index ∷ []) s'

unfoldable pub compile_binary_op_assignment :
    (Expr → Scope → Compiled) → Expr → Expr → Scope → Compiled
unfolding compile_assignment_to assignment_target
compile_binary_op_assignment compile (ident t name) right scope =
    elim (ast_node_trace_data_type scope right) [
      | none ↦ panic
      | some right' ↦
          compile_assignment_to compile (assignment_target scope name (static_type right')) right'
    ]
compile_binary_op_assignment compile _ right scope = undefined

-- The loop over the arguments, from `current_arg`; only the left operand of a comma and the last
-- argument are compiled, and what they return is not looked at.
unfoldable pub compile_args : (Expr → Scope → Compiled) → Expr → Scope → Compiled
unfolding and_then
compile_args compile (binary_op t Operator.comma l r) scope =
    and_then (compile l scope) (compile_args compile r)
compile_args compile (binary_op t o l r) scope = panic
compile_args compile e scope = and_then (compile e scope) (done 0)

unfoldable pub compile_function_call :
    (List ℕ → Option ℕ) → (Expr → Scope → Compiled) → Expr → Expr → Scope → Compiled
unfolding compile_args and_then compiler_emit opcode
compile_function_call functions compile (ident t name) (group t' args) scope =
    elim (functions name) [
      | none ↦ panic
      | some func_sig_index ↦ and_then (compile_args compile args scope) (
          compiler_emit
            (opcode call ∷ (func_sig_index / 2 ^ 8 % 2 ^ 8) ∷ (func_sig_index % 2 ^ 8) ∷ []))
    ]
compile_function_call functions compile _ _ scope = panic

-- A binary operator whose node has been traced: the two operands, then the opcode.
unfoldable pub compile_typical : (Expr → Scope → Compiled) → Expr → Scope → Compiled
unfolding binary_opcode emit_op
compile_typical compile (binary_op t o l r) scope =
    let code = binary_opcode t o in
    let parts = do s ← compile l scope; s' ← compile r s; emit_op code [] s'
    in if code == 0 then panic else parts
compile_typical compile _ scope = undefined

unfoldable pub compile_binary_op :
    (List ℕ → Option ℕ) → (Expr → Scope → Compiled) → ℕ → Operator → Expr → Expr → Scope → Compiled
unfolding compile_typical compile_binary_op_assignment compile_function_call
compile_binary_op functions compile t Operator.assignment l r scope =
    compile_binary_op_assignment compile l r scope
compile_binary_op functions compile t Operator.function_call l r scope =
    compile_function_call functions compile l r scope
compile_binary_op functions compile t o l r scope =
    elim (ast_node_trace_data_type scope (binary_op t o l r)) [
      | none ↦ panic
      | some traced ↦ compile_typical compile traced scope
    ]

unfoldable pub compile_unary_op : (Expr → Scope → Compiled) → Operator → Expr → Scope → Compiled
unfolding int_operator_to_opcode emit_op
compile_unary_op compile o e scope =
    let code = int_operator_to_opcode o in
    let parts = compile e scope >>= emit_op code [] in if code == 0 then panic else parts

unfoldable pub compile_expression : (List ℕ → Option ℕ) → ℕ → Expr → Scope → Compiled
unfolding compile_literal_int compile_literal_float compile_ident compile_unary_op compile_binary_op
    emit_op
compile_expression functions zero e scope = stuck
compile_expression functions (suc fuel) (literal_int n) scope = compile_literal_int n scope
compile_expression functions (suc fuel) (literal_float x) scope = compile_literal_float x scope
compile_expression functions (suc fuel) (ident t name) scope = compile_ident name scope
compile_expression functions (suc fuel) (group t e) scope =
    compile_expression functions fuel e scope
compile_expression functions (suc fuel) (unary_op t o e) scope =
    compile_unary_op (compile_expression functions fuel) o e scope
compile_expression functions (suc fuel) (binary_op t o l r) scope =
    compile_binary_op functions (compile_expression functions fuel) t o l r scope
compile_expression functions (suc fuel) (special_cast t code e) scope =
    compile_expression functions fuel e scope >>= emit_op code []
compile_expression functions (suc fuel) _ scope = panic
