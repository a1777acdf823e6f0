-- ===== src/Compiler/Calls.antt =====
-- src/compiler_expr.c: the arguments of a call, as the parser groups them.
use phantomshell.Base.{
  ℕ, suc, ◌≡◌, refl, inl, inr, Option, List, Option-cases, Bool-cases, ◌==◌, arith,
}
use phantomshell.Operator
use phantomshell.Ast.{Expr, ident, group, binary_op, type_unknown, static_type}
use phantomshell.Compiler.Scope.{Scope, Compiled, panic, and_then}
use phantomshell.Compiler.Types.{
  ast_node_trace_data_type, trace_binary_op, is_function_call, type_select_cast_method,
  int_operator_to_opcode, float_operator_to_opcode,
}
use phantomshell.Compiler.Expr.{
  binary_opcode, compile_typical, compile_binary_op, compile_args, compile_function_call,
  compile_expression,
}

no_code : (t : ℕ) → binary_opcode t Operator.comma ≡ 0
unfolding binary_opcode int_operator_to_opcode float_operator_to_opcode
no_code t = ground arith

comma-typical :
    (compile : Expr → Scope → Compiled) (t : ℕ) (l r : Expr) (scope : Scope)
    → compile_typical compile (binary_op t Operator.comma l r) scope ≡ panic
unfolding compile_typical
comma-typical compile t l r scope = rw (no_code t) refl

traced-comma :
    (compile : Expr → Scope → Compiled) (l r : Expr) (scope : Scope)
    → compile_typical compile (trace_binary_op Operator.comma l r) scope ≡ panic
unfolding trace_binary_op
traced-comma compile l r scope = elim (Bool-cases (static_type l == static_type r)) [
  | inl same ↦ rw (same, trace_binary_op) (comma-typical compile _ l r scope)
  | inr apart ↦
      elim (Bool-cases ((type_select_cast_method (static_type l) (static_type r)).var_index == 0)) [
        | inl left ↦ rw (apart, left, trace_binary_op) (comma-typical compile _ _ r scope)
        | inr right ↦ rw (apart, right, trace_binary_op) (comma-typical compile _ l _ scope)
      ]
]

comma_panics :
    (functions : List ℕ → Option ℕ) (compile : Expr → Scope → Compiled) (t : ℕ) (l r : Expr)
    (scope : Scope)
    → compile_binary_op functions compile t Operator.comma l r scope ≡ panic
unfolding compile_binary_op ast_node_trace_data_type is_function_call
comma_panics functions compile t l r scope = elim (Bool-cases (t == type_unknown)) [
  | inl fresh ↦ elim (Option-cases (ast_node_trace_data_type scope l)) [
    | inl no_type ↦ rw (compile_binary_op, ast_node_trace_data_type, fresh, no_type) refl
    | inr (l', left) ↦ elim (Option-cases (ast_node_trace_data_type scope r)) [
      | inl no_type ↦ rw (compile_binary_op, ast_node_trace_data_type, fresh, left, no_type) refl
      | inr (r', right) ↦
          rw (compile_binary_op, ast_node_trace_data_type, fresh, left, right)
            (traced-comma compile l' r' scope)
    ]
  ]
  | inr known ↦
      rw (compile_binary_op, ast_node_trace_data_type, known) (comma-typical compile t l r scope)
]

-- A call with three arguments, which the parser groups as `(a, b), c`, ends in a panic, whatever the
-- arguments and the function are: the left operand of the outer comma is compiled as an expression.
pub three_arguments-panic :
    (functions : List ℕ → Option ℕ) (fuel t t₁ t₂ t₃ t₄ : ℕ) (name : List ℕ) (a b c : Expr)
    (scope : Scope)
    → compile_expression functions
        (suc (suc fuel))
        (binary_op t Operator.function_call
          (ident t₁ name)
          (group t₂ (binary_op t₃ Operator.comma (binary_op t₄ Operator.comma a b) c)))
        scope
      ≡ panic
unfolding compile_expression compile_binary_op compile_function_call compile_args and_then
three_arguments-panic functions fuel t t₁ t₂ t₃ t₄ name a b c scope =
    elim (Option-cases (functions name)) [
      | inl none_such ↦ rw (none_such, compile_function_call) refl
      | inr (i, found) ↦
          rw
            (
              found,
              compile_function_call,
              comma_panics functions (compile_expression functions fuel) t₄ a b scope,
            )
            refl
    ]
