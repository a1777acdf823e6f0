-- ===== src/Compiler/TypeTests.antt =====
-- Types that are traced.
use phantomshell.Base.{str_eq, ◌≡◌, refl, some, [], ◌∷◌}
use phantomshell.Operator.{addition, multiplication}
use phantomshell.Ast.{
  Expr, literal_int, literal_float, ident, group, binary_op, type_unknown, type_int, type_float,
}
use phantomshell.Compiler.Scope.{Scope, ScopeVar, frame_lookup_var_by_name}
use phantomshell.Compiler.Types.{ast_node_trace_data_type, is_function_call}
use phantomshell.Compiler.Typing.{
  int_type, float_type, var_type, group_type, same_type, left_int, IsTyped,
  ast_node_trace_data_type-IsTyped,
}

abbrev x_var : ScopeVar
x_var = record { static_type = type_int; name = 120 ∷ []; index = 0 }

abbrev x_only : Scope
x_only = record {
  vars = x_var ∷ [];
  parents = [];
  vars_cap = 16;
  vars_off = 0;
  vars_max_size = 1;
  stack_size = 0;
  stack_max_size = 0;
  code = [];
}

-- `(x + 2) * 1.5`
abbrev scaled : Expr
scaled =
    binary_op type_unknown multiplication
      (group type_unknown
        (binary_op type_unknown addition (ident type_unknown (120 ∷ [])) (literal_int 2)))
      (literal_float 1069547520)

x_found : frame_lookup_var_by_name x_only (120 ∷ []) ≡ some x_var
unfolding frame_lookup_var_by_name str_eq
x_found = refl

ast_node_trace_data_type-IsTyped_example :
    (e : Expr) × (ast_node_trace_data_type x_only scaled ≡ some e) × IsTyped e type_float
unfolding is_function_call
ast_node_trace_data_type-IsTyped_example =
    ast_node_trace_data_type-IsTyped x_only scaled type_float (
      left_int multiplication _ _ refl
        (group_type _ type_int
          (same_type addition _ _ type_int refl (var_type (120 ∷ []) x_var x_found) (int_type 2)))
        (float_type 1069547520))
