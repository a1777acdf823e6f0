-- ===== src/Compiler/Types.antt =====
-- src/compiler_vars.c: static types, the choice of a cast and of an opcode. src/vm/opcodes.h: the
-- macros `OPCODE_SAVE` and `OPCODE_LOAD`.
use phantomshell.Base.{ℕ, Bool, true, false, ◌&&◌, ◌||◌, Option, none, some, ◌==◌, if◌then◌else◌}
use phantomshell.Operator.{Operator}
use phantomshell.Ast.{
  Expr, ident, group, unary_op, binary_op, ternary_op, special_cast, static_type, type_unknown,
  type_bool, type_int, type_float,
}
use phantomshell.Vm.Opcodes.{
  opcode, iadd, isub, imul, idiv, ieq, ineq, ilt, ingt, igt, inlt, fadd, fsub, fmul, fdiv, iload,
  isave, fload, fsave, i2f, panic_handler, opcode_ineg, opcode_fneg,
}
use phantomshell.Compiler.Scope.{Scope, frame_lookup_var_by_name}

unfoldable pub int_operator_to_opcode : Operator → ℕ
unfolding opcode
int_operator_to_opcode Operator.addition = opcode iadd
int_operator_to_opcode Operator.subtraction = opcode isub
int_operator_to_opcode Operator.multiplication = opcode imul
int_operator_to_opcode Operator.division = opcode idiv
int_operator_to_opcode Operator.unary_minus = opcode_ineg
int_operator_to_opcode Operator.equal_to = opcode ieq
int_operator_to_opcode Operator.not_equal_to = opcode ineq
int_operator_to_opcode Operator.less_than = opcode ilt
int_operator_to_opcode Operator.not_greater_than = opcode ingt
int_operator_to_opcode Operator.greater_than = opcode igt
int_operator_to_opcode Operator.not_less_than = opcode inlt
int_operator_to_opcode _ = 0

unfoldable pub float_operator_to_opcode : Operator → ℕ
unfolding opcode
float_operator_to_opcode Operator.addition = opcode fadd
float_operator_to_opcode Operator.subtraction = opcode fsub
float_operator_to_opcode Operator.multiplication = opcode fmul
float_operator_to_opcode Operator.division = opcode fdiv
float_operator_to_opcode Operator.unary_minus = opcode_fneg
float_operator_to_opcode Operator.equal_to = opcode ieq
float_operator_to_opcode Operator.not_equal_to = opcode ineq
float_operator_to_opcode _ = 0

-- `OPCODE_SAVE` and `OPCODE_LOAD`: 0 for a type that cannot be saved or loaded.
unfoldable pub opcode_save : ℕ → ℕ
unfolding opcode
opcode_save type_id =
    if (type_id == type_bool) || (type_id == type_int)
    then opcode isave
    else if type_id == type_float
    then opcode fsave
    else 0

unfoldable pub opcode_load : ℕ → ℕ
unfolding opcode
opcode_load type_id =
    if (type_id == type_bool) || (type_id == type_int)
    then opcode iload
    else if type_id == type_float
    then opcode fload
    else 0

-- `struct cast_request_t`.
pub record CastRequest : Type 0 where
  pub opcode : ℕ
  pub var_index : ℕ
  pub static_type : ℕ

unfoldable pub type_select_cast_method : ℕ → ℕ → CastRequest
unfolding opcode
type_select_cast_method type_1 type_2 =
    if ((type_1 == type_int) && (type_2 == type_float))
      || ((type_2 == type_int) && (type_1 == type_float))
    then record {
      opcode = phantomshell.Vm.Opcodes.opcode i2f;
      var_index = if type_1 == type_int then 0 else 1;
      static_type = type_float;
    }
    else record {
      opcode = phantomshell.Vm.Opcodes.opcode panic_handler;
      var_index = 0;
      static_type = 0;
    }

-- `ast_node_trace_binary_op_data_type`, on operands that have been traced. A comparison's type is
-- overwritten by that of its operands. `none` is the panic.
unfoldable pub trace_binary_op : Operator → Expr → Expr → Expr
unfolding static_type type_select_cast_method
trace_binary_op o l r =
    let cast_r = type_select_cast_method (static_type l) (static_type r) in
    let cast = special_cast cast_r.static_type cast_r.opcode in
    if static_type l == static_type r
    then binary_op (static_type r) o l r
    else if cast_r.var_index == 0
    then binary_op cast_r.static_type o (cast l) r
    else binary_op cast_r.static_type o l (cast r)

unfoldable pub is_function_call : Operator → Bool
is_function_call Operator.function_call = true
is_function_call _ = false

-- `ast_node_trace_data_type`: the node with the types of its nodes filled in, and with a cast above an
-- operand that needs it. `none` is the panic.
unfoldable pub ast_node_trace_data_type : Scope → Expr → Option Expr
unfolding static_type trace_binary_op is_function_call
ast_node_trace_data_type scope (ident t name) =
    if t == type_unknown
    then elim (frame_lookup_var_by_name scope name) [
      | none ↦ none
      | some var ↦ some (ident var.static_type name)
    ]
    else some (ident t name)
ast_node_trace_data_type scope (group t e) =
    let inner = ast_node_trace_data_type scope e in
    if t == type_unknown
    then elim inner [ none ↦ none | some e' ↦ some (group (static_type e') e') ]
    else some (group t e)
ast_node_trace_data_type scope (unary_op t o e) =
    let inner = ast_node_trace_data_type scope e in
    if t == type_unknown
    then elim inner [ none ↦ none | some e' ↦ some (unary_op (static_type e') o e') ]
    else some (unary_op t o e)
ast_node_trace_data_type scope (binary_op t o l r) =
    let left = ast_node_trace_data_type scope l in
    let right = ast_node_trace_data_type scope r in
    if t == type_unknown
    then if is_function_call o then none else elim left [
      | none ↦ none
      | some l' ↦ elim right [ none ↦ none | some r' ↦ some (trace_binary_op o l' r') ]
    ]
    else some (binary_op t o l r)
ast_node_trace_data_type scope (ternary_op t o a b c) =
    if t == type_unknown then none else some (ternary_op t o a b c)
ast_node_trace_data_type scope (special_cast t code e) =
    if t == type_unknown then none else some (special_cast t code e)
ast_node_trace_data_type scope e = some e
