-- ===== src/Nodes/Types.antt =====
-- src/parser.h: the types of nodes, `AST_NODE_TYPE_*`, and the masks on them; src/parser.c: the checks of a
-- type, `NODE_UPCAST` and `NODE_UPCAST_EXPR`. A text has no type.
use phantomshell.Base.{
  ℕ, ◌/◌, ◌^◌, ◌≡◌, refl, Bool, Option, none, some, ◌==◌, if◌then◌else◌, bit_and, Bool-cases, inl,
  inr,
}
use phantomshell.Ast.{type_bool, type_int, type_float}
use phantomshell.Nodes.{
  Ptr, null, Cell, text, literal, literal_string, ident, group, unary_op, binary_op, ternary_op,
  special_cast, scope, stat_list, stat_expr, stat_ret, stat_if, stat_switch, stat_while,
  stat_switch_choice, decl_var, func_arg_list, decl_func, Cmd, load, fails,
}

abbrev pub ast_node_type_stat_list : ℕ
ast_node_type_stat_list = 0b10001111

abbrev pub ast_node_type_decl_var : ℕ
ast_node_type_decl_var = 0b00000010

abbrev pub ast_node_type_scope : ℕ
ast_node_type_scope = 0b00000011

abbrev pub ast_node_stat_mask : ℕ
ast_node_stat_mask = 0b10000000

abbrev pub ast_node_expr_mask : ℕ
ast_node_expr_mask = 0b01000000

-- The type that the constructors write into a node.
unfoldable pub type_id : Cell → Option ℕ
type_id (text s) = none
type_id (literal t value) =
    if t == type_bool
    then some 0b01000011
    else if t == type_int
    then some 0b01000100
    else if t == type_float
    then some 0b01000101
    else some 0b01000110
type_id (literal_string value) = some 0b01000111
type_id (ident t value) = some 0b01000001
type_id (group t e) = some 0b01000010
type_id (unary_op t o e) = some 0b01001000
type_id (binary_op t o l r) = some 0b01001001
type_id (ternary_op t o a b c) = some 0b01001010
type_id (special_cast t code e) = some 0b01001011
type_id (scope stats) = some ast_node_type_scope
type_id (stat_list size first last) = some ast_node_type_stat_list
type_id (stat_expr next e) = some 0b10000001
type_id (stat_ret next e) = some 0b10000010
type_id (stat_if next e t f) = some 0b10000011
type_id (stat_switch next e choice) = some 0b10000100
type_id (stat_switch_choice e s next) = if e == null then some 0b10000110 else some 0b10000101
type_id (stat_while next e s) = some 0b10000111
type_id (decl_var t name next) = some ast_node_type_decl_var
type_id (decl_func name ret_type args body) = some 0b00000100
type_id (func_arg_list first last) = some 0b00000101

-- A pointer to a node, or null if the type of the node is another one.
unfoldable pub node_upcast : ℕ → Ptr → (Ptr → Cmd) → Cmd
unfolding type_id
node_upcast wanted p use_node =
    load p
      λ c. elim (type_id c) [ none ↦ fails | some t ↦ use_node (if t == wanted then p else null) ]

unfoldable pub is_expr_type : ℕ → Bool
is_expr_type t = bit_and t ast_node_expr_mask / 2 ^ 6 == 1

-- The test of `compiler_compile_impl`.
unfoldable pub is_stat_type : ℕ → Bool
is_stat_type t = bit_and t ast_node_stat_mask / 2 ^ 6 == 2

pub data Kind : Type 0 where
  expression statement other : Kind

-- What the masks say of a type.
abbrev pub masked_kind : Option ℕ → Option Kind
masked_kind none = none
masked_kind (some t) =
    some (if is_expr_type t then expression else if is_stat_type t then statement else other)

-- The nodes that have the header of an expression, and those that are statements or parts of them. A list of
-- statements and a choice of a switch are among the latter; a scope and a declaration are neither.
abbrev pub kind : Cell → Option Kind
kind (text s) = none
kind (literal t value) = some expression
kind (literal_string value) = some expression
kind (ident t value) = some expression
kind (group t e) = some expression
kind (unary_op t o e) = some expression
kind (binary_op t o l r) = some expression
kind (ternary_op t o a b c) = some expression
kind (special_cast t code e) = some expression
kind (scope stats) = some other
kind (stat_list size first last) = some statement
kind (stat_expr next e) = some statement
kind (stat_ret next e) = some statement
kind (stat_if next e t f) = some statement
kind (stat_switch next e choice) = some statement
kind (stat_switch_choice e s next) = some statement
kind (stat_while next e s) = some statement
kind (decl_var t name next) = some other
kind (decl_func name ret_type args body) = some other
kind (func_arg_list first last) = some other

-- The masks on its type tell of every node whether it is an expression, a statement or a part of one, or
-- neither.
pub masked_kind-type_id : (c : Cell) → masked_kind (type_id c) ≡ kind c
unfolding type_id is_expr_type is_stat_type
masked_kind-type_id (literal t value) = elim (Bool-cases (t == type_bool)) [
  | inl b ↦ rw b refl
  | inr not_b ↦ elim (Bool-cases (t == type_int)) [
    | inl i ↦ rw (not_b, i) refl
    | inr not_i ↦ elim (Bool-cases (t == type_float)) [
      | inl f ↦ rw (not_b, not_i, f) refl
      | inr not_f ↦ rw (not_b, not_i, not_f) refl
    ]
  ]
]
masked_kind-type_id (stat_switch_choice e s next) = elim (Bool-cases (e == null)) [
  | inl none_there ↦ rw none_there refl
  | inr there ↦ rw there refl
]
masked_kind-type_id (text s) = refl
masked_kind-type_id (literal_string value) = refl
masked_kind-type_id (ident t value) = refl
masked_kind-type_id (group t e) = refl
masked_kind-type_id (unary_op t o e) = refl
masked_kind-type_id (binary_op t o l r) = refl
masked_kind-type_id (ternary_op t o a b c) = refl
masked_kind-type_id (special_cast t code e) = refl
masked_kind-type_id (scope stats) = refl
masked_kind-type_id (stat_list size first last) = refl
masked_kind-type_id (stat_expr next e) = refl
masked_kind-type_id (stat_ret next e) = refl
masked_kind-type_id (stat_if next e t f) = refl
masked_kind-type_id (stat_switch next e choice) = refl
masked_kind-type_id (stat_while next e s) = refl
masked_kind-type_id (decl_var t name next) = refl
masked_kind-type_id (decl_func name ret_type args body) = refl
masked_kind-type_id (func_arg_list first last) = refl
