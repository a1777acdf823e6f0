-- ===== src/Compiler/Typing.antt =====
-- src/compiler_vars.c: the types of expressions, and the trees with the casts that they need.
use phantomshell.Base.{ℕ, true, false, ◌≡◌, refl, ◌∙◌, some, List, ◌==◌, arith}
use phantomshell.Operator.{Operator}
use phantomshell.Ast.{
  Expr, literal_bool, literal_int, literal_float, literal_char, literal_string, ident, group,
  unary_op, binary_op, special_cast, static_type, type_unknown, type_bool, type_int, type_float,
  type_char, type_string,
}
use phantomshell.Vm.Opcodes.{opcode, i2f}
use phantomshell.Compiler.Scope.{Scope, ScopeVar, frame_lookup_var_by_name}
use phantomshell.Compiler.Types.{
  ast_node_trace_data_type, trace_binary_op, is_function_call, type_select_cast_method,
}

-- The type of an expression of the parser in a scope: both operands of an operator have its type, or one
-- is an integer and the other a float, as is the whole then.
pub data HasType (scope : Scope) : Expr → ℕ → Type 0 where
  bool_type : (b : ℕ) → HasType scope (literal_bool b) type_bool
  int_type : (n : ℕ) → HasType scope (literal_int n) type_int
  float_type : (x : ℕ) → HasType scope (literal_float x) type_float
  char_type : (c : ℕ) → HasType scope (literal_char c) type_char
  string_type : (s : List ℕ) → HasType scope (literal_string s) type_string
  var_type :
      (name : List ℕ) (var : ScopeVar)
      → frame_lookup_var_by_name scope name ≡ some var
      → HasType scope (ident type_unknown name) var.static_type
  group_type : (e : Expr) (t : ℕ) → HasType scope e t → HasType scope (group type_unknown e) t
  unary_type :
      (o : Operator) (e : Expr) (t : ℕ)
      → HasType scope e t
      → HasType scope (unary_op type_unknown o e) t
  same_type :
      (o : Operator) (l r : Expr) (t : ℕ)
      → is_function_call o ≡ false
      → HasType scope l t
      → HasType scope r t
      → HasType scope (binary_op type_unknown o l r) t
  left_int :
      (o : Operator) (l r : Expr)
      → is_function_call o ≡ false
      → HasType scope l type_int
      → HasType scope r type_float
      → HasType scope (binary_op type_unknown o l r) type_float
  right_int :
      (o : Operator) (l r : Expr)
      → is_function_call o ≡ false
      → HasType scope l type_float
      → HasType scope r type_int
      → HasType scope (binary_op type_unknown o l r) type_float

-- A tree whose nodes have been given their types: the operands of an operator have its own type, and the
-- only casts are those of an integer to a float.
pub data IsTyped : Expr → ℕ → Type 0 where
  bool_typed : (b : ℕ) → IsTyped (literal_bool b) type_bool
  int_typed : (n : ℕ) → IsTyped (literal_int n) type_int
  float_typed : (x : ℕ) → IsTyped (literal_float x) type_float
  char_typed : (c : ℕ) → IsTyped (literal_char c) type_char
  string_typed : (s : List ℕ) → IsTyped (literal_string s) type_string
  var_typed : (t : ℕ) (name : List ℕ) → IsTyped (ident t name) t
  group_typed : (t : ℕ) (e : Expr) → IsTyped e t → IsTyped (group t e) t
  unary_typed : (t : ℕ) (o : Operator) (e : Expr) → IsTyped e t → IsTyped (unary_op t o e) t
  binary_typed :
      (t : ℕ) (o : Operator) (l r : Expr)
      → IsTyped l t
      → IsTyped r t
      → IsTyped (binary_op t o l r) t
  cast_typed :
      (e : Expr) → IsTyped e type_int → IsTyped (special_cast type_float (opcode i2f) e) type_float

static_type-IsTyped : (e : Expr) (t : ℕ) → IsTyped e t → static_type e ≡ t
unfolding static_type
static_type-IsTyped e t (bool_typed b) = refl
static_type-IsTyped e t (int_typed n) = refl
static_type-IsTyped e t (float_typed x) = refl
static_type-IsTyped e t (char_typed c) = refl
static_type-IsTyped e t (string_typed s) = refl
static_type-IsTyped e t (var_typed u name) = refl
static_type-IsTyped e t (group_typed u inner h) = refl
static_type-IsTyped e t (unary_typed u o inner h) = refl
static_type-IsTyped e t (binary_typed u o l r h k) = refl
static_type-IsTyped e t (cast_typed inner h) = refl

eq_refl : (t : ℕ) → (t == t) ≡ true
eq_refl t = ground arith

-- What the two operands are traced to, and the operator with the cast between them.
both :
    (scope : Scope) (o : Operator) (l r l' r' : Expr)
    → is_function_call o ≡ false
    → ast_node_trace_data_type scope l ≡ some l'
    → ast_node_trace_data_type scope r ≡ some r'
    → ast_node_trace_data_type scope (binary_op type_unknown o l r) ≡ some (trace_binary_op o l' r')
unfolding ast_node_trace_data_type
both scope o l r l' r' call left right = rw (call, left, right) refl

-- An expression of the parser that has a type in a scope is traced without a panic, and the tree that this
-- leaves is typed throughout by the same type.
pub ast_node_trace_data_type-IsTyped :
    (scope : Scope) (e : Expr) (t : ℕ)
    → HasType scope e t
    → (e' : Expr) × (ast_node_trace_data_type scope e ≡ some e') × IsTyped e' t
unfolding ast_node_trace_data_type trace_binary_op type_select_cast_method
ast_node_trace_data_type-IsTyped scope e t (bool_type b) = (e, refl, bool_typed b)
ast_node_trace_data_type-IsTyped scope e t (int_type n) = (e, refl, int_typed n)
ast_node_trace_data_type-IsTyped scope e t (float_type x) = (e, refl, float_typed x)
ast_node_trace_data_type-IsTyped scope e t (char_type c) = (e, refl, char_typed c)
ast_node_trace_data_type-IsTyped scope e t (string_type s) = (e, refl, string_typed s)
ast_node_trace_data_type-IsTyped scope e t (var_type name var found) =
    (ident var.static_type name, rw found refl, var_typed var.static_type name)
ast_node_trace_data_type-IsTyped scope e t (group_type inner u h) =
    let (inner', traced, typed) = ast_node_trace_data_type-IsTyped scope inner u h in
    (
      group u inner',
      rw (traced, static_type-IsTyped inner' u typed) refl,
      group_typed u inner' typed,
    )
ast_node_trace_data_type-IsTyped scope e t (unary_type o inner u h) =
    let (inner', traced, typed) = ast_node_trace_data_type-IsTyped scope inner u h in
    (
      unary_op u o inner',
      rw (traced, static_type-IsTyped inner' u typed) refl,
      unary_typed u o inner' typed,
    )
ast_node_trace_data_type-IsTyped scope e t (same_type o l r u call h k) =
    let (l', left, l_typed) = ast_node_trace_data_type-IsTyped scope l u h in
    let (r', right, r_typed) = ast_node_trace_data_type-IsTyped scope r u k in
    (
      binary_op u o l' r',
      both scope o l r l' r' call left right
          ∙ rw (static_type-IsTyped l' u l_typed, static_type-IsTyped r' u r_typed, eq_refl u) refl,
      binary_typed u o l' r' l_typed r_typed,
    )
ast_node_trace_data_type-IsTyped scope e t (left_int o l r call h k) =
    let (l', left, l_typed) = ast_node_trace_data_type-IsTyped scope l type_int h in
    let (r', right, r_typed) = ast_node_trace_data_type-IsTyped scope r type_float k in
    let cast : Expr = special_cast type_float (opcode i2f) l' in
    (
      binary_op type_float o cast r',
      both scope o l r l' r' call left right
          ∙ rw (static_type-IsTyped l' type_int l_typed, static_type-IsTyped r' type_float r_typed)
              refl,
      binary_typed type_float o cast r' (cast_typed l' l_typed) r_typed,
    )
ast_node_trace_data_type-IsTyped scope e t (right_int o l r call h k) =
    let (l', left, l_typed) = ast_node_trace_data_type-IsTyped scope l type_float h in
    let (r', right, r_typed) = ast_node_trace_data_type-IsTyped scope r type_int k in
    let cast : Expr = special_cast type_float (opcode i2f) r' in
    (
      binary_op type_float o l' cast,
      both scope o l r l' r' call left right
          ∙ rw (static_type-IsTyped l' type_float l_typed, static_type-IsTyped r' type_int r_typed)
              refl,
      binary_typed type_float o l' cast l_typed (cast_typed r' r_typed),
    )
