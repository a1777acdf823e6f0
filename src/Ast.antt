-- ===== src/Ast.antt =====
-- src/parser.h: the nodes of the syntax tree, as the constructors of src/parser.c fill them in. A
-- `static_type` that the compiler writes later is a field of the node; a literal has its own. Text
-- is a list of bytes, a float its bit pattern.
use phantomshell.Base.{ℕ, ◌≡◌, Option, List}
use phantomshell.Operator.{Operator}

-- `TYPE_*` of src/types.h and `RUNTIME_TYPE_*` of src/vm/runtime.h, where the two agree.
abbrev pub type_unknown : ℕ
type_unknown = 0

abbrev pub type_bool : ℕ
type_bool = 1

abbrev pub type_int : ℕ
type_int = 2

abbrev pub type_float : ℕ
type_float = 3

abbrev pub type_char : ℕ
type_char = 4

abbrev pub type_string : ℕ
type_string = 5

pub data Expr : Type 0 where
  literal_bool literal_int literal_float literal_char : ℕ → Expr
  literal_string : List ℕ → Expr
  ident : ℕ → List ℕ → Expr
  group : ℕ → Expr → Expr
  unary_op : ℕ → Operator → Expr → Expr
  binary_op : ℕ → Operator → Expr → Expr → Expr
  ternary_op : ℕ → Operator → Expr → Expr → Expr → Expr
  special_cast : ℕ → ℕ → Expr → Expr

-- `EXPR_NODE_STATIC_TYPE`.
unfoldable pub static_type : Expr → ℕ
static_type (literal_bool b) = type_bool
static_type (literal_int n) = type_int
static_type (literal_float x) = type_float
static_type (literal_char c) = type_char
static_type (literal_string s) = type_string
static_type (ident t name) = t
static_type (group t e) = t
static_type (unary_op t o e) = t
static_type (binary_op t o l r) = t
static_type (ternary_op t o a b c) = t
static_type (special_cast t opcode e) = t

-- The statements, a scope that may be a null pointer, the list of a scope's statements, and the
-- choices of a switch.
mutual
  pub data Stat : Type 0 where
    stat_expr : Expr → Stat
    stat_ret : Expr → Stat
    stat_if : Expr → Body → Body → Stat
    stat_switch : Expr → Choices → Stat
    stat_while : Expr → Body → Stat

  pub data Body : Type 0 where
    null_scope : Body
    scope : Stats → Body

  pub data Stats : Type 0 where
    stats_end : Stats
    stats_link : Stat → Stats → Stats

  pub data Choices : Type 0 where
    choices_end : Choices
    case : Expr → Body → Choices → Choices
    other : Body → Choices → Choices

-- `ast_node_decl_var_t`.
pub record DeclVar : Type 0 where
  pub var_type : List ℕ
  pub var_name : List ℕ

-- `ast_node_decl_func_t`, with its null pointers.
pub record DeclFunc : Type 0 where
  pub name : List ℕ
  pub ret_type : Option (List ℕ)
  pub args : Option (List DeclVar)
  pub body : Body

-- An expression of the parser: no types yet, and no casts.
abbrev pub IsParsed : Expr → Type 0
IsParsed (group t e) = (t ≡ type_unknown) × IsParsed e
IsParsed (ident t value) = t ≡ type_unknown
IsParsed (unary_op t o e) = (t ≡ type_unknown) × IsParsed e
IsParsed (binary_op t o l r) = (t ≡ type_unknown) × IsParsed l × IsParsed r
IsParsed (ternary_op t o a b c) = (t ≡ type_unknown) × IsParsed a × IsParsed b × IsParsed c
IsParsed (special_cast t opcode e) = ⊥
IsParsed e = Unit
