-- ===== src/Nodes/Build.antt =====
-- src/parser.c: the constructors of expressions on the heap, in a build that prints no nodes. `malloc n` is
-- the block that the n-th call of `malloc` returns. A failed check of a type writes a message and goes on
-- with a null pointer.
use phantomshell.Base.{ℕ, suc, none, some, List, if◌then◌else◌}
use phantomshell.Operator.{operator_word}
use phantomshell.Ast.{Expr, type_bool, type_int, type_float, type_char, type_unknown}
use phantomshell.Ast
use phantomshell.Nodes.{
  Ptr, null, Cell, text, literal, literal_string, ident, group, unary_op, binary_op, ternary_op,
  Heap, write,
}
use phantomshell.Nodes.Types.{type_id, is_expr_type}

-- A pointer, with the count of the calls of `malloc` and the heap behind it. `broken` is a fault.
pub data Made : Type 0 where
  made : Ptr → ℕ → Heap → Made
  broken : Made

abbrev pub New : Type 0
New = ℕ → Heap → Made

abbrev pub then_node : Made → (Ptr → New) → Made
then_node (made p n h) next = next p n h
then_node broken next = broken

-- `NODE_UPCAST_EXPR`.
unfoldable pub node_upcast_expr : Ptr → (Ptr → New) → New
unfolding type_id is_expr_type
node_upcast_expr p use_node n h = elim (h p) [
  | none ↦ broken
  | some c ↦ elim (type_id c) [
    | none ↦ broken
    | some t ↦ use_node (if is_expr_type t then p else null) n h
  ]
]

module _ (malloc : ℕ → Ptr) where
  -- `AST_NEW_NODE` and the fields that are set behind it.
  unfoldable pub new_node : Cell → New
  unfolding write
  new_node c n h = made (malloc n) (suc n) (write (malloc n) (some c) h)

  unfoldable pub ast_new_node_literal_bool : ℕ → New
  unfolding new_node
  ast_new_node_literal_bool value = new_node (literal type_bool value)

  unfoldable pub ast_new_node_literal_int : ℕ → New
  unfolding new_node
  ast_new_node_literal_int value = new_node (literal type_int value)

  unfoldable pub ast_new_node_literal_float : ℕ → New
  unfolding new_node
  ast_new_node_literal_float value = new_node (literal type_float value)

  unfoldable pub ast_new_node_literal_char : ℕ → New
  unfolding new_node
  ast_new_node_literal_char value = new_node (literal type_char value)

  unfoldable pub ast_new_node_literal_string : Ptr → New
  unfolding new_node
  ast_new_node_literal_string value = new_node (literal_string value)

  unfoldable pub ast_new_node_ident : Ptr → New
  unfolding new_node
  ast_new_node_ident value = new_node (ident type_unknown value)

  unfoldable pub ast_new_node_group : Ptr → New
  unfolding new_node node_upcast_expr
  ast_new_node_group expr = node_upcast_expr expr λ e. new_node (group type_unknown e)

  unfoldable pub ast_new_node_unary_op : ℕ → Ptr → New
  unfolding new_node node_upcast_expr
  ast_new_node_unary_op operator operand =
      node_upcast_expr operand λ e. new_node (unary_op type_unknown operator e)

  unfoldable pub ast_new_node_binary_op : ℕ → Ptr → Ptr → New
  unfolding new_node node_upcast_expr
  ast_new_node_binary_op operator left right =
      node_upcast_expr left
        λ l. node_upcast_expr right λ r. new_node (binary_op type_unknown operator l r)

  unfoldable pub ast_new_node_ternary_op : ℕ → Ptr → Ptr → Ptr → New
  unfolding new_node node_upcast_expr
  ast_new_node_ternary_op operator op1 op2 op3 = node_upcast_expr op1 λ a.
      node_upcast_expr op2
        λ b. node_upcast_expr op3 λ c. new_node (ternary_op type_unknown operator a b c)

  -- The copy of a text that the lexer makes.
  unfoldable pub new_text : List ℕ → New
  unfolding new_node
  new_text s = new_node (text s)

  -- The constructors in the order in which the parser calls them for the text of an expression.
  unfoldable pub new_expr : Expr → New
  unfolding new_text ast_new_node_literal_bool ast_new_node_literal_int ast_new_node_literal_float
      ast_new_node_literal_char ast_new_node_literal_string ast_new_node_ident ast_new_node_group
      ast_new_node_unary_op ast_new_node_binary_op ast_new_node_ternary_op
  new_expr (Ast.literal_bool b) n h = ast_new_node_literal_bool b n h
  new_expr (Ast.literal_int v) n h = ast_new_node_literal_int v n h
  new_expr (Ast.literal_float x) n h = ast_new_node_literal_float x n h
  new_expr (Ast.literal_char c) n h = ast_new_node_literal_char c n h
  new_expr (Ast.literal_string s) n h = then_node (new_text s n h) ast_new_node_literal_string
  new_expr (Ast.ident t s) n h = then_node (new_text s n h) ast_new_node_ident
  new_expr (Ast.group t e) n h = then_node (new_expr e n h) ast_new_node_group
  new_expr (Ast.unary_op t o e) n h =
      then_node (new_expr e n h) (ast_new_node_unary_op (operator_word o))
  new_expr (Ast.binary_op t o l r) n h =
      then_node (new_expr l n h)
        λ p m g. then_node (new_expr r m g) (ast_new_node_binary_op (operator_word o) p)
  new_expr (Ast.ternary_op t o a b c) n h = then_node (new_expr a n h) λ p m g.
      then_node (new_expr b m g)
        λ q m' g'. then_node (new_expr c m' g') (ast_new_node_ternary_op (operator_word o) p q)
  new_expr (Ast.special_cast t code e) n h = broken
