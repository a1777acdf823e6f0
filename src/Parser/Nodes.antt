-- ===== src/Parser/Nodes.antt =====
-- src/parser.c: the constructors of expressions, in a build that prints each new node. The print of an
-- operator of three operands frees the nodes of its operands.
use phantomshell.Base.{ℕ, none, some, List, [], ◌∷◌, ◌++◌}
use phantomshell.Operator.{Operator}
use phantomshell.Ast.{
  Expr, literal_bool, literal_int, literal_float, literal_char, literal_string, ident, group,
  unary_op, binary_op, ternary_op, special_cast, type_unknown,
}
use phantomshell.Printer.{expr_to_string}

-- What a constructor returns: a node with its tree; a node in whose tree some operands have been freed; or
-- no node, since something undefined was done, a print past the end of its buffer or a read of a
-- freed node.
pub data Traced : Type 0 where
  intact dangling : Expr → Traced
  undefined : Traced

-- The nodes that the print of an expression has freed in the end.
unfoldable pub freed_operands : Expr → List Expr
freed_operands (group t e) = freed_operands e
freed_operands (unary_op t o e) = freed_operands e
freed_operands (binary_op t o l r) = freed_operands l ++ freed_operands r
freed_operands (ternary_op t o a b c) =
    freed_operands a ++ (freed_operands b ++ (freed_operands c ++ (a ∷ b ∷ c ∷ [])))
freed_operands _ = []

abbrev pub printed : Expr → List Expr → Traced
printed e [] = intact e
printed e (freed ∷ more) = dangling e

-- The next constructor prints its node, and with it this one; after a free, that reads freed nodes.
abbrev pub with_node : Traced → (Expr → Traced) → Traced
with_node (intact e) f = f e
with_node (dangling e) f = undefined
with_node undefined f = undefined

module _ (show_float : ℕ → List ℕ) where
  -- `TRACE_AND_FREE(ast_node_to_string(node))`, and the node.
  unfoldable pub traced : Expr → Traced
  unfolding expr_to_string freed_operands
  traced e = elim (expr_to_string show_float e) [
    | none ↦ undefined
    | some s ↦ printed e (freed_operands e)
  ]

  unfoldable pub ast_new_node_group : Expr → Traced
  unfolding traced
  ast_new_node_group e = traced (group type_unknown e)

  unfoldable pub ast_new_node_ident : List ℕ → Traced
  unfolding traced
  ast_new_node_ident value = traced (ident type_unknown value)

  unfoldable pub ast_new_node_literal_bool : ℕ → Traced
  unfolding traced
  ast_new_node_literal_bool value = traced (literal_bool value)

  unfoldable pub ast_new_node_literal_int : ℕ → Traced
  unfolding traced
  ast_new_node_literal_int value = traced (literal_int value)

  unfoldable pub ast_new_node_literal_float : ℕ → Traced
  unfolding traced
  ast_new_node_literal_float value = traced (literal_float value)

  unfoldable pub ast_new_node_literal_char : ℕ → Traced
  unfolding traced
  ast_new_node_literal_char value = traced (literal_char value)

  unfoldable pub ast_new_node_literal_string : List ℕ → Traced
  unfolding traced
  ast_new_node_literal_string value = traced (literal_string value)

  unfoldable pub ast_new_node_unary_op : Operator → Expr → Traced
  unfolding traced
  ast_new_node_unary_op operator operand = traced (unary_op type_unknown operator operand)

  unfoldable pub ast_new_node_binary_op : Operator → Expr → Expr → Traced
  unfolding traced
  ast_new_node_binary_op operator left right = traced (binary_op type_unknown operator left right)

  unfoldable pub ast_new_node_ternary_op : Operator → Expr → Expr → Expr → Traced
  unfolding traced
  ast_new_node_ternary_op operator op1 op2 op3 =
      traced (ternary_op type_unknown operator op1 op2 op3)

  -- The constructors in the order in which the parser calls them for the text of an expression.
  unfoldable pub build : Expr → Traced
  unfolding ast_new_node_group ast_new_node_ident ast_new_node_literal_bool ast_new_node_literal_int
      ast_new_node_literal_float ast_new_node_literal_char ast_new_node_literal_string
      ast_new_node_unary_op ast_new_node_binary_op ast_new_node_ternary_op
  build (literal_bool b) = ast_new_node_literal_bool b
  build (literal_int n) = ast_new_node_literal_int n
  build (literal_float x) = ast_new_node_literal_float x
  build (literal_char c) = ast_new_node_literal_char c
  build (literal_string s) = ast_new_node_literal_string s
  build (ident t value) = ast_new_node_ident value
  build (group t e) = with_node (build e) ast_new_node_group
  build (unary_op t o e) = with_node (build e) (ast_new_node_unary_op o)
  build (binary_op t o l r) =
      with_node (build l) λ l'. with_node (build r) (ast_new_node_binary_op o l')
  build (ternary_op t o a b c) =
      with_node (build a)
        λ a'. with_node (build b) λ b'. with_node (build c) (ast_new_node_ternary_op o a' b')
  build (special_cast t opcode e) = undefined
