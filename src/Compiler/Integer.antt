-- ===== src/Compiler/Integer.antt =====
-- src/compiler_expr.c: the integer expressions, those made of literals, parentheses and the binary
-- operators that have an integer opcode; their trees before and after types have been filled in; what
-- they mean, and the code that stands for them.
use phantomshell.Base.{ℕ, suc, ◌+◌, ◌%◌, ◌^◌, List, [], ◌∷◌, ◌++◌, ltb, if◌then◌else◌}
use phantomshell.Operator.{Operator}
use phantomshell.Ast.{Expr, literal_int, group, binary_op}
use phantomshell.Vm.{Run, ok, ◌>>=◌}
use phantomshell.Vm.Opcodes.{
  Handler, opcode, iconst, iadd, isub, imul, idiv, ieq, ineq, ilt, ingt, igt, inlt,
}
use phantomshell.Vm.Handlers.{
  int_add, int_sub, int_mul, int_div, int_eq, int_ne, int_lt, int_le, int_gt, int_ge,
}
use phantomshell.Compiler.Expr.{be32}

pub data IntOp : Type 0 where
  add sub mul div eq ne lt le gt ge : IntOp

pub data IntExpr : Type 0 where
  lit : ℕ → IntExpr
  paren : IntExpr → IntExpr
  op : IntOp → IntExpr → IntExpr → IntExpr

unfoldable pub operator : IntOp → Operator
operator add = Operator.addition
operator sub = Operator.subtraction
operator mul = Operator.multiplication
operator div = Operator.division
operator eq = Operator.equal_to
operator ne = Operator.not_equal_to
operator lt = Operator.less_than
operator le = Operator.not_greater_than
operator gt = Operator.greater_than
operator ge = Operator.not_less_than

unfoldable pub handler : IntOp → Handler
handler add = iadd
handler sub = isub
handler mul = imul
handler div = idiv
handler eq = ieq
handler ne = ineq
handler lt = ilt
handler le = ingt
handler gt = igt
handler ge = inlt

unfoldable pub meaning : IntOp → ℕ → ℕ → Run ℕ
meaning add = int_add
meaning sub = int_sub
meaning mul = int_mul
meaning div = int_div
meaning eq = int_eq
meaning ne = int_ne
meaning lt = int_lt
meaning le = int_le
meaning gt = int_gt
meaning ge = int_ge

-- The tree with this type at each node that has one.
unfoldable pub tree : ℕ → IntExpr → Expr
unfolding operator
tree t (lit n) = literal_int n
tree t (paren e) = group t (tree t e)
tree t (op o l r) = binary_op t (operator o) (tree t l) (tree t r)

-- The value, as the word that an `int32_t` has; the operands from left to right.
unfoldable pub eval : IntExpr → Run ℕ
unfolding meaning
eval (lit n) = ok (n % 2 ^ 32)
eval (paren e) = eval e
eval (op o l r) = eval l >>= λ a. eval r >>= λ b. meaning o a b

unfoldable pub code_of : IntExpr → List ℕ
unfolding opcode be32 handler
code_of (lit n) = opcode iconst ∷ be32 n
code_of (paren e) = code_of e
code_of (op o l r) = code_of l ++ (code_of r ++ (opcode (handler o) ∷ []))

-- The nodes, which bound the height; the instructions; the words of stack that the code needs.
unfoldable pub nodes : IntExpr → ℕ
nodes (lit n) = 1
nodes (paren e) = suc (nodes e)
nodes (op o l r) = suc (nodes l + nodes r)

unfoldable pub steps : IntExpr → ℕ
steps (lit n) = 1
steps (paren e) = steps e
steps (op o l r) = steps l + (steps r + 1)

unfoldable pub depth : IntExpr → ℕ
depth (lit n) = 1
depth (paren e) = depth e
depth (op o l r) = if ltb (depth l) (1 + depth r) then 1 + depth r else depth l
