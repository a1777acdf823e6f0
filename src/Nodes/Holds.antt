-- ===== src/Nodes/Holds.antt =====
-- src/parser.h: a heap that holds a tree, with the blocks of the tree in the order in which they are freed.
use phantomshell.Base.{ℕ, ◌≡◌, refl, true, false, some, List, [], ◌∷◌, ◌++◌, ◌==◌}
use phantomshell.Operator.{Operator, operator_word}
use phantomshell.Ast.{
  Expr, Stat, Body, Stats, Choices, DeclVar, DeclFunc, type_bool, type_int, type_float, type_char,
}
use phantomshell.Ast
use phantomshell.Nodes.{
  Ptr, null, Cell, text, literal, literal_string, ident, group, unary_op, binary_op, ternary_op,
  special_cast, scope, stat_list, stat_expr, stat_ret, stat_if, stat_switch, stat_while,
  stat_switch_choice, Heap, next_stat,
}
use phantomshell.Nodes.Blocks.{has, has_last, has_right, Apart}

-- The tree of an expression at a pointer.
pub data HoldsExpr (h : Heap) : Ptr → Expr → List Ptr → Type 0 where
  holds_bool :
      {p : Ptr} (b : ℕ)
      → h p ≡ some (literal type_bool b)
      → HoldsExpr h p (Ast.literal_bool b) (p ∷ [])
  holds_int :
      {p : Ptr} (n : ℕ)
      → h p ≡ some (literal type_int n)
      → HoldsExpr h p (Ast.literal_int n) (p ∷ [])
  holds_float :
      {p : Ptr} (x : ℕ)
      → h p ≡ some (literal type_float x)
      → HoldsExpr h p (Ast.literal_float x) (p ∷ [])
  holds_char :
      {p : Ptr} (c : ℕ)
      → h p ≡ some (literal type_char c)
      → HoldsExpr h p (Ast.literal_char c) (p ∷ [])
  holds_string :
      {p v : Ptr} (s : List ℕ)
      → h p ≡ some (literal_string v)
      → h v ≡ some (text s)
      → (p == v) ≡ false
      → HoldsExpr h p (Ast.literal_string s) (v ∷ p ∷ [])
  holds_ident :
      {p v : Ptr} (t : ℕ) (s : List ℕ)
      → h p ≡ some (ident t v)
      → h v ≡ some (text s)
      → (p == v) ≡ false
      → HoldsExpr h p (Ast.ident t s) (v ∷ p ∷ [])
  holds_group :
      {p q : Ptr} {xs : List Ptr} (t : ℕ) (e : Expr)
      → h p ≡ some (group t q)
      → HoldsExpr h q e xs
      → has p xs ≡ false
      → HoldsExpr h p (Ast.group t e) (xs ++ (p ∷ []))
  holds_unary :
      {p q : Ptr} {xs : List Ptr} (t : ℕ) (o : Operator) (e : Expr)
      → h p ≡ some (unary_op t (operator_word o) q)
      → HoldsExpr h q e xs
      → has p xs ≡ false
      → HoldsExpr h p (Ast.unary_op t o e) (xs ++ (p ∷ []))
  holds_cast :
      {p q : Ptr} {xs : List Ptr} (t code : ℕ) (e : Expr)
      → h p ≡ some (special_cast t code q)
      → HoldsExpr h q e xs
      → has p xs ≡ false
      → HoldsExpr h p (Ast.special_cast t code e) (xs ++ (p ∷ []))
  holds_binary :
      {p q r : Ptr} {xs ys : List Ptr} (t : ℕ) (o : Operator) (e f : Expr)
      → h p ≡ some (binary_op t (operator_word o) q r)
      → HoldsExpr h q e xs
      → HoldsExpr h r f ys
      → Apart xs ys
      → has p (xs ++ ys) ≡ false
      → HoldsExpr h p (Ast.binary_op t o e f) (xs ++ (ys ++ (p ∷ [])))
  holds_ternary :
      {p q r s : Ptr} {xs ys zs : List Ptr} (t : ℕ) (o : Operator) (e f g : Expr)
      → h p ≡ some (ternary_op t (operator_word o) q r s)
      → HoldsExpr h q e xs
      → HoldsExpr h r f ys
      → HoldsExpr h s g zs
      → Apart xs (ys ++ zs)
      → Apart ys zs
      → has p (xs ++ (ys ++ zs)) ≡ false
      → HoldsExpr h p (Ast.ternary_op t o e f g) (xs ++ (ys ++ (zs ++ (p ∷ []))))

-- The tree of a statement whose `next` is known, a scope, the linked statements from one on, and the
-- choices of a switch.
mutual
  pub data HoldsStat (h : Heap) : Ptr → Ptr → Stat → List Ptr → Type 0 where
    holds_stat_expr :
        {p next q : Ptr} {xs : List Ptr} (e : Expr)
        → h p ≡ some (stat_expr next q)
        → HoldsExpr h q e xs
        → has p xs ≡ false
        → HoldsStat h p next (Ast.stat_expr e) (xs ++ (p ∷ []))
    holds_stat_ret :
        {p next q : Ptr} {xs : List Ptr} (e : Expr)
        → h p ≡ some (stat_ret next q)
        → HoldsExpr h q e xs
        → has p xs ≡ false
        → HoldsStat h p next (Ast.stat_ret e) (xs ++ (p ∷ []))
    holds_if :
        {p next q r : Ptr} {xs ys : List Ptr} (e : Expr) (t : Stats)
        → h p ≡ some (stat_if next q r null)
        → HoldsExpr h q e xs
        → HoldsScope h r t ys
        → Apart xs ys
        → has p (xs ++ ys) ≡ false
        → HoldsStat h p next (Ast.stat_if e (Ast.scope t) Ast.null_scope) (xs ++ (ys ++ (p ∷ [])))
    holds_if_else :
        {p next q r s : Ptr} {xs ys zs : List Ptr} (e : Expr) (t f : Stats)
        → h p ≡ some (stat_if next q r s)
        → HoldsExpr h q e xs
        → HoldsScope h r t ys
        → HoldsScope h s f zs
        → Apart xs (ys ++ zs)
        → Apart ys zs
        → has p (xs ++ (ys ++ zs)) ≡ false
        → HoldsStat h p next
            (Ast.stat_if e (Ast.scope t) (Ast.scope f))
            (xs ++ (ys ++ (zs ++ (p ∷ []))))
    holds_switch :
        {p next q r : Ptr} {xs ys : List Ptr} (e : Expr) (choices : Choices)
        → h p ≡ some (stat_switch next q r)
        → HoldsExpr h q e xs
        → HoldsChoices h r choices ys
        → Apart xs ys
        → has p (xs ++ ys) ≡ false
        → HoldsStat h p next (Ast.stat_switch e choices) (xs ++ (ys ++ (p ∷ [])))
    holds_while :
        {p next q r : Ptr} {xs ys : List Ptr} (e : Expr) (b : Stats)
        → h p ≡ some (stat_while next q r)
        → HoldsExpr h q e xs
        → HoldsScope h r b ys
        → Apart xs ys
        → has p (xs ++ ys) ≡ false
        → HoldsStat h p next (Ast.stat_while e (Ast.scope b)) (xs ++ (ys ++ (p ∷ [])))

  pub data HoldsScope (h : Heap) : Ptr → Stats → List Ptr → Type 0 where
    holds_scope :
        {p list first last : Ptr} {xs : List Ptr} (size : ℕ) (stats : Stats)
        → h p ≡ some (scope list)
        → h list ≡ some (stat_list size first last)
        → HoldsStats h first stats xs
        → has list xs ≡ false
        → has p (xs ++ (list ∷ [])) ≡ false
        → HoldsScope h p stats ((xs ++ (list ∷ [])) ++ (p ∷ []))

  pub data HoldsStats (h : Heap) : Ptr → Stats → List Ptr → Type 0 where
    holds_end : HoldsStats h null Ast.stats_end []
    holds_link :
        {p next : Ptr} {xs ys : List Ptr} (stat : Stat) (rest : Stats)
        → HoldsStat h p next stat xs
        → HoldsStats h next rest ys
        → Apart xs ys
        → HoldsStats h p (Ast.stats_link stat rest) (xs ++ ys)

  pub data HoldsChoices (h : Heap) : Ptr → Choices → List Ptr → Type 0 where
    holds_none : HoldsChoices h null Ast.choices_end []
    holds_case :
        {p q r next : Ptr} {xs ys zs : List Ptr} (e : Expr) (b : Stats) (rest : Choices)
        → h p ≡ some (stat_switch_choice q r next)
        → HoldsExpr h q e xs
        → HoldsScope h r b ys
        → HoldsChoices h next rest zs
        → Apart xs ys
        → has p (xs ++ ys) ≡ false
        → Apart (xs ++ (ys ++ (p ∷ []))) zs
        → HoldsChoices h p (Ast.case e (Ast.scope b) rest) ((xs ++ (ys ++ (p ∷ []))) ++ zs)
    holds_other :
        {p r next : Ptr} {ys zs : List Ptr} (b : Stats) (rest : Choices)
        → h p ≡ some (stat_switch_choice null r next)
        → HoldsScope h r b ys
        → HoldsChoices h next rest zs
        → has p ys ≡ false
        → Apart (ys ++ (p ∷ [])) zs
        → HoldsChoices h p (Ast.other (Ast.scope b) rest) ((ys ++ (p ∷ [])) ++ zs)

-- A statement's own block, its `next`, and where it stands in the list.
pub stat_cell :
    {h : Heap} {p next : Ptr} {s : Stat} {xs : List Ptr}
    → HoldsStat h p next s xs
    → (c : Cell) × (h p ≡ some c) × (next_stat c ≡ some next) × (has p xs ≡ true)
stat_cell {p = p} (holds_stat_expr {xs = xs} e cell held out) = (_, cell, refl, has_last p xs)
stat_cell {p = p} (holds_stat_ret {xs = xs} e cell held out) = (_, cell, refl, has_last p xs)
stat_cell {p = p} (holds_if {xs = xs} {ys = ys} e t cell held held_t apart out) =
    (_, cell, refl, has_right p xs (ys ++ (p ∷ [])) (has_last p ys))
stat_cell {p = p}
      (holds_if_else {xs = xs} {ys = ys} {zs = zs} e t f cell held held_t held_f apart apart' out) =
    (
      _,
      cell,
      refl,
      has_right p xs (ys ++ (zs ++ (p ∷ []))) (has_right p ys (zs ++ (p ∷ [])) (has_last p zs)),
    )
stat_cell {p = p} (holds_switch {xs = xs} {ys = ys} e choices cell held rest apart out) =
    (_, cell, refl, has_right p xs (ys ++ (p ∷ [])) (has_last p ys))
stat_cell {p = p} (holds_while {xs = xs} {ys = ys} e b cell held held_b apart out) =
    (_, cell, refl, has_right p xs (ys ++ (p ∷ [])) (has_last p ys))

pub expr_cell :
    {h : Heap} {p : Ptr} {e : Expr} {xs : List Ptr}
    → HoldsExpr h p e xs
    → (c : Cell) × (h p ≡ some c)
expr_cell (holds_bool b cell) = (_, cell)
expr_cell (holds_int n cell) = (_, cell)
expr_cell (holds_float x cell) = (_, cell)
expr_cell (holds_char c cell) = (_, cell)
expr_cell (holds_string s cell value out) = (_, cell)
expr_cell (holds_ident t s cell value out) = (_, cell)
expr_cell (holds_group t e cell held out) = (_, cell)
expr_cell (holds_unary t o e cell held out) = (_, cell)
expr_cell (holds_cast t code e cell held out) = (_, cell)
expr_cell (holds_binary t o e f cell held held' apart out) = (_, cell)
expr_cell (holds_ternary t o e f g cell held held' held'' apart apart' out) = (_, cell)
