-- ===== src/Nodes/FreedExpr.antt =====
-- src/parser.c: `ast_free_node` of expressions.
use phantomshell.Base.{
  ℕ, zero, suc, ◌+◌, ◌<◌, ◌≡◌, some, List, [], ◌∷◌, ◌++◌, arith, length, length-append,
}
use phantomshell.Ast.{Expr}
use phantomshell.Operator.{operator_word}
use phantomshell.Nodes.{
  Ptr, text, literal, literal_string, ident, group, unary_op, binary_op, ternary_op, special_cast,
  Heap, free,
}
use phantomshell.Nodes.Free.{ast_free_node}
use phantomshell.Nodes.Blocks.{has_last, has_right}
use phantomshell.Nodes.Holds.{
  HoldsExpr, holds_bool, holds_int, holds_float, holds_char, holds_string, holds_ident, holds_group,
  holds_unary, holds_cast, holds_binary, holds_ternary,
}
use phantomshell.Nodes.Frees.{
  Frees, free-Frees, load-Frees, then_free-Frees, then_both-Frees, then_three-Frees,
}

shorter : (n : ℕ) (xs ys : List Ptr) → length (xs ++ ys) < suc n → 0 < length ys → length xs < n
shorter n xs ys small some_ys = omega (arith, length-append xs ys)

literal_freed :
    (h : Heap) (n : ℕ) (p : Ptr) (t v : ℕ)
    → h p ≡ some (literal t v)
    → Frees h (p ∷ []) (ast_free_node (suc n) p)
unfolding ast_free_node
literal_freed h n p t v cell = load-Frees h p (literal t v) (p ∷ []) _ cell (ground arith) (
    load-Frees h p (literal t v) (p ∷ []) _ cell (ground arith) (free-Frees h p (literal t v) cell))

-- Every expression is freed, with fuel for its blocks and one more.
pub expr_freed :
    (h : Heap) (n : ℕ) (p : Ptr) (e : Expr) (xs : List Ptr)
    → HoldsExpr h p e xs
    → length xs < n
    → Frees h xs (ast_free_node n p)
unfolding ast_free_node
expr_freed h zero p e xs holds small = absurd (omega arith)
expr_freed h (suc n) p e xs (holds_bool b cell) small = literal_freed h n p _ b cell
expr_freed h (suc n) p e xs (holds_int k cell) small = literal_freed h n p _ k cell
expr_freed h (suc n) p e xs (holds_float x cell) small = literal_freed h n p _ x cell
expr_freed h (suc n) p e xs (holds_char k cell) small = literal_freed h n p _ k cell
expr_freed h (suc n) p e xs (holds_string {v = v} s cell value out) small =
    let c = literal_string v in
    load-Frees h p c (v ∷ p ∷ []) _ cell (ground arith) (
      load-Frees h p c (v ∷ p ∷ []) _ cell (ground arith) (
        then_free-Frees h p c (v ∷ []) (free v) cell (free-Frees h v (text s) value)
          (ground arith)))
expr_freed h (suc n) p e xs (holds_ident {v = v} t s cell value out) small =
    let c = ident t v in
    load-Frees h p c (v ∷ p ∷ []) _ cell (ground arith) (
      load-Frees h p c (v ∷ p ∷ []) _ cell (ground arith) (
        then_free-Frees h p c (v ∷ []) (free v) cell (free-Frees h v (text s) value)
          (ground arith)))
expr_freed h (suc n) p e xs (holds_group {q = q} {xs = ys} t inner cell held out) small =
    let c = group t q in
    load-Frees h p c (ys ++ (p ∷ [])) _ cell (has_last p ys) (
      load-Frees h p c (ys ++ (p ∷ [])) _ cell (has_last p ys) (
        then_free-Frees h p c ys (ast_free_node n q) cell
          (expr_freed h n q inner ys held (shorter n ys (p ∷ []) small (omega arith))) out))
expr_freed h (suc n) p e xs (holds_unary {q = q} {xs = ys} t o inner cell held out) small =
    let c = unary_op t (operator_word o) q in
    load-Frees h p c (ys ++ (p ∷ [])) _ cell (has_last p ys) (
      load-Frees h p c (ys ++ (p ∷ [])) _ cell (has_last p ys) (
        then_free-Frees h p c ys (ast_free_node n q) cell
          (expr_freed h n q inner ys held (shorter n ys (p ∷ []) small (omega arith))) out))
expr_freed h (suc n) p e xs (holds_cast {q = q} {xs = ys} t code inner cell held out) small =
    let c = special_cast t code q in
    load-Frees h p c (ys ++ (p ∷ [])) _ cell (has_last p ys) (
      load-Frees h p c (ys ++ (p ∷ [])) _ cell (has_last p ys) (
        then_free-Frees h p c ys (ast_free_node n q) cell
          (expr_freed h n q inner ys held (shorter n ys (p ∷ []) small (omega arith))) out))
expr_freed h (suc n) p e xs
      (holds_binary {q = q} {r = r} {xs = ys} {ys = zs} t o left right cell held_l held_r apart out)
      small =
    let c = binary_op t (operator_word o) q r in
    let all : List Ptr = ys ++ (zs ++ (p ∷ [])) in
    let mem = has_right p ys (zs ++ (p ∷ [])) (has_last p zs) in
    let sizes : length ys + (length zs + 1) < suc n =
      omega (arith, length-append ys (zs ++ (p ∷ [])), length-append zs (p ∷ [])) in
    load-Frees h p c all _ cell mem (
      load-Frees h p c all _ cell mem (
        then_both-Frees h p c ys zs (ast_free_node n q) (ast_free_node n r) cell
          (expr_freed h n q left ys held_l (omega arith))
          (expr_freed h n r right zs held_r (omega arith)) apart out))
expr_freed h (suc n) p e xs
      (holds_ternary {q = q} {r = r} {s = s} {xs = ys} {ys = zs} {zs = ws} t o op1 op2 op3 cell
        held_1 held_2 held_3 apart apart' out)
      small =
    let c = ternary_op t (operator_word o) q r s in
    let rest : List Ptr = zs ++ (ws ++ (p ∷ [])) in
    let mem = has_right p ys rest (has_right p zs (ws ++ (p ∷ [])) (has_last p ws)) in
    let sizes : length ys + (length zs + (length ws + 1)) < suc n = omega (
      arith,
      length-append ys rest,
      length-append zs (ws ++ (p ∷ [])),
      length-append ws (p ∷ []),
    ) in
    load-Frees h p c (ys ++ rest) _ cell mem (
      load-Frees h p c (ys ++ rest) _ cell mem (
        then_three-Frees h p c ys zs ws (ast_free_node n q) (ast_free_node n r) (ast_free_node n s)
          cell (expr_freed h n q op1 ys held_1 (omega arith))
          (expr_freed h n r op2 zs held_2 (omega arith))
          (expr_freed h n s op3 ws held_3 (omega arith)) apart apart' out))
