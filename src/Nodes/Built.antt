-- ===== src/Nodes/Built.antt =====
-- src/parser.c: the constructors of expressions leave their tree on the heap: nodes of no or one part.
use phantomshell.Base.{
  ℕ, suc, ◌≡◌, refl, ◌∙◌, true, false, some, List, [], ◌∷◌, ◌++◌, ◌==◌, arith, Bool-cases, inl, inr,
}
use phantomshell.Operator.{Operator, operator_word}
use phantomshell.Ast.{Expr, IsParsed, type_bool, type_int, type_float, type_char, type_unknown}
use phantomshell.Ast
use phantomshell.Nodes.{Ptr, Cell, text, literal_string, ident, group, unary_op, Heap, write}
use phantomshell.Nodes.Blocks.{has, Apart, Agrees}
use phantomshell.Nodes.Holds.{
  HoldsExpr, holds_bool, holds_int, holds_float, holds_char, holds_string, holds_ident, holds_group,
  holds_unary, holds_binary, holds_ternary, holds_cast,
}
use phantomshell.Nodes.Frees.{out_left, out_right}
use phantomshell.Nodes.Same.{same_expr}
use phantomshell.Nodes.Renext.{Agrees-write, write_here}
use phantomshell.Nodes.Linked.{write_other}
use phantomshell.Nodes.Build.{
  made, New, node_upcast_expr, new_node, new_text, new_expr, ast_new_node_group,
  ast_new_node_unary_op, ast_new_node_literal_string, ast_new_node_ident,
}
use phantomshell.Nodes.Used.{after, used, used-Between, one-Between, ahead_out}

pub swap-Apart : (xs ys : List Ptr) → Apart xs ys → Apart ys xs
swap-Apart xs ys apart a mem = elim (Bool-cases (has a ys)) [
  | inl i ↦ let clash = apart a i in cc
  | inr o ↦ o
]

-- Nothing but the blocks of a list has changed.
abbrev pub OnlyAt : List Ptr → Heap → Heap → Type 0
OnlyAt xs h g = (a : Ptr) → has a xs ≡ false → g a ≡ h a

pub only-Agrees : (h g : Heap) (xs ys : List Ptr) → OnlyAt ys h g → Apart xs ys → Agrees xs h g
only-Agrees h g xs ys only apart a mem = only a (swap-Apart xs ys apart a mem)

pub only_both :
    (h g k : Heap) (xs ys : List Ptr) → OnlyAt xs h g → OnlyAt ys g k → OnlyAt (xs ++ ys) h k
only_both h g k xs ys first second a out =
    second a (out_right a xs ys out) ∙ first a (out_left a xs ys out)

pub upcast_held :
    (p n : ℕ) (h : Heap) (e : Expr) (xs : List Ptr) (f : Ptr → New)
    → HoldsExpr h p e xs
    → node_upcast_expr p f n h ≡ f p n h
unfolding node_upcast_expr
upcast_held p n h e xs f (holds_bool b cell) = rw (cell, node_upcast_expr) refl
upcast_held p n h e xs f (holds_int v cell) = rw (cell, node_upcast_expr) refl
upcast_held p n h e xs f (holds_float x cell) = rw (cell, node_upcast_expr) refl
upcast_held p n h e xs f (holds_char c cell) = rw (cell, node_upcast_expr) refl
upcast_held p n h e xs f (holds_string s cell value out) = rw (cell, node_upcast_expr) refl
upcast_held p n h e xs f (holds_ident t s cell value out) = rw (cell, node_upcast_expr) refl
upcast_held p n h e xs f (holds_group t inner cell held out) = rw (cell, node_upcast_expr) refl
upcast_held p n h e xs f (holds_unary t o inner cell held out) = rw (cell, node_upcast_expr) refl
upcast_held p n h e xs f (holds_cast t code inner cell held out) = rw (cell, node_upcast_expr) refl
upcast_held p n h e xs f (holds_binary t o l r cell held held' apart out) =
    rw (cell, node_upcast_expr) refl
upcast_held p n h e xs f (holds_ternary t o a b c cell h1 h2 h3 apart apart' out) =
    rw (cell, node_upcast_expr) refl

module _ (malloc : ℕ → Ptr) (distinct : (i j : ℕ) → (malloc i == malloc j) ≡ true → i ≡ j) where
  -- What the constructors of an expression leave.
  abbrev pub Builds : ℕ → Heap → Expr → Type 0
  Builds n h e =
      (p : Ptr) × (g : Heap) × (new_expr malloc e n h ≡ made p (after n e) g)
      × HoldsExpr g p e (used malloc n e)
      × OnlyAt (used malloc n e) h g

  pub only_one :
      (n : ℕ) (h : Heap) (c : Cell) → OnlyAt (malloc n ∷ []) h (write (malloc n) (some c) h)
  only_one n h c a out = write_other h (malloc n) a c (ground arith)

  -- A node behind the parts that it points at.
  pub only_then :
      (n : ℕ) (h g : Heap) (c : Cell) (xs : List Ptr)
      → OnlyAt xs h g
      → OnlyAt (xs ++ (malloc n ∷ [])) h (write (malloc n) (some c) g)
  only_then n h g c xs only a out =
      only_one n g c a (out_right a xs (malloc n ∷ []) out)
      ∙ only a (out_left a xs (malloc n ∷ []) out)

  pub kept :
      (n : ℕ) (g : Heap) (p : Ptr) (e : Expr) (c : Cell) (xs : List Ptr)
      → HoldsExpr g p e xs
      → has (malloc n) xs ≡ false
      → HoldsExpr (write (malloc n) (some c) g) p e xs
  kept n g p e c xs held out =
      same_expr g (write (malloc n) (some c) g) p e xs held (Agrees-write g (malloc n) c xs out)

  -- A text, and the node that has it as its value.
  text_only :
      (n : ℕ) (h : Heap) (s : List ℕ) (c : Cell)
      → OnlyAt
          (malloc n ∷ malloc (suc n) ∷ [])
          h
          (write (malloc (suc n)) (some c) (write (malloc n) (some (text s)) h))
  text_only n h s c =
      only_then (suc n) h (write (malloc n) (some (text s)) h) c (malloc n ∷ [])
        (only_one n h (text s))

  apart_next : (n : ℕ) → (malloc (suc n) == malloc n) ≡ false
  apart_next n =
      let out =
        ahead_out malloc distinct n (suc n) (suc n) (malloc n ∷ []) (omega arith)
          (one-Between malloc n) in
      ground arith

  value_kept :
      (n : ℕ) (h : Heap) (s : List ℕ) (c : Cell)
      → write (malloc (suc n)) (some c) (write (malloc n) (some (text s)) h) (malloc n)
        ≡ some (text s)
  value_kept n h s c =
      let other = apart_next n in
      write_other (write (malloc n) (some (text s)) h) (malloc (suc n)) (malloc n) c (ground arith)
      ∙ write_here h (malloc n) (text s)

  pub string_built : (n : ℕ) (h : Heap) (s : List ℕ) → Builds n h (Ast.literal_string s)
  unfolding new_expr after used new_text ast_new_node_literal_string new_node
  string_built n h s =
      let c = literal_string (malloc n) in
      let g = write (malloc n) (some (text s)) h in
      (
        malloc (suc n),
        write (malloc (suc n)) (some c) g,
        refl,
        holds_string s (write_here g (malloc (suc n)) c) (value_kept n h s c) (apart_next n),
        text_only n h s c,
      )

  pub ident_built : (n : ℕ) (h : Heap) (s : List ℕ) → Builds n h (Ast.ident type_unknown s)
  unfolding new_expr after used new_text ast_new_node_ident new_node
  ident_built n h s =
      let c = ident type_unknown (malloc n) in
      let g = write (malloc n) (some (text s)) h in
      (
        malloc (suc n),
        write (malloc (suc n)) (some c) g,
        refl,
        holds_ident type_unknown s (write_here g (malloc (suc n)) c) (value_kept n h s c)
            (apart_next n),
        text_only n h s c,
      )

  pub group_built :
      (n : ℕ) (h : Heap) (e : Expr) → Builds n h e → Builds n h (Ast.group type_unknown e)
  unfolding new_expr after used ast_new_node_group new_node
  group_built n h e (p, g, made_e, held, only) =
      let m = after n e in
      let xs = used malloc n e in
      let c = group type_unknown p in
      let out = ahead_out malloc distinct n m m xs (omega arith) (used-Between malloc n e) in
      (
        malloc m,
        write (malloc m) (some c) g,
        rw made_e (upcast_held p m g e xs (λ q. new_node malloc (group type_unknown q)) held),
        holds_group type_unknown e (write_here g (malloc m) c) (kept m g p e c xs held out) out,
        only_then m h g c xs only,
      )

  pub unary_built :
      (n : ℕ) (h : Heap) (o : Operator) (e : Expr)
      → Builds n h e
      → Builds n h (Ast.unary_op type_unknown o e)
  unfolding new_expr after used ast_new_node_unary_op new_node
  unary_built n h o e (p, g, made_e, held, only) =
      let m = after n e in
      let xs = used malloc n e in
      let node = λ (q : Ptr). unary_op type_unknown (operator_word o) q in
      let c = node p in
      let out = ahead_out malloc distinct n m m xs (omega arith) (used-Between malloc n e) in
      (
        malloc m,
        write (malloc m) (some c) g,
        rw made_e (upcast_held p m g e xs (λ q. new_node malloc (node q)) held),
        holds_unary type_unknown o e (write_here g (malloc m) c) (kept m g p e c xs held out) out,
        only_then m h g c xs only,
      )
