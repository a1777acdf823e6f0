-- ===== src/Nodes/BuiltExpr.antt =====
-- src/parser.c: the constructors of expressions leave their tree on the heap: nodes of two and three parts, and
-- whole expressions.
use phantomshell.Base.{ℕ, ◌≡◌, refl, ◌∙◌, true, some, [], ◌∷◌, ◌++◌, ◌==◌, arith}
use phantomshell.Operator.{Operator, operator_word}
use phantomshell.Ast.{Expr, IsParsed, type_bool, type_int, type_float, type_char, type_unknown}
use phantomshell.Ast
use phantomshell.Nodes.{Ptr, literal, binary_op, ternary_op, Heap, write}
use phantomshell.Nodes.Blocks.{has-append}
use phantomshell.Nodes.Holds.{
  holds_bool, holds_int, holds_float, holds_char, holds_binary, holds_ternary,
}
use phantomshell.Nodes.Frees.{out_left, out_right}
use phantomshell.Nodes.Same.{same_expr}
use phantomshell.Nodes.Renext.{write_here}
use phantomshell.Nodes.Build.{
  node_upcast_expr, new_node, new_expr, ast_new_node_binary_op, ast_new_node_ternary_op,
}
use phantomshell.Nodes.Used.{after, used, used-Between, append-Between, ahead-Apart, ahead_out}
use phantomshell.Nodes.Built.{
  only-Agrees, only_both, upcast_held, Builds, only_one, only_then, kept, string_built, ident_built,
  group_built, unary_built,
}

module _ (malloc : ℕ → Ptr) (distinct : (i j : ℕ) → (malloc i == malloc j) ≡ true → i ≡ j) where
  binary_built :
      (n : ℕ) (h : Heap) (o : Operator) (l r : Expr)
      → Builds malloc distinct n h l
      → ((g : Heap) → Builds malloc distinct (after n l) g r)
      → Builds malloc distinct n h (Ast.binary_op type_unknown o l r)
  unfolding new_expr after used ast_new_node_binary_op new_node
  binary_built n h o l r (p, g, made_l, held_l, only_l) then_r =
      let m = after n l in
      let (q, k, made_r, held_r, only_r) = then_r g in
      let i = after m r in
      let xs = used malloc n l in
      let ys = used malloc m r in
      let c = binary_op type_unknown (operator_word o) p q in
      let before = used-Between malloc n l in
      let behind = used-Between malloc m r in
      let apart = ahead-Apart malloc distinct n m m i xs ys (omega arith) before behind in
      let out_xs = ahead_out malloc distinct n m i xs (omega (arith, behind.0)) before in
      let out_ys = ahead_out malloc distinct m i i ys (omega arith) behind in
      let held = same_expr g k p l xs held_l (only-Agrees g k xs ys only_r apart) in
      let node = λ (a b : Ptr). new_node malloc (binary_op type_unknown (operator_word o) a b) in
      (
        malloc i,
        write (malloc i) (some c) k,
        rw made_l (
            rw made_r (
              upcast_held p i k l xs (λ a. node_upcast_expr q (node a)) held
              ∙ upcast_held q i k r ys (node p) held_r)),
        holds_binary type_unknown o l r (write_here k (malloc i) c)
            (kept malloc distinct i k p l c xs held out_xs)
            (kept malloc distinct i k q r c ys held_r out_ys) apart
            (ground (arith, has-append (malloc i) xs ys)),
        only_both h g (write (malloc i) (some c) k) xs (ys ++ (malloc i ∷ [])) only_l
            (only_then malloc distinct i g k c ys only_r),
      )

  ternary_built :
      (n : ℕ) (h : Heap) (o : Operator) (a b d : Expr)
      → Builds malloc distinct n h a
      → ((g : Heap) → Builds malloc distinct (after n a) g b)
      → ((g : Heap) → Builds malloc distinct (after (after n a) b) g d)
      → Builds malloc distinct n h (Ast.ternary_op type_unknown o a b d)
  unfolding new_expr after used ast_new_node_ternary_op new_node
  ternary_built n h o a b d (p, g, made_a, held_a, only_a) then_b then_d =
      let m = after n a in
      let (q, k, made_b, held_b, only_b) = then_b g in
      let j = after m b in
      let (r, k', made_d, held_d, only_d) = then_d k in
      let i = after j d in
      let xs = used malloc n a in
      let ys = used malloc m b in
      let zs = used malloc j d in
      let c = ternary_op type_unknown (operator_word o) p q r in
      let of_a = used-Between malloc n a in
      let of_b = used-Between malloc m b in
      let of_d = used-Between malloc j d in
      let of_rest = append-Between malloc m j i ys zs of_b of_d in
      let apart = ahead-Apart malloc distinct n m m i xs (ys ++ zs) (omega arith) of_a of_rest in
      let apart' = ahead-Apart malloc distinct m j j i ys zs (omega arith) of_b of_d in
      let out =
        ahead_out malloc distinct n i i (xs ++ (ys ++ zs)) (omega arith)
          (append-Between malloc n m i xs (ys ++ zs) of_a of_rest) in
      let out_xs = out_left (malloc i) xs (ys ++ zs) out in
      let out_rest = out_right (malloc i) xs (ys ++ zs) out in
      let only_rest = only_both g k k' ys zs only_b only_d in
      let held = same_expr g k' p a xs held_a (only-Agrees g k' xs (ys ++ zs) only_rest apart) in
      let held' = same_expr k k' q b ys held_b (only-Agrees k k' ys zs only_d apart') in
      let node =
        λ (x y z : Ptr). new_node malloc (ternary_op type_unknown (operator_word o) x y z) in
      (
        malloc i,
        write (malloc i) (some c) k',
        rw made_a (
            rw made_b (
              rw made_d (
                upcast_held p i k' a xs (λ x. node_upcast_expr q λ y. node_upcast_expr r (node x y))
                  held
                ∙ upcast_held q i k' b ys (λ y. node_upcast_expr r (node p y)) held'
                ∙ upcast_held r i k' d zs (node p q) held_d))),
        holds_ternary type_unknown o a b d (write_here k' (malloc i) c)
            (kept malloc distinct i k' p a c xs held out_xs)
            (kept malloc distinct i k' q b c ys held' (out_left (malloc i) ys zs out_rest))
            (kept malloc distinct i k' r d c zs held_d (out_right (malloc i) ys zs out_rest)) apart
            apart' out,
        only_both h g (write (malloc i) (some c) k') xs (ys ++ (zs ++ (malloc i ∷ []))) only_a (
            only_both g k (write (malloc i) (some c) k') ys (zs ++ (malloc i ∷ [])) only_b
              (only_then malloc distinct i k k' c zs only_d)),
      )

  pub expr_built : (n : ℕ) (h : Heap) (e : Expr) → IsParsed e → Builds malloc distinct n h e
  unfolding new_expr after used
  expr_built n h (Ast.literal_bool b) parsed =
      let c = literal type_bool b in
      (
        malloc n,
        write (malloc n) (some c) h,
        refl,
        holds_bool b (write_here h (malloc n) c),
        only_one malloc distinct n h c,
      )
  expr_built n h (Ast.literal_int v) parsed =
      let c = literal type_int v in
      (
        malloc n,
        write (malloc n) (some c) h,
        refl,
        holds_int v (write_here h (malloc n) c),
        only_one malloc distinct n h c,
      )
  expr_built n h (Ast.literal_float x) parsed =
      let c = literal type_float x in
      (
        malloc n,
        write (malloc n) (some c) h,
        refl,
        holds_float x (write_here h (malloc n) c),
        only_one malloc distinct n h c,
      )
  expr_built n h (Ast.literal_char x) parsed =
      let c = literal type_char x in
      (
        malloc n,
        write (malloc n) (some c) h,
        refl,
        holds_char x (write_here h (malloc n) c),
        only_one malloc distinct n h c,
      )
  expr_built n h (Ast.literal_string s) parsed = string_built malloc distinct n h s
  expr_built n h (Ast.ident t s) parsed = rw parsed (ident_built malloc distinct n h s)
  expr_built n h (Ast.group t e) parsed =
      rw (parsed.0) (group_built malloc distinct n h e (expr_built n h e parsed.1))
  expr_built n h (Ast.unary_op t o e) parsed =
      rw (parsed.0) (unary_built malloc distinct n h o e (expr_built n h e parsed.1))
  expr_built n h (Ast.binary_op t o l r) parsed =
      rw (parsed.0) (
        binary_built n h o l r (expr_built n h l parsed.1) λ g. expr_built (after n l) g r parsed.2)
  expr_built n h (Ast.ternary_op t o a b d) parsed = rw (parsed.0) (
      ternary_built n h o a b d (expr_built n h a parsed.1)
        (λ g. expr_built (after n a) g b parsed.2)
        λ g. expr_built (after (after n a) b) g d parsed.3)
  expr_built n h (Ast.special_cast t code e) parsed = elim parsed [ ]
