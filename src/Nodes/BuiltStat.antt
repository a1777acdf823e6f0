-- ===== src/Nodes/BuiltStat.antt =====
-- src/parser.c: the constructors of statements leave their tree on the heap, given what those of the parts
-- leave.
use phantomshell.Base.{ℕ, ◌≡◌, refl, ◌∙◌, true, false, none, some, List, [], ◌∷◌, ◌++◌, ◌==◌, arith}
use phantomshell.Ast.{Expr, Stat, Stats}
use phantomshell.Ast
use phantomshell.Nodes.{
  Ptr, null, Cell, scope, stat_expr, stat_ret, stat_if, stat_while, Heap, write,
}
use phantomshell.Nodes.Blocks.{has}
use phantomshell.Nodes.Holds.{
  HoldsStat, holds_stat_expr, holds_stat_ret, holds_if, holds_while, HoldsScope, holds_scope,
}
use phantomshell.Nodes.Frees.{out_left, out_right, unless_null}
use phantomshell.Nodes.Same.{same_expr, same_scope}
use phantomshell.Nodes.Renext.{Agrees-write, write_here}
use phantomshell.Nodes.Build.{made, New, new_node}
use phantomshell.Nodes.Used.{after, used, used-Between, append-Between, ahead-Apart, ahead_out}
use phantomshell.Nodes.Built.{OnlyAt, only-Agrees, only_both, upcast_held, Builds, only_then, kept}
use phantomshell.Nodes.BuildStat.{
  node_upcast_scope, ast_new_node_stat_expr, ast_new_node_stat_ret, ast_new_node_stat_if,
  ast_new_node_stat_while, new_stat, new_body,
}
use phantomshell.Nodes.UsedStat.{after_stat, after_body, used_stat, used_body, body-Between}

pub upcast_scope :
    (p n : ℕ) (h : Heap) (s : Stats) (xs : List Ptr) (f : Ptr → New)
    → HoldsScope h p s xs
    → node_upcast_scope p f n h ≡ f p n h
unfolding node_upcast_scope
upcast_scope p n h s xs f (holds_scope size stats cell list_cell held out out') =
    rw (cell, node_upcast_scope) refl

pub scope_there :
    (p : ℕ) (h : Heap) (s : Stats) (xs : List Ptr)
    → h null ≡ none
    → HoldsScope h p s xs
    → (p == null) ≡ false
scope_there p h s xs empty (holds_scope {list = list} size stats cell list_cell held out out') =
    unless_null h p (scope list) empty cell

module _ (malloc : ℕ → Ptr) (distinct : (i j : ℕ) → (malloc i == malloc j) ≡ true → i ≡ j) where
  abbrev pub StatBuilds : ℕ → Heap → Stat → Type 0
  StatBuilds n h s =
      (p : Ptr) × (g : Heap) × (new_stat malloc s n h ≡ made p (after_stat n s) g)
      × HoldsStat g p null s (used_stat malloc n s)
      × OnlyAt (used_stat malloc n s) h g

  abbrev pub ScopeBuilds : ℕ → Heap → Stats → Type 0
  ScopeBuilds n h stats =
      (p : Ptr) × (g : Heap) × (new_body malloc (Ast.scope stats) n h
        ≡ made p (after_body n (Ast.scope stats)) g)
      × HoldsScope g p stats (used_body malloc n (Ast.scope stats))
      × OnlyAt (used_body malloc n (Ast.scope stats)) h g

  pub kept_scope :
      (n : ℕ) (g : Heap) (p : Ptr) (s : Stats) (c : Cell) (xs : List Ptr)
      → HoldsScope g p s xs
      → has (malloc n) xs ≡ false
      → HoldsScope (write (malloc n) (some c) g) p s xs
  kept_scope n g p s c xs held out =
      same_scope g (write (malloc n) (some c) g) p s xs held (Agrees-write g (malloc n) c xs out)

  pub stat_expr_built :
      (n : ℕ) (h : Heap) (e : Expr)
      → Builds malloc distinct n h e
      → StatBuilds n h (Ast.stat_expr e)
  unfolding new_stat after_stat used_stat ast_new_node_stat_expr new_node
  stat_expr_built n h e (p, g, made_e, held, only) =
      let m = after n e in
      let xs = used malloc n e in
      let c = stat_expr null p in
      let out = ahead_out malloc distinct n m m xs (omega arith) (used-Between malloc n e) in
      (
        malloc m,
        write (malloc m) (some c) g,
        rw made_e (upcast_held p m g e xs (λ q. new_node malloc (stat_expr null q)) held),
        holds_stat_expr e (write_here g (malloc m) c) (kept malloc distinct m g p e c xs held out)
            out,
        only_then malloc distinct m h g c xs only,
      )

  pub stat_ret_built :
      (n : ℕ) (h : Heap) (e : Expr) → Builds malloc distinct n h e → StatBuilds n h (Ast.stat_ret e)
  unfolding new_stat after_stat used_stat ast_new_node_stat_ret new_node
  stat_ret_built n h e (p, g, made_e, held, only) =
      let m = after n e in
      let xs = used malloc n e in
      let c = stat_ret null p in
      let out = ahead_out malloc distinct n m m xs (omega arith) (used-Between malloc n e) in
      (
        malloc m,
        write (malloc m) (some c) g,
        rw made_e (upcast_held p m g e xs (λ q. new_node malloc (stat_ret null q)) held),
        holds_stat_ret e (write_here g (malloc m) c) (kept malloc distinct m g p e c xs held out)
            out,
        only_then malloc distinct m h g c xs only,
      )

  pub stat_if_built :
      (n : ℕ) (h : Heap) (e : Expr) (t : Stats)
      → Builds malloc distinct n h e
      → ((g : Heap) → OnlyAt (used malloc n e) h g → ScopeBuilds (after n e) g t)
      → StatBuilds n h (Ast.stat_if e (Ast.scope t) Ast.null_scope)
  unfolding new_stat after_stat used_stat ast_new_node_stat_if new_node
  stat_if_built n h e t (p, g, made_e, held_e, only_e) then_t =
      let m = after n e in
      let (q, k, made_t, held_t, only_t) = then_t g only_e in
      let i = after_body m (Ast.scope t) in
      let xs = used malloc n e in
      let ys = used_body malloc m (Ast.scope t) in
      let c = stat_if null p q null in
      let before = used-Between malloc n e in
      let behind = body-Between malloc m (Ast.scope t) in
      let apart = ahead-Apart malloc distinct n m m i xs ys (omega arith) before behind in
      let out =
        ahead_out malloc distinct n i i (xs ++ ys) (omega arith)
          (append-Between malloc n m i xs ys before behind) in
      let held = same_expr g k p e xs held_e (only-Agrees g k xs ys only_t apart) in
      (
        malloc i,
        write (malloc i) (some c) k,
        rw made_e (
            rw made_t (
              upcast_held p i k e xs
                (λ x. node_upcast_scope q λ y. new_node malloc (stat_if null x y null)) held
              ∙ upcast_scope q i k t ys (λ y. new_node malloc (stat_if null p y null)) held_t)),
        holds_if e t (write_here k (malloc i) c)
            (kept malloc distinct i k p e c xs held (out_left (malloc i) xs ys out))
            (kept_scope i k q t c ys held_t (out_right (malloc i) xs ys out)) apart out,
        only_both h g (write (malloc i) (some c) k) xs (ys ++ (malloc i ∷ [])) only_e
            (only_then malloc distinct i g k c ys only_t),
      )

  pub stat_while_built :
      (n : ℕ) (h : Heap) (e : Expr) (b : Stats)
      → Builds malloc distinct n h e
      → ((g : Heap) → OnlyAt (used malloc n e) h g → ScopeBuilds (after n e) g b)
      → StatBuilds n h (Ast.stat_while e (Ast.scope b))
  unfolding new_stat after_stat used_stat ast_new_node_stat_while new_node
  stat_while_built n h e b (p, g, made_e, held_e, only_e) then_b =
      let m = after n e in
      let (q, k, made_b, held_b, only_b) = then_b g only_e in
      let i = after_body m (Ast.scope b) in
      let xs = used malloc n e in
      let ys = used_body malloc m (Ast.scope b) in
      let c = stat_while null p q in
      let before = used-Between malloc n e in
      let behind = body-Between malloc m (Ast.scope b) in
      let apart = ahead-Apart malloc distinct n m m i xs ys (omega arith) before behind in
      let out =
        ahead_out malloc distinct n i i (xs ++ ys) (omega arith)
          (append-Between malloc n m i xs ys before behind) in
      let held = same_expr g k p e xs held_e (only-Agrees g k xs ys only_b apart) in
      (
        malloc i,
        write (malloc i) (some c) k,
        rw made_e
            (rw made_b (upcast_held p i k e xs (λ x. new_node malloc (stat_while null x q)) held)),
        holds_while e b (write_here k (malloc i) c)
            (kept malloc distinct i k p e c xs held (out_left (malloc i) xs ys out))
            (kept_scope i k q b c ys held_b (out_right (malloc i) xs ys out)) apart out,
        only_both h g (write (malloc i) (some c) k) xs (ys ++ (malloc i ∷ [])) only_e
            (only_then malloc distinct i g k c ys only_b),
      )
