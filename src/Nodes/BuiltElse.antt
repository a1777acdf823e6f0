-- ===== src/Nodes/BuiltElse.antt =====
-- src/parser.c: `ast_new_node_stat_if` with two branches leaves its tree on the heap.
use phantomshell.Base.{ℕ, ◌≡◌, ◌∙◌, true, none, some, [], ◌∷◌, ◌++◌, ◌==◌, arith, if◌then◌else◌}
use phantomshell.Ast.{Expr, Stat, Stats}
use phantomshell.Ast
use phantomshell.Nodes.{Ptr, null, stat_if, Heap, write}
use phantomshell.Nodes.Holds.{holds_if_else}
use phantomshell.Nodes.Frees.{out_left, out_right}
use phantomshell.Nodes.Same.{same_expr, same_scope}
use phantomshell.Nodes.Renext.{write_here}
use phantomshell.Nodes.Build.{New, new_node}
use phantomshell.Nodes.Used.{after, used, used-Between, append-Between, ahead-Apart, ahead_out}
use phantomshell.Nodes.Built.{OnlyAt, only-Agrees, only_both, upcast_held, Builds, only_then, kept}
use phantomshell.Nodes.BuildStat.{node_upcast_scope, ast_new_node_stat_if, new_stat}
use phantomshell.Nodes.UsedStat.{after_stat, after_body, used_stat, used_body, body-Between}
use phantomshell.Nodes.BuiltStat.{StatBuilds, ScopeBuilds, upcast_scope, scope_there, kept_scope}

module _ (malloc : ℕ → Ptr) (distinct : (i j : ℕ) → (malloc i == malloc j) ≡ true → i ≡ j) where
  pub stat_if_else_built :
      (n : ℕ) (h : Heap) (e : Expr) (t f : Stats)
      → Builds malloc distinct n h e
      → ((g : Heap) → OnlyAt (used malloc n e) h g → ScopeBuilds malloc distinct (after n e) g t)
      → ((g : Heap)
          → OnlyAt (used malloc n e ++ used_body malloc (after n e) (Ast.scope t)) h g
          → ScopeBuilds malloc distinct (after_body (after n e) (Ast.scope t)) g f)
      → ((g : Heap)
          → OnlyAt
              (used malloc n e
                ++ (used_body malloc (after n e) (Ast.scope t)
                    ++ used_body malloc (after_body (after n e) (Ast.scope t)) (Ast.scope f)))
              h
              g
          → g null ≡ none)
      → StatBuilds malloc distinct n h (Ast.stat_if e (Ast.scope t) (Ast.scope f))
  unfolding new_stat after_stat used_stat ast_new_node_stat_if new_node
  stat_if_else_built n h e t f (p, g, made_e, held_e, only_e) then_t then_f empty =
      let m = after n e in
      let (q, k, made_t, held_t, only_t) = then_t g only_e in
      let j = after_body m (Ast.scope t) in
      let xs = used malloc n e in
      let ys = used_body malloc m (Ast.scope t) in
      let zs = used_body malloc j (Ast.scope f) in
      let (r, k', made_f, held_f, only_f) = then_f k (only_both h g k xs ys only_e only_t) in
      let i = after_body j (Ast.scope f) in
      let c = stat_if null p q r in
      let of_e = used-Between malloc n e in
      let of_t = body-Between malloc m (Ast.scope t) in
      let of_f = body-Between malloc j (Ast.scope f) in
      let of_rest = append-Between malloc m j i ys zs of_t of_f in
      let apart = ahead-Apart malloc distinct n m m i xs (ys ++ zs) (omega arith) of_e of_rest in
      let apart' = ahead-Apart malloc distinct m j j i ys zs (omega arith) of_t of_f in
      let out =
        ahead_out malloc distinct n i i (xs ++ (ys ++ zs)) (omega arith)
          (append-Between malloc n m i xs (ys ++ zs) of_e of_rest) in
      let out_rest = out_right (malloc i) xs (ys ++ zs) out in
      let only_rest = only_both g k k' ys zs only_t only_f in
      let held = same_expr g k' p e xs held_e (only-Agrees g k' xs (ys ++ zs) only_rest apart) in
      let held' = same_scope k k' q t ys held_t (only-Agrees k k' ys zs only_f apart') in
      let there =
        scope_there r k' f zs (empty k' (only_both h g k' xs (ys ++ zs) only_e only_rest)) held_f in
      let node : Ptr → Ptr → New = λ x y.
        if r == null
        then new_node malloc (stat_if null x y null)
        else node_upcast_scope r λ z. new_node malloc (stat_if null x y z) in
      (
        malloc i,
        write (malloc i) (some c) k',
        rw made_e (
            rw made_t (
              rw made_f (
                upcast_held p i k' e xs (λ x. node_upcast_scope q (node x)) held
                ∙ upcast_scope q i k' t ys (node p) held'
                ∙ rw there (
                    upcast_scope r i k' f zs (λ z. new_node malloc (stat_if null p q z)) held_f)))),
        holds_if_else e t f (write_here k' (malloc i) c)
            (kept malloc distinct i k' p e c xs held (out_left (malloc i) xs (ys ++ zs) out))
            (kept_scope malloc distinct i k' q t c ys held' (out_left (malloc i) ys zs out_rest))
            (kept_scope malloc distinct i k' r f c zs held_f (out_right (malloc i) ys zs out_rest))
            apart apart' out,
        only_both h g (write (malloc i) (some c) k') xs (ys ++ (zs ++ (malloc i ∷ []))) only_e (
            only_both g k (write (malloc i) (some c) k') ys (zs ++ (malloc i ∷ [])) only_t
              (only_then malloc distinct i k k' c zs only_f)),
      )
