-- ===== src/Nodes/BuiltFreed.antt =====
-- src/parser.c: a statement that the parser has read on the heap, and that is freed.
use phantomshell.Base.{
  ℕ, suc, ◌<◌, ◌≡◌, sym, ◌∙◌, true, false, none, List, [], ◌∷◌, ◌++◌, ◌==◌, arith, Bool-cases, inl,
  inr, length,
}
use phantomshell.Ast.{Expr, Stat, Stats, stats_end, stats_link}
use phantomshell.Ast
use phantomshell.Nodes.{Ptr, null, Heap, ok}
use phantomshell.Nodes.Free.{ast_free_node}
use phantomshell.Nodes.Blocks.{has}
use phantomshell.Nodes.Holds.{HoldsStat}
use phantomshell.Nodes.HoldsFunc.{node_stat}
use phantomshell.Nodes.Chain.{snoc}
use phantomshell.Nodes.Linked.{HoldsList}
use phantomshell.Nodes.FreedFunc.{ast_free_node-has}
use phantomshell.Nodes.Build.{made}
use phantomshell.Nodes.Used.{after, used, Between, used-Between, one-Between, append-Between}
use phantomshell.Nodes.Built.{OnlyAt}
use phantomshell.Nodes.BuiltExpr.{expr_built}
use phantomshell.Nodes.BuildStat.{new_stat}
use phantomshell.Nodes.UsedStat.{
  after_stat, after_body, after_stats, used_stat, used_body, stat-Between, body-Between, IsPlain,
  IsPlainStats,
}
use phantomshell.Nodes.BuiltStat.{
  StatBuilds, stat_expr_built, stat_ret_built, stat_if_built, stat_while_built,
}
use phantomshell.Nodes.BuiltElse.{stat_if_else_built}
use phantomshell.Nodes.BuiltList.{still_empty, mix-Between, ListBuilds, end_built}
use phantomshell.Nodes.BuiltScope.{link_built, scope_built}

module _ (malloc : ℕ → Ptr) (distinct : (i j : ℕ) → (malloc i == malloc j) ≡ true → i ≡ j)
    (there : (i : ℕ) → (malloc i == null) ≡ false) where
  behind_expr :
      (n : ℕ) (h g : Heap) (e : Expr) → OnlyAt (used malloc n e) h g → h null ≡ none → g null ≡ none
  behind_expr n h g e only empty =
      still_empty malloc distinct there n (after n e) h g (used malloc n e)
        (used-Between malloc n e) only empty

  mutual
    unfolding after_stat after_body after_stats

    stat_built :
        (n : ℕ) (h : Heap) (s : Stat) → h null ≡ none → IsPlain s → StatBuilds malloc distinct n h s
    stat_built n h (Ast.stat_expr e) empty plain =
        stat_expr_built malloc distinct n h e (expr_built malloc distinct n h e plain)
    stat_built n h (Ast.stat_ret e) empty plain =
        stat_ret_built malloc distinct n h e (expr_built malloc distinct n h e plain)
    stat_built n h (Ast.stat_if e Ast.null_scope f) empty plain = absurd (plain.1)
    stat_built n h (Ast.stat_if e (Ast.scope t) Ast.null_scope) empty plain =
        stat_if_built malloc distinct n h e t (expr_built malloc distinct n h e plain.0) λ g only.
          scope_built malloc distinct there (after n e) g t (behind_expr n h g e only empty)
            λ g' empty' held.
              stats_built (malloc (after n e)) (suc (after n e)) 0 (after n e) g' stats_end t []
                (one-Between malloc (after n e)) empty' held plain.1
    stat_built n h (Ast.stat_if e (Ast.scope t) (Ast.scope f)) empty plain =
        let m = after n e in
        let k = after_body m (Ast.scope t) in
        let xs = used malloc n e in
        let ys = used_body malloc m (Ast.scope t) in
        let zs = used_body malloc k (Ast.scope f) in
        let of_e = used-Between malloc n e in
        let of_t = body-Between malloc m (Ast.scope t) in
        let of_f = body-Between malloc k (Ast.scope f) in
        stat_if_else_built malloc distinct n h e t f (expr_built malloc distinct n h e plain.0)
          (λ g only.
            scope_built malloc distinct there m g t (behind_expr n h g e only empty)
              λ g' empty' held.
                stats_built (malloc m) (suc m) 0 m g' stats_end t [] (one-Between malloc m) empty'
                  held plain.1)
          (λ g only.
            scope_built malloc distinct there k g f
              (still_empty malloc distinct there n k h g (xs ++ ys)
                (append-Between malloc n m k xs ys of_e of_t) only empty)
              λ g' empty' held.
                stats_built (malloc k) (suc k) 0 k g' stats_end f [] (one-Between malloc k) empty'
                  held plain.2)
          λ g only.
            still_empty malloc distinct there n (after_body k (Ast.scope f)) h g (xs ++ (ys ++ zs))
              (append-Between malloc n m (after_body k (Ast.scope f)) xs (ys ++ zs) of_e
                (append-Between malloc m k (after_body k (Ast.scope f)) ys zs of_t of_f))
              only empty
    stat_built n h (Ast.stat_while e Ast.null_scope) empty plain = absurd (plain.1)
    stat_built n h (Ast.stat_while e (Ast.scope b)) empty plain =
        stat_while_built malloc distinct n h e b (expr_built malloc distinct n h e plain.0)
          λ g only.
            scope_built malloc distinct there (after n e) g b (behind_expr n h g e only empty)
              λ g' empty' held.
                stats_built (malloc (after n e)) (suc (after n e)) 0 (after n e) g' stats_end b []
                  (one-Between malloc (after n e)) empty' held plain.1
    stat_built n h (Ast.stat_switch e choices) empty plain = absurd plain

    stats_built :
        (list n size first : ℕ) (h : Heap) (done rest : Stats) (xs : List Ptr)
        → Between malloc first n (xs ++ (list ∷ []))
        → h null ≡ none
        → HoldsList h list size done xs
        → IsPlainStats rest
        → ListBuilds malloc distinct there list n h done rest xs
    stats_built list n size first h done stats_end xs old empty held plain =
        end_built malloc distinct there list n size h done xs held
    stats_built list n size first h done (stats_link s rest) xs old empty held plain =
        let m = after_stat n s in
        let ys = used_stat malloc n s in
        link_built malloc distinct there list n size first h done s rest xs old empty held
          (stat_built n h s empty plain.0)
          λ g size' empty' held'.
            stats_built list m size' first g (snoc done s) rest (xs ++ ys)
              (mix-Between malloc distinct there first n m xs ys (list ∷ []) old
                (stat-Between malloc n s))
              empty' held' plain.1

-- With a `malloc` that returns blocks which are distinct, not in use and not null, on a heap with nothing at
-- the null pointer: a statement with no switch, inside a function, that the parser reads is a tree on the
-- heap, and to free it, with fuel for its blocks and one more, leaves the heap as it was before.
pub new_stat-free :
    (malloc : ℕ → Ptr) (h : Heap) (fuel : ℕ) (s : Stat)
    → ((i j : ℕ) → (malloc i == malloc j) ≡ true → i ≡ j)
    → ((i : ℕ) → (malloc i == null) ≡ false)
    → ((i : ℕ) → h (malloc i) ≡ none)
    → h null ≡ none
    → IsPlain s
    → length (used_stat malloc 0 s) < fuel
    → (p : Ptr) × (g k : Heap) × (new_stat malloc s 0 h ≡ made p (after_stat 0 s) g)
      × HoldsStat g p null s (used_stat malloc 0 s)
      × (ast_free_node fuel p g ≡ ok k)
      × ((a : Ptr) → k a ≡ h a)
new_stat-free malloc h fuel s distinct there unused empty plain enough =
    let (p, g, built, held, only) = stat_built malloc distinct there 0 h s empty plain in
    let xs = used_stat malloc 0 s in
    let inside = stat-Between malloc 0 s in
    let empty' = still_empty malloc distinct there 0 (after_stat 0 s) h g xs inside only empty in
    let (k, freed, left) = ast_free_node-has g fuel p xs empty' (node_stat s held) enough in
    (
      p,
      g,
      k,
      built,
      held,
      freed,
      λ a. left a ∙ elim (Bool-cases (has a xs)) [
        | inl mem ↦
            let (i, _, _, same) = inside.1 a mem in
            let e : a ≡ malloc i = ground arith in rw (mem, e) (sym (unused i))
        | inr out ↦ rw out (only a out)
      ],
    )
