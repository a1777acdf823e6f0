-- ===== src/Nodes/Freed.antt =====
-- src/parser.c: `ast_free_node` of statements.
use phantomshell.Base.{
  ℕ, zero, suc, ◌+◌, ◌<◌, ◌≡◌, refl, true, false, none, some, List, [], ◌∷◌, ◌++◌, arith, length,
  length-append, ◌==◌,
}
use phantomshell.Ast.{Expr, Stat, Stats, Choices}
use phantomshell.Nodes.{
  Ptr, null, scope, stat_list, stat_expr, stat_ret, stat_if, stat_switch, stat_while,
  stat_switch_choice, Heap,
}
use phantomshell.Nodes.Free.{
  ast_free_node, ast_free_node_scope, ast_free_node_stat_list, free_stats, free_choices,
  ast_free_node_stat_switch_choice,
}
use phantomshell.Nodes.Blocks.{erase, has, has_last, has_right, has_left}
use phantomshell.Nodes.Holds.{
  HoldsExpr, HoldsStat, holds_stat_expr, holds_stat_ret, holds_if, holds_if_else, holds_switch,
  holds_while, HoldsScope, holds_scope, HoldsStats, holds_end, holds_link, HoldsChoices, holds_none,
  holds_case, holds_other, stat_cell, expr_cell,
}
use phantomshell.Nodes.Frees.{
  Frees, seq-Frees, load-Frees, then_free-Frees, then_both-Frees, then_three-Frees, unless_null,
}
use phantomshell.Nodes.FreedExpr.{expr_freed}

some_blocks : (p : Ptr) (xs : List Ptr) → has p xs ≡ true → 0 < length xs
some_blocks p [] mem = cc
some_blocks p (x ∷ xs) mem = omega arith

both_sizes :
    (n : ℕ) (xs ys : List Ptr) (p : Ptr)
    → length (xs ++ (ys ++ (p ∷ []))) < suc n
    → length xs + length ys < n
both_sizes n xs ys p small =
    omega (arith, length-append xs (ys ++ (p ∷ [])), length-append ys (p ∷ []))

module _ (h : Heap) (empty : h null ≡ none) where
  expr_not_null : (p : Ptr) (e : Expr) (xs : List Ptr) → HoldsExpr h p e xs → (p == null) ≡ false
  expr_not_null p e xs holds = let (c, cell) = expr_cell holds in unless_null h p c empty cell

  scope_cell :
      (p : Ptr) (s : Stats) (xs : List Ptr)
      → HoldsScope h p s xs
      → (list : Ptr) × (h p ≡ some (scope list)) × (has p xs ≡ true)
  scope_cell p s xs (holds_scope {list = list} {xs = ys} size stats cell list_cell held out out') =
      (list, cell, has_last p (ys ++ (list ∷ [])))

  scope_not_null : (p : Ptr) (s : Stats) (xs : List Ptr) → HoldsScope h p s xs → (p == null) ≡ false
  scope_not_null p s xs holds =
      let (list, cell, mem) = scope_cell p s xs holds in unless_null h p (scope list) empty cell

  -- A scope by way of `ast_free_node`, with the fuel that is left behind it.
  pub scope_node_freed :
      (n : ℕ) (p : Ptr) (s : Stats) (xs : List Ptr)
      → HoldsScope h p s xs
      → 0 < n
      → ((k : ℕ) → n ≡ suc k → Frees h xs (ast_free_node_scope (ast_free_node k) k p))
      → Frees h xs (ast_free_node n p)
  unfolding ast_free_node
  scope_node_freed zero p s xs holds pos freed = absurd (omega arith)
  scope_node_freed (suc k) p s xs holds pos freed =
      let (list, cell, mem) = scope_cell p s xs holds in
      load-Frees h p (scope list) xs _ cell mem (freed k refl)

  mutual
    unfolding ast_free_node free_stats free_choices erase

    pub stat_freed :
        (n : ℕ) (p next : Ptr) (s : Stat) (xs : List Ptr)
        → HoldsStat h p next s xs
        → length xs < n
        → Frees h xs (ast_free_node n p)
    stat_freed zero p next s xs holds small = absurd (omega arith)
    stat_freed (suc n) p next s xs (holds_stat_expr {q = q} {xs = ys} e cell held out) small =
        let c = stat_expr next q in
        load-Frees h p c (ys ++ (p ∷ [])) _ cell (has_last p ys) (
          load-Frees h p c (ys ++ (p ∷ [])) _ cell (has_last p ys) (
            then_free-Frees h p c ys (ast_free_node n q) cell
              (expr_freed h n q e ys held (omega (arith, length-append ys (p ∷ [])))) out))
    stat_freed (suc n) p next s xs (holds_stat_ret {q = q} {xs = ys} e cell held out) small =
        let c = stat_ret next q in
        load-Frees h p c (ys ++ (p ∷ [])) _ cell (has_last p ys) (
          load-Frees h p c (ys ++ (p ∷ [])) _ cell (has_last p ys) (
            then_free-Frees h p c ys (ast_free_node n q) cell
              (expr_freed h n q e ys held (omega (arith, length-append ys (p ∷ [])))) out))
    stat_freed (suc n) p next s xs
          (holds_if {q = q} {r = r} {xs = ys} {ys = zs} e t cell held held_t apart out) small =
        let c = stat_if next q r null in
        let all : List Ptr = ys ++ (zs ++ (p ∷ [])) in
        let mem = has_right p ys (zs ++ (p ∷ [])) (has_last p zs) in
        let sizes = both_sizes n ys zs p small in
        load-Frees h p c all _ cell mem (
          load-Frees h p c all _ cell mem (
            then_both-Frees h p c ys zs (ast_free_node n q)
              (ast_free_node_scope (ast_free_node n) n r) cell
              (expr_freed h n q e ys held (omega arith)) (scope_freed n r t zs held_t (omega arith))
              apart out))
    stat_freed (suc n) p next s xs
          (holds_if_else {q = q} {r = r} {s = u} {xs = ys} {ys = zs} {zs = ws} e t f cell held
            held_t held_f apart apart' out)
          small =
        let c = stat_if next q r u in
        let rest : List Ptr = zs ++ (ws ++ (p ∷ [])) in
        let mem = has_right p ys rest (has_right p zs (ws ++ (p ∷ [])) (has_last p ws)) in
        let sizes : length ys + (length zs + (length ws + 1)) < suc n = omega (
          arith,
          length-append ys rest,
          length-append zs (ws ++ (p ∷ [])),
          length-append ws (p ∷ []),
        ) in
        load-Frees h p c (ys ++ rest) _ cell mem (
          load-Frees h p c (ys ++ rest) _ cell mem (
            rw (scope_not_null u f ws held_f) (
              then_three-Frees h p c ys zs ws (ast_free_node n q)
                (ast_free_node_scope (ast_free_node n) n r)
                (ast_free_node_scope (ast_free_node n) n u) cell
                (expr_freed h n q e ys held (omega arith))
                (scope_freed n r t zs held_t (omega arith))
                (scope_freed n u f ws held_f (omega arith)) apart apart' out)))
    stat_freed (suc n) p next s xs
          (holds_switch {q = q} {r = r} {xs = ys} {ys = zs} e choices cell held held_c apart out)
          small =
        let c = stat_switch next q r in
        let all : List Ptr = ys ++ (zs ++ (p ∷ [])) in
        let mem = has_right p ys (zs ++ (p ∷ [])) (has_last p zs) in
        let sizes = both_sizes n ys zs p small in
        load-Frees h p c all _ cell mem (
          load-Frees h p c all _ cell mem (
            then_both-Frees h p c ys zs (ast_free_node n q) (free_choices (ast_free_node n) n r)
              cell (expr_freed h n q e ys held (omega arith))
              (choices_freed n n r choices zs held_c (omega arith) (omega arith)) apart out))
    stat_freed (suc n) p next s xs
          (holds_while {q = q} {r = r} {xs = ys} {ys = zs} e b cell held held_b apart out) small =
        let c = stat_while next q r in
        let all : List Ptr = ys ++ (zs ++ (p ∷ [])) in
        let mem = has_right p ys (zs ++ (p ∷ [])) (has_last p zs) in
        let sizes = both_sizes n ys zs p small in
        load-Frees h p c all _ cell mem (
          load-Frees h p c all _ cell mem (
            rw (expr_not_null q e ys held) (
              then_both-Frees h p c ys zs (ast_free_node n q) (ast_free_node n r) cell
                (expr_freed h n q e ys held (omega arith))
                (scope_node_freed n r b zs held_b (omega arith)
                  λ k e'. scope_freed k r b zs held_b (omega arith))
                apart out)))

    pub scope_freed :
        (n : ℕ) (p : Ptr) (s : Stats) (xs : List Ptr)
        → HoldsScope h p s xs
        → length xs < suc n
        → Frees h xs (ast_free_node_scope (ast_free_node n) n p)
    scope_freed n p s xs
          (holds_scope {list = list} {first = first} {last = last} {xs = ys} size stats cell
            list_cell held out out')
          small =
        let c = scope list in
        let list_c = stat_list size first last in
        let inner : List Ptr = ys ++ (list ∷ []) in
        let sizes : length ys + 2 < suc n =
          omega (arith, length-append inner (p ∷ []), length-append ys (list ∷ [])) in
        load-Frees h p c (inner ++ (p ∷ [])) _ cell (has_last p inner) (
          then_free-Frees h p c inner (ast_free_node_stat_list (ast_free_node n) n list) cell
            (load-Frees h list list_c inner _ list_cell (has_last list ys) (
              then_free-Frees h list list_c ys (free_stats (ast_free_node n) n first) list_cell
                (stats_freed n n first stats ys held (omega arith) (omega arith)) out))
            out')

    stats_freed :
        (n m : ℕ) (p : Ptr) (s : Stats) (xs : List Ptr)
        → HoldsStats h p s xs
        → length xs < n
        → length xs < m
        → Frees h xs (free_stats (ast_free_node n) m p)
    stats_freed n zero p s xs holds small fuel = absurd (omega arith)
    stats_freed n (suc m) p s xs holds_end small fuel = λ g a. refl
    stats_freed n (suc m) p s xs
          (holds_link {next = next} {xs = ys} {ys = zs} stat rest held held_r apart) small fuel =
        let (c, cell, next_is, mem) = stat_cell held in
        let sizes = length-append ys zs in
        let some_ys = some_blocks p ys mem in
        rw (unless_null h p c empty cell) (
          load-Frees h p c (ys ++ zs) _ cell (has_left p ys zs mem) (
            rw next_is (
              seq-Frees h ys zs (ast_free_node n p) (free_stats (ast_free_node n) m next)
                (stat_freed n p next stat ys held (omega arith))
                (stats_freed n m next rest zs held_r (omega arith) (omega arith)) apart)))

    choices_freed :
        (n m : ℕ) (p : Ptr) (s : Choices) (xs : List Ptr)
        → HoldsChoices h p s xs
        → length xs < n
        → length xs < m
        → Frees h xs (free_choices (ast_free_node n) m p)
    choices_freed n zero p s xs holds small fuel = absurd (omega arith)
    choices_freed n (suc m) p s xs holds_none small fuel = λ g a. refl
    choices_freed n (suc m) p s xs
          (holds_case {q = q} {r = r} {next = next} {xs = ys} {ys = zs} {zs = ws} e b rest cell held
            held_b held_r apart out apart')
          small fuel =
        let c = stat_switch_choice q r next in
        let own : List Ptr = ys ++ (zs ++ (p ∷ [])) in
        let mem = has_right p ys (zs ++ (p ∷ [])) (has_last p zs) in
        let sizes : length ys + (length zs + 1) + length ws ≡ length (own ++ ws) = omega (
          arith,
          length-append own ws,
          length-append ys (zs ++ (p ∷ [])),
          length-append zs (p ∷ []),
        ) in
        rw (unless_null h p c empty cell) (
          load-Frees h p c (own ++ ws) _ cell (has_left p own ws mem) (
            seq-Frees h own ws (ast_free_node_stat_switch_choice (ast_free_node n) p)
              (free_choices (ast_free_node n) m next)
              (load-Frees h p c own _ cell mem (
                rw (expr_not_null q e ys held) (
                  then_both-Frees h p c ys zs (ast_free_node n q) (ast_free_node n r) cell
                    (expr_freed h n q e ys held (omega arith))
                    (scope_node_freed n r b zs held_b (omega arith)
                      λ k e'. scope_freed k r b zs held_b (omega arith))
                    apart out)))
              (choices_freed n m next rest ws held_r (omega arith) (omega arith)) apart'))
    choices_freed n (suc m) p s xs
          (holds_other {r = r} {next = next} {ys = zs} {zs = ws} b rest cell held_b held_r out
            apart')
          small fuel =
        let c = stat_switch_choice null r next in
        let own : List Ptr = zs ++ (p ∷ []) in
        let mem = has_last p zs in
        let sizes : length zs + 1 + length ws ≡ length (own ++ ws) =
          omega (arith, length-append own ws, length-append zs (p ∷ [])) in
        rw (unless_null h p c empty cell) (
          load-Frees h p c (own ++ ws) _ cell (has_left p own ws mem) (
            seq-Frees h own ws (ast_free_node_stat_switch_choice (ast_free_node n) p)
              (free_choices (ast_free_node n) m next)
              (load-Frees h p c own _ cell mem (
                then_free-Frees h p c zs (ast_free_node n r) cell
                  (scope_node_freed n r b zs held_b (omega arith)
                    λ k e'. scope_freed k r b zs held_b (omega arith))
                  out))
              (choices_freed n m next rest ws held_r (omega arith) (omega arith)) apart'))
