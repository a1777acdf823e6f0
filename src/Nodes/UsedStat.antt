-- ===== src/Nodes/UsedStat.antt =====
-- src/parser.c: the calls of `malloc` for the tree of a statement, and the blocks that they return.
use phantomshell.Base.{ℕ, suc, List, [], ◌∷◌, ◌++◌, arith, inl, inr, Bool-cases}
use phantomshell.Ast.{Stat, Body, Stats, IsParsed}
use phantomshell.Ast
use phantomshell.Nodes.{Ptr}
use phantomshell.Nodes.Blocks.{has, has-append}
use phantomshell.Nodes.Used.{after, used, Between, used-Between, append-Between, then-Between}

unfoldable mutual
  unfolding after

  pub after_stat : ℕ → Stat → ℕ
  after_stat n (Ast.stat_expr e) = suc (after n e)
  after_stat n (Ast.stat_ret e) = suc (after n e)
  after_stat n (Ast.stat_if e t f) = suc (after_body (after_body (after n e) t) f)
  after_stat n (Ast.stat_while e b) = suc (after_body (after n e) b)
  after_stat n (Ast.stat_switch e choices) = n

  pub after_body : ℕ → Body → ℕ
  after_body n Ast.null_scope = n
  after_body n (Ast.scope stats) = suc (after_stats (suc n) stats)

  pub after_stats : ℕ → Stats → ℕ
  after_stats n Ast.stats_end = n
  after_stats n (Ast.stats_link s rest) = after_stats (after_stat n s) rest

-- Statements of expressions without types and casts, with scopes where the grammar has them, and with
-- no switch.
abbrev mutual
  pub IsPlain : Stat → Type 0
  IsPlain (Ast.stat_expr e) = IsParsed e
  IsPlain (Ast.stat_ret e) = IsParsed e
  IsPlain (Ast.stat_if e t f) = IsParsed e × IsPlainBody t × IsPlainElse f
  IsPlain (Ast.stat_while e b) = IsParsed e × IsPlainBody b
  IsPlain (Ast.stat_switch e choices) = ⊥

  pub IsPlainBody : Body → Type 0
  IsPlainBody Ast.null_scope = ⊥
  IsPlainBody (Ast.scope stats) = IsPlainStats stats

  pub IsPlainElse : Body → Type 0
  IsPlainElse Ast.null_scope = Unit
  IsPlainElse (Ast.scope stats) = IsPlainStats stats

  pub IsPlainStats : Stats → Type 0
  IsPlainStats Ast.stats_end = Unit
  IsPlainStats (Ast.stats_link s rest) = IsPlain s × IsPlainStats rest

module _ (malloc : ℕ → Ptr) where
  -- The blocks in the order in which they are freed: the list of a scope, whose block is the first, is
  -- freed behind its statements.
  unfoldable mutual
    unfolding used after after_stat after_body after_stats

    pub used_stat : ℕ → Stat → List Ptr
    used_stat n (Ast.stat_expr e) = used malloc n e ++ (malloc (after n e) ∷ [])
    used_stat n (Ast.stat_ret e) = used malloc n e ++ (malloc (after n e) ∷ [])
    used_stat n (Ast.stat_if e t f) =
        let m = after n e in
        used malloc n e
        ++ (used_body m t
            ++ (used_body (after_body m t) f ++ (malloc (after_body (after_body m t) f) ∷ [])))
    used_stat n (Ast.stat_while e b) =
        used malloc n e ++ (used_body (after n e) b ++ (malloc (after_body (after n e) b) ∷ []))
    used_stat n (Ast.stat_switch e choices) = []

    pub used_body : ℕ → Body → List Ptr
    used_body n Ast.null_scope = []
    used_body n (Ast.scope stats) =
        (used_stats (suc n) stats ++ (malloc n ∷ [])) ++ (malloc (after_stats (suc n) stats) ∷ [])

    pub used_stats : ℕ → Stats → List Ptr
    used_stats n Ast.stats_end = []
    used_stats n (Ast.stats_link s rest) = used_stat n s ++ used_stats (after_stat n s) rest

  pub none-Between : (n : ℕ) → Between malloc n n []
  none-Between n = (omega arith, λ a mem. cc)

  -- A block before the others that is freed behind them.
  pub behind-Between :
      (n m : ℕ) (xs : List Ptr)
      → Between malloc (suc n) m xs
      → Between malloc n m (xs ++ (malloc n ∷ []))
  behind-Between n m xs (low, inside) = (
    omega arith,
    λ a mem. elim (Bool-cases (has a xs)) [
      | inl here ↦ let (i, from_n, to_m, same) = inside a here in (i, omega arith, to_m, same)
      | inr other ↦ (n, omega arith, omega arith, ground (arith, has-append a xs (malloc n ∷ [])))
    ],
  )

  mutual
    unfolding used_stat used_body used_stats after_stat after_body after_stats

    pub stat-Between : (n : ℕ) (s : Stat) → Between malloc n (after_stat n s) (used_stat n s)
    stat-Between n (Ast.stat_expr e) =
        then-Between malloc n (after n e) (used malloc n e) (used-Between malloc n e)
    stat-Between n (Ast.stat_ret e) =
        then-Between malloc n (after n e) (used malloc n e) (used-Between malloc n e)
    stat-Between n (Ast.stat_if e t f) =
        let m = after n e in
        let k = after_body m t in
        append-Between malloc n m _ (used malloc n e) _ (used-Between malloc n e) (
          append-Between malloc m k _ (used_body m t) _ (body-Between m t)
            (then-Between malloc k (after_body k f) (used_body k f) (body-Between k f)))
    stat-Between n (Ast.stat_while e b) =
        let m = after n e in
        append-Between malloc n m _ (used malloc n e) _ (used-Between malloc n e)
          (then-Between malloc m (after_body m b) (used_body m b) (body-Between m b))
    stat-Between n (Ast.stat_switch e choices) = none-Between n

    pub body-Between : (n : ℕ) (b : Body) → Between malloc n (after_body n b) (used_body n b)
    body-Between n Ast.null_scope = none-Between n
    body-Between n (Ast.scope stats) = then-Between malloc n (after_stats (suc n) stats) _ (
        behind-Between n (after_stats (suc n) stats) (used_stats (suc n) stats)
          (stats-Between (suc n) stats))

    pub stats-Between :
        (n : ℕ) (stats : Stats) → Between malloc n (after_stats n stats) (used_stats n stats)
    stats-Between n Ast.stats_end = none-Between n
    stats-Between n (Ast.stats_link s rest) =
        append-Between malloc n (after_stat n s) _ (used_stat n s) _ (stat-Between n s)
          (stats-Between (after_stat n s) rest)
