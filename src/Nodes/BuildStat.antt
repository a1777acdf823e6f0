-- ===== src/Nodes/BuildStat.antt =====
-- src/parser.c: the constructors of statements on the heap, where they are inside a function, so that no
-- statement is handed to the compiler; src/parser.y: `Statements` and `Scope`. A switch is left out.
use phantomshell.Base.{ℕ, suc, none, some, ◌==◌, if◌then◌else◌}
use phantomshell.Ast.{Stat, Body, Stats}
use phantomshell.Ast
use phantomshell.Nodes.{
  Ptr, null, stat_expr, stat_ret, stat_if, stat_while, Result, ok, fault, stuck, Cmd,
}
use phantomshell.Nodes.Types.{type_id, ast_node_type_scope}
use phantomshell.Nodes.Make.{ast_new_node_stat_list, ast_link_node_stat_list, ast_new_node_scope}
use phantomshell.Nodes.Build.{
  Made, made, broken, New, then_node, node_upcast_expr, new_node, new_expr,
}

abbrev pub returned : Ptr → ℕ → Result → Made
returned p n (ok h) = made p n h
returned p n fault = broken
returned p n stuck = broken

-- `NODE_UPCAST_SCOPE`.
unfoldable pub node_upcast_scope : Ptr → (Ptr → New) → New
unfolding type_id
node_upcast_scope p use_node n h = elim (h p) [
  | none ↦ broken
  | some c ↦ elim (type_id c) [
    | none ↦ broken
    | some t ↦ use_node (if t == ast_node_type_scope then p else null) n h
  ]
]

-- The action of `Statements Statement`.
unfoldable pub link_stat : Ptr → Ptr → New
unfolding ast_link_node_stat_list
link_stat list stat n h = returned list n (ast_link_node_stat_list list stat h)

module _ (malloc : ℕ → Ptr) where
  unfoldable pub ast_new_node_stat_expr : Ptr → New
  unfolding new_node node_upcast_expr
  ast_new_node_stat_expr expr = node_upcast_expr expr λ e. new_node malloc (stat_expr null e)

  unfoldable pub ast_new_node_stat_ret : Ptr → New
  unfolding new_node node_upcast_expr
  ast_new_node_stat_ret expr = node_upcast_expr expr λ e. new_node malloc (stat_ret null e)

  unfoldable pub ast_new_node_stat_if : Ptr → Ptr → Ptr → New
  unfolding new_node node_upcast_expr node_upcast_scope
  ast_new_node_stat_if expr true_scope false_scope = node_upcast_expr expr λ e.
      node_upcast_scope true_scope λ t.
        if false_scope == null
        then new_node malloc (stat_if null e t null)
        else node_upcast_scope false_scope λ f. new_node malloc (stat_if null e t f)

  unfoldable pub ast_new_node_stat_while : Ptr → Ptr → New
  unfolding new_node node_upcast_expr
  ast_new_node_stat_while expr loop_scope =
      node_upcast_expr expr λ e. new_node malloc (stat_while null e loop_scope)

  -- A constructor that is given the block of its node.
  abbrev pub with_block : (Ptr → Cmd) → New
  with_block make n h = returned (malloc n) (suc n) (make (malloc n) h)

  unfoldable mutual
    unfolding new_expr ast_new_node_stat_expr ast_new_node_stat_ret ast_new_node_stat_if
        ast_new_node_stat_while ast_new_node_stat_list ast_new_node_scope link_stat

    pub new_stat : Stat → New
    new_stat (Ast.stat_expr e) n h = then_node (new_expr malloc e n h) ast_new_node_stat_expr
    new_stat (Ast.stat_ret e) n h = then_node (new_expr malloc e n h) ast_new_node_stat_ret
    new_stat (Ast.stat_if e t f) n h = then_node (new_expr malloc e n h) λ p m g.
        then_node (new_body t m g)
          λ q m' g'. then_node (new_body f m' g') (ast_new_node_stat_if p q)
    new_stat (Ast.stat_while e b) n h =
        then_node (new_expr malloc e n h)
          λ p m g. then_node (new_body b m g) (ast_new_node_stat_while p)
    new_stat (Ast.stat_switch e choices) n h = broken

    -- `Scope`, or a null pointer where there is none.
    pub new_body : Body → New
    new_body Ast.null_scope n h = made null n h
    new_body (Ast.scope stats) n h =
        then_node (with_block (λ p. ast_new_node_stat_list p null) n h) λ list m g.
          then_node (new_stats stats list m g) λ list'. with_block λ p. ast_new_node_scope p list'

    -- `Statements`, from a list on.
    pub new_stats : Stats → Ptr → New
    new_stats Ast.stats_end list n h = made list n h
    new_stats (Ast.stats_link s rest) list n h =
        then_node (new_stat s n h)
          λ p m g. then_node (link_stat list p m g) λ list' m' g'. new_stats rest list' m' g'
