-- ===== src/Nodes/Tests.antt =====
-- Concrete heaps.
use phantomshell.Base.{
  ℕ, ◌+◌, ◌≡◌, refl, false, none, some, List, [], ◌∷◌, ◌++◌, ◌==◌, if◌then◌else◌, arith,
}
use phantomshell.Ast.{Stat, Stats, stats_end, stats_link, type_bool, type_int}
use phantomshell.Ast
use phantomshell.Nodes.{
  Ptr, null, literal, scope, stat_list, stat_expr, stat_while, stat_switch_choice, Heap, ok, fault,
}
use phantomshell.Nodes.Free.{ast_free_node}
use phantomshell.Nodes.Make.{ast_link_node_stat_list}
use phantomshell.Nodes.Blocks.{has}
use phantomshell.Nodes.Holds.{
  holds_bool, holds_int, HoldsStat, holds_stat_expr, holds_while, HoldsScope, holds_scope,
  holds_end, holds_link,
}
use phantomshell.Nodes.HoldsFunc.{HoldsNode, node_stat}
use phantomshell.Nodes.Chain.{chain_one, snoc}
use phantomshell.Nodes.Linked.{HoldsList, list_chain, ast_link_node_stat_list-snoc}
use phantomshell.Nodes.Build.{made}
use phantomshell.Nodes.BuildStat.{new_stat}
use phantomshell.Nodes.UsedStat.{used_stat, after_stat}
use phantomshell.Nodes.BuiltFreed.{new_stat-free}
use phantomshell.Nodes.FreedFunc.{ast_free_node-has}
use phantomshell.Nodes.Lost.{
  Choice, read_more_choices, read_more_choices-last, ast_link_node_stat_list-scope,
}

-- The loop `while true { 5; }` at 2, a statement `7;` at 8, a block in braces at 9, and a choice at 11.
abbrev tree : Heap
tree a =
    if a == 1
    then some (literal type_bool 1)
    else if a == 2
    then some (stat_while null 1 3)
    else if a == 3
    then some (scope 4)
    else if a == 4
    then some (stat_list 1 5 5)
    else if a == 5
    then some (stat_expr null 6)
    else if a == 6
    then some (literal type_int 5)
    else if a == 7
    then some (literal type_int 7)
    else if a == 8
    then some (stat_expr null 7)
    else if a == 9
    then some (scope 10)
    else if a == 10
    then some (stat_list 0 null null)
    else if a == 11
    then some (stat_switch_choice 12 13 null)
    else none

abbrev five : Stats
five = stats_link (Ast.stat_expr (Ast.literal_int 5)) stats_end

five-HoldsStat : HoldsStat tree 5 null (Ast.stat_expr (Ast.literal_int 5)) (6 ∷ 5 ∷ [])
five-HoldsStat = holds_stat_expr (Ast.literal_int 5) refl (holds_int 5 refl) refl

body-HoldsScope : HoldsScope tree 3 five (6 ∷ 5 ∷ 4 ∷ 3 ∷ [])
body-HoldsScope =
    holds_scope 1 five refl refl
      (holds_link (Ast.stat_expr (Ast.literal_int 5)) stats_end five-HoldsStat holds_end
        (λ a mem. ground arith))
      refl refl

loop-HoldsNode : HoldsNode tree 2 (1 ∷ 6 ∷ 5 ∷ 4 ∷ 3 ∷ 2 ∷ [])
loop-HoldsNode = node_stat (Ast.stat_while (Ast.literal_bool 1) (Ast.scope five)) (
    holds_while (Ast.literal_bool 1) five refl (holds_bool 1 refl) body-HoldsScope
      (λ a mem. ground arith) refl)

ast_free_node-has_example :
    (g : Heap) × (ast_free_node 7 2 tree ≡ ok g)
    × ((a : Ptr) → g a ≡ (if has a (1 ∷ 6 ∷ 5 ∷ 4 ∷ 3 ∷ 2 ∷ []) then none else tree a))
ast_free_node-has_example =
    ast_free_node-has tree 7 2 (1 ∷ 6 ∷ 5 ∷ 4 ∷ 3 ∷ 2 ∷ []) refl loop-HoldsNode (omega arith)

list-HoldsList : HoldsList tree 4 1 five (6 ∷ 5 ∷ [])
list-HoldsList = list_chain refl (chain_one (Ast.stat_expr (Ast.literal_int 5)) five-HoldsStat) refl

ast_link_node_stat_list-snoc_example :
    (g : Heap) × (ast_link_node_stat_list 4 8 tree ≡ ok g)
    × HoldsList g 4 2 (snoc five (Ast.stat_expr (Ast.literal_int 7))) (6 ∷ 5 ∷ 7 ∷ 8 ∷ [])
    × ((a : Ptr) → has a (4 ∷ 6 ∷ 5 ∷ 7 ∷ 8 ∷ []) ≡ false → g a ≡ tree a)
ast_link_node_stat_list-snoc_example =
    ast_link_node_stat_list-snoc tree 4 8 null 1 five (Ast.stat_expr (Ast.literal_int 7))
      (6 ∷ 5 ∷ []) (7 ∷ 8 ∷ []) refl list-HoldsList
      (holds_stat_expr (Ast.literal_int 7) refl (holds_int 7 refl) refl) (λ a mem. ground arith)
      refl

ast_link_node_stat_list-scope_example :
    (g : Heap) × (ast_link_node_stat_list 4 9 tree ≡ ok g)
    × (g 9 ≡ some (scope null))
    × (ast_free_node 1 9 g ≡ fault)
ast_link_node_stat_list-scope_example =
    ast_link_node_stat_list-scope tree 4 9 1 10 0 five (6 ∷ 5 ∷ []) refl list-HoldsList refl refl
      refl

abbrev second : List Choice
second = (20, 21, 22) ∷ []

read_more_choices-last_example :
    (g : Heap) × (read_more_choices 11 (second ++ ((30, 31, 32) ∷ [])) tree ≡ ok g)
    × (g 11 ≡ some (stat_switch_choice 12 13 30))
    × (g 30 ≡ some (stat_switch_choice 31 32 null))
read_more_choices-last_example =
    read_more_choices-last tree 11 12 13 null 30 31 32 second refl refl refl

-- A heap with no blocks, and blocks that are numbered from 1 on.
abbrev nothing : Heap
nothing a = none

abbrev next_block : ℕ → Ptr
next_block i = i + 1

abbrev loop : Stat
loop = Ast.stat_while (Ast.literal_bool 1) (Ast.scope five)

new_stat-free_example :
    (p : Ptr) × (g k : Heap) × (new_stat next_block loop 0 nothing ≡ made p 6 g)
    × HoldsStat g p null loop (1 ∷ 3 ∷ 4 ∷ 2 ∷ 5 ∷ 6 ∷ [])
    × (ast_free_node 7 p g ≡ ok k)
    × ((a : Ptr) → k a ≡ nothing a)
unfolding used_stat after_stat
new_stat-free_example =
    new_stat-free next_block nothing 7 loop (λ i j same. ground arith) (λ i. ground arith)
      (λ i. refl) refl (tt, (tt, tt)) (omega arith)
