-- ===== src/Nodes/BuiltList.antt =====
-- src/parser.c: statements that are linked one after another, and the scope around them.
use mathlib.Core.List.{append-nil}
use phantomshell.Base.{
  ℕ, ◌≡◌, refl, ◌∙◌, true, false, none, some, List, [], ◌∷◌, ◌++◌, ◌==◌, arith, Bool-cases, inl,
  inr,
}
use phantomshell.Ast.{Stat, Stats, stats_end, stats_link}
use phantomshell.Nodes.{Ptr, null, scope, stat_list, Heap, write, ok, load}
use phantomshell.Nodes.Make.{ast_new_node_scope}
use phantomshell.Nodes.Types.{node_upcast}
use phantomshell.Nodes.Blocks.{has, has-append, has_last, Agrees}
use phantomshell.Nodes.Holds.{HoldsScope, holds_scope, HoldsStats, holds_end}
use phantomshell.Nodes.Frees.{out_left}
use phantomshell.Nodes.Same.{same_stats}
use phantomshell.Nodes.Renext.{Agrees-write, write_here}
use phantomshell.Nodes.Chain.{snoc, same-Chain, Chain-stats}
use phantomshell.Nodes.Linked.{HoldsList, list_empty, list_chain, write_other}
use phantomshell.Nodes.Build.{made}
use phantomshell.Nodes.Used.{Between}
use phantomshell.Nodes.Built.{OnlyAt}
use phantomshell.Nodes.BuildStat.{new_stats}
use phantomshell.Nodes.UsedStat.{after_stats, used_stats}

abbrev pub append_stats : Stats → Stats → Stats
append_stats stats_end rest = rest
append_stats (stats_link s more) rest = stats_link s (append_stats more rest)

append_stats-end : (s : Stats) → append_stats s stats_end ≡ s
append_stats-end stats_end = refl
append_stats-end (stats_link t more) = rw (append_stats-end more) refl

pub append_stats-snoc :
    (done : Stats) (s : Stat) (rest : Stats)
    → append_stats (snoc done s) rest ≡ append_stats done (stats_link s rest)
append_stats-snoc stats_end s rest = refl
append_stats-snoc (stats_link t more) s rest = rw (append_stats-snoc more s rest) refl

pub same_list :
    (h g : Heap) (p size : ℕ) (s : Stats) (xs : List Ptr)
    → HoldsList h p size s xs
    → Agrees (xs ++ (p ∷ [])) h g
    → HoldsList g p size s xs
same_list h g p size s xs (list_empty cell) same = list_empty (same p (has_last p []) ∙ cell)
same_list h g p size s xs (list_chain {first = first} {last = last} cell chain out) same =
    list_chain (same p (has_last p xs) ∙ cell)
      (same-Chain h g first last null s xs chain
        λ a mem. same a (ground (arith, has-append a xs (p ∷ []))))
      out

list_held :
    (h : Heap) (p size : ℕ) (s : Stats) (xs : List Ptr)
    → HoldsList h p size s xs
    → (first last : Ptr) × (h p ≡ some (stat_list size first last))
      × HoldsStats h first s xs
      × (has p xs ≡ false)
list_held h p size s xs (list_empty cell) = (null, null, cell, holds_end, refl)
list_held h p size s xs (list_chain {first = first} {last = last} cell chain out) =
    (first, last, cell, Chain-stats h first last s xs chain, out)

-- A scope around a list.
pub scope_made :
    (h : Heap) (fresh p size : ℕ) (s : Stats) (xs : List Ptr)
    → HoldsList h p size s xs
    → has fresh (xs ++ (p ∷ [])) ≡ false
    → (ast_new_node_scope fresh p h ≡ ok (write fresh (some (scope p)) h))
      × HoldsScope (write fresh (some (scope p)) h) fresh s ((xs ++ (p ∷ [])) ++ (fresh ∷ []))
unfolding ast_new_node_scope node_upcast
scope_made h fresh p size s xs held out =
    let (first, last, cell, stats, out_p) = list_held h p size s xs held in
    let g = write fresh (some (scope p)) h in
    let cell' : g p ≡ some (stat_list size first last) =
      write_other h fresh p (scope p) (ground (arith, has-append fresh xs (p ∷ []))) ∙ cell in
    (
      rw (cell, load) refl,
      holds_scope size s (write_here h fresh (scope p)) cell'
          (same_stats h g first s xs stats
            (Agrees-write h fresh (scope p) xs (out_left fresh xs (p ∷ []) out)))
          out_p out,
    )

module _ (malloc : ℕ → Ptr) (distinct : (i j : ℕ) → (malloc i == malloc j) ≡ true → i ≡ j)
    (there : (i : ℕ) → (malloc i == null) ≡ false) where
  pub no_null : (m n : ℕ) (xs : List Ptr) → Between malloc m n xs → has null xs ≡ false
  no_null m n xs (_, inside) = elim (Bool-cases (has null xs)) [
    | inl i ↦ let (j, _, _, same) = inside null i in let other = there j in ground arith
    | inr o ↦ o
  ]

  pub still_empty :
      (m n : ℕ) (h g : Heap) (xs : List Ptr)
      → Between malloc m n xs
      → OnlyAt xs h g
      → h null ≡ none
      → g null ≡ none
  still_empty m n h g xs inside only empty = only null (no_null m n xs inside) ∙ empty

  pub mix-Between :
      (m k n : ℕ) (xs ys zs : List Ptr)
      → Between malloc m k (xs ++ zs)
      → Between malloc k n ys
      → Between malloc m n ((xs ++ ys) ++ zs)
  mix-Between m k n xs ys zs (low, old) (high, new) = (
    omega arith,
    λ a mem. elim (Bool-cases (has a ys)) [
      | inl fresh ↦ let (i, from_k, to_n, same) = new a fresh in (i, omega arith, to_n, same)
      | inr other ↦
          let (i, from_m, to_k, same) =
            old a (
              ground (arith, has-append a xs zs, has-append a (xs ++ ys) zs, has-append a xs ys)) in
          (i, from_m, omega arith, same)
    ],
  )

  -- What the statements leave that are linked behind others into a list.
  abbrev pub ListBuilds : ℕ → ℕ → Heap → Stats → Stats → List Ptr → Type 0
  ListBuilds list n h done rest xs =
      (g : Heap) × (size : ℕ) × (new_stats malloc rest list n h ≡ made list (after_stats n rest) g)
      × HoldsList g list size (append_stats done rest) (xs ++ used_stats malloc n rest)
      × OnlyAt ((xs ++ used_stats malloc n rest) ++ (list ∷ [])) h g

  pub end_built :
      (list n size : ℕ) (h : Heap) (done : Stats) (xs : List Ptr)
      → HoldsList h list size done xs
      → ListBuilds list n h done stats_end xs
  unfolding new_stats after_stats used_stats
  end_built list n size h done xs held =
      (h, size, refl, rw (append_stats-end done, append-nil xs) held, λ a out. refl)
