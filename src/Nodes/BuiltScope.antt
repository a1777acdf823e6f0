-- ===== src/Nodes/BuiltScope.antt =====
-- src/parser.c and src/parser.y: one more statement of a list, and a scope around a list.
use mathlib.Core.List.{append_assoc}
use phantomshell.Base.{
  ℕ, suc, ◌≡◌, refl, ◌∙◌, true, false, none, some, List, [], ◌∷◌, ◌++◌, ◌==◌, arith,
}
use phantomshell.Ast.{Stat, Stats, stats_end, stats_link}
use phantomshell.Nodes.{Ptr, null, scope, stat_list, Heap, write}
use phantomshell.Nodes.Make.{ast_new_node_stat_list}
use phantomshell.Nodes.Blocks.{has-append, has_last}
use phantomshell.Nodes.Frees.{out_left, out_right}
use phantomshell.Nodes.Renext.{write_here}
use phantomshell.Nodes.Chain.{snoc}
use phantomshell.Nodes.Linked.{HoldsList, list_empty, write_other, ast_link_node_stat_list-snoc}
use phantomshell.Nodes.Used.{Between, ahead-Apart, ahead_out}
use phantomshell.Nodes.Built.{OnlyAt, only-Agrees, swap-Apart}
use phantomshell.Nodes.BuildStat.{link_stat, new_body, new_stats}
use phantomshell.Nodes.UsedStat.{
  after_stat, after_body, after_stats, used_stat, used_body, used_stats, stat-Between,
  stats-Between, behind-Between,
}
use phantomshell.Nodes.BuiltStat.{StatBuilds, ScopeBuilds}
use phantomshell.Nodes.BuiltList.{
  append_stats-snoc, same_list, scope_made, still_empty, mix-Between, ListBuilds,
}

module _ (malloc : ℕ → Ptr) (distinct : (i j : ℕ) → (malloc i == malloc j) ≡ true → i ≡ j)
    (there : (i : ℕ) → (malloc i == null) ≡ false) where
  pub link_built :
      (list n size first : ℕ) (h : Heap) (done : Stats) (s : Stat) (rest : Stats) (xs : List Ptr)
      → Between malloc first n (xs ++ (list ∷ []))
      → h null ≡ none
      → HoldsList h list size done xs
      → StatBuilds malloc distinct n h s
      → ((g : Heap) (size' : ℕ)
          → g null ≡ none
          → HoldsList g list size' (snoc done s) (xs ++ used_stat malloc n s)
          → ListBuilds malloc distinct there list
              (after_stat n s)
              g
              (snoc done s)
              rest
              (xs ++ used_stat malloc n s))
      → ListBuilds malloc distinct there list n h done (stats_link s rest) xs
  unfolding new_stats after_stats used_stats link_stat
  link_built list n size first h done s rest xs old empty held (q, g, made_s, held_s, only_s)
        then_rest =
      let m = after_stat n s in
      let ys = used_stat malloc n s in
      let zs = used_stats malloc m rest in
      let new = stat-Between malloc n s in
      let apart =
        ahead-Apart malloc distinct first n n m (xs ++ (list ∷ [])) ys (omega arith) old new in
      let held' =
        same_list h g list size done xs held
          (only-Agrees h g (xs ++ (list ∷ [])) ys only_s apart) in
      let empty' = still_empty malloc distinct there n m h g ys new only_s empty in
      let (k, linked, held_k, only_k) =
        ast_link_node_stat_list-snoc g list q null size done s xs ys empty' held' held_s
          (λ a mem. out_left a xs (list ∷ []) (apart a mem))
          (swap-Apart (xs ++ (list ∷ [])) ys apart list (has_last list xs)) in
      let all = mix-Between malloc distinct there first n m xs ys (list ∷ []) old new in
      let only_all : OnlyAt ((xs ++ ys) ++ (list ∷ [])) g k =
        λ a out. only_k a (ground (arith, has-append a (xs ++ ys) (list ∷ []))) in
      let (last, size', made_rest, held_all, only_rest) =
        then_rest k _ (still_empty malloc distinct there first m g k _ all only_all empty')
          held_k in
      (
        last,
        size',
        rw made_s (rw linked made_rest),
        rw (← append_stats-snoc done s rest, ← append_assoc xs ys zs) held_all,
        λ a out.
            let apart_xs = out_left a (xs ++ (ys ++ zs)) (list ∷ []) out in
            let apart_ys = out_right a xs (ys ++ zs) apart_xs in
            let at_list = out_right a (xs ++ (ys ++ zs)) (list ∷ []) out in
            only_rest a (
              ground (
                arith,
                has-append a ((xs ++ ys) ++ zs) (list ∷ []),
                has-append a (xs ++ ys) zs,
                has-append a xs ys,
                has-append a xs (ys ++ zs),
                has-append a ys zs,
              ))
            ∙ only_all a (
                ground (
                  arith,
                  has-append a (xs ++ ys) (list ∷ []),
                  has-append a xs ys,
                  has-append a xs (ys ++ zs),
                  has-append a ys zs,
                ))
            ∙ only_s a (out_left a ys zs apart_ys),
      )

  pub scope_built :
      (n : ℕ) (h : Heap) (stats : Stats)
      → h null ≡ none
      → ((g : Heap)
          → g null ≡ none
          → HoldsList g (malloc n) 0 stats_end []
          → ListBuilds malloc distinct there (malloc n) (suc n) g stats_end stats [])
      → ScopeBuilds malloc distinct n h stats
  unfolding new_body after_body used_body ast_new_node_stat_list
  scope_built n h stats empty then_stats =
      let list = stat_list 0 null null in
      let g = write (malloc n) (some list) h in
      let other = there n in
      let empty' : g null ≡ none = write_other h (malloc n) null list (ground arith) ∙ empty in
      let (k, size, made_all, held, only) =
        then_stats g empty' (list_empty (write_here h (malloc n) list)) in
      let m = after_stats (suc n) stats in
      let xs = used_stats malloc (suc n) stats in
      let inside = behind-Between malloc n m xs (stats-Between malloc (suc n) stats) in
      let out = ahead_out malloc distinct n m m (xs ++ (malloc n ∷ [])) (omega arith) inside in
      let (made_scope, held_scope) = scope_made k (malloc m) (malloc n) size stats xs held out in
      (
        malloc m,
        write (malloc m) (some (scope (malloc n))) k,
        rw made_all (rw made_scope refl),
        held_scope,
        λ a out'.
            let before = out_left a (xs ++ (malloc n ∷ [])) (malloc m ∷ []) out' in
            let at_list = out_right a xs (malloc n ∷ []) before in
            let at_scope = out_right a (xs ++ (malloc n ∷ [])) (malloc m ∷ []) out' in
            write_other k (malloc m) a (scope (malloc n)) (ground arith)
            ∙ only a before
            ∙ write_other h (malloc n) a list (ground arith),
      )
