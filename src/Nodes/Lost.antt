-- ===== src/Nodes/Lost.antt =====
-- src/parser.c and src/parser.y: nodes that are lost when they are linked.
use phantomshell.Base.{ℕ, suc, ◌≡◌, refl, ◌∙◌, false, none, some, List, [], ◌∷◌, ◌++◌, ◌==◌, arith}
use phantomshell.Ast.{Stats}
use phantomshell.Nodes.{
  Ptr, null, scope, stat_list, stat_switch_choice, Heap, write, ok, fault, Cmd, skip, load, ◌>>◌,
}
use phantomshell.Nodes.Free.{ast_free_node}
use phantomshell.Nodes.Make.{store_next, ast_link_node_stat_list, ast_new_node_stat_switch_choice}
use phantomshell.Nodes.Blocks.{has}
use phantomshell.Nodes.Frees.{unless_null}
use phantomshell.Nodes.Renext.{write_here}
use phantomshell.Nodes.Chain.{relink, last_mem}
use phantomshell.Nodes.Linked.{
  HoldsList, list_empty, list_chain, link_empty, link_behind, write_other, ne_of_mem, counted,
}

store_next-scope :
    (h : Heap) (q stats : Ptr)
    → h q ≡ some (scope stats)
    → store_next q null h ≡ ok (write q (some (scope null)) h)
unfolding store_next
store_next-scope h q stats cell = rw (cell, load) refl

free_empty_scope :
    (n : ℕ) (q : Ptr) (g : Heap)
    → g null ≡ none
    → g q ≡ some (scope null)
    → ast_free_node (suc n) q g ≡ fault
unfolding ast_free_node
free_empty_scope n q g empty cell = rw (cell, load) (rw (cell, load) (rw (empty, load) refl))

-- On a heap with nothing at the null pointer, a block in braces that is linked as a statement behind a list
-- of statements which stands apart from it loses its own statements: the field that holds them is the one
-- that is written as `next`. To free the block is a fault then.
pub ast_link_node_stat_list-scope :
    (h : Heap) (p q size inner n : ℕ) (stats : Stats) (xs : List Ptr)
    → h null ≡ none
    → HoldsList h p size stats xs
    → h q ≡ some (scope inner)
    → has q (null ∷ p ∷ xs) ≡ false
    → (p == null) ≡ false
    → (g : Heap) × (ast_link_node_stat_list p q h ≡ ok g)
      × (g q ≡ some (scope null))
      × (ast_free_node (suc n) q g ≡ fault)
ast_link_node_stat_list-scope h p q size inner n stats xs empty (list_empty cell) block out there =
    let h1 = write q (some (scope null)) h in
    let list = stat_list (counted size) q q in
    let g = write p (some list) h1 in
    let left : g q ≡ some (scope null) =
      write_other h1 p q list (ground arith) ∙ write_here h q (scope null) in
    let none_there : g null ≡ none =
      write_other h1 p null list (ground arith)
      ∙ write_other h q null (scope null) (ground arith)
      ∙ empty in
    (
      g,
      link_empty h p q size cell ∙ rw (store_next-scope h q inner block) refl,
      left,
      free_empty_scope n q g none_there left,
    )
ast_link_node_stat_list-scope h p q size inner n stats xs empty
      (list_chain {first = first} {last = last} cell chain out_xs) block out there =
    let (last_c, last_cell, last_in) = last_mem h first last null stats xs chain in
    let (c, stored, _) = relink h first last null q stats xs chain in
    let h1 = write last (some c) h in
    let other : (q == last) ≡ false = ne_of_mem q last xs (ground arith) last_in in
    let last_there = unless_null h last last_c empty last_cell in
    let block1 : h1 q ≡ some (scope inner) = write_other h last q c other ∙ block in
    let h2 = write q (some (scope null)) h1 in
    let list = stat_list (counted size) first q in
    let g = write p (some list) h2 in
    let left : g q ≡ some (scope null) =
      write_other h2 p q list (ground arith) ∙ write_here h1 q (scope null) in
    let none_there : g null ≡ none =
      write_other h2 p null list (ground arith)
      ∙ write_other h1 q null (scope null) (ground arith)
      ∙ write_other h last null c (ground arith)
      ∙ empty in
    (
      g,
      link_behind h p q size first last cell last_there
          ∙ rw stored (rw (store_next-scope h1 q inner block1) refl),
      left,
      free_empty_scope n q g none_there left,
    )

-- The choices behind the first one of a switch, in the order of the text: a fresh block for each, with the
-- expression and the scope. The action of `switchSelectionBlock` links each to the first.
abbrev pub Choice : Type 0
Choice = Ptr × Ptr × Ptr

abbrev pub read_more_choices : Ptr → List Choice → Cmd
read_more_choices first [] = skip
read_more_choices first ((fresh, expr, body) ∷ more) =
    ast_new_node_stat_switch_choice fresh expr body first >> read_more_choices first more

abbrev pub blocks : List Choice → List Ptr
blocks [] = []
blocks ((fresh, _, _) ∷ more) = fresh ∷ blocks more

linked_choice :
    (h : Heap) (first e b next fresh expr body : Ptr)
    → (first == null) ≡ false
    → (first == fresh) ≡ false
    → h first ≡ some (stat_switch_choice e b next)
    → (ast_new_node_stat_switch_choice fresh expr body first h
        ≡ ok (
            write first
              (some (stat_switch_choice e b fresh))
              (write fresh (some (stat_switch_choice expr body null)) h)))
unfolding ast_new_node_stat_switch_choice
linked_choice h first e b next fresh expr body there other cell =
    let c = stat_switch_choice expr body null in
    let cell1 : write fresh (some c) h first ≡ some (stat_switch_choice e b next) =
      write_other h fresh first c other ∙ cell in
    rw there (rw (cell1, load) refl)

-- However many choices follow the first one of a switch, each with a block of its own, only the last of them
-- is linked: it is the `next` of the first one, and has no other behind it.
pub read_more_choices-last :
    (h : Heap) (first e b next fresh expr body : Ptr) (more : List Choice)
    → (first == null) ≡ false
    → has first (blocks (more ++ ((fresh, expr, body) ∷ []))) ≡ false
    → h first ≡ some (stat_switch_choice e b next)
    → (g : Heap) × (read_more_choices first (more ++ ((fresh, expr, body) ∷ [])) h ≡ ok g)
      × (g first ≡ some (stat_switch_choice e b fresh))
      × (g fresh ≡ some (stat_switch_choice expr body null))
read_more_choices-last h first e b next fresh expr body [] there out cell =
    let c = stat_switch_choice expr body null in
    let h1 = write fresh (some c) h in
    let d = stat_switch_choice e b fresh in
    (
      write first (some d) h1,
      rw (linked_choice h first e b next fresh expr body there (ground arith) cell) refl,
      write_here h1 first d,
      write_other h1 first fresh d (ground arith) ∙ write_here h fresh c,
    )
read_more_choices-last h first e b next fresh expr body ((fresh', expr', body') ∷ more) there out
      cell =
    let h1 = write fresh' (some (stat_switch_choice expr' body' null)) h in
    let h2 = write first (some (stat_switch_choice e b fresh')) h1 in
    let (g, done, at_first, at_last) =
      read_more_choices-last h2 first e b fresh' fresh expr body more there (ground arith)
        (write_here h1 first (stat_switch_choice e b fresh')) in
    (
      g,
      rw (linked_choice h first e b next fresh' expr' body' there (ground arith) cell) done,
      at_first,
      at_last,
    )
