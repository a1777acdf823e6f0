-- ===== src/Nodes/Linked.antt =====
-- src/parser.c: `ast_link_node_stat_list`.
use phantomshell.Base.{
  ℕ, ◌+◌, ◌%◌, ◌^◌, ◌≡◌, refl, ◌∙◌, true, false, none, some, List, [], ◌∷◌, ◌++◌, ◌==◌, arith,
  Bool-cases, inl, inr,
}
use phantomshell.Ast.{Stat, Stats, stats_end}
use phantomshell.Nodes.{Ptr, null, Cell, stat_list, Heap, write, ok, load, ◌>>◌}
use phantomshell.Nodes.Make.{store, store_next, ast_link_node_stat_list}
use phantomshell.Nodes.Blocks.{has, has-append, Apart}
use phantomshell.Nodes.Holds.{HoldsStat, stat_cell}
use phantomshell.Nodes.Frees.{unless_null}
use phantomshell.Nodes.Same.{same_stat}
use phantomshell.Nodes.Renext.{Agrees-write, write_here, renext}
use phantomshell.Nodes.Chain.{Chain, chain_one, snoc, relink, same-Chain, last_mem, append-Chain}

-- A list of statements at a pointer, with the size that it has counted.
pub data HoldsList (h : Heap) (p : Ptr) (size : ℕ) : Stats → List Ptr → Type 0 where
  list_empty : h p ≡ some (stat_list size null null) → HoldsList h p size stats_end []
  list_chain :
      {first last : Ptr} {s : Stats} {xs : List Ptr}
      → h p ≡ some (stat_list size first last)
      → Chain h first last null s xs
      → has p xs ≡ false
      → HoldsList h p size s xs

pub write_other : (h : Heap) (p a : Ptr) (c : Cell) → (a == p) ≡ false → write p (some c) h a ≡ h a
unfolding write
write_other h p a c other = rw other refl

not_both : (p : Ptr) (xs ys : List Ptr) → Apart xs ys → has p xs ≡ true → has p ys ≡ false
not_both p xs ys apart mem = elim (Bool-cases (has p ys)) [
  | inl i ↦ let clash = apart p i in cc
  | inr o ↦ o
]

pub ne_of_mem : (a p : Ptr) (xs : List Ptr) → has a xs ≡ false → has p xs ≡ true → (a == p) ≡ false
ne_of_mem a p xs out mem = elim (Bool-cases (a == p)) [
  | inl same ↦ let e : a ≡ p = ground arith in let clash = rw e at out in cc
  | inr other ↦ other
]

abbrev pub counted : ℕ → ℕ
counted size = (size + 1) % 2 ^ 32

pub link_empty :
    (h : Heap) (p q size : ℕ)
    → h p ≡ some (stat_list size null null)
    → ast_link_node_stat_list p q h
      ≡ (store_next q null >> store p (stat_list (counted size) q q)) h
unfolding ast_link_node_stat_list
link_empty h p q size cell = rw (cell, load) refl

pub link_behind :
    (h : Heap) (p q size first last : ℕ)
    → h p ≡ some (stat_list size first last)
    → (last == null) ≡ false
    → ast_link_node_stat_list p q h
      ≡ (store_next last q >> (store_next q null >> store p (stat_list (counted size) first q))) h
unfolding ast_link_node_stat_list
link_behind h p q size first last cell there = rw (cell, load) (rw there refl)

-- On a heap with nothing at the null pointer, where a list of statements and another statement stand apart
-- from each other: the statement is linked without a fault, the list then has it as its last one, is
-- counted one longer modulo 2 ^ 32, and no other block has changed.
pub ast_link_node_stat_list-snoc :
    (h : Heap) (p q next size : ℕ) (stats : Stats) (s : Stat) (xs ys : List Ptr)
    → h null ≡ none
    → HoldsList h p size stats xs
    → HoldsStat h q next s ys
    → Apart xs ys
    → has p ys ≡ false
    → (g : Heap) × (ast_link_node_stat_list p q h ≡ ok g)
      × HoldsList g p ((size + 1) % 2 ^ 32) (snoc stats s) (xs ++ ys)
      × ((a : Ptr) → has a (p ∷ (xs ++ ys)) ≡ false → g a ≡ h a)
ast_link_node_stat_list-snoc h p q next size stats s xs ys empty (list_empty cell) held apart out =
    let (c, stored, held') = renext h q next null s ys held in
    let h1 = write q (some c) h in
    let list = stat_list (counted size) q q in
    let (_, _, _, q_mem) = stat_cell held in
    (
      write p (some list) h1,
      link_empty h p q size cell ∙ rw stored refl,
      list_chain (write_here h1 p list)
          (chain_one s (
            same_stat h1 (write p (some list) h1) q null s ys held'
              (Agrees-write h1 p list ys out)))
          out,
      λ a outside.
          write_other h1 p a list (ground arith)
          ∙ write_other h q a c (ne_of_mem a q ys (ground arith) q_mem),
    )
ast_link_node_stat_list-snoc h p q next size stats s xs ys empty
      (list_chain {first = first} {last = last} cell chain out_xs) held apart out =
    let (_, last_cell, last_in) = last_mem h first last null stats xs chain in
    let (_, _, _, q_mem) = stat_cell held in
    let (c, stored, chain1) = relink h first last null q stats xs chain in
    let h1 = write last (some c) h in
    let held1 =
      same_stat h h1 q next s ys held
        (Agrees-write h last c ys (not_both last xs ys apart last_in)) in
    let (d, stored', held2) = renext h1 q next null s ys held1 in
    let h2 = write q (some d) h1 in
    let chain2 =
      same-Chain h1 h2 first last q stats xs chain1 (Agrees-write h1 q d xs (apart q q_mem)) in
    let all = append-Chain h2 first last q null stats xs s ys chain2 held2 apart in
    let list = stat_list (counted size) first q in
    let out_all : has p (xs ++ ys) ≡ false = ground (arith, has-append p xs ys) in
    (
      write p (some list) h2,
      link_behind h p q size first last cell (unless_null h last _ empty last_cell)
          ∙ rw stored (rw stored' refl),
      list_chain (write_here h2 p list)
          (same-Chain h2 (write p (some list) h2) first q null (snoc stats s) (xs ++ ys) all
            (Agrees-write h2 p list (xs ++ ys) out_all))
          out_all,
      λ a outside.
          write_other h2 p a list (ground arith)
          ∙ write_other h1 q a d (ne_of_mem a q ys (ground (arith, has-append a xs ys)) q_mem)
          ∙ write_other h last a c
              (ne_of_mem a last xs (ground (arith, has-append a xs ys)) last_in),
    )
