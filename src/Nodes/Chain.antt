-- ===== src/Nodes/Chain.antt =====
-- src/parser.c: the statements of a list, linked from the first to the last.
use mathlib.Core.List.{append_assoc, append-nil}
use phantomshell.Base.{◌≡◌, true, some, List, [], ◌++◌, arith, Bool-cases, inl, inr}
use phantomshell.Ast.{Stat, Stats, stats_end, stats_link}
use phantomshell.Nodes.{Ptr, null, Cell, Heap, write, ok}
use phantomshell.Nodes.Make.{store_next}
use phantomshell.Nodes.Blocks.{has, has-append, has_left, has_right, Apart, Agrees}
use phantomshell.Nodes.Holds.{HoldsStat, HoldsStats, holds_end, holds_link, stat_cell}
use phantomshell.Nodes.Frees.{out_left, out_right}
use phantomshell.Nodes.Same.{same_stat}
use phantomshell.Nodes.Renext.{Agrees-write, renext}

-- The statements from the first to the last; the `next` of the last is `stop`.
pub data Chain (h : Heap) : (first last stop : Ptr) → Stats → List Ptr → Type 0 where
  chain_one :
      {p stop : Ptr} {xs : List Ptr} (s : Stat)
      → HoldsStat h p stop s xs
      → Chain h p p stop (stats_link s stats_end) xs
  chain_more :
      {p next last stop : Ptr} {xs ys : List Ptr} (s : Stat) (rest : Stats)
      → HoldsStat h p next s xs
      → Chain h next last stop rest ys
      → Apart xs ys
      → Chain h p last stop (stats_link s rest) (xs ++ ys)

abbrev pub snoc : Stats → Stat → Stats
snoc stats_end s = stats_link s stats_end
snoc (stats_link t rest) s = stats_link t (snoc rest s)

pub same-Chain :
    (h g : Heap) (first last stop : Ptr) (s : Stats) (xs : List Ptr)
    → Chain h first last stop s xs
    → Agrees xs h g
    → Chain g first last stop s xs
same-Chain h g first last stop s xs (chain_one t held) same =
    chain_one t (same_stat h g first stop t xs held same)
same-Chain h g first last stop s xs
      (chain_more {next = next} {xs = ys} {ys = zs} t rest held chain apart) same =
    chain_more t rest (same_stat h g first next t ys held λ a mem. same a (has_left a ys zs mem))
      (same-Chain h g next last stop rest zs chain λ a mem. same a (has_right a ys zs mem)) apart

pub last_mem :
    (h : Heap) (first last stop : Ptr) (s : Stats) (xs : List Ptr)
    → Chain h first last stop s xs
    → (c : Cell) × (h last ≡ some c) × (has last xs ≡ true)
last_mem h first last stop s xs (chain_one t held) =
    let (c, cell, _, mem) = stat_cell held in (c, cell, mem)
last_mem h first last stop s xs
      (chain_more {next = next} {xs = ys} {ys = zs} t rest held chain apart) =
    let (c, cell, mem) = last_mem h next last stop rest zs chain in
    (c, cell, has_right last ys zs mem)

-- The `next` of the last statement is set.
pub relink :
    (h : Heap) (first last stop m : Ptr) (s : Stats) (xs : List Ptr)
    → Chain h first last stop s xs
    → (c : Cell) × (store_next last m h ≡ ok (write last (some c) h))
      × Chain (write last (some c) h) first last m s xs
relink h first last stop m s xs (chain_one t held) =
    let (c, stored, held') = renext h first stop m t xs held in (c, stored, chain_one t held')
relink h first last stop m s xs
      (chain_more {next = next} {xs = ys} {ys = zs} t rest held chain apart) =
    let (c, stored, chain') = relink h next last stop m rest zs chain in
    let (_, _, mem) = last_mem h next last stop rest zs chain in
    (
      c,
      stored,
      chain_more t rest
          (same_stat h (write last (some c) h) first next t ys held
            (Agrees-write h last c ys (apart last mem)))
          chain' apart,
    )

Apart-both : (us vs ys : List Ptr) → Apart us vs → Apart (us ++ vs) ys → Apart us (vs ++ ys)
Apart-both us vs ys left all a mem =
    let split = has-append a vs ys in
    elim (Bool-cases (has a vs)) [
      | inl i ↦ left a i
      | inr o ↦ out_left a us vs (all a (ground arith))
    ]

-- A statement behind the last one.
pub append-Chain :
    (h : Heap) (first last q stop : Ptr) (stats : Stats) (xs : List Ptr) (s : Stat) (ys : List Ptr)
    → Chain h first last q stats xs
    → HoldsStat h q stop s ys
    → Apart xs ys
    → Chain h first q stop (snoc stats s) (xs ++ ys)
append-Chain h first last q stop stats xs s ys (chain_one t held) held' apart =
    chain_more t (stats_link s stats_end) held (chain_one s held') apart
append-Chain h first last q stop stats xs s ys
      (chain_more {next = next} {xs = us} {ys = vs} t rest held chain apart') held' apart =
    let both =
      λ (a : Ptr) (mem : has a (vs ++ ys) ≡ true). Apart-both us vs ys apart' apart a mem in
    rw (append_assoc us vs ys) (
      chain_more t (snoc rest s) held
        (append-Chain h next last q stop rest vs s ys chain held'
          λ a mem. out_right a us vs (apart a mem))
        both)

-- A chain that ends is what a list holds.
pub Chain-stats :
    (h : Heap) (first last : Ptr) (s : Stats) (xs : List Ptr)
    → Chain h first last null s xs
    → HoldsStats h first s xs
Chain-stats h first last s xs (chain_one t held) =
    let single : HoldsStats h first (stats_link t stats_end) (xs ++ []) =
      holds_link t stats_end held holds_end (λ a mem. cc) in
    rw (append-nil xs) at single
Chain-stats h first last s xs
      (chain_more {next = next} {xs = ys} {ys = zs} t rest held chain apart) =
    holds_link t rest held (Chain-stats h next last rest zs chain) apart
