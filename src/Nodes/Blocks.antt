-- ===== src/Nodes/Blocks.antt =====
-- src/parser.c: lists of blocks, and heaps that agree on them.
use mathlib.Core.Bool.{or_assoc}
use phantomshell.Base.{◌≡◌, refl, Bool, true, false, ◌||◌, none, List, [], ◌∷◌, ◌++◌, ◌==◌, arith}
use phantomshell.Nodes.{Ptr, Heap, write}

abbrev pub has : Ptr → List Ptr → Bool
has a [] = false
has a (p ∷ xs) = (a == p) || has a xs

pub has-append : (a : Ptr) (xs ys : List Ptr) → has a (xs ++ ys) ≡ (has a xs || has a ys)
has-append a [] ys = refl
has-append a (x ∷ xs) ys = rw (has-append a xs ys, or_assoc)

pub has_last : (p : Ptr) (xs : List Ptr) → has p (xs ++ (p ∷ [])) ≡ true
has_last p [] = ground arith
has_last p (x ∷ xs) = ground (arith, has_last p xs)

pub has_right : (a : Ptr) (xs ys : List Ptr) → has a ys ≡ true → has a (xs ++ ys) ≡ true
has_right a xs ys mem = ground (arith, has-append a xs ys)

pub has_left : (a : Ptr) (xs ys : List Ptr) → has a xs ≡ true → has a (xs ++ ys) ≡ true
has_left a xs ys mem = ground (arith, has-append a xs ys)

-- No block is in both.
abbrev pub Apart : List Ptr → List Ptr → Type 0
Apart xs ys = (a : Ptr) → has a ys ≡ true → has a xs ≡ false

abbrev pub Agrees : List Ptr → Heap → Heap → Type 0
Agrees xs h g = (a : Ptr) → has a xs ≡ true → g a ≡ h a

-- The blocks are freed, the first one first.
unfoldable pub erase : List Ptr → Heap → Heap
erase [] h = h
erase (p ∷ xs) h = erase xs (write p none h)
