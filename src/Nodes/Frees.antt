-- ===== src/Nodes/Frees.antt =====
-- src/parser.c: commands that free the blocks of a list and nothing else.
use mathlib.Core.List.{append_assoc}
use phantomshell.Base.{
  ◌≡◌, refl, ◌∙◌, true, false, none, some, List, [], ◌∷◌, ◌++◌, ◌==◌, arith, Bool-cases, inl, inr,
}
use phantomshell.Nodes.{Ptr, null, Cell, Heap, write, ok, Cmd, ◌>>◌, load, free}
use phantomshell.Nodes.Blocks.{has, has-append, Apart, Agrees, erase}

-- On every heap that has the blocks as the heap `h` does, the command frees them in their order.
abbrev pub Frees : Heap → List Ptr → Cmd → Type 0
Frees h xs command = (g : Heap) → Agrees xs h g → command g ≡ ok (erase xs g)

pub erase-append : (xs ys : List Ptr) (h : Heap) → erase (xs ++ ys) h ≡ erase ys (erase xs h)
unfolding erase
erase-append [] ys h = refl
erase-append (x ∷ xs) ys h = erase-append xs ys (write x none h)

pub erase_other : (a : Ptr) (xs : List Ptr) (h : Heap) → has a xs ≡ false → erase xs h a ≡ h a
unfolding erase write
erase_other a [] h out = refl
erase_other a (x ∷ xs) h out = ground (arith, erase_other a xs (write x none h))

pub last-Apart : (xs : List Ptr) (p : Ptr) → has p xs ≡ false → Apart xs (p ∷ [])
last-Apart xs p out a in_last = let same : a ≡ p = ground arith in rw same out

pub seq-Frees :
    (h : Heap) (xs ys : List Ptr) (first second : Cmd)
    → Frees h xs first
    → Frees h ys second
    → Apart xs ys
    → Frees h (xs ++ ys) (first >> second)
seq-Frees h xs ys first second f s apart g a =
    let left : Agrees xs h g = λ b i. a b (rw (has-append b xs ys, i) refl) in
    let right : Agrees ys h (erase xs g) =
      λ b i. erase_other b xs g (apart b i) ∙ a b (ground (arith, has-append b xs ys)) in
    rw (f g left, erase-append xs ys g) (s (erase xs g) right)

pub free-Frees : (h : Heap) (p : Ptr) (c : Cell) → h p ≡ some c → Frees h (p ∷ []) (free p)
unfolding free erase
free-Frees h p c cell g a =
    let here : g p ≡ some c = a p (ground arith) ∙ cell in rw (here, free) refl

-- A block that is read before it is freed with the others.
pub load-Frees :
    (h : Heap) (p : Ptr) (c : Cell) (xs : List Ptr) (f : Cell → Cmd)
    → h p ≡ some c
    → has p xs ≡ true
    → Frees h xs (f c)
    → Frees h xs (load p f)
load-Frees h p c xs f cell mem rest g a =
    let here : g p ≡ some c = a p mem ∙ cell in rw (here, load) (rest g a)

pub unless_null :
    (h : Heap) (p : Ptr) (c : Cell) → h null ≡ none → h p ≡ some c → (p == null) ≡ false
unless_null h p c empty cell = ground arith

-- What follows the blocks before `p` in a list that ends with it.
pub then_free-Frees :
    (h : Heap) (p : Ptr) (c : Cell) (xs : List Ptr) (first : Cmd)
    → h p ≡ some c
    → Frees h xs first
    → has p xs ≡ false
    → Frees h (xs ++ (p ∷ [])) (first >> free p)
then_free-Frees h p c xs first cell f out =
    seq-Frees h xs (p ∷ []) first (free p) f (free-Frees h p c cell) (last-Apart xs p out)

pub then-Apart :
    (xs ys : List Ptr) (p : Ptr) → Apart xs ys → has p xs ≡ false → Apart xs (ys ++ (p ∷ []))
then-Apart xs ys p apart out a mem =
    let split = has-append a ys (p ∷ []) in
    elim (Bool-cases (has a ys)) [
      | inl i ↦ apart a i
      | inr o ↦ let same : a ≡ p = ground (arith, split) in rw same out
    ]

pub out_left : (a : Ptr) (xs ys : List Ptr) → has a (xs ++ ys) ≡ false → has a xs ≡ false
out_left a xs ys out = ground (arith, has-append a xs ys)

pub out_right : (a : Ptr) (xs ys : List Ptr) → has a (xs ++ ys) ≡ false → has a ys ≡ false
out_right a xs ys out = ground (arith, has-append a xs ys)

-- Two parts and then the block itself.
pub then_both-Frees :
    (h : Heap) (p : Ptr) (c : Cell) (xs ys : List Ptr) (first second : Cmd)
    → h p ≡ some c
    → Frees h xs first
    → Frees h ys second
    → Apart xs ys
    → has p (xs ++ ys) ≡ false
    → Frees h (xs ++ (ys ++ (p ∷ []))) (first >> (second >> free p))
then_both-Frees h p c xs ys first second cell f s apart out =
    seq-Frees h xs (ys ++ (p ∷ [])) first (second >> free p) f
      (then_free-Frees h p c ys second cell s (out_right p xs ys out))
      (then-Apart xs ys p apart (out_left p xs ys out))

-- Three parts and then the block itself.
pub then_three-Frees :
    (h : Heap) (p : Ptr) (c : Cell) (xs ys zs : List Ptr) (first second third : Cmd)
    → h p ≡ some c
    → Frees h xs first
    → Frees h ys second
    → Frees h zs third
    → Apart xs (ys ++ zs)
    → Apart ys zs
    → has p (xs ++ (ys ++ zs)) ≡ false
    → Frees h (xs ++ (ys ++ (zs ++ (p ∷ [])))) (first >> (second >> (third >> free p)))
then_three-Frees h p c xs ys zs first second third cell f s t apart apart' out =
    let out_xs = out_left p xs (ys ++ zs) out in
    seq-Frees h xs (ys ++ (zs ++ (p ∷ []))) first (second >> (third >> free p)) f
      (then_both-Frees h p c ys zs second third cell s t apart' (out_right p xs (ys ++ zs) out))
      λ a mem. then-Apart xs (ys ++ zs) p apart out_xs a (rw (append_assoc ys zs (p ∷ [])) mem)
