-- ===== src/Nodes/Renext.antt =====
-- src/parser.c: a statement whose `next` is set, and what a write leaves as it was.
use phantomshell.Base.{◌≡◌, refl, false, some, List, ◌++◌, ◌==◌, arith, Bool-cases, inl, inr}
use phantomshell.Ast.{Stat}
use phantomshell.Nodes.{
  Ptr, null, Cell, stat_expr, stat_ret, stat_if, stat_switch, stat_while, Heap, write, ok, load,
  set_next,
}
use phantomshell.Nodes.Make.{store_next}
use phantomshell.Nodes.Blocks.{has, Agrees}
use phantomshell.Nodes.Holds.{
  HoldsStat, holds_stat_expr, holds_stat_ret, holds_if, holds_if_else, holds_switch, holds_while,
}
use phantomshell.Nodes.Frees.{out_left, out_right}
use phantomshell.Nodes.Same.{same_expr, same_scope, same_choices}

-- A write outside of some blocks.
pub Agrees-write :
    (h : Heap) (p : Ptr) (c : Cell) (xs : List Ptr)
    → has p xs ≡ false
    → Agrees xs h (write p (some c) h)
unfolding write
Agrees-write h p c xs out a mem = elim (Bool-cases (a == p)) [
  | inl same ↦ let e : a ≡ p = ground arith in let clash = rw e at mem in cc
  | inr other ↦ rw other refl
]

pub write_here : (h : Heap) (p : Ptr) (c : Cell) → write p (some c) h p ≡ some c
unfolding write
write_here h p c = ground arith

store_next-ok :
    (h : Heap) (p q : Ptr) (c c' : Cell)
    → h p ≡ some c
    → set_next q c ≡ some c'
    → store_next p q h ≡ ok (write p (some c') h)
unfolding store_next
store_next-ok h p q c c' cell next = rw (cell, load) (rw next refl)

-- A statement whose `next` is set stays where it is.
pub renext :
    (h : Heap) (p next m : Ptr) (s : Stat) (xs : List Ptr)
    → HoldsStat h p next s xs
    → (c : Cell) × (store_next p m h ≡ ok (write p (some c) h))
      × HoldsStat (write p (some c) h) p m s xs
renext h p next m s xs (holds_stat_expr {q = q} {xs = ys} e cell held out) =
    let c = stat_expr m q in
    let g = write p (some c) h in
    (
      c,
      store_next-ok h p m _ c cell refl,
      holds_stat_expr e (write_here h p c) (same_expr h g q e ys held (Agrees-write h p c ys out))
          out,
    )
renext h p next m s xs (holds_stat_ret {q = q} {xs = ys} e cell held out) =
    let c = stat_ret m q in
    let g = write p (some c) h in
    (
      c,
      store_next-ok h p m _ c cell refl,
      holds_stat_ret e (write_here h p c) (same_expr h g q e ys held (Agrees-write h p c ys out))
          out,
    )
renext h p next m s xs
      (holds_if {q = q} {r = r} {xs = ys} {ys = zs} e t cell held held_t apart out) =
    let c = stat_if m q r null in
    let g = write p (some c) h in
    (
      c,
      store_next-ok h p m _ c cell refl,
      holds_if e t (write_here h p c)
          (same_expr h g q e ys held (Agrees-write h p c ys (out_left p ys zs out)))
          (same_scope h g r t zs held_t (Agrees-write h p c zs (out_right p ys zs out))) apart out,
    )
renext h p next m s xs
      (holds_if_else {q = q} {r = r} {s = u} {xs = ys} {ys = zs} {zs = ws} e t f cell held held_t
        held_f apart apart' out) =
    let c = stat_if m q r u in
    let g = write p (some c) h in
    let rest = out_right p ys (zs ++ ws) out in
    (
      c,
      store_next-ok h p m _ c cell refl,
      holds_if_else e t f (write_here h p c)
          (same_expr h g q e ys held (Agrees-write h p c ys (out_left p ys (zs ++ ws) out)))
          (same_scope h g r t zs held_t (Agrees-write h p c zs (out_left p zs ws rest)))
          (same_scope h g u f ws held_f (Agrees-write h p c ws (out_right p zs ws rest))) apart
          apart' out,
    )
renext h p next m s xs
      (holds_switch {q = q} {r = r} {xs = ys} {ys = zs} e choices cell held held_c apart out) =
    let c = stat_switch m q r in
    let g = write p (some c) h in
    (
      c,
      store_next-ok h p m _ c cell refl,
      holds_switch e choices (write_here h p c)
          (same_expr h g q e ys held (Agrees-write h p c ys (out_left p ys zs out)))
          (same_choices h g r choices zs held_c (Agrees-write h p c zs (out_right p ys zs out)))
          apart out,
    )
renext h p next m s xs
      (holds_while {q = q} {r = r} {xs = ys} {ys = zs} e b cell held held_b apart out) =
    let c = stat_while m q r in
    let g = write p (some c) h in
    (
      c,
      store_next-ok h p m _ c cell refl,
      holds_while e b (write_here h p c)
          (same_expr h g q e ys held (Agrees-write h p c ys (out_left p ys zs out)))
          (same_scope h g r b zs held_b (Agrees-write h p c zs (out_right p ys zs out))) apart out,
    )
