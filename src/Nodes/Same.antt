-- ===== src/Nodes/Same.antt =====
-- src/parser.h: a tree stays where it is on a heap that agrees on its blocks.
use phantomshell.Base.{◌≡◌, ◌∙◌, some, List, [], ◌∷◌, ◌++◌, arith}
use phantomshell.Ast.{Expr, Stat, Stats, Choices}
use phantomshell.Nodes.{Ptr, Cell, Heap}
use phantomshell.Nodes.Blocks.{has_last, has_left, has_right, Agrees}
use phantomshell.Nodes.Holds.{
  HoldsExpr, holds_bool, holds_int, holds_float, holds_char, holds_string, holds_ident, holds_group,
  holds_unary, holds_cast, holds_binary, holds_ternary, HoldsStat, holds_stat_expr, holds_stat_ret,
  holds_if, holds_if_else, holds_switch, holds_while, HoldsScope, holds_scope, HoldsStats,
  holds_end, holds_link, HoldsChoices, holds_none, holds_case, holds_other,
}

module _ (h g : Heap) where
  Agrees-left : (xs ys : List Ptr) → Agrees (xs ++ ys) h g → Agrees xs h g
  Agrees-left xs ys same a mem = same a (has_left a xs ys mem)

  Agrees-right : (xs ys : List Ptr) → Agrees (xs ++ ys) h g → Agrees ys h g
  Agrees-right xs ys same a mem = same a (has_right a xs ys mem)

  Agrees-here :
      (p : Ptr) (c : Cell) (xs : List Ptr)
      → Agrees (xs ++ (p ∷ [])) h g
      → h p ≡ some c
      → g p ≡ some c
  Agrees-here p c xs same cell = same p (has_last p xs) ∙ cell

  -- The parts of a node with two or three of them.
  Agrees-two :
      (xs ys : List Ptr) (p : Ptr)
      → Agrees (xs ++ (ys ++ (p ∷ []))) h g
      → Agrees xs h g × Agrees ys h g × Agrees (p ∷ []) h g
  Agrees-two xs ys p same =
      let rest = Agrees-right xs (ys ++ (p ∷ [])) same in
      (
        Agrees-left xs (ys ++ (p ∷ [])) same,
        Agrees-left ys (p ∷ []) rest,
        Agrees-right ys (p ∷ []) rest,
      )

  Agrees-three :
      (xs ys zs : List Ptr) (p : Ptr)
      → Agrees (xs ++ (ys ++ (zs ++ (p ∷ [])))) h g
      → Agrees xs h g × Agrees ys h g × Agrees zs h g × Agrees (p ∷ []) h g
  Agrees-three xs ys zs p same =
      let rest = Agrees-right xs (ys ++ (zs ++ (p ∷ []))) same in
      let (of_ys, of_zs, of_p) = Agrees-two ys zs p rest in
      (Agrees-left xs (ys ++ (zs ++ (p ∷ []))) same, of_ys, of_zs, of_p)

  pub same_expr :
      (p : Ptr) (e : Expr) (xs : List Ptr) → HoldsExpr h p e xs → Agrees xs h g → HoldsExpr g p e xs
  same_expr p e xs (holds_bool b cell) same = holds_bool b (Agrees-here p _ [] same cell)
  same_expr p e xs (holds_int n cell) same = holds_int n (Agrees-here p _ [] same cell)
  same_expr p e xs (holds_float x cell) same = holds_float x (Agrees-here p _ [] same cell)
  same_expr p e xs (holds_char c cell) same = holds_char c (Agrees-here p _ [] same cell)
  same_expr p e xs (holds_string {v = v} s cell value out) same =
      holds_string s (Agrees-here p _ (v ∷ []) same cell) (same v (ground arith) ∙ value) out
  same_expr p e xs (holds_ident {v = v} t s cell value out) same =
      holds_ident t s (Agrees-here p _ (v ∷ []) same cell) (same v (ground arith) ∙ value) out
  same_expr p e xs (holds_group {q = q} {xs = ys} t inner cell held out) same =
      holds_group t inner (Agrees-here p _ ys same cell)
        (same_expr q inner ys held (Agrees-left ys (p ∷ []) same)) out
  same_expr p e xs (holds_unary {q = q} {xs = ys} t o inner cell held out) same =
      holds_unary t o inner (Agrees-here p _ ys same cell)
        (same_expr q inner ys held (Agrees-left ys (p ∷ []) same)) out
  same_expr p e xs (holds_cast {q = q} {xs = ys} t code inner cell held out) same =
      holds_cast t code inner (Agrees-here p _ ys same cell)
        (same_expr q inner ys held (Agrees-left ys (p ∷ []) same)) out
  same_expr p e xs
        (holds_binary {q = q} {r = r} {xs = ys} {ys = zs} t o left right cell held held' apart out)
        same =
      let (s1, s2, s3) = Agrees-two ys zs p same in
      holds_binary t o left right (Agrees-here p _ [] s3 cell) (same_expr q left ys held s1)
        (same_expr r right zs held' s2) apart out
  same_expr p e xs
        (holds_ternary {q = q} {r = r} {s = s} {xs = ys} {ys = zs} {zs = ws} t o op1 op2 op3 cell
          held held' held'' apart apart' out)
        same =
      let (s1, s2, s3, s4) = Agrees-three ys zs ws p same in
      holds_ternary t o op1 op2 op3 (Agrees-here p _ [] s4 cell) (same_expr q op1 ys held s1)
        (same_expr r op2 zs held' s2) (same_expr s op3 ws held'' s3) apart apart' out

  mutual
    pub same_scope :
        (p : Ptr) (s : Stats) (xs : List Ptr)
        → HoldsScope h p s xs
        → Agrees xs h g
        → HoldsScope g p s xs
    same_scope p s xs
          (holds_scope {list = list} {first = first} {xs = ys} size stats cell list_cell held out
            out')
          same =
        let inner = Agrees-left (ys ++ (list ∷ [])) (p ∷ []) same in
        holds_scope size stats (Agrees-here p _ (ys ++ (list ∷ [])) same cell)
          (Agrees-here list _ ys inner list_cell)
          (same_stats first stats ys held (Agrees-left ys (list ∷ []) inner)) out out'

    pub same_stats :
        (p : Ptr) (s : Stats) (xs : List Ptr)
        → HoldsStats h p s xs
        → Agrees xs h g
        → HoldsStats g p s xs
    same_stats p s xs holds_end same = holds_end
    same_stats p s xs (holds_link {next = next} {xs = ys} {ys = zs} stat rest held held' apart)
          same =
        holds_link stat rest (same_stat p next stat ys held (Agrees-left ys zs same))
          (same_stats next rest zs held' (Agrees-right ys zs same)) apart

    pub same_choices :
        (p : Ptr) (s : Choices) (xs : List Ptr)
        → HoldsChoices h p s xs
        → Agrees xs h g
        → HoldsChoices g p s xs
    same_choices p s xs holds_none same = holds_none
    same_choices p s xs
          (holds_case {q = q} {r = r} {next = next} {xs = ys} {ys = zs} {zs = ws} e b rest cell held
            held_b held_r apart out apart')
          same =
        let own : List Ptr = ys ++ (zs ++ (p ∷ [])) in
        let (s1, s2, s3) = Agrees-two ys zs p (Agrees-left own ws same) in
        holds_case e b rest (Agrees-here p _ [] s3 cell) (same_expr q e ys held s1)
          (same_scope r b zs held_b s2)
          (same_choices next rest ws held_r (Agrees-right own ws same)) apart out apart'
    same_choices p s xs
          (holds_other {r = r} {next = next} {ys = zs} {zs = ws} b rest cell held_b held_r out
            apart')
          same =
        let own : List Ptr = zs ++ (p ∷ []) in
        let mine = Agrees-left own ws same in
        holds_other b rest (Agrees-here p _ zs mine cell)
          (same_scope r b zs held_b (Agrees-left zs (p ∷ []) mine))
          (same_choices next rest ws held_r (Agrees-right own ws same)) out apart'

    pub same_stat :
        (p next : Ptr) (s : Stat) (xs : List Ptr)
        → HoldsStat h p next s xs
        → Agrees xs h g
        → HoldsStat g p next s xs
    same_stat p next s xs (holds_stat_expr {q = q} {xs = ys} e cell held out) same =
        holds_stat_expr e (Agrees-here p _ ys same cell)
          (same_expr q e ys held (Agrees-left ys (p ∷ []) same)) out
    same_stat p next s xs (holds_stat_ret {q = q} {xs = ys} e cell held out) same =
        holds_stat_ret e (Agrees-here p _ ys same cell)
          (same_expr q e ys held (Agrees-left ys (p ∷ []) same)) out
    same_stat p next s xs
          (holds_if {q = q} {r = r} {xs = ys} {ys = zs} e t cell held held_t apart out) same =
        let (s1, s2, s3) = Agrees-two ys zs p same in
        holds_if e t (Agrees-here p _ [] s3 cell) (same_expr q e ys held s1)
          (same_scope r t zs held_t s2) apart out
    same_stat p next s xs
          (holds_if_else {q = q} {r = r} {s = u} {xs = ys} {ys = zs} {zs = ws} e t f cell held
            held_t held_f apart apart' out)
          same =
        let (s1, s2, s3, s4) = Agrees-three ys zs ws p same in
        holds_if_else e t f (Agrees-here p _ [] s4 cell) (same_expr q e ys held s1)
          (same_scope r t zs held_t s2) (same_scope u f ws held_f s3) apart apart' out
    same_stat p next s xs
          (holds_switch {q = q} {r = r} {xs = ys} {ys = zs} e choices cell held held_c apart out)
          same =
        let (s1, s2, s3) = Agrees-two ys zs p same in
        holds_switch e choices (Agrees-here p _ [] s3 cell) (same_expr q e ys held s1)
          (same_choices r choices zs held_c s2) apart out
    same_stat p next s xs
          (holds_while {q = q} {r = r} {xs = ys} {ys = zs} e b cell held held_b apart out) same =
        let (s1, s2, s3) = Agrees-two ys zs p same in
        holds_while e b (Agrees-here p _ [] s3 cell) (same_expr q e ys held s1)
          (same_scope r b zs held_b s2) apart out
