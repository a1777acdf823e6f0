-- ===== src/Nodes/HoldsFunc.antt =====
-- src/parser.h: a heap that holds the tree of a function, or of whatever the parser frees.
use phantomshell.Base.{ℕ, ◌≡◌, false, none, some, List, [], ◌∷◌, ◌++◌, ◌==◌}
use phantomshell.Ast.{
  Expr, Stat, Body, Stats, Choices, DeclVar, DeclFunc, type_bool, type_int, type_float, type_char,
}
use phantomshell.Ast
use phantomshell.Nodes.{Ptr, null, text, decl_var, func_arg_list, decl_func, Heap}
use phantomshell.Nodes.Blocks.{has, Apart}
use phantomshell.Nodes.Holds.{HoldsStat, HoldsScope}

-- The declared arguments from one on, and a function that has a list of arguments and a body.
pub data HoldsArgs (h : Heap) : Ptr → List DeclVar → List Ptr → Type 0 where
  holds_no_arg : HoldsArgs h null [] []
  holds_arg :
      {p t v next : Ptr} {xs : List Ptr} (var : DeclVar) (rest : List DeclVar)
      → h p ≡ some (decl_var t v next)
      → h t ≡ some (text var.var_type)
      → h v ≡ some (text var.var_name)
      → HoldsArgs h next rest xs
      → (t == v) ≡ false
      → has p (v ∷ t ∷ []) ≡ false
      → Apart (v ∷ t ∷ p ∷ []) xs
      → HoldsArgs h p (var ∷ rest) ((v ∷ t ∷ p ∷ []) ++ xs)

pub data HoldsFunc (h : Heap) : Ptr → DeclFunc → List Ptr → Type 0 where
  holds_func :
      {p name list first last b : Ptr} {xs ys : List Ptr} (f : DeclFunc) (args : List DeclVar)
      (body : Stats)
      → h p ≡ some (decl_func name null list b)
      → h name ≡ some (text f.name)
      → f.ret_type ≡ none
      → f.args ≡ some args
      → h list ≡ some (func_arg_list first last)
      → HoldsArgs h first args ys
      → has list ys ≡ false
      → f.body ≡ Ast.scope body
      → HoldsScope h b body xs
      → Apart xs (name ∷ ((ys ++ (list ∷ [])) ++ (p ∷ [])))
      → Apart (name ∷ []) ((ys ++ (list ∷ [])) ++ (p ∷ []))
      → has p (ys ++ (list ∷ [])) ≡ false
      → HoldsFunc h p f (xs ++ (name ∷ ((ys ++ (list ∷ [])) ++ (p ∷ []))))
  holds_func_ret :
      {p name ret list first last b : Ptr} {xs ys : List Ptr} (f : DeclFunc) (ret_type : List ℕ)
      (args : List DeclVar) (body : Stats)
      → h p ≡ some (decl_func name ret list b)
      → h name ≡ some (text f.name)
      → f.ret_type ≡ some ret_type
      → h ret ≡ some (text ret_type)
      → f.args ≡ some args
      → h list ≡ some (func_arg_list first last)
      → HoldsArgs h first args ys
      → has list ys ≡ false
      → f.body ≡ Ast.scope body
      → HoldsScope h b body xs
      → Apart xs (name ∷ ((ys ++ (list ∷ [])) ++ (ret ∷ p ∷ [])))
      → Apart (name ∷ []) ((ys ++ (list ∷ [])) ++ (ret ∷ p ∷ []))
      → Apart (ys ++ (list ∷ [])) (ret ∷ p ∷ [])
      → (p == ret) ≡ false
      → HoldsFunc h p f (xs ++ (name ∷ ((ys ++ (list ∷ [])) ++ (ret ∷ p ∷ []))))

-- What the parser frees: a statement, or a function.
pub data HoldsNode (h : Heap) : Ptr → List Ptr → Type 0 where
  node_stat : {p next : Ptr} {xs : List Ptr} (s : Stat) → HoldsStat h p next s xs → HoldsNode h p xs
  node_func : {p : Ptr} {xs : List Ptr} (f : DeclFunc) → HoldsFunc h p f xs → HoldsNode h p xs
