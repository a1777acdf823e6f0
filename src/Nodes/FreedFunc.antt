-- ===== src/Nodes/FreedFunc.antt =====
-- src/parser.c: `ast_free_node` of functions, and of whatever the parser frees.
use phantomshell.Base.{
  ℕ, zero, suc, ◌+◌, ◌<◌, ◌≡◌, refl, false, none, some, List, [], ◌∷◌, ◌++◌, arith, length,
  length-append, ◌==◌, if◌then◌else◌,
}
use phantomshell.Ast.{DeclVar, DeclFunc}
use phantomshell.Nodes.{
  Ptr, null, text, decl_var, func_arg_list, decl_func, Heap, write, ok, free, ◌>>◌, skip,
}
use phantomshell.Nodes.Free.{
  ast_free_node, ast_free_node_decl_var, free_args, ast_free_node_func_arg_list,
}
use phantomshell.Nodes.Blocks.{has, has_last, has_left, has_right, Apart, erase}
use phantomshell.Nodes.HoldsFunc.{
  HoldsArgs, holds_no_arg, holds_arg, HoldsFunc, holds_func, holds_func_ret, HoldsNode, node_stat,
  node_func,
}
use phantomshell.Nodes.Frees.{
  Frees, seq-Frees, free-Frees, load-Frees, then_free-Frees, then_both-Frees, unless_null,
}
use phantomshell.Nodes.Freed.{stat_freed, scope_freed, scope_node_freed}

Apart-one : (v t : Ptr) → (t == v) ≡ false → Apart (v ∷ []) (t ∷ [])
Apart-one v t out a i = ground arith

module _ (h : Heap) (empty : h null ≡ none) where
  args_freed :
      (m : ℕ) (p : Ptr) (vars : List DeclVar) (xs : List Ptr)
      → HoldsArgs h p vars xs
      → length xs < m
      → Frees h xs (free_args m p)
  unfolding free_args erase
  args_freed zero p vars xs holds fuel = absurd (omega arith)
  args_freed (suc m) p vars xs holds_no_arg fuel = λ g a. refl
  args_freed (suc m) p vars xs
        (holds_arg {t = t} {v = v} {next = next} {xs = ys} var rest cell type_cell name_cell held
          out out' apart)
        fuel =
      let c = decl_var t v next in
      let own : List Ptr = v ∷ t ∷ p ∷ [] in
      rw (unless_null h p c empty cell) (
        load-Frees h p c (own ++ ys) _ cell (has_left p own ys (ground arith)) (
          seq-Frees h own ys (ast_free_node_decl_var p) (free_args m next)
            (load-Frees h p c own _ cell (ground arith) (
              then_both-Frees h p c (v ∷ []) (t ∷ []) (free v) (free t) cell
                (free-Frees h v (text var.var_name) name_cell)
                (free-Frees h t (text var.var_type) type_cell) (Apart-one v t out) out'))
            (args_freed m next rest ys held (omega arith)) apart))

  arg_list_freed :
      (n : ℕ) (list first last : Ptr) (vars : List DeclVar) (xs : List Ptr)
      → h list ≡ some (func_arg_list first last)
      → HoldsArgs h first vars xs
      → has list xs ≡ false
      → length xs < n
      → Frees h (xs ++ (list ∷ [])) (ast_free_node_func_arg_list n list)
  unfolding ast_free_node_func_arg_list
  arg_list_freed n list first last vars xs cell held out fuel =
      load-Frees h list (func_arg_list first last) (xs ++ (list ∷ [])) _ cell (has_last list xs) (
        then_free-Frees h list (func_arg_list first last) xs (free_args n first) cell
          (args_freed n first vars xs held fuel) out)

  func_freed :
      (n : ℕ) (p : Ptr) (f : DeclFunc) (xs : List Ptr)
      → HoldsFunc h p f xs
      → length xs < n
      → Frees h xs (ast_free_node n p)
  unfolding ast_free_node
  func_freed zero p f xs holds small = absurd (omega arith)
  func_freed (suc n) p f xs
        (holds_func {name = name} {list = list} {first = first} {last = last} {b = b} {xs = zs}
          {ys = ys} _ args body cell name_cell no_ret has_args list_cell held out has_body held_b
          apart apart' out')
        small =
      let c = decl_func name null list b in
      let own : List Ptr = ys ++ (list ∷ []) in
      let rest : List Ptr = name ∷ (own ++ (p ∷ [])) in
      let sizes : length zs + (1 + (length ys + 2)) < suc n =
        omega (
          arith,
          length-append zs rest,
          length-append own (p ∷ []),
          length-append ys (list ∷ []),
        ) in
      let mem = has_right p zs rest (has_right p (name ∷ []) (own ++ (p ∷ [])) (has_last p own)) in
      load-Frees h p c (zs ++ rest) _ cell mem (
        load-Frees h p c (zs ++ rest) _ cell mem (
          seq-Frees h zs rest (ast_free_node n b)
            (free name >> (ast_free_node_func_arg_list n list >> (skip >> free p)))
            (scope_node_freed h empty n b body zs held_b (omega arith)
              λ k e. scope_freed h empty k b body zs held_b (omega arith))
            (seq-Frees h (name ∷ []) (own ++ (p ∷ [])) (free name)
              (ast_free_node_func_arg_list n list >> (skip >> free p))
              (free-Frees h name (text f.name) name_cell)
              (then_free-Frees h p c own (ast_free_node_func_arg_list n list) cell
                (arg_list_freed n list first last args ys list_cell held out (omega arith)) out')
              apart')
            apart))
  func_freed (suc n) p f xs
        (holds_func_ret {name = name} {ret = ret} {list = list} {first = first} {last = last}
          {b = b} {xs = zs} {ys = ys} _ ret_type args body cell name_cell is_ret ret_cell has_args
          list_cell held out has_body held_b apart apart' apart'' out')
        small =
      let c = decl_func name ret list b in
      let own : List Ptr = ys ++ (list ∷ []) in
      let last_two : List Ptr = ret ∷ p ∷ [] in
      let rest : List Ptr = name ∷ (own ++ last_two) in
      let sizes : length zs + (1 + (length ys + 3)) < suc n =
        omega (
          arith,
          length-append zs rest,
          length-append own last_two,
          length-append ys (list ∷ []),
        ) in
      let mem =
        has_right p zs rest
          (has_right p (name ∷ []) (own ++ last_two) (has_right p own last_two (ground arith))) in
      load-Frees h p c (zs ++ rest) _ cell mem (
        load-Frees h p c (zs ++ rest) _ cell mem (
          rw (unless_null h ret (text ret_type) empty ret_cell) (
            seq-Frees h zs rest (ast_free_node n b)
              (free name >> (ast_free_node_func_arg_list n list >> (free ret >> free p)))
              (scope_node_freed h empty n b body zs held_b (omega arith)
                λ k e. scope_freed h empty k b body zs held_b (omega arith))
              (seq-Frees h (name ∷ []) (own ++ last_two) (free name)
                (ast_free_node_func_arg_list n list >> (free ret >> free p))
                (free-Frees h name (text f.name) name_cell)
                (seq-Frees h own last_two (ast_free_node_func_arg_list n list) (free ret >> free p)
                  (arg_list_freed n list first last args ys list_cell held out (omega arith))
                  (then_free-Frees h p c (ret ∷ []) (free ret) cell
                    (free-Frees h ret (text ret_type) ret_cell) (ground arith))
                  apart'')
                apart')
              apart)))

  node_freed :
      (n : ℕ) (p : Ptr) (xs : List Ptr)
      → HoldsNode h p xs
      → length xs < n
      → Frees h xs (ast_free_node n p)
  node_freed n p xs (node_stat {next = next} s held) small =
      stat_freed h empty n p next s xs held small
  node_freed n p xs (node_func f held) small = func_freed n p f xs held small

erased : (a : Ptr) (xs : List Ptr) (h : Heap) → erase xs h a ≡ (if has a xs then none else h a)
unfolding erase write
erased a [] h = refl
erased a (x ∷ xs) h = ground (arith, erased a xs (write x none h))

-- A heap that holds nothing at the null pointer, and the tree of a statement or of a function that has a list
-- of arguments and a body, each of its blocks once: with fuel for its blocks and one more,
-- `ast_free_node` frees all blocks of the tree, none of them twice, and no other.
pub ast_free_node-has :
    (h : Heap) (n : ℕ) (p : Ptr) (xs : List Ptr)
    → h null ≡ none
    → HoldsNode h p xs
    → length xs < n
    → (g : Heap) × (ast_free_node n p h ≡ ok g)
      × ((a : Ptr) → g a ≡ (if has a xs then none else h a))
ast_free_node-has h n p xs empty held small =
    (erase xs h, node_freed h empty n p xs held small h (λ a i. refl), λ a. erased a xs h)
