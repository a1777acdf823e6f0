-- ===== src/Nodes/Free.antt =====
-- src/parser.c: `ast_free_node` and the functions that it calls. The recursive call is an argument,
-- `free_node`; the loops over linked statements, choices and arguments run on fuel.
use phantomshell.Base.{ℕ, zero, suc, none, some, ◌==◌, if◌then◌else◌}
use phantomshell.Nodes.{
  Ptr, null, Cell, text, literal, literal_string, ident, group, unary_op, binary_op, ternary_op,
  special_cast, scope, stat_list, stat_expr, stat_ret, stat_if, stat_switch, stat_while,
  stat_switch_choice, decl_var, func_arg_list, decl_func, Cmd, stuck, skip, ◌>>◌, load, fails, free,
  next_stat,
}

module _ (free_node : Ptr → Cmd) where
  unfoldable pub ast_free_node_group : Ptr → Cmd
  unfolding free
  ast_free_node_group p = load p λ c. elim c [ group t e ↦ free_node e >> free p | _ ↦ fails ]

  unfoldable pub ast_free_node_unary_op : Ptr → Cmd
  unfolding free
  ast_free_node_unary_op p =
      load p λ c. elim c [ unary_op t o e ↦ free_node e >> free p | _ ↦ fails ]

  unfoldable pub ast_free_node_binary_op : Ptr → Cmd
  unfolding free
  ast_free_node_binary_op p =
      load p λ c. elim c [ binary_op t o l r ↦ free_node l >> (free_node r >> free p) | _ ↦ fails ]

  unfoldable pub ast_free_node_ternary_op : Ptr → Cmd
  unfolding free
  ast_free_node_ternary_op p = load p λ c. elim c [
    | ternary_op t o op1 op2 op3 ↦ free_node op1 >> (free_node op2 >> (free_node op3 >> free p))
    | _ ↦ fails
  ]

  unfoldable pub ast_free_node_cast : Ptr → Cmd
  unfolding free
  ast_free_node_cast p =
      load p λ c. elim c [ special_cast t code e ↦ free_node e >> free p | _ ↦ fails ]

  -- The statements from one on; `next` is read before the statement is freed.
  unfoldable pub free_stats : ℕ → Ptr → Cmd
  free_stats zero stat = λ h. stuck
  free_stats (suc fuel) stat =
      let rest = load stat λ c. elim (next_stat c) [
        | none ↦ fails
        | some next ↦ free_node stat >> free_stats fuel next
      ] in
      if stat == null then skip else rest

  unfoldable pub ast_free_node_stat_list : ℕ → Ptr → Cmd
  unfolding free_stats free
  ast_free_node_stat_list fuel p =
      load p λ c. elim c [ stat_list size first last ↦ free_stats fuel first >> free p | _ ↦ fails ]

  unfoldable pub ast_free_node_scope : ℕ → Ptr → Cmd
  unfolding ast_free_node_stat_list free
  ast_free_node_scope fuel p =
      load p λ c. elim c [ scope stats ↦ ast_free_node_stat_list fuel stats >> free p | _ ↦ fails ]

  unfoldable pub ast_free_node_stat_expr : Ptr → Cmd
  unfolding free
  ast_free_node_stat_expr p =
      load p λ c. elim c [ stat_expr next e ↦ free_node e >> free p | _ ↦ fails ]

  unfoldable pub ast_free_node_stat_ret : Ptr → Cmd
  unfolding free
  ast_free_node_stat_ret p =
      load p λ c. elim c [ stat_ret next e ↦ free_node e >> free p | _ ↦ fails ]

  unfoldable pub ast_free_node_stat_if : ℕ → Ptr → Cmd
  unfolding ast_free_node_scope free
  ast_free_node_stat_if fuel p = load p λ c. elim c [
    | stat_if next e t f ↦
        free_node e
        >> (ast_free_node_scope fuel t
            >> ((if f == null then skip else ast_free_node_scope fuel f) >> free p))
    | _ ↦ fails
  ]

  unfoldable pub ast_free_node_stat_switch_choice : Ptr → Cmd
  unfolding free
  ast_free_node_stat_switch_choice p = load p λ c. elim c [
    | stat_switch_choice e s next ↦
        (if e == null then skip else free_node e) >> (free_node s >> free p)
    | _ ↦ fails
  ]

  -- The choices from one on.
  unfoldable pub free_choices : ℕ → Ptr → Cmd
  unfolding ast_free_node_stat_switch_choice
  free_choices zero choice = λ h. stuck
  free_choices (suc fuel) choice =
      let rest = load choice λ c. elim c [
        | stat_switch_choice e s next ↦
            ast_free_node_stat_switch_choice choice >> free_choices fuel next
        | _ ↦ fails
      ] in
      if choice == null then skip else rest

  unfoldable pub ast_free_node_stat_switch : ℕ → Ptr → Cmd
  unfolding free_choices free
  ast_free_node_stat_switch fuel p = load p λ c. elim c [
    | stat_switch next e choice ↦ free_node e >> (free_choices fuel choice >> free p)
    | _ ↦ fails
  ]

  unfoldable pub ast_free_node_stat_while : Ptr → Cmd
  unfolding free
  ast_free_node_stat_while p = load p λ c. elim c [
    | stat_while next e s ↦ (if e == null then skip else free_node e) >> (free_node s >> free p)
    | _ ↦ fails
  ]

unfoldable pub ast_free_node_ident : Ptr → Cmd
unfolding free
ast_free_node_ident p = load p λ c. elim c [ ident t value ↦ free value >> free p | _ ↦ fails ]

unfoldable pub ast_free_node_literal : Ptr → Cmd
unfolding free
ast_free_node_literal p = load p λ c. elim c [
  | literal_string value ↦ free value >> free p
  | literal t value ↦ free p
  | _ ↦ fails
]

unfoldable pub ast_free_node_decl_var : Ptr → Cmd
unfolding free
ast_free_node_decl_var p = load p λ c. elim c [
  | decl_var var_type var_name next ↦ free var_name >> (free var_type >> free p)
  | _ ↦ fails
]

-- The arguments from one on.
unfoldable pub free_args : ℕ → Ptr → Cmd
unfolding ast_free_node_decl_var
free_args zero decl = λ h. stuck
free_args (suc fuel) decl =
    let rest = load decl λ c. elim c [
      | decl_var var_type var_name next ↦ ast_free_node_decl_var decl >> free_args fuel next
      | _ ↦ fails
    ] in
    if decl == null then skip else rest

unfoldable pub ast_free_node_func_arg_list : ℕ → Ptr → Cmd
unfolding free_args free
ast_free_node_func_arg_list fuel p =
    load p λ c. elim c [ func_arg_list first last ↦ free_args fuel first >> free p | _ ↦ fails ]

unfoldable pub ast_free_node_decl_func : (Ptr → Cmd) → ℕ → Ptr → Cmd
unfolding ast_free_node_func_arg_list free
ast_free_node_decl_func free_node fuel p = load p λ c. elim c [
  | decl_func name ret_type args body ↦
      free_node body
      >> (free name
          >> (ast_free_node_func_arg_list fuel args
              >> ((if ret_type == null then skip else free ret_type) >> free p)))
  | _ ↦ fails
]

-- The `switch` of `ast_free_node`. The type of a text is no node's, and neither that of a declared variable
-- nor that of a list of arguments is one that this function knows: it panics.
unfoldable pub free_by_type : (Ptr → Cmd) → ℕ → Ptr → Cell → Cmd
unfolding ast_free_node_group ast_free_node_scope ast_free_node_ident ast_free_node_literal
    ast_free_node_unary_op ast_free_node_binary_op ast_free_node_ternary_op ast_free_node_cast
    ast_free_node_stat_list ast_free_node_stat_expr ast_free_node_stat_ret ast_free_node_stat_if
    ast_free_node_stat_switch ast_free_node_stat_switch_choice ast_free_node_stat_while
    ast_free_node_decl_func
free_by_type free_node fuel p (group t e) = ast_free_node_group free_node p
free_by_type free_node fuel p (scope stats) = ast_free_node_scope free_node fuel p
free_by_type free_node fuel p (ident t value) = ast_free_node_ident p
free_by_type free_node fuel p (literal t value) = ast_free_node_literal p
free_by_type free_node fuel p (literal_string value) = ast_free_node_literal p
free_by_type free_node fuel p (unary_op t o e) = ast_free_node_unary_op free_node p
free_by_type free_node fuel p (binary_op t o l r) = ast_free_node_binary_op free_node p
free_by_type free_node fuel p (ternary_op t o a b c) = ast_free_node_ternary_op free_node p
free_by_type free_node fuel p (special_cast t code e) = ast_free_node_cast free_node p
free_by_type free_node fuel p (stat_list size first last) = ast_free_node_stat_list free_node fuel p
free_by_type free_node fuel p (stat_expr next e) = ast_free_node_stat_expr free_node p
free_by_type free_node fuel p (stat_ret next e) = ast_free_node_stat_ret free_node p
free_by_type free_node fuel p (stat_if next e t f) = ast_free_node_stat_if free_node fuel p
free_by_type free_node fuel p (stat_switch next e choice) =
    ast_free_node_stat_switch free_node fuel p
free_by_type free_node fuel p (stat_switch_choice e s next) =
    ast_free_node_stat_switch_choice free_node p
free_by_type free_node fuel p (stat_while next e s) = ast_free_node_stat_while free_node p
free_by_type free_node fuel p (decl_func name ret args body) =
    ast_free_node_decl_func free_node fuel p
free_by_type free_node fuel p (text s) = fails
free_by_type free_node fuel p (decl_var t name next) = fails
free_by_type free_node fuel p (func_arg_list first last) = fails

unfoldable pub ast_free_node : ℕ → Ptr → Cmd
unfolding free_by_type
ast_free_node zero p = λ h. stuck
ast_free_node (suc fuel) p = load p (free_by_type (ast_free_node fuel) fuel p)
