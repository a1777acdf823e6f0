-- ===== src/Nodes/Make.antt =====
-- src/parser.c: the constructors that link nodes to one another, and src/parser.y: the action that links the
-- arguments of a function. `fresh` is what `malloc` returns. A failed check of a type writes a message and
-- goes on with a null pointer.
use phantomshell.Base.{ℕ, ◌+◌, ◌%◌, ◌^◌, none, some, ◌==◌, if◌then◌else◌}
use phantomshell.Nodes.{
  Ptr, null, Cell, special_cast, scope, stat_list, stat_switch_choice, decl_var, func_arg_list,
  write, ok, Cmd, skip, ◌>>◌, load, fails, set_next,
}
use phantomshell.Nodes.Types.{node_upcast, ast_node_type_stat_list, ast_node_type_decl_var}

abbrev pub store : Ptr → Cell → Cmd
store p c h = ok (write p (some c) h)

-- `p->next = q` of a statement.
unfoldable pub store_next : Ptr → Ptr → Cmd
unfolding write
store_next p q = load p λ c. elim (set_next q c) [ none ↦ fails | some c' ↦ store p c' ]

unfoldable pub ast_new_node_stat_list : Ptr → Ptr → Cmd
unfolding store_next write
ast_new_node_stat_list fresh stat =
    if stat == null
    then store fresh (stat_list 0 stat stat)
    else store fresh (stat_list 1 stat stat) >> store_next stat null

unfoldable pub ast_link_node_stat_list : Ptr → Ptr → Cmd
unfolding store_next write
ast_link_node_stat_list node1 node2 = load node1 λ c. elim c [
  | stat_list size first last ↦
      if last == null
      then store_next node2 null >> store node1 (stat_list ((size + 1) % 2 ^ 32) node2 node2)
      else store_next last node2
        >> (store_next node2 null >> store node1 (stat_list ((size + 1) % 2 ^ 32) first node2))
  | _ ↦ fails
]

unfoldable pub ast_new_node_scope : Ptr → Ptr → Cmd
unfolding node_upcast write
ast_new_node_scope fresh statements =
    node_upcast ast_node_type_stat_list statements
      λ statements_node. store fresh (scope statements_node)

unfoldable pub ast_new_node_stat_switch_choice : Ptr → Ptr → Ptr → Ptr → Cmd
unfolding write
ast_new_node_stat_switch_choice fresh expr body prev_choice =
    store fresh (stat_switch_choice expr body null)
    >> (if prev_choice == null
        then skip
        else load prev_choice λ c. elim c [
          | stat_switch_choice e s next ↦ store prev_choice (stat_switch_choice e s fresh)
          | _ ↦ fails
        ])

unfoldable pub ast_new_node_decl_var : Ptr → Ptr → Ptr → Cmd
unfolding write
ast_new_node_decl_var fresh name var_type = store fresh (decl_var var_type name null)

unfoldable pub ast_new_node_func_arg_list : Ptr → Ptr → Cmd
unfolding node_upcast write
ast_new_node_func_arg_list fresh decl =
    node_upcast ast_node_type_decl_var decl
      λ decl_node. store fresh (func_arg_list decl_node decl_node)

-- The action of `FuncArgList ',' VarDeclaration`.
unfoldable pub link_func_arg : Ptr → Ptr → Cmd
unfolding write
link_func_arg list decl = load list λ c. elim c [
  | func_arg_list first last ↦ load last λ d. elim d [
    | decl_var t name next ↦
        store last (decl_var t name decl)
        >> (store list (func_arg_list first decl)
            >> load decl λ e. elim e [
              | decl_var t' name' next' ↦ store decl (decl_var t' name' null)
              | _ ↦ fails
            ])
    | _ ↦ fails
  ]
  | _ ↦ fails
]

unfoldable pub ast_new_node_cast : Ptr → Ptr → ℕ → ℕ → Cmd
unfolding write
ast_new_node_cast fresh expr static_type opcode = store fresh (special_cast static_type opcode expr)
