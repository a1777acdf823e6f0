-- ===== src/Printer/Stat.antt =====
-- src/parser.c: `ast_node_*_to_string` of statements and declarations. `none` is a `sprintf` past the
-- end of its buffer, or a read through a null pointer; `%s` of a null pointer is one, too.
use phantomshell.Base.{ℕ, ◌+◌, Option, none, some, List, [], ◌∷◌, ◌++◌, length}
use phantomshell.Ast.{
  Stat, stat_expr, stat_ret, stat_if, stat_switch, stat_while, Body, null_scope, scope, Choices,
  choices_end, case, other, DeclVar, DeclFunc,
}
use phantomshell.Printer.{codes, print_to, with_text, expr_to_string}

unfoldable pub print_scope : List ℕ → Option (List ℕ)
unfolding print_to
print_scope stats = print_to (length stats + 8) (codes "{" ++ (stats ++ codes "}"))

-- A list of statements is printed as one word.
unfoldable pub body_to_string : Body → Option (List ℕ)
unfolding print_scope
body_to_string null_scope = none
body_to_string (scope stats) = print_scope (codes "statements")

unfoldable pub false_scope_to_string : Body → Option (List ℕ)
unfolding print_scope
false_scope_to_string null_scope = some (codes "{none}")
false_scope_to_string (scope stats) = print_scope (codes "statements")

unfoldable pub print_stat_expr : List ℕ → Option (List ℕ)
unfolding print_to
print_stat_expr e = print_to (length e + 8) (codes "(" ++ (e ++ codes " ;)"))

unfoldable pub print_stat_ret : List ℕ → Option (List ℕ)
unfolding print_to
print_stat_ret e = print_to (length e + 8) (codes "(ret " ++ (e ++ codes " ;)"))

unfoldable pub print_stat_if : List ℕ → List ℕ → List ℕ → Option (List ℕ)
unfolding print_to
print_stat_if e t f =
    print_to (length e + length t + length f + 32) (
      codes "(if "
      ++ (e ++ (codes "  \n  then " ++ (t ++ (codes "\n  else " ++ (f ++ codes ")"))))))

unfoldable pub print_stat_while : List ℕ → List ℕ → Option (List ℕ)
unfolding print_to
print_stat_while e b =
    print_to (length b + length e + 16)
      (codes "(while " ++ (e ++ (codes " do " ++ (b ++ codes ")"))))

unfoldable pub print_choice : List ℕ → List ℕ → Option (List ℕ)
unfolding print_to
print_choice e s = print_to (length e + length s + 16) (codes "case " ++ (e ++ (codes " -> " ++ s)))

unfoldable pub print_stat_switch : List ℕ → List ℕ → Option (List ℕ)
unfolding print_to
print_stat_switch choices e =
    print_to (length choices + length e + 16)
      (codes "( " ++ (e ++ (codes " switch to " ++ (choices ++ codes ")"))))

module _ (show_float : ℕ → List ℕ) where
  -- The choices, each with a line break, in a buffer of the sum of their lengths.
  unfoldable pub choices_to_string : Choices → Option (List ℕ)
  unfolding print_choice body_to_string expr_to_string
  choices_to_string choices_end = some []
  choices_to_string (case e s next) = with_text (expr_to_string show_float e) λ e_str.
      with_text (body_to_string s) λ s_str.
        with_text (print_choice e_str s_str)
          λ choice. with_text (choices_to_string next) λ rest. some (choice ++ (codes "\n" ++ rest))
  choices_to_string (other s next) = with_text (body_to_string s) λ s_str.
      with_text (print_choice (codes "other") s_str)
        λ choice. with_text (choices_to_string next) λ rest. some (choice ++ (codes "\n" ++ rest))

  unfoldable pub stat_to_string : Stat → Option (List ℕ)
  unfolding expr_to_string body_to_string false_scope_to_string choices_to_string print_stat_expr
      print_stat_ret print_stat_if print_stat_while print_stat_switch
  stat_to_string (stat_expr e) = with_text (expr_to_string show_float e) print_stat_expr
  stat_to_string (stat_ret e) = with_text (expr_to_string show_float e) print_stat_ret
  stat_to_string (stat_if e t f) = with_text (expr_to_string show_float e) λ e_str.
      with_text (body_to_string t)
        λ t_str. with_text (false_scope_to_string f) (print_stat_if e_str t_str)
  stat_to_string (stat_switch e choices) =
      with_text (expr_to_string show_float e)
        λ e_str. with_text (choices_to_string choices) λ c_str. print_stat_switch c_str e_str
  stat_to_string (stat_while e b) =
      with_text (expr_to_string show_float e)
        λ e_str. with_text (body_to_string b) (print_stat_while e_str)

unfoldable pub decl_var_to_string : DeclVar → Option (List ℕ)
unfolding print_to
decl_var_to_string v =
    print_to (length v.var_name + length v.var_type + 16)
      (v.var_name ++ (codes " of type " ++ v.var_type))

-- The arguments, each with a comma, in a buffer of the sum of their lengths.
unfoldable pub args_to_string : List DeclVar → Option (List ℕ)
unfolding decl_var_to_string
args_to_string [] = some []
args_to_string (v ∷ args) =
    with_text (decl_var_to_string v)
      λ arg. with_text (args_to_string args) λ rest. some (arg ++ (codes "," ++ rest))

-- The buffer counts an absent return type as the empty text, but the null pointer is printed.
unfoldable pub print_decl_func : List ℕ → List ℕ → Option (List ℕ) → List ℕ → Option (List ℕ)
unfolding print_to
print_decl_func name args none body = none
print_decl_func name args (some ret) body =
    print_to (length name + length args + length ret + length body + 16) (
      codes "(func "
      ++ (name
          ++ (codes " (" ++ (args ++ (codes ") " ++ (ret ++ (codes " " ++ (body ++ codes ")"))))))))

unfoldable pub decl_func_to_string : DeclFunc → Option (List ℕ)
unfolding args_to_string body_to_string print_decl_func
decl_func_to_string f =
    with_text (elim f.args [ none ↦ some [] | some args ↦ args_to_string args ])
      λ args. with_text (body_to_string f.body) λ body. print_decl_func f.name args f.ret_type body
