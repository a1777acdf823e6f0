-- ===== src/Printer/StatFits.antt =====
-- src/parser.c: which statements and declarations are printed within their buffers.
use phantomshell.Base.{
  ℕ, ◌+◌, ◌≡◌, refl, ap, ◌∙◌, Bool, true, false, ◌&&◌, Option, none, some, List, [], ◌∷◌, ◌++◌,
  length, length-append, arith,
}
use phantomshell.Ast.{
  Stat, stat_expr, stat_ret, stat_if, stat_switch, stat_while, Body, null_scope, scope, Choices,
  choices_end, case, other, DeclVar, DeclFunc,
}
use phantomshell.Printer.{codes, with_text, expr_to_string}
use phantomshell.Printer.Stat.{
  body_to_string, false_scope_to_string, print_stat_expr, print_stat_ret, print_stat_if,
  print_stat_while, print_choice, print_stat_switch, choices_to_string, stat_to_string,
  decl_var_to_string, args_to_string, print_decl_func, decl_func_to_string,
}
use phantomshell.Printer.Fits.{
  is_some, fits, print_to_fits, print_to_overflows, with_text-is_some, and_true,
  expr_to_string-fits,
}

abbrev pub has_scope : Body → Bool
has_scope null_scope = false
has_scope (scope stats) = true

body_fits : (b : Body) → is_some (body_to_string b) ≡ has_scope b
unfolding body_to_string
body_fits null_scope = refl
body_fits (scope stats) = refl

false_scope_fits : (b : Body) → is_some (false_scope_to_string b) ≡ true
unfolding false_scope_to_string
false_scope_fits null_scope = refl
false_scope_fits (scope stats) = refl

stat_expr_fits : (e : List ℕ) → is_some (print_stat_expr e) ≡ true
unfolding print_stat_expr
stat_expr_fits e =
    print_to_fits (length e + 8) (codes "(" ++ (e ++ codes " ;)"))
      (omega (arith, length-append e (codes " ;)")))

stat_ret_overflows : (e : List ℕ) → is_some (print_stat_ret e) ≡ false
unfolding print_stat_ret
stat_ret_overflows e =
    print_to_overflows (length e + 8) (codes "(ret " ++ (e ++ codes " ;)"))
      (omega (arith, length-append e (codes " ;)")))

stat_if_fits : (e t f : List ℕ) → is_some (print_stat_if e t f) ≡ true
unfolding print_stat_if
stat_if_fits e t f =
    let last : List ℕ = codes "\n  else " ++ (f ++ codes ")") in
    let tail : List ℕ = codes "  \n  then " ++ (t ++ last) in
    print_to_fits (length e + length t + length f + 32) (codes "(if " ++ (e ++ tail))
      (omega (arith, length-append e tail, length-append t last, length-append f (codes ")")))

stat_while_fits : (e b : List ℕ) → is_some (print_stat_while e b) ≡ true
unfolding print_stat_while
stat_while_fits e b =
    let last : List ℕ = codes " do " ++ (b ++ codes ")") in
    print_to_fits (length b + length e + 16) (codes "(while " ++ (e ++ last))
      (omega (arith, length-append e last, length-append b (codes ")")))

choice_fits : (e s : List ℕ) → is_some (print_choice e s) ≡ true
unfolding print_choice
choice_fits e s =
    print_to_fits (length e + length s + 16) (codes "case " ++ (e ++ (codes " -> " ++ s)))
      (omega (arith, length-append e (codes " -> " ++ s)))

stat_switch_fits : (choices e : List ℕ) → is_some (print_stat_switch choices e) ≡ true
unfolding print_stat_switch
stat_switch_fits choices e =
    let last : List ℕ = codes " switch to " ++ (choices ++ codes ")") in
    print_to_fits (length choices + length e + 16) (codes "( " ++ (e ++ last))
      (omega (arith, length-append e last, length-append choices (codes ")")))

and_false : (b : Bool) → (b && false) ≡ false
and_false true = refl
and_false false = refl

-- A text that is passed on to one that always fits.
then_fits :
    (m : Option (List ℕ)) (f : List ℕ → Option (List ℕ)) (b : Bool)
    → is_some m ≡ b
    → ((s : List ℕ) → is_some (f s) ≡ true)
    → is_some (with_text m f) ≡ b
then_fits m f b first rest = with_text-is_some m f true rest ∙ and_true (is_some m) ∙ first

then_and :
    (m : Option (List ℕ)) (f : List ℕ → Option (List ℕ)) (a b : Bool)
    → is_some m ≡ a
    → ((s : List ℕ) → is_some (f s) ≡ b)
    → is_some (with_text m f) ≡ a && b
then_and m f a b first rest = with_text-is_some m f b rest ∙ ap (λ x. x && b) first

module _ (show_float : ℕ → List ℕ) where
  -- Whether each case has an expression that fits and a scope, and each other choice a scope.
  unfoldable pub choices_fit : Choices → Bool
  choices_fit choices_end = true
  choices_fit (case e s next) = fits show_float e && (has_scope s && choices_fit next)
  choices_fit (other s next) = has_scope s && choices_fit next

  -- Whether the statement is not a `return`, has an expression that fits, and its parts fit.
  unfoldable pub stat_fits : Stat → Bool
  unfolding choices_fit
  stat_fits (stat_expr e) = fits show_float e
  stat_fits (stat_ret e) = false
  stat_fits (stat_if e t f) = fits show_float e && has_scope t
  stat_fits (stat_switch e choices) = fits show_float e && choices_fit choices
  stat_fits (stat_while e b) = fits show_float e && has_scope b

  choices_to_string-fits :
      (choices : Choices) → is_some (choices_to_string show_float choices) ≡ choices_fit choices
  unfolding choices_to_string choices_fit
  choices_to_string-fits choices_end = refl
  choices_to_string-fits (case e s next) =
      then_and _ _ (fits show_float e) (has_scope s && choices_fit next)
        (expr_to_string-fits show_float e)
        λ e_str. then_and _ _ (has_scope s) (choices_fit next) (body_fits s) λ s_str.
          then_and _ _ true (choices_fit next) (choice_fits e_str s_str)
            λ choice. then_fits _ _ (choices_fit next) (choices_to_string-fits next) λ rest. refl
  choices_to_string-fits (other s next) =
      then_and _ _ (has_scope s) (choices_fit next) (body_fits s) λ s_str.
        then_and _ _ true (choices_fit next) (choice_fits (codes "other") s_str)
          λ choice. then_fits _ _ (choices_fit next) (choices_to_string-fits next) λ rest. refl

  -- A statement is printed within the buffers that are allocated for it, and with no null pointer read,
  -- exactly when it is not a `return`, its expression and those of its choices are printed so, and its
  -- true branch, its body and the scopes of its choices are there.
  pub stat_to_string-fits : (s : Stat) → is_some (stat_to_string show_float s) ≡ stat_fits s
  unfolding stat_to_string stat_fits
  stat_to_string-fits (stat_expr e) =
      then_fits _ _ (fits show_float e) (expr_to_string-fits show_float e) stat_expr_fits
  stat_to_string-fits (stat_ret e) =
      with_text-is_some (expr_to_string show_float e) print_stat_ret false stat_ret_overflows
      ∙ and_false _
  stat_to_string-fits (stat_if e t f) =
      then_and _ _ (fits show_float e) (has_scope t) (expr_to_string-fits show_float e) λ e_str.
        then_fits _ _ (has_scope t) (body_fits t)
          λ t_str. then_fits _ _ true (false_scope_fits f) (stat_if_fits e_str t_str)
  stat_to_string-fits (stat_switch e choices) =
      then_and _ _ (fits show_float e) (choices_fit choices) (expr_to_string-fits show_float e)
        λ e_str.
          then_fits _ _ (choices_fit choices) (choices_to_string-fits choices)
            λ c_str. stat_switch_fits c_str e_str
  stat_to_string-fits (stat_while e b) =
      then_and _ _ (fits show_float e) (has_scope b) (expr_to_string-fits show_float e)
        λ e_str. then_fits _ _ (has_scope b) (body_fits b) (stat_while_fits e_str)

decl_var_fits : (v : DeclVar) → is_some (decl_var_to_string v) ≡ true
unfolding decl_var_to_string
decl_var_fits v =
    print_to_fits (length v.var_name + length v.var_type + 16)
      (v.var_name ++ (codes " of type " ++ v.var_type))
      (omega (arith, length-append v.var_name (codes " of type " ++ v.var_type)))

args_fit : (args : List DeclVar) → is_some (args_to_string args) ≡ true
unfolding args_to_string
args_fit [] = refl
args_fit (v ∷ args) =
    then_fits _ _ true (decl_var_fits v) λ arg. then_fits _ _ true (args_fit args) λ rest. refl

decl_func_fits :
    (name args : List ℕ) (ret : Option (List ℕ)) (body : List ℕ)
    → is_some (print_decl_func name args ret body) ≡ is_some ret
unfolding print_decl_func
decl_func_fits name args none body = refl
decl_func_fits name args (some ret) body =
    let fourth : List ℕ = codes " " ++ (body ++ codes ")") in
    let third : List ℕ = codes ") " ++ (ret ++ fourth) in
    let second : List ℕ = codes " (" ++ (args ++ third) in
    print_to_fits (length name + length args + length ret + length body + 16)
      (codes "(func " ++ (name ++ second))
      (omega (
        arith,
        length-append name second,
        length-append args third,
        length-append ret fourth,
        length-append body (codes ")"),
      ))

optional_args_fit :
    (args : Option (List DeclVar))
    → is_some (elim args [ none ↦ some [] | some list ↦ args_to_string list ]) ≡ true
optional_args_fit none = refl
optional_args_fit (some list) = args_fit list

-- A function declaration is printed within its buffers, and with no null pointer read, exactly when it
-- has a body and a return type.
pub decl_func_to_string-fits :
    (f : DeclFunc) → is_some (decl_func_to_string f) ≡ has_scope f.body && is_some f.ret_type
unfolding decl_func_to_string
decl_func_to_string-fits f =
    then_and _ _ true (has_scope f.body && is_some f.ret_type) (optional_args_fit f.args) λ args.
      then_and _ _ (has_scope f.body) (is_some f.ret_type) (body_fits f.body)
        λ body. decl_func_fits f.name args f.ret_type body
