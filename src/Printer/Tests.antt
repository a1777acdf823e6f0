-- ===== src/Printer/Tests.antt =====
-- Runs of the printer.
use phantomshell.Base.{ℕ, ◌≡◌, refl, ◌&&◌, none, some, List, [], ◌∷◌, length}
use phantomshell.Operator.{addition, ternary_conditional, operator_word}
use phantomshell.Ast.{
  Expr, literal_int, literal_bool, binary_op, stat_if, stat_while, null_scope, scope, stats_end,
  DeclFunc,
}
use phantomshell.Printer.{codes, show_int, expr_to_string}
use phantomshell.Printer.Stat.{stat_to_string, decl_func_to_string}
use phantomshell.Printer.Fits.{is_some, fits, expr_to_string-fits}
use phantomshell.Printer.StatFits.{
  stat_fits, has_scope, stat_to_string-fits, decl_func_to_string-fits,
}

abbrev no_float : ℕ → List ℕ
no_float x = []

-- 1 + -2
abbrev sum : Expr
sum = binary_op 0 addition (literal_int 1) (literal_int 0xfffffffe)

sum_text : expr_to_string no_float sum ≡ some (codes "(L(I)=1 1111490567 L(I)=-2)")
unfolding expr_to_string operator_word
sum_text = refl

-- The number of the operator of a conditional takes 11 characters.
conditional_text : length (show_int (operator_word ternary_conditional)) ≡ 11
unfolding show_int operator_word
conditional_text = refl

while_text :
    stat_to_string no_float (stat_while (literal_bool 1) (scope stats_end))
    ≡ some (codes "(while L(B)=true do {statements})")
unfolding stat_to_string
while_text = refl

expr_to_string-fits_example : is_some (expr_to_string no_float sum) ≡ fits no_float sum
expr_to_string-fits_example = expr_to_string-fits no_float sum

stat_to_string-fits_example :
    is_some (stat_to_string no_float (stat_if sum (scope stats_end) null_scope))
    ≡ stat_fits no_float (stat_if sum (scope stats_end) null_scope)
stat_to_string-fits_example =
    stat_to_string-fits no_float (stat_if sum (scope stats_end) null_scope)

-- func f () { }
abbrev procedure : DeclFunc
procedure = record { name = b'f' ∷ []; ret_type = none; args = some []; body = scope stats_end }

decl_func_to_string-fits_example :
    is_some (decl_func_to_string procedure) ≡ has_scope procedure.body && is_some procedure.ret_type
decl_func_to_string-fits_example = decl_func_to_string-fits procedure
