-- ===== src/Parser/Tests.antt =====
-- Runs of the constructors and of the lexer.
use phantomshell.Base.{
  ℕ, ◌+◌, ◌-◌, ◌^◌, ◌≡◌, refl, str_eq, true, false, ◌&&◌, some, none, List, [], arith,
  if◌then◌else◌,
}
use phantomshell.Operator.{addition}
use phantomshell.Ast.{
  Expr, literal_int, group, binary_op, ternary_op, type_unknown, Stat, stat_expr, stat_if,
  stat_switch, stat_while, null_scope, scope, stats_end, stats_link, Choices, choices_end, case,
}
use phantomshell.Printer.{codes, show_int, expr_to_string}
use phantomshell.Printer.Fits.{fits}
use phantomshell.Parser.{LexerState, compiles, read_stat, read_body}
use phantomshell.Parser.Reading.{height, at_top, is_compiled, read_stat-state, read_body-null}
use phantomshell.Parser.Switch.{height_choices, read_stat-switch}
use phantomshell.Parser.Nodes.{intact, dangling, undefined, traced, build}
use phantomshell.Parser.Traced.{operands_intact, is_ternary, build-outcome}
use phantomshell.Parser.Literals.{lexer_handle_bool, lexer_handle_int, lexer_handle_int-show_int}

abbrev root : LexerState
root = record {
  is_inside_func = false;
  is_inside_member_func = false;
  is_inside_class = false;
  is_inside_selection_stat = 0;
  is_inside_iteration_stat = 0;
}

-- (1 + 2)
abbrev sum : Expr
sum = group type_unknown (binary_op type_unknown addition (literal_int 1) (literal_int 2))

-- if ((1 + 2)) { while (1) { 1; } }
abbrev nested : Stat
nested =
    stat_if sum
      (scope (
        stats_link
          (stat_while (literal_int 1) (scope (stats_link (stat_expr (literal_int 1)) stats_end)))
          stats_end))
      null_scope

-- case 1 { 1; }
abbrev choices : Choices
choices =
    case (literal_int 1) (scope (stats_link (stat_expr (literal_int 1)) stats_end)) choices_end

read_nested : read_stat nested root ≡ some (root, true)
unfolding read_stat
read_nested = refl

read_stat-state_example : read_stat nested root ≡ some (root, is_compiled nested && at_top root)
unfolding height
read_stat-state_example =
    read_stat-state nested root (((tt, tt), tt), tt) (omega arith) (omega arith)

read_body-null_example : read_body (scope (stats_link (stat_expr sum) stats_end)) root ≡ none
unfolding height compiles
read_body-null_example = read_body-null (stat_expr sum) stats_end root tt refl refl (omega arith)

read_stat-switch_example :
    (s' : LexerState) × (read_stat (stat_switch sum choices) root ≡ some (s', false))
    × (s'.is_inside_selection_stat ≡ root.is_inside_selection_stat + 1)
    × (read_stat nested s' ≡ some (s', false))
unfolding height height_choices
read_stat-switch_example =
    read_stat-switch sum choices nested root ((tt, tt), tt) (((tt, tt), tt), tt) (omega arith)
      (omega arith)

abbrev no_float : ℕ → List ℕ
no_float x = []

-- An operator of three operands with sum as the first and the last.
abbrev choice : Expr
choice = ternary_op type_unknown addition sum (literal_int 1) sum

build-outcome_example : build no_float choice ≡ (
    if fits no_float choice && operands_intact choice
    then (if is_ternary choice then dangling choice else intact choice)
    else undefined)
build-outcome_example =
    build-outcome no_float choice (refl, (refl, (refl, tt, tt)), tt, (refl, (refl, tt, tt)))

choice_built : build no_float choice ≡ dangling choice
unfolding build traced expr_to_string phantomshell.Operator.operator_word
choice_built = refl

grouped_choice_built : build no_float (group type_unknown choice) ≡ undefined
unfolding build traced expr_to_string phantomshell.Operator.operator_word
grouped_choice_built = refl

true_text : lexer_handle_bool (codes "true") ≡ 1
unfolding lexer_handle_bool str_eq
true_text = refl

-- A number beyond the greatest `long` is read as -1.
long_text : lexer_handle_int (codes "99999999999999999999") ≡ 2 ^ 32 - 1
unfolding lexer_handle_int
long_text = refl

lexer_handle_int-show_int_example : lexer_handle_int (show_int 1234567890) ≡ 1234567890
lexer_handle_int-show_int_example = lexer_handle_int-show_int 1234567890 (omega arith)
