-- ===== src/Parser.antt =====
-- src/lexer.c: the state of the lexer and the keywords that change it; src/parser.c: the constructors of
-- nodes, and which statements they hand to the compiler and free at once. A null pointer that is given
-- back is `true` beside the state. The counters are words of 32 bits.
pub mod Reading
pub mod Switch
pub mod Nodes
pub mod Traced
pub mod Literals
pub mod Tests
use phantomshell.Base.{
  ℕ, ◌+◌, ◌-◌, ◌%◌, ◌^◌, Bool, true, false, not, ◌&&◌, Option, none, some, ◌==◌, if◌then◌else◌,
}
use phantomshell.Ast.{
  Expr, Stat, stat_expr, stat_ret, stat_if, stat_switch, stat_while, Body, null_scope, scope, Stats,
  stats_end, stats_link, Choices, choices_end, case, other,
}

-- `struct psh_lexer_state_t`, without the flag of the interactive mode.
pub record LexerState : Type 0 where
  pub is_inside_func : Bool
  pub is_inside_member_func : Bool
  pub is_inside_class : Bool
  pub is_inside_selection_stat : ℕ
  pub is_inside_iteration_stat : ℕ

unfoldable pub lexer_handle_keyword_class : LexerState → LexerState
lexer_handle_keyword_class s = record s { is_inside_class = true }

-- The new state, and whether `yyerror` was called.
unfoldable pub lexer_handle_keyword_func : LexerState → LexerState × Bool
lexer_handle_keyword_func s =
    if s.is_inside_class
    then (record s { is_inside_member_func = true }, s.is_inside_member_func)
    else (record s { is_inside_func = true }, s.is_inside_func)

unfoldable pub lexer_handle_keyword_if : LexerState → LexerState
lexer_handle_keyword_if s = record s {
  is_inside_selection_stat = (s.is_inside_selection_stat + 1) % 2 ^ 32;
}

unfoldable pub lexer_handle_keyword_switch : LexerState → LexerState
lexer_handle_keyword_switch s = record s {
  is_inside_selection_stat = (s.is_inside_selection_stat + 1) % 2 ^ 32;
}

unfoldable pub lexer_handle_keyword_while : LexerState → LexerState
lexer_handle_keyword_while s = record s {
  is_inside_iteration_stat = (s.is_inside_iteration_stat + 1) % 2 ^ 32;
}

-- The tests before `compiler_compile`, with the values that the two counters have there.
unfoldable pub compiles : LexerState → ℕ → ℕ → Bool
compiles s selections iterations =
    not s.is_inside_func
    && (not s.is_inside_member_func
        && ((s.is_inside_selection_stat == selections)
            && (s.is_inside_iteration_stat == iterations)))

unfoldable pub ast_new_node_stat_expr : LexerState → LexerState × Bool
unfolding compiles
ast_new_node_stat_expr s = (s, compiles s 0 0)

unfoldable pub ast_new_node_stat_ret : LexerState → LexerState × Bool
ast_new_node_stat_ret s = (s, false)

unfoldable pub ast_new_node_stat_if : LexerState → LexerState × Bool
unfolding compiles
ast_new_node_stat_if s = (
  record s { is_inside_selection_stat = (s.is_inside_selection_stat + 2 ^ 32 - 1) % 2 ^ 32 },
  compiles s 1 0,
)

unfoldable pub ast_new_node_stat_switch : LexerState → LexerState × Bool
ast_new_node_stat_switch s = (s, false)

unfoldable pub ast_new_node_stat_while : LexerState → LexerState × Bool
unfolding compiles
ast_new_node_stat_while s = (
  record s { is_inside_iteration_stat = (s.is_inside_iteration_stat + 2 ^ 32 - 1) % 2 ^ 32 },
  compiles s 0 1,
)

unfoldable pub ast_new_node_decl_func : LexerState → LexerState × Bool
ast_new_node_decl_func s = (
  (if s.is_inside_class
      then record s { is_inside_member_func = false }
      else record s { is_inside_func = false }),
  not s.is_inside_class,
)

-- `ast_link_node_stat_list`: the statement goes to the end of the list; a null statement is written
-- through, which is `none`.
unfoldable pub ast_link_node_stat_list : LexerState × Bool → Option LexerState
ast_link_node_stat_list (s, true) = none
ast_link_node_stat_list (s, false) = some s

-- The next part of the text, where there is a state.
abbrev pub then_read {ℓ} : {A : Type ℓ} → Option LexerState → (LexerState → Option A) → Option A
then_read none f = none
then_read (some s) f = f s

abbrev pub then_link {ℓ} :
    {A : Type ℓ} → Option (LexerState × Bool) → (LexerState → Option A) → Option A
then_link none f = none
then_link (some r) f = then_read (ast_link_node_stat_list r) f

-- The keywords and the constructors in the order in which a statement of the text, with a separator
-- behind it, brings them about.
unfoldable mutual
  unfolding lexer_handle_keyword_if lexer_handle_keyword_switch lexer_handle_keyword_while
      ast_new_node_stat_expr ast_new_node_stat_ret ast_new_node_stat_if ast_new_node_stat_switch
      ast_new_node_stat_while ast_link_node_stat_list

  pub read_stat : Stat → LexerState → Option (LexerState × Bool)
  read_stat (stat_expr e) s = some (ast_new_node_stat_expr s)
  read_stat (stat_ret e) s = some (ast_new_node_stat_ret s)
  read_stat (stat_if e t f) s =
      then_read (read_body t (lexer_handle_keyword_if s))
        λ s1. then_read (read_body f s1) λ s2. some (ast_new_node_stat_if s2)
  read_stat (stat_switch e choices) s =
      then_read (read_choices choices (lexer_handle_keyword_switch s))
        λ s1. some (ast_new_node_stat_switch s1)
  read_stat (stat_while e b) s =
      then_read (read_body b (lexer_handle_keyword_while s)) λ s1. some (ast_new_node_stat_while s1)

  pub read_body : Body → LexerState → Option LexerState
  read_body null_scope s = some s
  read_body (scope stats) s = read_stats stats s

  pub read_stats : Stats → LexerState → Option LexerState
  read_stats stats_end s = some s
  read_stats (stats_link stat rest) s = then_link (read_stat stat s) (read_stats rest)

  pub read_choices : Choices → LexerState → Option LexerState
  read_choices choices_end s = some s
  read_choices (case e b next) s = then_read (read_body b s) (read_choices next)
  read_choices (other b next) s = then_read (read_body b s) (read_choices next)
