-- ===== src/Parser/Reading.antt =====
-- src/parser.c and src/lexer.c: statements without a switch.
use phantomshell.Base.{
  ℕ, suc, ◌+◌, ◌^◌, ◌<◌, ◌≤◌, ◌≡◌, refl, Bool, true, false, ◌&&◌, none, some, arith,
}
use phantomshell.Ast.{
  Stat, stat_expr, stat_ret, stat_if, stat_switch, stat_while, Body, null_scope, scope, Stats,
  stats_end, stats_link,
}
use phantomshell.Parser.{
  LexerState, compiles, lexer_handle_keyword_if, lexer_handle_keyword_while, ast_new_node_stat_if,
  ast_new_node_stat_while, read_stat, read_body, read_stats,
}

-- A statement of the root: no function, no selection and no iteration is open.
abbrev pub at_top : LexerState → Bool
at_top s = compiles s 0 0

-- No statement of it is a switch.
abbrev mutual
  pub NoSwitch : Stat → Type 0
  NoSwitch (stat_expr e) = Unit
  NoSwitch (stat_ret e) = Unit
  NoSwitch (stat_if e t f) = NoSwitchBody t × NoSwitchBody f
  NoSwitch (stat_switch e choices) = ⊥
  NoSwitch (stat_while e b) = NoSwitchBody b

  pub NoSwitchBody : Body → Type 0
  NoSwitchBody null_scope = Unit
  NoSwitchBody (scope stats) = NoSwitchStats stats

  pub NoSwitchStats : Stats → Type 0
  NoSwitchStats stats_end = Unit
  NoSwitchStats (stats_link stat rest) = NoSwitch stat × NoSwitchStats rest

-- A bound for the depth of the nesting.
unfoldable mutual
  pub height : Stat → ℕ
  height (stat_expr e) = 0
  height (stat_ret e) = 0
  height (stat_if e t f) = suc (height_body t + height_body f)
  height (stat_switch e choices) = 0
  height (stat_while e b) = suc (height_body b)

  pub height_body : Body → ℕ
  height_body null_scope = 0
  height_body (scope stats) = height_stats stats

  pub height_stats : Stats → ℕ
  height_stats stats_end = 0
  height_stats (stats_link stat rest) = height stat + height_stats rest

-- The kinds of statement that the root hands to the compiler.
abbrev pub is_compiled : Stat → Bool
is_compiled (stat_expr e) = true
is_compiled (stat_ret e) = false
is_compiled (stat_if e t f) = true
is_compiled (stat_switch e choices) = false
is_compiled (stat_while e b) = true

-- Counters that so many levels more do not wrap.
pub record Deep (s : LexerState) (n : ℕ) : Type 0 where
  pub selections : s.is_inside_selection_stat + n < 2 ^ 32
  pub iterations : s.is_inside_iteration_stat + n < 2 ^ 32

pub never : (b : Bool) → (b && false) ≡ false
never true = refl
never false = refl

inside_if : (s : LexerState) (n : ℕ) → Deep s (suc n) → at_top (lexer_handle_keyword_if s) ≡ false
unfolding compiles lexer_handle_keyword_if
inside_if s n d = ground arith

inside_while :
    (s : LexerState) (n : ℕ) → Deep s (suc n) → at_top (lexer_handle_keyword_while s) ≡ false
unfolding compiles lexer_handle_keyword_while
inside_while s n d = ground arith

if-Deep : (s : LexerState) (n : ℕ) → Deep s (suc n) → Deep (lexer_handle_keyword_if s) n
unfolding lexer_handle_keyword_if
if-Deep s n d = omega (arith, d.selections, d.iterations)

while-Deep : (s : LexerState) (n : ℕ) → Deep s (suc n) → Deep (lexer_handle_keyword_while s) n
unfolding lexer_handle_keyword_while
while-Deep s n d = omega (arith, d.selections, d.iterations)

-- The constructor undoes the keyword.
if_closed :
    (s : LexerState) (n : ℕ)
    → Deep s (suc n)
    → ast_new_node_stat_if (lexer_handle_keyword_if s) ≡ (s, at_top s)
unfolding compiles lexer_handle_keyword_if ast_new_node_stat_if
if_closed s n d = ground arith

while_closed :
    (s : LexerState) (n : ℕ)
    → Deep s (suc n)
    → ast_new_node_stat_while (lexer_handle_keyword_while s) ≡ (s, at_top s)
unfolding compiles lexer_handle_keyword_while ast_new_node_stat_while
while_closed s n d = ground arith

pub less-Deep : (s : LexerState) (n k : ℕ) → k ≤ n → Deep s n → Deep s k
less-Deep s n k le d = omega (arith, d.selections, d.iterations)

mutual
  unfolding read_stat height

  pub stat_state :
      (stat : Stat) (s : LexerState)
      → NoSwitch stat
      → Deep s (height stat)
      → read_stat stat s ≡ some (s, is_compiled stat && at_top s)
  stat_state (stat_expr e) s h d = refl
  stat_state (stat_ret e) s h d = refl
  stat_state (stat_if e t f) s h d =
      let n = height_body t + height_body f in
      let s1 = lexer_handle_keyword_if s in
      let d1 = if-Deep s n d in
      rw
        (
          body_state t s1 h.0 (less-Deep s1 n (height_body t) (omega arith) d1) (inside_if s n d),
          body_state f s1 h.1 (less-Deep s1 n (height_body f) (omega arith) d1) (inside_if s n d),
          if_closed s n d,
        )
        refl
  stat_state (stat_switch e choices) s h d = elim h [ ]
  stat_state (stat_while e b) s h d =
      let n = height_body b in
      let s1 = lexer_handle_keyword_while s in
      rw (body_state b s1 h (while-Deep s n d) (inside_while s n d), while_closed s n d) refl

  pub body_state :
      (b : Body) (s : LexerState)
      → NoSwitchBody b
      → Deep s (height_body b)
      → at_top s ≡ false
      → read_body b s ≡ some s
  body_state null_scope s h d inside = refl
  body_state (scope stats) s h d inside = stats_state stats s h d inside

  stats_state :
      (stats : Stats) (s : LexerState)
      → NoSwitchStats stats
      → Deep s (height_stats stats)
      → at_top s ≡ false
      → read_stats stats s ≡ some s
  stats_state stats_end s h d inside = refl
  stats_state (stats_link stat rest) s h d inside =
      let n = height stat + height_stats rest in
      rw
        (
          stat_state stat s h.0 (less-Deep s n (height stat) (omega arith) d),
          inside,
          never (is_compiled stat),
        )
        (stats_state rest s h.1 (less-Deep s n (height_stats rest) (omega arith) d) inside)

-- A statement with no switch in it, read with counters that do not wrap: the state of the lexer is what it
-- was before, no null statement is linked into a list, and the statement is handed to the compiler
-- exactly when it is no `return` and no function, selection or iteration was open.
pub read_stat-state :
    (stat : Stat) (s : LexerState)
    → NoSwitch stat
    → s.is_inside_selection_stat + height stat < 2 ^ 32
    → s.is_inside_iteration_stat + height stat < 2 ^ 32
    → read_stat stat s ≡ some (s, is_compiled stat && at_top s)
read_stat-state stat s h selections iterations =
    stat_state stat s h (record { selections = selections; iterations = iterations })

-- A list of statements in braces at the root, where no function, selection or iteration is open and the
-- counters do not wrap: if the first one has no switch and is no `return`, it is compiled and freed, and
-- the null pointer that is left is written through when it is linked.
pub read_body-null :
    (stat : Stat) (rest : Stats) (s : LexerState)
    → NoSwitch stat
    → is_compiled stat ≡ true
    → at_top s ≡ true
    → height stat < 2 ^ 32
    → read_body (scope (stats_link stat rest)) s ≡ none
unfolding read_stat compiles
read_body-null stat rest s h kind top small =
    rw
      (
        stat_state stat s h (record { selections = ground arith; iterations = ground arith }),
        kind,
        top,
      )
      refl
