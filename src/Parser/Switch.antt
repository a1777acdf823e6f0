-- ===== src/Parser/Switch.antt =====
-- src/lexer.c and src/parser.c: the counter of the selections behind a switch.
use phantomshell.Base.{ℕ, suc, ◌+◌, ◌^◌, ◌<◌, ◌≡◌, refl, ◌∙◌, false, some, arith}
use phantomshell.Ast.{Expr, Stat, stat_switch, Choices, choices_end, case, other}
use phantomshell.Parser.{LexerState, compiles, lexer_handle_keyword_switch, read_stat, read_choices}
use phantomshell.Parser.Reading.{
  NoSwitch, NoSwitchBody, height, height_body, Deep, at_top, is_compiled, stat_state, body_state,
  never, less-Deep,
}

abbrev pub NoSwitchChoices : Choices → Type 0
NoSwitchChoices choices_end = Unit
NoSwitchChoices (case e b next) = NoSwitchBody b × NoSwitchChoices next
NoSwitchChoices (other b next) = NoSwitchBody b × NoSwitchChoices next

unfoldable pub height_choices : Choices → ℕ
unfolding height
height_choices choices_end = 0
height_choices (case e b next) = height_body b + height_choices next
height_choices (other b next) = height_body b + height_choices next

choices_state :
    (choices : Choices) (s : LexerState)
    → NoSwitchChoices choices
    → Deep s (height_choices choices)
    → at_top s ≡ false
    → read_choices choices s ≡ some s
unfolding height_choices read_stat
choices_state choices_end s h d inside = refl
choices_state (case e b next) s h d inside =
    let n = height_body b + height_choices next in
    rw (body_state b s h.0 (less-Deep s n (height_body b) (omega arith) d) inside)
      (choices_state next s h.1 (less-Deep s n (height_choices next) (omega arith) d) inside)
choices_state (other b next) s h d inside =
    let n = height_body b + height_choices next in
    rw (body_state b s h.0 (less-Deep s n (height_body b) (omega arith) d) inside)
      (choices_state next s h.1 (less-Deep s n (height_choices next) (omega arith) d) inside)

inside_switch :
    (s : LexerState) (n : ℕ) → Deep s (suc n) → at_top (lexer_handle_keyword_switch s) ≡ false
unfolding compiles lexer_handle_keyword_switch
inside_switch s n d = ground arith

switch-Deep : (s : LexerState) (n : ℕ) → Deep s (suc n) → Deep (lexer_handle_keyword_switch s) n
unfolding lexer_handle_keyword_switch
switch-Deep s n d = omega (arith, d.selections, d.iterations)

-- Behind a switch whose choices have no switch in them, read with counters that do not wrap, the counter
-- of the open selections stays one higher; a statement with no switch in it that follows is not handed
-- to the compiler, whatever the state was before.
pub read_stat-switch :
    (e : Expr) (choices : Choices) (stat : Stat) (s : LexerState)
    → NoSwitchChoices choices
    → NoSwitch stat
    → s.is_inside_selection_stat + suc (height_choices choices + height stat) < 2 ^ 32
    → s.is_inside_iteration_stat + suc (height_choices choices + height stat) < 2 ^ 32
    → (s' : LexerState) × (read_stat (stat_switch e choices) s ≡ some (s', false))
      × (s'.is_inside_selection_stat ≡ s.is_inside_selection_stat + 1)
      × (read_stat stat s' ≡ some (s', false))
unfolding read_stat lexer_handle_keyword_switch
read_stat-switch e choices stat s h k selections iterations =
    let n = height_choices choices + height stat in
    let d : Deep s (suc n) = record { selections = selections; iterations = iterations } in
    let s1 = lexer_handle_keyword_switch s in
    let d1 = switch-Deep s n d in
    let inside = inside_switch s n d in
    (
      s1,
      rw
          (choices_state choices s1 h (less-Deep s1 n (height_choices choices) (omega arith) d1)
            inside)
          refl,
      omega arith,
      stat_state stat s1 k (less-Deep s1 n (height stat) (omega arith) d1)
          ∙ (rw (inside, never (is_compiled stat)) refl),
    )
