-- ===== src/Main.antt =====
-- src/main.c: the words of the command line; src/compiler_scope.c: the root frame, whose emitter is chosen
-- when the first node is compiled. `opens` says which files `fopen` opens. A status is a byte.
pub mod Started
pub mod Tests
use phantomshell.Base.{
  ℕ, Bool, true, false, Option, none, some, List, [], ◌∷◌, ◌==◌, if◌then◌else◌, str_eq,
}
use phantomshell.Compiler.Scope.{Scope}
use phantomshell.Compiler.Stat.{Target, unbuffered, buffered}

-- `lexer_state.is_interactive`, and the file that was last handed to `lexer_set_in`.
pub record Options : Type 0 where
  pub is_interactive : Bool
  pub input : Option (List ℕ)

pub data Start : Type 0 where
  started : Options → Start
  exited : ℕ → Start

-- -i
abbrev pub short_interactive : List ℕ
short_interactive = b'-' ∷ b'i' ∷ []

-- --interactive
abbrev pub long_interactive : List ℕ
long_interactive =
    b'-' ∷ b'-' ∷ b'i' ∷ b'n' ∷ b't' ∷ b'e' ∷ b'r' ∷ b'a' ∷ b'c' ∷ b't' ∷ b'i' ∷ b'v' ∷ b'e' ∷ []

-- The new options, and the words that were read.
unfoldable pub read_short_option : List ℕ → Options → Options × ℕ
unfolding str_eq
read_short_option word o =
    if str_eq word short_interactive then (record o { is_interactive = true }, 1) else (o, 0)

unfoldable pub read_long_option : List ℕ → Options → Options × ℕ
unfolding str_eq
read_long_option word o =
    if str_eq word long_interactive then (record o { is_interactive = true }, 1) else (o, 0)

-- exit(-1) and exit(-2).
abbrev pub no_file : ℕ
no_file = 255

abbrev pub bad_option : ℕ
bad_option = 254

abbrev pub unless_unread : Options × ℕ → Start
unless_unread (o, shift) = if shift == 0 then exited bad_option else started o

-- A word, by its first characters: a `-` alone and `--` alone are refused.
unfoldable pub read_word : (List ℕ → Bool) → List ℕ → Options → Start
unfolding read_short_option read_long_option
read_word opens [] o = if opens [] then started (record o { input = some [] }) else exited no_file
read_word opens (c ∷ []) o =
    if c == b'-'
    then exited bad_option
    else if opens (c ∷ [])
    then started (record o { input = some (c ∷ []) })
    else exited no_file
read_word opens (c ∷ d ∷ more) o =
    let word : List ℕ = c ∷ d ∷ more in
    let long : Start = elim more [
      | [] ↦ exited bad_option
      | e ∷ rest ↦ unless_unread (read_long_option word o)
    ] in
    if c == b'-'
    then if d == b'-' then long else unless_unread (read_short_option word o)
    else if opens word
    then started (record o { input = some word })
    else exited no_file

abbrev pub then_words : Start → (Options → Start) → Start
then_words (exited status) rest = exited status
then_words (started o) rest = rest o

-- The loop of `main` over its arguments.
unfoldable pub read_words : (List ℕ → Bool) → List (List ℕ) → Options → Start
unfolding read_word
read_words opens [] o = started o
read_words opens (word ∷ words) o = then_words (read_word opens word o) (read_words opens words)

-- `root_scope_handler`.
pub record RootFrame : Type 0 where
  pub scope : Scope
  pub emitter : Option Target

unfoldable pub root_scope_handler : RootFrame
root_scope_handler = record {
  scope = record {
    vars = [];
    vars_cap = 64;
    vars_off = 0;
    vars_max_size = 0;
    parents = [];
    stack_size = 0;
    stack_max_size = 0;
    code = [];
  };
  emitter = none;
}

-- `compiler_get_root_frame`, which makes an emitter the first time.
unfoldable pub compiler_get_root_frame : Options → RootFrame → RootFrame
compiler_get_root_frame o frame = elim frame.emitter [
  | some target ↦ frame
  | none ↦ record frame { emitter = some (if o.is_interactive then unbuffered else buffered 4096) }
]
