-- ===== src/Main/Started.antt =====
-- src/main.c: what the words of the command line come to.
use phantomshell.Base.{
  ℕ, ◌≡◌, refl, ◌∙◌, Bool, true, false, not, ◌&&◌, ◌||◌, Option, none, some, List, [], ◌∷◌, ◌==◌,
  arith, if◌then◌else◌, str_eq,
}
use phantomshell.Main.{
  Options, Start, started, exited, short_interactive, long_interactive, read_short_option,
  read_long_option, no_file, bad_option, then_words, read_word, read_words,
}

abbrev pub is_option : List ℕ → Bool
is_option word = str_eq word short_interactive || str_eq word long_interactive

abbrev pub is_dashed : List ℕ → Bool
is_dashed [] = false
is_dashed (c ∷ word) = c == b'-'

-- What one word says.
abbrev pub word_means : (List ℕ → Bool) → List ℕ → Options → Start
word_means opens word o =
    if is_option word
    then started (record o { is_interactive = true })
    else if is_dashed word
    then exited bad_option
    else if opens word
    then started (record o { input = some word })
    else exited no_file

word_lem :
    (opens : List ℕ → Bool) (word : List ℕ) (o : Options)
    → read_word opens word o ≡ word_means opens word o
unfolding read_word read_short_option read_long_option str_eq
word_lem opens [] o = refl
word_lem opens (c ∷ []) o = ground arith
word_lem opens (c ∷ d ∷ []) o = ground arith
word_lem opens (c ∷ d ∷ e ∷ more) o = ground arith

-- The words that are read without an exit, and the first of the others.
abbrev pub is_accepted : (List ℕ → Bool) → List ℕ → Bool
is_accepted opens word = is_option word || (not (is_dashed word) && opens word)

abbrev pub first_refused : (List ℕ → Bool) → List (List ℕ) → Option (List ℕ)
first_refused opens [] = none
first_refused opens (word ∷ words) =
    if is_accepted opens word then first_refused opens words else some word

abbrev pub any_option : List (List ℕ) → Bool
any_option [] = false
any_option (word ∷ words) = is_option word || any_option words

-- The last file, or the one before.
abbrev pub last_file : List (List ℕ) → Option (List ℕ) → Option (List ℕ)
last_file [] before = before
last_file (word ∷ words) before = last_file words (if is_option word then before else some word)

abbrev pub outcome : (List ℕ → Bool) → List (List ℕ) → Options → Start
outcome opens words o = elim (first_refused opens words) [
  | some word ↦ exited (if is_dashed word then bad_option else no_file)
  | none ↦ started (record {
    is_interactive = o.is_interactive || any_option words;
    input = last_file words o.input;
  })
]

then_words-eq :
    (s : Start) (f g : Options → Start)
    → ((o : Options) → f o ≡ g o)
    → then_words s f ≡ then_words s g
then_words-eq (exited status) f g same = refl
then_words-eq (started o) f g same = same o

outcome_word :
    (opens : List ℕ → Bool) (word : List ℕ) (words : List (List ℕ)) (o : Options)
    → then_words (word_means opens word o) (outcome opens words) ≡ outcome opens (word ∷ words) o
outcome_word opens word words o = ground arith

-- Every word of the command line is read in turn: the first that is neither an option known nor a file that
-- opens ends the program, with the status 254 if it starts with `-` and 255 otherwise; if there is
-- none, the program starts, interactive if an option was among the words, on the last file.
pub read_words-outcome :
    (opens : List ℕ → Bool) (words : List (List ℕ)) (o : Options)
    → read_words opens words o ≡ outcome opens words o
unfolding read_words
read_words-outcome opens [] o = ground arith
read_words-outcome opens (word ∷ words) o = rw (word_lem opens word o) (
    then_words-eq (word_means opens word o) (read_words opens words) (outcome opens words)
      (read_words-outcome opens words)
    ∙ outcome_word opens word words o)
