-- ===== src/Main/Tests.antt =====
-- Command lines, with a file `a` that opens.
use phantomshell.Base.{◌≡◌, refl, Bool, true, false, none, some, List, [], ◌∷◌, ℕ, str_eq}
use phantomshell.Printer.{codes}
use phantomshell.Main.{Options, started, exited, read_words, short_interactive, long_interactive}
use phantomshell.Main.Started.{read_words-outcome}

abbrev opens_a : List ℕ → Bool
opens_a name = str_eq name (codes "a")

abbrev no_options : Options
no_options = record { is_interactive = false; input = none }

interactive_file :
    read_words opens_a (codes "a" ∷ short_interactive ∷ []) no_options
    ≡ started (record { is_interactive = true; input = some (codes "a") })
unfolding read_words
interactive_file = refl

missing_file : read_words opens_a (long_interactive ∷ codes "b" ∷ []) no_options ≡ exited 255
unfolding read_words
missing_file = refl

unknown_option : read_words opens_a (codes "-x" ∷ codes "b" ∷ []) no_options ≡ exited 254
unfolding read_words
unknown_option = refl

read_words-outcome_example :
    read_words opens_a (codes "a" ∷ short_interactive ∷ codes "-" ∷ []) no_options ≡ exited 254
unfolding str_eq
read_words-outcome_example =
    read_words-outcome opens_a (codes "a" ∷ short_interactive ∷ codes "-" ∷ []) no_options
