-- ===== src/Parser/Literals.antt =====
-- src/lexer.c: the values of literals, from the texts that the patterns of src/lexer.l match. An `int` is
-- a word of 32 bits.
use phantomshell.Base.{
  ℕ, zero, suc, ◌+◌, ◌-◌, ◌*◌, ◌/◌, ◌%◌, ◌^◌, ◌<◌, ◌≡◌, refl, ◌∙◌, List, [], ◌∷◌, ◌++◌, ltb,
  if◌then◌else◌, length, length-append, take, take-append, drop, get_or, str_eq, arith, Bool-cases,
  inl, inr, lt→ltb, ≤→ltb, ltb→lt,
}
use phantomshell.Printer.{codes, digits, show_int}

unfoldable pub lexer_handle_bool : List ℕ → ℕ
lexer_handle_bool text_value = if str_eq text_value (codes "true") then 1 else 0

-- The number that decimal digits stand for, behind those already read.
unfoldable pub decimal : ℕ → List ℕ → ℕ
decimal n [] = n
decimal n (c ∷ s) = decimal (n * 10 + (c - b'0')) s

-- `strtol` stops at the greatest `long`, and the cast keeps 32 bits.
unfoldable pub lexer_handle_int : List ℕ → ℕ
unfolding decimal
lexer_handle_int text_value =
    let value = decimal 0 text_value in
    (if ltb (2 ^ 63 - 1) value then 2 ^ 63 - 1 else value) % 2 ^ 32

-- `to_float` is what `strtod` reads in a text, as the cast leaves it in 32 bits. It is given a copy of the text.
unfoldable pub lexer_handle_float : (List ℕ → ℕ) → List ℕ → ℕ
lexer_handle_float to_float text_value = to_float text_value

unfoldable pub lexer_handle_char : List ℕ → ℕ
lexer_handle_char text_value = get_or text_value 1 0

unfoldable pub lexer_handle_string : List ℕ → List ℕ
lexer_handle_string text_value = take (length text_value - 2) (drop 1 text_value)

unfoldable pub lexer_handle_identifier : List ℕ → List ℕ
lexer_handle_identifier identifier_value = identifier_value

decimal-append :
    (n : ℕ) (s : List ℕ) (c : ℕ) → decimal n (s ++ (c ∷ [])) ≡ decimal n s * 10 + (c - b'0')
unfolding decimal
decimal-append n [] c = refl
decimal-append n (x ∷ s) c = decimal-append (n * 10 + (x - b'0')) s c

-- The numbers of so many digits.
abbrev ten_to : ℕ → ℕ
ten_to zero = 1
ten_to (suc k) = 10 * ten_to k

one_digit : (n : ℕ) → decimal 0 ((b'0' + n % 10) ∷ []) ≡ n % 10
unfolding decimal
one_digit n = omega arith

decimal-digits : (fuel n : ℕ) → n < 10 * ten_to fuel → decimal 0 (digits (suc fuel) n) ≡ n
unfolding digits
decimal-digits zero n small = elim (Bool-cases (ltb n 10)) [
  | inl t ↦ rw t (one_digit n ∙ omega (arith, ltb→lt n 10 t))
  | inr t ↦ absurd (ground arith)
]
decimal-digits (suc fuel) n small = elim (Bool-cases (ltb n 10)) [
  | inl t ↦ rw t (one_digit n ∙ omega (arith, ltb→lt n 10 t))
  | inr t ↦
      rw
        (
          t,
          decimal-append 0 (digits (suc fuel) (n / 10)) (b'0' + n % 10),
          decimal-digits fuel (n / 10) (omega arith),
        )
        (omega arith)
]

-- A number below 2 ^ 31 is read back from its decimal digits.
pub lexer_handle_int-show_int : (n : ℕ) → n < 2 ^ 31 → lexer_handle_int (show_int n) ≡ n
unfolding lexer_handle_int show_int
lexer_handle_int-show_int n small =
    let word : n % 2 ^ 32 ≡ n = omega arith in
    rw
      (
        word,
        lt→ltb n (2 ^ 31) small,
        decimal-digits 9 n (omega arith),
        ≤→ltb n (2 ^ 63 - 1) (omega arith),
        word,
      )
      refl

-- The value of a text in quotes is the text between them.
pub lexer_handle_string-quoted : (s : List ℕ) → lexer_handle_string (b'"' ∷ (s ++ (b'"' ∷ []))) ≡ s
unfolding lexer_handle_string
lexer_handle_string-quoted s =
    let size : suc (length (s ++ (b'"' ∷ []))) - 2 ≡ length s =
      omega (arith, length-append s (b'"' ∷ [])) in
    rw size (take-append s (b'"' ∷ []))
