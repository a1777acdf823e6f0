-- ===== src/Printer/Fits.antt =====
-- src/parser.c: which expressions are printed within their buffers.
use phantomshell.Base.{
  ℕ, zero, suc, ◌+◌, ◌-◌, ◌/◌, ◌%◌, ◌^◌, ◌≤◌, ◌<◌, ◌≡◌, refl, ◌∙◌, Bool, true, false, ◌&&◌, Option,
  none, some, List, [], ◌∷◌, ◌++◌, ltb, leb, ◌==◌, length, length-append, arith, le→leb, Bool-cases,
  inl, inr,
}
use phantomshell.Operator.{operator_word}
use phantomshell.Ast.{
  Expr, literal_bool, literal_int, literal_float, literal_char, literal_string, ident, group,
  unary_op, binary_op, ternary_op, special_cast,
}
use phantomshell.Printer.{
  codes, print_to, digits, show_int, with_text, print_bool, print_int, print_char, print_string,
  print_ident, print_group, print_unary, print_binary, print_ternary, print_float, expr_to_string,
}

abbrev pub is_some {ℓ} : {A : Type ℓ} → Option A → Bool
is_some none = false
is_some (some a) = true

print_to-is_some : (n : ℕ) (s : List ℕ) → is_some (print_to n s) ≡ leb (length s + 1) n
unfolding print_to
print_to-is_some n s = ground arith

length-digits : (fuel n : ℕ) → length (digits fuel n) ≤ fuel
unfolding digits
length-digits zero n = omega arith
length-digits (suc fuel) n = elim (Bool-cases (ltb n 10)) [
  | inl t ↦ rw t (omega arith)
  | inr t ↦
      rw (t, length-append (digits fuel (n / 10)) ((b'0' + n % 10) ∷ []))
        (omega (arith, length-digits fuel (n / 10)))
]

pub length-show_int : (w : ℕ) → length (show_int w) ≤ 11
unfolding show_int
length-show_int w = elim (Bool-cases (ltb (w % 2 ^ 32) (2 ^ 31))) [
  | inl t ↦ rw t (omega (arith, length-digits 10 (w % 2 ^ 32)))
  | inr t ↦ rw t (omega (arith, length-digits 10 (2 ^ 32 - w % 2 ^ 32)))
]

pub print_to_fits : (n : ℕ) (s : List ℕ) → length s + 1 ≤ n → is_some (print_to n s) ≡ true
print_to_fits n s h = print_to-is_some n s ∙ le→leb (length s + 1) n h

pub print_to_overflows : (n : ℕ) (s : List ℕ) → n < length s + 1 → is_some (print_to n s) ≡ false
print_to_overflows n s h = print_to-is_some n s ∙ ground arith

bool_fits : (b : ℕ) → is_some (print_bool b) ≡ true
unfolding print_bool
bool_fits b = elim (Bool-cases (b == 0)) [ inl t ↦ rw t refl | inr t ↦ rw t refl ]

int_fits : (n : ℕ) → is_some (print_int n) ≡ true
unfolding print_int
int_fits n = print_to_fits 24 (codes "L(I)=" ++ show_int n) (omega (arith, length-show_int n))

char_fits : (c : ℕ) → is_some (print_char c) ≡ true
unfolding print_char
char_fits c = refl

string_fits : (s : List ℕ) → is_some (print_string s) ≡ true
unfolding print_string
string_fits s = print_to_fits (8 + length s) (codes "L(S)=" ++ s) (omega arith)

ident_overflows : (s : List ℕ) → is_some (print_ident s) ≡ false
unfolding print_ident
ident_overflows s =
    print_to_overflows (length s + 8) (codes "(ident=" ++ (s ++ codes ")"))
      (omega (arith, length-append s (codes ")")))

group_fits : (e : List ℕ) → is_some (print_group e) ≡ true
unfolding print_group
group_fits e =
    print_to_fits (length e + 8) (codes "( " ++ (e ++ codes " )"))
      (omega (arith, length-append e (codes " )")))

unary_fits : (w : ℕ) (e : List ℕ) → is_some (print_unary (show_int w) e) ≡ true
unfolding print_unary
unary_fits w e =
    print_to_fits (length e + 16) (codes "(" ++ (show_int w ++ (codes " " ++ (e ++ codes ")")))) (
      omega (
        arith,
        length-show_int w,
        length-append (show_int w) (codes " " ++ (e ++ codes ")")),
        length-append e (codes ")"),
      ))

binary_fits : (w : ℕ) (l r : List ℕ) → is_some (print_binary (show_int w) l r) ≡ true
unfolding print_binary
binary_fits w l r =
    let tail : List ℕ = codes " " ++ (r ++ codes ")") in
    print_to_fits (length l + length r + 16)
      (codes "(" ++ (l ++ (codes " " ++ (show_int w ++ tail))))
      (omega (
        arith,
        length-show_int w,
        length-append l (codes " " ++ (show_int w ++ tail)),
        length-append (show_int w) tail,
        length-append r (codes ")"),
      ))

-- The text around the operands has one character too many if that of the operator has 11.
ternary_text :
    (op a b c : List ℕ)
    → length (
        codes "("
        ++ (a ++ (codes " " ++ (op ++ (codes " " ++ (b ++ (codes " " ++ (c ++ codes ")"))))))))
      ≡ length a + length b + length c + length op + 5
ternary_text op a b c =
    let last : List ℕ = codes " " ++ (c ++ codes ")") in
    let tail : List ℕ = codes " " ++ (b ++ last) in
    omega (
      arith,
      length-append a (codes " " ++ (op ++ tail)),
      length-append op tail,
      length-append b last,
      length-append c (codes ")"),
    )

ternary-is_some : (op a b c : List ℕ) → is_some (print_ternary op a b c) ≡ leb (length op) 10
unfolding print_ternary
ternary-is_some op a b c =
    print_to-is_some (length a + length b + length c + 16) (
      codes "("
      ++ (a ++ (codes " " ++ (op ++ (codes " " ++ (b ++ (codes " " ++ (c ++ codes ")"))))))))
    ∙ rw (ternary_text op a b c) (ground arith)

-- Whether, outside of casts, an expression has no identifier, each of its floats takes at most 26
-- characters, and the number of each operator of three operands takes at most 10.
unfoldable pub fits : (ℕ → List ℕ) → Expr → Bool
fits show_float (ident t value) = false
fits show_float (ternary_op t o a b c) =
    leb (length (show_int (operator_word o))) 10
    && (fits show_float a && (fits show_float b && fits show_float c))
fits show_float (literal_float x) = leb (length (show_float x)) 26
fits show_float (group t e) = fits show_float e
fits show_float (unary_op t o e) = fits show_float e
fits show_float (binary_op t o l r) = fits show_float l && fits show_float r
fits show_float _ = true

pub with_text-is_some :
    (m : Option (List ℕ)) (f : List ℕ → Option (List ℕ)) (b : Bool)
    → ((s : List ℕ) → is_some (f s) ≡ b)
    → is_some (with_text m f) ≡ is_some m && b
with_text-is_some none f b h = refl
with_text-is_some (some s) f b h = h s

float_fits :
    (show_float : ℕ → List ℕ) (x : ℕ)
    → is_some (print_float show_float x) ≡ leb (length (show_float x)) 26
unfolding print_float
float_fits show_float x = print_to-is_some 32 (codes "L(F)=" ++ show_float x) ∙ ground arith

pub and_true : (b : Bool) → (b && true) ≡ b
and_true true = refl
and_true false = refl

pub and_rotate : (a b c d : Bool) → (a && (b && (c && d))) ≡ (d && (a && (b && c)))
and_rotate true b c d = ground arith
and_rotate false b c d = ground arith

-- An expression is printed within the buffers that are allocated for it exactly when, outside of casts, it
-- has no identifier, each of its floats takes at most 26 characters, and the number of each operator
-- of three operands takes at most 10.
pub expr_to_string-fits :
    (show_float : ℕ → List ℕ) (e : Expr) → is_some (expr_to_string show_float e) ≡ fits show_float e
unfolding expr_to_string fits
expr_to_string-fits show_float (literal_bool b) = bool_fits b
expr_to_string-fits show_float (literal_int n) = int_fits n
expr_to_string-fits show_float (literal_float x) = float_fits show_float x
expr_to_string-fits show_float (literal_char c) = char_fits c
expr_to_string-fits show_float (literal_string s) = string_fits s
expr_to_string-fits show_float (ident t value) = ident_overflows value
expr_to_string-fits show_float (group t e) =
    with_text-is_some (expr_to_string show_float e) print_group true group_fits
    ∙ and_true _
    ∙ expr_to_string-fits show_float e
expr_to_string-fits show_float (unary_op t o e) =
    with_text-is_some (expr_to_string show_float e) (print_unary (show_int (operator_word o))) true
      (unary_fits (operator_word o))
    ∙ and_true _
    ∙ expr_to_string-fits show_float e
expr_to_string-fits show_float (binary_op t o l r) =
    let w = operator_word o in
    let right : Option (List ℕ) = expr_to_string show_float r in
    with_text-is_some (expr_to_string show_float l)
      (λ l_str. with_text right (print_binary (show_int w) l_str)) (is_some right && true)
      (λ l_str.
        with_text-is_some right (print_binary (show_int w) l_str) true (binary_fits w l_str))
    ∙ rw
        (
          expr_to_string-fits show_float l,
          expr_to_string-fits show_float r,
          and_true (fits show_float r),
        )
        refl
expr_to_string-fits show_float (ternary_op t o a b c) =
    let op : List ℕ = show_int (operator_word o) in
    let second : Option (List ℕ) = expr_to_string show_float b in
    let third : Option (List ℕ) = expr_to_string show_float c in
    let last : Bool = leb (length op) 10 in
    with_text-is_some (expr_to_string show_float a)
      (λ a_str. with_text second (λ b_str. with_text third (print_ternary op a_str b_str)))
      (is_some second && (is_some third && last))
      (λ a_str.
        with_text-is_some second (λ b_str. with_text third (print_ternary op a_str b_str))
          (is_some third && last)
          (λ b_str.
            with_text-is_some third (print_ternary op a_str b_str) last
              (ternary-is_some op a_str b_str)))
    ∙ (rw
        (
          expr_to_string-fits show_float a,
          expr_to_string-fits show_float b,
          expr_to_string-fits show_float c,
        )
        (and_rotate (fits show_float a) (fits show_float b) (fits show_float c) last))
expr_to_string-fits show_float (special_cast t opcode e) = refl
