-- ===== src/Printer.antt =====
-- src/parser.c: `ast_node_*_to_string`, which a build prints each new node with unless
-- `__PARSER_DISABLE_STRINGIFY` is defined. A text is the list of its characters without the terminator,
-- and `none` is a `sprintf` past the end of the buffer that was allocated for it, or a read through a
-- null pointer. What a print frees of the tree stands in Parser.Nodes. `show_float` is what `%f` of
-- `printf` writes for the bits of a float.
pub mod Fits
pub mod Stat
pub mod StatFits
pub mod Tests
use Prim.Native.Char.{code}
use Prim.Native.String.{String}
use phantomshell.Base.{
  ℕ, zero, suc, ◌+◌, ◌-◌, ◌/◌, ◌%◌, ◌^◌, Option, none, some, List, [], ◌∷◌, ◌++◌, ltb, leb, ◌==◌,
  if◌then◌else◌, length,
}
use phantomshell.Operator.{operator_word}
use phantomshell.Ast.{
  Expr, literal_bool, literal_int, literal_float, literal_char, literal_string, ident, group,
  unary_op, binary_op, ternary_op, special_cast,
}
use phantomshell.Vm.Pool.{c_string}

abbrev pub codes : String → List ℕ
codes String.[] = []
codes (String.◌∷◌ c s) = code c ∷ codes s

-- `malloc` of a buffer and `sprintf` to it.
unfoldable pub print_to : ℕ → List ℕ → Option (List ℕ)
unfolding c_string
print_to buffer_size s = if leb (length s + 1) buffer_size then some (c_string s) else none

-- The decimal digits, ten of them at most.
unfoldable pub digits : ℕ → ℕ → List ℕ
digits zero n = []
digits (suc fuel) n = (if ltb n 10 then [] else digits fuel (n / 10)) ++ ((b'0' + n % 10) ∷ [])

-- `%d` of a word of 32 bits.
unfoldable pub show_int : ℕ → List ℕ
unfolding digits
show_int w =
    let v = w % 2 ^ 32 in if ltb v (2 ^ 31) then digits 10 v else b'-' ∷ digits 10 (2 ^ 32 - v)

-- The text of an operand, passed on where there is one.
abbrev pub with_text : Option (List ℕ) → (List ℕ → Option (List ℕ)) → Option (List ℕ)
with_text none f = none
with_text (some s) f = f s

unfoldable pub print_bool : ℕ → Option (List ℕ)
unfolding print_to
print_bool b = print_to 16 (codes "L(B)=" ++ (if b == 0 then codes "false" else codes "true"))

unfoldable pub print_int : ℕ → Option (List ℕ)
unfolding print_to show_int
print_int n = print_to 24 (codes "L(I)=" ++ show_int n)

unfoldable pub print_char : ℕ → Option (List ℕ)
unfolding print_to
print_char c = print_to 16 (codes "L(C)=" ++ (c ∷ []))

unfoldable pub print_string : List ℕ → Option (List ℕ)
unfolding print_to
print_string s = print_to (8 + length s) (codes "L(S)=" ++ s)

unfoldable pub print_ident : List ℕ → Option (List ℕ)
unfolding print_to
print_ident value = print_to (length value + 8) (codes "(ident=" ++ (value ++ codes ")"))

unfoldable pub print_group : List ℕ → Option (List ℕ)
unfolding print_to
print_group e = print_to (length e + 8) (codes "( " ++ (e ++ codes " )"))

unfoldable pub print_unary : List ℕ → List ℕ → Option (List ℕ)
unfolding print_to
print_unary op e = print_to (length e + 16) (codes "(" ++ (op ++ (codes " " ++ (e ++ codes ")"))))

unfoldable pub print_binary : List ℕ → List ℕ → List ℕ → Option (List ℕ)
unfolding print_to
print_binary op l r =
    print_to (length l + length r + 16)
      (codes "(" ++ (l ++ (codes " " ++ (op ++ (codes " " ++ (r ++ codes ")"))))))

unfoldable pub print_ternary : List ℕ → List ℕ → List ℕ → List ℕ → Option (List ℕ)
unfolding print_to
print_ternary op a b c = print_to (length a + length b + length c + 16) (
    codes "("
    ++ (a ++ (codes " " ++ (op ++ (codes " " ++ (b ++ (codes " " ++ (c ++ codes ")"))))))))

module _ (show_float : ℕ → List ℕ) where
  unfoldable pub print_float : ℕ → Option (List ℕ)
  unfolding print_to
  print_float x = print_to 32 (codes "L(F)=" ++ show_float x)

  -- `ast_node_to_string` of an expression.
  unfoldable pub expr_to_string : Expr → Option (List ℕ)
  unfolding print_bool print_int print_float print_char print_string print_ident print_group
      print_unary print_binary print_ternary print_to show_int
  expr_to_string (literal_bool b) = print_bool b
  expr_to_string (literal_int n) = print_int n
  expr_to_string (literal_float x) = print_float x
  expr_to_string (literal_char c) = print_char c
  expr_to_string (literal_string s) = print_string s
  expr_to_string (ident t value) = print_ident value
  expr_to_string (group t e) = with_text (expr_to_string e) print_group
  expr_to_string (unary_op t o e) =
      with_text (expr_to_string e) (print_unary (show_int (operator_word o)))
  expr_to_string (binary_op t o l r) =
      with_text (expr_to_string l)
        λ l_str. with_text (expr_to_string r) (print_binary (show_int (operator_word o)) l_str)
  expr_to_string (ternary_op t o a b c) = with_text (expr_to_string a) λ a_str.
      with_text (expr_to_string b) λ b_str.
        with_text (expr_to_string c) (print_ternary (show_int (operator_word o)) a_str b_str)
  expr_to_string (special_cast t opcode e) =
      print_to 16 (codes "(cast " ++ (codes "operand" ++ codes ")"))
