-- ===== src/Parser/Traced.antt =====
-- src/parser.c: what the constructors of expressions return in a build that prints each new node.
use phantomshell.Base.{
  ℕ, ◌≡◌, refl, sym, ap, ◌∙◌, Bool, true, false, ◌&&◌, not, Option, none, some, List, [], ◌∷◌, ◌++◌,
  if◌then◌else◌, leb, length, arith,
}
use phantomshell.Operator.{operator_word}
use phantomshell.Ast.{
  Expr, literal_bool, literal_int, literal_float, literal_char, literal_string, ident, group,
  unary_op, binary_op, ternary_op, special_cast, type_unknown, IsParsed,
}
use phantomshell.Printer.{expr_to_string, show_int}
use phantomshell.Printer.Fits.{is_some, fits, expr_to_string-fits, and_true}
use phantomshell.Parser.Nodes.{
  Traced, intact, dangling, undefined, freed_operands, printed, with_node, traced, build,
  ast_new_node_group, ast_new_node_unary_op, ast_new_node_binary_op, ast_new_node_ternary_op,
}

-- No operator of three operands, outside of casts.
unfoldable pub no_ternary : Expr → Bool
no_ternary (group t e) = no_ternary e
no_ternary (unary_op t o e) = no_ternary e
no_ternary (binary_op t o l r) = no_ternary l && no_ternary r
no_ternary (ternary_op t o a b c) = false
no_ternary _ = true

abbrev pub is_ternary : Expr → Bool
is_ternary (ternary_op t o a b c) = true
is_ternary _ = false

-- No operator of three operands but at the root.
unfoldable pub operands_intact : Expr → Bool
unfolding no_ternary
operands_intact (ternary_op t o a b c) = no_ternary a && (no_ternary b && no_ternary c)
operands_intact e = no_ternary e

abbrev is_empty : List Expr → Bool
is_empty [] = true
is_empty (e ∷ more) = false

append-is_empty : (xs ys : List Expr) → is_empty (xs ++ ys) ≡ (is_empty xs && is_empty ys)
append-is_empty [] ys = refl
append-is_empty (x ∷ xs) ys = refl

and_false : (a b c : Bool) → (a && (b && (c && false))) ≡ false
and_false a b c = ground arith

freed_operands-no_ternary : (e : Expr) → is_empty (freed_operands e) ≡ no_ternary e
unfolding freed_operands no_ternary
freed_operands-no_ternary (literal_bool b) = refl
freed_operands-no_ternary (literal_int n) = refl
freed_operands-no_ternary (literal_float x) = refl
freed_operands-no_ternary (literal_char c) = refl
freed_operands-no_ternary (literal_string s) = refl
freed_operands-no_ternary (ident t value) = refl
freed_operands-no_ternary (group t e) = freed_operands-no_ternary e
freed_operands-no_ternary (unary_op t o e) = freed_operands-no_ternary e
freed_operands-no_ternary (binary_op t o l r) =
    rw
      (
        append-is_empty (freed_operands l) (freed_operands r),
        freed_operands-no_ternary l,
        freed_operands-no_ternary r,
      )
      refl
freed_operands-no_ternary (ternary_op t o a b c) =
    let last : List Expr = a ∷ b ∷ c ∷ [] in
    rw
      (
        append-is_empty (freed_operands a) (freed_operands b ++ (freed_operands c ++ last)),
        append-is_empty (freed_operands b) (freed_operands c ++ last),
        append-is_empty (freed_operands c) last,
      )
      (and_false (is_empty (freed_operands a)) (is_empty (freed_operands b))
        (is_empty (freed_operands c)))
freed_operands-no_ternary (special_cast t opcode e) = refl

and_pairs : (a b c d : Bool) → ((a && b) && (c && d)) ≡ ((a && c) && (b && d))
and_pairs a b c d = ground arith

and_triples :
    (a b c d e f last : Bool)
    → ((a && b) && ((c && d) && ((e && f) && last)))
      ≡ ((last && (a && (c && e))) && (b && (d && f)))
and_triples a b c d e f last = ground arith

abbrev choose : Traced → Bool → Traced
choose whole b = if b then whole else undefined

abbrev at_root : Expr → Bool → Traced
at_root e b = if b then dangling e else intact e

-- A part that is built, and then the whole.
through :
    (fit inside root c : Bool) (e : Expr) (whole : Traced) (f : Expr → Traced)
    → (fit ≡ true → (inside && not root) ≡ true → f e ≡ choose whole c)
    → with_node (choose (at_root e root) (fit && inside)) f
      ≡ choose whole ((fit && (inside && not root)) && c)
through true true true c e whole f next = refl
through true true false c e whole f next = next refl refl
through true false root c e whole f next = refl
through false inside root c e whole f next = refl

no_ternary-root : (e : Expr) → (operands_intact e && not (is_ternary e)) ≡ no_ternary e
unfolding operands_intact
no_ternary-root (literal_bool b) = refl
no_ternary-root (literal_int n) = refl
no_ternary-root (literal_float x) = refl
no_ternary-root (literal_char c) = refl
no_ternary-root (literal_string s) = refl
no_ternary-root (ident t value) = refl
no_ternary-root (group t e) = and_true (no_ternary e)
no_ternary-root (unary_op t o e) = and_true (no_ternary e)
no_ternary-root (binary_op t o l r) = and_true (no_ternary l && no_ternary r)
no_ternary-root (ternary_op t o a b c) = ground arith
no_ternary-root (special_cast t opcode e) = refl

module _ (show_float : ℕ → List ℕ) where
  -- What is built of an expression.
  abbrev outcome : Expr → Traced
  outcome e =
      if fits show_float e && operands_intact e
      then (if is_ternary e then dangling e else intact e)
      else undefined

  -- A part with its text and without an operator of three operands, and then the whole.
  part :
      (e : Expr) (c : Bool) (whole : Traced) (f : Expr → Traced)
      → (fits show_float e ≡ true → no_ternary e ≡ true → f e ≡ choose whole c)
      → with_node (outcome e) f ≡ choose whole ((fits show_float e && no_ternary e) && c)
  part e c whole f next =
      through (fits show_float e) (operands_intact e) (is_ternary e) c e whole f
        (λ fit inside. next fit (sym (no_ternary-root e) ∙ inside))
      ∙ rw (no_ternary-root e) refl

  traced_by_text :
      (e : Expr)
      → traced show_float e
        ≡ (if fits show_float e then (if no_ternary e then intact e else dangling e) else undefined)
  unfolding traced
  traced_by_text e =
      by_text (expr_to_string show_float e) (expr_to_string-fits show_float e) (freed_operands e)
        (freed_operands-no_ternary e)
    where
      by_text :
          (s : Option (List ℕ))
          → is_some s ≡ fits show_float e
          → (freed : List Expr) → is_empty freed ≡ no_ternary e
          → (elim s as (λ x. Traced) [ none ↦ undefined | some t ↦ printed e freed ]) ≡ (
              if fits show_float e
              then (if no_ternary e then intact e else dangling e)
              else undefined)
      by_text none h freed k = rw (← h) refl
      by_text (some t) h [] k = rw (← h, ← k) refl
      by_text (some t) h (x ∷ more) k = rw (← h, ← k) refl

  -- In a build that prints each new node, what the parser's constructors leave of an expression of the
  -- parser. If it is printed within its buffers and has no operator of three operands but at its root,
  -- they return the node: with the whole tree, or, if such an operator is the root, with operands
  -- that the print has freed. Otherwise they write past the end of a buffer or read freed nodes.
  pub build-outcome :
      (e : Expr)
      → IsParsed e
      → build show_float e ≡ (
          if fits show_float e && operands_intact e
          then (if is_ternary e then dangling e else intact e)
          else undefined)
  unfolding build fits operands_intact
  build-outcome (literal_bool b) h = traced_by_text (literal_bool b)
  build-outcome (literal_int n) h = traced_by_text (literal_int n)
  build-outcome (literal_float x) h =
      traced_by_text (literal_float x) ∙ rw (and_true (leb (length (show_float x)) 26)) refl
  build-outcome (literal_char c) h = traced_by_text (literal_char c)
  build-outcome (literal_string s) h = traced_by_text (literal_string s)
  build-outcome (ident t value) h = traced_by_text (ident type_unknown value)
  build-outcome (group t e) h =
      let whole : Expr = group type_unknown e in
      rw (build-outcome e h.1, h.0)
        (part e true (intact whole) (ast_new_node_group show_float)
            (λ fit free. traced_by_text whole ∙ rw (fit, free) refl)
          ∙ ap (choose (intact whole)) (and_true (fits show_float e && no_ternary e)))
  build-outcome (unary_op t o e) h =
      let whole : Expr = unary_op type_unknown o e in
      rw (build-outcome e h.1, h.0)
        (part e true (intact whole) (ast_new_node_unary_op show_float o)
            (λ fit free. traced_by_text whole ∙ rw (fit, free) refl)
          ∙ ap (choose (intact whole)) (and_true (fits show_float e && no_ternary e)))
  build-outcome (binary_op t o l r) h =
      let whole : Expr = binary_op type_unknown o l r in
      let right : Bool = fits show_float r && no_ternary r in
      rw (build-outcome l h.1, build-outcome r h.2, h.0)
        (part l right (intact whole)
            (λ l'. with_node (outcome r) (ast_new_node_binary_op show_float o l'))
            (λ fit_l free_l.
              part r true (intact whole) (ast_new_node_binary_op show_float o l)
                (λ fit_r free_r. traced_by_text whole ∙ rw (fit_l, fit_r, free_l, free_r) refl)
              ∙ ap (choose (intact whole)) (and_true right))
          ∙ ap (choose (intact whole))
              (and_pairs (fits show_float l) (no_ternary l) (fits show_float r) (no_ternary r)))
  build-outcome (ternary_op t o a b c) h =
      let whole : Expr = ternary_op type_unknown o a b c in
      let last : Bool = leb (length (show_int (operator_word o))) 10 in
      let third =
        λ (a' b' : Expr). with_node (outcome c) (ast_new_node_ternary_op show_float o a' b') in
      let second = λ (a' : Expr). with_node (outcome b) (third a') in
      let right : Bool = (fits show_float c && no_ternary c) && last in
      rw (build-outcome a h.1, build-outcome b h.2, build-outcome c h.3, h.0)
        (part a ((fits show_float b && no_ternary b) && right) (dangling whole) second
            (λ fit_a free_a. part b right (dangling whole) (third a) (λ fit_b free_b.
              part c last (dangling whole) (ast_new_node_ternary_op show_float o a b)
                (λ fit_c free_c.
                  traced_by_text whole
                  ∙ rw (fit_a, fit_b, fit_c) (ap (choose (dangling whole)) (and_true last)))))
          ∙ ap (choose (dangling whole)) (
              and_triples (fits show_float a) (no_ternary a) (fits show_float b) (no_ternary b)
                (fits show_float c) (no_ternary c) last))
  build-outcome (special_cast t opcode e) h = elim h [ ]
