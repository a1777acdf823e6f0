-- ===== src/Nodes/Used.antt =====
-- src/parser.c: the calls of `malloc` for the tree of an expression, and the blocks that they return.
use phantomshell.Base.{
  ℕ, suc, ◌<◌, ◌≤◌, ◌≡◌, true, false, List, [], ◌∷◌, ◌++◌, ◌==◌, arith, Bool-cases, inl, inr,
}
use phantomshell.Ast.{Expr}
use phantomshell.Ast
use phantomshell.Nodes.{Ptr}
use phantomshell.Nodes.Blocks.{has, has-append, Apart}

-- The count of the calls behind those for an expression, from a count on.
unfoldable pub after : ℕ → Expr → ℕ
after n (Ast.literal_string s) = suc (suc n)
after n (Ast.ident t s) = suc (suc n)
after n (Ast.group t e) = suc (after n e)
after n (Ast.unary_op t o e) = suc (after n e)
after n (Ast.binary_op t o l r) = suc (after (after n l) r)
after n (Ast.ternary_op t o a b c) = suc (after (after (after n a) b) c)
after n (Ast.special_cast t code e) = n
after n e = suc n

module _ (malloc : ℕ → Ptr) where
  -- The blocks in the order in which they are freed, which is that of the calls.
  unfoldable pub used : ℕ → Expr → List Ptr
  unfolding after
  used n (Ast.literal_string s) = malloc n ∷ malloc (suc n) ∷ []
  used n (Ast.ident t s) = malloc n ∷ malloc (suc n) ∷ []
  used n (Ast.group t e) = used n e ++ (malloc (after n e) ∷ [])
  used n (Ast.unary_op t o e) = used n e ++ (malloc (after n e) ∷ [])
  used n (Ast.binary_op t o l r) =
      used n l ++ (used (after n l) r ++ (malloc (after (after n l) r) ∷ []))
  used n (Ast.ternary_op t o a b c) =
      used n a
      ++ (used (after n a) b
          ++ (used (after (after n a) b) c ++ (malloc (after (after (after n a) b) c) ∷ [])))
  used n (Ast.special_cast t code e) = []
  used n e = malloc n ∷ []

  -- All of the blocks are returned by the calls from `m` to `n`.
  abbrev pub Among : ℕ → ℕ → Ptr → Type 0
  Among m n a = (i : ℕ) × (m ≤ i) × (i < n) × ((a == malloc i) ≡ true)

  abbrev pub Between : ℕ → ℕ → List Ptr → Type 0
  Between m n xs = (m ≤ n) × ((a : Ptr) → has a xs ≡ true → Among m n a)

  pub one-Between : (n : ℕ) → Between n (suc n) (malloc n ∷ [])
  one-Between n = (omega arith, λ a mem. (n, omega arith, omega arith, ground arith))

  append-Among :
      (m k n : ℕ) (a : Ptr) (xs ys : List Ptr)
      → Between m k xs
      → Between k n ys
      → has a (xs ++ ys) ≡ true
      → Among m n a
  append-Among m k n a xs ys (low, left) (high, right) mem = elim (Bool-cases (has a xs)) [
    | inl here ↦ let (i, from_m, to_k, same) = left a here in (i, from_m, omega arith, same)
    | inr other ↦
        let (i, from_k, to_n, same) = right a (ground (arith, has-append a xs ys)) in
        (i, omega arith, to_n, same)
  ]

  pub append-Between :
      (m k n : ℕ) (xs ys : List Ptr) → Between m k xs → Between k n ys → Between m n (xs ++ ys)
  append-Between m k n xs ys left right =
      (omega (arith, left.0, right.0), λ a mem. append-Among m k n a xs ys left right mem)

  pub then-Between :
      (m n : ℕ) (xs : List Ptr) → Between m n xs → Between m (suc n) (xs ++ (malloc n ∷ []))
  then-Between m n xs left = append-Between m n (suc n) xs (malloc n ∷ []) left (one-Between n)

  pub two-Between : (n : ℕ) → Between n (suc (suc n)) (malloc n ∷ malloc (suc n) ∷ [])
  two-Between n = then-Between n (suc n) (malloc n ∷ []) (one-Between n)

  pub used-Between : (n : ℕ) (e : Expr) → Between n (after n e) (used n e)
  unfolding used after
  used-Between n (Ast.literal_bool b) = one-Between n
  used-Between n (Ast.literal_int v) = one-Between n
  used-Between n (Ast.literal_float x) = one-Between n
  used-Between n (Ast.literal_char c) = one-Between n
  used-Between n (Ast.literal_string s) = two-Between n
  used-Between n (Ast.ident t s) = two-Between n
  used-Between n (Ast.group t e) = then-Between n (after n e) (used n e) (used-Between n e)
  used-Between n (Ast.unary_op t o e) = then-Between n (after n e) (used n e) (used-Between n e)
  used-Between n (Ast.binary_op t o l r) =
      let m = after n l in
      append-Between n m _ (used n l) _ (used-Between n l)
        (then-Between m (after m r) (used m r) (used-Between m r))
  used-Between n (Ast.ternary_op t o a b c) =
      let m = after n a in
      let k = after m b in
      append-Between n m _ (used n a) _ (used-Between n a) (
        append-Between m k _ (used m b) _ (used-Between m b)
          (then-Between k (after k c) (used k c) (used-Between k c)))
  used-Between n (Ast.special_cast t code e) = (omega arith, λ a mem. cc)

  module _ (distinct : (i j : ℕ) → (malloc i == malloc j) ≡ true → i ≡ j) where
    pub ahead-Apart :
        (m k k' n : ℕ) (xs ys : List Ptr) → k ≤ k' → Between m k xs → Between k' n ys → Apart xs ys
    ahead-Apart m k k' n xs ys le (_, left) (_, right) a mem = elim (Bool-cases (has a xs)) [
      | inl both ↦
          let (i, _, below, same) = left a both in
          let (j, above, _, same') = right a mem in
          let equal : (malloc i == malloc j) ≡ true = ground arith in
          absurd (omega (arith, distinct i j equal))
      | inr out ↦ out
    ]

    pub ahead_out : (m k n : ℕ) (xs : List Ptr) → k ≤ n → Between m k xs → has (malloc n) xs ≡ false
    ahead_out m k n xs le left =
        ahead-Apart m k n (suc n) xs (malloc n ∷ []) le left (one-Between n) (malloc n)
          (ground arith)
