-- ===== src/Emitter/Pages.antt =====
-- src/compiler_emit.c: pages of one size.
use phantomshell.Base.{
  ℕ, ◌*◌, ◌≡◌, refl, ap, sym, ◌∙◌, List, [], ◌∷◌, ◌++◌, arith, length, length-append,
}
use mathlib.Core.List.{append_assoc}

abbrev pub AllPages : ℕ → List (List ℕ) → Type 0
AllPages n [] = Unit
AllPages n (page ∷ pages) = (length page ≡ n) × AllPages n pages

abbrev pub flatten : List (List ℕ) → List ℕ
flatten [] = []
flatten (page ∷ pages) = page ++ flatten pages

pub AllPages-append :
    (n : ℕ) (pages more : List (List ℕ))
    → AllPages n pages
    → AllPages n more
    → AllPages n (pages ++ more)
AllPages-append n [] more h k = k
AllPages-append n (page ∷ pages) more h k = (h.0, AllPages-append n pages more h.1 k)

pub length-flatten :
    (n : ℕ) (pages : List (List ℕ)) → AllPages n pages → length (flatten pages) ≡ length pages * n
length-flatten n [] h = omega arith
length-flatten n (page ∷ pages) h =
    length-append page (flatten pages) ∙ grind (arith, length-flatten n pages h.1)

pub flatten-append :
    (pages more : List (List ℕ)) → flatten (pages ++ more) ≡ flatten pages ++ flatten more
flatten-append [] more = refl
flatten-append (page ∷ pages) more =
    ap (λ t. page ++ t) (flatten-append pages more)
    ∙ sym (append_assoc page (flatten pages) (flatten more))
