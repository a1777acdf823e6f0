-- ===== src/Hashmap/Growth.antt =====
-- src/util/hashmap.c: `hashmap_put` with the doublings of `hashmap_resize` that it may make.
use mathlib.Core.Path.{subst}
use phantomshell.Base.{
  ℕ, zero, suc, ◌*◌, ◌≡◌, refl, sym, ap, ◌∙◌, inl, inr, Bool, Option, none, some, List, [], ◌∷◌,
  arith, if◌then◌else◌, str_eq, some-pair_right, Bool-cases, Option-cases,
}
use phantomshell.Hashmap.{
  Hashmap, Status, map_ok, map_nomem, map_miss, hashmap_index, hashmap_get, hashmap_put,
  hashmap_resize, rehash, Outcome, if_ok, unless_nomem, empty_table,
}
use phantomshell.Hashmap.Put.{lookup, get-lookup}
use phantomshell.Hashmap.Overlay.{
  IsGood, Stores, empty-IsGood, empty-lookup, write-Stores, overlay, overlay-elements,
}

module _ {K V : Type 0} (str : K → List ℕ) where
  -- A `hashmap_put` that answers `_MAP_OK` has stored the value; none answers `_MAP_MISS`.
  abbrev Works : (Hashmap K V → K → V → Option (Status × Hashmap K V)) → Type 0
  Works put =
      (m : Hashmap K V) (k : K) (v : V) (m' : Hashmap K V)
      → IsGood str m
      → (put m k v ≡ some (map_ok, m') → Stores str m k v m')
        × (put m k v ≡ some (map_miss, m') → ⊥)

  rehash-Works :
      (put : Hashmap K V → K → V → Option (Status × Hashmap K V)) (es : List (Option (K × V)))
      (m m' : Hashmap K V)
      → Works put
      → IsGood str m
      → (rehash str put es m ≡ some (map_ok, m')
          → IsGood str m' × ((s : List ℕ) → lookup str m' s ≡ overlay str es s (lookup str m s)))
        × (rehash str put es m ≡ some (map_miss, m') → ⊥)
  unfolding rehash overlay if_ok
  rehash-Works put [] m m' works g = (
    λ e.
        let same : m ≡ m' = some-pair_right e in
        (subst (λ x. IsGood str x) same g, λ s. ap (λ x. lookup str x s) (sym same)),
    λ e. ground arith,
  )
  rehash-Works put (none ∷ es) m m' works g = rehash-Works put es m m' works g
  rehash-Works put (some (k, v) ∷ es) m m' works g =
      step (put m k v) (λ m₁. works m k v m₁ g) (λ m₁ g₁. rehash-Works put es m₁ m' works g₁)
    where
      step :
          (r : Outcome K V)
          → ((m₁ : Hashmap K V)
              → (r ≡ some (map_ok, m₁) → Stores str m k v m₁) × (r ≡ some (map_miss, m₁) → ⊥))
          → ((m₁ : Hashmap K V)
              → IsGood str m₁
              → (rehash str put es m₁ ≡ some (map_ok, m')
                  → IsGood str m'
                    × ((s : List ℕ) → lookup str m' s ≡ overlay str es s (lookup str m₁ s)))
                × (rehash str put es m₁ ≡ some (map_miss, m') → ⊥))
          → (if_ok r (rehash str put es) ≡ some (map_ok, m')
              → IsGood str m'
                × ((s : List ℕ)
                    → lookup str m' s
                      ≡ overlay str es s
                          (if str_eq (str k) s then (map_ok, some v) else lookup str m s)))
            × (if_ok r (rehash str put es) ≡ some (map_miss, m') → ⊥)
      step none w ih = (λ e. absurd (ground arith), λ e. ground arith)
      step (some (map_nomem, m₁)) w ih = (λ e. absurd (ground arith), λ e. ground arith)
      step (some (map_miss, m₁)) w ih = absurd ((w m₁).1 refl)
      step (some (map_ok, m₁)) w ih =
          let stored = (w m₁).0 refl in
          let later = ih m₁ stored.good in
          (
            λ e. ((later.0 e).0, λ s. (later.0 e).1 s ∙ ap (overlay str es s) (stored.reads s)),
            λ e. later.1 e,
          )

  module _ (calloc : ℕ → Bool) where
    resize-Works :
        (put : Hashmap K V → K → V → Outcome K V) (m m' : Hashmap K V)
        → Works put
        → IsGood str m
        → (hashmap_resize str calloc put m ≡ some (map_ok, m')
            → IsGood str m' × ((s : List ℕ) → lookup str m' s ≡ lookup str m s))
          × (hashmap_resize str calloc put m ≡ some (map_miss, m') → ⊥)
    unfolding hashmap_resize
    resize-Works put m m' works g = elim (Bool-cases (calloc (m.capacity * 2))) [
      | inr full ↦ rw full (λ e. absurd (ground arith), λ e. ground arith)
      | inl room ↦
          let start = empty-IsGood str (m.capacity * 2) (omega (arith, g.valid.filled)) in
          let stored = rehash-Works put m.elements (empty_table (m.capacity * 2)) m' works start in
          rw room (
            λ e. (
              (stored.0 e).0,
              λ s.
                  (stored.0 e).1 s
                  ∙ ap (overlay str m.elements s) (empty-lookup str (m.capacity * 2) s)
                  ∙ overlay-elements str m g s,
            ),
            stored.1,
          )
    ]

    after_resize :
        (m m' : Hashmap K V) (k : K) (v : V) (r : Outcome K V) (rest : Hashmap K V → Outcome K V)
        → ((m₁ : Hashmap K V)
            → (r ≡ some (map_ok, m₁)
                → IsGood str m₁ × ((s : List ℕ) → lookup str m₁ s ≡ lookup str m s))
              × (r ≡ some (map_miss, m₁) → ⊥))
        → ((m₁ : Hashmap K V)
            → IsGood str m₁
            → (rest m₁ ≡ some (map_ok, m') → Stores str m₁ k v m')
              × (rest m₁ ≡ some (map_miss, m') → ⊥))
        → (unless_nomem r rest ≡ some (map_ok, m') → Stores str m k v m')
          × (unless_nomem r rest ≡ some (map_miss, m') → ⊥)
    unfolding unless_nomem
    after_resize m m' k v none rest w ih = (λ e. absurd (ground arith), λ e. ground arith)
    after_resize m m' k v (some (map_nomem, m₁)) rest w ih =
        (λ e. absurd (ground arith), λ e. ground arith)
    after_resize m m' k v (some (map_miss, m₁)) rest w ih = absurd ((w m₁).1 refl)
    after_resize m m' k v (some (map_ok, m₁)) rest w ih =
        let (good, same) = (w m₁).0 refl in
        let later = ih m₁ good in
        (
          λ e. record { good = (later.0 e).good; reads = λ s. rw (← same s) ((later.0 e).reads s) },
          later.1,
        )

    put-Works : (fuel : ℕ) → Works (hashmap_put str calloc fuel)
    unfolding hashmap_put
    put-Works zero m k v m' g = (λ e. absurd (ground arith), λ e. ground arith)
    put-Works (suc fuel) m k v m' g = elim (Option-cases (hashmap_index str m k)) [
      | inl full ↦
          rw (full, hashmap_put)
            (after_resize m m' k v _ _
              (λ m₁. resize-Works (hashmap_put str calloc fuel) m m₁ (put-Works fuel) g)
              (λ m₁ g₁. put-Works fuel m₁ k v m' g₁))
      | inr (i, at_place) ↦
          rw (at_place, hashmap_put)
            (
              λ e.
                  subst (λ x. Stores str m k v x) (some-pair_right e)
                    (write-Stores str m k v i g at_place),
              λ e. ground arith,
            )
    ]

    -- A put into a map in order that answers `_MAP_OK`, with whatever doublings it makes, leaves the map in
    -- order: a lookup of an equal key gives the value, and any other lookup gives what it gave before.
    pub hashmap_put-get :
        (fuel : ℕ) (m : Hashmap K V) (k : K) (v : V) (m' : Hashmap K V)
        → IsGood str m
        → hashmap_put str calloc fuel m k v ≡ some (map_ok, m')
        → IsGood str m'
          × ((q : K)
              → hashmap_get str m' q
                ≡ (if str_eq (str k) (str q) then (map_ok, some v) else hashmap_get str m q))
    hashmap_put-get fuel m k v m' g e =
        let stored = (put-Works fuel m k v m' g).0 e in
        (stored.good, λ q. rw (get-lookup str m' q, get-lookup str m q) (stored.reads (str q)))
