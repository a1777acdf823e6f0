-- ===== src/Hashmap/Overlay.antt =====
-- src/util/hashmap.c: what a lookup gives after the elements of an array have been stored in turn, as
-- `hashmap_resize` stores them.
use phantomshell.Base.{
  ℕ, zero, suc, ◌%◌, ◌<◌, ◌≡◌, refl, ◌∙◌, inl, inr, Bool, true, false, Option, none, some, List, [],
  ◌∷◌, arith, if◌then◌else◌, str_eq, str_eq_sound, Bool-cases, Option-cases, get_or, replicate,
  length-replicate,
}
use phantomshell.Hashmap.{
  hashmap_new, hashmap_get, initial_map_cap, Hashmap, Status, map_ok, map_miss, element,
  write_element, holds_key, probe, probe_from_hash, value_of, hashmap_index, empty_table,
  max_probe_count,
}
use phantomshell.Hashmap.Hash.{string_hash}
use phantomshell.Hashmap.Probe.{probe-test, IsValid, write_element-IsValid}
use phantomshell.Hashmap.Put.{
  get-lookup, place, IsPlaced, lookup, index-place, found-place, write-IsPlaced, lookup-write,
}

get_or-replicate : {A : Type 0} (n i : ℕ) (a : A) → get_or (replicate n a) i a ≡ a
get_or-replicate zero i a = refl
get_or-replicate (suc n) zero a = refl
get_or-replicate (suc n) (suc i) a = get_or-replicate n i a

module _ {K V : Type 0} (str : K → List ℕ) where
  -- The map is in order: its array has the stated length, and every element stands in its place.
  pub record IsGood (m : Hashmap K V) : Type 0 where
    pub valid : IsValid m
    pub placed : IsPlaced str m

  -- `m'` is in order, and reads as `m` does but for `v` under the key.
  pub record Stores (m : Hashmap K V) (k : K) (v : V) (m' : Hashmap K V) : Type 0 where
    pub good : IsGood m'
    pub reads :
        (s : List ℕ)
        → lookup str m' s ≡ (if str_eq (str k) s then (map_ok, some v) else lookup str m s)

  pub empty-IsGood : (n : ℕ) → 0 < n → IsGood (empty_table {K = K} {V = V} n)
  unfolding element
  empty-IsGood n h = record {
    valid = record { width = length-replicate n none; filled = h };
    placed = λ i k v e. absurd (ground (arith, get_or-replicate {A = Option (K × V)} n i none));
  }

  pub empty-lookup :
      (n : ℕ) (s : List ℕ) → lookup str (empty_table {K = K} {V = V} n) s ≡ (map_miss, none)
  unfolding lookup probe_from_hash holds_key element
  empty-lookup n s =
      let test : ℕ → Bool = λ i. holds_key str (element (empty_table {K = K} {V = V} n) i) s in
      elim (Option-cases (probe test max_probe_count n (string_hash s % n))) [
        | inl miss ↦ ground (arith, miss)
        | inr (r, hit) ↦ absurd (
            ground (
              arith,
              probe-test test n max_probe_count _ r hit,
              get_or-replicate {A = Option (K × V)} n r none,
            ))
      ]

  -- A new map, where it can be allocated, is in order, and every lookup misses.
  pub hashmap_new-get :
      (calloc : ℕ → Bool) (m : Hashmap K V)
      → hashmap_new calloc ≡ some m
      → IsGood m × ((q : K) → hashmap_get str m q ≡ (map_miss, none))
  unfolding hashmap_new
  hashmap_new-get calloc m e = elim (Bool-cases (calloc initial_map_cap)) [
    | inr refused ↦ absurd (ground (arith, refused))
    | inl granted ↦
        let same : empty_table initial_map_cap ≡ m = ground (arith, granted) in
        rw (← same) (
          empty-IsGood initial_map_cap (omega arith),
          λ q.
              get-lookup str (empty_table initial_map_cap) q ∙ empty-lookup initial_map_cap (str q),
        )
  ]

  pub write-Stores :
      (m : Hashmap K V) (k : K) (v : V) (i : ℕ)
      → IsGood m
      → hashmap_index str m k ≡ some i
      → Stores m k v (write_element m i k v)
  write-Stores m k v i g h =
      let at_place = index-place str m k i h in
      record {
        good = record {
          valid = write_element-IsValid str m g.valid i k v;
          placed = write-IsPlaced str m g.valid k v i at_place g.placed;
        };
        reads = lookup-write str m g.valid k v i at_place;
      }

  -- What a lookup gives after the elements have been stored in turn, if it gave `b` before.
  unfoldable pub overlay : List (Option (K × V)) → List ℕ → Status × Option V → Status × Option V
  overlay [] s b = b
  overlay (none ∷ es) s b = overlay es s b
  overlay (some (k, v) ∷ es) s b = overlay es s (if str_eq (str k) s then (map_ok, some v) else b)

  overlay_absent :
      (es : List (Option (K × V))) (s : List ℕ) (b : Status × Option V)
      → ((i : ℕ) → holds_key str (get_or es i none) s ≡ false)
      → overlay es s b ≡ b
  unfolding overlay holds_key
  overlay_absent [] s b h = refl
  overlay_absent (none ∷ es) s b h = overlay_absent es s b (λ i. h (suc i))
  overlay_absent (some (k, v) ∷ es) s b h = rw (h 0) (overlay_absent es s b (λ i. h (suc i)))

  overlay_once :
      (es : List (Option (K × V))) (s : List ℕ) (b : Status × Option V) (i : ℕ)
      → holds_key str (get_or es i none) s ≡ true
      → ((j : ℕ) → holds_key str (get_or es j none) s ≡ true → j ≡ i)
      → overlay es s b ≡ (map_ok, value_of str (get_or es i none))
  unfolding overlay holds_key
  overlay_once [] s b i h one = ground arith
  overlay_once (none ∷ es) s b zero h one = ground arith
  overlay_once (none ∷ es) s b (suc i) h one =
      overlay_once es s b i h (λ j t. omega (arith, one (suc j) t))
  overlay_once (some (k, v) ∷ es) s b zero h one = rw h (
      overlay_absent es s (map_ok, some v)
        (λ i. elim (Bool-cases (holds_key str (get_or es i none) s)) [
          | inl t ↦ absurd (omega (arith, one (suc i) t))
          | inr f ↦ f
        ]))
  overlay_once (some (k, v) ∷ es) s b (suc i) h one =
      overlay_once es s _ i h (λ j t. omega (arith, one (suc j) t))

  module _ (m : Hashmap K V) (g : IsGood m) (s : List ℕ) where
    pub holds-place : (i : ℕ) → holds_key str (element m i) s ≡ true → place str m s ≡ some i
    unfolding holds_key
    holds-place i h = elim (Option-cases (element m i)) [
      | inl e ↦ absurd (ground arith)
      | inr ((k, v), e) ↦ rw (← str_eq_sound (str k) s (rw e at h)) (g.placed i k v e)
    ]

    pub found-holds :
        (r : ℕ)
        → probe_from_hash str (holds_key str) m s ≡ some r
        → holds_key str (element m r) s ≡ true
    unfolding probe_from_hash
    found-holds r hit = probe-test _ m.capacity max_probe_count _ r hit

    -- The elements of a map in order, stored in turn, give what the map gives.
    pub overlay-elements : overlay m.elements s (map_miss, none) ≡ lookup str m s
    unfolding lookup element
    overlay-elements = elim (Option-cases (probe_from_hash str (holds_key str) m s)) [
      | inl miss ↦
          overlay_absent m.elements s (map_miss, none)
            (λ i. elim (Bool-cases (holds_key str (element m i) s)) [
              | inl t ↦ absurd (ground (arith, found-place str m s i (holds-place i t) t))
              | inr f ↦ f
            ])
          ∙ ground arith
      | inr (r, hit) ↦
          let at : holds_key str (element m r) s ≡ true = found-holds r hit in
          overlay_once m.elements s (map_miss, none) r at
            (λ j t. ground (arith, holds-place j t, holds-place r at))
          ∙ ground arith
    ]
