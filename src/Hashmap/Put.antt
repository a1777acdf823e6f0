-- ===== src/Hashmap/Put.antt =====
-- src/util/hashmap.c: a `hashmap_put` that finds a place: the invariant that every element stands where its
-- own probing loop would stop, and what a lookup of a string gives.
use mathlib.Core.Path.{fun_ext}
use phantomshell.Base.{
  ℕ, ◌%◌, ◌<◌, ◌≡◌, refl, sym, ap, ◌∙◌, inl, inr, Bool, true, false, Option, none, some, List,
  arith, if◌then◌else◌, ◌==◌, str_eq, str_eq_sound, str_eq_refl, Bool-cases, Option-cases, ==→eq,
  ==_self, some-pair_left,
}
use phantomshell.Hashmap.{
  Hashmap, Status, map_ok, map_miss, element, write_element, holds_key, accepts_key, probe,
  probe_from_hash, value_of, hashmap_index, hashmap_get, max_probe_count,
}
use phantomshell.Hashmap.Hash.{string_hash}
use phantomshell.Hashmap.Probe.{
  probe-lt, probe-test, probe_refine, IsValid, element-write, holds-write, accepts-write,
}

module _ {K V : Type 0} (str : K → List ℕ) where
  -- Where `hashmap_index` would put this string if it ignored the load.
  abbrev pub place : Hashmap K V → List ℕ → Option ℕ
  place m s = probe_from_hash str (accepts_key str) m s

  -- Every element in use is the place of its own key.
  abbrev pub IsPlaced : Hashmap K V → Type 0
  IsPlaced m = (i : ℕ) (k : K) (v : V) → element m i ≡ some (k, v) → place m (str k) ≡ some i

  -- The lookup by the string itself.
  unfoldable pub lookup : Hashmap K V → List ℕ → Status × Option V
  lookup m s = elim (probe_from_hash str (holds_key str) m s) [
    | none ↦ (map_miss, none)
    | some i ↦ (map_ok, value_of str (element m i))
  ]

  pub get-lookup : (m : Hashmap K V) (q : K) → hashmap_get str m q ≡ lookup m (str q)
  unfolding hashmap_get lookup
  get-lookup m q = refl

  pub index-place :
      (m : Hashmap K V) (k : K) (j : ℕ) → hashmap_index str m k ≡ some j → place m (str k) ≡ some j
  unfolding hashmap_index
  index-place m k j h = ground arith

  accepts-none :
      (e : Option (K × V)) (s : List ℕ) → accepts_key str e s ≡ false → holds_key str e s ≡ false
  unfolding accepts_key holds_key
  accepts-none none s f = refl
  accepts-none (some (q, w)) s f = f

  -- Where `hashmap_index` would stop at an element in use, the lookup loop stops too.
  pub found-place :
      (m : Hashmap K V) (s : List ℕ) (i : ℕ)
      → place m s ≡ some i
      → holds_key str (element m i) s ≡ true
      → probe_from_hash str (holds_key str) m s ≡ some i
  unfolding probe_from_hash
  found-place m s i h t =
      probe_refine (λ x. accepts_key str (element m x) s) m.capacity _ max_probe_count _ i
        (λ x f. accepts-none (element m x) s f) t h

  module _ (m : Hashmap K V) (valid : IsValid m) where
    pub place-lt : (s : List ℕ) (j : ℕ) → place m s ≡ some j → j < m.capacity
    unfolding probe_from_hash
    place-lt s j h = probe-lt _ m.capacity max_probe_count _ j (grind (arith, valid.filled)) h

    module _ (k : K) (v : V) (j : ℕ) (at_place : place m (str k) ≡ some j) where
      lt : j < m.capacity
      lt = place-lt (str k) j at_place

      from_hash-write :
          (test : Option (K × V) → List ℕ → Bool) (s : List ℕ)
          → probe_from_hash str test (write_element m j k v) s
            ≡ probe
                (λ i. test (element (write_element m j k v) i) s)
                max_probe_count
                m.capacity
                (string_hash s % m.capacity)
      unfolding probe_from_hash write_element
      from_hash-write test s = refl

      stopped : accepts_key str (element m j) (str k) ≡ true
      unfolding probe_from_hash
      stopped = probe-test _ m.capacity max_probe_count _ j at_place

      place-write_self : place (write_element m j k v) (str k) ≡ some j
      unfolding probe_from_hash
      place-write_self =
          from_hash-write (accepts_key str) (str k)
          ∙ probe_refine (λ i. accepts_key str (element m i) (str k)) m.capacity _ max_probe_count _
              j (λ x f. ground (arith, accepts-write str m valid k (str k) v j x lt, stopped))
              (ground (arith, accepts-write str m valid k (str k) v j j lt, str_eq_refl (str k)))
              at_place

      place-write_other :
          (s : List ℕ) (r : ℕ)
          → str_eq (str k) s ≡ false
          → (j == r) ≡ false
          → place m s ≡ some r
          → place (write_element m j k v) s ≡ some r
      unfolding probe_from_hash
      place-write_other s r ne rj h =
          from_hash-write (accepts_key str) s
          ∙ probe_refine (λ i. accepts_key str (element m i) s) m.capacity _ max_probe_count _ r
              (λ x f. ground (arith, accepts-write str m valid k s v j x lt))
              (ground (
                arith,
                accepts-write str m valid k s v j r lt,
                probe-test _ m.capacity max_probe_count _ r h,
              ))
              h

      pub write-IsPlaced : IsPlaced m → IsPlaced (write_element m j k v)
      write-IsPlaced placed i k' v' e = elim (Bool-cases (j == i)) [
        | inl same ↦
            let key : k ≡ k' =
              some-pair_left (sym (rw same at (element-write str m valid j i k v lt)) ∙ e) in
            let index : j ≡ i = ==→eq j i same in rw (← key, ← index) place-write_self
        | inr apart ↦ elim (Bool-cases (str_eq (str k) (str k'))) [
          | inl eq ↦
              let old =
                placed i k' v' (sym (rw apart at (element-write str m valid j i k v lt)) ∙ e) in
              absurd (
                ground (
                  arith,
                  old,
                  at_place,
                  str_eq_sound (str k) (str k'),
                  ap (place m) (str_eq_sound (str k) (str k') eq),
                ))
          | inr ne ↦
              place-write_other (str k') i ne apart
                (placed i k' v' (sym (rw apart at (element-write str m valid j i k v lt)) ∙ e))
        ]
      ]

      holds_other :
          (e : Option (K × V)) (s : List ℕ)
          → accepts_key str e (str k) ≡ true
          → str_eq (str k) s ≡ false
          → holds_key str e s ≡ false
      unfolding accepts_key holds_key
      holds_other none s t ne = refl
      holds_other (some (q, w)) s t ne = rw (str_eq_sound (str q) (str k) t) ne

      found_self : probe_from_hash str (holds_key str) (write_element m j k v) (str k) ≡ some j
      unfolding probe_from_hash
      found_self =
          from_hash-write (holds_key str) (str k)
          ∙ probe_refine (λ i. accepts_key str (element m i) (str k)) m.capacity _ max_probe_count _
              j
              (λ x f. ground (
                arith,
                holds-write str m valid k (str k) v j x lt,
                stopped,
                accepts-none (element m x) (str k) f,
              ))
              (ground (arith, holds-write str m valid k (str k) v j j lt, str_eq_refl (str k)))
              at_place

      lookup-write_self : lookup (write_element m j k v) (str k) ≡ (map_ok, some v)
      unfolding lookup
      lookup-write_self =
          ground (arith, found_self, element-write str m valid j j k v lt, ==_self j)

      module _ (s : List ℕ) (ne : str_eq (str k) s ≡ false) where
        found_other :
            probe_from_hash str (holds_key str) (write_element m j k v) s
            ≡ probe_from_hash str (holds_key str) m s
        unfolding probe_from_hash
        found_other =
            from_hash-write (holds_key str) s
            ∙ ap (λ t. probe t max_probe_count m.capacity (string_hash s % m.capacity))
                (fun_ext (λ x. ground (
                  arith,
                  holds-write str m valid k s v j x lt,
                  holds_other (element m j) s stopped ne,
                )))

        lookup-write_other : lookup (write_element m j k v) s ≡ lookup m s
        unfolding lookup
        lookup-write_other = elim (Option-cases (probe_from_hash str (holds_key str) m s)) [
          | inl miss ↦ ground (arith, found_other)
          | inr (r, hit) ↦ ground (
            arith,
            found_other,
            element-write str m valid j r k v lt,
            hits r hit,
            holds_other (element m j) s stopped ne,
          )
        ]
          where
            hits :
                (r : ℕ)
                → probe_from_hash str (holds_key str) m s ≡ some r
                → holds_key str (element m r) s ≡ true
            hits r hit = unfold probe_from_hash in probe-test _ m.capacity max_probe_count _ r hit

      pub lookup-write :
          (s : List ℕ)
          → lookup (write_element m j k v) s
            ≡ (if str_eq (str k) s then (map_ok, some v) else lookup m s)
      lookup-write s = elim (Bool-cases (str_eq (str k) s)) [
        | inl eq ↦ rw (eq, ← str_eq_sound (str k) s eq) lookup-write_self
        | inr ne ↦ rw ne (lookup-write_other s ne)
      ]
