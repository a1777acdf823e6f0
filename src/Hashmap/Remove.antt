-- ===== src/Hashmap/Remove.antt =====
-- src/util/hashmap.c: `hashmap_remove` on a map in which every element stands in its place.
use mathlib.Core.Path.{fun_ext}
use phantomshell.Base.{
  ℕ, ◌%◌, ◌<◌, ◌≡◌, refl, sym, ap, ◌∙◌, inl, inr, true, false, Option, none, some, List, arith,
  if◌then◌else◌, ◌==◌, str_eq, str_eq_sound, Bool-cases, Option-cases, get_or-set,
}
use phantomshell.Hashmap.{
  Hashmap, map_ok, map_miss, element, clear_element, holds_key, probe, probe_from_hash, hashmap_get,
  hashmap_remove, max_probe_count,
}
use phantomshell.Hashmap.Hash.{string_hash}
use phantomshell.Hashmap.Probe.{probe-lt, probe-test}
use phantomshell.Hashmap.Put.{lookup, get-lookup}
use phantomshell.Hashmap.Overlay.{IsGood, holds-place, found-holds}

module _ {K V : Type 0} (str : K → List ℕ) (m : Hashmap K V) (g : IsGood str m) where
  element-clear :
      (i j : ℕ)
      → i < m.capacity
      → element (clear_element m i) j ≡ (if i == j then none else element m j)
  unfolding clear_element element
  element-clear i j lt = get_or-set m.elements i j none none (omega (arith, g.valid.width))

  holds-clear :
      (s : List ℕ) (i j : ℕ)
      → i < m.capacity
      → holds_key str (element (clear_element m i) j) s
        ≡ (if i == j then false else holds_key str (element m j) s)
  unfolding holds_key
  holds-clear s i j lt = rw (element-clear i j lt) (ground arith)

  holds_once :
      (e : Option (K × V)) (s t : List ℕ)
      → holds_key str e s ≡ true
      → str_eq s t ≡ false
      → holds_key str e t ≡ false
  unfolding holds_key
  holds_once none s t h ne = refl
  holds_once (some (q, v)) s t h ne = rw (str_eq_sound (str q) s h) ne

  module _ (k : K) (i : ℕ) (found : probe_from_hash str (holds_key str) m (str k) ≡ some i) where
    lt : i < m.capacity
    unfolding probe_from_hash
    lt = probe-lt _ m.capacity max_probe_count _ i (grind (arith, g.valid.filled)) found

    from_hash-clear :
        (s : List ℕ)
        → probe_from_hash str (holds_key str) (clear_element m i) s
          ≡ probe
              (λ j. holds_key str (element (clear_element m i) j) s)
              max_probe_count
              m.capacity
              (string_hash s % m.capacity)
    unfolding probe_from_hash clear_element
    from_hash-clear s = refl

    clear-holds :
        (s : List ℕ) (r : ℕ)
        → probe_from_hash str (holds_key str) (clear_element m i) s ≡ some r
        → holds_key str (element (clear_element m i) r) s ≡ true
    clear-holds s r hit =
        probe-test _ m.capacity max_probe_count _ r (sym (from_hash-clear s) ∙ hit)

    gone : lookup str (clear_element m i) (str k) ≡ (map_miss, none)
    unfolding lookup
    gone = elim (Option-cases (probe_from_hash str (holds_key str) (clear_element m i) (str k))) [
      | inl miss ↦ ground arith
      | inr (r, hit) ↦
          let still = rw (holds-clear (str k) i r lt) at (clear-holds (str k) r hit) in
          absurd (
            ground (
              arith,
              still,
              holds-place str m g (str k) r,
              holds-place str m g (str k) i (found-holds str m g (str k) i found),
            ))
    ]

    kept_probe :
        (s : List ℕ)
        → str_eq (str k) s ≡ false
        → probe_from_hash str (holds_key str) (clear_element m i) s
          ≡ probe_from_hash str (holds_key str) m s
    unfolding probe_from_hash
    kept_probe s ne =
        from_hash-clear s
        ∙ ap (λ t. probe t max_probe_count m.capacity (string_hash s % m.capacity))
            (fun_ext (λ x. ground (
              arith,
              holds-clear s i x lt,
              holds_once (element m i) (str k) s (found-holds str m g (str k) i found) ne,
            )))

    kept :
        (s : List ℕ) → str_eq (str k) s ≡ false → lookup str (clear_element m i) s ≡ lookup str m s
    unfolding lookup
    kept s ne = elim (Option-cases (probe_from_hash str (holds_key str) m s)) [
      | inl miss ↦ ground (arith, kept_probe s ne)
      | inr (r, hit) ↦ ground (
        arith,
        kept_probe s ne,
        element-clear i r lt,
        found-holds str m g s r hit,
        holds_once (element m i) (str k) s (found-holds str m g (str k) i found) ne,
      )
    ]

  -- A remove from a map in order that answers `_MAP_OK` unbinds the key and no other.
  pub hashmap_remove-get :
      (k : K) (m' : Hashmap K V)
      → hashmap_remove str m k ≡ (map_ok, m')
      → (q : K)
      → hashmap_get str m' q
        ≡ (if str_eq (str k) (str q) then (map_miss, none) else hashmap_get str m q)
  hashmap_remove-get k m' e q =
      elim (Option-cases (probe_from_hash str (holds_key str) m (str k))) [
        | inl miss ↦ absurd (unfold hashmap_remove in ground arith)
        | inr (i, found) ↦
            let cleared : clear_element m i ≡ m' = unfold hashmap_remove in ground arith in
            rw (← cleared, get-lookup str (clear_element m i) q, get-lookup str m q)
              (elim (Bool-cases (str_eq (str k) (str q))) [
                | inl eq ↦ rw (eq, ← str_eq_sound (str k) (str q) eq) (gone k i found)
                | inr ne ↦ rw ne (kept k i found (str q) ne)
              ])
      ]
