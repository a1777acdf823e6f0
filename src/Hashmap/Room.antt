-- ===== src/Hashmap/Room.antt =====
-- src/util/hashmap.c: the probing loop of `hashmap_put` and the eight elements in its reach.
use native.Mathlib.Nat.{mod-add-mod, mod-mod}
use phantomshell.Base.{
  ℕ, zero, suc, ◌+◌, ◌%◌, ◌<◌, ◌≡◌, ◌⊎◌, refl, ap, ◌∙◌, inl, inr, Bool, true, false, some, List,
  arith, Bool-cases,
}
use phantomshell.Hashmap.{
  Hashmap, map_ok, element, write_element, accepts_key, probe, probe_from_hash, hashmap_index,
  hashmap_put, max_probe_count, over_load,
}
use phantomshell.Hashmap.Hash.{string_hash}

cases : (j : ℕ) → (j ≡ 0) ⊎ ((k : ℕ) × (j ≡ suc k))
cases zero = inl refl
cases (suc k) = inr (k, refl)

module _ (test : ℕ → Bool) (capacity : ℕ) where
  next : (i j : ℕ) → ((i + 1) % capacity + j) % capacity ≡ (i + suc j) % capacity
  next i j = mod-add-mod (i + 1) capacity j ∙ ap (λ x. x % capacity) (omega arith)

  -- The loop finds something where one of the indices in its reach passes the test.
  probe_reaches :
      (n i j : ℕ)
      → i % capacity ≡ i
      → j < n
      → test ((i + j) % capacity) ≡ true
      → (r : ℕ) × (probe test n capacity i ≡ some r)
  unfolding probe
  probe_reaches zero i j own lt h = absurd (omega arith)
  probe_reaches (suc n) i j own lt h = elim (Bool-cases (test i)) [
    | inl t ↦ (i, rw t refl)
    | inr f ↦ elim (cases j) [
      | inl z ↦ absurd (ground (arith, own))
      | inr (k, e) ↦
          let (r, found) =
            probe_reaches n ((i + 1) % capacity) k (mod-mod (i + 1) capacity) (omega arith)
              (rw (next i k, ← e) h) in
          (r, rw f found)
    ]
  ]

module _ {K V : Type 0} (str : K → List ℕ) where
  -- One of the eight elements from the hash of the key on is free or has the key already.
  abbrev pub HasRoom : Hashmap K V → K → Type 0
  HasRoom m k =
      (j : ℕ) × (j < max_probe_count)
      × (accepts_key str (element m ((string_hash (str k) + j) % m.capacity)) (str k) ≡ true)

  put-index :
      (calloc : ℕ → Bool) (fuel : ℕ) (m : Hashmap K V) (k : K) (v : V) (i : ℕ)
      → hashmap_index str m k ≡ some i
      → hashmap_put str calloc (suc fuel) m k v ≡ some (map_ok, write_element m i k v)
  unfolding hashmap_put write_element
  put-index calloc fuel m k v i h = rw (h, hashmap_put) refl

  -- In a map that is not over its load factor, where one of the eight elements from the hash of the
  -- key on is free or has the key already, a put answers `_MAP_OK` in its first round: it writes one
  -- element, allocates nothing and keeps the capacity.
  pub hashmap_put-room :
      (calloc : ℕ → Bool) (fuel : ℕ) (m : Hashmap K V) (k : K) (v : V)
      → over_load m.capacity m.size ≡ false
      → HasRoom m k
      → (i : ℕ) × (hashmap_put str calloc (suc fuel) m k v ≡ some (map_ok, write_element m i k v))
  unfolding probe_from_hash hashmap_index
  hashmap_put-room calloc fuel m k v light (j, lt, free) =
      let start = string_hash (str k) % m.capacity in
      let (i, found) =
        probe_reaches (λ i. accepts_key str (element m i) (str k)) m.capacity max_probe_count start
          j (mod-mod (string_hash (str k)) m.capacity) lt
          (rw (mod-add-mod (string_hash (str k)) m.capacity j) free) in
      (i, put-index calloc fuel m k v i (rw (light, hashmap_index) found))
