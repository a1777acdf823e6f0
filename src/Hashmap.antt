-- ===== src/Hashmap.antt =====
-- src/util/hashmap.c: the open-addressing table with linear probing. An element in use is `some` of
-- its key pointer and value, one that is not is `none`. Keys are pointers: `str` reads the string
-- that a key points at, at the time of the call. `calloc n` tells whether `n` elements can be
-- allocated. An `int` result is a `Status`, and `hashmap_index` gives `none` for `_MAP_FULL`.
pub mod Hash
pub mod Probe
pub mod Put
pub mod Overlay
pub mod Growth
pub mod Room
pub mod Tests
pub mod Remove
use phantomshell.Base.{
  ℕ, zero, suc, ◌+◌, ◌-◌, ◌*◌, ◌%◌, ◌^◌, Bool, true, false, Option, none, some, List, [], ◌∷◌, ltb,
  str_eq, if◌then◌else◌, get_or, set, replicate,
}
use Hash.{string_hash}

pub data Status : Type 0 where
  map_ok map_nomem map_miss : Status

pub record Hashmap (K V : Type 0) : Type 0 where
  pub capacity : ℕ
  pub size : ℕ
  pub elements : List (Option (K × V))

abbrev pub initial_map_cap : ℕ
initial_map_cap = 128

abbrev pub max_probe_count : ℕ
max_probe_count = 8

-- `capacity * 0.7f < size`: 0.7f is 11744051 / 2 ^ 24. The product is exact as the capacity is a
-- power of two, and so is the conversion of a size up to 2 ^ 24.
unfoldable pub over_load : ℕ → ℕ → Bool
over_load capacity size = ltb (capacity * 11744051) (size * 2 ^ 24)

-- The outcome of `hashmap_put` or `hashmap_resize`; `none` means that the fuel ran out.
abbrev pub Outcome : Type 0 → Type 0 → Type 0
Outcome K V = Option (Status × Hashmap K V)

-- The probing loop, for the indices that the test accepts; the rounds left count down.
unfoldable pub probe : (ℕ → Bool) → ℕ → ℕ → ℕ → Option ℕ
probe test zero capacity index = none
probe test (suc rounds) capacity index =
    let later = probe test rounds capacity ((index + 1) % capacity) in
    if test index then some index else later

module _ {K V : Type 0} where
  abbrev pub empty_table : ℕ → Hashmap K V
  empty_table n = record { capacity = n; size = 0; elements = replicate n none }

  unfoldable pub hashmap_new : (ℕ → Bool) → Option (Hashmap K V)
  hashmap_new calloc = if calloc initial_map_cap then some (empty_table initial_map_cap) else none

  unfoldable pub element : Hashmap K V → ℕ → Option (K × V)
  element m i = get_or m.elements i none

  -- `data[index].in_use = 1`, and the key and the value with it; `size` is counted up.
  unfoldable pub write_element : Hashmap K V → ℕ → K → V → Hashmap K V
  write_element m i key value = record m {
    size = m.size + 1;
    elements = set m.elements i (some (key, value));
  }

  -- `size` is a `size_t`: counting down from 0 wraps.
  unfoldable pub clear_element : Hashmap K V → ℕ → Hashmap K V
  clear_element m i = record m {
    size = (m.size + 2 ^ 64 - 1) % 2 ^ 64;
    elements = set m.elements i none;
  }

  -- A null map has size 0.
  unfoldable pub hashmap_size : Option (Hashmap K V) → ℕ
  hashmap_size none = 0
  hashmap_size (some m) = m.size

  -- `if (ret) return ret;`, and else the rest.
  unfoldable pub if_ok : Outcome K V → (Hashmap K V → Outcome K V) → Outcome K V
  if_ok none rest = none
  if_ok (some (map_ok, m)) rest = rest m
  if_ok (some (map_nomem, m)) rest = some (map_nomem, m)
  if_ok (some (map_miss, m)) rest = some (map_miss, m)

  -- `if (… == _MAP_NOMEM) return _MAP_NOMEM;`, and else the rest.
  unfoldable pub unless_nomem : Outcome K V → (Hashmap K V → Outcome K V) → Outcome K V
  unless_nomem none rest = none
  unless_nomem (some (map_nomem, m)) rest = some (map_nomem, m)
  unless_nomem (some (map_ok, m)) rest = rest m
  unless_nomem (some (map_miss, m)) rest = rest m

module _ {K V : Type 0} (str : K → List ℕ) where
  -- The element is in use and `strcmp(data[index].key, key) == 0`, where `s` is the string at `key`.
  unfoldable pub holds_key : Option (K × V) → List ℕ → Bool
  holds_key none s = false
  holds_key (some (k, v)) s = str_eq (str k) s

  -- The element is not in use, or is in use with this key: what `hashmap_index` stops at.
  unfoldable pub accepts_key : Option (K × V) → List ℕ → Bool
  accepts_key none s = true
  accepts_key (some (k, v)) s = str_eq (str k) s

  -- The three probing loops start at the hash of the key and go round at most eight times.
  unfoldable pub probe_from_hash :
      (Option (K × V) → List ℕ → Bool) → Hashmap K V → List ℕ → Option ℕ
  probe_from_hash test m s =
      probe (λ i. test (element m i) s) max_probe_count m.capacity (string_hash s % m.capacity)

  unfoldable pub hashmap_index : Hashmap K V → K → Option ℕ
  hashmap_index m key =
      if over_load m.capacity m.size then none else probe_from_hash accepts_key m (str key)

  abbrev pub value_of : Option (K × V) → Option V
  value_of none = none
  value_of (some (k, v)) = some v

  -- The value written through `out_value`, `none` for the null that a miss writes.
  unfoldable pub hashmap_get : Hashmap K V → K → Status × Option V
  hashmap_get m key = elim (probe_from_hash holds_key m (str key)) [
    | none ↦ (map_miss, none)
    | some i ↦ (map_ok, value_of (element m i))
  ]

  pub hashmap_remove : Hashmap K V → K → Status × Hashmap K V
  hashmap_remove m key = elim (probe_from_hash holds_key m (str key)) [
    | none ↦ (map_miss, m)
    | some i ↦ (map_ok, clear_element m i)
  ]

  -- The loop of `hashmap_resize` over the old elements, for a given `hashmap_put`. `none` of the
  -- whole means that the fuel of that `hashmap_put` ran out.
  pub rehash :
      (Hashmap K V → K → V → Outcome K V) → List (Option (K × V)) → Hashmap K V → Outcome K V
  rehash put [] m = some (map_ok, m)
  rehash put (none ∷ es) m = rehash put es m
  rehash put (some (k, v) ∷ es) m = if_ok (put m k v) (rehash put es)

  pub hashmap_resize : (ℕ → Bool) → (Hashmap K V → K → V → Outcome K V) → Hashmap K V → Outcome K V
  hashmap_resize calloc put m =
      if calloc (m.capacity * 2)
      then rehash put m.elements (empty_table (m.capacity * 2))
      else some (map_nomem, m)

  -- Fuel bounds the rounds of the `while` loop and the depth of the calls that resize; `none` means
  -- that it ran out.
  unfoldable pub hashmap_put : (ℕ → Bool) → ℕ → Hashmap K V → K → V → Outcome K V
  hashmap_put calloc zero m key value = none
  hashmap_put calloc (suc fuel) m key value = elim (hashmap_index m key) [
    | some i ↦ some (map_ok, write_element m i key value)
    | none ↦
        unless_nomem (hashmap_resize calloc (hashmap_put calloc fuel) m)
          (λ m'. hashmap_put calloc fuel m' key value)
  ]
