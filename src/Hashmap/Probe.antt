-- ===== src/Hashmap/Probe.antt =====
-- src/util/hashmap.c: what the probing loop finds, before and after a write of one element.
use phantomshell.Base.{
  ℕ, zero, suc, ◌+◌, ◌%◌, ◌<◌, ◌≡◌, ◌∙◌, Bool, true, false, none, some, List, arith, length,
  if◌then◌else◌, ◌==◌, str_eq, get_or-set, length-set,
}
use phantomshell.Hashmap.{Hashmap, element, write_element, holds_key, accepts_key, probe}

module _ (test : ℕ → Bool) (capacity : ℕ) where
  pub probe-lt : (n i j : ℕ) → i < capacity → probe test n capacity i ≡ some j → j < capacity
  unfolding probe
  probe-lt zero i j lt h = ground arith
  probe-lt (suc n) i j lt h = ground (arith, probe-lt n ((i + 1) % capacity) j)

  pub probe-test : (n i j : ℕ) → probe test n capacity i ≡ some j → test j ≡ true
  unfolding probe
  probe-test zero i j h = ground arith
  probe-test (suc n) i j h = ground (arith, probe-test n ((i + 1) % capacity) j)

  -- A second test that fails where the first does, and accepts what the first found, finds the same.
  pub probe_refine :
      (test' : ℕ → Bool) (n i j : ℕ)
      → ((x : ℕ) → test x ≡ false → test' x ≡ false)
      → test' j ≡ true
      → probe test n capacity i ≡ some j
      → probe test' n capacity i ≡ some j
  unfolding probe
  probe_refine test' zero i j finer at h = ground arith
  probe_refine test' (suc n) i j finer at h =
      ground (arith, finer i, probe_refine test' n ((i + 1) % capacity) j finer at)

-- The array has the length that the header says, which is not 0.
pub record IsValid {K V : Type 0} (m : Hashmap K V) : Type 0 where
  pub width : length m.elements ≡ m.capacity
  pub filled : 0 < m.capacity

module _ {K V : Type 0} (str : K → List ℕ) (m : Hashmap K V) (valid : IsValid m) where
  pub write_element-IsValid : (i : ℕ) (k : K) (v : V) → IsValid (write_element m i k v)
  unfolding write_element
  write_element-IsValid i k v = record {
    width = length-set m.elements i (some (k, v)) ∙ valid.width;
    filled = valid.filled;
  }

  pub element-write :
      (i j : ℕ) (k : K) (v : V)
      → i < m.capacity
      → element (write_element m i k v) j ≡ (if i == j then some (k, v) else element m j)
  unfolding write_element element
  element-write i j k v lt =
      get_or-set m.elements i j (some (k, v)) none (omega (arith, valid.width))

  pub holds-write :
      (k : K) (s : List ℕ) (v : V) (j i : ℕ)
      → j < m.capacity
      → holds_key str (element (write_element m j k v) i) s
        ≡ (if j == i then str_eq (str k) s else holds_key str (element m i) s)
  unfolding holds_key
  holds-write k s v j i lt = rw (element-write j i k v lt) (ground arith)

  pub accepts-write :
      (k : K) (s : List ℕ) (v : V) (j i : ℕ)
      → j < m.capacity
      → accepts_key str (element (write_element m j k v) i) s
        ≡ (if j == i then str_eq (str k) s else accepts_key str (element m i) s)
  unfolding accepts_key
  accepts-write k s v j i lt = rw (element-write j i k v lt) (ground arith)
