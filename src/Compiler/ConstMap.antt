-- ===== src/Compiler/ConstMap.antt =====
-- src/compiler_vars.c: the names of types, and the map from a constant to its index in the pool. A null
-- map is `none`. The values are integers of two bytes that are kept in the place of a pointer.
use native.Mathlib.Nat.{mod-eq_of_lt}
use phantomshell.Base.{
  ℕ, ◌+◌, ◌%◌, ◌^◌, ◌<◌, ◌≡◌, refl, Bool, true, Option, none, some, List, [], ◌∷◌, ◌==◌,
  if◌then◌else◌, str_eq,
}
use phantomshell.Ast.{type_int, type_float}
use phantomshell.Hashmap.{
  Hashmap, Status, map_ok, map_nomem, map_miss, hashmap_new, hashmap_get, hashmap_put,
}
use phantomshell.Hashmap.Overlay.{IsGood}
use phantomshell.Hashmap.Growth.{hashmap_put-get}

-- `TYPE_NONE`.
abbrev pub type_none : ℕ
type_none = 15

abbrev pub int_name : List ℕ
int_name = b'i' ∷ b'n' ∷ b't' ∷ []

abbrev pub float_name : List ℕ
float_name = b'f' ∷ b'l' ∷ b'o' ∷ b'a' ∷ b't' ∷ []

abbrev pub void_name : List ℕ
void_name = b'v' ∷ b'o' ∷ b'i' ∷ b'd' ∷ []

-- `none` is the panic.
unfoldable pub static_type_by_name : List ℕ → Option ℕ
static_type_by_name type_name =
    if str_eq type_name int_name
    then some type_int
    else if str_eq type_name float_name
    then some type_float
    else if str_eq type_name void_name
    then some type_none
    else none

unfoldable pub type_signature_by_name : List ℕ → Option (List ℕ)
type_signature_by_name type_name =
    if str_eq type_name int_name
    then some (b'I' ∷ [])
    else if str_eq type_name float_name
    then some (b'F' ∷ [])
    else if str_eq type_name void_name
    then some (b'V' ∷ [])
    else none

-- `const_pool_map` and `const_pool_map_size`.
pub record ConstMap (K : Type 0) : Type 0 where
  pub const_pool_map : Option (Hashmap K ℕ)
  pub const_pool_map_size : ℕ

-- What a function on the map does: it returns a code, the index written if any, and the map; or it
-- reads through a pointer that is none; or the fuel of the model runs out.
pub data Indexed (K : Type 0) : Type 0 where
  indexed : Status → Option ℕ → ConstMap K → Indexed K
  bad_pointer stuck : Indexed K

module _ {K : Type 0} (str : K → List ℕ) (calloc : ℕ → Bool) where
  -- `if (!const_pool_map) const_pool_map = hashmap_new();`, whose result is not looked at.
  unfoldable pub with_map : ConstMap K → (Hashmap K ℕ → Indexed K) → Indexed K
  with_map p rest = elim p.const_pool_map [
    | some m ↦ rest m
    | none ↦ elim (hashmap_new {V = ℕ} calloc) [ none ↦ bad_pointer | some m ↦ rest m ]
  ]

  -- The map that is in use afterwards.
  abbrev pub put_map : ConstMap K → Hashmap K ℕ → ConstMap K
  put_map p m = record p { const_pool_map = some m }

  -- The two bytes that are copied if `hashmap_get` answers 0, and else its answer.
  abbrev pub copy_index : ConstMap K → Status × Option ℕ → Indexed K
  copy_index p (map_ok, none) = indexed map_ok none p
  copy_index p (map_ok, some v) = indexed map_ok (some (v % 2 ^ 16)) p
  copy_index p (map_nomem, v) = indexed map_nomem none p
  copy_index p (map_miss, v) = indexed map_miss none p

  unfoldable pub const_pool_index_by_value : ConstMap K → K → Indexed K
  unfolding with_map
  const_pool_index_by_value p value =
      with_map p (λ m. copy_index (put_map p m) (hashmap_get str m value))

  -- The value that `hashmap_get` has written over the null pointer.
  abbrev pub written : Option ℕ → ℕ
  written none = 0
  written (some v) = v

  -- The rest of a registration after `hashmap_put`, whose result is not looked at.
  abbrev pub after_put : ConstMap K → Option (Status × Hashmap K ℕ) → Indexed K
  after_put p none = stuck
  after_put p (some (st, m)) = indexed map_ok (some p.const_pool_map_size) (record p {
    const_pool_map = some m;
    const_pool_map_size = (p.const_pool_map_size + 1) % 2 ^ 16;
  })

  -- A value other than 0 that is found is read through as if it were a pointer.
  unfoldable pub const_pool_register_value : ℕ → ConstMap K → K → Indexed K
  unfolding with_map
  const_pool_register_value fuel p value = with_map p (λ m.
      if written (hashmap_get str m value).1 == 0
      then after_put p (hashmap_put str calloc fuel m value p.const_pool_map_size)
      else bad_pointer)

  -- In a map in order, with fewer than 2 ^ 16 constants counted: a constant that is not known, or has the
  -- index 0, and whose put answers `_MAP_OK`, is registered under the next index; then that index is
  -- what every equal constant is looked up as.
  pub const_pool_register-index :
      (fuel : ℕ) (p : ConstMap K) (m m' : Hashmap K ℕ) (value again : K)
      → p.const_pool_map ≡ some m
      → IsGood str m
      → p.const_pool_map_size < 2 ^ 16
      → written (hashmap_get str m value).1 ≡ 0
      → hashmap_put str calloc fuel m value p.const_pool_map_size ≡ some (map_ok, m')
      → str_eq (str value) (str again) ≡ true
      → (p' : ConstMap K) × (const_pool_register_value fuel p value
          ≡ indexed map_ok (some p.const_pool_map_size) p')
        × (const_pool_index_by_value p' again ≡ indexed map_ok (some p.const_pool_map_size) p')
  unfolding const_pool_register_value const_pool_index_by_value with_map
  const_pool_register-index fuel p m m' value again here good small fresh put same = (
    record p {
      const_pool_map = some m';
      const_pool_map_size = (p.const_pool_map_size + 1) % 2 ^ 16;
    },
    rw (here, fresh, put) refl,
    rw
        (
          (hashmap_put-get str calloc fuel m value p.const_pool_map_size m' good put).1 again,
          same,
          mod-eq_of_lt small,
        )
        refl,
  )
