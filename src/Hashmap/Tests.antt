-- ===== src/Hashmap/Tests.antt =====
-- Runs of the hash map of src/util/hashmap.c on the strings "x" and "y".
use phantomshell.Base.{
  ℕ, Bool, true, false, none, some, ◌≡◌, refl, List, [], ◌∷◌, arith, if◌then◌else◌, str_eq,
}
use phantomshell.Hashmap.{
  hashmap_new, Hashmap, map_ok, map_miss, hashmap_get, hashmap_put, hashmap_remove, empty_table,
  write_element, clear_element, initial_map_cap, element, hashmap_index, over_load, probe_from_hash,
  probe, accepts_key, holds_key,
}
use phantomshell.Hashmap.Hash.{string_hash}
use phantomshell.Hashmap.Overlay.{hashmap_new-get, IsGood, empty-IsGood}
use phantomshell.Hashmap.Growth.{hashmap_put-get}
use phantomshell.Hashmap.Remove.{hashmap_remove-get}
use phantomshell.Hashmap.Room.{HasRoom, hashmap_put-room}

abbrev pub text : List ℕ → List ℕ
text s = s

abbrev pub always : ℕ → Bool
always n = true

abbrev pub x : List ℕ
x = 0x78 ∷ []

abbrev y : List ℕ
y = 0x79 ∷ []

-- The map with 7 under "x".
abbrev pub one_entry : Hashmap (List ℕ) ℕ
one_entry = write_element (empty_table initial_map_cap) 39 x 7

pub put_x : hashmap_put text always 1 (empty_table initial_map_cap) x 7 ≡ some (map_ok, one_entry)
unfolding hashmap_put hashmap_index over_load probe_from_hash probe accepts_key string_hash element
put_x = refl

get_x :
    (hashmap_get text one_entry x ≡ (map_ok, some 7))
    × (hashmap_get text one_entry y ≡ (map_miss, none))
unfolding hashmap_get probe_from_hash probe holds_key string_hash write_element str_eq element
get_x = (refl, refl)

remove_x : hashmap_remove text one_entry x ≡ (map_ok, clear_element one_entry 39)
unfolding hashmap_remove probe_from_hash probe holds_key string_hash write_element str_eq element
remove_x = refl

room_x : HasRoom text (empty_table {V = ℕ} initial_map_cap) x
unfolding accepts_key string_hash element
room_x = (0, omega arith, refl)

pub start-IsGood : IsGood text (empty_table {V = ℕ} initial_map_cap)
start-IsGood = empty-IsGood text initial_map_cap (omega arith)

light_start : over_load initial_map_cap 0 ≡ false
unfolding over_load
light_start = refl

hashmap_put-get_example :
    IsGood text one_entry
    × ((q : List ℕ)
        → hashmap_get text one_entry q ≡ (
            if str_eq x q
            then (map_ok, some 7)
            else hashmap_get text (empty_table initial_map_cap) q))
hashmap_put-get_example =
    hashmap_put-get text always 1 (empty_table initial_map_cap) x 7 one_entry start-IsGood put_x

one_entry-IsGood : IsGood text one_entry
one_entry-IsGood =
    (hashmap_put-get text always 1 (empty_table initial_map_cap) x 7 one_entry start-IsGood put_x).0

hashmap_remove-get_example :
    hashmap_get text (clear_element one_entry 39) x
    ≡ (if str_eq x x then (map_miss, none) else hashmap_get text one_entry x)
hashmap_remove-get_example =
    hashmap_remove-get text one_entry one_entry-IsGood x (clear_element one_entry 39) remove_x x

hashmap_put-room_example :
    (i : ℕ) × (hashmap_put {V = ℕ} text always 1 (empty_table initial_map_cap) x 7
      ≡ some (map_ok, write_element (empty_table initial_map_cap) i x 7))
hashmap_put-room_example =
    hashmap_put-room text always 0 (empty_table initial_map_cap) x 7 light_start room_x

pub get_missing : hashmap_get text (empty_table {V = ℕ} initial_map_cap) x ≡ (map_miss, none)
unfolding hashmap_get probe_from_hash probe holds_key string_hash element
get_missing = refl

new_map : hashmap_new {K = List ℕ} {V = ℕ} always ≡ some (empty_table initial_map_cap)
unfolding hashmap_new
new_map = refl

hashmap_new-get_example :
    IsGood text (empty_table {V = ℕ} initial_map_cap)
    × ((q : List ℕ) → hashmap_get text (empty_table {V = ℕ} initial_map_cap) q ≡ (map_miss, none))
hashmap_new-get_example = hashmap_new-get text always (empty_table initial_map_cap) new_map
