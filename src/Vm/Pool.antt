-- ===== src/Vm/Pool.antt =====
-- src/vm/vm.c: the constant pool with `vm_register_constant`, and the functions with
-- `vm_register_function`. A pointer into the pool is an offset from its start.
use phantomshell.Base.{
  ℕ, zero, suc, ◌+◌, ◌*◌, ◌/◌, ◌%◌, ◌^◌, Bool, ◌||◌, Option, none, some, List, [], ◌∷◌, ◌++◌, ltb,
  ◌==◌, if◌then◌else◌, length, get_elem?, take, drop,
}
use phantomshell.Hashmap.{Hashmap, Status, hashmap_put}
use phantomshell.Vm.{
  Run, ok, fault, stuck, ◌>>=◌, stale_pointer, pool_out_of_range, operand_out_of_range, panic,
}

-- `global_const_pool`. `pool` has the bytes of the first allocation, `index` the offsets that have been
-- written.
pub record ConstPool : Type 0 where
  pub pool : List ℕ
  pub size : ℕ
  pub cap : ℕ
  pub index : List ℕ
  pub index_size : ℕ
  pub index_cap : ℕ

-- `vm_func_handle_t`.
pub record FuncHandle : Type 0 where
  pub signature_index : ℕ
  pub arg_size : ℕ
  pub vars_size : ℕ
  pub stack_size : ℕ
  pub bytecode_data : List ℕ

-- `global_funcs`. The keys of `func_map` point into the constant pool.
pub record Functions : Type 0 where
  pub funcs : List FuncHandle
  pub funcs_cap : ℕ
  pub func_map : Hashmap ℕ FuncHandle

abbrev pub global_const_pool_initial_size : ℕ
global_const_pool_initial_size = 4096

abbrev pub global_const_pool_initial_capacity : ℕ
global_const_pool_initial_capacity = 64

abbrev pub global_functions_count_increment : ℕ
global_functions_count_increment = 64

-- The string at a pointer: the bytes up to the terminator.
unfoldable pub c_string : List ℕ → List ℕ
c_string [] = []
c_string (b ∷ bs) = if b == 0 then [] else b ∷ c_string bs

unfoldable pub string_at : List ℕ → ℕ → List ℕ
unfolding c_string
string_at pool pointer = c_string (drop pointer pool)

-- `memcpy` of bytes to an offset of the pool.
unfoldable pub copy_to : List ℕ → ℕ → List ℕ → List ℕ
copy_to [] offset bytes = []
copy_to (p ∷ pool) zero [] = p ∷ pool
copy_to (p ∷ pool) zero (b ∷ bytes) = b ∷ copy_to pool zero bytes
copy_to (p ∷ pool) (suc offset) bytes = p ∷ copy_to pool offset bytes

-- The two bytes of the size on the (little-endian) host, the characters and the terminator.
unfoldable pub pool_entry : ℕ → List ℕ → List ℕ
pool_entry size16 constant =
    (size16 % 2 ^ 8) ∷ (size16 / 2 ^ 8) ∷ (take size16 constant ++ (0 ∷ []))

-- `vm_register_constant`, which gives the index by `out_index`. After a `realloc` the old pointer,
-- which the source goes on to use, is stale.
unfoldable pub vm_register_constant : ℕ → List ℕ → ConstPool → Run (ℕ × ConstPool)
unfolding copy_to pool_entry
vm_register_constant const_size constant p =
    let size16 = const_size % 2 ^ 16 in
    if ltb p.cap (p.size + (2 + size16 + 1))
    then fault stale_pointer
    else if p.index_size == p.index_cap
    then fault stale_pointer
    else ok (
      p.index_size,
      record p {
        pool = copy_to p.pool p.size (pool_entry size16 constant);
        index = p.index ++ (p.size ∷ []);
        index_size = (p.index_size + 1) % 2 ^ 16;
      },
    )

-- The scan for the argument list, and the sum over its types; `I` and `F` take four bytes.
unfoldable pub skip_to_paren : List ℕ → Run (List ℕ)
skip_to_paren [] = fault pool_out_of_range
skip_to_paren (c ∷ s) = if c == b'(' then ok s else skip_to_paren s

unfoldable pub sum_args : List ℕ → ℕ → Run ℕ
sum_args [] args_size = fault panic
sum_args (c ∷ s) args_size =
    let later = sum_args s ((args_size + 4) % 2 ^ 16) in
    if c == b')' then ok args_size else if (c == b'I') || (c == b'F') then later else fault panic

unfoldable pub byte_at : List ℕ → ℕ → Run ℕ
byte_at bytes i = elim (get_elem? bytes i) [ none ↦ fault operand_out_of_range | some b ↦ ok b ]

unfoldable pub offset_of : ConstPool → ℕ → Run ℕ
offset_of p i = elim (get_elem? p.index i) [
  | none ↦ fault pool_out_of_range
  | some offset ↦ ok offset
]

-- `hashmap_put` of the handle: its result is not looked at, so a put that fails leaves its map.
unfoldable pub map_after : Option (Status × Hashmap ℕ FuncHandle) → Run (Hashmap ℕ FuncHandle)
map_after none = stuck
map_after (some (st, m)) = ok m

-- `vm_register_function`. The first two half-words of the data are the sizes of the local variables,
-- in words, and of the stack, in bytes.
unfoldable pub vm_register_function :
    (ℕ → Bool) → ℕ → ℕ → List ℕ → ConstPool → Functions → Run (FuncHandle × Functions)
unfolding string_at skip_to_paren sum_args byte_at offset_of map_after
vm_register_function calloc fuel signature_index bytecode p fs =
    if length fs.funcs == fs.funcs_cap then fault stale_pointer else do
      offset ← offset_of p signature_index
      types ← skip_to_paren (string_at p.pool (offset + 2))
      args_size ← sum_args types 0
      vars_hi ← byte_at bytecode 0
      vars_lo ← byte_at bytecode 1
      stack_hi ← byte_at bytecode 2
      stack_lo ← byte_at bytecode 3
      let handle : FuncHandle = record {
        signature_index = signature_index;
        arg_size = args_size;
        vars_size = (vars_hi * 2 ^ 8 + vars_lo) * 4;
        stack_size = stack_hi * 2 ^ 8 + stack_lo;
        bytecode_data = bytecode;
      }
      func_map ←
          map_after (hashmap_put (string_at p.pool) calloc fuel fs.func_map (offset + 2) handle)
      ok (handle, record fs { funcs = fs.funcs ++ (handle ∷ []); func_map = func_map })
