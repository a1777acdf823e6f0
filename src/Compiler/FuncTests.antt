-- ===== src/Compiler/FuncTests.antt =====
-- Functions that are compiled and registered.
use phantomshell.Base.{
  ℕ, ◌*◌, ◌%◌, ◌^◌, ◌≡◌, refl, none, some, List, [], ◌∷◌, ◌++◌, drop, arith, str_eq, replicate,
}
use phantomshell.Hashmap.{
  Hashmap, map_ok, map_miss, hashmap_get, hashmap_put, empty_table, write_element, initial_map_cap,
  element, hashmap_index, over_load, probe_from_hash, probe, accepts_key, holds_key,
}
use phantomshell.Hashmap.Hash.{string_hash}
use phantomshell.Hashmap.Tests.{always, x}
use phantomshell.Hashmap.Overlay.{IsGood, empty-IsGood}
use phantomshell.Vm.{ok}
use phantomshell.Ast.{
  DeclFunc, literal_int, ident, group, binary_op, type_unknown, scope, stats_link, stats_end,
  stat_expr,
}
use phantomshell.Operator.{function_call}
use phantomshell.Compiler.ConstMap.{void_name, const_pool_index_by_value, type_signature_by_name}
use phantomshell.Compiler.Scope.{Scope, done, compiler_emit}
use phantomshell.Compiler.Stat.{buffered, compile_scope}
use phantomshell.Compiler.Expr.{compile_expression, compile_function_call, compile_args}
use phantomshell.Vm.Opcodes.{opcode}
use phantomshell.Vm.Pool.{ConstPool, Functions, FuncHandle, vm_register_function}
use phantomshell.Compiler.Func.{
  FuncDesc, Globals, FuncResult, compiled, text_key, func_signature, put_text, put_types,
  function_index, define_args, func_scope, exec_data, with_func_map, compiler_define_func,
  register_func, compile_func,
}
use phantomshell.Compiler.Register.{register-exec_data}
use phantomshell.Compiler.Recursion.{compile_func-function_index}

-- The signature x()V.
abbrev signature : List ℕ
signature = 0x78 ∷ b'(' ∷ b')' ∷ b'V' ∷ []

abbrev no_constants : Hashmap (List ℕ) ℕ
no_constants = empty_table initial_map_cap

no_constants-IsGood : IsGood text_key no_constants
no_constants-IsGood = empty-IsGood text_key initial_map_cap (omega arith)

signature_unknown : hashmap_get text_key no_constants signature ≡ (map_miss, none)
unfolding hashmap_get probe_from_hash probe holds_key string_hash element
signature_unknown = refl

abbrev with_signature : Hashmap (List ℕ) ℕ
with_signature = write_element no_constants 18 signature 7

put_signature :
    hashmap_put text_key always 1 no_constants signature 7 ≡ some (map_ok, with_signature)
unfolding hashmap_put hashmap_index over_load probe_from_hash probe accepts_key string_hash element
put_signature = refl

-- A pool of 32 bytes, and the same with the signature.
abbrev pool : ConstPool
pool = record {
  pool = replicate 32 0;
  size = 0;
  cap = 32;
  index = [];
  index_size = 0;
  index_cap = 64;
}

abbrev pool' : ConstPool
pool' = record pool {
  pool = 4 ∷ 0 ∷ (signature ++ (0 ∷ replicate 25 0));
  index = 0 ∷ [];
  index_size = 1;
}

abbrev no_functions : Functions
no_functions = record { funcs = []; funcs_cap = 64; func_map = empty_table initial_map_cap }

-- Three variables, and a stack of 8 bytes.
abbrev handle : FuncHandle
handle = record {
  signature_index = 0;
  arg_size = 0;
  vars_size = 12;
  stack_size = 8;
  bytecode_data = exec_data 3 8 (1 ∷ 2 ∷ []);
}

abbrev one_function : Functions
one_function = record {
  funcs = handle ∷ [];
  funcs_cap = 64;
  func_map = write_element (empty_table initial_map_cap) 18 2 handle;
}

function_registered :
    vm_register_function always 1 0 (exec_data 3 8 (1 ∷ 2 ∷ [])) pool' no_functions
    ≡ ok (handle, one_function)
unfolding vm_register_function exec_data hashmap_put hashmap_index over_load probe_from_hash probe
    accepts_key string_hash element
function_registered = refl

register-exec_data_example :
    (handle.vars_size ≡ 3 % 2 ^ 16 * 4)
    × (handle.stack_size ≡ 8 % 2 ^ 16)
    × (drop 4 handle.bytecode_data ≡ 1 ∷ 2 ∷ [])
    × (one_function.funcs ≡ no_functions.funcs ++ (handle ∷ []))
register-exec_data_example =
    register-exec_data always 1 0 3 8 (1 ∷ 2 ∷ []) pool' no_functions one_function handle
      function_registered

-- void x() { x(1); }
abbrev recursive : DeclFunc
recursive = record {
  name = x;
  ret_type = some void_name;
  args = some [];
  body = scope (
      stats_link
        (stat_expr (
          binary_op type_unknown function_call (ident type_unknown x)
            (group type_unknown (literal_int 1))))
        stats_end);
}

abbrev void_desc : FuncDesc
void_desc = record { args = []; ret_type = void_name; signature = signature }

abbrev no_names : Hashmap (List ℕ) FuncDesc
no_names = empty_table initial_map_cap

no_names-IsGood : IsGood text_key no_names
no_names-IsGood = empty-IsGood text_key initial_map_cap (omega arith)

abbrev start_globals : Globals
start_globals = record {
  global_func_map = some no_names;
  const_map = record { const_pool_map = some no_constants; const_pool_map_size = 7 };
  consts = pool;
  functions = no_functions;
}

-- The number 1, and a call of the function with the index 0.
abbrev recursive_handle : FuncHandle
recursive_handle = record {
  signature_index = 0;
  arg_size = 0;
  vars_size = 0;
  stack_size = 4;
  bytecode_data = exec_data 0 4 (0x36 ∷ 0 ∷ 0 ∷ 0 ∷ 1 ∷ 0x80 ∷ 0 ∷ 0 ∷ []);
}

abbrev end_globals : Globals
end_globals = record {
  global_func_map = some (write_element no_names 39 x void_desc);
  const_map = record { const_pool_map = some with_signature; const_pool_map_size = 8 };
  consts = pool';
  functions = record {
    funcs = recursive_handle ∷ [];
    funcs_cap = 64;
    func_map = write_element (empty_table initial_map_cap) 18 2 recursive_handle;
  };
}

void_signature :
    (rest : List ℕ → List ℕ → FuncResult)
    → func_signature x [] (some void_name) rest ≡ rest void_name signature
unfolding func_signature put_text put_types type_signature_by_name str_eq
void_signature rest = refl

recursive_compiled : compile_func always 1 5 recursive start_globals ≡ compiled end_globals
unfolding compile_func compiler_define_func with_func_map func_signature put_text put_types
    type_signature_by_name define_args function_index hashmap_get holds_key compile_scope
    compile_expression compile_function_call compile_args compiler_emit opcode register_func
    exec_data hashmap_put hashmap_index over_load probe_from_hash probe accepts_key string_hash
    element str_eq write_element const_pool_index_by_value
recursive_compiled = refl

compile_func-function_index_example :
    (g1 : Globals) × (start s : Scope) × (ret : ℕ) × (h : FuncHandle) × (define_args [] func_scope
      ≡ some start)
    × (compile_scope (function_index always g1) 5 (buffered 256) recursive.body start ≡ done ret s)
    × (function_index always g1 x ≡ some 0)
    × (end_globals.functions.funcs ≡ no_functions.funcs ++ (h ∷ []))
    × (drop 4 h.bytecode_data ≡ s.code)
    × (function_index always end_globals x ≡ some 7)
compile_func-function_index_example =
    compile_func-function_index always 1 5 recursive start_globals end_globals no_names no_constants
      with_signature [] void_name signature refl void_signature refl no_names-IsGood refl
      no_constants-IsGood (omega arith) signature_unknown put_signature recursive_compiled
