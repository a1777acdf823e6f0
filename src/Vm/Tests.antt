-- ===== src/Vm/Tests.antt =====
-- Runs of the machine.
use phantomshell.Base.{arith, ℕ, ◌≡◌, refl, some, List, [], ◌∷◌, replicate, ◌/◌}
use phantomshell.Base.{str_eq}
use phantomshell.Vm.{FloatUnit, Run, ok, ◌>>=◌}
use phantomshell.Hashmap.{hashmap_get, probe_from_hash, probe, holds_key, element}
use phantomshell.Hashmap.Hash.{string_hash}
use phantomshell.Vm.Pool.{ConstPool, FuncHandle, vm_register_constant, offset_of, string_at}
use phantomshell.Vm.Constants.{IsPool, vm_register_constant-aliases}
use phantomshell.Vm.Opcodes.{call}
use phantomshell.Vm.Calls.{run_handler-call}
use phantomshell.Vm.Handlers.{jump_offset, execute_iconst, execute_binary, int_sub}
use phantomshell.Vm.Machine.{
  Host, Machine, vm_static_init, vm_execute_opcodes, execute_one, run_handler, find_function,
  enter_function,
}

abbrev pub no_floats : FloatUnit
no_floats = record {
  of_int = λ a. 0;
  add = λ a b. 0;
  sub = λ a b. 0;
  mul = λ a b. 0;
  div = λ a b. 0;
}

abbrev pub host : Host
host = record {
  fpu = no_floats;
  fresh = λ bytes. replicate (bytes / 4) 0;
  fresh_bytes = λ bytes. replicate bytes 0;
}

stack_after : ℕ → List ℕ → Run (List ℕ)
unfolding vm_execute_opcodes execute_one vm_static_init
stack_after fuel bytes =
    vm_execute_opcodes host fuel (vm_static_init host) bytes 0 >>= λ r. ok r.1.current.stack

-- iconst 7, iconst 3, isub
subtract : stack_after 4 (0x36 ∷ 0 ∷ 0 ∷ 0 ∷ 7 ∷ 0x36 ∷ 0 ∷ 0 ∷ 0 ∷ 3 ∷ 0x43 ∷ []) ≡ ok (4 ∷ [])
unfolding stack_after execute_iconst execute_binary int_sub
subtract = refl

-- A pool of sixteen bytes, and the strings "a" and "b" registered in it.
abbrev small_pool : ConstPool
small_pool = record {
  pool = replicate 16 0;
  size = 0;
  cap = 16;
  index = [];
  index_size = 0;
  index_cap = 64;
}

abbrev pool_a : ConstPool
pool_a = record small_pool {
  pool = 1 ∷ 0 ∷ 0x61 ∷ 0 ∷ replicate 12 0;
  index = 0 ∷ [];
  index_size = 1;
}

abbrev pool_b : ConstPool
pool_b = record small_pool {
  pool = 1 ∷ 0 ∷ 0x62 ∷ 0 ∷ replicate 12 0;
  index = 0 ∷ 0 ∷ [];
  index_size = 2;
}

register_a : vm_register_constant 1 (0x61 ∷ []) small_pool ≡ ok (0, pool_a)
unfolding vm_register_constant
register_a = refl

register_b : vm_register_constant 1 (0x62 ∷ []) pool_a ≡ ok (1, pool_b)
unfolding vm_register_constant
register_b = refl

small_pool-IsPool : IsPool small_pool
small_pool-IsPool = record { allocated = refl; counted = refl }

vm_register_constant-aliases_example :
    (offset_of pool_b 0 ≡ ok 0)
    × (offset_of pool_b 1 ≡ ok 0)
    × (string_at pool_b.pool 2 ≡ 0x62 ∷ [])
vm_register_constant-aliases_example =
    vm_register_constant-aliases (0x61 ∷ []) (0x62 ∷ []) small_pool pool_a pool_b 0 1
      small_pool-IsPool (omega arith, tt) (omega arith, tt) (omega arith) (omega arith)
      (omega arith) register_a register_b

-- A function named "f" of one argument, whose code pushes 7, and a frame that is to call it.
abbrev f_handle : FuncHandle
f_handle = record {
  signature_index = 0;
  arg_size = 4;
  vars_size = 4;
  stack_size = 64;
  bytecode_data = 0 ∷ 1 ∷ 0 ∷ 1 ∷ 0x36 ∷ 0 ∷ 0 ∷ 0 ∷ 7 ∷ [];
}

abbrev caller : Machine
caller = record {
  current = record { frame_pc = 0; stack = 5 ∷ 6 ∷ []; stack_bytes = 64; locals = 1 ∷ [] };
  callers = [];
  consts = record small_pool {
    pool = 1 ∷ 0 ∷ 0x66 ∷ 0 ∷ replicate 12 0;
    index = 0 ∷ [];
    index_size = 1;
  };
  functions = record {
    funcs = f_handle ∷ [];
    funcs_cap = 64;
    func_map = record { capacity = 1; size = 1; elements = some (2, f_handle) ∷ [] };
  };
}

abbrev in_f : Machine
in_f = record caller {
  current = record { frame_pc = 0; stack = []; stack_bytes = 64; locals = 5 ∷ [] };
  callers = caller.current ∷ [];
}

abbrev after_f : Machine
after_f = record in_f {
  current = record { frame_pc = 5; stack = 7 ∷ []; stack_bytes = 64; locals = 5 ∷ [] };
}

finds_f : find_function caller 0 ≡ ok f_handle
unfolding find_function hashmap_get probe_from_hash probe holds_key element string_hash str_eq
finds_f = refl

enters_f : enter_function host f_handle caller ≡ ok in_f
unfolding enter_function
enters_f = refl

runs_f : vm_execute_opcodes host 3 in_f (0x36 ∷ 0 ∷ 0 ∷ 0 ∷ 7 ∷ []) 0 ≡ ok (5, after_f)
unfolding vm_execute_opcodes execute_one execute_iconst
runs_f = refl

run_handler-call_example :
    run_handler host (vm_execute_opcodes host 3) call (0 ∷ 0 ∷ []) caller ≡ ok (3, caller)
unfolding jump_offset
run_handler-call_example =
    run_handler-call host 3 (0 ∷ 0 ∷ []) caller in_f 0 f_handle (5, after_f) refl finds_f enters_f
      runs_f
