-- ===== src/Vm/Machine.antt =====
-- src/vm/vm.c: the whole machine, `vm_execute_opcode_call`, the loop `vm_execute_opcodes` and
-- `vm_static_init`. A program counter is an `int64_t`, kept modulo 2 ^ 64: the loop's test compares
-- it as unsigned with the size of the code.
use mathlib.Core.List.{reverse}
use phantomshell.Base.{
  ℕ, zero, suc, ◌+◌, ◌/◌, ◌%◌, ◌^◌, none, some, List, [], ◌∷◌, ◌++◌, ltb, ◌==◌, if◌then◌else◌,
  length, take, drop,
}
use phantomshell.Hashmap.{hashmap_get, initial_map_cap, empty_table}
use phantomshell.Vm.{
  Frame, FloatUnit, Run, ok, fault, stuck, ◌>>=◌, stack_underflow, local_out_of_range,
  call_stack_overflow, panic,
}
use phantomshell.Vm.Opcodes.{
  Handler, iload, isave, fload, fsave, iconst, fconst, iadd, isub, imul, idiv, i2f, ieq, ineq, ilt,
  ingt, igt, inlt, fadd, fsub, fmul, fdiv, jmp, rjmp, jez, jnez, call, panic_handler, handler_at,
}
use phantomshell.Vm.Handlers.{
  Step, execute_save, execute_load, execute_iconst, execute_fconst, execute_binary, execute_i2f,
  execute_jez, execute_jnez, execute_jmp, execute_rjmp, int_add, int_sub, int_mul, int_div, int_eq,
  int_ne, int_lt, int_le, int_gt, int_ge, jump_offset,
}
use phantomshell.Vm.Pool.{
  ConstPool, FuncHandle, Functions, string_at, byte_at, offset_of, global_const_pool_initial_size,
  global_const_pool_initial_capacity, global_functions_count_increment,
}

-- `current_frame`, the frames below it in `call_stack`, and the two global tables.
pub record Machine : Type 0 where
  pub current : Frame
  pub callers : List Frame
  pub consts : ConstPool
  pub functions : Functions

abbrev pub call_stack_max_size : ℕ
call_stack_max_size = 128

abbrev pub global_variables_capacity : ℕ
global_variables_capacity = 1024

abbrev pub global_stack_capacity : ℕ
global_stack_capacity = 1024

-- What the machine takes from outside: floating point, and the words, or the bytes, that a `malloc` of so
-- many bytes leaves in its block.
pub record Host : Type 0 where
  pub fpu : FloatUnit
  pub fresh : ℕ → List ℕ
  pub fresh_bytes : ℕ → List ℕ

-- The function with the signature that stands in the pool at this index; a panic if there is none.
unfoldable pub find_function : Machine → ℕ → Run FuncHandle
unfolding offset_of string_at
find_function vm h_index = do
  pool_offset ← offset_of vm.consts h_index
  elim (hashmap_get (string_at vm.consts.pool) vm.functions.func_map (pool_offset + 2)).1 [
    | none ↦ fault panic
    | some handle ↦ ok handle
  ]

-- The frame of a call: the arguments are copied from the top of the caller's stack, where they stay.
unfoldable pub enter_function : Host → FuncHandle → Machine → Run Machine
enter_function host handle vm =
    let args = handle.arg_size / 4 in
    let vars = host.fresh handle.vars_size in
    if ltb (length vm.current.stack) args
    then fault stack_underflow
    else if ltb (length vars) args
    then fault local_out_of_range
    else if length vm.callers + 1 == call_stack_max_size
    then fault call_stack_overflow
    else ok (record vm {
      current = record {
        frame_pc = 0;
        stack = [];
        stack_bytes = handle.stack_size;
        locals = reverse (take args vm.current.stack) ++ drop args vars;
      };
      callers = vm.current ∷ vm.callers;
    })

-- The blocks are freed and `current_frame` is counted down.
unfoldable pub leave_function : Machine → Run Machine
leave_function vm = elim vm.callers [
  | [] ↦ fault stack_underflow
  | below ∷ rest ↦ ok (record vm { current = below; callers = rest })
]

-- A handler that works on the current frame alone.
abbrev pub on_frame : Step → List ℕ → Machine → Run (ℕ × Machine)
on_frame step operands vm = step vm.current operands >>= λ r. ok (r.0, record vm { current = r.1 })

-- `vm_execute_opcode_call`, for a given `vm_execute_opcodes`.
unfoldable pub execute_call :
    Host → (Machine → List ℕ → ℕ → Run (ℕ × Machine)) → List ℕ → Machine → Run (ℕ × Machine)
unfolding jump_offset find_function enter_function leave_function
execute_call host run operands vm = do
  h_index ← jump_offset operands
  handle ← find_function vm h_index
  inside ← enter_function host handle vm
  (_, returned) ← run inside (drop 4 handle.bytecode_data) 0
  left ← leave_function returned
  ok (3, left)

-- The functions of the table.
unfoldable pub run_handler :
    Host
    → (Machine → List ℕ → ℕ → Run (ℕ × Machine))
    → Handler
    → List ℕ
    → Machine
    → Run (ℕ × Machine)
unfolding execute_call execute_save execute_load execute_iconst execute_fconst execute_binary
    execute_i2f execute_jez execute_jnez execute_jmp execute_rjmp int_add int_sub int_mul int_div
    int_eq int_ne int_lt int_le int_gt int_ge
run_handler host run isave = on_frame execute_save
run_handler host run iload = on_frame execute_load
run_handler host run iconst = on_frame execute_iconst
run_handler host run iadd = on_frame (execute_binary int_add)
run_handler host run isub = on_frame (execute_binary int_sub)
run_handler host run imul = on_frame (execute_binary int_mul)
run_handler host run idiv = on_frame (execute_binary int_div)
run_handler host run ieq = on_frame (execute_binary int_eq)
run_handler host run ineq = on_frame (execute_binary int_ne)
run_handler host run ilt = on_frame (execute_binary int_lt)
run_handler host run igt = on_frame (execute_binary int_gt)
run_handler host run inlt = on_frame (execute_binary int_ge)
run_handler host run ingt = on_frame (execute_binary int_le)
run_handler host run i2f = on_frame (execute_i2f host.fpu)
run_handler host run fsave = on_frame execute_save
run_handler host run fload = on_frame execute_load
run_handler host run fconst = on_frame execute_fconst
run_handler host run fadd = on_frame (execute_binary (λ a b. ok (host.fpu.add a b)))
run_handler host run fsub = on_frame (execute_binary (λ a b. ok (host.fpu.sub a b)))
run_handler host run fmul = on_frame (execute_binary (λ a b. ok (host.fpu.mul a b)))
run_handler host run fdiv = on_frame (execute_binary (λ a b. ok (host.fpu.div a b)))
run_handler host run jez = on_frame execute_jez
run_handler host run jnez = on_frame execute_jnez
run_handler host run jmp = on_frame execute_jmp
run_handler host run rjmp = on_frame execute_rjmp
run_handler host run call = execute_call host run
run_handler host run panic_handler = on_frame (λ frame operands. fault panic)

-- `current_frame->frame_pc += res`.
unfoldable pub advance : ℕ → Machine → Machine
advance res vm =
    let frame = vm.current in
    record vm { current = record frame { frame_pc = (frame.frame_pc + res) % 2 ^ 64 } }

-- One round of the loop, for a given `vm_execute_opcodes`: the new program counter and machine.
unfoldable pub execute_one :
    Host → (Machine → List ℕ → ℕ → Run (ℕ × Machine)) → Machine → List ℕ → ℕ → Run (ℕ × Machine)
unfolding byte_at handler_at run_handler advance
execute_one host run vm bytes pc = do
  opcode ← byte_at bytes pc
  (res, vm') ← run_handler host run (handler_at opcode) (drop (pc + 1) bytes) vm
  ok ((pc + res) % 2 ^ 64, advance res vm')

-- The loop, from a program counter; fuel bounds the instructions and the depth of the calls.
unfoldable pub vm_execute_opcodes : Host → ℕ → Machine → List ℕ → ℕ → Run (ℕ × Machine)
vm_execute_opcodes host zero vm bytes pc = stuck
vm_execute_opcodes host (suc fuel) vm bytes pc =
    let rest = execute_one host (vm_execute_opcodes host fuel) vm bytes pc >>= λ r.
    vm_execute_opcodes host fuel r.1 bytes r.0 in
    if ltb pc (length bytes) then rest else ok (pc, vm)

-- The state after `vm_static_init`, where its allocations succeed.
unfoldable pub vm_static_init : Host → Machine
vm_static_init host = record {
  current = record {
    frame_pc = 0;
    stack = [];
    stack_bytes = global_stack_capacity;
    locals = host.fresh global_variables_capacity;
  };
  callers = [];
  consts = record {
    pool = host.fresh_bytes global_const_pool_initial_size;
    size = 0;
    cap = global_const_pool_initial_size;
    index = [];
    index_size = 0;
    index_cap = global_const_pool_initial_capacity;
  };
  functions = record {
    funcs = [];
    funcs_cap = global_functions_count_increment;
    func_map = empty_table initial_map_cap;
  };
}
