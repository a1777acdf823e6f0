-- ===== src/Compiler/Tests.antt =====
-- Runs of the compiler and of its code on the machine.
use phantomshell.Base.{
  str_eq_refl, str_eq, inl, ℕ, ◌+◌, ◌*◌, ◌^◌, ◌<◌, ◌≤◌, ◌≡◌, ◌≢◌, refl, Option, none, some, List,
  [], ◌∷◌, ◌++◌, length, arith, true,
}
use phantomshell.Base.Int.{pos_part, neg_part}
use phantomshell.Operator.{comma, function_call}
use phantomshell.Ast.{type_unknown, type_int, literal_int, ident, group, binary_op}
use phantomshell.Vm.{Frame, ok, ◌>>=◌}
use phantomshell.Vm.Opcodes.{opcode, iconst, jmp, rjmp}
use phantomshell.Vm.Handlers.{execute_iconst, execute_jmp, jump_offset, int_sub, int_mul}
use phantomshell.Vm.Machine.{Machine, vm_static_init, vm_execute_opcodes, run_handler}
use phantomshell.Vm.Effect.{Keeps, IsFrame, AllBytes}
use phantomshell.Vm.Tests.{no_floats, host}
use phantomshell.Compiler.StackMap.{stack_inc}
use phantomshell.Compiler.StackEffect.{IsFloatUnit, run_handler-stack_inc, jump-stack_inc}
use phantomshell.Compiler.Scope.{
  Scope, ScopeVar, done, panic, frame_lookup_var_by_name, frame_define_var,
  frame_increment_stack_size,
}
use phantomshell.Compiler.Expr.{be32, compile_expression}
use phantomshell.Compiler.Integer.{
  IntExpr, handler, lit, paren, op, sub, mul, div, tree, eval, code_of, nodes, steps,
}
use phantomshell.Compiler.Emission.{extend, compile-extend}
use phantomshell.Compiler.Calls.{three_arguments-panic}
use phantomshell.Compiler.Variables.{frame_define_var-lookup}
use phantomshell.Hashmap.{hashmap_get, map_ok, empty_table, initial_map_cap}
use phantomshell.Hashmap.Tests.{text, always, x, one_entry, put_x, start-IsGood, get_missing}
use phantomshell.Compiler.ConstMap.{
  ConstMap, indexed, written, const_pool_register_value, const_pool_index_by_value,
  const_pool_register-index,
}
use phantomshell.Compiler.Correct.{after, compile-done, compile-run}

abbrev start : Scope
start = record {
  vars = [];
  vars_cap = 16;
  vars_off = 0;
  vars_max_size = 0;
  parents = [];
  stack_size = 0;
  stack_max_size = 0;
  code = [];
}

abbrev no_functions : List ℕ → Option ℕ
no_functions name = none

-- (9 - 2) * 3
abbrev product : IntExpr
product = op mul (paren (op sub (lit 9) (lit 2))) (lit 3)

-- 1 / 0
abbrev trap : IntExpr
trap = op div (lit 1) (lit 0)

product_value : eval product ≡ ok 21
unfolding eval int_sub int_mul
product_value = refl

enough_fuel : nodes product ≤ 6
unfolding nodes
enough_fuel = omega arith

no_wrap : start.stack_size + 4 * nodes product < 2 ^ 64
unfolding nodes
no_wrap = omega arith

start_depth : start.stack_size ≡ 4 * length (vm_static_init host).current.stack
unfolding vm_static_init
start_depth = refl

fits : (extend product start).stack_max_size ≤ (vm_static_init host).current.stack_bytes
unfolding extend vm_static_init stack_inc frame_increment_stack_size be32 opcode handler
fits = omega arith

short : length (extend product start).code < 2 ^ 64
unfolding extend frame_increment_stack_size be32
short = omega arith

compile-done_example :
    (scope' : Scope) × (compile_expression no_functions 6 (tree type_unknown product) start
      ≡ done 0 scope')
    × (scope'.code ≡ start.code ++ code_of product)
    × (scope'.stack_size ≡ start.stack_size + 4)
compile-done_example = compile-done no_functions 6 product start enough_fuel no_wrap

compile-run_example :
    vm_execute_opcodes host (steps product + 1) (vm_static_init host) (extend product start).code 0
    ≡ (eval product >>= λ v. ok (
      length (extend product start).code,
      after
          (length (extend product start).code)
          (v ∷ (vm_static_init host).current.stack)
          (vm_static_init host),
    ))
compile-run_example =
    compile-run no_functions host 6 product start (extend product start) (vm_static_init host)
      enough_fuel (compile-extend no_functions 6 product start enough_fuel).0 refl start_depth
      no_wrap fits short

-- The frame that `iconst` starts in, and the one that it leaves for the bytes 0 0 0 7.
abbrev bare : Frame
bare = record { frame_pc = 0; stack = []; stack_bytes = 16; locals = [] }

abbrev with_seven : Frame
with_seven = record { frame_pc = 0; stack = 7 ∷ []; stack_bytes = 16; locals = [] }

no_floats-IsFloatUnit : IsFloatUnit no_floats
no_floats-IsFloatUnit = record {
  of_int_lt = λ w. omega arith;
  add_lt = λ a b. omega arith;
  sub_lt = λ a b. omega arith;
  mul_lt = λ a b. omega arith;
  div_lt = λ a b. omega arith;
}

bare-IsFrame : IsFrame bare
bare-IsFrame = record { fits = omega arith; stack_words = tt; local_words = tt }

seven : AllBytes (0 ∷ 0 ∷ 0 ∷ 7 ∷ [])
seven = (omega arith, (omega arith, (omega arith, (omega arith, tt))))

-- The machine in these two frames.
abbrev in_frame : Frame → Machine
in_frame f = record (vm_static_init host) { current = f }

runs :
    run_handler host (vm_execute_opcodes host 1) iconst (0 ∷ 0 ∷ 0 ∷ 7 ∷ []) (in_frame bare)
    ≡ ok (5, in_frame with_seven)
unfolding run_handler execute_iconst
runs = refl

iconst≢jmp : iconst ≢ jmp
iconst≢jmp h = ground arith

iconst≢rjmp : iconst ≢ rjmp
iconst≢rjmp h = ground arith

run_handler-stack_inc_example :
    Keeps bare with_seven
    × (4 * length with_seven.stack + neg_part (stack_inc (opcode iconst))
        ≡ 4 * length bare.stack + pos_part (stack_inc (opcode iconst)))
run_handler-stack_inc_example =
    run_handler-stack_inc host no_floats-IsFloatUnit 1 (0 ∷ 0 ∷ 0 ∷ 7 ∷ []) (in_frame bare)
      (in_frame with_seven) 5 bare-IsFrame seven iconst iconst≢jmp iconst≢rjmp runs

-- f(1, 2, 3)
three_arguments-panic_example :
    compile_expression no_functions 2
      (binary_op type_unknown function_call (ident type_unknown (0x66 ∷ [])) (
        group type_unknown (
          binary_op type_unknown comma
            (binary_op type_unknown comma (literal_int 1) (literal_int 2))
            (literal_int 3))))
      start
    ≡ panic
three_arguments-panic_example =
    three_arguments-panic no_functions 0 type_unknown type_unknown type_unknown type_unknown
      type_unknown (0x66 ∷ []) (literal_int 1) (literal_int 2) (literal_int 3) start

-- The variable `n` and the scope with it.
abbrev n_var : ScopeVar
n_var = record { static_type = type_int; name = 0x6e ∷ []; index = 0 }

abbrev with_n : Scope
with_n = record start { vars = n_var ∷ []; vars_max_size = 1 }

not_yet : frame_lookup_var_by_name start (0x6e ∷ []) ≡ none
unfolding frame_lookup_var_by_name
not_yet = refl

define_n : frame_define_var start type_int (0x6e ∷ []) ≡ some (n_var, with_n)
unfolding frame_define_var
define_n = refl

frame_define_var-lookup_example :
    (frame_lookup_var_by_name with_n (0x6e ∷ []) ≡ some n_var)
    × (n_var.static_type ≡ type_int)
    × ((q : List ℕ) (w : ScopeVar)
        → frame_lookup_var_by_name start q ≡ some w
        → frame_lookup_var_by_name with_n q ≡ some w)
    × (n_var.index < with_n.vars_max_size)
frame_define_var-lookup_example =
    frame_define_var-lookup start with_n type_int (0x6e ∷ []) n_var not_yet define_n

jumped :
    run_handler host (vm_execute_opcodes host 1) jmp (0 ∷ 4 ∷ []) (in_frame bare)
    ≡ ok (7, in_frame bare)
unfolding run_handler execute_jmp jump_offset
jumped = refl

jump_bytes : AllBytes (0 ∷ 4 ∷ [])
jump_bytes = (omega arith, (omega arith, tt))

jump-stack_inc_example :
    Keeps bare bare
    × (4 * length bare.stack ≡ 4 * length bare.stack)
    × (neg_part (stack_inc (opcode jmp)) ≡ 2)
jump-stack_inc_example =
    jump-stack_inc host no_floats-IsFloatUnit 1 (0 ∷ 4 ∷ []) (in_frame bare) (in_frame bare) 7
      bare-IsFrame jump_bytes jmp (inl refl) jumped

-- Seven constants are counted, and "x" comes next.
abbrev seven_counted : ConstMap (List ℕ)
seven_counted = record {
  const_pool_map = some (empty_table initial_map_cap);
  const_pool_map_size = 7;
}

unknown : written text always (hashmap_get text (empty_table {V = ℕ} initial_map_cap) x).1 ≡ 0
unknown = rw get_missing refl

same_text : str_eq x x ≡ true
same_text = str_eq_refl x

const_pool_register-index_example :
    (p' : ConstMap (List ℕ)) × (const_pool_register_value text always 1 seven_counted x
      ≡ indexed map_ok (some 7) p')
    × (const_pool_index_by_value text always p' x ≡ indexed map_ok (some 7) p')
const_pool_register-index_example =
    const_pool_register-index text always 1 seven_counted (empty_table initial_map_cap) one_entry x
      x refl start-IsGood (omega arith) unknown put_x same_text
