-- ===== src/Compiler/StatTests.antt =====
-- Runs of the compiler on statements, and of their code on the machine.
use phantomshell.Base.{
  suc, ℕ, ◌+◌, ◌%◌, ◌^◌, ◌≡◌, refl, inr, some, Option, none, List, [], ◌∷◌, ◌++◌, arith, str_eq,
}
use phantomshell.Emitter.{Emitter, emitter_emit_buffered}
use phantomshell.Emitter.Filled.{IsEmitter}
use phantomshell.Emitter.Writes.{Appends}
use phantomshell.Emitter.Pages.{flatten}
use phantomshell.Emitter.Unbuffered.{emit_unbuffered_all}
use phantomshell.Compiler.AtOnce.{
  Writes, no_writes, one_write, all_rounds, emit_unbuffered_all-Moves,
}
use phantomshell.Compiler.Room.{emitter_emit_buffered-has_room}
use phantomshell.Operator.{assignment, subtraction}
use phantomshell.Ast.{
  literal_int, ident, binary_op, type_unknown, type_int, Stat, stat_expr, stat_if, stat_while, Body,
  null_scope, scope, stats_end, stats_link,
}
use phantomshell.Vm.{ok}
use phantomshell.Vm.Opcodes.{opcode, iload, isave, iconst, isub, handler_at-opcode, jez, rjmp}
use phantomshell.Vm.Handlers.{
  execute_load, execute_save, execute_iconst, execute_binary, binary_on, int_sub, jump_offset,
}
use phantomshell.Vm.Machine.{Machine, run_handler, advance, vm_static_init}
use phantomshell.Vm.Tests.{host}
use phantomshell.Compiler.Scope.{Scope, done, frame_lookup_var_by_name}
use phantomshell.Compiler.Types.{ast_node_trace_data_type}
use phantomshell.Compiler.Stat.{
  has_room, unbuffered, buffered, compile_statement, compile_scope, hi_lo,
}
use phantomshell.Compiler.Moves.{Moves, round-Moves, append-Moves}
use phantomshell.Compiler.Branches.{true_branch, Loop, ends, again}
use phantomshell.Compiler.Statements.{
  Executes, if-Executes, while-Executes, link-Executes, end-Executes,
}
use phantomshell.Compiler.Layout.{hi_lo-jump_offset}

abbrev no_functions : List ℕ → Option ℕ
no_functions name = none

-- A scope with the variable `i`.
abbrev name_i : List ℕ
name_i = b'i' ∷ []

abbrev with_i : Scope
with_i = record {
  vars = record { static_type = type_int; name = name_i; index = 0 } ∷ [];
  vars_cap = 16;
  vars_off = 0;
  vars_max_size = 1;
  parents = [];
  stack_size = 0;
  stack_max_size = 0;
  code = [];
}

-- i = i - 1
abbrev decrement : Stat
decrement = stat_expr (
    binary_op type_unknown assignment (ident type_unknown name_i)
      (binary_op type_unknown subtraction (ident type_unknown name_i) (literal_int 1)))

abbrev body : Body
body = scope (stats_link decrement stats_end)

abbrev load_i : List ℕ
load_i = opcode iload ∷ 0 ∷ []

abbrev decrement_code : List ℕ
decrement_code =
    opcode iload ∷ 0 ∷ opcode iconst ∷ 0 ∷ 0 ∷ 0 ∷ 1 ∷ opcode isub ∷ opcode isave ∷ 0 ∷ []

-- while (i) { i = i - 1 }
while_code_test :
    (s : Scope) × (compile_statement no_functions 9
        (buffered 256)
        (stat_while (ident type_unknown name_i) body)
        with_i
      ≡ done 0 s)
    × (s.code ≡ load_i ++ (opcode jez ∷ 0 ∷ 13 ∷ (decrement_code ++ (opcode rjmp ∷ 0 ∷ 18 ∷ []))))
unfolding compile_statement frame_lookup_var_by_name str_eq ast_node_trace_data_type
while_code_test = (_, refl, refl)

-- The machine at a program counter, with a value of `i` and a stack.
abbrev at : ℕ → ℕ → List ℕ → Machine
at v pc stack = record (vm_static_init host) {
  current = record { frame_pc = pc; stack = stack; stack_bytes = 1024; locals = v ∷ [] };
}

load_i-Moves : (v pc : ℕ) → Moves host load_i (at v pc []) (at v ((pc + 2) % 2 ^ 64) (v ∷ []))
unfolding advance run_handler execute_load
load_i-Moves v pc =
    round-Moves host (opcode iload) (0 ∷ []) (at v pc []) (at v pc (v ∷ []))
      (λ call rest. rw (handler_at-opcode iload) refl)

decrement-Moves : Moves host decrement_code (at 1 5 []) (at 0 15 [])
unfolding advance run_handler execute_load execute_save execute_iconst execute_binary binary_on
    int_sub
decrement-Moves = append-Moves host load_i _ (load_i-Moves 1 5) (
    append-Moves host (opcode iconst ∷ 0 ∷ 0 ∷ 0 ∷ 1 ∷ []) _
      (round-Moves host (opcode iconst) (0 ∷ 0 ∷ 0 ∷ 1 ∷ []) (at 1 7 (1 ∷ [])) (at 1 7 (1 ∷ 1 ∷ []))
        (λ call rest. rw (handler_at-opcode iconst) refl))
      (append-Moves host (opcode isub ∷ []) (opcode isave ∷ 0 ∷ [])
        (round-Moves host (opcode isub) [] (at 1 12 (1 ∷ 1 ∷ [])) (at 1 12 (0 ∷ []))
          (λ call rest. rw (handler_at-opcode isub) refl))
        (round-Moves host (opcode isave) (0 ∷ []) (at 1 13 (0 ∷ [])) (at 0 13 [])
          (λ call rest. rw (handler_at-opcode isave) refl))))

one_round : Loop host load_i decrement_code (at 1 0 []) (at 0 18 [])
unfolding advance
one_round =
    again 1 [] (load_i-Moves 1 0) refl (λ e. absurd (omega arith)) decrement-Moves
      (ends [] (load_i-Moves 0 0) refl)

-- The scopes behind the condition, and behind the body of the loop or of the branch.
abbrev tested_i : Scope
tested_i = record with_i { stack_size = 4; stack_max_size = 4; code = load_i }

abbrev inside : ℕ → ℕ → Scope
inside depth most = record {
  vars = [];
  vars_cap = 16;
  vars_off = 1;
  vars_max_size = 1;
  parents = with_i.vars ∷ [];
  stack_size = depth;
  stack_max_size = most;
  code = decrement_code;
}

while-Executes_example :
    Executes
      (compile_statement no_functions 9
        (buffered 256)
        (stat_while (ident type_unknown name_i) body)
        with_i)
      host
      with_i
      (at 1 0 [])
      (at 0 18 [])
unfolding compile_statement frame_lookup_var_by_name str_eq ast_node_trace_data_type
while-Executes_example =
    while-Executes no_functions 9 (buffered 256) host with_i (ident type_unknown name_i) body 0 0
      tested_i (inside 0 8) (at 1 0 []) (at 0 18 []) refl refl (omega arith) refl one_round

-- if (i) { i = i - 1 }, with no false branch.
if-Executes_example :
    Executes
      (compile_statement no_functions 9 unbuffered
        (stat_if (ident type_unknown name_i) body null_scope)
        with_i)
      host
      with_i
      (at 1 0 [])
      (at 0 18 [])
unfolding compile_statement frame_lookup_var_by_name str_eq ast_node_trace_data_type advance
if-Executes_example =
    if-Executes no_functions 9 unbuffered host with_i (ident type_unknown name_i) body null_scope
      load_i 0 0 0 tested_i (inside 4 12) (record (inside 4 12) { code = [] }) (at 1 0 [])
      (at 1 2 (1 ∷ [])) (at 0 18 []) 1 [] refl refl refl refl (omega arith) (omega arith) refl
      (load_i-Moves 1 0) refl (true_branch (λ e. absurd (omega arith)) decrement-Moves)

loop_run :
    Executes
      (compile_statement no_functions 9 unbuffered
        (stat_while (ident type_unknown name_i) body)
        with_i)
      host
      with_i
      (at 1 0 [])
      (at 0 18 [])
unfolding compile_statement frame_lookup_var_by_name str_eq ast_node_trace_data_type
loop_run =
    while-Executes no_functions 9 unbuffered host with_i (ident type_unknown name_i) body 0 0
      tested_i (inside 0 8) (at 1 0 []) (at 0 18 []) refl refl (omega arith) refl one_round

link-Executes_example :
    Executes
      (compile_scope no_functions 9 unbuffered
        (scope (stats_link (stat_while (ident type_unknown name_i) body) stats_end))
        with_i)
      host
      with_i
      (at 1 0 [])
      (at 0 18 [])
link-Executes_example =
    link-Executes no_functions 9 unbuffered host with_i
      (stat_while (ident type_unknown name_i) body) stats_end (at 1 0 []) (at 0 18 []) (at 0 18 [])
      loop_run (end-Executes no_functions 9 unbuffered host loop_run.left (at 0 18 []))

abbrev two_writes : Writes host (decrement_code ∷ load_i ∷ []) (at 1 5 []) (at 0 17 (0 ∷ []))
two_writes =
    one_write decrement-Moves (omega arith) (one_write (load_i-Moves 0 15) (omega arith) no_writes)

emit_unbuffered_all-Moves_example :
    (emit_unbuffered_all host
        (suc (all_rounds two_writes))
        (decrement_code ∷ load_i ∷ [])
        (at 1 5 [])
      ≡ ok (at 0 17 (0 ∷ [])))
    × Moves host (flatten (decrement_code ∷ load_i ∷ [])) (at 1 5 []) (at 0 17 (0 ∷ []))
emit_unbuffered_all-Moves_example =
    emit_unbuffered_all-Moves host (decrement_code ∷ load_i ∷ []) (at 1 5 []) (at 0 17 (0 ∷ []))
      two_writes (suc (all_rounds two_writes)) (omega arith)

abbrev one_byte : Emitter
one_byte = record {
  earlier = [];
  last_page = some (9 ∷ 0 ∷ []);
  size = 1;
  capacity = 2;
  page_size = 2;
}

one_byte-IsEmitter : IsEmitter one_byte
one_byte-IsEmitter = (
  omega arith,
  inr (
    9 ∷ 0 ∷ [],
    1,
    record {
      has_page = refl;
      pages = tt;
      width = refl;
      filled = refl;
      within = omega arith;
      room = refl;
    },
  ),
)

emitter_emit_buffered-has_room_example :
    (e : Emitter) × (emitter_emit_buffered one_byte (7 ∷ 8 ∷ 5 ∷ []) ≡ some e)
    × Appends one_byte (7 ∷ 8 ∷ 5 ∷ []) e
unfolding has_room
emitter_emit_buffered-has_room_example =
    emitter_emit_buffered-has_room one_byte (7 ∷ 8 ∷ 5 ∷ []) one_byte-IsEmitter refl

hi_lo-jump_offset_example : jump_offset (hi_lo 259 ++ []) ≡ ok (259 % 2 ^ 8)
hi_lo-jump_offset_example = hi_lo-jump_offset 259 []
