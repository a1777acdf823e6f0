-- ===== src/Compiler/Statements.antt =====
-- src/compiler_stat.c and src/compiler_scope.c beside src/vm/vm.c: statements, from the tree to the
-- machine.
use mathlib.Core.List.{append_assoc, append-nil}
use phantomshell.Base.{
  ℕ, ◌+◌, ◌^◌, ◌<◌, ◌≡◌, refl, sym, ◌∙◌, true, Option, List, [], ◌∷◌, ◌++◌, length, take,
}
use phantomshell.Ast.{Expr, Stat, Stats, stats_end, stats_link, scope, stat_if, stat_while, Body}
use phantomshell.Vm.Machine.{Host, Machine}
use phantomshell.Vm.Opcodes.{opcode, jez}
use phantomshell.Compiler.Scope.{Scope, Compiled, done, and_then}
use phantomshell.Compiler.Expr.{compile_expression}
use phantomshell.Compiler.Stat.{
  Target, buffered, has_room, inner_scope, leave_scope, jump_over, compile_if_statement,
  compile_while_statement, branch_page, compile_statement, compile_scope, compile_stats,
}
use phantomshell.Compiler.Moves.{Moves, append-Moves, nothing-Moves}
use phantomshell.Compiler.Branches.{if_code, while_code, Taken, Taken-Moves, Loop, Loop-Moves}
use phantomshell.Compiler.Layout.{emit_if-done, emit_while-done}

-- What a statement compiles to: code behind that of the scope, which takes the machine over itself.
pub record Executes (compiled : Compiled) (host : Host) (start : Scope) (vm vm' : Machine)
    : Type 0 where
  pub left : Scope
  pub code : List ℕ
  pub succeeds : compiled ≡ done 0 left
  pub appended : left.code ≡ start.code ++ code
  pub moves : Moves host code vm vm'

module _ (functions : List ℕ → Option ℕ) (fuel : ℕ) (target : Target) (host : Host) (start : Scope)
    (e : Expr) where
  -- An `if` statement whose condition and branches compile, with less than 253 bytes for the true
  -- branch and less than 65536 for the false one, and with room for its code in the pages of the
  -- emitter: it compiles without an error, and its code takes the machine, wherever it stands, to
  -- where the branch does that the condition's word selects.
  pub if-Executes :
      (t f : Body) (c : List ℕ) (r r_t r_f : ℕ) (s s_t s_f : Scope) (vm tested vm' : Machine)
      (v : ℕ) (stack : List ℕ)
      → compile_expression functions fuel e start ≡ done r s
      → s.code ≡ start.code ++ c
      → compile_scope functions fuel (buffered branch_page) t (inner_scope s.stack_size s)
        ≡ done r_t s_t
      → compile_scope functions fuel
          (buffered branch_page)
          f
          (inner_scope s.stack_size (leave_scope s s_t))
        ≡ done r_f s_f
      → length s_t.code + 3 < 2 ^ 8
      → length s_f.code < 2 ^ 16
      → has_room target (length s.code) (length s_t.code + length s_f.code + 6) ≡ true
      → Moves host c vm tested
      → tested.current.stack ≡ v ∷ stack
      → Taken host s_t.code s_f.code tested v stack vm'
      → Executes (compile_statement functions fuel target (stat_if e t f) start) host start vm vm'
  unfolding compile_statement compile_if_statement and_then leave_scope
  if-Executes t f c r r_t r_f s s_t s_f vm tested vm' v stack compiled appended true_done false_done
        small fits room condition value taken =
      record {
        left = record (leave_scope s s_f) {
          code =
              s.code
              ++ (opcode jez
                  ∷ 0
                  ∷ (length s_t.code + 3)
                  ∷ ((s_t.code ++ jump_over (length s_f.code)) ++ s_f.code));
        };
        code = if_code c s_t.code s_f.code;
        succeeds =
            rw (compiled, true_done, false_done)
              (emit_if-done target s_t.code s_f.code (leave_scope s s_f) small fits room);
        appended = rw appended (append_assoc start.code c _);
        moves = Taken-Moves host c s_t.code s_f.code vm tested v stack condition value fits taken;
      }

  -- A `while` statement whose condition and body compile, of at most 255 bytes with its jumps, and with
  -- room for its code in the pages of the emitter: it compiles without an error, and its code takes the
  -- machine, wherever it stands, over all rounds of a loop that ends.
  pub while-Executes :
      (b : Body) (r r_b : ℕ) (s s_b : Scope) (vm vm' : Machine)
      → compile_expression functions fuel e (record start { code = [] }) ≡ done r s
      → compile_scope functions fuel
          (buffered branch_page)
          b
          (inner_scope 0 (record s { vars = take (length start.vars) s.vars; code = start.code }))
        ≡ done r_b s_b
      → length s.code + length s_b.code + 6 < 2 ^ 8
      → has_room target (length start.code) (length s.code + length s_b.code + 6) ≡ true
      → Loop host s.code s_b.code vm vm'
      → Executes (compile_statement functions fuel target (stat_while e b) start) host start vm vm'
  unfolding compile_statement compile_while_statement and_then leave_scope
  while-Executes b r r_b s s_b vm vm' compiled body_done small room loop =
      let inside : Scope = record s { vars = take (length start.vars) s.vars; code = start.code } in
      record {
        left = record (leave_scope inside s_b) { code = start.code ++ while_code s.code s_b.code };
        code = while_code s.code s_b.code;
        succeeds =
            rw (compiled, body_done)
              (emit_while-done target s.code s_b.code (leave_scope inside s_b) small room);
        appended = refl;
        moves = Loop-Moves host s.code s_b.code loop;
      }

module _ (functions : List ℕ → Option ℕ) (fuel : ℕ) (target : Target) (host : Host)
    (start : Scope) where
  -- The end of a list of statements.
  pub end-Executes :
      (vm : Machine)
      → Executes (compile_stats functions fuel target stats_end start) host start vm vm
  unfolding compile_statement
  end-Executes vm = record {
    left = start;
    code = [];
    succeeds = refl;
    appended = sym (append-nil start.code);
    moves = nothing-Moves host vm;
  }

  -- A list of statements whose first one compiles without an error to code behind that of the scope which
  -- takes the machine over itself, and whose rest does so from the scope and the machine behind the
  -- first: so does the whole list.
  pub link-Executes :
      (stat : Stat) (rest : Stats) (vm mid vm' : Machine)
      (first : Executes (compile_statement functions fuel target stat start) host start vm mid)
      (more : Executes
        (compile_stats functions fuel target rest first.left)
        host
        first.left
        mid
        vm')
      → Executes
          (compile_scope functions fuel target (scope (stats_link stat rest)) start)
          host
          start
          vm
          vm'
  unfolding compile_statement and_then
  link-Executes stat rest vm mid vm' first more = record {
    left = more.left;
    code = first.code ++ more.code;
    succeeds = rw first.succeeds more.succeeds;
    appended = more.appended ∙ (rw first.appended (append_assoc start.code first.code more.code));
    moves = append-Moves host first.code more.code first.moves more.moves;
  }
