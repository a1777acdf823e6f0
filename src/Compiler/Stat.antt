-- ===== src/Compiler/Stat.antt =====
-- src/compiler_stat.c: the code of statements; src/compiler_scope.c: the scopes that they open and the
-- list of statements in a scope.
use phantomshell.Base.{
  ℕ, ◌+◌, ◌-◌, ◌*◌, ◌/◌, ◌%◌, ◌^◌, Bool, true, Option, List, [], ◌∷◌, ◌++◌, length, take, ltb, leb,
  if◌then◌else◌,
}
use phantomshell.Ast.{
  Stat, stat_expr, stat_ret, stat_if, stat_switch, stat_while, Body, null_scope, scope, Stats,
  stats_end, stats_link,
}
use phantomshell.Vm.Opcodes.{opcode, jez, jmp, rjmp}
use phantomshell.Compiler.Scope.{Scope, Compiled, done, panic, undefined, and_then, compiler_emit}
use phantomshell.Compiler.Expr.{compile_expression}

-- The emitter of a scope: one that runs the code at once, or one with pages of so many bytes.
pub data Target : Type 0 where
  unbuffered : Target
  buffered : ℕ → Target

-- Whether a write of so many bytes stays in the free part of the last page and one new page. The source
-- has no such test: it is the guard of the model for the writes that would leave the pages, which are
-- undefined behaviour.
unfoldable pub has_room : Target → ℕ → ℕ → Bool
has_room unbuffered size n = true
has_room (buffered page_size) size n =
    leb (size + n) ((size + (page_size - 1)) / page_size * page_size + page_size)

-- `scope->emitter->emitter_func` on a block of any size; `undefined` is a write past the pages.
unfoldable pub emit_block : Target → List ℕ → Scope → Compiled
unfolding has_room compiler_emit
emit_block target bytes s =
    if has_room target (length s.code) (length bytes) then compiler_emit bytes s else undefined

-- The scope of a branch or of a loop's body, `frame_init_scope` and what follows it. A branch starts at
-- the depth of the stack of its parent, a loop's body at 0.
unfoldable pub inner_scope : ℕ → Scope → Scope
inner_scope stack_size parent = record {
  vars = [];
  vars_cap = parent.vars_cap;
  vars_off = length parent.vars + parent.vars_off;
  vars_max_size = parent.vars_max_size;
  parents = parent.vars ∷ parent.parents;
  stack_size = stack_size;
  stack_max_size = parent.stack_max_size;
  code = [];
}

-- The scope that goes on, with the maxima of the root that the inner scope has raised.
unfoldable pub leave_scope : Scope → Scope → Scope
leave_scope parent inner = record parent {
  vars_max_size = inner.vars_max_size;
  stack_max_size = inner.stack_max_size;
}

abbrev pub uint16_max : ℕ
uint16_max = 65535

-- `htobe16` of the size, behind the opcode.
unfoldable pub jump_over : ℕ → List ℕ
unfolding opcode
jump_over size = opcode jmp ∷ (size % 2 ^ 16 / 2 ^ 8) ∷ (size % 2 ^ 16 % 2 ^ 8) ∷ []

-- The bytes `hi` and `lo` of a jump: the cast to a byte comes before the shift.
unfoldable pub hi_lo : ℕ → List ℕ
hi_lo size = (size % 2 ^ 32 % 2 ^ 8 / 2 ^ 8) ∷ (size % 2 ^ 32 % 2 ^ 8) ∷ []

-- The end of `compile_if_statement`, on the code of the two branches. A false branch that is too large
-- leaves the jump over it out; a true branch that is too large leaves out all code.
unfoldable pub emit_if : Target → List ℕ → List ℕ → Scope → Compiled
unfolding emit_block jump_over hi_lo opcode
emit_if target true_code false_code s =
    let true_all =
      if ltb uint16_max (length false_code)
      then true_code
      else true_code ++ jump_over (length false_code) in
    if ltb uint16_max (length true_all)
    then done 0 s
    else emit_block target (opcode jez ∷ (hi_lo (length true_all) ++ (true_all ++ false_code))) s

-- `compile_if_statement`, for given compilations of the condition and the branches.
unfoldable pub compile_if_statement :
    (Scope → Compiled) → (Scope → Compiled) → (Scope → Compiled) → Target → Scope → Compiled
unfolding and_then inner_scope leave_scope emit_if
compile_if_statement expr true_scope false_scope target start = and_then (expr start) λ s.
    and_then (true_scope (inner_scope s.stack_size s)) λ t.
      and_then (false_scope (inner_scope s.stack_size (leave_scope s t)))
        λ f. emit_if target t.code f.code (leave_scope s f)

-- The end of `compile_while_statement`, on the code of the condition and of the body.
unfoldable pub emit_while : Target → List ℕ → List ℕ → Scope → Compiled
unfolding emit_block hi_lo opcode
emit_while target expr_code body_code s =
    let expr_size = length expr_code in
    let body_size = length body_code in
    let block =
      expr_code
      ++ (opcode jez
          ∷ (hi_lo (body_size + 3)
              ++ (body_code ++ (opcode rjmp ∷ hi_lo (expr_size + body_size + 3 + 3))))) in
    if ltb uint16_max body_size then panic else emit_block target block s

-- `compile_while_statement`. The condition is compiled in the scope itself, to an emitter of its own,
-- and the variables that it has defined are dropped.
unfoldable pub compile_while_statement :
    (Scope → Compiled) → (Scope → Compiled) → Target → Scope → Compiled
unfolding and_then inner_scope leave_scope emit_while
compile_while_statement expr loop_scope target start =
    and_then (expr (record start { code = [] })) λ e.
      let s : Scope = record e { vars = take (length start.vars) e.vars; code = start.code } in
      and_then (loop_scope (inner_scope 0 s)) λ b. emit_while target e.code b.code (leave_scope s b)

-- The pages of the emitters of branches and loop bodies.
abbrev pub branch_page : ℕ
branch_page = 512

-- What the functions of the block share: the functions defined so far, and the fuel for expressions.
unfoldable mutual
  unfolding compile_expression compile_if_statement compile_while_statement and_then

  pub compile_statement : (List ℕ → Option ℕ) → ℕ → Target → Stat → Scope → Compiled
  compile_statement functions fuel target (stat_expr e) s = compile_expression functions fuel e s
  compile_statement functions fuel target (stat_if e t f) s =
      compile_if_statement (compile_expression functions fuel e)
        (compile_scope functions fuel (buffered branch_page) t)
        (compile_scope functions fuel (buffered branch_page) f) target s
  compile_statement functions fuel target (stat_while e b) s =
      compile_while_statement (compile_expression functions fuel e)
        (compile_scope functions fuel (buffered branch_page) b) target s
  compile_statement functions fuel target (stat_ret e) s = panic
  compile_statement functions fuel target (stat_switch e c) s = panic

  -- The null scope has no code. What the statements return is not looked at.
  pub compile_scope : (List ℕ → Option ℕ) → ℕ → Target → Body → Scope → Compiled
  compile_scope functions fuel target null_scope s = done 0 s
  compile_scope functions fuel target (scope stats) s = compile_stats functions fuel target stats s

  pub compile_stats : (List ℕ → Option ℕ) → ℕ → Target → Stats → Scope → Compiled
  compile_stats functions fuel target stats_end s = done 0 s
  compile_stats functions fuel target (stats_link stat rest) s =
      and_then (compile_statement functions fuel target stat s)
        (compile_stats functions fuel target rest)
