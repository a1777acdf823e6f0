-- ===== src/Compiler/Depth.antt =====
-- src/compiler_scope.c: the depth of the stack that the compiler counts while it emits an expression.
use phantomshell.Base.{ℕ, ◌+◌, ◌*◌, ◌^◌, ◌≤◌, ◌<◌, ◌≡◌, refl, List, [], arith}
use phantomshell.Base.Int.{pos, negsuc}
use phantomshell.Vm.Opcodes.{opcode, iconst}
use phantomshell.Compiler.StackMap.{stack_inc}
use phantomshell.Compiler.Scope.{Scope, frame_increment_stack_size}
use phantomshell.Compiler.Expr.{be32}
use phantomshell.Compiler.Integer.{IntOp, add, IntExpr, lit, paren, op, handler, nodes, depth}
use phantomshell.Compiler.Emission.{emitted, extend}

iconst-stack_inc : stack_inc (opcode iconst) ≡ pos 4
unfolding stack_inc opcode
iconst-stack_inc = refl

handler-stack_inc : (o : IntOp) → stack_inc (opcode (handler o)) ≡ negsuc 3
unfolding stack_inc opcode handler
handler-stack_inc add = refl
handler-stack_inc _ = refl

-- A word more on the stack, or one less.
emitted-push :
    (code : ℕ) (operands : List ℕ) (scope : Scope)
    → stack_inc code ≡ pos 4
    → scope.stack_size + 4 < 2 ^ 64
    → ((emitted code operands scope).stack_size ≡ scope.stack_size + 4)
      × (scope.stack_size + 4 ≤ (emitted code operands scope).stack_max_size)
      × (scope.stack_max_size ≤ (emitted code operands scope).stack_max_size)
unfolding emitted frame_increment_stack_size
emitted-push code operands scope e small = rw e (omega arith, ground arith, ground arith)

emitted-pop :
    (code : ℕ) (operands : List ℕ) (scope : Scope) (n : ℕ)
    → stack_inc code ≡ negsuc 3
    → scope.stack_size ≡ n + 4
    → n + 4 < 2 ^ 64
    → ((emitted code operands scope).stack_size ≡ n)
      × (scope.stack_max_size ≤ (emitted code operands scope).stack_max_size)
unfolding emitted frame_increment_stack_size
emitted-pop code operands scope n e h small = rw e (omega arith, ground arith)

nodes-pos : (e : IntExpr) → 1 ≤ nodes e
unfolding nodes
nodes-pos (lit n) = omega arith
nodes-pos (paren e) = omega arith
nodes-pos (op o l r) = omega arith

-- The code of an expression leaves one word more on the stack, and the greatest depth counted
-- is at least the one that it needs.
pub extend-depth :
    (e : IntExpr) (scope : Scope)
    → scope.stack_size + 4 * nodes e < 2 ^ 64
    → ((extend e scope).stack_size ≡ scope.stack_size + 4)
      × (scope.stack_size + 4 * depth e ≤ (extend e scope).stack_max_size)
      × (scope.stack_max_size ≤ (extend e scope).stack_max_size)
unfolding extend depth nodes
extend-depth (lit n) scope small =
    emitted-push (opcode iconst) (be32 n) scope iconst-stack_inc (omega arith)
extend-depth (paren e) scope small = extend-depth e scope (omega arith)
extend-depth (op o l r) scope small =
    let left = extend-depth l scope (omega (arith, nodes-pos r)) in
    let right = extend-depth r (extend l scope) (omega (arith, left, nodes-pos l)) in
    let last =
      emitted-pop (opcode (handler o)) [] (extend r (extend l scope)) (scope.stack_size + 4)
        (handler-stack_inc o) (omega (arith, left, right))
        (omega (arith, nodes-pos l, nodes-pos r)) in
    (last.0, ground (arith, left, right, last), omega (arith, left, right, last))
