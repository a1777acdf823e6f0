-- ===== src/Compiler/StackEffect.antt =====
-- src/compiler.c beside src/vm/vm.c: the table of stack increments and the handlers.
use phantomshell.Base.{
  ℕ, ◌+◌, ◌*◌, ◌^◌, ◌<◌, ◌≡◌, ◌≢◌, refl, ap, ◌∙◌, ◌⊎◌, inl, inr, List, arith, length, Bool-cases,
}
use phantomshell.Base.Int.{word32-lt, tdiv, signed32, ltb_ℤ, pos_part, neg_part}
use phantomshell.Vm.{Run, FloatUnit, ok, ok-injective, ok-pair, >>=-eq-ok}
use phantomshell.Vm.Machine.{Host, Machine, on_frame, run_handler, vm_execute_opcodes}
use phantomshell.Vm.Calls.{call_leaves}
use phantomshell.Vm.Opcodes.{
  Handler, iload, isave, fload, fsave, iconst, fconst, iadd, isub, imul, idiv, i2f, ieq, ineq, ilt,
  ingt, igt, inlt, fadd, fsub, fmul, fdiv, jmp, rjmp, jez, jnez, call, panic_handler, opcode,
}
use phantomshell.Vm.Handlers.{
  Step, execute_save, execute_load, execute_iconst, execute_fconst, execute_binary, execute_i2f,
  execute_jez, execute_jnez, execute_jmp, execute_rjmp, int_add, int_sub, int_mul, int_div, int_eq,
  int_ne, int_lt, int_le, int_gt, int_ge,
}
use phantomshell.Vm.Effect.{AllBytes, IsFrame, Keeps}
use phantomshell.Vm.Handled.{
  save-handler, load-handler, binary-handler, iconst-handler, fconst-handler, i2f-handler,
  jez-handler, jnez-handler, jmp-handler, rjmp-handler,
}
use phantomshell.Compiler.StackMap.{stack_inc}

-- The floating-point instructions give bit patterns of 32 bits.
pub record IsFloatUnit (fpu : FloatUnit) : Type 0 where
  pub of_int_lt : (w : ℕ) → fpu.of_int w < 2 ^ 32
  pub add_lt : (a b : ℕ) → fpu.add a b < 2 ^ 32
  pub sub_lt : (a b : ℕ) → fpu.sub a b < 2 ^ 32
  pub mul_lt : (a b : ℕ) → fpu.mul a b < 2 ^ 32
  pub div_lt : (a b : ℕ) → fpu.div a b < 2 ^ 32

int_add-lt : (a b c : ℕ) → a < 2 ^ 32 → b < 2 ^ 32 → int_add a b ≡ ok c → c < 2 ^ 32
unfolding int_add
int_add-lt a b c p q h = ground arith

int_sub-lt : (a b c : ℕ) → a < 2 ^ 32 → b < 2 ^ 32 → int_sub a b ≡ ok c → c < 2 ^ 32
unfolding int_sub
int_sub-lt a b c p q h = ground arith

int_mul-lt : (a b c : ℕ) → a < 2 ^ 32 → b < 2 ^ 32 → int_mul a b ≡ ok c → c < 2 ^ 32
unfolding int_mul
int_mul-lt a b c p q h = ground arith

int_div-lt : (a b c : ℕ) → a < 2 ^ 32 → b < 2 ^ 32 → int_div a b ≡ ok c → c < 2 ^ 32
unfolding int_div
int_div-lt a b c p q h = ground (arith, word32-lt (tdiv (signed32 a) (signed32 b)))

int_eq-lt : (a b c : ℕ) → a < 2 ^ 32 → b < 2 ^ 32 → int_eq a b ≡ ok c → c < 2 ^ 32
unfolding int_eq
int_eq-lt a b c p q h = ground arith

int_ne-lt : (a b c : ℕ) → a < 2 ^ 32 → b < 2 ^ 32 → int_ne a b ≡ ok c → c < 2 ^ 32
unfolding int_ne
int_ne-lt a b c p q h = ground arith

int_lt-lt : (a b c : ℕ) → a < 2 ^ 32 → b < 2 ^ 32 → int_lt a b ≡ ok c → c < 2 ^ 32
unfolding int_lt
int_lt-lt a b c p q h = elim (Bool-cases (ltb_ℤ (signed32 a) (signed32 b))) [
  | inl t ↦ ground (arith, t)
  | inr t ↦ ground (arith, t)
]

int_le-lt : (a b c : ℕ) → a < 2 ^ 32 → b < 2 ^ 32 → int_le a b ≡ ok c → c < 2 ^ 32
unfolding int_le
int_le-lt a b c p q h = elim (Bool-cases (ltb_ℤ (signed32 b) (signed32 a))) [
  | inl t ↦ ground (arith, t)
  | inr t ↦ ground (arith, t)
]

int_gt-lt : (a b c : ℕ) → a < 2 ^ 32 → b < 2 ^ 32 → int_gt a b ≡ ok c → c < 2 ^ 32
unfolding int_gt
int_gt-lt a b c p q h = elim (Bool-cases (ltb_ℤ (signed32 b) (signed32 a))) [
  | inl t ↦ ground (arith, t)
  | inr t ↦ ground (arith, t)
]

int_ge-lt : (a b c : ℕ) → a < 2 ^ 32 → b < 2 ^ 32 → int_ge a b ≡ ok c → c < 2 ^ 32
unfolding int_ge
int_ge-lt a b c p q h = elim (Bool-cases (ltb_ℤ (signed32 a) (signed32 b))) [
  | inl t ↦ ground (arith, t)
  | inr t ↦ ground (arith, t)
]

framed :
    (step : Step) (ops : List ℕ) (vm vm' : Machine) (res : ℕ)
    → on_frame step ops vm ≡ ok (res, vm')
    → step vm.current ops ≡ ok (res, vm'.current)
framed step ops vm vm' res e =
    let (r, ran, done) = >>=-eq-ok (step vm.current ops) _ e in
    let (same, after) = ok-pair done in
    let frame : r.1 ≡ vm'.current = ap (λ (m : Machine). m.current) after in
    ran ∙ (λ i. ok (same i, frame i))

module _ (host : Host) (small : IsFloatUnit host.fpu) (fuel : ℕ) (ops : List ℕ) (vm vm' : Machine)
    (res : ℕ) (g : IsFrame vm.current) (bs : AllBytes ops) where
  -- What a handler with an effect on the frame alone leaves.
  abbrev Leaves : ℕ → ℕ → Type 0
  Leaves off on =
      Keeps vm.current vm'.current
      × (4 * length vm'.current.stack + off ≡ 4 * length vm.current.stack + on)

  binary-Leaves :
      (op : ℕ → ℕ → Run ℕ)
      → ((a b c : ℕ) → a < 2 ^ 32 → b < 2 ^ 32 → op a b ≡ ok c → c < 2 ^ 32)
      → on_frame (execute_binary op) ops vm ≡ ok (res, vm')
      → Leaves 4 0
  binary-Leaves op op_lt e =
      let x =
        binary-handler vm.current vm'.current ops res g op op_lt
          (framed (execute_binary op) ops vm vm' res e) in
      (x.keeps, omega (arith, x.moved))

  float-Leaves :
      (op : ℕ → ℕ → ℕ)
      → ((a b : ℕ) → op a b < 2 ^ 32)
      → on_frame (execute_binary (λ a b. ok (op a b))) ops vm ≡ ok (res, vm')
      → Leaves 4 0
  float-Leaves op op_lt =
      binary-Leaves (λ a b. ok (op a b)) (λ a b c p q h. rw (← ok-injective h) (op_lt a b))

  load-Leaves : on_frame execute_load ops vm ≡ ok (res, vm') → Leaves 0 4
  load-Leaves e =
      let x =
        load-handler vm.current vm'.current ops res g (framed execute_load ops vm vm' res e) in
      (x.keeps, omega (arith, x.moved))

  save-Leaves : on_frame execute_save ops vm ≡ ok (res, vm') → Leaves 4 0
  save-Leaves e =
      let x =
        save-handler vm.current vm'.current ops res g (framed execute_save ops vm vm' res e) in
      (x.keeps, omega (arith, x.moved))

  -- A handler other than the two jumps `jmp` and `rjmp`, the call of a function among them, run in a machine
  -- whose current frame is in order, on operands that are bytes: if it returns, the current frame is in
  -- order again in the same allocations, and its stack has moved by the number of bytes that the
  -- compiler's table states.
  pub run_handler-stack_inc :
      (h : Handler)
      → h ≢ jmp
      → h ≢ rjmp
      → run_handler host (vm_execute_opcodes host fuel) h ops vm ≡ ok (res, vm')
      → Keeps vm.current vm'.current
        × (4 * length vm'.current.stack + neg_part (stack_inc (opcode h))
            ≡ 4 * length vm.current.stack + pos_part (stack_inc (opcode h)))
  unfolding run_handler opcode stack_inc
  run_handler-stack_inc iload nj nr e = load-Leaves e
  run_handler-stack_inc isave nj nr e = save-Leaves e
  run_handler-stack_inc fload nj nr e = load-Leaves e
  run_handler-stack_inc fsave nj nr e = save-Leaves e
  run_handler-stack_inc iconst nj nr e =
      let x =
        iconst-handler vm.current vm'.current ops res g bs
          (framed execute_iconst ops vm vm' res e) in
      (x.keeps, omega (arith, x.moved))
  run_handler-stack_inc fconst nj nr e =
      let x =
        fconst-handler vm.current vm'.current ops res g bs
          (framed execute_fconst ops vm vm' res e) in
      (x.keeps, omega (arith, x.moved))
  run_handler-stack_inc iadd nj nr e = binary-Leaves int_add int_add-lt e
  run_handler-stack_inc isub nj nr e = binary-Leaves int_sub int_sub-lt e
  run_handler-stack_inc imul nj nr e = binary-Leaves int_mul int_mul-lt e
  run_handler-stack_inc idiv nj nr e = binary-Leaves int_div int_div-lt e
  run_handler-stack_inc i2f nj nr e =
      let x =
        i2f-handler vm.current vm'.current ops res g host.fpu small.of_int_lt
          (framed (execute_i2f host.fpu) ops vm vm' res e) in
      (x.keeps, omega (arith, x.moved))
  run_handler-stack_inc ieq nj nr e = binary-Leaves int_eq int_eq-lt e
  run_handler-stack_inc ineq nj nr e = binary-Leaves int_ne int_ne-lt e
  run_handler-stack_inc ilt nj nr e = binary-Leaves int_lt int_lt-lt e
  run_handler-stack_inc ingt nj nr e = binary-Leaves int_le int_le-lt e
  run_handler-stack_inc igt nj nr e = binary-Leaves int_gt int_gt-lt e
  run_handler-stack_inc inlt nj nr e = binary-Leaves int_ge int_ge-lt e
  run_handler-stack_inc fadd nj nr e = float-Leaves host.fpu.add small.add_lt e
  run_handler-stack_inc fsub nj nr e = float-Leaves host.fpu.sub small.sub_lt e
  run_handler-stack_inc fmul nj nr e = float-Leaves host.fpu.mul small.mul_lt e
  run_handler-stack_inc fdiv nj nr e = float-Leaves host.fpu.div small.div_lt e
  run_handler-stack_inc jez nj nr e =
      let x = jez-handler vm.current vm'.current ops res g (framed execute_jez ops vm vm' res e) in
      (x.keeps, omega (arith, x.moved))
  run_handler-stack_inc jnez nj nr e =
      let x =
        jnez-handler vm.current vm'.current ops res g (framed execute_jnez ops vm vm' res e) in
      (x.keeps, omega (arith, x.moved))
  run_handler-stack_inc jmp nj nr e = absurd (nj refl)
  run_handler-stack_inc rjmp nj nr e = absurd (nr refl)
  run_handler-stack_inc call nj nr e =
      let after = call_leaves host fuel ops vm (res, vm') e in
      let same : vm' ≡ vm = ap (λ (r : ℕ × Machine). r.1) after in
      rw same (record { good = g; bytes = refl; width = refl; same_pc = refl }, refl)
  run_handler-stack_inc panic_handler nj nr e = absurd (ground arith)

  -- A jump `jmp` or `rjmp` that returns, run in a machine whose current frame is in order, on operands that are
  -- bytes, leaves the frame in order and the stack as deep as it was, where the compiler's table counts
  -- two bytes off.
  pub jump-stack_inc :
      (h : Handler)
      → (h ≡ jmp) ⊎ (h ≡ rjmp)
      → run_handler host (vm_execute_opcodes host fuel) h ops vm ≡ ok (res, vm')
      → Keeps vm.current vm'.current
        × (4 * length vm'.current.stack ≡ 4 * length vm.current.stack)
        × (neg_part (stack_inc (opcode h)) ≡ 2)
  unfolding run_handler opcode stack_inc
  jump-stack_inc h (inl is_jmp) e =
      let x =
        jmp-handler vm.current vm'.current ops res g
          (framed execute_jmp ops vm vm' res (rw is_jmp at e)) in
      (x.keeps, omega (arith, x.moved), rw is_jmp refl)
  jump-stack_inc h (inr is_rjmp) e =
      let x =
        rjmp-handler vm.current vm'.current ops res g
          (framed execute_rjmp ops vm vm' res (rw is_rjmp at e)) in
      (x.keeps, omega (arith, x.moved), rw is_rjmp refl)
