-- ===== src/Vm/Calls.antt =====
-- src/vm/vm.c: what a run leaves as it was, and calls.
use phantomshell.Base.{
  ℕ, zero, suc, ◌+◌, ◌%◌, ◌^◌, ◌≡◌, ◌⊎◌, inl, inr, refl, ap, ◌∙◌, List, ◌∷◌, arith, Bool-cases,
  length, ltb, drop,
}
use phantomshell.Vm.{Frame, Run, ok, ◌>>=◌, >>=-eq-ok, panic, fault}
use phantomshell.Vm.Opcodes.{Handler, call, iload, panic_handler, handler_at}
use phantomshell.Vm.Handlers.{jump_offset}
use phantomshell.Vm.Pool.{FuncHandle, byte_at}
use phantomshell.Vm.Machine.{
  Host, Machine, find_function, enter_function, leave_function, run_handler, execute_call, advance,
  execute_one, vm_execute_opcodes,
}

-- The frames below the current one and the tables are those of before.
pub record Keeps (vm vm' : Machine) : Type 0 where
  pub callers : vm'.callers ≡ vm.callers
  pub consts : vm'.consts ≡ vm.consts
  pub functions : vm'.functions ≡ vm.functions

trans-Keeps : (a b c : Machine) → Keeps a b → Keeps b c → Keeps a c
trans-Keeps a b c k l = record {
  callers = l.callers ∙ k.callers;
  consts = l.consts ∙ k.consts;
  functions = l.functions ∙ k.functions;
}

frame_handler :
    (host : Host) (run : Machine → List ℕ → ℕ → Run (ℕ × Machine)) (h : Handler) (operands : List ℕ)
    (vm : Machine)
    → (h ≡ call)
      ⊎ ((step : Run (ℕ × Frame)) × (run_handler host run h operands vm
            ≡ (step >>= λ r. ok (r.0, record vm { current = r.1 }))))
unfolding run_handler
frame_handler host run call operands vm = inl refl
frame_handler host run iload operands vm = inr (_, refl)
frame_handler host run panic_handler operands vm = inr (fault panic, refl)
frame_handler host run _ operands vm = inr (_, refl)

entered :
    (host : Host) (handle : FuncHandle) (vm inside : Machine)
    → enter_function host handle vm ≡ ok inside
    → (inside.callers ≡ vm.current ∷ vm.callers)
      × (inside.consts ≡ vm.consts)
      × (inside.functions ≡ vm.functions)
unfolding enter_function
entered host handle vm inside e = ground arith

left_at :
    (vm left : Machine) (below : Frame) (rest : List Frame)
    → vm.callers ≡ below ∷ rest
    → leave_function vm ≡ ok left
    → left ≡ record vm { current = below; callers = rest }
unfolding leave_function
left_at vm left below rest e returned = let e' = rw (e, leave_function) at returned in cc

module _ (host : Host) (run : Machine → List ℕ → ℕ → Run (ℕ × Machine))
    (keep : (vm : Machine) (bytes : List ℕ) (pc : ℕ) (r : ℕ × Machine)
      → run vm bytes pc ≡ ok r
      → Keeps vm r.1) where
  call_returned :
      (operands : List ℕ) (vm : Machine) (r : ℕ × Machine)
      → run_handler host run call operands vm ≡ ok r
      → r ≡ (3, vm)
  unfolding run_handler execute_call
  call_returned operands vm r returned =
      let (h_index, _, e1) = >>=-eq-ok (jump_offset operands) _ returned in
      let (handle, _, e2) = >>=-eq-ok (find_function vm h_index) _ e1 in
      let (inside, enters, e3) = >>=-eq-ok (enter_function host handle vm) _ e2 in
      let (ran, runs, e4) = >>=-eq-ok (run inside (drop 4 handle.bytecode_data) 0) _ e3 in
      let (left, leaves, e5) = >>=-eq-ok (leave_function ran.1) _ e4 in
      let (callers, consts, functions) = entered host handle vm inside enters in
      let k = keep inside (drop 4 handle.bytecode_data) 0 ran runs in
      let back = left_at ran.1 left vm.current vm.callers (k.callers ∙ callers) leaves in
      let same : left ≡ vm = rw (back, k.consts, k.functions, consts, functions) refl in cc

  handler-Keeps :
      (h : Handler) (operands : List ℕ) (vm : Machine) (r : ℕ × Machine)
      → run_handler host run h operands vm ≡ ok r
      → Keeps vm r.1
  handler-Keeps h operands vm r returned = elim (frame_handler host run h operands vm) [
    | inl is_call ↦
        let e = call_returned operands vm r (rw is_call at returned) in
        rw e (record { callers = refl; consts = refl; functions = refl })
    | inr (step_of, is) ↦
        let (step, _, e) = >>=-eq-ok step_of _ (rw is at returned) in
        let e' : r ≡ (step.0, record vm { current = step.1 }) = cc in
        rw e' (record { callers = refl; consts = refl; functions = refl })
  ]

  one-Keeps :
      (bytes : List ℕ) (pc : ℕ) (vm : Machine) (r : ℕ × Machine)
      → execute_one host run vm bytes pc ≡ ok r
      → Keeps vm r.1
  unfolding execute_one advance
  one-Keeps bytes pc vm r returned =
      let (opcode, _, e1) = >>=-eq-ok (byte_at bytes pc) _ returned in
      let (step, handled, e2) =
        >>=-eq-ok (run_handler host run (handler_at opcode) (drop (pc + 1) bytes) vm) _ e1 in
      let k = handler-Keeps (handler_at opcode) (drop (pc + 1) bytes) vm step handled in
      let e' : r ≡ ((pc + step.0) % 2 ^ 64, advance step.0 step.1) = cc in
      rw e' (record { callers = k.callers; consts = k.consts; functions = k.functions })

-- A run that returns leaves the frames below its own as they were, and the tables of the constants and of
-- the functions.
pub vm_execute_opcodes-Keeps :
    (host : Host) (fuel : ℕ) (vm : Machine) (bytes : List ℕ) (pc : ℕ) (r : ℕ × Machine)
    → vm_execute_opcodes host fuel vm bytes pc ≡ ok r
    → Keeps vm r.1
unfolding vm_execute_opcodes
vm_execute_opcodes-Keeps host zero vm bytes pc r returned = cc
vm_execute_opcodes-Keeps host (suc fuel) vm bytes pc r returned =
    elim (Bool-cases (ltb pc (length bytes))) [
      | inl more ↦
          let keep = vm_execute_opcodes-Keeps host fuel in
          let (step, one, rest) =
            >>=-eq-ok (execute_one host (vm_execute_opcodes host fuel) vm bytes pc) _
              (rw more at returned) in
          trans-Keeps vm step.1 r.1
            (one-Keeps host (vm_execute_opcodes host fuel) keep bytes pc vm step one)
            (keep step.1 bytes step.0 r rest)
      | inr done ↦
          let e = rw done at returned in
          let e' : r ≡ (pc, vm) = cc in
          rw e' (record { callers = refl; consts = refl; functions = refl })
    ]

pub call_leaves :
    (host : Host) (fuel : ℕ) (operands : List ℕ) (vm : Machine) (r : ℕ × Machine)
    → run_handler host (vm_execute_opcodes host fuel) call operands vm ≡ ok r
    → r ≡ (3, vm)
call_leaves host fuel operands vm r returned =
    call_returned host (vm_execute_opcodes host fuel) (vm_execute_opcodes-Keeps host fuel) operands
      vm r returned

leaves :
    (vm : Machine) (below : Frame) (rest : List Frame)
    → vm.callers ≡ below ∷ rest
    → leave_function vm ≡ ok (record vm { current = below; callers = rest })
unfolding leave_function
leaves vm below rest e = rw (e, leave_function) refl

-- A call whose function is found and entered, and whose code, whatever it does, runs to its end, returns to
-- the machine as it was: the stack of the caller with the arguments still on it, its variables and its
-- program counter. No value comes back.
pub run_handler-call :
    (host : Host) (fuel : ℕ) (operands : List ℕ) (vm inside : Machine) (h_index : ℕ)
    (handle : FuncHandle) (ran : ℕ × Machine)
    → jump_offset operands ≡ ok h_index
    → find_function vm h_index ≡ ok handle
    → enter_function host handle vm ≡ ok inside
    → vm_execute_opcodes host fuel inside (drop 4 handle.bytecode_data) 0 ≡ ok ran
    → run_handler host (vm_execute_opcodes host fuel) call operands vm ≡ ok (3, vm)
unfolding run_handler execute_call
run_handler-call host fuel operands vm inside h_index handle ran index found enters runs =
    let (callers, consts, functions) = entered host handle vm inside enters in
    let k = vm_execute_opcodes-Keeps host fuel inside (drop 4 handle.bytecode_data) 0 ran runs in
    let back = leaves ran.1 vm.current vm.callers (k.callers ∙ callers) in
    let same : record (ran.1) { current = vm.current; callers = vm.callers } ≡ vm =
      rw (k.consts, k.functions, consts, functions) refl in
    rw index (rw found (rw enters (rw runs (rw back (ap (λ left. ok (3, left)) same)))))
