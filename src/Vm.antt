-- ===== src/Vm.antt =====
-- src/vm/vm.c: the frame of a running function and what a handler returns. The bytes that a handler
-- reads behind its opcode are `operands`. The source checks no bounds: where it would read or write
-- outside the memory that it has allocated, the model ends in a `Fault`.
pub mod Opcodes
pub mod Handlers
pub mod Pool
pub mod Machine
pub mod Effect
pub mod Handled
pub mod Copy
pub mod Fetch
pub mod Constants
pub mod Calls
pub mod Mnemonics
pub mod Tests
use phantomshell.Base.{
  ◌≡◌, refl, ℕ, suc, ◌+◌, ◌*◌, ◌%◌, ◌^◌, Option, none, some, List, [], ◌∷◌, length, get_elem?, set,
  ltb, leb, if◌then◌else◌,
}

-- `division` is the trap of the processor, and `panic` the exit in `vm_do_panic`.
pub data Fault : Type 0 where
  stack_underflow stack_overflow local_out_of_range operand_out_of_range division : Fault
  stale_pointer pool_out_of_range call_stack_overflow panic : Fault

-- `stuck` is no outcome of the source: the fuel of the model ran out.
pub data Run {ℓ} (A : Type ℓ) : Type ℓ where
  ok : A → Run A
  fault : Fault → Run A
  stuck : Run A

infixl 5 ◌>>=◌
abbrev pub ◌>>=◌ {ℓ κ} : {State : Type ℓ} {Out : Type κ} → Run State → (State → Run Out) → Run Out
stuck >>= next = stuck
fault why >>= next = fault why
ok state >>= next = next state

-- `vm_frame_context_t`. The stack and the local variables are words of four bytes; the words in use
-- of the stack are listed from the top. The capacity of the stack is in bytes, as `stack_end` is.
pub record Frame : Type 0 where
  pub frame_pc : ℕ
  pub stack : List ℕ
  pub stack_bytes : ℕ
  pub locals : List ℕ

-- The floating-point instructions of the processor, on bit patterns.
pub record FloatUnit : Type 0 where
  pub of_int : ℕ → ℕ
  pub add : ℕ → ℕ → ℕ
  pub sub : ℕ → ℕ → ℕ
  pub mul : ℕ → ℕ → ℕ
  pub div : ℕ → ℕ → ℕ

abbrev pub int32_mod : ℕ
int32_mod = 2 ^ 32

-- `*stack_ptr = value; stack_ptr += 4`.
unfoldable pub push_word : ℕ → Frame → Run Frame
push_word w frame =
    if leb (4 * length frame.stack + 4) frame.stack_bytes
    then ok (record frame { stack = w ∷ frame.stack })
    else fault stack_overflow

-- `value = *(stack_ptr - 4); stack_ptr -= 4`.
unfoldable pub pop_word : Frame → Run (ℕ × Frame)
pop_word frame = elim frame.stack [
  | [] ↦ fault stack_underflow
  | w ∷ s ↦ ok (w, record frame { stack = s })
]

-- Operand byte `i` behind the opcode.
unfoldable pub operand : List ℕ → ℕ → Run ℕ
operand operands i = elim (get_elem? operands i) [
  | none ↦ fault operand_out_of_range
  | some b ↦ ok b
]

unfoldable pub load_local : ℕ → Frame → Run ℕ
load_local i frame = elim (get_elem? frame.locals i) [
  | none ↦ fault local_out_of_range
  | some w ↦ ok w
]

unfoldable pub save_local : ℕ → ℕ → Frame → Run Frame
save_local i w frame =
    if ltb i (length frame.locals)
    then ok (record frame { locals = set frame.locals i w })
    else fault local_out_of_range

pub ok-injective {ℓ} : {A : Type ℓ} {a b : A} → ok a ≡ ok b → a ≡ b
ok-injective h = cc

-- What has returned under a bind.
pub >>=-eq-ok {ℓ κ} :
    {State : Type ℓ} {Out : Type κ} (act : Run State) (next : State → Run Out) {out : Out}
    → (act >>= next) ≡ ok out
    → (state : State) × (act ≡ ok state) × (next state ≡ ok out)
>>=-eq-ok stuck next returned = cc
>>=-eq-ok (fault why) next returned = cc
>>=-eq-ok (ok state) next returned = (state, refl, returned)

pub ok-pair {ℓ κ} :
    {A : Type ℓ} {B : Type κ} {a c : A} {b d : B}
    → ◌≡◌ {A = Run (A × B)} (ok (a, b)) (ok (c, d))
    → (a ≡ c) × (b ≡ d)
ok-pair h = (cc, cc)

pub >>=_assoc {ℓ κ μ} :
    {State : Type ℓ} {Mid : Type κ} {Out : Type μ} (act : Run State) (next : State → Run Mid)
    (last : Mid → Run Out)
    → (act >>= next >>= last) ≡ (act >>= λ state. next state >>= last)
>>=_assoc stuck next last = refl
>>=_assoc (fault why) next last = refl
>>=_assoc (ok state) next last = refl

pub bind_cong {ℓ κ} :
    {State : Type ℓ} {Out : Type κ} (act : Run State) {next other : State → Run Out}
    → ((state : State) → next state ≡ other state)
    → (act >>= next) ≡ (act >>= other)
bind_cong stuck same = refl
bind_cong (fault why) same = refl
bind_cong (ok state) same = same state
