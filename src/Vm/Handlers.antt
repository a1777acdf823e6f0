-- ===== src/Vm/Handlers.antt =====
-- src/vm/vm.c: the handlers `vm_execute_opcode_*` that work on the current frame alone, which are all but
-- `call`. A handler gives the distance that
-- the program counter moves by, modulo 2 ^ 64, with the frame that it leaves.
use phantomshell.Base.{ℕ, ◌+◌, ◌-◌, ◌*◌, ◌%◌, ◌^◌, Bool, List, [], ◌∷◌, not, ◌==◌, if◌then◌else◌}
use phantomshell.Base.Int.{signed32, word32, tdiv, ltb_ℤ}
use phantomshell.Vm.{
  Frame, FloatUnit, Run, ok, fault, ◌>>=◌, stack_underflow, division, int32_mod, push_word,
  pop_word, operand, load_local, save_local,
}

abbrev pub Step : Type 0
Step = Frame → List ℕ → Run (ℕ × Frame)

-- `isave` and `fsave`: the word at the top of the stack goes to the local variable `operands[0]`.
unfoldable pub execute_save : Step
unfolding operand pop_word save_local
execute_save frame operands = do
  index ← operand operands 0
  (value, popped) ← pop_word frame
  saved ← save_local index value popped
  ok (2, saved)

-- `iload` and `fload`.
unfoldable pub execute_load : Step
unfolding operand load_local push_word
execute_load frame operands = do
  index ← operand operands 0
  value ← load_local index frame
  pushed ← push_word value frame
  ok (2, pushed)

-- `iconst`: `be32toh` of the four operand bytes.
unfoldable pub execute_iconst : Step
unfolding operand push_word
execute_iconst frame operands = do
  b0 ← operand operands 0
  b1 ← operand operands 1
  b2 ← operand operands 2
  b3 ← operand operands 3
  pushed ← push_word (b0 * 2 ^ 24 + b1 * 2 ^ 16 + b2 * 2 ^ 8 + b3) frame
  ok (5, pushed)

-- `fconst`: the four bytes are taken in the order of the (little-endian) host.
unfoldable pub execute_fconst : Step
unfolding operand push_word
execute_fconst frame operands = do
  b0 ← operand operands 0
  b1 ← operand operands 1
  b2 ← operand operands 2
  b3 ← operand operands 3
  pushed ← push_word (b0 + b1 * 2 ^ 8 + b2 * 2 ^ 16 + b3 * 2 ^ 24) frame
  ok (5, pushed)

-- The common body of the binary operators: `value_2` is the top word, `value_1` the one below it.
unfoldable pub binary_on : (ℕ → ℕ → Run ℕ) → Frame → List ℕ → Run (ℕ × Frame)
binary_on op frame [] = fault stack_underflow
binary_on op frame (v2 ∷ []) = fault stack_underflow
binary_on op frame (v2 ∷ v1 ∷ rest) = do
  result ← op v1 v2
  ok (1, record frame { stack = result ∷ rest })

unfoldable pub execute_binary : (ℕ → ℕ → Run ℕ) → Step
unfolding binary_on
execute_binary op frame operands = binary_on op frame frame.stack

abbrev pub truth : Bool → ℕ
truth b = if b then 1 else 0

-- Arithmetic on `int32_t`, wrapping. `idiv` traps on a divisor 0, and on the quotient 2 ^ 31.
unfoldable pub int_add : ℕ → ℕ → Run ℕ
int_add v1 v2 = ok ((v1 + v2) % int32_mod)

unfoldable pub int_sub : ℕ → ℕ → Run ℕ
int_sub v1 v2 = ok ((v1 + int32_mod - v2) % int32_mod)

unfoldable pub int_mul : ℕ → ℕ → Run ℕ
int_mul v1 v2 = ok (v1 * v2 % int32_mod)

unfoldable pub int_div : ℕ → ℕ → Run ℕ
int_div v1 v2 =
    if v2 == 0
    then fault division
    else if v1 == 2 ^ 31
    then if v2 == int32_mod - 1
      then fault division
      else ok (word32 (tdiv (signed32 v1) (signed32 v2)))
    else ok (word32 (tdiv (signed32 v1) (signed32 v2)))

unfoldable pub int_eq : ℕ → ℕ → Run ℕ
int_eq v1 v2 = ok (truth (v1 == v2))

unfoldable pub int_ne : ℕ → ℕ → Run ℕ
int_ne v1 v2 = ok (truth (not (v1 == v2)))

unfoldable pub int_lt : ℕ → ℕ → Run ℕ
int_lt v1 v2 = ok (truth (ltb_ℤ (signed32 v1) (signed32 v2)))

unfoldable pub int_le : ℕ → ℕ → Run ℕ
int_le v1 v2 = ok (truth (not (ltb_ℤ (signed32 v2) (signed32 v1))))

unfoldable pub int_gt : ℕ → ℕ → Run ℕ
int_gt v1 v2 = ok (truth (ltb_ℤ (signed32 v2) (signed32 v1)))

unfoldable pub int_ge : ℕ → ℕ → Run ℕ
int_ge v1 v2 = ok (truth (not (ltb_ℤ (signed32 v1) (signed32 v2))))

-- `i2f`: the top word in place.
unfoldable pub i2f_on : FloatUnit → Frame → List ℕ → Run (ℕ × Frame)
i2f_on fpu frame [] = fault stack_underflow
i2f_on fpu frame (v ∷ rest) = ok (1, record frame { stack = fpu.of_int v ∷ rest })

unfoldable pub execute_i2f : FloatUnit → Step
unfolding i2f_on
execute_i2f fpu frame operands = i2f_on fpu frame frame.stack

-- `be16toh` of the two operand bytes of a jump.
unfoldable pub jump_offset : List ℕ → Run ℕ
unfolding operand
jump_offset operands = do b0 ← operand operands 0; b1 ← operand operands 1; ok (b0 * 2 ^ 8 + b1)

unfoldable pub execute_jez : Step
unfolding jump_offset pop_word
execute_jez frame operands = do
  offset ← jump_offset operands
  (value, popped) ← pop_word frame
  ok (3 + (if value == 0 then offset else 0), popped)

unfoldable pub execute_jnez : Step
unfolding jump_offset pop_word
execute_jnez frame operands = do
  offset ← jump_offset operands
  (value, popped) ← pop_word frame
  ok (3 + (if value == 0 then 0 else offset), popped)

unfoldable pub execute_jmp : Step
unfolding jump_offset
execute_jmp frame operands = do offset ← jump_offset operands; ok (3 + offset, frame)

-- `res - jmp_offset` on `int64_t`.
unfoldable pub execute_rjmp : Step
unfolding jump_offset
execute_rjmp frame operands = do
  offset ← jump_offset operands
  ok ((2 ^ 64 + 3 - offset) % 2 ^ 64, frame)
