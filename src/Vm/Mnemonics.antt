-- ===== src/Vm/Mnemonics.antt =====
-- src/executor.c: the mnemonics of the opcodes, as lists of characters.
use phantomshell.Base.{ℕ, ◌≡◌, refl, Bool, true, false, List, [], ◌∷◌, ◌==◌, if◌then◌else◌, str_eq}
use phantomshell.Vm.Opcodes.{
  Handler, iload, isave, fload, fsave, iconst, fconst, iadd, isub, imul, idiv, i2f, ieq, ineq, ilt,
  ingt, igt, inlt, fadd, fsub, fmul, fdiv, jmp, jez, jnez, call, rjmp, panic_handler, opcode,
  opcode_nop, opcode_exstk, opcode_ineg, opcode_fneg,
}

-- The first entry of the list with this opcode, and what `default` gives.
abbrev pub pick : ℕ → List (ℕ × List ℕ) → List ℕ → List ℕ
pick o [] default = default
pick o ((code, name) ∷ rest) default = if o == code then name else pick o rest default

abbrev pub invalid_opcode : List ℕ
invalid_opcode =
    b'!' ∷ b'i' ∷ b'n' ∷ b'v' ∷ b'a' ∷ b'l' ∷ b'i' ∷ b'd' ∷ b' ' ∷ b'o' ∷ b'p' ∷ b'c' ∷ b'o' ∷ b'd'
    ∷ b'e' ∷ b'!' ∷ []

unfoldable pub mnemonics : List (ℕ × List ℕ)
unfolding opcode
mnemonics =
    (opcode_nop, b'n' ∷ b'o' ∷ b'p' ∷ [])
    ∷ (opcode_exstk, b'e' ∷ b'x' ∷ b's' ∷ b't' ∷ b'k' ∷ [])
    ∷ (opcode iconst, b'i' ∷ b'c' ∷ b'o' ∷ b'n' ∷ b's' ∷ b't' ∷ [])
    ∷ (opcode iload, b'i' ∷ b'l' ∷ b'o' ∷ b'a' ∷ b'd' ∷ [])
    ∷ (opcode isave, b'i' ∷ b's' ∷ b'a' ∷ b'v' ∷ b'e' ∷ [])
    ∷ (opcode iadd, b'i' ∷ b's' ∷ b'u' ∷ b'm' ∷ [])
    ∷ (opcode isub, b'i' ∷ b's' ∷ b'u' ∷ b'b' ∷ [])
    ∷ (opcode imul, b'i' ∷ b'm' ∷ b'u' ∷ b'l' ∷ [])
    ∷ (opcode idiv, b'i' ∷ b'd' ∷ b'i' ∷ b'v' ∷ [])
    ∷ (opcode_ineg, b'i' ∷ b'n' ∷ b'e' ∷ b'g' ∷ [])
    ∷ (opcode i2f, b'i' ∷ b'2' ∷ b'f' ∷ [])
    ∷ (opcode ieq, b'i' ∷ b'e' ∷ b'q' ∷ [])
    ∷ (opcode ineq, b'i' ∷ b'n' ∷ b'e' ∷ b'q' ∷ [])
    ∷ (opcode inlt, b'i' ∷ b'n' ∷ b'l' ∷ b't' ∷ [])
    ∷ (opcode ingt, b'i' ∷ b'n' ∷ b'g' ∷ b't' ∷ [])
    ∷ (opcode ilt, b'i' ∷ b'l' ∷ b't' ∷ [])
    ∷ (opcode igt, b'i' ∷ b'g' ∷ b't' ∷ [])
    ∷ (opcode fconst, b'f' ∷ b'c' ∷ b'o' ∷ b'n' ∷ b's' ∷ b't' ∷ [])
    ∷ (opcode fload, b'f' ∷ b'l' ∷ b'o' ∷ b'a' ∷ b'd' ∷ [])
    ∷ (opcode fsave, b'f' ∷ b's' ∷ b'a' ∷ b'v' ∷ b'e' ∷ [])
    ∷ (opcode fadd, b'f' ∷ b'a' ∷ b'd' ∷ b'd' ∷ [])
    ∷ (opcode fsub, b'f' ∷ b's' ∷ b'u' ∷ b'b' ∷ [])
    ∷ (opcode fmul, b'f' ∷ b'm' ∷ b'u' ∷ b'l' ∷ [])
    ∷ (opcode fdiv, b'f' ∷ b'd' ∷ b'i' ∷ b'v' ∷ [])
    ∷ (opcode_fneg, b'f' ∷ b'n' ∷ b'e' ∷ b'g' ∷ [])
    ∷ (opcode jmp, b'j' ∷ b'm' ∷ b'p' ∷ [])
    ∷ (opcode jez, b'j' ∷ b'e' ∷ b'z' ∷ [])
    ∷ (opcode jnez, b'j' ∷ b'n' ∷ b'e' ∷ b'z' ∷ [])
    ∷ (opcode call, b'c' ∷ b'a' ∷ b'l' ∷ b'l' ∷ [])
    ∷ []

unfoldable pub get_opcode_mnemonic : ℕ → List ℕ
unfolding mnemonics
get_opcode_mnemonic o = pick o mnemonics invalid_opcode

abbrev pub is_nameless : Handler → Bool
is_nameless rjmp = true
is_nameless panic_handler = true
is_nameless _ = false

-- Every opcode that the machine has a handler for has a mnemonic, but for `rjmp`, which the compiler
-- emits at the end of a loop, and the handler of the panic.
pub mnemonic-handler :
    (h : Handler) → str_eq (get_opcode_mnemonic (opcode h)) invalid_opcode ≡ is_nameless h
unfolding get_opcode_mnemonic mnemonics opcode str_eq
mnemonic-handler iload = refl
mnemonic-handler _ = refl
