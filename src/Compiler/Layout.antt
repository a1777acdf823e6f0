-- ===== src/Compiler/Layout.antt =====
-- src/compiler_stat.c: the bytes that statements compile to.
use phantomshell.Base.{
  ℕ, ◌+◌, ◌*◌, ◌/◌, ◌%◌, ◌^◌, ◌<◌, ◌≡◌, refl, ap, true, List, [], ◌∷◌, ◌++◌, arith, length,
  length-append, ≤→ltb,
}
use phantomshell.Vm.{ok}
use phantomshell.Vm.Opcodes.{opcode, jez, rjmp}
use phantomshell.Vm.Handlers.{jump_offset}
use phantomshell.Compiler.Scope.{Scope, done}
use phantomshell.Compiler.Stat.{Target, has_room, jump_over, hi_lo, emit_if, emit_while, uint16_max}
use phantomshell.Compiler.Branches.{while_code}

-- A jump that `compile_if_statement` or `compile_while_statement` writes by its bytes `hi` and `lo` is
-- read back by the machine as the rest of its length modulo 256: the high byte is always 0.
pub hi_lo-jump_offset :
    (size : ℕ) (rest : List ℕ) → jump_offset (hi_lo size ++ rest) ≡ ok (size % 2 ^ 8)
unfolding hi_lo jump_offset
hi_lo-jump_offset size rest =
    let e : size % 2 ^ 32 % 2 ^ 8 / 2 ^ 8 * 2 ^ 8 + size % 2 ^ 32 % 2 ^ 8 ≡ size % 2 ^ 8 =
      omega arith in
    ap ok e

high_byte : (size : ℕ) → size < 2 ^ 8 → size % 2 ^ 32 % 2 ^ 8 / 2 ^ 8 ≡ 0
high_byte size h = omega arith

low_byte : (size : ℕ) → size < 2 ^ 8 → size % 2 ^ 32 % 2 ^ 8 ≡ size
low_byte size h = omega arith

length-jump_over : (t : List ℕ) (n : ℕ) → length (t ++ jump_over n) ≡ length t + 3
unfolding jump_over
length-jump_over t n = length-append t (jump_over n)

pub emit_if-done :
    (target : Target) (t f : List ℕ) (s : Scope)
    → length t + 3 < 2 ^ 8
    → length f < 2 ^ 16
    → has_room target (length s.code) (length t + length f + 6) ≡ true
    → emit_if target t f s
      ≡ done 0 (record s {
        code = s.code ++ (opcode jez ∷ 0 ∷ (length t + 3) ∷ ((t ++ jump_over (length f)) ++ f));
      })
unfolding emit_if
emit_if-done target t f s small fits room =
    let all = length-jump_over t (length f) in
    let size : length t + length f + 6
        ≡ length (opcode jez ∷ 0 ∷ (length t + 3) ∷ ((t ++ jump_over (length f)) ++ f)) =
      omega (arith, all, length-append (t ++ jump_over (length f)) f) in
    rw
      (
        ≤→ltb (length f) uint16_max (omega arith),
        all,
        ≤→ltb (length t + 3) uint16_max (omega arith),
        high_byte (length t + 3) small,
        low_byte (length t + 3) small,
        ← size,
        room,
      )
      refl

pub emit_while-done :
    (target : Target) (c b : List ℕ) (s : Scope)
    → length c + length b + 6 < 2 ^ 8
    → has_room target (length s.code) (length c + length b + 6) ≡ true
    → emit_while target c b s ≡ done 0 (record s { code = s.code ++ while_code c b })
unfolding emit_while
emit_while-done target c b s small room =
    let back : List ℕ = opcode rjmp ∷ 0 ∷ (length c + length b + 6) ∷ [] in
    let size : length c + length b + 6 ≡ length (while_code c b) = omega (
      arith,
      length-append c (opcode jez ∷ 0 ∷ (length b + 3) ∷ (b ++ back)),
      length-append b back,
    ) in
    let sum : length c + length b + 3 + 3 ≡ length c + length b + 6 = omega arith in
    rw
      (
        ≤→ltb (length b) uint16_max (omega arith),
        sum,
        high_byte (length b + 3) (omega arith),
        low_byte (length b + 3) (omega arith),
        high_byte (length c + length b + 6) small,
        low_byte (length c + length b + 6) small,
        ← size,
        room,
      )
      refl
