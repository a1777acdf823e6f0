-- ===== src/Vm/Opcodes.antt =====
-- src/vm/opcodes.h: the opcodes that the machine executes, and the table that src/vm/vm.c fills in
-- `vm_static_init`. src/executor.c: the mnemonics. src/compiler.c: the change of the stack.
use phantomshell.Base.{ℕ, ◌≡◌, refl, List, [], ◌∷◌, get_or, set, replicate}

-- The handlers `vm_execute_opcode_*` that stand in the table.
pub data Handler : Type 0 where
  iload isave fload fsave iconst fconst : Handler
  iadd isub imul idiv i2f ieq ineq ilt ingt igt inlt : Handler
  fadd fsub fmul fdiv : Handler
  jmp rjmp jez jnez call panic_handler : Handler

-- The constants `OPCODE_*` of these handlers.
unfoldable pub opcode : Handler → ℕ
opcode iload = 0x32
opcode isave = 0x33
opcode fload = 0x34
opcode fsave = 0x35
opcode iconst = 0x36
opcode fconst = 0x37
opcode iadd = 0x42
opcode isub = 0x43
opcode imul = 0x44
opcode idiv = 0x45
opcode i2f = 0x47
opcode ieq = 0x4a
opcode ineq = 0x4b
opcode ilt = 0x4c
opcode ingt = 0x4d
opcode igt = 0x4e
opcode inlt = 0x4f
opcode fadd = 0x50
opcode fsub = 0x51
opcode fmul = 0x52
opcode fdiv = 0x53
opcode jmp = 0x60
opcode rjmp = 0x61
opcode jez = 0x62
opcode jnez = 0x63
opcode call = 0x80
opcode panic_handler = 0xff

-- The opcodes that the compiler can emit or that the header names, and that have no handler.
abbrev pub opcode_nop : ℕ
opcode_nop = 0x00

abbrev pub opcode_exstk : ℕ
opcode_exstk = 0x10

abbrev pub opcode_ineg : ℕ
opcode_ineg = 0x46

abbrev pub opcode_fneg : ℕ
opcode_fneg = 0x54

abbrev pub opcodes_count : ℕ
opcodes_count = 256

unfoldable pub install : List Handler → List Handler → List Handler
unfolding opcode
install [] table = table
install (h ∷ hs) table = install hs (set table (opcode h) h)

-- The handlers in the order of the assignments in `vm_static_init`.
abbrev pub installed : List Handler
installed =
    isave ∷ iload ∷ iconst ∷ iadd ∷ isub ∷ imul ∷ idiv ∷ ieq ∷ ineq ∷ ilt ∷ igt ∷ inlt ∷ ingt ∷ i2f
    ∷ fsave ∷ fload ∷ fconst ∷ fadd ∷ fsub ∷ fmul ∷ fdiv ∷ jez ∷ jnez ∷ jmp ∷ rjmp ∷ call ∷ []

unfoldable pub opcode_execute_funcs : List Handler
unfolding install
opcode_execute_funcs = install installed (replicate opcodes_count panic_handler)

unfoldable pub handler_at : ℕ → Handler
unfolding opcode_execute_funcs
handler_at o = get_or opcode_execute_funcs o panic_handler

-- The table that the start of the machine fills has, at the opcode of every handler, that handler.
pub handler_at-opcode : (h : Handler) → handler_at (opcode h) ≡ h
unfolding handler_at opcode
handler_at-opcode iload = refl
handler_at-opcode _ = refl
