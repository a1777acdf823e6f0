-- ===== src/Compiler/StackMap.antt =====
-- src/compiler.c: `opcode_to_stack_inc_map`, by which the compiler follows the depth of the stack.
use phantomshell.Base.{ℕ, List, [], ◌∷◌, ◌++◌, get_or, replicate}
use phantomshell.Base.Int.{ℤ, pos, negsuc}

abbrev pub zeros : ℕ → List ℤ
zeros n = replicate n (pos 0)

-- -4 and -2.
abbrev pub minus4 : ℤ
minus4 = negsuc 3

abbrev pub minus2 : ℤ
minus2 = negsuc 1

-- The table, a row of sixteen after the other; the rows from 0x70 on are all 0.
unfoldable pub opcode_to_stack_inc_map : List ℤ
opcode_to_stack_inc_map =
    zeros 48
    ++ ((pos 0 ∷ pos 0 ∷ pos 4 ∷ minus4 ∷ pos 4 ∷ minus4 ∷ pos 4 ∷ pos 4 ∷ zeros 8)
        ++ ((pos 0
              ∷ pos 0
              ∷ minus4
              ∷ minus4
              ∷ minus4
              ∷ minus4
              ∷ pos 0
              ∷ pos 0
              ∷ pos 0
              ∷ pos 0
              ∷ minus4
              ∷ minus4
              ∷ minus4
              ∷ minus4
              ∷ minus4
              ∷ minus4
              ∷ [])
            ++ ((minus4 ∷ minus4 ∷ minus4 ∷ minus4 ∷ zeros 12)
                ++ ((minus2 ∷ minus2 ∷ minus4 ∷ minus4 ∷ zeros 12) ++ zeros 144))))

unfoldable pub stack_inc : ℕ → ℤ
unfolding opcode_to_stack_inc_map
stack_inc o = get_or opcode_to_stack_inc_map o (pos 0)
