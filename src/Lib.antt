-- ===== src/Lib.antt =====
-- A verification library for the Phantom Shell: a lexer and a grammar give a syntax tree, a compiler turns
-- the tree into bytecode, and a stack machine runs the bytecode. The machine and the compiler both keep
-- tables in a hash map.
--
-- The files and the code they are about (paths from the root of the repository):
--   Base            helpers: tests and lists on native numbers, byte strings, signed integers and 32-bit words
--   Hashmap         src/util/hashmap.c: `hashmap_new`, `hashmap_index`, `hashmap_get`, `hashmap_put`,
--                   `hashmap_resize`, `hashmap_remove`, `hashmap_size`. An element in use is `some` of its key
--                   and value. Keys are pointers, and a parameter reads the string behind one.
--     Hash          `string_hash` and `compute_crc32` with its table
--     Probe, Put, Overlay, Growth, Room, Remove   the lemmas and theorems on the map
--   Operator        src/operator.h: the operators' words and the macros on them
--   Ast             src/parser.h: the nodes of expressions, statements and declarations
--   Vm              src/vm/vm.c: frames, their stack and local variables, and the faults
--     Opcodes       src/vm/opcodes.h, and the table filled by `vm_static_init`
--     Handlers      the functions `vm_execute_opcode_*` that work on the current frame alone
--     Pool          `vm_register_constant` and `vm_register_function`
--     Machine       `vm_execute_opcode_call`, the functions of the dispatch table, `vm_execute_opcodes` and
--                   `vm_static_init`
--     Mnemonics     src/executor.c
--     Copy, Effect, Handled, Fetch, Constants, Calls   the lemmas and theorems on the machine
--   Nodes           src/parser.c: the nodes as blocks of a heap, with pointers to one another
--     Types         src/parser.h: the types of nodes and the masks on them
--     Free          the functions `ast_free_node*`
--     Make          the constructors that link nodes, and the action of src/parser.y for arguments
--     Holds, HoldsFunc, Blocks   heaps that hold a tree, with its blocks in the order in which they are freed
--     Frees, FreedExpr, Freed, FreedFunc   the lemmas and the theorem on freeing
--     Same, Renext, Chain, Linked, Lost   those on linking
--     Build         the constructors of expressions, in the order in which the parser calls them
--     BuildStat     those of statements inside a function, with the actions of src/parser.y for lists and scopes
--     Used, Built, BuiltExpr, UsedStat, BuiltStat, BuiltElse, BuiltList, BuiltScope, BuiltFreed   the lemmas and
--                   the theorem on what the constructors leave
--   Emitter         src/compiler_emit.c: the buffered emitter, whose pages are a list, with its two ways to
--                   write, of which `emitter_emit_raw` runs the bytes if it is unbuffered,
--                   `compiler_emitter_sink`, and `compiler_emitter_buffered_destroy`
--     Unbuffered    the emitter that runs each write at once
--     Pages, Filled, Writes, Refinement, Sink, Raw   the lemmas and theorems on it
--   Printer         src/parser.c: `ast_node_*_to_string` of expressions, with the sizes of their buffers
--     Stat          the same of statements and declarations
--     Fits, StatFits   which nodes are printed within the buffers
--   Parser          src/lexer.c: the state of the lexer and the keywords; src/parser.c: the constructors of
--                   statements, which hand them to the compiler at the root
--     Literals      src/lexer.c: the values of literals
--     Nodes         src/parser.c: the constructors of expressions, with the nodes that the print of a new node
--                   frees
--     Traced        what those constructors return
--     Reading, Switch   the theorems on statements that are read
--   Compiler        src/compiler*.c
--     StackMap      src/compiler.c: the table `opcode_to_stack_inc_map`
--     Scope         src/compiler_scope.c: the variables of a scope and the depth of its stack
--     Types         src/compiler_vars.c: types, casts and the choice of an opcode
--     ConstMap      src/compiler_vars.c: the names of types and the map of constants
--     Expr          src/compiler_expr.c: the functions `compile_*` of expressions
--     Stat          src/compiler_stat.c: the functions `compile_*` of statements, and `compile_scope`
--     Func          src/compiler_func.c: `compiler_define_func` and `compile_func`; src/compiler.c:
--                   `compiler_compile_impl`
--     Typing        the types of expressions
--     Integer       the integer expressions, their meaning and their code
--     Emission, Depth, Correct, StackEffect, Calls, Variables   the lemmas and theorems on expressions
--     Layout, Moves, Branches, Statements   those on statements and their jumps
--     AtOnce        code that is run as it is emitted
--     Room          the emitter's room for the block of a statement
--     Register, Recursion   those on functions
--   Main            src/main.c: the words of the command line; src/compiler_scope.c: the root frame
--     Started       the theorem on the words
--   A module Tests, StatTests, FuncTests or TypeTests has runs on concrete data.
--
-- The compiler's functions emit to a list of bytes, `code` of a scope. The pages of an emitter matter to
-- them only where a write needs more than one new page: `has_room` is the model's guard there, for which
-- the source has no test, and a write without room ends in `undefined`. Expressions write at most five
-- bytes at a time.
--
-- State is passed explicitly: a handler takes a frame and gives a new one, the loop a machine, a compiling
-- function a scope. Words are numbers below 2 ^ 32 and the program counter is kept modulo 2 ^ 64. The source
-- checks no bounds of its stacks, operands and tables; where it would leave the memory that it has allocated,
-- the model ends in a fault. `compiler_panic` and `vm_do_panic` end the program, and so they do here.
--
-- Fuel: `hashmap_put` takes fuel for its rounds and for the resizing under it, the loop of the machine for the
-- instructions and the depth of calls, `compile_expression` for the height of the tree. An expression
-- needs no more than its number of nodes, and its code one round for each instruction and one for the end.
-- A put that need not resize needs one round; when it must, nothing bounds the rounds, as the keys may agree in
-- their hashes at every size, and so the theorem on it speaks of a put that answers. `raw_write` takes fuel for
-- its rounds, and one more than there are bytes is enough. `compile_func` hands its fuel to the expressions of
-- the body. `ast_free_node` takes fuel for its calls and rounds, and one more than the tree has blocks is
-- enough.
--
-- The expressions, statements and functions of Ast are the trees that nodes make up. The printer and the compiler
-- work on them; `Nodes.Holds` relates them to the blocks, where pointers are what matters: freeing and linking.
--
-- From outside come floating point (the instructions on bit patterns), what `%f` of `printf` writes, what
-- `strtod` reads, the words and bytes that `malloc` leaves in a block, whether an allocation succeeds, where the
-- blocks of new nodes lie, which files open, and the table of the functions that have been defined. The
-- order in which the parser's actions come about is that of a grammar read from left to right, with a
-- separator behind each statement.
--
-- Not modelled: the scanner and the grammar (src/lexer.l, src/parser.y), as their tables are generated,
-- with chains of `elif` and declarations of variables as expressions; `frame_destroy_scope`, which frees
-- names; the output of traces; and what `main` does behind its options, which is to call the parser and to
-- write the time. The source is compiled for a little-endian host. The size of an emitter is a number
-- without a bound.
pub mod Base
pub mod Hashmap
pub mod Vm
pub mod Operator
pub mod Ast
pub mod Nodes
pub mod Emitter
pub mod Printer
pub mod Parser
pub mod Compiler
pub mod Main
