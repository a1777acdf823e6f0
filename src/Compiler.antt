-- ===== src/Compiler.antt =====
-- src/compiler*.c: the compiler.
pub mod StackMap
pub mod StackEffect
pub mod Scope
pub mod Types
pub mod Expr
pub mod Integer
pub mod Emission
pub mod Depth
pub mod Correct
pub mod Calls
pub mod Variables
pub mod ConstMap
pub mod Stat
pub mod Func
pub mod Register
pub mod Recursion
pub mod Layout
pub mod Moves
pub mod Branches
pub mod Typing
pub mod AtOnce
pub mod Room
pub mod Statements
pub mod Tests
pub mod StatTests
pub mod FuncTests
pub mod TypeTests
