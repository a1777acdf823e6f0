-- ===== src/Nodes.antt =====
-- src/parser.c and src/parser.h: the nodes of the syntax tree as blocks of the heap that point at one
-- another. `load` of a pointer to no block, and a node that is read as one of another type, are a fault.
pub mod Free
pub mod Types
pub mod Make
pub mod Blocks
pub mod Holds
pub mod HoldsFunc
pub mod Frees
pub mod FreedExpr
pub mod Freed
pub mod FreedFunc
pub mod Same
pub mod Renext
pub mod Chain
pub mod Linked
pub mod Lost
pub mod Build
pub mod Used
pub mod Built
pub mod BuiltExpr
pub mod BuildStat
pub mod UsedStat
pub mod BuiltStat
pub mod BuiltElse
pub mod BuiltList
pub mod BuiltScope
pub mod BuiltFreed
pub mod Tests
use phantomshell.Base.{ℕ, Option, none, some, List, ◌==◌, if◌then◌else◌}

abbrev pub Ptr : Type 0
Ptr = ℕ

abbrev pub null : Ptr
null = 0

-- A block: a text, or a node with its fields in the order of its `struct`, without `flags` and `str`. A
-- statement has `next` first. Left out is the `next` of an expression and of a list of statements, which
-- nothing reads. The literals that hold no pointer are one constructor, with their static type.
pub data Cell : Type 0 where
  text : List ℕ → Cell
  literal : ℕ → ℕ → Cell
  literal_string : Ptr → Cell
  ident : ℕ → Ptr → Cell
  group : ℕ → Ptr → Cell
  unary_op : ℕ → ℕ → Ptr → Cell
  binary_op : ℕ → ℕ → Ptr → Ptr → Cell
  ternary_op : ℕ → ℕ → Ptr → Ptr → Ptr → Cell
  special_cast : ℕ → ℕ → Ptr → Cell
  scope : Ptr → Cell
  stat_list : ℕ → Ptr → Ptr → Cell
  stat_expr stat_ret : Ptr → Ptr → Cell
  stat_if : Ptr → Ptr → Ptr → Ptr → Cell
  stat_switch stat_while : Ptr → Ptr → Ptr → Cell
  stat_switch_choice : Ptr → Ptr → Ptr → Cell
  decl_var : Ptr → Ptr → Ptr → Cell
  func_arg_list : Ptr → Ptr → Cell
  decl_func : Ptr → Ptr → Ptr → Ptr → Cell

abbrev pub Heap : Type 0
Heap = Ptr → Option Cell

unfoldable pub write : Ptr → Option Cell → Heap → Heap
write p c h a = if a == p then c else h a

-- `next` of a node that is read as a statement. In a scope the field there is `stats`; of other nodes, none is
-- read so.
abbrev pub next_stat : Cell → Option Ptr
next_stat (stat_expr next e) = some next
next_stat (stat_ret next e) = some next
next_stat (stat_if next e t f) = some next
next_stat (stat_switch next e choice) = some next
next_stat (stat_while next e s) = some next
next_stat (scope stats) = some stats
next_stat _ = none

abbrev pub set_next : Ptr → Cell → Option Cell
set_next q (stat_expr next e) = some (stat_expr q e)
set_next q (stat_ret next e) = some (stat_ret q e)
set_next q (stat_if next e t f) = some (stat_if q e t f)
set_next q (stat_switch next e choice) = some (stat_switch q e choice)
set_next q (stat_while next e s) = some (stat_while q e s)
set_next q (scope stats) = some (scope q)
set_next q _ = none

-- What a function leaves. `stuck` is no outcome of the source: the fuel of the model ran out.
pub data Result : Type 0 where
  ok : Heap → Result
  fault stuck : Result

abbrev pub Cmd : Type 0
Cmd = Heap → Result

abbrev pub skip : Cmd
skip = ok

abbrev pub and_then : Result → Cmd → Result
and_then (ok h) next = next h
and_then fault next = fault
and_then stuck next = stuck

infixl 5 ◌>>◌
abbrev pub ◌>>◌ : Cmd → Cmd → Cmd
(first >> next) h = and_then (first h) next

-- `*p`.
abbrev pub load : Ptr → (Cell → Cmd) → Cmd
load p use_cell h = elim (h p) [ none ↦ fault | some c ↦ use_cell c h ]

abbrev pub fails : Cmd
fails h = fault

-- `free(p)` of a block that is there.
unfoldable pub free : Ptr → Cmd
unfolding write
free p h = elim (h p) [ none ↦ fault | some c ↦ ok (write p none h) ]
