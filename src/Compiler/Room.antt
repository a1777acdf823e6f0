-- ===== src/Compiler/Room.antt =====
-- src/compiler_stat.c beside src/compiler_emit.c: the block of a statement and the pages that it goes to.
use native.Mathlib.Nat.{div-lt_iff_lt-mul, mul-le-mul_right}
use phantomshell.Base.{
  ℕ, suc, ◌+◌, ◌-◌, ◌*◌, ◌/◌, ◌≤◌, ◌<◌, ◌≡◌, inl, inr, true, some, List, arith, length, leb,
}
use phantomshell.Emitter.{Emitter, emitter_emit_buffered}
use phantomshell.Emitter.Filled.{IsEmitter}
use phantomshell.Emitter.Writes.{Appends}
use phantomshell.Emitter.Refinement.{emitter_emit_buffered-Appends}
use phantomshell.Compiler.Stat.{buffered, has_room}

leb_le : (a b : ℕ) → leb a b ≡ true → a ≤ b
leb_le a b h = ground arith

-- The pages up to a size, the last one begun, are no more than those that hold it.
pages_le :
    (size page_size pages : ℕ)
    → 0 < page_size
    → size ≤ pages * page_size
    → (size + (page_size - 1)) / page_size * page_size ≤ pages * page_size
pages_le size page_size pages pos h =
    let below : (size + (page_size - 1)) / page_size < pages + 1 =
      (div-lt_iff_lt-mul {k = page_size} {x = size + (page_size - 1)} {y = pages + 1} pos).1
        (omega arith) in
    mul-le-mul_right page_size (omega arith)

capacity_le :
    (e : Emitter)
    → IsEmitter e
    → (e.size + (e.page_size - 1)) / e.page_size * e.page_size ≤ e.capacity
capacity_le e (pos, inl m) =
    rw (m.no_capacity, m.no_size) (omega (arith, pages_le 0 e.page_size 0 pos (omega arith)))
capacity_le e (pos, inr (page, offset, f)) =
    let all : suc (length e.earlier) * e.page_size ≡ e.capacity = omega (arith, f.room) in
    rw (← all)
      (pages_le e.size e.page_size (suc (length e.earlier)) pos (omega (arith, f.filled, f.within)))

-- A valid emitter takes a block of bytes and appends it, where the test `has_room` says that there is room
-- for it.
pub emitter_emit_buffered-has_room :
    (e : Emitter) (bytes : List ℕ)
    → IsEmitter e
    → has_room (buffered e.page_size) e.size (length bytes) ≡ true
    → (e' : Emitter) × (emitter_emit_buffered e bytes ≡ some e') × Appends e bytes e'
unfolding has_room
emitter_emit_buffered-has_room e bytes valid room =
    let fits = leb_le _ _ room in
    emitter_emit_buffered-Appends e bytes valid (omega (arith, capacity_le e valid, fits))
