-- ===== src/Emitter/Refinement.antt =====
-- src/compiler_emit.c: a buffered emitter as the list of the bytes emitted to it.
use native.Mathlib.Decide.{dec_lt, dec_le}
use mathlib.Core.List.{append-nil}
use phantomshell.Base.{
  ℕ, ◌+◌, ◌≤◌, ◌<◌, ◌≡◌, inl, inr, refl, sym, ◌∙◌, some, List, [], ◌∷◌, arith, length,
}
use phantomshell.Emitter.{Emitter, new_page, normal_write, emitter_emit_buffered}
use phantomshell.Emitter.Filled.{
  contents, IsFilled, IsEmitter, grown, first-IsFilled, next-IsFilled, contents-next,
  contents-first,
}
use phantomshell.Emitter.Writes.{
  Appends, normal-Appends, nothing-Appends, emit-room, emit-grown, emit-split, split-Appends,
  Appends-transfer,
}

-- A write of at most a page of bytes to a buffered emitter.
emit-filled :
    (e : Emitter) (bytes page : List ℕ) (offset : ℕ)
    → 0 < e.page_size
    → IsFilled e page offset
    → e.size + length bytes ≤ e.capacity + e.page_size
    → (e' : Emitter) × (emitter_emit_buffered e bytes ≡ some e') × Appends e bytes e'
emit-filled e [] page offset pos f fits =
    rw (emit-room e [] (omega (arith, f.filled, f.within, f.room)))
      elim (dec_lt offset e.page_size) [
        | yes lt ↦ normal-Appends e [] page offset pos f lt (omega arith)
        | no ge ↦ nothing-Appends e page offset pos f (omega arith)
      ]
emit-filled e (b ∷ bytes) page offset pos f fits =
    elim (dec_le (offset + length (b ∷ bytes)) e.page_size) [
      | yes le ↦
          rw (emit-room e (b ∷ bytes) (omega (arith, f.filled, f.room)))
            (normal-Appends e (b ∷ bytes) page offset pos f (omega arith) le)
      | no over ↦ elim (dec_lt offset e.page_size) [
        | yes lt ↦
            rw
              (emit-split e (b ∷ bytes) (omega (arith, f.filled, f.room))
                (omega (arith, f.filled, f.room)))
              (split-Appends e (b ∷ bytes) page offset pos f lt (omega arith)
                (omega (arith, f.room, f.filled)))
        | no ge ↦
            let full : offset ≡ e.page_size = omega (arith, f.within) in
            let f' : IsFilled e page e.page_size = rw full at f in
            let (e', written, a) =
              normal-Appends (grown e) (b ∷ bytes) (new_page e.page_size) 0 pos
                (next-IsFilled e page f') pos (omega (arith, f.room, f.filled)) in
            (
              e',
              emit-grown e (b ∷ bytes) (omega (arith, f.filled, f.room))
                    (omega (arith, f.filled, f.room))
                  ∙ written,
              Appends-transfer e (b ∷ bytes) e' (contents-next e page f') a,
            )
      ]
    ]

-- On a valid emitter a write that ends at most a page behind the capacity succeeds, and appends the
-- bytes.
pub emitter_emit_buffered-Appends :
    (e : Emitter) (bytes : List ℕ)
    → IsEmitter e
    → e.size + length bytes ≤ e.capacity + e.page_size
    → (e' : Emitter) × (emitter_emit_buffered e bytes ≡ some e') × Appends e bytes e'
unfolding normal_write
emitter_emit_buffered-Appends e bytes (pos, inr (page, offset, f)) fits =
    emit-filled e bytes page offset pos f fits
emitter_emit_buffered-Appends e [] (pos, inl m) fits = (
  e,
  emit-room e [] (omega (arith, m.no_size)) ∙ (rw m.no_page refl),
  record {
    valid = (pos, inl m);
    holds = sym (append-nil (contents e));
    sized = omega arith;
    same_page_size = refl;
  },
)
emitter_emit_buffered-Appends e (b ∷ bytes) (pos, inl m) fits =
    let (e', written, a) =
      normal-Appends (grown e) (b ∷ bytes) (new_page e.page_size) 0 pos (first-IsFilled e m) pos
        (omega (arith, m.no_size, m.no_capacity)) in
    (
      e',
      emit-grown e (b ∷ bytes) (omega (arith, m.no_size, m.no_capacity))
            (omega (arith, m.no_size, m.no_capacity))
          ∙ written,
      Appends-transfer e (b ∷ bytes) e' (contents-first e m) a,
    )
