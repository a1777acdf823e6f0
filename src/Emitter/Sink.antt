-- ===== src/Emitter/Sink.antt =====
-- src/compiler_emit.c: a sequence of writes, and the bytes that the sink gives.
use phantomshell.Base.{
  ℕ, zero, suc, ◌+◌, ◌-◌, ◌*◌, ◌≤◌, ◌<◌, ◌≡◌, inl, inr, refl, ap, sym, ◌∙◌, false, Option, none,
  some, List, [], ◌∷◌, ◌++◌, arith, length, take, ◌==◌, take_all,
}
use mathlib.Core.List.{append_assoc, append-nil}
use phantomshell.Emitter.{
  Emitter, emitter_emit_buffered, sink_pages, compiler_emitter_sink, compiler_emitter_buffered_new,
}
use phantomshell.Emitter.Pages.{AllPages, flatten}
use phantomshell.Emitter.Filled.{contents, IsEmpty, IsEmitter, contents-filled, contents-empty}
use phantomshell.Emitter.Refinement.{emitter_emit_buffered-Appends}

-- The loop of the sink over full pages and the filled part of the last one.
sink_pages-filled :
    (page_size : ℕ) (pages : List (List ℕ)) (page : List ℕ) (offset : ℕ)
    → 0 < page_size
    → AllPages page_size pages
    → offset ≤ page_size
    → sink_pages page_size (pages ++ (page ∷ [])) (length pages * page_size + offset)
      ≡ some (flatten pages ++ take offset page)
unfolding sink_pages
sink_pages-filled n [] page zero pos h le = let at : 0 * n + 0 ≡ 0 = omega arith in rw at refl
sink_pages-filled n [] page (suc offset) pos h le =
    let at : 0 * n + suc offset ≡ suc offset = omega arith in
    let over : suc offset - n ≡ 0 = omega arith in
    let more : (suc offset == 0) ≡ false = ground arith in
    rw (at, over, more, at, append-nil (take (suc offset) page)) refl
sink_pages-filled n (x ∷ pages) page offset pos h le =
    let more : (suc (length pages) * n + offset == 0) ≡ false = grind arith in
    let left : suc (length pages) * n + offset - n ≡ length pages * n + offset = grind arith in
    rw
      (
        left,
        more,
        sink_pages-filled n pages page offset pos h.1 le,
        take_all x (suc (length pages) * n + offset) (grind (arith, h.0)),
      )
      (ap some (sym (append_assoc x (flatten pages) (take offset page))))

-- Too few pages for the size.
pub sink_pages-short :
    (page_size : ℕ) (pages : List (List ℕ)) (bytes_left : ℕ)
    → length pages * page_size < bytes_left
    → sink_pages page_size pages bytes_left ≡ none
unfolding sink_pages
sink_pages-short n [] left h = let more : (left == 0) ≡ false = ground arith in rw more refl
sink_pages-short n (page ∷ pages) left h =
    let more : (left == 0) ≡ false = ground arith in
    rw (more, sink_pages-short n pages (left - n) (grind arith)) refl

-- The sink of a valid emitter writes the bytes that it holds.
pub compiler_emitter_sink-contents :
    (e : Emitter) → IsEmitter e → compiler_emitter_sink e ≡ some (contents e)
unfolding compiler_emitter_sink sink_pages
compiler_emitter_sink-contents e (pos, inl m) = rw (m.no_earlier, m.no_page, m.no_size) refl
compiler_emitter_sink-contents e (pos, inr (page, offset, f)) =
    rw (f.has_page, f.filled)
      (sink_pages-filled e.page_size e.earlier page offset pos f.pages f.within)
    ∙ ap some (sym (contents-filled e page offset f))

-- A sequence of writes.
unfoldable pub emit_all : Emitter → List (List ℕ) → Option Emitter
unfolding emitter_emit_buffered
emit_all e [] = some e
emit_all e (bytes ∷ writes) = elim (emitter_emit_buffered e bytes) [
  | none ↦ none
  | some e' ↦ emit_all e' writes
]

abbrev pub AllFit : ℕ → List (List ℕ) → Type 0
AllFit n [] = Unit
AllFit n (bytes ∷ writes) = (length bytes ≤ n) × AllFit n writes

size-le-capacity : (e : Emitter) → IsEmitter e → e.size ≤ e.capacity
size-le-capacity e (pos, inl m) = omega (arith, m.no_size)
size-le-capacity e (pos, inr (page, offset, f)) = omega (arith, f.filled, f.within, f.room)

emit_all-next :
    (e : Emitter) (bytes : List ℕ) (writes : List (List ℕ)) (e' : Emitter)
    → emitter_emit_buffered e bytes ≡ some e'
    → emit_all e (bytes ∷ writes) ≡ emit_all e' writes
unfolding emit_all
emit_all-next e bytes writes e' w =
    ap (λ (r : Option Emitter). elim r [ none ↦ none | some e1 ↦ emit_all e1 writes ]) w

emit_all-contents :
    (e : Emitter) (writes : List (List ℕ))
    → IsEmitter e
    → AllFit e.page_size writes
    → (e' : Emitter) × (emit_all e writes ≡ some e')
      × IsEmitter e'
      × (contents e' ≡ contents e ++ flatten writes)
unfolding emit_all
emit_all-contents e [] v h = (e, refl, v, sym (append-nil (contents e)))
emit_all-contents e (bytes ∷ writes) v h =
    let (e1, w, a) =
      emitter_emit_buffered-Appends e bytes v (omega (arith, h.0, size-le-capacity e v)) in
    let (e', all, v', held) = emit_all-contents e1 writes a.valid (rw a.same_page_size h.1) in
    (
      e',
      emit_all-next e bytes writes e1 w ∙ all,
      v',
      held
          ∙ ap (λ t. t ++ flatten writes) a.holds
          ∙ append_assoc (contents e) bytes (flatten writes),
    )

-- A new buffered emitter with pages of `n` bytes, `n` not 0, takes any sequence of writes of at most
-- `n` bytes each, and the sink then gives the bytes of all writes in order.
pub emit_all-sink :
    (n : ℕ) (writes : List (List ℕ))
    → 0 < n
    → AllFit n writes
    → (e : Emitter) × (emit_all (compiler_emitter_buffered_new n) writes ≡ some e)
      × (compiler_emitter_sink e ≡ some (flatten writes))
unfolding compiler_emitter_buffered_new
emit_all-sink n writes pos h =
    let new : IsEmpty (compiler_emitter_buffered_new n) = record {
      no_earlier = refl;
      no_page = refl;
      no_size = refl;
      no_capacity = refl;
    } in
    let (e, all, v, held) =
      emit_all-contents (compiler_emitter_buffered_new n) writes (pos, inl new) h in
    (
      e,
      all,
      compiler_emitter_sink-contents e v
          ∙ ap some (
              held
              ∙ ap (λ t. t ++ flatten writes)
                  (contents-empty (compiler_emitter_buffered_new n) new)),
    )
