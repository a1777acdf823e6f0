-- ===== src/Emitter/Raw.antt =====
-- src/compiler_emit.c: writes of any number of bytes.
use phantomshell.Base.{
  ℕ, zero, suc, ◌+◌, ◌-◌, ◌*◌, ◌%◌, ◌≤◌, ◌<◌, ◌≡◌, ◌==◌, false, inl, inr, refl, ap, sym, ◌∙◌,
  Option, none, some, List, [], ◌∷◌, ◌++◌, arith, length, length-append, length-replicate, take,
  drop, lt→ltb, ≤→ltb, take_all, take-drop, length-take, length-drop,
}
use mathlib.Core.List.{append_assoc, append-nil}
use native.Mathlib.Nat.{mul-add-mod_self_right, mod-eq_of_lt}
use phantomshell.Emitter.Sink.{sink_pages-short}
use native.Mathlib.Decide.{dec_lt}
use phantomshell.Emitter.{
  Emitter, new_page, compiler_emitter_sink, raw_write, raw_to_pages, int32_max, with_machine,
  emitter_emit_raw,
}
use phantomshell.Emitter.Pages.{flatten, AllPages-append, flatten-append}
use phantomshell.Emitter.Filled.{
  contents, IsFilled, IsEmitter, contents-filled, grown, first-IsFilled, contents-first,
}
use phantomshell.Emitter.Writes.{Appends, fill-Appends, offset-filled, Appends-transfer}
use phantomshell.Vm.{ok}
use phantomshell.Vm.Pool.{copy_to}
use phantomshell.Vm.Machine.{Host, Machine}
use phantomshell.Vm.Copy.{length-copy_to, copy_to_end}

-- The emitter after a round of the loop that fills the last page and takes a new one.
abbrev filled_up : Emitter → List ℕ → ℕ → List ℕ → Emitter
filled_up e page offset bytes = record e {
  earlier = e.earlier ++ (copy_to page offset (take (e.page_size - offset) bytes) ∷ []);
  last_page = some (new_page e.page_size);
  size = e.size + (e.page_size - offset);
  capacity = e.capacity + e.page_size;
}

module _ (e : Emitter) (bytes page : List ℕ) (offset : ℕ) (f : IsFilled e page offset)
    (over : e.page_size - offset < length bytes) where
  filled_up-IsFilled : IsFilled (filled_up e page offset bytes) (new_page e.page_size) 0
  filled_up-IsFilled =
      let page' : List ℕ = copy_to page offset (take (e.page_size - offset) bytes) in
      record {
        has_page = refl;
        pages =
            AllPages-append e.page_size e.earlier (page' ∷ []) f.pages
              (length-copy_to page offset (take (e.page_size - offset) bytes) ∙ f.width, tt);
        width = length-replicate e.page_size 0;
        filled = rw (length-append e.earlier (page' ∷ [])) (grind (arith, f.filled, f.within));
        within = omega arith;
        room = rw (length-append e.earlier (page' ∷ [])) (grind (arith, f.room));
      }

  filled_up-contents :
      contents (filled_up e page offset bytes) ≡ contents e ++ take (e.page_size - offset) bytes
  filled_up-contents =
      let page' : List ℕ = copy_to page offset (take (e.page_size - offset) bytes) in
      let first : length (take (e.page_size - offset) bytes) ≡ e.page_size - offset =
        length-take (e.page_size - offset) bytes (omega arith) in
      let whole : page' ≡ take offset page ++ take (e.page_size - offset) bytes =
        copy_to_end page offset (take (e.page_size - offset) bytes)
          (omega (arith, first, f.width, f.within)) in
      contents-filled (filled_up e page offset bytes) (new_page e.page_size) 0 filled_up-IsFilled
      ∙ append-nil (flatten (e.earlier ++ (page' ∷ [])))
      ∙ (rw (flatten-append e.earlier (page' ∷ []), append-nil page', whole)
          (sym (
            append_assoc (flatten e.earlier) (take offset page)
              (take (e.page_size - offset) bytes))))
      ∙ ap (λ t. t ++ take (e.page_size - offset) bytes) (sym (contents-filled e page offset f))

  filled_up-Appends :
      (e' : Emitter)
      → Appends (filled_up e page offset bytes) (drop (e.page_size - offset) bytes) e'
      → Appends e bytes e'
  filled_up-Appends e' a = record {
    valid = a.valid;
    holds =
        a.holds
        ∙ ap (λ t. t ++ drop (e.page_size - offset) bytes) filled_up-contents
        ∙ append_assoc (contents e) (take (e.page_size - offset) bytes)
            (drop (e.page_size - offset) bytes)
        ∙ ap (λ t. contents e ++ t) (take-drop (e.page_size - offset) bytes);
    sized = omega (arith, a.sized, length-drop (e.page_size - offset) bytes);
    same_page_size = a.same_page_size;
  }

-- A last page with room is written from its offset, and pages are added for the bytes that are left.
raw_write-Appends :
    (fuel : ℕ) (e : Emitter) (bytes page : List ℕ) (offset : ℕ)
    → 0 < e.page_size
    → IsFilled e page offset
    → offset < e.page_size
    → length bytes < fuel
    → (e' : Emitter) × (raw_write fuel e page bytes ≡ some e') × Appends e bytes e'
unfolding raw_write
raw_write-Appends zero e bytes page offset pos f lt enough = absurd (omega arith)
raw_write-Appends (suc fuel) e bytes page offset pos f lt enough =
    elim (dec_lt (e.page_size - offset) (length bytes)) [
      | yes over ↦
          let (e', w, a) =
            raw_write-Appends fuel (filled_up e page offset bytes)
              (drop (e.page_size - offset) bytes) (new_page e.page_size) 0 pos
              (filled_up-IsFilled e bytes page offset f over) pos
              (omega (arith, length-drop (e.page_size - offset) bytes)) in
          (
            e',
            rw (offset-filled e page offset f lt, lt→ltb (e.page_size - offset) (length bytes) over)
                w,
            filled_up-Appends e bytes page offset f over e' a,
          )
      | no fits ↦ (
        record e { last_page = some (copy_to page offset bytes); size = e.size + length bytes },
        rw
            (
              offset-filled e page offset f lt,
              ≤→ltb (length bytes) (e.page_size - offset) (omega arith),
              take_all bytes (e.page_size - offset) (omega arith),
            )
            refl,
        fill-Appends e bytes page offset pos f (omega arith),
      )
    ]

emit_raw-page :
    (fuel : ℕ) (e : Emitter) (bytes page : List ℕ)
    → e.last_page ≡ some page
    → raw_to_pages fuel e bytes ≡ raw_write fuel e page bytes
unfolding raw_to_pages
emit_raw-page fuel e bytes page h =
    ap
      (λ (p : Option (List ℕ)). elim p [
        | some page ↦ raw_write fuel e page bytes
        | none ↦
            raw_write fuel
              (record e {
                last_page = some (new_page e.page_size);
                capacity = e.capacity + e.page_size;
              })
              (new_page e.page_size) bytes
      ])
      h

emit_raw-first :
    (fuel : ℕ) (e : Emitter) (bytes : List ℕ)
    → e.last_page ≡ none
    → raw_to_pages fuel e bytes ≡ raw_write fuel (grown e) (new_page e.page_size) bytes
unfolding raw_to_pages
emit_raw-first fuel e bytes h = rw h refl

-- On a valid emitter whose page size does not mark it as unbuffered, and whose last page is not full, a raw
-- write of any number of bytes succeeds within one round for each byte and one more, appends the bytes, and
-- leaves the machine as it is.
pub emitter_emit_raw-Appends :
    (host : Host) (fuel : ℕ) (e : Emitter) (bytes : List ℕ) (vm : Machine)
    → (e.page_size == int32_max) ≡ false
    → IsEmitter e
    → (e.size ≡ e.capacity → e.capacity ≡ 0)
    → length bytes < fuel
    → (e' : Emitter) × (emitter_emit_raw host fuel e bytes vm ≡ some (e', ok vm))
      × Appends e bytes e'
unfolding emitter_emit_raw
emitter_emit_raw-Appends host fuel e bytes vm buffered (pos, inr (page, offset, f)) room enough =
    let lt : offset < e.page_size = elim (dec_lt offset e.page_size) [
      | yes lt ↦ lt
      | no ge ↦
          let full : e.size ≡ e.capacity = omega (arith, f.room, f.filled, f.within) in
          absurd (grind (arith, f.room, room full))
    ] in
    let (e', w, a) = raw_write-Appends fuel e bytes page offset pos f lt enough in
    (e', rw buffered (ap (with_machine vm) (emit_raw-page fuel e bytes page f.has_page ∙ w)), a)
emitter_emit_raw-Appends host fuel e bytes vm buffered (pos, inl m) room enough =
    let (e', w, a) =
      raw_write-Appends fuel (grown e) bytes (new_page e.page_size) 0 pos (first-IsFilled e m) pos
        enough in
    (
      e',
      rw buffered (ap (with_machine vm) (emit_raw-first fuel e bytes m.no_page ∙ w)),
      Appends-transfer e bytes e' (contents-first e m) a,
    )

-- On an emitter whose page size does not mark it as unbuffered, and whose last page is full, a raw write of
-- at least one byte and at most a page goes to the start of that page, over the bytes that stand there,
-- and no page is added: the sink then runs past the last page.
pub emitter_emit_raw-full :
    (host : Host) (fuel : ℕ) (e : Emitter) (page bytes : List ℕ) (vm : Machine)
    → (e.page_size == int32_max) ≡ false
    → 0 < e.page_size
    → IsFilled e page e.page_size
    → 0 < length bytes
    → length bytes ≤ e.page_size
    → (e' : Emitter) × (emitter_emit_raw host (suc fuel) e bytes vm ≡ some (e', ok vm))
      × (e'.last_page ≡ some (copy_to page 0 bytes))
      × (e'.earlier ≡ e.earlier)
      × (compiler_emitter_sink e' ≡ none)
unfolding emitter_emit_raw raw_to_pages raw_write compiler_emitter_sink
emitter_emit_raw-full host fuel e page bytes vm buffered pos f some_bytes fits =
    let full : e.size ≡ suc (length e.earlier) * e.page_size + 0 = grind (arith, f.filled) in
    let at : e.size % e.page_size ≡ 0 =
      rw (full, mul-add-mod_self_right (suc (length e.earlier)) e.page_size 0) (mod-eq_of_lt pos) in
    let page' : List ℕ = copy_to page 0 bytes in
    (
      record e { last_page = some (copy_to page 0 bytes); size = e.size + length bytes },
      rw
          (
            buffered,
            f.has_page,
            raw_write,
            at,
            ≤→ltb (length bytes) (e.page_size - 0) (omega arith),
            take_all bytes (e.page_size - 0) (omega arith),
          )
          refl,
      refl,
      refl,
      sink_pages-short e.page_size (e.earlier ++ (page' ∷ [])) (e.size + length bytes)
          (rw (length-append e.earlier (page' ∷ [])) (grind (arith, f.filled))),
    )
