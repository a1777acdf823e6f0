-- ===== src/Emitter/Writes.antt =====
-- src/compiler_emit.c: the ways in which a buffered emitter writes bytes.
use native.Mathlib.Nat.{mul-add-mod_self_right, mod-eq_of_lt}
use mathlib.Core.List.{append_assoc, append-nil}
use phantomshell.Base.{
  ℕ, suc, ◌+◌, ◌-◌, ◌*◌, ◌%◌, ◌≤◌, ◌<◌, ◌≡◌, inr, refl, ap, sym, ◌∙◌, true, false, some, List, [],
  ◌∷◌, ◌++◌, arith, length, length-append, length-replicate, take, drop, ◌==◌, lt→ltb, ≤→ltb,
  take-drop, length-take, length-drop, le→leb,
}
use phantomshell.Vm.Pool.{copy_to}
use phantomshell.Vm.Copy.{take-copy_to, length-copy_to, copy_to_nothing, copy_to_end}
use phantomshell.Emitter.{
  Emitter, new_page, write_page, normal_write, split_write, emitter_emit_buffered,
}
use phantomshell.Emitter.Pages.{flatten, AllPages-append, flatten-append}
use phantomshell.Emitter.Filled.{contents, IsFilled, IsEmitter, contents-filled, grown}

-- What a write of bytes leaves: the bytes at the end, and nothing else changed.
pub record Appends (e : Emitter) (bytes : List ℕ) (e' : Emitter) : Type 0 where
  pub valid : IsEmitter e'
  pub holds : contents e' ≡ contents e ++ bytes
  pub sized : e'.size ≡ e.size + length bytes
  pub same_page_size : e'.page_size ≡ e.page_size

-- The bytes copied to the last page behind the offset.
pub fill-Appends :
    (e : Emitter) (bytes page : List ℕ) (offset : ℕ)
    → 0 < e.page_size
    → IsFilled e page offset
    → offset + length bytes ≤ e.page_size
    → Appends e bytes
        (record e { last_page = some (copy_to page offset bytes); size = e.size + length bytes })
fill-Appends e bytes page offset pos f fits =
    let e' : Emitter = record e {
      last_page = some (copy_to page offset bytes);
      size = e.size + length bytes;
    } in
    let f' : IsFilled e' (copy_to page offset bytes) (offset + length bytes) = record {
      has_page = refl;
      pages = f.pages;
      width = length-copy_to page offset bytes ∙ f.width;
      filled = omega (arith, f.filled);
      within = fits;
      room = f.room;
    } in
    record {
      valid = (pos, inr (copy_to page offset bytes, offset + length bytes, f'));
      holds =
          contents-filled e' (copy_to page offset bytes) (offset + length bytes) f'
          ∙ ap (λ t. flatten e.earlier ++ t)
              (take-copy_to page offset bytes (omega (arith, f.width)))
          ∙ sym (append_assoc (flatten e.earlier) (take offset page) bytes)
          ∙ ap (λ t. t ++ bytes) (sym (contents-filled e page offset f));
      sized = refl;
      same_page_size = refl;
    }

pub offset-filled :
    (e : Emitter) (page : List ℕ) (offset : ℕ)
    → IsFilled e page offset
    → offset < e.page_size
    → e.size % e.page_size ≡ offset
offset-filled e page offset f lt =
    rw (f.filled, mul-add-mod_self_right (length e.earlier) e.page_size offset) (mod-eq_of_lt lt)

pub normal-Appends :
    (e : Emitter) (bytes page : List ℕ) (offset : ℕ)
    → 0 < e.page_size
    → IsFilled e page offset
    → offset < e.page_size
    → offset + length bytes ≤ e.page_size
    → (e' : Emitter) × (normal_write e bytes ≡ some e') × Appends e bytes e'
unfolding normal_write write_page
normal-Appends e bytes page offset pos f lt fits = (
  record e { last_page = some (copy_to page offset bytes); size = e.size + length bytes },
  rw
      (
        f.has_page,
        normal_write,
        offset-filled e page offset f lt,
        le→leb (offset + length bytes) e.page_size fits,
      )
      refl,
  fill-Appends e bytes page offset pos f fits,
)

-- Every byte of the last page is taken, and there is nothing to write.
pub nothing-Appends :
    (e : Emitter) (page : List ℕ) (offset : ℕ)
    → 0 < e.page_size
    → IsFilled e page offset
    → e.page_size ≤ offset
    → (e' : Emitter) × (normal_write e [] ≡ some e') × Appends e [] e'
unfolding normal_write write_page
nothing-Appends e page offset pos f ge =
    let full : e.size ≡ suc (length e.earlier) * e.page_size + 0 =
      grind (arith, f.filled, f.within) in
    let at : e.size % e.page_size ≡ 0 =
      rw (full, mul-add-mod_self_right (suc (length e.earlier)) e.page_size 0) (mod-eq_of_lt pos) in
    let same : e.size + 0 ≡ e.size = omega arith in
    let e' : Emitter = record e { last_page = some page; size = e.size + 0 } in
    let f' : IsFilled e' page offset = record {
      has_page = refl;
      pages = f.pages;
      width = f.width;
      filled = omega (arith, f.filled);
      within = f.within;
      room = f.room;
    } in
    (
      e',
      rw
          (
            f.has_page,
            normal_write,
            at,
            copy_to_nothing page 0,
            le→leb (0 + length {A = ℕ} []) e.page_size (omega arith),
          )
          refl,
      record {
        valid = (pos, inr (page, offset, f'));
        holds =
            contents-filled e' page offset f'
            ∙ sym (contents-filled e page offset f)
            ∙ sym (append-nil (contents e));
        sized = refl;
        same_page_size = refl;
      },
    )

pub Appends-transfer :
    (e : Emitter) (bytes : List ℕ) (e' : Emitter)
    → contents (grown e) ≡ contents e
    → Appends (grown e) bytes e'
    → Appends e bytes e'
Appends-transfer e bytes e' same a = record {
  valid = a.valid;
  holds = a.holds ∙ ap (λ t. t ++ bytes) same;
  sized = a.sized;
  same_page_size = a.same_page_size;
}

-- The three ways of a write.
pub emit-room :
    (e : Emitter) (bytes : List ℕ)
    → e.size + length bytes ≤ e.capacity
    → emitter_emit_buffered e bytes ≡ normal_write e bytes
unfolding emitter_emit_buffered
emit-room e bytes h = rw (≤→ltb (e.size + length bytes) e.capacity h) refl

pub emit-grown :
    (e : Emitter) (bytes : List ℕ)
    → e.capacity < e.size + length bytes
    → e.size ≡ e.capacity
    → emitter_emit_buffered e bytes ≡ normal_write (grown e) bytes
unfolding emitter_emit_buffered
emit-grown e bytes h k =
    let same : (e.size == e.capacity) ≡ true = ground arith in
    rw (lt→ltb e.capacity (e.size + length bytes) h, same) refl

pub emit-split :
    (e : Emitter) (bytes : List ℕ)
    → e.capacity < e.size + length bytes
    → e.size < e.capacity
    → emitter_emit_buffered e bytes ≡ split_write e bytes
unfolding emitter_emit_buffered
emit-split e bytes h k =
    let other : (e.size == e.capacity) ≡ false = ground arith in
    rw (lt→ltb e.capacity (e.size + length bytes) h, other) refl

regroup :
    (first second bytes : List ℕ) (k : ℕ)
    → (first ++ (second ++ take k bytes)) ++ drop k bytes ≡ (first ++ second) ++ bytes
regroup first second bytes k = simp (append_assoc, take-drop)

-- The bytes that start on the last page and end on a new one.
pub split-Appends :
    (e : Emitter) (bytes page : List ℕ) (offset : ℕ)
    → 0 < e.page_size
    → IsFilled e page offset
    → offset < e.page_size
    → e.page_size < offset + length bytes
    → offset + length bytes ≤ e.page_size + e.page_size
    → (e' : Emitter) × (split_write e bytes ≡ some e') × Appends e bytes e'
unfolding split_write write_page
split-Appends e bytes page offset pos f lt over fits =
    let free : e.capacity - e.size ≡ e.page_size - offset = omega (arith, f.room, f.filled) in
    let at : e.page_size - (e.page_size - offset) ≡ offset = omega arith in
    let first : length (take (e.page_size - offset) bytes) ≡ e.page_size - offset =
      length-take (e.page_size - offset) bytes (omega arith) in
    let second : length (drop (e.page_size - offset) bytes)
        ≡ length bytes - (e.page_size - offset) =
      length-drop (e.page_size - offset) bytes in
    let page' : List ℕ = copy_to page offset (take (e.page_size - offset) bytes) in
    let next : List ℕ = copy_to (new_page e.page_size) 0 (drop (e.page_size - offset) bytes) in
    let e' : Emitter = record e {
      earlier = e.earlier ++ (page' ∷ []);
      last_page = some next;
      size = e.size + length bytes;
      capacity = e.capacity + e.page_size;
    } in
    let f' : IsFilled e' next (offset + length bytes - e.page_size) = record {
      has_page = refl;
      pages =
          AllPages-append e.page_size e.earlier (page' ∷ []) f.pages
            (length-copy_to page offset (take (e.page_size - offset) bytes) ∙ f.width, tt);
      width =
          length-copy_to (new_page e.page_size) 0 (drop (e.page_size - offset) bytes)
          ∙ length-replicate e.page_size 0;
      filled = rw (length-append e.earlier (page' ∷ [])) (grind (arith, f.filled));
      within = omega arith;
      room = rw (length-append e.earlier (page' ∷ [])) (grind (arith, f.room));
    } in
    let whole : page' ≡ take offset page ++ take (e.page_size - offset) bytes =
      copy_to_end page offset (take (e.page_size - offset) bytes) (omega (arith, first, f.width)) in
    let left : offset + length bytes - e.page_size
        ≡ 0 + length (drop (e.page_size - offset) bytes) =
      omega (arith, second) in
    let rest : take (offset + length bytes - e.page_size) next ≡ drop (e.page_size - offset) bytes =
      ap (λ n. take n next) left
      ∙ take-copy_to (new_page e.page_size) 0 (drop (e.page_size - offset) bytes)
          (omega (arith, second, length-replicate {A = ℕ} e.page_size 0)) in
    (
      e',
      rw
          (
            f.has_page,
            split_write,
            free,
            at,
            le→leb (offset + length (take (e.page_size - offset) bytes)) e.page_size
                (omega (arith, first)),
            free,
            le→leb (0 + length (drop (e.page_size - offset) bytes)) e.page_size
                (omega (arith, second)),
          )
          refl,
      record {
        valid = (pos, inr (next, offset + length bytes - e.page_size, f'));
        holds =
            contents-filled e' next (offset + length bytes - e.page_size) f'
            ∙ ap (λ t. t ++ take (offset + length bytes - e.page_size) next)
                (flatten-append e.earlier (page' ∷ []))
            ∙ (rw (append-nil page', whole, rest)
                (regroup (flatten e.earlier) (take offset page) bytes (e.page_size - offset)))
            ∙ ap (λ t. t ++ bytes) (sym (contents-filled e page offset f));
        sized = refl;
        same_page_size = refl;
      },
    )
