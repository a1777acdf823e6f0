-- ===== src/Emitter/Filled.antt =====
-- src/compiler_emit.c: the states of a buffered emitter, and the bytes that it holds.
use mathlib.Core.List.{append-nil}
use phantomshell.Base.{
  ℕ, ◌+◌, ◌*◌, ◌≤◌, ◌<◌, ◌≡◌, ◌⊎◌, refl, ap, sym, ◌∙◌, none, some, List, [], ◌∷◌, ◌++◌, arith,
  length, length-append, length-replicate, take, take-append_past, take_all,
}
use phantomshell.Emitter.{Emitter, new_page, link}
use phantomshell.Emitter.Pages.{AllPages, flatten, AllPages-append, length-flatten, flatten-append}

-- The bytes that an emitter holds.
abbrev pub contents : Emitter → List ℕ
contents e = take e.size (flatten (link e.earlier e.last_page))

-- Nothing has been emitted.
pub record IsEmpty (e : Emitter) : Type 0 where
  pub no_earlier : e.earlier ≡ []
  pub no_page : e.last_page ≡ none
  pub no_size : e.size ≡ 0
  pub no_capacity : e.capacity ≡ 0

-- The last page is filled up to an offset, and the pages before it to their ends.
pub record IsFilled (e : Emitter) (page : List ℕ) (offset : ℕ) : Type 0 where
  pub has_page : e.last_page ≡ some page
  pub pages : AllPages e.page_size e.earlier
  pub width : length page ≡ e.page_size
  pub filled : e.size ≡ length e.earlier * e.page_size + offset
  pub within : offset ≤ e.page_size
  pub room : e.capacity ≡ length e.earlier * e.page_size + e.page_size

abbrev pub IsEmitter : Emitter → Type 0
IsEmitter e =
    (0 < e.page_size) × (IsEmpty e ⊎ ((page : List ℕ) × (offset : ℕ) × IsFilled e page offset))

pub contents-filled :
    (e : Emitter) (page : List ℕ) (offset : ℕ)
    → IsFilled e page offset
    → contents e ≡ flatten e.earlier ++ take offset page
contents-filled e page offset f =
    rw
      (
        f.has_page,
        f.filled,
        flatten-append e.earlier (page ∷ []),
        append-nil page,
        ← length-flatten e.page_size e.earlier f.pages,
      )
      (take-append_past (flatten e.earlier) page offset)

-- The emitter with a page behind its last one.
abbrev pub grown : Emitter → Emitter
grown e = record e {
  earlier = link e.earlier e.last_page;
  last_page = some (new_page e.page_size);
  capacity = e.capacity + e.page_size;
}

-- The page of a first write.
pub first-IsFilled : (e : Emitter) → IsEmpty e → IsFilled (grown e) (new_page e.page_size) 0
first-IsFilled e m = record {
  has_page = refl;
  pages = rw (m.no_earlier, m.no_page) tt;
  width = length-replicate e.page_size 0;
  filled = rw (m.no_earlier, m.no_page, m.no_size) (omega arith);
  within = omega arith;
  room = rw (m.no_earlier, m.no_page, m.no_capacity) (omega arith);
}

-- The page behind a full one.
pub next-IsFilled :
    (e : Emitter) (page : List ℕ)
    → IsFilled e page e.page_size
    → IsFilled (grown e) (new_page e.page_size) 0
next-IsFilled e page f = record {
  has_page = refl;
  pages = rw f.has_page (AllPages-append e.page_size e.earlier (page ∷ []) f.pages (f.width, tt));
  width = length-replicate e.page_size 0;
  filled = rw (f.has_page, length-append e.earlier (page ∷ [])) (grind (arith, f.filled));
  within = omega arith;
  room = rw (f.has_page, length-append e.earlier (page ∷ [])) (grind (arith, f.room));
}

pub contents-empty : (e : Emitter) → IsEmpty e → contents e ≡ []
contents-empty e m = rw (m.no_size) refl

pub contents-next :
    (e : Emitter) (page : List ℕ) → IsFilled e page e.page_size → contents (grown e) ≡ contents e
contents-next e page f =
    contents-filled (grown e) (new_page e.page_size) 0 (next-IsFilled e page f)
    ∙ append-nil (flatten (link e.earlier e.last_page))
    ∙ (rw (f.has_page, flatten-append e.earlier (page ∷ []), append-nil page) refl)
    ∙ ap (λ t. flatten e.earlier ++ t) (sym (take_all page e.page_size (omega (arith, f.width))))
    ∙ sym (contents-filled e page e.page_size f)

pub contents-first : (e : Emitter) → IsEmpty e → contents (grown e) ≡ contents e
contents-first e m =
    contents-filled (grown e) (new_page e.page_size) 0 (first-IsFilled e m)
    ∙ (rw (m.no_earlier, m.no_page) refl)
    ∙ sym (contents-empty e m)
