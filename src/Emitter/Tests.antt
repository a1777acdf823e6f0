-- ===== src/Emitter/Tests.antt =====
-- Runs of the emitters.
use phantomshell.Base.{ℕ, ◌≡◌, refl, inr, some, none, List, [], ◌∷◌, arith}
use phantomshell.Vm.{ok}
use phantomshell.Vm.Pool.{copy_to}
use phantomshell.Vm.Machine.{vm_static_init}
use phantomshell.Vm.Tests.{host}
use phantomshell.Emitter.{
  Emitter, compiler_emitter_buffered_new, emitter_emit_raw, compiler_emitter_sink,
}
use phantomshell.Emitter.Pages.{flatten}
use phantomshell.Emitter.Filled.{IsFilled}
use phantomshell.Emitter.Writes.{Appends}
use phantomshell.Emitter.Sink.{emit_all, emit_all-sink}
use phantomshell.Emitter.Raw.{emitter_emit_raw-Appends, emitter_emit_raw-full}

-- Three writes over two pages of four bytes.
abbrev three_writes : List (List ℕ)
three_writes = (1 ∷ 2 ∷ 3 ∷ []) ∷ (4 ∷ 5 ∷ 6 ∷ []) ∷ (7 ∷ []) ∷ []

split_test :
    emit_all (compiler_emitter_buffered_new 4) three_writes
    ≡ some (record {
      earlier = (1 ∷ 2 ∷ 3 ∷ 4 ∷ []) ∷ [];
      last_page = some (5 ∷ 6 ∷ 7 ∷ 0 ∷ []);
      size = 7;
      capacity = 8;
      page_size = 4;
    })
unfolding emit_all compiler_emitter_buffered_new
split_test = refl

emit_all-sink_example :
    (e : Emitter) × (emit_all (compiler_emitter_buffered_new 4) three_writes ≡ some e)
    × (compiler_emitter_sink e ≡ some (flatten three_writes))
emit_all-sink_example =
    emit_all-sink 4 three_writes (omega arith) (omega arith, (omega arith, (omega arith, tt)))

-- An emitter with one full page.
abbrev full : Emitter
full = record { earlier = []; last_page = some (1 ∷ 2 ∷ []); size = 2; capacity = 2; page_size = 2 }

full-IsFilled : IsFilled full (1 ∷ 2 ∷ []) 2
full-IsFilled = record {
  has_page = refl;
  pages = tt;
  width = refl;
  filled = refl;
  within = omega arith;
  room = refl;
}

-- An emitter with room for one byte.
abbrev nearly_full : Emitter
nearly_full = record {
  earlier = [];
  last_page = some (1 ∷ 0 ∷ []);
  size = 1;
  capacity = 2;
  page_size = 2;
}

nearly_full-IsFilled : IsFilled nearly_full (1 ∷ 0 ∷ []) 1
nearly_full-IsFilled = record {
  has_page = refl;
  pages = tt;
  width = refl;
  filled = refl;
  within = omega arith;
  room = refl;
}

emitter_emit_raw-Appends_example :
    (e : Emitter) × (emitter_emit_raw host 5 nearly_full (7 ∷ 8 ∷ 9 ∷ 10 ∷ []) (vm_static_init host)
      ≡ some (e, ok (vm_static_init host)))
    × Appends nearly_full (7 ∷ 8 ∷ 9 ∷ 10 ∷ []) e
emitter_emit_raw-Appends_example =
    emitter_emit_raw-Appends host 5 nearly_full (7 ∷ 8 ∷ 9 ∷ 10 ∷ []) (vm_static_init host) refl
      (omega arith, inr (1 ∷ 0 ∷ [], 1, nearly_full-IsFilled)) (λ h. absurd (omega arith))
      (omega arith)

emitter_emit_raw-full_example :
    (e : Emitter) × (emitter_emit_raw host 3 full (9 ∷ []) (vm_static_init host)
      ≡ some (e, ok (vm_static_init host)))
    × (e.last_page ≡ some (copy_to (1 ∷ 2 ∷ []) 0 (9 ∷ [])))
    × (e.earlier ≡ full.earlier)
    × (compiler_emitter_sink e ≡ none)
emitter_emit_raw-full_example =
    emitter_emit_raw-full host 2 full (1 ∷ 2 ∷ []) (9 ∷ []) (vm_static_init host) refl (omega arith)
      full-IsFilled (omega arith) (omega arith)
