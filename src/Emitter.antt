-- ===== src/Emitter.antt =====
-- src/compiler_emit.c: the emitters of bytecode. The pages of a buffered emitter are linked: `earlier`
-- has those before the last one, the first page first. A page is a list of `page_size` bytes; the link
-- behind it is the order of the list. `none` is a write past the end of a page, or through a null page.
pub mod Pages
pub mod Filled
pub mod Writes
pub mod Refinement
pub mod Unbuffered
pub mod Sink
pub mod Raw
pub mod Tests
use phantomshell.Base.{
  ℕ, zero, suc, ◌+◌, ◌-◌, ◌*◌, ◌%◌, ◌≤◌, ◌≡◌, Option, none, some, List, [], ◌∷◌, ◌++◌, ltb, leb,
  ◌==◌, if◌then◌else◌, length, take, drop, replicate,
}
use phantomshell.Vm.{Run, ok, ◌>>=◌}
use phantomshell.Vm.Pool.{copy_to}
use phantomshell.Vm.Machine.{Host, Machine, vm_execute_opcodes}

-- `struct bytecode_emitter_t`, of a buffered emitter.
pub record Emitter : Type 0 where
  pub earlier : List (List ℕ)
  pub last_page : Option (List ℕ)
  pub size : ℕ
  pub capacity : ℕ
  pub page_size : ℕ

unfoldable pub compiler_emitter_buffered_new : ℕ → Emitter
compiler_emitter_buffered_new page_size = record {
  earlier = [];
  last_page = none;
  size = 0;
  capacity = 0;
  page_size = page_size;
}

-- `emitter_allocate_new_page`: a page of zeros.
abbrev pub new_page : ℕ → List ℕ
new_page page_size = replicate page_size 0

-- The pages with this one behind them.
abbrev pub link : List (List ℕ) → Option (List ℕ) → List (List ℕ)
link earlier none = earlier
link earlier (some page) = earlier ++ (page ∷ [])

-- `memcpy` to a page; `none` where it leaves the page.
unfoldable pub write_page : ℕ → List ℕ → ℕ → List ℕ → Option (List ℕ)
unfolding copy_to
write_page page_size page offset bytes =
    if leb (offset + length bytes) page_size then some (copy_to page offset bytes) else none

-- Behind the label `normal_write`: the bytes go to the last page. No page is needed for no bytes.
unfoldable pub normal_write : Emitter → List ℕ → Option Emitter
unfolding write_page
normal_write e bytes = elim e.last_page [
  | none ↦ if length bytes == 0 then some e else none
  | some page ↦ elim (write_page e.page_size page (e.size % e.page_size) bytes) [
    | none ↦ none
    | some page' ↦ some (record e { last_page = some page'; size = e.size + length bytes })
  ]
]

-- The bytes that are split between the page that was the last and a new one.
unfoldable pub split_write : Emitter → List ℕ → Option Emitter
unfolding write_page
split_write e bytes =
    let prev_free_space = e.capacity - e.size in
    elim e.last_page [
      | none ↦ none
      | some page ↦
          elim (write_page e.page_size page (e.page_size - prev_free_space)
            (take prev_free_space bytes)) [
              | none ↦ none
              | some page' ↦
                  elim (write_page e.page_size (new_page e.page_size) 0
                    (drop prev_free_space bytes)) [
                      | none ↦ none
                      | some next ↦ some (record e {
                        earlier = e.earlier ++ (page' ∷ []);
                        last_page = some next;
                        size = e.size + length bytes;
                        capacity = e.capacity + e.page_size;
                      })
                    ]
            ]
    ]

-- `emitter_emit_buffered`, which returns the number of bytes.
unfoldable pub emitter_emit_buffered : Emitter → List ℕ → Option Emitter
unfolding normal_write split_write
emitter_emit_buffered e bytes =
    let grown : Emitter = record e {
      earlier = link e.earlier e.last_page;
      last_page = some (new_page e.page_size);
      capacity = e.capacity + e.page_size;
    } in
    if ltb e.capacity (e.size + length bytes)
    then if e.size == e.capacity then normal_write grown bytes else split_write e bytes
    else normal_write e bytes

-- The loop of `emitter_emit_raw` behind the label `raw_write`, over the bytes left; fuel bounds its
-- rounds.
unfoldable pub raw_write : ℕ → Emitter → List ℕ → List ℕ → Option Emitter
unfolding copy_to
raw_write zero e page bytes = none
raw_write (suc fuel) e page bytes =
    let offset = e.size % e.page_size in
    let left = e.page_size - offset in
    let page' = copy_to page offset (take left bytes) in
    let more =
      raw_write fuel
        (record e {
          earlier = e.earlier ++ (page' ∷ []);
          last_page = some (new_page e.page_size);
          size = e.size + left;
          capacity = e.capacity + e.page_size;
        })
        (new_page e.page_size) (drop left bytes) in
    if ltb left (length bytes)
    then more
    else some (record e { last_page = some page'; size = e.size + length bytes })

-- `emitter_emit_raw` behind the test for an unbuffered emitter.
unfoldable pub raw_to_pages : ℕ → Emitter → List ℕ → Option Emitter
unfolding raw_write
raw_to_pages fuel e bytes = elim e.last_page [
  | some page ↦ raw_write fuel e page bytes
  | none ↦
      raw_write fuel
        (record e { last_page = some (new_page e.page_size); capacity = e.capacity + e.page_size })
        (new_page e.page_size) bytes
]

abbrev pub int32_max : ℕ
int32_max = 2147483647

abbrev pub with_machine : Machine → Option Emitter → Option (Emitter × Run Machine)
with_machine vm none = none
with_machine vm (some e) = some (e, ok vm)

-- `emitter_emit_raw`: the emitter, and the machine, which runs the bytes if the page size marks the emitter as
-- unbuffered. Fuel bounds the rounds of the loop, or the instructions.
unfoldable pub emitter_emit_raw :
    Host → ℕ → Emitter → List ℕ → Machine → Option (Emitter × Run Machine)
unfolding raw_to_pages
emitter_emit_raw host fuel e bytes vm =
    if e.page_size == int32_max
    then some (e, vm_execute_opcodes host fuel vm bytes 0 >>= λ r. ok r.1)
    else with_machine vm (raw_to_pages fuel e bytes)

-- The loop of `compiler_emitter_sink` over the linked pages: the bytes that it writes.
unfoldable pub sink_pages : ℕ → List (List ℕ) → ℕ → Option (List ℕ)
sink_pages page_size [] bytes_left = if bytes_left == 0 then some [] else none
sink_pages page_size (page ∷ pages) bytes_left =
    let rest = sink_pages page_size pages (bytes_left - page_size) in
    if bytes_left == 0
    then some []
    else elim rest [ none ↦ none | some out ↦ some (take bytes_left page ++ out) ]

unfoldable pub compiler_emitter_sink : Emitter → Option (List ℕ)
unfolding sink_pages
compiler_emitter_sink e = sink_pages e.page_size (link e.earlier e.last_page) e.size

-- The loop of `compiler_emitter_buffered_destroy`: the pages that it frees, in order.
abbrev pub compiler_emitter_buffered_destroy : Emitter → List (List ℕ)
compiler_emitter_buffered_destroy e = link e.earlier e.last_page
