-- ===== src/Trace.antt =====
-- src/trace.c: reading the lines of a trace, and replaying its entries on a virtual memory. The
-- functions of the C library on characters and text are parameters, and so is the virtual memory.
pub mod Replay
pub mod Reading
pub mod Meaning
pub mod Entries
pub mod Bytes
use mathlib.Core.List.{List, [], ◌∷◌}
use simulador_memoria_virtua.Base.{
  ℕ, zero, suc, ◌+◌, ◌-◌, ◌*◌, ◌%◌, Bool, true, false, not, ◌||◌, Option, none, some, ℤ, pos,
  negsuc, u64_mod, u64_max, inc64, ltb, leb, ◌==◌, if◌then◌else◌, Status, success, failure,
  no_space,
}
use simulador_memoria_virtua.Address.{page_number}

-- A text is the codes of its characters up to the final zero.
abbrev pub Text : Type 0
Text = List ℕ

-- `isspace` and `toupper`, and `sscanf` with the formats " %llx,%zu" and " %llx %zu": what it returns,
-- and the two variables, whose values before the call it is given.
pub record CLibrary : Type 0 where
  pub is_space : ℕ → Bool
  pub to_upper : ℕ → ℕ
  pub scan_comma : Text → (address size : ℕ) → ℤ × ℕ × ℕ
  pub scan_blank : Text → (address size : ℕ) → ℤ × ℕ × ℕ

pub data TraceAccessType : Type 0 where
  trace_access_read trace_access_write : TraceAccessType

pub record TraceEntry : Type 0 where
  pub type : TraceAccessType
  pub address : ℕ
  pub size : ℕ

-- `rest` are the lines that fgets has still to give, and `failed` what ferror says at the end.
pub record TraceReader : Type 0 where
  pub rest : List Text
  pub failed : Bool
  pub has_pending_entry : Bool
  pub pending_entry : TraceEntry

-- The return values 1, 0 and -1, with the entry that was read.
pub data ReadResult : Type 0 where
  found : TraceEntry → ReadResult
  nothing_read invalid : ReadResult

unfoldable pub skip_whitespace : CLibrary → Text → Text
skip_whitespace library [] = []
skip_whitespace library (c ∷ text) =
    let rest = skip_whitespace library text in if library.is_space c then rest else c ∷ text

-- Whether what `sscanf` returned is less than 1.
abbrev pub is_unmatched : ℤ → Bool
is_unmatched (pos n) = n == 0
is_unmatched (negsuc n) = true

unfoldable pub parse_parameters : CLibrary → Text → Option (ℕ × ℕ)
parse_parameters library text =
    let (first, address1, size1) = library.scan_comma text 0 1 in
    let (matched, address, size) : ℤ × ℕ × ℕ =
      if is_unmatched first
      then library.scan_blank text address1 size1
      else (first, address1, size1) in
    if is_unmatched matched || (size == 0) then none else some (address, size)

-- The entry, or the two entries, of an operation.
unfoldable pub make_entry :
    TraceReader → (operation : ℕ) → Option (ℕ × ℕ) → TraceReader × ReadResult
make_entry reader operation none = (reader, invalid)
make_entry reader operation (some (address, size)) =
    if (operation == 82) || (operation == 76)
    then (reader, found (record { type = trace_access_read; address = address; size = size }))
    else if (operation == 87) || (operation == 83)
    then (reader, found (record { type = trace_access_write; address = address; size = size }))
    else (
      record reader {
        pending_entry = record { type = trace_access_write; address = address; size = size };
        has_pending_entry = true;
      },
      found (record { type = trace_access_read; address = address; size = size }),
    )

-- `trace_parse_line` from the operation on: 'I' is 73, and R, W, L, S and M are 82, 87, 76, 83 and 77.
unfoldable pub parse_operation :
    CLibrary → TraceReader → (operation : ℕ) → Text → TraceReader × ReadResult
unfolding make_entry parse_parameters
parse_operation library reader operation text =
    if operation == 73
    then (reader, nothing_read)
    else if not (
        (operation == 82)
        || (operation == 87)
        || (operation == 76)
        || (operation == 83)
        || (operation == 77))
    then (reader, invalid)
    else make_entry reader operation (parse_parameters library text)

-- The line without the white space before it; '\n' is 10, and '#' is 35.
unfoldable pub parse_text : CLibrary → TraceReader → Text → TraceReader × ReadResult
unfolding parse_operation
parse_text library reader [] = (reader, nothing_read)
parse_text library reader (c ∷ text) =
    if (c == 10) || (c == 35)
    then (reader, nothing_read)
    else parse_operation library reader (library.to_upper c) text

unfoldable pub parse_line : CLibrary → TraceReader → Text → TraceReader × ReadResult
unfolding parse_text skip_whitespace
parse_line library reader line = parse_text library reader (skip_whitespace library line)

-- The loop of `trace_reader_next` over the lines that are left.
unfoldable pub next_line : CLibrary → List Text → TraceReader → TraceReader × ReadResult
unfolding parse_line
next_line library [] reader =
    (record reader { rest = [] }, if reader.failed then invalid else nothing_read)
next_line library (line ∷ lines) reader =
    let (reader1, result) = parse_line library (record reader { rest = lines }) line in
    let after = next_line library lines reader1 in
    elim result [
      | found entry ↦ (reader1, found entry)
      | invalid ↦ (reader1, invalid)
      | nothing_read ↦ after
    ]

unfoldable pub next : CLibrary → TraceReader → TraceReader × ReadResult
unfolding next_line
next library reader =
    if reader.has_pending_entry
    then (record reader { has_pending_entry = false }, found reader.pending_entry)
    else next_line library reader.rest reader

-- The virtual memory with its process, as the replay uses it: an access, and whether it succeeded.
module _ {ℓ} {M : Type ℓ} (access : M → ℕ → TraceAccessType → M × Bool) where
  -- The address at which a page of the entry is accessed.
  abbrev pub start : TraceEntry → ℕ → ℕ
  start entry page =
      if page == page_number entry.address then entry.address else (page * 4096) % u64_mod

  -- The loop over the pages from `page` to the last one; the counter is of the accesses.
  unfoldable pub replay_pages :
      (rounds : ℕ) → TraceEntry → (last_page page : ℕ) → M → ℕ → (M × ℕ) × Status
  unfolding page_number
  replay_pages zero entry last_page page memory processed = ((memory, processed), success)
  replay_pages (suc rounds) entry last_page page memory processed =
      let (memory1, ok) = access memory (start entry page) entry.type in
      let after = replay_pages rounds entry last_page (page + 1) memory1 (inc64 processed) in
      if ltb last_page page
      then ((memory, processed), success)
      else if not ok
      then ((memory1, processed), failure)
      else if page == u64_max
      then ((memory1, inc64 processed), success)
      else after

  unfoldable pub replay_entry : TraceEntry → M → ℕ → (M × ℕ) × Status
  unfolding replay_pages page_number
  replay_entry entry memory processed =
      if (entry.size == 0) || ltb (u64_max - entry.address) (entry.size - 1)
      then ((memory, processed), failure)
      else let first_page = page_number entry.address in
        let last_page = page_number (entry.address + (entry.size - 1)) in
        replay_pages (last_page + 1 - first_page) entry last_page first_page memory processed

  -- The loop of `trace_replay`; the calls of `trace_reader_next` are bounded by the fuel.
  unfoldable pub replay_loop : (fuel : ℕ) → CLibrary → TraceReader → M → ℕ → (M × ℕ) × Option Status
  unfolding next replay_entry
  replay_loop zero library reader memory processed = ((memory, processed), none)
  replay_loop (suc fuel) library reader memory processed =
      let (reader1, result) = next library reader in
      elim result [
        | nothing_read ↦ ((memory, processed), some success)
        | invalid ↦ ((memory, processed), some failure)
        | found entry ↦
            let ((memory1, processed1), status) = replay_entry entry memory processed in
            let after = replay_loop fuel library reader1 memory1 processed1 in
            elim status [
              | success ↦ after
              | failure ↦ ((memory1, processed1), some failure)
              | no_space ↦ ((memory1, processed1), some failure)
            ]
      ]
