-- ===== src/TraceGenerator.antt =====
-- src/trace_generator.c: the generation of a trace. The calls of fopen, fprintf and fclose are
-- parameters that say whether each of them succeeds; the output is the list of lines that were printed.
pub mod Lines
pub mod Success
use mathlib.Core.List.{List, [], ◌∷◌}
use simulador_memoria_virtua.Base.{
  ℕ, zero, suc, ◌+◌, ◌-◌, ◌*◌, ◌/◌, ◌%◌, Bool, true, false, not, ◌||◌, ◌&&◌, Option, none, some,
  u64_mod, u64_max, ltb, ◌==◌, if◌then◌else◌, Status, success, failure,
}
use simulador_memoria_virtua.Process.{Pointer, is_null}

-- `TracePattern` is an int in C; these are its two values.
abbrev pub trace_pattern_sequential : ℕ
trace_pattern_sequential = 0

abbrev pub trace_pattern_random : ℕ
trace_pattern_random = 1

-- `PAGE_SIZE` of address.h.
abbrev pub page_size : ℕ
page_size = 4096

pub record TraceGeneratorOptions : Type 0 where
  pub output_path : Pointer
  pub pattern : ℕ
  pub page_count : ℕ
  pub access_count : ℕ
  pub seed : ℕ
  pub base_address : ℕ
  pub write_percentage : ℕ
  pub show_help : Bool

-- `trace_generator_options_init`
unfoldable pub options_init : TraceGeneratorOptions
options_init = record {
  output_path = none;
  pattern = trace_pattern_sequential;
  page_count = 16;
  access_count = 1000;
  seed = 1;
  base_address = 4096;
  write_percentage = 20;
  show_help = false;
}

-- `trace_random_next`: the new state, which is also the number returned.
unfoldable pub random_next : ℕ → ℕ
random_next state = (state * 6364136223846793005 + 1442695040888963407) % u64_mod

unfoldable pub address_range_is_valid : TraceGeneratorOptions → Bool
address_range_is_valid options =
    if options.page_count == 0
    then false
    else not (ltb ((u64_max - options.base_address) / page_size) (options.page_count - 1))

-- The new state of the generator, and the page.
unfoldable pub choose_page : TraceGeneratorOptions → (state access_index : ℕ) → ℕ × ℕ
unfolding random_next
choose_page options state access_index =
    if options.pattern == trace_pattern_sequential
    then (state, access_index % options.page_count)
    else (random_next state, random_next state % options.page_count)

-- The characters 'R' and 'W'.
pub data Operation : Type 0 where
  read_access write_access : Operation

unfoldable pub choose_operation : TraceGeneratorOptions → (state : ℕ) → ℕ × Operation
unfolding random_next
choose_operation options state = (
  random_next state,
  if ltb (random_next state % 100) options.write_percentage then write_access else read_access,
)

-- A line of the trace: `fprintf(file, "%c 0x%016" PRIx64 "\n", operation, address)`.
pub record Line : Type 0 where
  pub operation : Operation
  pub address : ℕ

-- The loop of `trace_generator_generate` from an access on; `printed k` says whether the call of
-- fprintf for the access `k` succeeds.
unfoldable pub generate_loop :
    (printed : ℕ → Bool) (options : TraceGeneratorOptions) (rounds access_index state : ℕ)
    → Status × List Line
unfolding choose_page choose_operation
generate_loop printed options zero access_index state = (success, [])
generate_loop printed options (suc rounds) access_index state =
    let (state1, page_index) = choose_page options state access_index in
    let address = (options.base_address + (page_index * page_size) % u64_mod) % u64_mod in
    let (state2, operation) = choose_operation options state1 in
    let (result, rest) = generate_loop printed options rounds (access_index + 1) state2 in
    if printed access_index
    then (result, record { operation = operation; address = address } ∷ rest)
    else (failure, [])

-- Whether the options are refused before the file is opened.
unfoldable pub refused : TraceGeneratorOptions → Bool
unfolding address_range_is_valid
refused options =
    is_null options.output_path
    || (options.page_count == 0)
    || (options.access_count == 0)
    || ltb 100 options.write_percentage
    || (not (options.pattern == trace_pattern_sequential)
        && not (options.pattern == trace_pattern_random))
    || not (address_range_is_valid options)

unfoldable pub generate :
    (opened closed : Bool) (printed : ℕ → Bool) → TraceGeneratorOptions → Status × List Line
unfolding refused generate_loop
generate opened closed printed options =
    if refused options
    then (failure, [])
    else if not opened
    then (failure, [])
    else let (result, lines) = generate_loop printed options options.access_count 0 options.seed in
      (if closed then result else failure, lines)
