-- ===== src/Tests/Traces.antt =====
-- src/trace_generator.c: the theorems at a trace of three accesses to two pages.
use simulador_memoria_virtua.Base.{
  ℕ, ◌≡◌, ◌↔◌, refl, arith, Bool, true, false, some, success, failure,
}
use simulador_memoria_virtua.TraceGenerator.{
  TraceGeneratorOptions, options_init, trace_pattern_random, random_next, choose_page,
  choose_operation, address_range_is_valid, generate_loop, refused, generate,
}
use simulador_memoria_virtua.TraceGenerator.Lines.{Printed, generate-Printed}
use simulador_memoria_virtua.TraceGenerator.Success.{IsAllowed, AllPrinted, generate-success_iff}

abbrev short : TraceGeneratorOptions
short = record options_init {
  output_path = some 0;
  pattern = trace_pattern_random;
  page_count = 2;
  access_count = 3;
}

abbrev fine : ℕ → Bool
fine k = true

accepted : refused short ≡ false
unfolding refused address_range_is_valid options_init
accepted = refl

succeeds : generate true true fine short ≡ (success, (generate true true fine short).1)
unfolding generate refused address_range_is_valid options_init generate_loop choose_page
    choose_operation random_next
succeeds = refl

base_fits : short.base_address ≡ 4096
unfolding options_init
base_fits = refl

generate-Printed_example : Printed short 0 3 (generate true true fine short).1 2
unfolding options_init
generate-Printed_example =
    generate-Printed true true fine short (omega (arith, base_fits))
      (generate true true fine short).1 succeeds 2

generate-success_iff_example :
    ((generate true true fine short).0 ≡ success)
    ↔ (IsAllowed short × (true ≡ true) × (true ≡ true) × AllPrinted fine 3)
unfolding options_init
generate-success_iff_example = generate-success_iff true true fine short (omega (arith, base_fits))

-- More writes than accesses, in percent, are refused.
refusal : (generate true true fine (record short { write_percentage = 101 })).0 ≡ failure
unfolding generate refused address_range_is_valid options_init
refusal = refl
