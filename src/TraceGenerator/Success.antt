-- ===== src/TraceGenerator/Success.antt =====
-- src/trace_generator.c: when a trace is generated.
use mathlib.Core.List.{List}
use native.Mathlib.Decide.{ℕ_discrete}
use simulador_memoria_virtua.Base.{
  ℕ, zero, suc, ◌+◌, ◌-◌, ◌*◌, ◌/◌, ◌<◌, ◌≤◌, ◌≡◌, ◌⊎◌, ◌↔◌, refl, ap, sym, ◌∙◌, Bool, true, false,
  none, some, inl, inr, arith, Bool-cases, u64_mod, u64_max, ltb, Status, success,
}
use simulador_memoria_virtua.Process.{Pointer, is_null}
use simulador_memoria_virtua.TraceGenerator.{
  TraceGeneratorOptions, Line, choose_page, choose_operation, address_range_is_valid, generate_loop,
  refused, generate,
}

-- There is a path, there are pages and accesses, the percentage and the pattern exist, and the last
-- page starts at an address of 64 bits.
pub record IsAllowed (options : TraceGeneratorOptions) : Type 0 where
  pub has_path : (p : ℕ) × (options.output_path ≡ some p)
  pub some_pages : 0 < options.page_count
  pub some_accesses : 0 < options.access_count
  pub percentage : options.write_percentage ≤ 100
  pub known_pattern : (options.pattern ≡ 0) ⊎ (options.pattern ≡ 1)
  pub fits : options.base_address + (options.page_count - 1) * 4096 < u64_mod

pointer-cases : (o : Pointer) → is_null o ≡ false → (p : ℕ) × (o ≡ some p)
pointer-cases none h = absurd (cc)
pointer-cases (some p) h = (p, refl)

module _ (options : TraceGeneratorOptions) (word : options.base_address < u64_mod) where
  refused-IsAllowed : refused options ≡ false → IsAllowed options
  unfolding refused address_range_is_valid
  refused-IsAllowed fine = record {
    has_path = pointer-cases options.output_path (ground (arith, fine));
    some_pages = ground (arith, fine);
    some_accesses = ground (arith, fine);
    percentage = ground (arith, fine);
    known_pattern = ground (arith, fine);
    fits =
        let last : options.page_count - 1 ≤ (u64_max - options.base_address) / 4096 =
          ground (arith, fine) in
        omega (arith, last);
  }

  IsAllowed-refused : IsAllowed options → refused options ≡ false
  unfolding refused address_range_is_valid
  IsAllowed-refused a =
      let range : ltb ((u64_max - options.base_address) / 4096) (options.page_count - 1) ≡ false =
        ground (arith, a.fits) in
      let path : is_null options.output_path ≡ false = rw a.has_path.1 refl in
      let pages = a.some_pages in
      let accesses = a.some_accesses in
      let rate = a.percentage in
      elim a.known_pattern [
        | inl first ↦ ground (arith, range, path, pages, accesses, rate, first)
        | inr second ↦ ground (arith, range, path, pages, accesses, rate, second)
      ]

-- Each of the first `n` calls of fprintf succeeds.
abbrev pub AllPrinted : (ℕ → Bool) → ℕ → Type 0
AllPrinted printed n = (j : ℕ) → j < n → printed j ≡ true

-- The loop succeeds if each of its lines is printed, and only then.
module _ (printed : ℕ → Bool) (options : TraceGeneratorOptions) where
  generate_loop-success :
      (rounds k state : ℕ)
      → ((j : ℕ) → j < rounds → printed (k + j) ≡ true)
      → (generate_loop printed options rounds k state).0 ≡ success
  unfolding generate_loop
  generate_loop-success zero k state all = refl
  generate_loop-success (suc rounds) k state all =
      let state2 = (choose_operation options (choose_page options state k).0).0 in
      let here : printed k ≡ true = ap printed (omega arith) ∙ all 0 (omega arith) in
      rw (here, generate_loop)
        (generate_loop-success rounds (k + 1) state2
          (λ j lt. ap printed (omega arith) ∙ all (suc j) (omega arith)))

  success-generate_loop :
      (rounds k state : ℕ)
      → (generate_loop printed options rounds k state).0 ≡ success
      → (j : ℕ) → j < rounds
      → printed (k + j) ≡ true
  unfolding generate_loop
  success-generate_loop zero k state done j lt = absurd (omega arith)
  success-generate_loop (suc rounds) k state done j lt =
      let state2 = (choose_operation options (choose_page options state k).0).0 in
      elim (Bool-cases (printed k)) [
        | inr broken ↦ absurd (ground (arith, done, broken))
        | inl here ↦
            let rest : (generate_loop printed options rounds (k + 1) state2).0 ≡ success =
              ground (arith, done, here) in
            elim (ℕ_discrete j 0) [
              | yes first ↦ ap printed (omega (arith, first)) ∙ here
              | no later ↦
                  ap printed (omega (arith, later))
                  ∙ success-generate_loop rounds (k + 1) state2 rest (j - 1) (omega arith)
            ]
      ]

-- With a base address of 64 bits, `trace_generator_generate` succeeds exactly if there is an
-- output path, there are pages and accesses, the percentage of writes is at most 100, the pattern
-- is sequential or random, the last page begins below 2 ^ 64, and fopen, fclose and the fprintf
-- of each access succeed.
pub generate-success_iff :
    (opened closed : Bool) (printed : ℕ → Bool) (options : TraceGeneratorOptions)
    → options.base_address < u64_mod
    → ((generate opened closed printed options).0 ≡ success) ↔ (
        IsAllowed options
        × (opened ≡ true)
        × (closed ≡ true)
        × AllPrinted printed options.access_count)
unfolding generate
generate-success_iff opened closed printed options word = (
  λ done. elim (Bool-cases (refused options)) [
    | inl bad ↦ absurd (ground (arith, done, bad))
    | inr fine ↦ elim (Bool-cases opened) [
      | inr missing ↦ absurd (ground (arith, done, fine, missing))
      | inl there ↦ elim (Bool-cases closed) [
        | inr failed ↦ absurd (ground (arith, done, fine, there, failed))
        | inl shut ↦
            let step : generate opened closed printed options
                ≡ generate_loop printed options options.access_count 0 options.seed =
              rw (fine, there, shut, generate) refl in
            (
              refused-IsAllowed options word fine,
              there,
              shut,
              λ j lt.
                  ap printed (omega arith)
                  ∙ success-generate_loop printed options options.access_count 0 options.seed
                      (sym (ap (λ (r : Status × List Line). r.0) step) ∙ done) j lt,
            )
      ]
    ]
  ],
  λ all.
      let fine = IsAllowed-refused options word all.0 in
      rw (fine, all.1, all.2, generate)
        (generate_loop-success printed options options.access_count 0 options.seed
          (λ j lt. ap printed (omega arith) ∙ all.3 j lt)),
)
