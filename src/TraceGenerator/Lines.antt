-- ===== src/TraceGenerator/Lines.antt =====
-- src/trace_generator.c: the lines of a trace that was generated.
use mathlib.Core.List.{List, [], ◌∷◌}
use mathlib.Core.Path.{subst}
use native.Mathlib.Omega.{mod_fact}
use simulador_memoria_virtua.Base.{
  ℕ, zero, suc, ◌+◌, ◌-◌, ◌*◌, ◌/◌, ◌%◌, ◌<◌, ◌≤◌, ◌≡◌, ◌⊎◌, refl, ap, sym, ◌∙◌, Bool, false,
  Option, none, some, inl, inr, arith, Bool-cases, u64_mod, u64_max, ltb, ◌==◌, Status, success,
}
use simulador_memoria_virtua.TraceGenerator.{
  TraceGeneratorOptions, read_access, write_access, Line, random_next, choose_page,
  choose_operation, address_range_is_valid, generate_loop, refused, generate,
  trace_pattern_sequential, page_size,
}

-- The line at an index of a trace.
unfoldable pub line_at : List Line → ℕ → Option Line
line_at [] k = none
line_at (line ∷ lines) zero = some line
line_at (line ∷ lines) (suc k) = line_at lines k

-- A line for the access `k`: its address is the base address of one of the pages, and does not wrap.
pub record IsLine (options : TraceGeneratorOptions) (k : ℕ) (line : Line) : Type 0 where
  pub page : ℕ
  pub in_range : page < options.page_count
  pub at_page : line.address ≡ options.base_address + page * 4096
  pub in_word : line.address < u64_mod
  pub in_order :
      ((options.pattern == trace_pattern_sequential) ≡ false) ⊎ (page ≡ k % options.page_count)
  pub at_rate :
      ((line.operation ≡ read_access) × (options.write_percentage < 100))
      ⊎ ((line.operation ≡ write_access) × (0 < options.write_percentage))

-- At the index `j` of the lines for `rounds` accesses from `k` on.
abbrev pub Printed : TraceGeneratorOptions → (k rounds : ℕ) → List Line → ℕ → Type 0
Printed options k rounds lines j =
    ((j < rounds) × ((line : Line) × (line_at lines j ≡ some line) × IsLine options (k + j) line))
    ⊎ ((rounds ≤ j) × (line_at lines j ≡ none))

mod-lt : (a n : ℕ) → 0 < n → a % n < n
mod-lt a zero h = absurd (omega arith)
mod-lt a (suc n) h = mod_fact a n

module _ (options : TraceGeneratorOptions) (pages : 0 < options.page_count)
    (fits : options.page_count - 1 ≤ (u64_max - options.base_address) / 4096)
    (word : options.base_address < u64_mod) where
  choose_page-lt : (state k : ℕ) → (choose_page options state k).1 < options.page_count
  unfolding choose_page
  choose_page-lt state k = elim (Bool-cases (options.pattern == trace_pattern_sequential)) [
    | inl here ↦ rw (here, choose_page) (mod-lt k options.page_count pages)
    | inr other ↦ rw (other, choose_page) (mod-lt (random_next state) options.page_count pages)
  ]

  choose_page_in_order :
      (state k : ℕ)
      → ((options.pattern == trace_pattern_sequential) ≡ false)
        ⊎ ((choose_page options state k).1 ≡ k % options.page_count)
  unfolding choose_page
  choose_page_in_order state k = elim (Bool-cases (options.pattern == trace_pattern_sequential)) [
    | inl here ↦ inr (rw (here, choose_page) refl)
    | inr other ↦ inl other
  ]

  rate :
      (state : ℕ)
      → ltb (random_next state % 100) options.write_percentage ≡ false
      → options.write_percentage < 100
  rate state reads =
      let small : random_next state % 100 < 100 = omega arith in
      let le : options.write_percentage ≤ random_next state % 100 = ground (arith, reads) in
      omega (arith, small, le)

  choose_operation_at_rate :
      (state : ℕ)
      → (((choose_operation options state).1 ≡ read_access) × (options.write_percentage < 100))
        ⊎ (((choose_operation options state).1 ≡ write_access) × (0 < options.write_percentage))
  unfolding choose_operation
  choose_operation_at_rate state =
      elim (Bool-cases (ltb (random_next state % 100) options.write_percentage)) [
        | inl writes ↦ inr (ground (arith, writes), ground (arith, writes))
        | inr reads ↦ inl (ground (arith, reads), rate state reads)
      ]

  exact :
      (page : ℕ)
      → page < options.page_count
      → ((options.base_address + (page * page_size) % u64_mod) % u64_mod
          ≡ options.base_address + page * 4096)
        × (options.base_address + page * 4096 < u64_mod)
  exact page lt = (omega arith, omega arith)

  -- The line that one round prints.
  abbrev the_line : (k state : ℕ) → Line
  the_line k state =
      let (state1, page) = choose_page options state k in
      record {
        operation = (choose_operation options state1).1;
        address = (options.base_address + (page * page_size) % u64_mod) % u64_mod;
      }

  the_line-IsLine : (k state : ℕ) → IsLine options k (the_line k state)
  the_line-IsLine k state =
      let page = (choose_page options state k).1 in
      let lt = choose_page-lt state k in
      let (same, small) = exact page lt in
      record {
        page = page;
        in_range = lt;
        at_page = same;
        in_word = omega (arith, same, small);
        in_order = choose_page_in_order state k;
        at_rate = choose_operation_at_rate (choose_page options state k).0;
      }

  one_more :
      (k rounds state : ℕ) (rest : List Line) (j : ℕ)
      → ((i : ℕ) → Printed options (k + 1) rounds rest i)
      → Printed options k (suc rounds) (the_line k state ∷ rest) j
  unfolding line_at
  one_more k rounds state rest zero after =
      let e : k ≡ k + 0 = omega arith in
      inl (
        omega arith,
        (
          the_line k state,
          refl,
          subst (λ i. IsLine options i (the_line k state)) e (the_line-IsLine k state),
        ),
      )
  one_more k rounds state rest (suc j) after = elim (after j) [
    | inr (past, none_there) ↦ inr (omega (arith, past), none_there)
    | inl (lt, (line, at, good)) ↦
        let e : k + 1 + j ≡ k + suc j = omega arith in
        inl (omega (arith, lt), (line, at, subst (λ i. IsLine options i line) e good))
  ]

  -- What the loop prints, when it succeeds, is a line for each access and no more.
  generate_loop-lines :
      (printed : ℕ → Bool) (rounds k state : ℕ)
      → (generate_loop printed options rounds k state).0 ≡ success
      → (j : ℕ) → Printed options k rounds (generate_loop printed options rounds k state).1 j
  unfolding generate_loop line_at
  generate_loop-lines printed zero k state done j = inr (omega arith, refl)
  generate_loop-lines printed (suc rounds) k state done j =
      let state2 = (choose_operation options (choose_page options state k).0).0 in
      elim (Bool-cases (printed k)) [
        | inr broken ↦ absurd (ground (arith, done, broken))
        | inl met ↦
            let after = generate_loop printed options rounds (k + 1) state2 in
            let step : generate_loop printed options (suc rounds) k state
                ≡ (after.0, the_line k state ∷ after.1) =
              rw (met, generate_loop) refl in
            subst (λ r. Printed options k (suc rounds) r.1 j) (sym step)
              (one_more k rounds state after.1 j (
                generate_loop-lines printed rounds (k + 1) state2
                  (sym (ap (λ r. r.0) step) ∙ done)))
      ]

-- Options that are not refused have pages whose addresses fit.
refused-fits :
    (options : TraceGeneratorOptions)
    → refused options ≡ false
    → (0 < options.page_count)
      × (options.page_count - 1 ≤ (u64_max - options.base_address) / 4096)
      × (0 < options.access_count)
unfolding refused address_range_is_valid
refused-fits options fine = ground arith

-- When `trace_generator_generate` succeeds with a base address of 64 bits, the file has one line
-- for each access and no more. The address in a line is the base address plus the offset of one
-- of the pages, which does not wrap at 64 bits, in the sequential pattern the pages come in turn,
-- a line is a write only if the percentage of writes is above 0, and a read only if it is below
-- 100.
pub generate-Printed :
    (opened closed : Bool) (printed : ℕ → Bool) (options : TraceGeneratorOptions)
    → options.base_address < u64_mod
    → (lines : List Line) → generate opened closed printed options ≡ (success, lines)
    → (j : ℕ) → Printed options 0 options.access_count lines j
unfolding generate
generate-Printed opened closed printed options word lines done j =
    elim (Bool-cases (refused options)) [
      | inl bad ↦ absurd (ground (arith, done, bad))
      | inr fine ↦ elim (Bool-cases opened) [
        | inr missing ↦ absurd (ground (arith, done, fine, missing))
        | inl there ↦ elim (Bool-cases closed) [
          | inr failed ↦ absurd (ground (arith, done, fine, there, failed))
          | inl shut ↦
              let loop = generate_loop printed options options.access_count 0 options.seed in
              let step : generate opened closed printed options ≡ loop =
                rw (fine, there, shut, generate) refl in
              let (pages, fits, some_access) = refused-fits options fine in
              let same = sym step ∙ done in
              subst (λ (l : List Line). Printed options 0 options.access_count l j)
                (ap (λ (r : Status × List Line). r.1) same)
                (generate_loop-lines options pages fits word printed options.access_count 0
                  options.seed (ap (λ (r : Status × List Line). r.0) same) j)
        ]
      ]
    ]
