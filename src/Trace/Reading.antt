-- ===== src/Trace/Reading.antt =====
-- src/trace.c: what reading gives, and that the replay ends.
use mathlib.Core.List.{List, [], ◌∷◌}
use mathlib.Core.Path.{subst}
use simulador_memoria_virtua.Base.{
  ℕ, zero, suc, ◌+◌, ◌*◌, ◌<◌, ◌≤◌, ◌≡◌, ◌⊎◌, refl, ap, sym, ◌∙◌, Bool, true, false, ◌||◌, Option,
  none, some, inl, inr, arith, bit, Bool-cases, ◌==◌, Status, success, failure, no_space,
}
use simulador_memoria_virtua.Trace.{
  Text, CLibrary, TraceAccessType, trace_access_read, trace_access_write, TraceEntry, TraceReader,
  ReadResult, found, nothing_read, invalid, skip_whitespace, parse_parameters, make_entry,
  parse_operation, parse_text, parse_line, next_line, next, replay_entry, replay_loop,
}

-- How many entries a reader can still give, at most.
abbrev pub line_count : List Text → ℕ
line_count [] = 0
line_count (line ∷ lines) = line_count lines + 1

abbrev pub left : TraceReader → ℕ
left reader = 2 * line_count reader.rest + bit reader.has_pending_entry

-- A line that is skipped leaves the reader as it is; one that is read may leave an entry pending.
module _ (library : CLibrary) (reader : TraceReader) (free : reader.has_pending_entry ≡ false) where
  abbrev Kept : TraceReader × ReadResult → Type 0
  Kept r =
      ((r.1 ≡ nothing_read) × (r.0.has_pending_entry ≡ false) × (r.0.rest ≡ reader.rest))
      ⊎ ((r.1 ≡ invalid) ⊎ ((e : TraceEntry) × (r.1 ≡ found e) × (r.0.rest ≡ reader.rest)))

  make_entry-Kept : (operation : ℕ) (o : Option (ℕ × ℕ)) → Kept (make_entry reader operation o)
  unfolding make_entry
  make_entry-Kept operation none = inr (inl refl)
  make_entry-Kept operation (some (a, z)) =
      elim (Bool-cases ((operation == 82) || (operation == 76))) [
        | inl reads ↦
            rw (reads, make_entry)
              (inr (inr (record { type = trace_access_read; address = a; size = z }, refl, refl)))
        | inr other ↦ elim (Bool-cases ((operation == 87) || (operation == 83))) [
          | inl writes ↦
              rw (other, writes, make_entry)
                (inr
                  (inr (record { type = trace_access_write; address = a; size = z }, refl, refl)))
          | inr both ↦
              rw (other, both, make_entry)
                (inr (inr (record { type = trace_access_read; address = a; size = z }, refl, refl)))
        ]
      ]

  parse_operation-Kept :
      (operation : ℕ) (text : Text) → Kept (parse_operation library reader operation text)
  unfolding parse_operation
  parse_operation-Kept operation text = elim (Bool-cases (operation == 73)) [
    | inl fetched ↦ rw (fetched, parse_operation) (inl (refl, free, refl))
    | inr data_access ↦
        elim (Bool-cases (
          (operation == 82)
          || (operation == 87)
          || (operation == 76)
          || (operation == 83)
          || (operation == 77))) [
            | inr unknown ↦ rw (data_access, unknown, parse_operation) (inr (inl refl))
            | inl known ↦
                rw (data_access, known, parse_operation)
                  (make_entry-Kept operation (parse_parameters library text))
          ]
  ]

  parse_text-Kept : (text : Text) → Kept (parse_text library reader text)
  unfolding parse_text
  parse_text-Kept [] = inl (refl, free, refl)
  parse_text-Kept (c ∷ text) = elim (Bool-cases ((c == 10) || (c == 35))) [
    | inl blank ↦ rw (blank, parse_text) (inl (refl, free, refl))
    | inr other ↦ rw (other, parse_text) (parse_operation-Kept (library.to_upper c) text)
  ]

bit-le : (b : Bool) → bit b ≤ 1
bit-le true = omega arith
bit-le false = omega arith

-- The loop over the lines: when it gives an entry, fewer are left.
next_line-left :
    (library : CLibrary) (lines : List Text) (reader : TraceReader)
    → reader.has_pending_entry ≡ false
    → (e : TraceEntry) → (next_line library lines reader).1 ≡ found e
    → left (next_line library lines reader).0 < 2 * line_count lines
unfolding next_line
next_line-left library [] reader free e gives = elim (Bool-cases reader.failed) [
  | inl broken ↦ absurd (ground (arith, gives, broken))
  | inr fine ↦ absurd (ground (arith, gives, fine))
]
next_line-left library (line ∷ lines) reader free e gives =
    let given = record reader { rest = lines } in
    let parsed = parse_line library given line in
    elim (parse_text-Kept library given free (skip_whitespace library line)) [
      | inl (skipped, still, same) ↦
          let step : next_line library (line ∷ lines) reader ≡ next_line library lines parsed.0 =
            rw (skipped, next_line) refl in
          subst (λ (r : TraceReader × ReadResult). left r.0 < 2 * line_count (line ∷ lines))
            (sym step)
            (omega (
              arith,
              next_line-left library lines parsed.0 still e
                  (sym (ap (λ (r : TraceReader × ReadResult). r.1) step) ∙ gives),
            ))
      | inr (inl bad) ↦
          let step : next_line library (line ∷ lines) reader ≡ (parsed.0, invalid) =
            rw (bad, next_line) refl in
          absurd (
            let x : invalid ≡ found e =
              sym (ap (λ (r : TraceReader × ReadResult). r.1) step) ∙ gives in
            cc)
      | inr (inr (e', here, same)) ↦
          let step : next_line library (line ∷ lines) reader ≡ (parsed.0, found e') =
            rw (here, next_line) refl in
          subst (λ (r : TraceReader × ReadResult). left r.0 < 2 * line_count (line ∷ lines))
            (sym step) (omega (arith, ap line_count same, bit-le parsed.0.has_pending_entry))
    ]

pub next-left :
    (library : CLibrary) (reader : TraceReader) (e : TraceEntry)
    → (next library reader).1 ≡ found e
    → left (next library reader).0 < left reader
unfolding next
next-left library reader e gives = elim (Bool-cases reader.has_pending_entry) [
  | inl pending ↦
      let step : next library reader
          ≡ (record reader { has_pending_entry = false }, found reader.pending_entry) =
        rw (pending, next) refl in
      subst (λ (r : TraceReader × ReadResult). left r.0 < left reader) (sym step)
        (omega (arith, ap bit pending))
  | inr free ↦
      let step : next library reader ≡ next_line library reader.rest reader =
        rw (free, next) refl in
      subst (λ (r : TraceReader × ReadResult). left r.0 < left reader) (sym step)
        (omega (
          arith,
          next_line-left library reader.rest reader free e
              (sym (ap (λ (r : TraceReader × ReadResult). r.1) step) ∙ gives),
        ))
]

result-cases :
    (r : ReadResult) → (r ≡ nothing_read) ⊎ ((r ≡ invalid) ⊎ ((e : TraceEntry) × (r ≡ found e)))
result-cases nothing_read = inl refl
result-cases invalid = inr (inl refl)
result-cases (found e) = inr (inr (e, refl))

pub status-cases : (r : Status) → (r ≡ success) ⊎ ((r ≡ failure) ⊎ (r ≡ no_space))
status-cases success = inl refl
status-cases failure = inr (inl refl)
status-cases no_space = inr (inr refl)

module _ {ℓ} {M : Type ℓ} (access : M → ℕ → TraceAccessType → M × Bool) (library : CLibrary) where
  -- The loop of `trace_replay` ends with a status when its fuel is above two times the number of
  -- lines that are left, plus one if an entry is pending.
  pub replay_loop-total :
      (fuel : ℕ) (reader : TraceReader) (memory : M) (processed : ℕ)
      → left reader < fuel
      → (status : Status) × ((replay_loop access fuel library reader memory processed).1
          ≡ some status)
  unfolding replay_loop
  replay_loop-total zero reader memory processed enough = absurd (omega arith)
  replay_loop-total (suc fuel) reader memory processed enough =
      elim (result-cases (next library reader).1) [
        | inl ended ↦ (success, rw (ended, replay_loop) refl)
        | inr (inl bad) ↦ (failure, rw (bad, replay_loop) refl)
        | inr (inr (e, gives)) ↦
            let fewer = next-left library reader e gives in
            let after = replay_entry access e memory processed in
            let ih =
              replay_loop-total fuel (next library reader).0 after.0.0 after.0.1
                (omega (arith, fewer)) in
            elim (status-cases after.1) [
              | inl good ↦ (ih.0, rw (gives, good, replay_loop) ih.1)
              | inr (inl bad) ↦ (failure, rw (gives, bad, replay_loop) refl)
              | inr (inr full) ↦ (failure, rw (gives, full, replay_loop) refl)
            ]
      ]
