-- ===== src/Trace/Entries.antt =====
-- src/trace.c: the replay of a trace, against the entries that its lines stand for.
use mathlib.Core.List.{List, [], ◌∷◌}
use mathlib.Core.Path.{subst}
use native.Mathlib.Decide.{ℕ_discrete}
use simulador_memoria_virtua.Base.{
  ℕ, zero, suc, ◌<◌, ◌≡◌, refl, ap, sym, ◌∙◌, Bool, true, false, ◌||◌, Option, some, inl, inr,
  arith, Bool-cases, Option-cases, ◌==◌, Status,
}
use simulador_memoria_virtua.Trace.{
  Text, CLibrary, TraceAccessType, trace_access_read, trace_access_write, TraceEntry, TraceReader,
  ReadResult, found, nothing_read, invalid, skip_whitespace, parse_parameters, make_entry,
  parse_operation, parse_text, parse_line, next_line, next, replay_entry, replay_loop,
}
use simulador_memoria_virtua.Trace.Reading.{left, next-left, status-cases}
use simulador_memoria_virtua.Trace.Meaning.{
  one, unknown, letter, Trace, entry, expand, line_trace, lines_trace, contents, replay_trace,
}

-- What a reader gave, and what it has still to give, against what it had to give.
data Gives (library : CLibrary) (all : Trace) (r : TraceReader × ReadResult) : Type 0 where
  ended : r.1 ≡ nothing_read → all ≡ ([], true) → Gives library all r
  broken : r.1 ≡ invalid → all ≡ ([], false) → Gives library all r
  gave :
      (e : TraceEntry)
      → r.1 ≡ found e
      → all ≡ (e ∷ (contents library r.0).0, (contents library r.0).1)
      → Gives library all r

-- The same of one line, which may be passed over.
data LineGives (library : CLibrary) (reader : TraceReader) (all : Trace)
    (r : TraceReader × ReadResult) : Type 0 where
  passed :
      r ≡ (reader, nothing_read) → all ≡ contents library reader → LineGives library reader all r
  refused : r.1 ≡ invalid → all ≡ ([], false) → LineGives library reader all r
  got :
      (e : TraceEntry)
      → r.1 ≡ found e
      → all ≡ (e ∷ (contents library r.0).0, (contents library r.0).1)
      → LineGives library reader all r

module _ (library : CLibrary) (reader : TraceReader) (free : reader.has_pending_entry ≡ false) where
  contents-free : contents library reader ≡ lines_trace library reader.failed reader.rest
  contents-free = rw free refl

  -- One of the letters that stand for a single access.
  single :
      (c : ℕ) (text : Text) (type : TraceAccessType)
      → letter c ≡ one type
      → ((p : ℕ × ℕ) → make_entry reader c (some p) ≡ (reader, found (entry p type)))
      → parse_operation library reader c text ≡ make_entry reader c (parse_parameters library text)
      → LineGives library reader
          (expand (letter c) (parse_parameters library text) (contents library reader))
          (parse_operation library reader c text)
  unfolding make_entry
  single c text type means makes step =
      rw (means, step)
        (elim (Option-cases (parse_parameters library text)) [
          | inl none_there ↦ rw none_there (refused refl refl)
          | inr (p, at) ↦ rw at (
              subst
                (λ r.
                  LineGives library reader (expand (one type) (some p) (contents library reader)) r)
                (sym (makes p)) (got (entry p type) refl refl))
        ])

  both :
      (text : Text)
      → LineGives library reader
          (expand (letter 77) (parse_parameters library text) (contents library reader))
          (parse_operation library reader 77 text)
  unfolding make_entry parse_operation letter
  both text = elim (Option-cases (parse_parameters library text)) [
    | inl none_there ↦ rw none_there (refused refl refl)
    | inr (p, at) ↦ rw at (got (entry p trace_access_read) refl (rw free refl))
  ]

  parse_operation-LineGives :
      (c : ℕ) (text : Text)
      → LineGives library reader
          (expand (letter c) (parse_parameters library text) (contents library reader))
          (parse_operation library reader c text)
  unfolding parse_operation letter make_entry
  parse_operation-LineGives c text = elim (ℕ_discrete c 73) [
    | yes e ↦ rw e (passed refl refl)
    | no n73 ↦ elim (ℕ_discrete c 76) [
      | yes e ↦ rw e (single 76 text trace_access_read refl (λ p. refl) refl)
      | no n76 ↦ elim (ℕ_discrete c 82) [
        | yes e ↦ rw e (single 82 text trace_access_read refl (λ p. refl) refl)
        | no n82 ↦ elim (ℕ_discrete c 83) [
          | yes e ↦ rw e (single 83 text trace_access_write refl (λ p. refl) refl)
          | no n83 ↦ elim (ℕ_discrete c 87) [
            | yes e ↦ rw e (single 87 text trace_access_write refl (λ p. refl) refl)
            | no n87 ↦ elim (ℕ_discrete c 77) [
              | yes e ↦ rw e (both text)
              | no n77 ↦
                  let means : letter c ≡ unknown = ground (arith, n73, n76, n82, n83, n87, n77) in
                  let stops : parse_operation library reader c text ≡ (reader, invalid) =
                    ground (arith, n73, n76, n82, n83, n87, n77) in
                  subst
                    (λ l.
                      LineGives library reader
                        (expand l (parse_parameters library text) (contents library reader))
                        (parse_operation library reader c text))
                    (sym means)
                    (subst (LineGives library reader ([], false)) (sym stops) (refused refl refl))
            ]
          ]
        ]
      ]
    ]
  ]

  parse_text-LineGives :
      (text : Text)
      → LineGives library reader
          (line_trace library text (contents library reader))
          (parse_text library reader text)
  unfolding parse_text
  parse_text-LineGives [] = passed refl refl
  parse_text-LineGives (c ∷ text) = elim (Bool-cases ((c == 10) || (c == 35))) [
    | inl blank ↦ rw (blank, parse_text) (passed refl refl)
    | inr other ↦ rw (other, parse_text) (parse_operation-LineGives (library.to_upper c) text)
  ]

-- The loop over the lines.
next_line-Gives :
    (library : CLibrary) (lines : List Text) (reader : TraceReader)
    → reader.has_pending_entry ≡ false
    → Gives library (lines_trace library reader.failed lines) (next_line library lines reader)
unfolding next_line lines_trace
next_line-Gives library [] reader free = elim (Bool-cases reader.failed) [
  | inl bad ↦ rw (bad, next_line) (broken refl refl)
  | inr fine ↦ rw (fine, next_line) (ended refl refl)
]
next_line-Gives library (line ∷ lines) reader free =
    let there = record reader { rest = lines } in
    let parsed = parse_line library there line in
    let loop : TraceReader × ReadResult → TraceReader × ReadResult = λ r. elim r.1 [
      | found e ↦ (r.0, found e)
      | invalid ↦ (r.0, invalid)
      | nothing_read ↦ next_line library lines r.0
    ] in
    let all : line_trace library (skip_whitespace library line) (contents library there)
        ≡ lines_trace library reader.failed (line ∷ lines) =
      ap (line_trace library (skip_whitespace library line)) (contents-free library there free) in
    let ending : (x : ReadResult)
        → parsed.1 ≡ x
        → next_line library (line ∷ lines) reader ≡ loop (parsed.0, x) =
      λ x e. ap (λ y. loop (parsed.0, y)) e in
    elim (parse_text-LineGives library there free (skip_whitespace library line)) [
      | passed same e ↦
          subst (Gives library (lines_trace library reader.failed (line ∷ lines)))
            (sym (ap loop same))
            (subst (λ t. Gives library t (next_line library lines there))
              (sym (contents-free library there free) ∙ sym e ∙ all)
              (next_line-Gives library lines there free))
      | refused bad e ↦
          subst (Gives library (lines_trace library reader.failed (line ∷ lines)))
            (sym (ending invalid bad)) (broken refl (sym all ∙ e))
      | got x here e ↦
          subst (Gives library (lines_trace library reader.failed (line ∷ lines)))
            (sym (ending (found x) here)) (gave x refl (sym all ∙ e))
    ]

next-Gives :
    (library : CLibrary) (reader : TraceReader)
    → Gives library (contents library reader) (next library reader)
unfolding next
next-Gives library reader = elim (Bool-cases reader.has_pending_entry) [
  | inl pending ↦ rw (pending, next) (gave reader.pending_entry refl refl)
  | inr free ↦
      let step : next library reader ≡ next_line library reader.rest reader =
        rw (free, next) refl in
      subst (λ r. Gives library (contents library reader) r) (sym step)
        (subst (λ t. Gives library t (next_line library reader.rest reader))
          (sym (contents-free library reader free))
          (next_line-Gives library reader.rest reader free))
]

module _ {ℓ} {M : Type ℓ} (access : M → ℕ → TraceAccessType → M × Bool) (library : CLibrary) where
  -- The result of the loop, if it is the one of the replay of a trace.
  abbrev pub replayed : Trace → M → ℕ → (M × ℕ) × Option Status
  replayed (entries, good) memory processed =
      let (after, status) = replay_trace access entries good memory processed in
      (after, some status)

  -- With fuel above two times the number of lines that are left, plus one if an entry is pending,
  -- the loop of `trace_replay` does what replaying a list of entries one by one does. The list
  -- has the pending entry, and then, line by line, none for a blank line, a comment or the letter
  -- I, one read for L and R, one write for S and W, and a read and a write for M, at the address
  -- and size of the line. It ends, as a failure, at a line with another letter or without
  -- parameters, and at the end of the file it is a failure if reading failed; the replay fails at
  -- an entry that cannot be replayed.
  pub replay_loop-trace :
      (fuel : ℕ) (reader : TraceReader) (memory : M) (processed : ℕ)
      → left reader < fuel
      → replay_loop access fuel library reader memory processed
        ≡ replayed (contents library reader) memory processed
  unfolding replay_loop replay_trace
  replay_loop-trace zero reader memory processed enough = absurd (omega arith)
  replay_loop-trace (suc fuel) reader memory processed enough =
      let same : Trace → Type ℓ = λ t.
        replay_loop access (suc fuel) library reader memory processed
        ≡ replayed t memory processed in
      elim (next-Gives library reader) [
        | ended n c ↦ subst same (sym c) (rw (n, replay_loop) refl)
        | broken n c ↦ subst same (sym c) (rw (n, replay_loop) refl)
        | gave e n c ↦
            let after = replay_entry access e memory processed in
            let ih =
              replay_loop-trace fuel (next library reader).0 after.0.0 after.0.1
                (omega (arith, next-left library reader e n)) in
            subst same (sym c) (elim (status-cases after.1) [
              | inl good ↦ rw (n, good, replay_loop, replay_trace) ih
              | inr (inl bad) ↦ rw (n, bad, replay_loop, replay_trace) refl
              | inr (inr full) ↦ rw (n, full, replay_loop, replay_trace) refl
            ])
      ]
