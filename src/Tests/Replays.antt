-- ===== src/Tests/Replays.antt =====
-- src/trace.c: the theorems at a trace of three lines, and at an access that crosses a page.
use mathlib.Core.List.{List, [], ◌∷◌}
use simulador_memoria_virtua.Base.{
  ℕ, ◌-◌, ◌≡◌, refl, arith, Bool, true, false, some, ℤ, pos, minus_one, ltb, if◌then◌else◌, ◌==◌,
  Status, success,
}
use simulador_memoria_virtua.Trace.{
  CLibrary, TraceAccessType, trace_access_read, trace_access_write, TraceEntry, TraceReader,
  skip_whitespace, parse_parameters, replay_entry, replay_loop,
}
use simulador_memoria_virtua.Trace.Reading.{replay_loop-total}
use simulador_memoria_virtua.Trace.Replay.{replay_entry-bytes}
use simulador_memoria_virtua.Trace.Bytes.{replay_bytes}
use simulador_memoria_virtua.Trace.Entries.{replayed, replay_loop-trace}
use simulador_memoria_virtua.Trace.Meaning.{contents, lines_trace, letter}

-- A scan of one digit, and of a second one after the separator.
abbrev scan : (separator : ℕ) → List ℕ → (address size : ℕ) → ℤ × ℕ × ℕ
scan separator (b ∷ d ∷ c ∷ z ∷ text) address size =
    if c == separator then (pos 2, d - 48, z - 48) else (pos 1, d - 48, size)
scan separator (b ∷ d ∷ text) address size = (pos 1, d - 48, size)
scan separator text address size = (minus_one, address, size)

abbrev library : CLibrary
library = record {
  is_space = λ c. c == 32;
  to_upper = λ c. if ltb 96 c then c - 32 else c;
  scan_comma = scan 44;
  scan_blank = scan 32;
}

-- "# ", " m 7,2" and "W 9".
abbrev reader : TraceReader
reader = record {
  rest = (35 ∷ 32 ∷ []) ∷ (32 ∷ 109 ∷ 32 ∷ 55 ∷ 44 ∷ 50 ∷ []) ∷ (87 ∷ 32 ∷ 57 ∷ []) ∷ [];
  failed = false;
  has_pending_entry = false;
  pending_entry = record { type = trace_access_read; address = 0; size = 0 };
}

-- A memory that records the last address accessed.
abbrev access : ℕ → ℕ → TraceAccessType → ℕ × Bool
access memory address type = (address, true)

replay_loop-total_example :
    (status : Status) × ((replay_loop access 8 library reader 0 0).1 ≡ some status)
replay_loop-total_example = replay_loop-total access library 8 reader 0 0 (omega arith)

-- The three entries of the lines: a read and a write of 7 and 8, and a write of 9.
three_entries : contents library reader ≡ (
  record { type = trace_access_read; address = 7; size = 2 }
      ∷ record { type = trace_access_write; address = 7; size = 2 }
      ∷ record { type = trace_access_write; address = 9; size = 1 }
      ∷ [],
  true,
)
unfolding lines_trace letter skip_whitespace parse_parameters
three_entries = refl

replay_loop-trace_example :
    replay_loop access 8 library reader 0 0 ≡ replayed access library (contents library reader) 0 0
replay_loop-trace_example = replay_loop-trace access library 8 reader 0 0 (omega arith)

abbrev crossing : TraceEntry
crossing = record { type = trace_access_write; address = 4095; size = 2 }

replay_entry-bytes_example :
    replay_entry access crossing 0 5 ≡ replay_bytes access 2 crossing 4095 0 5
replay_entry-bytes_example = replay_entry-bytes access crossing 0 5 (omega arith)

-- Two accesses, the second one at the page that begins inside the entry.
two_accesses : replay_bytes access 2 crossing 4095 0 5 ≡ ((4096, 7), success)
unfolding replay_bytes
two_accesses = refl
