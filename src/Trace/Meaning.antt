-- ===== src/Trace/Meaning.antt =====
-- src/trace.c: the entries that the lines of a trace stand for, and their replay one by one.
use mathlib.Core.List.{List, [], ◌∷◌}
use simulador_memoria_virtua.Base.{
  ℕ, Bool, true, false, not, ◌||◌, Option, none, some, ◌==◌, if◌then◌else◌, Status, success,
  failure, no_space,
}
use simulador_memoria_virtua.Trace.{
  Text, CLibrary, TraceAccessType, trace_access_read, trace_access_write, TraceEntry, TraceReader,
  skip_whitespace, parse_parameters, replay_entry,
}

-- What a letter stands for: L and R are a read, S and W a write, M is a read and then a write, I is
-- not looked at, and no other letter is an operation.
pub data Letter : Type 0 where
  one : TraceAccessType → Letter
  read_and_write ignored unknown : Letter

unfoldable pub letter : ℕ → Letter
letter c =
    if c == 73
    then ignored
    else if (c == 76) || (c == 82)
    then one trace_access_read
    else if (c == 83) || (c == 87)
    then one trace_access_write
    else if c == 77
    then read_and_write
    else unknown

-- The entries of a line with a letter and its parameters, put before those of the lines after it; a
-- trace ends with whether all of it could be read.
abbrev pub Trace : Type 0
Trace = List TraceEntry × Bool

abbrev pub entry : ℕ × ℕ → TraceAccessType → TraceEntry
entry (address, size) type = record { type = type; address = address; size = size }

abbrev pub expand : Letter → Option (ℕ × ℕ) → Trace → Trace
expand ignored parameters (entries, good) = (entries, good)
expand unknown parameters after = ([], false)
expand (one type) none after = ([], false)
expand read_and_write none after = ([], false)
expand (one type) (some p) (entries, good) = (entry p type ∷ entries, good)
expand read_and_write (some p) (entries, good) =
    (entry p trace_access_read ∷ entry p trace_access_write ∷ entries, good)

-- A line that is blank, or a comment, has no entries.
abbrev pub line_trace : CLibrary → Text → Trace → Trace
line_trace library [] after = after
line_trace library (c ∷ text) after =
    if (c == 10) || (c == 35)
    then after
    else expand (letter (library.to_upper c)) (parse_parameters library text) after

-- `failed` says whether the file could not be read to its end.
unfoldable pub lines_trace : CLibrary → (failed : Bool) → List Text → Trace
lines_trace library failed [] = ([], not failed)
lines_trace library failed (line ∷ lines) =
    line_trace library (skip_whitespace library line) (lines_trace library failed lines)

-- What a reader has still to give.
abbrev pub before : (pending : Bool) → TraceEntry → Trace → Trace
before true e (entries, good) = (e ∷ entries, good)
before false e after = after

abbrev pub contents : CLibrary → TraceReader → Trace
contents library reader =
    before reader.has_pending_entry reader.pending_entry
      (lines_trace library reader.failed reader.rest)

-- The replay of entries one by one.
unfoldable pub replay_trace {ℓ} :
    {M : Type ℓ} (access : M → ℕ → TraceAccessType → M × Bool) (entries : List TraceEntry)
    (good : Bool)
    → M
    → ℕ
    → (M × ℕ) × Status
replay_trace access [] good memory processed =
    ((memory, processed), if good then success else failure)
replay_trace access (e ∷ entries) good memory processed =
    let ((memory1, processed1), status) = replay_entry access e memory processed in
    let after = replay_trace access entries good memory1 processed1 in
    elim status [
      | success ↦ after
      | failure ↦ ((memory1, processed1), failure)
      | no_space ↦ ((memory1, processed1), failure)
    ]
