-- ===== src/Process.antt =====
-- src/process.c: process objects, and the pid that the other components read from them.
-- A `Process *` is the address of an object, or NULL, which is `none`.
pub mod Lifecycle
pub mod Inheritance
use simulador_memoria_virtua.Base.{ℕ, Bool, true, false, Option, none, some, ℤ, minus_one}

abbrev pub Pointer : Type 0
Pointer = Option ℕ

-- `page_table` is the address of the process's own PageTable object.
pub record Process : Type 0 where
  pub pid : ℤ
  pub page_table : Pointer

-- The process objects in memory, by address.
abbrev pub Processes : Type 0
Processes = ℕ → Process

-- `process_get_pid`: -1 for NULL.
unfoldable pub get_pid : Processes → Pointer → ℤ
get_pid processes none = minus_one
get_pid processes (some p) = (processes p).pid

-- `process_get_page_table`: NULL for NULL.
unfoldable pub get_page_table : Processes → Pointer → Pointer
get_page_table processes none = none
get_page_table processes (some p) = (processes p).page_table

abbrev pub is_null : Pointer → Bool
is_null none = true
is_null (some p) = false
