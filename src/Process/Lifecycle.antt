-- ===== src/Process/Lifecycle.antt =====
-- src/process.c: `process_create`, `process_fork` and `process_destroy`, over the store of page tables.
use simulador_memoria_virtua.Base.{
  ℕ, ◌+◌, ℤ, pos, not, none, some, update, if◌then◌else◌, is_negative,
}
use simulador_memoria_virtua.Process.{Process, Processes, Pointer}
use simulador_memoria_virtua.PageTable.Objects.{Store, request}
use simulador_memoria_virtua.PageTable
use simulador_memoria_virtua.PageTable.{clone_shared}

-- The page tables, and the process objects by address. The ones from `process_count` on were never
-- allocated.
pub record System : Type 0 where
  pub tables : Store
  pub processes : Processes
  pub process_count : ℕ

-- The new process gets its page table, if there is one; otherwise its object is freed.
abbrev pub put_process : (system : System) (pid : ℤ) → Store × Pointer → System × Pointer
put_process system pid (tables, none) = (record system { tables = tables }, none)
put_process system pid (tables, some table) = (
  record {
    tables = tables;
    processes =
        update system.processes system.process_count
          (record { pid = pid; page_table = some table });
    process_count = system.process_count + 1;
  },
  some system.process_count,
)

unfoldable pub create : System → ℤ → System × Pointer
unfolding request PageTable.create
create system pid =
    if is_negative pid
    then (system, none)
    else let (tables, met) = request system.tables in
      if not met
      then (record system { tables = tables }, none)
      else put_process system pid (PageTable.create tables)

unfoldable pub fork : System → Pointer → ℤ → System × Pointer
unfolding request clone_shared
fork system none child_pid = (system, none)
fork system (some parent) child_pid =
    if is_negative child_pid
    then (system, none)
    else let (tables, met) = request system.tables in
      if not met
      then (record system { tables = tables }, none)
      else put_process system child_pid (clone_shared tables (system.processes parent).page_table)

-- What is left of a process that was freed.
abbrev pub freed_process : Process
freed_process = record { pid = pos 0; page_table = none }

unfoldable pub destroy : System → Pointer → System
unfolding PageTable.destroy
destroy system none = system
destroy system (some process) = record system {
  tables = PageTable.destroy system.tables (system.processes process).page_table;
  processes = update system.processes process freed_process;
}
