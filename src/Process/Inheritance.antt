-- ===== src/Process/Inheritance.antt =====
-- src/process.c: what a new process sees, and that parent and child write apart from each other.
use mathlib.Core.Path.{subst}
use simulador_memoria_virtua.Base.{
  ℕ, ◌+◌, ◌%◌, ◌^◌, ◌<◌, ◌≤◌, ◌≡◌, ◌≢◌, ℤ, Option, none, some, inl, inr, refl, ap, sym, ◌∙◌, arith,
  update, is_negative, Bool-cases, success,
}
use simulador_memoria_virtua.Process.{Process, Processes, Pointer, get_pid, get_page_table}
use simulador_memoria_virtua.Process.Lifecycle.{System, put_process, fork}
use simulador_memoria_virtua.Address.{page_number}
use simulador_memoria_virtua.PageTable.{clone_shared, lookup, map}
use simulador_memoria_virtua.PageTable.Objects.{Store, PageTableEntry, request}
use simulador_memoria_virtua.PageTable.Valid.{IsValid, HasRoom, nothing}
use simulador_memoria_virtua.PageTable.Fresh.{asked, asked-IsCounted}
use simulador_memoria_virtua.PageTable.Advanced.{asked-SamePointers}
use simulador_memoria_virtua.PageTable.Reach.{reach, reach-SamePointers}
use simulador_memoria_virtua.PageTable.Lookup.{seen, lookup-seen}
use simulador_memoria_virtua.PageTable.Sharing.{
  seen-leaves, clone_shared-IsValid, clone_shared-lookup, clone_shared-lookup_others,
  clone_shared_new,
}
use simulador_memoria_virtua.PageTable.Mapping.{shown}
use simulador_memoria_virtua.PageTable.Isolation.{map-lookup_others}

asked-lookup : (s : Store) (k t a : ℕ) → lookup (asked s k) (some t) a ≡ lookup s (some t) a
asked-lookup s k t a =
    lookup-seen (asked s k) t a
    ∙ ap (seen (asked s k)) (reach-SamePointers s (asked s k) (asked-SamePointers s k) t a 4)
    ∙ seen-leaves s (asked s k) refl (reach s t a 4)
    ∙ sym (lookup-seen s t a)

-- `process` of `system1` has the pid and a table of its own, in which each address shows `shows`; the
-- tables of `system` show what they showed.
pub record Born (system system1 : System) (process : ℕ) (pid : ℤ)
    (shows : ℕ → Option PageTableEntry) : Type 0 where
  pub table : ℕ
  pub valid : IsValid system1.tables
  pub has_pid : get_pid system1.processes (some process) ≡ pid
  pub has_table : get_page_table system1.processes (some process) ≡ some table
  pub sees : (a : ℕ) → lookup system1.tables (some table) a ≡ shows a
  pub others :
      (other a : ℕ)
      → other ≢ table
      → lookup system1.tables (some other) a ≡ lookup system.tables (some other) a
  pub room : system1.tables.node_count ≤ system.tables.node_count + 1
  pub one_more : system1.tables.table_count ≡ system.tables.table_count + 1
  pub fresh : table ≡ system.tables.table_count

-- A process was made out of what the page table functions returned.
put_process-made :
    (system system1 : System) (pid : ℤ) (process : ℕ) (result : Store × Pointer)
    → put_process system pid result ≡ (system1, some process)
    → (table : ℕ) × (result ≡ (system1.tables, some table))
      × (get_pid system1.processes (some process) ≡ pid)
      × (get_page_table system1.processes (some process) ≡ some table)
unfolding get_pid get_page_table
put_process-made system system1 pid process (s, none) made =
    absurd (let e : none ≡ some process = ap (λ r. r.1) made in cc)
put_process-made system system1 pid process (s, some table) made =
    let here : some system.process_count ≡ some process = ap (λ r. r.1) made in
    let at : system.process_count ≡ process = cc in
    let store : s ≡ system1.tables = ap (λ r. r.0.tables) made in
    let all : update system.processes system.process_count
          (record { pid = pid; page_table = some table })
        ≡ system1.processes =
      ap (λ r. r.0.processes) made in
    let one : system1.processes process ≡ record { pid = pid; page_table = some table } =
      sym (ap (λ (f : Processes). f process) all) ∙ ground (arith, at) in
    (
      table,
      ap (λ (r : Store). (r, some table)) store,
      ap (λ (p : Process). p.pid) one,
      ap (λ (p : Process). p.page_table) one,
    )

module _ (system : System) (v : IsValid system.tables) (room : HasRoom system.tables 1)
    (parent source : ℕ) (has_table : get_page_table system.processes (some parent) ≡ some source)
    (pid : ℤ) (system1 : System) (child : ℕ)
    (forked : fork system (some parent) pid ≡ (system1, some child)) where
  -- The memory for the process was granted, and the rest of the function ran.
  fork-made :
      put_process system pid
        (clone_shared (asked system.tables (system.tables.requests + 1)) (some source))
      ≡ (system1, some child)
  unfolding fork request get_page_table
  fork-made = elim (Bool-cases (is_negative pid)) [
    | inl negative ↦
        let stop : fork system (some parent) pid ≡ (system, none) = rw (negative, fork) refl in
        absurd (let e : (system, none) ≡ (system1, some child) = sym stop ∙ forked in cc)
    | inr legal ↦ elim (Bool-cases (system.tables.granted system.tables.requests)) [
      | inr refused ↦
          let tables = asked system.tables (system.tables.requests + 1) in
          let stop : fork system (some parent) pid ≡ (record system { tables = tables }, none) =
            rw (legal, refused, fork) refl in
          absurd (
            let e : (record system { tables = tables }, none) ≡ (system1, some child) =
              sym stop ∙ forked in
            cc)
      | inl met ↦
          let tables = asked system.tables (system.tables.requests + 1) in
          let step : fork system (some parent) pid
              ≡ put_process system pid (clone_shared tables (system.processes parent).page_table) =
            rw (legal, met, fork) refl in
          ap (λ t. put_process system pid (clone_shared tables t)) (sym has_table)
          ∙ sym step
          ∙ forked
    ]
  ]

  pub fork-Born :
      Born system system1 child pid (λ a. lookup system.tables (some source) a)
      × (source < system.tables.table_count)
  fork-Born =
      let s = asked system.tables (system.tables.requests + 1) in
      let w : IsValid s =
        asked-IsCounted system.tables nothing nothing (system.tables.requests + 1) v in
      let (table, cloned, has_pid, its_table) =
        put_process-made system system1 pid child (clone_shared s (some source)) fork-made in
      let (new, known, nodes, tables) =
        clone_shared_new s w room source system1.tables table cloned in
      (
        record {
          table = table;
          valid =
              subst (λ (r : Store × Pointer). IsValid r.0) cloned
                (clone_shared-IsValid s w room source);
          has_pid = has_pid;
          has_table = its_table;
          sees = λ a.
              clone_shared-lookup s w room source system1.tables table cloned a
              ∙ asked-lookup system.tables (system.tables.requests + 1) source a;
          others = λ other a ne.
              clone_shared-lookup_others s w room source system1.tables table cloned other a ne
              ∙ asked-lookup system.tables (system.tables.requests + 1) other a;
          room = omega (arith, nodes);
          one_more = tables;
          fresh = new;
        },
        known,
      )

  -- When a process whose page table is in a valid store, with addresses to spare, forks, the
  -- store is valid afterwards, the child has the pid that was asked for, and a lookup in the
  -- child's table gives what a lookup in the parent's table gave before.
  pub fork-lookup :
      (table : ℕ)
      → get_page_table system1.processes (some child) ≡ some table
      → (a : ℕ)
      → IsValid system1.tables
        × (get_pid system1.processes (some child) ≡ pid)
        × (lookup system1.tables (some table) a ≡ lookup system.tables (some source) a)
  fork-lookup table its_table a =
      let b = fork-Born.0 in
      let same : some b.table ≡ some table = sym b.has_table ∙ its_table in
      let here : b.table ≡ table = cc in
      (
        b.valid,
        b.has_pid,
        subst (λ t. lookup system1.tables (some t) a ≡ lookup system.tables (some source) a) here
            (b.sees a),
      )

-- The child, or the parent, maps a page.
module _ (system : System) (v : IsValid system.tables) (room : HasRoom system.tables 6)
    (parent source : ℕ) (has_table : get_page_table system.processes (some parent) ≡ some source)
    (pid : ℤ) (system1 : System) (child table : ℕ)
    (forked : fork system (some parent) pid ≡ (system1, some child))
    (its_table : get_page_table system1.processes (some child) ≡ some table) (address frame : ℕ)
    (s2 : Store) where
  -- When a process whose page table is in a valid store, with addresses to spare, forks, and then
  -- the page table of the child maps a page, every lookup in the parent's table shows what it
  -- showed before the fork, and a lookup in the child's table of any page whose number differs
  -- modulo 2 ^ 36 shows what the parent's table showed before the fork, counts of references
  -- aside.
  pub fork-map_child :
      map system1.tables (some table) address frame ≡ (s2, success)
      → (a other : ℕ) → page_number other % 2 ^ 36 ≢ page_number address % 2 ^ 36
      → (shown (lookup s2 (some source) a) ≡ shown (lookup system.tables (some source) a))
        × (shown (lookup s2 (some table) other) ≡ shown (lookup system.tables (some source) other))
  fork-map_child mapped a other elsewhere =
      let (b, known) =
        fork-Born system v (omega arith) parent source has_table pid system1 child forked in
      let same : some b.table ≡ some table = sym b.has_table ∙ its_table in
      let here : b.table ≡ table = cc in
      let change =
        map-lookup_others system1.tables b.valid (omega (arith, b.room, b.one_more)) table address
          frame s2 mapped in
      (
        change source a (λ both. omega (arith, both.0, here, b.fresh, known))
            ∙ ap shown (b.others source a (omega (arith, b.fresh, known))),
        change table other (λ both. elsewhere both.1)
            ∙ ap shown (
                subst
                  (λ t.
                    lookup system1.tables (some t) other ≡ lookup system.tables (some source) other)
                  here (b.sees other)),
      )

  -- When a process whose page table is in a valid store, with addresses to spare, forks, and then
  -- its own page table maps a page, every lookup in the child's table shows what the parent's
  -- table showed before the fork, counts of references aside.
  pub fork-map_parent :
      map system1.tables (some source) address frame ≡ (s2, success)
      → (a : ℕ) → shown (lookup s2 (some table) a) ≡ shown (lookup system.tables (some source) a)
  fork-map_parent mapped a =
      let (b, known) =
        fork-Born system v (omega arith) parent source has_table pid system1 child forked in
      let same : some b.table ≡ some table = sym b.has_table ∙ its_table in
      let here : b.table ≡ table = cc in
      map-lookup_others system1.tables b.valid (omega (arith, b.room, b.one_more)) source address
        frame s2 mapped table a (λ both. omega (arith, both.0, here, b.fresh, known))
      ∙ ap shown (
          subst (λ t. lookup system1.tables (some t) a ≡ lookup system.tables (some source) a) here
            (b.sees a))
