-- ===== src/Tests/Processes.antt =====
-- src/process.c: the theorems at a process with one page, and its child.
use simulador_memoria_virtua.Base.{ℕ, ◌≡◌, refl, ap, arith, pos, true, some, Status, success}
use simulador_memoria_virtua.Process.{get_pid, get_page_table}
use simulador_memoria_virtua.Process.Lifecycle.{System, fork}
use simulador_memoria_virtua.Process.Inheritance.{
  fork-Born, fork-lookup, fork-map_child, fork-map_parent,
}
use simulador_memoria_virtua.Address.{page_number}
use simulador_memoria_virtua.PageTable.{
  create, clone_shared, lookup, map, ensure_private_root, map_loop, map_step, map_leaf,
}
use simulador_memoria_virtua.PageTable.Objects.{
  Store, request, node_create, entry_create, node_retain,
}
use simulador_memoria_virtua.PageTable.Valid.{IsValid, HasRoom}
use simulador_memoria_virtua.PageTable.Mapping.{shown}
use simulador_memoria_virtua.PageTable.Isolation.{map-succeeds}
use simulador_memoria_virtua.Tests.PageTables.{one_page, one_page-IsValid, one_page-sizes}

abbrev family : System
family = record {
  tables = one_page;
  processes = λ p. record { pid = pos 1; page_table = some 0 };
  process_count = 1;
}

abbrev forked : System
forked = (fork family (some 0) (pos 2)).0

forking : fork family (some 0) (pos 2) ≡ (forked, some 1)
unfolding fork create request node_create map ensure_private_root map_loop map_step map_leaf
    entry_create clone_shared node_retain
forking = refl

parent_table : get_page_table family.processes (some 0) ≡ some 0
unfolding get_page_table
parent_table = refl

child_table : get_page_table forked.processes (some 1) ≡ some 1
unfolding get_page_table fork create request node_create map ensure_private_root map_loop map_step
    map_leaf entry_create clone_shared node_retain
child_table = refl

family-HasRoom : HasRoom one_page 6
family-HasRoom = let (nodes, tables, root) = one_page-sizes in omega (arith, nodes, tables)

forked-sizes :
    (forked.tables.node_count ≡ 4)
    × (forked.tables.table_count ≡ 2)
    × (forked.tables.roots 0 ≡ some 0)
    × (forked.tables.roots 1 ≡ some 0)
unfolding fork create request node_create map ensure_private_root map_loop map_step map_leaf
    entry_create clone_shared node_retain
forked-sizes = (refl, refl, refl, refl)

forked-granted : (k : ℕ) → forked.tables.granted k ≡ true
unfolding fork create request node_create map ensure_private_root map_loop map_step map_leaf
    entry_create clone_shared node_retain
forked-granted k = refl

forked-IsValid : IsValid forked.tables
forked-IsValid =
    let few : HasRoom one_page 1 =
      (let (nodes, tables, root) = one_page-sizes in omega (arith, nodes, tables)) in
    (fork-Born family one_page-IsValid few 0 0 parent_table (pos 2) forked 1 forking).0.valid

forked-HasRoom : HasRoom forked.tables 4
forked-HasRoom = let (nodes, tables, first, second) = forked-sizes in omega (arith, nodes, tables)

fork-lookup_example :
    IsValid forked.tables
    × (get_pid forked.processes (some 1) ≡ pos 2)
    × (lookup forked.tables (some 1) 4096 ≡ lookup one_page (some 0) 4096)
fork-lookup_example =
    fork-lookup family one_page-IsValid (omega (arith, one_page-sizes.0, one_page-sizes.1)) 0 0
      parent_table (pos 2) forked 1 forking 1 child_table 4096

-- Each of the two maps a page anew.
abbrev child_wrote : Store
child_wrote = (map forked.tables (some 1) 4096 9).0

child_writes : map forked.tables (some 1) 4096 9 ≡ (child_wrote, success)
child_writes =
    let (nodes, tables, first, second) = forked-sizes in
    ap (λ (r : Status). (child_wrote, r))
      (map-succeeds forked.tables forked-IsValid forked-HasRoom 1 4096 9 0 second forked-granted)

abbrev parent_wrote : Store
parent_wrote = (map forked.tables (some 0) 4096 9).0

parent_writes : map forked.tables (some 0) 4096 9 ≡ (parent_wrote, success)
parent_writes =
    let (nodes, tables, first, second) = forked-sizes in
    ap (λ (r : Status). (parent_wrote, r))
      (map-succeeds forked.tables forked-IsValid forked-HasRoom 0 4096 9 0 first forked-granted)

fork-map_child_example :
    (shown (lookup child_wrote (some 0) 4096) ≡ shown (lookup one_page (some 0) 4096))
    × (shown (lookup child_wrote (some 1) 8192) ≡ shown (lookup one_page (some 0) 8192))
unfolding page_number
fork-map_child_example =
    fork-map_child family one_page-IsValid family-HasRoom 0 0 parent_table (pos 2) forked 1 1
      forking child_table 4096 9 child_wrote child_writes 4096 8192 (omega arith)

fork-map_parent_example :
    shown (lookup parent_wrote (some 1) 4096) ≡ shown (lookup one_page (some 0) 4096)
fork-map_parent_example =
    fork-map_parent family one_page-IsValid family-HasRoom 0 0 parent_table (pos 2) forked 1 1
      forking child_table 4096 9 parent_wrote parent_writes 4096
