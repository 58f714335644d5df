-- ===== src/Tests/PageTables.antt =====
-- src/page_table.c: the theorems at a table with one page, and at a second table that shares its nodes.
use simulador_memoria_virtua.Base.{
  ℕ, ◌+◌, ◌≡◌, refl, ap, arith, Bool, true, none, some, Status, success, failure, ltb,
}
use simulador_memoria_virtua.Address.{page_number, level_index}
use simulador_memoria_virtua.PageTable.{
  create, clone_shared, lookup, lookup_with_levels, lookup_loop, map, ensure_private_root, map_loop,
  map_step, map_leaf,
}
use simulador_memoria_virtua.PageTable.Queries.{shares_root, root_reference_count}
use simulador_memoria_virtua.PageTable.Objects.{
  PageTableEntry, Store, freed_node, freed_entry, request, node_create, entry_create, node_retain,
}
use simulador_memoria_virtua.PageTable.Valid.{IsValid, HasRoom}
use simulador_memoria_virtua.PageTable.Empty.{create-IsValid, create-lookup}
use simulador_memoria_virtua.PageTable.Sharing.{
  clone_shared-IsValid, clone_shared-lookup_others, clone_shared-shares_root,
}
use simulador_memoria_virtua.PageTable.Mapping.{shown}
use simulador_memoria_virtua.PageTable.Isolation.{
  map-IsValid, map-succeeds, map-lookup, map-lookup_others, map_failure-lookup,
}
use simulador_memoria_virtua.PageTable.Levels.{lookup_with_levels-all}

abbrev pub blank : (ℕ → Bool) → Store
blank granted = record {
  nodes = λ n. freed_node;
  node_count = 0;
  leaves = λ x. freed_entry;
  leaf_count = 0;
  roots = λ t. none;
  table_count = 0;
  granted = granted;
  requests = 0;
}

abbrev pub always : ℕ → Bool
always k = true

pub blank-IsValid : (granted : ℕ → Bool) → IsValid (blank granted)
blank-IsValid granted = record {
  nodes = λ x lt. absurd (omega arith);
  leaves = λ x lt. absurd (omega arith);
  levels = λ p lt. absurd (omega arith);
  down_node = λ p i c lt b inner at. absurd (omega arith);
  down_leaf = λ p i c lt b outer at. absurd (omega arith);
  rooted = λ t r at. absurd (cc);
}

-- A table; the page at 4096 mapped to frame 7; and a second table that shares all of it.
abbrev pub empty_table : Store
empty_table = (create (blank always)).0

abbrev pub one_page : Store
one_page = (map empty_table (some 0) 4096 7).0

abbrev two_tables : Store
two_tables = (clone_shared one_page (some 0)).0

empty_table-sizes :
    (empty_table.node_count ≡ 1) × (empty_table.table_count ≡ 1) × (empty_table.roots 0 ≡ some 0)
unfolding create request node_create
empty_table-sizes = (refl, refl, refl)

pub one_page-sizes :
    (one_page.node_count ≡ 4) × (one_page.table_count ≡ 1) × (one_page.roots 0 ≡ some 0)
unfolding create request node_create map ensure_private_root map_loop map_step map_leaf entry_create
one_page-sizes = (refl, refl, refl)

two_tables-sizes :
    (two_tables.node_count ≡ 4) × (two_tables.table_count ≡ 2) × (two_tables.roots 1 ≡ some 0)
unfolding create request node_create map ensure_private_root map_loop map_step map_leaf entry_create
    clone_shared node_retain
two_tables-sizes = (refl, refl, refl)

two_tables-granted : (k : ℕ) → two_tables.granted k ≡ true
unfolding create request node_create map ensure_private_root map_loop map_step map_leaf entry_create
    clone_shared node_retain
two_tables-granted k = refl

empty_table-granted : (k : ℕ) → empty_table.granted k ≡ true
unfolding create request node_create
empty_table-granted k = refl

empty_table-IsValid : IsValid empty_table
empty_table-IsValid = create-IsValid (blank always) (blank-IsValid always)

empty_table-HasRoom : HasRoom empty_table 4
empty_table-HasRoom = let (nodes, tables, root) = empty_table-sizes in omega (arith, nodes, tables)

pub one_page-IsValid : IsValid one_page
one_page-IsValid = map-IsValid empty_table empty_table-IsValid empty_table-HasRoom 0 4096 7

one_page-HasRoom : HasRoom one_page 1
one_page-HasRoom = let (nodes, tables, root) = one_page-sizes in omega (arith, nodes, tables)

two_tables-IsValid : IsValid two_tables
two_tables-IsValid = clone_shared-IsValid one_page one_page-IsValid one_page-HasRoom 0

two_tables-HasRoom : HasRoom two_tables 4
two_tables-HasRoom = let (nodes, tables, root) = two_tables-sizes in omega (arith, nodes, tables)

-- The second table maps a page that the first one has, and a page that none has.
abbrev written : Store
written = (map two_tables (some 1) 4096 9).0

writing : map two_tables (some 1) 4096 9 ≡ (written, success)
writing =
    let (nodes, tables, root) = two_tables-sizes in
    ap (λ (r : Status). (written, r))
      (map-succeeds two_tables two_tables-IsValid two_tables-HasRoom 1 4096 9 0 root
        two_tables-granted)

create-lookup_example :
    (lookup empty_table (some 0) 4096 ≡ none)
    × (lookup empty_table (some 1) 4096 ≡ lookup (blank always) (some 1) 4096)
unfolding create request node_create
create-lookup_example =
    create-lookup (blank always) (blank-IsValid always) empty_table 0 refl 4096 1 (omega arith)

clone_shared-IsValid_example : IsValid (clone_shared one_page (some 0)).0
clone_shared-IsValid_example = clone_shared-IsValid one_page one_page-IsValid one_page-HasRoom 0

sharing : clone_shared one_page (some 0) ≡ (two_tables, some 1)
unfolding create request node_create map ensure_private_root map_loop map_step map_leaf entry_create
    clone_shared node_retain
sharing = refl

clone_shared-lookup_others_example : lookup two_tables (some 0) 4096 ≡ lookup one_page (some 0) 4096
clone_shared-lookup_others_example =
    clone_shared-lookup_others one_page one_page-IsValid one_page-HasRoom 0 two_tables 1 sharing 0
      4096 (omega arith)

clone_shared-shares_root_example :
    (shares_root two_tables (some 0) (some 1) ≡ true)
    × (root_reference_count two_tables (some 1) ≡ root_reference_count one_page (some 0) + 1)
clone_shared-shares_root_example =
    clone_shared-shares_root one_page one_page-IsValid one_page-HasRoom 0 two_tables 1 sharing

map-IsValid_example : IsValid (map two_tables (some 1) 4096 9).0
map-IsValid_example = map-IsValid two_tables two_tables-IsValid two_tables-HasRoom 1 4096 9

map-succeeds_example : (map two_tables (some 1) 4096 9).1 ≡ success
map-succeeds_example =
    map-succeeds two_tables two_tables-IsValid two_tables-HasRoom 1 4096 9 0 two_tables-sizes.2
      two_tables-granted

map-lookup_example :
    (entry : PageTableEntry) × (lookup written (some 1) 4100 ≡ some entry)
    × (entry.frame_number ≡ 9)
unfolding page_number
map-lookup_example =
    map-lookup two_tables two_tables-IsValid two_tables-HasRoom 1 4096 9 written writing 4100
      (omega arith)

map-lookup_others_example :
    shown (lookup written (some 0) 4096) ≡ shown (lookup two_tables (some 0) 4096)
map-lookup_others_example =
    map-lookup_others two_tables two_tables-IsValid two_tables-HasRoom 1 4096 9 written writing 0
      4096 (λ both. omega (arith, both.0))

-- Memory for two objects only: the table and its root.
abbrev scarce : ℕ → Bool
scarce k = ltb k 3

abbrev poor : Store
poor = (create (blank scarce)).0

abbrev refused : Store
refused = (map poor (some 0) 4096 7).0

poor-HasRoom : HasRoom poor 4
unfolding create request node_create
poor-HasRoom = omega arith

refusal : map poor (some 0) 4096 7 ≡ (refused, failure)
unfolding create request node_create map ensure_private_root map_loop map_step map_leaf entry_create
refusal = refl

map_failure-lookup_example :
    shown (lookup refused (some 0) 4096) ≡ shown (lookup poor (some 0) 4096)
map_failure-lookup_example =
    map_failure-lookup poor (create-IsValid (blank scarce) (blank-IsValid scarce)) poor-HasRoom 0
      4096 7 refused refusal 0 4096

lookup_with_levels-all_example : (lookup_with_levels one_page (some 0) 4096).1 ≡ 4
unfolding create request node_create map ensure_private_root map_loop map_step map_leaf entry_create
    lookup_with_levels lookup_loop level_index
lookup_with_levels-all_example =
    lookup_with_levels-all one_page 0 0 4096 refl (one_page.leaves 0) refl
