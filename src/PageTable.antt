-- ===== src/PageTable.antt =====
-- src/page_table.c: the operations of a page table. A `PageTable *` is the address of an object whose
-- root is in the store; a call returns the new store beside the code's return value.
pub mod Objects
pub mod References
pub mod Valid
pub mod Fresh
pub mod Retain
pub mod Reach
pub mod Clone
pub mod Copies
pub mod Roots
pub mod Advanced
pub mod Child
pub mod Root
pub mod Descent
pub mod Leaf
pub mod Lookup
pub mod Mapping
pub mod Isolation
pub mod Sharing
pub mod Empty
pub mod Levels
pub mod Unmap
pub mod Queries
use simulador_memoria_virtua.Base.{
  ℕ, zero, suc, ◌+◌, ◌-◌, ◌%◌, u64_mod, Bool, true, false, not, ◌||◌, Option, none, some, ℤ, pos,
  update, inc64, dec64, for_range, Status, success, failure, ltb, ◌==◌, if◌then◌else◌,
}
use simulador_memoria_virtua.Process.{Pointer}
use simulador_memoria_virtua.PageTable.Objects.{
  index_at, PageTableEntry, PageTableNode, Store, page_table_entries, leaf_level, request,
  node_create, entry_create, add_leaf, freed_node, entry_release, node_retain, node_release,
  set_pointer, node_clone_shallow, entry_clone,
}

-- The depth of the recursion of `page_table_node_release`.
abbrev pub depth : ℕ
depth = 4

-- The new table gets its root, if there is one; otherwise its object is freed.
abbrev pub put_table : Store × Option ℕ → Store × Pointer
put_table (s, none) = (s, none)
put_table (s, some root) = (
  record s { roots = update s.roots s.table_count (some root); table_count = s.table_count + 1 },
  some s.table_count,
)

unfoldable pub create : Store → Store × Pointer
unfolding request
create s = let (s1, met) = request s in if not met then (s1, none) else put_table (node_create s1 0)

unfoldable pub clone_shared : Store → Pointer → Store × Pointer
unfolding request node_retain
clone_shared s none = (s, none)
clone_shared s (some source) = elim (s.roots source) [
  | none ↦ (s, none)
  | some root ↦
      let (s1, met) = request s in
      if not met then (s1, none) else (
        record (node_retain s1 root) {
          roots = update s1.roots s1.table_count (some root);
          table_count = s1.table_count + 1;
        },
        some s1.table_count,
      )
]

-- The table gets the copy of its root, if there is one, and gives up the old root.
abbrev pub put_root : (table old_root : ℕ) → Store × Option ℕ → Store × Option ℕ
put_root table old_root (s, none) = (s, none)
put_root table old_root (s, some new_root) = (
  node_release depth (record s { roots = update s.roots table (some new_root) }) old_root,
  some new_root,
)

-- `page_table_ensure_private_root`, with the root that the table has then; `none` stands for -1.
unfoldable pub ensure_private_root : Store → ℕ → Store × Option ℕ
unfolding node_release
ensure_private_root s table = elim (s.roots table) [
  | none ↦ (s, none)
  | some old_root ↦
      if (s.nodes old_root).reference_count == 1
      then (s, some old_root)
      else put_root table old_root (node_clone_shallow s old_root)
]

-- The parent gets the copy of its child, if there is one, and gives up the child.
abbrev pub put_child : (parent index child : ℕ) → Store × Option ℕ → Store × Option ℕ
put_child parent index child (s, none) = (s, none)
put_child parent index child (s, some copy) =
    (node_release depth (set_pointer s parent index (some copy)) child, some copy)

unfoldable pub ensure_private_child : Store → (parent index : ℕ) → Store × Option ℕ
unfolding node_release
ensure_private_child s parent index = elim ((s.nodes parent).entries index) [
  | none ↦ (s, none)
  | some child ↦
      if (s.nodes child).reference_count == 1
      then (s, some child)
      else put_child parent index child (node_clone_shallow s child)
]

-- A pointer is put in a free place of a node, which counts it.
abbrev pub attach : Store → ℕ → ℕ → ℕ → Store
attach s n index pointer = record s {
  nodes = update s.nodes n (record (s.nodes n) {
    entries = update (s.nodes n).entries index (some pointer);
    active_entries = inc64 (s.nodes n).active_entries;
  });
}

abbrev pub attach_child : (current index : ℕ) → Store × Option ℕ → Store × Option ℕ
attach_child current index (s, none) = (s, none)
attach_child current index (s, some child) = (attach s current index child, some child)

-- One round of the loop of `page_table_map`, at the node `current`.
unfoldable pub map_step : Store → (current level index : ℕ) → Store × Option ℕ
map_step s current level index = elim ((s.nodes current).entries index) [
  | none ↦ attach_child current index (node_create s (level + 1))
  | some child ↦ ensure_private_child s current index
]

-- The rest of the loop, from `level` on.
unfoldable pub map_loop : (rounds : ℕ) → Store → (address level current : ℕ) → Store × Option ℕ
map_loop zero s address level current = (s, some current)
map_loop (suc rounds) s address level current =
    let (s1, reached) = map_step s current level (index_at address level) in
    elim reached [ none ↦ (s1, none) | some next ↦ map_loop rounds s1 address (level + 1) next ]

-- `entry->frame_number = frame_number; entry->present = true;`
abbrev pub set_frame : Store → ℕ → ℕ → Store
set_frame s entry frame_number = record s {
  leaves =
      update s.leaves entry
        (record (s.leaves entry) { frame_number = frame_number; present = true });
}

abbrev pub attach_entry : (current index : ℕ) → Store × Option ℕ → Store × Status
attach_entry current index (s, none) = (s, failure)
attach_entry current index (s, some entry) = (attach s current index entry, success)

-- The leaf node gets the copy of an entry, if there is one, and gives up the entry.
abbrev pub put_entry : (current index entry frame_number : ℕ) → Store × Option ℕ → Store × Status
put_entry current index entry frame_number (s, none) = (s, failure)
put_entry current index entry frame_number (s, some copy) = (
  set_frame (set_pointer (entry_release s entry) current index (some copy)) copy frame_number,
  success,
)

-- The rest of `page_table_map`, at the leaf node.
unfoldable pub map_leaf : Store → (current index frame_number : ℕ) → Store × Status
unfolding entry_create entry_clone entry_release
map_leaf s current index frame_number = elim ((s.nodes current).entries index) [
  | none ↦ attach_entry current index (entry_create s frame_number)
  | some entry ↦
      if ltb 1 (s.leaves entry).reference_count
      then put_entry current index entry frame_number (entry_clone s entry)
      else (set_frame s entry frame_number, success)
]

-- What `page_table_map` does at the leaf node, if the walk reached it.
abbrev pub finish_map : (virtual_address frame_number : ℕ) → Store × Option ℕ → Store × Status
finish_map virtual_address frame_number (s, none) = (s, failure)
finish_map virtual_address frame_number (s, some current) =
    map_leaf s current (index_at virtual_address leaf_level) frame_number

-- The walk of `page_table_map` from the private root, if there is one.
abbrev pub walk_map : (virtual_address : ℕ) → Store × Option ℕ → Store × Option ℕ
walk_map virtual_address (s, none) = (s, none)
walk_map virtual_address (s, some root) = map_loop leaf_level s virtual_address 0 root

unfoldable pub map : Store → Pointer → (virtual_address frame_number : ℕ) → Store × Status
map s none virtual_address frame_number = (s, failure)
map s (some table) virtual_address frame_number =
    finish_map virtual_address frame_number (walk_map virtual_address (ensure_private_root s table))

-- The loop of `page_table_lookup_with_levels` from `level` on, with the number of levels visited.
unfoldable pub lookup_loop :
    (rounds : ℕ) → Store → (address level current visited : ℕ) → Option ℕ × ℕ
lookup_loop zero s address level current visited =
    ((s.nodes current).entries (index_at address level), visited + 1)
lookup_loop (suc rounds) s address level current visited =
    elim ((s.nodes current).entries (index_at address level)) [
      | none ↦ (none, visited + 1)
      | some next ↦ lookup_loop rounds s address (level + 1) next (visited + 1)
    ]

-- The entry that is found, and the number of levels visited.
unfoldable pub lookup_with_levels : Store → Pointer → ℕ → Option PageTableEntry × ℕ
unfolding lookup_loop
lookup_with_levels s none virtual_address = (none, 0)
lookup_with_levels s (some table) virtual_address = elim (s.roots table) [
  | none ↦ (none, 0)
  | some root ↦
      let (found, visited) = lookup_loop leaf_level s virtual_address 0 root 0 in
      elim found [
        | none ↦ (none, visited)
        | some entry ↦
            if not (s.leaves entry).present
            then (none, visited)
            else (some (s.leaves entry), visited)
      ]
]

unfoldable pub lookup : Store → Pointer → ℕ → Option PageTableEntry
unfolding lookup_with_levels
lookup s table virtual_address = (lookup_with_levels s table virtual_address).0

unfoldable pub destroy : Store → Pointer → Store
unfolding node_release
destroy s none = s
destroy s (some table) =
    let released : Store = elim (s.roots table) [
      | none ↦ s
      | some root ↦ node_release depth s root
    ] in
    record released { roots = update released.roots table none }
