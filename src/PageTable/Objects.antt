-- ===== src/PageTable/Objects.antt =====
-- src/page_table.c: the objects that the page tables are made of, where they lie in memory, and the
-- functions on one object.
use simulador_memoria_virtua.Base.{
  ℕ, zero, suc, ◌+◌, Bool, true, false, not, Option, none, some, update, inc64, dec64, for_range,
  ltb, if◌then◌else◌, pos,
}
use simulador_memoria_virtua.Address.{level_index}

-- `PAGE_TABLE_ENTRIES` of address.h, and the last of its `PAGE_TABLE_LEVELS`.
abbrev pub page_table_entries : ℕ
page_table_entries = 512

abbrev pub leaf_level : ℕ
leaf_level = 3

-- The index at a level of the walk.
abbrev pub index_at : ℕ → ℕ → ℕ
index_at virtual_address level = level_index virtual_address (pos level)

pub record PageTableEntry : Type 0 where
  pub frame_number : ℕ
  pub present : Bool
  pub writable : Bool
  pub dirty : Bool
  pub referenced : Bool
  pub copy_on_write : Bool
  pub reference_count : ℕ

-- `entries` are pointers: to nodes above the leaf level, to entries at it.
pub record PageTableNode : Type 0 where
  pub entries : ℕ → Option ℕ
  pub active_entries : ℕ
  pub level : ℕ
  pub reference_count : ℕ

-- The objects of each type by address. The ones from a count on were never allocated. A table that
-- was freed has no root. `granted k` says whether the `k`-th request for memory is met.
pub record Store : Type 0 where
  pub nodes : ℕ → PageTableNode
  pub node_count : ℕ
  pub leaves : ℕ → PageTableEntry
  pub leaf_count : ℕ
  pub roots : ℕ → Option ℕ
  pub table_count : ℕ
  pub granted : ℕ → Bool
  pub requests : ℕ

-- A call of `calloc` or `malloc`, and whether it is met.
unfoldable pub request : Store → Store × Bool
request s = (record s { requests = s.requests + 1 }, s.granted s.requests)

abbrev pub empty_node : ℕ → PageTableNode
empty_node level = record {
  entries = λ index. none;
  active_entries = 0;
  level = level;
  reference_count = 1;
}

abbrev pub new_entry : ℕ → PageTableEntry
new_entry frame_number = record {
  frame_number = frame_number;
  present = true;
  writable = true;
  dirty = false;
  referenced = false;
  copy_on_write = false;
  reference_count = 1;
}

-- What is left of an object that was freed; no pointer of a sound program leads to it.
abbrev pub freed_node : PageTableNode
freed_node = record (empty_node 0) { reference_count = 0 }

abbrev pub freed_entry : PageTableEntry
freed_entry = record (new_entry 0) { present = false; reference_count = 0 }

unfoldable pub node_create : Store → ℕ → Store × Option ℕ
unfolding request
node_create s level =
    let (s1, first) = request s in
    let (s2, second) = request s1 in
    if not first then (s1, none) else if not second then (s2, none) else (
      record s2 {
        nodes = update s2.nodes s2.node_count (empty_node level);
        node_count = s2.node_count + 1;
      },
      some s2.node_count,
    )

-- An entry is put at a new address.
abbrev pub add_leaf : Store → PageTableEntry → Store × Option ℕ
add_leaf s entry = (
  record s { leaves = update s.leaves s.leaf_count entry; leaf_count = s.leaf_count + 1 },
  some s.leaf_count,
)

unfoldable pub entry_create : Store → ℕ → Store × Option ℕ
unfolding request
entry_create s frame_number =
    let (s1, met) = request s in
    if not met then (s1, none) else add_leaf s1 (new_entry frame_number)

-- The reference count of an object is written.
abbrev pub set_node_count : Store → ℕ → ℕ → Store
set_node_count s n k = record s {
  nodes = update s.nodes n (record (s.nodes n) { reference_count = k });
}

abbrev pub set_entry_count : Store → ℕ → ℕ → Store
set_entry_count s e k = record s {
  leaves = update s.leaves e (record (s.leaves e) { reference_count = k });
}

unfoldable pub entry_retain : Store → ℕ → Store
entry_retain s e = set_entry_count s e (inc64 (s.leaves e).reference_count)

unfoldable pub entry_release : Store → ℕ → Store
entry_release s e =
    if ltb 1 (s.leaves e).reference_count
    then set_entry_count s e (dec64 (s.leaves e).reference_count)
    else record s { leaves = update s.leaves e freed_entry }

unfoldable pub node_retain : Store → ℕ → Store
node_retain s n = set_node_count s n (inc64 (s.nodes n).reference_count)

-- The recursion goes down one level at each step: four calls deep are enough.
unfoldable pub node_release : (fuel : ℕ) → Store → ℕ → Store
unfolding entry_release for_range
node_release zero s n = s
node_release (suc fuel) s n = elim (ltb 1 (s.nodes n).reference_count) [
  | true ↦ set_node_count s n (dec64 (s.nodes n).reference_count)
  | false ↦
      let after =
        for_range page_table_entries 0
          (λ index t. elim ((t.nodes n).entries index) [
            | none ↦ t
            | some child ↦ elim (ltb (t.nodes n).level leaf_level) [
              | true ↦ node_release fuel t child
              | false ↦ entry_release t child
            ]
          ])
          s in
      record after { nodes = update after.nodes n freed_node }
]

-- `node->entries[index] = pointer`
abbrev pub set_pointer : Store → ℕ → ℕ → Option ℕ → Store
set_pointer s n index pointer = record s {
  nodes =
      update s.nodes n (record (s.nodes n) { entries = update (s.nodes n).entries index pointer });
}

-- One round of the loop of `page_table_node_clone_shallow`.
unfoldable pub share_entry : (source copy : ℕ) → ℕ → Store → Store
unfolding node_retain entry_retain
share_entry source copy index s = elim ((s.nodes source).entries index) [
  | none ↦ s
  | some entry ↦
      let s' = set_pointer s copy index (some entry) in
      if ltb (s.nodes source).level leaf_level then node_retain s' entry else entry_retain s' entry
]

-- What `page_table_node_clone_shallow` does with the new node, if there is one.
abbrev pub fill_copy : (source : ℕ) → Store × Option ℕ → Store × Option ℕ
fill_copy source (s, none) = (s, none)
fill_copy source (s, some copy) =
    let begun = record s {
      nodes =
          update s.nodes copy
            (record (s.nodes copy) { active_entries = (s.nodes source).active_entries });
    } in
    (for_range page_table_entries 0 (share_entry source copy) begun, some copy)

unfoldable pub node_clone_shallow : Store → ℕ → Store × Option ℕ
unfolding node_create share_entry
node_clone_shallow s source = fill_copy source (node_create s (s.nodes source).level)

unfoldable pub entry_clone : Store → ℕ → Store × Option ℕ
unfolding request
entry_clone s source =
    let (s1, met) = request s in
    if not met
    then (s1, none)
    else add_leaf s1 (record (s1.leaves source) { reference_count = 1; copy_on_write = false })
