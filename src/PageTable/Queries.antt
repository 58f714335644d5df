-- ===== src/PageTable/Queries.antt =====
-- src/page_table.c: whether tables share their root, and the number of nodes of a table.
use simulador_memoria_virtua.Base.{
  ℕ, zero, suc, ◌+◌, ◌%◌, u64_mod, Bool, true, false, none, some, for_range, ◌==◌,
}
use simulador_memoria_virtua.Process.{Pointer}
use simulador_memoria_virtua.PageTable.Objects.{Store, page_table_entries, leaf_level}
use simulador_memoria_virtua.PageTable.{depth}

-- Whether two tables have one root, and the root's count of references.
unfoldable pub shares_root : Store → Pointer → Pointer → Bool
shares_root s none second = false
shares_root s (some first) none = false
shares_root s (some first) (some second) = elim (s.roots first) [
  | none ↦ false
  | some a ↦ elim (s.roots second) [ none ↦ false | some b ↦ a == b ]
]

unfoldable pub root_reference_count : Store → Pointer → ℕ
root_reference_count s none = 0
root_reference_count s (some table) = elim (s.roots table) [
  | none ↦ 0
  | some root ↦ (s.nodes root).reference_count
]

-- `page_table_node_count_recursive`, four calls deep.
unfoldable pub count_nodes : (fuel : ℕ) → Store → ℕ → ℕ
unfolding for_range
count_nodes zero s n = 0
count_nodes (suc fuel) s n = elim ((s.nodes n).level == leaf_level) [
  | true ↦ 1
  | false ↦
      for_range page_table_entries 0
        (λ index count. elim ((s.nodes n).entries index) [
          | none ↦ count
          | some child ↦ (count + count_nodes fuel s child) % u64_mod
        ])
        1
]

unfoldable pub node_count : Store → Pointer → ℕ
unfolding count_nodes
node_count s none = 0
node_count s (some table) = elim (s.roots table) [ none ↦ 0 | some root ↦ count_nodes depth s root ]
