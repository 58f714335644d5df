-- ===== src/PageTable/Unmap.antt =====
-- src/page_table.c: `page_table_unmap`, which frees the nodes that become empty.
use simulador_memoria_virtua.Base.{
  ℕ, zero, suc, ◌+◌, true, false, Option, none, some, update, dec64, Status, success, failure, ◌==◌,
}
use simulador_memoria_virtua.Process.{Pointer}
use simulador_memoria_virtua.PageTable.Objects.{
  index_at, Store, leaf_level, freed_node, entry_release,
}
use simulador_memoria_virtua.PageTable.{ensure_private_root, ensure_private_child, lookup}

-- The loop of `page_table_unmap` down to the leaf node; `path` is its array `nodes`.
unfoldable pub path_loop :
    (rounds : ℕ) → Store → (address level : ℕ) → (path : ℕ → ℕ) → Store × Option (ℕ → ℕ)
path_loop zero s address level path = (s, some path)
path_loop (suc rounds) s address level path =
    let (s1, reached) = ensure_private_child s (path level) (index_at address level) in
    elim reached [
      | none ↦ (s1, none)
      | some child ↦ path_loop rounds s1 address (level + 1) (update path (level + 1) child)
    ]

-- A place of a node is cleared, and the node counts it out.
abbrev pub detach : Store → ℕ → ℕ → Store
detach s n index = record s {
  nodes = update s.nodes n (record (s.nodes n) {
    entries = update (s.nodes n).entries index none;
    active_entries = dec64 (s.nodes n).active_entries;
  });
}

-- `page_table_empty_node_destroy`
abbrev pub free_node : Store → ℕ → Store
free_node s n = record s { nodes = update s.nodes n freed_node }

-- The loop that removes empty nodes, from `level` up to the root.
unfoldable pub prune : (level : ℕ) → Store → (address : ℕ) → (path : ℕ → ℕ) → Store
prune zero s address path = s
prune (suc level) s address path = elim ((s.nodes (path (suc level))).active_entries == 0) [
  | false ↦ s
  | true ↦
      prune level (detach (free_node s (path (suc level))) (path level) (index_at address level))
        address path
]

-- The rest of `page_table_unmap`, at the leaf node.
unfoldable pub unmap_leaf : Store → (address : ℕ) → (path : ℕ → ℕ) → Store × Status
unfolding entry_release prune
unmap_leaf s address path =
    let leaf_index = index_at address leaf_level in
    elim ((s.nodes (path leaf_level)).entries leaf_index) [
      | none ↦ (s, failure)
      | some entry ↦ (
        prune leaf_level (detach (entry_release s entry) (path leaf_level) leaf_index) address path,
        success,
      )
    ]

unfoldable pub unmap : Store → Pointer → ℕ → Store × Status
unmap s none virtual_address = (s, failure)
unmap s (some table) virtual_address = elim (lookup s (some table) virtual_address) [
  | none ↦ (s, failure)
  | some found ↦
      let (s1, rooted) = ensure_private_root s table in
      elim rooted [
        | none ↦ (s1, failure)
        | some root ↦
            let (s2, reached) = path_loop leaf_level s1 virtual_address 0 (λ level. root) in
            elim reached [ none ↦ (s2, failure) | some path ↦ unmap_leaf s2 virtual_address path ]
      ]
]
