-- ===== src/PageTable/Roots.antt =====
-- src/page_table.c: the roots of the tables.
use simulador_memoria_virtua.Base.{
  ℕ, ◌+◌, ◌<◌, ◌≡◌, ap, some, arith, update, bit, count_change, count-congr, count-suc, ◌==◌,
}
use simulador_memoria_virtua.PageTable.Objects.{Store}
use simulador_memoria_virtua.PageTable.References.{points, root_place, node_refs, leaf_refs}
use simulador_memoria_virtua.PageTable.Valid.{Held, IsCounted}

-- A table gets another root, and a new table gets one.
abbrev pub with_root : Store → ℕ → ℕ → Store
with_root s table root = record s { roots = update s.roots table (some root) }

abbrev pub with_table : Store → ℕ → Store
with_table s root = record s {
  roots = update s.roots s.table_count (some root);
  table_count = s.table_count + 1;
}

module _ (s : Store) (h h' e : Held) (v : IsCounted s h e) (root : ℕ) (below : root < s.node_count)
    (top : (s.nodes root).level ≡ 0) where
  node_refs-with_root :
      (table : ℕ)
      → table < s.table_count
      → (x : ℕ)
      → node_refs (with_root s table root) x + bit (points (s.roots table) x)
        ≡ node_refs s x + bit (root == x)
  unfolding node_refs
  node_refs-with_root table lt x =
      let t = with_root s table root in
      let change =
        count_change (root_place t x) (root_place s x) s.table_count table lt
          (λ j ne. ground arith) in
      let now : root_place t x table ≡ (root == x) = ground arith in
      omega (arith, change, ap bit now)

  node_refs-with_table : (x : ℕ) → node_refs (with_table s root) x ≡ node_refs s x + bit (root == x)
  unfolding node_refs
  node_refs-with_table x =
      let t = with_table s root in
      let longer = count-suc (root_place t x) s.table_count in
      let now : root_place t x s.table_count ≡ (root == x) = ground arith in
      let old =
        count-congr (root_place t x) (root_place s x) s.table_count (λ j lt. ground arith) in
      omega (arith, longer, ap bit now, old)

  pub with_root-IsCounted :
      (table : ℕ)
      → table < s.table_count
      → ((x : ℕ) → h' x + bit (root == x) ≡ h x + bit (points (s.roots table) x))
      → IsCounted (with_root s table root) h' e
  unfolding leaf_refs
  with_root-IsCounted table lt held = record {
    nodes = λ x b. omega (arith, v.nodes x b, held x, node_refs-with_root table lt x);
    leaves = v.leaves;
    levels = v.levels;
    down_node = v.down_node;
    down_leaf = v.down_leaf;
    rooted = λ t r at. ground (arith, v.rooted t r);
  }

  pub with_table-IsCounted :
      ((x : ℕ) → h' x + bit (root == x) ≡ h x) → IsCounted (with_table s root) h' e
  unfolding leaf_refs
  with_table-IsCounted held = record {
    nodes = λ x b. omega (arith, v.nodes x b, held x, node_refs-with_table x);
    leaves = v.leaves;
    levels = v.levels;
    down_node = v.down_node;
    down_leaf = v.down_leaf;
    rooted = λ t r at. ground (arith, v.rooted t r);
  }
