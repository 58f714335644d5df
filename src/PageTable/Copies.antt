-- ===== src/PageTable/Copies.antt =====
-- src/page_table.c: what `page_table_node_clone_shallow` returns.
use simulador_memoria_virtua.Base.{
  ℕ, ◌+◌, ◌<◌, ◌≤◌, ◌≡◌, ◌⊎◌, refl, ap, none, some, inl, inr, arith, update, for_range,
}
use simulador_memoria_virtua.PageTable.Objects.{
  Store, page_table_entries, share_entry, node_clone_shallow, fill_copy,
}
use simulador_memoria_virtua.PageTable.Valid.{
  nothing, one, IsCounted, HasRoom, SamePointers-IsCounted,
}
use simulador_memoria_virtua.PageTable.Fresh.{
  Refused, asked, with_node, node_create-cases, with_node-IsCounted,
}
use simulador_memoria_virtua.PageTable.Clone.{forget, Copying, copied}

-- `s1` has a copy of the node `source` of `s` at a new address, held by the one who asked for it.
pub record Cloned (s : Store) (source : ℕ) (s1 : Store) : Type 0 where
  pub counted : IsCounted s1 (one s.node_count) nothing
  pub node_count : s1.node_count ≡ s.node_count + 1
  pub leaf_count : s1.leaf_count ≡ s.leaf_count
  pub table_count : s1.table_count ≡ s.table_count
  pub roots : s1.roots ≡ s.roots
  pub granted : s1.granted ≡ s.granted
  pub levels : (q : ℕ) → q < s.node_count → (s1.nodes q).level ≡ (s.nodes q).level
  pub level : (s1.nodes s.node_count).level ≡ (s.nodes source).level
  pub others : (q j : ℕ) → q < s.node_count → (s1.nodes q).entries j ≡ (s.nodes q).entries j
  pub filled : (j : ℕ) → j < 512 → (s1.nodes s.node_count).entries j ≡ (s.nodes source).entries j
  pub leaves : (x : ℕ) → forget (s1.leaves x) ≡ forget (s.leaves x)
  pub counts :
      (q : ℕ)
      → q < s.node_count
      → (s.nodes q).level ≤ (s.nodes source).level
      → (s1.nodes q).reference_count ≡ (s.nodes q).reference_count
  pub count : (s1.nodes s.node_count).reference_count ≡ 1

module _ (s : Store) (source : ℕ) (v : IsCounted s nothing nothing) (room : HasRoom s 1)
    (below : source < s.node_count) where
  -- The new node, with the counter of active entries of the source.
  begun : ℕ → Store
  begun k =
      let s1 = with_node s k (s.nodes source).level in
      record s1 {
        nodes =
            update s1.nodes s.node_count (record (s1.nodes s.node_count) {
              active_entries = (s1.nodes source).active_entries;
            });
      }

  begun-Copying : (k : ℕ) → Copying (begun k) source s.node_count 0 (begun k)
  unfolding begun
  begun-Copying k =
      let level = (s.nodes source).level in
      let fresh =
        with_node-IsCounted s nothing nothing v (one s.node_count) k level (v.levels source below)
          (λ x lt. ground arith) (ground arith) in
      record {
        counted =
            SamePointers-IsCounted (with_node s k level) (begun k)
              (record {
                node_count = refl;
                leaf_count = refl;
                table_count = refl;
                roots = λ x. refl;
                levels = λ x. ground arith;
                entries = λ x i. ground arith;
              })
              (one s.node_count) (one s.node_count) nothing nothing (λ x lt. ground arith)
              (λ x lt. refl) fresh;
        node_count = refl;
        leaf_count = refl;
        table_count = refl;
        roots = refl;
        granted = refl;
        levels = λ q. refl;
        others = λ q j ne. refl;
        filled = λ j lt. absurd (omega arith);
        blank = λ j le. ground arith;
        leaves = λ x. refl;
        counts = λ q le. refl;
      }

  begun-Cloned :
      (k : ℕ) (t : Store) → Copying (begun k) source s.node_count 512 t → Cloned s source t
  unfolding begun
  begun-Cloned k t c = record {
    counted = c.counted;
    node_count = c.node_count;
    leaf_count = c.leaf_count;
    table_count = c.table_count;
    roots = c.roots;
    granted = c.granted;
    levels = λ q lt. ground (arith, c.levels q);
    level = ground (arith, c.levels s.node_count);
    others = λ q j lt. ground (arith, c.others q j);
    filled = λ j lt. ground (arith, c.filled j lt);
    leaves = c.leaves;
    counts = λ q lt le. ground (arith, c.counts q);
    count = ground (arith, c.counts s.node_count);
  }

  pub node_clone_shallow-cases :
      ((k : ℕ) × (node_clone_shallow s source ≡ (asked s k, none)) × Refused s)
      ⊎ ((s1 : Store) × (node_clone_shallow s source ≡ (s1, some s.node_count))
          × Cloned s source s1)
  unfolding node_clone_shallow begun
  node_clone_shallow-cases = elim (node_create-cases s (s.nodes source).level) [
    | inl (k, refused, why) ↦ inl (k, ap (fill_copy source) refused, why)
    | inr (k, made) ↦
        let t = for_range page_table_entries 0 (share_entry source s.node_count) (begun k) in
        let done : Copying (begun k) source s.node_count 512 t =
          copied (begun k) source s.node_count (omega arith) (omega arith) (omega arith)
            (omega arith) (ground arith) (begun-Copying k) in
        inr (t, ap (fill_copy source) made, begun-Cloned k t done)
  ]
