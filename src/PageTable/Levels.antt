-- ===== src/PageTable/Levels.antt =====
-- src/page_table.c: the number of levels that `page_table_lookup_with_levels` reports.
use simulador_memoria_virtua.Base.{
  ℕ, zero, suc, ◌+◌, ◌≤◌, ◌≡◌, ◌⊎◌, sym, ◌∙◌, none, some, inl, inr, arith, Option-cases,
}
use simulador_memoria_virtua.PageTable.Objects.{PageTableEntry, Store, index_at, leaf_level}
use simulador_memoria_virtua.PageTable.{lookup_loop, lookup_with_levels}

-- Each round visits one level; only a missing pointer ends the walk early.
lookup_loop-visited :
    (rounds : ℕ) (s : Store) (a level n visited : ℕ)
    → (visited + 1 ≤ (lookup_loop rounds s a level n visited).1)
      × ((lookup_loop rounds s a level n visited).1 ≤ visited + rounds + 1)
      × (((lookup_loop rounds s a level n visited).0 ≡ none)
          ⊎ ((lookup_loop rounds s a level n visited).1 ≡ visited + rounds + 1))
unfolding lookup_loop
lookup_loop-visited zero s a level n visited = (omega arith, omega arith, inr (omega arith))
lookup_loop-visited (suc rounds) s a level n visited =
    elim (Option-cases ((s.nodes n).entries (index_at a level))) [
      | inl miss ↦ ground (arith, miss)
      | inr (next, there) ↦
          let (lo, hi, end) = lookup_loop-visited rounds s a (level + 1) next (visited + 1) in
          rw (there, lookup_loop)
            (
              omega (arith, lo),
              omega (arith, hi),
              elim end [ inl missed ↦ inl missed | inr all ↦ inr (omega (arith, all)) ],
            )
    ]

module _ (s : Store) (table root a : ℕ) (at : s.roots table ≡ some root) where
  -- The walk is the loop from the root.
  levels-loop : (lookup_with_levels s (some table) a).1 ≡ (lookup_loop leaf_level s a 0 root 0).1
  unfolding lookup_with_levels
  levels-loop = elim (Option-cases (lookup_loop leaf_level s a 0 root 0).0) [
    | inl miss ↦ ground (arith, at, miss)
    | inr (x, found) ↦ ground (arith, at, found)
  ]

  found-loop :
      (entry : PageTableEntry)
      → (lookup_with_levels s (some table) a).0 ≡ some entry
      → (x : ℕ) × ((lookup_loop leaf_level s a 0 root 0).0 ≡ some x)
  unfolding lookup_with_levels
  found-loop entry found = elim (Option-cases (lookup_loop leaf_level s a 0 root 0).0) [
    | inl miss ↦ absurd (ground (arith, at, miss))
    | inr there ↦ there
  ]

  pub lookup_with_levels-bounds :
      (1 ≤ (lookup_with_levels s (some table) a).1) × ((lookup_with_levels s (some table) a).1 ≤ 4)
  lookup_with_levels-bounds =
      let (lo, hi, end) = lookup_loop-visited 3 s a 0 root 0 in
      (omega (arith, lo, levels-loop), omega (arith, hi, levels-loop))

  -- In a table that has a root, when `page_table_lookup_with_levels` finds an entry, it reports 4
  -- visited levels.
  pub lookup_with_levels-all :
      (entry : PageTableEntry)
      → (lookup_with_levels s (some table) a).0 ≡ some entry
      → (lookup_with_levels s (some table) a).1 ≡ 4
  lookup_with_levels-all entry found =
      let (x, there) = found-loop entry found in
      let (lo, hi, end) = lookup_loop-visited 3 s a 0 root 0 in
      elim end [
        | inl missed ↦ absurd (let e : none ≡ some x = sym missed ∙ there in cc)
        | inr all ↦ levels-loop ∙ all
      ]
