-- ===== src/PageTable/Clone.antt =====
-- src/page_table.c: `page_table_node_clone_shallow`, round by round.
use mathlib.Core.Path.{subst}
use simulador_memoria_virtua.Base.{
  ℕ, ◌+◌, ◌<◌, ◌≤◌, ◌≡◌, ◌≢◌, refl, sym, true, false, none, some, inl, inr, arith, bit, Bool-cases,
  Option-cases, ltb, ◌==◌, for_range, for_range_inv,
}
use simulador_memoria_virtua.PageTable.Objects.{
  PageTableEntry, Store, leaf_level, page_table_entries, node_retain, entry_retain, set_pointer,
  share_entry,
}
use simulador_memoria_virtua.PageTable.References.{is_inner, write}
use simulador_memoria_virtua.PageTable.Valid.{
  Held, nothing, one, IsCounted, HasRoom, SamePointers-IsCounted, write_inner-IsCounted,
  write_leaf-IsCounted,
}
use simulador_memoria_virtua.PageTable.Retain.{node_retain-IsCounted, entry_retain-IsCounted}

-- An entry without its count of references.
abbrev pub forget : PageTableEntry → PageTableEntry
forget entry = record entry { reference_count = 0 }

-- `s` is the store with the new node `copy`, of which `i` places are filled in `t`.
pub record Copying (s : Store) (source copy i : ℕ) (t : Store) : Type 0 where
  pub counted : IsCounted t (one copy) nothing
  pub node_count : t.node_count ≡ s.node_count
  pub leaf_count : t.leaf_count ≡ s.leaf_count
  pub table_count : t.table_count ≡ s.table_count
  pub roots : t.roots ≡ s.roots
  pub granted : t.granted ≡ s.granted
  pub levels : (q : ℕ) → (t.nodes q).level ≡ (s.nodes q).level
  pub others : (q j : ℕ) → q ≢ copy → (t.nodes q).entries j ≡ (s.nodes q).entries j
  pub filled : (j : ℕ) → j < i → (t.nodes copy).entries j ≡ (s.nodes source).entries j
  pub blank : (j : ℕ) → i ≤ j → (t.nodes copy).entries j ≡ none
  pub leaves : (x : ℕ) → forget (t.leaves x) ≡ forget (s.leaves x)
  pub counts :
      (q : ℕ)
      → (s.nodes q).level ≤ (s.nodes source).level
      → (t.nodes q).reference_count ≡ (s.nodes q).reference_count

-- An entry is put in a place of the copy that was free, and counted.
module _ (t : Store) (source copy i x : ℕ) (v : IsCounted t (one copy) nothing) (rm : HasRoom t 0)
    (lt : copy < t.node_count) (lts : source < t.node_count) (lti : i < 512) (ne : source ≢ copy)
    (lev : (t.nodes copy).level ≡ (t.nodes source).level) (at : (t.nodes source).entries i ≡ some x)
    (free : (t.nodes copy).entries i ≡ none) where
  share_inner-IsCounted :
      is_inner t source ≡ true
      → IsCounted (node_retain (set_pointer t copy i (some x)) x) (one copy) nothing
  unfolding node_retain
  share_inner-IsCounted inner =
      let (xlt, xlev) = v.down_node source i x lts lti inner at in
      let h : Held = λ y. one copy y + bit (x == y) in
      let retained =
        node_retain-IsCounted t (one copy) h nothing nothing v x xlt rm (ground arith)
          (λ y. refl) in
      let u = node_retain t x in
      let written =
        write_inner-IsCounted u h (one copy) nothing nothing retained copy i (some x)
          ((u.nodes copy).active_entries) (ground (arith)) lti (ground (arith, lev))
          (λ y. ground (arith, free)) (λ c eq. ground (arith, xlev, lev)) in
      SamePointers-IsCounted (write u copy i (some x) (u.nodes copy).active_entries)
        (node_retain (set_pointer t copy i (some x)) x)
        (record {
          node_count = refl;
          leaf_count = refl;
          table_count = refl;
          roots = λ y. refl;
          levels = λ y. ground arith;
          entries = λ y j. ground arith;
        })
        (one copy) (one copy) nothing nothing (λ y b. ground arith) (λ y b. refl) written

  share_leaf-IsCounted :
      is_inner t source ≡ false
      → IsCounted (entry_retain (set_pointer t copy i (some x)) x) (one copy) nothing
  unfolding entry_retain
  share_leaf-IsCounted outer =
      let xlt = v.down_leaf source i x lts lti outer at in
      let e : Held = λ y. bit (x == y) in
      let retained =
        entry_retain-IsCounted t (one copy) (one copy) nothing e v x xlt rm (ground arith)
          (λ y. omega arith) in
      let u = entry_retain t x in
      write_leaf-IsCounted u (one copy) (one copy) e nothing retained copy i (some x)
        ((u.nodes copy).active_entries) lt lti (ground (arith, lev)) (λ y. ground (arith, free))
        (λ c eq. ground (arith, xlt))

module _ (s : Store) (source copy : ℕ) (room : HasRoom s 0) (below : source < s.node_count)
    (below_copy : copy < s.node_count) (other : source ≢ copy)
    (same_level : (s.nodes copy).level ≡ (s.nodes source).level) where
  share_node :
      (i : ℕ) (t : Store)
      → i < 512
      → Copying s source copy i t
      → (x : ℕ) → (t.nodes source).entries i ≡ some x
      → is_inner t source ≡ true
      → Copying s source copy (i + 1) (node_retain (set_pointer t copy i (some x)) x)
  unfolding node_retain
  share_node i t lti c x at inner =
      let here = c.levels source in
      let (xlt, xlev) =
        c.counted.down_node source i x (ground (arith, c.node_count)) lti inner at in
      record {
        counted =
            share_inner-IsCounted t source copy i x c.counted
              (omega (arith, c.node_count, c.table_count)) (omega (arith, c.node_count))
              (omega (arith, c.node_count)) lti other (ground (arith, c.levels copy, here)) at
              (c.blank i (omega arith)) inner;
        node_count = c.node_count;
        leaf_count = c.leaf_count;
        table_count = c.table_count;
        roots = c.roots;
        granted = c.granted;
        levels = λ q. ground (arith, c.levels q, c.levels x, c.levels copy);
        others = λ q j ne. ground (arith, c.others q j ne);
        filled = λ j lt. ground (arith, c.filled j, c.others source i, at);
        blank = λ j le. ground (arith, c.blank j);
        leaves = c.leaves;
        counts = λ q le. ground (arith, c.counts q le, c.levels x, here, xlev);
      }

  share_leaf :
      (i : ℕ) (t : Store)
      → i < 512
      → Copying s source copy i t
      → (x : ℕ) → (t.nodes source).entries i ≡ some x
      → is_inner t source ≡ false
      → Copying s source copy (i + 1) (entry_retain (set_pointer t copy i (some x)) x)
  unfolding entry_retain
  share_leaf i t lti c x at outer = record {
    counted =
        share_leaf-IsCounted t source copy i x c.counted
          (omega (arith, c.node_count, c.table_count)) (omega (arith, c.node_count))
          (omega (arith, c.node_count)) lti other (ground (arith, c.levels copy, c.levels source))
          at (c.blank i (omega arith)) outer;
    node_count = c.node_count;
    leaf_count = c.leaf_count;
    table_count = c.table_count;
    roots = c.roots;
    granted = c.granted;
    levels = λ q. ground (arith, c.levels q);
    others = λ q j ne. ground (arith, c.others q j ne);
    filled = λ j lt. ground (arith, c.filled j, c.others source i, at);
    blank = λ j le. ground (arith, c.blank j);
    leaves = λ y. ground (arith, c.leaves y);
    counts = λ q le. ground (arith, c.counts q le);
  }

  share_entry-Copying :
      (i : ℕ) (t : Store)
      → i < 512
      → Copying s source copy i t
      → Copying s source copy (i + 1) (share_entry source copy i t)
  unfolding share_entry
  share_entry-Copying i t lti c = elim (Option-cases ((t.nodes source).entries i)) [
    | inl miss ↦
        let same : share_entry source copy i t ≡ t = rw (miss, share_entry) refl in
        subst (Copying s source copy (i + 1)) (sym same) (record {
          counted = c.counted;
          node_count = c.node_count;
          leaf_count = c.leaf_count;
          table_count = c.table_count;
          roots = c.roots;
          granted = c.granted;
          levels = c.levels;
          others = c.others;
          filled = λ j lt. ground (arith, c.filled j, c.blank i, c.others source i, miss);
          blank = λ j le. c.blank j (omega arith);
          leaves = c.leaves;
          counts = c.counts;
        })
    | inr (x, at) ↦ elim (Bool-cases (ltb (t.nodes source).level leaf_level)) [
      | inl inner ↦
          let step : share_entry source copy i t ≡ node_retain (set_pointer t copy i (some x)) x =
            rw (at, inner, share_entry) refl in
          subst (Copying s source copy (i + 1)) (sym step) (share_node i t lti c x at inner)
      | inr outer ↦
          let step : share_entry source copy i t ≡ entry_retain (set_pointer t copy i (some x)) x =
            rw (at, outer, share_entry) refl in
          subst (Copying s source copy (i + 1)) (sym step) (share_leaf i t lti c x at outer)
    ]
  ]

  pub copied :
      Copying s source copy 0 s
      → Copying s source copy 512 (for_range page_table_entries 0 (share_entry source copy) s)
  copied start =
      for_range_inv (λ i t. Copying s source copy i t) (share_entry source copy) 512
        (λ i t lt c. share_entry-Copying i t lt c) 512 0 s refl start
