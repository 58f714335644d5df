-- ===== src/PageTable/Reach.antt =====
-- src/page_table.c: what a walk through a page table meets, without the counts of references.
use simulador_memoria_virtua.Base.{
  ℕ, zero, suc, ◌<◌, ◌≤◌, ◌≡◌, ◌⊎◌, refl, true, Option, none, some, inl, inr, arith, Option-cases,
}
use simulador_memoria_virtua.Address.{level_index}
use simulador_memoria_virtua.PageTable.Objects.{index_at, Store}
use simulador_memoria_virtua.PageTable.References.{is_inner}
use simulador_memoria_virtua.PageTable.Valid.{Held, IsCounted, SamePointers}

-- What stands in a node at an index; nothing does where there is no node.
abbrev pub follow : Store → Option ℕ → ℕ → Option ℕ
follow s none index = none
follow s (some n) index = (s.nodes n).entries index

-- The node that the walk meets at a level, and below the leaf node the entry.
unfoldable pub reach : Store → (table address level : ℕ) → Option ℕ
reach s table address zero = s.roots table
reach s table address (suc level) = follow s (reach s table address level) (index_at address level)

pub follow-some :
    (s : Store) (o : Option ℕ) (i n : ℕ)
    → follow s o i ≡ some n
    → (p : ℕ) × (o ≡ some p) × ((s.nodes p).entries i ≡ some n)
follow-some s none i n at = absurd (cc)
follow-some s (some p) i n at = (p, refl, at)

pub index_at-bounds : (address level : ℕ) → level < 4 → index_at address level < 512
unfolding level_index
index_at-bounds address zero lt = ground arith
index_at-bounds address (suc zero) lt = ground arith
index_at-bounds address (suc (suc zero)) lt = ground arith
index_at-bounds address (suc (suc (suc zero))) lt = ground arith
index_at-bounds address (suc (suc (suc (suc k)))) lt = absurd (omega arith)

module _ (s : Store) (h e : Held) (v : IsCounted s h e) (t a : ℕ) where
  -- The walk meets nodes of the store, each at its level, and then an entry.
  pub reach-node :
      (k n : ℕ) → k ≤ 3 → reach s t a k ≡ some n → (n < s.node_count) × ((s.nodes n).level ≡ k)
  unfolding reach
  reach-node zero n le at = ground (arith, v.rooted t n at)
  reach-node (suc k) n le at =
      let (p, here, there) = follow-some s (reach s t a k) (index_at a k) n at in
      let (lt, level) = reach-node k p (omega arith) here in
      let (below, deeper) =
        v.down_node p (index_at a k) n lt (index_at-bounds a k (omega arith))
          (ground (arith, level)) there in
      (below, omega (arith, level, deeper))

  pub reach-entry : (n : ℕ) → reach s t a 4 ≡ some n → n < s.leaf_count
  unfolding reach
  reach-entry n at =
      let (p, here, there) = follow-some s (reach s t a 3) (index_at a 3) n at in
      let (lt, level) = reach-node 3 p (omega arith) here in
      v.down_leaf p (index_at a 3) n lt (index_at-bounds a 3 (omega arith)) (ground (arith, level))
        there

-- The pointer `o` was replaced, in roots and in places of inner nodes, by a new node that is followed
-- the same way.
pub record Replaced (s s' : Store) (o : Option ℕ) (copy : ℕ) : Type 0 where
  pub fresh : s.node_count ≤ copy
  pub nodes :
      (q i : ℕ)
      → q < s.node_count
      → i < 512
      → ((s'.nodes q).entries i ≡ (s.nodes q).entries i)
        ⊎ ((is_inner s q ≡ true)
            × ((s.nodes q).entries i ≡ o)
            × ((s'.nodes q).entries i ≡ some copy))
  pub copied : (i : ℕ) → i < 512 → (s'.nodes copy).entries i ≡ follow s o i
  pub roots : (t : ℕ) → (s'.roots t ≡ s.roots t) ⊎ ((s.roots t ≡ o) × (s'.roots t ≡ some copy))

module _ (s s' : Store) (h e : Held) (v : IsCounted s h e) (o : Option ℕ) (copy : ℕ)
    (r : Replaced s s' o copy) (t a : ℕ) where
  pub reach-Replaced :
      (k : ℕ)
      → k ≤ 4
      → (reach s' t a k ≡ reach s t a k)
        ⊎ ((k ≤ 3) × (reach s t a k ≡ o) × (reach s' t a k ≡ some copy))
  unfolding reach
  reach-Replaced zero le = elim (r.roots t) [
    | inl same ↦ inl same
    | inr moved ↦ inr (omega arith, moved.0, moved.1)
  ]
  reach-Replaced (suc k) le = elim (reach-Replaced k (omega arith)) [
    | inr (small, old, new) ↦
        inl (rw (old, new) (r.copied (index_at a k) (index_at-bounds a k (omega arith))))
    | inl same ↦ rw same (elim (Option-cases (reach s t a k)) [
      | inl miss ↦ inl (rw miss refl)
      | inr (p, here) ↦
          let (lt, level) = reach-node s h e v t a k p (omega arith) here in
          rw here (elim (r.nodes p (index_at a k) lt (index_at-bounds a k (omega arith))) [
            | inl kept ↦ inl kept
            | inr (inner, old, new) ↦ inr (ground (arith, level), old, new)
          ])
    ])
  ]

  -- The walk ends at the entry where it ended before.
  pub reach-Replaced_entry : reach s' t a 4 ≡ reach s t a 4
  reach-Replaced_entry = elim (reach-Replaced 4 (omega arith)) [
    | inl same ↦ same
    | inr (small, old, new) ↦ absurd (omega arith)
  ]

pub reach-SamePointers :
    (s s' : Store) → SamePointers s s' → (t a k : ℕ) → reach s' t a k ≡ reach s t a k
unfolding reach
reach-SamePointers s s' same t a zero = same.roots t
reach-SamePointers s s' same t a (suc k) = elim (Option-cases (reach s t a k)) [
  | inl miss ↦ rw (reach-SamePointers s s' same t a k, miss) refl
  | inr (n, here) ↦ rw (reach-SamePointers s s' same t a k, here) (same.entries n (index_at a k))
]
