-- ===== src/PageTable/Sharing.antt =====
-- src/page_table.c: a new table, and a table that shares all its nodes with another.
use mathlib.Core.Path.{subst}
use simulador_memoria_virtua.Base.{
  ℕ, zero, suc, ◌+◌, ◌<◌, ◌≡◌, ◌≢◌, ◌⊎◌, refl, ap, sym, ◌∙◌, true, Option, none, some, inl, inr,
  arith, Bool-cases, Option-cases,
}
use simulador_memoria_virtua.PageTable.Objects.{PageTableEntry, Store}
use simulador_memoria_virtua.PageTable.Valid.{nothing, one, IsCounted, HasRoom, SamePointers}
use simulador_memoria_virtua.PageTable.Fresh.{asked, asked-IsCounted}
use simulador_memoria_virtua.PageTable.Reach.{reach, reach-SamePointers}
use simulador_memoria_virtua.PageTable.Objects.{node_retain, request}
use simulador_memoria_virtua.PageTable.Valid.{IsValid}
use simulador_memoria_virtua.PageTable.Retain.{node_retain-IsCounted, node_refs-le}
use simulador_memoria_virtua.PageTable.Roots.{with_table, with_table-IsCounted}
use simulador_memoria_virtua.PageTable.Lookup.{seen, visible, lookup-seen}
use simulador_memoria_virtua.PageTable.{clone_shared, lookup}
use simulador_memoria_virtua.PageTable.Queries.{shares_root, root_reference_count}

pub seen-leaves : (s t : Store) → t.leaves ≡ s.leaves → (o : Option ℕ) → seen t o ≡ seen s o
seen-leaves s t same none = refl
seen-leaves s t same (some x) = ap (λ (leaves : ℕ → PageTableEntry). visible (leaves x)) same

-- A table that is put at the next address has the root `root`; the others keep theirs.
module _ (s : Store) (root : ℕ) where
  pub reach-with_table :
      (t a k : ℕ) → t ≢ s.table_count → reach (with_table s root) t a k ≡ reach s t a k
  unfolding reach
  reach-with_table t a zero other = ground arith
  reach-with_table t a (suc k) other = elim (Option-cases (reach s t a k)) [
    | inl miss ↦ rw (reach-with_table t a k other, miss) refl
    | inr (n, here) ↦ rw (reach-with_table t a k other, here) refl
  ]

  reach-with_table_new :
      (u a k : ℕ)
      → s.roots u ≡ some root
      → reach (with_table s root) s.table_count a k ≡ reach s u a k
  unfolding reach
  reach-with_table_new u a zero at = ground (arith, at)
  reach-with_table_new u a (suc k) at = elim (Option-cases (reach s u a k)) [
    | inl miss ↦ rw (reach-with_table_new u a k at, miss) refl
    | inr (n, here) ↦ rw (reach-with_table_new u a k at, here) refl
  ]

module _ (s : Store) (v : IsValid s) (room : HasRoom s 1) (source root : ℕ)
    (at : s.roots source ≡ some root) where
  abbrev counted_up : Store
  counted_up = node_retain (asked s (s.requests + 1)) root

  counted_up-SamePointers : SamePointers s counted_up
  unfolding node_retain
  counted_up-SamePointers = record {
    node_count = refl;
    leaf_count = refl;
    table_count = refl;
    roots = λ x. refl;
    levels = λ x. ground arith;
    entries = λ x i. ground arith;
  }

  counted_up-IsCounted : IsCounted counted_up (one root) nothing
  counted_up-IsCounted =
      let (known, lt, top) = v.rooted source root at in
      node_retain-IsCounted (asked s (s.requests + 1)) nothing (one root) nothing nothing
        (asked-IsCounted s nothing nothing (s.requests + 1) v) root lt (omega arith) (omega arith)
        (λ x. omega arith)

  clone_shared-cases :
      ((k : ℕ) × (clone_shared s (some source) ≡ (asked s k, none)))
      ⊎ (clone_shared s (some source) ≡ (with_table counted_up root, some s.table_count))
  unfolding clone_shared request node_retain
  clone_shared-cases = elim (Bool-cases (s.granted s.requests)) [
    | inl met ↦ inr (rw (at, met, clone_shared) refl)
    | inr refused ↦ inl (s.requests + 1, rw (at, refused, clone_shared) refl)
  ]

  shared-IsValid : IsValid (with_table counted_up root)
  unfolding node_retain
  shared-IsValid =
      let (known, lt, top) = v.rooted source root at in
      with_table-IsCounted counted_up (one root) nothing nothing counted_up-IsCounted root lt
        (ground (arith, top)) (λ x. omega arith)

  counted_up-leaves : counted_up.leaves ≡ s.leaves
  unfolding node_retain
  counted_up-leaves = refl

  -- The child's walks are the parent's, and the walks of the others are as before.
  shared-lookup :
      (a : ℕ)
      → lookup (with_table counted_up root) (some s.table_count) a ≡ lookup s (some source) a
  unfolding node_retain
  shared-lookup a =
      let t = with_table counted_up root in
      let walk : reach t s.table_count a 4 ≡ reach s source a 4 =
        reach-with_table_new counted_up root source a 4 at
        ∙ reach-SamePointers s counted_up counted_up-SamePointers source a 4 in
      lookup-seen t s.table_count a
      ∙ ap (seen t) walk
      ∙ seen-leaves s t refl (reach s source a 4)
      ∙ sym (lookup-seen s source a)

  shared-lookup_others :
      (other a : ℕ)
      → other ≢ s.table_count
      → lookup (with_table counted_up root) (some other) a ≡ lookup s (some other) a
  unfolding node_retain
  shared-lookup_others other a ne =
      let t = with_table counted_up root in
      let walk : reach t other a 4 ≡ reach s other a 4 =
        reach-with_table counted_up root other a 4 ne
        ∙ reach-SamePointers s counted_up counted_up-SamePointers other a 4 in
      lookup-seen t other a
      ∙ ap (seen t) walk
      ∙ seen-leaves s t refl (reach s other a 4)
      ∙ sym (lookup-seen s other a)

module _ (s : Store) (v : IsValid s) (room : HasRoom s 1) (source : ℕ) where
  clone_shared-rootless : s.roots source ≡ none → clone_shared s (some source) ≡ (s, none)
  unfolding clone_shared
  clone_shared-rootless miss = rw (miss, clone_shared) refl

  -- In a valid store whose addresses do not run out, `page_table_clone_shared` leaves the store
  -- valid: the reference counts are the numbers of pointers.
  pub clone_shared-IsValid : IsValid (clone_shared s (some source)).0
  clone_shared-IsValid = elim (Option-cases (s.roots source)) [
    | inl miss ↦ subst (λ r. IsValid r.0) (sym (clone_shared-rootless miss)) v
    | inr (root, at) ↦ elim (clone_shared-cases s v room source root at) [
      | inl (k, refused) ↦
          subst (λ r. IsValid r.0) (sym refused) (asked-IsCounted s nothing nothing k v)
      | inr made ↦ subst (λ r. IsValid r.0) (sym made) (shared-IsValid s v room source root at)
    ]
  ]

  -- The store after a successful call.
  shared-made :
      (s1 : Store) (child : ℕ)
      → clone_shared s (some source) ≡ (s1, some child)
      → (root : ℕ) × (at : s.roots source ≡ some root) × (with_table
            (counted_up s v room source root at)
            root
          ≡ s1)
        × (s.table_count ≡ child)
  shared-made s1 child result = elim (Option-cases (s.roots source)) [
    | inl miss ↦
        absurd
          (let e : (s, none) ≡ (s1, some child) = sym (clone_shared-rootless miss) ∙ result in cc)
    | inr (root, at) ↦ elim (clone_shared-cases s v room source root at) [
      | inl (k, refused) ↦
          absurd (let e : (asked s k, none) ≡ (s1, some child) = sym refused ∙ result in cc)
      | inr made ↦
          let e = sym made ∙ result in
          let same : some s.table_count ≡ some child = ap (λ r. r.1) e in
          (root, at, ap (λ r. r.0) e, cc)
    ]
  ]

  module _ (s1 : Store) (child : ℕ) (result : clone_shared s (some source) ≡ (s1, some child)) where
    -- The child is a new table, and the parent had a root.
    pub clone_shared_new :
        (child ≡ s.table_count)
        × (source < s.table_count)
        × (s1.node_count ≡ s.node_count)
        × (s1.table_count ≡ s.table_count + 1)
    unfolding node_retain
    clone_shared_new =
        let (root, at, store, table) = shared-made s1 child result in
        (
          sym table,
          (v.rooted source root at).0,
          ap (λ (r : Store). r.node_count) (sym store),
          ap (λ (r : Store). r.table_count) (sym store),
        )

    -- The child's walks are the parent's.
    pub clone_shared-lookup : (a : ℕ) → lookup s1 (some child) a ≡ lookup s (some source) a
    clone_shared-lookup a =
        let (root, at, store, table) = shared-made s1 child result in
        subst (λ r. lookup r (some child) a ≡ lookup s (some source) a) store
          (subst
            (λ t.
              lookup (with_table (counted_up s v room source root at) root) (some t) a
              ≡ lookup s (some source) a)
            table (shared-lookup s v room source root at a))

    -- In a valid store whose addresses do not run out, after a `page_table_clone_shared` that
    -- succeeded, a lookup in any other table than the new one gives what it gave before.
    pub clone_shared-lookup_others :
        (other a : ℕ) → other ≢ child → lookup s1 (some other) a ≡ lookup s (some other) a
    clone_shared-lookup_others other a ne =
        let (root, at, store, table) = shared-made s1 child result in
        subst (λ r. lookup r (some other) a ≡ lookup s (some other) a) store
          (shared-lookup_others s v room source root at other a (λ e. ne (e ∙ table)))

    -- In a valid store whose addresses do not run out, after a `page_table_clone_shared` that
    -- succeeded, `page_table_shares_root` holds of the two tables, and the reference count of the
    -- copy's root is the one of the source's root before plus 1.
    pub clone_shared-shares_root :
        (shares_root s1 (some source) (some child) ≡ true)
        × (root_reference_count s1 (some child) ≡ root_reference_count s (some source) + 1)
    unfolding shares_root root_reference_count node_retain
    clone_shared-shares_root =
        let (root, at, store, table) = shared-made s1 child result in
        let (known, lt, top) = v.rooted source root at in
        let small = v.nodes root lt in
        let bound = node_refs-le s root in
        let here : s1.roots child ≡ some root =
          subst (λ r. r.roots child ≡ some root) store (ground (arith, table)) in
        let there : s1.roots source ≡ some root =
          subst (λ r. r.roots source ≡ some root) store (ground (arith, at)) in
        let count : (s1.nodes root).reference_count ≡ (s.nodes root).reference_count + 1 =
          subst (λ r. (r.nodes root).reference_count ≡ (s.nodes root).reference_count + 1) store
            (ground (arith, small, bound)) in
        (ground (arith, here, there), ground (arith, here, at, count))
