-- ===== src/PageTable/Root.antt =====
-- src/page_table.c: a root that tables share is replaced by a copy in one of them, and no walk sees the
-- difference.
use mathlib.Core.Path.{subst}
use native.Mathlib.Decide.{ℕ_discrete}
use simulador_memoria_virtua.Base.{
  ℕ, ◌<◌, ◌≡◌, ◌⊎◌, refl, ap, ◌∙◌, none, some, inl, inr, arith, Bool-cases, ◌==◌, dec64,
}
use simulador_memoria_virtua.PageTable.{put_root, ensure_private_root}
use simulador_memoria_virtua.PageTable.Objects.{Store, set_node_count, node_clone_shallow}
use simulador_memoria_virtua.PageTable.References.{node_refs_root}
use simulador_memoria_virtua.PageTable.Valid.{nothing, one, IsCounted, HasRoom}
use simulador_memoria_virtua.PageTable.Fresh.{Refused, asked}
use simulador_memoria_virtua.PageTable.Retain.{node_release-IsCounted, node_release-shared}
use simulador_memoria_virtua.PageTable.Roots.{with_root, with_root-IsCounted}
use simulador_memoria_virtua.PageTable.Copies.{Cloned, node_clone_shallow-cases}
use simulador_memoria_virtua.PageTable.Advanced.{
  Advanced, Advanced-refl, Advanced-le, asked-Advanced, Replaced-Advanced,
}
use simulador_memoria_virtua.PageTable.Reach.{Replaced}

module _ (s : Store) (v : IsCounted s nothing nothing) (room : HasRoom s 1) (table root : ℕ)
    (at : s.roots table ≡ some root) where
  -- A root that is shared gets a copy in its place.
  module _ (many : 1 < (s.nodes root).reference_count) (s1 : Store) (c : Cloned s root s1) where
    abbrev swapped : Store
    swapped = with_root s1 table s.node_count

    swapped_many : 1 < (swapped.nodes root).reference_count
    swapped_many = let (known, lt, top) = v.rooted table root at in ground (arith, c.counts root lt)

    swapped-IsCounted : IsCounted swapped (one root) nothing
    swapped-IsCounted =
        let (known, lt, top) = v.rooted table root at in
        with_root-IsCounted s1 (one s.node_count) (one root) nothing c.counted s.node_count
          (omega (arith, c.node_count)) (ground (arith, c.level)) table
          (omega (arith, c.table_count)) (λ x. ground (arith, c.roots, at))

    abbrev released : Store
    released = set_node_count swapped root (dec64 (swapped.nodes root).reference_count)

    released-Replaced : Replaced s released (some root) s.node_count
    released-Replaced = record {
      fresh = omega arith;
      nodes = λ q i b bi. inl (ground (arith, c.others q i b));
      copied = λ i b. ground (arith, c.filled i b);
      roots = λ t. elim (ℕ_discrete t table) [
        | yes here ↦ inr (ground arith, ground arith)
        | no other ↦ inl (ground (arith, c.roots))
      ];
    }

    released-IsCounted : IsCounted released nothing nothing
    released-IsCounted =
        let (known, lt, top) = v.rooted table root at in
        subst (λ t. IsCounted t nothing nothing) (node_release-shared 3 swapped root swapped_many)
          (node_release-IsCounted swapped (one root) nothing nothing nothing swapped-IsCounted root
            3 (omega (arith, c.node_count)) (omega (arith, c.node_count, c.table_count))
            (ground arith) swapped_many (λ x. omega arith))

    released-Advanced : Advanced 1 s released
    released-Advanced =
        Replaced-Advanced s released v (some root) released-Replaced released-IsCounted c.node_count
          c.table_count c.leaf_count c.granted c.leaves

    released_sole : (released.nodes s.node_count).reference_count ≡ 1
    released_sole = let (known, lt, top) = v.rooted table root at in ground (arith, c.count)

  pub ensure_private_root-cases :
      ((s1 : Store) × (ensure_private_root s table ≡ (s1, none)) × Advanced 1 s s1 × Refused s)
      ⊎ ((s1 : Store) × (n : ℕ) × (ensure_private_root s table ≡ (s1, some n))
          × Advanced 1 s s1
          × (s1.roots table ≡ some n)
          × ((s1.nodes n).reference_count ≡ 1))
  unfolding ensure_private_root
  ensure_private_root-cases = elim (Bool-cases ((s.nodes root).reference_count == 1)) [
    | inl alone ↦
        let same : ensure_private_root s table ≡ (s, some root) =
          rw (at, alone, ensure_private_root) refl in
        inr (s, root, same, Advanced-le 0 1 s s (omega arith) (Advanced-refl s v), at, ground arith)
    | inr shared ↦
        let (known, lt, top) = v.rooted table root at in
        let split : ensure_private_root s table ≡ put_root table root (node_clone_shallow s root) =
          rw (at, shared, ensure_private_root) refl in
        let many : 1 < (s.nodes root).reference_count =
          ground (arith, v.nodes root lt, node_refs_root s table root known at) in
        elim (node_clone_shallow-cases s root v room lt) [
          | inl (k, refused, why) ↦ inl (
            asked s k,
            split ∙ ap (put_root table root) refused,
            Advanced-le 0 1 s (asked s k) (omega arith) (asked-Advanced s k v),
            why,
          )
          | inr (s1, made, c) ↦ inr (
            released many s1 c,
            s.node_count,
            split
                ∙ ap (put_root table root) made
                ∙ ap (λ t. (t, some s.node_count))
                    (node_release-shared 3 (with_root s1 table s.node_count) root
                      (swapped_many many s1 c)),
            released-Advanced many s1 c,
            ground (arith),
            released_sole many s1 c,
          )
        ]
  ]
