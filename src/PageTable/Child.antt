-- ===== src/PageTable/Child.antt =====
-- src/page_table.c: a node that is shared is replaced by a copy before it is written, and no walk sees
-- the difference.
use mathlib.Core.Path.{subst}
use native.Mathlib.Decide.{ℕ_discrete}
use simulador_memoria_virtua.Base.{
  ℕ, ◌<◌, ◌≤◌, ◌≡◌, ◌⊎◌, refl, ap, ◌∙◌, true, none, some, inl, inr, arith, Bool-cases, ◌==◌, dec64,
}
use simulador_memoria_virtua.PageTable.{put_child, ensure_private_child}
use simulador_memoria_virtua.PageTable.Objects.{
  Store, set_node_count, set_pointer, node_clone_shallow,
}
use simulador_memoria_virtua.PageTable.References.{is_inner, node_refs_pos}
use simulador_memoria_virtua.PageTable.Valid.{
  nothing, one, IsCounted, HasRoom, write_inner-IsCounted,
}
use simulador_memoria_virtua.PageTable.Fresh.{Refused, asked}
use simulador_memoria_virtua.PageTable.Retain.{node_release-IsCounted, node_release-shared}
use simulador_memoria_virtua.PageTable.Copies.{Cloned, node_clone_shallow-cases}
use simulador_memoria_virtua.PageTable.Advanced.{
  Advanced, Advanced-refl, Advanced-le, asked-Advanced, Replaced-forth, Replaced-Advanced,
}
use simulador_memoria_virtua.PageTable.Reach.{reach, Replaced}

-- The child of an inner node is held by its parent alone.
pub record Descended (s s' : Store) (parent index n : ℕ) : Type 0 where
  pub advanced : Advanced 1 s s'
  pub at : (s'.nodes parent).entries index ≡ some n
  pub sole : (s'.nodes n).reference_count ≡ 1
  pub forth : (t a k : ℕ) → k ≤ 3 → reach s t a k ≡ some parent → reach s' t a k ≡ some parent

module _ (s : Store) (v : IsCounted s nothing nothing) (room : HasRoom s 1) where
  -- A child that is shared gets a copy in its place.
  module _ (parent index child : ℕ) (below : parent < s.node_count) (inside : index < 512)
      (inner : is_inner s parent ≡ true) (at : (s.nodes parent).entries index ≡ some child)
      (many : 1 < (s.nodes child).reference_count) (s1 : Store) (c : Cloned s child s1) where
    abbrev pub swapped : Store
    swapped = set_pointer s1 parent index (some s.node_count)

    swapped_many : 1 < (swapped.nodes child).reference_count
    swapped_many =
        let (lt, deeper) = v.down_node parent index child below inside inner at in
        ground (arith, c.counts child lt)

    swapped-IsCounted : IsCounted swapped (one child) nothing
    swapped-IsCounted =
        let (lt, deeper) = v.down_node parent index child below inside inner at in
        write_inner-IsCounted s1 (one s.node_count) (one child) nothing nothing c.counted parent
          index (some s.node_count) ((s1.nodes parent).active_entries) (omega (arith, c.node_count))
          inside (ground (arith, c.levels parent below))
          (λ x. ground (arith, c.others parent index, at))
          (λ n eq. ground (arith, c.node_count, c.level, c.levels parent below, deeper))

    abbrev pub released : Store
    released = set_node_count swapped child (dec64 (swapped.nodes child).reference_count)

    released-Replaced : Replaced s released (some child) s.node_count
    released-Replaced =
        let (lt, deeper) = v.down_node parent index child below inside inner at in
        record {
          fresh = omega arith;
          nodes = λ q i b bi. elim (ℕ_discrete q parent) [
            | no other ↦ inl (ground (arith, c.others q i b))
            | yes same ↦ elim (ℕ_discrete i index) [
              | no other ↦ inl (ground (arith, c.others q i b))
              | yes here ↦ inr (ground (arith), ground (arith), ground arith)
            ]
          ];
          copied = λ i b. ground (arith, c.filled i b);
          roots = λ t. inl (ground (arith, c.roots));
        }

    released-IsCounted : IsCounted released nothing nothing
    released-IsCounted =
        let (lt, deeper) = v.down_node parent index child below inside inner at in
        subst (λ t. IsCounted t nothing nothing) (node_release-shared 3 swapped child swapped_many)
          (node_release-IsCounted swapped (one child) nothing nothing nothing swapped-IsCounted
            child 3 (omega (arith, c.node_count)) (omega (arith, c.node_count, c.table_count))
            (ground arith) swapped_many (λ x. omega arith))

    released-Descended : Descended s released parent index s.node_count
    released-Descended =
        let (lt, deeper) = v.down_node parent index child below inside inner at in
        let r = released-Replaced in
        record {
          advanced =
              Replaced-Advanced s released v (some child) r released-IsCounted c.node_count
                c.table_count c.leaf_count c.granted c.leaves;
          at = ground (arith);
          sole = ground (arith, c.count);
          forth = λ t a k le here.
              Replaced-forth s released v (some child) s.node_count r t a k parent le
                (ground (arith, deeper)) here;
        }

  module _ (parent index : ℕ) (below : parent < s.node_count) (inside : index < 512)
      (inner : is_inner s parent ≡ true) where
    pub ensure_private_child-cases :
        (child : ℕ)
        → (s.nodes parent).entries index ≡ some child
        → ((s1 : Store) × (ensure_private_child s parent index ≡ (s1, none))
            × Advanced 1 s s1
            × Refused s)
          ⊎ ((s1 : Store) × (n : ℕ) × (ensure_private_child s parent index ≡ (s1, some n))
              × Descended s s1 parent index n)
    unfolding ensure_private_child
    ensure_private_child-cases child at = elim (Bool-cases ((s.nodes child).reference_count == 1)) [
      | inl alone ↦
          let same : ensure_private_child s parent index ≡ (s, some child) =
            rw (at, alone, ensure_private_child) refl in
          inr (
            s,
            child,
            same,
            record {
              advanced = Advanced-le 0 1 s s (omega arith) (Advanced-refl s v);
              at = at;
              sole = ground arith;
              forth = λ t a k le here. here;
            },
          )
      | inr shared ↦
          let (lt, deeper) = v.down_node parent index child below inside inner at in
          let split : ensure_private_child s parent index
              ≡ put_child parent index child (node_clone_shallow s child) =
            rw (at, shared, ensure_private_child) refl in
          let many : 1 < (s.nodes child).reference_count =
            ground
              (arith, v.nodes child lt, node_refs_pos s parent index child below inside inner at) in
          elim (node_clone_shallow-cases s child v room lt) [
            | inl (k, refused, why) ↦ inl (
              asked s k,
              split ∙ ap (put_child parent index child) refused,
              Advanced-le 0 1 s (asked s k) (omega arith) (asked-Advanced s k v),
              why,
            )
            | inr (s1, made, c) ↦ inr (
              released parent index child below inside inner at many s1 c,
              s.node_count,
              split
                  ∙ ap (put_child parent index child) made
                  ∙ ap (λ t. (t, some s.node_count))
                      (node_release-shared 3 (set_pointer s1 parent index (some s.node_count)) child
                        (swapped_many parent index child below inside inner at many s1 c)),
              released-Descended parent index child below inside inner at many s1 c,
            )
          ]
    ]
