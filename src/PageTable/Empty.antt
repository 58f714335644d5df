-- ===== src/PageTable/Empty.antt =====
-- src/page_table.c: a new table.
use mathlib.Core.Path.{subst}
use simulador_memoria_virtua.Base.{
  ℕ, zero, suc, ◌+◌, ◌≤◌, ◌≡◌, ◌≢◌, ◌⊎◌, refl, ap, sym, ◌∙◌, none, some, inl, inr, arith,
  Bool-cases, Option-cases,
}
use simulador_memoria_virtua.PageTable.Objects.{Store, node_create}
use simulador_memoria_virtua.PageTable.Valid.{nothing, one, IsCounted}
use simulador_memoria_virtua.PageTable.Fresh.{
  asked, asked-IsCounted, with_node, node_create-cases, with_node-IsCounted,
}
use simulador_memoria_virtua.PageTable.Reach.{reach, reach-node}
use simulador_memoria_virtua.PageTable.Objects.{request}
use simulador_memoria_virtua.PageTable.Valid.{IsValid}
use simulador_memoria_virtua.PageTable.Roots.{with_table, with_table-IsCounted}
use simulador_memoria_virtua.PageTable.Lookup.{seen, lookup-seen, reach-none}
use simulador_memoria_virtua.PageTable.Sharing.{reach-with_table, seen-leaves}
use simulador_memoria_virtua.PageTable.{create, put_table, lookup}

-- The store with the new table.
abbrev made : Store → ℕ → Store
made s k = with_table (with_node s k 0) s.node_count

create-cases :
    (s : Store)
    → ((k : ℕ) × (create s ≡ (asked s k, none)))
      ⊎ ((k : ℕ) × (create s ≡ (made s k, some s.table_count)))
unfolding create request
create-cases s = elim (Bool-cases (s.granted s.requests)) [
  | inr refused ↦ inl (s.requests + 1, rw (refused, create) refl)
  | inl met ↦
      let next = asked s (s.requests + 1) in
      let step : create s ≡ put_table (node_create next 0) = rw (met, create) refl in
      elim (node_create-cases next 0) [
        | inl (k, refused, why) ↦ inl (k, step ∙ ap put_table refused)
        | inr (k, root) ↦ inr (k, step ∙ ap put_table root)
      ]
]

module _ (s : Store) (v : IsValid s) where
  reach-with_node : (level m t a k : ℕ) → k ≤ 4 → reach (with_node s m level) t a k ≡ reach s t a k
  unfolding reach
  reach-with_node level m t a zero le = refl
  reach-with_node level m t a (suc k) le = elim (Option-cases (reach s t a k)) [
    | inl miss ↦ rw (reach-with_node level m t a k (omega arith), miss) refl
    | inr (n, here) ↦
        let (lt, at) = reach-node s nothing nothing v t a k n (omega arith) here in
        rw (reach-with_node level m t a k (omega arith), here) (ground arith)
  ]

  made-IsValid : (k : ℕ) → IsValid (made s k)
  made-IsValid k =
      let fresh : IsCounted (with_node s k 0) (one s.node_count) nothing =
        with_node-IsCounted s nothing nothing v (one s.node_count) k 0 (omega arith)
          (λ x lt. ground arith) (ground arith) in
      with_table-IsCounted (with_node s k 0) (one s.node_count) nothing nothing fresh s.node_count
        (omega arith) (ground arith) (λ x. omega arith)

  reach-made : (k a : ℕ) → reach (made s k) s.table_count a 4 ≡ none
  unfolding reach
  reach-made k a =
      let first : reach (made s k) s.table_count a 1 ≡ none = ground arith in
      reach-none (made s k) s.table_count a 1 first 3

  pub create-IsValid : IsValid (create s).0
  create-IsValid = elim (create-cases s) [
    | inl (k, refused) ↦
        subst (λ r. IsValid r.0) (sym refused) (asked-IsCounted s nothing nothing k v)
    | inr (k, result) ↦ subst (λ r. IsValid r.0) (sym result) (made-IsValid k)
  ]

  -- In a valid store, when `page_table_create` succeeds, every lookup in the new table gives
  -- none, and a lookup in any other table gives what it gave before.
  pub create-lookup :
      (s1 : Store) (table : ℕ)
      → create s ≡ (s1, some table)
      → (a other : ℕ) → other ≢ table
      → (lookup s1 (some table) a ≡ none) × (lookup s1 (some other) a ≡ lookup s (some other) a)
  create-lookup s1 table result a other ne = elim (create-cases s) [
    | inl (k, refused) ↦
        absurd (let e : (asked s k, none) ≡ (s1, some table) = sym refused ∙ result in cc)
    | inr (k, done) ↦
        let e = sym done ∙ result in
        let same : some s.table_count ≡ some table = ap (λ r. r.1) e in
        let here : s.table_count ≡ table = cc in
        let t = made s k in
        let empty = lookup-seen t s.table_count a ∙ ap (seen t) (reach-made k a) in
        subst
          (λ r.
            (lookup r (some table) a ≡ none) × (lookup r (some other) a ≡ lookup s (some other) a))
          (ap (λ r. r.0) e)
          (
            subst (λ u. lookup t (some u) a ≡ none) here empty,
            lookup-seen t other a
                ∙ ap (seen t) (
                    reach-with_table (with_node s k 0) s.node_count other a 4 (λ x. ne (x ∙ here))
                    ∙ reach-with_node 0 k other a 4 (omega arith))
                ∙ seen-leaves s t refl (reach s other a 4)
                ∙ sym (lookup-seen s other a),
          )
  ]
