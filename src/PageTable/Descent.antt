-- ===== src/PageTable/Descent.antt =====
-- src/page_table.c: the loop of `page_table_map` down to the leaf node. Each node that it reaches is
-- met by walks of this table through these indices only.
use mathlib.Core.Path.{subst}
use native.Mathlib.Decide.{ℕ_discrete}
use simulador_memoria_virtua.Base.{
  ℕ, zero, suc, ◌+◌, ◌<◌, ◌≤◌, ◌≡◌, ◌⊎◌, refl, ap, sym, ◌∙◌, Bool, true, Option, none, some, inl,
  inr, arith, Option-cases, inc64,
}
use simulador_memoria_virtua.PageTable.Objects.{index_at, Store, node_create}
use simulador_memoria_virtua.PageTable.References.{is_inner, node_refs, one_place, one_table}
use simulador_memoria_virtua.PageTable.Valid.{
  nothing, one, IsCounted, HasRoom, write_inner-IsCounted,
}
use simulador_memoria_virtua.PageTable.Fresh.{
  Refused, asked, with_node, node_create-cases, with_node-IsCounted,
}
use simulador_memoria_virtua.PageTable.Advanced.{
  Advanced, Advanced-refl, Advanced-trans, Advanced-le, asked-Advanced, Replaced-Advanced,
  Replaced-forth,
}
use simulador_memoria_virtua.PageTable.Child.{Descended, ensure_private_child-cases}
use simulador_memoria_virtua.PageTable.Reach.{
  reach, Replaced, reach-node, follow-some, index_at-bounds,
}
use simulador_memoria_virtua.PageTable.{
  attach, attach_child, map_step, map_loop, ensure_private_child,
}

module _ (s : Store) (v : IsCounted s nothing nothing) (room : HasRoom s 1) (parent index : ℕ)
    (below : parent < s.node_count) (inside : index < 512) (inner : is_inner s parent ≡ true) where
  -- A new node in a free place.
  module _ (k level : ℕ) (deeper : level ≡ (s.nodes parent).level + 1)
      (free : (s.nodes parent).entries index ≡ none) where
    abbrev attached : Store
    attached = attach (with_node s k level) parent index s.node_count

    attached-IsCounted : IsCounted attached nothing nothing
    attached-IsCounted =
        let t = with_node s k level in
        let fresh : IsCounted t (one s.node_count) nothing =
          with_node-IsCounted s nothing nothing v (one s.node_count) k level
            (ground (arith, deeper)) (λ x lt. ground arith) (ground arith) in
        write_inner-IsCounted t (one s.node_count) nothing nothing nothing fresh parent index
          (some s.node_count) (inc64 (t.nodes parent).active_entries) (omega arith) inside
          (ground arith) (λ x. ground (arith, free)) (λ c eq. ground (arith, deeper))

    attached-Replaced : Replaced s attached none s.node_count
    attached-Replaced = record {
      fresh = omega arith;
      nodes = λ q i b bi. elim (ℕ_discrete q parent) [
        | no other ↦ inl (ground arith)
        | yes same ↦ elim (ℕ_discrete i index) [
          | no other ↦ inl (ground arith)
          | yes here ↦ inr (ground (arith), ground (arith), ground arith)
        ]
      ];
      copied = λ i b. ground arith;
      roots = λ t. inl refl;
    }

    attached-Descended : Descended s attached parent index s.node_count
    attached-Descended = record {
      advanced =
          Replaced-Advanced s attached v none attached-Replaced attached-IsCounted refl refl refl
            refl (λ x. refl);
      at = ground arith;
      sole = ground arith;
      forth = λ t a l le here.
          Replaced-forth s attached v none s.node_count attached-Replaced t a l parent le (cc) here;
    }

  pub map_step-cases :
      (level : ℕ)
      → level ≡ (s.nodes parent).level
      → ((s1 : Store) × (map_step s parent level index ≡ (s1, none)) × Advanced 1 s s1 × Refused s)
        ⊎ ((s1 : Store) × (n : ℕ) × (map_step s parent level index ≡ (s1, some n))
            × Descended s s1 parent index n)
  unfolding map_step
  map_step-cases level here = elim (Option-cases ((s.nodes parent).entries index)) [
    | inl free ↦
        let step : map_step s parent level index
            ≡ attach_child parent index (node_create s (level + 1)) =
          rw (free, map_step) refl in
        elim (node_create-cases s (level + 1)) [
          | inl (k, refused, why) ↦ inl (
            asked s k,
            step ∙ ap (attach_child parent index) refused,
            Advanced-le 0 1 s (asked s k) (omega arith) (asked-Advanced s k v),
            why,
          )
          | inr (k, made) ↦ inr (
            attached k (level + 1) (omega (arith, here)) free,
            s.node_count,
            step ∙ ap (attach_child parent index) made,
            attached-Descended k (level + 1) (omega (arith, here)) free,
          )
        ]
    | inr (child, at) ↦
        let step : map_step s parent level index ≡ ensure_private_child s parent index =
          rw (at, map_step) refl in
        elim (ensure_private_child-cases s v room parent index below inside inner child at) [
          | inl (s1, result, a, why) ↦ inl (s1, step ∙ result, a, why)
          | inr (s1, n, result, d) ↦ inr (s1, n, step ∙ result, d)
        ]
  ]

-- The walk of `address` in `table` meets the node `n` at level `k`, and a walk of another table, or
-- with another index above, does not.
pub record Owned (s : Store) (table address k n : ℕ) : Type 0 where
  pub at : reach s table address k ≡ some n
  pub only :
      (t a : ℕ)
      → reach s t a k ≡ some n
      → (t ≡ table) × ((j : ℕ) → j < k → index_at a j ≡ index_at address j)

pub root-Owned :
    (s : Store) (table address n : ℕ)
    → IsCounted s nothing nothing
    → s.roots table ≡ some n
    → (s.nodes n).reference_count ≡ 1
    → Owned s table address 0 n
unfolding reach
root-Owned s table address n v at sole =
    let (known, lt, top) = v.rooted table n at in
    record {
      at = at;
      only = λ t a there. (
        one_table s n t table (v.rooted t n there).0 known there at
            (omega (arith, v.nodes n lt, sole)),
        λ j none_above. absurd (omega arith),
      );
    }

module _ (s : Store) (table address k p : ℕ) (v : IsCounted s nothing nothing)
    (o : Owned s table address k p) (up : k ≤ 2) where
  child-Owned :
      (s1 : Store) (n : ℕ)
      → Descended s s1 p (index_at address k) n
      → Owned s1 table address (k + 1) n
  unfolding reach
  child-Owned s1 n d =
      let w = d.advanced.counted in
      let (lt, level) = reach-node s nothing nothing v table address k p (omega arith) o.at in
      let here : reach s1 table address k ≡ some p = d.forth table address k (omega arith) o.at in
      let (lt1, level1) = reach-node s1 nothing nothing w table address k p (omega arith) here in
      let e : k + 1 ≡ suc k = omega arith in
      let there : reach s1 table address (suc k) ≡ some n = ground (arith, here, d.at) in
      let (ltn, deeper) =
        reach-node s1 nothing nothing w table address (suc k) n (omega arith) there in
      let few : node_refs s1 n ≤ 1 = omega (arith, w.nodes n ltn, d.sole) in
      rw e (record {
        at = there;
        only = λ t a met.
            let (q, met_q, met_n) = follow-some s1 (reach s1 t a k) (index_at a k) n met in
            let (ltq, levelq) = reach-node s1 nothing nothing w t a k q (omega arith) met_q in
            let (same_node, same_index) =
              one_place s1 n q (index_at a k) p (index_at address k) ltq
                (index_at-bounds a k (omega arith)) lt1 (index_at-bounds address k (omega arith))
                (ground (arith, levelq)) (ground (arith, level1)) met_n d.at few in
            let before = d.advanced.back t a k p (omega arith) lt (met_q ∙ ap some same_node) in
            let (same_table, above) = o.only t a before in
            (
              same_table,
              λ j le. elim (ℕ_discrete j k) [
                | yes last ↦ rw last same_index
                | no other ↦ above j (omega arith)
              ],
            );
      })

pub map_loop-cases :
    (rounds : ℕ) (s : Store)
    → IsCounted s nothing nothing
    → HasRoom s rounds
    → (table address level current : ℕ) → rounds + level ≡ 3
    → Owned s table address level current
    → ((s1 : Store) × (map_loop rounds s address level current ≡ (s1, none))
        × Advanced rounds s s1
        × Refused s)
      ⊎ ((s1 : Store) × (n : ℕ) × (map_loop rounds s address level current ≡ (s1, some n))
          × Advanced rounds s s1
          × Owned s1 table address 3 n)
unfolding map_loop
map_loop-cases zero s v room table address level current total o =
    let last : level ≡ 3 = omega arith in
    inr (
      s,
      current,
      refl,
      Advanced-le 0 0 s s (omega arith) (Advanced-refl s v),
      subst (λ k. Owned s table address k current) last o,
    )
map_loop-cases (suc rounds) s v room table address level current total o =
    let (lt, here) =
      reach-node s nothing nothing v table address level current (omega arith) o.at in
    let index = index_at address level in
    let next : Store × Option ℕ → Store × Option ℕ =
      λ r. elim r.1 [ none ↦ (r.0, none) | some n ↦ map_loop rounds r.0 address (level + 1) n ] in
    elim (map_step-cases s v (omega arith) current index lt
      (index_at-bounds address level (omega arith)) (ground (arith, here)) level (sym here)) [
        | inl (s1, result, a, why) ↦
            inl (s1, ap next result, Advanced-le 1 (suc rounds) s s1 (omega arith) a, why)
        | inr (s1, n, result, d) ↦
            let a = d.advanced in
            elim (map_loop-cases rounds s1 a.counted (omega (arith, a.few, a.table_count)) table
              address (level + 1) n (omega arith)
              (child-Owned s table address level current v o (omega arith) s1 n d)) [
                | inl (s2, rest, b, (k, why)) ↦ inl (
                  s2,
                  ap next result ∙ rest,
                  Advanced-le (1 + rounds) (suc rounds) s s2 (omega arith)
                      (Advanced-trans 1 rounds s s1 s2 a b),
                  (k, sym (ap (λ (g : ℕ → Bool). g k) a.granted) ∙ why),
                )
                | inr (s2, m, rest, b, owned) ↦ inr (
                  s2,
                  m,
                  ap next result ∙ rest,
                  Advanced-le (1 + rounds) (suc rounds) s s2 (omega arith)
                      (Advanced-trans 1 rounds s s1 s2 a b),
                  owned,
                )
              ]
      ]
