-- ===== src/PageTable/Mapping.antt =====
-- src/page_table.c: what `page_table_map` changes and what it does not.

use simulador_memoria_virtua.Base.{
  ℕ, zero, suc, ◌≤◌, ◌≡◌, ◌≢◌, refl, ap, sym, ◌∙◌, Option, none, some, inl, inr, arith, Bool-cases,
  Option-cases,
}
use simulador_memoria_virtua.PageTable.Objects.{index_at, PageTableEntry, Store}
use simulador_memoria_virtua.PageTable.Valid.{nothing, IsCounted}
use simulador_memoria_virtua.PageTable.Clone.{forget}
use simulador_memoria_virtua.PageTable.Advanced.{Advanced}
use simulador_memoria_virtua.PageTable.Reach.{reach, reach-node, index_at-bounds}
use simulador_memoria_virtua.Address.{level_index}
use simulador_memoria_virtua.Address.Split.{SamePath}
use simulador_memoria_virtua.PageTable.Descent.{Owned}
use simulador_memoria_virtua.PageTable.Leaf.{Written}
use simulador_memoria_virtua.PageTable.Lookup.{seen, visible, lookup-seen}
use simulador_memoria_virtua.PageTable.{lookup}

-- An entry that is shown, without its count of references.
abbrev pub shown : Option PageTableEntry → Option PageTableEntry
shown none = none
shown (some entry) = some (forget entry)

shown-visible : (entry : PageTableEntry) → shown (visible entry) ≡ visible (forget entry)
shown-visible entry = elim (Bool-cases entry.present) [
  | inl here ↦ ground (arith, here)
  | inr gone ↦ ground (arith, gone)
]

seen-congr :
    (s s1 : Store) (x : ℕ)
    → forget (s1.leaves x) ≡ forget (s.leaves x)
    → shown (seen s1 (some x)) ≡ shown (seen s (some x))
seen-congr s s1 x same =
    shown-visible (s1.leaves x) ∙ ap visible same ∙ sym (shown-visible (s.leaves x))

-- What every table shows is as before, but for the counts of references.
pub Advanced-lookup :
    (k : ℕ) (s s1 : Store)
    → Advanced k s s1
    → (t a : ℕ) → shown (lookup s1 (some t) a) ≡ shown (lookup s (some t) a)
Advanced-lookup k s s1 adv t a =
    rw (lookup-seen s1 t a, lookup-seen s t a, adv.views t a)
      (elim (Option-cases (reach s t a 4)) [
        | inl miss ↦ rw miss refl
        | inr (x, at) ↦ rw at (seen-congr s s1 x (adv.leaves x))
      ])

level_index_over : (a k : ℕ) → index_at a (suc (suc (suc (suc k)))) ≡ 0
unfolding level_index
level_index_over a k = ground arith

SamePath-four :
    (a b : ℕ)
    → index_at a 0 ≡ index_at b 0
    → index_at a 1 ≡ index_at b 1
    → index_at a 2 ≡ index_at b 2
    → index_at a 3 ≡ index_at b 3
    → SamePath a b
SamePath-four a b e0 e1 e2 e3 zero = e0
SamePath-four a b e0 e1 e2 e3 (suc zero) = e1
SamePath-four a b e0 e1 e2 e3 (suc (suc zero)) = e2
SamePath-four a b e0 e1 e2 e3 (suc (suc (suc zero))) = e3
SamePath-four a b e0 e1 e2 e3 (suc (suc (suc (suc k)))) =
    level_index_over a k ∙ sym (level_index_over b k)

module _ (s : Store) (v : IsCounted s nothing nothing) (n x frame table address : ℕ)
    (o : Owned s table address 3 n) (s1 : Store)
    (w : Written s s1 n (index_at address 3) x frame) where
  reach-Written : (t a k : ℕ) → k ≤ 3 → reach s1 t a k ≡ reach s t a k
  unfolding reach
  reach-Written t a zero le = w.roots t
  reach-Written t a (suc k) le = elim (Option-cases (reach s t a k)) [
    | inl miss ↦ rw (reach-Written t a k (omega arith), miss) refl
    | inr (p, here) ↦
        let (lt, level) = reach-node s nothing nothing v t a k p (omega arith) here in
        let (ltn, leveln) = reach-node s nothing nothing v table address 3 n (omega arith) o.at in
        rw (reach-Written t a k (omega arith), here)
          (w.others p (index_at a k) lt (λ both. ground (arith, both.0, level, leveln)))
  ]

  -- The walk in the same table with the same indices ends at the entry.
  pub Written-same : (a : ℕ) → SamePath a address → reach s1 table a 4 ≡ some x
  unfolding reach
  Written-same a same =
      let here : reach s1 table address 3 ≡ some n =
        reach-Written table address 3 (omega arith) ∙ o.at in
      let there : reach s1 table address 4 ≡ some x = rw here w.at in
      rw (same 0, same 1, same 2, same 3) there

  -- Any other walk ends at the entry where it ended, which has not changed.
  pub Written_others :
      (t a : ℕ)
      → ¬ ((t ≡ table) × SamePath a address)
      → shown (seen s1 (reach s1 t a 4)) ≡ shown (seen s (reach s t a 4))
  unfolding reach
  Written_others t a other =
      let (ltn, leveln) = reach-node s nothing nothing v table address 3 n (omega arith) o.at in
      elim (Option-cases (reach s t a 3)) [
        | inl miss ↦ rw (reach-Written t a 3 (omega arith), miss) refl
        | inr (q, here) ↦
            let (lt, level) = reach-node s nothing nothing v t a 3 q (omega arith) here in
            let elsewhere : ¬ ((q ≡ n) × (index_at a 3 ≡ index_at address 3)) = λ both.
              let (same_table, above) = o.only t a (here ∙ ap some both.0) in
              other (
                same_table,
                SamePath-four a address (above 0 (omega arith)) (above 1 (omega arith))
                    (above 2 (omega arith)) both.1,
              ) in
            let kept = w.others q (index_at a 3) lt elsewhere in
            rw (reach-Written t a 3 (omega arith), here, kept)
              (elim (Option-cases ((s.nodes q).entries (index_at a 3))) [
                | inl none_there ↦ rw none_there refl
                | inr (y, at) ↦
                    let bound =
                      v.down_leaf q (index_at a 3) y lt (index_at-bounds a 3 (omega arith))
                        (ground (arith, level)) at in
                    let not_x : y ≢ x = λ e. elsewhere (
                      w.only q (index_at a 3) lt (index_at-bounds a 3 (omega arith))
                        (ground (arith, level)) (at ∙ ap some e)) in
                    rw at (seen-congr s s1 y (w.leaves y bound not_x))
              ])
      ]
