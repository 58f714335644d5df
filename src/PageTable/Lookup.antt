-- ===== src/PageTable/Lookup.antt =====
-- src/page_table.c: `page_table_lookup` is the walk of four levels.

use simulador_memoria_virtua.Base.{
  ℕ, zero, suc, ◌+◌, ◌≡◌, refl, ap, sym, ◌∙◌, not, Option, none, some, inl, inr, arith,
  Option-cases, if◌then◌else◌,
}
use simulador_memoria_virtua.PageTable.Objects.{index_at, PageTableEntry, Store, leaf_level}
use simulador_memoria_virtua.PageTable.Reach.{reach}
use simulador_memoria_virtua.PageTable.{lookup_loop, lookup_with_levels, lookup}

-- An entry is shown if it is present.
abbrev pub visible : PageTableEntry → Option PageTableEntry
visible entry = if not entry.present then none else some entry

-- The entry that a walk which ended at `o` shows.
abbrev pub seen : Store → Option ℕ → Option PageTableEntry
seen s none = none
seen s (some x) = visible (s.leaves x)

pub reach-none :
    (s : Store) (t a k : ℕ) → reach s t a k ≡ none → (j : ℕ) → reach s t a (j + k) ≡ none
unfolding reach
reach-none s t a k miss zero = let e : zero + k ≡ k = omega arith in rw e miss
reach-none s t a k miss (suc j) =
    let e : suc j + k ≡ suc (j + k) = omega arith in
    rw (e, reach) (rw (reach-none s t a k miss j) refl)

pub reach-suc :
    (s : Store) (t a k n : ℕ)
    → reach s t a k ≡ some n
    → reach s t a (suc k) ≡ (s.nodes n).entries (index_at a k)
unfolding reach
reach-suc s t a k n at = rw at refl

pub reach-zero : (s : Store) (t a : ℕ) → reach s t a 0 ≡ s.roots t
unfolding reach
reach-zero s t a = refl

lookup_loop-reach :
    (rounds : ℕ) (s : Store) (t a level n visited : ℕ)
    → rounds + level ≡ 3
    → reach s t a level ≡ some n
    → (lookup_loop rounds s a level n visited).0 ≡ reach s t a 4
unfolding lookup_loop
lookup_loop-reach zero s t a level n visited total at =
    let e : level ≡ 3 = omega arith in
    sym (reach-suc s t a level n at) ∙ ap (λ k. reach s t a (suc k)) e
lookup_loop-reach (suc rounds) s t a level n visited total at =
    let below = reach-suc s t a level n at in
    let e : suc level ≡ level + 1 = omega arith in
    elim (Option-cases ((s.nodes n).entries (index_at a level))) [
      | inl miss ↦
          let k : rounds + suc level ≡ 3 = omega arith in
          let five : suc rounds + suc level ≡ 4 = omega arith in
          let gone = reach-none s t a (suc level) (below ∙ miss) (suc rounds) in
          let stop : lookup_loop (suc rounds) s a level n visited ≡ (none, visited + 1) =
            rw (miss, lookup_loop) refl in
          ap (λ r. r.0) stop ∙ sym (ap (reach s t a) (sym five) ∙ gone)
      | inr (next, there) ↦
          let step : lookup_loop (suc rounds) s a level n visited
              ≡ lookup_loop rounds s a (level + 1) next (visited + 1) =
            rw (there, lookup_loop) refl in
          ap (λ r. r.0) step
          ∙ lookup_loop-reach rounds s t a (level + 1) next (visited + 1) (omega arith)
              (ap (reach s t a) (sym e) ∙ below ∙ there)
    ]

lookup_root :
    (s : Store) (t a root : ℕ)
    → s.roots t ≡ some root
    → lookup s (some t) a ≡ seen s (lookup_loop leaf_level s a 0 root 0).0
unfolding lookup lookup_with_levels
lookup_root s t a root at = elim (Option-cases (lookup_loop leaf_level s a 0 root 0).0) [
  | inl miss ↦ ground (arith, at, miss)
  | inr (x, found) ↦ ground (arith, at, found)
]

pub lookup-seen : (s : Store) (t a : ℕ) → lookup s (some t) a ≡ seen s (reach s t a 4)
unfolding lookup lookup_with_levels
lookup-seen s t a = elim (Option-cases (s.roots t)) [
  | inl miss ↦
      let gone : reach s t a 4 ≡ none = reach-none s t a 0 (reach-zero s t a ∙ miss) 4 in
      let stop : lookup s (some t) a ≡ none = rw (miss, lookup, lookup_with_levels) refl in
      stop ∙ sym (ap (seen s) gone)
  | inr (root, at) ↦
      let walk = lookup_loop-reach 3 s t a 0 root 0 refl (reach-zero s t a ∙ at) in
      lookup_root s t a root at ∙ ap (seen s) walk
]
