-- ===== src/PageTable/References.antt =====
-- src/page_table.c: the pointers to an object, counted.
use mathlib.Core.Path.{ap₂}
use native.Mathlib.Decide.{ℕ_discrete}
use simulador_memoria_virtua.Base.{
  ◌∙◌, ℕ, ◌+◌, ◌*◌, ◌/◌, ◌%◌, ◌<◌, ◌≤◌, ◌≡◌, ◌≢◌, ap, Bool, true, false, ◌&&◌, not, Option, none,
  some, arith, update, count, count_change, count_pos, count_two, count-congr, bit, ltb, ◌==◌,
}
use simulador_memoria_virtua.PageTable.Objects.{Store, leaf_level}

abbrev pub points : Option ℕ → ℕ → Bool
points none x = false
points (some y) x = y == x

abbrev pub is_some : Option ℕ → Bool
is_some none = false
is_some (some x) = true

-- The places of all nodes are numbered, 512 to a node.
abbrev pub is_inner : Store → ℕ → Bool
is_inner s p = ltb (s.nodes p).level leaf_level

abbrev pub place : Store → ℕ → Option ℕ
place s c = (s.nodes (c / 512)).entries (c % 512)

abbrev pub node_place : Store → ℕ → ℕ → Bool
node_place s x c = is_inner s (c / 512) && points (place s c) x

abbrev pub leaf_place : Store → ℕ → ℕ → Bool
leaf_place s x c = not (is_inner s (c / 512)) && points (place s c) x

abbrev pub root_place : Store → ℕ → ℕ → Bool
root_place s x t = points (s.roots t) x

-- How many pointers lead to a node, and to an entry.
unfoldable pub node_refs : Store → ℕ → ℕ
node_refs s x = count (node_place s x) (s.node_count * 512) + count (root_place s x) s.table_count

unfoldable pub leaf_refs : Store → ℕ → ℕ
leaf_refs s x = count (leaf_place s x) (s.node_count * 512)

-- A place of node `p` is written, and its counter of active entries.
abbrev pub write : Store → ℕ → ℕ → Option ℕ → ℕ → Store
write s p i o a = record s {
  nodes =
      update s.nodes p
        (record (s.nodes p) { entries = update (s.nodes p).entries i o; active_entries = a });
}

number-place :
    (s : Store) (p i : ℕ)
    → i < 512
    → ((p * 512 + i) / 512 ≡ p) × (place s (p * 512 + i) ≡ (s.nodes p).entries i)
number-place s p i inside =
    let q : (p * 512 + i) / 512 ≡ p = omega arith in
    let r : (p * 512 + i) % 512 ≡ i = omega arith in
    (q, ap₂ (λ (n j : ℕ). (s.nodes n).entries j) q r)

-- A place of an inner node that leads to `x` is counted.
pub node_refs_pos :
    (s : Store) (p i x : ℕ)
    → p < s.node_count
    → i < 512
    → is_inner s p ≡ true
    → (s.nodes p).entries i ≡ some x
    → 0 < node_refs s x
unfolding node_refs
node_refs_pos s p i x below inside inner at =
    let q : (p * 512 + i) / 512 ≡ p = omega arith in
    let r : (p * 512 + i) % 512 ≡ i = omega arith in
    let here : place s (p * 512 + i) ≡ some x = ap₂ (λ (n j : ℕ). (s.nodes n).entries j) q r ∙ at in
    omega (
      arith,
      count_pos (node_place s x) (s.node_count * 512) (p * 512 + i) (omega arith)
          (ground (arith, here, q)),
    )

pub node_refs_root :
    (s : Store) (t x : ℕ) → t < s.table_count → s.roots t ≡ some x → 0 < node_refs s x
unfolding node_refs
node_refs_root s t x lt at =
    omega (arith, count_pos (root_place s x) s.table_count t lt (ground (arith, at)))

-- A node with one pointer has one place, or one table; an entry with one pointer has one place.
pub one_place :
    (s : Store) (x p i q j : ℕ)
    → p < s.node_count
    → i < 512
    → q < s.node_count
    → j < 512
    → is_inner s p ≡ true
    → is_inner s q ≡ true
    → (s.nodes p).entries i ≡ some x
    → (s.nodes q).entries j ≡ some x
    → node_refs s x ≤ 1
    → (p ≡ q) × (i ≡ j)
unfolding node_refs
one_place s x p i q j bp bi bq bj ip iq at at' few = elim (ℕ_discrete (p * 512 + i) (q * 512 + j)) [
  | yes same ↦ (omega arith, omega arith)
  | no other ↦
      let a = number-place s p i bi in
      let b = number-place s q j bj in
      let two =
        count_two (node_place s x) (s.node_count * 512) (p * 512 + i) (q * 512 + j) (omega arith)
          (omega arith) other (ground (arith, a)) (ground (arith, b)) in
      absurd (omega arith)
]

pub one_table :
    (s : Store) (x t u : ℕ)
    → t < s.table_count
    → u < s.table_count
    → s.roots t ≡ some x
    → s.roots u ≡ some x
    → node_refs s x ≤ 1
    → t ≡ u
unfolding node_refs
one_table s x t u bt bu at at' few = elim (ℕ_discrete t u) [
  | yes same ↦ same
  | no other ↦
      let two =
        count_two (root_place s x) s.table_count t u bt bu other (ground (arith))
          (ground (arith)) in
      absurd (omega arith)
]

pub one_leaf_place :
    (s : Store) (x p i q j : ℕ)
    → p < s.node_count
    → i < 512
    → q < s.node_count
    → j < 512
    → is_inner s p ≡ false
    → is_inner s q ≡ false
    → (s.nodes p).entries i ≡ some x
    → (s.nodes q).entries j ≡ some x
    → leaf_refs s x ≤ 1
    → (p ≡ q) × (i ≡ j)
unfolding leaf_refs
one_leaf_place s x p i q j bp bi bq bj ip iq at at' few =
    elim (ℕ_discrete (p * 512 + i) (q * 512 + j)) [
      | yes same ↦ (omega arith, omega arith)
      | no other ↦
          let a = number-place s p i bi in
          let b = number-place s q j bj in
          let two =
            count_two (leaf_place s x) (s.node_count * 512) (p * 512 + i) (q * 512 + j)
              (omega arith) (omega arith) other (ground (arith, a)) (ground (arith, b)) in
          absurd (omega arith)
    ]

module _ (s : Store) (p i : ℕ) (o : Option ℕ) (a : ℕ) (below : p < s.node_count)
    (inside : i < 512) where
  same_place : (c : ℕ) → c ≢ p * 512 + i → place (write s p i o a) c ≡ place s c
  same_place c ne = ground arith

  at_place : place s (p * 512 + i) ≡ (s.nodes p).entries i
  at_place =
      let q : (p * 512 + i) / 512 ≡ p = omega arith in
      let r : (p * 512 + i) % 512 ≡ i = omega arith in ap₂ (λ (n j : ℕ). (s.nodes n).entries j) q r

  now_place : place (write s p i o a) (p * 512 + i) ≡ o
  now_place =
      let q : (p * 512 + i) / 512 ≡ p = omega arith in
      let r : (p * 512 + i) % 512 ≡ i = omega arith in
      ap₂ (λ (n j : ℕ). ((write s p i o a).nodes n).entries j) q r ∙ ground arith

  same_level : (q : ℕ) → is_inner (write s p i o a) q ≡ is_inner s q
  same_level q = ground arith

  pub node_refs-write :
      (x : ℕ)
      → is_inner s p ≡ true
      → node_refs (write s p i o a) x + bit (points ((s.nodes p).entries i) x)
        ≡ node_refs s x + bit (points o x)
  unfolding node_refs
  node_refs-write x inner =
      let q : (p * 512 + i) / 512 ≡ p = omega arith in
      let change =
        count_change (node_place (write s p i o a) x) (node_place s x) (s.node_count * 512)
          (p * 512 + i) (omega arith)
          (λ j ne. ground (arith, same_place j ne, same_level (j / 512))) in
      let before : node_place s x (p * 512 + i) ≡ points ((s.nodes p).entries i) x =
        ground (arith, at_place, q) in
      let after : node_place (write s p i o a) x (p * 512 + i) ≡ points o x =
        ground (arith, now_place, q) in
      omega (arith, change, ap bit before, ap bit after)

  pub leaf_refs-write :
      (x : ℕ)
      → is_inner s p ≡ false
      → leaf_refs (write s p i o a) x + bit (points ((s.nodes p).entries i) x)
        ≡ leaf_refs s x + bit (points o x)
  unfolding leaf_refs
  leaf_refs-write x outer =
      let q : (p * 512 + i) / 512 ≡ p = omega arith in
      let change =
        count_change (leaf_place (write s p i o a) x) (leaf_place s x) (s.node_count * 512)
          (p * 512 + i) (omega arith)
          (λ j ne. ground (arith, same_place j ne, same_level (j / 512))) in
      let before : leaf_place s x (p * 512 + i) ≡ points ((s.nodes p).entries i) x =
        ground (arith, at_place, q) in
      let after : leaf_place (write s p i o a) x (p * 512 + i) ≡ points o x =
        ground (arith, now_place, q) in
      omega (arith, change, ap bit before, ap bit after)

  -- A write in a node of one kind does not change the pointers to the other kind.
  pub leaf_refs-write_inner :
      (x : ℕ) → is_inner s p ≡ true → leaf_refs (write s p i o a) x ≡ leaf_refs s x
  unfolding leaf_refs
  leaf_refs-write_inner x inner =
      count-congr (leaf_place (write s p i o a) x) (leaf_place s x) (s.node_count * 512)
        (λ j lt. ground arith)

  pub node_refs-write_leaf :
      (x : ℕ) → is_inner s p ≡ false → node_refs (write s p i o a) x ≡ node_refs s x
  unfolding node_refs
  node_refs-write_leaf x outer =
      ap (λ k. k + count (root_place s x) s.table_count)
        (count-congr (node_place (write s p i o a) x) (node_place s x) (s.node_count * 512)
          (λ j lt. ground arith))
