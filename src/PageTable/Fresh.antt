-- ===== src/PageTable/Fresh.antt =====
-- src/page_table.c: new nodes and new entries.

use simulador_memoria_virtua.Base.{
  ℕ, ◌+◌, ◌*◌, ◌/◌, ◌%◌, ◌<◌, ◌≤◌, ◌≡◌, ◌⊎◌, refl, false, none, some, inl, inr, arith, update,
  count_extend, count_none, count-congr, Bool-cases,
}
use simulador_memoria_virtua.PageTable.Objects.{
  PageTableEntry, Store, leaf_level, empty_node, new_entry, request, node_create, entry_create,
  entry_clone,
}
use simulador_memoria_virtua.PageTable.References.{
  node_refs, leaf_refs, node_place, leaf_place, root_place,
}
use simulador_memoria_virtua.PageTable.Valid.{Held, IsCounted}

-- A call asked for memory, in vain; and it got a new node, or a new entry.
abbrev pub asked : Store → ℕ → Store
asked s k = record s { requests = k }

abbrev pub with_node : Store → ℕ → ℕ → Store
with_node s k level = record s {
  nodes = update s.nodes s.node_count (empty_node level);
  node_count = s.node_count + 1;
  requests = k;
}

abbrev pub with_leaf : Store → ℕ → PageTableEntry → Store
with_leaf s k entry = record s {
  leaves = update s.leaves s.leaf_count entry;
  leaf_count = s.leaf_count + 1;
  requests = k;
}

-- Some call asked for memory in vain.
abbrev pub Refused : Store → Type 0
Refused s = (k : ℕ) × (s.granted k ≡ false)

pub node_create-cases :
    (s : Store) (level : ℕ)
    → ((k : ℕ) × (node_create s level ≡ (asked s k, none)) × Refused s)
      ⊎ ((k : ℕ) × (node_create s level ≡ (with_node s k level, some s.node_count)))
unfolding node_create request
node_create-cases s level = elim (Bool-cases (s.granted s.requests)) [
  | inr refused ↦ inl (s.requests + 1, rw refused refl, (s.requests, refused))
  | inl met ↦ elim (Bool-cases (s.granted (s.requests + 1))) [
    | inr refused ↦ inl (s.requests + 1 + 1, rw (met, refused) refl, (s.requests + 1, refused))
    | inl met' ↦ inr (s.requests + 1 + 1, rw (met, met') refl)
  ]
]

pub entry_create-cases :
    (s : Store) (frame : ℕ)
    → ((entry_create s frame ≡ (asked s (s.requests + 1), none)) × Refused s)
      ⊎ (entry_create s frame ≡ (with_leaf s (s.requests + 1) (new_entry frame), some s.leaf_count))
unfolding entry_create request
entry_create-cases s frame = elim (Bool-cases (s.granted s.requests)) [
  | inr refused ↦ inl (rw refused refl, (s.requests, refused))
  | inl met ↦ inr (rw met refl)
]

abbrev pub private_entry : PageTableEntry → PageTableEntry
private_entry entry = record entry { reference_count = 1; copy_on_write = false }

pub entry_clone-cases :
    (s : Store) (source : ℕ)
    → ((entry_clone s source ≡ (asked s (s.requests + 1), none)) × Refused s)
      ⊎ (entry_clone s source
          ≡ (with_leaf s (s.requests + 1) (private_entry (s.leaves source)), some s.leaf_count))
unfolding entry_clone request
entry_clone-cases s source = elim (Bool-cases (s.granted s.requests)) [
  | inr refused ↦ inl (rw refused refl, (s.requests, refused))
  | inl met ↦ inr (rw met refl)
]

pub asked-IsCounted : (s : Store) (h e : Held) (k : ℕ) → IsCounted s h e → IsCounted (asked s k) h e
unfolding node_refs leaf_refs
asked-IsCounted s h e k v = record {
  nodes = v.nodes;
  leaves = v.leaves;
  levels = v.levels;
  down_node = v.down_node;
  down_leaf = v.down_leaf;
  rooted = v.rooted;
}

module _ (s : Store) (h e : Held) (v : IsCounted s h e) where
  -- No pointer leads to what was not allocated.
  no_node_place : (x c : ℕ) → s.node_count ≤ x → c < s.node_count * 512 → node_place s x c ≡ false
  no_node_place x c lo lt = elim (Bool-cases (node_place s x c)) [
    | inr missing ↦ missing
    | inl hit ↦ absurd (ground (arith, v.down_node (c / 512) (c % 512) x))
  ]

  pub no_node_refs : (x : ℕ) → s.node_count ≤ x → node_refs s x ≡ 0
  unfolding node_refs
  no_node_refs x lo =
      let places =
        count_none (node_place s x) (s.node_count * 512) (λ c lt. no_node_place x c lo lt) in
      let roots =
        count_none (root_place s x) s.table_count (λ t lt. ground (arith, v.rooted t x)) in
      omega (arith, places, roots)

  no_leaf_place : (x c : ℕ) → s.leaf_count ≤ x → c < s.node_count * 512 → leaf_place s x c ≡ false
  no_leaf_place x c lo lt = elim (Bool-cases (leaf_place s x c)) [
    | inr missing ↦ missing
    | inl hit ↦ absurd (ground (arith, v.down_leaf (c / 512) (c % 512) x))
  ]

  pub no_leaf_refs : (x : ℕ) → s.leaf_count ≤ x → leaf_refs s x ≡ 0
  unfolding leaf_refs
  no_leaf_refs x lo =
      count_none (leaf_place s x) (s.node_count * 512) (λ c lt. no_leaf_place x c lo lt)

  node_refs-with_node : (k level x : ℕ) → node_refs (with_node s k level) x ≡ node_refs s x
  unfolding node_refs
  node_refs-with_node k level x =
      let t = with_node s k level in
      let more : (s.node_count + 1) * 512 ≡ s.node_count * 512 + 512 = omega arith in
      let longer =
        count_extend (node_place t x) (s.node_count * 512) 512
          (λ j lo hi. let here : j / 512 ≡ s.node_count = omega arith in ground (arith, here)) in
      let old =
        count-congr (node_place t x) (node_place s x) (s.node_count * 512)
          (λ j lt. let there : j / 512 < s.node_count = omega arith in ground (arith, there)) in
      ground (arith, more, longer, old)

  leaf_refs-with_node : (k level x : ℕ) → leaf_refs (with_node s k level) x ≡ leaf_refs s x
  unfolding leaf_refs
  leaf_refs-with_node k level x =
      let t = with_node s k level in
      let more : (s.node_count + 1) * 512 ≡ s.node_count * 512 + 512 = omega arith in
      let longer =
        count_extend (leaf_place t x) (s.node_count * 512) 512
          (λ j lo hi. let here : j / 512 ≡ s.node_count = omega arith in ground (arith, here)) in
      let old =
        count-congr (leaf_place t x) (leaf_place s x) (s.node_count * 512)
          (λ j lt. let there : j / 512 < s.node_count = omega arith in ground (arith, there)) in
      ground (arith, more, longer, old)

  -- The new node is held by the one who asked for it.
  pub with_node-IsCounted :
      (h' : Held) (k level : ℕ)
      → level ≤ leaf_level
      → ((x : ℕ) → x < s.node_count → h' x ≡ h x)
      → h' s.node_count ≡ 1
      → IsCounted (with_node s k level) h' e
  with_node-IsCounted h' k level fits old new = record {
    nodes = λ x lt. ground (arith, v.nodes x, old x, node_refs-with_node k level x, no_node_refs x);
    leaves = λ x lt. ground (arith, v.leaves x lt, leaf_refs-with_node k level x);
    levels = λ p lt. ground (arith, v.levels p);
    down_node = λ p i c lt b inner at. ground (arith, v.down_node p i c);
    down_leaf = λ p i c lt b outer at. ground (arith, v.down_leaf p i c);
    rooted = λ t r at. ground (arith, v.rooted t r at);
  }

  pub with_leaf-IsCounted :
      (e' : Held) (k : ℕ) (entry : PageTableEntry)
      → entry.reference_count ≡ 1
      → ((x : ℕ) → x < s.leaf_count → e' x ≡ e x)
      → e' s.leaf_count ≡ 1
      → IsCounted (with_leaf s k entry) h e'
  unfolding node_refs leaf_refs
  with_leaf-IsCounted e' k entry one_count old new = record {
    nodes = v.nodes;
    leaves = λ x lt. ground (arith, v.leaves x, old x, no_leaf_refs x);
    levels = v.levels;
    down_node = v.down_node;
    down_leaf = λ p i c lt b outer at. ground (arith, v.down_leaf p i c);
    rooted = v.rooted;
  }
