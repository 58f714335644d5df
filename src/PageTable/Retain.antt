-- ===== src/PageTable/Retain.antt =====
-- src/page_table.c: taking and giving up a reference.
use mathlib.Core.Path.{subst}
use simulador_memoria_virtua.Base.{
  ℕ, suc, ◌+◌, ◌*◌, ◌<◌, ◌≤◌, ◌≡◌, ◌≢◌, refl, sym, true, inl, inr, arith, update, bit, Bool-cases,
  count-le, ltb, ◌==◌, inc64, dec64,
}
use simulador_memoria_virtua.PageTable.Objects.{
  PageTableEntry, Store, set_node_count, node_retain, entry_retain, node_release, entry_release,
  freed_entry,
}
use simulador_memoria_virtua.PageTable.References.{
  node_refs, leaf_refs, node_place, leaf_place, root_place,
}
use simulador_memoria_virtua.PageTable.Valid.{
  Held, IsCounted, HasRoom, SamePointers, SamePointers-IsCounted,
}

pub set_node_count-SamePointers : (s : Store) (n k : ℕ) → SamePointers s (set_node_count s n k)
set_node_count-SamePointers s n k = record {
  node_count = refl;
  leaf_count = refl;
  table_count = refl;
  roots = λ x. refl;
  levels = λ x. ground arith;
  entries = λ x i. ground arith;
}

-- Only entries have changed.
pub leaves-SamePointers :
    (s : Store) (leaves : ℕ → PageTableEntry) → SamePointers s (record s { leaves = leaves })
leaves-SamePointers s leaves = record {
  node_count = refl;
  leaf_count = refl;
  table_count = refl;
  roots = λ x. refl;
  levels = λ x. refl;
  entries = λ x i. refl;
}

pub node_refs-le : (s : Store) (x : ℕ) → node_refs s x ≤ s.node_count * 512 + s.table_count
unfolding node_refs
node_refs-le s x =
    omega (
      arith,
      count-le (node_place s x) (s.node_count * 512),
      count-le (root_place s x) s.table_count,
    )

pub leaf_refs-le : (s : Store) (x : ℕ) → leaf_refs s x ≤ s.node_count * 512
unfolding leaf_refs
leaf_refs-le s x = count-le (leaf_place s x) (s.node_count * 512)

pub node_release-shared :
    (fuel : ℕ) (s : Store) (c : ℕ)
    → 1 < (s.nodes c).reference_count
    → node_release (suc fuel) s c ≡ set_node_count s c (dec64 (s.nodes c).reference_count)
unfolding node_release
node_release-shared fuel s c many =
    let test : ltb 1 (s.nodes c).reference_count ≡ true = ground arith in
    rw (test, node_release) refl

module _ (s : Store) (h h' e e' : Held) (v : IsCounted s h e) (c : ℕ) where
  set_node_count-IsCounted :
      (k : ℕ)
      → (k + h c ≡ (s.nodes c).reference_count + h' c)
      → ((x : ℕ) → c ≢ x → h' x ≡ h x)
      → IsCounted (set_node_count s c k) h' e
  set_node_count-IsCounted k here others =
      SamePointers-IsCounted s (set_node_count s c k) (set_node_count-SamePointers s c k) h h' e e
        (λ x lt. ground (arith, others x)) (λ x lt. refl) v

  set_entry-IsCounted :
      (entry : PageTableEntry)
      → (entry.reference_count + e c ≡ (s.leaves c).reference_count + e' c)
      → ((x : ℕ) → c ≢ x → e' x ≡ e x)
      → IsCounted (record s { leaves = update s.leaves c entry }) h e'
  set_entry-IsCounted entry here others =
      let leaves = update s.leaves c entry in
      SamePointers-IsCounted s (record s { leaves = leaves }) (leaves-SamePointers s leaves) h h e
        e' (λ x lt. refl) (λ x lt. ground (arith, others x)) v

  pub node_retain-IsCounted :
      c < s.node_count
      → HasRoom s 0
      → h c ≤ 1
      → ((x : ℕ) → h' x ≡ h x + bit (c == x))
      → IsCounted (node_retain s c) h' e
  unfolding node_retain
  node_retain-IsCounted lt room few held =
      set_node_count-IsCounted (inc64 (s.nodes c).reference_count)
        (ground (arith, v.nodes c lt, node_refs-le s c, held c)) (λ x ne. ground (arith, held x))

  pub entry_retain-IsCounted :
      c < s.leaf_count
      → HasRoom s 0
      → e c ≤ 1
      → ((x : ℕ) → e' x ≡ e x + bit (c == x))
      → IsCounted (entry_retain s c) h e'
  unfolding entry_retain
  entry_retain-IsCounted lt room few held =
      set_entry-IsCounted
        (record (s.leaves c) { reference_count = inc64 (s.leaves c).reference_count })
        (ground (arith, v.leaves c lt, leaf_refs-le s c, held c)) (λ x ne. ground (arith, held x))

  -- A node that others hold too is given up.
  pub node_release-IsCounted :
      (fuel : ℕ)
      → c < s.node_count
      → HasRoom s 0
      → h c ≤ 1
      → 1 < (s.nodes c).reference_count
      → ((x : ℕ) → h' x + bit (c == x) ≡ h x)
      → IsCounted (node_release (suc fuel) s c) h' e
  node_release-IsCounted fuel lt room few many held =
      subst (λ t. IsCounted t h' e) (sym (node_release-shared fuel s c many))
        (set_node_count-IsCounted (dec64 (s.nodes c).reference_count)
          (ground (arith, v.nodes c lt, node_refs-le s c, held c)) (λ x ne. ground (arith, held x)))

  pub entry_release-IsCounted :
      c < s.leaf_count
      → HasRoom s 0
      → e c ≤ 1
      → ((x : ℕ) → e' x + bit (c == x) ≡ e x)
      → IsCounted (entry_release s c) h e'
  unfolding entry_release
  entry_release-IsCounted lt room few held =
      elim (Bool-cases (ltb 1 (s.leaves c).reference_count)) [
        | inl many ↦ rw many (
            set_entry-IsCounted
              (record (s.leaves c) { reference_count = dec64 (s.leaves c).reference_count })
              (ground (arith, v.leaves c lt, leaf_refs-le s c, held c))
              (λ x ne. ground (arith, held x)))
        | inr last ↦ rw last (
            set_entry-IsCounted freed_entry (ground (arith, v.leaves c lt, held c))
              (λ x ne. ground (arith, held x)))
      ]
