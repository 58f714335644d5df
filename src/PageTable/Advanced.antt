-- ===== src/PageTable/Advanced.antt =====
-- src/page_table.c: what stays when memory is asked for and shared nodes are replaced: what every walk
-- ends at.

use simulador_memoria_virtua.Base.{
  ℕ, ◌+◌, ◌<◌, ◌≤◌, ◌≡◌, ◌≢◌, refl, sym, ◌∙◌, Option, some, inl, inr, arith,
}
use simulador_memoria_virtua.PageTable.Objects.{Store}
use simulador_memoria_virtua.PageTable.References.{node_refs}
use simulador_memoria_virtua.PageTable.Valid.{nothing, IsCounted, SamePointers}
use simulador_memoria_virtua.PageTable.Fresh.{asked, asked-IsCounted}
use simulador_memoria_virtua.PageTable.Clone.{forget}
use simulador_memoria_virtua.PageTable.Reach.{
  reach, Replaced, reach-Replaced, reach-Replaced_entry, reach-SamePointers,
}

-- The store is sound, every walk ends at the entry where it ended in `s`, and a walk that meets an old
-- node met it there before. At most `k` nodes are new.
pub record Advanced (k : ℕ) (s s' : Store) : Type 0 where
  pub counted : IsCounted s' nothing nothing
  pub grows : s.node_count ≤ s'.node_count
  pub few : s'.node_count ≤ s.node_count + k
  pub table_count : s'.table_count ≡ s.table_count
  pub leaf_count : s'.leaf_count ≡ s.leaf_count
  pub granted : s'.granted ≡ s.granted
  pub leaves : (x : ℕ) → forget (s'.leaves x) ≡ forget (s.leaves x)
  pub views : (t a : ℕ) → reach s' t a 4 ≡ reach s t a 4
  pub back :
      (t a k p : ℕ) → k ≤ 3 → p < s.node_count → reach s' t a k ≡ some p → reach s t a k ≡ some p

pub Advanced-refl : (s : Store) → IsCounted s nothing nothing → Advanced 0 s s
Advanced-refl s v = record {
  counted = v;
  grows = omega arith;
  few = omega arith;
  table_count = refl;
  leaf_count = refl;
  granted = refl;
  leaves = λ x. refl;
  views = λ t a. refl;
  back = λ t a k p le lt at. at;
}

pub asked-SamePointers : (s : Store) (k : ℕ) → SamePointers s (asked s k)
asked-SamePointers s k = record {
  node_count = refl;
  leaf_count = refl;
  table_count = refl;
  roots = λ x. refl;
  levels = λ x. refl;
  entries = λ x i. refl;
}

pub asked-Advanced : (s : Store) (k : ℕ) → IsCounted s nothing nothing → Advanced 0 s (asked s k)
unfolding node_refs
asked-Advanced s k v = record {
  counted = asked-IsCounted s nothing nothing k v;
  grows = omega arith;
  few = omega arith;
  table_count = refl;
  leaf_count = refl;
  granted = refl;
  leaves = λ x. refl;
  views = λ t a. reach-SamePointers s (asked s k) (asked-SamePointers s k) t a 4;
  back = λ t a l p le lt at.
      sym (reach-SamePointers s (asked s k) (asked-SamePointers s k) t a l) ∙ at;
}

pub Replaced-back :
    (s s' : Store)
    → IsCounted s nothing nothing
    → (o : Option ℕ) (copy : ℕ) → Replaced s s' o copy
    → (t a k p : ℕ) → k ≤ 3
    → p < s.node_count
    → reach s' t a k ≡ some p
    → reach s t a k ≡ some p
Replaced-back s s' v o copy r t a k p le lt at =
    elim (reach-Replaced s s' nothing nothing v o copy r t a k (omega arith)) [
      | inl same ↦ sym same ∙ at
      | inr (small, old, new) ↦ absurd (ground (arith, r.fresh, at, new))
    ]

pub Replaced-forth :
    (s s' : Store)
    → IsCounted s nothing nothing
    → (o : Option ℕ) (copy : ℕ) → Replaced s s' o copy
    → (t a k p : ℕ) → k ≤ 3
    → o ≢ some p
    → reach s t a k ≡ some p
    → reach s' t a k ≡ some p
Replaced-forth s s' v o copy r t a k p le ne at =
    elim (reach-Replaced s s' nothing nothing v o copy r t a k (omega arith)) [
      | inl same ↦ same ∙ at
      | inr (small, old, new) ↦ absurd (ne (sym old ∙ at))
    ]

pub Replaced-Advanced :
    (s s' : Store)
    → IsCounted s nothing nothing
    → (o : Option ℕ) → Replaced s s' o s.node_count
    → IsCounted s' nothing nothing
    → s'.node_count ≡ s.node_count + 1
    → s'.table_count ≡ s.table_count
    → s'.leaf_count ≡ s.leaf_count
    → s'.granted ≡ s.granted
    → ((x : ℕ) → forget (s'.leaves x) ≡ forget (s.leaves x))
    → Advanced 1 s s'
Replaced-Advanced s s' v o r counted nodes tables leaves granted forgotten = record {
  counted = counted;
  grows = omega (arith, nodes);
  few = omega (arith, nodes);
  table_count = tables;
  leaf_count = leaves;
  granted = granted;
  leaves = forgotten;
  views = reach-Replaced_entry s s' nothing nothing v o s.node_count r;
  back = Replaced-back s s' v o s.node_count r;
}

pub Advanced-trans :
    (j k : ℕ) (s s1 s2 : Store) → Advanced j s s1 → Advanced k s1 s2 → Advanced (j + k) s s2
Advanced-trans j k s s1 s2 a b = record {
  counted = b.counted;
  grows = omega (arith, a.grows, b.grows);
  few = omega (arith, a.few, b.few);
  table_count = b.table_count ∙ a.table_count;
  leaf_count = b.leaf_count ∙ a.leaf_count;
  granted = b.granted ∙ a.granted;
  leaves = λ x. b.leaves x ∙ a.leaves x;
  views = λ t va. b.views t va ∙ a.views t va;
  back =
      λ t va l p le lt at. a.back t va l p le lt (b.back t va l p le (omega (arith, a.grows)) at);
}

pub Advanced-le : (j k : ℕ) (s s' : Store) → j ≤ k → Advanced j s s' → Advanced k s s'
Advanced-le j k s s' le a = record {
  counted = a.counted;
  grows = a.grows;
  few = omega (arith, a.few);
  table_count = a.table_count;
  leaf_count = a.leaf_count;
  granted = a.granted;
  leaves = a.leaves;
  views = a.views;
  back = a.back;
}
