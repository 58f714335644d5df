-- ===== src/PageTable/Valid.antt =====
-- src/page_table.c: what holds of the store, and that a pointer can be moved between a place of a
-- node and a variable of the code.
use mathlib.Core.Path.{ap₂}
use simulador_memoria_virtua.Base.{
  ℕ, ◌+◌, ◌*◌, ◌/◌, ◌%◌, ◌<◌, ◌≤◌, ◌≡◌, true, false, Option, some, arith, count, count-congr, bit,
  ◌==◌, u64_max,
}
use simulador_memoria_virtua.PageTable.Objects.{Store, leaf_level, page_table_entries}
use simulador_memoria_virtua.PageTable.References.{
  points, is_some, is_inner, node_place, leaf_place, root_place, node_refs, leaf_refs, write,
  node_refs-write, leaf_refs-write, leaf_refs-write_inner, node_refs-write_leaf,
}

-- How many places of a node are in use.
abbrev pub used : Store → ℕ → ℕ
used s p = count (λ i. is_some ((s.nodes p).entries i)) page_table_entries

-- `h x` and `e x` say how often variables of the code hold the node `x` and the entry `x`; the
-- reference counts include these.
abbrev pub Held : Type 0
Held = ℕ → ℕ

abbrev pub nothing : Held
nothing x = 0

abbrev pub one : ℕ → Held
one c x = bit (c == x)

pub record IsCounted (s : Store) (h e : Held) : Type 0 where
  pub nodes : (x : ℕ) → x < s.node_count → (s.nodes x).reference_count ≡ node_refs s x + h x
  pub leaves : (x : ℕ) → x < s.leaf_count → (s.leaves x).reference_count ≡ leaf_refs s x + e x
  pub levels : (p : ℕ) → p < s.node_count → (s.nodes p).level ≤ leaf_level
  pub down_node :
      (p i c : ℕ)
      → p < s.node_count
      → i < page_table_entries
      → is_inner s p ≡ true
      → (s.nodes p).entries i ≡ some c
      → (c < s.node_count) × ((s.nodes c).level ≡ (s.nodes p).level + 1)
  pub down_leaf :
      (p i c : ℕ)
      → p < s.node_count
      → i < page_table_entries
      → is_inner s p ≡ false
      → (s.nodes p).entries i ≡ some c
      → c < s.leaf_count
  pub rooted :
      (t r : ℕ)
      → s.roots t ≡ some r
      → (t < s.table_count) × (r < s.node_count) × ((s.nodes r).level ≡ 0)

-- Between calls no variable holds a pointer.
abbrev pub IsValid : Store → Type 0
IsValid s = IsCounted s nothing nothing

-- Memory for `k` more nodes does not exhaust the addresses, so that no count wraps.
abbrev pub HasRoom : Store → ℕ → Type 0
HasRoom s k = s.table_count + (s.node_count + k) * 512 + 2 < u64_max

module _ (s : Store) (h h' e e' : Held) (v : IsCounted s h e) (p i : ℕ) (o : Option ℕ) (a : ℕ)
    (below : p < s.node_count) (inside : i < 512) where
  -- A pointer is put in a place of an inner node: from then on the place holds it, and the one that
  -- stood there is held no more by the place.
  pub write_inner-IsCounted :
      is_inner s p ≡ true
      → ((x : ℕ) → h' x + bit (points o x) ≡ h x + bit (points ((s.nodes p).entries i) x))
      → ((c : ℕ) → o ≡ some c → (c < s.node_count) × ((s.nodes c).level ≡ (s.nodes p).level + 1))
      → IsCounted (write s p i o a) h' e
  write_inner-IsCounted inner held fits = record {
    nodes = λ x lt.
        ground (arith, v.nodes x lt, held x, node_refs-write s p i o a below inside x inner);
    leaves =
        λ x lt. ground (arith, v.leaves x lt, leaf_refs-write_inner s p i o a below inside x inner);
    levels = λ q lt. ground (arith, v.levels q lt);
    down_node = λ q j c lt b in_q at. ground (arith, v.down_node q j c lt, fits c);
    down_leaf = λ q j c lt b out at. ground (arith, v.down_leaf q j c lt);
    rooted = λ t r at. ground (arith, v.rooted t r at);
  }

  -- The same for a leaf node and an entry.
  pub write_leaf-IsCounted :
      is_inner s p ≡ false
      → ((x : ℕ) → e' x + bit (points o x) ≡ e x + bit (points ((s.nodes p).entries i) x))
      → ((c : ℕ) → o ≡ some c → c < s.leaf_count)
      → IsCounted (write s p i o a) h e'
  write_leaf-IsCounted outer held fits = record {
    nodes =
        λ x lt. ground (arith, v.nodes x lt, node_refs-write_leaf s p i o a below inside x outer);
    leaves = λ x lt.
        ground (arith, v.leaves x lt, held x, leaf_refs-write s p i o a below inside x outer);
    levels = λ q lt. ground (arith, v.levels q lt);
    down_node = λ q j c lt b in_q at. ground (arith, v.down_node q j c lt);
    down_leaf = λ q j c lt b out at. ground (arith, v.down_leaf q j c lt, fits c);
    rooted = λ t r at. ground (arith, v.rooted t r at);
  }

-- The two stores have the same pointers.
pub record SamePointers (s t : Store) : Type 0 where
  pub node_count : t.node_count ≡ s.node_count
  pub leaf_count : t.leaf_count ≡ s.leaf_count
  pub table_count : t.table_count ≡ s.table_count
  pub roots : (x : ℕ) → t.roots x ≡ s.roots x
  pub levels : (x : ℕ) → (t.nodes x).level ≡ (s.nodes x).level
  pub entries : (x i : ℕ) → (t.nodes x).entries i ≡ (s.nodes x).entries i

module _ (s t : Store) (same : SamePointers s t) where
  node_refs-congr : (x : ℕ) → node_refs t x ≡ node_refs s x
  unfolding node_refs
  node_refs-congr x =
      rw (same.node_count, same.table_count)
        (ap₂ (λ (k l : ℕ). k + l)
          (count-congr (node_place t x) (node_place s x) (s.node_count * 512)
            (λ c lt. ground (arith, same.levels (c / 512), same.entries (c / 512) (c % 512))))
          (count-congr (root_place t x) (root_place s x) s.table_count
            (λ r lt. ground (arith, same.roots r))))

  leaf_refs-congr : (x : ℕ) → leaf_refs t x ≡ leaf_refs s x
  unfolding leaf_refs
  leaf_refs-congr x = rw same.node_count (
      count-congr (leaf_place t x) (leaf_place s x) (s.node_count * 512)
        (λ c lt. ground (arith, same.levels (c / 512), same.entries (c / 512) (c % 512))))

  -- Only reference counts, and what is held, have changed.
  pub SamePointers-IsCounted :
      (h h' e e' : Held)
      → ((x : ℕ)
          → x < s.node_count
          → (t.nodes x).reference_count + h x ≡ (s.nodes x).reference_count + h' x)
      → ((x : ℕ)
          → x < s.leaf_count
          → (t.leaves x).reference_count + e x ≡ (s.leaves x).reference_count + e' x)
      → IsCounted s h e
      → IsCounted t h' e'
  SamePointers-IsCounted h h' e e' nodes leaves v = record {
    nodes = λ x lt. omega (
      arith,
      v.nodes x (omega (arith, same.node_count)),
      nodes x (omega (arith, same.node_count)),
      node_refs-congr x,
    );
    leaves = λ x lt. omega (
      arith,
      v.leaves x (omega (arith, same.leaf_count)),
      leaves x (omega (arith, same.leaf_count)),
      leaf_refs-congr x,
    );
    levels = λ p lt. omega (arith, v.levels p (omega (arith, same.node_count)), same.levels p);
    down_node = λ p i c lt b inner at.
        ground (
          arith,
          v.down_node p i c,
          same.node_count,
          same.levels p,
          same.levels c,
          same.entries p i,
        );
    down_leaf = λ p i c lt b outer at. ground (
      arith,
      v.down_leaf p i c,
      same.node_count,
      same.leaf_count,
      same.levels p,
      same.entries p i,
    );
    rooted = λ x r at.
        ground
          (arith, v.rooted x r, same.roots x, same.table_count, same.node_count, same.levels r);
  }
