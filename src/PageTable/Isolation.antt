-- ===== src/PageTable/Isolation.antt =====
-- src/page_table.c: `page_table_map` is private to the process that calls it, although tables share
-- nodes.
use mathlib.Core.Path.{subst}
use simulador_memoria_virtua.Base.{
  ℕ, ◌%◌, ◌^◌, ◌≡◌, ◌⊎◌, refl, ap, sym, ◌∙◌, Bool, true, false, Option, none, some, inl, inr, arith,
  Option-cases, Status, success, failure,
}
use simulador_memoria_virtua.PageTable.Objects.{index_at, PageTableEntry, Store}
use simulador_memoria_virtua.PageTable.Valid.{nothing, HasRoom}
use simulador_memoria_virtua.PageTable.Advanced.{
  Advanced, Advanced-refl, Advanced-trans, Advanced-le,
}
use simulador_memoria_virtua.PageTable.Fresh.{Refused}
use simulador_memoria_virtua.PageTable.Reach.{reach-node, index_at-bounds}
use simulador_memoria_virtua.Address.{page_number}
use simulador_memoria_virtua.Address.Split.{SamePath-iff}
use simulador_memoria_virtua.PageTable.Valid.{IsValid}
use simulador_memoria_virtua.PageTable.Descent.{Owned, root-Owned, map_loop-cases}
use simulador_memoria_virtua.PageTable.Root.{ensure_private_root-cases}
use simulador_memoria_virtua.PageTable.Leaf.{Written, map_leaf-cases}
use simulador_memoria_virtua.PageTable.Lookup.{seen, lookup-seen}
use simulador_memoria_virtua.PageTable.Mapping.{
  shown, Advanced-lookup, Written-same, Written_others,
}
use simulador_memoria_virtua.PageTable.{ensure_private_root, finish_map, walk_map, map, lookup}

-- The store after a successful call, by the store in which the leaf node was reached.
record Success (s : Store) (table address frame : ℕ) (s1 : Store) : Type 0 where
  pub reached : Store
  pub node : ℕ
  pub entry : ℕ
  pub advanced : Advanced 4 s reached
  pub owned : Owned reached table address 3 node
  pub written : Written reached s1 node (index_at address 3) entry frame

module _ (s : Store) (v : IsValid s) (room : HasRoom s 4) (table address frame : ℕ) where
  map-rootless : s.roots table ≡ none → map s (some table) address frame ≡ (s, failure)
  unfolding map ensure_private_root
  map-rootless miss =
      let stop : ensure_private_root s table ≡ (s, none) = rw (miss, ensure_private_root) refl in
      ap (λ r. finish_map address frame (walk_map address r)) stop

  map-cases :
      ((s1 : Store) × (map s (some table) address frame ≡ (s1, failure))
        × Advanced 4 s s1
        × ((s.roots table ≡ none) ⊎ Refused s))
      ⊎ ((s1 : Store) × (map s (some table) address frame ≡ (s1, success))
          × Success s table address frame s1)
  unfolding map
  map-cases = elim (Option-cases (s.roots table)) [
    | inl miss ↦
        inl (s, map-rootless miss, Advanced-le 0 4 s s (omega arith) (Advanced-refl s v), inl miss)
    | inr (old, at) ↦
        let finish : Store × Option ℕ → Store × Status = finish_map address frame in
        let walk : Store × Option ℕ → Store × Status = λ r. finish (walk_map address r) in
        elim (ensure_private_root-cases s v (omega arith) table old at) [
          | inl (s1, result, a, why) ↦
              inl (s1, ap walk result, Advanced-le 1 4 s s1 (omega arith) a, inr why)
          | inr (s1, root, result, a, rooted, sole) ↦
              let o = root-Owned s1 table address root a.counted rooted sole in
              elim (map_loop-cases 3 s1 a.counted (omega (arith, a.few, a.table_count)) table
                address 0 root refl o) [
                  | inl (s2, down, b, (k, why)) ↦ inl (
                    s2,
                    ap walk result ∙ ap finish down,
                    Advanced-trans 1 3 s s1 s2 a b,
                    inr (k, sym (ap (λ (g : ℕ → Bool). g k) a.granted) ∙ why),
                  )
                  | inr (s2, n, down, b, owned) ↦
                      let both = Advanced-trans 1 3 s s1 s2 a b in
                      let (lt, level) =
                        reach-node s2 nothing nothing b.counted table address 3 n (omega arith)
                          owned.at in
                      elim (map_leaf-cases s2 b.counted (omega (arith, both.few, both.table_count))
                        n (index_at address 3) frame lt (index_at-bounds address 3 (omega arith))
                        (ground (arith, level))) [
                          | inl (s3, end, c, (k, why)) ↦ inl (
                            s3,
                            ap walk result ∙ ap finish down ∙ end,
                            Advanced-trans 4 0 s s2 s3 both c,
                            inr (k, sym (ap (λ (g : ℕ → Bool). g k) both.granted) ∙ why),
                          )
                          | inr (s3, x, end, w) ↦ inr (
                            s3,
                            ap walk result ∙ ap finish down ∙ end,
                            record {
                              reached = s2;
                              node = n;
                              entry = x;
                              advanced = both;
                              owned = owned;
                              written = w;
                            },
                          )
                        ]
                ]
        ]
  ]

  -- In a valid store whose addresses do not run out, `page_table_map` leaves the store valid,
  -- whether it succeeds or fails: the reference count of every node and of every entry is the
  -- number of pointers to it from nodes and roots, every node above the leaves leads to nodes one
  -- level below, and every root is at level 0.
  pub map-IsValid : IsValid (map s (some table) address frame).0
  map-IsValid = elim map-cases [
    | inl (s1, result, a, why) ↦ subst (λ r. IsValid r.0) (sym result) a.counted
    | inr (s1, result, done) ↦ subst (λ r. IsValid r.0) (sym result) done.written.counted
  ]

  -- In a valid store whose addresses do not run out, `page_table_map` succeeds on a table that
  -- has a root when every request for memory is granted.
  pub map-succeeds :
      (root : ℕ)
      → s.roots table ≡ some root
      → ((k : ℕ) → s.granted k ≡ true)
      → (map s (some table) address frame).1 ≡ success
  map-succeeds root at granted = elim map-cases [
    | inr (s1, result, done) ↦ ap (λ r. r.1) result
    | inl (s1, result, a, why) ↦ elim why [
      | inl rootless ↦ absurd (let e : none ≡ some root = sym rootless ∙ at in cc)
      | inr (k, refused) ↦ absurd (let e : true ≡ false = sym (granted k) ∙ refused in cc)
    ]
  ]

  module _ (s1 : Store) where
    the_success :
        map s (some table) address frame ≡ (s1, success) → Success s table address frame s1
    the_success result = elim map-cases [
      | inl (s2, other, a, why) ↦
          absurd (let e : (s2, failure) ≡ (s1, success) = sym other ∙ result in cc)
      | inr (s2, other, done) ↦
          let e : s2 ≡ s1 = ap (λ r. r.0) (sym other ∙ result) in
          subst (Success s table address frame) e done
    ]

    -- In a valid store whose addresses do not run out, when `page_table_map` succeeds, a lookup
    -- in its table of any address with the same page number modulo 2 ^ 36 shows an entry, and its
    -- frame number is the one that was mapped.
    pub map-lookup :
        map s (some table) address frame ≡ (s1, success)
        → (a : ℕ) → page_number a % 2 ^ 36 ≡ page_number address % 2 ^ 36
        → (entry : PageTableEntry) × (lookup s1 (some table) a ≡ some entry)
          × (entry.frame_number ≡ frame)
    map-lookup result a same =
        let done = the_success result in
        let w = done.written in
        let there =
          Written-same done.reached done.advanced.counted done.node done.entry frame table address
            done.owned s1 w a ((SamePath-iff a address).1 same) in
        (
          s1.leaves done.entry,
          lookup-seen s1 table a ∙ ap (seen s1) there ∙ ground (arith, w.present),
          w.framed,
        )

    -- In a valid store whose addresses do not run out, when `page_table_map` succeeds, a lookup
    -- in another table, or of a page whose number differs modulo 2 ^ 36, shows the entry that it
    -- showed before but for its count of references, or none, also where the tables shared the
    -- nodes on the way.
    pub map-lookup_others :
        map s (some table) address frame ≡ (s1, success)
        → (other a : ℕ)
        → ¬ ((other ≡ table) × (page_number a % 2 ^ 36 ≡ page_number address % 2 ^ 36))
        → shown (lookup s1 (some other) a) ≡ shown (lookup s (some other) a)
    map-lookup_others result other a elsewhere =
        let done = the_success result in
        ap shown (lookup-seen s1 other a)
        ∙ Written_others done.reached done.advanced.counted done.node done.entry frame table address
            done.owned s1 done.written other a
            (λ both. elsewhere (both.0, (SamePath-iff a address).0 both.1))
        ∙ ap shown (sym (lookup-seen done.reached other a))
        ∙ Advanced-lookup 4 s done.reached done.advanced other a

    -- In a valid store whose addresses do not run out, when `page_table_map` fails, wherever on
    -- its way memory was refused, every lookup in every table shows the entry that it showed
    -- before but for its count of references, or none.
    pub map_failure-lookup :
        map s (some table) address frame ≡ (s1, failure)
        → (other a : ℕ) → shown (lookup s1 (some other) a) ≡ shown (lookup s (some other) a)
    map_failure-lookup result other a = elim map-cases [
      | inr (s2, success_too, done) ↦
          absurd (let e : (s2, success) ≡ (s1, failure) = sym success_too ∙ result in cc)
      | inl (s2, again, adv, why) ↦
          let e : s2 ≡ s1 = ap (λ r. r.0) (sym again ∙ result) in
          Advanced-lookup 4 s s1 (subst (Advanced 4 s) e adv) other a
    ]
