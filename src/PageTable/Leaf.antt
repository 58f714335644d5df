-- ===== src/PageTable/Leaf.antt =====
-- src/page_table.c: the end of `page_table_map`, in the leaf node that the walk has reached.
use mathlib.Core.Path.{subst}
use simulador_memoria_virtua.Base.{
  ℕ, ◌+◌, ◌<◌, ◌≤◌, ◌≡◌, ◌≢◌, ◌⊎◌, refl, ap, ◌∙◌, true, false, none, some, inl, inr, arith, update,
  Bool-cases, Option-cases, ltb, inc64, dec64, success, failure,
}
use simulador_memoria_virtua.PageTable.Objects.{
  set_entry_count, new_entry, entry_create, entry_clone, entry_release, Store, set_pointer,
}
use simulador_memoria_virtua.PageTable.References.{is_inner, one_leaf_place}
use simulador_memoria_virtua.PageTable.Valid.{
  nothing, one, IsCounted, HasRoom, write_leaf-IsCounted, SamePointers-IsCounted,
}
use simulador_memoria_virtua.PageTable.Fresh.{
  Refused, asked, with_leaf, with_leaf-IsCounted, private_entry, entry_create-cases,
  entry_clone-cases,
}
use simulador_memoria_virtua.PageTable.Clone.{forget}
use simulador_memoria_virtua.PageTable.Advanced.{Advanced, asked-Advanced}
use simulador_memoria_virtua.PageTable.Retain.{entry_release-IsCounted, leaves-SamePointers}
use simulador_memoria_virtua.PageTable.{attach, attach_entry, put_entry, set_frame, map_leaf}

-- The place `index` of the leaf node `n` now leads to the entry `x`, in which the mapping is; only
-- walks through that place led to `x` before, if any did.
pub record Written (s s1 : Store) (n index x frame : ℕ) : Type 0 where
  pub counted : IsCounted s1 nothing nothing
  pub roots : (t : ℕ) → s1.roots t ≡ s.roots t
  pub others :
      (q i : ℕ)
      → q < s.node_count
      → ¬ ((q ≡ n) × (i ≡ index))
      → (s1.nodes q).entries i ≡ (s.nodes q).entries i
  pub at : (s1.nodes n).entries index ≡ some x
  pub leaves : (y : ℕ) → y < s.leaf_count → y ≢ x → forget (s1.leaves y) ≡ forget (s.leaves y)
  pub only :
      (q i : ℕ)
      → q < s.node_count
      → i < 512
      → is_inner s q ≡ false
      → (s.nodes q).entries i ≡ some x
      → (q ≡ n) × (i ≡ index)
  pub framed : (s1.leaves x).frame_number ≡ frame
  pub present : (s1.leaves x).present ≡ true

module _ (s : Store) (v : IsCounted s nothing nothing) (room : HasRoom s 0) (n index frame : ℕ)
    (below : n < s.node_count) (inside : index < 512) (leaf : is_inner s n ≡ false) where
  -- A new entry in a free place.
  attached-Written :
      (k : ℕ)
      → (s.nodes n).entries index ≡ none
      → Written s
          (attach (with_leaf s k (new_entry frame)) n index s.leaf_count)
          n
          index
          s.leaf_count
          frame
  attached-Written k free =
      let t = with_leaf s k (new_entry frame) in
      let fresh : IsCounted t nothing (one s.leaf_count) =
        with_leaf-IsCounted s nothing nothing v (one s.leaf_count) k (new_entry frame) refl
          (λ x lt. ground arith) (ground arith) in
      record {
        counted =
            write_leaf-IsCounted t nothing nothing (one s.leaf_count) nothing fresh n index
              (some s.leaf_count) (inc64 (t.nodes n).active_entries) below inside leaf
              (λ x. ground (arith, free)) (λ c eq. ground arith);
        roots = λ t. refl;
        others = λ q i lt ne. ground arith;
        at = ground arith;
        leaves = λ y lt ne. ground arith;
        only = λ q i lt b outer there.
            absurd (ground (arith, v.down_leaf q i s.leaf_count lt b outer there));
        framed = ground arith;
        present = ground arith;
      }

  -- The entry that is there, which no other place leads to.
  framed-Written :
      (x : ℕ)
      → (s.nodes n).entries index ≡ some x
      → (s.leaves x).reference_count ≤ 1
      → Written s (set_frame s x frame) n index x frame
  framed-Written x at few =
      let lt = v.down_leaf n index x below inside leaf at in
      let entry = record (s.leaves x) { frame_number = frame; present = true } in
      let leaves = update s.leaves x entry in
      record {
        counted =
            SamePointers-IsCounted s (set_frame s x frame) (leaves-SamePointers s leaves) nothing
              nothing nothing nothing (λ y b. refl) (λ y b. ground arith) v;
        roots = λ t. refl;
        others = λ q i b ne. refl;
        at = at;
        leaves = λ y b ne. ground arith;
        only = λ q i b bi outer there.
            one_leaf_place s x q i n index b bi below inside outer leaf there at
              (omega (arith, v.leaves x lt));
        framed = ground arith;
        present = ground arith;
      }

  -- A copy of the entry that is there, which other places keep.
  module _ (x k : ℕ) (at : (s.nodes n).entries index ≡ some x)
      (many : 1 < (s.leaves x).reference_count) where
    abbrev cloned : Store
    cloned = with_leaf s k (private_entry (s.leaves x))

    abbrev moved : Store
    moved =
        set_frame
          (set_pointer (set_entry_count cloned x (dec64 (cloned.leaves x).reference_count)) n index
            (some s.leaf_count))
          s.leaf_count frame

    release-moved :
        entry_release cloned x ≡ set_entry_count cloned x (dec64 (cloned.leaves x).reference_count)
    unfolding entry_release
    release-moved =
        let lt = v.down_leaf n index x below inside leaf at in
        let test : ltb 1 (cloned.leaves x).reference_count ≡ true = ground arith in rw test refl

    moved-IsCounted : IsCounted moved nothing nothing
    unfolding entry_release
    moved-IsCounted =
        let lt = v.down_leaf n index x below inside leaf at in
        let fresh : IsCounted cloned nothing (one s.leaf_count) =
          with_leaf-IsCounted s nothing nothing v (one s.leaf_count) k (private_entry (s.leaves x))
            refl (λ y b. ground arith) (ground arith) in
        let u = set_pointer cloned n index (some s.leaf_count) in
        let pointed : IsCounted u nothing (one x) =
          write_leaf-IsCounted cloned nothing nothing (one s.leaf_count) (one x) fresh n index
            (some s.leaf_count) ((cloned.nodes n).active_entries) below inside leaf
            (λ y. ground (arith, at)) (λ c eq. ground arith) in
        let given : IsCounted (entry_release u x) nothing nothing =
          entry_release-IsCounted u nothing nothing (one x) nothing pointed x (omega arith) room
            (ground arith) (λ y. omega arith) in
        let test : ltb 1 (u.leaves x).reference_count ≡ true = ground arith in
        let step : entry_release u x ≡ set_entry_count u x (dec64 (u.leaves x).reference_count) =
          rw test refl in
        let w = set_entry_count u x (dec64 (u.leaves x).reference_count) in
        SamePointers-IsCounted w moved (leaves-SamePointers w moved.leaves) nothing nothing nothing
          nothing (λ y b. refl) (λ y b. ground arith)
          (subst (λ t. IsCounted t nothing nothing) step given)

    moved-Written : Written s moved n index s.leaf_count frame
    moved-Written =
        let lt = v.down_leaf n index x below inside leaf at in
        record {
          counted = moved-IsCounted;
          roots = λ t. refl;
          others = λ q i b ne. ground arith;
          at = ground arith;
          leaves = λ y b ne. ground arith;
          only = λ q i b bi outer there.
              absurd (ground (arith, v.down_leaf q i s.leaf_count b bi outer there));
          framed = ground arith;
          present = ground arith;
        }

  pub map_leaf-cases :
      ((s1 : Store) × (map_leaf s n index frame ≡ (s1, failure)) × Advanced 0 s s1 × Refused s)
      ⊎ ((s1 : Store) × (x : ℕ) × (map_leaf s n index frame ≡ (s1, success))
          × Written s s1 n index x frame)
  unfolding map_leaf
  map_leaf-cases = elim (Option-cases ((s.nodes n).entries index)) [
    | inl free ↦
        let step : map_leaf s n index frame ≡ attach_entry n index (entry_create s frame) =
          rw (free, map_leaf) refl in
        elim (entry_create-cases s frame) [
          | inl (refused, why) ↦ inl (
            asked s (s.requests + 1),
            step ∙ ap (attach_entry n index) refused,
            asked-Advanced s (s.requests + 1) v,
            why,
          )
          | inr made ↦ inr (
            attach (with_leaf s (s.requests + 1) (new_entry frame)) n index s.leaf_count,
            s.leaf_count,
            step ∙ ap (attach_entry n index) made,
            attached-Written (s.requests + 1) free,
          )
        ]
    | inr (x, at) ↦ elim (Bool-cases (ltb 1 (s.leaves x).reference_count)) [
      | inr alone ↦
          let step : map_leaf s n index frame ≡ (set_frame s x frame, success) =
            rw (at, alone, map_leaf) refl in
          inr (set_frame s x frame, x, step, framed-Written x at (ground (arith, alone)))
      | inl shared ↦
          let many : 1 < (s.leaves x).reference_count = ground (arith, shared) in
          let step : map_leaf s n index frame ≡ put_entry n index x frame (entry_clone s x) =
            rw (at, shared, map_leaf) refl in
          elim (entry_clone-cases s x) [
            | inl (refused, why) ↦ inl (
              asked s (s.requests + 1),
              step ∙ ap (put_entry n index x frame) refused,
              asked-Advanced s (s.requests + 1) v,
              why,
            )
            | inr made ↦
                let k = s.requests + 1 in
                inr (
                  moved x k at many,
                  s.leaf_count,
                  step
                      ∙ ap (put_entry n index x frame) made
                      ∙ ap
                          (λ t. (
                            set_frame (set_pointer t n index (some s.leaf_count)) s.leaf_count
                                frame,
                            success,
                          ))
                          (release-moved x k at many),
                  moved-Written x k at many,
                )
          ]
    ]
  ]
