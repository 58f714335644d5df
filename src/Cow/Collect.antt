-- ===== src/Cow/Collect.antt =====
-- src/cow.c: what `cow_manager_collect_frame_mappings` writes and returns.
use mathlib.Core.List.{List, [], ◌∷◌}
use simulador_memoria_virtua.Base.{
  ℕ, zero, suc, ◌+◌, ◌-◌, ◌<◌, ◌≤◌, ◌≡◌, ◌&&◌, some, inl, inr, arith, Bool-cases, u64_max, inc64,
  update, leb, ltb, ◌==◌, if◌then◌else◌,
}
use simulador_memoria_virtua.Cow.{
  CowMapping, CowManager, store, collect_from, collect_frame_mappings, mapping_count,
}
use simulador_memoria_virtua.Cow.Mappings.{length, count_from-length}
use simulador_memoria_virtua.Cow.Set.{HasRoom}

-- The `i`-th pair of a list, and what stands elsewhere in its place.
unfoldable pub get_or : List CowMapping → ℕ → CowMapping → CowMapping
get_or [] i old = old
get_or (x ∷ xs) zero old = x
get_or (x ∷ xs) (suc i) old = get_or xs i old

-- The cells after the pairs of a list were written from cell `count` on.
abbrev pub written : List CowMapping → (ℕ → CowMapping) → (count capacity : ℕ) → ℕ → CowMapping
written xs cells count capacity i =
    if leb count i && ltb i capacity then get_or xs (i - count) (cells i) else cells i

collect_from-written :
    (xs : List CowMapping) (cells : ℕ → CowMapping) (count capacity : ℕ)
    → count + length xs ≤ u64_max
    → (after : ℕ → CowMapping) × (collect_from xs (some cells) count capacity
        ≡ (some after, count + length xs))
      × ((i : ℕ) → after i ≡ written xs cells count capacity i)
unfolding collect_from store length get_or
collect_from-written [] cells count capacity fits = (cells, ground arith, λ i. ground arith)
collect_from-written (x ∷ xs) cells count capacity fits =
    let e : inc64 count ≡ count + 1 = omega arith in
    let now : ℕ → CowMapping = if ltb count capacity then update cells count x else cells in
    let (after, same, h) = collect_from-written xs now (count + 1) capacity (omega arith) in
    (
      after,
      ground (arith, e, same),
      λ i. elim (Bool-cases (i == count)) [
        | inl here ↦ let first : i - count ≡ 0 = ground arith in rw first (ground (arith, h i))
        | inr other ↦ elim (Bool-cases (leb count i)) [
          | inl behind ↦
              let next : i - count ≡ suc (i - (count + 1)) = ground arith in
              rw next (ground (arith, h i))
          | inr before ↦ ground (arith, h i)
        ]
      ],
    )

-- When the frame is in the table and its list can be counted,
-- `cow_manager_collect_frame_mappings` returns what `cow_manager_mapping_count` returns, and
-- fills the caller's array with the frame's pairs in the order of the list, as far as the
-- capacity allows; the other cells of the array keep their values.
collect_frame_mappings_lem :
    (m : CowManager) (f : ℕ) (cells : ℕ → CowMapping) (capacity : ℕ)
    → f < m.frame_count
    → HasRoom m f
    → (after : ℕ → CowMapping) × (collect_frame_mappings m f (some cells) capacity
        ≡ (some after, mapping_count m f))
      × ((i : ℕ) → after i ≡ (if ltb i capacity then get_or (m.frames f) i (cells i) else cells i))
unfolding collect_frame_mappings mapping_count
collect_frame_mappings_lem m f cells capacity below room =
    let (after, same, h) = collect_from-written (m.frames f) cells 0 capacity (omega arith) in
    (
      after,
      ground (arith, same, count_from-length (m.frames f) 0 (omega arith)),
      λ i. ground (arith, h i),
    )
