-- ===== src/Base/Scan.antt =====
-- The scan for the least key among the eligible indices, as the caches and policies write it.
use Prim.Native.Nat.{ℕ, ◌+◌, ◌≤◌, ◌<◌}
use mathlib.Core.Path.{◌≡◌, refl, subst}
use mathlib.Core.Bool.{Bool, true, ◌&&◌}
use mathlib.Core.Option.{Option, none, some}
use mathlib.Core.Logic.{inl, inr}
use native.Mathlib.Omega.{arith}
use simulador_memoria_virtua.Base.Tests.{if◌then◌else◌, Bool-cases, ltb}
use simulador_memoria_virtua.Base.Word.{u64_max}
use simulador_memoria_virtua.Base.Loop.{for_range, for_range_inv}

-- The variables `victim` and `oldest_access`.
pub record Scan : Type 0 where
  pub victim : Option ℕ
  pub least : ℕ

module _ (eligible : ℕ → Bool) (key : ℕ → ℕ) where
  unfoldable pub scan_step : ℕ → Scan → Scan
  scan_step index s =
      if eligible index && ltb (key index) s.least
      then record { victim = some index; least = key index }
      else s

  -- The index of the first least key below UINT64_MAX.
  unfoldable pub oldest : ℕ → Option ℕ
  unfolding for_range scan_step
  oldest n = (for_range n 0 scan_step (record { victim = none; least = u64_max })).victim

  -- What is known of the indices below `i`.
  data Scanned (i : ℕ) (s : Scan) : Type 0 where
    nothing :
        s.victim ≡ none
        → s.least ≡ u64_max
        → ((j : ℕ) → j < i → eligible j ≡ true → u64_max ≤ key j)
        → Scanned i s
    found :
        (v : ℕ)
        → s.victim ≡ some v
        → s.least ≡ key v
        → v < i
        → eligible v ≡ true
        → ((j : ℕ) → j < i → eligible j ≡ true → key v ≤ key j)
        → ((j : ℕ) → j < v → eligible j ≡ true → key v < key j)
        → Scanned i s

  scan_step-Scanned : (i : ℕ) (s : Scan) → Scanned i s → Scanned (i + 1) (scan_step i s)
  unfolding scan_step
  scan_step-Scanned i s (nothing e l h) = elim (Bool-cases (eligible i && ltb (key i) s.least)) [
    | inl hit ↦ rw hit (
        found i refl refl (omega arith) (ground arith) (λ j lt el. ground (arith, h j))
          (λ j lt el. ground (arith, h j)))
    | inr miss ↦ rw miss (nothing e l (λ j lt el. ground (arith, h j)))
  ]
  scan_step-Scanned i s (found v e l lt el h first) =
      elim (Bool-cases (eligible i && ltb (key i) s.least)) [
        | inl hit ↦ rw hit (
            found i refl refl (omega arith) (ground arith) (λ j below el'. ground (arith, h j))
              (λ j below el'. ground (arith, h j)))
        | inr miss ↦
            rw miss (found v e l (omega arith) el (λ j below el'. ground (arith, h j)) first)
      ]

  scan-Scanned :
      (n : ℕ) → Scanned n (for_range n 0 scan_step (record { victim = none; least = u64_max }))
  scan-Scanned n =
      for_range_inv Scanned scan_step n (λ i s below c. scan_step-Scanned i s c) n 0 _ (omega arith)
        (nothing refl refl (λ j lt el. absurd (omega arith)))

  -- The result is the first eligible index with the least key.
  pub oldest-some :
      (n v : ℕ)
      → oldest n ≡ some v
      → (v < n)
        × (eligible v ≡ true)
        × ((j : ℕ) → j < n → eligible j ≡ true → key v ≤ key j)
        × ((j : ℕ) → j < v → eligible j ≡ true → key v < key j)
  unfolding oldest
  oldest-some n v e = go _ (scan-Scanned n) e
    where
      go :
          (s : Scan)
          → Scanned n s
          → s.victim ≡ some v
          → (v < n)
            × (eligible v ≡ true)
            × ((j : ℕ) → j < n → eligible j ≡ true → key v ≤ key j)
            × ((j : ℕ) → j < v → eligible j ≡ true → key v < key j)
      go s (nothing e' l h) e = absurd (cc)
      go s (found w e' l lt el h first) e =
          let same : w ≡ v = ground arith in
          subst
            (λ w.
              (w < n)
              × (eligible w ≡ true)
              × ((j : ℕ) → j < n → eligible j ≡ true → key w ≤ key j)
              × ((j : ℕ) → j < w → eligible j ≡ true → key w < key j))
            same (lt, el, h, first)

  -- An eligible index with a key below UINT64_MAX is enough for a result.
  pub oldest_total :
      (n j : ℕ) → j < n → eligible j ≡ true → key j < u64_max → (v : ℕ) × (oldest n ≡ some v)
  unfolding oldest
  oldest_total n j lt el small = go _ (scan-Scanned n)
    where
      go : (s : Scan) → Scanned n s → (v : ℕ) × (s.victim ≡ some v)
      go s (nothing e l h) = absurd (omega (arith, h j lt el))
      go s (found v e l lt' el' h first) = (v, e)

  pub oldest-none : (n j : ℕ) → oldest n ≡ none → j < n → eligible j ≡ true → u64_max ≤ key j
  unfolding oldest
  oldest-none n j e lt el = go _ (scan-Scanned n) e
    where
      go : (s : Scan) → Scanned n s → s.victim ≡ none → u64_max ≤ key j
      go s (nothing e' l h) e = h j lt el
      go s (found v e' l lt' el' h first) e = absurd (cc)
