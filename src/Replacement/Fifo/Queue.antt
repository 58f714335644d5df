-- ===== src/Replacement/Fifo/Queue.antt =====
-- src/replacement/fifo.c: the array and its size, seen as a list, oldest frame first.
use mathlib.Core.List.{List, [], ◌∷◌, ◌++◌}
use native.Mathlib.Decide.{ℕ_discrete}
use native.Mathlib.Nat.{add-zero}
use simulador_memoria_virtua.Base.{
  ℕ, zero, suc, ◌+◌, ◌-◌, ◌<◌, ◌≤◌, ◌≡◌, ◌≢◌, refl, arith, ap, ◌∙◌, ◌&&◌, update, leb, ltb, ◌==◌,
  if◌then◌else◌, for_range_inv,
}
use simulador_memoria_virtua.Replacement.Fifo.{FifoState, shift_down}

-- The `n` cells of the array from index `i`.
unfoldable pub listed : (ℕ → ℕ) → (i n : ℕ) → List ℕ
listed queue i zero = []
listed queue i (suc n) = queue i ∷ listed queue (i + 1) n

-- The list without the first occurrence of a frame.
unfoldable pub remove : ℕ → List ℕ → List ℕ
remove f [] = []
remove f (g ∷ gs) = if g == f then gs else g ∷ remove f gs

-- The frames of the queue.
abbrev pub frames : FifoState → List ℕ
frames s = listed s.queue 0 s.size

module _ (q r : ℕ → ℕ) where
  pub listed-congr :
      (n i : ℕ) → ((j : ℕ) → i ≤ j → j < i + n → q j ≡ r j) → listed q i n ≡ listed r i n
  unfolding listed
  listed-congr zero i h = refl
  listed-congr (suc n) i h = ground (
    arith,
    h i (omega arith) (omega arith),
    listed-congr n (i + 1) (λ j lo hi. h j (omega arith) (omega arith)),
  )

  listed-next :
      (n i : ℕ)
      → ((j : ℕ) → i ≤ j → j < i + n → r j ≡ q (j + 1))
      → listed r i n ≡ listed q (i + 1) n
  unfolding listed
  listed-next zero i h = refl
  listed-next (suc n) i h = ground (
    arith,
    h i (omega arith) (omega arith),
    listed-next n (i + 1) (λ j lo hi. h j (omega arith) (omega arith)),
  )

  -- `r` is `q` with the cell at `p` taken out and the later ones moved down.
  pub listed-remove :
      (n i p : ℕ)
      → i ≤ p
      → p < i + suc n
      → ((j : ℕ) → i ≤ j → j < p → (r j ≡ q j) × (q j ≢ q p))
      → ((j : ℕ) → p ≤ j → j < i + n → r j ≡ q (j + 1))
      → listed r i n ≡ remove (q p) (listed q i (suc n))
  unfolding listed remove
  listed-remove zero i p lo hi before behind = let here : i ≡ p = omega arith in ground arith
  listed-remove (suc n) i p lo hi before behind = elim (ℕ_discrete i p) [
    | yes here ↦
        ground (arith, listed-next (suc n) i (λ j below above. behind j (omega arith) above))
    | no later ↦ ground (
      arith,
      before i (omega arith) (omega arith),
      listed-remove n (i + 1) p (omega arith) (omega arith)
          (λ j below above. before j (omega arith) above)
          (λ j below above. behind j below (omega arith)),
    )
  ]

pub listed-snoc : (q : ℕ → ℕ) (n i : ℕ) → listed q i (suc n) ≡ listed q i n ++ q (i + n) ∷ []
unfolding listed
listed-snoc q zero i = rw add-zero refl
listed-snoc q (suc n) i =
    ap (◌∷◌ (q i))
      (listed-snoc q n (i + 1) ∙ ap (λ (k : ℕ). listed q (i + 1) n ++ q k ∷ []) (omega arith))

-- What the loop of `fifo_on_evict` leaves.
pub shift_down_lem :
    (q : ℕ → ℕ) (position size j : ℕ)
    → position < size
    → shift_down q position size j ≡ (if leb position j && ltb j (size - 1) then q (j + 1) else q j)
unfolding shift_down
shift_down_lem q position size j lt =
    (for_range_inv
        (λ k (r : ℕ → ℕ).
          (position ≤ k) × ((j : ℕ) → r j ≡ (if leb position j && ltb j k then q (j + 1) else q j)))
        (λ index r. update r index (r (index + 1))) (size - 1)
        (λ i r below (lo, h). (omega arith, λ j. ground (arith, h j, h (i + 1))))
        (size - 1 - position) position q (omega arith) (omega arith, λ j. ground arith)).1
      j
