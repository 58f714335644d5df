-- ===== src/Base/Loop.antt =====
-- The counted loops of the program: `for (i = 0; i < n; i++)` that returns at the first index that
-- passes a test, and the number of indices that pass one.
use Prim.Native.Nat.{ℕ, zero, suc, ◌+◌, ◌≤◌, ◌<◌}
use mathlib.Core.Path.{◌≡◌, refl, ap}
use mathlib.Core.Logic.{◌≢◌, inl, inr}
use mathlib.Core.Bool.{Bool, true, false}
use mathlib.Core.Option.{Option, none, some}
use native.Mathlib.Decide.{ℕ_discrete}
use native.Mathlib.Numerals.{add-one}
use native.Mathlib.Omega.{arith}
use simulador_memoria_virtua.Base.Tests.{if◌then◌else◌, Bool-cases, Option-cases}

-- `find_from p n i` runs at most `n` rounds, from index `i`.
unfoldable pub find_from : (ℕ → Bool) → ℕ → ℕ → Option ℕ
find_from p zero i = none
find_from p (suc n) i = if p i then some i else find_from p n (i + 1)

unfoldable pub find : (ℕ → Bool) → ℕ → Option ℕ
unfolding find_from
find p n = find_from p n 0

abbrev pub bit : Bool → ℕ
bit true = 1
bit false = 0

-- How many indices below `n` pass the test.
unfoldable pub count : (ℕ → Bool) → ℕ → ℕ
count p zero = 0
count p (suc n) = bit (p n) + count p n

module _ (p : ℕ → Bool) where
  find_from-some : (n i k : ℕ) → find_from p n i ≡ some k → (i ≤ k) × (k < i + n) × (p k ≡ true)
  unfolding find_from
  find_from-some zero i k h = absurd (cc)
  find_from-some (suc n) i k h = ground (arith, find_from-some n (i + 1) k)

  find_from_first : (n i k j : ℕ) → find_from p n i ≡ some k → i ≤ j → j < k → p j ≡ false
  unfolding find_from
  find_from_first zero i k j h lo hi = absurd (cc)
  find_from_first (suc n) i k j h lo hi = ground (arith, find_from_first n (i + 1) k j)

  find_from-none : (n i j : ℕ) → find_from p n i ≡ none → i ≤ j → j < i + n → p j ≡ false
  unfolding find_from
  find_from-none zero i j h lo hi = absurd (omega arith)
  find_from-none (suc n) i j h lo hi = ground (arith, find_from-none n (i + 1) j)

  pub find-some : (n k : ℕ) → find p n ≡ some k → (k < n) × (p k ≡ true)
  unfolding find
  find-some n k h = ground (arith, find_from-some n 0 k)

  pub find_first : (n k j : ℕ) → find p n ≡ some k → j < k → p j ≡ false
  unfolding find
  find_first n k j h lt = ground (arith, find_from_first n 0 k j)

  pub find-none : (n j : ℕ) → find p n ≡ none → j < n → p j ≡ false
  unfolding find
  find-none n j h lt = ground (arith, find_from-none n 0 j)

  -- A loop whose test passes somewhere returns.
  pub find-ne-none : (n j : ℕ) → j < n → p j ≡ true → (k : ℕ) × (find p n ≡ some k)
  find-ne-none n j lt h = elim (Option-cases (find p n)) [
    | inl miss ↦ absurd (ground (arith, find-none n j miss))
    | inr found ↦ found
  ]

  pub count_all : (n : ℕ) → ((j : ℕ) → j < n → p j ≡ true) → count p n ≡ n
  unfolding count
  count_all zero h = refl
  count_all (suc n) h = ground (arith, h n (omega arith), count_all n (λ j lt. h j (omega arith)))

  pub count_none : (n : ℕ) → ((j : ℕ) → j < n → p j ≡ false) → count p n ≡ 0
  unfolding count
  count_none zero h = refl
  count_none (suc n) h = ground (arith, h n (omega arith), count_none n (λ j lt. h j (omega arith)))

  pub count-le : (n : ℕ) → count p n ≤ n
  unfolding count
  count-le zero = omega arith
  count-le (suc n) = ground (arith, count-le n)

  pub count_pos : (n j : ℕ) → j < n → p j ≡ true → 0 < count p n
  unfolding count
  count_pos zero j lt h = absurd (omega arith)
  count_pos (suc n) j lt h = ground (arith, count_pos n j)

  pub count_two : (n i j : ℕ) → i < n → j < n → i ≢ j → p i ≡ true → p j ≡ true → 2 ≤ count p n
  unfolding count
  count_two zero i j lti ltj ne hi hj = absurd (omega arith)
  count_two (suc n) i j lti ltj ne hi hj = elim (ℕ_discrete n i) [
    | yes e ↦ ground (arith, count_pos n j)
    | no other ↦ elim (ℕ_discrete n j) [
      | yes e ↦ ground (arith, count_pos n i)
      | no another ↦ ground (arith, count_two n i j)
    ]
  ]

  pub count_zero : (n j : ℕ) → count p n ≡ 0 → j < n → p j ≡ false
  count_zero n j z lt = elim (Bool-cases (p j)) [
    | inl h ↦ absurd (omega (arith, count_pos n j lt h))
    | inr h ↦ h
  ]

  -- A positive count is found by the loop.
  pub find_of_count : (n : ℕ) → 0 < count p n → (k : ℕ) × (find p n ≡ some k)
  find_of_count n h = elim (Option-cases (find p n)) [
    | inl miss ↦ absurd (omega (arith, count_none n (λ j lt. find-none n j miss lt)))
    | inr found ↦ found
  ]

module _ (p q : ℕ → Bool) where
  pub count-congr : (n : ℕ) → ((j : ℕ) → j < n → p j ≡ q j) → count p n ≡ count q n
  unfolding count
  count-congr zero h = refl
  count-congr (suc n) h = rw (h n (omega arith), count-congr n (λ j lt. h j (omega arith)))

  find_from-congr :
      (n i : ℕ) → ((j : ℕ) → i ≤ j → j < i + n → p j ≡ q j) → find_from p n i ≡ find_from q n i
  unfolding find_from
  find_from-congr zero i h = refl
  find_from-congr (suc n) i h = ground (
    arith,
    h i (omega arith) (omega arith),
    find_from-congr n (i + 1) (λ j lo hi. h j (omega arith) (omega arith)),
  )

  pub find-congr : (n : ℕ) → ((j : ℕ) → j < n → p j ≡ q j) → find p n ≡ find q n
  unfolding find
  find-congr n h = find_from-congr n 0 (λ j lo hi. h j (omega arith))

-- A test that splits in two is counted in two parts.
pub count_split :
    (p q r : ℕ → Bool) (n : ℕ)
    → ((j : ℕ) → j < n → bit (p j) ≡ bit (q j) + bit (r j))
    → count p n ≡ count q n + count r n
unfolding count
count_split p q r zero h = refl
count_split p q r (suc n) h =
    omega (arith, h n (omega arith), count_split p q r n (λ j lt. h j (omega arith)))

-- Changing a test at one index changes the count by that index alone.
pub count_change :
    (p q : ℕ → Bool) (n i : ℕ)
    → i < n
    → ((j : ℕ) → j ≢ i → p j ≡ q j)
    → count p n + bit (q i) ≡ count q n + bit (p i)
unfolding count
count_change p q zero i lt h = absurd (omega arith)
count_change p q (suc n) i lt h = elim (ℕ_discrete n i) [
  | yes e ↦
      let same = count-congr p q n (λ j below. h j (omega arith)) in rw (← e, same) (omega arith)
  | no ne ↦ omega (arith, count_change p q n i (omega arith) h, ap bit (h n ne))
]

-- `for (index = first; index < first + rounds; index++) state = body index state`
unfoldable pub for_range {ℓ} : {S : Type ℓ} → (rounds first : ℕ) → (body : ℕ → S → S) → S → S
for_range zero first body state = state
for_range (suc rounds) first body state = for_range rounds (first + 1) body (body first state)

-- What the body keeps from one index to the next, up to `last`, holds after the loop.
pub for_range_inv {ℓ κ} :
    {S : Type ℓ} (Kept : ℕ → S → Type κ) (body : ℕ → S → S) (last : ℕ)
    → ((index : ℕ) (state : S)
        → index < last
        → Kept index state
        → Kept (index + 1) (body index state))
    → (rounds first : ℕ) (state : S) → first + rounds ≡ last
    → Kept first state
    → Kept last (for_range rounds first body state)
unfolding for_range
for_range_inv Kept body last keep zero first state total start =
    let here : first ≡ last = omega arith in rw (← here) start
for_range_inv Kept body last keep (suc rounds) first state total start =
    for_range_inv Kept body last keep rounds (first + 1) (body first state) (omega arith)
      (keep first state (omega arith) start)

pub count-suc : (p : ℕ → Bool) (n : ℕ) → count p (n + 1) ≡ bit (p n) + count p n
unfolding count
count-suc p n = rw add-one

-- More indices, none of which passes, do not change the count.
pub count_extend :
    (p : ℕ → Bool) (n m : ℕ)
    → ((j : ℕ) → n ≤ j → j < n + m → p j ≡ false)
    → count p (n + m) ≡ count p n
unfolding count
count_extend p n zero h = let e : n + zero ≡ n = omega arith in rw e refl
count_extend p n (suc m) h =
    let e : n + suc m ≡ suc (n + m) = omega arith in
    rw e (
      ground (
        arith,
        h (n + m) (omega arith) (omega arith),
        count_extend p n m (λ j lo hi. h j lo (omega arith)),
      ))
