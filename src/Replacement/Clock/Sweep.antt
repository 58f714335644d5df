-- ===== src/Replacement/Clock/Sweep.antt =====
-- src/replacement/clock.c: the hand's turn ends, and which frame it stops at.
use native.Mathlib.Nat.{mod-eq_of_lt, mod_self}
use simulador_memoria_virtua.Base.{
  ℕ, zero, suc, ◌+◌, ◌-◌, ◌*◌, ◌%◌, ◌<◌, ◌≤◌, ◌≡◌, ◌≢◌, ◌⊎◌, refl, true, false, some, inl, inr,
  arith, Bool-cases, update, u32_max, inc64, to_u32, bit, leb, ◌==◌, if◌then◌else◌,
}
use simulador_memoria_virtua.Replacement.Clock.{ClockState, advance, turn}

-- The hand's place after a step.
abbrev pub next_hand : ℕ → ℕ → ℕ
next_hand n h = if h + 1 == n then 0 else h + 1

-- How many steps the hand is from a frame.
unfoldable pub distance : ℕ → ℕ → ℕ → ℕ
distance n h g = if leb h g then g - h else g + n - h

module _ (n : ℕ) (small : n ≤ u32_max) where
  advance-hand : (s : ClockState) → s.hand < n → inc64 s.hand % n ≡ next_hand n s.hand
  advance-hand s below = elim (Bool-cases (s.hand + 1 == n)) [
    | inl last ↦ let e : inc64 s.hand ≡ n = ground arith in rw (e, last) (mod_self n)
    | inr inner ↦
        let e : inc64 s.hand ≡ s.hand + 1 = omega arith in
        rw (e, inner) (mod-eq_of_lt (ground arith))
  ]

  distance_next :
      (h g : ℕ) → h < n → g < n → g ≢ h → distance n (next_hand n h) g + 1 ≡ distance n h g
  unfolding distance
  distance_next h g hb gb ne = ground arith

  distance_self : (h : ℕ) → h < n → distance n (next_hand n h) h + 1 ≡ n
  unfolding distance
  distance_self h hb = ground arith

  pub distance-lt : (h g : ℕ) → h < n → g < n → distance n h g < n
  unfolding distance
  distance-lt h g hb gb = ground arith

  -- The victim is the first loaded frame from the hand on that is not referenced; if every loaded
  -- frame is, the first loaded one.
  abbrev pub IsSecondChance : ClockState → ℕ → Type 0
  IsSecondChance s v =
      (s.referenced v ≡ false)
        × ((g : ℕ)
            → g < n
            → s.loaded g ≡ true
            → distance n s.hand g < distance n s.hand v
            → s.referenced g ≡ true)
      ⊎ ((g : ℕ) → g < n → s.loaded g ≡ true → s.referenced g ≡ true)
        × ((g : ℕ) → g < n → s.loaded g ≡ true → distance n s.hand v ≤ distance n s.hand g)

  pub record Chosen (s : ClockState) (r : ClockState × ℕ) : Type 0 where
    pub below : r.1 < n
    pub held : s.loaded r.1 ≡ true
    pub kept : (g : ℕ) → r.0.loaded g ≡ s.loaded g
    pub in_range : r.0.hand < n
    pub fair : IsSecondChance s r.1

  -- The state after the reference bit under the hand was cleared.
  abbrev cleared : ClockState → ClockState
  cleared s = record (advance n s) { referenced = update s.referenced s.hand false }

  step_far :
      (s : ClockState) (g : ℕ)
      → s.hand < n
      → g < n
      → g ≢ s.hand
      → distance n (advance n s).hand g + 1 ≡ distance n s.hand g
  step_far s g hb gb ne = rw (advance-hand s hb) (distance_next s.hand g hb gb ne)

  step_self : (s : ClockState) → s.hand < n → distance n (advance n s).hand s.hand + 1 ≡ n
  step_self s hb = rw (advance-hand s hb) (distance_self s.hand hb)

  step_in_range : (s : ClockState) → s.hand < n → (advance n s).hand < n
  step_in_range s hb = rw (advance-hand s hb) (ground arith)

  -- The three steps of the loop, from what is known of the rest of the turn.
  skip-Chosen :
      (s : ClockState) (r : ClockState × ℕ)
      → s.hand < n
      → s.loaded s.hand ≡ false
      → Chosen (advance n s) r
      → Chosen s r
  skip-Chosen s r hb empty c =
      let far =
        λ (g : ℕ) (gb : g < n) (el : s.loaded g ≡ true). step_far s g hb gb (λ e. ground arith) in
      record {
        below = c.below;
        held = c.held;
        kept = c.kept;
        in_range = c.in_range;
        fair = elim c.fair [
          | inl (clear, passed) ↦ inl (
            clear,
            λ g gb el near. passed g gb el (omega (arith, far g gb el, far r.1 c.below c.held)),
          )
          | inr (all, first) ↦
              inr
                (all, λ g gb el. omega (arith, first g gb el, far g gb el, far r.1 c.below c.held))
        ];
      }

  at_hand : (h : ℕ) → distance n h h ≡ 0
  unfolding distance
  at_hand h = ground arith

  clear-IsSecondChance :
      (s : ClockState) (v : ℕ)
      → s.hand < n
      → v < n
      → s.loaded v ≡ true
      → s.loaded s.hand ≡ true
      → s.referenced s.hand ≡ true
      → IsSecondChance (cleared s) v
      → IsSecondChance s v
  clear-IsSecondChance s v hb vb held full used (inr (all, first)) =
      absurd (ground (arith, all s.hand hb full))
  clear-IsSecondChance s v hb vb held full used (inl (clear, passed)) =
      elim (Bool-cases (v == s.hand)) [
        | inl back ↦ inr (
          λ g gb el. elim (Bool-cases (g == s.hand)) [
            | inl same ↦ ground arith
            | inr other ↦ ground (
              arith,
              passed g gb el,
              step_far s g hb gb,
              step_self s hb,
              distance-lt s.hand g hb gb,
            )
          ],
          λ g gb el. ground (arith, at_hand s.hand),
        )
        | inr front ↦ inl (
          ground arith,
          λ g gb el near. elim (Bool-cases (g == s.hand)) [
            | inl same ↦ ground arith
            | inr other ↦ ground (arith, passed g gb el, step_far s g hb gb, step_far s v hb vb)
          ],
        )
      ]

  clear-Chosen :
      (s : ClockState) (r : ClockState × ℕ)
      → s.hand < n
      → s.loaded s.hand ≡ true
      → s.referenced s.hand ≡ true
      → Chosen (cleared s) r
      → Chosen s r
  clear-Chosen s r hb full used c = record {
    below = c.below;
    held = c.held;
    kept = c.kept;
    in_range = c.in_range;
    fair = clear-IsSecondChance s r.1 hb c.below c.held full used c.fair;
  }

  stop-Chosen :
      (s : ClockState)
      → s.hand < n
      → s.loaded s.hand ≡ true
      → s.referenced s.hand ≡ false
      → Chosen s (advance n s, s.hand)
  unfolding distance
  stop-Chosen s hb full idle = record {
    below = hb;
    held = full;
    kept = λ g. refl;
    in_range = rw (advance-hand s hb) (ground arith);
    fair = inl (idle, λ g gb el near. absurd (ground arith));
  }

  pub turn-Chosen :
      (fuel t : ℕ) (s : ClockState)
      → s.hand < n
      → t < n
      → s.loaded t ≡ true
      → bit (s.referenced t) * n + distance n s.hand t < fuel
      → (r : ClockState × ℕ) × (turn fuel n s ≡ some r) × Chosen s r
  unfolding turn
  turn-Chosen zero t s hb tb lt enough = absurd (omega arith)
  turn-Chosen (suc fuel) t s hb tb lt enough = elim (Bool-cases (s.loaded s.hand)) [
    | inr empty ↦
        let (r, e, c) =
          turn-Chosen fuel t (advance n s) (step_in_range s hb) tb lt
            (ground (arith, step_far s t hb tb)) in
        (r, ground (arith, e), skip-Chosen s r hb empty c)
    | inl full ↦ elim (Bool-cases (s.referenced s.hand)) [
      | inl used ↦
          let (r, e, c) =
            turn-Chosen fuel t (cleared s) (step_in_range s hb) tb lt
              (ground (arith, step_far s t hb tb, step_self s hb, at_hand s.hand)) in
          (r, ground (arith, e), clear-Chosen s r hb full used c)
      | inr idle ↦
          let same : to_u32 s.hand ≡ s.hand = omega arith in
          ((advance n s, s.hand), ground (arith, same), stop-Chosen s hb full idle)
    ]
  ]
