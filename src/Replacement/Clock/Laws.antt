-- ===== src/Replacement/Clock/Laws.antt =====
-- src/replacement/clock.c: the choice of a victim always ends, and the laws of the policy.
use simulador_memoria_virtua.Base.{
  ℕ, ◌*◌, ◌<◌, ◌≤◌, ◌≡◌, refl, Bool, true, false, some, inl, inr, arith, Bool-cases, u32_max, inc64,
  ◌==◌, if◌then◌else◌, for_range_inv, count, count-suc, count-le, count_pos, count_none, find,
  find-some, find-none, Option-cases,
}
use simulador_memoria_virtua.Replacement.Contract.{IsPolicy, invalid_frame}
use simulador_memoria_virtua.Replacement.Clock.{
  ClockState, turn, loaded_count, choose_victim, operations,
}
use simulador_memoria_virtua.Replacement.Clock.Sweep.{Chosen, turn-Chosen, distance-lt}

abbrev pub is_loaded : ClockState → ℕ → Bool
is_loaded s = s.loaded

-- The hand points at a frame.
pub record IsValid (n : ℕ) (s : ClockState) : Type 0 where
  pub in_range : s.hand < n

abbrev pub Ready : ClockState → Type 0
Ready s = Unit {0}

module _ (n : ℕ) (small : n ≤ u32_max) where
  loaded_count_lem : (s : ClockState) → loaded_count n s ≡ count s.loaded n
  unfolding loaded_count count
  loaded_count_lem s =
      for_range_inv (λ i (k : ℕ). k ≡ count s.loaded i)
        (λ index k. if s.loaded index then inc64 k else k) n
        (λ i k lt e. ground (arith, count-suc s.loaded i, count-le s.loaded i)) n 0 0 (omega arith)
        refl

  -- When the hand points at a frame and some frame is loaded, the loop of `clock_choose_victim`
  -- ends within two turns of the hand. The frame that it returns is loaded, and it is the first
  -- loaded frame from the hand on that was not referenced, or, if every loaded frame was
  -- referenced, the first loaded one. The loaded frames stay as they are, and the hand still
  -- points at a frame.
  pub choose_victim-Chosen :
      (s : ClockState) (t : ℕ)
      → IsValid n s
      → t < n
      → s.loaded t ≡ true
      → (turn (2 * n) n s ≡ some (choose_victim n s)) × Chosen n small s (choose_victim n s)
  unfolding choose_victim
  choose_victim-Chosen s t valid below held =
      let positive = count_pos s.loaded n t below held in
      let near = distance-lt n small s.hand t valid.in_range below in
      let (r, e, c) = turn-Chosen n small (2 * n) t s valid.in_range below held (ground arith) in
      let not_empty : (loaded_count n s == 0) ≡ false = ground (arith, loaded_count_lem s) in
      rw (not_empty, e) (refl, c)

  choose_victim-none :
      (s : ClockState)
      → ((f : ℕ) → f < n → s.loaded f ≡ false)
      → choose_victim n s ≡ (s, invalid_frame)
  unfolding choose_victim
  choose_victim-none s free = ground (arith, loaded_count_lem s, count_none s.loaded n free)

  choose_victim-IsValid :
      (s : ClockState)
      → IsValid n s
      → IsValid n (choose_victim n s).0 × ((g : ℕ) → (choose_victim n s).0.loaded g ≡ s.loaded g)
  choose_victim-IsValid s valid = elim (Option-cases (find s.loaded n)) [
    | inl empty ↦
        rw (choose_victim-none s (λ f lt. find-none s.loaded n f empty lt)) (valid, λ g. refl)
    | inr (t, found) ↦
        let (below, held) = find-some s.loaded n t found in
        let (ended, c) = choose_victim-Chosen s t valid below held in
        (record { in_range = c.in_range }, c.kept)
  ]

  -- The clock keeps the laws of a policy.
  pub Clock-IsPolicy : IsPolicy n (operations n) is_loaded (IsValid n) Ready
  unfolding operations
  Clock-IsPolicy = record {
    load = λ s f v ready below. (refl, record { in_range = v.in_range }, λ g. ground arith);
    access = λ s f v ready below. elim (Bool-cases (s.loaded f)) [
      | inl held ↦ rw held (refl, record { in_range = v.in_range }, λ g. refl)
      | inr free ↦ rw free (refl, v, λ g. refl)
    ];
    evict = λ s f v ready below. elim (Bool-cases (s.loaded f)) [
      | inl held ↦ rw held (refl, record { in_range = v.in_range }, λ g. ground arith)
      | inr free ↦ rw free (refl, v, λ g. ground arith)
    ];
    victim = λ s f v ready below held.
        let (ended, c) = choose_victim-Chosen s f v below held in (c.below, c.held);
    no_victim = λ s v free. rw (choose_victim-none s free) refl;
    choice = λ s v. choose_victim-IsValid s v;
    ticked = λ s v. (v, λ g. refl);
    calm = λ s f r. (tt, tt);
  }
