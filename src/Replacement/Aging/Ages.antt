-- ===== src/Replacement/Aging/Ages.antt =====
-- src/replacement/aging.c: the ages as bit histories, the victim, and the laws of the policy.
use Prim.Native.Nat.{bit_or}
use simulador_memoria_virtua.Base.{
  ◌⊎◌, leb, ℕ, ◌+◌, ◌*◌, ◌/◌, ◌<◌, ◌≤◌, ◌≡◌, refl, Bool, true, false, ◌&&◌, inl, inr, arith,
  Bool-cases, u32_max, to_u32, bit, ltb, ◌==◌, not, count, count_zero, if◌then◌else◌, for_range,
  for_range_inv,
}
use simulador_memoria_virtua.Replacement.Contract.{IsPolicy, invalid_frame}
use simulador_memoria_virtua.Replacement.Aging.{
  AgingState, Youngest, compare_age, choose_victim, aged, tick_frame, tick, operations, on_access,
  on_load, on_evict,
}

abbrev pub is_loaded : AgingState → ℕ → Bool
is_loaded s = s.loaded

-- Every age is a byte.
pub record IsValid (n : ℕ) (s : AgingState) : Type 0 where
  pub bytes : (f : ℕ) → f < n → s.ages f < 256

abbrev pub Ready : AgingState → Type 0
Ready s = Unit {0}

-- No number below 128 has the bit of 128 set, so that setting it adds 128.
abbrev misses_high_bit : ℕ → Bool
misses_high_bit x = not (bit_or x 0x80 == x + 128)

no_miss : count misses_high_bit 128 ≡ 0
unfolding count
no_miss = refl

set_high_bit : (x : ℕ) → x < 128 → bit_or x 0x80 ≡ x + 128
set_high_bit x lt = let hit = count_zero misses_high_bit 128 x no_miss lt in ground arith

-- A tick of a byte: the reference bit comes in at the top, the oldest one drops out.
pub aged_lem :
    (b : Bool) (age : ℕ) → age < 256 → (aged b age ≡ bit b * 128 + age / 2) × (aged b age < 256)
unfolding aged
aged_lem true age byte = let e = set_high_bit (age / 2) (omega arith) in (omega arith, omega arith)
aged_lem false age byte = (omega arith, omega arith)

-- What a tick does to every frame below `i`.
record IsTicked (n : ℕ) (s : AgingState) (i : ℕ) (t : AgingState) : Type 0 where
  loaded : (f : ℕ) → t.loaded f ≡ s.loaded f
  ages :
      (f : ℕ)
      → t.ages f ≡ (if ltb f i && s.loaded f then aged (s.referenced f) (s.ages f) else s.ages f)
  referenced : (f : ℕ) → t.referenced f ≡ (if ltb f i && s.loaded f then false else s.referenced f)

tick-IsTicked : (n : ℕ) (s : AgingState) → IsTicked n s n (tick n s)
unfolding tick tick_frame
tick-IsTicked n s =
    for_range_inv (IsTicked n s) tick_frame n
      (λ i t below c. record {
        loaded = λ f. ground (arith, c.loaded f, c.loaded i);
        ages = λ f. ground (arith, c.loaded i, c.ages f, c.ages i, c.referenced i);
        referenced = λ f. ground (arith, c.loaded i, c.referenced f, c.referenced i);
      })
      n 0 s (omega arith)
      (record { loaded = λ f. refl; ages = λ f. ground arith; referenced = λ f. ground arith })

module _ (n : ℕ) (small : n ≤ u32_max) (s : AgingState) where
  -- What the scan knows of the frames below `i`.
  data IsBest (i : ℕ) (best : Youngest) : Type 0 where
    nothing : best.victim ≡ invalid_frame → ((j : ℕ) → j < i → s.loaded j ≡ false) → IsBest i best
    found :
        best.victim < i
        → s.loaded best.victim ≡ true
        → best.smallest_age ≡ s.ages best.victim
        → ((j : ℕ) → j < i → s.loaded j ≡ true → s.ages best.victim ≤ s.ages j)
        → ((j : ℕ) → j < best.victim → s.loaded j ≡ true → s.ages best.victim < s.ages j)
        → IsBest i best

  compare_age-IsBest :
      (i : ℕ) (best : Youngest) → i < n → IsBest i best → IsBest (i + 1) (compare_age s i best)
  unfolding compare_age
  compare_age-IsBest i best below (nothing e none_loaded) =
      let same : to_u32 i ≡ i = omega arith in
      elim (Bool-cases (s.loaded i)) [
        | inr free ↦ rw free (nothing e (λ j lt. ground (arith, none_loaded j)))
        | inl held ↦
            rw (held, e, same)
              (found (omega arith) held refl (λ j lt el. ground (arith, none_loaded j))
                (λ j lt el. ground (arith, none_loaded j)))
      ]
  compare_age-IsBest i best below (found lt held e least first) =
      let same : to_u32 i ≡ i = omega arith in
      let real : (best.victim == invalid_frame) ≡ false = ground arith in
      elim (Bool-cases (s.loaded i)) [
        | inr free ↦
            rw free (found (omega arith) held e (λ j below' el. ground (arith, least j)) first)
        | inl loaded ↦ elim (Bool-cases (ltb (s.ages i) best.smallest_age)) [
          | inl younger ↦
              rw (loaded, real, younger, same)
                (found (omega arith) loaded refl (λ j below' el. ground (arith, least j))
                  (λ j below' el. ground (arith, least j)))
          | inr older ↦
              rw (loaded, real, older)
                (found (omega arith) held e (λ j below' el. ground (arith, least j)) first)
        ]
      ]

  scan-IsBest :
      IsBest n
        (for_range n 0 (compare_age s) (record { victim = invalid_frame; smallest_age = 0xff }))
  scan-IsBest =
      for_range_inv IsBest (compare_age s) n (λ i best below c. compare_age-IsBest i best below c) n
        0 (record { victim = invalid_frame; smallest_age = 0xff }) (omega arith)
        (nothing refl (λ j lt. absurd (omega arith)))

  -- The victim is the first loaded frame with the smallest age.
  choose_victim_lem :
      (f : ℕ)
      → f < n
      → s.loaded f ≡ true
      → ((choose_victim n s).1 < n)
        × (s.loaded (choose_victim n s).1 ≡ true)
        × ((j : ℕ) → j < n → s.loaded j ≡ true → s.ages (choose_victim n s).1 ≤ s.ages j)
        × ((j : ℕ)
            → j < (choose_victim n s).1
            → s.loaded j ≡ true
            → s.ages (choose_victim n s).1 < s.ages j)
  unfolding choose_victim
  choose_victim_lem f below el = from_best _ scan-IsBest
    where
      from_best :
          (best : Youngest)
          → IsBest n best
          → (best.victim < n)
            × (s.loaded best.victim ≡ true)
            × ((j : ℕ) → j < n → s.loaded j ≡ true → s.ages best.victim ≤ s.ages j)
            × ((j : ℕ) → j < best.victim → s.loaded j ≡ true → s.ages best.victim < s.ages j)
      from_best best (nothing e none_loaded) = absurd (ground (arith, none_loaded f below))
      from_best best (found lt held e least first) = (lt, held, least, first)

  choose_victim-none :
      ((f : ℕ) → f < n → s.loaded f ≡ false) → (choose_victim n s).1 ≡ invalid_frame
  unfolding choose_victim
  choose_victim-none free = from_best _ scan-IsBest
    where
      from_best : (best : Youngest) → IsBest n best → best.victim ≡ invalid_frame
      from_best best (nothing e none_loaded) = e
      from_best best (found lt held e least first) = absurd (ground (arith, free best.victim lt))

module _ (n : ℕ) (small : n ≤ u32_max) where
  -- With at most UINT32_MAX frames, when frame `f` is loaded, the victim of `aging_choose_victim`
  -- is a loaded frame whose age is not greater than that of `f`, and smaller if `f` comes before
  -- the victim.
  pub choose_victim_youngest :
      (s : AgingState) (f : ℕ)
      → f < n
      → s.loaded f ≡ true
      → ((choose_victim n s).1 < n)
        × (s.loaded (choose_victim n s).1 ≡ true)
        × (s.ages (choose_victim n s).1 ≤ s.ages f)
        × ((choose_victim n s).1 ≤ f ⊎ s.ages (choose_victim n s).1 < s.ages f)
  choose_victim_youngest s f below held =
      let (lt, el, least, first) = choose_victim_lem n small s f below held in
      (
        lt,
        el,
        least f below held,
        elim (Bool-cases (leb (choose_victim n s).1 f)) [
          | inl le ↦ inl (ground arith)
          | inr gt ↦ inr (first f (ground arith) held)
        ],
      )

choose_victim-state : (n : ℕ) (s : AgingState) → (choose_victim n s).0 ≡ s
unfolding choose_victim
choose_victim-state n s = refl

module _ (n : ℕ) (s : AgingState) (v : IsValid n s) where
  tick-IsValid : IsValid n (tick n s)
  tick-IsValid = record {
    bytes = λ f lt.
        let t = tick-IsTicked n s in
        ground
          (arith, t.ages f, v.bytes f lt, (aged_lem (s.referenced f) (s.ages f) (v.bytes f lt)).1);
  }

  age_now :
      (f : ℕ)
      → f < n
      → s.loaded f ≡ true
      → (tick n s).ages f ≡ bit (s.referenced f) * 128 + s.ages f / 2
  age_now f below held =
      let t = tick-IsTicked n s in
      ground (arith, t.ages f, (aged_lem (s.referenced f) (s.ages f) (v.bytes f below)).0)

  -- When the ages are bytes, a loaded frame that was referenced has a greater age after
  -- `aging_tick` than any loaded frame that was not.
  tick_referenced :
      (f g : ℕ)
      → f < n
      → g < n
      → s.loaded f ≡ true
      → s.loaded g ≡ true
      → s.referenced f ≡ true
      → s.referenced g ≡ false
      → (tick n s).ages g < (tick n s).ages f
  tick_referenced f g fb gb fl gl used idle =
      ground (arith, age_now f fb fl, age_now g gb gl, v.bytes g gb)

-- Aging keeps the laws of a policy.
pub Aging-IsPolicy : (n : ℕ) → n ≤ u32_max → IsPolicy n (operations n) is_loaded (IsValid n) Ready
unfolding operations on_load on_access on_evict
Aging-IsPolicy n small = record {
  load = λ s f v ready below.
      (refl, record { bytes = λ g lt. ground (arith, v.bytes g lt) }, λ g. ground arith);
  access = λ s f v ready below. elim (Bool-cases (s.loaded f)) [
    | inl held ↦ rw held (refl, record { bytes = v.bytes }, λ g. refl)
    | inr free ↦ rw free (refl, v, λ g. refl)
  ];
  evict = λ s f v ready below. elim (Bool-cases (s.loaded f)) [
    | inl held ↦
        rw held (refl, record { bytes = λ g lt. ground (arith, v.bytes g lt) }, λ g. ground arith)
    | inr free ↦ rw free (refl, v, λ g. ground arith)
  ];
  victim = λ s f v ready below held.
      let (lt, el, least, first) = choose_victim_lem n small s f below held in (lt, el);
  no_victim = λ s v free. choose_victim-none n small s free;
  choice = λ s v. rw (choose_victim-state n s) (v, λ g. refl);
  ticked = λ s v. (tick-IsValid n s v, (tick-IsTicked n s).loaded);
  calm = λ s f r. (tt, tt);
}
