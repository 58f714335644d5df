-- ===== src/Replacement/Lru/Recency.antt =====
-- src/replacement/lru.c: the laws of the policy, and that its victim was used least recently.
use native.Mathlib.Decide.{ℕ_discrete}
use simulador_memoria_virtua.Base.{
  ◌⊎◌, ℕ, ◌<◌, ◌≤◌, ◌≡◌, ◌≢◌, refl, Bool, true, false, inl, inr, arith, Bool-cases, Option-cases,
  update, u32_max, u64_max, to_u32, oldest, oldest-some, oldest_total, ◌==◌, if◌then◌else◌,
}
use simulador_memoria_virtua.Replacement.Contract.{IsPolicy, invalid_frame}
use simulador_memoria_virtua.Replacement.Lru.{
  LruState, update_access, on_load, on_evict, choose_victim, operations,
}

abbrev pub is_loaded : LruState → ℕ → Bool
is_loaded s = s.loaded

-- No frame was used later than now, and no two loaded frames at the same time.
pub record IsValid (n : ℕ) (s : LruState) : Type 0 where
  pub past : (f : ℕ) → f < n → s.last_access f ≤ s.logical_clock
  pub ordered :
      (f g : ℕ)
      → f < n
      → g < n
      → s.loaded f ≡ true
      → s.loaded g ≡ true
      → s.last_access f ≡ s.last_access g
      → f ≡ g

abbrev pub Ready : LruState → Type 0
Ready s = s.logical_clock < u64_max

load_set :
    (s : LruState) (f g : ℕ)
    → is_loaded (on_load s f).0 g ≡ (if g == f then true else is_loaded s g)
unfolding on_load
load_set s f g = ground arith

access_set : (s : LruState) (f g : ℕ) → is_loaded (update_access s f) g ≡ is_loaded s g
unfolding update_access
access_set s f g = refl

evict_clock : (s : LruState) (f : ℕ) → Ready s → Ready (on_evict s f).0
unfolding on_evict
evict_clock s f ready = ground arith

module _ (n : ℕ) (small : n ≤ u32_max) where
  choose_victim_lem :
      (s : LruState) (f : ℕ)
      → IsValid n s
      → Ready s
      → f < n
      → s.loaded f ≡ true
      → (v : ℕ) × (choose_victim n s ≡ (s, v))
        × (v < n)
        × (s.loaded v ≡ true)
        × ((g : ℕ) → g < n → s.loaded g ≡ true → g ≢ v → s.last_access v < s.last_access g)
  unfolding choose_victim
  choose_victim_lem s f valid ready below held =
      let (v, found) =
        oldest_total s.loaded s.last_access n f below held (omega (arith, valid.past f below)) in
      let (v_below, v_held, least, first) = oldest-some s.loaded s.last_access n v found in
      let same : to_u32 v ≡ v = omega arith in
      (
        v,
        ground (arith, found, same),
        v_below,
        v_held,
        λ g lt el ne. ground (arith, least g lt el, valid.ordered g v lt v_below),
      )

  -- In a valid state whose clock can tick, with at most UINT32_MAX frames, when frame `f` is
  -- loaded, the victim of `lru_choose_victim` is a loaded frame, and `f` is the victim or was
  -- used after it.
  pub choose_victim_oldest :
      (s : LruState) (f : ℕ)
      → IsValid n s
      → Ready s
      → f < n
      → s.loaded f ≡ true
      → ((choose_victim n s).1 < n)
        × (s.loaded (choose_victim n s).1 ≡ true)
        × ((f ≡ (choose_victim n s).1) ⊎ (s.last_access (choose_victim n s).1 < s.last_access f))
  choose_victim_oldest s f valid ready below held =
      let (v, e, lt, loaded, first) = choose_victim_lem s f valid ready below held in
      rw e (
        lt,
        loaded,
        elim (ℕ_discrete f v) [ yes same ↦ inl same | no other ↦ inr (first f below held other) ],
      )

  choose_victim-none :
      (s : LruState)
      → ((f : ℕ) → f < n → s.loaded f ≡ false)
      → (choose_victim n s).1 ≡ invalid_frame
  unfolding choose_victim
  choose_victim-none s free = elim (Option-cases (oldest s.loaded s.last_access n)) [
    | inl none_found ↦ ground (arith, none_found)
    | inr (v, found) ↦
        let (below, held, least, first) = oldest-some s.loaded s.last_access n v found in
        absurd (ground (arith, free v below))
  ]

  choose_victim-state : (s : LruState) → (choose_victim n s).0 ≡ s
  unfolding choose_victim
  choose_victim-state s = ground arith

  use-IsValid :
      (s : LruState) (loaded : ℕ → Bool) (f : ℕ)
      → IsValid n s
      → Ready s
      → ((g : ℕ) → g ≢ f → loaded g ≡ s.loaded g)
      → IsValid n (update_access (record s { loaded = loaded }) f)
  unfolding update_access
  use-IsValid s loaded f valid ready same = record {
    past = λ g lt. ground (arith, valid.past g);
    ordered = λ g h hg hh lg lh e.
        ground (arith, valid.past g hg, valid.past h hh, valid.ordered g h, same g, same h);
  }

  -- LRU keeps the laws of a policy.
  pub Lru-IsPolicy : IsPolicy n (operations n) is_loaded (IsValid n) Ready
  unfolding operations
  Lru-IsPolicy = record {
    load = λ s f valid ready below. (
      refl,
      use-IsValid s (update s.loaded f true) f valid ready (λ g ne. ground arith),
      λ g. load_set s f g,
    );
    access = λ s f valid ready below. elim (Bool-cases (s.loaded f)) [
      | inl held ↦
          rw held (refl, use-IsValid s s.loaded f valid ready (λ g ne. refl), λ g. access_set s f g)
      | inr free ↦ rw free (refl, valid, λ g. refl)
    ];
    evict = λ s f valid ready below. elim (Bool-cases (s.loaded f)) [
      | inl held ↦ rw held (
        refl,
        record {
          past = λ g lt. ground (arith, valid.past g);
          ordered = λ g h hg hh lg lh e. ground (arith, valid.ordered g h);
        },
        λ g. ground arith,
      )
      | inr free ↦ rw free (refl, valid, λ g. ground arith)
    ];
    victim = λ s f valid ready below held.
        let (v, e, lt, loaded, first) = choose_victim_lem s f valid ready below held in
        rw e (lt, loaded);
    no_victim = λ s valid free. choose_victim-none s free;
    choice = λ s valid. rw (choose_victim-state s) (valid, λ g. refl);
    ticked = λ s valid. (valid, λ g. refl);
    calm = λ s f ready. (rw (choose_victim-state s) ready, evict_clock s f ready);
  }
