-- ===== src/Replacement/Cycle.antt =====
-- src/replacement/replacement.c: what a client does with a policy to make room for another page.
use simulador_memoria_virtua.Base.{
  ℕ, ◌<◌, ◌≤◌, ◌≡◌, refl, Bool, true, false, arith, u32_max, Status, success, ltb,
}
use simulador_memoria_virtua.Replacement.{
  PolicyState, ReplacementPolicy, on_load, on_evict, choose_victim,
}
use simulador_memoria_virtua.Replacement.Contract.{Operations, IsPolicy}
use simulador_memoria_virtua.Replacement.Dispatch.{
  is_loaded, IsValid, Ready, called, called-IsPolicy,
}

-- The three calls of a replacement, over any operations that keep the laws.
module _ {S : Type 0} (n : ℕ) (ops : Operations S) (loaded : S → ℕ → Bool)
    (Valid Ticking : S → Type 0) (laws : IsPolicy n ops loaded Valid Ticking) where
  abbrev chosen : S → S
  chosen s = (ops.choose_victim s).0

  abbrev victim : S → ℕ
  victim s = (ops.choose_victim s).1

  abbrev evicted : S → S
  evicted s = (ops.on_evict (chosen s) (victim s)).0

  replace_cycle :
      (s : S) (f : ℕ)
      → Valid s
      → Ticking s
      → f < n
      → loaded s f ≡ true
      → (loaded s (victim s) ≡ true)
        × ((ops.on_evict (chosen s) (victim s)).1 ≡ success)
        × (loaded (evicted s) (victim s) ≡ false)
        × ((ops.on_load (evicted s) (victim s)).1 ≡ success)
        × Valid (ops.on_load (evicted s) (victim s)).0
        × ((g : ℕ) → loaded (ops.on_load (evicted s) (victim s)).0 g ≡ loaded s g)
  replace_cycle s f v r below held =
      let (v_below, v_held) = laws.victim s f v r below held in
      let (chosen_valid, same) = laws.choice s v in
      let ready = (laws.calm s f r).0 in
      let (out, out_valid, out_set) = laws.evict (chosen s) (victim s) chosen_valid ready v_below in
      let still = (laws.calm (chosen s) (victim s) ready).1 in
      let (back, back_valid, back_set) = laws.load (evicted s) (victim s) out_valid still v_below in
      (
        v_held,
        ground (arith, out, same (victim s)),
        ground (arith, out_set (victim s)),
        back,
        back_valid,
        λ g. ground (arith, back_set g, out_set g, same g),
      )

-- On a frame of the table the calls are those of the operations.
module _ (p : ReplacementPolicy) where
  abbrev ops : Operations PolicyState
  ops = called p.frame_count

  on_load-called :
      (f : ℕ)
      → f < p.frame_count
      → on_load p f ≡ (record p { state = (ops.on_load p.state f).0 }, (ops.on_load p.state f).1)
  unfolding on_load called
  on_load-called f below = let inside : ltb f p.frame_count ≡ true = ground arith in rw inside refl

  on_evict-called :
      (f : ℕ)
      → f < p.frame_count
      → on_evict p f ≡ (record p { state = (ops.on_evict p.state f).0 }, (ops.on_evict p.state f).1)
  unfolding on_evict called
  on_evict-called f below = let inside : ltb f p.frame_count ≡ true = ground arith in rw inside refl

-- What a replacement does: the victim, the policy after its eviction and after its reloading, and
-- what the two calls return.
unfoldable pub victim_of : ReplacementPolicy → ℕ
victim_of p = (choose_victim p).1

unfoldable pub after_evict : ReplacementPolicy → ReplacementPolicy × Status
unfolding victim_of
after_evict p = on_evict (choose_victim p).0 (victim_of p)

unfoldable pub after_reload : ReplacementPolicy → ReplacementPolicy × Status
unfolding after_evict
after_reload p = on_load (after_evict p).0 (victim_of p)

module _ (p : ReplacementPolicy) where
  abbrev choice : ReplacementPolicy
  choice = record p { state = ((called p.frame_count).choose_victim p.state).0 }

  abbrev w : ℕ
  w = ((called p.frame_count).choose_victim p.state).1

  abbrev gone : ReplacementPolicy
  gone = record p { state = ((called p.frame_count).on_evict choice.state w).0 }

  victim_of-called : victim_of p ≡ w
  unfolding victim_of choose_victim called
  victim_of-called = refl

  after_evict-called :
      w < p.frame_count → after_evict p ≡ (gone, ((called p.frame_count).on_evict choice.state w).1)
  unfolding after_evict victim_of choose_victim called
  after_evict-called below = on_evict-called choice w below

  after_reload-called :
      w < p.frame_count
      → after_reload p ≡ (
        record p { state = ((called p.frame_count).on_load gone.state w).0 },
        ((called p.frame_count).on_load gone.state w).1,
      )
  unfolding after_reload
  after_reload-called below =
      rw (after_evict-called below, victim_of-called) (on_load-called gone w below)

-- For each of the four policies, in a valid state whose clock can tick, with at most UINT32_MAX
-- frames of which one is loaded: the victim that the policy chooses is loaded, its eviction
-- succeeds and takes it out, loading it again succeeds, and in the end the state is valid and the
-- same frames are loaded as before.
pub choose_victim-on_evict-on_load :
    (p : ReplacementPolicy) (f : ℕ)
    → p.frame_count ≤ u32_max
    → IsValid p.frame_count p.state
    → Ready p.state
    → f < p.frame_count
    → is_loaded p.state f ≡ true
    → (is_loaded p.state (victim_of p) ≡ true)
      × ((after_evict p).1 ≡ success)
      × (is_loaded (after_evict p).0.state (victim_of p) ≡ false)
      × ((after_reload p).1 ≡ success)
      × IsValid p.frame_count (after_reload p).0.state
      × ((g : ℕ) → is_loaded (after_reload p).0.state g ≡ is_loaded p.state g)
choose_victim-on_evict-on_load p f small v r below held =
    let laws = called-IsPolicy p.frame_count small in
    let lt = (laws.victim p.state f v r below held).0 in
    rw (after_reload-called p lt, after_evict-called p lt, victim_of-called p)
      (replace_cycle p.frame_count (called p.frame_count) is_loaded (IsValid p.frame_count) Ready
        laws p.state f v r below held)
