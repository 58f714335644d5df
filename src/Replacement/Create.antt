-- ===== src/Replacement/Create.antt =====
-- src/replacement/replacement.c: what `replacement_policy_create` returns.
use simulador_memoria_virtua.Base.{
  ℕ, ◌<◌, ◌≡◌, refl, sym, Bool, true, false, some, arith, count_none, filled,
}
use simulador_memoria_virtua.Replacement.{
  PolicyType, fifo, lru, clock, aging, of_fifo, of_lru, of_clock, of_aging, ReplacementPolicy,
  create, state_of,
}
use simulador_memoria_virtua.Replacement.Fifo
use simulador_memoria_virtua.Replacement.Lru
use simulador_memoria_virtua.Replacement.Clock
use simulador_memoria_virtua.Replacement.Aging
use simulador_memoria_virtua.Replacement.Dispatch.{is_loaded, IsValid, Ready}

-- A policy over `n` frames that holds none of them.
abbrev pub Fresh : ℕ → ReplacementPolicy → Type 0
Fresh n p =
    (p.frame_count ≡ n)
    × IsValid n p.state
    × Ready p.state
    × ((f : ℕ) → is_loaded p.state f ≡ false)

-- Given memory and at least one frame, `replacement_policy_create` returns a policy of any of the
-- four kinds that is valid, whose clock can tick, and that holds no frame.
create-Fresh :
    (granted : ℕ → Bool) (kind : PolicyType) (n : ℕ)
    → ((k : ℕ) → granted k ≡ true)
    → 0 < n
    → (p : ReplacementPolicy) × (create granted kind n ≡ some p) × Fresh n p
unfolding create state_of Fifo.create Lru.create Clock.create Aging.create
create-Fresh granted fifo n all nonempty = (
  record {
    frame_count = n;
    state = of_fifo (record { queue = filled 0; loaded = filled false; size = 0 });
  },
  ground (arith, all 0, all 1, all 2, all 3),
  (
    refl,
    record {
      counted = sym (count_none (filled false) n (λ j lt. refl));
      held = λ i lt. absurd (omega arith);
      distinct = λ i j hi hj e. absurd (omega arith);
      present = λ f lt held. absurd (cc);
    },
    tt,
    λ f. refl,
  ),
)
create-Fresh granted lru n all nonempty = (
  record {
    frame_count = n;
    state = of_lru (record { loaded = filled false; last_access = filled 0; logical_clock = 0 });
  },
  ground (arith, all 0, all 1, all 2, all 3),
  (
    refl,
    record { past = λ f lt. omega arith; ordered = λ f g hf hg lf lg e. absurd (cc) },
    omega arith,
    λ f. refl,
  ),
)
create-Fresh granted clock n all nonempty = (
  record {
    frame_count = n;
    state = of_clock (record { loaded = filled false; referenced = filled false; hand = 0 });
  },
  ground (arith, all 0, all 1, all 2, all 3),
  (refl, record { in_range = nonempty }, tt, λ f. refl),
)
create-Fresh granted aging n all nonempty = (
  record {
    frame_count = n;
    state = of_aging (record { loaded = filled false; referenced = filled false; ages = filled 0 });
  },
  ground (arith, all 0, all 1, all 2, all 3, all 4),
  (refl, record { bytes = λ f lt. omega arith }, tt, λ f. refl),
)
