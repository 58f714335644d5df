-- ===== src/Tests/Policies.antt =====
-- src/replacement/: the theorems at policies over four frames.
use simulador_memoria_virtua.Base.{
  ℕ, ◌*◌, ◌<◌, ◌≤◌, ◌≡◌, ◌⊎◌, refl, arith, true, false, ◌||◌, some, success, count, filled, ◌==◌,
  if◌then◌else◌,
}
use simulador_memoria_virtua.Replacement.{of_clock, ReplacementPolicy}
use simulador_memoria_virtua.Replacement.Contract.{IsPolicy}
use simulador_memoria_virtua.Replacement.Fifo
use simulador_memoria_virtua.Replacement.Fifo.{FifoState}
use simulador_memoria_virtua.Replacement.Fifo.Queue.{frames, remove}
use simulador_memoria_virtua.Replacement.Fifo.Order
use simulador_memoria_virtua.Replacement.Fifo.Order.{on_evict-frames, Fifo-IsPolicy}
use simulador_memoria_virtua.Replacement.Lru
use simulador_memoria_virtua.Replacement.Lru.{LruState}
use simulador_memoria_virtua.Replacement.Lru.Recency
use simulador_memoria_virtua.Replacement.Lru.Recency.{choose_victim_oldest}
use simulador_memoria_virtua.Replacement.Clock
use simulador_memoria_virtua.Replacement.Clock.{ClockState, turn}
use simulador_memoria_virtua.Replacement.Clock.Sweep.{Chosen}
use simulador_memoria_virtua.Replacement.Clock.Laws
use simulador_memoria_virtua.Replacement.Clock.Laws.{choose_victim-Chosen}
use simulador_memoria_virtua.Replacement.Aging
use simulador_memoria_virtua.Replacement.Aging.{AgingState}
use simulador_memoria_virtua.Replacement.Aging.Ages
use simulador_memoria_virtua.Replacement.Aging.Ages.{choose_victim_youngest}
use simulador_memoria_virtua.Replacement.Dispatch.{
  is_loaded, IsValid, Ready, called, called-IsPolicy,
}
use simulador_memoria_virtua.Replacement.Cycle.{
  victim_of, after_evict, after_reload, choose_victim-on_evict-on_load,
}

-- Frames 2 and 0 were loaded, in this order.
abbrev no_frames : FifoState
no_frames = record { queue = filled 0; loaded = filled false; size = 0 }

no_frames-IsValid : Order.IsValid 4 no_frames
unfolding count
no_frames-IsValid = record {
  counted = refl;
  held = λ i lt. absurd (omega arith);
  distinct = λ i j hi hj e. absurd (omega arith);
  present = λ f lt held. absurd (cc);
}

abbrev one_frame : FifoState
one_frame = (Fifo.on_load 4 no_frames 2).0

one_frame-IsValid : Order.IsValid 4 one_frame
unfolding Fifo.operations
one_frame-IsValid =
    ((Fifo-IsPolicy 4 (omega arith)).load no_frames 2 no_frames-IsValid tt (omega arith)).1

abbrev two_frames : FifoState
two_frames = (Fifo.on_load 4 one_frame 0).0

two_frames-IsValid : Order.IsValid 4 two_frames
unfolding Fifo.operations
two_frames-IsValid =
    ((Fifo-IsPolicy 4 (omega arith)).load one_frame 0 one_frame-IsValid tt (omega arith)).1

frame_2_loaded : two_frames.loaded 2 ≡ true
unfolding Fifo.on_load
frame_2_loaded = refl

on_evict-frames_example :
    ((Fifo.on_evict two_frames 2).1 ≡ success)
    × (frames (Fifo.on_evict two_frames 2).0 ≡ remove 2 (frames two_frames))
on_evict-frames_example =
    on_evict-frames 4 (omega arith) two_frames two_frames-IsValid 2 (omega arith) frame_2_loaded

-- Frames 1 and 3, used at times 2 and 1.
abbrev recent : LruState
recent = record {
  loaded = λ f. f == 1 || f == 3;
  last_access = λ f. if f == 1 then 2 else if f == 3 then 1 else 0;
  logical_clock = 2;
}

recent-IsValid : Recency.IsValid 4 recent
recent-IsValid = record { past = λ f lt. ground arith; ordered = λ f g hf hg lf lg e. ground arith }

choose_victim_oldest_example :
    ((Lru.choose_victim 4 recent).1 < 4)
    × (recent.loaded (Lru.choose_victim 4 recent).1 ≡ true)
    × ((1 ≡ (Lru.choose_victim 4 recent).1)
        ⊎ (recent.last_access (Lru.choose_victim 4 recent).1 < 2))
choose_victim_oldest_example =
    choose_victim_oldest 4 (omega arith) recent 1 recent-IsValid (omega arith) (omega arith) refl

-- Frames 1 and 2 are loaded and referenced, and the hand is at 2.
abbrev circle : ClockState
circle = record { loaded = λ f. f == 1 || f == 2; referenced = λ f. f == 1 || f == 2; hand = 2 }

circle-IsValid : Laws.IsValid 4 circle
circle-IsValid = record { in_range = omega arith }

choose_victim-Chosen_example :
    (turn (2 * 4) 4 circle ≡ some (Clock.choose_victim 4 circle))
    × Chosen 4 (omega arith) circle (Clock.choose_victim 4 circle)
choose_victim-Chosen_example =
    choose_victim-Chosen 4 (omega arith) circle 1 circle-IsValid (omega arith) refl

-- Frames 1 and 2 have ages 3 and 200; frame 1 was referenced since the last tick.
abbrev elders : AgingState
elders = record {
  loaded = λ f. f == 1 || f == 2;
  referenced = λ f. f == 1;
  ages = λ f. if f == 1 then 3 else if f == 2 then 200 else 0;
}

elders-IsValid : Ages.IsValid 4 elders
elders-IsValid = record { bytes = λ f lt. ground arith }

choose_victim_youngest_example :
    ((Aging.choose_victim 4 elders).1 < 4)
    × (elders.loaded (Aging.choose_victim 4 elders).1 ≡ true)
    × (elders.ages (Aging.choose_victim 4 elders).1 ≤ 200)
    × ((Aging.choose_victim 4 elders).1 ≤ 2 ⊎ elders.ages (Aging.choose_victim 4 elders).1 < 200)
choose_victim_youngest_example = choose_victim_youngest 4 (omega arith) elders 2 (omega arith) refl

called-IsPolicy_example : IsPolicy 4 (called 4) is_loaded (IsValid 4) Ready
called-IsPolicy_example = called-IsPolicy 4 (omega arith)

abbrev policy : ReplacementPolicy
policy = record { frame_count = 4; state = of_clock circle }

choose_victim-on_evict-on_load_example :
    (is_loaded policy.state (victim_of policy) ≡ true)
    × ((after_evict policy).1 ≡ success)
    × (is_loaded (after_evict policy).0.state (victim_of policy) ≡ false)
    × ((after_reload policy).1 ≡ success)
    × IsValid 4 (after_reload policy).0.state
    × ((g : ℕ) → is_loaded (after_reload policy).0.state g ≡ is_loaded policy.state g)
choose_victim-on_evict-on_load_example =
    choose_victim-on_evict-on_load policy 1 (omega arith) circle-IsValid tt (omega arith) refl
