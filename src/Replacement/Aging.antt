-- ===== src/Replacement/Aging.antt =====
-- src/replacement/aging.c: an 8-bit age for each frame, shifted at every tick.
pub mod Ages
use Prim.Native.Nat.{bit_or}
use simulador_memoria_virtua.Base.{
  ℕ, ◌/◌, Bool, true, false, not, ◌||◌, Option, none, some, filled, update, for_range, to_u32,
  Status, success, failure, ltb, ◌==◌, if◌then◌else◌,
}
use simulador_memoria_virtua.Replacement.Contract.{Operations, allocate, invalid_frame}

pub record AgingState : Type 0 where
  pub loaded : ℕ → Bool
  pub referenced : ℕ → Bool
  pub ages : ℕ → ℕ

unfoldable pub on_load : AgingState → ℕ → AgingState × Status
on_load s frame_number = (
  record {
    loaded = update s.loaded frame_number true;
    referenced = update s.referenced frame_number true;
    ages = update s.ages frame_number 0;
  },
  success,
)

unfoldable pub on_access : AgingState → ℕ → AgingState × Status
on_access s frame_number =
    if not (s.loaded frame_number)
    then (s, failure)
    else (record s { referenced = update s.referenced frame_number true }, success)

unfoldable pub on_evict : AgingState → ℕ → AgingState × Status
on_evict s frame_number = if not (s.loaded frame_number) then (s, failure) else (
  record {
    loaded = update s.loaded frame_number false;
    referenced = update s.referenced frame_number false;
    ages = update s.ages frame_number 0;
  },
  success,
)

-- The variables `victim` and `smallest_age`.
pub record Youngest : Type 0 where
  pub victim : ℕ
  pub smallest_age : ℕ

unfoldable pub compare_age : AgingState → ℕ → Youngest → Youngest
compare_age s index best =
    if not (s.loaded index)
    then best
    else if best.victim == invalid_frame || ltb (s.ages index) best.smallest_age
    then record { victim = to_u32 index; smallest_age = s.ages index }
    else best

unfoldable pub choose_victim : (frame_count : ℕ) → AgingState → AgingState × ℕ
choose_victim frame_count s = (
  s,
  (for_range frame_count 0 (compare_age s)
      (record { victim = invalid_frame; smallest_age = 0xff })).victim,
)

-- `age >>= 1`, and `age |= 0x80` if the frame was referenced.
unfoldable pub aged : Bool → ℕ → ℕ
aged was_referenced age = if was_referenced then bit_or (age / 2) 0x80 else age / 2

unfoldable pub tick_frame : ℕ → AgingState → AgingState
unfolding aged
tick_frame index s = if not (s.loaded index) then s else record s {
  ages = update s.ages index (aged (s.referenced index) (s.ages index));
  referenced = update s.referenced index false;
}

unfoldable pub tick : (frame_count : ℕ) → AgingState → AgingState
tick frame_count s = for_range frame_count 0 tick_frame s

-- `AGING_OPERATIONS`
unfoldable pub operations : (frame_count : ℕ) → Operations AgingState
unfolding on_load on_access on_evict choose_victim tick
operations frame_count = record {
  on_load = on_load;
  on_access = on_access;
  on_evict = on_evict;
  choose_victim = choose_victim frame_count;
  tick = tick frame_count;
}

-- `replacement_aging_create`; `granted k` says whether the call's `k`-th request for memory is met.
unfoldable pub create : (granted : ℕ → Bool) → ℕ → Option AgingState
create granted frame_count =
    if not (allocate granted frame_count)
    then none
    else if not (granted 2) || not (granted 3) || not (granted 4)
    then none
    else some (record { loaded = filled false; referenced = filled false; ages = filled 0 })
