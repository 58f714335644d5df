-- ===== src/Replacement/Clock.antt =====
-- src/replacement/clock.c: the frames in a circle, with a reference bit each, and a hand.
pub mod Sweep
pub mod Laws
use simulador_memoria_virtua.Base.{
  ℕ, zero, suc, ◌+◌, ◌*◌, ◌%◌, Bool, true, false, not, ◌||◌, Option, none, some, filled, update,
  for_range, inc64, to_u32, Status, success, failure, ◌==◌, if◌then◌else◌,
}
use simulador_memoria_virtua.Replacement.Contract.{Operations, allocate, invalid_frame}

pub record ClockState : Type 0 where
  pub loaded : ℕ → Bool
  pub referenced : ℕ → Bool
  pub hand : ℕ

unfoldable pub on_load : ClockState → ℕ → ClockState × Status
on_load s frame_number = (
  record s {
    loaded = update s.loaded frame_number true;
    referenced = update s.referenced frame_number true;
  },
  success,
)

unfoldable pub on_access : ClockState → ℕ → ClockState × Status
on_access s frame_number =
    if not (s.loaded frame_number)
    then (s, failure)
    else (record s { referenced = update s.referenced frame_number true }, success)

unfoldable pub on_evict : ClockState → ℕ → ClockState × Status
on_evict s frame_number = if not (s.loaded frame_number) then (s, failure) else (
  record s {
    loaded = update s.loaded frame_number false;
    referenced = update s.referenced frame_number false;
  },
  success,
)

-- The first loop of `clock_choose_victim`.
unfoldable pub loaded_count : (frame_count : ℕ) → ClockState → ℕ
loaded_count frame_count s =
    for_range frame_count 0 (λ index k. if s.loaded index then inc64 k else k) 0

-- `state->hand = (state->hand + 1) % policy->frame_count`
abbrev pub advance : (frame_count : ℕ) → ClockState → ClockState
advance frame_count s = record s { hand = inc64 s.hand % frame_count }

-- The endless loop, with fuel; `none` means that the fuel ran out.
unfoldable pub turn : (fuel frame_count : ℕ) → ClockState → Option (ClockState × ℕ)
turn zero frame_count s = none
turn (suc fuel) frame_count s = elim (s.loaded s.hand) [
  | false ↦ turn fuel frame_count (advance frame_count s)
  | true ↦ elim (s.referenced s.hand) [
    | true ↦
        turn fuel frame_count
          (record (advance frame_count s) { referenced = update s.referenced s.hand false })
    | false ↦ some (advance frame_count s, to_u32 s.hand)
  ]
]

-- Two turns of the hand are enough fuel; a loop without a result would leave the state as it is.
unfoldable pub choose_victim : (frame_count : ℕ) → ClockState → ClockState × ℕ
choose_victim frame_count s =
    if loaded_count frame_count s == 0
    then (s, invalid_frame)
    else elim (turn (2 * frame_count) frame_count s) [ none ↦ (s, invalid_frame) | some r ↦ r ]

unfoldable pub tick : ClockState → ClockState
tick s = s

-- `CLOCK_OPERATIONS`
unfoldable pub operations : (frame_count : ℕ) → Operations ClockState
unfolding on_load on_access on_evict choose_victim tick
operations frame_count = record {
  on_load = on_load;
  on_access = on_access;
  on_evict = on_evict;
  choose_victim = choose_victim frame_count;
  tick = tick;
}

-- `replacement_clock_create`; `granted k` says whether the call's `k`-th request for memory is met.
unfoldable pub create : (granted : ℕ → Bool) → ℕ → Option ClockState
create granted frame_count =
    if not (allocate granted frame_count)
    then none
    else if not (granted 2) || not (granted 3)
    then none
    else some (record { loaded = filled false; referenced = filled false; hand = 0 })
