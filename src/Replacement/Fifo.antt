-- ===== src/Replacement/Fifo.antt =====
-- src/replacement/fifo.c: the frames in the order in which they were loaded.
pub mod Queue
pub mod Order
use simulador_memoria_virtua.Base.{
  ℕ, ◌+◌, ◌-◌, Bool, true, false, not, ◌||◌, Option, none, some, filled, update, find, for_range,
  inc64, dec64, Status, success, failure, leb, ◌==◌, if◌then◌else◌,
}
use simulador_memoria_virtua.Replacement.Contract.{Operations, allocate, invalid_frame}

pub record FifoState : Type 0 where
  pub queue : ℕ → ℕ
  pub loaded : ℕ → Bool
  pub size : ℕ

unfoldable pub on_load : (frame_count : ℕ) → FifoState → ℕ → FifoState × Status
on_load frame_count s frame_number =
    if s.loaded frame_number
    then (s, success)
    else if leb frame_count s.size
    then (s, failure)
    else (
      record {
        queue = update s.queue s.size frame_number;
        loaded = update s.loaded frame_number true;
        size = inc64 s.size;
      },
      success,
    )

unfoldable pub on_access : FifoState → ℕ → FifoState × Status
on_access s frame_number = (s, if s.loaded frame_number then success else failure)

-- The loop that closes the gap at `position`.
unfoldable pub shift_down : (ℕ → ℕ) → (position size : ℕ) → ℕ → ℕ
shift_down queue position size =
    for_range (size - 1 - position) position (λ index q. update q index (q (index + 1))) queue

unfoldable pub on_evict : FifoState → ℕ → FifoState × Status
on_evict s frame_number =
    if not (s.loaded frame_number)
    then (s, failure)
    else elim (find (λ index. s.queue index == frame_number) s.size) [
      | none ↦ (s, failure)
      | some position ↦ (
        record {
          queue = shift_down s.queue position s.size;
          loaded = update s.loaded frame_number false;
          size = dec64 s.size;
        },
        success,
      )
    ]

unfoldable pub choose_victim : FifoState → FifoState × ℕ
choose_victim s = if s.size == 0 then (s, invalid_frame) else (s, s.queue 0)

unfoldable pub tick : FifoState → FifoState
tick s = s

-- `FIFO_OPERATIONS`
unfoldable pub operations : (frame_count : ℕ) → Operations FifoState
unfolding on_load on_access on_evict choose_victim tick
operations frame_count = record {
  on_load = on_load frame_count;
  on_access = on_access;
  on_evict = on_evict;
  choose_victim = choose_victim;
  tick = tick;
}

-- `replacement_fifo_create`; `granted k` says whether the call's `k`-th request for memory is met.
unfoldable pub create : (granted : ℕ → Bool) → ℕ → Option FifoState
create granted frame_count =
    if not (allocate granted frame_count)
    then none
    else if not (granted 2) || not (granted 3)
    then none
    else some (record { queue = filled 0; loaded = filled false; size = 0 })
