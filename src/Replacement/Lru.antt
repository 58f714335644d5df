-- ===== src/Replacement/Lru.antt =====
-- src/replacement/lru.c: the frames with the time of their last use.
pub mod Recency
use simulador_memoria_virtua.Base.{
  ℕ, Bool, true, false, not, ◌||◌, Option, none, some, filled, update, oldest, inc64, to_u32,
  Status, success, failure, ◌==◌, if◌then◌else◌,
}
use simulador_memoria_virtua.Replacement.Contract.{Operations, allocate, invalid_frame}

pub record LruState : Type 0 where
  pub loaded : ℕ → Bool
  pub last_access : ℕ → ℕ
  pub logical_clock : ℕ

unfoldable pub update_access : LruState → ℕ → LruState
update_access s frame_number =
    let now : ℕ = inc64 s.logical_clock in
    record s { last_access = update s.last_access frame_number now; logical_clock = now }

unfoldable pub on_load : LruState → ℕ → LruState × Status
unfolding update_access
on_load s frame_number =
    (update_access (record s { loaded = update s.loaded frame_number true }) frame_number, success)

unfoldable pub on_access : LruState → ℕ → LruState × Status
unfolding update_access
on_access s frame_number =
    if not (s.loaded frame_number) then (s, failure) else (update_access s frame_number, success)

unfoldable pub on_evict : LruState → ℕ → LruState × Status
on_evict s frame_number = if not (s.loaded frame_number) then (s, failure) else (
  record s {
    loaded = update s.loaded frame_number false;
    last_access = update s.last_access frame_number 0;
  },
  success,
)

unfoldable pub choose_victim : (frame_count : ℕ) → LruState → LruState × ℕ
choose_victim frame_count s = elim (oldest s.loaded s.last_access frame_count) [
  | none ↦ (s, invalid_frame)
  | some index ↦ (s, to_u32 index)
]

unfoldable pub tick : LruState → LruState
tick s = s

-- `LRU_OPERATIONS`
unfoldable pub operations : (frame_count : ℕ) → Operations LruState
unfolding on_load on_access on_evict choose_victim tick
operations frame_count = record {
  on_load = on_load;
  on_access = on_access;
  on_evict = on_evict;
  choose_victim = choose_victim frame_count;
  tick = tick;
}

-- `replacement_lru_create`; `granted k` says whether the call's `k`-th request for memory is met.
unfoldable pub create : (granted : ℕ → Bool) → ℕ → Option LruState
create granted frame_count =
    if not (allocate granted frame_count)
    then none
    else if not (granted 2) || not (granted 3)
    then none
    else some (record { loaded = filled false; last_access = filled 0; logical_clock = 0 })
