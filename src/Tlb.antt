-- ===== src/Tlb.antt =====
-- src/tlb.c: a fully associative translation cache that replaces its least recently used entry.
-- A call returns the new cache beside the code's return value. A `TlbEntry *` is an index.
pub mod View
pub mod Valid
pub mod Insert
pub mod Run
pub mod Invalidate
use simulador_memoria_virtua.Base.{
  ℕ, ◌+◌, Bool, true, false, ◌&&◌, ◌||◌, not, Option, none, some, ℤ, pos, minus_one, is_negative,
  ◌==ℤ◌, u64_max, inc64, dec64, sub64, update, filled, find, for_range, oldest, Status, success,
  failure, ◌==◌, if◌then◌else◌,
}

pub record TlbEntry : Type 0 where
  pub valid : Bool
  pub pid : ℤ
  pub virtual_page : ℕ
  pub frame_number : ℕ
  pub last_access : ℕ

pub record Tlb : Type 0 where
  pub entries : ℕ → TlbEntry
  pub capacity : ℕ
  pub size : ℕ
  pub logical_clock : ℕ

-- What `calloc` leaves in an entry.
abbrev pub zero_entry : TlbEntry
zero_entry = record {
  valid = false;
  pid = pos 0;
  virtual_page = 0;
  frame_number = 0;
  last_access = 0;
}

-- What an invalidation leaves in an entry.
abbrev pub invalid_entry : TlbEntry
invalid_entry = record zero_entry { pid = minus_one }

-- `granted k` says whether the call's `k`-th request for memory is met.
unfoldable pub create : (granted : ℕ → Bool) → ℕ → Option Tlb
create granted capacity =
    if capacity == 0
    then none
    else if not (granted 0) || not (granted 1)
    then none
    else some
        (record { entries = filled zero_entry; capacity = capacity; size = 0; logical_clock = 0 })

-- The test of the three searches for an entry.
abbrev pub matches : TlbEntry → ℤ → ℕ → Bool
matches entry pid virtual_page =
    entry.valid && (entry.pid ==ℤ pid) && (entry.virtual_page == virtual_page)

-- `tlb_register_access` on the entry at `index`, which was just given the value `entry`.
unfoldable pub register_access : Tlb → ℕ → TlbEntry → Tlb
register_access t index entry =
    let now : ℕ = inc64 t.logical_clock in
    record t {
      entries = update t.entries index (record entry { last_access = now });
      logical_clock = now;
    }

unfoldable pub find_existing_entry : Tlb → ℤ → ℕ → Option ℕ
find_existing_entry t pid virtual_page =
    find (λ index. matches (t.entries index) pid virtual_page) t.capacity

unfoldable pub find_free_entry : Tlb → Option ℕ
find_free_entry t = find (λ index. not (t.entries index).valid) t.capacity

unfoldable pub find_lru_entry : Tlb → Option ℕ
find_lru_entry t =
    oldest (λ index. (t.entries index).valid) (λ index. (t.entries index).last_access) t.capacity

-- The frame number of a hit, and `none` for a miss.
unfoldable pub lookup : Tlb → ℤ → ℕ → Tlb × Option ℕ
lookup t pid virtual_page =
    if is_negative pid
    then (t, none)
    else elim (find (λ index. matches (t.entries index) pid virtual_page) t.capacity) [
      | none ↦ (t, none)
      | some index ↦
          (register_access t index (t.entries index), some (t.entries index).frame_number)
    ]

-- The entry that `tlb_insert` fills for a new key: a free one, or the least recently used. The
-- flag says that `size` grows.
unfoldable pub choose_entry : Tlb → Option ℕ × Bool
choose_entry t = elim (find_free_entry t) [
  | some index ↦ (some index, true)
  | none ↦ (find_lru_entry t, false)
]

abbrev pub new_entry : TlbEntry → ℤ → ℕ → ℕ → TlbEntry
new_entry old pid virtual_page frame_number = record old {
  valid = true;
  pid = pid;
  virtual_page = virtual_page;
  frame_number = frame_number;
}

-- The rest of `tlb_insert`, once the entry is chosen.
unfoldable pub insert_at : Tlb → Option ℕ × Bool → ℤ → ℕ → ℕ → Tlb × Status
insert_at t (none, grows) pid virtual_page frame_number = (t, failure)
insert_at t (some index, grows) pid virtual_page frame_number = (
  register_access (record t { size = if grows then inc64 t.size else t.size }) index
      (new_entry (t.entries index) pid virtual_page frame_number),
  success,
)

unfoldable pub insert : Tlb → ℤ → ℕ → ℕ → Tlb × Status
insert t pid virtual_page frame_number =
    if is_negative pid then (t, failure) else elim (find_existing_entry t pid virtual_page) [
      | some index ↦ (
        register_access t index (record (t.entries index) { frame_number = frame_number }),
        success,
      )
      | none ↦ insert_at t (choose_entry t) pid virtual_page frame_number
    ]

unfoldable pub invalidate : Tlb → ℤ → ℕ → Tlb × Bool
invalidate t pid virtual_page =
    if is_negative pid then (t, false) else elim (find_existing_entry t pid virtual_page) [
      | none ↦ (t, false)
      | some index ↦
          (record t { entries = update t.entries index invalid_entry; size = dec64 t.size }, true)
    ]

-- The loop of `tlb_invalidate_process`, with its counter.
pub record Sweep : Type 0 where
  pub entries : ℕ → TlbEntry
  pub invalidated : ℕ

abbrev pub belongs_to : TlbEntry → ℤ → Bool
belongs_to entry pid = entry.valid && (entry.pid ==ℤ pid)

unfoldable pub sweep_entry : ℤ → ℕ → Sweep → Sweep
sweep_entry pid index s =
    if belongs_to (s.entries index) pid
    then record {
      entries = update s.entries index invalid_entry;
      invalidated = inc64 s.invalidated;
    }
    else s

unfoldable pub sweep : Tlb → ℤ → Sweep
unfolding sweep_entry
sweep t pid =
    for_range t.capacity 0 (sweep_entry pid) (record { entries = t.entries; invalidated = 0 })

unfoldable pub invalidate_process : Tlb → ℤ → Tlb × ℕ
invalidate_process t pid =
    if is_negative pid
    then (t, 0)
    else let s = sweep t pid in
      (record t { entries = s.entries; size = sub64 t.size s.invalidated }, s.invalidated)

unfoldable pub clear : Tlb → Tlb
clear t = record t {
  entries = for_range t.capacity 0 (λ index entries. update entries index invalid_entry) t.entries;
  size = 0;
  logical_clock = 0;
}
