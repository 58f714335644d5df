-- ===== src/PhysicalMemory.antt =====
-- src/physical_memory.c: the frame table, its free counter and the bytes of the frames.
-- A call returns the new memory beside the code's return value.
pub mod Valid
pub mod Bytes
pub mod Run
use simulador_memoria_virtua.Base.{
  ℕ, ◌+◌, ◌-◌, ◌*◌, ◌/◌, ◌%◌, Bool, true, false, ◌&&◌, ◌||◌, not, Option, none, some, ℤ, minus_one,
  is_negative, u64_mod, u64_max, to_u32, inc64, dec64, update, filled, fill, copy, find, for_range,
  Status, success, failure, ltb, leb, ◌==◌, if◌then◌else◌,
}
pub use simulador_memoria_virtua.Process.{is_null}
use simulador_memoria_virtua.Process.{Pointer, Processes, get_pid}

-- `PAGE_SIZE` of address.h.
abbrev pub page_size : ℕ
page_size = 4096

pub record PhysicalFrame : Type 0 where
  pub occupied : Bool
  pub dirty : Bool
  pub referenced : Bool
  pub owner_pid : ℤ
  pub owner_process : Pointer
  pub virtual_page : ℕ

-- `data` is the one byte array behind all the frames.
pub record PhysicalMemory : Type 0 where
  pub frames : ℕ → PhysicalFrame
  pub bytes : ℕ → ℕ
  pub frame_count : ℕ
  pub free_frame_count : ℕ

-- The bytes of one page, by offset.
abbrev pub Page : Type 0
Page = ℕ → ℕ

-- Where a frame's bytes begin in the byte array; the product is taken in `size_t`.
unfoldable pub frame_data : ℕ → ℕ
frame_data frame_number = (frame_number * page_size) % u64_mod

-- The fields that `physical_frame_reset` writes.
abbrev pub free_frame : PhysicalFrame
free_frame = record {
  occupied = false;
  dirty = false;
  referenced = false;
  owner_pid = minus_one;
  owner_process = none;
  virtual_page = 0;
}

unfoldable pub reset : PhysicalMemory → ℕ → PhysicalMemory
unfolding frame_data
reset m frame_number = record m {
  frames = update m.frames frame_number free_frame;
  bytes = fill m.bytes (frame_data frame_number) page_size 0;
}

abbrev pub owned_frame : Processes → Pointer → ℕ → PhysicalFrame
owned_frame processes owner_process virtual_page = record {
  occupied = true;
  dirty = false;
  referenced = false;
  owner_pid = get_pid processes owner_process;
  owner_process = owner_process;
  virtual_page = virtual_page;
}

unfoldable pub assign : Processes → PhysicalMemory → ℕ → Pointer → ℕ → PhysicalMemory
unfolding frame_data
assign processes m frame_number owner_process virtual_page = record m {
  frames = update m.frames frame_number (owned_frame processes owner_process virtual_page);
  bytes = fill m.bytes (frame_data frame_number) page_size 0;
}

-- What `calloc` leaves in a frame.
abbrev pub zero_frame : PhysicalFrame
zero_frame = record free_frame { owner_pid = ℤ.pos 0 }

-- `granted k` says whether the call's `k`-th request for memory is met.
unfoldable pub create : (granted : ℕ → Bool) → ℕ → Option PhysicalMemory
unfolding reset for_range
create granted frame_count =
    if frame_count == 0 || ltb (u64_max / page_size) frame_count
    then none
    else if not (granted 0) || not (granted 1) || not (granted 2)
    then none
    else some (
        for_range frame_count 0 (λ index m. reset m (to_u32 index))
          (record {
            frames = filled zero_frame;
            bytes = filled 0;
            frame_count = frame_count;
            free_frame_count = frame_count;
          }))

-- What `physical_memory_allocate_frame` returns: -1, -2, or 0 with the frame's number.
pub data Allocation : Type 0 where
  invalid_argument no_free_frame : Allocation
  allocated : ℕ → Allocation

unfoldable pub allocate_frame :
    Processes → PhysicalMemory → Pointer → ℕ → PhysicalMemory × Allocation
unfolding find assign
allocate_frame processes m owner_process virtual_page =
    if is_null owner_process || is_negative (get_pid processes owner_process)
    then (m, invalid_argument)
    else if m.free_frame_count == 0
    then (m, no_free_frame)
    else elim (find (λ index. not (m.frames index).occupied) m.frame_count) [
      | none ↦ (m, no_free_frame)
      | some index ↦ (
        record (assign processes m (to_u32 index) owner_process virtual_page) {
          free_frame_count = dec64 m.free_frame_count;
        },
        allocated (to_u32 index),
      )
    ]

unfoldable pub replace_frame :
    Processes → PhysicalMemory → ℕ → Pointer → ℕ → PhysicalMemory × Status
unfolding assign
replace_frame processes m frame_number new_owner new_page =
    if is_null new_owner
      || leb m.frame_count frame_number
      || is_negative (get_pid processes new_owner)
    then (m, failure)
    else if not (m.frames frame_number).occupied
    then (m, failure)
    else (assign processes m frame_number new_owner new_page, success)

unfoldable pub release_frame : PhysicalMemory → ℕ → PhysicalMemory × Status
unfolding reset
release_frame m frame_number =
    if leb m.frame_count frame_number
    then (m, failure)
    else if not (m.frames frame_number).occupied
    then (m, failure)
    else (record (reset m frame_number) { free_frame_count = inc64 m.free_frame_count }, success)

-- The test that every access to an occupied frame makes first.
abbrev pub is_unusable : PhysicalMemory → ℕ → Bool
is_unusable m frame_number = leb m.frame_count frame_number || not (m.frames frame_number).occupied

abbrev pub accessed : Bool → PhysicalFrame → PhysicalFrame
accessed is_write frame = record frame {
  referenced = true;
  dirty = if is_write then true else frame.dirty;
}

unfoldable pub mark_access : PhysicalMemory → ℕ → Bool → PhysicalMemory × Status
mark_access m frame_number is_write = if is_unusable m frame_number then (m, failure) else (
  record m { frames = update m.frames frame_number (accessed is_write (m.frames frame_number)) },
  success,
)

-- `physical_memory_get_frame`: NULL past the table.
unfoldable pub get_frame : PhysicalMemory → ℕ → Option PhysicalFrame
get_frame m frame_number =
    if leb m.frame_count frame_number then none else some (m.frames frame_number)

-- `none` stands for the return value -1. The caller's `size` is compared with the page size.
unfoldable pub read_page : PhysicalMemory → ℕ → (size : ℕ) → Option Page
unfolding frame_data
read_page m frame_number size =
    if not (size == page_size) || is_unusable m frame_number
    then none
    else some (λ offset. m.bytes (frame_data frame_number + offset))

unfoldable pub write_page : PhysicalMemory → ℕ → Page → (size : ℕ) → PhysicalMemory × Status
unfolding frame_data
write_page m frame_number page size =
    if not (size == page_size) || is_unusable m frame_number
    then (m, failure)
    else (record m { bytes = copy m.bytes (frame_data frame_number) page_size page }, success)

unfoldable pub read_byte : PhysicalMemory → ℕ → (offset : ℕ) → Option ℕ
unfolding frame_data
read_byte m frame_number offset =
    if leb m.frame_count frame_number
      || leb page_size offset
      || not (m.frames frame_number).occupied
    then none
    else some (m.bytes (frame_data frame_number + offset))

unfoldable pub write_byte : PhysicalMemory → ℕ → (offset value : ℕ) → PhysicalMemory × Status
unfolding frame_data
write_byte m frame_number offset value =
    if leb m.frame_count frame_number
      || leb page_size offset
      || not (m.frames frame_number).occupied
    then (m, failure)
    else (record m { bytes = update m.bytes (frame_data frame_number + offset) value }, success)
