-- ===== src/Swap.antt =====
-- src/swap.c: the table of swap slots and the file that holds their pages.
-- A call returns the new swap beside the code's return value.
pub mod File
pub mod Table
pub mod Pages
pub mod Reads
pub mod Removal
use simulador_memoria_virtua.Base.{
  ℕ, ◌+◌, ◌-◌, ◌*◌, ◌/◌, ◌%◌, Bool, true, false, ◌&&◌, ◌||◌, not, Option, none, some, ℤ, pos,
  minus_one, is_negative, ◌==ℤ◌, u64_mod, u64_max, inc64, dec64, sub64, update, filled, find,
  for_range, Status, success, failure, no_space, ltb, ◌==◌, if◌then◌else◌,
}
use simulador_memoria_virtua.PhysicalMemory.{Page, page_size}
use simulador_memoria_virtua.Swap.File.{FileOperations}

pub record SwapSlot : Type 0 where
  pub used : Bool
  pub pid : ℤ
  pub virtual_page : ℕ

-- `F` is the type of open files; the path is only used to open and remove the file.
pub record Swap (F : Type 0) : Type 0 where
  pub file : F
  pub slots : ℕ → SwapSlot
  pub slot_count : ℕ
  pub used_slot_count : ℕ
  pub remove_file_on_destroy : Bool
  pub reads : ℕ
  pub writes : ℕ

-- `LONG_MAX`
abbrev pub long_max : ℕ
long_max = 0x7fff_ffff_ffff_ffff

-- What `calloc` leaves in a slot, and what a removal leaves.
abbrev pub zero_slot : SwapSlot
zero_slot = record { used = false; pid = pos 0; virtual_page = 0 }

abbrev pub free_slot : SwapSlot
free_slot = record { used = false; pid = minus_one; virtual_page = 0 }

-- `none` stands for -1.
unfoldable pub slot_offset : ℕ → Option ℕ
slot_offset slot_index =
    let offset : ℕ = (slot_index * page_size) % u64_mod in
    if ltb long_max offset then none else some offset

-- The test of `swap_find_page_slot`.
abbrev pub holds : SwapSlot → ℤ → ℕ → Bool
holds slot pid virtual_page = slot.used && (slot.pid ==ℤ pid) && (slot.virtual_page == virtual_page)

module _ {F : Type 0} where
  -- `none` stands for SIZE_MAX.
  unfoldable pub find_page_slot : Swap F → ℤ → ℕ → Option ℕ
  find_page_slot s pid virtual_page =
      if is_negative pid
      then none
      else find (λ index. holds (s.slots index) pid virtual_page) s.slot_count

  unfoldable pub find_free_slot : Swap F → Option ℕ
  find_free_slot s = find (λ index. not (s.slots index).used) s.slot_count

  unfoldable pub contains_page : Swap F → ℤ → ℕ → Bool
  contains_page s pid virtual_page = elim (find_page_slot s pid virtual_page) [
    | none ↦ false
    | some index ↦ true
  ]

  -- The slot that a page is written to, with the flag `is_new_slot`.
  unfoldable pub choose_slot : Swap F → ℤ → ℕ → Option ℕ × Bool
  choose_slot s pid virtual_page = elim (find_page_slot s pid virtual_page) [
    | some index ↦ (some index, false)
    | none ↦ (find_free_slot s, true)
  ]

  -- The end of `swap_write_page`, after the file was written.
  unfoldable pub register_write : Swap F → ℕ → Bool → ℤ → ℕ → Swap F
  register_write s slot_index is_new_slot pid virtual_page = record s {
    slots =
        if is_new_slot
        then update s.slots slot_index
            (record { used = true; pid = pid; virtual_page = virtual_page })
        else s.slots;
    used_slot_count = if is_new_slot then inc64 s.used_slot_count else s.used_slot_count;
    writes = inc64 s.writes;
  }

  unfoldable pub remove_page : Swap F → ℤ → ℕ → Swap F × Status
  remove_page s pid virtual_page =
      if is_negative pid then (s, failure) else elim (find_page_slot s pid virtual_page) [
        | none ↦ (s, failure)
        | some slot_index ↦ (
          record s {
            slots = update s.slots slot_index free_slot;
            used_slot_count = dec64 s.used_slot_count;
          },
          success,
        )
      ]

-- The loop of `swap_remove_process`, with its counter.
pub record SlotSweep : Type 0 where
  pub slots : ℕ → SwapSlot
  pub removed : ℕ

unfoldable pub remove_slot : ℤ → ℕ → SlotSweep → SlotSweep
remove_slot pid index r =
    if not (r.slots index).used || not ((r.slots index).pid ==ℤ pid)
    then r
    else record { slots = update r.slots index free_slot; removed = inc64 r.removed }

unfoldable pub remove_process : {F : Type 0} → Swap F → ℤ → Swap F × ℕ
unfolding remove_slot
remove_process s pid =
    if is_negative pid
    then (s, 0)
    else let r =
        for_range s.slot_count 0 (remove_slot pid) (record { slots = s.slots; removed = 0 }) in
      (record s { slots = r.slots; used_slot_count = sub64 s.used_slot_count r.removed }, r.removed)

module _ {F : Type 0} (io : FileOperations F) where
  -- `swap_initialize_file`, with its success.
  unfoldable pub initialize_file : F → ℕ → F × Bool
  initialize_file file slot_count =
      let total_size : ℕ = (slot_count * page_size) % u64_mod in
      let (sought, found) = io.fseek file (total_size - 1) in
      let (filled_file, put) = io.fputc sought 0 in
      let (flushed, clean) = io.fflush filled_file in
      if slot_count == 0 || ltb (u64_max / page_size) slot_count || ltb long_max total_size
      then (file, false)
      else if not found
      then (sought, false)
      else if not put
      then (filled_file, false)
      else (flushed, clean)

  -- `opened` is what `fopen` returns, and `granted k` says whether the `k`-th request for memory is
  -- met.
  unfoldable pub create :
      (granted : ℕ → Bool) (opened : Option F) (slot_count : ℕ) (remove_file_on_destroy : Bool)
      → Option (Swap F)
  unfolding initialize_file
  create granted opened slot_count remove_file_on_destroy =
      if slot_count == 0 || not (granted 0) || not (granted 1) || not (granted 2)
      then none
      else elim opened [
        | none ↦ none
        | some file ↦
            let (file', done) = initialize_file file slot_count in
            if not done
            then none
            else some (record {
              file = file';
              slots = filled zero_slot;
              slot_count = slot_count;
              used_slot_count = 0;
              remove_file_on_destroy = remove_file_on_destroy;
              reads = 0;
              writes = 0;
            })
      ]

  -- The steps on the file; each stops at the first call that fails.
  unfoldable pub write_file : F → ℕ → Page → F × Bool
  write_file file offset page =
      let (sought, found) = io.fseek file offset in
      let (stored, written) = io.fwrite sought page page_size in
      let (flushed, clean) = io.fflush stored in
      if not found
      then (sought, false)
      else if not (written == page_size)
      then (stored, false)
      else (flushed, clean)

  unfoldable pub write_at : Swap F → Option ℕ × Bool → ℤ → ℕ → Page → Swap F × Status
  unfolding slot_offset write_file register_write
  write_at s (none, is_new_slot) pid virtual_page page = (s, no_space)
  write_at s (some slot_index, is_new_slot) pid virtual_page page = elim (slot_offset slot_index) [
    | none ↦ (s, failure)
    | some offset ↦
        let (file', done) = write_file s.file offset page in
        let s' : Swap F = record s { file = file' } in
        if not done
        then (s', failure)
        else (register_write s' slot_index is_new_slot pid virtual_page, success)
  ]

  unfoldable pub write_page : Swap F → ℤ → ℕ → Page → Swap F × Status
  unfolding choose_slot write_at
  write_page s pid virtual_page page =
      if is_negative pid
      then (s, failure)
      else write_at s (choose_slot s pid virtual_page) pid virtual_page page

  -- The caller's buffer is passed in and returned.
  unfoldable pub read_file : F → ℕ → Page → F × Page × Bool
  read_file file offset buffer =
      let (sought, found) = io.fseek file offset in
      let (file', page, count) = io.fread sought buffer page_size in
      if not found then (sought, buffer, false) else (file', page, count == page_size)

  unfoldable pub read_at : Swap F → ℕ → Page → Swap F × Page × Status
  unfolding slot_offset read_file
  read_at s slot_index buffer = elim (slot_offset slot_index) [
    | none ↦ (s, buffer, failure)
    | some offset ↦
        let (file', page, done) = read_file s.file offset buffer in
        let s' : Swap F = record s { file = file' } in
        if not done
        then (s', page, failure)
        else (record s' { reads = inc64 s.reads }, page, success)
  ]

  unfoldable pub read_page : Swap F → ℤ → ℕ → Page → Swap F × Page × Status
  unfolding read_at
  read_page s pid virtual_page buffer =
      if is_negative pid then (s, buffer, failure) else elim (find_page_slot s pid virtual_page) [
        | none ↦ (s, buffer, no_space)
        | some slot_index ↦ read_at s slot_index buffer
      ]
