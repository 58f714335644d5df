-- ===== src/Cow.antt =====
-- src/cow.c: for each frame the list of the (process, page) pairs that share it copy-on-write.
-- A call returns the new manager beside the code's return value.
pub mod Mappings
pub mod Set
pub mod Collect
use mathlib.Core.List.{List, [], ◌∷◌}
use simulador_memoria_virtua.Base.{
  ℕ, Bool, true, false, ◌&&◌, ◌||◌, not, Option, none, some, inc64, update, filled, Status, success,
  failure, ltb, leb, ◌==◌, if◌then◌else◌,
}
use simulador_memoria_virtua.Process.{Pointer, Processes, get_page_table, is_null}

-- `CowMapping`, less its link, and `CowMappingInfo`. The process is never NULL.
pub record CowMapping : Type 0 where
  pub process : ℕ
  pub virtual_page : ℕ

pub record CowManager : Type 0 where
  pub frames : ℕ → List CowMapping
  pub frame_count : ℕ

-- `granted k` says whether the call's `k`-th request for memory is met.
unfoldable pub create : (granted : ℕ → Bool) → ℕ → Option CowManager
create granted frame_count =
    if frame_count == 0
    then none
    else if not (granted 0) || not (granted 1)
    then none
    else some (record { frames = filled []; frame_count = frame_count })

abbrev pub matches : CowMapping → ℕ → ℕ → Bool
matches mapping process virtual_page =
    (mapping.process == process) && (mapping.virtual_page == virtual_page)

-- The loop of `cow_manager_has_mapping`.
unfoldable pub contains : List CowMapping → ℕ → ℕ → Bool
contains [] process virtual_page = false
contains (mapping ∷ rest) process virtual_page =
    if matches mapping process virtual_page then true else contains rest process virtual_page

unfoldable pub has_mapping : CowManager → ℕ → Pointer → ℕ → Bool
has_mapping m frame_number none virtual_page = false
has_mapping m frame_number (some process) virtual_page =
    if leb m.frame_count frame_number
    then false
    else contains (m.frames frame_number) process virtual_page

unfoldable pub add_mapping :
    (granted : ℕ → Bool) → CowManager → ℕ → Pointer → ℕ → CowManager × Status
unfolding has_mapping
add_mapping granted m frame_number none virtual_page = (m, failure)
add_mapping granted m frame_number (some process) virtual_page =
    if leb m.frame_count frame_number
    then (m, failure)
    else if has_mapping m frame_number (some process) virtual_page
    then (m, success)
    else if not (granted 0)
    then (m, failure)
    else (
      record m {
        frames =
            update m.frames frame_number
              (record { process = process; virtual_page = virtual_page } ∷ m.frames frame_number);
      },
      success,
    )

-- The loop of `cow_manager_remove_mapping`: the list without the first pair that matches, and
-- `none` if there is none.
unfoldable pub unlink : List CowMapping → ℕ → ℕ → Option (List CowMapping)
unlink [] process virtual_page = none
unlink (mapping ∷ rest) process virtual_page =
    let rest' = unlink rest process virtual_page in
    if matches mapping process virtual_page
    then some rest
    else elim rest' [ none ↦ none | some left ↦ some (mapping ∷ left) ]

unfoldable pub remove_mapping : CowManager → ℕ → Pointer → ℕ → CowManager × Status
remove_mapping m frame_number none virtual_page = (m, failure)
remove_mapping m frame_number (some process) virtual_page =
    if leb m.frame_count frame_number
    then (m, failure)
    else elim (unlink (m.frames frame_number) process virtual_page) [
      | none ↦ (m, failure)
      | some left ↦ (record m { frames = update m.frames frame_number left }, success)
    ]

-- The loop of `cow_manager_mapping_count`, from a count.
unfoldable pub count_from : List CowMapping → ℕ → ℕ
count_from [] count = count
count_from (mapping ∷ rest) count = count_from rest (inc64 count)

unfoldable pub mapping_count : CowManager → ℕ → ℕ
unfolding count_from
mapping_count m frame_number =
    if leb m.frame_count frame_number then 0 else count_from (m.frames frame_number) 0

-- The caller's array of `CowMappingInfo`, or NULL.
abbrev pub Buffer : Type 0
Buffer = Option (ℕ → CowMapping)

-- `mappings[count] = ...`, if there is an array and room.
unfoldable pub store : Buffer → (count capacity : ℕ) → CowMapping → Buffer
store none count capacity mapping = none
store (some cells) count capacity mapping =
    some (if ltb count capacity then update cells count mapping else cells)

-- The loop of `cow_manager_collect_frame_mappings`.
unfoldable pub collect_from : List CowMapping → Buffer → (count capacity : ℕ) → Buffer × ℕ
unfolding store
collect_from [] mappings count capacity = (mappings, count)
collect_from (mapping ∷ rest) mappings count capacity =
    collect_from rest (store mappings count capacity mapping) (inc64 count) capacity

unfoldable pub collect_frame_mappings : CowManager → ℕ → Buffer → (capacity : ℕ) → Buffer × ℕ
unfolding collect_from
collect_frame_mappings m frame_number mappings capacity =
    if leb m.frame_count frame_number
    then (mappings, 0)
    else collect_from (m.frames frame_number) mappings 0 capacity

-- `cow_manager_share_process_pages` only checks its arguments.
unfoldable pub share_process_pages : Processes → Pointer → Pointer → Status
unfolding get_page_table
share_process_pages processes parent child =
    if is_null parent || is_null child
    then failure
    else if is_null (get_page_table processes parent) || is_null (get_page_table processes child)
    then failure
    else success
