-- ===== src/Tests/Memory.antt =====
-- src/physical_memory.c: the theorems at a memory of two frames, one of them taken by a process.
use simulador_memoria_virtua.Base.{
  ◌+◌, ◌≡◌, refl, arith, some, pos, filled, success, find, find_from, count,
}
use mathlib.Core.List.{[], ◌∷◌, foldl}
use simulador_memoria_virtua.Process.{Processes, get_pid}
use simulador_memoria_virtua.PhysicalMemory.{
  PhysicalMemory, Page, page_size, frame_data, free_frame, assign, allocate_frame, replace_frame,
  release_frame, read_page, read_byte, write_page, write_byte, allocated,
}
use simulador_memoria_virtua.PhysicalMemory.Valid.{
  IsValid, Outcome, allocate_frame-Outcome, allocate_frame-IsValid,
}
use simulador_memoria_virtua.PhysicalMemory.Bytes.{read_byte-write_byte, read_byte-write_page}
use simulador_memoria_virtua.PhysicalMemory.Run.{allocate, put_byte, release, perform, run-IsValid}

abbrev processes : Processes
processes p = record { pid = pos 7; page_table = some p }

abbrev empty_memory : PhysicalMemory
empty_memory = record {
  frames = filled free_frame;
  bytes = filled 0;
  frame_count = 2;
  free_frame_count = 2;
}

empty_memory-IsValid : IsValid processes empty_memory
unfolding count
empty_memory-IsValid = record {
  numbered = omega arith;
  sized = omega arith;
  counted = refl;
  consistent = λ index below. (λ e. refl, λ held. absurd (cc));
}

-- Frame 0 holds page 5 of the process.
abbrev busy_memory : PhysicalMemory
busy_memory = (allocate_frame processes empty_memory (some 0) 5).0

busy_memory-IsValid : IsValid processes busy_memory
busy_memory-IsValid = allocate_frame-IsValid processes empty_memory (some 0) 5 empty_memory-IsValid

allocate_frame-Outcome_example : Outcome processes busy_memory (some 3) 8
allocate_frame-Outcome_example =
    allocate_frame-Outcome processes busy_memory (some 3) 8 busy_memory-IsValid

taken_frame : (allocate_frame processes empty_memory (some 0) 5).1 ≡ allocated 0
unfolding allocate_frame assign find find_from get_pid
taken_frame = refl

write_ok : (write_byte busy_memory 0 3 9).1 ≡ success
unfolding write_byte allocate_frame assign find find_from get_pid
write_ok = refl

read_ok : read_byte busy_memory 0 3 ≡ some 0
unfolding read_byte allocate_frame assign find find_from get_pid frame_data
read_ok = refl

abbrev nines : Page
nines p = 9

page_ok : (write_page busy_memory 0 nines page_size).1 ≡ success
unfolding write_page allocate_frame assign find find_from get_pid
page_ok = refl

replace_ok : (replace_frame processes busy_memory 0 (some 4) 6).1 ≡ success
unfolding replace_frame allocate_frame assign find find_from get_pid
replace_ok = refl

release_ok : (release_frame busy_memory 0).1 ≡ success
unfolding release_frame allocate_frame assign find find_from get_pid
release_ok = refl

abbrev zero_page : Page
zero_page offset = busy_memory.bytes (frame_data 0 + offset)

read_page_ok : read_page busy_memory 0 page_size ≡ some zero_page
unfolding read_page allocate_frame assign find find_from get_pid
read_page_ok = refl

read_byte-write_byte_example : read_byte (write_byte busy_memory 0 3 9).0 0 3 ≡ some 9
read_byte-write_byte_example =
    read_byte-write_byte processes busy_memory busy_memory-IsValid 0 3 9 write_ok 0 3

read_byte-write_page_example : read_byte (write_page busy_memory 0 nines page_size).0 0 100 ≡ some 9
read_byte-write_page_example =
    read_byte-write_page processes busy_memory busy_memory-IsValid 0 nines page_size page_ok 0 100

run-IsValid_example :
    IsValid processes (
      foldl
        (perform processes)
        empty_memory
        (allocate (some 0) 5 ∷ put_byte 0 3 9 ∷ release 0 ∷ []))
run-IsValid_example =
    run-IsValid processes empty_memory (allocate (some 0) 5 ∷ put_byte 0 3 9 ∷ release 0 ∷ [])
      empty_memory-IsValid
