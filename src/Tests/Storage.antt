-- ===== src/Tests/Storage.antt =====
-- src/swap.c: the theorems at a swap of two slots, on a file that is kept in memory.
use simulador_memoria_virtua.Base.{
  ℕ, ◌+◌, ◌≡◌, ◌≢◌, refl, arith, true, some, pos, filled, copy, update, count, find, find_from,
  success, failure, ltb, if◌then◌else◌,
}
use simulador_memoria_virtua.PhysicalMemory.{Page}
use simulador_memoria_virtua.Swap.{
  Swap, zero_slot, create, initialize_file, find_page_slot, find_free_slot, choose_slot,
  slot_offset, register_write, write_file, write_at, write_page, read_file, read_at, read_page,
}
use simulador_memoria_virtua.Swap.File.{FileOperations, IsFile}
use simulador_memoria_virtua.Swap.Table.{IsValid}
use simulador_memoria_virtua.Swap.Pages.{
  byte_of, byte_of-write_page, byte_of-write_page_failed, write_page-IsValid, write_page-within,
}
use simulador_memoria_virtua.Swap.Reads.{read_page-write_page}
use simulador_memoria_virtua.Swap.Removal.{Removed, remove_page-Removed}

-- A file in memory.
record MemoryFile : Type 0 where
  bytes : ℕ → ℕ
  position : ℕ

abbrev memory_io : FileOperations MemoryFile
memory_io = record {
  fseek = λ f offset. (record f { position = offset }, true);
  fwrite = λ f page size.
      (record { bytes = copy f.bytes f.position size page; position = f.position + size }, size);
  fread = λ f buffer size. (
    record f { position = f.position + size },
    λ i. if ltb i size then f.bytes (f.position + i) else buffer i,
    size,
  );
  fputc = λ f byte.
      (record { bytes = update f.bytes f.position byte; position = f.position + 1 }, true);
  fflush = λ f. (f, true);
}

abbrev bytes_of : MemoryFile → ℕ → ℕ
bytes_of f = f.bytes

abbrev position_of : MemoryFile → ℕ
position_of f = f.position

memory_io-IsFile : IsFile memory_io bytes_of position_of
memory_io-IsFile = record {
  seek_bytes = λ f offset i. refl;
  seek_position = λ f offset ok. refl;
  write_bytes = λ f page size i. refl;
  write_count-le = λ f page size. omega arith;
  read_bytes = λ f buffer size i. refl;
  read_page = λ f buffer size i lt. ground arith;
  flush_bytes = λ f i. refl;
}

abbrev blank_file : MemoryFile
blank_file = record { bytes = filled 0; position = 0 }

abbrev empty_swap : Swap MemoryFile
empty_swap = record {
  file = blank_file;
  slots = filled zero_slot;
  slot_count = 2;
  used_slot_count = 0;
  remove_file_on_destroy = true;
  reads = 0;
  writes = 0;
}

empty_swap-IsValid : IsValid empty_swap
unfolding count
empty_swap-IsValid = record {
  sized = omega arith;
  counted = refl;
  distinct = λ i j pid page hi hj mi mj. absurd (cc);
}

abbrev sevens : Page
sevens i = 7

-- Page 5 of process 1 is in the swap.
abbrev used_swap : Swap MemoryFile
used_swap = (write_page memory_io empty_swap (pos 1) 5 sevens).0

used_swap-IsValid : IsValid used_swap
used_swap-IsValid =
    write_page-IsValid memory_io bytes_of position_of memory_io-IsFile empty_swap (pos 1) 5 sevens
      empty_swap-IsValid

write_ok : (write_page memory_io empty_swap (pos 1) 5 sevens).1 ≡ success
unfolding write_page write_at choose_slot find_page_slot find_free_slot find find_from slot_offset
    write_file register_write
write_ok = refl

abbrev zeros : Page
zeros i = 0

read_ok : (read_page memory_io used_swap (pos 1) 5 zeros).2 ≡ success
unfolding write_page write_at choose_slot find_page_slot find_free_slot find find_from slot_offset
    write_file register_write read_page read_at read_file
read_ok = refl

abbrev new_swap : Swap MemoryFile
new_swap = record empty_swap { file = (initialize_file memory_io blank_file 2).0 }

create_ok : create memory_io (λ k. true) (some blank_file) 2 true ≡ some new_swap
unfolding create initialize_file
create_ok = refl

-- A file that takes 100 bytes of a page at most.
abbrev short : ℕ → ℕ
short size = if ltb 100 size then 100 else size

abbrev short_io : FileOperations MemoryFile
short_io = record memory_io {
  fwrite = λ f page size. (
    record {
      bytes = copy f.bytes f.position (short size) page;
      position = f.position + short size;
    },
    short size,
  );
}

short_io-IsFile : IsFile short_io bytes_of position_of
short_io-IsFile = record {
  seek_bytes = λ f offset i. refl;
  seek_position = λ f offset ok. refl;
  write_bytes = λ f page size i. refl;
  write_count-le = λ f page size. ground arith;
  read_bytes = λ f buffer size i. refl;
  read_page = λ f buffer size i lt. ground arith;
  flush_bytes = λ f i. refl;
}

-- The first 100 bytes of a page are written, and the write fails.
write_short : (write_page short_io used_swap (pos 2) 5 sevens).1 ≡ failure
unfolding write_page write_at choose_slot find_page_slot find_free_slot find find_from slot_offset
    write_file register_write
write_short = refl

write_short-fails : (write_page short_io used_swap (pos 2) 5 sevens).1 ≢ success
write_short-fails e = let said = write_short in absurd (cc)

byte_of-write_page_failed_example :
    byte_of short_io bytes_of position_of short_io-IsFile
      (write_page short_io used_swap (pos 2) 5 sevens).0
      (pos 1)
      5
      9
    ≡ byte_of short_io bytes_of position_of short_io-IsFile used_swap (pos 1) 5 9
byte_of-write_page_failed_example =
    byte_of-write_page_failed short_io bytes_of position_of short_io-IsFile used_swap (pos 2) 5
      sevens (pos 1) 5 9 used_swap-IsValid write_short-fails refl (omega arith)

byte_of-write_page_example :
    byte_of memory_io bytes_of position_of memory_io-IsFile used_swap (pos 1) 5 9 ≡ some 7
byte_of-write_page_example =
    byte_of-write_page memory_io bytes_of position_of memory_io-IsFile empty_swap (pos 1) 5 sevens
      (pos 1) 5 9 empty_swap-IsValid write_ok (omega arith)

read_page-write_page_example : (read_page memory_io used_swap (pos 1) 5 zeros).1 9 ≡ 7
read_page-write_page_example =
    read_page-write_page memory_io bytes_of position_of memory_io-IsFile empty_swap (pos 1) 5 sevens
      zeros 9 empty_swap-IsValid write_ok read_ok (omega arith)

used_swap-size : used_swap.slot_count ≡ 2
used_swap-size =
    let (valid, size, past) =
      write_page-within memory_io bytes_of position_of memory_io-IsFile empty_swap (pos 1) 5 sevens
        8192 empty_swap-IsValid (omega arith) in
    size

write_page-within_example :
    IsValid (write_page memory_io used_swap (pos 2) 5 sevens).0
    × ((write_page memory_io used_swap (pos 2) 5 sevens).0.slot_count ≡ used_swap.slot_count)
    × (bytes_of (write_page memory_io used_swap (pos 2) 5 sevens).0.file 1000000
        ≡ bytes_of used_swap.file 1000000)
write_page-within_example =
    write_page-within memory_io bytes_of position_of memory_io-IsFile used_swap (pos 2) 5 sevens
      1000000 used_swap-IsValid (omega (arith, used_swap-size))

remove_page-Removed_example : Removed used_swap (pos 1) 5
remove_page-Removed_example = remove_page-Removed used_swap (pos 1) 5 used_swap-IsValid
