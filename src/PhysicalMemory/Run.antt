-- ===== src/PhysicalMemory/Run.antt =====
-- src/physical_memory.c: a new memory, and every sequence of calls on it.
use mathlib.Core.List.{List, [], ◌∷◌, foldl}
use simulador_memoria_virtua.Base.{
  ℕ, ◌+◌, ◌*◌, ◌<◌, ◌≤◌, ◌≡◌, refl, ap, Bool, true, not, some, arith, u32_max, u64_mod, for_range,
  for_range_inv, count, count_all, sym, ◌∙◌, filled, to_u32,
}
use simulador_memoria_virtua.Process.{Pointer, Processes}
use simulador_memoria_virtua.PhysicalMemory.{
  PhysicalFrame, PhysicalMemory, Page, page_size, free_frame, zero_frame, reset, create,
  allocate_frame, replace_frame, release_frame, mark_access, write_page, write_byte,
}
use simulador_memoria_virtua.PhysicalMemory.Valid.{IsValid, is_free}
use simulador_memoria_virtua.PhysicalMemory.Valid

-- A call that changes the memory, with its arguments.
pub data Call : Type 0 where
  allocate : (owner : Pointer) (virtual_page : ℕ) → Call
  replace : (frame_number : ℕ) (owner : Pointer) (virtual_page : ℕ) → Call
  release : (frame_number : ℕ) → Call
  mark : (frame_number : ℕ) (is_write : Bool) → Call
  put_page : (frame_number : ℕ) (page : Page) (size : ℕ) → Call
  put_byte : (frame_number offset value : ℕ) → Call

unfoldable pub perform : Processes → PhysicalMemory → Call → PhysicalMemory
perform processes m (allocate owner virtual_page) =
    (allocate_frame processes m owner virtual_page).0
perform processes m (replace frame_number owner virtual_page) =
    (replace_frame processes m frame_number owner virtual_page).0
perform processes m (release frame_number) = (release_frame m frame_number).0
perform processes m (mark frame_number is_write) = (mark_access m frame_number is_write).0
perform processes m (put_page frame_number page size) = (write_page m frame_number page size).0
perform processes m (put_byte frame_number offset value) =
    (write_byte m frame_number offset value).0

perform-IsValid :
    (processes : Processes) (m : PhysicalMemory) (call : Call)
    → IsValid processes m
    → IsValid processes (perform processes m call)
unfolding perform
perform-IsValid processes m (allocate owner page) v =
    Valid.allocate_frame-IsValid processes m owner page v
perform-IsValid processes m (replace f owner page) v =
    Valid.replace_frame-IsValid processes m f owner page v
perform-IsValid processes m (release f) v = Valid.release_frame-IsValid processes m f v
perform-IsValid processes m (mark f is_write) v = Valid.mark_access-IsValid processes m f is_write v
perform-IsValid processes m (put_page f page size) v =
    Valid.write_page-IsValid processes m f page size v
perform-IsValid processes m (put_byte f offset value) v =
    Valid.write_byte-IsValid processes m f offset value v

-- After the first `i` rounds of the loop of `physical_memory_create`.
record IsCleared (n i : ℕ) (m : PhysicalMemory) : Type 0 where
  same_count : m.frame_count ≡ n
  same_free : m.free_frame_count ≡ n
  cleared : (j : ℕ) → j < i → m.frames j ≡ free_frame
  zeroed : (j : ℕ) → m.bytes j ≡ 0

abbrev fresh : ℕ → PhysicalMemory
fresh n = record {
  frames = filled zero_frame;
  bytes = filled 0;
  frame_count = n;
  free_frame_count = n;
}

abbrev clear_frame : ℕ → PhysicalMemory → PhysicalMemory
clear_frame index m = reset m (to_u32 index)

clear_frame-IsCleared :
    (n i : ℕ) (m : PhysicalMemory)
    → n ≤ u32_max
    → i < n
    → IsCleared n i m
    → IsCleared n (i + 1) (clear_frame i m)
unfolding reset
clear_frame-IsCleared n i m small below c =
    let same : to_u32 i ≡ i = omega arith in
    record {
      same_count = c.same_count;
      same_free = c.same_free;
      cleared = λ j lt. rw same (ground (arith, c.cleared j));
      zeroed = λ j. ground (arith, c.zeroed j);
    }

fresh-IsCleared : (n : ℕ) → n ≤ u32_max → IsCleared n n (for_range n 0 clear_frame (fresh n))
fresh-IsCleared n small =
    for_range_inv (λ i m. IsCleared n i m) clear_frame n
      (λ i m below c. clear_frame-IsCleared n i m small below c) n 0 (fresh n) (omega arith)
      (record {
        same_count = refl;
        same_free = refl;
        cleared = λ j lt. absurd (omega arith);
        zeroed = λ j. refl;
      })

IsCleared-IsValid :
    (processes : Processes) (n : ℕ) (m : PhysicalMemory)
    → n ≤ u32_max
    → n * page_size < u64_mod
    → IsCleared n n m
    → IsValid processes m
IsCleared-IsValid processes n m small sized c = record {
  numbered = omega (arith, c.same_count);
  sized = omega (arith, c.same_count);
  counted =
      c.same_free
      ∙ sym (
          count_all (is_free m) n
            (λ j lt. ap (λ (frame : PhysicalFrame). not frame.occupied) (c.cleared j lt)))
      ∙ ap (count (is_free m)) (sym c.same_count);
  consistent = λ j lt.
      let e = c.cleared j (omega (arith, c.same_count)) in (λ _. e, λ held. absurd (ground arith));
}

-- Given memory, for 1 to UINT32_MAX frames, `physical_memory_create` returns a valid memory of
-- that many frames, all of them free, in which every byte is 0.
create-IsValid :
    (processes : Processes) (granted : ℕ → Bool) (n : ℕ)
    → ((k : ℕ) → granted k ≡ true)
    → 0 < n
    → n ≤ u32_max
    → (m : PhysicalMemory) × (create granted n ≡ some m)
      × IsValid processes m
      × (m.frame_count ≡ n)
      × (m.free_frame_count ≡ n)
      × ((j : ℕ) → m.bytes j ≡ 0)
unfolding create
create-IsValid processes granted n all some_frames small =
    let c = fresh-IsCleared n small in
    (
      for_range n 0 clear_frame (fresh n),
      ground (arith, all 0, all 1, all 2),
      IsCleared-IsValid processes n _ small (omega arith) c,
      c.same_count,
      c.same_free,
      c.zeroed,
    )

-- From a valid memory, every sequence of allocations, replacements, releases, access marks, page
-- writes and byte writes ends in a valid memory: the free counter is the number of unoccupied
-- frames, every free frame is blank, and every occupied frame has an owner whose pid it holds.
pub run-IsValid :
    (processes : Processes) (m : PhysicalMemory) (calls : List Call)
    → IsValid processes m
    → IsValid processes (foldl (perform processes) m calls)
run-IsValid processes m [] v = v
run-IsValid processes m (call ∷ calls) v =
    run-IsValid processes (perform processes m call) calls (perform-IsValid processes m call v)
