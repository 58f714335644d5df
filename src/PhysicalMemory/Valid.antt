-- ===== src/PhysicalMemory/Valid.antt =====
-- src/physical_memory.c: what holds of the frame table between calls, and that every call keeps it.
use mathlib.Core.Path.{subst}
use native.Mathlib.Decide.{ℕ_discrete}
use simulador_memoria_virtua.Base.{
  ℕ, ◌+◌, ◌*◌, ◌<◌, ◌≤◌, ◌≡◌, ◌≢◌, refl, Bool, true, false, not, inl, inr, arith, sym, ap, ◌∙◌,
  is_negative, u32_max, u64_mod, bit, count, count_change, count-le, find-some, find_first,
  find_of_count, count_pos, ◌⊎◌, ◌||◌, ◌==◌, Bool-cases, update, inc64, dec64, to_u32, leb,
}
use simulador_memoria_virtua.Process.{Pointer, Processes, get_pid}
use simulador_memoria_virtua.PhysicalMemory.{
  PhysicalFrame, PhysicalMemory, Page, page_size, free_frame, owned_frame, assign, allocate_frame,
  invalid_argument, no_free_frame, allocated, replace_frame, release_frame, mark_access, write_page,
  write_byte, is_null, is_unusable, accessed,
}

abbrev pub is_free : PhysicalMemory → ℕ → Bool
is_free m index = not (m.frames index).occupied

-- An occupied frame has an owner, whose pid it holds, and the pid is a pid.
pub record IsOwned (processes : Processes) (frame : PhysicalFrame) : Type 0 where
  pub not_null : is_null frame.owner_process ≡ false
  pub same_pid : frame.owner_pid ≡ get_pid processes frame.owner_process
  pub real_pid : is_negative frame.owner_pid ≡ false

-- A frame's entry is that of a free frame, or it has an owner.
abbrev pub IsConsistent : Processes → PhysicalFrame → Type 0
IsConsistent processes frame =
    ((frame.occupied ≡ false) → (frame ≡ free_frame))
    × ((frame.occupied ≡ true) → IsOwned processes frame)

pub record IsValid (processes : Processes) (m : PhysicalMemory) : Type 0 where
  -- every frame number fits a `uint32_t` and differs from `INVALID_FRAME_NUMBER`
  pub numbered : m.frame_count ≤ u32_max
  -- the byte array is no longer than a `size_t` can say
  pub sized : m.frame_count * page_size < u64_mod
  pub counted : m.free_frame_count ≡ count (is_free m) m.frame_count
  pub consistent : (index : ℕ) → index < m.frame_count → IsConsistent processes (m.frames index)

-- The argument check of an allocation.
abbrev pub cannot_own : Processes → Pointer → Bool
cannot_own processes owner = is_null owner || is_negative (get_pid processes owner)

-- The memory after frame `index` was taken.
abbrev pub taken : Processes → PhysicalMemory → ℕ → Pointer → ℕ → PhysicalMemory
taken processes m index owner page = record (assign processes m index owner page) {
  free_frame_count = dec64 m.free_frame_count;
}

-- A memory with one entry, the bytes and the counter written anew.
abbrev pub updated : PhysicalMemory → ℕ → PhysicalFrame → (ℕ → ℕ) → ℕ → PhysicalMemory
updated m index frame bytes free = record m {
  frames = update m.frames index frame;
  bytes = bytes;
  free_frame_count = free;
}

module _ (processes : Processes) where
  free_count-le : {m : PhysicalMemory} → IsValid processes m → m.free_frame_count ≤ u32_max
  free_count-le {m} v = omega (arith, count-le (is_free m) m.frame_count)

  -- The entry of one frame is written, and the counter follows.
  written-IsValid :
      (m m' : PhysicalMemory) (index : ℕ)
      → index < m.frame_count
      → m'.frame_count ≡ m.frame_count
      → ((j : ℕ) → j ≢ index → m'.frames j ≡ m.frames j)
      → IsConsistent processes (m'.frames index)
      → m'.free_frame_count + bit (is_free m index) ≡ m.free_frame_count + bit (is_free m' index)
      → IsValid processes m
      → IsValid processes m'
  written-IsValid m m' index below same_count others good counter v = record {
    numbered = omega arith;
    sized = rw same_count v.sized;
    counted = rw same_count (
        omega (
          arith,
          count_change (is_free m) (is_free m') m.frame_count index below
              (λ j ne. ap (λ (frame : PhysicalFrame). not frame.occupied) (sym (others j ne))),
        ));
    consistent = λ j lt. elim (ℕ_discrete j index) [
      | yes e ↦ subst (λ k. IsConsistent processes (m'.frames k)) (sym e) good
      | no ne ↦ subst (IsConsistent processes) (sym (others j ne)) (v.consistent j (omega arith))
    ];
  }

  updated-IsValid :
      (m : PhysicalMemory) (index : ℕ) (frame : PhysicalFrame) (bytes : ℕ → ℕ) (free : ℕ)
      → index < m.frame_count
      → IsConsistent processes frame
      → free + bit (is_free m index) ≡ m.free_frame_count + bit (not frame.occupied)
      → IsValid processes m
      → IsValid processes (updated m index frame bytes free)
  updated-IsValid m index frame bytes free below good counter v =
      let here : update m.frames index frame index ≡ frame = ground arith in
      written-IsValid m (updated m index frame bytes free) index below refl (λ j ne. ground arith)
        (subst (IsConsistent processes) (sym here) good)
        (counter
          ∙ ap (λ (entry : PhysicalFrame). m.free_frame_count + bit (not entry.occupied))
              (sym here))
        v

  owned-IsConsistent :
      (owner : Pointer) (page : ℕ)
      → is_null owner ≡ false
      → is_negative (get_pid processes owner) ≡ false
      → IsConsistent processes (owned_frame processes owner page)
  owned-IsConsistent owner page some_owner real =
      (λ e. absurd (cc), λ e. record { not_null = some_owner; same_pid = refl; real_pid = real })

  -- The three outcomes of an allocation, each with its condition.
  abbrev pub Taken : PhysicalMemory → Pointer → ℕ → Type 0
  Taken m owner page =
      (index : ℕ) × (cannot_own processes owner ≡ false)
      × (index < m.frame_count)
      × (is_free m index ≡ true)
      × ((j : ℕ) → j < index → is_free m j ≡ false)
      × (allocate_frame processes m owner page
          ≡ (taken processes m index owner page, allocated index))

  abbrev pub Outcome : PhysicalMemory → Pointer → ℕ → Type 0
  Outcome m owner page =
      (cannot_own processes owner ≡ true)
        × (allocate_frame processes m owner page ≡ (m, invalid_argument))
      ⊎ (cannot_own processes owner ≡ false)
        × (m.free_frame_count ≡ 0)
        × (allocate_frame processes m owner page ≡ (m, no_free_frame))
      ⊎ Taken m owner page

  -- In a valid memory `physical_memory_allocate_frame` has one of three outcomes: for NULL, or a
  -- process with a negative pid, it returns -1 and changes nothing; with no free frame it returns
  -- -2 and changes nothing; otherwise it takes the free frame with the least number, gives it to
  -- the process, and counts one free frame less.
  pub allocate_frame-Outcome :
      (m : PhysicalMemory) (owner : Pointer) (page : ℕ) → IsValid processes m → Outcome m owner page
  unfolding allocate_frame
  allocate_frame-Outcome m owner page v = elim (Bool-cases (cannot_own processes owner)) [
    | inl bad ↦ inl (bad, rw bad)
    | inr good ↦ elim (Bool-cases (m.free_frame_count == 0)) [
      | inl none_left ↦ inr (inl (good, ground arith, rw (good, none_left)))
      | inr some_left ↦
          let (k, found) = find_of_count (is_free m) m.frame_count (ground (arith, v.counted)) in
          let (below, free) = find-some (is_free m) m.frame_count k found in
          let same : to_u32 k ≡ k = omega (arith, v.numbered) in
          inr (
            inr (
              k,
              good,
              below,
              free,
              λ j lt. find_first (is_free m) m.frame_count k j found lt,
              rw (good, some_left, found, same),
            ))
    ]
  ]

  pub allocate_frame-IsValid :
      (m : PhysicalMemory) (owner : Pointer) (page : ℕ)
      → IsValid processes m
      → IsValid processes (allocate_frame processes m owner page).0
  unfolding assign
  allocate_frame-IsValid m owner page v = elim (allocate_frame-Outcome m owner page v) [
    | inl (bad, e) ↦ rw e v
    | inr (inl (good, empty, e)) ↦ rw e v
    | inr (inr (k, good, below, free, first, e)) ↦
        let small = free_count-le v in
        let positive = count_pos (is_free m) m.frame_count k below free in
        rw e (
          updated-IsValid m k (owned_frame processes owner page) _ (dec64 m.free_frame_count) below
            (owned-IsConsistent owner page (ground arith) (ground arith))
            (ground (arith, v.counted)) v)
  ]

  pub replace_frame-IsValid :
      (m : PhysicalMemory) (index : ℕ) (owner : Pointer) (page : ℕ)
      → IsValid processes m
      → IsValid processes (replace_frame processes m index owner page).0
  unfolding replace_frame
  replace_frame-IsValid m index owner page v =
      elim (Bool-cases
        (is_null owner || leb m.frame_count index || is_negative (get_pid processes owner))) [
          | inl bad ↦ rw bad v
          | inr good ↦ elim (Bool-cases (m.frames index).occupied) [
            | inr free ↦ rw (good, free) v
            | inl held ↦
                rw (good, held)
                  (updated-IsValid m index (owned_frame processes owner page) _ m.free_frame_count
                    (ground arith) (owned-IsConsistent owner page (ground arith) (ground arith))
                    (ground arith) v)
          ]
        ]

  pub release_frame-IsValid :
      (m : PhysicalMemory) (index : ℕ)
      → IsValid processes m
      → IsValid processes (release_frame m index).0
  unfolding release_frame
  release_frame-IsValid m index v = elim (Bool-cases (leb m.frame_count index)) [
    | inl bad ↦ rw bad v
    | inr good ↦ elim (Bool-cases (m.frames index).occupied) [
      | inr free ↦ rw (good, free) v
      | inl held ↦
          let small = free_count-le v in
          rw (good, held)
            (updated-IsValid m index free_frame _ (inc64 m.free_frame_count) (ground arith)
              (λ e. refl, λ e. absurd (cc)) (ground arith) v)
    ]
  ]

  -- An access changes the two access bits of an occupied frame, which is owned before and after.
  pub mark_access-IsValid :
      (m : PhysicalMemory) (index : ℕ) (is_write : Bool)
      → IsValid processes m
      → IsValid processes (mark_access m index is_write).0
  unfolding mark_access
  mark_access-IsValid m index is_write v = elim (Bool-cases (is_unusable m index)) [
    | inl bad ↦ rw bad v
    | inr good ↦
        let owned = (v.consistent index (ground arith)).1 (ground arith) in
        rw good (
          updated-IsValid m index (accessed is_write (m.frames index)) _ m.free_frame_count
            (ground arith)
            (
              λ e. absurd (ground arith),
              λ e. record {
                not_null = owned.not_null;
                same_pid = owned.same_pid;
                real_pid = owned.real_pid;
              },
            )
            (ground arith) v)
  ]

  bytes-IsValid :
      (m : PhysicalMemory) (bytes : ℕ → ℕ)
      → IsValid processes m
      → IsValid processes (record m { bytes = bytes })
  bytes-IsValid m bytes v = record {
    numbered = v.numbered;
    sized = v.sized;
    counted = v.counted;
    consistent = v.consistent;
  }

  pub write_page-IsValid :
      (m : PhysicalMemory) (index : ℕ) (page : Page) (size : ℕ)
      → IsValid processes m
      → IsValid processes (write_page m index page size).0
  unfolding write_page
  write_page-IsValid m index page size v =
      elim (Bool-cases (not (size == page_size) || is_unusable m index)) [
        | inl bad ↦ rw bad v
        | inr good ↦ rw good (bytes-IsValid m _ v)
      ]

  pub write_byte-IsValid :
      (m : PhysicalMemory) (index offset value : ℕ)
      → IsValid processes m
      → IsValid processes (write_byte m index offset value).0
  unfolding write_byte
  write_byte-IsValid m index offset value v =
      elim (Bool-cases
        (leb m.frame_count index || leb page_size offset || not (m.frames index).occupied)) [
          | inl bad ↦ rw bad v
          | inr good ↦ rw good (bytes-IsValid m _ v)
        ]
