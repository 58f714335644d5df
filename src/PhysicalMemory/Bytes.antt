-- ===== src/PhysicalMemory/Bytes.antt =====
-- src/physical_memory.c: where the bytes of a frame lie, and what a read gives after each write.
use mathlib.Core.Option
use simulador_memoria_virtua.Base.{
  is_negative, ℕ, ◌+◌, ◌-◌, ◌*◌, ◌<◌, ◌≡◌, ap, Bool, true, ◌&&◌, ◌||◌, not, Option, none, some, inl,
  inr, arith, u64_mod, Bool-cases, success, ltb, leb, ◌==◌, if◌then◌else◌,
}
use simulador_memoria_virtua.Process.{Pointer, Processes, get_pid}
use simulador_memoria_virtua.PhysicalMemory.{
  PhysicalMemory, Page, page_size, frame_data, is_unusable, is_null, assign, allocate_frame,
  allocated, replace_frame, release_frame, read_page, write_page, read_byte, write_byte,
}
use simulador_memoria_virtua.PhysicalMemory.Valid.{IsValid, allocate_frame-Outcome}

frame_data_lem :
    (m : PhysicalMemory) (f : ℕ)
    → m.frame_count * page_size < u64_mod
    → f < m.frame_count
    → frame_data f ≡ f * page_size
unfolding frame_data
frame_data_lem m f sized below = omega arith

-- A byte of a page of zeros.
abbrev pub zero_byte : ℕ → Option ℕ
zero_byte p = if ltb p page_size then some 0 else none

module _ (processes : Processes) (m : PhysicalMemory) (v : IsValid processes m) where
  -- In a valid memory, a byte read that succeeds is inside the byte array, in the page of its own
  -- frame, and the multiplication that finds the page does not wrap.
  read_byte_bounds :
      (f offset value : ℕ)
      → read_byte m f offset ≡ some value
      → (frame_data f + offset < m.frame_count * page_size)
        × (frame_data f ≡ f * page_size)
        × (offset < page_size)
  unfolding read_byte
  read_byte_bounds f offset value h =
      elim (Bool-cases (leb m.frame_count f || leb page_size offset || not (m.frames f).occupied)) [
        | inl bad ↦ absurd (ground arith)
        | inr good ↦
            let below : f < m.frame_count = ground arith in
            let inside : offset < page_size = ground arith in
            let e = frame_data_lem m f v.sized below in (omega arith, e, inside)
      ]

  -- What makes `physical_memory_read_byte` and `physical_memory_write_byte` return -1.
  abbrev bad_byte : ℕ → ℕ → Bool
  bad_byte f offset = leb m.frame_count f || leb page_size offset || not (m.frames f).occupied

  -- Two bytes of frames of the table lie at one place only if they are one byte.
  same_place :
      (f offset g p : ℕ)
      → f < m.frame_count
      → g < m.frame_count
      → offset < page_size
      → p < page_size
      → (frame_data f + offset == frame_data g + p) ≡ (g == f && p == offset)
  same_place f offset g p hf hg ho hp =
      ground (arith, frame_data_lem m f v.sized hf, frame_data_lem m g v.sized hg)

  -- In a valid memory, after a byte write that succeeded, a read of that byte of that frame gives
  -- the value, and every other byte of every frame reads as before.
  pub read_byte-write_byte :
      (f offset value : ℕ)
      → (write_byte m f offset value).1 ≡ success
      → (g p : ℕ)
      → read_byte (write_byte m f offset value).0 g p
        ≡ (if g == f && p == offset then some value else read_byte m g p)
  unfolding write_byte read_byte
  read_byte-write_byte f offset value h g p = elim (Bool-cases (bad_byte f offset)) [
    | inl bad ↦ absurd (ground arith)
    | inr good ↦ elim (Bool-cases (bad_byte g p)) [
      | inl bad' ↦ ground arith
      | inr good' ↦ ground (arith, same_place f offset g p)
    ]
  ]

  -- A byte of the array is in the page of `f` exactly if it is a byte of frame `f`.
  in_page :
      (f g p : ℕ)
      → f < m.frame_count
      → g < m.frame_count
      → p < page_size
      → (leb (frame_data f) (frame_data g + p) && ltb (frame_data g + p) (frame_data f + page_size))
        ≡ (g == f)
  in_page f g p hf hg hp =
      ground (arith, frame_data_lem m f v.sized hf, frame_data_lem m g v.sized hg)

  page_offset : (f g p : ℕ) → (g == f) ≡ true → frame_data g + p - frame_data f ≡ p
  page_offset f g p e = let same : g ≡ f = ground arith in rw same (omega arith)

  -- In a valid memory, after a page write that succeeded, every byte of the frame reads as the
  -- byte of the page, and every byte of another frame reads as before.
  pub read_byte-write_page :
      (f : ℕ) (page : Page) (size : ℕ)
      → (write_page m f page size).1 ≡ success
      → (g p : ℕ)
      → read_byte (write_page m f page size).0 g p
        ≡ (if g == f && ltb p page_size then some (page p) else read_byte m g p)
  unfolding write_page read_byte
  read_byte-write_page f page size h g p =
      elim (Bool-cases (not (size == page_size) || is_unusable m f)) [
        | inl bad ↦ absurd (ground arith)
        | inr good ↦ elim (Bool-cases (bad_byte g p)) [
          | inl bad' ↦ ground arith
          | inr good' ↦ elim (Bool-cases (g == f)) [
            | inl same ↦ ground (arith, in_page f g p, ap page (page_offset f g p same))
            | inr other ↦ ground (arith, in_page f g p)
          ]
        ]
      ]

  read_byte-assign :
      (f : ℕ) (owner : Pointer) (page free : ℕ)
      → f < m.frame_count
      → (g p : ℕ)
      → read_byte (record (assign processes m f owner page) { free_frame_count = free }) g p
        ≡ (if g == f then zero_byte p else read_byte m g p)
  unfolding assign read_byte
  read_byte-assign f owner page free below g p = elim (Bool-cases (g == f)) [
    | inl same ↦ elim (Bool-cases (ltb p page_size)) [
      | inl inside ↦ ground (arith, in_page f g p)
      | inr outside ↦ ground arith
    ]
    | inr other ↦ elim (Bool-cases (bad_byte g p)) [
      | inl bad ↦ ground arith
      | inr good ↦ ground (arith, in_page f g p)
    ]
  ]

  -- In a valid memory, after an allocation that returned frame `f`, every byte of `f` reads as 0,
  -- so that nothing of an earlier owner is seen, and every byte of another frame reads as before.
  read_byte-allocate_frame :
      (f : ℕ) (owner : Pointer) (page : ℕ)
      → (allocate_frame processes m owner page).1 ≡ allocated f
      → (g p : ℕ)
      → read_byte (allocate_frame processes m owner page).0 g p
        ≡ (if g == f then zero_byte p else read_byte m g p)
  read_byte-allocate_frame f owner page h g p =
      elim (allocate_frame-Outcome processes m owner page v) [
        | inl (bad, e) ↦ absurd (cc)
        | inr (inl (good, empty, e)) ↦ absurd (cc)
        | inr (inr (k, good, below, free, first, e)) ↦
            let same : f ≡ k = ground arith in
            rw (e, same) (read_byte-assign k owner page _ below g p)
      ]

  -- In a valid memory, after a replacement of frame `f` that succeeded, every byte of `f` reads
  -- as 0, and every byte of another frame reads as before.
  read_byte-replace_frame :
      (f : ℕ) (owner : Pointer) (page : ℕ)
      → (replace_frame processes m f owner page).1 ≡ success
      → (g p : ℕ)
      → read_byte (replace_frame processes m f owner page).0 g p
        ≡ (if g == f then zero_byte p else read_byte m g p)
  unfolding replace_frame
  read_byte-replace_frame f owner page h g p =
      elim (Bool-cases
        (is_null owner || leb m.frame_count f || is_negative (get_pid processes owner))) [
          | inl bad ↦ absurd (ground arith)
          | inr good ↦ elim (Bool-cases (m.frames f).occupied) [
            | inr free ↦ absurd (ground arith)
            | inl held ↦
                rw (good, held)
                  (read_byte-assign f owner page m.free_frame_count (ground arith) g p)
          ]
        ]

  -- In a valid memory, after a release of frame `f` that succeeded, no byte of `f` can be read,
  -- and every byte of another frame reads as before.
  read_byte-release_frame :
      (f : ℕ)
      → (release_frame m f).1 ≡ success
      → (g p : ℕ) → read_byte (release_frame m f).0 g p ≡ (if g == f then none else read_byte m g p)
  unfolding release_frame read_byte
  read_byte-release_frame f h g p = elim (Bool-cases (is_unusable m f)) [
    | inl bad ↦ absurd (ground arith)
    | inr good ↦ elim (Bool-cases (bad_byte g p)) [
      | inl bad' ↦ ground arith
      | inr good' ↦ ground (arith, in_page f g p)
    ]
  ]

  -- In a valid memory, a page read that succeeds gives at each offset of the page what a byte
  -- read gives there.
  read_byte-read_page :
      (f size offset : ℕ) (page : Page)
      → read_page m f size ≡ some page
      → offset < page_size
      → read_byte m f offset ≡ some (page offset)
  unfolding read_page read_byte
  read_byte-read_page f size offset page h inside =
      elim (Bool-cases (not (size == page_size) || is_unusable m f)) [
        | inl bad ↦ absurd (ground arith)
        | inr good ↦
            let at_offset = ap (Option.map (λ (bytes : Page). bytes offset)) h in ground arith
      ]
