-- ===== src/Swap/Reads.antt =====
-- src/swap.c: what `swap_read_page` gives, and that it gives back what was written.
use simulador_memoria_virtua.Base.{
  ℕ, ◌+◌, ◌*◌, ◌<◌, ◌≡◌, ◌≢◌, sym, ap, ◌∙◌, Bool, true, none, some, inl, inr, arith, ℤ, ==ℤ_iff,
  Bool-cases, Option-cases, inc64, success, failure, if◌then◌else◌,
}
use simulador_memoria_virtua.PhysicalMemory.{Page, page_size}
use simulador_memoria_virtua.Swap.{Swap, find_page_slot, write_page, read_file, read_at, read_page}
use simulador_memoria_virtua.Swap.File.{FileOperations, IsFile}
use simulador_memoria_virtua.Swap.Table.{IsValid, slot_offset_lem, find_page_slot-some}
use simulador_memoria_virtua.Swap.Pages.{
  byte_of, byte_of-some, byte_of-write_page, write_page-IsValid,
}

module _ {F : Type 0} (io : FileOperations F) (bytes : F → ℕ → ℕ) (position : F → ℕ)
    (law : IsFile io bytes position) where
  read_file_done :
      (f : F) (offset : ℕ) (buffer : Page)
      → (read_file io f offset buffer).2 ≡ true
      → (i : ℕ) → i < page_size
      → (read_file io f offset buffer).1 i ≡ bytes f (offset + i)
  unfolding read_file
  read_file_done f offset buffer done i inside =
      let sought = io.fseek f offset in
      ground (
        arith,
        law.seek_position f offset,
        law.seek_bytes f offset (offset + i),
        law.read_page sought.0 buffer page_size i,
      )

  abbrev got : Swap F → ℕ → Page → F × Page × Bool
  got s k buffer = read_file io s.file (k * page_size) buffer

  read_page-eq :
      (s : Swap F) (pid : ℤ) (vp k : ℕ) (buffer : Page)
      → IsValid s
      → find_page_slot s pid vp ≡ some k
      → read_page io s pid vp buffer ≡ (
          if (got s k buffer).2
          then (
            record s { file = (got s k buffer).0; reads = inc64 s.reads },
            (got s k buffer).1,
            success,
          )
          else (record s { file = (got s k buffer).0 }, (got s k buffer).1, failure))
  unfolding read_page read_at
  read_page-eq s pid vp k buffer v found =
      let (lt, hit, real) = find_page_slot-some s pid vp k found in
      ground (arith, slot_offset_lem s k v lt)

  read_page-absent :
      (s : Swap F) (pid : ℤ) (vp : ℕ) (buffer : Page)
      → find_page_slot s pid vp ≡ none
      → (read_page io s pid vp buffer).2 ≢ success
  unfolding read_page
  read_page-absent s pid vp buffer miss ok = ground arith

  pub byte_of-read_page :
      (s : Swap F) (pid : ℤ) (vp : ℕ) (buffer : Page) (i : ℕ)
      → IsValid s
      → (read_page io s pid vp buffer).2 ≡ success
      → i < page_size
      → byte_of io bytes position law s pid vp i ≡ some ((read_page io s pid vp buffer).1 i)
  byte_of-read_page s pid vp buffer i v ok inside = elim (Option-cases (find_page_slot s pid vp)) [
    | inl miss ↦ absurd (read_page-absent s pid vp buffer miss ok)
    | inr (k, found) ↦
        let e = read_page-eq s pid vp k buffer v found in
        elim (Bool-cases (got s k buffer).2) [
          | inl done ↦
              rw (e, done)
                (byte_of-some io bytes position law s pid vp i k found
                  ∙ ap some (sym (read_file_done s.file (k * page_size) buffer done i inside)))
          | inr failed ↦ absurd (ground (arith, e))
        ]
  ]

  -- On a file that keeps the laws of the C library, in a valid swap, when a `swap_write_page`
  -- succeeded and then a `swap_read_page` of the same key succeeds, the buffer holds the page
  -- that was written.
  pub read_page-write_page :
      (s : Swap F) (pid : ℤ) (vp : ℕ) (page buffer : Page) (i : ℕ)
      → IsValid s
      → (write_page io s pid vp page).1 ≡ success
      → (read_page io (write_page io s pid vp page).0 pid vp buffer).2 ≡ success
      → i < page_size
      → (read_page io (write_page io s pid vp page).0 pid vp buffer).1 i ≡ page i
  read_page-write_page s pid vp page buffer i v written read inside =
      let after : Swap F = (write_page io s pid vp page).0 in
      let stored =
        byte_of-write_page io bytes position law s pid vp page pid vp i v written inside in
      let loaded =
        byte_of-read_page after pid vp buffer i
          (write_page-IsValid io bytes position law s pid vp page v) read inside in
      ground (arith, stored, loaded, ==ℤ_iff pid pid)
