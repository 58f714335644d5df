-- ===== src/Swap/Pages.antt =====
-- src/swap.c: which page a key has, and what a write changes.
use simulador_memoria_virtua.Base.{
  ℕ, ◌+◌, ◌-◌, ◌*◌, ◌<◌, ◌≤◌, ◌≡◌, ◌≢◌, refl, sym, ap, ◌∙◌, Bool, true, false, ◌&&◌, Option, none,
  some, inl, inr, arith, ℤ, ◌⊎◌, copy, is_negative, ◌==ℤ◌, Bool-cases, Option-cases, Status,
  success, failure, no_space, ◌==◌, if◌then◌else◌,
}
use simulador_memoria_virtua.PhysicalMemory.{Page, page_size}
use simulador_memoria_virtua.Swap.{
  Swap, find_page_slot, choose_slot, register_write, write_file, write_at, write_page,
}
use simulador_memoria_virtua.Swap.File.{FileOperations, IsFile}
use simulador_memoria_virtua.Swap.Table.{
  IsValid, is_used, slot_offset_lem, find_page_slot-some, Place, choose_slot-Place,
  register_write-IsValid, find_page_slot-register_write, refile-IsValid, refile-Place, refile-find,
  Place-holds,
}

offset_lem : (k i : ℕ) → k * page_size + i - k * page_size ≡ i
offset_lem k i = omega arith

-- Two slots do not overlap in the file.
apart :
    (j k i : ℕ)
    → j ≢ k
    → i < page_size
    → (j * page_size + i < k * page_size) ⊎ (k * page_size + page_size ≤ j * page_size + i)
apart j k i ne inside = ground arith

module _ {F : Type 0} (io : FileOperations F) (bytes : F → ℕ → ℕ) (position : F → ℕ)
    (law : IsFile io bytes position) where
  -- What a write to the file leaves, when it succeeds, and in any case.
  write_file_done :
      (f : F) (offset : ℕ) (page : Page)
      → (write_file io f offset page).1 ≡ true
      → (i : ℕ) → bytes (write_file io f offset page).0 i ≡ copy (bytes f) offset page_size page i
  unfolding write_file
  write_file_done f offset page done i =
      let sought = io.fseek f offset in
      ground (
        arith,
        law.seek_bytes f offset i,
        law.seek_position f offset,
        law.write_bytes sought.0 page page_size i,
        law.flush_bytes (io.fwrite sought.0 page page_size).0 i,
      )

  write_file_outside :
      (f : F) (offset : ℕ) (page : Page) (i : ℕ)
      → (i < offset) ⊎ (offset + page_size ≤ i)
      → bytes (write_file io f offset page).0 i ≡ bytes f i
  unfolding write_file
  write_file_outside f offset page i out =
      let sought = io.fseek f offset in
      ground (
        arith,
        law.seek_bytes f offset i,
        law.seek_position f offset,
        law.write_bytes sought.0 page page_size i,
        law.write_count-le sought.0 page page_size,
        law.flush_bytes (io.fwrite sought.0 page page_size).0 i,
      )

  -- A byte of the page that a key has in the swap.
  unfoldable pub byte_of : Swap F → ℤ → ℕ → ℕ → Option ℕ
  byte_of s pid page i = elim (find_page_slot s pid page) [
    | none ↦ none
    | some k ↦ some (bytes s.file (k * page_size + i))
  ]

  pub byte_of-some :
      (s : Swap F) (q : ℤ) (w i k : ℕ)
      → find_page_slot s q w ≡ some k
      → byte_of s q w i ≡ some (bytes s.file (k * page_size + i))
  unfolding byte_of
  byte_of-some s q w i k e = ground (arith, e)

  byte_of-none :
      (s : Swap F) (q : ℤ) (w i : ℕ) → find_page_slot s q w ≡ none → byte_of s q w i ≡ none
  unfolding byte_of
  byte_of-none s q w i e = ground (arith, e)

  -- The file after the attempt to write a page into slot `k`.
  abbrev wrote : Swap F → ℕ → Page → F × Bool
  wrote s k page = write_file io s.file (k * page_size) page

  abbrev outcome : Swap F → ℤ → ℕ → ℕ → Bool → Page → Swap F × Status
  outcome s pid vp k new page =
      if (wrote s k page).1
      then (register_write (record s { file = (wrote s k page).0 }) k new pid vp, success)
      else (record s { file = (wrote s k page).0 }, failure)

  write_at-eq :
      (s : Swap F) (pid : ℤ) (vp k : ℕ) (new : Bool) (page : Page)
      → IsValid s
      → k < s.slot_count
      → write_at io s (some k, new) pid vp page ≡ outcome s pid vp k new page
  unfolding write_at
  write_at-eq s pid vp k new page v below = ground (arith, slot_offset_lem s k v below)

  write_page-eq :
      (s : Swap F) (pid : ℤ) (vp k : ℕ) (new : Bool) (page : Page)
      → IsValid s
      → is_negative pid ≡ false
      → choose_slot s pid vp ≡ (some k, new)
      → k < s.slot_count
      → write_page io s pid vp page ≡ outcome s pid vp k new page
  unfolding write_page
  write_page-eq s pid vp k new page v real chosen below =
      rw (real, chosen) (write_at-eq s pid vp k new page v below)

  register_write-file :
      (s : Swap F) (k : ℕ) (new : Bool) (pid : ℤ) (vp : ℕ)
      → (register_write s k new pid vp).file ≡ s.file
  unfolding register_write
  register_write-file s k new pid vp = refl

  byte_of-registered :
      (s : Swap F) (pid : ℤ) (vp k : ℕ) (new : Bool) (page : Page) (q : ℤ) (w i : ℕ)
      → IsValid s
      → is_negative pid ≡ false
      → k < s.slot_count
      → Place s pid vp k new
      → (wrote s k page).1 ≡ true
      → i < page_size
      → byte_of (register_write (record s { file = (wrote s k page).0 }) k new pid vp) q w i
        ≡ (if (pid ==ℤ q) && (vp == w) then some (page i) else byte_of s q w i)
  byte_of-registered s pid vp k new page q w i v real below place done inside =
      let file' : F = (wrote s k page).0 in
      let moved : Swap F = record s { file = file' } in
      let found_after =
        find_page_slot-register_write moved pid vp k new (refile-IsValid s file' v) real below
          (refile-Place s file' pid vp k new place) q w in
      let where_from = refile-find s file' q w in
      let after : Swap F = register_write moved k new pid vp in
      let at_k = write_file_done s.file (k * page_size) page done (k * page_size + i) in
      elim (Bool-cases ((pid ==ℤ q) && (vp == w))) [
        | inl same_key ↦ rw same_key (
            byte_of-some after q w i k (ground (arith, found_after))
            ∙ ground
                (arith, register_write-file moved k new pid vp, at_k, ap page (offset_lem k i)))
        | inr other ↦ rw other (elim (Option-cases (find_page_slot s q w)) [
          | inl miss ↦
              byte_of-none after q w i (ground (arith, found_after, where_from))
              ∙ sym (byte_of-none s q w i miss)
          | inr (j, found) ↦
              let (lt, hit, real_q) = find_page_slot-some s q w j found in
              let out =
                apart j k i (λ e. ground (arith, Place-holds s pid vp k new place q w)) inside in
              byte_of-some after q w i j (ground (arith, found_after, where_from))
              ∙ ap some (
                  ap (λ (file : F). bytes file (j * page_size + i))
                    (register_write-file moved k new pid vp)
                  ∙ write_file_outside s.file (k * page_size) page (j * page_size + i) out)
              ∙ sym (byte_of-some s q w i j found)
        ])
      ]

  -- The three ways in which a write ends.
  data Written (s : Swap F) (pid : ℤ) (vp : ℕ) (page : Page) : Type 0 where
    refused :
        is_negative pid ≡ true → write_page io s pid vp page ≡ (s, failure) → Written s pid vp page
    full :
        find_page_slot s pid vp ≡ none
        → ((j : ℕ) → j < s.slot_count → is_used s j ≡ true)
        → write_page io s pid vp page ≡ (s, no_space)
        → Written s pid vp page
    placed :
        (k : ℕ) (new : Bool)
        → is_negative pid ≡ false
        → k < s.slot_count
        → Place s pid vp k new
        → write_page io s pid vp page ≡ outcome s pid vp k new page
        → Written s pid vp page

  write_page-Written :
      (s : Swap F) (pid : ℤ) (vp : ℕ) (page : Page) → IsValid s → Written s pid vp page
  unfolding write_page write_at
  write_page-Written s pid vp page v = elim (Bool-cases (is_negative pid)) [
    | inl bad ↦ refused bad (ground arith)
    | inr real ↦ elim (choose_slot-Place s pid vp real) [
      | inl (chosen, miss, all) ↦ full miss all (ground (arith, chosen))
      | inr (k, new, chosen, below, place) ↦
          placed k new real below place (write_page-eq s pid vp k new page v real chosen below)
    ]
  ]

  pub write_page-IsValid :
      (s : Swap F) (pid : ℤ) (vp : ℕ) (page : Page)
      → IsValid s
      → IsValid (write_page io s pid vp page).0
  write_page-IsValid s pid vp page v = elim (write_page-Written s pid vp page v) [
    | refused bad e ↦ rw e v
    | full miss all e ↦ rw e v
    | placed k new real below place e ↦
        let file' : F = (wrote s k page).0 in
        let v' = refile-IsValid s file' v in
        rw e (elim (Bool-cases (wrote s k page).1) [
          | inl done ↦ rw done (
              register_write-IsValid (record s { file = file' }) pid vp k new v' below
                (refile-Place s file' pid vp k new place))
          | inr failed ↦ rw failed v'
        ])
  ]

  outcome-file :
      (s : Swap F) (pid : ℤ) (vp k : ℕ) (new : Bool) (page : Page)
      → ((outcome s pid vp k new page).0.file ≡ (wrote s k page).0)
        × ((outcome s pid vp k new page).0.slot_count ≡ s.slot_count)
  unfolding register_write
  outcome-file s pid vp k new page = elim (Bool-cases (wrote s k page).1) [
    | inl done ↦ rw done (refl, refl)
    | inr failed ↦ rw failed (refl, refl)
  ]

  -- On a file that keeps the laws of the C library, `swap_write_page`, whether it succeeds or
  -- fails, keeps a swap valid and its number of slots, and changes no byte of the file past the
  -- last slot. In a valid swap no key has two slots, `used_slot_count` counts the used ones, and
  -- the slots end within LONG_MAX bytes.
  pub write_page-within :
      (s : Swap F) (pid : ℤ) (vp : ℕ) (page : Page) (i : ℕ)
      → IsValid s
      → s.slot_count * page_size ≤ i
      → IsValid (write_page io s pid vp page).0
        × ((write_page io s pid vp page).0.slot_count ≡ s.slot_count)
        × (bytes (write_page io s pid vp page).0.file i ≡ bytes s.file i)
  write_page-within s pid vp page i v past = elim (write_page-Written s pid vp page v) [
    | refused bad e ↦ (write_page-IsValid s pid vp page v, rw e refl, rw e refl)
    | full miss all e ↦ (write_page-IsValid s pid vp page v, rw e refl, rw e refl)
    | placed k new real below place e ↦
        let (file, size) = outcome-file s pid vp k new page in
        (
          write_page-IsValid s pid vp page v,
          ap (λ r. r.0.slot_count) e ∙ size,
          ap (λ r. bytes r.0.file i) e
              ∙ ap (λ f. bytes f i) file
              ∙ write_file_outside s.file (k * page_size) page i (inr (omega (arith, below, past))),
        )
  ]

  -- On a file that keeps the laws of the C library, in a valid swap, after a `swap_write_page`
  -- that succeeded, every byte of the page of its key is the byte that was written, and every
  -- other key has the page that it had before, or none.
  pub byte_of-write_page :
      (s : Swap F) (pid : ℤ) (vp : ℕ) (page : Page) (q : ℤ) (w i : ℕ)
      → IsValid s
      → (write_page io s pid vp page).1 ≡ success
      → i < page_size
      → byte_of (write_page io s pid vp page).0 q w i
        ≡ (if (pid ==ℤ q) && (vp == w) then some (page i) else byte_of s q w i)
  byte_of-write_page s pid vp page q w i v ok inside = elim (write_page-Written s pid vp page v) [
    | refused bad e ↦ absurd (cc)
    | full miss all e ↦ absurd (cc)
    | placed k new real below place e ↦ elim (Bool-cases (wrote s k page).1) [
      | inl done ↦
          rw (e, done) (byte_of-registered s pid vp k new page q w i v real below place done inside)
      | inr failed ↦ absurd (ground (arith, e))
    ]
  ]

  -- A key that is not the one of the write keeps its page even if the file was written in part.
  byte_of-damaged :
      (s : Swap F) (pid : ℤ) (vp k : ℕ) (new : Bool) (page : Page) (q : ℤ) (w i : ℕ)
      → Place s pid vp k new
      → ((pid ==ℤ q) && (vp == w)) ≡ false
      → i < page_size
      → byte_of (record s { file = (wrote s k page).0 }) q w i ≡ byte_of s q w i
  byte_of-damaged s pid vp k new page q w i place other inside =
      let file' : F = (wrote s k page).0 in
      let moved : Swap F = record s { file = file' } in
      elim (Option-cases (find_page_slot s q w)) [
        | inl miss ↦
            byte_of-none moved q w i (refile-find s file' q w ∙ miss)
            ∙ sym (byte_of-none s q w i miss)
        | inr (j, found) ↦
            let (lt, hit, real_q) = find_page_slot-some s q w j found in
            let out =
              apart j k i (λ e. ground (arith, Place-holds s pid vp k new place q w)) inside in
            byte_of-some moved q w i j (refile-find s file' q w ∙ found)
            ∙ ap some (write_file_outside s.file (k * page_size) page (j * page_size + i) out)
            ∙ sym (byte_of-some s q w i j found)
      ]

  -- On a file that keeps the laws of the C library, in a valid swap, a `swap_write_page` that
  -- does not succeed, be the file written in part, leaves every key but the one that was to be
  -- written with the page that it had before, or none.
  pub byte_of-write_page_failed :
      (s : Swap F) (pid : ℤ) (vp : ℕ) (page : Page) (q : ℤ) (w i : ℕ)
      → IsValid s
      → (write_page io s pid vp page).1 ≢ success
      → ((pid ==ℤ q) && (vp == w)) ≡ false
      → i < page_size
      → byte_of (write_page io s pid vp page).0 q w i ≡ byte_of s q w i
  byte_of-write_page_failed s pid vp page q w i v not_ok other inside =
      elim (write_page-Written s pid vp page v) [
        | refused bad e ↦ rw e refl
        | full miss all e ↦ rw e refl
        | placed k new real below place e ↦ elim (Bool-cases (wrote s k page).1) [
          | inl done ↦ absurd (not_ok (ground (arith, e, done)))
          | inr failed ↦
              rw (e, failed) (byte_of-damaged s pid vp k new page q w i place other inside)
        ]
      ]
