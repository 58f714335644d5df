-- ===== src/Tlb/Insert.antt =====
-- src/tlb.c: `tlb_insert`, the entry that it takes and what the cache answers afterwards.
use simulador_memoria_virtua.Base.{
  ℕ, ◌<◌, ◌≤◌, ◌≡◌, ◌≢◌, refl, true, false, ◌&&◌, not, none, some, inl, inr, arith, ℤ, is_negative,
  ◌==ℤ◌, ==ℤ_iff, Option-cases, find, find-some, find-none, find_first, ◌==◌, if◌then◌else◌,
  count-le, inc64, success, oldest, oldest-some, oldest_total,
}
use simulador_memoria_virtua.Tlb.{
  Tlb, matches, lookup, insert, insert_at, register_access, choose_entry, find_existing_entry,
  find_free_entry, find_lru_entry, new_entry,
}
use simulador_memoria_virtua.Tlb.View.{
  IsFresh, IsDistinct-IsFresh, matches-eq, view-update, lookup-view,
}
use simulador_memoria_virtua.Tlb.Valid.{IsValid, HasTime, is_valid, register_access-IsValid}

abbrev pub Absent : Tlb → ℤ → ℕ → Type 0
Absent t pid page = (j : ℕ) → j < t.capacity → matches (t.entries j) pid page ≡ false

-- The entry that an insertion takes: the key's own; for a new key the first free one; in a full
-- cache the one that was used least recently.
pub data Place (t : Tlb) (pid : ℤ) (page index : ℕ) : Type 0 where
  existing : matches (t.entries index) pid page ≡ true → Place t pid page index
  free :
      Absent t pid page
      → is_valid t index ≡ false
      → ((j : ℕ) → j < index → is_valid t j ≡ true)
      → Place t pid page index
  evicted :
      Absent t pid page
      → ((j : ℕ) → j < t.capacity → is_valid t j ≡ true)
      → ((j : ℕ) → j < t.capacity → (t.entries index).last_access ≤ (t.entries j).last_access)
      → Place t pid page index

-- The cache after the key was put into entry `index`.
abbrev pub stored : Tlb → ℤ → ℕ → ℕ → ℕ → Tlb
stored t pid page frame index =
    register_access (record t { size = if is_valid t index then t.size else inc64 t.size }) index
      (new_entry (t.entries index) pid page frame)

-- What an insertion that succeeds leaves.
abbrev pub Inserted : Tlb → ℤ → ℕ → ℕ → Type 0
Inserted t pid page frame =
    (index : ℕ) × (index < t.capacity)
    × Place t pid page index
    × ((insert t pid page frame).1 ≡ success)
    × IsValid (insert t pid page frame).0
    × ((q : ℤ) (w : ℕ)
        → (lookup (insert t pid page frame).0 q w).1 ≡ (
            if (pid ==ℤ q) && (page == w)
            then some frame
            else if matches (t.entries index) q w
            then none
            else (lookup t q w).1))

module _ (t : Tlb) (pid : ℤ) (page frame : ℕ) (v : IsValid t) (time : HasTime t)
    (real : is_negative pid ≡ false) where
  evict :
      Absent t pid page
      → find (λ i. not (t.entries i).valid) t.capacity ≡ none
      → find (λ i. matches (t.entries i) pid page) t.capacity ≡ none
      → (index : ℕ) × (index < t.capacity)
        × Place t pid page index
        × (insert t pid page frame ≡ (stored t pid page frame index, success))
  unfolding insert find_existing_entry choose_entry find_free_entry find_lru_entry insert_at
  evict absent full miss = at found.0 found.1
    where
      all : (j : ℕ) → j < t.capacity → is_valid t j ≡ true
      all j lt = ground (arith, find-none (λ i. not (t.entries i).valid) t.capacity j)

      found : (k : ℕ) × (oldest (is_valid t) (λ i. (t.entries i).last_access) t.capacity ≡ some k)
      found =
          oldest_total (is_valid t) (λ i. (t.entries i).last_access) t.capacity 0 v.nonempty
            (all 0 v.nonempty) (omega (arith, v.past 0 v.nonempty))

      at :
          (k : ℕ)
          → oldest (is_valid t) (λ i. (t.entries i).last_access) t.capacity ≡ some k
          → (index : ℕ) × (index < t.capacity)
            × Place t pid page index
            × (insert t pid page frame ≡ (stored t pid page frame index, success))
      at k hit =
          let (below, valid, least, first) =
            oldest-some (is_valid t) (λ i. (t.entries i).last_access) t.capacity k hit in
          (k, below, evicted absent all (λ j lt. least j lt (all j lt)), ground arith)

  pub insert-Place :
      (index : ℕ) × (index < t.capacity)
      × Place t pid page index
      × (insert t pid page frame ≡ (stored t pid page frame index, success))
  unfolding insert find_existing_entry choose_entry find_free_entry find_lru_entry insert_at
  insert-Place = elim (Option-cases (find (λ i. matches (t.entries i) pid page) t.capacity)) [
    | inr (k, found) ↦
        let (below, hit) = find-some (λ i. matches (t.entries i) pid page) t.capacity k found in
        let (valid, same_pid, same_page) = matches-eq (t.entries k) pid page hit in
        (k, below, existing hit, rw (real, found) (ground arith))
    | inl miss ↦
        let absent = λ (j : ℕ) (below : j < t.capacity).
          find-none (λ i. matches (t.entries i) pid page) t.capacity j miss below in
        elim (Option-cases (find (λ i. not (t.entries i).valid) t.capacity)) [
          | inr (k, found) ↦
              let (below, hit) = find-some (λ i. not (t.entries i).valid) t.capacity k found in
              let empty : is_valid t k ≡ false = ground arith in
              (
                k,
                below,
                free absent empty (λ j lt.
                    ground (arith, find_first (λ i. not (t.entries i).valid) t.capacity k j)),
                ground arith,
              )
          | inl full ↦ evict absent full miss
        ]
  ]

  -- No entry but the chosen one has the key.
  Place-others :
      (index : ℕ)
      → index < t.capacity
      → Place t pid page index
      → (j : ℕ) → j < t.capacity
      → index ≢ j
      → matches (t.entries j) pid page ≡ false
  Place-others index below (existing hit) j lt ne =
      IsDistinct-IsFresh t.entries t.capacity index v.distinct below j pid page lt ne hit
  Place-others index below (free absent empty first) j lt ne = absent j lt
  Place-others index below (evicted absent all least) j lt ne = absent j lt

  Place-IsFresh :
      (index : ℕ)
      → index < t.capacity
      → Place t pid page index
      → IsFresh t.entries t.capacity index (new_entry (t.entries index) pid page frame)
  Place-IsFresh index below place j q w lt ne hit =
      let (valid, same_pid, same_page) =
        matches-eq (new_entry (t.entries index) pid page frame) q w hit in
      rw (← same_pid, ← same_page) (Place-others index below place j lt ne)

  stored-IsValid :
      (index : ℕ)
      → index < t.capacity
      → Place t pid page index
      → IsValid (stored t pid page frame index)
  stored-IsValid index below place =
      register_access-IsValid t index (if is_valid t index then t.size else inc64 t.size)
        (new_entry (t.entries index) pid page frame) v time below refl real
        (ground (arith, v.counted, v.sized, count-le (is_valid t) t.capacity))
        (Place-IsFresh index below place)

  lookup-stored :
      (index : ℕ)
      → index < t.capacity
      → Place t pid page index
      → (q : ℤ) (w : ℕ)
      → (lookup (stored t pid page frame index) q w).1 ≡ (
          if (pid ==ℤ q) && (page == w)
          then some frame
          else if matches (t.entries index) q w
          then none
          else (lookup t q w).1)
  unfolding register_access
  lookup-stored index below place q w = ground (
    arith,
    lookup-view (stored t pid page frame index) q w,
    lookup-view t q w,
    ==ℤ_iff pid q,
    view-update t.entries t.capacity index
        (record (new_entry (t.entries index) pid page frame) {
          last_access = inc64 t.logical_clock;
        })
        q w below v.distinct (stored-IsValid index below place).distinct,
  )

  -- For a pid that is not negative, in a valid cache whose clock can tick, `tlb_insert` succeeds.
  -- It takes the key's own entry, or for a new key the first free entry, or in a full cache one
  -- with the least time of use. Afterwards a lookup of the key gives the frame number, the key
  -- that the entry held before, if it is another, misses, every other key answers as before, and
  -- the cache is valid.
  pub insert_lem : Inserted t pid page frame
  insert_lem =
      let (index, below, place, e) = insert-Place in
      (
        index,
        below,
        place,
        rw e refl,
        rw e (stored-IsValid index below place),
        rw e (lookup-stored index below place),
      )
