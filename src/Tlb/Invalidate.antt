-- ===== src/Tlb/Invalidate.antt =====
-- src/tlb.c: hits, and the calls that take entries out of the cache.
use mathlib.Core.Path.{subst}
use simulador_memoria_virtua.Base.{
  ℕ, ◌+◌, ◌<◌, ◌≡◌, refl, Bool, true, false, ◌&&◌, not, none, inl, inr, arith, sym, ℤ, is_negative,
  ◌==ℤ◌, ==ℤ_iff, Bool-cases, Option-cases, update, find, find-some, find-none, ◌==◌, if◌then◌else◌,
  ltb, count, count-le, count_split, count-suc, u64_max, dec64, for_range_inv,
}
use simulador_memoria_virtua.Tlb.{
  Tlb, Sweep, matches, lookup, register_access, find_existing_entry, invalidate, invalid_entry,
  belongs_to, sweep, sweep_entry, invalidate_process,
}
use simulador_memoria_virtua.Tlb.View.{matches-eq, view-update, view-none, view-congr, lookup-view}
use simulador_memoria_virtua.Tlb.Valid.{IsValid, is_valid, invalidated-IsValid}

-- What a lookup leaves of an entry: all but the time of its last use.
lookup_entry :
    (t : Tlb) (p : ℤ) (v : ℕ) (j : ℕ) (q : ℤ) (w : ℕ)
    → (matches ((lookup t p v).0.entries j) q w ≡ matches (t.entries j) q w)
      × (((lookup t p v).0.entries j).frame_number ≡ (t.entries j).frame_number)
      × ((lookup t p v).0.capacity ≡ t.capacity)
unfolding lookup register_access
lookup_entry t p v j q w = ground arith

-- After `tlb_lookup` every key answers as before.
lookup-lookup :
    (t : Tlb) (p : ℤ) (v : ℕ) (q : ℤ) (w : ℕ) → (lookup (lookup t p v).0 q w).1 ≡ (lookup t q w).1
lookup-lookup t p v q w =
    let after = (lookup t p v).0 in
    ground (
      arith,
      lookup-view after q w,
      lookup-view t q w,
      (lookup_entry t p v 0 q w).2,
      view-congr after.entries t.entries t.capacity q w (λ j lt. (lookup_entry t p v j q w).0)
          (λ j lt hit. (lookup_entry t p v j q w).1),
    )

-- In a valid cache, after `tlb_invalidate` its key misses, and every other key answers as before.
lookup-invalidate :
    (t : Tlb) (p : ℤ) (v : ℕ) (q : ℤ) (w : ℕ)
    → IsValid t
    → (lookup (invalidate t p v).0 q w).1
      ≡ (if (p ==ℤ q) && (v == w) then none else (lookup t q w).1)
unfolding invalidate find_existing_entry
lookup-invalidate t p v q w valid = elim (Bool-cases (is_negative p)) [
  | inl bad ↦ rw bad (ground (arith, lookup-view t q w, ==ℤ_iff p q))
  | inr real ↦ elim (Option-cases (find (λ i. matches (t.entries i) p v) t.capacity)) [
    | inl miss ↦
        rw (real, miss)
          (ground (
            arith,
            lookup-view t q w,
            ==ℤ_iff p q,
            view-none t.entries t.capacity p v
                (λ j lt. find-none (λ i. matches (t.entries i) p v) t.capacity j miss lt),
          ))
    | inr (k, found) ↦
        let (below, hit) = find-some (λ i. matches (t.entries i) p v) t.capacity k found in
        let (held, same_pid, same_page) = matches-eq (t.entries k) p v hit in
        let distinct' = (invalidated-IsValid t k valid below held).distinct in
        let after : Tlb = record t {
          entries = update t.entries k invalid_entry;
          size = dec64 t.size;
        } in
        rw (real, found)
          (ground (
            arith,
            lookup-view after q w,
            lookup-view t q w,
            ==ℤ_iff p q,
            view-update t.entries t.capacity k invalid_entry q w below valid.distinct distinct',
          ))
  ]
]

abbrev pub is_owned : Tlb → ℤ → ℕ → Bool
is_owned t pid j = belongs_to (t.entries j) pid

record IsSwept (t : Tlb) (pid : ℤ) (i : ℕ) (s : Sweep) : Type 0 where
  entries :
      (j : ℕ)
      → s.entries j
        ≡ (if ltb j i && belongs_to (t.entries j) pid then invalid_entry else t.entries j)
  counted : s.invalidated ≡ count (is_owned t pid) i

sweep_entry-IsSwept :
    (t : Tlb) (pid : ℤ) (i : ℕ) (s : Sweep)
    → i < u64_max
    → IsSwept t pid i s
    → IsSwept t pid (i + 1) (sweep_entry pid i s)
unfolding sweep_entry
sweep_entry-IsSwept t pid i s small c = elim (Bool-cases (belongs_to (t.entries i) pid)) [
  | inl hit ↦ record {
    entries = λ j. ground (arith, c.entries j, c.entries i);
    counted =
        ground (
          arith,
          c.counted,
          c.entries i,
          count-suc (is_owned t pid) i,
          count-le (is_owned t pid) i,
        );
  }
  | inr miss ↦ record {
    entries = λ j. ground (arith, c.entries j, c.entries i);
    counted = ground (arith, c.counted, c.entries i, count-suc (is_owned t pid) i);
  }
]

module _ (t : Tlb) (pid : ℤ) (v : IsValid t) where
  abbrev start : Sweep
  start = record { entries = t.entries; invalidated = 0 }

  sweep-IsSwept : IsSwept t pid t.capacity (sweep t pid)
  unfolding sweep count
  sweep-IsSwept =
      for_range_inv (IsSwept t pid) (sweep_entry pid) t.capacity
        (λ i s below c. sweep_entry-IsSwept t pid i s (omega (arith, v.sized)) c) t.capacity 0 start
        (omega arith) (record { entries = λ j. ground arith; counted = refl })

  abbrev after : Tlb
  after = (invalidate_process t pid).0

  after_entry :
      (j : ℕ)
      → is_negative pid ≡ false
      → j < t.capacity
      → after.entries j ≡ (if belongs_to (t.entries j) pid then invalid_entry else t.entries j)
  unfolding invalidate_process
  after_entry j real lt = ground (arith, sweep-IsSwept.entries j)

  -- In a valid cache, for a pid that is not negative, `tlb_invalidate_process` returns the number
  -- of valid entries of that pid, and `size` falls by that number without wrapping.
  invalidate_process-count :
      is_negative pid ≡ false
      → ((invalidate_process t pid).1 ≡ count (is_owned t pid) t.capacity)
        × (after.size + (invalidate_process t pid).1 ≡ t.size)
  unfolding invalidate_process
  invalidate_process-count real =
      let fewer =
        count_split (is_valid t) (is_owned t pid)
          (λ j. (t.entries j).valid && not (belongs_to (t.entries j) pid)) t.capacity
          (λ j lt. ground arith) in
      let bound = count-le (is_valid t) t.capacity in
      let swept = sweep-IsSwept.counted in
      (ground (arith, swept), ground (arith, swept, v.counted, v.sized, fewer, bound))

  after_capacity : after.capacity ≡ t.capacity
  unfolding invalidate_process
  after_capacity = ground arith

  same_clock : after.logical_clock ≡ t.logical_clock
  unfolding invalidate_process
  same_clock = ground arith

  matches_after :
      (j : ℕ) (q : ℤ) (w : ℕ)
      → is_negative pid ≡ false
      → j < t.capacity
      → matches (after.entries j) q w ≡ (not (pid ==ℤ q) && matches (t.entries j) q w)
  matches_after j q w real lt = ground (
    arith,
    after_entry j real lt,
    ==ℤ_iff (t.entries j).pid pid,
    ==ℤ_iff (t.entries j).pid q,
    ==ℤ_iff pid q,
  )

  -- In a valid cache, for a pid that is not negative, after `tlb_invalidate_process` every page
  -- of that pid misses, and every key of another pid answers as before.
  pub lookup-invalidate_process :
      (q : ℤ) (w : ℕ)
      → is_negative pid ≡ false
      → (lookup after q w).1 ≡ (if pid ==ℤ q then none else (lookup t q w).1)
  lookup-invalidate_process q w real = elim (Bool-cases (pid ==ℤ q)) [
    | inl same ↦ ground (
      arith,
      lookup-view after q w,
      after_capacity,
      view-none after.entries t.capacity q w (λ j lt. ground (arith, matches_after j q w real lt)),
    )
    | inr other ↦ ground (
      arith,
      lookup-view after q w,
      lookup-view t q w,
      after_capacity,
      view-congr after.entries t.entries t.capacity q w
          (λ j lt. ground (arith, matches_after j q w real lt))
          (λ j lt hit. ground (arith, after_entry j real lt)),
    )
  ]

  after_negative : is_negative pid ≡ true → after ≡ t
  unfolding invalidate_process
  after_negative bad = ground arith

  after_counted : is_negative pid ≡ false → after.size ≡ count (is_valid after) after.capacity
  after_counted real =
      let (returned, fewer) = invalidate_process-count real in
      let split =
        count_split (is_valid t) (is_owned t pid) (is_valid after) t.capacity
          (λ j lt. ground (arith, after_entry j real lt)) in
      rw after_capacity (omega (arith, returned, fewer, split, v.counted))

  pub invalidate_process-IsValid : IsValid after
  invalidate_process-IsValid = elim (Bool-cases (is_negative pid)) [
    | inl bad ↦ subst IsValid (sym (after_negative bad)) v
    | inr real ↦ record {
      nonempty = omega (arith, v.nonempty, after_capacity);
      sized = omega (arith, v.sized, after_capacity);
      counted = after_counted real;
      distinct = λ i j q w hi hj mi mj. ground (
        arith,
        after_capacity,
        matches_after i q w real,
        matches_after j q w real,
        v.distinct i j q w,
      );
      past = λ i lt. ground (arith, after_capacity, after_entry i real, v.past i, same_clock);
      ordered = λ i j hi hj vi vj e.
          ground (arith, after_capacity, after_entry i real, after_entry j real, v.ordered i j);
      real_pid = λ i lt vi. ground (arith, after_capacity, after_entry i real, v.real_pid i);
    }
  ]
