-- ===== src/Tlb/Valid.antt =====
-- src/tlb.c: what holds of a cache between calls, and that every call keeps it.
use simulador_memoria_virtua.Base.{
  ℕ, ◌+◌, ◌<◌, ◌≤◌, ◌≡◌, Bool, true, false, inl, inr, arith, ap, ℤ, is_negative, Bool-cases,
  Option-cases, update, find, find-some, count, bit, count_change, count-le, count_pos, u64_max,
  inc64, dec64,
}
use simulador_memoria_virtua.Tlb.{
  TlbEntry, Tlb, matches, lookup, register_access, find_existing_entry, invalidate, invalid_entry,
}
use simulador_memoria_virtua.Tlb.View.{
  IsDistinct, IsFresh, IsDistinct-IsFresh, matches-eq, update-IsDistinct,
}

abbrev pub is_valid : Tlb → ℕ → Bool
is_valid t index = (t.entries index).valid

pub record IsValid (t : Tlb) : Type 0 where
  pub nonempty : 0 < t.capacity
  -- `calloc` gave `capacity` entries, each of them several bytes long
  pub sized : t.capacity < u64_max
  pub counted : t.size ≡ count (is_valid t) t.capacity
  pub distinct : IsDistinct t.entries t.capacity
  -- no entry was used later than now, and no two valid ones at the same time
  pub past : (i : ℕ) → i < t.capacity → (t.entries i).last_access ≤ t.logical_clock
  pub ordered :
      (i j : ℕ)
      → i < t.capacity
      → j < t.capacity
      → is_valid t i ≡ true
      → is_valid t j ≡ true
      → (t.entries i).last_access ≡ (t.entries j).last_access
      → i ≡ j
  -- no entry is of a negative pid
  pub real_pid :
      (i : ℕ) → i < t.capacity → is_valid t i ≡ true → is_negative (t.entries i).pid ≡ false

-- The clock can tick once more, and the scan for the least recently used entry sees every entry.
abbrev pub HasTime : Tlb → Type 0
HasTime t = t.logical_clock < u64_max

-- Entry `index` becomes `entry`, used now; no other entry may have its key.
pub register_access-IsValid :
    (t : Tlb) (index size : ℕ) (entry : TlbEntry)
    → IsValid t
    → HasTime t
    → index < t.capacity
    → entry.valid ≡ true
    → is_negative entry.pid ≡ false
    → size + bit (is_valid t index) ≡ t.size + 1
    → IsFresh t.entries t.capacity index entry
    → IsValid (register_access (record t { size = size }) index entry)
unfolding register_access
register_access-IsValid t index size entry v time below valid real counter fresh =
    let entry' : TlbEntry = record entry { last_access = inc64 t.logical_clock } in
    let now : Tlb = register_access (record t { size = size }) index entry in
    let change =
      count_change (is_valid t) (is_valid now) t.capacity index below (λ j ne. ground arith) in
    let here : is_valid now index ≡ true = ground arith in
    record {
      nonempty = v.nonempty;
      sized = v.sized;
      counted = omega (arith, v.counted, change, ap bit here);
      distinct = update-IsDistinct t.entries t.capacity index entry' v.distinct fresh;
      past = λ i lt. ground (arith, v.past i lt);
      ordered = λ i j hi hj vi vj e. ground (arith, v.past i hi, v.past j hj, v.ordered i j);
      real_pid = λ i lt vi. ground (arith, v.real_pid i lt);
    }

pub lookup-IsValid :
    (t : Tlb) (pid : ℤ) (page : ℕ) → IsValid t → HasTime t → IsValid (lookup t pid page).0
unfolding lookup
lookup-IsValid t pid page v time = elim (Bool-cases (is_negative pid)) [
  | inl bad ↦ rw bad v
  | inr real ↦ elim (Option-cases (find (λ i. matches (t.entries i) pid page) t.capacity)) [
    | inl miss ↦ rw (real, miss) v
    | inr (k, found) ↦
        let (below, hit) = find-some (λ i. matches (t.entries i) pid page) t.capacity k found in
        let (valid, same_pid, same_page) = matches-eq (t.entries k) pid page hit in
        rw (real, found)
          (register_access-IsValid t k t.size (t.entries k) v time below valid
            (v.real_pid k below valid) (ap (λ b. t.size + bit b) valid)
            (IsDistinct-IsFresh t.entries t.capacity k v.distinct below))
  ]
]

-- Entry `k` is emptied, and the counter follows.
pub invalidated-IsValid :
    (t : Tlb) (k : ℕ)
    → IsValid t
    → k < t.capacity
    → is_valid t k ≡ true
    → IsValid (record t { entries = update t.entries k invalid_entry; size = dec64 t.size })
invalidated-IsValid t k v below valid =
    let after : Tlb = record t {
      entries = update t.entries k invalid_entry;
      size = dec64 t.size;
    } in
    let change =
      count_change (is_valid t) (is_valid after) t.capacity k below (λ j ne. ground arith) in
    let gone : is_valid after k ≡ false = ground arith in
    let positive = count_pos (is_valid t) t.capacity k below valid in
    let few = count-le (is_valid t) t.capacity in
    record {
      nonempty = v.nonempty;
      sized = v.sized;
      counted = omega (arith, v.counted, v.sized, change, ap bit gone, ap bit valid);
      distinct =
          update-IsDistinct t.entries t.capacity k invalid_entry v.distinct
            (λ j pid page hj ne hit. absurd (cc));
      past = λ i lt. ground (arith, v.past i lt);
      ordered = λ i j hi hj vi vj e. ground (arith, v.ordered i j);
      real_pid = λ i lt vi. ground (arith, v.real_pid i lt);
    }

pub invalidate-IsValid :
    (t : Tlb) (pid : ℤ) (page : ℕ) → IsValid t → IsValid (invalidate t pid page).0
unfolding invalidate find_existing_entry
invalidate-IsValid t pid page v = elim (Bool-cases (is_negative pid)) [
  | inl bad ↦ rw bad v
  | inr real ↦ elim (Option-cases (find (λ i. matches (t.entries i) pid page) t.capacity)) [
    | inl miss ↦ rw (real, miss) v
    | inr (k, found) ↦
        let (below, hit) = find-some (λ i. matches (t.entries i) pid page) t.capacity k found in
        let (valid, same_pid, same_page) = matches-eq (t.entries k) pid page hit in
        rw (real, found) (invalidated-IsValid t k v below valid)
  ]
]
