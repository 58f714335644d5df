-- ===== src/Tlb/Run.antt =====
-- src/tlb.c: a new cache, `tlb_clear`, and every sequence of calls.
use mathlib.Core.List.{List, [], ◌∷◌, foldl}
use mathlib.Core.Path.{subst}
use simulador_memoria_virtua.Base.{
  ℕ, suc, ◌+◌, ◌<◌, ◌≤◌, ◌≡◌, refl, Bool, true, false, none, some, inl, inr, arith, sym, filled, ℤ,
  is_negative, Bool-cases, count_none, update, u64_max, for_range_inv,
}
use simulador_memoria_virtua.Tlb.{
  TlbEntry, Tlb, lookup, insert, insert_at, register_access, invalidate, invalidate_process,
  invalid_entry, clear, create, zero_entry,
}
use simulador_memoria_virtua.Tlb.View.{view-none, lookup-view}
use simulador_memoria_virtua.Tlb.Valid.{
  IsValid, HasTime, is_valid, lookup-IsValid, invalidate-IsValid,
}
use simulador_memoria_virtua.Tlb.Insert.{insert_lem}
use simulador_memoria_virtua.Tlb.Invalidate.{invalidate_process-IsValid}

-- A cache with no valid entry, at clock 0.
record IsEmpty (t : Tlb) : Type 0 where
  empty : (i : ℕ) → i < t.capacity → ((t.entries i).valid ≡ false) × ((t.entries i).last_access ≡ 0)
  no_size : t.size ≡ 0

IsEmpty-IsValid : (t : Tlb) → 0 < t.capacity → t.capacity < u64_max → IsEmpty t → IsValid t
IsEmpty-IsValid t nonempty sized e = record {
  nonempty = nonempty;
  sized = sized;
  counted = omega (arith, e.no_size, count_none (is_valid t) t.capacity (λ j lt. (e.empty j lt).0));
  distinct = λ i j pid page hi hj mi mj. ground (arith, e.empty i hi);
  past = λ i lt. omega (arith, (e.empty i lt).1);
  ordered = λ i j hi hj vi vj same. ground (arith, e.empty i hi);
  real_pid = λ i lt vi. ground (arith, e.empty i lt);
}

IsEmpty-lookup : (t : Tlb) (pid : ℤ) (page : ℕ) → IsEmpty t → (lookup t pid page).1 ≡ none
IsEmpty-lookup t pid page e = ground (
  arith,
  lookup-view t pid page,
  view-none t.entries t.capacity pid page (λ j lt. ground (arith, e.empty j lt)),
)

-- Given memory, for a capacity from 1 to UINT64_MAX - 1, `tlb_create` returns a valid cache of
-- that capacity in which every key misses.
create-lookup :
    (granted : ℕ → Bool) (capacity : ℕ)
    → granted 0 ≡ true
    → granted 1 ≡ true
    → 0 < capacity
    → capacity < u64_max
    → (t : Tlb) × (create granted capacity ≡ some t)
      × IsValid t
      × (t.capacity ≡ capacity)
      × ((pid : ℤ) (page : ℕ) → (lookup t pid page).1 ≡ none)
unfolding create
create-lookup granted capacity g0 g1 nonempty sized =
    let t : Tlb = record {
      entries = filled zero_entry;
      capacity = capacity;
      size = 0;
      logical_clock = 0;
    } in
    let e : IsEmpty t = record { empty = λ i lt. (refl, refl); no_size = refl } in
    (
      t,
      ground arith,
      IsEmpty-IsValid t nonempty sized e,
      refl,
      λ pid page. IsEmpty-lookup t pid page e,
    )

Cleared : ℕ → (ℕ → TlbEntry) → ℕ → Type 0
Cleared n f i = (j : ℕ) → j < i → f j ≡ invalid_entry

clear-IsEmpty : (t : Tlb) → IsEmpty (clear t)
unfolding clear Cleared
clear-IsEmpty t =
    let all =
      for_range_inv (λ i f. Cleared t.capacity f i)
        (λ index entries. update entries index invalid_entry) t.capacity
        (λ i f below c j lt. ground (arith, c j)) t.capacity 0 t.entries (omega arith)
        (λ j lt. absurd (omega arith)) in
    record { empty = λ i lt. ground (arith, all i lt); no_size = refl }

same_capacity : (t : Tlb) → IsValid t → (0 < (clear t).capacity) × ((clear t).capacity < u64_max)
unfolding clear
same_capacity t v = (v.nonempty, v.sized)

-- After `tlb_clear` of a valid cache, the cache is valid and every key misses.
clear_lem :
    (t : Tlb)
    → IsValid t
    → IsValid (clear t) × ((pid : ℤ) (page : ℕ) → (lookup (clear t) pid page).1 ≡ none)
clear_lem t v = (
  IsEmpty-IsValid (clear t) (same_capacity t v).0 (same_capacity t v).1 (clear-IsEmpty t),
  λ pid page. IsEmpty-lookup (clear t) pid page (clear-IsEmpty t),
)

-- A call on the cache, with its arguments.
pub data Call : Type 0 where
  look : (pid : ℤ) (page : ℕ) → Call
  put : (pid : ℤ) (page frame : ℕ) → Call
  drop : (pid : ℤ) (page : ℕ) → Call
  drop_process : (pid : ℤ) → Call
  drop_all : Call

unfoldable pub perform : Tlb → Call → Tlb
perform t (look pid page) = (lookup t pid page).0
perform t (put pid page frame) = (insert t pid page frame).0
perform t (drop pid page) = (invalidate t pid page).0
perform t (drop_process pid) = (invalidate_process t pid).0
perform t drop_all = clear t

abbrev pub length : List Call → ℕ
length [] = 0
length (call ∷ calls) = suc (length calls)

-- A call advances the clock by one at most.
perform-clock :
    (t : Tlb) (call : Call)
    → t.logical_clock < u64_max
    → (perform t call).logical_clock ≤ t.logical_clock + 1
unfolding perform lookup insert insert_at register_access invalidate invalidate_process clear
perform-clock t (look pid page) h = ground arith
perform-clock t (put pid page frame) h = ground arith
perform-clock t (drop pid page) h = ground arith
perform-clock t (drop_process pid) h = ground arith
perform-clock t drop_all h = ground arith

insert-negative :
    (t : Tlb) (pid : ℤ) (page frame : ℕ) → is_negative pid ≡ true → (insert t pid page frame).0 ≡ t
unfolding insert
insert-negative t pid page frame bad = ground arith

insert-IsValid :
    (t : Tlb) (pid : ℤ) (page frame : ℕ)
    → IsValid t
    → HasTime t
    → IsValid (insert t pid page frame).0
insert-IsValid t pid page frame v time = elim (Bool-cases (is_negative pid)) [
  | inl bad ↦ subst IsValid (sym (insert-negative t pid page frame bad)) v
  | inr real ↦ (insert_lem t pid page frame v time real).4
]

perform-IsValid : (t : Tlb) (call : Call) → IsValid t → HasTime t → IsValid (perform t call)
unfolding perform
perform-IsValid t (look pid page) v time = lookup-IsValid t pid page v time
perform-IsValid t (put pid page frame) v time = insert-IsValid t pid page frame v time
perform-IsValid t (drop pid page) v time = invalidate-IsValid t pid page v
perform-IsValid t (drop_process pid) v time = invalidate_process-IsValid t pid v
perform-IsValid t drop_all v time = (clear_lem t v).0

-- From a valid cache, every sequence of lookups, insertions, invalidations, invalidations of a
-- process and clearings ends in a valid cache, when the clock and the number of calls together do
-- not pass UINT64_MAX: `size` counts the valid entries, no key has two of them, and no two were
-- used at the same time.
pub foldl-perform-IsValid :
    (t : Tlb) (calls : List Call)
    → IsValid t
    → t.logical_clock + length calls ≤ u64_max
    → IsValid (foldl perform t calls)
foldl-perform-IsValid t [] v time = v
foldl-perform-IsValid t (call ∷ calls) v time =
    foldl-perform-IsValid (perform t call) calls (perform-IsValid t call v (omega arith))
      (omega (arith, perform-clock t call (omega arith)))
