-- ===== src/Tests/Cache.antt =====
-- src/tlb.c: the theorems at a cache of two entries, both of them in use.
use simulador_memoria_virtua.Base.{◌≡◌, refl, arith, none, pos, filled, count, find, find_from}
use mathlib.Core.List.{List, [], ◌∷◌, foldl}
use simulador_memoria_virtua.Tlb.{
  Tlb, lookup, insert, insert_at, choose_entry, find_existing_entry, find_free_entry,
  register_access, invalidate_process, zero_entry,
}
use simulador_memoria_virtua.Tlb.Valid.{IsValid, HasTime}
use simulador_memoria_virtua.Tlb.Insert.{Inserted, insert_lem}
use simulador_memoria_virtua.Tlb.Invalidate.{lookup-invalidate_process}
use simulador_memoria_virtua.Tlb.Run.{Call, look, put, perform, foldl-perform-IsValid}

abbrev empty_cache : Tlb
empty_cache = record { entries = filled zero_entry; capacity = 2; size = 0; logical_clock = 0 }

empty_cache-IsValid : IsValid empty_cache
unfolding count
empty_cache-IsValid = record {
  nonempty = omega arith;
  sized = omega arith;
  counted = refl;
  distinct = λ i j pid page hi hj mi mj. absurd (cc);
  past = λ i lt. omega arith;
  ordered = λ i j hi hj vi vj e. absurd (cc);
  real_pid = λ i lt vi. absurd (cc);
}

abbrev calls : List Call
calls = put (pos 1) 10 3 ∷ put (pos 2) 11 4 ∷ look (pos 1) 10 ∷ []

-- Both entries are in use, and the one of process 1 was used last.
abbrev full_cache : Tlb
full_cache = foldl perform empty_cache calls

foldl-perform-IsValid_example : IsValid (foldl perform empty_cache calls)
foldl-perform-IsValid_example =
    foldl-perform-IsValid empty_cache calls empty_cache-IsValid (omega arith)

full_cache-IsValid : IsValid full_cache
full_cache-IsValid = foldl-perform-IsValid empty_cache calls empty_cache-IsValid (omega arith)

full_cache-HasTime : HasTime full_cache
unfolding perform insert insert_at choose_entry find_existing_entry find_free_entry find find_from
    register_access lookup
full_cache-HasTime = omega arith

insert_lem_example : Inserted full_cache (pos 3) 12 5
insert_lem_example = insert_lem full_cache (pos 3) 12 5 full_cache-IsValid full_cache-HasTime refl

lookup-invalidate_process_example :
    (lookup (invalidate_process full_cache (pos 1)).0 (pos 1) 10).1 ≡ none
lookup-invalidate_process_example =
    lookup-invalidate_process full_cache (pos 1) full_cache-IsValid (pos 1) 10 refl
