-- ===== src/Swap/Removal.antt =====
-- src/swap.c: `swap_create`, and `swap_remove_page`.
use mathlib.Core.Path.{subst}
use simulador_memoria_virtua.Base.{
  ℕ, ◌*◌, ◌/◌, ◌%◌, ◌<◌, ◌≤◌, ◌≡◌, refl, sym, ap, ◌∙◌, Bool, true, false, ◌&&◌, ◌||◌, not, Option,
  none, some, inl, inr, arith, ℤ, is_negative, ◌==ℤ◌, ==ℤ_iff, Bool-cases, Option-cases, update,
  count_none, count_change, count_pos, count-le, bit, filled, u64_max, u64_mod, dec64, success,
  failure, ◌==◌, ltb, if◌then◌else◌,
}
use simulador_memoria_virtua.PhysicalMemory.{page_size}
use simulador_memoria_virtua.Swap.{
  Swap, free_slot, zero_slot, long_max, holds, find_page_slot, contains_page, remove_page, create,
  initialize_file,
}
use simulador_memoria_virtua.Swap.File.{FileOperations}
use simulador_memoria_virtua.Swap.Table.{
  IsValid, is_used, holds-eq, find_page_slot-some, find_page_slot_at, find_page_slot-none,
  find_page_slot_absent, find_page_slot_negative,
}

module _ {F : Type 0} where
  -- The swap with slot `k` freed.
  abbrev freed : Swap F → ℕ → Swap F
  freed s k = record s {
    slots = update s.slots k free_slot;
    used_slot_count = dec64 s.used_slot_count;
  }

  freed-IsValid :
      (s : Swap F) (k : ℕ) → IsValid s → k < s.slot_count → is_used s k ≡ true → IsValid (freed s k)
  freed-IsValid s k v below used =
      let change =
        count_change (is_used s) (is_used (freed s k)) s.slot_count k below
          (λ j ne. ground arith) in
      let gone : is_used (freed s k) k ≡ false = ground arith in
      record {
        sized = v.sized;
        counted = ground (
          arith,
          v.counted,
          v.sized,
          change,
          ap bit used,
          ap bit gone,
          count-le (is_used s) s.slot_count,
          count_pos (is_used s) s.slot_count k below used,
        );
        distinct = λ i j q w hi hj mi mj. ground (arith, v.distinct i j q w);
      }

  find_page_slot-freed :
      (s : Swap F) (pid : ℤ) (page k : ℕ) (q : ℤ) (w : ℕ)
      → IsValid s
      → find_page_slot s pid page ≡ some k
      → find_page_slot (freed s k) q w
        ≡ (if (pid ==ℤ q) && (page == w) then none else find_page_slot s q w)
  find_page_slot-freed s pid page k q w v found =
      let (below, hit, real) = find_page_slot-some s pid page k found in
      let (used, same_pid, same_page) = holds-eq (s.slots k) pid page hit in
      let v' = freed-IsValid s k v below used in
      elim (Bool-cases ((pid ==ℤ q) && (page == w))) [
        | inl same_key ↦ rw same_key (
            find_page_slot_absent (freed s k) q w (λ j lt.
              elim (Bool-cases (holds ((freed s k).slots j) q w)) [
                | inl still ↦ absurd (ground (arith, ==ℤ_iff pid q, v.distinct j k pid page))
                | inr gone ↦ gone
              ]))
        | inr other ↦ rw other (elim (Option-cases (find_page_slot s q w)) [
          | inr (j, at_j) ↦
              let (lt, hit', real_q) = find_page_slot-some s q w j at_j in
              let key = holds-eq (s.slots j) q w hit' in
              find_page_slot_at (freed s k) q w j v'.distinct real_q lt
                (ground (arith, key, ==ℤ_iff pid q))
              ∙ sym at_j
          | inl miss ↦ elim (Bool-cases (is_negative q)) [
            | inl bad ↦ find_page_slot_negative (freed s k) q w bad ∙ sym miss
            | inr real_q ↦
                find_page_slot_absent (freed s k) q w
                  (λ j lt. ground (arith, find_page_slot-none s q w miss real_q j))
                ∙ sym miss
          ]
        ])
      ]

  -- What a removal leaves.
  abbrev pub Removed : Swap F → ℤ → ℕ → Type 0
  Removed s pid page =
      ((remove_page s pid page).1 ≡ (if contains_page s pid page then success else failure))
      × IsValid (remove_page s pid page).0
      × ((q : ℤ) (w : ℕ)
          → find_page_slot (remove_page s pid page).0 q w
            ≡ (if (pid ==ℤ q) && (page == w) then none else find_page_slot s q w))

  -- In a valid swap `swap_remove_page` succeeds exactly if the swap contains the page. Afterwards
  -- the key has no slot, every other key has the slot that it had before, and the swap is valid.
  pub remove_page-Removed : (s : Swap F) (pid : ℤ) (page : ℕ) → IsValid s → Removed s pid page
  unfolding remove_page contains_page
  remove_page-Removed s pid page v = elim (Option-cases (find_page_slot s pid page)) [
    | inr (k, found) ↦
        let (below, hit, real) = find_page_slot-some s pid page k found in
        let (used, same_pid, same_page) = holds-eq (s.slots k) pid page hit in
        let there : contains_page s pid page ≡ true = ground (arith, found) in
        rw (there, real, found)
          (
            refl,
            freed-IsValid s k v below used,
            λ q w. find_page_slot-freed s pid page k q w v found,
          )
    | inl miss ↦
        let missing : contains_page s pid page ≡ false = ground (arith, miss) in
        let e : remove_page s pid page ≡ (s, failure) = ground (arith, miss) in
        rw (missing, e) (refl, v, λ q w. ground (arith, ==ℤ_iff pid q, miss))
  ]

module _ {F : Type 0} (io : FileOperations F) where
  -- A file is only set up for a table whose bytes a `long` can count.
  initialize_file-sized :
      (file : F) (n : ℕ) → (initialize_file io file n).1 ≡ true → n * page_size ≤ long_max
  unfolding initialize_file
  initialize_file-sized file n h =
      elim (Bool-cases
        (n == 0 || ltb (u64_max / page_size) n || ltb long_max ((n * page_size) % u64_mod))) [
          | inl bad ↦ absurd (ground arith)
          | inr good ↦
              let e : (n * page_size) % u64_mod ≡ n * page_size = ground arith in ground (arith, e)
        ]

  -- The table of a new swap.
  abbrev New : ℕ → Swap F → Type 0
  New n s = IsValid s × (s.slot_count ≡ n) × ((q : ℤ) (w : ℕ) → find_page_slot s q w ≡ none)

  abbrev fresh : F → ℕ → Bool → Swap F
  fresh file n remove_file_on_destroy = record {
    file = (initialize_file io file n).0;
    slots = filled zero_slot;
    slot_count = n;
    used_slot_count = 0;
    remove_file_on_destroy = remove_file_on_destroy;
    reads = 0;
    writes = 0;
  }

  fresh-New :
      (file : F) (n : ℕ) (remove_file_on_destroy : Bool)
      → (initialize_file io file n).1 ≡ true
      → New n (fresh file n remove_file_on_destroy)
  fresh-New file n remove_file_on_destroy done = (
    record {
      sized = initialize_file-sized file n done;
      counted = sym (count_none (is_used (fresh file n remove_file_on_destroy)) n (λ j lt. refl));
      distinct = λ i j pid page hi hj mi mj. absurd (cc);
    },
    refl,
    λ q w. find_page_slot_absent (fresh file n remove_file_on_destroy) q w (λ j lt. refl),
  )

  create-fresh :
      (granted : ℕ → Bool) (file : F) (n : ℕ) (remove_file_on_destroy : Bool) (s : Swap F)
      → create io granted (some file) n remove_file_on_destroy ≡ some s
      → ((initialize_file io file n).1 ≡ true) × (fresh file n remove_file_on_destroy ≡ s)
  unfolding create
  create-fresh granted file n remove_file_on_destroy s e =
      elim (Bool-cases (n == 0 || not (granted 0) || not (granted 1) || not (granted 2))) [
        | inl bad ↦ absurd (ground arith)
        | inr good ↦ elim (Bool-cases (initialize_file io file n).1) [
          | inl done ↦ (done, ground arith)
          | inr failed ↦ absurd (ground arith)
        ]
      ]

  -- A swap that `swap_create` returns is valid, has the number of slots that was asked for, and
  -- no key has a slot in it.
  create-absent :
      (granted : ℕ → Bool) (opened : Option F) (n : ℕ) (remove_file_on_destroy : Bool) (s : Swap F)
      → create io granted opened n remove_file_on_destroy ≡ some s
      → IsValid s × (s.slot_count ≡ n) × ((q : ℤ) (w : ℕ) → find_page_slot s q w ≡ none)
  unfolding create
  create-absent granted none n remove_file_on_destroy s e = absurd (ground arith)
  create-absent granted (some file) n remove_file_on_destroy s e =
      let (done, same) = create-fresh granted file n remove_file_on_destroy s e in
      subst (New n) same (fresh-New file n remove_file_on_destroy done)
