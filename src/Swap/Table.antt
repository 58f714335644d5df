-- ===== src/Swap/Table.antt =====
-- src/swap.c: what holds of the slot table between calls, and where a page is.

use simulador_memoria_virtua.Base.{
  ◌%◌, ℕ, ◌*◌, ◌<◌, ◌≤◌, ◌≡◌, ◌≢◌, refl, ap, Bool, true, false, ◌&&◌, not, none, some, inl, inr,
  arith, ℤ, ◌⊎◌, is_negative, ◌==ℤ◌, ==ℤ_iff, Bool-cases, Option-cases, find, find-some, find-none,
  find-ne-none, count, bit, count_change, count-le, u64_mod, ◌==◌, if◌then◌else◌,
}
use simulador_memoria_virtua.PhysicalMemory.{page_size}
use simulador_memoria_virtua.Swap.{
  SwapSlot, Swap, holds, long_max, slot_offset, find_page_slot, find_free_slot, choose_slot,
  register_write,
}

-- No key has two slots.
abbrev pub IsDistinct : (ℕ → SwapSlot) → ℕ → Type 0
IsDistinct slots n =
    (i j : ℕ) (pid : ℤ) (page : ℕ)
    → i < n
    → j < n
    → holds (slots i) pid page ≡ true
    → holds (slots j) pid page ≡ true
    → i ≡ j

pub holds-eq :
    (slot : SwapSlot) (pid : ℤ) (page : ℕ)
    → holds slot pid page ≡ true
    → (slot.used ≡ true) × (slot.pid ≡ pid) × (slot.virtual_page ≡ page)
holds-eq slot pid page h = ground (arith, ==ℤ_iff slot.pid pid)

module _ {F : Type 0} where
  abbrev pub is_used : Swap F → ℕ → Bool
  is_used s index = (s.slots index).used

  pub record IsValid (s : Swap F) : Type 0 where
    -- `swap_initialize_file` refuses a longer file
    pub sized : s.slot_count * page_size ≤ long_max
    pub counted : s.used_slot_count ≡ count (is_used s) s.slot_count
    pub distinct : IsDistinct s.slots s.slot_count

  pub slot_offset_lem :
      (s : Swap F) (k : ℕ) → IsValid s → k < s.slot_count → slot_offset k ≡ some (k * page_size)
  unfolding slot_offset
  slot_offset_lem s k v lt =
      let e : (k * page_size) % u64_mod ≡ k * page_size = omega (arith, v.sized) in
      ground (arith, e, v.sized)

  -- Where a key is found.
  pub find_page_slot-some :
      (s : Swap F) (pid : ℤ) (page k : ℕ)
      → find_page_slot s pid page ≡ some k
      → (k < s.slot_count) × (holds (s.slots k) pid page ≡ true) × (is_negative pid ≡ false)
  unfolding find_page_slot
  find_page_slot-some s pid page k e =
      ground (arith, find-some (λ i. holds (s.slots i) pid page) s.slot_count k)

  pub find_page_slot_negative :
      (s : Swap F) (pid : ℤ) (page : ℕ) → is_negative pid ≡ true → find_page_slot s pid page ≡ none
  unfolding find_page_slot
  find_page_slot_negative s pid page bad = ground arith

  pub find_page_slot_at :
      (s : Swap F) (pid : ℤ) (page k : ℕ)
      → IsDistinct s.slots s.slot_count
      → is_negative pid ≡ false
      → k < s.slot_count
      → holds (s.slots k) pid page ≡ true
      → find_page_slot s pid page ≡ some k
  unfolding find_page_slot
  find_page_slot_at s pid page k distinct real lt hit =
      let (j, found) = find-ne-none (λ i. holds (s.slots i) pid page) s.slot_count k lt hit in
      let (below, hit') = find-some (λ i. holds (s.slots i) pid page) s.slot_count j found in
      let same : j ≡ k = distinct j k pid page below lt hit' hit in rw (real, found) (ap some same)

  pub find_page_slot-none :
      (s : Swap F) (pid : ℤ) (page : ℕ)
      → find_page_slot s pid page ≡ none
      → is_negative pid ≡ false
      → (j : ℕ) → j < s.slot_count
      → holds (s.slots j) pid page ≡ false
  unfolding find_page_slot
  find_page_slot-none s pid page e real j lt =
      ground (arith, find-none (λ i. holds (s.slots i) pid page) s.slot_count j)

  pub find_page_slot_absent :
      (s : Swap F) (pid : ℤ) (page : ℕ)
      → ((j : ℕ) → j < s.slot_count → holds (s.slots j) pid page ≡ false)
      → find_page_slot s pid page ≡ none
  find_page_slot_absent s pid page absent = elim (Option-cases (find_page_slot s pid page)) [
    | inl miss ↦ miss
    | inr (k, found) ↦
        let (below, hit, real) = find_page_slot-some s pid page k found in
        absurd (ground (arith, absent k below))
  ]

  -- The slot that a write takes: the key's own, or a free one when the key has none.
  pub data Place (s : Swap F) (pid : ℤ) (page k : ℕ) : Bool → Type 0 where
    existing : holds (s.slots k) pid page ≡ true → Place s pid page k false
    free :
        ((j : ℕ) → j < s.slot_count → holds (s.slots j) pid page ≡ false)
        → is_used s k ≡ false
        → Place s pid page k true

  pub choose_slot-Place :
      (s : Swap F) (pid : ℤ) (page : ℕ)
      → is_negative pid ≡ false
      → ((choose_slot s pid page ≡ (none, true))
          × (find_page_slot s pid page ≡ none)
          × ((j : ℕ) → j < s.slot_count → is_used s j ≡ true))
        ⊎ ((k : ℕ) × (new : Bool) × (choose_slot s pid page ≡ (some k, new))
            × (k < s.slot_count)
            × Place s pid page k new)
  unfolding choose_slot find_free_slot
  choose_slot-Place s pid page real = elim (Option-cases (find_page_slot s pid page)) [
    | inr (k, found) ↦
        let (below, hit, r) = find_page_slot-some s pid page k found in
        inr (k, false, ground (arith, found), below, existing hit)
    | inl miss ↦ elim (Option-cases (find (λ i. not (is_used s i)) s.slot_count)) [
      | inl full ↦ inl (
        ground (arith, miss, full),
        miss,
        λ j lt. ground (arith, find-none (λ i. not (is_used s i)) s.slot_count j full lt),
      )
      | inr (k, found) ↦
          let (below, empty) = find-some (λ i. not (is_used s i)) s.slot_count k found in
          inr (
            k,
            true,
            ground (arith, miss, found),
            below,
            free (find_page_slot-none s pid page miss real) (ground arith),
          )
    ]
  ]

abbrev pub entered : ℤ → ℕ → SwapSlot
entered pid page = record { used = true; pid = pid; virtual_page = page }

-- The keys of the table after a write.
pub holds_after :
    {F : Type 0} (s : Swap F) (pid : ℤ) (page k : ℕ) (new : Bool)
    → Place s pid page k new
    → (j : ℕ) (q : ℤ) (w : ℕ)
    → holds ((register_write s k new pid page).slots j) q w
      ≡ (if j == k then holds (entered pid page) q w else holds (s.slots j) q w)
unfolding register_write
holds_after s pid page k _ (existing hit) j q w =
    let (used, same_pid, same_page) = holds-eq (s.slots k) pid page hit in
    ground (arith, used, same_pid, same_page)
holds_after s pid page k _ (free absent empty) j q w = ground arith

-- No other slot has the key of a write.
others :
    {F : Type 0} (s : Swap F) (pid : ℤ) (page k : ℕ) (new : Bool)
    → IsValid s
    → k < s.slot_count
    → Place s pid page k new
    → (j : ℕ) → j < s.slot_count
    → j ≢ k
    → holds (s.slots j) pid page ≡ false
others s pid page k _ v below (existing hit) j lt ne =
    elim (Bool-cases (holds (s.slots j) pid page)) [
      | inl twice ↦ absurd (ne (v.distinct j k pid page lt below twice hit))
      | inr once ↦ once
    ]
others s pid page k _ v below (free absent empty) j lt ne = absent j lt

count_after :
    {F : Type 0} (s : Swap F) (pid : ℤ) (page k : ℕ) (new : Bool)
    → IsValid s
    → k < s.slot_count
    → Place s pid page k new
    → (register_write s k new pid page).used_slot_count
      ≡ count (is_used (register_write s k new pid page)) s.slot_count
unfolding register_write
count_after s pid page k _ v below (existing hit) = v.counted
count_after s pid page k _ v below (free absent empty) =
    let after : Swap _ = register_write s k true pid page in
    let change =
      count_change (is_used s) (is_used after) s.slot_count k below (λ j ne. ground arith) in
    let now : is_used after k ≡ true = ground arith in
    ground (
      arith,
      v.counted,
      v.sized,
      change,
      ap bit empty,
      ap bit now,
      count-le (is_used s) s.slot_count,
    )

same_count :
    {F : Type 0} (s : Swap F) (pid : ℤ) (page k : ℕ) (new : Bool)
    → (register_write s k new pid page).slot_count ≡ s.slot_count
unfolding register_write
same_count s pid page k new = refl

pub register_write-IsValid :
    {F : Type 0} (s : Swap F) (pid : ℤ) (page k : ℕ) (new : Bool)
    → IsValid s
    → k < s.slot_count
    → Place s pid page k new
    → IsValid (register_write s k new pid page)
register_write-IsValid s pid page k new v below place = record {
  sized = rw (same_count s pid page k new) v.sized;
  counted = rw (same_count s pid page k new) (count_after s pid page k new v below place);
  distinct = λ i j q w hi hj mi mj.
      let ai = holds_after s pid page k new place i q w in
      let aj = holds_after s pid page k new place j q w in
      let e = same_count s pid page k new in
      let key = holds-eq (entered pid page) q w in
      elim (Bool-cases (i == k)) [
        | inl here_i ↦ elim (Bool-cases (j == k)) [
          | inl here_j ↦ ground arith
          | inr not_j ↦
              let (used, same_pid, same_page) = key (ground (arith, ai)) in
              absurd
                (ground (arith, aj, others s pid page k new v below place j, same_pid, same_page))
        ]
        | inr not_i ↦ elim (Bool-cases (j == k)) [
          | inl here_j ↦
              let (used, same_pid, same_page) = key (ground (arith, aj)) in
              absurd
                (ground (arith, ai, others s pid page k new v below place i, same_pid, same_page))
          | inr not_j ↦
              v.distinct i j q w (omega arith) (omega arith) (ground (arith, ai))
                (ground (arith, aj))
        ]
      ];
}

-- Another file leaves the table as it is.
pub refile-IsValid :
    {F : Type 0} (s : Swap F) (file : F) → IsValid s → IsValid (record s { file = file })
refile-IsValid s file v = record { sized = v.sized; counted = v.counted; distinct = v.distinct }

pub refile-Place :
    {F : Type 0} (s : Swap F) (file : F) (pid : ℤ) (page k : ℕ) (new : Bool)
    → Place s pid page k new
    → Place (record s { file = file }) pid page k new
refile-Place s file pid page k _ (existing hit) = existing hit
refile-Place s file pid page k _ (free absent empty) = free absent empty

-- The slot that is written does not hold another key.
pub Place-holds :
    {F : Type 0} (s : Swap F) (pid : ℤ) (page k : ℕ) (new : Bool)
    → Place s pid page k new
    → (q : ℤ) (w : ℕ) → holds (s.slots k) q w ≡ true
    → ((pid ==ℤ q) && (page == w)) ≡ true
Place-holds s pid page k _ (existing hit) q w h =
    let (used, same_pid, same_page) = holds-eq (s.slots k) pid page hit in
    let (used', same_pid', same_page') = holds-eq (s.slots k) q w h in ground (arith, ==ℤ_iff pid q)
Place-holds s pid page k _ (free absent empty) q w h = absurd (ground arith)

-- Where the keys are found after a write.
pub find_page_slot-register_write :
    {F : Type 0} (s : Swap F) (pid : ℤ) (page k : ℕ) (new : Bool)
    → IsValid s
    → is_negative pid ≡ false
    → k < s.slot_count
    → Place s pid page k new
    → (q : ℤ) (w : ℕ)
    → find_page_slot (register_write s k new pid page) q w
      ≡ (if (pid ==ℤ q) && (page == w) then some k else find_page_slot s q w)
find_page_slot-register_write s pid page k new v real below place q w =
    let s' : Swap _ = register_write s k new pid page in
    let distinct' = (register_write-IsValid s pid page k new v below place).distinct in
    let e = same_count s pid page k new in
    let after = λ (j : ℕ). holds_after s pid page k new place j q w in
    elim (Bool-cases ((pid ==ℤ q) && (page == w))) [
      | inl same_key ↦ rw same_key (
          find_page_slot_at s' q w k distinct' (ground (arith, ==ℤ_iff pid q)) (omega arith)
            (ground (arith, after k)))
      | inr other ↦ elim (Option-cases (find_page_slot s q w)) [
        | inr (j, found) ↦
            let (lt, hit, real_q) = find_page_slot-some s q w j found in
            rw (other, found)
              (find_page_slot_at s' q w j distinct' real_q (omega arith)
                (ground (arith, after j, Place-holds s pid page k new place q w)))
        | inl miss ↦
            rw (other, miss)
              (elim (Bool-cases (is_negative q)) [
                | inl bad ↦ find_page_slot_negative s' q w bad
                | inr real_q ↦
                    find_page_slot_absent s' q w
                      (λ j lt. ground (arith, after j, find_page_slot-none s q w miss real_q j))
              ])
      ]
    ]

pub refile-find :
    {F : Type 0} (s : Swap F) (file : F) (pid : ℤ) (page : ℕ)
    → find_page_slot (record s { file = file }) pid page ≡ find_page_slot s pid page
unfolding find_page_slot
refile-find s file pid page = refl
