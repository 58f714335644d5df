-- ===== src/Tlb/View.antt =====
-- src/tlb.c: what a cache answers, as a function of the key, and how a write to one entry changes it.
use native.Mathlib.Decide.{ℕ_discrete}
use simulador_memoria_virtua.Base.{
  ℕ, ◌<◌, ◌≡◌, ◌≢◌, Bool, true, false, Option, none, some, inl, inr, arith, ap, sym, ◌∙◌, ℤ,
  is_negative, ==ℤ_iff, Bool-cases, Option-cases, update, find, find-some, find-none, find-congr,
  find-ne-none, if◌then◌else◌,
}
use simulador_memoria_virtua.Tlb.{TlbEntry, Tlb, matches, lookup}

-- The frame number of the first entry with the key.
unfoldable pub view : (ℕ → TlbEntry) → ℕ → ℤ → ℕ → Option ℕ
view entries capacity pid page = elim (find (λ index. matches (entries index) pid page) capacity) [
  | none ↦ none
  | some index ↦ some (entries index).frame_number
]

-- No key has two valid entries.
abbrev pub IsDistinct : (ℕ → TlbEntry) → ℕ → Type 0
IsDistinct entries capacity =
    (i j : ℕ) (pid : ℤ) (page : ℕ)
    → i < capacity
    → j < capacity
    → matches (entries i) pid page ≡ true
    → matches (entries j) pid page ≡ true
    → i ≡ j

pub matches-eq :
    (entry : TlbEntry) (pid : ℤ) (page : ℕ)
    → matches entry pid page ≡ true
    → (entry.valid ≡ true) × (entry.pid ≡ pid) × (entry.virtual_page ≡ page)
matches-eq entry pid page h = ground (arith, ==ℤ_iff entry.pid pid)

-- What `matches` says of two entries with one key.
pub matches_same :
    (a b : TlbEntry) (pid : ℤ) (page : ℕ)
    → matches a pid page ≡ true
    → matches b pid page ≡ matches b a.pid a.virtual_page
matches_same a b pid page h =
    let (valid, same_pid, same_page) = matches-eq a pid page h in rw (same_pid, same_page)

-- The new entry shares its key with no other.
abbrev pub IsFresh : (ℕ → TlbEntry) → ℕ → ℕ → TlbEntry → Type 0
IsFresh entries capacity i entry =
    (j : ℕ) (pid : ℤ) (page : ℕ)
    → j < capacity
    → i ≢ j
    → matches entry pid page ≡ true
    → matches (entries j) pid page ≡ false

pub update-IsDistinct :
    (entries : ℕ → TlbEntry) (capacity i : ℕ) (entry : TlbEntry)
    → IsDistinct entries capacity
    → IsFresh entries capacity i entry
    → IsDistinct (update entries i entry) capacity
update-IsDistinct entries capacity i entry distinct fresh a b pid page ha hb ma mb =
    elim (ℕ_discrete i a) [
      | yes at_a ↦ elim (ℕ_discrete i b) [
        | yes at_b ↦ sym at_a ∙ at_b
        | no not_b ↦ absurd (ground (arith, fresh b pid page))
      ]
      | no not_a ↦ elim (ℕ_discrete i b) [
        | yes at_b ↦ absurd (ground (arith, fresh a pid page))
        | no not_b ↦ distinct a b pid page ha hb (ground arith) (ground arith)
      ]
    ]

-- An entry of the cache may be written with the key that it has.
pub IsDistinct-IsFresh :
    (entries : ℕ → TlbEntry) (capacity k : ℕ)
    → IsDistinct entries capacity
    → k < capacity
    → IsFresh entries capacity k (entries k)
IsDistinct-IsFresh entries capacity k distinct below j pid page hj ne hit =
    elim (Bool-cases (matches (entries j) pid page)) [
      | inl twice ↦ absurd (ne (distinct k j pid page below hj hit twice))
      | inr once ↦ once
    ]

module _ (entries : ℕ → TlbEntry) (capacity : ℕ) (pid : ℤ) (page : ℕ) where
  abbrev hits : ℕ → Bool
  hits index = matches (entries index) pid page

  pub view-some :
      (i : ℕ)
      → IsDistinct entries capacity
      → i < capacity
      → matches (entries i) pid page ≡ true
      → view entries capacity pid page ≡ some (entries i).frame_number
  unfolding view
  view-some i distinct below hit =
      let (k, found) = find-ne-none hits capacity i below hit in
      let (k_below, k_hit) = find-some hits capacity k found in
      let same : k ≡ i = distinct k i pid page k_below below k_hit hit in
      rw (found, view) (ap (λ (j : ℕ). some (entries j).frame_number) same)

  pub view-none :
      ((i : ℕ) → i < capacity → matches (entries i) pid page ≡ false)
      → view entries capacity pid page ≡ none
  unfolding view
  view-none miss = elim (Option-cases (find hits capacity)) [
    | inl e ↦ rw (e, view)
    | inr (k, found) ↦
        let (k_below, k_hit) = find-some hits capacity k found in
        absurd (ground (arith, miss k k_below))
  ]

-- A write to entry `i` gives its new key its frame number, takes its old key away, and leaves the
-- answer for every other key.
pub view-update :
    (entries : ℕ → TlbEntry) (capacity i : ℕ) (entry : TlbEntry) (pid : ℤ) (page : ℕ)
    → i < capacity
    → IsDistinct entries capacity
    → IsDistinct (update entries i entry) capacity
    → view (update entries i entry) capacity pid page ≡ (
        if matches entry pid page
        then some entry.frame_number
        else if matches (entries i) pid page
        then none
        else view entries capacity pid page)
view-update entries capacity i entry pid page below distinct distinct' =
    elim (Bool-cases (matches entry pid page)) [
      | inl now ↦
          rw (now, view-some entries' capacity pid page i distinct' below (ground arith))
            (ground arith)
      | inr never ↦ elim (Bool-cases (matches (entries i) pid page)) [
        | inl before ↦
            rw (never, before)
              (view-none entries' capacity pid page (λ j lt. elim (ℕ_discrete i j) [
                | yes same ↦ ground arith
                | no other ↦ ground (arith, distinct i j pid page)
              ]))
        | inr not_before ↦ rw (never, not_before) (unchanged never not_before)
      ]
    ]
  where
    entries' : ℕ → TlbEntry
    entries' = update entries i entry

    unchanged :
        matches entry pid page ≡ false
        → matches (entries i) pid page ≡ false
        → view entries' capacity pid page ≡ view entries capacity pid page
    unchanged never not_before =
        elim (Option-cases (find (hits entries capacity pid page) capacity)) [
          | inl miss ↦
              view-none entries' capacity pid page
                (λ j lt. ground (arith, find-none (hits entries capacity pid page) capacity j))
              ∙ sym (
                  view-none entries capacity pid page
                    (λ j lt. find-none (hits entries capacity pid page) capacity j miss lt))
          | inr (k, found) ↦
              let (lt, hit) = find-some (hits entries capacity pid page) capacity k found in
              let other : i ≢ k = λ e. ground arith in
              view-some entries' capacity pid page k distinct' lt (ground arith)
              ∙ ground arith
              ∙ sym (view-some entries capacity pid page k distinct lt hit)
        ]

-- A lookup answers with the view, and never for a negative pid.
pub lookup-view :
    (t : Tlb) (pid : ℤ) (page : ℕ)
    → (lookup t pid page).1 ≡ (if is_negative pid then none else view t.entries t.capacity pid page)
unfolding lookup view
lookup-view t pid page = ground arith

pub view-congr :
    (a b : ℕ → TlbEntry) (capacity : ℕ) (pid : ℤ) (page : ℕ)
    → ((j : ℕ) → j < capacity → matches (a j) pid page ≡ matches (b j) pid page)
    → ((j : ℕ)
        → j < capacity
        → matches (a j) pid page ≡ true
        → (a j).frame_number ≡ (b j).frame_number)
    → view a capacity pid page ≡ view b capacity pid page
unfolding view
view-congr a b capacity pid page same frames =
    let e = find-congr (hits a capacity pid page) (hits b capacity pid page) capacity same in
    elim (Option-cases (find (hits a capacity pid page) capacity)) [
      | inl miss ↦ ground arith
      | inr (k, found) ↦
          let (below, hit) = find-some (hits a capacity pid page) capacity k found in
          ground (arith, frames k below hit)
    ]
