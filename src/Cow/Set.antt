-- ===== src/Cow/Set.antt =====
-- src/cow.c: the manager as a set of (frame, process, page) triples, which a call adds or removes.
use mathlib.Core.List.{List, [], ◌∷◌, foldl}
use mathlib.Core.Path.{subst}
use simulador_memoria_virtua.Base.{
  ℕ, ◌+◌, ◌<◌, ◌≡◌, refl, sym, Bool, true, false, ◌&&◌, not, none, some, inl, inr, arith,
  Bool-cases, u64_max, update, filled, success, failure, bit, leb, ◌==◌, if◌then◌else◌,
}
use simulador_memoria_virtua.Process.{Pointer}
use simulador_memoria_virtua.Cow.{
  CowMapping, CowManager, create, contains, has_mapping, add_mapping, remove_mapping, mapping_count,
}
use simulador_memoria_virtua.Cow.Mappings.{
  length, IsDistinct, count_from-length, unlink-none, same, unlink-some,
}

-- No frame lists a pair twice.
abbrev pub IsValid : CowManager → Type 0
IsValid m = (f : ℕ) → f < m.frame_count → IsDistinct (m.frames f)

-- The frame's list is not longer than a `size_t` can count, with one more pair.
abbrev pub HasRoom : CowManager → ℕ → Type 0
HasRoom m f = length (m.frames f) < u64_max

write-IsValid :
    (m : CowManager) (f : ℕ) (mappings : List CowMapping)
    → IsValid m
    → IsDistinct mappings
    → IsValid (record m { frames = update m.frames f mappings })
write-IsValid m f mappings v d g lt = elim (Bool-cases (g == f)) [
  | inl e ↦
      let now : update m.frames f mappings g ≡ mappings = ground arith in
      subst IsDistinct (sym now) d
  | inr ne ↦
      let before : update m.frames f mappings g ≡ m.frames g = ground arith in
      subst IsDistinct (sym before) (v g lt)
]

-- Given memory, at a frame of the table, `cow_manager_add_mapping` succeeds; afterwards the
-- manager has the triple, and of any other triple it says what it said before.
pub has_mapping-add_mapping :
    (granted : ℕ → Bool) (m : CowManager) (f p page : ℕ)
    → granted 0 ≡ true
    → f < m.frame_count
    → ((add_mapping granted m f (some p) page).1 ≡ success)
      × ((g q w : ℕ)
          → has_mapping (add_mapping granted m f (some p) page).0 g (some q) w
            ≡ (if g == f && same p page q w then true else has_mapping m g (some q) w))
unfolding add_mapping has_mapping contains
has_mapping-add_mapping granted m f p page memory below = (ground arith, λ g q w. ground arith)

add_mapping-IsValid :
    (granted : ℕ → Bool) (m : CowManager) (f : ℕ) (process : Pointer) (page : ℕ)
    → IsValid m
    → IsValid (add_mapping granted m f process page).0
unfolding add_mapping has_mapping IsDistinct
add_mapping-IsValid granted m f none page v = v
add_mapping-IsValid granted m f (some p) page v = elim (Bool-cases (leb m.frame_count f)) [
  | inl bad ↦ rw bad v
  | inr good ↦ elim (Bool-cases (contains (m.frames f) p page)) [
    | inl held ↦ rw (good, held) v
    | inr new ↦ elim (Bool-cases (granted 0)) [
      | inr refused ↦ rw (good, new, refused) v
      | inl memory ↦ rw (good, new, memory) (write-IsValid m f _ v (new, v f (ground arith)))
    ]
  ]
]

-- What a removal leaves.
abbrev pub Removed : CowManager → ℕ → ℕ → ℕ → Type 0
Removed m f p page =
    ((remove_mapping m f (some p) page).1
      ≡ (if has_mapping m f (some p) page then success else failure))
    × IsValid (remove_mapping m f (some p) page).0
    × ((g q w : ℕ)
        → has_mapping (remove_mapping m f (some p) page).0 g (some q) w
          ≡ (if g == f && same p page q w then false else has_mapping m g (some q) w))

unlinked-Removed :
    (m : CowManager) (f p page : ℕ)
    → IsValid m
    → leb m.frame_count f ≡ false
    → contains (m.frames f) p page ≡ true
    → Removed m f p page
unfolding remove_mapping has_mapping
unlinked-Removed m f p page v good held =
    let (left, e, u) = unlink-some (m.frames f) p page (v f (ground arith)) held in
    rw (good, held, e)
      (refl, write-IsValid m f left v u.distinct, λ g q w. ground (arith, u.others q w))

-- In a valid manager `cow_manager_remove_mapping` succeeds exactly if the manager has the triple
-- of frame, process and page. Afterwards it does not have it, of any other triple it says what it
-- said before, and it is valid.
pub has_mapping-remove_mapping : (m : CowManager) (f p page : ℕ) → IsValid m → Removed m f p page
unfolding remove_mapping has_mapping
has_mapping-remove_mapping m f p page v = elim (Bool-cases (leb m.frame_count f)) [
  | inl bad ↦ rw bad (refl, v, λ g q w. ground arith)
  | inr good ↦ elim (Bool-cases (contains (m.frames f) p page)) [
    | inl held ↦ unlinked-Removed m f p page v good held
    | inr never ↦
        rw (good, never, unlink-none (m.frames f) p page never) (refl, v, λ g q w. ground arith)
  ]
]

remove_mapping-IsValid :
    (m : CowManager) (f : ℕ) (process : Pointer) (page : ℕ)
    → IsValid m
    → IsValid (remove_mapping m f process page).0
unfolding remove_mapping
remove_mapping-IsValid m f none page v = v
remove_mapping-IsValid m f (some p) page v = (has_mapping-remove_mapping m f p page v).1

-- Given memory, at a frame of the table whose list can be counted with one more pair, the number
-- that `cow_manager_mapping_count` returns grows by one when a new triple is added, and stays
-- when the manager had it.
mapping_count-add_mapping :
    (granted : ℕ → Bool) (m : CowManager) (f p page : ℕ)
    → granted 0 ≡ true
    → f < m.frame_count
    → HasRoom m f
    → mapping_count (add_mapping granted m f (some p) page).0 f
      ≡ mapping_count m f + bit (not (has_mapping m f (some p) page))
unfolding add_mapping has_mapping mapping_count length
mapping_count-add_mapping granted m f p page memory below room =
    let before = count_from-length (m.frames f) 0 (omega arith) in
    let after =
      count_from-length (record { process = p; virtual_page = page } ∷ m.frames f) 0
        (omega arith) in
    elim (Bool-cases (contains (m.frames f) p page)) [
      | inl held ↦ ground (arith, before)
      | inr new ↦ ground (arith, before, after)
    ]

-- In a valid manager, when the frame's list can be counted, the number that
-- `cow_manager_mapping_count` returns falls by one when a triple of the frame is removed, and
-- stays when there was none.
mapping_count-remove_mapping :
    (m : CowManager) (f p page : ℕ)
    → IsValid m
    → HasRoom m f
    → mapping_count (remove_mapping m f (some p) page).0 f + bit (has_mapping m f (some p) page)
      ≡ mapping_count m f
unfolding remove_mapping has_mapping mapping_count
mapping_count-remove_mapping m f p page v room = elim (Bool-cases (leb m.frame_count f)) [
  | inl bad ↦ ground arith
  | inr good ↦ elim (Bool-cases (contains (m.frames f) p page)) [
    | inl held ↦
        let (left, e, u) = unlink-some (m.frames f) p page (v f (ground arith)) held in
        let before = count_from-length (m.frames f) 0 (omega arith) in
        let after = count_from-length left 0 (omega (arith, u.shorter)) in
        ground (arith, e, u.shorter, before, after)
    | inr never ↦ ground (arith, unlink-none (m.frames f) p page never)
  ]
]

-- A call on the manager, with its arguments; a call that adds has its own memory.
pub data Call : Type 0 where
  add : (granted : ℕ → Bool) (frame_number : ℕ) (process : Pointer) (virtual_page : ℕ) → Call
  remove : (frame_number : ℕ) (process : Pointer) (virtual_page : ℕ) → Call

unfoldable pub perform : CowManager → Call → CowManager
perform m (add granted f process page) = (add_mapping granted m f process page).0
perform m (remove f process page) = (remove_mapping m f process page).0

perform-IsValid : (m : CowManager) (call : Call) → IsValid m → IsValid (perform m call)
unfolding perform
perform-IsValid m (add granted f process page) v = add_mapping-IsValid granted m f process page v
perform-IsValid m (remove f process page) v = remove_mapping-IsValid m f process page v

calls-IsValid : (m : CowManager) (calls : List Call) → IsValid m → IsValid (foldl perform m calls)
calls-IsValid m [] v = v
calls-IsValid m (call ∷ calls) v = calls-IsValid (perform m call) calls (perform-IsValid m call v)

-- Given memory and at least one frame, `cow_manager_create` returns a manager in which, after
-- every sequence of additions and removals, no frame lists a pair twice.
create-perform-IsValid :
    (granted : ℕ → Bool) (n : ℕ) (calls : List Call)
    → granted 0 ≡ true
    → granted 1 ≡ true
    → 0 < n
    → (m : CowManager) × (create granted n ≡ some m) × IsValid (foldl perform m calls)
unfolding create IsDistinct
create-perform-IsValid granted n calls g0 g1 nonempty =
    let m : CowManager = record { frames = filled []; frame_count = n } in
    (m, ground arith, calls-IsValid m calls (λ f lt. tt))
