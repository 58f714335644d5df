-- ===== src/Tests/Sharing.antt =====
-- src/cow.c: the theorems at a manager of four frames, of which one is shared by two processes.
use mathlib.Core.List.{List, [], ◌∷◌}
use mathlib.Core.Path.{subst}
use simulador_memoria_virtua.Base.{
  sym, inl, inr, Bool-cases, ℕ, ◌≡◌, refl, arith, Bool, true, ◌&&◌, some, filled, update, success,
  ◌==◌, if◌then◌else◌,
}
use simulador_memoria_virtua.Cow.{CowMapping, CowManager, contains, has_mapping, add_mapping}
use simulador_memoria_virtua.Cow.Mappings.{same, IsDistinct}
use simulador_memoria_virtua.Cow.Set.{
  IsValid, Removed, Call, add, remove, has_mapping-add_mapping, has_mapping-remove_mapping,
}

abbrev both : List CowMapping
both = record { process = 8; virtual_page = 5 } ∷ record { process = 7; virtual_page = 5 } ∷ []

abbrev shared : CowManager
shared = record { frames = update (filled []) 1 both; frame_count = 4 }

shared-IsValid : IsValid shared
unfolding IsDistinct contains
shared-IsValid f lt = elim (Bool-cases (f == 1)) [
  | inl here ↦
      let e : shared.frames f ≡ both = ground arith in subst IsDistinct (sym e) (refl, (refl, tt))
  | inr other ↦ let e : shared.frames f ≡ [] = ground arith in subst IsDistinct (sym e) tt
]

abbrev granted : ℕ → Bool
granted k = true

abbrev blank : ℕ → CowMapping
blank i = record { process = 0; virtual_page = 0 }

has_mapping-add_mapping_example :
    ((add_mapping granted shared 1 (some 9) 5).1 ≡ success)
    × ((g q w : ℕ)
        → has_mapping (add_mapping granted shared 1 (some 9) 5).0 g (some q) w
          ≡ (if g == 1 && same 9 5 q w then true else has_mapping shared g (some q) w))
has_mapping-add_mapping_example = has_mapping-add_mapping granted shared 1 9 5 refl (omega arith)

has_mapping-remove_mapping_example : Removed shared 1 7 5
has_mapping-remove_mapping_example = has_mapping-remove_mapping shared 1 7 5 shared-IsValid

abbrev calls : List Call
calls = add granted 1 (some 7) 5 ∷ add granted 1 (some 8) 5 ∷ remove 1 (some 7) 5 ∷ []
