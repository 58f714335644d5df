-- ===== src/Cow/Mappings.antt =====
-- src/cow.c: the list of one frame as a set of pairs.
use mathlib.Core.List.{List, [], ◌∷◌}
use simulador_memoria_virtua.Base.{
  ℕ, ◌+◌, ◌≤◌, ◌≡◌, refl, Bool, true, false, ◌&&◌, not, none, some, inl, inr, arith, Bool-cases,
  u64_max, inc64, ◌==◌,
}
use simulador_memoria_virtua.Cow.{CowMapping, matches, contains, unlink, count_from}

-- The length of a list, as a native number.
unfoldable pub length {ℓ} : {A : Type ℓ} → List A → ℕ
length [] = 0
length (x ∷ xs) = length xs + 1

-- No pair stands in the list twice.
unfoldable pub IsDistinct : List CowMapping → Type 0
IsDistinct [] = Unit {0}
IsDistinct (x ∷ xs) = (contains xs x.process x.virtual_page ≡ false) × IsDistinct xs

pub count_from-length :
    (xs : List CowMapping) (n : ℕ) → n + length xs ≤ u64_max → count_from xs n ≡ n + length xs
unfolding count_from length
count_from-length [] n fits = omega arith
count_from-length (x ∷ xs) n fits =
    let e : inc64 n ≡ n + 1 = omega arith in
    rw e (omega (arith, count_from-length xs (n + 1) (omega arith)))

-- Without the pair there is nothing to unlink.
pub unlink-none :
    (xs : List CowMapping) (p page : ℕ) → contains xs p page ≡ false → unlink xs p page ≡ none
unfolding contains unlink
unlink-none [] p page h = refl
unlink-none (x ∷ xs) p page h = ground (arith, unlink-none xs p page)

abbrev pub same : ℕ → ℕ → ℕ → ℕ → Bool
same p page q w = p == q && page == w

-- What an unlinking leaves.
pub record Unlinked (xs : List CowMapping) (p page : ℕ) (left : List CowMapping) : Type 0 where
  pub shorter : length left + 1 ≡ length xs
  pub others : (q w : ℕ) → contains left q w ≡ (not (same p page q w) && contains xs q w)
  pub distinct : IsDistinct left

pub unlink-some :
    (xs : List CowMapping) (p page : ℕ)
    → IsDistinct xs
    → contains xs p page ≡ true
    → (left : List CowMapping) × (unlink xs p page ≡ some left) × Unlinked xs p page left
unfolding contains unlink length IsDistinct
unlink-some [] p page d h = absurd (cc)
unlink-some (x ∷ xs) p page (fresh, d) h = elim (Bool-cases (matches x p page)) [
  | inl hit ↦
      (xs, ground arith, record { shorter = refl; others = λ q w. ground arith; distinct = d })
  | inr miss ↦
      let (left, e, u) = unlink-some xs p page d (ground arith) in
      (
        x ∷ left,
        ground (arith, e),
        record {
          shorter = omega (arith, u.shorter);
          others = λ q w. ground (arith, u.others q w);
          distinct = (ground (arith, u.others x.process x.virtual_page), u.distinct);
        },
      )
]
