-- ===== src/Address/Split.antt =====
-- src/address.c: which addresses the page walk leads to the same entry.
use simulador_memoria_virtua.Base.{
  ℕ, zero, suc, ◌+◌, ◌*◌, ◌%◌, ◌^◌, ◌<◌, ◌≡◌, ◌≢◌, ◌↔◌, arith, pos, u64_mod,
}
use simulador_memoria_virtua.Address.{page_number, level_index}

-- The four indices of the walk, from the root's to the leaf's.
abbrev pub SamePath : ℕ → ℕ → Type 0
SamePath a b = (level : ℕ) → level_index a (pos level) ≡ level_index b (pos level)

-- The four indices are the digits, in base 512, of the page number's low 36 bits.
pub level_index-digits :
    (a : ℕ)
    → level_index a (pos 0) * 512 ^ 3
        + level_index a (pos 1) * 512 ^ 2
        + level_index a (pos 2) * 512
        + level_index a (pos 3)
      ≡ page_number a % 2 ^ 36
unfolding level_index page_number
level_index-digits a = omega arith

high_bits : (a k : ℕ) → page_number a % 2 ^ 36 ≡ page_number (a + k * 2 ^ 48) % 2 ^ 36
unfolding page_number
high_bits a k = omega arith

other_page : (a k : ℕ) → 0 < k → page_number a ≢ page_number (a + k * 2 ^ 48)
unfolding page_number
other_page a k h = omega arith

same_index :
    (a b level : ℕ)
    → page_number a % 2 ^ 36 ≡ page_number b % 2 ^ 36
    → level_index a (pos level) ≡ level_index b (pos level)
unfolding level_index page_number
same_index a b zero e = omega arith
same_index a b (suc zero) e = omega arith
same_index a b (suc (suc zero)) e = omega arith
same_index a b (suc (suc (suc zero))) e = omega arith
same_index a b (suc (suc (suc (suc n)))) e = ground arith

-- Two addresses have the same four indices of the page walk exactly if their page numbers agree
-- modulo 2 ^ 36.
pub SamePath-iff : (a b : ℕ) → SamePath a b ↔ (page_number a % 2 ^ 36 ≡ page_number b % 2 ^ 36)
SamePath-iff a b = (
  λ same. omega (arith, level_index-digits a, level_index-digits b, same 0, same 1, same 2, same 3),
  λ e level. same_index a b level e,
)

-- An address below 2 ^ 48 and the same address with any of the bits 48 to 63 set have the same
-- four indices of the page walk and different page numbers.
pub SamePath-high :
    (a k : ℕ)
    → a < 2 ^ 48
    → 0 < k
    → k < 2 ^ 16
    → SamePath a (a + k * 2 ^ 48)
      × (page_number a ≢ page_number (a + k * 2 ^ 48))
      × (a + k * 2 ^ 48 < u64_mod)
SamePath-high a k low some_bit word =
    ((SamePath-iff a (a + k * 2 ^ 48)).1 (high_bits a k), other_page a k some_bit, omega arith)
