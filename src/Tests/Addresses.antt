-- ===== src/Tests/Addresses.antt =====
-- src/address.c: the theorems at addresses that use every level of the walk.
use simulador_memoria_virtua.Base.{ℕ, ◌+◌, ◌*◌, ◌%◌, ◌^◌, ◌<◌, ◌≡◌, ◌≢◌, ◌↔◌, arith, pos, u64_mod}
use simulador_memoria_virtua.Address.{page_number, level_index}
use simulador_memoria_virtua.Address.Split.{
  SamePath, level_index-digits, SamePath-iff, SamePath-high,
}

abbrev address : ℕ
address = 0x0000_1234_5678_9abc

abbrev high_address : ℕ
high_address = address + 3 * 2 ^ 48

level_index-digits_example :
    level_index address (pos 0) * 512 ^ 3
      + level_index address (pos 1) * 512 ^ 2
      + level_index address (pos 2) * 512
      + level_index address (pos 3)
    ≡ page_number address % 2 ^ 36
level_index-digits_example = level_index-digits address

SamePath-iff_example :
    SamePath address high_address
    ↔ (page_number address % 2 ^ 36 ≡ page_number high_address % 2 ^ 36)
SamePath-iff_example = SamePath-iff address high_address

SamePath-high_example :
    SamePath address high_address
    × (page_number address ≢ page_number high_address)
    × (high_address < u64_mod)
SamePath-high_example = SamePath-high address 3 (omega arith) (omega arith) (omega arith)
