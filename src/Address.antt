-- ===== src/Address.antt =====
-- src/address.c and include/address.h: how a 64-bit virtual address is cut into the page number,
-- the offset in the page, and the four 9-bit indices of the page walk.
pub mod Split
use simulador_memoria_virtua.Base.{
  ℕ, ◌+◌, ◌-◌, ◌*◌, ◌/◌, ◌%◌, ◌^◌, ℤ, pos, negsuc, leb, if◌then◌else◌,
}

-- `PAGE_OFFSET_BITS`, `PAGE_TABLE_LEVELS`, `PAGE_TABLE_INDEX_BITS`
abbrev pub page_offset_bits : ℕ
page_offset_bits = 12

abbrev pub page_table_levels : ℕ
page_table_levels = 4

abbrev pub page_table_index_bits : ℕ
page_table_index_bits = 9

-- `x >> k`, `x & (2 ^ k - 1)`, and the cast to `uint16_t`.
abbrev shift_right : ℕ → ℕ → ℕ
shift_right x k = x / 2 ^ k

abbrev low_bits : ℕ → ℕ → ℕ
low_bits x k = x % 2 ^ k

abbrev to_u16 : ℕ → ℕ
to_u16 x = x % 2 ^ 16

unfoldable pub page_number : ℕ → ℕ
page_number address = shift_right address page_offset_bits

unfoldable pub offset : ℕ → ℕ
offset address = to_u16 (low_bits address page_offset_bits)

-- A level out of range has index 0.
unfoldable pub level_index : ℕ → ℤ → ℕ
level_index address (negsuc below) = 0
level_index address (pos level) =
    if leb page_table_levels level
    then 0
    else to_u16 (
        low_bits
          (shift_right address
            (page_offset_bits + page_table_index_bits * (page_table_levels - 1 - level)))
          page_table_index_bits)
