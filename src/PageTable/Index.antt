-- ===== src/PageTable/Index.antt =====
-- The indices of an address in the four tables are consecutive fields of nine bits.
use x.Base.{ℕ, ◌/◌, ◌%◌, ◌^◌, ◌≡◌, arith}
use x.Base.Bits.{bit_and_field, bit_and_comm}
use x.PageTable.{table_index}

-- The number of the page that an address lies in, within the 48 bits that are translated.
abbrev pub page_number : ℕ → ℕ
page_number v = v / 2 ^ 12 % 2 ^ 36

module _ (v : ℕ) where
  pub table_index_fields :
      (table_index 0 0xFF8000000000 v ≡ page_number v / 2 ^ 27)
      × (table_index 1 0x007FC0000000 v ≡ page_number v / 2 ^ 18 % 512)
      × (table_index 2 0x00003FE00000 v ≡ page_number v / 2 ^ 9 % 512)
      × (table_index 3 0x0000001FF000 v ≡ page_number v % 512)
  unfolding table_index
  table_index_fields = (
    omega (arith, bit_and_comm 0xFF8000000000 v, bit_and_field 39 9 v),
    omega (arith, bit_and_comm 0x007FC0000000 v, bit_and_field 30 9 v),
    omega (arith, bit_and_comm 0x00003FE00000 v, bit_and_field 21 9 v),
    omega (arith, bit_and_comm 0x0000001FF000 v, bit_and_field 12 9 v),
  )

-- Two addresses have the same four indices exactly when they lie in the same page.
pub table_index-page_number :
    (v w : ℕ)
    → table_index 0 0xFF8000000000 v ≡ table_index 0 0xFF8000000000 w
    → table_index 1 0x007FC0000000 v ≡ table_index 1 0x007FC0000000 w
    → table_index 2 0x00003FE00000 v ≡ table_index 2 0x00003FE00000 w
    → table_index 3 0x0000001FF000 v ≡ table_index 3 0x0000001FF000 w
    → page_number v ≡ page_number w
table_index-page_number v w a b c d = omega (arith, table_index_fields v, table_index_fields w)
