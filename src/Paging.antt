-- ===== src/Paging.antt =====
-- Page table entries, kernel/src/arch/x86_64/paging.rs: 64-bit words with flag bits and a physical
-- address. A field of `bitfield!` is the range of bits that its declaration names.
pub mod Fields
mod Examples
use x.Base.{
  ℕ, ◌+◌, ◌-◌, ◌*◌, ◌/◌, ◌%◌, ◌^◌, bit_and, bit_or, Bool, true, false, not, ◌==◌, if◌then◌else◌,
  to_bit,
}

abbrev pub page_size : ℕ
page_size = 4096

-- `!` on `u64`, of the language.
abbrev pub not_u64 : ℕ → ℕ
not_u64 w = 2 ^ 64 - 1 - w

unfoldable pub align_to_page : ℕ → ℕ
align_to_page address = bit_and address (not_u64 0xfff)

-- A flag of one bit, and the bits from `hi` down to `lo`.
abbrev pub flag : ℕ → ℕ → Bool
flag n w = w / 2 ^ n % 2 == 1

abbrev pub bit_range : ℕ → ℕ → ℕ → ℕ
bit_range hi lo w = w / 2 ^ lo % 2 ^ (hi + 1 - lo)

-- The getters of `PageTableEntry`.
abbrev pub present : ℕ → Bool
present w = flag 0 w

abbrev pub writable : ℕ → Bool
writable w = flag 1 w

abbrev pub user_accessable : ℕ → Bool
user_accessable w = flag 2 w

abbrev pub reads_write_through : ℕ → Bool
reads_write_through w = flag 3 w

abbrev pub reads_cache_disabled : ℕ → Bool
reads_cache_disabled w = flag 4 w

abbrev pub reads_accessed : ℕ → Bool
reads_accessed w = flag 5 w

abbrev pub reads_dirty : ℕ → Bool
reads_dirty w = flag 6 w

abbrev pub huge_page : ℕ → Bool
huge_page w = flag 7 w

abbrev pub reads_global : ℕ → Bool
reads_global w = flag 8 w

abbrev pub no_execute : ℕ → Bool
no_execute w = flag 63 w

abbrev pub address_unextended : ℕ → ℕ
address_unextended w = bit_range 51 12 w

pub record PageTableData : Type 0 where
  pub is_present : Bool
  pub is_writable : Bool
  pub is_user_accessable : Bool
  pub write_through_caching_enabled : Bool
  pub cache_disabled : Bool
  pub accessed : Bool
  pub dirty : Bool
  pub is_huge_page : Bool
  pub global : Bool
  pub physical_address : ℕ
  pub is_no_execute : Bool

-- `PageTableData::default()`.
abbrev pub default_data : PageTableData
default_data = record {
  is_present = true;
  is_writable = false;
  is_user_accessable = false;
  write_through_caching_enabled = false;
  cache_disabled = false;
  accessed = false;
  dirty = false;
  is_huge_page = false;
  global = false;
  physical_address = 0;
  is_no_execute = false;
}

abbrev pub address_mask : ℕ
address_mask = 0x000FFFFFFFFFF000

abbrev pub flags_mask : ℕ
flags_mask = 0x80000000000001FF

-- The nine low flags of `from_data`, in the order in which it joins them.
unfoldable pub low_flags : PageTableData → ℕ
low_flags d =
    bit_or
      (bit_or
        (bit_or
          (bit_or
            (bit_or
              (bit_or
                (bit_or (bit_or (to_bit d.is_present) (to_bit d.is_writable * 2 ^ 1))
                  (to_bit d.is_user_accessable * 2 ^ 2))
                (to_bit d.write_through_caching_enabled * 2 ^ 3))
              (to_bit d.cache_disabled * 2 ^ 4))
            (to_bit d.accessed * 2 ^ 5))
          (to_bit d.dirty * 2 ^ 6))
        (to_bit d.is_huge_page * 2 ^ 7))
      (to_bit d.global * 2 ^ 8)

unfoldable pub from_data : PageTableData → ℕ
unfolding low_flags
from_data d =
    bit_or (bit_or (low_flags d) (to_bit d.is_no_execute * 2 ^ 63))
      (bit_and d.physical_address address_mask)

-- The address is sign extended from its 52 bits.
unfoldable pub address : ℕ → ℕ
address w =
    let addr_unextended = address_unextended w * 2 ^ 12 in
    if bit_and addr_unextended 0x0008000000000000 == 0
    then addr_unextended
    else bit_or addr_unextended 0xFFF0000000000000

unfoldable pub replace_flags_with : ℕ → ℕ → ℕ
replace_flags_with w flags = bit_or (bit_and w address_mask) (bit_and flags flags_mask)

unfoldable pub replace_addr_with : ℕ → ℕ → ℕ
replace_addr_with w addr = bit_or (bit_and addr address_mask) (bit_and w flags_mask)

-- The constants `READ`, `READ_WRITE`, `READ_EXECUTE` and `READ_WRITE_EXECUTE`.
unfoldable pub read_entry : ℕ
unfolding from_data
read_entry = from_data (record default_data { is_no_execute = true })

unfoldable pub read_write : ℕ
unfolding from_data
read_write = from_data (record default_data { is_writable = true; is_no_execute = true })

unfoldable pub read_execute : ℕ
unfolding from_data
read_execute = from_data default_data

unfoldable pub read_write_execute : ℕ
unfolding from_data
read_write_execute = from_data (record default_data { is_writable = true })
