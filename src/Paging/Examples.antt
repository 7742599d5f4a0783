-- ===== src/Paging/Examples.antt =====
-- Entries built from data and changed, at concrete values.
use x.Base.{◌%◌, ◌^◌, ◌≡◌, refl, true, arith}
use x.Paging.{
  PageTableData, default_data, from_data, replace_addr_with, no_execute, address, align_to_page,
}
use x.Paging.Fields.{Reads, from_data-Reads, replace_addr_with_lem}

abbrev user_page : PageTableData
user_page = record default_data { is_user_accessable = true; physical_address = 0x7000 }

user_page_bits : from_data user_page ≡ 0x7005
unfolding from_data
user_page_bits = refl

from_data-Reads_example : Reads user_page (from_data user_page)
from_data-Reads_example = from_data-Reads user_page

replace_addr_with_lem_example :
    (replace_addr_with 0x5003 0x6123 % 2 ^ 9 ≡ 0x5003 % 2 ^ 9)
    × (no_execute (replace_addr_with 0x5003 0x6123) ≡ no_execute 0x5003)
    × (address (replace_addr_with 0x5003 0x6123) ≡ align_to_page 0x6123)
replace_addr_with_lem_example = replace_addr_with_lem 0x5003 0x6123 (omega arith)
