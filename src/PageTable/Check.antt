-- ===== src/PageTable/Check.antt =====
-- `check_flags` of `PageAllocatorInternal`, and what it says of every address of a range.
pub mod Pages
use x.Base.{
  ℕ, zero, suc, ◌+◌, ◌-◌, ◌*◌, ◌/◌, ◌^◌, bit_and, Bool, true, false, not, ◌&&◌, ◌||◌, ltb, leb,
  ◌==◌, if◌then◌else◌, List, [], ◌∷◌, Option, none, some,
}
use x.Paging.{present, address, align_to_page, replace_addr_with}
use x.PageAllocator.{Memory, Machine}
use x.PageTable.{levels, table_index}

-- The walk for one page.
unfoldable pub check_levels :
    List (ℕ × ℕ) → Memory → (actual_flags virtual_address table : ℕ) → Bool
check_levels [] m actual_flags virtual_address table = true
check_levels ((i, level_mask) ∷ rest) m actual_flags virtual_address table =
    let entry = m table (table_index i level_mask virtual_address) in
    let deeper = check_levels rest m actual_flags virtual_address (address entry) in
    if not (present entry) || not (bit_and entry actual_flags == actual_flags)
    then false
    else deeper

-- The loop over the pages from `page_i` on.
unfoldable pub check_pages :
    (pages page_i : ℕ) → Machine → (virtual_start_address actual_flags : ℕ) → Bool
unfolding check_levels
check_pages zero page_i s virtual_start_address actual_flags = true
check_pages (suc pages) page_i s virtual_start_address actual_flags =
    let rest = check_pages pages (page_i + 1) s virtual_start_address actual_flags in
    let virtual_address = virtual_start_address + page_i * 2 ^ 12 in
    if not
      (check_levels levels s.memory actual_flags virtual_address (address s.allocator.page_table))
    then false
    else rest

unfoldable pub num_pages : (virtual_start_address size : ℕ) → ℕ
num_pages virtual_start_address size =
    let lower_bound = align_to_page virtual_start_address in
    let upper_bound = align_to_page (virtual_start_address + (size - 1)) in
    (upper_bound - lower_bound) / 2 ^ 12 + 1

-- A size of 0 and a range beyond the last address panic.
unfoldable pub check_flags : Machine → (virtual_start_address size flags : ℕ) → Option Bool
unfolding check_pages num_pages
check_flags s virtual_start_address size flags =
    if leb 1 size && ltb (virtual_start_address + (size - 1)) (2 ^ 64)
    then some (
        check_pages (num_pages virtual_start_address size) 0 s virtual_start_address
          (replace_addr_with flags 0))
    else none
