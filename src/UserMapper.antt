-- ===== src/UserMapper.antt =====
-- The page tables of a process, kernel/src/arch/x86_64/user_page_mapping.rs. The mapper owns the
-- page at `pml4`; pages come from and go to the allocator of the machine.
pub mod Walk
pub mod Unmap
pub mod Cut
pub mod UnmapTask
pub mod MapPage
pub mod MapTask
pub mod Pages
pub mod Copy
mod Examples
use x.Base.{
  ℕ, zero, suc, ◌+◌, bit_and, Bool, true, false, not, leb, ◌==◌, if◌then◌else◌, List, [], ◌∷◌,
  Option, none, some, Command, pure, panic, ◌>>=◌, ◌>>◌,
}
use x.Paging.{present, huge_page, address, address_mask}
use x.PageAllocator.{Memory, Machine, free_page}
use x.PageTable.{levels, table_index, write_entry}

-- The first loop of `unmap_page`: the index and the address of each table on the way down, the last
-- table first. A huge page fails the assertion; an entry that is not present ends the call.
unfoldable pub collect_tables :
    List (ℕ × ℕ)
    → Memory
    → (virtual_address current_address : ℕ) → (table_addresses : List (ℕ × ℕ))
    → Option (Option (List (ℕ × ℕ)))
collect_tables [] m virtual_address current_address table_addresses = some (some table_addresses)
collect_tables ((i, level_mask) ∷ rest) m virtual_address current_address table_addresses =
    let index = table_index i level_mask virtual_address in
    let entry = m current_address index in
    let deeper =
      collect_tables rest m virtual_address (address entry)
        ((index, current_address) ∷ table_addresses) in
    if huge_page entry then none else if not (present entry) then some none else deeper

-- The second loop, from the last table up. Its inner loop over the entries of the table has no
-- effect: the `break` in it leaves that loop only.
unfoldable pub free_tables :
    List (ℕ × ℕ) → (tables_checked pages_freed free_table_check_depth : ℕ) → Command Machine ℕ
free_tables [] tables_checked pages_freed free_table_check_depth s = some (pages_freed, s)
free_tables ((index, table) ∷ rest) tables_checked pages_freed free_table_check_depth s =
    let more = free_tables rest (tables_checked + 1) (pages_freed + 1) free_table_check_depth in
    (do
      free_page (address (s.memory table index))
      if leb free_table_check_depth tables_checked then pure (pages_freed + 1) else more)
      (record s { memory = write_entry s.memory table index 0 })

unfoldable pub free_collected :
    Option (Option (List (ℕ × ℕ))) → (free_table_check_depth : ℕ) → Command Machine ℕ
unfolding free_tables
free_collected none free_table_check_depth = panic
free_collected (some none) free_table_check_depth = pure 0
free_collected (some (some tables)) free_table_check_depth =
    free_tables tables 0 0 free_table_check_depth

unfoldable pub unmap_page : (pml4 virtual_address free_table_check_depth : ℕ) → Command Machine ℕ
unfolding collect_tables free_collected
unmap_page pml4 virtual_address free_table_check_depth s =
    free_collected (collect_tables levels s.memory (bit_and virtual_address address_mask) pml4 [])
      free_table_check_depth s
