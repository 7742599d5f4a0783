-- ===== src/PageTable.antt =====
-- The four-level page tables of `PageAllocatorInternal`, kernel/src/arch/x86_64/page_allocation.rs:
-- the loops over `LEVEL_MASKS` that walk, extend and cut them.
pub mod Index
pub mod Extend
pub mod Walk
pub mod Map
pub mod Taken
pub mod MapPage
pub mod Unmap
pub mod Check
pub mod Identity
pub mod Shared
mod Examples
use x.Base.{
  ℕ, zero, suc, ◌+◌, ◌-◌, ◌*◌, ◌/◌, ◌%◌, ◌^◌, bit_and, Bool, true, false, not, ◌&&◌, ◌||◌, ltb, leb,
  ◌==◌, if◌then◌else◌, List, [], ◌∷◌, Option, none, some, Result, ok, err, Command, pure, panic,
  ◌>>=◌, ◌>>◌,
}
use x.Paging.{
  present, huge_page, address, align_to_page, address_mask, replace_addr_with, read_write,
  page_size,
}
use x.PageAllocator.{
  Memory, Machine, PageAllocator, clear_page, ReservePageError, find_and_reserve_page, free_page,
}

-- `LEVEL_MASKS.iter().enumerate()`.
abbrev pub levels : List (ℕ × ℕ)
levels = (0, 0xFF8000000000) ∷ (1, 0x007FC0000000) ∷ (2, 0x00003FE00000) ∷ (3, 0x0000001FF000) ∷ []

-- The index of an address in the table of a level.
unfoldable pub table_index : ℕ → ℕ → ℕ → ℕ
table_index i level_mask virtual_address =
    bit_and level_mask virtual_address / 2 ^ ((3 - i) * 9 + 12) % 512

unfoldable pub write_entry : Memory → ℕ → ℕ → ℕ → Memory
write_entry m table index entry a i = if a == table && i == index then entry else m a i

pub data MapPageError : Type 0 where
  out_of_pages page_already_exists : MapPageError

-- The new table behind an entry, where a page was left for it.
unfoldable pub link_table :
    (table index : ℕ) → Option (Result ReservePageError ℕ × Machine) → Option (Option ℕ × Machine)
link_table table index none = none
link_table table index (some (err e, s)) = some (none, s)
link_table table index (some (ok page, s)) =
    let entry = replace_addr_with read_write (bit_and page address_mask) in
    some (
      some (address entry),
      record s { memory = write_entry (clear_page s.memory page) table index entry },
    )

-- An entry of a table above the last: the address of the table that it names, which is allocated
-- where there is none. `none` when no page is left.
unfoldable pub parent_table : ℕ → ℕ → Command Machine (Option ℕ)
unfolding link_table
parent_table table index s =
    if present (s.memory table index)
    then some (some (address (s.memory table index)), s)
    else link_table table index (find_and_reserve_page s)

-- The entry of the last table.
unfoldable pub map_child : ℕ → ℕ → ℕ → Command Machine (Result MapPageError (Unit {0}))
map_child table index entry s =
    if present (s.memory table index)
    then some (err page_already_exists, s)
    else some (ok tt, record s { memory = write_entry s.memory table index entry })

-- After the loop stands `unreachable!()`.
unfoldable pub map_levels :
    List (ℕ × ℕ)
    → (physical_address virtual_address flags table : ℕ)
    → Command Machine (Result MapPageError (Unit {0}))
unfolding parent_table map_child
map_levels [] physical_address virtual_address flags table = panic
map_levels ((i, level_mask) ∷ rest) physical_address virtual_address flags table =
    let index = table_index i level_mask virtual_address in
    if i == 3 then map_child table index (replace_addr_with flags physical_address) else do
      next ← parent_table table index
      elim next [
        | none ↦ pure (err out_of_pages)
        | some child ↦ map_levels rest physical_address virtual_address flags child
      ]

unfoldable pub map_page_translation :
    (physical_address virtual_address flags : ℕ) → Command Machine (Result MapPageError (Unit {0}))
unfolding map_levels
map_page_translation physical_address virtual_address flags s =
    map_levels levels (bit_and physical_address address_mask) virtual_address flags
      (address s.allocator.page_table) s

-- The end of `map_page`: a page that could not be mapped is freed.
unfoldable pub keep_or_free :
    ℕ → Result MapPageError (Unit {0}) → Command Machine (Result MapPageError (Unit {0}))
keep_or_free page (ok u) = pure (ok tt)
keep_or_free page (err e) = do free_page page; pure (err e)

unfoldable pub map_reserved :
    (virtual_address flags : ℕ)
    → Result ReservePageError ℕ
    → Command Machine (Result MapPageError (Unit {0}))
unfolding keep_or_free
map_reserved virtual_address flags (err e) = pure (err out_of_pages)
map_reserved virtual_address flags (ok page) = do
  mapped ← map_page_translation page virtual_address flags
  keep_or_free page mapped

unfoldable pub map_page :
    (virtual_address flags : ℕ) → Command Machine (Result MapPageError (Unit {0}))
unfolding map_reserved
map_page virtual_address flags = do
  new_page ← find_and_reserve_page
  map_reserved virtual_address flags new_page

unfoldable pub unmap_levels :
    List (ℕ × ℕ) → (virtual_address table : ℕ) → Command Machine (Unit {0})
unmap_levels [] virtual_address table s = some (tt, s)
unmap_levels ((i, level_mask) ∷ rest) virtual_address table s =
    let index = table_index i level_mask virtual_address in
    let entry = s.memory table index in
    let deeper = unmap_levels rest virtual_address (address entry) s in
    if not (present entry)
    then some (tt, s)
    else if i == 3
    then free_page (address entry) (record s { memory = write_entry s.memory table index 0 })
    else deeper

unfoldable pub unmap_and_free_page : ℕ → Command Machine (Unit {0})
unfolding unmap_levels
unmap_and_free_page virtual_address s =
    unmap_levels levels (bit_and virtual_address address_mask) (address s.allocator.page_table) s
