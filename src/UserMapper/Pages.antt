-- ===== src/UserMapper/Pages.antt =====
-- `unmap_mem`, `change_flags` and `change_flags_relaxing` of `UserPageMapper`: loops over the pages of
-- a range, each with a walk down the tables; and the end of a mapper, which frees its tables.
use x.Base.{
  ℕ, zero, suc, ◌+◌, ◌/◌, ◌^◌, bit_and, bit_or, not, ltb, ◌==◌, if◌then◌else◌, List, [], ◌∷◌, none,
  some, Command, pure, panic, ◌>>=◌, ◌>>◌, assert, sub_checked,
}
use x.Paging.{present, huge_page, address, align_to_page, address_mask, not_u64}
use x.PageAllocator.{Machine, free_page}
use x.PageTable.{levels, table_index, write_entry}

-- The pages that a range of addresses touches; the sums and differences panic out of range.
unfoldable pub num_pages : (start_address size : ℕ) → Command Machine ℕ
unfolding align_to_page
num_pages start_address size = do
  rest ← sub_checked size 1
  assert (ltb (start_address + rest) (2 ^ 64))
  pages ← sub_checked (align_to_page (start_address + rest)) (align_to_page start_address)
  pure (pages / 2 ^ 12 + 1)

-- The walk to the entry of the last table, which `visit` is called at if it is present.
unfoldable pub visit_page :
    List (ℕ × ℕ)
    → (visit : (table index entry : ℕ) → Command Machine (Unit {0}))
    → (virtual_address current_address : ℕ) → Command Machine (Unit {0})
visit_page [] visit virtual_address current_address s = some (tt, s)
visit_page ((i, level_mask) ∷ rest) visit virtual_address current_address s =
    let index = table_index i level_mask virtual_address in
    let entry = s.memory current_address index in
    let deeper = visit_page rest visit virtual_address (address entry) in
    if huge_page entry
    then none
    else if i == 3
    then (if present entry then visit current_address index entry s else some (tt, s))
    else deeper s

unfoldable pub visit_pages :
    (count : ℕ)
    → (visit : (table index entry : ℕ) → Command Machine (Unit {0})) → (virtual_address pml4 : ℕ)
    → Command Machine (Unit {0})
unfolding visit_page
visit_pages zero visit virtual_address pml4 = pure tt
visit_pages (suc count) visit virtual_address pml4 = do
  visit_page levels visit virtual_address pml4
  visit_pages count visit (virtual_address + 4096) pml4

abbrev pub set_entry : (table index entry : ℕ) → Command Machine (Unit {0})
set_entry table index entry s =
    some (tt, record s { memory = write_entry s.memory table index entry })

unfoldable pub unmap_entry : (table index entry : ℕ) → Command Machine (Unit {0})
unfolding free_page write_entry
unmap_entry table index entry = do free_page (address entry); set_entry table index 0

unfoldable pub unmap_mem : (pml4 start_address size : ℕ) → Command Machine (Unit {0})
unfolding num_pages visit_pages unmap_entry
unmap_mem pml4 start_address size = do
  count ← num_pages start_address size
  visit_pages count unmap_entry (bit_and start_address address_mask) pml4

unfoldable pub flags_entry : (flags entry : ℕ) → ℕ
unfolding address
flags_entry flags entry = bit_or (address entry) (bit_or (bit_and flags 0x80000000000001FE) 1)

unfoldable pub change_flags : (pml4 start_address size flags : ℕ) → Command Machine (Unit {0})
unfolding num_pages visit_pages flags_entry write_entry
change_flags pml4 start_address size flags = do
  count ← num_pages start_address size
  let visit = λ (table index entry : ℕ). set_entry table index (flags_entry flags entry)
  visit_pages count visit (bit_and start_address address_mask) pml4

unfoldable pub relaxed_entry : (flags entry : ℕ) → ℕ
unfolding address
relaxed_entry flags entry =
    let no_execute_mask = if bit_and flags (2 ^ 63) == 0 then not_u64 (2 ^ 63) else not_u64 0 in
    bit_and (bit_or (address entry) (bit_or (bit_and flags 6) 1)) no_execute_mask

unfoldable pub change_flags_relaxing :
    (pml4 start_address size flags : ℕ) → Command Machine (Unit {0})
unfolding num_pages visit_pages relaxed_entry write_entry
change_flags_relaxing pml4 start_address size flags = do
  count ← num_pages start_address size
  let visit = λ (table index entry : ℕ). set_entry table index (relaxed_entry flags entry)
  visit_pages count visit (bit_and start_address address_mask) pml4

-- The `count` entries of a table from `index` on.
unfoldable pub each_entry :
    (count : ℕ)
    → (visit : ℕ → Command Machine (Unit {0})) → (table index : ℕ) → Command Machine (Unit {0})
each_entry zero visit table index s = some (tt, s)
each_entry (suc count) visit table index s =
    let entry = s.memory table index in
    (do
      λ t. (if present entry then visit entry t else some (tt, t))
      each_entry count visit table (suc index))
      s

-- `free_page_tree`, with the levels of tables that are below: 3 less the source's `level`.
unfoldable pub free_page_tree : (levels_below node : ℕ) → Command Machine (Unit {0})
unfolding free_page
free_page_tree zero node =
    if not (present node)
    then pure tt
    else if huge_page node
    then panic
    else free_page (address node)
free_page_tree (suc levels_below) node =
    if not (present node) then pure tt else if huge_page node then panic else (do
      each_entry 512 (λ entry. free_page_tree levels_below entry) (address node) 0
      free_page (address node))

-- The end of a mapper: the trees of its lower half, then the page that it owns.
unfoldable pub drop : (pml4 : ℕ) → Command Machine (Unit {0})
unfolding each_entry free_page_tree free_page
drop pml4 = do each_entry 256 (free_page_tree 3) pml4 0; free_page pml4
