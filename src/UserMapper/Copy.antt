-- ===== src/UserMapper/Copy.antt =====
-- `new` and `map_mem_copy_from_buffer` of kernel/src/arch/x86_64/user_page_mapping.rs.
use x.Base.{
  ℕ, zero, suc, ◌+◌, ◌-◌, ◌*◌, ◌/◌, ◌%◌, ◌^◌, bit_and, bit_or, ltb, leb, ◌==◌, ◌&&◌, if◌then◌else◌,
  List, [], ◌∷◌, length, drop, replicate, none, some, Result, ok, Command, pure, ◌>>=◌, ◌>>◌,
  ◌>>=?◌, assert, sub_checked,
}
use x.Paging.{present, address, address_mask, read_entry, read_write_execute}
use x.PageAllocator.{Memory, Machine, ReservePageError, find_and_reserve_page, clear_page}
use x.PageTable.{levels, table_index, write_entry}
use x.UserMapper.Pages.{num_pages}

-- `copy_from_slice` of a table into the entries of another from `start` to `end`; the lengths must
-- agree.
abbrev pub copy_table : (table start end source length : ℕ) → Command Machine (Unit {0})
copy_table table start end source length s =
    if end - start == length
    then some (
      tt,
      record s {
        memory = λ a i.
            if a == table && (leb start i && ltb i end)
            then s.memory source (i - start)
            else s.memory a i;
      },
    )
    else none

-- The entries below `end` are cleared.
abbrev pub clear_entries : (table end : ℕ) → Command Machine (Unit {0})
clear_entries table end s =
    some (tt, record s { memory = λ a i. if a == table && ltb i end then 0 else s.memory a i })

-- `page_table_address`, through the lock.
abbrev pub kernel_table : Command Machine ℕ
kernel_table s = some (address s.allocator.page_table, s)

-- The page of a new mapper. The kernel's table is taken as a whole, with its 512 entries.
unfoldable pub new : Command Machine (Result ReservePageError ℕ)
unfolding find_and_reserve_page
new = find_and_reserve_page >>=? λ pml4. do
  clear_entries pml4 256
  source ← kernel_table
  copy_table pml4 256 512 source 512
  pure (ok pml4)

-- A byte of a page, in its word, and the bytes of a slice.
unfoldable pub write_byte : Memory → (page offset byte : ℕ) → Memory
unfolding write_entry
write_byte m page offset byte =
    let word = m page (offset / 8) in
    let place = 2 ^ (offset % 8 * 8) in
    write_entry m page (offset / 8) (word - word / place % 2 ^ 8 * place + byte * place)

unfoldable pub write_bytes : Memory → (page offset : ℕ) → List ℕ → Memory
unfolding write_byte
write_bytes m page offset [] = m
write_bytes m page offset (byte ∷ bytes) =
    write_bytes (write_byte m page offset byte) page (offset + 1) bytes

-- The slice of the buffer at `data_written` and the zeros behind it.
abbrev pub put_data : (page start_offset data_to_write : ℕ) → List ℕ → Command Machine (Unit {0})
put_data page start_offset data_to_write bytes s = some (
  tt,
  record s {
    memory =
        write_bytes (write_bytes s.memory page start_offset bytes) page
          (start_offset + data_to_write) (replicate (4096 - (start_offset + data_to_write)) 0);
  },
)

-- What is written to a page, with the new `data_written`. `copy_from_slice` wants the whole rest of
-- the buffer to be what fits into the page.
unfoldable pub fill_page :
    (buffer : List ℕ) (page start_offset data_written : ℕ) → Command Machine ℕ
unfolding write_bytes
fill_page buffer page start_offset data_written = do
  left ← sub_checked (length buffer) data_written
  room ← sub_checked 4096 start_offset
  let data_to_write = if leb left room then left else room
  assert (data_to_write == left)
  put_data page start_offset data_to_write (drop data_written buffer)
  pure (data_written + data_to_write)

-- The entry of a page that has just been reserved. A page with data is not zeroed here.
unfoldable pub link_new : (i table index new_page : ℕ) → Command Machine ℕ
unfolding clear_page write_entry read_entry read_write_execute
link_new i table index new_page s =
    let flags = if ltb i 3 then read_write_execute else read_entry in
    let entry = bit_or (bit_and new_page address_mask) flags in
    let memory = if ltb i 3 then clear_page s.memory new_page else s.memory in
    some (entry, record s { memory = write_entry memory table index entry })

unfoldable pub entry_or_new : (i table index : ℕ) → Command Machine (Result ReservePageError ℕ)
unfolding find_and_reserve_page link_new
entry_or_new i table index s =
    if present (s.memory table index)
    then some (ok (s.memory table index), s)
    else (find_and_reserve_page >>=? λ new_page. do
      entry ← link_new i table index new_page
      pure (ok entry))
        s

-- The levels down to a page, which is filled at the last.
unfoldable pub copy_levels :
    List (ℕ × ℕ)
    → (buffer : List ℕ) (virtual_address start_offset data_written current_address : ℕ)
    → Command Machine (Result ReservePageError ℕ)
unfolding entry_or_new fill_page
copy_levels [] buffer virtual_address start_offset data_written current_address =
    pure (ok data_written)
copy_levels ((i, level_mask) ∷ rest) buffer virtual_address start_offset written current =
    entry_or_new i current (table_index i level_mask virtual_address) >>=? λ entry.
    if i == 3
    then (do
      written' ← fill_page buffer (address entry) start_offset written
      copy_levels rest buffer virtual_address 0 written' (address entry))
    else copy_levels rest buffer virtual_address start_offset written (address entry)

-- The pages from `virtual_address` on; the offset is that of the first one.
unfoldable pub copy_pages :
    (count : ℕ) (buffer : List ℕ) (pml4 virtual_address start_offset data_written : ℕ)
    → Command Machine (Result ReservePageError (Unit {0}))
unfolding copy_levels
copy_pages zero buffer pml4 virtual_address start_offset data_written = pure (ok tt)
copy_pages (suc count) buffer pml4 virtual_address start_offset data_written =
    copy_levels levels buffer virtual_address start_offset data_written pml4 >>=? λ written.
    copy_pages count buffer pml4 (virtual_address + 2 ^ 12) 0 written

unfoldable pub map_mem_copy_from_buffer :
    (pml4 virtual_start_address size : ℕ) (buffer : List ℕ)
    → Command Machine (Result ReservePageError (Unit {0}))
unfolding num_pages copy_pages
map_mem_copy_from_buffer pml4 virtual_start_address size buffer = do
  count ← num_pages virtual_start_address size
  copy_pages count buffer pml4 virtual_start_address (bit_and virtual_start_address 0xfff) 0
