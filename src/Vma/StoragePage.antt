-- ===== src/Vma/StoragePage.antt =====
-- `NodeStoragePage` of kernel/src/vma.rs: a page of nodes with a bitmap of the entries in use, most
-- significant bit first. The size of a node is the compiler's choice and a parameter here.
pub mod Capacity
pub mod Initial
pub mod Reserve
pub mod Run
pub mod Release
mod Examples
use x.Base.{
  ℕ, zero, suc, ◌+◌, ◌-◌, ◌*◌, ◌/◌, ◌%◌, ◌^◌, bit_and, bit_or, Bool, true, false, ltb, leb, ◌==◌,
  if◌then◌else◌, to_bit, List, [], ◌∷◌, Option, none, some, replicate, ◌++◌, get_elem?, set,
  Command, not, ◌&&◌,
}
use x.Paging.{page_size}
use x.PageAllocator.{not_u8, reserve_first}

-- `PAGE_SIZE - (3 * size_of::<usize>())`.
abbrev pub max_array_and_bitmap_space : ℕ
max_array_and_bitmap_space = page_size - 3 * 8

-- The bytes that a bitmap of so many entries takes.
unfoldable pub bitmap_byte_size : ℕ → ℕ
bitmap_byte_size entries = entries / 8 + to_bit (not (entries % 8 == 0))

-- The loop of `MAX_NODES`: fewer entries until both arrays fit.
unfoldable pub reduce_entries : (node_size entries : ℕ) → ℕ
unfolding bitmap_byte_size
reduce_entries node_size zero = 0
reduce_entries node_size (suc n) =
    if leb (suc n * node_size + bitmap_byte_size (suc n)) max_array_and_bitmap_space
    then suc n
    else reduce_entries node_size n

unfoldable pub max_nodes : ℕ → ℕ
unfolding reduce_entries
max_nodes node_size = reduce_entries node_size (max_array_and_bitmap_space / node_size)

unfoldable pub bitmap_len : ℕ → ℕ
bitmap_len max = max / 8 + to_bit (ltb 0 (max % 8))

-- `INITIAL_USAGE_BITMAP`, for a page of `max` entries.
unfoldable pub initial_usage_bitmap : ℕ → List ℕ
unfolding bitmap_len
initial_usage_bitmap max =
    let bitmap = replicate (bitmap_len max) 0 in
    if max % 8 == 0
    then bitmap
    else set bitmap (bitmap_len max - 1) (not_u8 (0x80 / 2 ^ (max % 8 - 1) - 1))

-- The header of a page; its entries are addressed by `entry_index`.
pub record StoragePage : Type 0 where
  pub next_page : Option ℕ
  pub prev_page : Option ℕ
  pub free_entries : ℕ
  pub usage_bitmap : List ℕ

unfoldable pub new_with_prev_page : (max : ℕ) → Option ℕ → StoragePage
unfolding initial_usage_bitmap
new_with_prev_page max prev_page = record {
  next_page = none;
  prev_page = prev_page;
  free_entries = max;
  usage_bitmap = initial_usage_bitmap max;
}

-- What follows the scan of the bitmap, which is the allocator's scan for a page. Past the loop
-- stands `unreachable!()`; `debug_assert!` holds the index to the entries.
unfoldable pub reserve_entry :
    (max : ℕ) → StoragePage → Option (List ℕ × ℕ × ℕ) → Option (Option ℕ × StoragePage)
reserve_entry max s none = none
reserve_entry max s (some (bitmap, byte_index, bit_index)) =
    let entry_index = byte_index * 8 + bit_index in
    if ltb entry_index max
    then some
        (some entry_index, record s { usage_bitmap = bitmap; free_entries = s.free_entries - 1 })
    else none

-- `find_and_reserve_node`: the index of the entry.
unfoldable pub find_and_reserve_node : (max : ℕ) → Command StoragePage (Option ℕ)
unfolding reserve_entry reserve_first
find_and_reserve_node max s =
    if s.free_entries == 0
    then some (none, s)
    else reserve_entry max s (reserve_first 0 s.usage_bitmap)

-- The pages by their addresses, for the operation that changes the neighbours of a page.
abbrev pub Pages : Type 0
Pages = ℕ → StoragePage

unfoldable pub update : Pages → ℕ → StoragePage → Pages
update pages page s at = if at == page then s else pages at

-- The page takes itself out of the list, before the page `prev`: first the page after it is linked
-- to the one before.
unfoldable pub relink_next : (next_page prev_page : Option ℕ) → Pages → Pages
unfolding update
relink_next none prev_page pages = pages
relink_next (some next_page) prev_page pages =
    update pages next_page (record (pages next_page) { prev_page = prev_page })

unfoldable pub unlink : (page prev : ℕ) → Pages → Pages
unfolding update relink_next
unlink page prev pages =
    let relinked = relink_next (pages page).next_page (pages page).prev_page pages in
    update relinked prev (record (relinked prev) { next_page = (relinked page).next_page })

unfoldable pub clear_entry : (page i : ℕ) → Command Pages Bool
unfolding update
clear_entry page i pages =
    let s = pages page in
    elim (get_elem? s.usage_bitmap (i / 8)) [
      | none ↦ none
      | some b ↦ some (
        false,
        update pages page (record s {
          usage_bitmap = set s.usage_bitmap (i / 8) (bit_and b (not_u8 (0x80 / 2 ^ (i % 8))));
          free_entries = s.free_entries + 1;
        }),
      )
    ]

-- `true` says that the page has unlinked itself and is to be freed.
unfoldable pub unreserve_node : (max page i : ℕ) → Command Pages Bool
unfolding unlink clear_entry
unreserve_node max page i pages =
    if not (ltb i max)
    then none
    else if (pages page).free_entries + 1 == max
    then elim (pages page).prev_page [
      | none ↦ clear_entry page i pages
      | some prev ↦ some (true, unlink page prev pages)
    ]
    else clear_entry page i pages
