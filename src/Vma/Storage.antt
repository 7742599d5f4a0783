-- ===== src/Vma/Storage.antt =====
-- `NodeStorageList` and `NodePtr::free` of kernel/src/vma.rs, with the pages that they take from
-- kernel/src/physical_block_allocator.rs. `Box` of the standard library writes its value to what its
-- allocator returns.
pub mod Blocks
pub mod Address
use x.Base.{
  ℕ, zero, suc, ◌+◌, ◌-◌, ◌*◌, ◌/◌, ◌%◌, ◌^◌, ◌≤◌, bit_and, Bool, true, false, ltb, leb, ◌&&◌, ◌==◌,
  if◌then◌else◌, Option, none, some, Result, ok, err, Command, pure, panic, ◌>>=◌, ◌>>◌, ◌>>=?◌,
  unwrap,
}
use x.Paging.{page_size, not_u64}
use x.PageAllocator.{Machine}
use x.Vma.StoragePage.{
  StoragePage, Pages, max_nodes, bitmap_len, new_with_prev_page, find_and_reserve_node, update,
  unreserve_node,
}
use x.Vma.Node.{Node, leaf, branch, empty, used, placeholder, NodeColor, black, new_branch_node}
use x.Vma.Storage.Blocks.{allocate, deallocate}

pub data VmaMapError : Type 0 where
  segment_already_exists out_of_memory out_of_address_space : VmaMapError

-- The nodes at their addresses, the headers of the pages that they stand in, the first of these pages
-- and the physical memory that they come from; `pages_used` is the counter of the caller, and
-- `temp_node` the address of the node that the list holds itself.
pub record Storage : Type 0 where
  pub nodes : ℕ → Node
  pub pages : Pages
  pub head : ℕ
  pub temp_node : ℕ
  pub pages_used : ℕ
  pub machine : Machine

-- Calls on a part of the state.
abbrev on_pages : {A : Type 0} → Command Pages A → Command Storage A
on_pages f s = elim (f s.pages) [ none ↦ none | some (a, p) ↦ some (a, record s { pages = p }) ]

abbrev on_page : {A : Type 0} → ℕ → Command StoragePage A → Command Storage A
on_page page f s = elim (f (s.pages page)) [
  | none ↦ none
  | some (a, p) ↦ some (a, record s { pages = update s.pages page p })
]

abbrev on_machine : {A : Type 0} → Command Machine A → Command Storage A
on_machine f s = elim (f s.machine) [
  | none ↦ none
  | some (a, m) ↦ some (a, record s { machine = m })
]

unfoldable pub write_node : ℕ → Node → Command Storage (Unit {0})
write_node a n s = some (tt, record s { nodes = λ b. if b == a then n else s.nodes b })

-- `fuel` bounds the rounds of each loop; the size of a node is the compiler's choice.
module _ (node_size fuel : ℕ) where
  -- `size_of::<NodeStoragePage>()`, a multiple of the alignment of a word.
  unfoldable pub storage_page_size : ℕ
  unfolding max_nodes bitmap_len
  storage_page_size =
      (max_nodes node_size * node_size + 3 * 8 + bitmap_len (max_nodes node_size) + 7) / 8 * 8

  -- The entries of a page stand at its start.
  unfoldable pub node_address : (page entry_index : ℕ) → ℕ
  node_address page entry_index = page + entry_index * node_size

  -- A new page, written to where the allocator has found room.
  unfoldable pub write_page : (page : ℕ) (prev_page : Option ℕ) → Command Storage (Unit {0})
  unfolding max_nodes new_with_prev_page update
  write_page page prev_page s = some (
    tt,
    record s {
      nodes = λ a. if leb page a && ltb a (page + page_size) then placeholder else s.nodes a;
      pages = update s.pages page (new_with_prev_page (max_nodes node_size) prev_page);
    },
  )

  -- `PageBox::try_new_in`.
  unfoldable pub try_new_page : (prev_page : Option ℕ) → Command Storage (Option ℕ)
  unfolding write_page storage_page_size allocate
  try_new_page prev_page = do
    allocated ← on_machine (allocate storage_page_size 8)
    elim allocated [ none ↦ pure none | some page ↦ do write_page page prev_page; pure (some page) ]

  -- `NodeStoragePage::find_and_reserve_node` of a page that must have an entry left.
  unfoldable pub reserve_in : (page : ℕ) → Command Storage ℕ
  unfolding node_address max_nodes find_and_reserve_node update
  reserve_in page = do
    entry ← on_page page (find_and_reserve_node (max_nodes node_size))
    entry_index ← unwrap entry
    pure (node_address page entry_index)

  -- The walk along the pages: the first with an entry left, or the last.
  unfoldable pub find_page : (rounds page : ℕ) → Command Storage (Bool × ℕ)
  find_page zero page s = none
  find_page (suc rounds) page s =
      if ltb 0 (s.pages page).free_entries
      then some ((true, page), s)
      else elim (s.pages page).next_page [
        | none ↦ some ((false, page), s)
        | some next_page ↦ find_page rounds next_page s
      ]

  -- `*pages_used += 1`, which panics past the word.
  unfoldable pub count_storage_page : Command Storage (Unit {0})
  count_storage_page s =
      if ltb (s.pages_used + 1) (2 ^ 64)
      then some (tt, record s { pages_used = s.pages_used + 1 })
      else none

  unfoldable pub append_page : (last : ℕ) → Command Storage (Result VmaMapError ℕ)
  unfolding count_storage_page try_new_page reserve_in update
  append_page last = do
    count_storage_page
    new_page ← try_new_page (some last)
    elim new_page [
      | none ↦ pure (err out_of_memory)
      | some page ↦ do
        node ← reserve_in page
        λ s. some (
          tt,
          record s {
            pages = update s.pages last (record (s.pages last) { next_page = some page });
          },
        )
        pure (ok node)
    ]

  unfoldable pub reserve_node : Command Storage (Result VmaMapError ℕ)
  unfolding find_page reserve_in append_page
  reserve_node s =
      (do
        (has_space, page) ← find_page fuel s.head
        let found : Command Storage (Result VmaMapError ℕ) = do
          node ← reserve_in page
          pure (ok node)
        if has_space then found else append_page page)
        s

  unfoldable pub new_node : Node → Command Storage (Result VmaMapError ℕ)
  unfolding reserve_node write_node
  new_node n = reserve_node >>=? λ a. (write_node a n >> pure (ok a))

  unfoldable pub new_empty_leaf : (size : ℕ) → Command Storage (Result VmaMapError ℕ)
  unfolding new_node
  new_empty_leaf size = new_node (leaf (empty size))

  unfoldable pub new_used_leaf : (flags : ℕ) → Command Storage (Result VmaMapError ℕ)
  unfolding new_node
  new_used_leaf flags = new_node (leaf (used flags))

  unfoldable pub new_branch :
      (pivot : ℕ) (parent : Option ℕ) (left right : ℕ) → Command Storage (Result VmaMapError ℕ)
  unfolding new_node new_branch_node
  new_branch pivot parent left right =
      new_node (branch (new_branch_node pivot false black parent left right))

  -- `NodePtr::free`; a page that has unlinked itself goes back to its allocator.
  unfoldable pub free_node : (node : ℕ) → Command Storage (Unit {0})
  unfolding write_node unreserve_node deallocate
  free_node node = do
    write_node node placeholder
    let page = bit_and node (not_u64 (page_size - 1))
    let entry_index = bit_and node (page_size - 1) / node_size
    needs_freeing ← on_pages (unreserve_node (max_nodes node_size) page entry_index)
    if needs_freeing then on_machine (deallocate page) else pure tt
