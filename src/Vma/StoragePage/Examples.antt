-- ===== src/Vma/StoragePage/Examples.antt =====
-- Pages of twelve entries, and the theorems at them.
use x.Base.{
  ℕ, ◌+◌, ◌*◌, ◌≤◌, ◌≡◌, ◌↔◌, refl, [], ◌∷◌, none, some, arith, ltb, Bool, true, false, not,
  if◌then◌else◌, ◌==◌, Option,
}
use x.PageAllocator.{leading_zeros}
use x.PageAllocator.Bitmap.{is_reserved}
use x.Vma.StoragePage.{
  StoragePage, initial_usage_bitmap, new_with_prev_page, find_and_reserve_node, max_nodes, Pages,
  update, unreserve_node,
}
use x.Vma.StoragePage.Capacity.{Fits, max_nodes_lem}
use x.Vma.StoragePage.Initial.{initial_usage_bitmap_lem}
use x.Vma.StoragePage.Reserve.{EntryReserved, find_and_reserve_node-EntryReserved}
use x.Vma.StoragePage.Run.{reserve_times, find_and_reserve_node-new_with_prev_page}

-- A new page of twelve entries, and the page with its first entry taken.
abbrev page : StoragePage
page = record {
  next_page = none;
  prev_page = none;
  free_entries = 12;
  usage_bitmap = 0b00000000 ∷ 0b11110000 ∷ [];
}

abbrev taken_page : StoragePage
taken_page = record page { usage_bitmap = 0b10000000 ∷ 0b11110000 ∷ []; free_entries = 11 }

entry_runs :
    (new_with_prev_page 12 none ≡ page)
    × (find_and_reserve_node 12 page ≡ some (some 0, taken_page))
unfolding new_with_prev_page initial_usage_bitmap find_and_reserve_node leading_zeros
entry_runs = (refl, refl)

-- Nodes of 40 bytes: 101 of them.
capacity_runs : max_nodes 40 ≡ 101
unfolding max_nodes
capacity_runs = refl

max_nodes_lem_example : Fits 40 100 ↔ (100 ≤ max_nodes 40)
max_nodes_lem_example = max_nodes_lem 40 100 (omega arith)

find_and_reserve_node-EntryReserved_example : EntryReserved 12 page (find_and_reserve_node 12 page)
find_and_reserve_node-EntryReserved_example =
    find_and_reserve_node-EntryReserved 12 page (omega arith)

initial_usage_bitmap_lem_example : is_reserved (initial_usage_bitmap (8 * 12 + 5)) 97 ≡ (
    if ltb 97 (8 * 12)
    then false
    else if ltb 97 (8 * 12 + 5)
    then true
    else not (ltb 97 (8 * 12 + 8)))
initial_usage_bitmap_lem_example = initial_usage_bitmap_lem 12 5 (omega arith) (omega arith) 97

find_and_reserve_node-new_with_prev_page_example :
    (t : StoragePage) × (reserve_times (8 * 12) (8 * 12 + 5) (new_with_prev_page (8 * 12 + 5) none)
      ≡ some t)
    × (t.free_entries ≡ 5)
    × (find_and_reserve_node (8 * 12 + 5) t ≡ none)
find_and_reserve_node-new_with_prev_page_example =
    find_and_reserve_node-new_with_prev_page 12 5 (omega arith) (omega arith) none

-- Three pages in a row; in the one in the middle, made behind page 1, only the first entry is taken.
abbrev middle : StoragePage
middle = record taken_page { next_page = some 3; prev_page = some 1 }

abbrev pages : Pages
pages at =
    if at == 2
    then middle
    else if at == 1
    then record page { next_page = some 2 }
    else record page { prev_page = some 2 }

abbrev links : Option (Bool × Pages) → Option (Bool × Option ℕ × Option ℕ)
links none = none
links (some (b, after)) = some (b, (after 1).next_page, (after 3).prev_page)

middle_unlinked : links (unreserve_node 12 2 0 pages) ≡ some (true, some 3, some 1)
unfolding unreserve_node update
middle_unlinked = refl
