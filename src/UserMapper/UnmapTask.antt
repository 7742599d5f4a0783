-- ===== src/UserMapper/UnmapTask.antt =====
-- `UnmapMemTask`: unmapping a range of pages in a loop that can be suspended before each page.
pub mod Resume
pub mod Call
pub mod Range
use x.Base.{
  ℕ, zero, suc, ◌+◌, ◌-◌, ◌^◌, bit_and, Bool, true, false, not, ◌&&◌, ltb, leb, ◌==◌, if◌then◌else◌,
  List, [], ◌∷◌, Option, none, some,
}
use x.PageAllocator.{Machine}
use x.PageTable.{levels}
use x.UserMapper.{unmap_page}

pub record UnmapMemTask : Type 0 where
  pub current_address : ℕ
  pub pages_left : ℕ
  pub pages_freed : ℕ

-- `Poll<usize>`.
pub data Poll : Type 0 where
  pending : Poll
  ready : ℕ → Poll

unfoldable pub new_unmap : (start_address num_pages : ℕ) → UnmapMemTask
new_unmap start_address num_pages = record {
  current_address = start_address;
  pages_left = num_pages;
  pages_freed = 0;
}

-- The first level at which two addresses part, counted from the last table: 4 at the first level.
unfoldable pub parting_depth : List (ℕ × ℕ) → (page_address next_page_address : ℕ) → ℕ
parting_depth [] page_address next_page_address = 0
parting_depth ((i, level_mask) ∷ rest) page_address next_page_address =
    if not (bit_and page_address level_mask == bit_and next_page_address level_mask)
    then 4 - i
    else parting_depth rest page_address next_page_address

unfoldable pub free_table_check_depth : UnmapMemTask → ℕ
unfolding parting_depth
free_table_check_depth task =
    if task.pages_left == 0
    then 3
    else parting_depth levels task.current_address (task.current_address + 4096)

-- What follows the call of `unmap_page`; the sums and the difference panic out of range.
unfoldable pub advance : UnmapMemTask → Option (ℕ × Machine) → Option (UnmapMemTask × Machine)
advance task none = none
advance task (some (freed, s)) =
    if leb 1 task.pages_left && ltb (task.pages_freed + freed) (2 ^ 64)
    then some (
      record {
        current_address = task.current_address + 4096;
        pages_left = task.pages_left - 1;
        pages_freed = task.pages_freed + freed;
      },
      s,
    )
    else none

unfoldable pub run_page : (pml4 : ℕ) → UnmapMemTask → Machine → Option (UnmapMemTask × Machine)
unfolding free_table_check_depth advance
run_page pml4 task s =
    if ltb (task.current_address + 4096) (2 ^ 64)
    then advance task (unmap_page pml4 task.current_address (free_table_check_depth task) s)
    else none

-- `run`: `should_suspend` holds its answer to each call. A round takes one page off those left, so
-- that their number bounds the rounds.
unfoldable pub run_from :
    (pml4 : ℕ) (should_suspend : ℕ → Bool) (fuel call : ℕ)
    → UnmapMemTask
    → Machine
    → Option (Poll × UnmapMemTask × Machine)
unfolding run_page
run_from pml4 should_suspend zero call task s = none
run_from pml4 should_suspend (suc fuel) call task s =
    if should_suspend call then some (pending, task, s) else elim (run_page pml4 task s) [
      | none ↦ none
      | some (next, t) ↦
          if next.pages_left == 0
          then some (ready next.pages_freed, next, t)
          else run_from pml4 should_suspend fuel (suc call) next t
    ]

unfoldable pub run :
    (pml4 : ℕ) (should_suspend : ℕ → Bool)
    → UnmapMemTask
    → Machine
    → Option (Poll × UnmapMemTask × Machine)
unfolding run_from
run pml4 should_suspend task s = run_from pml4 should_suspend (suc task.pages_left) 0 task s
