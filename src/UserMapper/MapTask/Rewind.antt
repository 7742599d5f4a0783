-- ===== src/UserMapper/MapTask/Rewind.antt =====
-- A map task that runs out of memory at its first page.
use x.Base.{ℕ, suc, ◌-◌, ◌*◌, ◌<◌, ◌≡◌, ◌⊎◌, Option, none, some}
use x.PageAllocator.{Machine}
use x.UserMapper.{unmap_page}
use x.UserMapper.MapTask.{
  MapMemTask, MapPoll, pending, map_out_of_memory, fail_rewinding, Round, again, rewind_depth,
}

-- A task that takes pages back, `k` pages below the start of its range.
pub record IsBelow (start k : ℕ) (task : MapMemTask) : Type 0 where
  pub rewinding : task.state ≡ fail_rewinding map_out_of_memory
  pub started : task.start_address ≡ start
  pub place : task.current_address ≡ start - 4096 * k

-- The page cannot be unmapped, or more pages would be freed than the task has allocated.
abbrev pub CannotUnmap : (pml4 : ℕ) → MapMemTask → Machine → Type 0
CannotUnmap pml4 task s =
    (unmap_page pml4 task.current_address (rewind_depth task) s ≡ none)
    ⊎ ((freed : ℕ) × (t : Machine) × (unmap_page pml4 task.current_address (rewind_depth task) s
          ≡ some (freed, t))
        × (task.pages_allocated < freed))

-- After `n` rounds the task is `n` pages below its start, if it is suspended then; unless a page
-- below the start could not be unmapped in a round before.
pub data GoesBelow (pml4 start n : ℕ) : Option ((MapPoll × MapMemTask) × Machine) → Type 0 where
  goes_on :
      (task : MapMemTask) (t : Machine)
      → IsBelow start n task
      → GoesBelow pml4 start n (some ((pending, task), t))
  stops :
      (k : ℕ) (task : MapMemTask) (t : Machine)
      → 0 < k
      → k < n
      → IsBelow start k task
      → CannotUnmap pml4 task t
      → GoesBelow pml4 start n none

-- A round below the start of the range panics, or goes on below it.
data BelowRound (pml4 start k : ℕ) (task : MapMemTask) (s : Machine)
    : Option (Round × Machine) → Type 0 where
  panics : CannotUnmap pml4 task s → BelowRound pml4 start k task s none
  lower :
      (next : MapMemTask) (t : Machine)
      → IsBelow start (suc k) next
      → BelowRound pml4 start k task s (some (again next, t))
