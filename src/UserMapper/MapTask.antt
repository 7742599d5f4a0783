-- ===== src/UserMapper/MapTask.antt =====
-- `MapMemTask`: mapping a range of new pages in a loop that can be suspended before each page, and
-- that takes its pages back when memory runs out.
pub mod Rewind
use x.Base.{
  ℕ, zero, suc, ◌+◌, ◌-◌, ◌*◌, ◌^◌, Bool, true, false, not, ltb, leb, ◌==◌, if◌then◌else◌, Option,
  none, some, Result, ok, err, Command, pure, panic, ◌>>=◌, ◌>>◌, assert, sub_checked,
}
use x.Paging.{PageTableData, default_data, from_data}
use x.PageAllocator.{Machine}
use x.PageTable.{levels}
use x.UserMapper.{unmap_page}
use x.UserMapper.MapPage.{
  UserPageMapperError, page_already_exists, out_of_memory, Mapping, map_blank_page,
}
use x.UserMapper.UnmapTask.{parting_depth}
use x.Vma.Node.{SegmentFlags}

pub data MapMemError : Type 0 where
  map_out_of_memory : MapMemError

pub data MapMemState : Type 0 where
  mapping : (pages_left flags : ℕ) → MapMemState
  fail_rewinding : MapMemError → MapMemState

pub record MapMemTask : Type 0 where
  pub start_address : ℕ
  pub current_address : ℕ
  pub pages_allocated : ℕ
  pub state : MapMemState

-- `Poll<Result<usize, MapMemError>>`.
pub data MapPoll : Type 0 where
  pending : MapPoll
  ready : Result MapMemError ℕ → MapPoll

-- The entry that `new` makes of the flags of a segment.
unfoldable pub entry_flags : SegmentFlags → ℕ
unfolding from_data
entry_flags f = from_data (record default_data {
  is_user_accessable = f.read;
  is_writable = f.write;
  is_no_execute = not f.execute;
})

unfoldable pub new_map : (start_address num_pages : ℕ) → SegmentFlags → MapMemTask
unfolding entry_flags
new_map start_address num_pages flags = record {
  start_address = start_address;
  current_address = start_address;
  pages_allocated = 0;
  state = mapping num_pages (entry_flags flags);
}

-- The end of a round: whether the loop goes on, or its answer.
pub data Round : Type 0 where
  again : MapMemTask → Round
  answer : Result MapMemError ℕ → MapMemTask → Round

-- The page after the one that has been mapped, or the way back.
unfoldable pub after_map :
    (task : MapMemTask) (pages_left flags pages_used : ℕ)
    → Result UserPageMapperError (Unit {0})
    → Command Machine Round
after_map task pages_left flags pages_used (ok u) = do
  left ← sub_checked pages_left 1
  let next : MapMemTask = record task {
    current_address = task.current_address + 4096;
    pages_allocated = pages_used;
    state = mapping left flags;
  }
  if left == 0 then pure (answer (ok pages_used) next) else pure (again next)
after_map task pages_left flags pages_used (err out_of_memory) = pure (
    again (record task {
      current_address = task.current_address - 4096;
      pages_allocated = pages_used;
      state = fail_rewinding map_out_of_memory;
    }))
after_map task pages_left flags pages_used (err page_already_exists) = panic

unfoldable pub map_round :
    (pml4 : ℕ) (task : MapMemTask) (pages_left flags : ℕ) → Command Machine Round
unfolding after_map
map_round pml4 task pages_left flags s =
    if ltb (task.current_address + 4096) (2 ^ 64)
    then elim (map_blank_page pml4 task.current_address flags
        (record { pages_used = task.pages_allocated; machine = s })) [
          | none ↦ none
          | some (r, t) ↦ after_map task pages_left flags t.pages_used r t.machine
        ]
    else none

unfoldable pub rewind_depth : MapMemTask → ℕ
unfolding parting_depth
rewind_depth task =
    if task.current_address == task.start_address
    then 3
    else parting_depth levels task.current_address (task.current_address - 4096)

unfoldable pub rewind_round :
    (pml4 : ℕ) (task : MapMemTask) (error : MapMemError) → Command Machine Round
unfolding rewind_depth unmap_page
rewind_round pml4 task error = do
  freed ← unmap_page pml4 task.current_address (rewind_depth task)
  left ← sub_checked task.pages_allocated freed
  let next : MapMemTask = record task {
    current_address = task.current_address - 4096;
    pages_allocated = left;
  }
  if task.current_address == task.start_address
      then assert (left == 0) >> pure (answer (err error) next)
      else pure (again next)

unfoldable pub map_task_round : (pml4 : ℕ) → MapMemTask → Command Machine Round
unfolding map_round rewind_round
map_task_round pml4 task = elim task.state [
  | mapping pages_left flags ↦ map_round pml4 task pages_left flags
  | fail_rewinding error ↦ rewind_round pml4 task error
]

-- `run`: `should_suspend` holds its answer to each call, `fuel` bounds the rounds.
unfoldable pub run_map :
    (pml4 : ℕ) (should_suspend : ℕ → Bool) (fuel call : ℕ)
    → MapMemTask
    → Command Machine (MapPoll × MapMemTask)
unfolding map_task_round
run_map pml4 should_suspend zero call task s = none
run_map pml4 should_suspend (suc fuel) call task s =
    if should_suspend call
    then some ((pending, task), s)
    else (do
      next ← map_task_round pml4 task
      elim next [
        | answer r t ↦ pure (ready r, t)
        | again t ↦ run_map pml4 should_suspend fuel (suc call) t
      ])
        s
