-- ===== src/Vma/Storage/Blocks.antt =====
-- `PhysicalBlockAllocator` of kernel/src/physical_block_allocator.rs: a page for each allocation.
use x.Base.{ℕ, ltb, if◌then◌else◌, Option, none, some, ok, err, Command, pure, panic, ◌>>=◌}
use x.Paging.{page_size}
use x.PageAllocator.{Machine, find_and_reserve_page, free_page}

-- `none` is `AllocError`. A layout whose alignment is above a page fails the assertion.
unfoldable pub allocate : (size align : ℕ) → Command Machine (Option ℕ)
unfolding find_and_reserve_page
allocate size align =
    if ltb page_size align then panic else if ltb page_size size then pure none else do
      page ← find_and_reserve_page
      elim page [ err e ↦ pure none | ok address ↦ pure (some address) ]

-- The page that is dropped goes back to the physical allocator.
unfoldable pub deallocate : (address : ℕ) → Command Machine (Unit {0})
unfolding free_page
deallocate address = free_page address
