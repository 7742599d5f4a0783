-- ===== src/UserMapper/Examples.antt =====
-- Tables at pages 1 to 4 that map the addresses 0 and 0x1000, and the theorem at them.
use x.Base.{
  ℕ, zero, suc, ◌+◌, ◌<◌, ◌⊎◌, ◌≡◌, refl, ◌==◌, ◌&&◌, ◌||◌, if◌then◌else◌, Option, some, none, List,
  [], ◌∷◌, arith, bit_and,
}
use x.Paging.{address, address_mask}
use x.PageAllocator.{Machine, Memory, free_page}
use x.PageTable.{levels, table_index, write_entry}
use x.PageTable.Walk.{NoHuge, leaf}
use x.UserMapper.{unmap_page}
use x.UserMapper.UnmapTask.{UnmapMemTask, pending, ready, new_unmap, run}
use x.UserMapper.UnmapTask.Resume.{never, run-run}
use x.UserMapper.UnmapTask.Range.{page_at, run-new_unmap}
use x.Base.{true, false}
use x.PageAllocator.{find_and_reserve_page, leading_zeros}
use x.Vma.Node.{SegmentFlags}
use x.UserMapper.Copy.{new, map_mem_copy_from_buffer}
use x.UserMapper.Cut.{PageUnmapped, unmap_page-PageUnmapped}

abbrev tables : Memory
tables a i =
    if i == 0 && (a == 0x1000 || (a == 0x2000 || (a == 0x3000 || a == 0x4000)))
    then a + 0x1003
    else if i == 1 && a == 0x4000
    then 0x6003
    else 0

abbrev machine : Machine
machine = record {
  allocator = record {
    memory_bitmap = 0b11111110 ∷ 0b00000000 ∷ [];
    total_pages = 16;
    free_pages = 9;
    page_table = 0;
  };
  memory = tables;
}

machine-NoHuge : NoHuge levels tables (bit_and 0 address_mask) 0x1000
unfolding table_index address
machine-NoHuge = (refl, λ p. (refl, λ q. (refl, λ r. (refl, λ s. tt))))

second_page : Option (ℕ × Machine) → Option ℕ
second_page none = none
second_page (some (n, t)) = leaf levels t.memory 0x1000 0x1000

-- Unmapping the first page with one table to check ends the translation of the second.
second_lost :
    (leaf levels tables 0x1000 0x1000 ≡ some 0x6003)
    × (second_page (unmap_page 0x1000 0 0 machine) ≡ some 0x6003)
    × (second_page (unmap_page 0x1000 0 1 machine) ≡ none)
unfolding leaf table_index address unmap_page free_page write_entry second_page
second_lost = (refl, refl, refl)

unmap_page-PageUnmapped_example :
    PageUnmapped machine 0x1000 (bit_and 0 address_mask) 1 (unmap_page 0x1000 0 1 machine)
unmap_page-PageUnmapped_example =
    unmap_page-PageUnmapped machine 0x1000 0 1 (omega arith) machine-NoHuge

-- The task for both pages, suspended after the first.
abbrev later : UnmapMemTask
later = record { current_address = 0x1000; pages_left = 1; pages_freed = 2 }

abbrev between : Machine
between = record {
  allocator = record {
    memory_bitmap = 0b11110010 ∷ 0b00000000 ∷ [];
    total_pages = 16;
    free_pages = 11;
    page_table = 0;
  };
  memory = write_entry (write_entry tables 0x4000 0 0) 0x3000 0 0;
}

suspends : run 0x1000 (λ call. call == 1) (new_unmap 0 2) machine ≡ some (pending, later, between)
unfolding run new_unmap free_page table_index address write_entry unmap_page
suspends = refl

run-run_example : run 0x1000 never (new_unmap 0 2) machine ≡ run 0x1000 never later between
run-run_example = run-run 0x1000 (λ call. call == 1) (new_unmap 0 2) later machine between suspends

both-NoHuge : (j : ℕ) → j < 2 → NoHuge levels tables (page_at 0 j) 0x1000
unfolding table_index address
both-NoHuge zero h = (refl, λ p. (refl, λ q. (refl, λ r. (refl, λ s. tt))))
both-NoHuge (suc zero) h = (refl, λ p. (refl, λ q. (refl, λ r. (refl, λ s. tt))))
both-NoHuge (suc (suc j)) h = absurd (omega arith)

run-new_unmap_example :
    (n : ℕ) × (next : UnmapMemTask) × (t : Machine) × (run 0x1000 never (new_unmap 0 2) machine
      ≡ some (ready n, next, t))
    × ((j : ℕ) → j < 2 → leaf levels t.memory (page_at 0 j) 0x1000 ≡ none)
    × ((a i : ℕ) → (t.memory a i ≡ machine.memory a i) ⊎ (t.memory a i ≡ 0))
run-new_unmap_example =
    run-new_unmap 0x1000 0 2 machine (omega arith) (omega arith) (omega arith) both-NoHuge

-- A machine without free pages and with empty tables.
abbrev full : Machine
full = record {
  allocator = record { memory_bitmap = 0xff ∷ []; total_pages = 8; free_pages = 0; page_table = 0 };
  memory = λ a i. 0;
}

abbrev read_only : SegmentFlags
read_only = record { read = true; write = false; execute = false }

-- The first word of the first page after a buffer is copied to it.
copied_word : (virtual_start_address : ℕ) → List ℕ → Option ℕ
unfolding map_mem_copy_from_buffer
copied_word v buffer = elim (map_mem_copy_from_buffer 0x1000 v 4096 buffer machine) [
  | none ↦ none
  | some (r, s) ↦ some (s.memory 0x5000 0)
]

-- A buffer that fits into the first page is copied; one that does not panics, as does each new mapper.
copies :
    (copied_word 0 (0x11 ∷ 0x22 ∷ 0x33 ∷ []) ≡ some 0x332211)
    × (copied_word 0xfff (0x11 ∷ 0x22 ∷ []) ≡ none)
    × (new machine ≡ none)
unfolding copied_word map_mem_copy_from_buffer new address table_index find_and_reserve_page
    leading_zeros
copies = (refl, refl, refl)
