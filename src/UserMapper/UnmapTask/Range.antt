-- ===== src/UserMapper/UnmapTask/Range.antt =====
-- A run of the task to its end: no page of the range has a translation any more.
use x.Base.{
  ℕ, zero, suc, ◌+◌, ◌-◌, ◌*◌, ◌^◌, ◌≤◌, ◌<◌, ◌≡◌, refl, ap, sym, ◌∙◌, true, false, ltb, leb, ◌==◌,
  none, some, ◌⊎◌, arith, bit_and, subst,
}
use x.Paging.{address_mask}
use x.PageAllocator.{Machine}
use x.PageAllocator.Covered.{Covers}
use x.PageTable.{levels}
use x.PageTable.Walk.{NoHuge, leaf}
use x.UserMapper.{unmap_page}
use x.UserMapper.Unmap.{Below}
use x.UserMapper.Cut.{unmap_page-PageUnmapped}
use x.UserMapper.UnmapTask.{
  UnmapMemTask, ready, advance, run_page, run_from, run, new_unmap, free_table_check_depth,
}
use x.UserMapper.UnmapTask.Resume.{never, run_from-page}
use x.UserMapper.UnmapTask.Call.{
  leaf-Below, NoHuge-Below, Below-trans, PageDone, PageUnmapped-PageDone,
}

-- The address of page `j` of a range, cut to its page.
abbrev pub page_at : (start j : ℕ) → ℕ
page_at start j = bit_and (start + j * 4096) address_mask

-- The task after a page.
abbrev moved : UnmapMemTask → ℕ → UnmapMemTask
moved task freed = record {
  current_address = task.current_address + 4096;
  pages_left = task.pages_left - 1;
  pages_freed = task.pages_freed + freed;
}

page_at-zero : (start : ℕ) → page_at start 0 ≡ bit_and start address_mask
page_at-zero start = ap (λ a. bit_and a address_mask) (omega arith)

page_at-suc : (start j : ℕ) → page_at (start + 4096) j ≡ page_at start (suc j)
page_at-suc start j = ap (λ a. bit_and a address_mask) (omega arith)

-- The first page of a range and those after it.
each_page :
    (P : ℕ → Type 0) (start k : ℕ)
    → P (bit_and start address_mask)
    → ((j : ℕ) → suc j ≤ k → P (page_at (start + 4096) j))
    → (j : ℕ) → j ≤ k
    → P (page_at start j)
each_page P start k first later zero h = subst P (sym (page_at-zero start)) first
each_page P start k first later (suc j) h = subst P (page_at-suc start j) (later j h)

module _ (pml4 : ℕ) where
  page_done :
      (task : UnmapMemTask) (s : Machine)
      → Covers s.allocator
      → NoHuge levels s.memory (bit_and task.current_address address_mask) pml4
      → PageDone s pml4
          (bit_and task.current_address address_mask)
          (unmap_page pml4 task.current_address (free_table_check_depth task) s)
  page_done task s c n =
      let depth = free_table_check_depth task in
      PageUnmapped-PageDone s pml4 _ depth c
        (unmap_page-PageUnmapped s pml4 task.current_address depth c n)

  run_page-moved :
      (task : UnmapMemTask) (s t : Machine) (freed : ℕ)
      → unmap_page pml4 task.current_address (free_table_check_depth task) s ≡ some (freed, t)
      → 0 < task.pages_left
      → task.current_address + 4096 < 2 ^ 64
      → task.pages_freed + freed < 2 ^ 64
      → run_page pml4 task s ≡ some (moved task freed, t)
  unfolding run_page advance
  run_page-moved task s t freed e some_left fits counts =
      let below : ltb (task.current_address + 4096) (2 ^ 64) ≡ true = ground arith in
      let one : leb 1 task.pages_left ≡ true = ground arith in
      let sum : ltb (task.pages_freed + freed) (2 ^ 64) ≡ true = ground arith in
      rw below (ap (advance task) e ∙ rw (one, sum) refl)

  run_range :
      (k fuel call : ℕ) (task : UnmapMemTask) (s : Machine)
      → task.pages_left ≡ suc k
      → k < fuel
      → Covers s.allocator
      → task.current_address + suc k * 4096 < 2 ^ 64
      → task.pages_freed + suc k * 4 < 2 ^ 64
      → ((j : ℕ) → j ≤ k → NoHuge levels s.memory (page_at task.current_address j) pml4)
      → (n : ℕ) × (next : UnmapMemTask) × (t : Machine) × (run_from pml4 never fuel call task s
          ≡ some (ready n, next, t))
        × ((j : ℕ) → j ≤ k → leaf levels t.memory (page_at task.current_address j) pml4 ≡ none)
        × Below t.memory s.memory
  run_range k zero call task s left enough c fits counts n = absurd (omega arith)
  run_range zero (suc fuel) call task s left enough c fits counts n =
      let d = page_done task s c (
        subst (λ v. NoHuge levels s.memory v pml4) (page_at-zero task.current_address)
          (n 0 (omega arith))) in
      let step =
        run_page-moved task s d.left d.freed d.returns (omega arith) (omega arith)
          (omega (arith, d.few)) in
      let over : (task.pages_left - 1 == 0) ≡ true = ground arith in
      (
        task.pages_freed + d.freed,
        moved task d.freed,
        d.left,
        run_from-page pml4 never fuel call task s refl step ∙ rw over refl,
        each_page (λ v. leaf levels d.left.memory v pml4 ≡ none) task.current_address 0 d.ended
            (λ j h. absurd (omega arith)),
        d.below,
      )
  run_range (suc k) (suc fuel) call task s left enough c fits counts n =
      let d = page_done task s c (
        subst (λ v. NoHuge levels s.memory v pml4) (page_at-zero task.current_address)
          (n 0 (omega arith))) in
      let step =
        run_page-moved task s d.left d.freed d.returns (omega arith) (omega arith)
          (omega (arith, d.few)) in
      let more : (task.pages_left - 1 == 0) ≡ false = ground arith in
      let (total, next, t, runs, ended, below) =
        run_range k fuel (suc call) (moved task d.freed) d.left (omega arith) (omega arith) d.covers
          (omega arith) (omega (arith, d.few))
          (λ j h.
            subst (λ v. NoHuge levels d.left.memory v pml4)
              (sym (page_at-suc task.current_address j))
              (NoHuge-Below s.memory d.left.memory d.below _ levels pml4
                (n (suc j) (omega arith)))) in
      (
        total,
        next,
        t,
        run_from-page pml4 never fuel call task s refl step ∙ rw more runs,
        each_page (λ v. leaf levels t.memory v pml4 ≡ none) task.current_address (suc k)
            (leaf-Below d.left.memory t.memory below _ levels pml4 d.ended)
            (λ j h. ended j (omega arith)),
        Below-trans t.memory d.left.memory s.memory below d.below,
      )

-- A new task for a range of at least one page that ends within the address space, never suspended,
-- with an allocator whose bitmap covers the machine's pages and no huge page on the way to the range,
-- comes to its end. Then no page of the range has a translation, and every word of memory is what it
-- was or zero.
pub run-new_unmap :
    (pml4 start num_pages : ℕ) (s : Machine)
    → 0 < num_pages
    → Covers s.allocator
    → start + num_pages * 4096 < 2 ^ 64
    → ((j : ℕ) → j < num_pages → NoHuge levels s.memory (page_at start j) pml4)
    → (n : ℕ) × (next : UnmapMemTask) × (t : Machine) × (run pml4 never
          (new_unmap start num_pages)
          s
        ≡ some (ready n, next, t))
      × ((j : ℕ) → j < num_pages → leaf levels t.memory (page_at start j) pml4 ≡ none)
      × ((a i : ℕ) → (t.memory a i ≡ s.memory a i) ⊎ (t.memory a i ≡ 0))
unfolding run new_unmap
run-new_unmap pml4 start num_pages s pos c fits n =
    let (total, next, t, runs, ended, below) =
      run_range pml4 (num_pages - 1) (suc num_pages) 0 (new_unmap start num_pages) s (omega arith)
        (omega arith) c (omega arith) (omega arith) (λ j h. n j (omega arith)) in
    (total, next, t, runs, λ j h. ended j (omega arith), below)
