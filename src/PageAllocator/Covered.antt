-- ===== src/PageAllocator/Covered.antt =====
-- `free_page` where no more is known than that the bitmap covers the pages of the machine.
use x.Base.{
  ℕ, ◌*◌, ◌/◌, ◌≤◌, ◌≡◌, refl, some, inl, inr, Bool-cases, arith, ltb, ltb→lt, length, length-set,
  get_elem?-get_or,
}
use x.PageAllocator.{Machine, PageAllocator, byte_ratio, free_page}
use x.PageAllocator.Bitmap.{unmark}
use x.PageAllocator.Free.{page_of, released}

abbrev pub Covers : PageAllocator → Type 0
Covers a = a.total_pages ≤ 8 * length a.memory_bitmap

-- Freeing an address never panics then, and leaves memory and the tables' root as they were.
pub free_page-Covers :
    (address : ℕ) (s : Machine)
    → Covers s.allocator
    → (t : Machine) × (free_page address s ≡ some (tt, t))
      × (t.memory ≡ s.memory)
      × Covers t.allocator
unfolding free_page unmark
free_page-Covers address s c = elim (Bool-cases (ltb (page_of address) s.allocator.total_pages)) [
  | inl inside ↦
      let h = ltb→lt _ _ inside in
      let i : address / byte_ratio ≡ page_of address / 8 = omega arith in
      (
        released s (page_of address),
        ground (
          arith,
          get_elem?-get_or s.allocator.memory_bitmap (page_of address / 8) 0xff (omega arith),
        ),
        refl,
        rw (length-set s.allocator.memory_bitmap) c,
      )
  | inr outside ↦ (s, ground arith, refl, c)
]
