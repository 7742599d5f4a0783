-- ===== src/PageAllocator/Valid.antt =====
-- The invariant of `PageAllocatorInternal`.
use x.Base.{ℕ, ◌*◌, ◌≤◌, ◌≡◌, true, length}
use x.PageAllocator.{PageAllocator}
use x.PageAllocator.Bitmap.{Bytes, is_reserved, zeros}

-- `free_pages` counts the clear bits, the pages that the machine has lie within the bitmap, the bits
-- beyond them are set, and so is that of page 0, whose address is the null pointer.
pub record IsValid (a : PageAllocator) : Type 0 where
  pub bytes : Bytes a.memory_bitmap
  pub counted : a.free_pages ≡ zeros a.memory_bitmap
  pub covered : a.total_pages ≤ 8 * length a.memory_bitmap
  pub spare : (p : ℕ) → a.total_pages ≤ p → is_reserved a.memory_bitmap p ≡ true
  pub null_reserved : is_reserved a.memory_bitmap 0 ≡ true
