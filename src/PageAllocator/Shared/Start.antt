-- ===== src/PageAllocator/Shared/Start.antt =====
-- How the shared page allocator starts: `init` and `PageAllocatorInternal::new`.
use x.Base.{
  ℕ, ◌+◌, ◌*◌, ◌^◌, ◌≤◌, ◌<◌, ◌≡◌, refl, true, List, [], ◌∷◌, Option, none, some, ltb, arith,
  Bool-cases, Option-cases, ltb→lt, if◌then◌else◌, inl, inr, length,
}
use x.Paging.{replace_addr_with}
use x.PageAllocator.{PageAllocator, fold_zeros, count_zeros}
use x.PageAllocator.Bitmap.{Bytes, is_reserved, zeros}
use x.PageAllocator.Valid.{IsValid}
use x.PageAllocator.Shared.{Kernel, new, init}

-- The fold counts the free pages, and panics when they do not fit into 32 bits.
pub fold_zeros-zeros :
    (acc : ℕ) (bs : List ℕ)
    → acc < 2 ^ 32
    → fold_zeros acc bs ≡ (if ltb (acc + zeros bs) (2 ^ 32) then some (acc + zeros bs) else none)
unfolding fold_zeros zeros
fold_zeros-zeros acc [] h = ground arith
fold_zeros-zeros acc (b ∷ bs) h = elim (Bool-cases (ltb (acc + count_zeros 8 b) (2 ^ 32))) [
  | inl fits ↦ ground (arith, fold_zeros-zeros (acc + count_zeros 8 b) bs)
  | inr over ↦ ground arith
]

-- What `init` leaves, on every branch.
pub data Starts (k : Kernel) (table : ℕ) (bitmap : List ℕ) (n : ℕ)
    : Option (Unit {0} × Kernel) → Type 0 where
  already_there :
      (a : PageAllocator) → k.page_allocator ≡ some a → Starts k table bitmap n (some (tt, k))
  too_many : k.page_allocator ≡ none → 2 ^ 32 ≤ zeros bitmap → Starts k table bitmap n none
  started :
      (a : PageAllocator)
      → k.page_allocator ≡ none
      → zeros bitmap < 2 ^ 32
      → IsValid a
      → a.memory_bitmap ≡ bitmap
      → a.total_pages ≡ n
      → a.page_table ≡ replace_addr_with 0 table
      → Starts k table bitmap n (some (tt, record k { page_allocator = some a }))

module _ (k : Kernel) (table n : ℕ) (bitmap : List ℕ) where
  init_there :
      (a : PageAllocator) → k.page_allocator ≡ some a → init table bitmap n k ≡ some (tt, k)
  unfolding init
  init_there a e = ground arith

  init_panics : k.page_allocator ≡ none → fold_zeros 0 bitmap ≡ none → init table bitmap n k ≡ none
  unfolding init new
  init_panics e f = ground arith

  init_starts :
      (free : ℕ)
      → k.page_allocator ≡ none
      → fold_zeros 0 bitmap ≡ some free
      → init table bitmap n k
        ≡ some (
          tt,
          record k {
            page_allocator = some (record {
              memory_bitmap = bitmap;
              total_pages = n;
              free_pages = free;
              page_table = replace_addr_with 0 table;
            });
          },
        )
  unfolding init new
  init_starts free e f = ground arith

-- For a bitmap that covers the pages of the machine, with page 0 and all pages beyond the last one
-- reserved. If there is an allocator, nothing changes. Else `init` panics exactly when the free pages
-- are 2^32 or more, and otherwise the allocator satisfies its invariant, its count of free pages
-- included, and has the bitmap, the number of pages and the page table it was given.
pub init-Starts :
    (k : Kernel) (table n : ℕ) (bitmap : List ℕ)
    → Bytes bitmap
    → n ≤ 8 * length bitmap
    → ((p : ℕ) → n ≤ p → is_reserved bitmap p ≡ true)
    → is_reserved bitmap 0 ≡ true
    → Starts k table bitmap n (init table bitmap n k)
init-Starts k table n bitmap b c s z = elim (Option-cases (k.page_allocator)) [
  | inr (a, there) ↦ rw (init_there k table n bitmap a there) (already_there a there)
  | inl gone ↦ elim (Bool-cases (ltb (zeros bitmap) (2 ^ 32))) [
    | inl fits ↦
        let f : fold_zeros 0 bitmap ≡ some (zeros bitmap) =
          ground (arith, fold_zeros-zeros 0 bitmap) in
        rw (init_starts k table n bitmap (zeros bitmap) gone f) (
          started _ gone (ltb→lt _ _ fits)
            (record { bytes = b; counted = refl; covered = c; spare = s; null_reserved = z }) refl
            refl refl)
    | inr over ↦
        let f : fold_zeros 0 bitmap ≡ none = ground (arith, fold_zeros-zeros 0 bitmap) in
        rw (init_panics k table n bitmap gone f) (too_many gone (ground arith))
  ]
]
