-- ===== src/PageAllocator/Shared.antt =====
-- `PAGE_ALLOCATOR` of kernel/src/arch/x86_64/page_allocation.rs, the allocator that all of the kernel
-- shares, the functions on it, and `OwnedPhysicalPage`. The lock is taken and given back within each
-- call, and is not part of the state.
pub mod Start
pub mod Owned
use x.Base.{ℕ, List, Option, none, some, Result, ok, err, Command, pure, ◌>>=◌, sub_checked}
use x.Paging.{address, replace_addr_with}
use x.PageAllocator.{Memory, Machine, ReservePageError, fold_zeros, PageAllocator}
use x.PageAllocator

pub record Kernel : Type 0 where
  pub page_allocator : Option PageAllocator
  pub memory : Memory

-- `PageAllocatorInternal::new`.
unfoldable pub new :
    (page_table_address : ℕ) (memory_bitmap : List ℕ) (num_pages : ℕ) → Option PageAllocator
unfolding fold_zeros
new page_table_address memory_bitmap num_pages = elim (fold_zeros 0 memory_bitmap) [
  | none ↦ none
  | some free_pages ↦ some (record {
    memory_bitmap = memory_bitmap;
    total_pages = num_pages;
    free_pages = free_pages;
    page_table = replace_addr_with 0 page_table_address;
  })
]

unfoldable pub init :
    (page_table_address : ℕ) (memory_bitmap : List ℕ) (num_pages : ℕ) → Command Kernel (Unit {0})
unfolding new
init page_table_address memory_bitmap num_pages k = elim (k.page_allocator) [
  | some a ↦ some (tt, k)
  | none ↦ elim (new page_table_address memory_bitmap num_pages) [
    | none ↦ none
    | some a ↦ some (tt, record k { page_allocator = some a })
  ]
]

unfoldable pub deinit_and_remove : Command Kernel (Option PageAllocator)
deinit_and_remove k = some (k.page_allocator, record k { page_allocator = none })

-- `PAGE_ALLOCATOR.lock().as_mut().unwrap()`, and a call with it.
unfoldable pub with_allocator : {A : Type 0} → Command Machine A → Command Kernel A
with_allocator f k = elim (k.page_allocator) [
  | none ↦ none
  | some a ↦ elim (f (record { allocator = a; memory = k.memory })) [
    | none ↦ none
    | some (x, t) ↦ some (x, record { page_allocator = some t.allocator; memory = t.memory })
  ]
]

unfoldable pub page_table_address : Command Kernel ℕ
unfolding with_allocator
page_table_address = with_allocator (λ s. some (address s.allocator.page_table, s))

unfoldable pub total_pages : Command Kernel ℕ
unfolding with_allocator
total_pages = with_allocator (λ s. some (s.allocator.total_pages, s))

unfoldable pub free_pages : Command Kernel ℕ
unfolding with_allocator
free_pages = with_allocator (λ s. some (s.allocator.free_pages, s))

unfoldable pub used_pages : Command Kernel ℕ
unfolding with_allocator
used_pages = with_allocator (λ s. sub_checked s.allocator.total_pages s.allocator.free_pages s)

pub record OwnedPhysicalPage : Type 0 where
  pub pointer : ℕ

abbrev pub from_raw : ℕ → OwnedPhysicalPage
from_raw raw = record { pointer = raw }

-- The page is forgotten, and not given back.
abbrev pub into_raw : OwnedPhysicalPage → ℕ
into_raw page = page.pointer

unfoldable pub own_page : Result ReservePageError ℕ → Result ReservePageError OwnedPhysicalPage
own_page (ok address) = ok (from_raw address)
own_page (err e) = err e

unfoldable pub reserve_owned : Command Machine (Result ReservePageError OwnedPhysicalPage)
unfolding own_page
reserve_owned = do page ← PageAllocator.find_and_reserve_page; pure (own_page page)

unfoldable pub find_and_reserve_page : Command Kernel (Result ReservePageError OwnedPhysicalPage)
unfolding with_allocator reserve_owned
find_and_reserve_page = with_allocator reserve_owned

unfoldable pub free_page : (address : ℕ) → Command Kernel (Unit {0})
unfolding with_allocator
free_page address = with_allocator (PageAllocator.free_page address)

-- A page that goes out of scope is given back.
unfoldable pub drop : OwnedPhysicalPage → Command Kernel (Unit {0})
unfolding with_allocator
drop page = with_allocator (PageAllocator.free_page page.pointer)
