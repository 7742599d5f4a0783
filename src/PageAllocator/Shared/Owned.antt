-- ===== src/PageAllocator/Shared/Owned.antt =====
-- The life of an `OwnedPhysicalPage` of the shared allocator.
use x.Base.{ℕ, ◌*◌, ◌≡◌, refl, true, Option, some, Result, ok, err, arith}
use x.Paging.{page_size}
use x.PageAllocator.{Machine, PageAllocator, ReservePageError, reserve_page_error}
use x.PageAllocator.Bitmap.{is_reserved}
use x.PageAllocator.Valid.{IsValid}
use x.PageAllocator.Reserve.{Takes, Reserved, exhausted, taken, find_and_reserve_page-Reserved}
use x.PageAllocator.Free.{free_page-find_and_reserve_page}
use x.PageAllocator.Shared.{
  Kernel, OwnedPhysicalPage, from_raw, with_allocator, own_page, reserve_owned,
  find_and_reserve_page, drop,
}
use x.PageAllocator

abbrev pub machine_of : PageAllocator → Kernel → Machine
machine_of a k = record { allocator = a; memory = k.memory }

abbrev pub kernel_of : Machine → Kernel
kernel_of m = record { page_allocator = some m.allocator; memory = m.memory }

-- What a reservation gives its caller, on every branch.
pub data Owns (a : PageAllocator) (k : Kernel)
    : Option (Result ReservePageError OwnedPhysicalPage × Kernel) → Type 0 where
  nothing_left :
      ((p : ℕ) → is_reserved a.memory_bitmap p ≡ true) → Owns a k (some (err reserve_page_error, k))
  owned :
      (p : ℕ) (m u : Machine)
      → Takes (machine_of a k) p m
      → drop (from_raw (p * page_size)) (kernel_of m) ≡ some (tt, kernel_of u)
      → ((q : ℕ) → is_reserved u.allocator.memory_bitmap q ≡ is_reserved a.memory_bitmap q)
      → u.allocator.free_pages ≡ a.free_pages
      → IsValid u.allocator
      → Owns a k (some (ok (from_raw (p * page_size)), kernel_of m))

module _ (a : PageAllocator) (k : Kernel) (e : k.page_allocator ≡ some a) where
  reserve_err :
      PageAllocator.find_and_reserve_page (machine_of a k)
        ≡ some (err reserve_page_error, machine_of a k)
      → find_and_reserve_page k ≡ some (err reserve_page_error, k)
  unfolding find_and_reserve_page with_allocator reserve_owned own_page
  reserve_err f = ground arith

  reserve_ok :
      (addr : ℕ) (m : Machine)
      → PageAllocator.find_and_reserve_page (machine_of a k) ≡ some (ok addr, m)
      → find_and_reserve_page k ≡ some (ok (from_raw addr), kernel_of m)
  unfolding find_and_reserve_page with_allocator reserve_owned own_page
  reserve_ok addr m f = ground arith

  drop_runs :
      (addr : ℕ) (m u : Machine)
      → PageAllocator.free_page addr m ≡ some (tt, u)
      → drop (from_raw addr) (kernel_of m) ≡ some (tt, kernel_of u)
  unfolding drop with_allocator
  drop_runs addr m u f = ground arith

  Reserved-Owns :
      {r : Option (Result ReservePageError ℕ × Machine)}
      → IsValid a
      → Reserved (machine_of a k) r
      → PageAllocator.find_and_reserve_page (machine_of a k) ≡ r
      → Owns a k (find_and_reserve_page k)
  Reserved-Owns v (exhausted h) f = rw (reserve_err f) (nothing_left h)
  Reserved-Owns v (taken p m take) f =
      let (u, run, same, count, valid) =
        free_page-find_and_reserve_page (machine_of a k) m (p * page_size) v f in
      rw (reserve_ok (p * page_size) m f)
        (owned p m u take (drop_runs (p * page_size) m u run) same count valid)

-- With an allocator that satisfies its invariant, `find_and_reserve_page` never panics. With no page
-- free it gives the error and changes nothing. Else it gives the lowest free page, reserved and
-- cleared; when that page is dropped right away, the same pages are reserved as before, their count is
-- that from before, and the invariant holds.
pub find_and_reserve_page-Owns :
    (a : PageAllocator) (k : Kernel)
    → k.page_allocator ≡ some a
    → IsValid a
    → Owns a k (find_and_reserve_page k)
find_and_reserve_page-Owns a k e v =
    Reserved-Owns a k e v (find_and_reserve_page-Reserved (machine_of a k) v) refl
