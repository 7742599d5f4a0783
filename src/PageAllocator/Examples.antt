-- ===== src/PageAllocator/Examples.antt =====
-- A machine of sixteen pages, two of them free, and the theorems at it.
use x.Base.{ℕ, ◌/◌, refl, List, [], ◌∷◌, none, arith, get_or-beyond}
use x.PageAllocator.{Machine, find_and_reserve_page, free_page, count_zeros}
use x.PageAllocator.Bytes.{test_bit}
use x.PageAllocator.Bitmap.{is_reserved, zeros}
use x.PageAllocator.First.{is_reserved_full}
use x.PageAllocator.Valid.{IsValid}
use x.PageAllocator.Reserve.{Reserved, find_and_reserve_page-Reserved}
use x.PageAllocator.Shared.{Kernel, init}
use x.PageAllocator.Shared
use x.PageAllocator.Shared.Start.{Starts, init-Starts}
use x.PageAllocator.Shared.Owned.{Owns, kernel_of, find_and_reserve_page-Owns}
use x.PageAllocator.Free.{Freed, free_page-Freed}

-- Page 2 and page 9 are free.
abbrev bitmap : List ℕ
bitmap = 0b11011111 ∷ 0b10111111 ∷ []

abbrev machine : Machine
machine = record {
  allocator = record {
    memory_bitmap = bitmap;
    total_pages = 16;
    free_pages = 2;
    page_table = 0x1000;
  };
  memory = λ a i. 7;
}

machine-IsValid : IsValid machine.allocator
unfolding zeros is_reserved count_zeros test_bit
machine-IsValid = record {
  bytes = omega arith;
  counted = refl;
  covered = omega arith;
  spare = λ p h. is_reserved_full bitmap p (get_or-beyond bitmap (p / 8) 0xff (omega arith));
  null_reserved = refl;
}

find_and_reserve_page-Reserved_example : Reserved machine (find_and_reserve_page machine)
find_and_reserve_page-Reserved_example = find_and_reserve_page-Reserved machine machine-IsValid

free_page-Freed_example : Freed machine 0x3000 (free_page 0x3000 machine)
free_page-Freed_example = free_page-Freed machine 0x3000 machine-IsValid

-- The kernel before the allocator is there.
abbrev empty_kernel : Kernel
empty_kernel = record { page_allocator = none; memory = machine.memory }

init-Starts_example : Starts empty_kernel 0x1000 bitmap 16 (init 0x1000 bitmap 16 empty_kernel)
init-Starts_example =
    init-Starts empty_kernel 0x1000 16 bitmap (machine-IsValid.bytes) (machine-IsValid.covered)
      (machine-IsValid.spare) (machine-IsValid.null_reserved)

find_and_reserve_page-Owns_example :
    Owns machine.allocator (kernel_of machine) (Shared.find_and_reserve_page (kernel_of machine))
find_and_reserve_page-Owns_example =
    find_and_reserve_page-Owns machine.allocator (kernel_of machine) refl machine-IsValid
