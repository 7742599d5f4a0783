-- ===== src/PageTable/Examples.antt =====
-- A machine with one page mapped at address 0, and the theorems at it.
use x.Base.{
  ℕ, ◌/◌, ◌≤◌, ◌<◌, ◌≡◌, ◌↔◌, Bool, true, false, refl, ◌==◌, ◌&&◌, ◌||◌, ◌+◌, ◌*◌, if◌then◌else◌,
  some, none, List, [], ◌∷◌, arith, ok, get_or-beyond, bit_and,
}
use x.Paging.{page_size, address, address_mask, align_to_page, replace_addr_with}
use x.PageAllocator.{Machine, Memory, count_zeros, clear_page, find_and_reserve_page, leading_zeros}
use x.PageAllocator.Bytes.{test_bit}
use x.PageAllocator.Bitmap.{is_reserved, zeros}
use x.PageAllocator.First.{is_reserved_full}
use x.PageTable.{
  levels, table_index, write_entry, map_page_translation, map_page, unmap_and_free_page,
}
use x.PageTable.Extend.{IsSound}
use x.PageTable.Walk.{leaf}
use x.PageTable.Map.{
  Mapped, BackedAt, translation, entry_for, map_page_translation-Mapped, map_page_translation-keeps,
}
use x.PageTable.MapPage.{PageMapped, map_page-PageMapped}
use x.PageTable.Identity.{is_address_identity_mapped, names_page, is_address_identity_mapped-leaf}
use x.PageTable.Check.{check_flags}
use x.PageTable.Check.Pages.{GrantsAt, check_flags-Grants}
use x.PageTable.Shared.Cycle.{Undone, map_page-unmap_and_free_page}
use x.PageTable.Shared
use x.PageAllocator.Shared.{Kernel}
use x.PageAllocator.Shared.Owned.{kernel_of}
use x.PageTable.Unmap.{Unmapped, unmap_and_free_page-Unmapped}

-- Pages 0 to 5 are reserved: the null page, four tables and the page that is mapped.
abbrev bitmap : List ℕ
bitmap = 0b11111100 ∷ 0b00000000 ∷ []

abbrev tables : Memory
tables a i =
    if i == 0 && (a == 0x1000 || (a == 0x2000 || (a == 0x3000 || a == 0x4000)))
    then a + 0x1003
    else 0

abbrev machine : Machine
machine = record {
  allocator = record {
    memory_bitmap = bitmap;
    total_pages = 16;
    free_pages = 10;
    page_table = 0x1000;
  };
  memory = tables;
}

machine-IsSound : IsSound machine
unfolding zeros is_reserved count_zeros test_bit
machine-IsSound = record {
  valid = record {
    bytes = omega arith;
    counted = refl;
    covered = omega arith;
    spare = λ p h. is_reserved_full bitmap p (get_or-beyond bitmap (p / 8) 0xff (omega arith));
    null_reserved = refl;
  };
  fits = omega arith;
}

machine-BackedAt :
    (v : ℕ)
    → table_index 0 0xFF8000000000 v ≡ 0
    → table_index 1 0x007FC0000000 v ≡ 0
    → table_index 2 0x00003FE00000 v ≡ 0
    → BackedAt machine v
unfolding is_reserved test_bit address
machine-BackedAt v a b c = (refl, λ p. rw a (refl, λ q. rw b (refl, λ r. rw c (refl, λ s. tt))))

-- The next page is free, and the one before is mapped.
reads : (translation machine 0 ≡ some 0x5003) × (translation machine 0x1000 ≡ none)
unfolding leaf address table_index
reads = (refl, refl)

backed : BackedAt machine 0 × BackedAt machine 0x1000
unfolding table_index
backed = (machine-BackedAt 0 refl refl refl, machine-BackedAt 0x1000 refl refl refl)

map_page_translation-Mapped_example :
    Mapped levels machine 0x1000
      (address 0x1000)
      (entry_for 3 0x6000)
      (map_page_translation 0x6000 0x1000 3 machine)
map_page_translation-Mapped_example =
    map_page_translation-Mapped machine 0x6000 0x1000 3 machine-IsSound backed.1 refl

-- The state after that call.
abbrev after : Machine
after = record machine { memory = write_entry tables 0x4000 1 (entry_for 3 0x6000) }

map_runs : map_page_translation 0x6000 0x1000 3 machine ≡ some (ok tt, after)
unfolding map_page_translation address table_index
map_runs = refl

map_page_translation-keeps_example : translation after 0 ≡ some 0x5003
map_page_translation-keeps_example =
    map_page_translation-keeps machine after 0x6000 0x1000 3 0 0x5003 (ok tt) machine-IsSound
      backed.1 backed.0 refl map_runs reads.0

map_page-PageMapped_example : PageMapped machine 0x1000 3 (map_page 0x1000 3 machine)
map_page-PageMapped_example = map_page-PageMapped machine 0x1000 3 machine-IsSound backed.1 refl

unmap_and_free_page-Unmapped_example :
    Unmapped levels machine
      (bit_and 0 address_mask)
      (address 0x1000)
      (unmap_and_free_page 0 machine)
unmap_and_free_page-Unmapped_example = unmap_and_free_page-Unmapped machine 0 machine-IsSound.valid

-- The flags of a page that can be read and written: present and writable.
check_runs :
    (check_flags machine 0x10 0x20 3 ≡ some true) × (check_flags machine 0xff0 0x20 3 ≡ some false)
unfolding check_flags table_index address align_to_page replace_addr_with
check_runs = (refl, refl)

check_flags-Grants_example :
    (b : Bool) × (check_flags machine 0xff0 0x20 3 ≡ some b)
    × ((b ≡ true) ↔ ((a : ℕ) → 0xff0 ≤ a → a < 0xff0 + 0x20 → GrantsAt machine 3 a))
check_flags-Grants_example = check_flags-Grants machine 0xff0 0x20 3 (omega arith) (omega arith)

-- Address 0 is mapped to another page, and 0x1000 is not mapped.
identity_runs :
    (is_address_identity_mapped machine 0x0 ≡ some false)
    × (is_address_identity_mapped
          (record machine { memory = write_entry tables 0x4000 7 0x7003 })
          0x7123
        ≡ some true)
unfolding is_address_identity_mapped table_index address write_entry
identity_runs = (refl, refl)

is_address_identity_mapped-leaf_example :
    is_address_identity_mapped machine 0
    ≡ some (names_page 0 (leaf levels tables 0 (address 0x1000)))
unfolding address table_index
is_address_identity_mapped-leaf_example =
    is_address_identity_mapped-leaf machine 0 (refl, λ p. (refl, λ q. (refl, λ r. (refl, λ s. tt))))

-- The kernel with that machine, and what `map_page` leaves of it: page 6 is reserved and mapped.
abbrev kernel : Kernel
kernel = kernel_of machine

abbrev mapped_kernel : Kernel
mapped_kernel = record {
  page_allocator =
      some (record (machine.allocator) {
        memory_bitmap = 0b11111110 ∷ 0b00000000 ∷ [];
        free_pages = 9;
      });
  memory = write_entry (clear_page tables 0x6000) 0x4000 1 (entry_for 3 0x6000);
}

map_page_runs : Shared.map_page 0x1000 3 kernel ≡ some (ok tt, mapped_kernel)
unfolding Shared.map_page map_page find_and_reserve_page leading_zeros address table_index
    map_page_translation
map_page_runs = refl

map_page-unmap_and_free_page_example :
    (p : ℕ) × (t : Machine) × (u : Machine) × (mapped_kernel ≡ kernel_of t)
    × (translation t 0x1000 ≡ some (entry_for 3 (p * page_size)))
    × (is_reserved bitmap p ≡ false)
    × (Shared.unmap_and_free_page 0x1000 mapped_kernel ≡ some (tt, kernel_of u))
    × Undone machine t 0x1000 p u
map_page-unmap_and_free_page_example =
    map_page-unmap_and_free_page machine.allocator kernel mapped_kernel 0x1000 3 refl
      machine-IsSound backed.1 refl map_page_runs
