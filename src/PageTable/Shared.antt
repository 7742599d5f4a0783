-- ===== src/PageTable/Shared.antt =====
-- The functions of kernel/src/arch/x86_64/page_allocation.rs that reach the kernel's page tables
-- through `PAGE_ALLOCATOR`.
pub mod Cleared
pub mod Cycle
use x.Base.{ℕ, Bool, Option, none, some, Result, Command}
use x.PageAllocator.{Machine}
use x.PageAllocator.Shared.{Kernel, with_allocator}
use x.PageTable.{MapPageError}
use x.PageTable
use x.PageTable.Check
use x.PageTable.Identity

-- A call that reads the machine.
abbrev pub reading : {A : Type 0} → (Machine → Option A) → Command Machine A
reading f s = elim (f s) [ none ↦ none | some a ↦ some (a, s) ]

unfoldable pub is_address_identity_mapped : (address : ℕ) → Command Kernel Bool
unfolding with_allocator
is_address_identity_mapped address =
    with_allocator (reading (λ s. Identity.is_address_identity_mapped s address))

unfoldable pub map_page_translation :
    (physical_address virtual_address flags : ℕ) → Command Kernel (Result MapPageError (Unit {0}))
unfolding with_allocator
map_page_translation physical_address virtual_address flags =
    with_allocator (PageTable.map_page_translation physical_address virtual_address flags)

unfoldable pub map_page :
    (virtual_address flags : ℕ) → Command Kernel (Result MapPageError (Unit {0}))
unfolding with_allocator
map_page virtual_address flags = with_allocator (PageTable.map_page virtual_address flags)

unfoldable pub unmap_and_free_page : (virtual_address : ℕ) → Command Kernel (Unit {0})
unfolding with_allocator
unmap_and_free_page virtual_address = with_allocator (PageTable.unmap_and_free_page virtual_address)

unfoldable pub check_flags : (virtual_start_address size flags : ℕ) → Command Kernel Bool
unfolding with_allocator
check_flags virtual_start_address size flags =
    with_allocator (reading (λ s. Check.check_flags s virtual_start_address size flags))
