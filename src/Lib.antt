-- ===== src/Lib.antt =====
-- The memory management and the terminal of the 9x kernel, kernel/src.
--
-- The kernel keeps physical memory in a bitmap with one bit for each page (PageAllocatorInternal in
-- arch/x86_64/page_allocation.rs). Its page tables, and those of each process
-- (arch/x86_64/user_page_mapping.rs), are trees of four levels in pages of that allocator, whose
-- entries arch/x86_64/paging.rs packs into words. The areas of a process (vma.rs) are nodes that
-- live in pages with a bitmap of their own. The files that the kernel starts from lie in a cpio
-- archive (cpio.rs). The terminal (terminal.rs) keeps the characters of the screen and draws those that
-- have changed on the framebuffer (core_graphics.rs), at the end of each line.
--
-- Base             names of the libraries, lists and Boolean tests over machine numbers, the laws of
--                  bits and of words split into fields, and commands
-- Paging           arch/x86_64/paging.rs: entries as words, PageTableData, the getters and setters
-- PageAllocator    arch/x86_64/page_allocation.rs: PageAllocatorInternal, find_and_reserve_page,
--                  free_page; Bitmap sees the bitmap as a set, Valid is the invariant; Shared
--                  is PAGE_ALLOCATOR with its functions, and OwnedPhysicalPage
-- PageTable        the same file: map_page_translation, map_page, unmap_and_free_page; Check has
--                  check_flags and Identity is_address_identity_mapped; Shared is the functions on
--                  PAGE_ALLOCATOR; Walk specifies what the processor reads on its way
-- UserMapper       arch/x86_64/user_page_mapping.rs: unmap_page; UnmapTask is UnmapMemTask, which a
--                  caller can suspend before each page
--                  MapPage is map_blank_page, MapTask the task that maps a range, Pages the loops over a
--                  range of pages and the end of a mapper, Copy map_mem_copy_from_buffer and new
-- Vma              vma.rs: Vma/StoragePage is NodeStoragePage, Vma/Storage NodeStorageList with
--                  PhysicalBlockAllocator of physical_block_allocator.rs, Vma/Node the nodes and their
--                  packed fields, Vma/Tree VMATree, Vma/Allocator VMAAllocator with its tasks
-- Vma/Tree         Link is link_in_branch and fix_insert, Insert insert, Delete fix_delete, Remove delete
--                  and the end of a tree; Shape is the abstract tree that the memory holds, with the
--                  places in it and the areas it parts the addresses into; Search and Reach are about
--                  the search, Rotate about the rotations, Measure about the empty areas,
--                  Balance about the red-black rules and Depth about how deep they keep a tree
-- Cpio             cpio.rs: Node, octal_to_binary, find_file
-- Graphics         core_graphics.rs: Framebuffer; Canvas says when a box fits on it
-- Terminal         terminal.rs: Terminal/Font is psf, Terminal/Screen the characters with render,
--                  Terminal/Lines reset and new_line, Terminal/Palette the colors, Terminal/Write
--                  write; Drawable, Draw, Pixels and Render are about the drawing, Rows and
--                  Cells about lines and scrolling; in Write, Plain and Escapes are about the steps of
--                  the two kinds of characters, Safe about panics, Colors about the sequences
--
-- A definition bears the name of the function that it translates; a loop is a function of its own,
-- named for what the loop does. State is passed on explicitly: a Command takes the state to the result
-- and the new state, or to none where the code panics. Errors that the code returns are values of
-- Result, and the state that a failing call leaves goes on with them. The build is the debug build: a
-- subtraction below zero, an addition past the word and a failing debug_assert panic. The getters of
-- bitfield! read the bits that their declarations name. Each call holds the lock of the allocator from
-- its start to its end, so that calls follow one another.
--
-- Memory is a function from the address of a page and the index of a word to a 64-bit word, as the
-- kernel's identity map shows it; tables start at a page. Theorems on page tables assume at most
-- 2 ^ 39 pages, so that the address of a page fits the entry's field. The size of a node of vma.rs is
-- the compiler's choice and a parameter. What memory holds behind a cpio archive is a parameter too,
-- since the header is read through a pointer. Loops that are not structural run on fuel. Each round of
-- the search in an archive moves on by a header at least, so that one more than the length of the archive is enough;
-- each round of an unmapping task takes a page off those left, so that one more than their number is.
-- The loops of vma.rs that follow pointers have a number of rounds as a parameter, which is fuel; each
-- theorem says how many are enough, in terms of the branches of the tree. A BranchNodePtr and the
-- NodePtr of the same node differ by a constant, and both are the address of the node; memory that is
-- freed reads as a placeholder.
-- A Display is a terminal with the framebuffer that the kernel keeps beside it, whose color format
-- is never read. A character is its code point, and a text the list of its characters. Whether
-- try_reserve_exact finds memory for a buffer is a parameter.
-- The answers of should_suspend are a function of the number of the call.
--
-- Not modelled: locks, the registers of the processor, the flush of address translations, the mapper of
-- the kernel's own addresses, the kernel heap, devices, interrupts and descriptor tables, the bindings
-- of ACPI, and the boot code.
pub mod Base
pub mod Paging
pub mod PageAllocator
pub mod PageTable
pub mod UserMapper
pub mod Vma
pub mod Cpio
pub mod Graphics
pub mod Terminal
