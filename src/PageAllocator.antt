-- ===== src/PageAllocator.antt =====
-- The physical page allocator of kernel/src/arch/x86_64/page_allocation.rs: a bitmap with one bit
-- for each page, most significant bit first, where a set bit is a reserved page.
pub mod Bytes
pub mod Bitmap
pub mod First
pub mod Valid
pub mod Reserve
pub mod Free
pub mod Covered
pub mod Shared
mod Examples
use x.Paging.{page_size}
use x.Base.{
  ℕ, zero, suc, ◌+◌, ◌-◌, ◌*◌, ◌/◌, ◌%◌, ◌^◌, bit_and, bit_or, List, [], ◌∷◌, Option, none, some,
  ltb, leb, ◌==◌, if◌then◌else◌, length, get_elem?, set, Result, ok, err, Command, pure, panic,
  ◌>>=◌, ◌>>◌, unwrap, Bool, ◌&&◌, not,
}

-- `BYTE_RATIO`: the bytes of memory that one byte of the bitmap stands for.
abbrev pub byte_ratio : ℕ
byte_ratio = page_size * 8

-- `u8::leading_zeros`, `u8::count_zeros` and `!` on a byte, of the language's library.
unfoldable pub leading_zeros : ℕ → ℕ → ℕ
leading_zeros zero b = 0
leading_zeros (suc w) b = if leb (2 ^ w) b then 0 else suc (leading_zeros w b)

unfoldable pub count_zeros : ℕ → ℕ → ℕ
count_zeros zero b = 0
count_zeros (suc w) b = (1 - b % 2) + count_zeros w (b / 2)

abbrev pub not_u8 : ℕ → ℕ
not_u8 b = 255 - b

-- `fold(0, |acc, byte| acc + byte.count_zeros())`: the accumulator is a `u32`, and the addition
-- panics when it overflows.
unfoldable pub fold_zeros : ℕ → List ℕ → Option ℕ
fold_zeros acc [] = some acc
fold_zeros acc (b ∷ bs) =
    let rest = fold_zeros (acc + count_zeros 8 b) bs in
    if ltb (acc + count_zeros 8 b) (2 ^ 32) then rest else none

pub record PageAllocator : Type 0 where
  pub memory_bitmap : List ℕ
  pub total_pages : ℕ
  pub free_pages : ℕ
  pub page_table : ℕ

-- Physical memory, as far as the allocator and the page table code use it: the 64-bit words of
-- each page, by the address of the page and the index of the word.
abbrev pub Memory : Type 0
Memory = ℕ → ℕ → ℕ

pub record Machine : Type 0 where
  pub allocator : PageAllocator
  pub memory : Memory

unfoldable pub clear_page : Memory → ℕ → Memory
clear_page m page a i = if a == page then 0 else m a i

pub data ReservePageError : Type 0 where
  reserve_page_error : ReservePageError

-- The loop of `find_and_reserve_page` over the bytes of the bitmap: the bitmap with the bit set,
-- the index of the byte and that of the bit.
unfoldable pub reserve_first : ℕ → List ℕ → Option (List ℕ × ℕ × ℕ)
reserve_first byte_index [] = none
reserve_first byte_index (b ∷ bs) =
    let rest = reserve_first (byte_index + 1) bs in
    if b == 0xff
    then elim rest [ none ↦ none | some (bs', i, j) ↦ some (b ∷ bs', i, j) ]
    else let bit_index = leading_zeros 8 (not_u8 b) in
      some (bit_or b (0x80 / 2 ^ bit_index) ∷ bs, byte_index, bit_index)

-- What follows the scan. A null address fails `page_ptr.as_mut().unwrap()`.
unfoldable pub take_page :
    Machine → Option (List ℕ × ℕ × ℕ) → Option (Result ReservePageError ℕ × Machine)
take_page s none = some (err reserve_page_error, s)
take_page s (some (bitmap, byte_index, bit_index)) =
    let addr = byte_index * byte_ratio + bit_index * page_size in
    if leb 1 s.allocator.free_pages && not (addr == 0)
    then some (
      ok addr,
      record {
        allocator = record (s.allocator) {
          memory_bitmap = bitmap;
          free_pages = s.allocator.free_pages - 1;
        };
        memory = clear_page s.memory addr;
      },
    )
    else none

unfoldable pub find_and_reserve_page : Command Machine (Result ReservePageError ℕ)
unfolding reserve_first clear_page take_page
find_and_reserve_page s = take_page s (reserve_first 0 s.allocator.memory_bitmap)

-- Out of the bitmap's range the indexing panics.
unfoldable pub free_page : ℕ → Command Machine (Unit {0})
free_page address s =
    let byte_index = address / byte_ratio in
    let bit_offset = address / page_size % 8 in
    let a = s.allocator in
    if leb a.total_pages (byte_index * 8 + bit_offset)
    then some (tt, s)
    else elim (get_elem? a.memory_bitmap byte_index) [
      | none ↦ none
      | some b ↦ some (
        tt,
        record s {
          allocator = record a {
            memory_bitmap =
                set a.memory_bitmap byte_index (bit_and b (not_u8 (0x80 / 2 ^ bit_offset)));
            free_pages = a.free_pages + 1;
          };
        },
      )
    ]
