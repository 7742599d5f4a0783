-- ===== src/Paging/Fields.antt =====
-- What the fields of an entry read after it is built or changed.
use x.Base.{
  ℕ, ◌+◌, ◌*◌, ◌/◌, ◌%◌, ◌^◌, ◌≤◌, ◌<◌, ◌≡◌, refl, ap, ◌∙◌, bit_and, bit_or, Bool, true, false,
  ◌==◌, ltb, lt→ltb, if◌then◌else◌, to_bit, arith,
}
use x.Base.Bits.{
  bit_or_split, bit_and_split, bit_or_high_low, bit_or_low_high, zero-bit_or, bit_or-zero,
  bit_and_field, bit_and_mask,
}
use x.Paging.{
  PageTableData, page_size, flag, align_to_page, present, writable, reads_write_through,
  reads_cache_disabled, reads_accessed, reads_dirty, reads_global, user_accessable, huge_page,
  no_execute, address_mask, flags_mask, low_flags, from_data, address, replace_addr_with,
  replace_flags_with,
}

-- The low flags as a number.
abbrev flag_sum : PageTableData → ℕ
flag_sum d =
    to_bit d.is_present
    + to_bit d.is_writable * 2
    + to_bit d.is_user_accessable * 4
    + to_bit d.write_through_caching_enabled * 8
    + to_bit d.cache_disabled * 16
    + to_bit d.accessed * 32
    + to_bit d.dirty * 64
    + to_bit d.is_huge_page * 128
    + to_bit d.global * 256

to_bit-le : (b : Bool) → to_bit b ≤ 1
to_bit-le b = ground arith

-- One flag more.
join_flag :
    (k low : ℕ) (b : Bool) (sum : ℕ)
    → low ≡ sum
    → sum < 2 ^ k
    → bit_or low (to_bit b * 2 ^ k) ≡ sum + to_bit b * 2 ^ k
join_flag k low b sum e fits = rw e (omega (arith, bit_or_low_high k (to_bit b) sum fits))

pub low_flags_sum : (d : PageTableData) → low_flags d ≡ flag_sum d
unfolding low_flags
low_flags_sum d =
    let w1 =
      join_flag 1 (to_bit d.is_present) d.is_writable (to_bit d.is_present) refl
        (omega (arith, to_bit-le)) in
    let w2 = join_flag 2 _ d.is_user_accessable _ w1 (omega (arith, to_bit-le)) in
    let w3 = join_flag 3 _ d.write_through_caching_enabled _ w2 (omega (arith, to_bit-le)) in
    let w4 = join_flag 4 _ d.cache_disabled _ w3 (omega (arith, to_bit-le)) in
    let w5 = join_flag 5 _ d.accessed _ w4 (omega (arith, to_bit-le)) in
    let w6 = join_flag 6 _ d.dirty _ w5 (omega (arith, to_bit-le)) in
    let w7 = join_flag 7 _ d.is_huge_page _ w6 (omega (arith, to_bit-le)) in
    let w8 = join_flag 8 _ d.global _ w7 (omega (arith, to_bit-le)) in w8 ∙ omega arith

-- The address field in place.
pub bit_and-address_mask : (u : ℕ) → bit_and u address_mask ≡ u / 2 ^ 12 % 2 ^ 40 * 2 ^ 12
bit_and-address_mask u = bit_and_field 12 40 u

pub bit_and-flags_mask : (u : ℕ) → bit_and u flags_mask ≡ u / 2 ^ 63 % 2 * 2 ^ 63 + u % 2 ^ 9
bit_and-flags_mask u =
    let split : u ≡ u / 2 ^ 9 * 2 ^ 9 + u % 2 ^ 9 = omega arith in
    ap (λ (t : ℕ). bit_and t flags_mask) split
    ∙ omega (
      arith,
      bit_and_split 9 (u / 2 ^ 9) (2 ^ 54) (u % 2 ^ 9) 511 (omega arith) (omega arith),
      bit_and_mask 9 (u % 2 ^ 9),
      bit_and_field 54 1 (u / 2 ^ 9),
    )

-- `|` of an address field and of flags on both sides of it.
join_fields :
    (a low high : ℕ)
    → a < 2 ^ 40
    → low < 2 ^ 12
    → bit_or (a * 2 ^ 12) (high * 2 ^ 63 + low) ≡ high * 2 ^ 63 + a * 2 ^ 12 + low
join_fields a low high ha hl =
    let split : high * 2 ^ 63 + low ≡ high * 2 ^ 51 * 2 ^ 12 + low = omega arith in
    rw split (
      ground (
        arith,
        bit_or_split 12 a (high * 2 ^ 51) 0 low (omega arith) hl,
        bit_or_low_high 51 high a (omega arith),
        zero-bit_or low,
      ))

join_fields_left :
    (a low high : ℕ)
    → a < 2 ^ 40
    → low < 2 ^ 12
    → bit_or (high * 2 ^ 63 + low) (a * 2 ^ 12) ≡ high * 2 ^ 63 + a * 2 ^ 12 + low
join_fields_left a low high ha hl =
    let split : high * 2 ^ 63 + low ≡ high * 2 ^ 51 * 2 ^ 12 + low = omega arith in
    rw split (
      ground (
        arith,
        bit_or_split 12 (high * 2 ^ 51) a low 0 hl (omega arith),
        bit_or_high_low 51 high a (omega arith),
        bit_or-zero low,
      ))

-- The word of an address field, flags below it, and the highest bit.
abbrev pub word : (high field low : ℕ) → ℕ
word high field low = high * 2 ^ 63 + field * 2 ^ 12 + low

-- The number of a page frame, sign extended from 40 bits, as an address.
abbrev pub canonical : ℕ → ℕ
canonical field = if ltb field (2 ^ 39) then field * 2 ^ 12 else field * 2 ^ 12 + 0xFFF0000000000000

pub from_data-word :
    (d : PageTableData)
    → from_data d
      ≡ word (to_bit d.is_no_execute) (d.physical_address / 2 ^ 12 % 2 ^ 40) (flag_sum d)
unfolding from_data
from_data-word d =
    let low : flag_sum d < 2 ^ 12 = omega (arith, to_bit-le) in
    let a : ℕ = d.physical_address / 2 ^ 12 % 2 ^ 40 in
    rw
      (
        low_flags_sum d,
        bit_and-address_mask d.physical_address,
        bit_or_low_high 63 (to_bit d.is_no_execute) (flag_sum d) (omega arith),
      )
      (join_fields_left a (flag_sum d) (to_bit d.is_no_execute) (omega arith) low)

pub replace_addr_with-word :
    (w addr : ℕ)
    → replace_addr_with w addr ≡ word (w / 2 ^ 63 % 2) (addr / 2 ^ 12 % 2 ^ 40) (w % 2 ^ 9)
unfolding replace_addr_with
replace_addr_with-word w addr =
    rw (bit_and-address_mask addr, bit_and-flags_mask w)
      (join_fields (addr / 2 ^ 12 % 2 ^ 40) (w % 2 ^ 9) (w / 2 ^ 63 % 2) (omega arith)
        (omega arith))

pub replace_flags_with-word :
    (w flags : ℕ)
    → replace_flags_with w flags ≡ word (flags / 2 ^ 63 % 2) (w / 2 ^ 12 % 2 ^ 40) (flags % 2 ^ 9)
unfolding replace_flags_with
replace_flags_with-word w flags =
    rw (bit_and-address_mask w, bit_and-flags_mask flags)
      (join_fields (w / 2 ^ 12 % 2 ^ 40) (flags % 2 ^ 9) (flags / 2 ^ 63 % 2) (omega arith)
        (omega arith))

-- The address of a word is its field, sign extended.
pub address-canonical : (w : ℕ) → address w ≡ canonical (w / 2 ^ 12 % 2 ^ 40)
unfolding address
address-canonical w =
    let a : ℕ = w / 2 ^ 12 % 2 ^ 40 in
    ground
      (arith, bit_and_field 51 1 (a * 2 ^ 12), bit_or_low_high 52 0xFFF (a * 2 ^ 12) (omega arith))

-- Below the sign bit the field is the frame.
pub address-word :
    (high field low : ℕ)
    → field < 2 ^ 39
    → low < 2 ^ 12
    → address (word high field low) ≡ field * 2 ^ 12
address-word high field low hf hl =
    let e : word high field low / 2 ^ 12 % 2 ^ 40 ≡ field = omega arith in
    address-canonical (word high field low) ∙ rw (e, lt→ltb field (2 ^ 39) hf)

pub align_to_page_lem : (a : ℕ) → a < 2 ^ 64 → align_to_page a ≡ a / page_size * page_size
unfolding align_to_page
align_to_page_lem a h = omega (arith, bit_and_field 12 52 a)

-- Every field of an entry built from data reads what the data says; the address does where it is
-- aligned to a page and fits below the sign bit.
pub record Reads (d : PageTableData) (w : ℕ) : Type 0 where
  pub reads_present : present w ≡ d.is_present
  pub reads_writable : writable w ≡ d.is_writable
  pub reads_user : user_accessable w ≡ d.is_user_accessable
  pub write_through : reads_write_through w ≡ d.write_through_caching_enabled
  pub uncached : reads_cache_disabled w ≡ d.cache_disabled
  pub used : reads_accessed w ≡ d.accessed
  pub written : reads_dirty w ≡ d.dirty
  pub reads_huge : huge_page w ≡ d.is_huge_page
  pub everywhere : reads_global w ≡ d.global
  pub reads_no_execute : no_execute w ≡ d.is_no_execute
  pub reads_address :
      d.physical_address % page_size ≡ 0
      → d.physical_address < 2 ^ 51
      → address w ≡ d.physical_address

module _ (d : PageTableData) where
  abbrev built : ℕ
  built = word (to_bit d.is_no_execute) (d.physical_address / 2 ^ 12 % 2 ^ 40) (flag_sum d)

  flag_of_bit : (n w : ℕ) (b : Bool) → w / 2 ^ n % 2 ≡ to_bit b → flag n w ≡ b
  flag_of_bit n w true e = rw e
  flag_of_bit n w false e = rw e

  -- Reading an entry gives back the data that it was built from.
  pub from_data-Reads : Reads d (from_data d)
  from_data-Reads = rw (from_data-word d) (record {
    reads_present = flag_of_bit 0 built d.is_present (omega (arith, to_bit-le));
    reads_writable = flag_of_bit 1 built d.is_writable (omega (arith, to_bit-le));
    reads_user = flag_of_bit 2 built d.is_user_accessable (omega (arith, to_bit-le));
    write_through = flag_of_bit 3 built d.write_through_caching_enabled (omega (arith, to_bit-le));
    uncached = flag_of_bit 4 built d.cache_disabled (omega (arith, to_bit-le));
    used = flag_of_bit 5 built d.accessed (omega (arith, to_bit-le));
    written = flag_of_bit 6 built d.dirty (omega (arith, to_bit-le));
    everywhere = flag_of_bit 8 built d.global (omega (arith, to_bit-le));
    reads_huge = flag_of_bit 7 built d.is_huge_page (omega (arith, to_bit-le));
    reads_no_execute = flag_of_bit 63 built d.is_no_execute (omega (arith, to_bit-le));
    reads_address = λ aligned fits.
        address-word (to_bit d.is_no_execute) (d.physical_address / 2 ^ 12 % 2 ^ 40) (flag_sum d)
          (omega arith) (omega (arith, to_bit-le))
        ∙ omega arith;
  })

-- Changing the address of an entry keeps its nine low flags and `no_execute`, and the address
-- then reads as the given one, aligned down to its page.
pub replace_addr_with_lem :
    (w addr : ℕ)
    → addr < 2 ^ 51
    → (replace_addr_with w addr % 2 ^ 9 ≡ w % 2 ^ 9)
      × (no_execute (replace_addr_with w addr) ≡ no_execute w)
      × (address (replace_addr_with w addr) ≡ align_to_page addr)
replace_addr_with_lem w addr h = rw (replace_addr_with-word w addr) (
  omega arith,
  ap (λ (t : ℕ). t == 1) (omega arith),
  address-word (w / 2 ^ 63 % 2) (addr / 2 ^ 12 % 2 ^ 40) (w % 2 ^ 9) (omega arith) (omega arith)
      ∙ omega (arith, align_to_page_lem addr (omega arith)),
)

-- The flags of the new entry are those of the old one; in particular `present`.
pub present-replace_addr_with : (w addr : ℕ) → present (replace_addr_with w addr) ≡ present w
present-replace_addr_with w addr =
    rw (replace_addr_with-word w addr) (ap (λ (t : ℕ). t == 1) (omega arith))
