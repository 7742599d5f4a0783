-- ===== src/PageTable/Extend.antt =====
-- How the allocator and the memory may change while tables are added: reserved pages stay reserved,
-- and an entry that is present in a reserved page stays as it is.
use x.Base.{
  ℕ, ◌⊎◌, ==_iff, ◌*◌, ◌/◌, ◌%◌, ◌^◌, ◌≤◌, ◌<◌, ◌≡◌, ◌≢◌, refl, ◌∙◌, bit_and, ==_refl, true, false,
  ◌==◌, if◌then◌else◌, Option, none, some, Result, ok, inl, inr, Bool-cases, arith, ltb, ltb→lt,
}
use x.Paging.{present, address, address_mask, replace_addr_with, read_write, page_size, low_flags}
use x.Paging.Fields.{replace_addr_with_lem, align_to_page_lem, bit_and-address_mask}
use x.PageAllocator.{Machine, ReservePageError, clear_page}
use x.PageAllocator.Bitmap.{is_reserved}
use x.PageAllocator.Valid.{IsValid}
use x.PageAllocator.Reserve.{Takes, Reserved, exhausted, taken, find_and_reserve_page-Reserved}
use x.PageTable.{link_table, parent_table, write_entry}

-- The page of an address is reserved.
abbrev pub Backs : Machine → ℕ → Type 0
Backs s a = is_reserved s.allocator.memory_bitmap (a / page_size) ≡ true

-- A valid allocator, over memory whose addresses fit below the sign bit of an entry's address.
pub record IsSound (s : Machine) : Type 0 where
  pub valid : IsValid s.allocator
  pub fits : s.allocator.total_pages ≤ 2 ^ 39

pub record Extends (s t : Machine) : Type 0 where
  pub sound : IsSound t
  pub backs : (a : ℕ) → Backs s a → Backs t a
  pub keeps : (a i : ℕ) → Backs s a → present (s.memory a i) ≡ true → t.memory a i ≡ s.memory a i
  pub table : t.allocator.page_table ≡ s.allocator.page_table
  pub total : t.allocator.total_pages ≡ s.allocator.total_pages

pub Extends-refl : (s : Machine) → IsSound s → Extends s s
Extends-refl s v = record {
  sound = v;
  backs = λ a h. h;
  keeps = λ a i h p. refl;
  table = refl;
  total = refl;
}

pub Extends-trans : {s t u : Machine} → Extends s t → Extends t u → Extends s u
Extends-trans e f = record {
  sound = f.sound;
  backs = λ a h. f.backs a (e.backs a h);
  keeps = λ a i h p. ground (arith, e.keeps a i h p, f.keeps a i (e.backs a h));
  table = f.table ∙ e.table;
  total = f.total ∙ e.total;
}

-- What `parent_table` does with an entry.
pub data Parent (s : Machine) (table index : ℕ) : Option (Option ℕ × Machine) → Type 0 where
  there :
      present (s.memory table index) ≡ true
      → Parent s table index (some (some (address (s.memory table index)), s))
  full :
      present (s.memory table index) ≡ false
      → ((p : ℕ) → is_reserved s.allocator.memory_bitmap p ≡ true)
      → Parent s table index (some (none, s))
  fresh :
      (page : ℕ) (t : Machine)
      → present (s.memory table index) ≡ false
      → Extends s t
      → Backs t page
      → present (t.memory table index) ≡ true
      → address (t.memory table index) ≡ page
      → ((i : ℕ) → t.memory page i ≡ 0)
      → ((q : ℕ)
          → is_reserved t.allocator.memory_bitmap q ≡ true
          → (is_reserved s.allocator.memory_bitmap q ≡ true) ⊎ (page / page_size ≡ q))
      → Parent s table index (some (some page, t))

read_write_low : read_write % 2 ^ 9 ≡ 3
unfolding read_write low_flags
read_write_low = refl

-- The entry for a new table reads back the table's address.
new_entry :
    (page : ℕ)
    → page % page_size ≡ 0
    → page < 2 ^ 51
    → (present (replace_addr_with read_write (bit_and page address_mask)) ≡ true)
      × (address (replace_addr_with read_write (bit_and page address_mask)) ≡ page)
new_entry page aligned fits =
    let e : bit_and page address_mask ≡ page = omega (arith, bit_and-address_mask page) in
    let (low, executable, at) = replace_addr_with_lem read_write page fits in
    rw e (
      ground (arith, low, read_write_low),
      at ∙ omega (arith, align_to_page_lem page (omega arith)),
    )

module _ (s : Machine) (table index : ℕ) (v : IsSound s) (b : Backs s table) where
  taken_below : (p : ℕ) → is_reserved s.allocator.memory_bitmap p ≡ false → p < 2 ^ 39
  taken_below p free = elim (Bool-cases (ltb p s.allocator.total_pages)) [
    | inl inside ↦ omega (arith, ltb→lt _ _ inside, v.fits)
    | inr outside ↦ ground (arith, v.valid.spare p)
  ]

  -- The state with the new table linked in.
  abbrev linked : Machine → ℕ → Machine
  linked t page = record t {
    memory =
        write_entry (clear_page t.memory page) table index
          (replace_addr_with read_write (bit_and page address_mask));
  }

  -- A reserved page is not the page that was free.
  apart :
      (p a : ℕ) → is_reserved s.allocator.memory_bitmap p ≡ false → Backs s a → a ≢ p * page_size
  apart p a free h e = let number : a / page_size ≡ p = omega arith in let h' = rw number at h in cc

  module _ (t : Machine) (page : ℕ) where
    present-linked :
        present (replace_addr_with read_write (bit_and page address_mask)) ≡ true
        → present ((linked t page).memory table index) ≡ true
    unfolding write_entry
    present-linked h = rw (==_refl table, ==_refl index) h

    address-linked :
        address (replace_addr_with read_write (bit_and page address_mask)) ≡ page
        → address ((linked t page).memory table index) ≡ page
    unfolding write_entry
    address-linked h = rw (==_refl table, ==_refl index) h

    linked_zero : (i : ℕ) → table ≢ page → (linked t page).memory page i ≡ 0
    unfolding write_entry clear_page
    linked_zero i ne = ground arith

    linked_keeps :
        (a i : ℕ)
        → present (s.memory table index) ≡ false
        → a ≢ page
        → present (s.memory a i) ≡ true
        → t.memory a i ≡ (if a == page then 0 else s.memory a i)
        → (linked t page).memory a i ≡ s.memory a i
    unfolding write_entry clear_page
    linked_keeps a i missing ne is e = ground arith

  only_page :
      (p q : ℕ) (t : Machine)
      → Takes s p t
      → is_reserved t.allocator.memory_bitmap q ≡ true
      → (is_reserved s.allocator.memory_bitmap q ≡ true) ⊎ (p * page_size / page_size ≡ q)
  only_page p q t take h = elim (Bool-cases (q == p)) [
    | inl it ↦ let same = (==_iff q p).0 it in inr (omega (arith, same))
    | inr other ↦ inl (ground (arith, take.reserved q, h))
  ]

  linked-fresh :
      (p : ℕ) (t : Machine)
      → present (s.memory table index) ≡ false
      → Takes s p t
      → Parent s table index (link_table table index (some (ok (p * page_size), t)))
  unfolding link_table
  linked-fresh p t missing take =
      let page : ℕ = p * page_size in
      let below : p < 2 ^ 39 = taken_below p take.was_free in
      let (is_present, at) = new_entry page (omega arith) (omega arith) in
      let number : page / page_size ≡ p = omega arith in
      rw at (
        fresh page (linked t page) missing
          (record {
            sound = record { valid = take.valid; fits = omega (arith, take.total, v.fits) };
            backs = λ a h. ground (arith, take.reserved (a / page_size));
            keeps = λ a i h is.
                linked_keeps t page a i missing (apart p a take.was_free h) is (take.cleared a i);
            table = take.table;
            total = take.total;
          })
          (ground (arith, take.reserved (page / page_size))) (present-linked t page is_present)
          (address-linked t page at) (λ i. linked_zero t page i (apart p table take.was_free b))
          (λ q h. only_page p q t take h))

  link_table-Parent :
      {r : Option (Result ReservePageError ℕ × Machine)}
      → present (s.memory table index) ≡ false
      → Reserved s r
      → Parent s table index (link_table table index r)
  link_table-Parent missing (exhausted h) = unfold link_table in full missing h
  link_table-Parent missing (taken p t take) = linked-fresh p t missing take

  pub parent_table-Parent : Parent s table index (parent_table table index s)
  unfolding parent_table
  parent_table-Parent = elim (Bool-cases (present (s.memory table index))) [
    | inl yes_ ↦ rw yes_ (there yes_)
    | inr no_ ↦ rw no_ (link_table-Parent no_ (find_and_reserve_page-Reserved s v.valid))
  ]
