-- ===== src/PageAllocator/Reserve.antt =====
-- `find_and_reserve_page` against the set of reserved pages.
use x.Base.{
  ℕ, ◌+◌, ◌*◌, ◌/◌, ◌≤◌, ◌<◌, ◌≡◌, refl, subst, true, false, not, List, Option, some, arith, leb,
  ◌==◌, if◌then◌else◌, length, length-set, Result, ok, err, ◌&&◌,
}
use x.Paging.{page_size}
use x.PageAllocator.{
  Machine, byte_ratio, ReservePageError, reserve_page_error, clear_page, take_page,
  find_and_reserve_page,
}
use x.PageAllocator.Bitmap.{
  Bytes, is_reserved, zeros, mark, mark-Bytes, is_reserved-mark, zeros-mark,
}
use x.PageAllocator.First.{First, all_reserved, first_free, reserve_first-First}
use x.PageAllocator.Valid.{IsValid}

-- Page `p` was free and no page below it was; now it is reserved and cleared, and nothing else has
-- changed.
pub record Takes (s : Machine) (p : ℕ) (t : Machine) : Type 0 where
  pub was_free : is_reserved s.allocator.memory_bitmap p ≡ false
  pub least : (q : ℕ) → q < p → is_reserved s.allocator.memory_bitmap q ≡ true
  pub reserved :
      (q : ℕ)
      → is_reserved t.allocator.memory_bitmap q
        ≡ (if q == p then true else is_reserved s.allocator.memory_bitmap q)
  pub counted : t.allocator.free_pages + 1 ≡ s.allocator.free_pages
  pub total : t.allocator.total_pages ≡ s.allocator.total_pages
  pub table : t.allocator.page_table ≡ s.allocator.page_table
  pub cleared : (a i : ℕ) → t.memory a i ≡ (if a == p * page_size then 0 else s.memory a i)
  pub valid : IsValid t.allocator

pub data Reserved (s : Machine) : Option (Result ReservePageError ℕ × Machine) → Type 0 where
  exhausted :
      ((p : ℕ) → is_reserved s.allocator.memory_bitmap p ≡ true)
      → Reserved s (some (err reserve_page_error, s))
  taken : (p : ℕ) (t : Machine) → Takes s p t → Reserved s (some (ok (p * page_size), t))

module _ (bm : List ℕ) (p : ℕ) where
  one_less :
      (n : ℕ)
      → Bytes bm
      → p / 8 < length bm
      → is_reserved bm p ≡ false
      → n ≡ zeros bm
      → zeros (mark bm p) + 1 ≡ n
  one_less n b inside free counted = ground (arith, zeros-mark bm b p inside)

  not_null :
      (n : ℕ)
      → is_reserved bm 0 ≡ true
      → is_reserved bm p ≡ false
      → 0 < n
      → (leb 1 n && not (p * page_size == 0)) ≡ true
  not_null n null free h = ground arith

  mark_covered : (n : ℕ) → n ≤ 8 * length bm → n ≤ 8 * length (mark bm p)
  unfolding mark
  mark_covered n h = rw length-set h

  stays_reserved :
      (q : ℕ)
      → Bytes bm
      → p / 8 < length bm
      → is_reserved bm q ≡ true
      → is_reserved (mark bm p) q ≡ true
  stays_reserved q b inside h = ground (arith, is_reserved-mark bm b p inside q)

module _ (s : Machine) (v : IsValid s.allocator) where
  -- The free page that the scan found is taken.
  page_taken :
      (p i j : ℕ) (bm' : List ℕ)
      → p ≡ i * 8 + j
      → p / 8 < length s.allocator.memory_bitmap
      → is_reserved s.allocator.memory_bitmap p ≡ false
      → ((q : ℕ) → q < p → is_reserved s.allocator.memory_bitmap q ≡ true)
      → bm' ≡ mark s.allocator.memory_bitmap p
      → Reserved s (take_page s (some (bm', i, j)))
  unfolding take_page clear_page
  page_taken p i j bm' number inside free least e =
      let old : List ℕ = s.allocator.memory_bitmap in
      let addr : i * byte_ratio + j * page_size ≡ p * page_size = omega arith in
      let count = one_less old p s.allocator.free_pages v.bytes inside free v.counted in
      let more : (leb 1 s.allocator.free_pages && not (p * page_size == 0)) ≡ true =
        not_null old p s.allocator.free_pages v.null_reserved free (omega (arith, count)) in
      rw (addr, more, e)
        (taken p _ (record {
          was_free = free;
          least = least;
          reserved = is_reserved-mark old v.bytes p inside;
          counted = omega (arith, count);
          total = refl;
          table = refl;
          cleared = λ a i. refl;
          valid = record {
            bytes = mark-Bytes old v.bytes p inside;
            counted = omega (arith, count);
            covered = mark_covered old p s.allocator.total_pages v.covered;
            spare = λ q l. stays_reserved old p q v.bytes inside (v.spare q l);
            null_reserved = stays_reserved old p 0 v.bytes inside v.null_reserved;
          };
        }))

  take_page-Reserved :
      {r : Option (List ℕ × ℕ × ℕ)} → First s.allocator.memory_bitmap r → Reserved s (take_page s r)
  take_page-Reserved (all_reserved h) = unfold take_page in exhausted h
  take_page-Reserved (first_free p i j bm' number inside free least e) =
      page_taken p i j bm' number inside free least e

-- On every branch: with no page free the error, and the state as it was; else the lowest free page,
-- reserved and cleared. It never panics.
pub find_and_reserve_page-Reserved :
    (s : Machine) → IsValid s.allocator → Reserved s (find_and_reserve_page s)
find_and_reserve_page-Reserved s v =
    unfold find_and_reserve_page in
    take_page-Reserved s v (reserve_first-First s.allocator.memory_bitmap v.bytes)

-- The converse: what a successful reservation says.
Reserved-ok :
    {s : Machine} {r : Option (Result ReservePageError ℕ × Machine)} (addr : ℕ) (t : Machine)
    → Reserved s r
    → r ≡ some (ok addr, t)
    → (p : ℕ) × (addr ≡ p * page_size) × Takes s p t
Reserved-ok addr t (exhausted h) e = cc
Reserved-ok {s} addr t (taken p t' take) e =
    let same : t' ≡ t = cc in (p, cc, subst (λ m. Takes s p m) same take)

pub Takes-of_ok :
    (s t : Machine) (addr : ℕ)
    → IsValid s.allocator
    → find_and_reserve_page s ≡ some (ok addr, t)
    → (p : ℕ) × (addr ≡ p * page_size) × Takes s p t
Takes-of_ok s t addr v e = Reserved-ok addr t (find_and_reserve_page-Reserved s v) e
