-- ===== src/PageAllocator/Free.antt =====
-- `free_page` against the set of reserved pages.
use x.Base.{
  ok, ℕ, ◌+◌, ◌*◌, ◌/◌, ◌≤◌, ◌<◌, ◌≡◌, ◌≢◌, refl, true, false, List, Option, some, inl, inr, arith,
  Bool-cases, ltb→lt, ltb, ◌==◌, if◌then◌else◌, length, length-set, get_elem?-get_or,
}
use x.Paging.{page_size}
use x.PageAllocator.{Machine, byte_ratio, free_page, find_and_reserve_page}
use x.PageAllocator.Bitmap.{
  Bytes, is_reserved, zeros, unmark, unmark-Bytes, is_reserved-unmark, zeros-unmark,
}
use x.PageAllocator.Valid.{IsValid}
use x.PageAllocator.Reserve.{Takes, Takes-of_ok}

-- The page that an address lies in.
abbrev pub page_of : ℕ → ℕ
page_of address = address / page_size

-- Page `p` is free, the count has gone up by one, and nothing else has changed.
pub record Gives (s : Machine) (p : ℕ) (t : Machine) : Type 0 where
  pub reserved :
      (q : ℕ)
      → is_reserved t.allocator.memory_bitmap q
        ≡ (if q == p then false else is_reserved s.allocator.memory_bitmap q)
  pub counted : t.allocator.free_pages ≡ s.allocator.free_pages + 1
  pub total : t.allocator.total_pages ≡ s.allocator.total_pages
  pub table : t.allocator.page_table ≡ s.allocator.page_table
  pub memory : t.memory ≡ s.memory
  -- Freeing a page that was reserved keeps the invariant, except for page 0.
  pub valid : is_reserved s.allocator.memory_bitmap p ≡ true → p ≢ 0 → IsValid t.allocator
  -- A second free leaves a count above the number of free pages.
  pub double_free : is_reserved s.allocator.memory_bitmap p ≡ false → ¬ IsValid t.allocator

pub data Freed (s : Machine) (address : ℕ) : Option (Unit {0} × Machine) → Type 0 where
  ignored : s.allocator.total_pages ≤ page_of address → Freed s address (some (tt, s))
  freed :
      (t : Machine)
      → page_of address < s.allocator.total_pages
      → Gives s (page_of address) t
      → Freed s address (some (tt, t))

-- The state that `free_page` leaves for a page of the machine.
abbrev pub released : Machine → ℕ → Machine
released s p = record s {
  allocator = record (s.allocator) {
    memory_bitmap = unmark s.allocator.memory_bitmap p;
    free_pages = s.allocator.free_pages + 1;
  };
}

module _ (bm : List ℕ) (p : ℕ) where
  unmark_covered : (n : ℕ) → n ≤ 8 * length bm → n ≤ 8 * length (unmark bm p)
  unfolding unmark
  unmark_covered n h = rw length-set h

  stays_reserved :
      (q : ℕ)
      → Bytes bm
      → p / 8 < length bm
      → is_reserved bm q ≡ true
      → p ≢ q
      → is_reserved (unmark bm p) q ≡ true
  stays_reserved q b inside h ne = ground (arith, is_reserved-unmark bm b p inside q)

module _ (s : Machine) (address : ℕ) (v : IsValid s.allocator) where
  byte_inside :
      page_of address < s.allocator.total_pages
      → page_of address / 8 < length s.allocator.memory_bitmap
  byte_inside h =
      let c : s.allocator.total_pages ≤ 8 * length s.allocator.memory_bitmap = v.covered in
      omega arith

  -- For a page of the machine the test passes and the byte is there.
  pub free_page-released :
      page_of address < s.allocator.total_pages
      → free_page address s ≡ some (tt, released s (page_of address))
  unfolding free_page unmark
  free_page-released h =
      let i : address / byte_ratio ≡ page_of address / 8 = omega arith in
      ground (
        arith,
        get_elem?-get_or s.allocator.memory_bitmap (page_of address / 8) 0xff (byte_inside h),
      )

  free_page-ignored : s.allocator.total_pages ≤ page_of address → free_page address s ≡ some (tt, s)
  unfolding free_page
  free_page-ignored h = ground arith

  released-Gives :
      page_of address < s.allocator.total_pages
      → Gives s (page_of address) (released s (page_of address))
  released-Gives h =
      let old : List ℕ = s.allocator.memory_bitmap in
      let p : ℕ = page_of address in
      record {
        reserved = is_reserved-unmark old v.bytes p (byte_inside h);
        counted = refl;
        total = refl;
        table = refl;
        memory = refl;
        valid = λ was ne. record {
          bytes = unmark-Bytes old v.bytes p (byte_inside h);
          counted =
              let c : s.allocator.free_pages ≡ zeros old = v.counted in
              ground (arith, zeros-unmark old v.bytes p (byte_inside h));
          covered = unmark_covered old p s.allocator.total_pages v.covered;
          spare = λ q l. stays_reserved old p q v.bytes (byte_inside h) (v.spare q l) (omega arith);
          null_reserved = stays_reserved old p 0 v.bytes (byte_inside h) v.null_reserved ne;
        };
        double_free = λ was v'.
            let c : s.allocator.free_pages ≡ zeros old = v.counted in
            ground (arith, zeros-unmark old v.bytes p (byte_inside h));
      }

-- On every branch: an address beyond the machine's pages is ignored; any other page becomes free.
pub free_page-Freed :
    (s : Machine) (address : ℕ) → IsValid s.allocator → Freed s address (free_page address s)
free_page-Freed s address v = elim (Bool-cases (ltb (page_of address) s.allocator.total_pages)) [
  | inl inside ↦
      let h = ltb→lt _ _ inside in
      rw (free_page-released s address v h) (freed _ h (released-Gives s address v h))
  | inr outside ↦
      let h : s.allocator.total_pages ≤ page_of address = ground arith in
      rw (free_page-ignored s address v h) (ignored h)
]

-- A page that was free and is now reserved lies among the machine's pages, and is not page 0.
module _ (s t : Machine) (p : ℕ) (v : IsValid s.allocator) (take : Takes s p t) where
  taken-lt : p < t.allocator.total_pages
  taken-lt = elim (Bool-cases (ltb p t.allocator.total_pages)) [
    | inl inside ↦ ltb→lt _ _ inside
    | inr outside ↦ ground (arith, take.was_free, take.total, v.spare p)
  ]

  release_taken :
      (u : Machine) × (free_page (p * page_size) t ≡ some (tt, u))
      × ((q : ℕ)
          → is_reserved u.allocator.memory_bitmap q ≡ is_reserved s.allocator.memory_bitmap q)
      × (u.allocator.free_pages ≡ s.allocator.free_pages)
      × IsValid u.allocator
  release_taken =
      let at : page_of (p * page_size) ≡ p = omega arith in
      let h : page_of (p * page_size) < t.allocator.total_pages = rw at taken-lt in
      let g = released-Gives t (p * page_size) take.valid h in
      (
        released t (page_of (p * page_size)),
        free_page-released t (p * page_size) take.valid h,
        λ q. ground (arith, g.reserved q, take.reserved q, take.was_free),
        omega (arith, take.counted, g.counted),
        g.valid (rw at (ground (arith, take.reserved p)))
            (ground (arith, take.was_free, v.null_reserved)),
      )

-- Freeing the page that was reserved last gives back the set of reserved pages and the count.
pub free_page-find_and_reserve_page :
    (s t : Machine) (addr : ℕ)
    → IsValid s.allocator
    → find_and_reserve_page s ≡ some (ok addr, t)
    → (u : Machine) × (free_page addr t ≡ some (tt, u))
      × ((q : ℕ)
          → is_reserved u.allocator.memory_bitmap q ≡ is_reserved s.allocator.memory_bitmap q)
      × (u.allocator.free_pages ≡ s.allocator.free_pages)
      × IsValid u.allocator
free_page-find_and_reserve_page s t addr v e =
    let (p, at, take) = Takes-of_ok s t addr v e in rw at (release_taken s t p v take)
