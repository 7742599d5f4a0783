-- ===== src/PageAllocator/First.antt =====
-- The first free page of a bitmap, as a number, for the scans that reserve one.
use x.Base.{
  ℕ, ◌+◌, ◌*◌, ◌/◌, ◌%◌, ◌<◌, ◌≡◌, refl, ◌∙◌, true, false, List, Option, none, some, inl, inr,
  arith, Bool-cases, ==_iff, set, ◌==◌, length,
}
use x.PageAllocator.{reserve_first}
use x.PageAllocator.Bytes.{IsFirstClear, set_bit, full_byte}
use x.PageAllocator.Bitmap.{
  Bytes, byte_at, is_reserved, mark, Scan, full, found, reserve_first-Scan,
}

pub is_reserved_full : (bm : List ℕ) (p : ℕ) → byte_at bm (p / 8) ≡ 0xff → is_reserved bm p ≡ true
unfolding is_reserved
is_reserved_full bm p e = rw e (full_byte (p % 8) (omega arith))

-- The page of a byte and a bit.
module _ (bm : List ℕ) (i j : ℕ) (first : IsFirstClear (byte_at bm i) j) where
  at_byte : (i * 8 + j) / 8 ≡ i
  at_byte = let h : j < 8 = first.in_range in omega arith

  at_bit : (i * 8 + j) % 8 ≡ j
  at_bit = let h : j < 8 = first.in_range in omega arith

  found_free : is_reserved bm (i * 8 + j) ≡ false
  unfolding is_reserved
  found_free = rw (at_byte, at_bit) first.clear

  found_least :
      ((k : ℕ) → k < i → byte_at bm k ≡ 0xff) → (q : ℕ) → q < i * 8 + j → is_reserved bm q ≡ true
  found_least below q h = elim (Bool-cases (q / 8 == i)) [
    | inl same ↦ in_byte ((==_iff _ _).0 same)
    | inr other ↦ is_reserved_full bm q (below (q / 8) (ground (arith, first.in_range)))
  ]
    where
      in_byte : q / 8 ≡ i → is_reserved bm q ≡ true
      in_byte e = unfold is_reserved in rw e (first.least (q % 8) (omega arith))

  found_mark : set bm i (set_bit (byte_at bm i) j) ≡ mark bm (i * 8 + j)
  unfolding mark
  found_mark = rw (at_byte, at_bit)

-- What the scan finds: every page is reserved; or the free page with the lowest number, marked.
pub data First (bm : List ℕ) : Option (List ℕ × ℕ × ℕ) → Type 0 where
  all_reserved : ((p : ℕ) → is_reserved bm p ≡ true) → First bm none
  first_free :
      (p i j : ℕ) (bm' : List ℕ)
      → p ≡ i * 8 + j
      → p / 8 < length bm
      → is_reserved bm p ≡ false
      → ((q : ℕ) → q < p → is_reserved bm q ≡ true)
      → bm' ≡ mark bm p
      → First bm (some (bm', i, j))

Scan-First : {bm : List ℕ} {r : Option (List ℕ × ℕ × ℕ)} → Scan 0 bm r → First bm r
Scan-First {bm} (full h) = all_reserved (λ p. is_reserved_full bm p (h (p / 8)))
Scan-First {bm} (found i j m bm' h first below em ebm) =
    let e : m ≡ i = omega arith in
    rw e (
      first_free (i * 8 + j) i j bm' refl (rw (at_byte bm i j first) h) (found_free bm i j first)
        (found_least bm i j first below) (ebm ∙ found_mark bm i j first))

pub reserve_first-First : (bm : List ℕ) → Bytes bm → First bm (reserve_first 0 bm)
reserve_first-First bm b = Scan-First (reserve_first-Scan 0 bm b)
