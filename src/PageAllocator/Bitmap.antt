-- ===== src/PageAllocator/Bitmap.antt =====
-- The bitmap as a set of reserved pages, and what the scan and the two writes do to it.
use x.Base.{
  ℕ, zero, suc, ◌+◌, ◌/◌, ◌%◌, ◌<◌, ◌≡◌, refl, ap, sym, ◌∙◌, Bool, true, false, not, List, [], ◌∷◌,
  Option, none, some, inl, inr, arith, ◌==◌, ==_iff, Bool-cases, if◌then◌else◌, to_bit, length,
  get_or, set, All, All-set, get_or-set_self, get_or-set_ne,
}
use x.PageAllocator.{count_zeros, reserve_first}
use x.PageAllocator.Bytes.{
  test_bit, set_bit, clear_bit, set_bit-lt, clear_bit-lt, test_bit-set_bit, test_bit-clear_bit,
  count_zeros-set_bit, count_zeros-clear_bit, count_zeros_full, IsFirstClear,
  leading_zeros-IsFirstClear,
}

abbrev pub Bytes : List ℕ → Type 0
Bytes bm = All (λ b. b < 256) bm

-- A byte of the bitmap; beyond its end every page counts as reserved.
abbrev pub byte_at : List ℕ → ℕ → ℕ
byte_at bm i = get_or bm i 0xff

-- Page `p` is reserved.
unfoldable pub is_reserved : List ℕ → ℕ → Bool
is_reserved bm p = test_bit (byte_at bm (p / 8)) (p % 8)

-- The number of free pages.
unfoldable pub zeros : List ℕ → ℕ
zeros [] = 0
zeros (b ∷ bs) = count_zeros 8 b + zeros bs

-- The writes of the allocator, at a page.
unfoldable pub mark : List ℕ → ℕ → List ℕ
mark bm p = set bm (p / 8) (set_bit (byte_at bm (p / 8)) (p % 8))

unfoldable pub unmark : List ℕ → ℕ → List ℕ
unmark bm p = set bm (p / 8) (clear_bit (byte_at bm (p / 8)) (p % 8))

byte_at-lt : (bm : List ℕ) (i : ℕ) → Bytes bm → byte_at bm i < 256
byte_at-lt [] i b = omega arith
byte_at-lt (x ∷ xs) zero b = b.0
byte_at-lt (x ∷ xs) (suc i) b = byte_at-lt xs i b.1

zeros-set :
    (bm : List ℕ) (i v : ℕ)
    → i < length bm
    → zeros (set bm i v) + count_zeros 8 (byte_at bm i) ≡ zeros bm + count_zeros 8 v
unfolding zeros
zeros-set [] i v h = elim h [ ]
zeros-set (x ∷ xs) zero v h = omega arith
zeros-set (x ∷ xs) (suc i) v h = omega (arith, zeros-set xs i v (omega arith))

split_page : (p q : ℕ) → p / 8 ≡ q / 8 → p % 8 ≡ q % 8 → p ≡ q
split_page p q a b = omega arith

module _ (bm : List ℕ) (b : Bytes bm) (p : ℕ) (inside : p / 8 < length bm) where
  pub mark-Bytes : Bytes (mark bm p)
  unfolding mark
  mark-Bytes =
      All-set (λ b. b < 256) bm (p / 8) _ b (set_bit-lt _ _ (byte_at-lt bm (p / 8) b) (omega arith))

  pub unmark-Bytes : Bytes (unmark bm p)
  unfolding unmark
  unmark-Bytes =
      All-set (λ b. b < 256) bm (p / 8) _ b
        (clear_bit-lt _ _ (byte_at-lt bm (p / 8) b) (omega arith))

  read_write :
      (q v : ℕ)
      → test_bit (byte_at (set bm (p / 8) v) (q / 8)) (q % 8)
        ≡ (if q / 8 == p / 8 then test_bit v (q % 8) else test_bit (byte_at bm (q / 8)) (q % 8))
  read_write q v =
      ground
        (arith, get_or-set_self bm (p / 8) v 0xff inside, get_or-set_ne bm (p / 8) (q / 8) v 0xff)

  -- The writes change the page, and no other.
  pub is_reserved-mark :
      (q : ℕ) → is_reserved (mark bm p) q ≡ (if q == p then true else is_reserved bm q)
  unfolding is_reserved mark
  is_reserved-mark q = ground (
    arith,
    read_write q (set_bit (byte_at bm (p / 8)) (p % 8)),
    test_bit-set_bit (byte_at bm (p / 8)) (p % 8) (q % 8) (byte_at-lt bm (p / 8) b),
  )

  pub is_reserved-unmark :
      (q : ℕ) → is_reserved (unmark bm p) q ≡ (if q == p then false else is_reserved bm q)
  unfolding is_reserved unmark
  is_reserved-unmark q = ground (
    arith,
    read_write q (clear_bit (byte_at bm (p / 8)) (p % 8)),
    test_bit-clear_bit (byte_at bm (p / 8)) (p % 8) (q % 8) (byte_at-lt bm (p / 8) b),
  )

  pub zeros-mark : zeros (mark bm p) + to_bit (not (is_reserved bm p)) ≡ zeros bm
  unfolding is_reserved mark
  zeros-mark = omega (
    arith,
    zeros-set bm (p / 8) (set_bit (byte_at bm (p / 8)) (p % 8)) inside,
    count_zeros-set_bit (byte_at bm (p / 8)) (p % 8) (byte_at-lt bm (p / 8) b) (omega arith),
  )

  pub zeros-unmark : zeros (unmark bm p) ≡ zeros bm + to_bit (is_reserved bm p)
  unfolding is_reserved unmark
  zeros-unmark = omega (
    arith,
    zeros-set bm (p / 8) (clear_bit (byte_at bm (p / 8)) (p % 8)) inside,
    count_zeros-clear_bit (byte_at bm (p / 8)) (p % 8) (byte_at-lt bm (p / 8) b) (omega arith),
  )

-- What the scan finds: nothing, and every byte is full; or the first clear bit.
pub data Scan (base : ℕ) (bm : List ℕ) : Option (List ℕ × ℕ × ℕ) → Type 0 where
  full : ((i : ℕ) → byte_at bm i ≡ 0xff) → Scan base bm none
  found :
      (i j m : ℕ) (bm' : List ℕ)
      → i < length bm
      → IsFirstClear (byte_at bm i) j
      → ((k : ℕ) → k < i → byte_at bm k ≡ 0xff)
      → m ≡ base + i
      → bm' ≡ set bm i (set_bit (byte_at bm i) j)
      → Scan base bm (some (bm', m, j))

-- A full byte before the rest of the bitmap.
Scan-cons :
    (base x : ℕ) (xs : List ℕ) {r : Option (List ℕ × ℕ × ℕ)}
    → x ≡ 0xff
    → Scan (base + 1) xs r
    → Scan base (x ∷ xs) (elim r [ none ↦ none | some (bs, i, j) ↦ some (x ∷ bs, i, j) ])
Scan-cons base x xs e (full h) = full full_at
  where
    full_at : (i : ℕ) → byte_at (x ∷ xs) i ≡ 0xff
    full_at zero = e
    full_at (suc i) = h i
Scan-cons base x xs e (found i j m bm' h first below em ebm) =
    found (suc i) j m (x ∷ bm') (omega arith) first full_below (omega arith) (ap (λ bs. x ∷ bs) ebm)
  where
    full_below : (k : ℕ) → k < suc i → byte_at (x ∷ xs) k ≡ 0xff
    full_below zero l = e
    full_below (suc k) l = below k (omega arith)

pub reserve_first-Scan : (base : ℕ) (bm : List ℕ) → Bytes bm → Scan base bm (reserve_first base bm)
unfolding reserve_first
reserve_first-Scan base [] b = full (λ i. refl)
reserve_first-Scan base (x ∷ xs) b = elim (Bool-cases (x == 0xff)) [
  | inl e ↦ rw e (Scan-cons base x xs ((==_iff x 0xff).0 e) (reserve_first-Scan (base + 1) xs b.1))
  | inr e ↦ rw e (
      found zero _ base _ (omega arith) (leading_zeros-IsFirstClear x b.0 e)
        (λ k l. absurd (omega arith)) (omega arith) refl)
]

-- A bitmap in which every page is reserved has no zeros.
pub zeros_full : (bm : List ℕ) → Bytes bm → ((p : ℕ) → is_reserved bm p ≡ true) → zeros bm ≡ 0
unfolding zeros
zeros_full [] b h = refl
zeros_full (x ∷ xs) b h =
    omega (arith, count_zeros_full x b.0 (λ j l. head_bit j l), zeros_full xs b.1 (λ p. tail_bit p))
  where
    head_bit : (j : ℕ) → j < 8 → test_bit x j ≡ true
    head_bit j l =
        let low : j / 8 ≡ 0 = omega arith in
        let same : j % 8 ≡ j = omega arith in
        let e : is_reserved (x ∷ xs) j ≡ test_bit x j = unfold is_reserved in rw (low, same) in
        sym e ∙ h j

    tail_bit : (p : ℕ) → is_reserved xs p ≡ true
    tail_bit p =
        let up : (8 + p) / 8 ≡ suc (p / 8) = omega arith in
        let same : (8 + p) % 8 ≡ p % 8 = omega arith in
        let e : is_reserved (x ∷ xs) (8 + p) ≡ is_reserved xs p =
          unfold is_reserved in rw (up, same) in
        sym e ∙ h (8 + p)
