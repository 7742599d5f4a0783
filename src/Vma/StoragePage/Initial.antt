-- ===== src/Vma/StoragePage/Initial.antt =====
-- The bitmap of a new page, `INITIAL_USAGE_BITMAP`, and what comes of it.
use x.Base.{
  ℕ, zero, suc, ◌+◌, ◌-◌, ◌*◌, ◌/◌, ◌%◌, ◌^◌, ◌<◌, ◌≡◌, refl, ◌∙◌, Bool, true, false, not, ◌||◌,
  ltb, ltb→lt, ◌==◌, ==_iff, if◌then◌else◌, inl, inr, Bool-cases, arith, to_bit, replicate, set,
  All-set, All-replicate, get_or-set_self, get_or-set_ne, get_or-replicate, get_or-beyond,
  length-replicate, length-set,
}
use x.Base.Bits.{all_below, all_below_sound}
use x.PageAllocator.{not_u8}
use x.PageAllocator.Bytes.{test_bit, full_byte}
use x.PageAllocator.Bitmap.{Bytes, byte_at, is_reserved}
use x.Vma.StoragePage.{bitmap_len, initial_usage_bitmap}

-- The byte written at the end, for `n` entries in it.
abbrev last_byte : ℕ → ℕ
last_byte n = not_u8 (0x80 / 2 ^ (n - 1) - 1)

same_bool : Bool → Bool → Bool
same_bool true b = b
same_bool false b = not b

same_bool→eq : (a b : Bool) → same_bool a b ≡ true → a ≡ b
unfolding same_bool
same_bool→eq a b h = ground arith

abbrev last_test : ℕ → ℕ → Bool
last_test n j = (n == 0) || same_bool (test_bit (last_byte n) j) (ltb j n)

last_table : all_below 8 (λ n. all_below 8 (last_test n)) ≡ true
unfolding all_below test_bit same_bool
last_table = refl

-- Its first `n` bits are set, those of the entries, and the bits past the entries are clear.
last_byte_bits : (n j : ℕ) → 0 < n → n < 8 → j < 8 → test_bit (last_byte n) j ≡ ltb j n
last_byte_bits n j pos hn hj =
    let t =
      all_below_sound 8 (last_test n) j
        (all_below_sound 8 (λ n. all_below 8 (last_test n)) n last_table hn) hj in
    same_bool→eq _ _ (ground (arith, t))

zero_bits : (j : ℕ) → j < 8 → test_bit 0 j ≡ false
unfolding test_bit
zero_bits j h = ground arith

-- A page of `8 * k + n` entries, the last byte of whose bitmap is shared.
module _ (k n : ℕ) (pos : 0 < n) (below : n < 8) where
  abbrev max : ℕ
  max = 8 * k + n

  written : initial_usage_bitmap max ≡ set (replicate (suc k) 0) k (last_byte n)
  unfolding initial_usage_bitmap bitmap_len
  written =
      let high : max / 8 ≡ k = omega arith in
      let low : max % 8 ≡ n = omega arith in
      let shared : (n == 0) ≡ false = ground arith in
      let one : k + to_bit (ltb 0 n) ≡ suc k = ground arith in
      let last : suc k - 1 ≡ k = omega arith in rw (high, low, shared, one, last)

  byte_below : (i : ℕ) → i < k → byte_at (initial_usage_bitmap max) i ≡ 0
  byte_below i h = rw written (
      get_or-set_ne (replicate (suc k) 0) k i (last_byte n) 0xff (omega arith)
      ∙ get_or-replicate (suc k) 0 i 0xff (omega arith))

  byte_last : byte_at (initial_usage_bitmap max) k ≡ last_byte n
  byte_last = rw written (
      get_or-set_self (replicate (suc k) 0) k (last_byte n) 0xff
        (omega (arith, length-replicate (suc k) zero)))

  byte_above : (i : ℕ) → k < i → byte_at (initial_usage_bitmap max) i ≡ 0xff
  byte_above i h = rw written (
      get_or-beyond (set (replicate (suc k) 0) k (last_byte n)) i 0xff (
        omega
          (arith, length-replicate (suc k) zero, length-set (replicate (suc k) 0) k (last_byte n))))

  -- The entries of the full bytes are free, and those of the last byte are in use from the start;
  -- the bits past the entries are clear.
  pub initial_usage_bitmap_lem :
      (q : ℕ)
      → is_reserved (initial_usage_bitmap max) q
        ≡ (if ltb q (8 * k) then false else if ltb q max then true else not (ltb q (8 * k + 8)))
  unfolding is_reserved
  initial_usage_bitmap_lem q = elim (Bool-cases (ltb (q / 8) k)) [
    | inl low ↦
        rw (byte_below (q / 8) (ltb→lt _ _ low), zero_bits (q % 8) (omega arith)) (ground arith)
    | inr high ↦ elim (Bool-cases (q / 8 == k)) [
      | inl same ↦
          let e : q / 8 ≡ k = (==_iff _ _).0 same in
          rw (e, byte_last, last_byte_bits n (q % 8) pos below (omega arith)) (ground arith)
      | inr above ↦
          rw (byte_above (q / 8) (ground arith), full_byte (q % 8) (omega arith)) (ground arith)
    ]
  ]

  pub initial-Bytes : Bytes (initial_usage_bitmap max)
  initial-Bytes = rw written (
      All-set (λ b. b < 256) (replicate (suc k) 0) k (last_byte n)
        (All-replicate (λ b. b < 256) (suc k) 0 (omega arith)) (omega arith))
