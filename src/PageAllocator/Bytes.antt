-- ===== src/PageAllocator/Bytes.antt =====
-- Single bits of a byte of the bitmap, most significant first, checked at every byte.
use x.Base.{
  ℕ, ◌+◌, ◌-◌, ◌/◌, ◌%◌, ◌^◌, ◌<◌, bit_and, bit_or, ◌≡◌, refl, Bool, true, false, not, ◌&&◌, ◌||◌,
  arith, ltb, leb, ltb→lt, ◌==◌, ==_iff, if◌then◌else◌, to_bit,
}
use x.Base.Bits.{all_below, all_below_sound, all_below_complete}
use x.PageAllocator.{leading_zeros, count_zeros, not_u8}

-- Bit `j` of a byte, counted from the most significant.
unfoldable pub test_bit : ℕ → ℕ → Bool
test_bit b j = b / 2 ^ (7 - j) % 2 == 1

abbrev beq : Bool → Bool → Bool
beq true c = c
beq false c = not c

lt→not-leb : (a b : ℕ) → b < a → leb a b ≡ false
lt→not-leb a b h = ground arith

beq→eq : (a b : Bool) → beq a b ≡ true → a ≡ b
beq→eq a b h = ground arith

-- `b | 0x80 >> k` and `b & !(0x80 >> k)`.
abbrev pub set_bit : ℕ → ℕ → ℕ
set_bit b k = bit_or b (0x80 / 2 ^ k)

abbrev pub clear_bit : ℕ → ℕ → ℕ
clear_bit b k = bit_and b (not_u8 (0x80 / 2 ^ k))

abbrev bytes : (ℕ → ℕ → Bool) → Bool
bytes p = all_below 256 (λ b. all_below 8 (p b))

bytes_sound : (p : ℕ → ℕ → Bool) (b k : ℕ) → bytes p ≡ true → b < 256 → k < 8 → p b k ≡ true
bytes_sound p b k t hb hk =
    all_below_sound 8 (p b) k (all_below_sound 256 (λ b. all_below 8 (p b)) b t hb) hk

-- Both bytes stay bytes.
range_table :
    (bytes (λ b k. ltb (set_bit b k) 256) ≡ true) × (bytes (λ b k. ltb (clear_bit b k) 256) ≡ true)
unfolding all_below
range_table = (refl, refl)

pub set_bit-lt : (b k : ℕ) → b < 256 → k < 8 → set_bit b k < 256
set_bit-lt b k hb hk =
    ltb→lt _ _ (bytes_sound (λ b k. ltb (set_bit b k) 256) b k range_table.0 hb hk)

pub clear_bit-lt : (b k : ℕ) → b < 256 → k < 8 → clear_bit b k < 256
clear_bit-lt b k hb hk =
    ltb→lt _ _ (bytes_sound (λ b k. ltb (clear_bit b k) 256) b k range_table.1 hb hk)

-- What each bit reads after a write.
abbrev set_test : ℕ → ℕ → ℕ → Bool
set_test b k j = beq (test_bit (set_bit b k) j) (if j == k then true else test_bit b j)

abbrev clear_test : ℕ → ℕ → ℕ → Bool
clear_test b k j = beq (test_bit (clear_bit b k) j) (if j == k then false else test_bit b j)

bit_table :
    (bytes (λ b k. all_below 8 (set_test b k)) ≡ true)
    × (bytes (λ b k. all_below 8 (clear_test b k)) ≡ true)
unfolding all_below test_bit
bit_table = (refl, refl)

pub test_bit-set_bit :
    (b k j : ℕ)
    → b < 256
    → k < 8
    → j < 8
    → test_bit (set_bit b k) j ≡ (if j == k then true else test_bit b j)
test_bit-set_bit b k j hb hk hj = beq→eq _ _ (
    all_below_sound 8 (set_test b k) j
      (bytes_sound (λ b k. all_below 8 (set_test b k)) b k bit_table.0 hb hk) hj)

pub test_bit-clear_bit :
    (b k j : ℕ)
    → b < 256
    → k < 8
    → j < 8
    → test_bit (clear_bit b k) j ≡ (if j == k then false else test_bit b j)
test_bit-clear_bit b k j hb hk hj = beq→eq _ _ (
    all_below_sound 8 (clear_test b k) j
      (bytes_sound (λ b k. all_below 8 (clear_test b k)) b k bit_table.1 hb hk) hj)

-- How the number of zeros changes.
abbrev set_zeros : ℕ → ℕ → Bool
set_zeros b k = count_zeros 8 (set_bit b k) + to_bit (not (test_bit b k)) == count_zeros 8 b

abbrev clear_zeros : ℕ → ℕ → Bool
clear_zeros b k = count_zeros 8 (clear_bit b k) == count_zeros 8 b + to_bit (test_bit b k)

zeros_table : (bytes set_zeros ≡ true) × (bytes clear_zeros ≡ true)
unfolding all_below test_bit count_zeros
zeros_table = (refl, refl)

pub count_zeros-set_bit :
    (b k : ℕ)
    → b < 256
    → k < 8
    → count_zeros 8 (set_bit b k) + to_bit (not (test_bit b k)) ≡ count_zeros 8 b
count_zeros-set_bit b k hb hk = (==_iff _ _).0 (bytes_sound set_zeros b k zeros_table.0 hb hk)

pub count_zeros-clear_bit :
    (b k : ℕ)
    → b < 256
    → k < 8
    → count_zeros 8 (clear_bit b k) ≡ count_zeros 8 b + to_bit (test_bit b k)
count_zeros-clear_bit b k hb hk = (==_iff _ _).0 (bytes_sound clear_zeros b k zeros_table.1 hb hk)

-- The bit that `leading_zeros` of the complement finds: the first clear one, if the byte has one.
first_clear : ℕ → ℕ
first_clear b = leading_zeros 8 (not_u8 b)

abbrev first_test : ℕ → Bool
first_test b =
    (b == 0xff)
    || (ltb (first_clear b) 8
        && (not (test_bit b (first_clear b))
            && all_below 8 (λ j. leb (first_clear b) j || test_bit b j)))

first_table : all_below 256 first_test ≡ true
unfolding all_below test_bit first_clear leading_zeros
first_table = refl

-- `b` has a clear bit, and `k` is the first.
pub record IsFirstClear (b k : ℕ) : Type 0 where
  pub in_range : k < 8
  pub clear : test_bit b k ≡ false
  pub least : (j : ℕ) → j < k → test_bit b j ≡ true

and_left : (a b : Bool) → (a && b) ≡ true → a ≡ true
and_left a b h = ground arith

and_right : (a b : Bool) → (a && b) ≡ true → b ≡ true
and_right a b h = ground arith

or_right : (a b : Bool) → (a || b) ≡ true → a ≡ false → b ≡ true
or_right a b h e = ground arith

not-eq-true : (a : Bool) → not a ≡ true → a ≡ false
not-eq-true a h = ground arith

pub leading_zeros-IsFirstClear :
    (b : ℕ) → b < 256 → (b == 0xff) ≡ false → IsFirstClear b (leading_zeros 8 (not_u8 b))
unfolding first_clear
leading_zeros-IsFirstClear b hb partial =
    let t = or_right _ _ (all_below_sound 256 first_test b first_table hb) partial in
    let range = ltb→lt _ _ (and_left _ _ t) in
    record {
      in_range = range;
      clear = not-eq-true _ (and_left _ _ (and_right _ _ t));
      least = λ j below.
          or_right _ _
            (all_below_sound 8 (λ j. leb (first_clear b) j || test_bit b j) j
              (and_right _ _ (and_right _ _ t)) (omega arith))
            (lt→not-leb _ _ below);
    }

pub full_byte : (j : ℕ) → j < 8 → test_bit 0xff j ≡ true
unfolding test_bit all_below
full_byte j h = all_below_sound 8 (test_bit 0xff) j refl h

abbrev no_zeros : ℕ → Bool
no_zeros b = not (all_below 8 (test_bit b)) || (count_zeros 8 b == 0)

no_zeros_table : all_below 256 no_zeros ≡ true
unfolding all_below test_bit count_zeros
no_zeros_table = refl

-- A byte whose bits are all set has no zeros.
pub count_zeros_full :
    (b : ℕ) → b < 256 → ((j : ℕ) → j < 8 → test_bit b j ≡ true) → count_zeros 8 b ≡ 0
count_zeros_full b hb h =
    ground
      (arith, all_below_sound 256 no_zeros b no_zeros_table hb, all_below_complete 8 (test_bit b) h)
