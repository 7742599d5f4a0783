-- ===== src/Base/Bits/Fields.antt =====
-- `&` and `|` of words that are split into a high and a low field, at every width.
use Prim.Native.Nat.{ℕ, zero, suc, ◌+◌, ◌-◌, ◌*◌, ◌/◌, ◌%◌, ◌^◌, ◌<◌, ◌≤◌, bit_and, bit_or}
use Prim.Native.Nat.{bit_and-bitwise, bit_or-bitwise}
use mathlib.Core.Path.{◌≡◌, refl, ap, sym, ◌∙◌}
use native.Mathlib.Omega.{arith}
use native.Mathlib.Nat.{pow-suc, one-le-pow, mod-lt, div-add-mod}
use x.Base.Bits.Step.{bit_or_step, bit_and_step}

zero_right : (top u : ℕ) → u ≤ top → (bit_or u 0 ≡ u) × (bit_and u 0 ≡ 0)
zero_right top zero below = (refl, refl)
zero_right zero (suc u) below = absurd (omega arith)
zero_right (suc top) (suc u) below =
    let (or, and) = zero_right top (suc u / 2) (omega arith) in
    (omega (arith, or, bit_or_step (suc u) 0), omega (arith, and, bit_and_step (suc u) 0))

pub bit_or-zero : (u : ℕ) → bit_or u 0 ≡ u
bit_or-zero u = (zero_right u u (omega arith)).0

pub bit_and-zero : (u : ℕ) → bit_and u 0 ≡ 0
bit_and-zero u = (zero_right u u (omega arith)).1

pub zero-bit_or : (u : ℕ) → bit_or 0 u ≡ u
zero-bit_or u = bit_or-bitwise 0 u

pub zero-bit_and : (u : ℕ) → bit_and 0 u ≡ 0
zero-bit_and u = bit_and-bitwise 0 u

pub pow_pos : (k : ℕ) → 0 < 2 ^ k
pow_pos k = one-le-pow k 2 (omega arith)

half_fits : (k r : ℕ) → r < 2 ^ suc k → r / 2 < 2 ^ k
half_fits k r h = omega (arith, pow-suc 2 k)

bit_and_comm_below : (top u w : ℕ) → u ≤ top → bit_and u w ≡ bit_and w u
bit_and_comm_below top zero w below = omega (arith, zero-bit_and w, bit_and-zero w)
bit_and_comm_below zero (suc u) w below = absurd (omega arith)
bit_and_comm_below (suc top) (suc u) w below = omega (
  arith,
  bit_and_step (suc u) w,
  bit_and_step w (suc u),
  bit_and_comm_below top (suc u / 2) (w / 2) (omega arith),
)

pub bit_and_comm : (u w : ℕ) → bit_and u w ≡ bit_and w u
bit_and_comm u w = bit_and_comm_below u u w (omega arith)

-- One more low digit: halving a word of `k + 1` low digits leaves one of `k`.
module _ (k hi lo : ℕ) where
  half_field : (hi * 2 ^ suc k + lo) / 2 ≡ hi * 2 ^ k + lo / 2
  half_field = omega (arith, ap (λ (t : ℕ). hi * t) (pow-suc 2 k))

  parity_field : (hi * 2 ^ suc k + lo) % 2 ≡ lo % 2
  parity_field = omega (arith, ap (λ (t : ℕ). hi * t) (pow-suc 2 k))

  regroup_field : (m : ℕ) → (hi * 2 ^ k + lo) * 2 + m ≡ hi * 2 ^ suc k + (lo * 2 + m)
  regroup_field m = omega (arith, ap (λ (t : ℕ). hi * t) (pow-suc 2 k))

-- High and low fields do not meet: the operation works on each.
pub bit_or_split :
    (k u v r s : ℕ)
    → r < 2 ^ k
    → s < 2 ^ k
    → bit_or (u * 2 ^ k + r) (v * 2 ^ k + s) ≡ bit_or u v * 2 ^ k + bit_or r s
bit_or_split zero u v zero zero hr hs =
    let eu : u * 1 + 0 ≡ u = omega arith in
    let ev : v * 1 + 0 ≡ v = omega arith in rw (eu, ev) (omega arith)
bit_or_split zero u v (suc r) s hr hs = absurd (omega arith)
bit_or_split zero u v zero (suc s) hr hs = absurd (omega arith)
bit_or_split (suc k) u v r s hr hs =
    bit_or_step (u * 2 ^ suc k + r) (v * 2 ^ suc k + s)
    ∙ rw (half_field k u r, half_field k v s, parity_field k u r, parity_field k v s)
        (rw (bit_or_split k u v (r / 2) (s / 2) (half_fits k r hr) (half_fits k s hs)) (
          regroup_field k (bit_or u v) (bit_or (r / 2) (s / 2)) _
          ∙ ap (λ (t : ℕ). bit_or u v * 2 ^ suc k + t) (sym (bit_or_step r s))))

pub bit_and_split :
    (k u v r s : ℕ)
    → r < 2 ^ k
    → s < 2 ^ k
    → bit_and (u * 2 ^ k + r) (v * 2 ^ k + s) ≡ bit_and u v * 2 ^ k + bit_and r s
bit_and_split zero u v zero zero hr hs =
    let eu : u * 1 + 0 ≡ u = omega arith in
    let ev : v * 1 + 0 ≡ v = omega arith in rw (eu, ev) (omega arith)
bit_and_split zero u v (suc r) s hr hs = absurd (omega arith)
bit_and_split zero u v zero (suc s) hr hs = absurd (omega arith)
bit_and_split (suc k) u v r s hr hs =
    bit_and_step (u * 2 ^ suc k + r) (v * 2 ^ suc k + s)
    ∙ rw (half_field k u r, half_field k v s, parity_field k u r, parity_field k v s)
        (rw (bit_and_split k u v (r / 2) (s / 2) (half_fits k r hr) (half_fits k s hs)) (
          regroup_field k (bit_and u v) (bit_and (r / 2) (s / 2)) _
          ∙ ap (λ (t : ℕ). bit_and u v * 2 ^ suc k + t) (sym (bit_and_step r s))))

-- `|` of a high field and a low one, in either order, is their sum.
pub bit_or_high_low : (k q r : ℕ) → r < 2 ^ k → bit_or (q * 2 ^ k) r ≡ q * 2 ^ k + r
bit_or_high_low k q r fits =
    ground (arith, bit_or_split k q 0 0 r (pow_pos k) fits, bit_or-zero q, zero-bit_or r)

pub bit_or_low_high : (k q r : ℕ) → r < 2 ^ k → bit_or r (q * 2 ^ k) ≡ q * 2 ^ k + r
bit_or_low_high k q r fits =
    ground (arith, bit_or_split k 0 q r 0 fits (pow_pos k), zero-bit_or q, bit_or-zero r)

-- A word is its two fields.
pub split_word : (k u : ℕ) → u ≡ u / 2 ^ k * 2 ^ k + u % 2 ^ k
split_word k u = omega (arith, div-add-mod u (2 ^ k))

ones_keep : (k r : ℕ) → r < 2 ^ k → bit_and r (2 ^ k - 1) ≡ r
ones_keep zero zero h = refl
ones_keep zero (suc r) h = absurd (omega arith)
ones_keep (suc k) r h =
    let half : (2 ^ suc k - 1) / 2 ≡ 2 ^ k - 1 = omega (arith, pow-suc 2 k, pow_pos k) in
    let odd : (2 ^ suc k - 1) % 2 ≡ 1 = omega (arith, pow-suc 2 k, pow_pos k) in
    bit_and_step r (2 ^ suc k - 1)
    ∙ rw (half, odd, ones_keep k (r / 2) (half_fits k r h)) (omega arith)

-- `&` with `k` ones keeps the low field.
pub bit_and_mask : (k u : ℕ) → bit_and u (2 ^ k - 1) ≡ u % 2 ^ k
bit_and_mask k u =
    let low : u % 2 ^ k < 2 ^ k = mod-lt u (pow_pos k) in
    let high : 2 ^ k - 1 < 2 ^ k = omega (arith, pow_pos k) in
    ap (λ (t : ℕ). bit_and t (2 ^ k - 1)) (split_word k u)
    ∙ ground (
      arith,
      bit_and_split k (u / 2 ^ k) 0 (u % 2 ^ k) (2 ^ k - 1) low high,
      bit_and-zero (u / 2 ^ k),
      ones_keep k (u % 2 ^ k) low,
    )

-- `&` with a mask that has `k` zeros at its low end drops the low field.
pub bit_and_above : (k u m : ℕ) → bit_and u (m * 2 ^ k) ≡ bit_and (u / 2 ^ k) m * 2 ^ k
bit_and_above k u m =
    let low : u % 2 ^ k < 2 ^ k = mod-lt u (pow_pos k) in
    ap (λ (t : ℕ). bit_and t (m * 2 ^ k)) (split_word k u)
    ∙ ground (
      arith,
      bit_and_split k (u / 2 ^ k) m (u % 2 ^ k) 0 low (pow_pos k),
      bit_and-zero (u % 2 ^ k),
    )

-- `&` with a field of `w` ones above `k` zeros reads that field in place.
pub bit_and_field : (k w u : ℕ) → bit_and u ((2 ^ w - 1) * 2 ^ k) ≡ u / 2 ^ k % 2 ^ w * 2 ^ k
bit_and_field k w u =
    bit_and_above k u (2 ^ w - 1) ∙ ap (λ (t : ℕ). t * 2 ^ k) (bit_and_mask w (u / 2 ^ k))
