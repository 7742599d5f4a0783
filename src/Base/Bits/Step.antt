-- ===== src/Base/Bits/Step.antt =====
-- The native `&` and `|` read their operands digit by digit, on fuel. Here the fuel goes away.
use Prim.Native.Nat.{min, max, digits, bit_and-bitwise, bit_or-bitwise}
use Prim.Native.Nat.{ℕ, zero, suc, ◌+◌, ◌*◌, ◌/◌, ◌%◌, ◌≤◌, bit_and, bit_or}
use mathlib.Core.Path.{◌≡◌, refl}
use native.Mathlib.Omega.{arith}

module _ (rest : ℕ → ℕ) (op : ℕ → ℕ → ℕ) where
  -- As much fuel as the first operand is worth gives the same as any larger amount; `top` bounds
  -- the operand for the induction.
  own_fuel :
      (top fuel u w : ℕ) → u ≤ top → u ≤ fuel → digits rest op fuel u w ≡ digits rest op u u w
  own_fuel top zero zero w below enough = refl
  own_fuel top (suc fuel) zero w below enough = refl
  own_fuel top zero (suc u) w below enough = absurd (omega arith)
  own_fuel zero (suc fuel) (suc u) w below enough = absurd (omega arith)
  own_fuel (suc top) (suc fuel) (suc u) w below enough = omega (
    arith,
    own_fuel top fuel (suc u / 2) (w / 2) (omega arith) (omega arith),
    own_fuel top u (suc u / 2) (w / 2) (omega arith) (omega arith),
  )

pub bit_and_step : (u w : ℕ) → bit_and u w ≡ bit_and (u / 2) (w / 2) * 2 + min (u % 2) (w % 2)
bit_and_step zero w = omega (arith, bit_and-bitwise 0 w, bit_and-bitwise 0 (w / 2))
bit_and_step (suc u) w = omega (
  arith,
  bit_and-bitwise (suc u) w,
  bit_and-bitwise (suc u / 2) (w / 2),
  own_fuel (λ y. 0) min u u (suc u / 2) (w / 2) (omega arith) (omega arith),
)

pub bit_or_step : (u w : ℕ) → bit_or u w ≡ bit_or (u / 2) (w / 2) * 2 + max (u % 2) (w % 2)
bit_or_step zero w = omega (arith, bit_or-bitwise 0 w, bit_or-bitwise 0 (w / 2))
bit_or_step (suc u) w = omega (
  arith,
  bit_or-bitwise (suc u) w,
  bit_or-bitwise (suc u / 2) (w / 2),
  own_fuel (λ y. y) max u u (suc u / 2) (w / 2) (omega arith) (omega arith),
)
