-- ===== src/Base/Bits/Tables.antt =====
-- Statements about a small range, checked at every value by evaluation.
use Prim.Native.Nat.{ℕ, zero, suc, ◌<◌}
use mathlib.Core.Path.{◌≡◌, refl}
use mathlib.Core.Bool.{Bool, true, ◌&&◌}
use native.Mathlib.Omega.{arith}

unfoldable pub all_below : ℕ → (ℕ → Bool) → Bool
all_below zero p = true
all_below (suc n) p = p n && all_below n p

pub all_below_sound : (n : ℕ) (p : ℕ → Bool) (v : ℕ) → all_below n p ≡ true → v < n → p v ≡ true
unfolding all_below
all_below_sound zero p v h lt = absurd (omega arith)
all_below_sound (suc n) p v h lt = ground (arith, all_below_sound n p v)

pub all_below_complete :
    (n : ℕ) (p : ℕ → Bool) → ((v : ℕ) → v < n → p v ≡ true) → all_below n p ≡ true
unfolding all_below
all_below_complete zero p h = refl
all_below_complete (suc n) p h =
    ground (arith, h n (omega arith), all_below_complete n p (λ v l. h v (omega arith)))
