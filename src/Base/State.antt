-- ===== src/Base/State.antt =====
-- Commands: state passing with panics. An error that the caller can handle is a value, since the
-- state that the failing call leaves behind goes on; a panic stops the kernel.
use Prim.Native.Nat.{ℕ, ◌-◌, ◌^◌}
use mathlib.Core.Bool.{Bool, true, false}
use mathlib.Core.Option.{Option, none, some}
use x.Base.Tests.{leb, ltb, if◌then◌else◌}

-- `Result<A, E>` of the source.
pub data Result {ℓ κ} (E : Type ℓ) (A : Type κ) : Type (ℓ ⊔ κ) where
  ok : A → Result E A
  err : E → Result E A

-- `none` is a panic.
abbrev pub Command : Type 0 → Type 0 → Type 0
Command S A = S → Option (A × S)

module _ {S : Type 0} where
  abbrev pub pure : {A : Type 0} → A → Command S A
  pure a s = some (a, s)

  abbrev pub panic : {A : Type 0} → Command S A
  panic s = none

  infixl 5 ◌>>=◌ ◌>>◌
  abbrev pub ◌>>=◌ : {A B : Type 0} → Command S A → (A → Command S B) → Command S B
  ◌>>=◌ m f s = elim (m s) [ none ↦ none | some (a, s') ↦ f a s' ]

  abbrev pub ◌>>◌ : {B : Type 0} → Command S (Unit {0}) → Command S B → Command S B
  m >> k = m >>= λ _. k

  -- `assert!`, and `debug_assert!` of the debug build.
  abbrev pub assert : Bool → Command S (Unit {0})
  assert true s = some (tt, s)
  assert false s = none

  -- `unwrap` of an option.
  abbrev pub unwrap : {A : Type 0} → Option A → Command S A
  unwrap none s = none
  unwrap (some a) s = some (a, s)

  -- `a - b` on `usize`, which panics below zero in the debug build.
  abbrev pub sub_checked : ℕ → ℕ → Command S ℕ
  sub_checked a b = if leb b a then pure (a - b) else panic

  -- `?` on the result of a call: an error goes to the caller.
  infixl 5 ◌>>=?◌
  abbrev pub ◌>>=?◌ :
      {E A B : Type 0}
      → Command S (Result E A)
      → (A → Command S (Result E B))
      → Command S (Result E B)
  ◌>>=?◌ m f s = elim (m s) [
    | none ↦ none
    | some (ok a, t) ↦ f a t
    | some (err e, t) ↦ some (err e, t)
  ]

  -- `inspect_err`: what is run on the way out with an error.
  abbrev pub inspect_err :
      {E A : Type 0} → Command S (Result E A) → Command S (Unit {0}) → Command S (Result E A)
  inspect_err m clean s = elim (m s) [
    | none ↦ none
    | some (ok a, t) ↦ some (ok a, t)
    | some (err e, t) ↦ (clean >> pure (err e)) t
  ]

  -- The result of an addition or a multiplication on a `u32` or a `u16`, which panics when it does not
  -- fit in the debug build.
  abbrev pub u32 : ℕ → Command S ℕ
  u32 n = if ltb n (2 ^ 32) then pure n else panic

  abbrev pub u16 : ℕ → Command S ℕ
  u16 n = if ltb n (2 ^ 16) then pure n else panic
