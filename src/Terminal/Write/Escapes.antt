-- ===== src/Terminal/Write/Escapes.antt =====
-- Escape sequences: where each mode goes, and that short numbers fit.
use x.Base.{ℕ, suc, ◌+◌, ◌-◌, ◌*◌, ◌^◌, ◌≤◌, ◌<◌, ◌≡◌, refl, true, false, Option, none, some, arith}
use native.Mathlib.Nat.{pow-le-pow_right}
use x.Terminal.Screen.{
  TerminalMode, text, escape1, escape2, first_argument, first_argument_end, second_argument,
  second_argument_end, third_argument, third_argument_end, fourth_argument, fourth_argument_end,
  fifth_argument, TerminalState,
}
use x.Terminal.Write.{is_digit, next_digit, escape}
use x.Terminal.Palette.{set_color, set_indexed, put_color, set_rgb}

-- The argument that a digit would extend has so many digits at most.
abbrev pub ShortArgument : ℕ → TerminalMode → Type 0
ShortArgument k (first_argument arg1) = arg1 < 10 ^ k
ShortArgument k (second_argument arg1 arg2) = arg2 < 10 ^ k
ShortArgument k (third_argument arg1 arg2 arg3) = arg3 < 10 ^ k
ShortArgument k (fourth_argument arg1 arg2 arg3 arg4) = arg4 < 10 ^ k
ShortArgument k (fifth_argument arg1 arg2 arg3 arg4 arg5) = arg5 < 10 ^ k
ShortArgument k _ = Unit {0}

-- A number with one more digit.
abbrev pub with_digit : (arg character : ℕ) → ℕ
with_digit arg character = arg * 10 + character - 48

-- Where a digit leads.
abbrev pub digit_mode : TerminalMode → ℕ → TerminalMode
digit_mode text c = text
digit_mode escape1 c = text
digit_mode escape2 c = first_argument (c - 48)
digit_mode (first_argument a) c = first_argument (with_digit a c)
digit_mode (first_argument_end a) c = second_argument a (c - 48)
digit_mode (second_argument a b) c = second_argument a (with_digit b c)
digit_mode (second_argument_end a b) c = third_argument a b (c - 48)
digit_mode (third_argument a b d) c = third_argument a b (with_digit d c)
digit_mode (third_argument_end a b d) c = fourth_argument a b d (c - 48)
digit_mode (fourth_argument a b d e) c = fourth_argument a b d (with_digit e c)
digit_mode (fourth_argument_end a b d e) c = fifth_argument a b d e (c - 48)
digit_mode (fifth_argument a b d e f) c = fifth_argument a b d e (with_digit f c)

module _ (k c : ℕ) (short : k < 9) (digit : is_digit c ≡ true) where
  lower : 48 ≤ c
  lower = ground arith

  upper : c ≤ 57
  upper = ground arith

  power : 10 ^ k ≤ 10 ^ 8
  power = let most : k ≤ 8 = omega arith in pow-le-pow_right (omega arith) most

  pub next_digit-short :
      {S : Type 0} (arg : ℕ) (s : S)
      → arg < 10 ^ k
      → next_digit arg c s ≡ some (with_digit arg c, s)
  unfolding next_digit
  next_digit-short arg s h = ground (arith, lower, upper, power)

  pub escape_digit :
      (m : TerminalMode) (s : TerminalState)
      → ShortArgument k m
      → escape m c s ≡ some (digit_mode m c, s)
  unfolding escape
  escape_digit text s h = refl
  escape_digit escape1 s h = ground arith
  escape_digit escape2 s h = ground arith
  escape_digit (first_argument a) s h = ground (arith, next_digit-short a s h)
  escape_digit (first_argument_end a) s h = ground arith
  escape_digit (second_argument a b) s h = ground (arith, next_digit-short b s h)
  escape_digit (second_argument_end a b) s h = ground arith
  escape_digit (third_argument a b d) s h = ground (arith, next_digit-short d s h)
  escape_digit (third_argument_end a b d) s h = ground arith
  escape_digit (fourth_argument a b d e) s h = ground (arith, next_digit-short e s h)
  escape_digit (fourth_argument_end a b d e) s h = ground arith
  escape_digit (fifth_argument a b d e f) s h = ground (arith, next_digit-short f s h)

  first_short : c - 48 < 10 ^ suc k
  first_short =
      let least : 0 ≤ k = omega arith in
      let some_power : 10 ^ 0 ≤ 10 ^ k = pow-le-pow_right (omega arith) least in
      omega (arith, upper, some_power)

  next_short : (arg : ℕ) → arg < 10 ^ k → with_digit arg c < 10 ^ suc k
  next_short arg h = omega (arith, upper, h)

  pub digit_mode-ShortArgument :
      (m : TerminalMode) → ShortArgument k m → ShortArgument (suc k) (digit_mode m c)
  digit_mode-ShortArgument text h = tt
  digit_mode-ShortArgument escape1 h = tt
  digit_mode-ShortArgument escape2 h = first_short
  digit_mode-ShortArgument (first_argument a) h = next_short a h
  digit_mode-ShortArgument (first_argument_end a) h = first_short
  digit_mode-ShortArgument (second_argument a b) h = next_short b h
  digit_mode-ShortArgument (second_argument_end a b) h = first_short
  digit_mode-ShortArgument (third_argument a b d) h = next_short d h
  digit_mode-ShortArgument (third_argument_end a b d) h = first_short
  digit_mode-ShortArgument (fourth_argument a b d e) h = next_short e h
  digit_mode-ShortArgument (fourth_argument_end a b d e) h = first_short
  digit_mode-ShortArgument (fifth_argument a b d e f) h = next_short f h

-- The cursor stays.
abbrev pub SameCursor : TerminalState → TerminalState → Type 0
SameCursor s t = (t.cursor_x ≡ s.cursor_x) × (t.cursor_y ≡ s.cursor_y)

set_color-SameCursor : (arg : ℕ) (s : TerminalState) → SameCursor s (set_color arg s)
unfolding set_color
set_color-SameCursor arg s = ground arith

put_color-SameCursor : (arg color : ℕ) (s : TerminalState) → SameCursor s (put_color arg color s)
unfolding put_color
put_color-SameCursor arg color s = ground arith

set_indexed-SameCursor : (a b c : ℕ) (s : TerminalState) → SameCursor s (set_indexed a b c s)
unfolding set_indexed
set_indexed-SameCursor a b c s = grind (arith, put_color-SameCursor)

set_rgb-SameCursor : (a b c d e : ℕ) (s : TerminalState) → SameCursor s (set_rgb a b c d e s)
unfolding set_rgb
set_rgb-SameCursor a b c d e s = grind (arith, put_color-SameCursor)

-- What another character leaves: no number that goes on.
abbrev pub Settles : TerminalState → Option (TerminalMode × TerminalState) → Type 0
Settles s none = ⊥
Settles s (some (m, t)) = ((k : ℕ) → ShortArgument k m) × SameCursor s t

pub escape-Settles :
    (m : TerminalMode) (c : ℕ) (s : TerminalState) → is_digit c ≡ false → Settles s (escape m c s)
unfolding escape
escape-Settles text c s h = (λ k. tt, (refl, refl))
escape-Settles escape1 c s h = ground arith
escape-Settles escape2 c s h = ground arith
escape-Settles (first_argument a) c s h = ground (arith, set_color-SameCursor a s)
escape-Settles (first_argument_end a) c s h = ground arith
escape-Settles (second_argument a b) c s h = ground arith
escape-Settles (second_argument_end a b) c s h = ground arith
escape-Settles (third_argument a b d) c s h = ground (arith, set_indexed-SameCursor a b d s)
escape-Settles (third_argument_end a b d) c s h = ground arith
escape-Settles (fourth_argument a b d e) c s h = ground arith
escape-Settles (fourth_argument_end a b d e) c s h = ground arith
escape-Settles (fifth_argument a b d e f) c s h = ground (arith, set_rgb-SameCursor a b d e f s)
