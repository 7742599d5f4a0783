-- ===== src/Terminal/Write/Numbers.antt =====
-- Numbers of escape sequences: their digits are read back as the numbers.
use x.Base.{
  ℕ, zero, suc, ◌+◌, ◌-◌, ◌/◌, ◌%◌, ◌^◌, ◌≤◌, ◌<◌, ◌≡◌, refl, sym, ap, ◌∙◌, true, false, List, [],
  ◌∷◌, ◌++◌, some, arith,
}
use native.Mathlib.Nat.{pow-suc, div-div-eq-div-mul, div-eq_of_lt, div-le_self}
use x.Terminal.Screen.{
  TerminalMode, escape2, first_argument, first_argument_end, second_argument, second_argument_end,
  third_argument, third_argument_end, fourth_argument, fourth_argument_end, fifth_argument,
  TerminalState, Display,
}
use x.Terminal.Write.{is_digit, escape, with_state, write}
use x.Terminal.Write.Escapes.{ShortArgument, with_digit, digit_mode, escape_digit}
use x.Terminal.Write.Steps.{is_text, write_escape_then}

-- The last so many decimal digits of a number, in ASCII.
unfoldable pub decimal : (width n : ℕ) → List ℕ
decimal zero n = []
decimal (suc width) n = (48 + n / 10 ^ width % 10) ∷ decimal width n

read_so_far : (width n : ℕ) → n / 10 ^ suc width ≡ n / 10 ^ width / 10
read_so_far width n =
    ap (λ w. n / w) (pow-suc 10 width) ∙ sym (div-div-eq-div-mul n (10 ^ width) 10)

-- A display in a mode.
abbrev pub in_mode : TerminalMode → Display → Display
in_mode m d = with_state (record (d.terminal.current_state) { mode = m }) d

-- A digit in a mode.
read_digit :
    (c : ℕ) (cs : List ℕ) (d : Display) (m : TerminalMode)
    → is_digit c ≡ true
    → is_text m ≡ false
    → ShortArgument 8 m
    → write (c ∷ cs) (in_mode m d) ≡ write cs (in_mode (digit_mode m c) d)
read_digit c cs d m digit not_text short =
    let s = record (d.terminal.current_state) { mode = m } in
    write_escape_then c cs (in_mode m d) (digit_mode m c) s not_text
      (escape_digit 8 c (omega arith) digit m s short)

-- Numbers, in the modes `f` that hold the argument so far, from the mode `g` on that awaits its first
-- digit.
module _ (f : ℕ → TerminalMode) (g : TerminalMode) (f_out : (a : ℕ) → is_text (f a) ≡ false)
    (g_out : is_text g ≡ false) (f_short : (a : ℕ) → a < 10 ^ 8 → ShortArgument 8 (f a))
    (g_short : ShortArgument 8 g) (f_next : (a c : ℕ) → digit_mode (f a) c ≡ f (with_digit a c))
    (g_next : (c : ℕ) → digit_mode g c ≡ f (c - 48)) where
  more_digits :
      (width n arg : ℕ) (cs : List ℕ) (d : Display)
      → n < 10 ^ 9
      → arg ≡ n / 10 ^ width
      → write (decimal width n ++ cs) (in_mode (f arg) d) ≡ write cs (in_mode (f n) d)
  unfolding decimal
  more_digits zero n arg cs d small e =
      let same : arg ≡ n = omega (arith, e) in ap (λ a. write cs (in_mode (f a) d)) same
  more_digits (suc width) n arg cs d small e =
      let q = n / 10 ^ width in
      let c = 48 + q % 10 in
      let below : q ≤ n = div-le_self n (10 ^ width) in
      let before : arg ≡ q / 10 = e ∙ read_so_far width n in
      let digit : is_digit c ≡ true = ground arith in
      let next : with_digit arg c ≡ q = omega arith in
      read_digit c (decimal width n ++ cs) d (f arg) digit (f_out arg) (f_short arg (omega arith))
      ∙ ap (λ m. write (decimal width n ++ cs) (in_mode m d)) (f_next arg c ∙ ap f next)
      ∙ more_digits width n q cs d small refl

  pub number_lem :
      (width n : ℕ) (cs : List ℕ) (d : Display)
      → n < 10 ^ 9
      → n < 10 ^ suc width
      → write (decimal (suc width) n ++ cs) (in_mode g d) ≡ write cs (in_mode (f n) d)
  unfolding decimal
  number_lem width n cs d small fits =
      let q = n / 10 ^ width in
      let c = 48 + q % 10 in
      let digit : is_digit c ≡ true = ground arith in
      let one : q / 10 ≡ 0 = sym (read_so_far width n) ∙ div-eq_of_lt fits in
      let next : c - 48 ≡ q = omega (arith, one) in
      read_digit c (decimal width n ++ cs) d g digit g_out g_short
      ∙ ap (λ m. write (decimal width n ++ cs) (in_mode m d)) (g_next c ∙ ap f next)
      ∙ more_digits width n q cs d small refl

-- A character that goes on with the sequence, from a mode to a mode.
pub goes_on :
    (c : ℕ) (cs : List ℕ) (d : Display) (m n : TerminalMode)
    → is_text m ≡ false
    → ((s : TerminalState) → escape m c s ≡ some (n, s))
    → write (c ∷ cs) (in_mode m d) ≡ write cs (in_mode n d)
goes_on c cs d m n out next =
    write_escape_then c cs (in_mode m d) n (record (d.terminal.current_state) { mode = m }) out
      (next (record (d.terminal.current_state) { mode = m }))

module _ (d : Display) where
  pub first_number :
      (w n : ℕ) (cs : List ℕ)
      → n < 10 ^ 9
      → n < 10 ^ suc w
      → write (decimal (suc w) n ++ cs) (in_mode escape2 d)
        ≡ write cs (in_mode (first_argument n) d)
  first_number w n cs small fits =
      number_lem first_argument escape2 (λ a. refl) refl (λ a h. h) tt (λ a c. refl) (λ c. refl) w n
        cs d small fits

  pub second_number :
      (w n a : ℕ) (cs : List ℕ)
      → n < 10 ^ 9
      → n < 10 ^ suc w
      → write (decimal (suc w) n ++ cs) (in_mode (first_argument_end a) d)
        ≡ write cs (in_mode (second_argument a n) d)
  second_number w n a cs small fits =
      number_lem (second_argument a) (first_argument_end a) (λ a. refl) refl (λ a h. h) tt
        (λ a c. refl) (λ c. refl) w n cs d small fits

  pub third_number :
      (w n a b : ℕ) (cs : List ℕ)
      → n < 10 ^ 9
      → n < 10 ^ suc w
      → write (decimal (suc w) n ++ cs) (in_mode (second_argument_end a b) d)
        ≡ write cs (in_mode (third_argument a b n) d)
  third_number w n a b cs small fits =
      number_lem (third_argument a b) (second_argument_end a b) (λ a. refl) refl (λ a h. h) tt
        (λ a c. refl) (λ c. refl) w n cs d small fits

  pub fourth_number :
      (w n a b c : ℕ) (cs : List ℕ)
      → n < 10 ^ 9
      → n < 10 ^ suc w
      → write (decimal (suc w) n ++ cs) (in_mode (third_argument_end a b c) d)
        ≡ write cs (in_mode (fourth_argument a b c n) d)
  fourth_number w n a b c cs small fits =
      number_lem (fourth_argument a b c) (third_argument_end a b c) (λ a. refl) refl (λ a h. h) tt
        (λ a c. refl) (λ c. refl) w n cs d small fits

  pub fifth_number :
      (w n a b c e : ℕ) (cs : List ℕ)
      → n < 10 ^ 9
      → n < 10 ^ suc w
      → write (decimal (suc w) n ++ cs) (in_mode (fourth_argument_end a b c e) d)
        ≡ write cs (in_mode (fifth_argument a b c e n) d)
  fifth_number w n a b c e cs small fits =
      number_lem (fifth_argument a b c e) (fourth_argument_end a b c e) (λ a. refl) refl (λ a h. h)
        tt (λ a c. refl) (λ c. refl) w n cs d small fits
