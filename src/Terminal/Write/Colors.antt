-- ===== src/Terminal/Write/Colors.antt =====
-- Colors: the escape sequence for a color of 24 bits is read back as the numbers written in it.
use x.Base.{
  ℕ, suc, ◌+◌, ◌*◌, ◌%◌, ◌^◌, ◌<◌, ◌≡◌, refl, ap, ◌∙◌, bit_or, Bool, true, false, List, [], ◌∷◌,
  ◌++◌, some, arith,
}
use x.Base.Bits.{bit_or_high_low, bit_and_mask}
use x.Terminal.Screen.{
  text, escape1, escape2, first_argument, first_argument_end, second_argument, second_argument_end,
  third_argument, third_argument_end, fourth_argument, fourth_argument_end, fifth_argument,
  TerminalState, Display,
}
use x.Terminal.Write.{escape, with_state, write_text, write}
use x.Terminal.Palette.{rgb, set_rgb, put_color}
use x.Terminal.Write.Steps.{is_text, write_char_text, write_then}
use x.Terminal.Write.Numbers.{
  decimal, in_mode, goes_on, first_number, second_number, third_number, fourth_number, fifth_number,
}

-- `ESC [ target ; 2 ; red ; green ; blue m`, from its end.
abbrev blue_on : (wb b : ℕ) → List ℕ
blue_on wb b = decimal (suc wb) b ++ b'm' ∷ []

abbrev green_on : (wg g wb b : ℕ) → List ℕ
green_on wg g wb b = decimal (suc wg) g ++ b';' ∷ blue_on wb b

abbrev red_on : (wr r wg g wb b : ℕ) → List ℕ
red_on wr r wg g wb b = decimal (suc wr) r ++ b';' ∷ green_on wg g wb b

abbrev kind_on : (wr r wg g wb b : ℕ) → List ℕ
kind_on wr r wg g wb b = decimal 1 2 ++ b';' ∷ red_on wr r wg g wb b

abbrev target_on : (target wr r wg g wb b : ℕ) → List ℕ
target_on target wr r wg g wb b = decimal 2 target ++ b';' ∷ kind_on wr r wg g wb b

-- Each of the last three numbers has so many digits and one more.
abbrev pub color_sequence : (target red_digits red green_digits green blue_digits blue : ℕ) → List ℕ
color_sequence target wr r wg g wb b = 0x1b ∷ b'[' ∷ target_on target wr r wg g wb b

-- The escape character in a text.
starts :
    (cs : List ℕ) (d : Display)
    → d.terminal.current_state.mode ≡ text
    → write (0x1b ∷ cs) d ≡ write cs (in_mode escape1 d)
unfolding write_text
starts cs d e =
    write_then 0x1b cs d (in_mode escape1 d) (write_char_text 0x1b d (ap is_text e) ∙ refl)

-- The bytes of a color.
abbrev pub color_of : (red green blue : ℕ) → ℕ
color_of r g b = (r % 256) * 2 ^ 16 + (g % 256) * 2 ^ 8 + b % 256

rgb-color_of : (r g b : ℕ) → rgb r g b ≡ color_of r g b
unfolding rgb
rgb-color_of r g b =
    let high : bit_or (r % 256 * 2 ^ 16) (g % 256 * 2 ^ 8) ≡ r % 256 * 2 ^ 16 + g % 256 * 2 ^ 8 =
      bit_or_high_low 16 (r % 256) (g % 256 * 2 ^ 8) (omega arith) in
    let whole : bit_or ((r % 256 * 2 ^ 8 + g % 256) * 2 ^ 8) (b % 256)
        ≡ (r % 256 * 2 ^ 8 + g % 256) * 2 ^ 8 + b % 256 =
      bit_or_high_low 8 (r % 256 * 2 ^ 8 + g % 256) (b % 256) (omega arith) in
    let same : r % 256 * 2 ^ 16 + g % 256 * 2 ^ 8 ≡ (r % 256 * 2 ^ 8 + g % 256) * 2 ^ 8 =
      omega arith in
    rw (bit_and_mask 8 r, bit_and_mask 8 g, bit_and_mask 8 b, high, same, whole) (omega arith)

-- `38` is for the foreground, `48` for the background.
abbrev pub target_of : (foreground : Bool) → ℕ
target_of true = 38
target_of false = 48

abbrev pub colored : (foreground : Bool) (color : ℕ) → TerminalState → TerminalState
colored true color s = record s { mode = text; foreground_color = color }
colored false color s = record s { mode = text; background_color = color }

ends :
    (foreground : Bool) (r g b : ℕ) (d : Display)
    → write (b'm' ∷ []) (in_mode (fifth_argument (target_of foreground) 2 r g b) d)
      ≡ some (tt, with_state (colored foreground (color_of r g b) d.terminal.current_state) d)
unfolding write set_rgb escape put_color
ends true r g b d =
    ap (λ c. some (tt, with_state (colored true c d.terminal.current_state) d)) (rgb-color_of r g b)
ends false r g b d =
    ap (λ c. some (tt, with_state (colored false c d.terminal.current_state) d))
      (rgb-color_of r g b)

target_of-lt : (foreground : Bool) → target_of foreground < 100
target_of-lt true = omega arith
target_of-lt false = omega arith

-- In the text mode, the sequence for the color of a red, a green and a blue below 10^9, with leading
-- zeros or without, sets the foreground or the background to the word of the lowest bytes of the
-- three, and leaves all else of the terminal and the framebuffer as it was.
pub write-color_sequence :
    (d : Display) (foreground : Bool) (wr r wg g wb b : ℕ)
    → d.terminal.current_state.mode ≡ text
    → r < 10 ^ 9
    → r < 10 ^ suc wr
    → g < 10 ^ 9
    → g < 10 ^ suc wg
    → b < 10 ^ 9
    → b < 10 ^ suc wb
    → write (color_sequence (target_of foreground) wr r wg g wb b) d
      ≡ some (tt, with_state (colored foreground (color_of r g b) d.terminal.current_state) d)
unfolding escape
write-color_sequence d foreground wr r wg g wb b e r_small r_fits g_small g_fits b_small b_fits =
    let target = target_of foreground in
    let known = target_of-lt foreground in
    let t5 = blue_on wb b in
    let t4 = green_on wg g wb b in
    let t3 = red_on wr r wg g wb b in
    let t2 = kind_on wr r wg g wb b in
    let t1 = target_on target wr r wg g wb b in
    starts (b'[' ∷ t1) d e
    ∙ goes_on b'[' t1 d escape1 escape2 refl (λ s. refl)
    ∙ first_number d 1 target (b';' ∷ t2) (omega arith) (omega arith)
    ∙ goes_on b';' t2 d (first_argument target) (first_argument_end target) refl (λ s. refl)
    ∙ second_number d 0 2 target (b';' ∷ t3) (omega arith) (omega arith)
    ∙ goes_on b';' t3 d (second_argument target 2) (second_argument_end target 2) refl (λ s. refl)
    ∙ third_number d wr r target 2 (b';' ∷ t4) r_small r_fits
    ∙ goes_on b';' t4 d (third_argument target 2 r) (third_argument_end target 2 r) refl (λ s. refl)
    ∙ fourth_number d wg g target 2 r (b';' ∷ t5) g_small g_fits
    ∙ goes_on b';' t5 d (fourth_argument target 2 r g) (fourth_argument_end target 2 r g) refl
        (λ s. refl)
    ∙ fifth_number d wb b target 2 r g (b'm' ∷ []) b_small b_fits
    ∙ ends foreground r g b d
