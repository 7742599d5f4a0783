-- ===== src/Terminal/Write/Steps.antt =====
-- One character of `write`, by the mode that it finds.
use x.Base.{ℕ, ◌≡◌, refl, ap, ◌∙◌, Bool, true, false, List, ◌∷◌, Option, some, arith}
use x.Terminal.Screen.{
  TerminalMode, text, escape1, escape2, first_argument, first_argument_end, second_argument,
  second_argument_end, third_argument, third_argument_end, fourth_argument, fourth_argument_end,
  fifth_argument, TerminalState, Display,
}
use x.Terminal.Write.{escape, with_state, write_text, write_escape, write_char, write}

abbrev pub is_text : TerminalMode → Bool
is_text text = true
is_text _ = false

-- What `write_char` chooses.
abbrev by_mode : (c : ℕ) → Display → TerminalMode → Option (Unit {0} × Display)
by_mode c d m = elim m [ text ↦ write_text c d | n ↦ write_escape n c d ]

by_mode_escape :
    (c : ℕ) (d : Display) (m : TerminalMode)
    → is_text m ≡ false
    → by_mode c d m ≡ write_escape m c d
by_mode_escape c d text e = absurd (ground arith)
by_mode_escape c d escape1 e = refl
by_mode_escape c d escape2 e = refl
by_mode_escape c d (first_argument a) e = refl
by_mode_escape c d (first_argument_end a) e = refl
by_mode_escape c d (second_argument a b) e = refl
by_mode_escape c d (second_argument_end a b) e = refl
by_mode_escape c d (third_argument a b f) e = refl
by_mode_escape c d (third_argument_end a b f) e = refl
by_mode_escape c d (fourth_argument a b f g) e = refl
by_mode_escape c d (fourth_argument_end a b f g) e = refl
by_mode_escape c d (fifth_argument a b f g h) e = refl

pub is_text-eq : (m : TerminalMode) → is_text m ≡ true → m ≡ text
is_text-eq text e = refl
is_text-eq _ e = absurd (ground arith)

module _ (c : ℕ) (d : Display) where
  pub write_char_text :
      is_text (d.terminal.current_state.mode) ≡ true → write_char c d ≡ write_text c d
  unfolding write_char
  write_char_text e = ap (by_mode c d) (is_text-eq (d.terminal.current_state.mode) e)

  pub write_char_escape :
      is_text (d.terminal.current_state.mode) ≡ false
      → write_char c d ≡ write_escape (d.terminal.current_state.mode) c d
  unfolding write_char
  write_char_escape e = by_mode_escape c d (d.terminal.current_state.mode) e

pub write_then :
    (c : ℕ) (cs : List ℕ) (d e : Display)
    → write_char c d ≡ some (tt, e)
    → write (c ∷ cs) d ≡ write cs e
unfolding write
write_then c cs d e run = ground arith

-- The state of the terminal with a mode and colors.
pub write_escape_then :
    (c : ℕ) (cs : List ℕ) (d : Display) (m : TerminalMode) (s : TerminalState)
    → is_text (d.terminal.current_state.mode) ≡ false
    → escape (d.terminal.current_state.mode) c d.terminal.current_state ≡ some (m, s)
    → write (c ∷ cs) d ≡ write cs (with_state (record s { mode = m }) d)
unfolding write_escape
write_escape_then c cs d m s e run =
    write_then c cs d (with_state (record s { mode = m }) d)
      (write_char_escape c d e ∙ rw (write_escape, run) refl)
