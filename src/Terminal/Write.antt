-- ===== src/Terminal/Write.antt =====
-- The text and the escape sequences that a `Terminal` takes, `write` of kernel/src/terminal.rs.
pub mod Escapes
pub mod Plain
pub mod Steps
pub mod Safe
pub mod Numbers
pub mod Colors
use x.Base.{
  ℕ, ◌+◌, ◌-◌, ◌*◌, ◌/◌, ◌%◌, ◌^◌, bit_or, bit_and, Bool, not, ◌&&◌, ◌||◌, ltb, leb, ◌==◌,
  if◌then◌else◌, List, [], ◌∷◌, Option, none, some, length, get_or, set, Command, pure, ◌>>=◌, ◌>>◌,
  sub_checked, u32, u16,
}
use x.Terminal.Screen.{
  vga_colors, vga_bright_colors, TerminalMode, text, escape1, escape2, first_argument,
  first_argument_end, second_argument, second_argument_end, third_argument, third_argument_end,
  fourth_argument, fourth_argument_end, fifth_argument, TerminalState, Display,
}
use x.Terminal.Lines.{reset_attributes, new_line}
use x.Terminal.Palette.{set_color, set_indexed, set_rgb}

-- `'0'..='9'`.
abbrev pub is_digit : ℕ → Bool
is_digit c = leb b'0' c && leb c b'9'

-- `arg * 10 + character as u32 - 48`, from left to right.
unfoldable pub next_digit : {S : Type 0} → (arg character : ℕ) → Command S ℕ
next_digit arg character = do
  tens ← u32 (arg * 10)
  sum ← u32 (tens + character)
  sub_checked sum 48

-- The next mode, and the colors that an `m` sets, by the mode and the character. Where the code sets
-- the mode and goes on to the next character, the mode is the result here.
unfoldable pub escape : TerminalMode → (character : ℕ) → Command TerminalState TerminalMode
unfolding next_digit set_color set_indexed set_rgb
escape text c = pure text
escape escape1 c = pure (if c == b'[' then escape2 else text)
escape escape2 c =
    if is_digit c
    then pure (first_argument (c - 48))
    else if c == b';'
    then pure (first_argument_end 0)
    else if c == b'm'
    then (λ s. some (text, reset_attributes s))
    else pure text
escape (first_argument arg) c =
    if is_digit c
    then (do a ← next_digit arg c; pure (first_argument a))
    else if c == b';'
    then pure (first_argument_end arg)
    else if c == b'm'
    then (λ s. some (text, set_color arg s))
    else pure text
escape (first_argument_end arg) c =
    if is_digit c
    then pure (second_argument arg (c - 48))
    else if c == b';'
    then pure (second_argument_end arg 0)
    else pure text
escape (second_argument arg1 arg2) c =
    if is_digit c
    then (do a ← next_digit arg2 c; pure (second_argument arg1 a))
    else if c == b';'
    then pure (second_argument_end arg1 arg2)
    else pure text
escape (second_argument_end arg1 arg2) c =
    if is_digit c
    then pure (third_argument arg1 arg2 (c - 48))
    else if c == b';'
    then pure (third_argument_end arg1 arg2 0)
    else pure text
escape (third_argument arg1 arg2 arg3) c =
    if is_digit c
    then (do a ← next_digit arg3 c; pure (third_argument arg1 arg2 a))
    else if c == b';'
    then pure (third_argument_end arg1 arg2 arg3)
    else if c == b'm'
    then (λ s. some (text, set_indexed arg1 arg2 arg3 s))
    else pure text
escape (third_argument_end arg1 arg2 arg3) c =
    if is_digit c
    then pure (fourth_argument arg1 arg2 arg3 (c - 48))
    else if c == b';'
    then pure (fourth_argument_end arg1 arg2 arg3 0)
    else pure text
escape (fourth_argument arg1 arg2 arg3 arg4) c =
    if is_digit c
    then (do a ← next_digit arg4 c; pure (fourth_argument arg1 arg2 arg3 a))
    else if c == b';'
    then pure (fourth_argument_end arg1 arg2 arg3 arg4)
    else pure text
escape (fourth_argument_end arg1 arg2 arg3 arg4) c =
    if is_digit c then pure (fifth_argument arg1 arg2 arg3 arg4 (c - 48)) else pure text
escape (fifth_argument arg1 arg2 arg3 arg4 arg5) c =
    if is_digit c
    then (do a ← next_digit arg5 c; pure (fifth_argument arg1 arg2 arg3 arg4 a))
    else if c == b'm'
    then (λ s. some (text, set_rgb arg1 arg2 arg3 arg4 arg5 s))
    else pure text

-- `self.current_state.mode = ...`.
abbrev pub with_state : TerminalState → Display → Display
with_state s d = record d { terminal = record (d.terminal) { current_state = s } }

unfoldable pub write_escape : TerminalMode → (character : ℕ) → Command Display (Unit {0})
unfolding escape
write_escape m c d = elim (escape m c d.terminal.current_state) [
  | none ↦ none
  | some (m', s) ↦ some (tt, with_state (record s { mode = m' }) d)
]

abbrev pub set_cursor_x : ℕ → Command Display (Unit {0})
set_cursor_x x d = some (tt, with_state (record (d.terminal.current_state) { cursor_x = x }) d)

-- The character at the cursor.
unfoldable pub put_char : (character : ℕ) → (i : ℕ) → Command Display (Unit {0})
put_char c i d =
    let s = d.terminal.current_state in
    if ltb i (length d.terminal.front_buffer)
    then some (
      tt,
      record d {
        terminal = record (d.terminal) {
          front_buffer = set d.terminal.front_buffer i (record {
            character = c;
            foreground_color = s.foreground_color;
            background_color = s.background_color;
          });
        };
      },
    )
    else none

-- The cursor goes right, and to the next line past the end of this one.
unfoldable pub advance_cursor : Command Display (Unit {0})
unfolding new_line
advance_cursor d = (do x ← u16 (d.terminal.current_state.cursor_x + 1); set_cursor_x x) d

unfoldable pub wrap_line : Command Display (Unit {0})
unfolding new_line
wrap_line d =
    if leb d.terminal.width d.terminal.current_state.cursor_x
    then (do set_cursor_x (d.terminal.current_state.cursor_x - 1); new_line; set_cursor_x 0) d
    else some (tt, d)

-- The index of the cursor, on `u16`.
unfoldable pub cursor_index : Command Display ℕ
cursor_index d =
    (do
      row ← u16 (d.terminal.current_state.cursor_y * d.terminal.width)
      u16 (row + d.terminal.current_state.cursor_x))
      d

unfoldable pub write_plain : (character : ℕ) → Command Display (Unit {0})
write_plain c = do i ← cursor_index; put_char c i; advance_cursor; wrap_line

unfoldable pub write_text : (character : ℕ) → Command Display (Unit {0})
unfolding new_line write_plain
write_text c d =
    if c == 0x1b
    then some (tt, with_state (record (d.terminal.current_state) { mode = escape1 }) d)
    else if c == b'\n'
    then (do new_line; set_cursor_x 0) d
    else if c == b'\r'
    then set_cursor_x 0 d
    else if c == b'\t'
    then set_cursor_x ((d.terminal.current_state.cursor_x % 8 + 1) * 8) d
    else write_plain c d

unfoldable pub write_char : (character : ℕ) → Command Display (Unit {0})
unfolding write_text write_escape
write_char c d = elim d.terminal.current_state.mode [
  | text ↦ write_text c d
  | m ↦ write_escape m c d
]

unfoldable pub write : List ℕ → Command Display (Unit {0})
unfolding write_char
write [] = pure tt
write (c ∷ cs) = do write_char c; write cs
