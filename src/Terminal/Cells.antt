-- ===== src/Terminal/Cells.antt =====
-- The screen cell by cell: what `new_line` shows in each row and column.
use x.Base.{
  ℕ, ◌+◌, ◌-◌, ◌*◌, ◌≤◌, ◌<◌, ◌≡◌, refl, ap, ◌∙◌, ltb, if◌then◌else◌, some, arith, length, get_or,
  length-drop, get_or-drop, get_or-append_left, get_or-append_right, get_or-replicate, replicate,
  drop, Bool-cases, inl, inr, ltb→lt,
}
use native.Mathlib.Nat.{mul-le-mul_right}
use x.Graphics.Canvas.{cell_lt}
use x.Terminal.Screen.{ScreenChar, default_char, Terminal, Display}
use x.Terminal.Lines.{new_line}
use x.Terminal.Rows.{DisplayIsValid, scrolls, next_front, next_cursor_y, new_line_lem}
use x.Terminal.Write.Plain.{lined-IsValid}

-- The character in a row and a column.
abbrev pub cell_at : Terminal → (row column : ℕ) → ScreenChar
cell_at t row column = get_or t.front_buffer (row * t.width + column) default_char

-- What stands there after a new line.
abbrev pub cell_after : Terminal → (row column : ℕ) → ScreenChar
cell_after t row column =
    if ltb (t.current_state.cursor_y + 1) t.height
    then cell_at t row column
    else if ltb (row + 1) t.height
    then cell_at t (row + 1) column
    else default_char

module _ (t : Terminal) (row column : ℕ) (hr : row < t.height) (hc : column < t.width)
    (whole : length t.front_buffer ≡ t.width * t.height) where
  scrolled :
      get_or (scrolls t) (row * t.width + column) default_char
      ≡ (if ltb (row + 1) t.height then cell_at t (row + 1) column else default_char)
  scrolled =
      let w = t.width in
      let i = row * w + column in
      let kept = length-drop w t.front_buffer in
      let next : (row + 1) * w + column ≡ w + i = omega arith in
      let one : (row + 1) * w ≤ t.height * w = mul-le-mul_right w (omega arith) in
      elim (Bool-cases (ltb (row + 1) t.height)) [
        | inl above ↦
            let inside = cell_lt (row + 1) t.height column w (ltb→lt (row + 1) t.height above) hc in
            rw above (
              get_or-append_left (drop w t.front_buffer) (replicate w default_char) i default_char
                (omega (arith, kept, inside, whole))
              ∙ get_or-drop w i t.front_buffer default_char
              ∙ ap (λ j. get_or t.front_buffer j default_char) (omega (arith, next)))
        | inr last ↦
            let bottom : row + 1 ≡ t.height = ground arith in
            let same : t.height * w ≡ (row + 1) * w = rw bottom refl in
            rw last (
              get_or-append_right (drop w t.front_buffer) (replicate w default_char) i default_char
                (omega (arith, kept, whole, same))
              ∙ get_or-replicate w default_char (i - length (drop w t.front_buffer)) default_char
                  (omega (arith, kept, whole, same)))
      ]

  cell_after_lem :
      get_or (next_front t) (row * t.width + column) default_char ≡ cell_after t row column
  cell_after_lem = elim (Bool-cases (ltb (t.current_state.cursor_y + 1) t.height)) [
    | inl inside ↦ rw inside refl
    | inr below ↦ rw below scrolled
  ]

-- On a valid terminal, which has more than 64 columns and on its screen only blanks and characters
-- with a glyph that `get_character` can give, `new_line` ends without a panic and leaves a valid one.
-- If there is a row below the cursor, the cursor goes there and every cell stays; else the cursor
-- stays in the last row, every cell takes the character of the cell below it, and the last row is
-- blank.
pub new_line-cells :
    (d : Display)
    → DisplayIsValid d
    → (e : Display) × (new_line d ≡ some (tt, e))
      × DisplayIsValid e
      × (e.terminal.current_state.cursor_y ≡ next_cursor_y d.terminal)
      × ((row column : ℕ)
          → row < d.terminal.height
          → column < d.terminal.width
          → cell_at e.terminal row column ≡ cell_after d.terminal row column)
new_line-cells d v =
    let (b, run, canvas) = new_line_lem d v in
    (
      _,
      run,
      lined-IsValid d v b canvas,
      refl,
      λ row column hr hc. cell_after_lem d.terminal row column hr hc (v.screen.front),
    )
