-- ===== src/Terminal/Rows.antt =====
-- Lines of the terminal: `new_line` goes to the next row, or scrolls the screen.
use x.Base.{
  ℕ, ◌+◌, ◌-◌, ◌*◌, ◌^◌, ◌≤◌, ◌<◌, ◌≡◌, true, false, ltb, leb, List, ◌++◌, if◌then◌else◌, some,
  arith, length, length-append, length-drop, length-replicate, drop, replicate, Bool-cases, inl,
  inr,
}
use native.Mathlib.Nat.{mul-le-mul_right}
use x.Graphics.{Framebuffer}
use x.Terminal.Screen.{ScreenChar, default_char, Terminal, Display}
use x.Terminal.Lines.{scroll, scroll_screen, scroll_to, enter_row, next_row, new_line}
use x.Terminal.Drawable.{AllDrawable, AllDrawable-append, AllDrawable-drop, AllDrawable-default}
use x.Terminal.Render.{ScreenIsValid, CanvasOf, render_lem}

-- A terminal whose cursor is on its screen, and a framebuffer with room for it.
pub record DisplayIsValid (d : Display) : Type 0 where
  pub buffer : Framebuffer
  pub shown : d.framebuffer ≡ some buffer
  pub canvas : CanvasOf d.terminal buffer
  pub screen : ScreenIsValid d.terminal
  pub column : d.terminal.current_state.cursor_x < d.terminal.width
  pub row : d.terminal.current_state.cursor_y < d.terminal.height

-- The front buffer and the row of the cursor, one line on.
abbrev pub scrolls : Terminal → List ScreenChar
scrolls t = drop t.width t.front_buffer ++ replicate t.width default_char

abbrev pub next_front : Terminal → List ScreenChar
next_front t = if ltb (t.current_state.cursor_y + 1) t.height then t.front_buffer else scrolls t

abbrev pub next_cursor_y : Terminal → ℕ
next_cursor_y t =
    if ltb (t.current_state.cursor_y + 1) t.height
    then t.current_state.cursor_y + 1
    else t.current_state.cursor_y

abbrev pub on_next_row : Terminal → Terminal
on_next_row t = record t {
  front_buffer = next_front t;
  current_state = record (t.current_state) { cursor_y = next_cursor_y t };
}

one_row : (w h : ℕ) → 1 ≤ h → w ≤ w * h
one_row w h l = let row : 1 * w ≤ h * w = mul-le-mul_right w l in omega (arith, row)

few_rows : (w h : ℕ) → 64 < w → w * h ≤ 2 ^ 16 → h < 2 ^ 16
few_rows w h l small =
    let rows : 65 * h ≤ w * h = mul-le-mul_right h (omega arith) in omega (arith, rows)

module _ (d : Display) (v : DisplayIsValid d) where
  full_row : leb d.terminal.width (length d.terminal.front_buffer) ≡ true
  full_row =
      let one = one_row d.terminal.width d.terminal.height (omega (arith, v.row)) in
      ground (arith, v.screen.front, one)

  next_row_lem : next_row d ≡ some (tt, record d { terminal = on_next_row d.terminal })
  unfolding next_row enter_row scroll_to scroll_screen scroll
  next_row_lem =
      let y = d.terminal.current_state.cursor_y in
      let few = few_rows d.terminal.width d.terminal.height v.screen.wide v.screen.countable in
      let fits : ltb (y + 1) (2 ^ 16) ≡ true = ground (arith, v.row, few) in
      elim (Bool-cases (ltb (y + 1) d.terminal.height)) [
        | inl inside ↦
            let above : leb d.terminal.height (y + 1) ≡ false = ground arith in
            ground (arith, fits, above, inside)
        | inr below ↦
            let past : leb d.terminal.height (y + 1) ≡ true = ground arith in
            let some_rows : leb 1 d.terminal.height ≡ true = ground (arith, v.row) in
            let last : d.terminal.height - 1 ≡ y = ground (arith, v.row) in
            ground (arith, fits, past, below, some_rows, full_row, last)
      ]

  pub length-next_front : length (next_front d.terminal) ≡ d.terminal.width * d.terminal.height
  length-next_front =
      let w = d.terminal.width in
      let front = d.terminal.front_buffer in
      let one = one_row w d.terminal.height (omega (arith, v.row)) in
      let kept = length-drop w front in
      let new = length-replicate w default_char in
      let whole = length-append (drop w front) (replicate w default_char) in
      elim (Bool-cases (ltb (d.terminal.current_state.cursor_y + 1) d.terminal.height)) [
        | inl inside ↦ rw inside (v.screen.front)
        | inr below ↦ rw below (omega (arith, whole, kept, new, one, v.screen.front))
      ]

  pub AllDrawable-next_front : AllDrawable d.terminal.font (next_front d.terminal)
  AllDrawable-next_front =
      let w = d.terminal.width in
      elim (Bool-cases (ltb (d.terminal.current_state.cursor_y + 1) d.terminal.height)) [
        | inl inside ↦ rw inside v.screen.drawable
        | inr below ↦ rw below (
            AllDrawable-append d.terminal.font (drop w d.terminal.front_buffer)
              (replicate w default_char)
              (AllDrawable-drop d.terminal.font w d.terminal.front_buffer v.screen.drawable)
              (AllDrawable-default d.terminal.font w))
      ]

  pub new_line_lem :
      (b : Framebuffer) × (new_line d
        ≡ some (
          tt,
          record {
            framebuffer = some b;
            terminal = record (on_next_row d.terminal) { back_buffer = next_front d.terminal };
          },
        ))
      × CanvasOf d.terminal b
  unfolding new_line
  new_line_lem =
      let t = on_next_row d.terminal in
      let (b, run, canvas, shows) =
        render_lem (record d { terminal = t }) (v.buffer) (v.shown)
          (record {
            font = v.screen.font;
            wide = v.screen.wide;
            narrow = v.screen.narrow;
            countable = v.screen.countable;
            front = length-next_front;
            drawable = AllDrawable-next_front;
            back = v.screen.back;
          })
          (v.canvas) in
      (b, ground (arith, next_row_lem, run), canvas)
