-- ===== src/Terminal/Screen.antt =====
-- The characters on the screen of a `Terminal`, kernel/src/terminal.rs, and how they are drawn.
use x.Base.{
  ℕ, zero, suc, ◌+◌, ◌-◌, ◌*◌, ◌/◌, ◌%◌, ◌^◌, bit_or, Bool, ◌&&◌, leb, ◌==◌, if◌then◌else◌, List,
  [], ◌∷◌, Option, none, some, get_elem?, set, replicate, Result, ok, err, Command, pure, panic,
  ◌>>=◌, ◌>>◌, u32,
}
use x.Graphics.{Framebuffer, fill_box, set_pixel}
use x.Terminal.Font.{Font, get_character}

abbrev pub vga_colors : List ℕ
vga_colors =
    0x000000 ∷ 0xAA0000 ∷ 0x00AA00 ∷ 0xAAAA00 ∷ 0x0000AA ∷ 0xAA00AA ∷ 0x00AAAA ∷ 0xAAAAAA ∷ []

abbrev pub vga_bright_colors : List ℕ
vga_bright_colors =
    0x555555 ∷ 0xFF5555 ∷ 0x55FF55 ∷ 0xFFFF55 ∷ 0x5555FF ∷ 0xFF55FF ∷ 0x55FFFF ∷ 0xFFFFFF ∷ []

pub record ScreenChar : Type 0 where
  pub character : ℕ
  pub foreground_color : ℕ
  pub background_color : ℕ

abbrev pub default_char : ScreenChar
default_char = record { character = b' '; foreground_color = 0xFFFFFF; background_color = 0x000000 }

abbrev pub same_char : ScreenChar → ScreenChar → Bool
same_char a b =
    a.character == b.character
    && a.foreground_color == b.foreground_color
    && a.background_color == b.background_color

-- Where the terminal stands in an escape sequence, with the arguments so far.
pub data TerminalMode : Type 0 where
  text escape1 escape2 : TerminalMode
  first_argument first_argument_end : (arg1 : ℕ) → TerminalMode
  second_argument second_argument_end : (arg1 arg2 : ℕ) → TerminalMode
  third_argument third_argument_end : (arg1 arg2 arg3 : ℕ) → TerminalMode
  fourth_argument fourth_argument_end : (arg1 arg2 arg3 arg4 : ℕ) → TerminalMode
  fifth_argument : (arg1 arg2 arg3 arg4 arg5 : ℕ) → TerminalMode

pub record TerminalState : Type 0 where
  pub mode : TerminalMode
  pub cursor_x : ℕ
  pub cursor_y : ℕ
  pub foreground_color : ℕ
  pub background_color : ℕ

abbrev pub default_state : TerminalState
default_state = record {
  mode = text;
  cursor_x = 0;
  cursor_y = 0;
  foreground_color = 0xFFFFFF;
  background_color = 0x000000;
}

pub record Terminal : Type 0 where
  pub font : Font
  pub width : ℕ
  pub height : ℕ
  pub front_buffer : List ScreenChar
  pub back_buffer : List ScreenChar
  pub current_state : TerminalState

-- A terminal with `FRAMEBUFFER`, which it draws on.
pub record Display : Type 0 where
  pub framebuffer : Option Framebuffer
  pub terminal : Terminal

-- `FRAMEBUFFER.lock().as_mut().unwrap()`, and what is drawn on it.
unfoldable pub draw : Command Framebuffer (Unit {0}) → Command Display (Unit {0})
draw f d = elim d.framebuffer [
  | none ↦ none
  | some b ↦ elim (f b) [
    | none ↦ none
    | some (u, b') ↦ some (tt, record d { framebuffer = some b' })
  ]
]

-- `try_reserve_exact` of the two buffers can fail; `as u16` cuts the sizes off.
unfoldable pub new_terminal :
    (front_reserved back_reserved : Bool)
    → Option Framebuffer
    → Font
    → Option (Result (Unit {0}) Terminal)
new_terminal front_reserved back_reserved none font = none
new_terminal front_reserved back_reserved (some framebuffer) font =
    let w = framebuffer.width / font.header.width % 2 ^ 16 in
    let h = framebuffer.height / font.header.height % 2 ^ 16 in
    if leb 1 font.header.width && leb 1 font.header.height
    then some (
        if front_reserved && back_reserved
        then ok (record {
          font = font;
          width = w;
          height = h;
          front_buffer = replicate (w * h) default_char;
          back_buffer = replicate (w * h) default_char;
          current_state = default_state;
        })
        else err tt)
    else none

-- The drawing of a character at a place of the screen, on `u32`.
module _ (x_pos y_pos glyph_width glyph_height foreground background : ℕ) where
  unfoldable pub draw_bit : (line_i bit mask : ℕ) → Command Framebuffer (Unit {0})
  unfolding set_pixel
  draw_bit line_i bit mask = do
    left ← u32 (x_pos * glyph_width)
    x ← u32 (left + (7 - bit))
    top ← u32 (y_pos * glyph_height)
    y ← u32 (top + line_i)
    set_pixel x y (bit_or (mask * foreground) ((1 - mask) * background))

  -- The eight pixels of a line, from the right; the line is shifted before each of them.
  unfoldable pub draw_line : (count line_i bit line : ℕ) → Command Framebuffer (Unit {0})
  unfolding draw_bit
  draw_line zero line_i bit line = pure tt
  draw_line (suc count) line_i bit line = do
    draw_bit line_i bit (line / 2 % 2)
    draw_line count line_i (bit + 1) (line / 2)

  -- The lines of a glyph; the index panics past its end.
  unfoldable pub draw_glyph :
      (count line_i : ℕ) (char_bitmap : List ℕ) → Command Framebuffer (Unit {0})
  unfolding draw_line
  draw_glyph zero line_i char_bitmap = pure tt
  draw_glyph (suc count) line_i char_bitmap = elim (get_elem? char_bitmap line_i) [
    | none ↦ panic
    | some line ↦ do draw_line 8 line_i 0 line; draw_glyph count (line_i + 1) char_bitmap
  ]

  -- A blank is a box.
  unfoldable pub draw_blank : Command Framebuffer (Unit {0})
  unfolding fill_box
  draw_blank = do
    left ← u32 (x_pos * glyph_width)
    top ← u32 (y_pos * glyph_height)
    fill_box left top glyph_width glyph_height background

unfoldable pub draw_char : Terminal → (i : ℕ) → ScreenChar → Command Framebuffer (Unit {0})
unfolding draw_blank draw_glyph
draw_char t i c =
    let x_pos = i % t.width in
    let y_pos = i / t.width in
    let h = t.font.header in
    if c.character == b' '
    then draw_blank x_pos y_pos h.width h.height c.foreground_color c.background_color
    else draw_glyph x_pos y_pos h.width h.height c.foreground_color c.background_color h.height 0
        (get_character t.font c.character)

-- `self.back_buffer[i] = *screen_char`, at an index that has been read.
abbrev pub keep_char : (i : ℕ) → ScreenChar → Display → Display
keep_char i c d = record d {
  terminal = record (d.terminal) { back_buffer = set d.terminal.back_buffer i c };
}

-- The body of the loop of `render`.
unfoldable pub render_char : (i : ℕ) → ScreenChar → Command Display (Unit {0})
unfolding draw draw_char
render_char i c d = elim (get_elem? d.terminal.back_buffer i) [
  | none ↦ none
  | some old ↦ if same_char c old then some (tt, d) else elim (draw (draw_char d.terminal i c) d) [
    | none ↦ none
    | some (u, e) ↦ some (tt, keep_char i c e)
  ]
]

unfoldable pub render_chars : (i : ℕ) → List ScreenChar → Command Display (Unit {0})
unfolding render_char
render_chars i [] = pure tt
render_chars i (c ∷ cs) = do render_char i c; render_chars (i + 1) cs

-- The lock on the framebuffer is taken first.
unfoldable pub render : Command Display (Unit {0})
unfolding render_chars
render d = elim d.framebuffer [ none ↦ none | some b ↦ render_chars 0 d.terminal.front_buffer d ]
