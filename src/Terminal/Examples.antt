-- ===== src/Terminal/Examples.antt =====
-- A terminal of two rows of 65 characters, one pixel high, with as many glyphs as the kernel's font,
-- and the theorems at it.
use x.Base.{
  ℕ, zero, suc, ◌+◌, ◌*◌, ◌/◌, ◌%◌, get_or, ◌≡◌, refl, true, List, [], ◌∷◌, some, arith,
  length-replicate, replicate, ◌<◌,
}
use x.Graphics.{Framebuffer}
use x.Terminal.Font.{Font, glyph_index}
use x.Terminal.Screen.{ScreenChar, default_char, default_state, Terminal, Display, render}
use x.Terminal.Lines.{new_line}
use x.Terminal.Drawable.{FontIsValid, AllDrawable-default}
use x.Terminal.Render.{ScreenIsValid, CanvasOf, Shows, render-Renders}
use x.Terminal.Rows.{DisplayIsValid, next_cursor_y}
use x.Terminal.Cells.{cell_at, cell_after, new_line-cells}
use x.Terminal.Write.{with_state, write}
use x.Terminal.Write.Safe.{short_numbers, all_drawable, write-IsValid}
use x.Terminal.Write.Colors.{color_sequence, color_of, colored, target_of, write-color_sequence}

abbrev font : Font
font = record {
  header = record {
    magic = 0x864AB572;
    version = 0;
    header_size = 32;
    flags = 0;
    num_glyphs = 128;
    bytes_per_glyph = 16;
    height = 1;
    width = 8;
  };
  font_data = replicate 2048 0xff;
}

abbrev letter : ScreenChar
letter = record { character = b'A'; foreground_color = 0xffffff; background_color = 0 }

abbrev terminal : Terminal
terminal = record {
  font = font;
  width = 65;
  height = 2;
  front_buffer = letter ∷ replicate 129 default_char;
  back_buffer = replicate 130 default_char;
  current_state = default_state;
}

abbrev framebuffer : Framebuffer
framebuffer = record { buffer = replicate 1040 0; width = 520; height = 2; scanline_length = 520 }

abbrev display : Display
display = record { framebuffer = some framebuffer; terminal = terminal }

font-IsValid : FontIsValid font
font-IsValid = record { bytes = refl; wide = omega arith; high = omega arith }

terminal-IsValid : ScreenIsValid terminal
unfolding glyph_index
terminal-IsValid = record {
  font = font-IsValid;
  wide = omega arith;
  narrow = omega arith;
  countable = omega arith;
  drawable = (refl, AllDrawable-default font 129);
  front = omega (arith, length-replicate 129 default_char);
  back = omega (arith, length-replicate 130 default_char);
}

terminal-Canvas : CanvasOf terminal framebuffer
terminal-Canvas = record {
  columns_fit = omega arith;
  rows_fit = omega (arith, length-replicate {A = ℕ} 1040 0);
  area_small = omega arith;
  columns_small = omega arith;
  rows_small = omega arith;
}

display-IsValid : DisplayIsValid display
display-IsValid = record {
  buffer = framebuffer;
  shown = refl;
  canvas = terminal-Canvas;
  screen = terminal-IsValid;
  column = omega arith;
  row = omega arith;
}

get_or-replicate_default : {A : Type 0} (n i : ℕ) (a : A) → get_or (replicate n a) i a ≡ a
get_or-replicate_default zero i a = refl
get_or-replicate_default (suc n) zero a = refl
get_or-replicate_default (suc n) (suc i) a = get_or-replicate_default n i a

-- A black framebuffer shows blanks.
blank_shown : Shows terminal framebuffer terminal.back_buffer
blank_shown i x y hi hx hy =
    rw (get_or-replicate_default 130 i default_char)
      (get_or-replicate_default {A = ℕ} 1040 ((i / 65 * 1 + y) * 520 + (i % 65 * 8 + x)) 0)

render-Renders_example :
    (b : Framebuffer) × (render display
      ≡ some (
        tt,
        record {
          framebuffer = some b;
          terminal = record terminal { back_buffer = terminal.front_buffer };
        },
      ))
    × CanvasOf terminal b
    × Shows terminal b terminal.front_buffer
render-Renders_example =
    render-Renders display framebuffer refl terminal-IsValid terminal-Canvas blank_shown

new_line-cells_example :
    (e : Display) × (new_line display ≡ some (tt, e))
    × DisplayIsValid e
    × (e.terminal.current_state.cursor_y ≡ next_cursor_y terminal)
    × ((row column : ℕ)
        → row < 2
        → column < 65
        → cell_at e.terminal row column ≡ cell_after terminal row column)
new_line-cells_example = new_line-cells display display-IsValid

-- `Hi`, in red, and a new line.
abbrev greeting : List ℕ
greeting = 0x1b ∷ b'[' ∷ b'3' ∷ b'1' ∷ b'm' ∷ b'H' ∷ b'i' ∷ b'\n' ∷ []

write-IsValid_example : (e : Display) × (write greeting display ≡ some (tt, e)) × DisplayIsValid e
unfolding short_numbers all_drawable glyph_index
write-IsValid_example = write-IsValid display greeting display-IsValid refl refl refl

write-color_sequence_example :
    write (color_sequence (target_of true) 2 255 2 128 0 7) display
    ≡ some (tt, with_state (colored true (color_of 255 128 7) default_state) display)
write-color_sequence_example =
    write-color_sequence display true 2 255 2 128 0 7 refl (omega arith) (omega arith) (omega arith)
      (omega arith) (omega arith) (omega arith)
