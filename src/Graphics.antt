-- ===== src/Graphics.antt =====
-- The framebuffer of kernel/src/core_graphics.rs: a word for each pixel, row by row. Its
-- color format is never read.
pub mod Canvas
use x.Base.{
  ℕ, zero, suc, ◌+◌, ◌*◌, ltb, if◌then◌else◌, List, none, some, length, get_elem?, set, replicate,
  Command, pure, ◌>>=◌, ◌>>◌, u32,
}

pub record Framebuffer : Type 0 where
  pub buffer : List ℕ
  pub width : ℕ
  pub height : ℕ
  pub scanline_length : ℕ

unfoldable pub clear : Command Framebuffer (Unit {0})
clear f = some (tt, record f { buffer = replicate (length f.buffer) 0 })

-- The index of a pixel, on `u32`.
unfoldable pub pixel_index : (x y scanline_length : ℕ) → Command Framebuffer ℕ
pixel_index x y scanline_length = do row ← u32 (y * scanline_length); u32 (row + x)

-- The write into the slice.
unfoldable pub write_pixel : (index color : ℕ) → Command Framebuffer (Unit {0})
write_pixel index color f =
    if ltb index (length f.buffer)
    then some (tt, record f { buffer = set f.buffer index color })
    else none

unfoldable pub set_pixel : (x y color : ℕ) → Command Framebuffer (Unit {0})
unfolding pixel_index write_pixel
set_pixel x y color f = (do index ← pixel_index x y f.scanline_length; write_pixel index color) f

unfoldable pub read_pixel : (index : ℕ) → Command Framebuffer ℕ
read_pixel index f = elim (get_elem? f.buffer index) [ none ↦ none | some color ↦ some (color, f) ]

unfoldable pub get_pixel : (x y : ℕ) → Command Framebuffer ℕ
unfolding pixel_index read_pixel
get_pixel x y f = (do index ← pixel_index x y f.scanline_length; read_pixel index) f

-- The pixels of a row, from `x` on.
unfoldable pub fill_row : (count x y color : ℕ) → Command Framebuffer (Unit {0})
unfolding set_pixel
fill_row zero x y color = pure tt
fill_row (suc count) x y color = do set_pixel x y color; fill_row count (x + 1) y color

-- The rows from `y` on.
unfoldable pub fill_rows : (count x y columns color : ℕ) → Command Framebuffer (Unit {0})
unfolding fill_row
fill_rows zero x y columns color = pure tt
fill_rows (suc count) x y columns color = do
  fill_row columns x y color
  fill_rows count x (y + 1) columns color

-- The end of each range is computed on `u32`; with no rows that of the columns is not.
unfoldable pub fill_box : (x y columns rows color : ℕ) → Command Framebuffer (Unit {0})
unfolding fill_rows
fill_box x y columns rows color = do
  bottom ← u32 (y + rows)
  right ← (if ltb y bottom then u32 (x + columns) else pure x)
  fill_rows rows x y columns color
