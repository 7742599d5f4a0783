-- ===== src/Terminal/Palette.antt =====
-- The colors that the escape sequences of kernel/src/terminal.rs set.
use x.Base.{
  ℕ, ◌-◌, ◌*◌, ◌/◌, ◌%◌, ◌^◌, bit_or, bit_and, Bool, not, ◌&&◌, ◌||◌, leb, ◌==◌, if◌then◌else◌,
  Option, none, some, get_or,
}
use x.Terminal.Screen.{vga_colors, vga_bright_colors, TerminalState}
use x.Terminal.Lines.{reset_attributes}

-- The colors of `m` with one argument.
unfoldable pub set_color : (arg : ℕ) → TerminalState → TerminalState
set_color arg s =
    if arg == 0
    then reset_attributes s
    else if leb 30 arg && leb arg 37
    then record s { foreground_color = get_or vga_colors (arg - 30) 0 }
    else if leb 40 arg && leb arg 47
    then record s { background_color = get_or vga_colors (arg - 40) 0 }
    else s

-- A level of the color cube.
abbrev pub scale_factor : ℕ
scale_factor = 51

abbrev pub cube_color : (cube_index : ℕ) → ℕ
cube_color cube_index =
    bit_or
      (bit_or (cube_index / 36 * scale_factor * 2 ^ 16)
        (cube_index % 36 / 6 * scale_factor * 2 ^ 8))
      (cube_index % 6 * scale_factor)

abbrev pub grey_color : (grey : ℕ) → ℕ
grey_color grey = bit_or (bit_or (grey * 2 ^ 16) (grey * 2 ^ 8)) grey

-- The 256 colors; none beyond.
unfoldable pub indexed_color : (arg3 : ℕ) → Option ℕ
indexed_color arg3 =
    if leb arg3 7
    then some (get_or vga_colors arg3 0)
    else if leb arg3 15
    then some (get_or vga_bright_colors (arg3 - 8) 0)
    else if leb arg3 231
    then some (cube_color ((arg3 - 16) % 2 ^ 8))
    else if leb arg3 255
    then some (grey_color ((0xff * arg3 - 232) / 23))
    else none

-- The color that `38` and `48` name.
unfoldable pub put_color : (arg1 color : ℕ) → TerminalState → TerminalState
put_color arg1 color s =
    if arg1 == 38
    then record s { foreground_color = color }
    else record s { background_color = color }

-- `38` or `48`, and the kind of color.
abbrev pub is_color : (arg1 arg2 kind : ℕ) → Bool
is_color arg1 arg2 kind = not ((not (arg1 == 38) && not (arg1 == 48)) || not (arg2 == kind))

unfoldable pub set_indexed : (arg1 arg2 arg3 : ℕ) → TerminalState → TerminalState
unfolding indexed_color put_color
set_indexed arg1 arg2 arg3 s =
    if is_color arg1 arg2 5
    then elim (indexed_color arg3) [ none ↦ s | some color ↦ put_color arg1 color s ]
    else s

unfoldable pub rgb : (arg3 arg4 arg5 : ℕ) → ℕ
rgb arg3 arg4 arg5 =
    bit_or (bit_or (bit_and arg3 0xff * 2 ^ 16) (bit_and arg4 0xff * 2 ^ 8)) (bit_and arg5 0xff)

unfoldable pub set_rgb : (arg1 arg2 arg3 arg4 arg5 : ℕ) → TerminalState → TerminalState
unfolding rgb put_color
set_rgb arg1 arg2 arg3 arg4 arg5 s =
    if is_color arg1 arg2 2 then put_color arg1 (rgb arg3 arg4 arg5) s else s
