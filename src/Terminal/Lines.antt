-- ===== src/Terminal/Lines.antt =====
-- The lines of a `Terminal`, kernel/src/terminal.rs: `reset`, `new_line` and the scrolling.
use x.Base.{
  ℕ, ◌+◌, leb, if◌then◌else◌, List, ◌++◌, Option, none, some, length, drop, replicate, Command,
  ◌>>=◌, ◌>>◌, sub_checked, u16,
}
use x.Graphics.{clear}
use x.Terminal.Screen.{
  Display, ScreenChar, TerminalState, default_char, default_state, draw, render,
}

unfoldable pub reset : Command Display (Unit {0})
unfolding draw clear
reset d = elim (draw clear d) [
  | none ↦ none
  | some (u, e) ↦ some (
    tt,
    record e {
      terminal = record (e.terminal) {
        current_state = default_state;
        front_buffer = replicate (length e.terminal.front_buffer) default_char;
        back_buffer = replicate (length e.terminal.back_buffer) default_char;
      };
    },
  )
]

abbrev pub reset_attributes : TerminalState → TerminalState
reset_attributes s = record s { background_color = 0x000000; foreground_color = 0xFFFFFF }

-- `copy_within(width..len, 0)` and the blank row at the end.
unfoldable pub scroll : (width : ℕ) → List ScreenChar → Option (List ScreenChar)
scroll width buffer =
    if leb width (length buffer)
    then some (drop width buffer ++ replicate width default_char)
    else none

abbrev pub move_cursor : (cursor_y : ℕ) → Command Display (Unit {0})
move_cursor y d = some (
  tt,
  record d {
    terminal = record (d.terminal) {
      current_state = record (d.terminal.current_state) { cursor_y = y };
    };
  },
)

unfoldable pub scroll_screen : Command Display (Unit {0})
unfolding scroll
scroll_screen d = elim (scroll d.terminal.width d.terminal.front_buffer) [
  | none ↦ none
  | some buffer ↦ some (tt, record d { terminal = record (d.terminal) { front_buffer = buffer } })
]

unfoldable pub scroll_to : (bottom : ℕ) → Command Display (Unit {0})
unfolding scroll_screen
scroll_to bottom = do move_cursor bottom; scroll_screen

-- The cursor goes down; past the bottom the screen scrolls.
unfoldable pub enter_row : (cursor_y : ℕ) → Command Display (Unit {0})
unfolding scroll_to
enter_row y d =
    if leb d.terminal.height y
    then (sub_checked d.terminal.height 1 >>= scroll_to) d
    else move_cursor y d

unfoldable pub next_row : Command Display (Unit {0})
unfolding enter_row
next_row d = (u16 (d.terminal.current_state.cursor_y + 1) >>= enter_row) d

unfoldable pub new_line : Command Display (Unit {0})
unfolding next_row render
new_line = do next_row; render
