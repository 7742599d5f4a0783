-- ===== src/Terminal/Write/Plain.antt =====
-- Text: a character in the text mode leaves a valid terminal.
use x.Base.{
  ℕ, ◌+◌, ◌-◌, ◌*◌, ◌%◌, ◌^◌, ◌≤◌, ◌<◌, ◌≡◌, refl, sym, subst, ◌∙◌, true, false, ltb, leb, ◌==◌,
  Option, some, Command, ◌>>◌, arith, length, set, length-set, Bool-cases, ltb→lt, inl, inr,
}
use x.Graphics.{Framebuffer}
use x.Graphics.Canvas.{cell_lt}
use x.Terminal.Screen.{TerminalMode, text, escape1, TerminalState, Display}
use x.Terminal.Lines.{new_line}
use x.Terminal.Font.{Font}
use x.Terminal.Drawable.{is_drawable, AllDrawable-set}
use x.Terminal.Render.{CanvasOf}
use x.Terminal.Rows.{
  DisplayIsValid, next_front, next_cursor_y, on_next_row, new_line_lem, length-next_front,
  AllDrawable-next_front,
}
use x.Terminal.Write.Escapes.{ShortArgument}
use x.Terminal.Write.{
  with_state, set_cursor_x, put_char, advance_cursor, wrap_line, cursor_index, write_plain,
  write_text,
}

-- A run that ends with a valid terminal, with a font and in a mode.
abbrev pub EndsIn : Font → TerminalMode → Option (Unit {0} × Display) → Type 0
EndsIn font m r =
    (e : Display) × (r ≡ some (tt, e))
    × DisplayIsValid e
    × (e.terminal.font ≡ font)
    × (e.terminal.current_state.mode ≡ m)

-- The cursor or the mode changes.
pub with_state-IsValid :
    (d : Display) (s : TerminalState)
    → DisplayIsValid d
    → s.cursor_x < d.terminal.width
    → s.cursor_y < d.terminal.height
    → DisplayIsValid (with_state s d)
with_state-IsValid d s v hx hy = record {
  buffer = v.buffer;
  shown = v.shown;
  canvas = v.canvas;
  screen = record {
    font = v.screen.font;
    wide = v.screen.wide;
    narrow = v.screen.narrow;
    countable = v.screen.countable;
    front = v.screen.front;
    drawable = v.screen.drawable;
    back = v.screen.back;
  };
  column = hx;
  row = hy;
}

-- A new line, and the cursor at its start.
abbrev pub return_line : Command Display (Unit {0})
return_line = new_line >> set_cursor_x 0

module _ (d : Display) (v : DisplayIsValid d) where
  next_row_inside : next_cursor_y d.terminal < d.terminal.height
  next_row_inside = ground (arith, v.row)

  -- The display after a new line.
  abbrev pub lined : Framebuffer → Display
  lined b = record {
    framebuffer = some b;
    terminal = record (on_next_row d.terminal) { back_buffer = next_front d.terminal };
  }

  pub lined-IsValid : (b : Framebuffer) → CanvasOf d.terminal b → DisplayIsValid (lined b)
  lined-IsValid b canvas = record {
    buffer = b;
    shown = refl;
    canvas = canvas;
    screen = record {
      font = v.screen.font;
      wide = v.screen.wide;
      narrow = v.screen.narrow;
      countable = v.screen.countable;
      front = length-next_front d v;
      drawable = AllDrawable-next_front d v;
      back = length-next_front d v;
    };
    column = v.column;
    row = next_row_inside;
  }

  pub return_line-EndsIn : EndsIn d.terminal.font (d.terminal.current_state.mode) (return_line d)
  return_line-EndsIn =
      let (b, run, canvas) = new_line_lem d v in
      let e = lined b in
      let s = record (e.terminal.current_state) { cursor_x = 0 } in
      (
        with_state s e,
        ground (arith, run),
        with_state-IsValid e s (lined-IsValid b canvas) (omega (arith, v.screen.wide))
            next_row_inside,
        refl,
        refl,
      )

module _ (d : Display) (v : DisplayIsValid d) where
  -- The index of the cursor.
  cell : ℕ
  cell = d.terminal.current_state.cursor_y * d.terminal.width + d.terminal.current_state.cursor_x

  cell-lt : cell < d.terminal.width * d.terminal.height
  unfolding cell
  cell-lt = omega (
    arith,
    cell_lt d.terminal.current_state.cursor_y d.terminal.height d.terminal.current_state.cursor_x
        d.terminal.width (v.row) (v.column),
  )

  -- The display with a character at the cursor, and the cursor at a column.
  written : (c x : ℕ) → Display
  written c x =
      let s = d.terminal.current_state in
      record d {
        terminal = record (d.terminal) {
          front_buffer = set d.terminal.front_buffer cell (record {
            character = c;
            foreground_color = s.foreground_color;
            background_color = s.background_color;
          });
          current_state = record s { cursor_x = x };
        };
      }

  written-IsValid :
      (c x : ℕ)
      → is_drawable d.terminal.font c ≡ true
      → x < d.terminal.width
      → DisplayIsValid (written c x)
  unfolding written
  written-IsValid c x can h = record {
    buffer = v.buffer;
    shown = v.shown;
    canvas = v.canvas;
    screen = record {
      font = v.screen.font;
      wide = v.screen.wide;
      narrow = v.screen.narrow;
      countable = v.screen.countable;
      front = length-set d.terminal.front_buffer cell _ ∙ v.screen.front;
      drawable =
          AllDrawable-set d.terminal.font cell _ d.terminal.front_buffer can v.screen.drawable;
      back = v.screen.back;
    };
    column = h;
    row = v.row;
  }

  cursor_index_lem : cursor_index d ≡ some (cell, d)
  unfolding cursor_index cell
  cursor_index_lem =
      let inside : cell < 2 ^ 16 = omega (arith, cell-lt, v.screen.countable) in
      ground (arith, inside)

  put_char_lem :
      (c : ℕ) → put_char c cell d ≡ some (tt, written c (d.terminal.current_state.cursor_x))
  unfolding put_char written
  put_char_lem c =
      let inside : ltb cell (length d.terminal.front_buffer) ≡ true =
        ground (arith, cell-lt, v.screen.front) in
      rw inside refl

  advance_cursor_lem :
      (c : ℕ)
      → advance_cursor (written c (d.terminal.current_state.cursor_x))
        ≡ some (tt, written c (d.terminal.current_state.cursor_x + 1))
  unfolding advance_cursor written
  advance_cursor_lem c =
      let fits : ltb (d.terminal.current_state.cursor_x + 1) (2 ^ 16) ≡ true =
        ground (arith, v.column, v.screen.narrow) in
      rw fits refl

  -- The first three steps of a character.
  write_plain_lem :
      (c : ℕ) → write_plain c d ≡ wrap_line (written c (d.terminal.current_state.cursor_x + 1))
  unfolding write_plain
  write_plain_lem c =
      let at = cursor_index_lem in
      let put = put_char_lem c in let moved = advance_cursor_lem c in ground (arith, at, put, moved)

  wrap_line_inside :
      (c x : ℕ) → x < d.terminal.width → wrap_line (written c x) ≡ some (tt, written c x)
  unfolding wrap_line written
  wrap_line_inside c x h =
      let inside : leb d.terminal.width x ≡ false = ground arith in rw inside refl

  wrap_line_end :
      (c x : ℕ) → d.terminal.width ≤ x → wrap_line (written c x) ≡ return_line (written c (x - 1))
  unfolding wrap_line written
  wrap_line_end c x h = let past : leb d.terminal.width x ≡ true = ground arith in rw past refl

  pub write_plain-EndsIn :
      (c : ℕ)
      → is_drawable d.terminal.font c ≡ true
      → EndsIn d.terminal.font (d.terminal.current_state.mode) (write_plain c d)
  unfolding written
  write_plain-EndsIn c can =
      let x = d.terminal.current_state.cursor_x + 1 in
      elim (Bool-cases (ltb x d.terminal.width)) [
        | inl inside ↦
            let h = ltb→lt x d.terminal.width inside in
            (
              written c x,
              write_plain_lem c ∙ wrap_line_inside c x h,
              written-IsValid c x can h,
              refl,
              refl,
            )
        | inr past ↦
            let h : d.terminal.width ≤ x = ground arith in
            let (e, run, valid, font, same) =
              return_line-EndsIn (written c (x - 1))
                (written-IsValid c (x - 1) can (omega (arith, v.column))) in
            (e, write_plain_lem c ∙ wrap_line_end c x h ∙ run, valid, font, same)
      ]

-- A run that ends with a valid terminal, with a font and outside of a number.
abbrev pub Ends : Font → Option (Unit {0} × Display) → Type 0
Ends font r =
    (e : Display) × (r ≡ some (tt, e))
    × DisplayIsValid e
    × (e.terminal.font ≡ font)
    × ((k : ℕ) → ShortArgument k (e.terminal.current_state.mode))

EndsIn-Ends : {font : Font} {r : Option (Unit {0} × Display)} → EndsIn font text r → Ends font r
EndsIn-Ends (e, run, valid, font, m) =
    (e, run, valid, font, λ k. subst (λ n. ShortArgument k n) (sym m) tt)

module _ (d : Display) (c : ℕ) (v : DisplayIsValid d)
    (t : d.terminal.current_state.mode ≡ text) where
  -- The cursor moves within the line.
  at_column : (x : ℕ) → x < d.terminal.width → Ends d.terminal.font (set_cursor_x x d)
  at_column x h =
      let s = d.terminal.current_state in
      (
        with_state (record s { cursor_x = x }) d,
        refl,
        with_state-IsValid d (record s { cursor_x = x }) v h (v.row),
        refl,
        λ k. subst (λ n. ShortArgument k n) (sym t) tt,
      )

  in_text :
      {r : Option (Unit {0} × Display)}
      → EndsIn d.terminal.font (d.terminal.current_state.mode) r
      → Ends d.terminal.font r
  in_text h = EndsIn-Ends (rw t at h)

  -- A character of a text.
  pub write_text-Ends : is_drawable d.terminal.font c ≡ true → Ends d.terminal.font (write_text c d)
  unfolding write_text
  write_text-Ends can =
      let s = d.terminal.current_state in
      elim (Bool-cases (c == 0x1b)) [
        | inl e ↦ rw e (
          with_state (record s { mode = escape1 }) d,
          refl,
          with_state-IsValid d (record s { mode = escape1 }) v (v.column) (v.row),
          refl,
          λ k. tt,
        )
        | inr e ↦ elim (Bool-cases (c == b'\n')) [
          | inl f ↦ rw (e, f) (in_text (return_line-EndsIn d v))
          | inr f ↦ elim (Bool-cases (c == b'\r')) [
            | inl g ↦ rw (e, f, g) (at_column 0 (omega (arith, v.screen.wide)))
            | inr g ↦ elim (Bool-cases (c == b'\t')) [
              | inl h ↦
                  rw (e, f, g, h)
                    (at_column ((s.cursor_x % 8 + 1) * 8) (omega (arith, v.screen.wide)))
              | inr h ↦ rw (e, f, g, h) (in_text (write_plain-EndsIn d v c can))
            ]
          ]
        ]
      ]
