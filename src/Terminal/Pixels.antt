-- ===== src/Terminal/Pixels.antt =====
-- The pixels of a character on the screen, and what drawing it leaves of the other characters.
use x.Base.{
  ℕ, ◌+◌, ◌-◌, ◌*◌, ◌/◌, ◌%◌, ◌≤◌, ◌<◌, ◌≡◌, ◌≢◌, refl, sym, ap, ◌∙◌, true, false, leb, ltb, ◌==◌,
  ◌&&◌, if◌then◌else◌, List, some, none, arith, get_or, Bool-cases, inl, inr,
}
use native.Mathlib.Nat.{mod-lt, div-lt_iff_lt-mul, div-add-mod}
use x.Graphics.{Framebuffer}
use x.Graphics.Canvas.{Canvas, Ink, over, box_ink, pixel_at, cell_lt, same_place}
use x.Terminal.Font.{Font, get_character}
use x.Terminal.Screen.{ScreenChar, Terminal, draw_char}
use x.Terminal.Drawable.{FontIsValid, is_drawable, length-get_character}
use x.Terminal.Draw.{bit_color, glyph_ink, draw_glyph-Paints, draw_blank-Paints}

-- The color of a pixel of a character: the background for a blank, else by the bit of its glyph.
abbrev pub char_pixel : Font → ScreenChar → (x y : ℕ) → ℕ
char_pixel font c x y =
    if c.character == b' '
    then c.background_color
    else bit_color c.foreground_color c.background_color
        (get_or (get_character font c.character) y 0) x

-- The pixel of the framebuffer in the cell with an index.
abbrev pub cell_pixel : Terminal → Framebuffer → (i x y : ℕ) → ℕ
cell_pixel t b i x y =
    pixel_at b (i % t.width * t.font.header.width + x) (i / t.width * t.font.header.height + y)

-- A pixel in a box that is a cell is in that cell.
box-cell :
    (p n o g : ℕ) → o < g → (leb (n * g) (p * g + o) && ltb (p * g + o) (n * g + g)) ≡ true → p ≡ n
box-cell p n o g h b =
    let k = p * g + o - n * g in
    let small : k < g = ground (arith, b) in
    let at : p * g + o ≡ n * g + k = ground (arith, b) in (same_place p n g o k h small at).0

-- What drawing the character does: its cell shows it, and the other cells what they did.
abbrev pub DrawsChar : Terminal → (i : ℕ) → ScreenChar → Framebuffer → Framebuffer → Type 0
DrawsChar t i c f f' =
    ((x y : ℕ) → x < 8 → y < t.font.header.height → cell_pixel t f' i x y ≡ char_pixel t.font c x y)
    × ((j x y : ℕ)
        → j < t.width * t.height
        → j ≢ i
        → x < 8
        → y < t.font.header.height
        → cell_pixel t f' j x y ≡ cell_pixel t f j x y)

glyph_outside :
    (left top w h foreground background : ℕ) (glyph : List ℕ) (x y : ℕ)
    → 8 ≤ w
    → ((leb top y && ltb y (top + h)) && (leb left x && ltb x (left + w))) ≡ false
    → glyph_ink left top 0 h foreground background glyph x y ≡ none
glyph_outside left top w h foreground background glyph x y wide out = ground arith

module _ (t : Terminal) (columns rows i : ℕ) (c : ScreenChar) (v : FontIsValid t.font)
    (can : is_drawable t.font c.character ≡ true) (pos : 0 < t.width) (hi : i < t.width * t.height)
    (fx : t.width * t.font.header.width ≤ columns)
    (fy : t.height * t.font.header.height ≤ rows) where
  column_lt : (j : ℕ) → j % t.width < t.width
  column_lt j = mod-lt j pos

  row_lt : (j : ℕ) → j < t.width * t.height → j / t.width < t.height
  row_lt j h = (div-lt_iff_lt-mul pos).1 (omega (arith, h))

  same_cell : (j : ℕ) → j % t.width ≡ i % t.width → j / t.width ≡ i / t.width → j ≡ i
  same_cell j a b = sym (div-add-mod j t.width) ∙ rw (a, b) (div-add-mod i t.width)

  -- Where a box in the cell is inked, and the others are not.
  within :
      (ink : Ink) (f f' : Framebuffer)
      → ((x y : ℕ) → x < columns → y < rows → pixel_at f' x y ≡ over (ink x y) (pixel_at f x y))
      → ((x y : ℕ)
          → x < 8
          → y < t.font.header.height
          → ink (i % t.width * t.font.header.width + x) (i / t.width * t.font.header.height + y)
            ≡ some (char_pixel t.font c x y))
      → ((j x y : ℕ)
          → j ≢ i
          → x < 8
          → y < t.font.header.height
          → ink (j % t.width * t.font.header.width + x) (j / t.width * t.font.header.height + y)
            ≡ none)
      → DrawsChar t i c f f'
  within ink f f' painted inside outside = (
    λ x y hx hy.
        painted _ _ (place_x i x hx) (place_y i y hi hy)
        ∙ ap (λ o. over o (cell_pixel t f i x y)) (inside x y hx hy),
    λ j x y hj ne hx hy.
        painted _ _ (place_x j x hx) (place_y j y hj hy)
        ∙ ap (λ o. over o (cell_pixel t f j x y)) (outside j x y ne hx hy),
  )
    where
      place_x : (j x : ℕ) → x < 8 → j % t.width * t.font.header.width + x < columns
      place_x j x h = omega (
        arith,
        cell_lt (j % t.width) t.width x t.font.header.width (column_lt j) (omega (arith, v.wide)),
        fx,
      )

      place_y :
          (j y : ℕ)
          → j < t.width * t.height
          → y < t.font.header.height
          → j / t.width * t.font.header.height + y < rows
      place_y j y hj h =
          omega (arith, cell_lt (j / t.width) t.height y t.font.header.height (row_lt j hj) h, fy)

  -- The box of the cell does not touch another.
  apart :
      (j x y : ℕ)
      → j ≢ i
      → x < 8
      → y < t.font.header.height
      → let w = t.font.header.width in
        let h = t.font.header.height in
        ((leb (i / t.width * h) (j / t.width * h + y)
            && ltb (j / t.width * h + y) (i / t.width * h + h))
          && (leb (i % t.width * w) (j % t.width * w + x)
              && ltb (j % t.width * w + x) (i % t.width * w + w)))
        ≡ false
  apart j x y ne hx hy =
      let w = t.font.header.width in
      let h = t.font.header.height in
      elim (Bool-cases (
        leb (i / t.width * h) (j / t.width * h + y)
        && ltb (j / t.width * h + y) (i / t.width * h + h))) [
          | inr above ↦ rw above refl
          | inl row ↦
              elim (Bool-cases (
                leb (i % t.width * w) (j % t.width * w + x)
                && ltb (j % t.width * w + x) (i % t.width * w + w))) [
                  | inr beside ↦ rw (row, beside) refl
                  | inl column ↦ absurd (
                      ne (
                        same_cell j
                          (box-cell (j % t.width) (i % t.width) x w (omega (arith, v.wide)) column)
                          (box-cell (j / t.width) (i / t.width) y h hy row)))
                ]
        ]

  -- The glyph of a character in its cell.
  glyph_in :
      (x y : ℕ)
      → x < 8
      → y < t.font.header.height
      → (c.character == b' ') ≡ false
      → let left = i % t.width * t.font.header.width in
        let top = i / t.width * t.font.header.height in
        glyph_ink left top 0 t.font.header.height c.foreground_color c.background_color
          (get_character t.font c.character)
          (left + x)
          (top + y)
        ≡ some (char_pixel t.font c x y)
  glyph_in x y hx hy shown =
      let left = i % t.width * t.font.header.width in
      let top = i / t.width * t.font.header.height in
      let column : left + x - left ≡ x = omega arith in
      let row : top + y - top ≡ y = omega arith in rw (column, row) (ground (arith, shown))

  pub draw_char-DrawsChar :
      (f : Framebuffer)
      → Canvas columns rows f
      → (f' : Framebuffer) × (draw_char t i c f ≡ some (tt, f'))
        × Canvas columns rows f'
        × DrawsChar t i c f f'
  unfolding draw_char
  draw_char-DrawsChar f canvas =
      let w = t.font.header.width in
      let h = t.font.header.height in
      elim (Bool-cases (c.character == b' ')) [
        | inl blank ↦
            let (f', run, canvas', painted) =
              draw_blank-Paints columns rows (i % t.width) (i / t.width) w h t.width t.height
                (column_lt i) (row_lt i hi) fx fy c.foreground_color c.background_color f canvas in
            (
              f',
              rw blank run,
              canvas',
              within (box_ink (i % t.width * w) (i / t.width * h) w h c.background_color) f f'
                  painted (λ x y hx hy. ground (arith, blank, v.wide))
                  (λ j x y ne hx hy. rw (apart j x y ne hx hy) refl),
            )
        | inr shown ↦
            let glyph = get_character t.font c.character in
            let long = length-get_character t.font c.character v can shown in
            let (f', run, canvas', painted) =
              draw_glyph-Paints columns rows (i % t.width) (i / t.width) w h t.width t.height
                (column_lt i) (row_lt i hi) fx fy c.foreground_color c.background_color h 0 glyph
                (omega arith) (omega (arith, v.high, long)) v.wide f canvas in
            (
              f',
              rw shown run,
              canvas',
              within
                  (glyph_ink (i % t.width * w) (i / t.width * h) 0 h c.foreground_color
                    c.background_color glyph)
                  f f' painted (λ x y hx hy. glyph_in x y hx hy shown)
                  (λ j x y ne hx hy.
                    glyph_outside (i % t.width * w) (i / t.width * h) w h c.foreground_color
                      c.background_color glyph (j % t.width * w + x) (j / t.width * h + y) v.wide
                      (apart j x y ne hx hy)),
            )
      ]
