-- ===== src/Terminal/Draw.antt =====
-- Drawing a character of the terminal, at a place of the screen.
use x.Base.{
  ℕ, zero, suc, ◌+◌, ◌-◌, ◌*◌, ◌/◌, ◌%◌, ◌≤◌, ◌<◌, ◌≡◌, refl, ap, ◌∙◌, ◌^◌, none, some,
  if◌then◌else◌, ◌&&◌, leb, ltb, ◌==◌, List, arith, length, get_or, get_elem?-get_or, Bool-cases,
  inl, inr, bit_or,
}
use native.Mathlib.Nat.{div-div-eq-div-mul, pow-suc}
use x.Base.Bits.{bit_or-zero, zero-bit_or}
use x.Graphics.Canvas.{
  Paints, Paints-then, Ink, atop, pixel_ink, box_ink, cell_lt, cell_end, set_pixel-Paints,
  fill_box-Paints,
}
use x.Terminal.Screen.{draw_bit, draw_line, draw_glyph, draw_blank}

-- The color of a pixel of a glyph, by its bit: the code shifts a line before it draws its first bit,
-- so that column `k` shows bit `8 - k` of the line, and column 0 the background.
abbrev pub bit_color : (foreground background line k : ℕ) → ℕ
bit_color foreground background line k =
    if line / 2 ^ (8 - k) % 2 == 1 then foreground else background

-- A part of a line from its left, where `line` has been shifted so that its last bit is that of the
-- column at `count`.
abbrev line_ink : (left y0 foreground background count line : ℕ) → Ink
line_ink left y0 foreground background count line x y =
    if y == y0 && (leb left x && ltb x (left + count))
    then some (if line / 2 ^ (left + count - x) % 2 == 1 then foreground else background)
    else none

-- The first eight columns of the lines of a glyph, from one line on.
abbrev pub glyph_ink : (left top first_line lines foreground background : ℕ) (glyph : List ℕ) → Ink
glyph_ink left top first_line lines foreground background glyph x y =
    if (leb (top + first_line) y && ltb y (top + first_line + lines))
      && (leb left x && ltb x (left + 8))
    then some (bit_color foreground background (get_or glyph (y - top) 0) (x - left))
    else none

mask_color :
    (mask foreground background : ℕ)
    → mask < 2
    → bit_or (mask * foreground) ((1 - mask) * background)
      ≡ (if mask == 1 then foreground else background)
mask_color zero foreground background h =
    let gone : 0 * foreground ≡ 0 = omega arith in
    let kept : (1 - 0) * background ≡ background = omega arith in
    rw (gone, kept) (zero-bit_or background)
mask_color (suc zero) foreground background h =
    let kept : 1 * foreground ≡ foreground = omega arith in
    let gone : (1 - 1) * background ≡ 0 = omega arith in rw (kept, gone) (bit_or-zero foreground)
mask_color (suc (suc n)) foreground background h = absurd (omega arith)

halves : (line n : ℕ) → line / 2 / 2 ^ n ≡ line / 2 ^ suc n
halves line n = div-div-eq-div-mul line 2 (2 ^ n) ∙ ap (λ m. line / m) (omega (arith, pow-suc 2 n))

-- The pixel at the right end of a part of a line, and the part left of it.
line_step :
    (left y0 foreground background count bit line : ℕ)
    → suc count + bit ≡ 8
    → (x y : ℕ)
    → line_ink left y0 foreground background (suc count) line x y
      ≡ atop (line_ink left y0 foreground background count (line / 2) x y) (
          pixel_ink
            (left + (7 - bit))
            y0
            (if line / 2 % 2 == 1 then foreground else background)
            x
            y)
line_step left y0 foreground background count bit line hb x y =
    let at : left + (7 - bit) ≡ left + count = omega arith in
    elim (Bool-cases (ltb x (left + count))) [
      | inl within ↦
          let n : suc (left + count - x) ≡ left + suc count - x = ground arith in
          let half : line / 2 / 2 ^ (left + count - x) ≡ line / 2 ^ (left + suc count - x) =
            halves line (left + count - x) ∙ ap (λ m. line / 2 ^ m) n in
          ground (arith, half, at)
      | inr right ↦ elim (Bool-cases (x == left + count)) [
        | inl here ↦
            let n : left + suc count - x ≡ 1 = ground arith in
            let half : line / 2 ^ (left + suc count - x) ≡ line / 2 ^ 1 =
              ap (λ m. line / 2 ^ m) n in
            ground (arith, half, at)
        | inr past ↦ ground (arith, at)
      ]
    ]

-- The first line of a part of a glyph, and those below it.
glyph_step :
    (left top line_i count foreground background : ℕ) (glyph : List ℕ) (x y : ℕ)
    → glyph_ink left top line_i (suc count) foreground background glyph x y
      ≡ atop
          (glyph_ink left top (line_i + 1) count foreground background glyph x y)
          (line_ink left (top + line_i) foreground background 8 (get_or glyph line_i 0) x y)
glyph_step left top line_i count foreground background glyph x y =
    elim (Bool-cases (y == top + line_i)) [
      | inl here ↦ elim (Bool-cases (leb left x)) [
        | inl right ↦
            let at : y - top ≡ line_i = ground arith in
            let row : get_or glyph (y - top) 0 ≡ get_or glyph line_i 0 =
              ap (λ i. get_or glyph i 0) at in
            let n : 8 - (x - left) ≡ left + 8 - x = ground arith in
            let bit : get_or glyph line_i 0 / 2 ^ (8 - (x - left))
                ≡ get_or glyph line_i 0 / 2 ^ (left + 8 - x) =
              ap (λ m. get_or glyph line_i 0 / 2 ^ m) n in
            rw row (ground (arith, bit))
        | inr outside ↦ ground arith
      ]
      | inr elsewhere ↦ ground arith
    ]

module _ (columns rows x_pos y_pos w h : ℕ) (nx ny : ℕ) (inx : x_pos < nx) (iny : y_pos < ny)
    (fx : nx * w ≤ columns) (fy : ny * h ≤ rows) (foreground background : ℕ) where
  draw_bit-Paints :
      (line_i bit mask : ℕ)
      → line_i < h
      → 8 ≤ w
      → mask < 2
      → Paints columns rows
          (pixel_ink
            (x_pos * w + (7 - bit))
            (y_pos * h + line_i)
            (if mask == 1 then foreground else background))
          (draw_bit x_pos y_pos w h foreground background line_i bit mask)
  unfolding draw_bit
  draw_bit-Paints line_i bit mask hl hw hm f c =
      let column = cell_lt x_pos nx (7 - bit) w inx (omega arith) in
      let row = cell_lt y_pos ny line_i h iny hl in
      let color = bit_or (mask * foreground) ((1 - mask) * background) in
      let (g, run, c', painted) =
        set_pixel-Paints columns rows (x_pos * w + (7 - bit)) (y_pos * h + line_i) color
          (omega (arith, column, fx)) (omega (arith, row, fy)) f c in
      (
        g,
        ground (arith, run, column, row, c.columns_small, c.rows_small, fx, fy),
        c',
        λ x y hx hy. rw (← mask_color mask foreground background hm) (painted x y hx hy),
      )

  draw_line-Paints :
      (count line_i bit line : ℕ)
      → line_i < h
      → 8 ≤ w
      → count + bit ≡ 8
      → Paints columns rows
          (line_ink (x_pos * w) (y_pos * h + line_i) foreground background count line)
          (draw_line x_pos y_pos w h foreground background count line_i bit line)
  unfolding draw_line
  draw_line-Paints zero line_i bit line hl hw hb = λ f c. (f, refl, c, λ x y hx hy. ground arith)
  draw_line-Paints (suc count) line_i bit line hl hw hb =
      let left = x_pos * w in
      let y0 = y_pos * h + line_i in
      Paints-then columns rows
        (pixel_ink (left + (7 - bit)) y0 (if line / 2 % 2 == 1 then foreground else background))
        (line_ink left y0 foreground background count (line / 2))
        (line_ink left y0 foreground background (suc count) line)
        (draw_bit x_pos y_pos w h foreground background line_i bit (line / 2 % 2))
        (draw_line x_pos y_pos w h foreground background count line_i (bit + 1) (line / 2))
        (draw_bit-Paints line_i bit (line / 2 % 2) hl hw (omega arith))
        (draw_line-Paints count line_i (bit + 1) (line / 2) hl hw (omega arith))
        (line_step left y0 foreground background count bit line hb)

  pub draw_glyph-Paints :
      (count line_i : ℕ) (glyph : List ℕ)
      → line_i + count ≤ h
      → h ≤ length glyph
      → 8 ≤ w
      → Paints columns rows
          (glyph_ink (x_pos * w) (y_pos * h) line_i count foreground background glyph)
          (draw_glyph x_pos y_pos w h foreground background count line_i glyph)
  unfolding draw_glyph
  draw_glyph-Paints zero line_i glyph hl hg hw = λ f c. (f, refl, c, λ x y hx hy. ground arith)
  draw_glyph-Paints (suc count) line_i glyph hl hg hw = λ f c.
      let left = x_pos * w in
      let top = y_pos * h in
      let line = get_or glyph line_i 0 in
      let there = get_elem?-get_or glyph line_i 0 (omega arith) in
      let (g, run, c', painted) =
        Paints-then columns rows (line_ink left (top + line_i) foreground background 8 line)
          (glyph_ink left top (line_i + 1) count foreground background glyph)
          (glyph_ink left top line_i (suc count) foreground background glyph)
          (draw_line x_pos y_pos w h foreground background 8 line_i 0 line)
          (draw_glyph x_pos y_pos w h foreground background count (line_i + 1) glyph)
          (draw_line-Paints 8 line_i 0 line (omega arith) hw refl)
          (draw_glyph-Paints count (line_i + 1) glyph (omega arith) hg hw)
          (glyph_step left top line_i count foreground background glyph) f c in
      (g, ground (arith, there, run), c', painted)

  pub draw_blank-Paints :
      Paints columns rows
        (box_ink (x_pos * w) (y_pos * h) w h background)
        (draw_blank x_pos y_pos w h foreground background)
  unfolding draw_blank
  draw_blank-Paints f c =
      let column = cell_end x_pos nx w inx in
      let row = cell_end y_pos ny h iny in
      let (g, run, c', painted) =
        fill_box-Paints columns rows (x_pos * w) (y_pos * h) w h background
          (omega (arith, fx, column)) (omega (arith, fy, row)) f c in
      (g, ground (arith, run, column, row, c.columns_small, c.rows_small, fx, fy), c', painted)
