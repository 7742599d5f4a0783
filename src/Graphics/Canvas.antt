-- ===== src/Graphics/Canvas.antt =====
-- Drawing within a part of the framebuffer: no index is out of range and no number too large.
use x.Base.{
  ℕ, zero, suc, ◌+◌, ◌*◌, ◌^◌, ◌≤◌, ◌<◌, ◌≡◌, ◌≢◌, refl, ap, sym, ◌∙◌, leb, ltb, ltb→lt, ◌==◌,
  ==_iff, ◌&&◌, if◌then◌else◌, Bool-cases, inl, inr, Option, none, some, arith, length, set,
  length-set, get_or, get_or-set_self, get_or-set_ne, Command, pure, ◌>>◌,
}
use native.Mathlib.Nat.{mul-le-mul_right}
use x.Graphics.{Framebuffer, write_pixel, pixel_index, set_pixel, fill_row, fill_rows, fill_box}

-- A framebuffer with room for so many columns and rows.
pub record Canvas (columns rows : ℕ) (f : Framebuffer) : Type 0 where
  pub columns_fit : columns ≤ f.scanline_length
  pub rows_fit : rows * f.scanline_length ≤ length f.buffer
  pub area_small : rows * f.scanline_length < 2 ^ 32
  pub columns_small : columns < 2 ^ 32
  pub rows_small : rows < 2 ^ 32

-- The color of a pixel.
abbrev pub pixel_at : Framebuffer → (x y : ℕ) → ℕ
pixel_at f x y = get_or f.buffer (y * f.scanline_length + x) 0

-- What is painted over a framebuffer: the new color of a pixel, or none where the old one stays.
abbrev pub Ink : Type 0
Ink = ℕ → ℕ → Option ℕ

abbrev pub over : Option ℕ → ℕ → ℕ
over none old = old
over (some color) old = color

abbrev pub atop : Option ℕ → Option ℕ → Option ℕ
atop none below = below
atop (some color) below = some color

over-atop : (a b : Option ℕ) (old : ℕ) → over (atop b a) old ≡ over b (over a old)
over-atop a none old = refl
over-atop a (some color) old = refl

-- What paints an ink on such a framebuffer, without a panic.
abbrev pub Paints : (columns rows : ℕ) → Ink → Command Framebuffer (Unit {0}) → Type 0
Paints columns rows ink m =
    (f : Framebuffer)
    → Canvas columns rows f
    → (f' : Framebuffer) × (m f ≡ some (tt, f'))
      × Canvas columns rows f'
      × ((x y : ℕ) → x < columns → y < rows → pixel_at f' x y ≡ over (ink x y) (pixel_at f x y))

abbrev pub no_ink : Ink
no_ink x y = none

abbrev pub pixel_ink : (x0 y0 color : ℕ) → Ink
pixel_ink x0 y0 color x y = if y == y0 && x == x0 then some color else none

-- A box of one color.
abbrev pub box_ink : (x0 y0 width height color : ℕ) → Ink
box_ink x0 y0 width height color x y =
    if (leb y0 y && ltb y (y0 + height)) && (leb x0 x && ltb x (x0 + width))
    then some color
    else none

-- A place within a cell within a grid.
pub cell_lt : (p n o g : ℕ) → p < n → o < g → p * g + o < n * g
cell_lt p n o g h l =
    let row : (p + 1) * g ≤ n * g = mul-le-mul_right g (omega arith) in omega (arith, row)

pub cell_end : (p n g : ℕ) → p < n → p * g + g ≤ n * g
cell_end p n g h =
    let row : (p + 1) * g ≤ n * g = mul-le-mul_right g (omega arith) in omega (arith, row)

-- Two places in rows of one length.
apart_rows : (y z g x w : ℕ) → x < g → y < z → y * g + x < z * g + w
apart_rows y z g x w h l =
    let row : (y + 1) * g ≤ z * g = mul-le-mul_right g (omega arith) in omega (arith, row)

pub same_place : (y z g x w : ℕ) → x < g → w < g → y * g + x ≡ z * g + w → (y ≡ z) × (x ≡ w)
same_place y z g x w hx hw e = elim (Bool-cases (y == z)) [
  | inl same ↦
      let rows : y ≡ z = (==_iff y z).0 same in
      (rows, let e' : z * g + x ≡ z * g + w = rw rows at e in omega (arith, e'))
  | inr other ↦ elim (Bool-cases (ltb y z)) [
    | inl above ↦ absurd (omega (arith, apart_rows y z g x w hx (ltb→lt y z above), e))
    | inr below ↦ absurd (omega (arith, apart_rows z y g w x hw (ground arith), e))
  ]
]

module _ (columns rows : ℕ) where
  pub Paints-pure : Paints columns rows no_ink (pure tt)
  Paints-pure f c = (f, refl, c, λ x y hx hy. refl)

  pub Paints-then :
      (a b ink : Ink) (m k : Command Framebuffer (Unit {0}))
      → Paints columns rows a m
      → Paints columns rows b k
      → ((x y : ℕ) → ink x y ≡ atop (b x y) (a x y))
      → Paints columns rows ink (m >> k)
  Paints-then a b ink m k p q e f c =
      let (g, run, c', painted) = p f c in
      let (h, run', c'', painted') = q g c' in
      (
        h,
        ground arith,
        c'',
        λ x y hx hy.
            painted' x y hx hy
            ∙ ap (over (b x y)) (painted x y hx hy)
            ∙ sym (over-atop (a x y) (b x y) (pixel_at f x y))
            ∙ ap (λ o. over o (pixel_at f x y)) (sym (e x y)),
      )

  painted_pixel :
      (x y color : ℕ) (f : Framebuffer)
      → Canvas columns rows f
      → x < columns
      → y < rows
      → (z w : ℕ) → z < columns
      → get_or (set f.buffer (y * f.scanline_length + x) color) (w * f.scanline_length + z) 0
        ≡ over (pixel_ink x y color z w) (pixel_at f z w)
  painted_pixel x y color f c hx hy z w hz =
      let line = f.scanline_length in
      let inside = cell_lt y rows x line hy (omega (arith, c.columns_fit)) in
      elim (Bool-cases (w == y && z == x)) [
        | inl here ↦
            let same : w * line + z ≡ y * line + x =
              let row : w ≡ y = ground arith in
              let column : z ≡ x = ground arith in rw (row, column) refl in
            rw (here, same)
              (get_or-set_self f.buffer (y * line + x) color 0 (omega (arith, inside, c.rows_fit)))
        | inr other ↦
            let ne : y * line + x ≢ w * line + z = λ e.
              let (row, column) =
                same_place y w line x z (omega (arith, c.columns_fit))
                  (omega (arith, c.columns_fit)) e in
              ground (arith, other, row, column) in
            rw other (get_or-set_ne f.buffer (y * line + x) (w * line + z) color 0 ne)
      ]

  pub set_pixel-Paints :
      (x y color : ℕ)
      → x < columns
      → y < rows
      → Paints columns rows (pixel_ink x y color) (set_pixel x y color)
  unfolding set_pixel pixel_index write_pixel
  set_pixel-Paints x y color hx hy f c =
      let inside = cell_lt y rows x f.scanline_length hy (omega (arith, c.columns_fit)) in
      (
        record f { buffer = set f.buffer (y * f.scanline_length + x) color },
        ground (arith, inside),
        record {
          columns_fit = c.columns_fit;
          rows_fit = rw (length-set f.buffer (y * f.scanline_length + x) color) c.rows_fit;
          area_small = c.area_small;
          columns_small = c.columns_small;
          rows_small = c.rows_small;
        },
        λ z w hz hw. painted_pixel x y color f c hx hy z w hz,
      )

  pub fill_row-Paints :
      (count x y color : ℕ)
      → x + count ≤ columns
      → y < rows
      → Paints columns rows (box_ink x y count 1 color) (fill_row count x y color)
  unfolding fill_row
  fill_row-Paints zero x y color hx hy = λ f c. (f, refl, c, λ z w hz hw. ground arith)
  fill_row-Paints (suc count) x y color hx hy =
      Paints-then (pixel_ink x y color) (box_ink (x + 1) y count 1 color)
        (box_ink x y (suc count) 1 color) (set_pixel x y color) (fill_row count (x + 1) y color)
        (set_pixel-Paints x y color (omega arith) hy)
        (fill_row-Paints count (x + 1) y color (omega arith) hy) (λ z w. ground arith)

  pub fill_rows-Paints :
      (count x y width color : ℕ)
      → x + width ≤ columns
      → y + count ≤ rows
      → Paints columns rows (box_ink x y width count color) (fill_rows count x y width color)
  unfolding fill_rows
  fill_rows-Paints zero x y width color hx hy = λ f c. (f, refl, c, λ z w hz hw. ground arith)
  fill_rows-Paints (suc count) x y width color hx hy =
      Paints-then (box_ink x y width 1 color) (box_ink x (y + 1) width count color)
        (box_ink x y width (suc count) color) (fill_row width x y color)
        (fill_rows count x (y + 1) width color) (fill_row-Paints width x y color hx (omega arith))
        (fill_rows-Paints count x (y + 1) width color hx (omega arith)) (λ z w. ground arith)

  pub fill_box-Paints :
      (x y width height color : ℕ)
      → x + width ≤ columns
      → y + height ≤ rows
      → Paints columns rows (box_ink x y width height color) (fill_box x y width height color)
  unfolding fill_box
  fill_box-Paints x y width height color hx hy f c =
      let (g, run, c', painted) = fill_rows-Paints height x y width color hx hy f c in
      (g, ground (arith, run), c', painted)
