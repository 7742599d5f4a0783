-- ===== src/Terminal/Render.antt =====
-- `render` of a `Terminal`: it draws what has changed, without a panic.
use x.Base.{
  ℕ, ◌+◌, ◌*◌, ◌≢◌, subst, get_or, get_or-set_self, get_or-set_ne, ==_iff, ◌==◌, ◌^◌, ◌≤◌, ◌<◌, ◌≡◌,
  refl, sym, ap, ◌∙◌, true, List, [], ◌∷◌, ◌++◌, Option, some, arith, length, length-append,
  get_elem?, set, Bool-cases, inl, inr,
}
use x.Graphics.{Framebuffer}
use x.Graphics.Canvas.{Canvas}
use x.Terminal.Screen.{
  ScreenChar, default_char, same_char, Terminal, Display, draw, render_char, render_chars, render,
}
use x.Terminal.Drawable.{FontIsValid, is_drawable, AllDrawable}
use x.Terminal.Pixels.{char_pixel, cell_pixel, DrawsChar, draw_char-DrawsChar}

-- A screen of more than 64 columns whose width is a `u16`, as is the number of each character. The
-- characters on it can be drawn.
pub record ScreenIsValid (t : Terminal) : Type 0 where
  pub font : FontIsValid t.font
  pub wide : 64 < t.width
  pub narrow : t.width < 2 ^ 16
  pub countable : t.width * t.height ≤ 2 ^ 16
  pub front : length t.front_buffer ≡ t.width * t.height
  pub drawable : AllDrawable t.font t.front_buffer
  pub back : length t.back_buffer ≡ t.width * t.height

-- The framebuffer has room for the screen.
abbrev pub CanvasOf : Terminal → Framebuffer → Type 0
CanvasOf t b = Canvas (t.width * t.font.header.width) (t.height * t.font.header.height) b

-- The framebuffer shows the characters of a buffer: the first eight columns of every cell have the
-- colors of its character.
abbrev pub Shows : Terminal → Framebuffer → List ScreenChar → Type 0
Shows t b buffer =
    (i x y : ℕ)
    → i < t.width * t.height
    → x < 8
    → y < t.font.header.height
    → cell_pixel t b i x y ≡ char_pixel t.font (get_or buffer i default_char) x y

same_char-eq : (a b : ScreenChar) → same_char a b ≡ true → a ≡ b
same_char-eq a b h = ground arith

get_elem?-middle :
    {A : Type 0} (xs : List A) (y : A) (ys : List A) → get_elem? (xs ++ y ∷ ys) (length xs) ≡ some y
get_elem?-middle [] y ys = refl
get_elem?-middle (x ∷ xs) y ys = get_elem?-middle xs y ys

set-middle :
    {A : Type 0} (xs : List A) (y z : A) (ys : List A)
    → set (xs ++ y ∷ ys) (length xs) z ≡ xs ++ z ∷ ys
set-middle [] y z ys = refl
set-middle (x ∷ xs) y z ys = ap (λ l. x ∷ l) (set-middle xs y z ys)

move_middle : {A : Type 0} (xs : List A) (y : A) (ys : List A) → xs ++ y ∷ ys ≡ (xs ++ y ∷ []) ++ ys
move_middle [] y ys = refl
move_middle (x ∷ xs) y ys = ap (λ l. x ∷ l) (move_middle xs y ys)

module _ (t : Terminal) (font : FontIsValid t.font) (wide : 64 < t.width) where
  -- The terminal with other characters drawn.
  abbrev pub display : Framebuffer → List ScreenChar → Display
  display b back = record { framebuffer = some b; terminal = record t { back_buffer = back } }

  Shows-DrawsChar :
      (b b' : Framebuffer) (done rest : List ScreenChar) (c r : ScreenChar)
      → length done < t.width * t.height
      → Shows t b (done ++ r ∷ rest)
      → DrawsChar t (length done) c b b'
      → Shows t b' (done ++ c ∷ rest)
  Shows-DrawsChar b b' done rest c r inside shows drawn i x y hi hx hy =
      let new = set-middle done r c rest in
      let long = length-append done (r ∷ rest) in
      elim (Bool-cases (i == length done)) [
        | inl here ↦
            let at : i ≡ length done = (==_iff i (length done)).0 here in
            let reads : get_or (done ++ c ∷ rest) (length done) default_char ≡ c = rw (← new) (
              get_or-set_self (done ++ r ∷ rest) (length done) c default_char
                (omega (arith, long))) in
            rw (at, reads) (drawn.0 x y hx hy)
        | inr other ↦
            let ne : i ≢ length done = λ e. ground (arith, other, e) in
            let reads : get_or (done ++ c ∷ rest) i default_char
                ≡ get_or (done ++ r ∷ rest) i default_char =
              rw (← new) (
                get_or-set_ne (done ++ r ∷ rest) (length done) i c default_char
                  (λ e. ne (sym e))) in
            rw reads (drawn.1 i x y hi ne hx hy ∙ shows i x y hi hx hy)
      ]

  render_char_lem :
      (b : Framebuffer) (done rest : List ScreenChar) (c r : ScreenChar)
      → CanvasOf t b
      → length done < t.width * t.height
      → is_drawable t.font c.character ≡ true
      → (b' : Framebuffer) × (render_char (length done) c (display b (done ++ r ∷ rest))
          ≡ some (tt, display b' (done ++ c ∷ rest)))
        × CanvasOf t b'
        × (Shows t b (done ++ r ∷ rest) → Shows t b' (done ++ c ∷ rest))
  unfolding render_char draw
  render_char_lem b done rest c r canvas inside can =
      let old = get_elem?-middle done r rest in
      let new = set-middle done r c rest in
      elim (Bool-cases (same_char c r)) [
        | inl same ↦ (
          b,
          ground (arith, old, same, same_char-eq c r same),
          canvas,
          subst (λ z. Shows t b (done ++ z ∷ rest)) (sym (same_char-eq c r same)),
        )
        | inr other ↦
            let (b', run, canvas', drawn) =
              draw_char-DrawsChar (record t { back_buffer = done ++ r ∷ rest })
                (t.width * t.font.header.width) (t.height * t.font.header.height) (length done) c
                font can (omega (arith, wide)) inside (omega arith) (omega arith) b canvas in
            (
              b',
              ground (arith, old, other, run, new),
              canvas',
              λ shows. Shows-DrawsChar b b' done rest c r inside shows drawn,
            )
      ]

  render_chars_lem :
      (b : Framebuffer) (done rest cs : List ScreenChar)
      → CanvasOf t b
      → length rest ≡ length cs
      → length done + length cs ≤ t.width * t.height
      → AllDrawable t.font cs
      → (b' : Framebuffer) × (render_chars (length done) cs (display b (done ++ rest))
          ≡ some (tt, display b' (done ++ cs)))
        × CanvasOf t b'
        × (Shows t b (done ++ rest) → Shows t b' (done ++ cs))
  unfolding render_chars
  render_chars_lem b done [] [] canvas same inside can = (b, refl, canvas, λ shows. shows)
  render_chars_lem b done [] (c ∷ cs) canvas same inside can = absurd (omega (arith, same))
  render_chars_lem b done (r ∷ rest) [] canvas same inside can = absurd (omega (arith, same))
  render_chars_lem b done (r ∷ rest) (c ∷ cs) canvas same inside can =
      let (b1, run1, canvas1, shows1) =
        render_char_lem b done rest c r canvas (omega (arith, inside)) can.0 in
      let counted : length (done ++ c ∷ []) ≡ length done + 1 = length-append done (c ∷ []) in
      let (b2, run2, canvas2, shows2) =
        render_chars_lem b1 (done ++ c ∷ []) rest cs canvas1 (omega (arith, same))
          (omega (arith, counted, inside)) can.1 in
      let run3 = rw (counted, ← move_middle done c rest, ← move_middle done c cs) at run2 in
      (
        b2,
        ground (arith, run1, run3),
        canvas2,
        λ shows.
            subst (λ l. Shows t b2 l) (sym (move_middle done c cs))
              (shows2 (subst (λ l. Shows t b1 l) (move_middle done c rest) (shows1 shows))),
      )

-- `render` on a valid screen, whatever the framebuffer shows before.
pub render_lem :
    (d : Display) (b : Framebuffer)
    → d.framebuffer ≡ some b
    → ScreenIsValid d.terminal
    → CanvasOf d.terminal b
    → (b' : Framebuffer) × (render d
        ≡ some (
          tt,
          record {
            framebuffer = some b';
            terminal = record (d.terminal) { back_buffer = d.terminal.front_buffer };
          },
        ))
      × CanvasOf d.terminal b'
      × (Shows d.terminal b d.terminal.back_buffer → Shows d.terminal b' d.terminal.front_buffer)
unfolding render
render_lem d b e v canvas =
    let t = d.terminal in
    let there : d ≡ display t (v.font) (v.wide) b t.back_buffer =
      ap (λ (o : Option Framebuffer). record { framebuffer = o; terminal = d.terminal }) e in
    let (b', run, canvas', shows) =
      render_chars_lem t (v.font) (v.wide) b [] t.back_buffer t.front_buffer canvas
        (v.back ∙ sym (v.front)) (omega (arith, v.front)) v.drawable in
    (b', ap render there ∙ run, canvas', shows)

-- On a valid screen, whose characters are blanks or have a glyph that `get_character` can give, with a
-- framebuffer that has room for it and that shows the characters of the back buffer, each in the first
-- eight columns of its cell, `render` never panics. After it the framebuffer shows the characters of
-- the front buffer, blanks as the background and the others by the bits of their glyphs, the back
-- buffer is the front buffer, and nothing else of the terminal has changed.
pub render-Renders :
    (d : Display) (b : Framebuffer)
    → d.framebuffer ≡ some b
    → ScreenIsValid d.terminal
    → CanvasOf d.terminal b
    → Shows d.terminal b d.terminal.back_buffer
    → (b' : Framebuffer) × (render d
        ≡ some (
          tt,
          record {
            framebuffer = some b';
            terminal = record (d.terminal) { back_buffer = d.terminal.front_buffer };
          },
        ))
      × CanvasOf d.terminal b'
      × Shows d.terminal b' d.terminal.front_buffer
render-Renders d b e v canvas shown =
    let (b', run, canvas', shows) = render_lem d b e v canvas in (b', run, canvas', shows shown)
