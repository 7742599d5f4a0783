-- ===== src/Terminal/Drawable.antt =====
-- The characters of `Font` that can be drawn: those whose glyphs `get_character` can give.
use x.Base.{
  ℕ, zero, suc, ◌+◌, ◌*◌, ◌≤◌, ◌≡◌, refl, ap, Bool, true, false, leb, ltb, ◌==◌, ◌||◌, List, [],
  ◌++◌, set, replicate, ◌∷◌, arith, length, take, drop, length-drop,
}
use x.Terminal.Font.{Font, glyph_index, get_character}
use x.Terminal.Screen.{ScreenChar, default_char}

-- A font whose glyphs are at least eight pixels wide and as high as their bytes at most.
pub record FontIsValid (font : Font) : Type 0 where
  pub bytes : font.header.bytes_per_glyph ≡ 16
  pub wide : 8 ≤ font.header.width
  pub high : font.header.height ≤ 16

-- A blank, or a character whose glyph ends before the last byte of the file, as `get_character` wants.
abbrev pub is_drawable : Font → (character : ℕ) → Bool
is_drawable font c = c == b' ' || ltb (16 * glyph_index font c + 16) (length font.font_data)

abbrev pub AllDrawable : Font → List ScreenChar → Type 0
AllDrawable font [] = Unit
AllDrawable font (c ∷ cs) = (is_drawable font c.character ≡ true) × AllDrawable font cs

module _ (font : Font) where
  pub AllDrawable-append :
      (cs ds : List ScreenChar)
      → AllDrawable font cs
      → AllDrawable font ds
      → AllDrawable font (cs ++ ds)
  AllDrawable-append [] ds a b = b
  AllDrawable-append (c ∷ cs) ds a b = (a.0, AllDrawable-append cs ds a.1 b)

  pub AllDrawable-drop :
      (n : ℕ) (cs : List ScreenChar) → AllDrawable font cs → AllDrawable font (drop n cs)
  AllDrawable-drop zero cs a = a
  AllDrawable-drop (suc n) [] a = a
  AllDrawable-drop (suc n) (c ∷ cs) a = AllDrawable-drop n cs a.1

  pub AllDrawable-set :
      (i : ℕ) (c : ScreenChar) (cs : List ScreenChar)
      → is_drawable font c.character ≡ true
      → AllDrawable font cs
      → AllDrawable font (set cs i c)
  AllDrawable-set i c [] h a = a
  AllDrawable-set zero c (d ∷ cs) h a = (h, a.1)
  AllDrawable-set (suc i) c (d ∷ cs) h a = (a.0, AllDrawable-set i c cs h a.1)

  pub AllDrawable-default : (n : ℕ) → AllDrawable font (replicate n default_char)
  AllDrawable-default zero = tt
  AllDrawable-default (suc n) = (refl, AllDrawable-default n)

length-take : {A : Type 0} (n : ℕ) (xs : List A) → n ≤ length xs → length (take n xs) ≡ n
length-take zero xs h = refl
length-take (suc n) [] h = absurd (omega arith)
length-take (suc n) (x ∷ xs) h = ap suc (length-take n xs (omega arith))

pub length-get_character :
    (font : Font) (c : ℕ)
    → FontIsValid font
    → is_drawable font c ≡ true
    → (c == b' ') ≡ false
    → length (get_character font c) ≡ 16
unfolding get_character
length-get_character font c v can shown =
    let g = glyph_index font c in
    let inside : leb (length font.font_data) (16 * g + 16) ≡ false = ground (arith, can, shown) in
    rw (v.bytes, inside)
      (length-take 16 (drop (16 * g) font.font_data)
        (ground (arith, length-drop (16 * g) font.font_data, inside)))
