-- ===== src/Terminal/Write/Safe.antt =====
-- `write` never panics on a valid terminal, unless a number of an escape sequence is too long.
use x.Base.{
  ℕ, suc, ◌<◌, ◌≡◌, refl, sym, ◌∙◌, subst, Bool, true, false, ltb, ◌&&◌, List, [], ◌∷◌, Option,
  none, some, arith, Bool-cases, inl, inr,
}
use x.Terminal.Screen.{TerminalMode, text, TerminalState, Display}
use x.Terminal.Font.{Font}
use x.Terminal.Drawable.{is_drawable}
use x.Terminal.Rows.{DisplayIsValid}
use x.Terminal.Write.{is_digit, escape, with_state, write_escape, write_char, write}
use x.Terminal.Write.Escapes.{
  ShortArgument, digit_mode, escape_digit, digit_mode-ShortArgument, Settles, escape-Settles,
}
use x.Terminal.Write.Steps.{is_text, is_text-eq, write_char_text, write_char_escape, write_then}
use x.Terminal.Write.Plain.{with_state-IsValid, write_text-Ends}

-- No more than nine digits in a row, with so many before.
unfoldable pub short_numbers : (k : ℕ) → List ℕ → Bool
short_numbers k [] = true
short_numbers k (c ∷ cs) = elim (is_digit c) [
  | true ↦ ltb k 9 && short_numbers (suc k) cs
  | false ↦ short_numbers 0 cs
]

-- A character that leaves a valid terminal, with so many digits of an argument.
abbrev Steps : (k c : ℕ) → Display → Type 0
Steps k c d =
    (e : Display) × (write_char c d ≡ some (tt, e))
    × DisplayIsValid e
    × (e.terminal.font ≡ d.terminal.font)
    × ShortArgument k (e.terminal.current_state.mode)

-- The same in the middle of an escape sequence.
abbrev StepsIn : TerminalMode → (k c : ℕ) → Display → Type 0
StepsIn m k c d =
    (e : Display) × (write_escape m c d ≡ some (tt, e))
    × DisplayIsValid e
    × (e.terminal.font ≡ d.terminal.font)
    × ShortArgument k (e.terminal.current_state.mode)

module _ (c : ℕ) (d : Display) (v : DisplayIsValid d) where
  digit_in :
      (m : TerminalMode) (k : ℕ)
      → k < 9
      → is_digit c ≡ true
      → ShortArgument k m
      → StepsIn m (suc k) c d
  unfolding write_escape
  digit_in m k short digit h =
      let s = d.terminal.current_state in
      let s' = record s { mode = digit_mode m c } in
      (
        with_state s' d,
        rw (write_escape, escape_digit k c short digit m s h) refl,
        with_state-IsValid d s' v (v.column) (v.row),
        refl,
        digit_mode-ShortArgument k c short digit m h,
      )

  settled :
      (m : TerminalMode) (r : Option (TerminalMode × TerminalState))
      → escape m c d.terminal.current_state ≡ r
      → Settles d.terminal.current_state r
      → (k : ℕ) → StepsIn m k c d
  unfolding write_escape
  settled m none e h k = absurd h
  settled m (some (m', s')) e h k =
      let s = record s' { mode = m' } in
      (
        with_state s d,
        rw (write_escape, e) refl,
        with_state-IsValid d s v (rw (h.1.0) (v.column)) (rw (h.1.1) (v.row)),
        refl,
        h.0 k,
      )

  other_in : (m : TerminalMode) (k : ℕ) → is_digit c ≡ false → StepsIn m k c d
  other_in m k other = settled m _ refl (escape-Settles m c d.terminal.current_state other) k

  -- In the text mode and out of it.
  by_text :
      (k : ℕ)
      → is_drawable d.terminal.font c ≡ true
      → StepsIn (d.terminal.current_state.mode) k c d
      → Steps k c d
  by_text k can h = elim (Bool-cases (is_text (d.terminal.current_state.mode))) [
    | inl e ↦
        let (e', run, valid, font, short) =
          write_text-Ends d c v (is_text-eq (d.terminal.current_state.mode) e) can in
        (e', write_char_text c d e ∙ run, valid, font, short k)
    | inr e ↦ (h.0, write_char_escape c d e ∙ h.1, h.2, h.3, h.4)
  ]

-- Every character of a text can be drawn.
unfoldable pub all_drawable : Font → List ℕ → Bool
all_drawable font [] = true
all_drawable font (c ∷ cs) = is_drawable font c && all_drawable font cs

write_lem :
    (font : Font) (cs : List ℕ) (k : ℕ) (d : Display)
    → DisplayIsValid d
    → d.terminal.font ≡ font
    → all_drawable font cs ≡ true
    → ShortArgument k (d.terminal.current_state.mode)
    → short_numbers k cs ≡ true
    → (e : Display) × (write cs d ≡ some (tt, e)) × DisplayIsValid e
unfolding write short_numbers all_drawable
write_lem font [] k d v f can m h = (d, refl, v)
write_lem font (c ∷ cs) k d v f can m h =
    let n = d.terminal.current_state.mode in
    let here : is_drawable d.terminal.font c ≡ true = rw f (ground arith) in
    let later : all_drawable font cs ≡ true = ground arith in
    elim (Bool-cases (is_digit c)) [
      | inl digit ↦
          let h' : (ltb k 9 && short_numbers (suc k) cs) ≡ true = rw (short_numbers, digit) at h in
          let short : k < 9 = ground arith in
          let rest : short_numbers (suc k) cs ≡ true = ground arith in
          let (e, run, valid, g, m') =
            by_text c d v (suc k) here (digit_in c d v n k short digit m) in
          let (e', run', valid') = write_lem font cs (suc k) e valid (g ∙ f) later m' rest in
          (e', write_then c cs d e run ∙ run', valid')
      | inr other ↦
          let rest : short_numbers 0 cs ≡ true = rw (short_numbers, other) at h in
          let (e, run, valid, g, m') = by_text c d v 0 here (other_in c d v n 0 other) in
          let (e', run', valid') = write_lem font cs 0 e valid (g ∙ f) later m' rest in
          (e', write_then c cs d e run ∙ run', valid')
    ]

-- On a valid terminal, which has more than 64 columns, in the text mode, `write` ends without a panic
-- for every text whose characters are blanks or have a glyph that `get_character` can give (not the
-- last glyph of a font that ends right behind it), and in which no more than nine digits stand in a
-- row: no index is out of range, no number too large, and all that is drawn is within the framebuffer.
-- The terminal is valid after it: its cursor is on the screen.
pub write-IsValid :
    (d : Display) (cs : List ℕ)
    → DisplayIsValid d
    → d.terminal.current_state.mode ≡ text
    → all_drawable d.terminal.font cs ≡ true
    → short_numbers 0 cs ≡ true
    → (e : Display) × (write cs d ≡ some (tt, e)) × DisplayIsValid e
write-IsValid d cs v t can h =
    write_lem d.terminal.font cs 0 d v refl can (subst (λ m. ShortArgument 0 m) (sym t) tt) h
