-- ===== src/Vma/Tree/Link/Colors.antt =====
-- The red-black rules of the trees that a round of `fix_insert` leaves.
use x.Base.{ℕ, ◌+◌, ◌≡◌, refl, sym, ◌∙◌, arith}
use x.Vma.Node.{red, black, Side, left_side, right_side, opposite}
use x.Vma.Tree.Shape.{Shape, fork, fork_on, Place, below}
use x.Vma.Tree.Zoom.{color_of, recolor, color_of-recolor}
use x.Vma.Tree.Measure.{top_color}
use x.Vma.Tree.Balance.{
  is_counted, black_height, Balanced, BalancedAt, Grown, clash, Balanced-fork_on,
  black_height-fork_on, top_color-fork_on,
}
use x.Vma.Tree.Link.Uncle.{first_on}

-- A black branch over a balanced tree and a red branch, which is over two black ones.
module _ (gs : Side) (p wp m2 g wg m1 : ℕ) (t o u : Shape) where
  abbrev low : Shape
  low = fork_on (opposite gs) g (recolor red wg) m1 u o

  abbrev settled : Shape
  settled = fork_on gs p (recolor black wp) m2 t low

  low_height :
      black_height u ≡ black_height t
      → black_height o ≡ black_height t
      → black_height low ≡ black_height t
  low_height hu ho =
      black_height-fork_on (opposite gs) g (recolor red wg) m1 u o red (color_of-recolor red wg)
        (hu ∙ sym ho)
      ∙ omega (arith, hu)

  pub settled-height :
      black_height u ≡ black_height t
      → black_height o ≡ black_height t
      → black_height settled ≡ black_height t + 1
  settled-height hu ho =
      black_height-fork_on gs p (recolor black wp) m2 t low black (color_of-recolor black wp)
        (sym (low_height hu ho))

  pub settled-Balanced :
      Balanced t
      → Balanced o
      → Balanced u
      → black_height u ≡ black_height t
      → black_height o ≡ black_height t
      → top_color u ≡ black
      → top_color o ≡ black
      → Balanced settled
  settled-Balanced bt bo bu hu ho cu co =
      let below_it =
        Balanced-fork_on (opposite gs) g (recolor red wg) m1 u o bu bo (hu ∙ sym ho)
          (λ r. (cu, co)) in
      Balanced-fork_on gs p (recolor black wp) m2 t low bt below_it (sym (low_height hu ho))
        (λ r. clash r (color_of-recolor black wp))

-- What the rules say of the branches above a red branch with a red parent.
module _ (ps : Side) (p wp mp : ℕ) (o : Shape) (gs : Side) (g wg mg : ℕ) (u : Shape) (above : Place)
    (t : Shape) (gr : Grown (below ps p wp mp o (below gs g wg mg u above)) t)
    (r : color_of wp ≡ red) where
  pub height_other : black_height o ≡ black_height t
  height_other = gr.1.1

  pub black_other : top_color o ≡ black
  black_other = (gr.1.2 r).0

  pub black_grandparent : color_of wg ≡ black
  black_grandparent = (gr.1.2 r).1

  same_height : black_height t + is_counted (color_of wp) ≡ black_height t
  same_height = rw r omega arith

  pub height_uncle : black_height u ≡ black_height t
  height_uncle = gr.1.3.1 ∙ same_height

  pub above_height : BalancedAt above (black_height t + 1)
  above_height = rw (same_height, black_grandparent) at (gr.1.3.3)

  -- The parent is on the side of its branch that the branch is not on.
  pub Grown-settled :
      (m1 m2 : ℕ)
      → top_color u ≡ black
      → Balanced (settled gs p wp m2 g wg m1 t o u)
        × BalancedAt above (black_height (settled gs p wp m2 g wg m1 t o u))
  Grown-settled m1 m2 cu =
      let h = settled-height gs p wp m2 g wg m1 t o u height_uncle height_other in
      (
        settled-Balanced gs p wp m2 g wg m1 t o u (gr.0) (gr.1.0) (gr.1.3.0) height_uncle
            height_other cu black_other,
        rw h above_height,
      )

-- The uncle is red: the grandparent is red now, and the rules hold but for its own parent.
module _ (ps : Side) (p wp mp : ℕ) (o : Shape) (gs : Side) (g wg mg ua wu mu : ℕ) (ul ur : Shape)
    (above : Place) (t : Shape)
    (gr : Grown (below ps p wp mp o (below gs g wg mg (fork ua wu mu ul ur) above)) t)
    (r : color_of wp ≡ red) (ru : color_of wu ≡ red) where
  abbrev u : Shape
  u = fork ua wu mu ul ur

  abbrev u_black : Shape
  u_black = fork ua (recolor black wu) mu ul ur

  abbrev p_black : Shape
  p_black = fork_on ps p (recolor black wp) mp t o

  abbrev g_red : Shape
  g_red = fork_on gs g (recolor red wg) mg p_black u_black

  height_p : black_height p_black ≡ black_height t + 1
  height_p =
      black_height-fork_on ps p (recolor black wp) mp t o black (color_of-recolor black wp)
        (sym (height_other ps p wp mp o gs g wg mg u above t gr r))

  height_ul : black_height ul ≡ black_height t
  unfolding black_height
  height_ul =
      let h : black_height ul + is_counted (color_of wu) ≡ black_height t =
        height_uncle ps p wp mp o gs g wg mg u above t gr r in
      let h' : black_height ul + 0 ≡ black_height t = rw ru at h in omega (arith, h')

  height_u : black_height u_black ≡ black_height t + 1
  unfolding black_height
  height_u = rw (color_of-recolor black wu, height_ul) refl

  height_g : black_height g_red ≡ black_height t + 1
  height_g =
      black_height-fork_on gs g (recolor red wg) mg p_black u_black red (color_of-recolor red wg)
        (height_p ∙ sym height_u)
      ∙ omega (arith, height_p)

  top_p : top_color p_black ≡ black
  top_p = top_color-fork_on ps p (recolor black wp) mp t o ∙ color_of-recolor black wp

  g_red-Balanced : Balanced g_red
  g_red-Balanced =
      let below_p =
        Balanced-fork_on ps p (recolor black wp) mp t o (gr.0) (gr.1.0)
          (sym (height_other ps p wp mp o gs g wg mg u above t gr r))
          (λ e. clash e (color_of-recolor black wp)) in
      let bu = gr.1.3.0 in
      let below_u : Balanced u_black =
        (bu.0, bu.1, bu.2, λ e. clash e (color_of-recolor black wu)) in
      Balanced-fork_on gs g (recolor red wg) mg p_black u_black below_p below_u
        (height_p ∙ sym height_u) (λ e. (top_p, color_of-recolor black wu))

  pub Grown-red_uncle : Grown above g_red
  Grown-red_uncle = (
    g_red-Balanced,
    rw height_g (above_height ps p wp mp o gs g wg mg u above t gr r),
    top_color-fork_on gs g (recolor red wg) mg p_black u_black ∙ color_of-recolor red wg,
  )

-- A red branch does not count.
drop_red : (w h : ℕ) {n : ℕ} → color_of w ≡ red → n ≡ h + is_counted (color_of w) → n ≡ h
drop_red w h {n} e f = let f' : n ≡ h + 0 = rw e at f in omega (arith, f')

-- The parent turned below the branch.
module _ (k wk mk : ℕ) (kl ku : Shape) (p wp mp : ℕ) (o : Shape) (g wg mg : ℕ) (u : Shape)
    (above : Place) (n1 n2 : ℕ) (r : color_of wp ≡ red) where
  abbrev turned : Side → Shape
  turned gs =
      fork p wp n1 (first_on gs o (first_on gs kl ku))
        (first_on (opposite gs) o (first_on gs kl ku))

  pub Grown-turned :
      (gs : Side)
      → Grown (below (opposite gs) p wp mp o (below gs g wg mg u above)) (fork k wk mk kl ku)
      → Grown
          (below gs k wk n2 (first_on (opposite gs) kl ku) (below gs g wg mg u above))
          (turned gs)
  unfolding black_height
  Grown-turned left_side gr =
      let (bl, bu, h, c) = gr.0 in
      let e : black_height o ≡ black_height kl + is_counted (color_of wk) = gr.1.1 in
      let e' : black_height o ≡ black_height kl = drop_red wk _ (gr.2) e in
      let up = gr.1.3 in
      let ht : black_height kl + is_counted (color_of wk) + is_counted (color_of wp)
          ≡ black_height o + is_counted (color_of wp) + is_counted (color_of wk) =
        omega (arith, e') in
      (
        (gr.1.0, bl, e', λ q. ((gr.1.2 r).0, (c (gr.2)).0)),
        (
          bu,
          sym (drop_red wp _ r (rw (e', h) refl)),
          λ q. ((c (gr.2)).1, (gr.1.2 r).1),
          rw ht at up,
        ),
        r,
      )
  Grown-turned right_side gr =
      let (bl, bu, h, c) = gr.0 in
      let e : black_height o ≡ black_height kl + is_counted (color_of wk) = gr.1.1 in
      let e' : black_height ku ≡ black_height o = sym (drop_red wk _ (gr.2) e ∙ h) in
      let up = gr.1.3 in
      let ht : black_height kl + is_counted (color_of wk) + is_counted (color_of wp)
          ≡ black_height ku + is_counted (color_of wp) + is_counted (color_of wk) =
        omega (arith, h) in
      (
        (bu, gr.1.0, e', λ q. ((c (gr.2)).1, (gr.1.2 r).0)),
        (bl, sym (drop_red wp _ r (rw h refl)), λ q. ((c (gr.2)).0, (gr.1.2 r).1), rw ht at up),
        r,
      )
