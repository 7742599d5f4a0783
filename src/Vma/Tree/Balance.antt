-- ===== src/Vma/Tree/Balance.antt =====
-- The red-black rules of a `VMATree`: no red branch has a red child, and all ways down from a branch
-- pass as many black branches.
use x.Base.{◌⊎◌, inl, inr, ℕ, ◌+◌, ◌≡◌, refl, sym, ◌∙◌}
use x.Vma.Node.{NodeColor, red, black, Side, left_side, right_side}
use x.Vma.Tree.Shape.{Shape, tip, fork, fork_on, Place, top, below, plug}
use x.Vma.Tree.Zoom.{color_of}
use x.Vma.Tree.Measure.{top_color, remeasured}

-- A black branch counts.
abbrev pub is_counted : NodeColor → ℕ
is_counted red = 0
is_counted black = 1

unfoldable pub black_height : Shape → ℕ
black_height (tip a l) = 0
black_height (fork a w m lower upper) = black_height lower + is_counted (color_of w)

abbrev pub Balanced : Shape → Type 0
Balanced (tip a l) = Unit {0}
Balanced (fork a w m lower upper) =
    Balanced lower
    × Balanced upper
    × (black_height lower ≡ black_height upper)
    × (color_of w ≡ red → (top_color lower ≡ black) × (top_color upper ≡ black))

-- The two colors.
pub NodeColor-cases : (c : NodeColor) → (c ≡ red) ⊎ (c ≡ black)
NodeColor-cases red = inl refl
NodeColor-cases black = inr refl

-- A branch has one color.
pub clash {ℓ} : {A : Type ℓ} {c : NodeColor} → c ≡ red → c ≡ black → A
clash p q = absurd (cc)

-- A branch in the order of a side.
pub Balanced-fork_on :
    (side : Side) (a w m : ℕ) (near far : Shape)
    → Balanced near
    → Balanced far
    → black_height near ≡ black_height far
    → (color_of w ≡ red → (top_color near ≡ black) × (top_color far ≡ black))
    → Balanced (fork_on side a w m near far)
Balanced-fork_on left_side a w m near far p q h c = (p, q, h, c)
Balanced-fork_on right_side a w m near far p q h c = (q, p, sym h, λ r. ((c r).1, (c r).0))

pub black_height-fork_on :
    (side : Side) (a w m : ℕ) (near far : Shape) (c : NodeColor)
    → color_of w ≡ c
    → black_height near ≡ black_height far
    → black_height (fork_on side a w m near far) ≡ black_height near + is_counted c
unfolding black_height
black_height-fork_on left_side a w m near far c e h = rw e refl
black_height-fork_on right_side a w m near far c e h = rw (e, h) refl

pub top_color-fork_on :
    (side : Side) (a w m : ℕ) (near far : Shape)
    → top_color (fork_on side a w m near far) ≡ color_of w
top_color-fork_on left_side a w m near far = refl
top_color-fork_on right_side a w m near far = refl

-- The color of the branch above a place.
abbrev pub color_above : Place → NodeColor
color_above top = black
color_above (below side a w m other above) = color_of w

-- The rules around a place for a tree of a black height, but for the link between the tree and the
-- branch above it.
abbrev pub BalancedAt : Place → ℕ → Type 0
BalancedAt top h = Unit {0}
BalancedAt (below side a w m other above) h =
    Balanced other
    × (black_height other ≡ h)
    × (color_of w ≡ red → (top_color other ≡ black) × (color_above above ≡ black))
    × BalancedAt above (h + is_counted (color_of w))

-- A color that is black if it is red.
black_if_red : (c : NodeColor) → (c ≡ red → c ≡ black) → c ≡ black
black_if_red red f = f refl
black_if_red black f = refl

-- A balanced tree at a balanced place, where one of the two colors is black.
pub Balanced-plug :
    (c : Place) (t : Shape)
    → Balanced t
    → BalancedAt c (black_height t)
    → (color_above c ≡ red → top_color t ≡ black)
    → Balanced (plug c t)
Balanced-plug top t b at link = b
Balanced-plug (below side a w m other above) t b at link =
    let whole =
      Balanced-fork_on side a w m t other b (at.0) (sym (at.1)) (λ r. (link r, (at.2 r).0)) in
    let height = black_height-fork_on side a w m t other (color_of w) refl (sym (at.1)) in
    Balanced-plug above (fork_on side a w m t other) whole (rw height (at.3)) (λ r.
      top_color-fork_on side a w m t other ∙ black_if_red (color_of w) (λ e. clash r ((at.2 e).1)))

-- A red branch at a place where the rules hold but for the link to the branch above, which may be red.
abbrev pub Grown : Place → Shape → Type 0
Grown c t = Balanced t × BalancedAt c (black_height t) × (top_color t ≡ red)

-- The rules hold if the branch above is black.
pub Grown-plug : (c : Place) (t : Shape) → color_above c ≡ black → Grown c t → Balanced (plug c t)
Grown-plug c t e (b, at, r) = Balanced-plug c t b at (λ is_red. clash is_red e)

-- The rules of a branch, in the order of a side.
fork_on-Balanced :
    (side : Side) (a w m : ℕ) (near far : Shape)
    → Balanced (fork_on side a w m near far)
    → Balanced near
      × Balanced far
      × (black_height near ≡ black_height far)
      × (color_of w ≡ red → (top_color near ≡ black) × (top_color far ≡ black))
fork_on-Balanced left_side a w m near far b = b
fork_on-Balanced right_side a w m near far b = (b.1, b.0, sym (b.2), λ r. ((b.3 r).1, (b.3 r).0))

-- The rules of a tree at a place, with those around the place.
pub plug-Balanced :
    (c : Place) (t : Shape)
    → Balanced (plug c t)
    → Balanced t × BalancedAt c (black_height t) × (color_above c ≡ red → top_color t ≡ black)
plug-Balanced top t b = (b, tt, λ r. clash r refl)
plug-Balanced (below side a w m other above) t b =
    let (bw, at, link) = plug-Balanced above (fork_on side a w m t other) b in
    let (bt, bo, h, c) = fork_on-Balanced side a w m t other bw in
    let height = black_height-fork_on side a w m t other (color_of w) refl h in
    (
      bt,
      (
        bo,
        sym h,
        λ r. (
          (c r).1,
          black_if_red _ (λ e. clash r (sym (top_color-fork_on side a w m t other) ∙ link e)),
        ),
        rw height at at,
      ),
      λ r. (c r).0,
    )

-- A tree in place of one with the same color at the top and the same height.
pub replaced-Balanced :
    (c : Place) (t t' : Shape)
    → Balanced t'
    → black_height t' ≡ black_height t
    → (top_color t ≡ black → top_color t' ≡ black)
    → Balanced (plug c t)
    → Balanced (plug c t')
replaced-Balanced c t t' b' h e b =
    let (bt, at, link) = plug-Balanced c t b in Balanced-plug c t' b' (rw h at) (λ r. e (link r))

-- The empty areas do not count.
pub remeasured-Balanced : (c : Place) (t : Shape) → Balanced (plug c t) → Balanced (remeasured c t)
unfolding black_height
remeasured-Balanced top t b = b
remeasured-Balanced (below left_side a w m other above) t b = remeasured-Balanced above _ (
    replaced-Balanced above (fork a w m t other) _ ((plug-Balanced above (fork a w m t other) b).0)
      refl (λ e. e) b)
remeasured-Balanced (below right_side a w m other above) t b = remeasured-Balanced above _ (
    replaced-Balanced above (fork a w m other t) _ ((plug-Balanced above (fork a w m other t) b).0)
      refl (λ e. e) b)
