-- ===== src/Vma/Tree/Measure.antt =====
-- The empty areas of the branches of a `VMATree`, which `update_max_empty_area_data` brings up to date
-- on the way to the root.
use x.Base.{ℕ, zero, suc, ◌+◌, ◌≤◌, ◌≡◌, refl, ap, ◌∙◌, max, some, arith}
use x.Vma.Node.{NodeColor, black, left_side, right_side, branch, empty_area}
use x.Vma.Tree.{VmaTree, node_at, update_max_empty_area_data, children_area}
use x.Vma.Tree.Shape.{
  height, Shape, tip, fork, Place, top, below, plug, address_of, above_of, Stands, branch_on,
}
use x.Vma.Tree.Heap.{put, put-Writes, modify-put, area_of, empty_area-Holds}
use x.Vma.Tree.Same.{Same, Same-refl, Same-fork_on}
use x.Vma.Tree.Zoom.{color_of, zoom_out, Writes-Stands}

-- Each branch has the larger one of its children's empty areas.
abbrev pub Measured : Shape → Type 0
Measured (tip a l) = Unit {0}
Measured (fork a w m lower upper) =
    (m ≡ max (area_of lower) (area_of upper)) × Measured lower × Measured upper

-- So do the branches beside the way up from a place.
abbrev pub MeasuredAt : Place → Type 0
MeasuredAt top = Unit {0}
MeasuredAt (below side a w m other above) = Measured other × MeasuredAt above

-- A tree with the areas of the branches above a place brought up to date.
abbrev pub remeasured : Place → Shape → Shape
remeasured top t = t
remeasured (below left_side a w m other above) t =
    remeasured above (fork a w (max (area_of t) (area_of other)) t other)
remeasured (below right_side a w m other above) t =
    remeasured above (fork a w (max (area_of other) (area_of t)) other t)

pub remeasured-Measured :
    (c : Place) (t : Shape) → MeasuredAt c → Measured t → Measured (remeasured c t)
remeasured-Measured top t mc mt = mt
remeasured-Measured (below left_side a w m other above) t mc mt =
    remeasured-Measured above _ (mc.1) (refl, mt, mc.0)
remeasured-Measured (below right_side a w m other above) t mc mt =
    remeasured-Measured above _ (mc.1) (refl, mc.0, mt)

pub remeasured-Same : (c : Place) (t t' : Shape) → Same t t' → Same (plug c t) (remeasured c t')
remeasured-Same top t t' p = p
remeasured-Same (below left_side a w m other above) t t' p =
    remeasured-Same above _ _ (Same-fork_on left_side a w w m _ refl p (Same-refl other))
remeasured-Same (below right_side a w m other above) t t' p =
    remeasured-Same above _ _ (Same-fork_on right_side a w w m _ refl p (Same-refl other))

abbrev pub top_color : Shape → NodeColor
top_color (tip a l) = black
top_color (fork a w m lower upper) = color_of w

pub remeasured-top_color :
    (c : Place) (a w m m' : ℕ) (l u l' u' : Shape)
    → top_color (remeasured c (fork a w m' l' u')) ≡ top_color (plug c (fork a w m l u))
remeasured-top_color top a w m m' l u l' u' = refl
remeasured-top_color (below left_side b v n other above) a w m m' l u l' u' =
    remeasured-top_color above b v n _ _ _ _ _
remeasured-top_color (below right_side b v n other above) a w m m' l u l' u' =
    remeasured-top_color above b v n _ _ _ _ _

-- A round of the loop.
update_step :
    (rounds a w m : ℕ) (c : Place) (lower upper : Shape) (s : VmaTree)
    → Stands s c (fork a w m lower upper)
    → (t : VmaTree) × (update_max_empty_area_data (suc rounds) (some a) s
        ≡ update_max_empty_area_data rounds (above_of c) t)
      × Stands t c (fork a w (max (area_of lower) (area_of upper)) lower upper)
unfolding update_max_empty_area_data children_area
update_step rounds a w m c lower upper s st =
    let n = max (area_of lower) (area_of upper) in
    let b = branch_on left_side w m (above_of c) (address_of lower) (address_of upper) in
    let b' = branch_on left_side w n (above_of c) (address_of lower) (address_of upper) in
    let e1 = empty_area-Holds _ _ lower (st.here.1) in
    let e2 = empty_area-Holds _ _ upper (st.here.2) in
    let e3 = modify-put s a (λ x. record x { max_empty_area_size = n }) b (st.here.0) in
    let e4 = st.here.0 in
    let e5 : max (empty_area (node_at s (address_of lower)))
          (empty_area (node_at s (address_of upper)))
        ≡ n =
      ap (λ x. max x (empty_area (node_at s (address_of upper)))) e1
      ∙ ap (λ x. max (area_of lower) x) e2 in
    (
      put s a (branch b'),
      ground arith,
      Writes-Stands s _ c left_side a w m w n lower upper st (put-Writes s a (branch b')),
    )

pub update_lem :
    (rounds : ℕ) (c : Place) (a w m : ℕ) (lower upper : Shape) (s : VmaTree)
    → 2 + height c ≤ rounds
    → Stands s c (fork a w m lower upper)
    → (t : VmaTree) × (update_max_empty_area_data rounds (some a) s ≡ some (tt, t))
      × Stands t top (remeasured c (fork a w (max (area_of lower) (area_of upper)) lower upper))
unfolding height update_max_empty_area_data
update_lem zero c a w m lower upper s h st = absurd (omega arith)
update_lem (suc zero) c a w m lower upper s h st = absurd (omega arith)
update_lem (suc (suc n)) top a w m lower upper s h st =
    let (t, run, st') = update_step (suc n) a w m top lower upper s st in (t, run, st')
update_lem (suc (suc n)) (below left_side b v k other above) a w m lower upper s h st =
    let c = below left_side b v k other above in
    let (t, run, st') = update_step (suc n) a w m c lower upper s st in
    let tree = fork a w (max (area_of lower) (area_of upper)) lower upper in
    let (u, run', st2) =
      update_lem (suc n) above b v k tree other t (omega arith)
        (zoom_out left_side b v k other above tree st') in
    (u, run ∙ run', st2)
update_lem (suc (suc n)) (below right_side b v k other above) a w m lower upper s h st =
    let c = below right_side b v k other above in
    let (t, run, st') = update_step (suc n) a w m c lower upper s st in
    let tree = fork a w (max (area_of lower) (area_of upper)) lower upper in
    let (u, run', st2) =
      update_lem (suc n) above b v k other tree t (omega arith)
        (zoom_out right_side b v k other above tree st') in
    (u, run ∙ run', st2)

-- From a branch whose children, like the trees beside the way up, have their empty areas up to date,
-- `update_max_empty_area_data` ends without a panic within two rounds more than the branch has branches
-- above it. Then the whole tree has its empty areas up to date: each branch has the larger one of its
-- children's. The areas in order, the branches and the color of the root are those from before.
pub update_max_empty_area_data-Measured :
    (rounds : ℕ) (c : Place) (a w m : ℕ) (lower upper : Shape) (s : VmaTree)
    → 2 + height c ≤ rounds
    → Stands s c (fork a w m lower upper)
    → MeasuredAt c
    → Measured lower
    → Measured upper
    → (t : VmaTree) × (tree : Shape) × (update_max_empty_area_data rounds (some a) s ≡ some (tt, t))
      × Stands t top tree
      × Measured tree
      × Same (plug c (fork a w m lower upper)) tree
      × (top_color tree ≡ top_color (plug c (fork a w m lower upper)))
update_max_empty_area_data-Measured rounds c a w m lower upper s h st mc ml mu =
    let n = max (area_of lower) (area_of upper) in
    let (t, run, st') = update_lem rounds c a w m lower upper s h st in
    (
      t,
      remeasured c (fork a w n lower upper),
      run,
      st',
      remeasured-Measured c (fork a w n lower upper) mc (refl, ml, mu),
      remeasured-Same c _ _
          (Same-fork_on left_side a w w m n refl (Same-refl lower) (Same-refl upper)),
      remeasured-top_color c a w m n lower upper lower upper,
    )
