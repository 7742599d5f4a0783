-- ===== src/Vma/Tree/Link/Round.antt =====
-- A round of `fix_insert` below a black uncle, with the parent on either side.
use x.Base.{ℕ, ◌≡◌, refl, ap, ◌∙◌, true, false, some, arith}
use x.Vma.Node.{red, black, Side, left_side, right_side, opposite, color}
use x.Vma.Tree.{VmaTree, node_at, get_parent}
use x.Vma.Tree.Link.{rotate, fix_black_uncle}
use x.Vma.Tree.Shape.{Shape, fork, fork_on, Place, below, address_of, Stands}
use x.Vma.Tree.Heap.{area_of}
use x.Vma.Tree.Same.{Same, Same-refl, Same-trans, Same-fork_on, Same-rotated}
use x.Vma.Tree.Measure.{top_color}
use x.Vma.Tree.Balance.{black_height, Balanced, BalancedAt, Grown}
use x.Vma.Tree.Link.Colors.{Grown-settled, Grown-turned}
use x.Vma.Tree.Zoom.{color_of, recolor, color_of-recolor, zoom_in}
use x.Vma.Tree.Rotate.Steps.{max_on}
use x.Vma.Tree.Rotate.{rotate-Stands}
use x.Vma.Tree.Link.Reads.{get_parent_lem, same_side, color-branch_on}
use x.Vma.Tree.Link.Uncle.{
  fork_on-opposite, parent_k, is_on_k, out_p, first_on, fork_as, fork_on_as,
}
use x.Vma.Tree.Link.Settle.{flip_back, settle_lem, settle-Same}

-- What a black uncle leaves: the loop goes on at a branch below a black one, in the same place, and
-- the tree there is the same one. The red-black rules hold there if `Ruled` says so.
pub record Settled (Ruled : Type 0) (gs : Side) (above : Place) (old : Shape) (k' : ℕ) (t : VmaTree)
    : Type 0 where
  pub parent : ℕ
  pub packed : ℕ
  pub area : ℕ
  pub other : Shape
  pub focus : Shape
  pub stands : Stands t (below gs parent packed area other above) focus
  pub named : address_of focus ≡ k'
  pub parent_is : get_parent k' t ≡ some (parent, t)
  pub color_is : color (node_at t parent) ≡ black
  pub same : Same old (fork_on gs parent packed area focus other)
  pub black_is : color_of packed ≡ black
  pub balanced :
      Ruled
      → Balanced (fork_on gs parent packed area focus other)
        × BalancedAt above (black_height (fork_on gs parent packed area focus other))

same_side_refl : (side : Side) → same_side side side ≡ true
same_side_refl left_side = refl
same_side_refl right_side = refl

same_side-opposite : (side : Side) → same_side (opposite side) side ≡ false
same_side-opposite left_side = refl
same_side-opposite right_side = refl

module _ (k wk mk : ℕ) (kl ku : Shape) (p mp : ℕ) (o : Shape) (gs : Side) (g mg : ℕ) (u : Shape)
    (above : Place) (wp wg : ℕ) (s : VmaTree) where
  abbrev nk : Shape
  nk = fork k wk mk kl ku

  -- The rules hold but for the branch, its parent is red, and its uncle black.
  abbrev pub Ruled : Side → Type 0
  Ruled ps =
      Grown (below ps p wp mp o (below gs g wg mg u above)) nk
      × (color_of wp ≡ red)
      × (top_color u ≡ black)

  -- The branch and its parent are on the same side.
  pub outer-Settled :
      Stands s (below gs p wp mp o (below gs g wg mg u above)) nk
      → (k' : ℕ) × (t : VmaTree) × (fix_black_uncle gs k s ≡ some (k', t))
        × Settled (Ruled gs) gs above (fork_on gs g wg mg (fork_on gs p wp mp nk o) u) k' t
  unfolding fix_black_uncle
  outer-Settled st =
      let (s1, t, run1, run2, run3, st') =
        settle_lem k wk mk kl ku p mp o gs g mg u above wp wg s st in
      let side = is_on_k k wk mk kl ku gs p mp o gs g mg u above st (opposite gs) in
      let is_not = same_side-opposite gs in
      (
        k,
        t,
        ground arith,
        record {
          parent = p;
          packed = recolor black wp;
          area = _;
          other = _;
          focus = nk;
          stands = st';
          named = refl;
          parent_is = get_parent_lem t k p _ (st'.here.0) refl;
          color_is =
              ap color (st'.around.0)
              ∙ color-branch_on gs (recolor black wp) _ _ k _
              ∙ color_of-recolor black wp;
          same = settle-Same k wk mk kl ku p mp o gs g mg u above wp wg;
          black_is = color_of-recolor black wp;
          balanced = λ r. Grown-settled gs p wp mp o gs g wg mg u above nk (r.0) (r.1) _ _ (r.2);
        },
      )

  abbrev n1 : ℕ
  n1 = max_on gs (area_of o) (area_of (first_on gs kl ku))

  abbrev n2 : ℕ
  n2 = max_on gs n1 (area_of (first_on (opposite gs) kl ku))

  abbrev turned : Shape
  turned =
      fork p wp n1 (first_on gs o (first_on gs kl ku))
        (first_on (opposite gs) o (first_on gs kl ku))

  inner_turned :
      Stands s (below (opposite gs) p wp mp o (below gs g wg mg u above)) nk
      → (t : VmaTree) × (rotate gs p s ≡ some (tt, t))
        × Stands t
            (below gs k wk n2 (first_on (opposite gs) kl ku) (below gs g wg mg u above))
            turned
  inner_turned st =
      let b = first_on gs kl ku in
      let d = first_on (opposite gs) kl ku in
      let c1 = below gs g wg mg u above in
      let o1 =
        flip_back c1 gs p wp mp o nk
          (out_p k wk mk kl ku (opposite gs) p mp o gs g mg u above st) in
      let o2 = rw (fork_as gs k wk mk kl ku) at o1 in
      let (t1, run1, st1, same1) = rotate-Stands s c1 gs p wp mp k wk mk o b d o2 in
      let in1 = zoom_in gs k wk n2 d c1 (fork_on gs p wp n1 o b) st1 in
      (t1, run1, rw (fork_on_as gs p wp n1 o b) at in1)

  turned-Same :
      Same
        (fork_on (opposite gs) p wp mp nk o)
        (fork_on gs k wk n2 turned (first_on (opposite gs) kl ku))
  turned-Same =
      let b = first_on gs kl ku in
      let d = first_on (opposite gs) kl ku in
      let rotated = Same-rotated gs p wp mp k wk mk n1 n2 o b d in
      rw (fork_on_as gs p wp n1 o b) at
        (rw (fork_on-opposite gs p wp mp o nk) at (rw (← fork_as gs k wk mk kl ku) at rotated))

  -- The branch and its parent are on different sides: the parent is turned below the branch first.
  pub inner-Settled :
      Stands s (below (opposite gs) p wp mp o (below gs g wg mg u above)) nk
      → (k' : ℕ) × (t : VmaTree) × (fix_black_uncle gs k s ≡ some (k', t))
        × Settled
            (Ruled (opposite gs))
            gs
            above
            (fork_on gs g wg mg (fork_on (opposite gs) p wp mp nk o) u)
            k'
            t
  unfolding fix_black_uncle
  inner-Settled st =
      let (t1, run1, in2) = inner_turned st in
      let d = first_on (opposite gs) kl ku in
      let pl = first_on gs o (first_on gs kl ku) in
      let pu = first_on (opposite gs) o (first_on gs kl ku) in
      let (s1, t, run2, run3, run4, st') =
        settle_lem p wp n1 pl pu k n2 d gs g mg u above wk wg t1 in2 in
      let side = is_on_k k wk mk kl ku (opposite gs) p mp o gs g mg u above st (opposite gs) in
      let is = same_side_refl (opposite gs) in
      let up = parent_k k wk mk kl ku (opposite gs) p mp o gs g mg u above st in
      (
        p,
        t,
        ground arith,
        record {
          parent = k;
          packed = recolor black wk;
          area = _;
          other = _;
          focus = turned;
          stands = st';
          named = refl;
          parent_is = get_parent_lem t p k _ (st'.here.0) refl;
          color_is =
              ap color (st'.around.0)
              ∙ color-branch_on gs (recolor black wk) _ _ p _
              ∙ color_of-recolor black wk;
          same =
              Same-trans (Same-fork_on gs g wg wg mg mg refl turned-Same (Same-refl u))
                (settle-Same p wp n1 pl pu k n2 d gs g mg u above wk wg);
          black_is = color_of-recolor black wk;
          balanced = λ r.
              Grown-settled gs k wk n2 d gs g wg mg u above turned
                (Grown-turned k wk mk kl ku p wp mp o g wg mg u above n1 n2 (r.1) gs (r.0)) (r.0.2)
                _ _ (r.2);
        },
      )
