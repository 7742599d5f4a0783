-- ===== src/Vma/Tree/Link/Uncle.antt =====
-- A round of `fix_insert` below a red parent: the colors of the parents, then a red or a black uncle.
use x.Base.{ℕ, ◌+◌, ◌≤◌, ◌≡◌, refl, ap, ◌∙◌, ◌==◌, to_bit, some, arith}
use x.Vma.Node.{red, black, Side, left_side, right_side, opposite, color}
use x.Vma.Tree.{VmaTree, node_at, get_parent, get_grandparent}
use x.Vma.Tree.Link.{is_on, recolor_parents}
use x.Vma.Tree.Shape.{
  Shape, fork, fork_on, Place, below, address_of, above_of, occurs, occurs_at, Stands,
  parent-branch_on,
}
use x.Vma.Tree.Heap.{occurs-address_of, counts_itself}
use x.Vma.Tree.Zoom.{color_of, recolor, zoom_out, zoom_in, set_color-Stands}
use x.Vma.Tree.Link.Reads.{
  get_parent_lem, get_grandparent_lem, same_side, is_on_lem, color-branch_on,
}

-- A branch from the other side.
pub fork_on-opposite :
    (side : Side) (a w m : ℕ) (near far : Shape)
    → fork_on side a w m near far ≡ fork_on (opposite side) a w m far near
fork_on-opposite left_side a w m near far = refl
fork_on-opposite right_side a w m near far = refl

module _ (k wk mk : ℕ) (kl ku : Shape) (ps : Side) (p mp : ℕ) (o : Shape) (gs : Side) (g mg : ℕ)
    (u : Shape) (above : Place) where
  abbrev pub node_k : Shape
  node_k = fork k wk mk kl ku

  -- The branch `k` below its parent and its grandparent.
  abbrev pub below_two : (wp wg : ℕ) → Place
  below_two wp wg = below ps p wp mp o (below gs g wg mg u above)

  module _ {wp wg : ℕ} {s : VmaTree} (st : Stands s (below_two wp wg) node_k) where
    pub parent_k : get_parent k s ≡ some (p, s)
    parent_k = get_parent_lem s k p _ (st.here.0) refl

    pub parent_p : get_parent p s ≡ some (g, s)
    parent_p =
        get_parent_lem s p g _ (st.around.0) (parent-branch_on ps wp mp (some g) k (address_of o))

    pub grandparent_k : get_grandparent k s ≡ some (g, s)
    grandparent_k = get_grandparent_lem s k p g parent_k parent_p

    pub color_p : color (node_at s p) ≡ color_of wp
    color_p = ap color (st.around.0) ∙ color-branch_on ps wp mp (some g) k (address_of o)

    apart :
        (x : ℕ)
        → to_bit (x == p)
            + occurs x o
            + (to_bit (x == g) + occurs x u + occurs_at x above)
            + occurs x node_k
          ≤ 1
    unfolding occurs_at
    apart x = st.once x

    pub is_on_k : (side : Side) → is_on side k s ≡ some (same_side side ps, s)
    is_on_k side =
        is_on_lem side ps s k p wp mp (address_of o) (some g) _ (st.here.0) refl (st.around.0) (λ i.
          let e = rw (← i) at (occurs-address_of o) in
          omega (arith, apart k, occurs-address_of node_k, e))

    pub is_on_p : (side : Side) → is_on side p s ≡ some (same_side side gs, s)
    is_on_p side =
        is_on_lem side gs s p g wg mg (address_of u) (above_of above) _ (st.around.0)
          (parent-branch_on ps wp mp (some g) k (address_of o)) (st.around.2.0)
          (λ i.
            let e = rw (← i) at (occurs-address_of u) in omega (arith, apart p, counts_itself p, e))

    abbrev at_g : Shape
    at_g = fork_on ps p wp mp node_k o

    pub out_p : Stands s (below gs g wg mg u above) at_g
    out_p = zoom_out ps p wp mp o (below gs g wg mg u above) node_k st

    pub out_g : Stands s above (fork_on gs g wg mg at_g u)
    out_g = zoom_out gs g wg mg u above at_g out_p

  -- `recolor_parents` at `k`.
  pub recolor_parents_lem :
      (wp wg : ℕ) (s : VmaTree)
      → Stands s (below_two wp wg) node_k
      → (t : VmaTree) × (recolor_parents k s ≡ some (tt, t))
        × Stands t (below_two (recolor black wp) (recolor red wg)) node_k
  unfolding recolor_parents
  recolor_parents_lem wp wg s st =
      let (s1, run1, st1) =
        set_color-Stands s (below gs g wg mg u above) ps p wp mp node_k o black (out_p st) in
      let in1 = zoom_in ps p (recolor black wp) mp o (below gs g wg mg u above) node_k st1 in
      let (t, run2, st2) =
        set_color-Stands s1 above gs g wg mg (fork_on ps p (recolor black wp) mp node_k o) u red
          (out_g in1) in
      let in2 =
        zoom_in gs g (recolor red wg) mg u above (fork_on ps p (recolor black wp) mp node_k o)
          st2 in
      let in3 =
        zoom_in ps p (recolor black wp) mp o (below gs g (recolor red wg) mg u above) node_k in2 in
      let run3 = parent_k st in let run4 = grandparent_k in1 in (t, ground arith, in3)

-- A branch by its children on the two sides.
abbrev pub first_on : Side → Shape → Shape → Shape
first_on left_side x y = x
first_on right_side x y = y

pub fork_as :
    (side : Side) (a w m : ℕ) (lower upper : Shape)
    → fork a w m lower upper
      ≡ fork_on side a w m (first_on side lower upper) (first_on (opposite side) lower upper)
fork_as left_side a w m lower upper = refl
fork_as right_side a w m lower upper = refl

pub fork_on_as :
    (side : Side) (a w m : ℕ) (near far : Shape)
    → fork_on side a w m near far
      ≡ fork a w m (first_on side near far) (first_on (opposite side) near far)
fork_on_as left_side a w m near far = refl
fork_on_as right_side a w m near far = refl
