-- ===== src/Vma/Tree/Link/Reads.antt =====
-- What `fix_insert` reads around a branch of a tree that the memory holds.
use x.Base.{ℕ, ◌≤◌, ◌≡◌, ◌≢◌, refl, ap, ◌∙◌, Bool, true, false, ◌==◌, Option, some, arith}
use x.Vma.Node.{Side, left_side, right_side, BranchNode, Node, branch, color, branch_color}
use x.Vma.Tree.{VmaTree, node_at, get_parent, get_grandparent, is_left_side, is_right_side}
use x.Vma.Tree.Link.{is_on}
use x.Vma.Tree.Shape.{
  Shape, tip, fork, above_of, Holds, fork_on, Place, top, below, plug, address_of, occurs_at,
  Stands, branch_on, root_at,
}
use x.Vma.Tree.Heap.{occurs-address_of, counts_itself}
use x.Vma.Tree.Zoom.{color_of, zoom_out}
use x.Vma.Tree.Measure.{top_color}

pub get_parent_lem :
    (s : VmaTree) (k p : ℕ) (b : BranchNode)
    → node_at s k ≡ branch b
    → b.parent ≡ some p
    → get_parent k s ≡ some (p, s)
unfolding get_parent
get_parent_lem s k p b h e = ground arith

pub get_grandparent_lem :
    (s : VmaTree) (k p g : ℕ)
    → get_parent k s ≡ some (p, s)
    → get_parent p s ≡ some (g, s)
    → get_grandparent k s ≡ some (g, s)
unfolding get_grandparent
get_grandparent_lem s k p g e f = ground arith

-- Whether two sides are the same.
abbrev pub same_side : Side → Side → Bool
same_side left_side left_side = true
same_side left_side right_side = false
same_side right_side left_side = false
same_side right_side right_side = true

pub is_on_lem :
    (side side' : Side) (s : VmaTree) (k p w m far : ℕ) (q : Option ℕ) (b : BranchNode)
    → node_at s k ≡ branch b
    → b.parent ≡ some p
    → node_at s p ≡ branch (branch_on side' w m q k far)
    → k ≢ far
    → is_on side k s ≡ some (same_side side side', s)
unfolding is_on is_left_side is_right_side
is_on_lem left_side left_side s k p w m far q b h e f ne = ground arith
is_on_lem left_side right_side s k p w m far q b h e f ne = ground arith
is_on_lem right_side left_side s k p w m far q b h e f ne = ground arith
is_on_lem right_side right_side s k p w m far q b h e f ne = ground arith

pub color-branch_on :
    (side : Side) (w m : ℕ) (p : Option ℕ) (near far : ℕ)
    → color (branch (branch_on side w m p near far)) ≡ color_of w
unfolding color branch_color color_of
color-branch_on left_side w m p near far = refl
color-branch_on right_side w m p near far = refl

-- The colors of a node, by the tree.
pub color_parent :
    (s : VmaTree) (side : Side) (a w m : ℕ) (other : Shape) (above : Place) (t : Shape)
    → Stands s (below side a w m other above) t
    → color (node_at s a) ≡ color_of w
color_parent s side a w m other above t st =
    ap color (st.around.0)
    ∙ color-branch_on side w m (above_of above) (address_of t) (address_of other)

pub color-top_color :
    (nodes : ℕ → Node) (parent : Option ℕ) (t : Shape)
    → Holds nodes parent t
    → color (nodes (address_of t)) ≡ top_color t
unfolding color
color-top_color nodes parent (tip a l) h = ap color h
color-top_color nodes parent (fork a w m lower upper) h =
    ap color (h.0) ∙ color-branch_on left_side w m parent (address_of lower) (address_of upper)

-- The tree at the top.
pub zoom_top : {s : VmaTree} (c : Place) (t : Shape) → Stands s c t → Stands s top (plug c t)
zoom_top top t st = st
zoom_top (below side a w m other above) t st =
    zoom_top above (fork_on side a w m t other) (zoom_out side a w m other above t st)

-- The first branch of a place stands above it.
pub occurs_at-root_at :
    (side : Side) (a w m : ℕ) (other : Shape) (above : Place) (hole : ℕ)
    → 1 ≤ occurs_at (root_at (below side a w m other above) hole) (below side a w m other above)
unfolding occurs_at
occurs_at-root_at side a w m other top hole = omega (arith, counts_itself a)
occurs_at-root_at side a w m other (below side' a' w' m' other' above) hole =
    omega (arith, occurs_at-root_at side' a' w' m' other' above a)

-- No branch below the top is the root.
pub not_root :
    (s : VmaTree) (side : Side) (a w m : ℕ) (other : Shape) (above : Place) (t : Shape)
    → Stands s (below side a w m other above) t
    → (address_of t == s.root) ≡ false
not_root s side a w m other above t st =
    let up = occurs_at-root_at side a w m other above (address_of t) in
    let up' = rw (← st.root) at up in
    let ne : address_of t ≢ s.root = λ i.
      let up'' = rw (← i) at up' in
      omega (arith, st.once (address_of t), occurs-address_of t, up'') in
    ground arith
