-- ===== src/Vma/Tree/Leaves.antt =====
-- Writes to the leaf at a place of a `VMATree`.
use x.Base.{ℕ, ◌∙◌, arith}
use x.Vma.Node.{LeafNode, leaf}
use x.Vma.Tree.{VmaTree}
use x.Vma.Tree.Shape.{Shape, tip, fork_on, Place, top, below, plug, occurs, Stands}
use x.Vma.Tree.Heap.{Writes, HoldsAt-same, differs}
use x.Vma.Tree.Zoom.{zoom_in}

-- A place of the tree, from the top.
pub zoom_down : {s : VmaTree} (c : Place) (t : Shape) → Stands s top (plug c t) → Stands s c t
zoom_down top t st = st
zoom_down (below side a w m other above) t st =
    zoom_in side a w m other above t (zoom_down above (fork_on side a w m t other) st)

-- Another leaf is written at a place.
pub Writes-tip :
    (s t : VmaTree) (c : Place) (a : ℕ) (l l' : LeafNode)
    → Stands s c (tip a l)
    → Writes s a (leaf l') t
    → Stands t c (tip a l')
unfolding occurs
Writes-tip s t c a l l' st wr = record {
  root = wr.root ∙ st.root;
  here = wr.at;
  around =
      HoldsAt-same _ _ a c (λ b e. wr.others b (differs b a (omega (arith, st.once b))))
        (st.around);
  once = λ b. st.once b;
}
