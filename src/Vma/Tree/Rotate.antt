-- ===== src/Vma/Tree/Rotate.antt =====
-- The rotations of `VMATree`: the tree that the memory holds afterwards, and its areas.
pub mod Steps
pub mod Chain
pub mod Run
use x.Base.{ℕ, ◌≡◌, refl, sym, Option, some}
use mathlib.Core.List.{append_assoc}
use x.Vma.Node.{Side, left_side, right_side}
use x.Vma.Tree.{VmaTree}
use x.Vma.Tree.Link.{rotate}
use x.Vma.Tree.Shape.{Shape, fork_on, Place, areas, key, Stands, Ordered}
use x.Vma.Tree.Heap.{area_of}
use x.Vma.Tree.Rotate.Steps.{max_on}
use x.Vma.Tree.Rotate.Run.{rotate_lem}

-- The areas of a rotated tree.
pub areas-fork_on :
    (side : Side) (n w m r w' m' m1 m2 : ℕ) (a b d : Shape) (lo hi : ℕ)
    → areas (fork_on side r w' m2 (fork_on side n w m1 a b) d) lo hi
      ≡ areas (fork_on side n w m a (fork_on side r w' m' b d)) lo hi
unfolding areas
areas-fork_on left_side n w m r w' m' m1 m2 a b d lo hi =
    append_assoc (areas a lo (key w)) (areas b (key w) (key w')) (areas d (key w') hi)
areas-fork_on right_side n w m r w' m' m1 m2 a b d lo hi =
    sym (append_assoc (areas d lo (key w')) (areas b (key w') (key w)) (areas a (key w) hi))

pub Ordered-fork_on :
    (side : Side) (n w m r w' m' m1 m2 : ℕ) (a b d : Shape) (lo hi : ℕ)
    → Ordered (fork_on side n w m a (fork_on side r w' m' b d)) lo hi
    → Ordered (fork_on side r w' m2 (fork_on side n w m1 a b) d) lo hi
Ordered-fork_on left_side n w m r w' m' m1 m2 a b d lo hi o = ((o.0, o.1.0), o.1.1)
Ordered-fork_on right_side n w m r w' m' m1 m2 a b d lo hi o = (o.0.0, (o.0.1, o.1))

-- The tree after a rotation, with the empty areas of the two branches.
abbrev pub turned : (side : Side) (n w r w' : ℕ) (a b d : Shape) → Shape
turned side n w r w' a b d =
    fork_on side r w' (max_on side (max_on side (area_of a) (area_of b)) (area_of d))
      (fork_on side n w (max_on side (area_of a) (area_of b)) a b) d

-- A rotation to either side of a node whose child `r` on the far side is a branch, at any place of a
-- tree, runs without a panic. The memory then holds, at the same place, `r` above the node, which
-- takes over the near tree of `r`; nodes, pivots and colors are the same, the empty areas of both are
-- the larger ones of their children, and the areas in order are those from before.
pub rotate-Stands :
    (s : VmaTree) (c : Place) (side : Side) (n w m r w' m' : ℕ) (a b d : Shape)
    → Stands s c (fork_on side n w m a (fork_on side r w' m' b d))
    → (t : VmaTree) × (rotate side n s ≡ some (tt, t))
      × Stands t c (turned side n w r w' a b d)
      × ((lo hi : ℕ)
          → areas (turned side n w r w' a b d) lo hi
            ≡ areas (fork_on side n w m a (fork_on side r w' m' b d)) lo hi)
rotate-Stands s c side n w m r w' m' a b d st =
    let (t, run, stands) = rotate_lem s c side n w m r w' m' a b d st in
    (t, run, stands, areas-fork_on side n w m r w' m' _ _ a b d)
