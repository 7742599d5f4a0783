-- ===== src/Vma/Tree/Link/Settle.antt =====
-- The end of a round of `fix_insert` below a black uncle.
use x.Base.{ℕ, ◌≡◌, sym, some, subst}
use x.Vma.Node.{red, black, Side, opposite}
use x.Vma.Tree.{VmaTree, get_grandparent}
use x.Vma.Tree.Link.{rotate, recolor_parents}
use x.Vma.Tree.Shape.{Shape, fork, fork_on, Place, below, Stands}
use x.Vma.Tree.Heap.{area_of}
use x.Vma.Tree.Same.{Same, Same-refl, Same-trans, Same-fork_on, Same-rotated}
use x.Vma.Tree.Zoom.{recolor, key-recolor, zoom_in}
use x.Vma.Tree.Rotate.Steps.{max_on}
use x.Vma.Tree.Rotate.{rotate-Stands}
use x.Vma.Tree.Link.Uncle.{fork_on-opposite, grandparent_k, out_g, recolor_parents_lem}

pub flip :
    {s : VmaTree} (c : Place) (side : Side) (a w m : ℕ) (near far : Shape)
    → Stands s c (fork_on side a w m near far)
    → Stands s c (fork_on (opposite side) a w m far near)
flip {s} c side a w m near far st =
    subst (λ t. Stands s c t) (fork_on-opposite side a w m near far) st

pub flip_back :
    {s : VmaTree} (c : Place) (side : Side) (a w m : ℕ) (near far : Shape)
    → Stands s c (fork_on (opposite side) a w m far near)
    → Stands s c (fork_on side a w m near far)
flip_back {s} c side a w m near far st =
    subst (λ t. Stands s c t) (sym (fork_on-opposite side a w m near far)) st

Same-opposite :
    (side : Side) (a w m : ℕ) (near far : Shape)
    → Same (fork_on side a w m near far) (fork_on (opposite side) a w m far near)
Same-opposite side a w m near far = rw (← fork_on-opposite side a w m near far) (Same-refl _)

-- The parent is on the side of its branch that `k` is not on: the colors change, and the grandparent
-- is turned below the parent.
module _ (k wk mk : ℕ) (kl ku : Shape) (p mp : ℕ) (o : Shape) (gs : Side) (g mg : ℕ) (u : Shape)
    (above : Place) where
  abbrev m1 : ℕ
  m1 = max_on (opposite gs) (area_of u) (area_of o)

  abbrev m2 : ℕ
  m2 = max_on (opposite gs) m1 mk

  pub settle_lem :
      (wp wg : ℕ) (s : VmaTree)
      → Stands s (below gs p wp mp o (below gs g wg mg u above)) (fork k wk mk kl ku)
      → (s1 t : VmaTree) × (recolor_parents k s ≡ some (tt, s1))
        × (get_grandparent k s1 ≡ some (g, s1))
        × (rotate (opposite gs) g s1 ≡ some (tt, t))
        × Stands t
            (below gs p
              (recolor black wp)
              m2
              (fork_on (opposite gs) g (recolor red wg) m1 u o)
              above)
            (fork k wk mk kl ku)
  settle_lem wp wg s st =
      let (s1, run1, st1) =
        recolor_parents_lem k wk mk kl ku gs p mp o gs g mg u above wp wg s st in
      let g1 = grandparent_k k wk mk kl ku gs p mp o gs g mg u above st1 in
      let o1 = out_g k wk mk kl ku gs p mp o gs g mg u above st1 in
      let side = opposite gs in
      let nk = fork k wk mk kl ku in
      let f1 = flip above gs g (recolor red wg) mg (fork_on gs p (recolor black wp) mp nk o) u o1 in
      let f2 = rw (fork_on-opposite gs p (recolor black wp) mp nk o) at f1 in
      let (t, run2, st2, same) =
        rotate-Stands s1 above side g (recolor red wg) mg p (recolor black wp) mp u o nk f2 in
      let f3 =
        flip_back above gs p (recolor black wp) m2 nk (fork_on side g (recolor red wg) m1 u o)
          st2 in
      (
        s1,
        t,
        run1,
        g1,
        run2,
        zoom_in gs p (recolor black wp) m2 (fork_on side g (recolor red wg) m1 u o) above nk f3,
      )

  pub settle-Same :
      (wp wg : ℕ)
      → Same (fork_on gs g wg mg (fork_on gs p wp mp (fork k wk mk kl ku) o) u) (
          fork_on gs p
            (recolor black wp)
            m2
            (fork k wk mk kl ku)
            (fork_on (opposite gs) g (recolor red wg) m1 u o))
  settle-Same wp wg =
      let side = opposite gs in
      let nk = fork k wk mk kl ku in
      let colored : Same (fork_on gs g wg mg (fork_on gs p wp mp nk o) u)
          (fork_on gs g (recolor red wg) mg (fork_on gs p (recolor black wp) mp nk o) u) =
        Same-fork_on gs g wg (recolor red wg) mg mg (key-recolor red wg)
          (Same-fork_on gs p wp (recolor black wp) mp mp (key-recolor black wp) (Same-refl nk)
            (Same-refl o))
          (Same-refl u) in
      let turned = Same-rotated side g (recolor red wg) mg p (recolor black wp) mp m1 m2 u o nk in
      let turned' =
        rw
          (
            ← fork_on-opposite gs p (recolor black wp) mp nk o,
            ← fork_on-opposite gs g (recolor red wg) mg (fork_on gs p (recolor black wp) mp nk o) u,
          )
          at turned in
      let turned'' =
        rw
          (← fork_on-opposite gs p (recolor black wp) m2 nk
            (fork_on side g (recolor red wg) m1 u o))
          at turned' in
      Same-trans colored turned''
