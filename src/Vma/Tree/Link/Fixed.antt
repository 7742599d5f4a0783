-- ===== src/Vma/Tree/Link/Fixed.antt =====
-- What the loop of `fix_insert` keeps of a tree.
use x.Base.{ℕ}
use x.Vma.Node.{Side, left_side, right_side}
use x.Vma.Tree.{VmaTree}
use x.Vma.Tree.Shape.{Shape, fork, fork_on, Place, top, below, plug, Stands}
use x.Vma.Tree.Balance.{Balanced}
use x.Vma.Tree.Same.{Same, Same-trans}
use x.Vma.Tree.Zoom.{zoom_out}

-- The memory holds the same tree as before, with a branch at the top. The red-black
-- rules hold if `Ruled` says so.
pub record Fixed (Ruled : Type 0) (old : Shape) (t : VmaTree) : Type 0 where
  pub root : ℕ
  pub packed : ℕ
  pub area : ℕ
  pub lower : Shape
  pub upper : Shape
  pub stands : Stands t top (fork root packed area lower upper)
  pub same : Same old (fork root packed area lower upper)
  pub balanced : Ruled → Balanced (fork root packed area lower upper)

pub Fixed-top :
    {Ruled : Type 0} (c : Place) (old : Shape) (t : VmaTree) (a w m : ℕ) (lower upper : Shape)
    → Stands t c (fork a w m lower upper)
    → Same old (plug c (fork a w m lower upper))
    → (Ruled → Balanced (plug c (fork a w m lower upper)))
    → Fixed Ruled old t
Fixed-top top old t a w m lower upper st same rules = record {
  root = a;
  packed = w;
  area = m;
  lower = lower;
  upper = upper;
  stands = st;
  same = same;
  balanced = rules;
}
Fixed-top (below left_side p wp mp o above) old t a w m lower upper st same rules =
    Fixed-top above old t p wp mp (fork a w m lower upper) o
      (zoom_out left_side p wp mp o above (fork a w m lower upper) st) same rules
Fixed-top (below right_side p wp mp o above) old t a w m lower upper st same rules =
    Fixed-top above old t p wp mp o (fork a w m lower upper)
      (zoom_out right_side p wp mp o above (fork a w m lower upper) st) same rules

-- The same on a side.
pub Fixed-on :
    {Ruled : Type 0} (c : Place) (old : Shape) (t : VmaTree) (side : Side) (a w m : ℕ)
    (near far : Shape)
    → Stands t c (fork_on side a w m near far)
    → Same old (plug c (fork_on side a w m near far))
    → (Ruled → Balanced (plug c (fork_on side a w m near far)))
    → Fixed Ruled old t
Fixed-on c old t left_side a w m near far st same rules =
    Fixed-top c old t a w m near far st same rules
Fixed-on c old t right_side a w m near far st same rules =
    Fixed-top c old t a w m far near st same rules

pub Fixed-Same :
    {Ruled Ruled' : Type 0} {old old' : Shape} {t : VmaTree}
    → Same old old'
    → (Ruled → Ruled')
    → Fixed Ruled' old' t
    → Fixed Ruled old t
Fixed-Same p rules f = record {
  root = f.root;
  packed = f.packed;
  area = f.area;
  lower = f.lower;
  upper = f.upper;
  stands = f.stands;
  same = Same-trans p (f.same);
  balanced = λ r. f.balanced (rules r);
}
