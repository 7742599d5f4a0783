-- ===== src/Vma/Tree/Link/Fix.antt =====
-- `fix_insert` on a tree that the memory holds.
use x.Base.{ℕ, ◌≤◌, ◌≡◌, ap, ◌∙◌, some, arith}
use x.Vma.Node.{black, left_side}
use x.Vma.Tree.{VmaTree, set_color}
use x.Vma.Tree.Shape.{height, Shape, fork, Place, top, plug, Stands}
use x.Vma.Tree.Same.{Same, Same-refl, Same-trans, Same-fork_on}
use x.Vma.Tree.Zoom.{color_of, recolor, key-recolor, color_of-recolor, set_color-Stands}
use x.Vma.Tree.Measure.{top_color}
use x.Vma.Tree.Balance.{Balanced, Grown, clash}
use x.Vma.Tree.Link.{fix_insert}
use x.Vma.Tree.Link.Loop.{loop_lem, RootBlack}

-- The memory holds the same tree as before, with a black branch at the top.
pub record Repaired (old : Shape) (t : VmaTree) : Type 0 where
  pub root : ℕ
  pub packed : ℕ
  pub area : ℕ
  pub lower : Shape
  pub upper : Shape
  pub stands : Stands t top (fork root packed area lower upper)
  pub same : Same old (fork root packed area lower upper)
  pub is_black : color_of packed ≡ black

-- The red-black rules of the repaired tree.
abbrev pub RepairedBalanced : {old : Shape} {t : VmaTree} → Repaired old t → Type 0
RepairedBalanced r = Balanced (fork (r.root) (r.packed) (r.area) (r.lower) (r.upper))

pub fix_insert_run :
    (rounds : ℕ) (c : Place) (k wk mk : ℕ) (kl ku : Shape) (s : VmaTree)
    → 1 ≤ height c
    → height c ≤ rounds
    → RootBlack c
    → Stands s c (fork k wk mk kl ku)
    → (t : VmaTree) × (fix_insert rounds k s ≡ some (tt, t))
      × (r : Repaired (plug c (fork k wk mk kl ku)) t) × (Grown c (fork k wk mk kl ku)
          → RepairedBalanced r)
unfolding fix_insert
fix_insert_run rounds c k wk mk kl ku s h1 h2 rb st =
    let (t1, run1, f) = loop_lem rounds c k wk mk kl ku s h1 h2 rb st in
    let (t, run2, st2) =
      set_color-Stands t1 top left_side f.root f.packed f.area f.lower f.upper black (f.stands) in
    let root : t1.root ≡ f.root = f.stands.root in
    let run2' : set_color black (t1.root) t1 ≡ some (tt, t) =
      ap (λ a. set_color black a t1) root ∙ run2 in
    let held = st.here.0 in
    (
      t,
      ground arith,
      record {
        root = f.root;
        packed = recolor black (f.packed);
        area = f.area;
        lower = f.lower;
        upper = f.upper;
        stands = st2;
        same = Same-trans (f.same) (
            Same-fork_on left_side f.root f.packed (recolor black (f.packed)) f.area f.area
              (key-recolor black (f.packed)) (Same-refl (f.lower)) (Same-refl (f.upper)));
        is_black = color_of-recolor black (f.packed);
      },
      λ gr. (
        (f.balanced gr).0,
        (f.balanced gr).1,
        (f.balanced gr).2,
        λ r. clash r (color_of-recolor black (f.packed)),
      ),
    )

-- Below the root of a tree whose root is black, `fix_insert` ends without a panic and within as many
-- rounds as the branch has branches above it. The memory then holds a tree with the same areas in the
-- same order, with the same branches, in order if the tree was, and with a black root.
pub fix_insert-Repaired :
    (rounds : ℕ) (c : Place) (k wk mk : ℕ) (kl ku : Shape) (s : VmaTree)
    → 1 ≤ height c
    → height c ≤ rounds
    → RootBlack c
    → Stands s c (fork k wk mk kl ku)
    → (t : VmaTree) × (fix_insert rounds k s ≡ some (tt, t))
      × Repaired (plug c (fork k wk mk kl ku)) t
fix_insert-Repaired rounds c k wk mk kl ku s h1 h2 rb st =
    let (t, run, r, bal) = fix_insert_run rounds c k wk mk kl ku s h1 h2 rb st in (t, run, r)

-- If the branch is red, and the red-black rules hold but for it and the branch above it, which may be
-- red too, then `fix_insert` ends without a panic, and the rules hold in the tree that the memory holds
-- then: no red branch has a red child, and all ways down pass as many black branches. Its root is
-- black, and its areas in order are those from before. The root must be black before.
pub fix_insert-Balanced :
    (rounds : ℕ) (c : Place) (k wk mk : ℕ) (kl ku : Shape) (s : VmaTree)
    → 1 ≤ height c
    → height c ≤ rounds
    → RootBlack c
    → Stands s c (fork k wk mk kl ku)
    → Grown c (fork k wk mk kl ku)
    → (t : VmaTree) × (tree : Shape) × (fix_insert rounds k s ≡ some (tt, t))
      × Stands t top tree
      × Balanced tree
      × (top_color tree ≡ black)
      × Same (plug c (fork k wk mk kl ku)) tree
fix_insert-Balanced rounds c k wk mk kl ku s h1 h2 rb st gr =
    let (t, run, r, bal) = fix_insert_run rounds c k wk mk kl ku s h1 h2 rb st in
    (
      t,
      fork (r.root) (r.packed) (r.area) (r.lower) (r.upper),
      run,
      r.stands,
      bal gr,
      r.is_black,
      r.same,
    )
