-- ===== src/Vma/Examples/Colors.antt =====
-- The theorems on the red-black rules, at trees of two and three branches.
use x.Base.{ℕ, ◌≡◌, refl, ◌==◌, if◌then◌else◌, none, some, arith}
use x.Vma.Node.{black, right_side, Node, leaf, empty, used}
use x.Vma.Tree.{VmaTree, get_leaf_containing}
use x.Vma.Tree.Link.{fix_insert, link_in_branch}
use x.Vma.Tree.Shape.{
  Shape, tip, fork, Place, top, below, beside, Stands, occurs, occurs_at, height, key,
}
use x.Vma.Tree.Search.{Finds}
use x.Vma.Tree.Same.{Same, size}
use x.Vma.Tree.Zoom.{color_of}
use x.Vma.Tree.Measure.{top_color}
use x.Vma.Tree.Balance.{black_height, Balanced, clash}
use x.Vma.Tree.Depth.{get_leaf_containing-Balanced}
use x.Vma.Tree.Link.Fix.{fix_insert-Balanced}
use x.Vma.Tree.Link.Linked.{Unlinked, link_in_branch-Balanced}
use x.Vma.Examples.{
  state_of, node_of, state, low_leaf, middle_leaf, tree, place_of_second, place_of_last,
  last-Stands,
}

fix_insert-Balanced_example :
    (t : VmaTree) × (tree' : Shape) × (fix_insert 2 0x240 state ≡ some (tt, t))
    × Stands t top tree'
    × Balanced tree'
    × (top_color tree' ≡ black)
    × Same tree tree'
unfolding color_of height black_height
fix_insert-Balanced_example =
    fix_insert-Balanced 2 place_of_last 0x240 0x7000 0x2000 (tip 0x280 (empty 0x2000))
      (tip 0x2c0 (used 7)) state (omega arith) (omega arith) refl last-Stands
      (
        (tt, tt, refl, λ r. (refl, refl)),
        (tt, refl, λ r. (refl, refl), (tt, refl, λ r. (refl, refl), tt)),
        refl,
      )

-- The tree before: a red branch at 0x5000 below the root, with a gap of one page.
abbrev gap_leaf : Shape
gap_leaf = tip 0x240 (empty 0x2000)

abbrev red_branch : Shape
red_branch = fork 0x180 0x5000 0x2000 middle_leaf gap_leaf

abbrev small_memory : ℕ → Node
small_memory b =
    if b == 0x100
    then node_of 0x3001 0x3000 none 0x140 0x180
    else if b == 0x140
    then leaf (empty 0x3000)
    else if b == 0x180
    then node_of 0x5000 0x2000 (some 0x100) 0x1c0 0x240
    else if b == 0x1c0
    then leaf (used 5)
    else if b == 0x240
    then leaf (empty 0x2000)
    else if b == 0x300
    then node_of 0x7001 0 (some 0x180) 0x340 0x380
    else if b == 0x340
    then leaf (used 9)
    else leaf (empty 0x1000)

abbrev small_state : VmaTree
small_state = state_of 0x100 small_memory

small_state-Stands : Stands small_state top (fork 0x100 0x3001 0x3000 low_leaf red_branch)
unfolding occurs occurs_at
small_state-Stands = record {
  root = refl;
  here = (refl, refl, (refl, refl, refl));
  around = tt;
  once = λ b. ground arith;
}

small_tree-Balanced : Balanced (fork 0x100 0x3001 0x3000 low_leaf red_branch)
unfolding color_of black_height
small_tree-Balanced = (tt, (tt, tt, refl, λ r. (refl, refl)), refl, λ r. clash r refl)

get_leaf_containing-Balanced_example :
    Finds small_state 0x6000
      (fork 0x100 0x3001 0x3000 low_leaf red_branch)
      (get_leaf_containing 4 0x6000 small_state)
unfolding key size color_of
get_leaf_containing-Balanced_example =
    get_leaf_containing-Balanced small_state (fork 0x100 0x3001 0x3000 low_leaf red_branch) 2 0x6000
      small_state-Stands (omega arith) (omega arith) small_tree-Balanced refl (omega arith)

abbrev place_of_gap_leaf : Place
place_of_gap_leaf = below right_side 0x180 0x5000 0x2000 middle_leaf place_of_second

abbrev new_branch : Shape
new_branch = fork 0x300 0x7001 0 (tip 0x340 (used 9)) (tip 0x380 (empty 0x1000))

small_state-Unlinked : Unlinked small_state place_of_gap_leaf 0x240 new_branch
unfolding occurs occurs_at
small_state-Unlinked = record {
  root = refl;
  here = (refl, refl, refl);
  around = (refl, refl, (refl, refl, tt));
  once = λ b. ground arith;
}

link_in_branch-Balanced_example :
    (t : VmaTree) × (tree' : Shape) × (link_in_branch 8 0x300 (beside place_of_gap_leaf) small_state
      ≡ some (tt, t))
    × Stands t top tree'
    × Balanced tree'
    × (top_color tree' ≡ black)
    × Same
        (fork 0x100 0x3001 0x3000 low_leaf (fork 0x180 0x5000 0x2000 middle_leaf new_branch))
        tree'
unfolding color_of size
link_in_branch-Balanced_example =
    link_in_branch-Balanced 8 0x300 0x7001 0 0x340 0x380 0x240 (used 9) (empty 0x1000)
      (empty 0x2000) 0x240 small_state place_of_gap_leaf small_state-Unlinked refl refl
      (omega arith) small_tree-Balanced
