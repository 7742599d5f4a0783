-- ===== src/Vma/Examples/Trees.antt =====
-- The theorems on searches and repairs, at the tree of the examples.
use x.Base.{ℕ, ◌≡◌, refl, some, arith}
use x.Vma.Node.{left_side, empty, used}
use x.Vma.Tree.{VmaTree, get_leaf_containing, update_max_empty_area_data}
use x.Vma.Tree.Link.{rotate, fix_insert}
use x.Vma.Tree.Shape.{Shape, tip, fork, top, areas, depth, Stands, key, height}
use x.Vma.Tree.Search.{Finds, get_leaf_containing-Finds}
use x.Vma.Tree.Rotate.{rotate-Stands, turned}
use x.Vma.Tree.Same.{Same}
use x.Vma.Tree.Zoom.{color_of}
use x.Vma.Tree.Measure.{Measured, top_color, update_max_empty_area_data-Measured}
use x.Vma.Tree.Link.Fix.{Repaired, fix_insert-Repaired}
use x.Vma.Examples.{
  state, middle_leaf, last_branch, place_of_second, place_of_last, tree, state-Stands,
  second-Stands, last-Stands,
}

get_leaf_containing-Finds_example : Finds state 0x6000 tree (get_leaf_containing 8 0x6000 state)
unfolding depth key
get_leaf_containing-Finds_example =
    get_leaf_containing-Finds state tree 8 0x6000 state-Stands (omega arith) (omega arith)
      (omega arith)

rotate-Stands_example :
    (t : VmaTree) × (rotate left_side 0x180 state ≡ some (tt, t))
    × Stands t place_of_second (
        turned left_side 0x180 0x5000 0x240 0x7000 middle_leaf
          (tip 0x280 (empty 0x2000))
          (tip 0x2c0 (used 7)))
    × ((lo hi : ℕ)
        → areas
            (turned left_side 0x180 0x5000 0x240 0x7000 middle_leaf
              (tip 0x280 (empty 0x2000))
              (tip 0x2c0 (used 7)))
            lo
            hi
          ≡ areas (fork 0x180 0x5000 0x2000 middle_leaf last_branch) lo hi)
rotate-Stands_example =
    rotate-Stands state place_of_second left_side 0x180 0x5000 0x2000 0x240 0x7000 0x2000
      middle_leaf (tip 0x280 (empty 0x2000)) (tip 0x2c0 (used 7)) second-Stands

fix_insert-Repaired_example :
    (t : VmaTree) × (fix_insert 2 0x240 state ≡ some (tt, t)) × Repaired tree t
unfolding color_of height
fix_insert-Repaired_example =
    fix_insert-Repaired 2 place_of_last 0x240 0x7000 0x2000 (tip 0x280 (empty 0x2000))
      (tip 0x2c0 (used 7)) state (omega arith) (omega arith) refl last-Stands

update_max_empty_area_data-Measured_example :
    (t : VmaTree) × (tree' : Shape) × (update_max_empty_area_data 4 (some 0x240) state
      ≡ some (tt, t))
    × Stands t top tree'
    × Measured tree'
    × Same tree tree'
    × (top_color tree' ≡ top_color tree)
unfolding height
update_max_empty_area_data-Measured_example =
    update_max_empty_area_data-Measured 4 place_of_last 0x240 0x7000 0x2000
      (tip 0x280 (empty 0x2000)) (tip 0x2c0 (used 7)) state (omega arith) last-Stands (tt, (tt, tt))
      tt tt
