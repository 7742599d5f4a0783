-- ===== src/Vma/Examples/Links.antt =====
-- The theorems on new branches and segments, at the tree of the examples.
use x.Base.{ℕ, ◌+◌, ◌-◌, ◌≡◌, refl, ◌==◌, if◌then◌else◌, some, ◌∷◌, ◌++◌, ok, arith}
use x.Vma.Node.{black, Node, leaf, empty, used}
use x.Vma.Tree.{VmaTree, highest_user_address}
use x.Vma.Tree.Insert.{insert}
use x.Vma.Tree.Link.{link_in_branch}
use x.Vma.Tree.Shape.{
  Shape, tip, fork, top, beside, lo_of, hi_of, areas, all_areas, areas_before, areas_behind, Stands,
  Ordered, key, occurs, occurs_at,
}
use x.Vma.Tree.Same.{size}
use x.Vma.Tree.Zoom.{color_of}
use x.Vma.Tree.Measure.{top_color}
use x.Vma.Tree.Link.Linked.{Unlinked, link_in_branch-areas}
use x.Vma.Tree.Insert.Exact.{insert-exact}
use x.Vma.Examples.{state_of, node_of, memory, state, state-Stands, place_of_gap}

-- A branch at 0x6000 in the gap, before it is linked in.
abbrev memory_with_branch : ℕ → Node
memory_with_branch b =
    if b == 0x300
    then node_of 0x6001 0 (some 0x240) 0x280 0x340
    else if b == 0x340
    then leaf (used 5)
    else if b == 0x280
    then leaf (empty 0x1000)
    else memory b

unlinked :
    Unlinked
      (state_of 0x100 memory_with_branch)
      place_of_gap
      0x280
      (fork 0x300 0x6001 0 (tip 0x280 (empty 0x1000)) (tip 0x340 (used 5)))
unfolding occurs occurs_at
unlinked = record {
  root = refl;
  here = (refl, refl, refl);
  around = (refl, refl, (refl, refl, (refl, refl, tt)));
  once = λ b. ground arith;
}

link_in_branch-areas_example :
    (t : VmaTree) × (tree' : Shape) × (link_in_branch 8 0x300
        (beside place_of_gap)
        (state_of 0x100 memory_with_branch)
      ≡ some (tt, t))
    × Stands t top tree'
    × (all_areas tree'
        ≡ areas_before place_of_gap
          ++ ((areas (tip 0x280 (empty 0x1000)) (lo_of place_of_gap) (key 0x6001)
                ++ areas (tip 0x340 (used 5)) (key 0x6001) (hi_of place_of_gap))
              ++ areas_behind place_of_gap))
    × Ordered tree' 0 (highest_user_address + 1)
    × (top_color tree' ≡ black)
unfolding color_of key size
link_in_branch-areas_example =
    link_in_branch-areas 8 0x300 0x6001 0 (tip 0x280 (empty 0x1000)) (tip 0x340 (used 5)) 0x280
      (state_of 0x100 memory_with_branch) place_of_gap unlinked refl refl (omega arith)
      (omega arith)

insert-exact_example :
    (u : VmaTree) × (tree' : Shape) × (insert 48 8
        (lo_of place_of_gap)
        (hi_of place_of_gap - lo_of place_of_gap)
        9
        state
      ≡ some (ok 0x280, u))
    × Stands u top tree'
    × (all_areas tree'
        ≡ areas_before place_of_gap
          ++ (record {
            start = lo_of place_of_gap;
            behind = hi_of place_of_gap;
            leaf_node = 0x280;
            content = used 9;
          }
              ∷ areas_behind place_of_gap))
    × Ordered tree' 0 (highest_user_address + 1)
unfolding key size
insert-exact_example =
    insert-exact 48 8 9 state place_of_gap 0x280 0x2000 state-Stands (omega arith) (omega arith)
      (omega arith) (omega arith)
