-- ===== src/Vma/Tree/Link/Linked.antt =====
-- `link_in_branch` on a tree that the memory holds.
use x.Base.{ℕ, ◌+◌, ◌≤◌, ◌≡◌, refl, ◌∙◌, none, some, arith}
use x.Vma.Node.{LeafNode, red, black, Side, left_side, right_side}
use x.Vma.Tree.{VmaTree}
use x.Vma.Tree.Shape.{
  height, Shape, tip, fork, fork_on, Place, top, below, plug, address_of, above_of, occurs,
  occurs_at, Stands, root_at, parent-branch_on,
}
use x.Vma.Tree.Heap.{counts_itself}
use x.Vma.Tree.Same.{Same, Same-refl, Same-trans, Same-fork_on, Same-plug}
use x.Vma.Tree.Zoom.{color_of, recolor, key-recolor, color_of-recolor, set_color-Stands}
use x.Vma.Tree.Link.Reads.{zoom_top}
use x.Base.{◌++◌, ◌<◌}
use x.Vma.Node.{with_child}
use x.Vma.Tree.{highest_user_address, modify}
use x.Vma.Tree.Shape.{
  beside, lo_of, hi_of, areas, all_areas, areas_before, areas_behind, Ordered, Holds, HoldsAt, key,
}
use x.Vma.Tree.Search.{areas-plug}
use x.Vma.Tree.Link.{link_in_branch}
use x.Vma.Tree.Heap.{modify-put, Holds-same}
use x.Vma.Tree.Relink.{put-Relinks}
use x.Vma.Tree.Same.{forks, size}
use x.Vma.Tree.Measure.{top_color}
use x.Vma.Tree.Balance.{is_counted, black_height, Balanced, Grown, Grown-plug, clash, plug-Balanced}
use x.Vma.Tree.Link.Loop.{RootBlack}
use x.Vma.Tree.Link.Fix.{fix_insert_run}
use x.Vma.Tree.Link.Locate.{forks-plug, height-size, update_from}

-- A new tree is in the memory, below the branch above a place, while the place still has the node `n`.
pub record Unlinked (s : VmaTree) (c : Place) (n : ℕ) (t : Shape) : Type 0 where
  pub root : s.root ≡ root_at c n
  pub here : Holds s.storage.nodes (above_of c) t
  pub around : HoldsAt s.storage.nodes n c
  pub once : (b : ℕ) → occurs_at b c + occurs b t ≤ 1

-- The pointer of the parent is written.
link_parent :
    (s : VmaTree) (side : Side) (p w m : ℕ) (other : Shape) (above : Place) (n : ℕ) (t : Shape)
    → Unlinked s (below side p w m other above) n t
    → (u : VmaTree) × (modify p (λ b. with_child b side (address_of t)) s ≡ some (tt, u))
      × Stands u (below side p w m other above) t
unfolding occurs_at
link_parent s left_side p w m other above n t h =
    let c = below left_side p w m other above in
    let d =
      put-Relinks s left_side p w m other above n (address_of t) (h.root) (h.around)
        (λ b. omega (arith, h.once b)) in
    (
      _,
      modify-put s p (λ b. with_child b left_side (address_of t)) _ (h.around.0),
      record {
        root = d.root;
        here = Holds-same _ _ (some p) t (λ b e. d.others b (omega (arith, h.once b))) (h.here);
        around = d.around;
        once = h.once;
      },
    )
link_parent s right_side p w m other above n t h =
    let c = below right_side p w m other above in
    let d =
      put-Relinks s right_side p w m other above n (address_of t) (h.root) (h.around)
        (λ b. omega (arith, h.once b)) in
    (
      _,
      modify-put s p (λ b. with_child b right_side (address_of t)) _ (h.around.0),
      record {
        root = d.root;
        here = Holds-same _ _ (some p) t (λ b e. d.others b (omega (arith, h.once b))) (h.here);
        around = d.around;
        once = h.once;
      },
    )

-- The result of linking `new` in at a place. The red-black rules hold if `Ruled` says so.
abbrev pub Links : (Ruled : Type 0) (rounds : ℕ) (s : VmaTree) (c : Place) (new : Shape) → Type 0
Links Ruled rounds s c new =
    (t : VmaTree) × (tree : Shape) × (link_in_branch rounds (address_of new) (beside c) s
      ≡ some (tt, t))
    × Stands t top tree
    × Same (plug c new) tree
    × (top_color tree ≡ black)
    × (Ruled → Balanced tree)

-- The color of the root does not hang on what is below it.
top_color-plug :
    (c : Place) (side : Side) (p w m : ℕ) (other t : Shape)
    → RootBlack (below side p w m other c)
    → top_color (plug c (fork_on side p w m t other)) ≡ black
top_color-plug top left_side p w m other t rb = rb
top_color-plug top right_side p w m other t rb = rb
top_color-plug (below side' p' w' m' other' c) side p w m other t rb =
    top_color-plug c side' p' w' m' other' (fork_on side p w m t other) rb

module _ (rounds a w m : ℕ) (lower upper : Shape) (n : ℕ) (s : VmaTree) where
  abbrev new : Shape
  new = fork a w m lower upper

  abbrev new_red : Shape
  new_red = fork a (recolor red w) m lower upper

  recolored-Same : Same new new_red
  recolored-Same =
      Same-fork_on left_side a w (recolor red w) m m (key-recolor red w) (Same-refl lower)
        (Same-refl upper)

  link_at :
      (c : Place)
      → Unlinked s c n new
      → RootBlack c
      → color_of w ≡ black
      → size (plug c new) < rounds
      → Links (Grown c new_red) rounds s c new
  unfolding link_in_branch forks height size black_height
  link_at top h rb cb r =
      let s1 : VmaTree = record s { root = a } in
      let st : Stands s1 top new = record {
        root = refl;
        here = h.here;
        around = tt;
        once = h.once;
      } in
      let (t, tree, run, st', same, col, bal) =
        update_from rounds a s1 new st (omega (arith, counts_itself a)) r in
      (t, tree, run, st', same, col ∙ cb, λ gr. bal (gr.0.0, gr.0.1, gr.0.2, λ r. clash r cb))
  link_at (below side p v k o top) h rb cb r =
      let c = below side p v k o top in
      let (s1, run1, st1) = link_parent s side p v k o top n new h in
      let (s2, run2, st2) = set_color-Stands s1 c left_side a w m lower upper red st1 in
      let sm = Same-plug c new new_red recolored-Same in
      let (t, tree, run3, st3, same, col, bal) =
        update_from rounds a s2 (plug c new_red) (zoom_top c new_red st2)
          (omega (arith, counts_itself a, forks-plug a c new_red)) (omega (arith, sm.size_same)) in
      let e = st2.around.0 in
      let e' = parent-branch_on side v k none a (address_of o) in
      (
        t,
        tree,
        ground arith,
        st3,
        Same-trans sm same,
        col ∙ top_color-plug top side p v k o new_red rb,
        λ gr. bal (Grown-plug c new_red rb gr),
      )
  link_at (below side p v k o (below side' p' v' k' o' above)) h rb cb r =
      let c' = below side' p' v' k' o' above in
      let c = below side p v k o c' in
      let (s1, run1, st1) = link_parent s side p v k o c' n new h in
      let (s2, run2, st2) = set_color-Stands s1 c left_side a w m lower upper red st1 in
      let sm = Same-plug c new new_red recolored-Same in
      let (s3, run3, f, ruled) =
        fix_insert_run rounds c a (recolor red w) m lower upper s2 (omega arith)
          (omega (arith, height-size c new)) rb st2 in
      let tree3 = fork (f.root) (f.packed) (f.area) (f.lower) (f.upper) in
      let repaired : Same (plug c new) tree3 = Same-trans sm (f.same) in
      let (t, tree, run4, st4, same, col, bal) =
        update_from rounds a s3 tree3 (f.stands)
          (omega (arith, counts_itself a, forks-plug a c new_red, f.same.forks_same a))
          (omega (arith, sm.size_same, f.same.size_same)) in
      let e = st2.around.0 in
      let e' = parent-branch_on side v k (some p') a (address_of o) in
      (t, tree, ground arith, st4, Same-trans repaired same, col ∙ f.is_black, λ gr. bal (ruled gr))

-- A black branch over two trees, written below the branch above a place, takes that place when it is
-- linked in: the call ends without a panic with more rounds than there are branches, and the memory
-- holds a tree with a black root whose areas are those from before the place, those of the new branch
-- and those from behind the place. Its pivots are in order if those of the tree with the branch at the
-- place are. The root of the tree that the place is in must be black.
pub link_in_branch-areas :
    (rounds a w m : ℕ) (lower upper : Shape) (n : ℕ) (s : VmaTree) (c : Place)
    → Unlinked s c n (fork a w m lower upper)
    → RootBlack c
    → color_of w ≡ black
    → size (plug c (fork a w m lower upper)) < rounds
    → Ordered (plug c (fork a w m lower upper)) 0 (highest_user_address + 1)
    → (t : VmaTree) × (tree : Shape) × (link_in_branch rounds a (beside c) s ≡ some (tt, t))
      × Stands t top tree
      × (all_areas tree
          ≡ areas_before c
            ++ ((areas lower (lo_of c) (key w) ++ areas upper (key w) (hi_of c)) ++ areas_behind c))
      × Ordered tree 0 (highest_user_address + 1)
      × (top_color tree ≡ black)
unfolding areas
link_in_branch-areas rounds a w m lower upper n s c h rb cb r o =
    let new = fork a w m lower upper in
    let (t, tree, run, st, same, col, bal) = link_at rounds a w m lower upper n s c h rb cb r in
    (
      t,
      tree,
      run,
      st,
      same.areas_same 0 (highest_user_address + 1) ∙ areas-plug c new,
      same.ordered 0 (highest_user_address + 1) o,
      col,
    )

-- A black branch over two leaves, written below the branch above a place that had a leaf, takes that
-- place when it is linked in. If the red-black rules held with the leaf there and the root was black,
-- the call ends without a panic with more rounds than there are branches, and the rules hold in the
-- tree that the memory has then: no red branch has a red child, and all ways down pass as many black
-- branches. Its root is black, and its areas are those of the tree with the branch at the place.
pub link_in_branch-Balanced :
    (rounds a w m : ℕ) (b1 b2 b : ℕ) (l1 l2 l : LeafNode) (n : ℕ) (s : VmaTree) (c : Place)
    → Unlinked s c n (fork a w m (tip b1 l1) (tip b2 l2))
    → RootBlack c
    → color_of w ≡ black
    → size (plug c (fork a w m (tip b1 l1) (tip b2 l2))) < rounds
    → Balanced (plug c (tip b l))
    → (t : VmaTree) × (tree : Shape) × (link_in_branch rounds a (beside c) s ≡ some (tt, t))
      × Stands t top tree
      × Balanced tree
      × (top_color tree ≡ black)
      × Same (plug c (fork a w m (tip b1 l1) (tip b2 l2))) tree
unfolding black_height
link_in_branch-Balanced rounds a w m b1 b2 b l1 l2 l n s c h rb cb r ok =
    let (t, tree, run, st, same, col, bal) =
      link_at rounds a w m (tip b1 l1) (tip b2 l2) n s c h rb cb r in
    let (leaf_ok, at, link) = plug-Balanced c (tip b l) ok in
    let is_red = color_of-recolor red w in
    let height : 0 + is_counted (color_of (recolor red w)) ≡ 0 = rw is_red refl in
    let grown : Grown c (fork a (recolor red w) m (tip b1 l1) (tip b2 l2)) =
      ((tt, tt, refl, λ q. (refl, refl)), rw height at, is_red) in
    (t, tree, run, st, bal grown, col, same)
