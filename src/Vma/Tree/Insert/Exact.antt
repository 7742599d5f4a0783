-- ===== src/Vma/Tree/Insert/Exact.antt =====
-- `insert` of a segment that fills its gap.
use x.Base.{
  ℕ, ◌+◌, ◌-◌, ◌^◌, ◌<◌, ◌≤◌, ◌≡◌, refl, ap, ◌∙◌, true, ltb, leb, some, ◌∷◌, ◌++◌, ok, ◌>>=◌, arith,
  lt→ltb, le→leb, ==_refl,
}
use x.Vma.Node.{leaf, empty, used}
use x.Vma.Tree.{VmaTree, LeafInfo, node_at, get_leaf_containing, highest_user_address}
use x.Vma.Tree.Shape.{
  Shape, tip, fork_on, Place, top, below, plug, beside, lo_of, hi_of, Stands, Ordered, areas,
  all_areas, areas_before, areas_behind,
}
use x.Vma.Tree.Search.{areas-plug}
use x.Vma.Tree.Heap.{put, put-Writes, write-put, counts_itself}
use x.Vma.Tree.Leaves.{zoom_down, Writes-tip}
use x.Vma.Tree.Same.{Same, Same-refl, forks-fork_on, size}
use x.Vma.Tree.Link.Reads.{zoom_top}
use x.Vma.Tree.Link.Locate.{height-size, forks-plug, update_from}
use x.Vma.Tree.Reach.{get_leaf_containing-plug, Ordered-content}
use x.Vma.Tree.Insert.{insert, insert_found, insert_exact, update_parent}

-- The empty areas above a place are updated.
update_above :
    (rounds : ℕ) (c : Place) (t : Shape) (s : VmaTree)
    → Stands s c t
    → size (plug c t) < rounds
    → (u : VmaTree) × (tree : Shape) × (update_parent rounds (beside c) s ≡ some (tt, u))
      × Stands u top tree
      × Same (plug c t) tree
unfolding update_parent
update_above rounds top t s st h = (s, t, refl, st, Same-refl t)
update_above rounds (below side p w m other above) t s st h =
    let c = below side p w m other above in
    let up = forks-plug p above (fork_on side p w m t other) in
    let (u, tree, run, st', same, col, bal) =
      update_from rounds p s (plug c t) (zoom_top c t st)
        (omega (arith, up, forks-fork_on side p p w m t other, counts_itself p)) h in
    (u, tree, run, st', same)

-- The leaf of the gap is the leaf of the segment.
exact_lem :
    (fuel flags : ℕ) (s : VmaTree) (c : Place) (area : ℕ) (info : LeafInfo)
    → Stands s c (tip info.leaf_node (empty area))
    → info.parent_and_side ≡ beside c
    → size (plug c (tip info.leaf_node (used flags))) < fuel
    → (u : VmaTree) × (tree : Shape) × (insert_exact fuel info flags s
        ≡ some (ok info.leaf_node, u))
      × Stands u top tree
      × Same (plug c (tip info.leaf_node (used flags))) tree
unfolding insert_exact
exact_lem fuel flags s c area info st b h =
    let wr = put-Writes s info.leaf_node (leaf (used flags)) in
    let st1 = Writes-tip s _ c info.leaf_node (empty area) (used flags) st wr in
    let run1 = write-put s info.leaf_node (leaf (used flags)) in
    let (u, tree, run, st2, same) = update_above fuel c (tip info.leaf_node (used flags)) _ st1 h in
    let run' : update_parent fuel info.parent_and_side (put s info.leaf_node (leaf (used flags)))
        ≡ some (tt, u) =
      rw b run in
    (u, tree, ground arith, st2, same)

-- The gap is the segment.
found-exact :
    (node_size fuel flags : ℕ) (s : VmaTree) (info : LeafInfo) (area : ℕ)
    → node_at s info.leaf_node ≡ leaf (empty area)
    → insert_found node_size fuel info info.start info.end flags s ≡ insert_exact fuel info flags s
unfolding insert_found
found-exact node_size fuel flags s info area h =
    let b1 : leb (info.start) (info.start) ≡ true = le→leb _ _ (omega arith) in
    let b2 : leb (info.end) (info.end) ≡ true = le→leb _ _ (omega arith) in
    let b3 = ==_refl (info.start) in let b4 = ==_refl (info.end) in ground arith

-- The checks, then what the search finds.
insert-insert_found :
    (node_size fuel flags start len : ℕ) (s : VmaTree) (info : LeafInfo)
    → 0 < len
    → start + len ≤ highest_user_address + 1
    → get_leaf_containing fuel start s ≡ some (info, s)
    → insert node_size fuel start len flags s
      ≡ insert_found node_size fuel info start (start + len - 1) flags s
unfolding insert
insert-insert_found node_size fuel flags start len s info pos lim run =
    let b1 : ltb (start + len) (2 ^ 64) ≡ true = lt→ltb _ _ (omega arith) in
    let b2 : leb 1 (start + len) ≡ true = le→leb _ _ (omega arith) in
    simp (b1, b2) (rw (run, ◌>>=◌) refl)

-- Inserting a segment that fills the free area at a place ends without a panic, with more rounds than
-- there are branches, and gives the leaf of that area. The areas in order are those from before, with
-- the flags of the segment at that leaf; the pivots stay in order.
pub insert-exact :
    (node_size fuel flags : ℕ) (s : VmaTree) (c : Place) (a area : ℕ)
    → Stands s top (plug c (tip a (empty area)))
    → Ordered (plug c (tip a (empty area))) 0 (highest_user_address + 1)
    → lo_of c < hi_of c
    → hi_of c ≤ highest_user_address + 1
    → size (plug c (tip a (used flags))) < fuel
    → (u : VmaTree) × (tree : Shape) × (insert node_size fuel (lo_of c) (hi_of c - lo_of c) flags s
        ≡ some (ok a, u))
      × Stands u top tree
      × (all_areas tree
          ≡ areas_before c
            ++ (record { start = lo_of c; behind = hi_of c; leaf_node = a; content = used flags }
                ∷ areas_behind c))
      × Ordered tree 0 (highest_user_address + 1)
unfolding areas
insert-exact node_size fuel flags s c a area st o lt lim h =
    let here = zoom_down c (tip a (empty area)) st in
    let info : LeafInfo = record {
      leaf_node = a;
      parent_and_side = beside c;
      start = lo_of c;
      end = hi_of c - 1;
    } in
    let found : get_leaf_containing fuel (lo_of c) s ≡ some (info, s) =
      get_leaf_containing-plug c a (empty area) fuel (lo_of c) s st o (omega arith) lt (omega arith)
        (omega (arith, height-size c (tip a (used flags)))) in
    let (u, tree, run, st', same) = exact_lem fuel flags s c area info here refl h in
    (
      u,
      tree,
      insert-insert_found node_size fuel flags (lo_of c) (hi_of c - lo_of c) s info (omega arith)
            (omega arith) found
          ∙ ap (λ e. insert_found node_size fuel info (lo_of c) e flags s) (omega arith)
          ∙ found-exact node_size fuel flags s info area (here.here)
          ∙ run,
      st',
      same.areas_same 0 (highest_user_address + 1) ∙ areas-plug c (tip a (used flags)),
      same.ordered 0 (highest_user_address + 1)
          (Ordered-content c _ _ 0 (highest_user_address + 1) (λ k l p. p) o),
    )
