-- ===== src/Vma/Tree/Relink.antt =====
-- The pointer to a place of a `VmaTree`, which `replace_child` turns to another node.
use x.Base.{ℕ, ◌≤◌, ◌≡◌, ◌≢◌, refl, ◌∙◌, some, arith}
use x.Vma.Node.{Side, left_side, right_side, BranchNode, branch}
use x.Vma.Tree.{VmaTree, node_at, replace_child, is_left_side, get_parent}
use x.Vma.Tree.Shape.{
  Shape, Place, top, below, address_of, above_of, occurs, occurs_at, HoldsAt, branch_on, root_at,
}
use x.Vma.Tree.Heap.{
  put, put_same, put_other, root-put, modify-put, Holds-same, HoldsAt-same, occurs-address_of,
}

-- Only the branches around the place change, and they hold another node there.
pub record Relinks (s : VmaTree) (c : Place) (r : ℕ) (t : VmaTree) : Type 0 where
  pub root : t.root ≡ root_at c r
  pub around : HoldsAt t.storage.nodes r c
  pub others : (b : ℕ) → occurs_at b c ≡ 0 → node_at t b ≡ node_at s b

-- The branch above a place takes another child there.
module _ (s : VmaTree) (side : Side) (a w m : ℕ) (other : Shape) (above : Place) (n r : ℕ) where
  pub put-Relinks :
      s.root ≡ root_at (below side a w m other above) n
      → HoldsAt s.storage.nodes n (below side a w m other above)
      → ((b : ℕ) → occurs_at b (below side a w m other above) ≤ 1)
      → Relinks s
          (below side a w m other above)
          r
          (put s a (branch (branch_on side w m (above_of above) r (address_of other))))
  unfolding occurs_at occurs
  put-Relinks root around once =
      let new = branch (branch_on side w m (above_of above) r (address_of other)) in
      record {
        root = root-put s a new ∙ root;
        around = (
          put_same s a new,
          Holds-same _ _ (some a) other (λ b e. put_other s a new b (λ i. ground (arith, once b)))
              (around.1),
          HoldsAt-same _ _ a above (λ b e. put_other s a new b (λ i. ground (arith, once b)))
              (around.2),
        );
        others = λ b e. put_other s a new b (λ i. ground arith);
      }

-- `replace_child` at the node of a place.
pub replace_child-Relinks :
    (s : VmaTree) (c : Place) (n r : ℕ) (nb : BranchNode)
    → node_at s n ≡ branch nb
    → nb.parent ≡ above_of c
    → s.root ≡ root_at c n
    → HoldsAt s.storage.nodes n c
    → ((b : ℕ) → occurs_at b c ≤ 1)
    → occurs_at n c ≡ 0
    → (t : VmaTree) × (replace_child n r s ≡ some (tt, t)) × Relinks s c r t
unfolding replace_child is_left_side get_parent occurs_at
replace_child-Relinks s top n r nb h p root around once out =
    (record s { root = r }, ground arith, record { root = refl; around = tt; others = λ b e. refl })
replace_child-Relinks s (below left_side a w m other above) n r nb h p root around once out =
    let linked = modify-put s a (λ b. record b { left = r }) _ (around.0) in
    (_, ground (arith, linked), put-Relinks s left_side a w m other above n r root around once)
replace_child-Relinks s (below right_side a w m other above) n r nb h p root around once out =
    let linked = modify-put s a (λ b. record b { right = r }) _ (around.0) in
    let ne : n ≢ address_of other = λ i. ground (arith, occurs-address_of other) in
    (_, ground (arith, linked), put-Relinks s right_side a w m other above n r root around once)
