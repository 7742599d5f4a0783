-- ===== src/Vma/Tree/Rotate/Steps.antt =====
-- The writes of a rotation of `VMATree`, in a row.
use x.Base.{ℕ, ◌≡◌, max, Option, some, arith}
use x.Vma.Node.{Side, left_side, right_side, branch, empty_area}
use x.Vma.Tree.{
  VmaTree, node_at, set_parent, replace_child, recalculate_max_empty_area_size, left_rotate,
  right_rotate,
}
use x.Vma.Tree.Link.{rotate}
use x.Vma.Tree.Shape.{branch_on}
use x.Vma.Tree.Heap.{put, Writes, modify-put, recalculate-Writes}

-- `left_rotate` and `right_rotate` from what their steps do.
module _ (n w m r w' m' : ℕ) (p q : Option ℕ) (a b d : ℕ) where
  pub rotate-steps :
      (side : Side) (s t2 t4 t7 t8 : VmaTree)
      → node_at s n ≡ branch (branch_on side w m p a r)
      → node_at s r ≡ branch (branch_on side w' m' q b d)
      → set_parent b (some n) (put s n (branch (branch_on side w m p a b))) ≡ some (tt, t2)
      → node_at t2 n ≡ branch (branch_on side w m p a b)
      → node_at t2 r ≡ branch (branch_on side w' m' q b d)
      → replace_child n r (put t2 r (branch (branch_on side w' m' p b d))) ≡ some (tt, t4)
      → node_at t4 r ≡ branch (branch_on side w' m' p b d)
      → node_at (put t4 r (branch (branch_on side w' m' p n d))) n
        ≡ branch (branch_on side w m p a b)
      → recalculate_max_empty_area_size n (
          put
            (put t4 r (branch (branch_on side w' m' p n d)))
            n
            (branch (branch_on side w m (some r) a b)))
        ≡ some (tt, t7)
      → recalculate_max_empty_area_size r t7 ≡ some (tt, t8)
      → rotate side n s ≡ some (tt, t8)
  unfolding left_rotate right_rotate
  rotate-steps left_side s t2 t4 t7 t8 at_n at_r e2 n2 r2 e4 r4 n5 e7 e8 =
      let f1 = modify-put s n (λ x. record x { right = b }) _ at_n in
      let f3 = modify-put t2 r (λ x. record x { parent = p }) _ r2 in
      let f5 = modify-put t4 r (λ x. record x { left = n }) _ r4 in
      let f6 =
        modify-put (put t4 r (branch (branch_on left_side w' m' p n d))) n
          (λ x. record x { parent = some r }) _ n5 in
      ground arith
  rotate-steps right_side s t2 t4 t7 t8 at_n at_r e2 n2 r2 e4 r4 n5 e7 e8 =
      let f1 = modify-put s n (λ x. record x { left = b }) _ at_n in
      let f3 = modify-put t2 r (λ x. record x { parent = p }) _ r2 in
      let f5 = modify-put t4 r (λ x. record x { right = n }) _ r4 in
      let f6 =
        modify-put (put t4 r (branch (branch_on right_side w' m' p n d))) n
          (λ x. record x { parent = some r }) _ n5 in
      ground arith

-- The larger area of two children in the order of a side.
abbrev pub max_on : Side → ℕ → ℕ → ℕ
max_on left_side near far = max near far
max_on right_side near far = max far near

pub recalculate-on :
    (side : Side) (s : VmaTree) (x w m : ℕ) (p : Option ℕ) (near far k l : ℕ)
    → node_at s x ≡ branch (branch_on side w m p near far)
    → empty_area (node_at s near) ≡ k
    → empty_area (node_at s far) ≡ l
    → (t : VmaTree) × (recalculate_max_empty_area_size x s ≡ some (tt, t))
      × Writes s x (branch (branch_on side w (max_on side k l) p near far)) t
recalculate-on left_side s x w m p near far k l h e f = rw (← e, ← f) (recalculate-Writes s x _ h)
recalculate-on right_side s x w m p near far k l h e f = rw (← e, ← f) (recalculate-Writes s x _ h)
