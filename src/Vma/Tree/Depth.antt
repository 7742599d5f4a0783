-- ===== src/Vma/Tree/Depth.antt =====
-- How deep a `VMATree` with the red-black rules is, and how many rounds a search in it takes.
use x.Base.{ℕ, suc, ◌+◌, ◌*◌, ◌^◌, ◌≤◌, ◌<◌, ◌≡◌, refl, arith, inl, inr, Bool-cases, ltb}
use native.Mathlib.Nat.{pow-le-pow_right}
use x.Vma.Node.{black}
use x.Vma.Tree.{VmaTree, highest_user_address, get_leaf_containing}
use x.Vma.Tree.Shape.{Shape, tip, fork, top, Stands, Ordered, depth}
use x.Vma.Tree.Same.{size}
use x.Vma.Tree.Search.{Finds, get_leaf_containing-Finds}
use x.Vma.Tree.Zoom.{color_of}
use x.Vma.Tree.Measure.{top_color}
use x.Vma.Tree.Balance.{NodeColor-cases, is_counted, black_height, Balanced}

-- A red branch stands between two black ones.
depth_bound : (t : Shape) → Balanced t → depth t + is_counted (top_color t) ≤ 2 * black_height t + 1
unfolding depth black_height
depth_bound (tip a l) b = omega arith
depth_bound (fork a w m lower upper) b =
    let (bl, bu, h, c) = b in
    let dl = depth_bound lower bl in
    let du = depth_bound upper bu in
    elim (NodeColor-cases (color_of w)) [
      | inl is_red ↦
          let cl : depth lower + 1 ≤ 2 * black_height lower + 1 = rw ((c is_red).0) at dl in
          let cu : depth upper + 1 ≤ 2 * black_height upper + 1 = rw ((c is_red).1) at du in
          rw is_red (omega (arith, cl, cu, h))
      | inr is_black ↦ rw is_black (omega (arith, dl, du, h))
    ]

-- A tree of a black height has all the branches of that many rows.
size_bound : (t : Shape) → Balanced t → 2 ^ black_height t ≤ size t + 1
unfolding size black_height
size_bound (tip a l) b = omega arith
size_bound (fork a w m lower upper) b =
    let (bl, bu, h, c) = b in
    let sl = size_bound lower bl in
    let su : 2 ^ black_height lower ≤ size upper + 1 = rw h (size_bound upper bu) in
    elim (NodeColor-cases (color_of w)) [
      | inl is_red ↦
          let none_counted : is_counted (color_of w) ≡ 0 = rw is_red refl in
          let same : black_height lower + is_counted (color_of w) ≡ black_height lower =
            omega (arith, none_counted) in
          rw same (omega (arith, sl, su))
      | inr is_black ↦
          let one_counted : is_counted (color_of w) ≡ 1 = rw is_black refl in
          let more : black_height lower + is_counted (color_of w) ≡ suc (black_height lower) =
            omega (arith, one_counted) in
          rw more (omega (arith, sl, su))
    ]

-- The rows of a tree with fewer than `2 ^ n - 1` branches.
height_bound : (n h : ℕ) → 2 ^ h < 2 ^ n → h < n
height_bound n h e = elim (Bool-cases (ltb h n)) [
  | inl less ↦ ground arith
  | inr not_less ↦
      let more : n ≤ h = ground arith in
      let grows : 2 ^ n ≤ 2 ^ h = pow-le-pow_right (omega arith) more in
      absurd (omega (arith, grows))
]

-- In a tree with a black root and the red-black rules, whose branches are fewer than `2 ^ n - 1`, the
-- search for an address of a process ends within `2 * n` rounds, without a panic and with the state as
-- it was, at the leaf whose area the address is in. The memory must hold the tree, with its pivots in
-- order.
pub get_leaf_containing-Balanced :
    (s : VmaTree) (t : Shape) (n addr : ℕ)
    → Stands s top t
    → Ordered t 0 (highest_user_address + 1)
    → addr ≤ highest_user_address
    → Balanced t
    → top_color t ≡ black
    → size t + 1 < 2 ^ n
    → Finds s addr t (get_leaf_containing (2 * n) addr s)
get_leaf_containing-Balanced s t n addr st o lim b r small =
    let wide : 2 ^ black_height t < 2 ^ n = omega (arith, small, size_bound t b) in
    let short = height_bound n (black_height t) wide in
    let deep : depth t + 1 ≤ 2 * black_height t + 1 = rw r at (depth_bound t b) in
    get_leaf_containing-Finds s t (2 * n) addr st o lim (omega (arith, deep, short))
