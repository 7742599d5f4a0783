-- ===== src/Vma/Tree/Delete.antt =====
-- `fix_delete` of `VMATree` in kernel/src/vma.rs and what it calls.
use x.Base.{
  ℕ, zero, suc, Bool, true, false, ◌==◌, ◌&&◌, if◌then◌else◌, Option, none, some, Command, pure,
  panic, ◌>>=◌, ◌>>◌,
}
use x.Vma.Node.{NodeColor, red, black, Side, left_side, right_side, opposite, child}
use x.Vma.Tree.{VmaTree, read_branch, set_color, color_at, get_parent, get_sibling}
use x.Vma.Tree.Link.{is_on, rotate}

abbrev pub is_black : NodeColor → Bool
is_black red = false
is_black black = true

unfoldable pub handle_red_sibling : (node sibling : ℕ) → Command VmaTree (Unit {0})
unfolding set_color get_parent is_on
handle_red_sibling node sibling = do
  set_color black sibling
  p ← get_parent node
  set_color red p
  on_left ← is_on left_side node
  on_right ← is_on right_side node
  if on_left then rotate left_side p else if on_right then rotate right_side p else panic

-- A red child on the near side of the sibling takes its place; `side` is the side of the node.
unfoldable pub turn_sibling : Side → (node sibling : ℕ) → Command VmaTree ℕ
unfolding set_color get_parent
turn_sibling side node sibling = do
  sb ← read_branch sibling
  far ← color_at (child sb (opposite side))
  elim far [
    | red ↦ pure sibling
    | black ↦ do
      set_color black (child sb side)
      set_color red sibling
      rotate (opposite side) sibling
      p ← get_parent node
      pb ← read_branch p
      _ ← read_branch (child pb (opposite side))
      pure (child pb (opposite side))
  ]

unfoldable pub handle_black_sibling_at_least_one_red_child :
    (node sibling : ℕ) → Command VmaTree (Unit {0})
unfolding set_color get_parent is_on turn_sibling
handle_black_sibling_at_least_one_red_child node sibling = do
  on_left ← is_on left_side node
  let side = if on_left then left_side else right_side
  sibling' ← turn_sibling side node sibling
  p ← get_parent node
  c ← color_at p
  set_color c sibling'
  set_color black p
  sb ← read_branch sibling'
  set_color black (child sb (opposite side))
  rotate side p

-- The sibling, once it is black.
unfoldable pub black_sibling : (node : ℕ) → Command VmaTree ℕ
unfolding get_sibling handle_red_sibling
black_sibling node = do
  sibling ← get_sibling node
  _ ← read_branch sibling
  c ← color_at sibling
  elim c [
    | black ↦ pure sibling
    | red ↦ do
      handle_red_sibling node sibling
      sibling' ← get_sibling node
      _ ← read_branch sibling'
      pure sibling'
  ]

-- A round of the loop of `fix_delete`: the node that it goes on with, or the end of the loop.
unfoldable pub fix_delete_round : (node : ℕ) → Command VmaTree (Option ℕ)
unfolding black_sibling set_color get_parent handle_black_sibling_at_least_one_red_child
fix_delete_round node = do
  sibling ← black_sibling node
  sb ← read_branch sibling
  l ← color_at sb.left
  r ← color_at sb.right
  if is_black l && is_black r
      then (do
        set_color red sibling
        p ← get_parent node
        c ← color_at p
        elim c [ red ↦ do set_color black p; pure none | black ↦ pure (some p) ])
      else (do handle_black_sibling_at_least_one_red_child node sibling; pure none)

-- The loop, with the node that it ends at.
unfoldable pub fix_delete_loop : (rounds node : ℕ) → Command VmaTree ℕ
unfolding fix_delete_round
fix_delete_loop zero node s = none
fix_delete_loop (suc rounds) node s = elim (node == s.root) [
  | true ↦ some (node, s)
  | false ↦
      (do
        next ← fix_delete_round node
        elim next [ none ↦ pure node | some p ↦ fix_delete_loop rounds p ])
        s
]

unfoldable pub fix_delete : (rounds node : ℕ) → Command VmaTree (Unit {0})
unfolding fix_delete_loop set_color
fix_delete rounds node = do
  last ← fix_delete_loop rounds node
  λ s. (if last == s.root then set_color black last s else some (tt, s))
