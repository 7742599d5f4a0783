-- ===== src/Vma/Tree/Shape.antt =====
-- The shape of a `VMATree`, apart from the pointers of its nodes: the abstract tree that the memory
-- holds, a place in it, and the areas that it parts the addresses into.
use x.Base.{
  ℕ, suc, ◌+◌, ◌<◌, ◌≤◌, ◌≡◌, ◌↔◌, refl, max, bit_and, ◌==◌, to_bit, Option, none, some, List, [],
  ◌∷◌, ◌++◌, arith,
}
use x.Paging.{not_u64}
use x.Vma.Node.{Side, left_side, right_side, BranchNode, LeafNode, Node, branch, leaf}
use x.Vma.Tree.{VmaTree, highest_user_address}

-- A leaf, or a branch with its packed fields and its empty area; each with its address.
pub data Shape : Type 0 where
  tip : (addr : ℕ) → LeafNode → Shape
  fork : (addr packed area : ℕ) (lower upper : Shape) → Shape

-- A branch whose child on the side comes first.
abbrev pub fork_on : Side → (addr packed area : ℕ) (near far : Shape) → Shape
fork_on left_side a w m near far = fork a w m near far
fork_on right_side a w m near far = fork a w m far near

abbrev pub address_of : Shape → ℕ
address_of (tip a l) = a
address_of (fork a w m lower upper) = a

-- The branch at an address, by the addresses of its children.
abbrev pub branch_on : Side → (packed area : ℕ) (parent : Option ℕ) (near far : ℕ) → BranchNode
branch_on left_side w m parent near far = record {
  packed_fields = w;
  max_empty_area_size = m;
  parent = parent;
  left = near;
  right = far;
}
branch_on right_side w m parent near far = record {
  packed_fields = w;
  max_empty_area_size = m;
  parent = parent;
  left = far;
  right = near;
}

-- A place in a tree: at the top, or on a side of a branch above it, with the other child there.
pub data Place : Type 0 where
  top : Place
  below : Side → (addr packed area : ℕ) (other : Shape) → Place → Place

abbrev pub plug : Place → Shape → Shape
plug top t = t
plug (below side a w m other above) t = plug above (fork_on side a w m t other)

abbrev pub above_of : Place → Option ℕ
above_of top = none
above_of (below side a w m other above) = some a

abbrev pub beside : Place → Option (ℕ × Side)
beside top = none
beside (below side a w m other above) = some (a, side)

-- The pivot in the packed fields.
unfoldable pub key : ℕ → ℕ
key w = bit_and w (not_u64 3)

-- The first address at a place, and the one behind its last.
abbrev pub lo_of : Place → ℕ
lo_of top = 0
lo_of (below left_side a w m other above) = lo_of above
lo_of (below right_side a w m other above) = key w

abbrev pub hi_of : Place → ℕ
hi_of top = highest_user_address + 1
hi_of (below left_side a w m other above) = key w
hi_of (below right_side a w m other above) = hi_of above

-- An area with its leaf, from its first address to the one behind its last.
pub record Area : Type 0 where
  pub start : ℕ
  pub behind : ℕ
  pub leaf_node : ℕ
  pub content : LeafNode

-- The areas of a tree, in order.
unfoldable pub areas : Shape → (lo hi : ℕ) → List Area
areas (tip a l) lo hi = record { start = lo; behind = hi; leaf_node = a; content = l } ∷ []
areas (fork a w m lower upper) lo hi = areas lower lo (key w) ++ areas upper (key w) hi

unfoldable pub depth : Shape → ℕ
depth (tip a l) = 0
depth (fork a w m lower upper) = suc (max (depth lower) (depth upper))

-- The number of branches above a place.
unfoldable pub height : Place → ℕ
height top = 0
height (below side a w m other above) = suc (height above)

-- How often an address stands in a tree, and around a place.
unfoldable pub occurs : ℕ → Shape → ℕ
occurs b (tip a l) = to_bit (b == a)
occurs b (fork a w m lower upper) = to_bit (b == a) + occurs b lower + occurs b upper

unfoldable pub occurs_at : ℕ → Place → ℕ
unfolding occurs
occurs_at b top = 0
occurs_at b (below side a w m other above) = to_bit (b == a) + occurs b other + occurs_at b above

-- The memory holds a tree below a parent, and the branches around a place.
abbrev pub Holds : (nodes : ℕ → Node) (parent : Option ℕ) → Shape → Type 0
Holds nodes parent (tip a l) = nodes a ≡ leaf l
Holds nodes parent (fork a w m lower upper) =
    (nodes a ≡ branch (branch_on left_side w m parent (address_of lower) (address_of upper)))
    × Holds nodes (some a) lower
    × Holds nodes (some a) upper

abbrev pub HoldsAt : (nodes : ℕ → Node) (hole : ℕ) → Place → Type 0
HoldsAt nodes hole top = Unit {0}
HoldsAt nodes hole (below side a w m other above) =
    (nodes a ≡ branch (branch_on side w m (above_of above) hole (address_of other)))
    × Holds nodes (some a) other
    × HoldsAt nodes a above

abbrev pub root_at : Place → (hole : ℕ) → ℕ
root_at top hole = hole
root_at (below side a w m other above) hole = root_at above a

-- A tree stands at a place of the state, with no address twice.
pub record Stands (s : VmaTree) (c : Place) (t : Shape) : Type 0 where
  pub root : s.root ≡ root_at c (address_of t)
  pub here : Holds s.storage.nodes (above_of c) t
  pub around : HoldsAt s.storage.nodes (address_of t) c
  pub once : (b : ℕ) → occurs_at b c + occurs b t ≤ 1

-- Pivots part their range, and no area is empty.
abbrev pub Ordered : Shape → (lo hi : ℕ) → Type 0
Ordered (tip a l) lo hi = lo < hi
Ordered (fork a w m lower upper) lo hi = Ordered lower lo (key w) × Ordered upper (key w) hi

pub Ordered-lt : (t : Shape) (lo hi : ℕ) → Ordered t lo hi → lo < hi
Ordered-lt (tip a l) lo hi o = o
Ordered-lt (fork a w m lower upper) lo hi o =
    omega (arith, Ordered-lt lower lo (key w) o.0, Ordered-lt upper (key w) hi o.1)

-- The areas before and behind those of a place.
unfoldable pub areas_before : Place → List Area
unfolding areas
areas_before top = []
areas_before (below left_side a w m other above) = areas_before above
areas_before (below right_side a w m other above) =
    areas_before above ++ areas other (lo_of above) (key w)

unfoldable pub areas_behind : Place → List Area
unfolding areas
areas_behind top = []
areas_behind (below left_side a w m other above) =
    areas other (key w) (hi_of above) ++ areas_behind above
areas_behind (below right_side a w m other above) = areas_behind above

-- All the areas of the addresses of a process.
abbrev pub all_areas : Shape → List Area
all_areas t = areas t 0 (highest_user_address + 1)

-- A branch with its children in the order of a side.
pub Holds-fork_on :
    (side : Side) (f : ℕ → Node) (p : Option ℕ) (a w m : ℕ) (near far : Shape)
    → Holds f p (fork_on side a w m near far) ↔ (
        (f a ≡ branch (branch_on side w m p (address_of near) (address_of far)))
        × Holds f (some a) near
        × Holds f (some a) far)
Holds-fork_on left_side f p a w m near far = (λ h. h, λ h. h)
Holds-fork_on right_side f p a w m near far = (λ h. (h.0, h.2, h.1), λ h. (h.0, h.2, h.1))

pub occurs-fork_on :
    (side : Side) (b a w m : ℕ) (near far : Shape)
    → occurs b (fork_on side a w m near far) ≡ to_bit (b == a) + occurs b near + occurs b far
unfolding occurs
occurs-fork_on left_side b a w m near far = refl
occurs-fork_on right_side b a w m near far = omega arith

pub address_of-fork_on :
    (side : Side) (a w m : ℕ) (near far : Shape) → address_of (fork_on side a w m near far) ≡ a
address_of-fork_on left_side a w m near far = refl
address_of-fork_on right_side a w m near far = refl

pub parent-branch_on :
    (side : Side) (w m : ℕ) (parent : Option ℕ) (near far : ℕ)
    → (branch_on side w m parent near far).parent ≡ parent
parent-branch_on left_side w m parent near far = refl
parent-branch_on right_side w m parent near far = refl

pub area-branch_on :
    (side : Side) (w m : ℕ) (parent : Option ℕ) (near far : ℕ)
    → (branch_on side w m parent near far).max_empty_area_size ≡ m
area-branch_on left_side w m parent near far = refl
area-branch_on right_side w m parent near far = refl
