-- ===== src/Vma/Tree/Heap.antt =====
-- Writes to the nodes of a `VmaTree`, and what of a tree they leave as it was.
use x.Base.{
  ℕ, ◌≤◌, ◌≡◌, ◌≢◌, refl, ap, ◌∙◌, ◌==◌, if◌then◌else◌, to_bit, Option, some, max, arith, ==_refl,
}
use x.Vma.Node.{BranchNode, Node, branch, leaf, empty_area}
use x.Vma.Tree.{
  VmaTree, node_at, write, modify, set_parent, recalculate_max_empty_area_size, children_area,
}
use x.Vma.Tree.Shape.{
  Shape, tip, fork, Place, top, below, address_of, occurs, occurs_at, Holds, HoldsAt,
}

-- The state with a node written.
unfoldable pub put : VmaTree → ℕ → Node → VmaTree
put s a n = record s {
  storage = record (s.storage) { nodes = λ b. if b == a then n else s.storage.nodes b };
}

module _ (s : VmaTree) (a : ℕ) (n : Node) where
  pub put_same : node_at (put s a n) a ≡ n
  unfolding put
  put_same = rw (==_refl a) refl

  pub put_other : (b : ℕ) → b ≢ a → node_at (put s a n) b ≡ node_at s b
  unfolding put
  put_other b h = ground arith

  pub write-put : write a n s ≡ some (tt, put s a n)
  unfolding write put
  write-put = refl

  pub root-put : (put s a n).root ≡ s.root
  unfolding put
  root-put = refl

pub modify-put :
    (s : VmaTree) (a : ℕ) (f : BranchNode → BranchNode) (b : BranchNode)
    → node_at s a ≡ branch b
    → modify a f s ≡ some (tt, put s a (branch (f b)))
unfolding modify write put
modify-put s a f b h = ground arith

-- A node below another parent.
abbrev pub with_parent : Option ℕ → Node → Node
with_parent p (branch b) = branch (record b { parent = p })
with_parent p (leaf l) = leaf l

-- One node of a state is another one.
pub record Writes (s : VmaTree) (a : ℕ) (n : Node) (t : VmaTree) : Type 0 where
  pub at : node_at t a ≡ n
  pub others : (b : ℕ) → b ≢ a → node_at t b ≡ node_at s b
  pub root : t.root ≡ s.root

pub put-Writes : (s : VmaTree) (a : ℕ) (n : Node) → Writes s a n (put s a n)
put-Writes s a n = record { at = put_same s a n; others = put_other s a n; root = root-put s a n }

pub set_parent-Writes :
    (s : VmaTree) (a : ℕ) (p : Option ℕ) (n : Node)
    → node_at s a ≡ n
    → (t : VmaTree) × (set_parent a p s ≡ some (tt, t)) × Writes s a (with_parent p n) t
unfolding set_parent
set_parent-Writes s a p (branch b) h = (
  _,
  ground (arith, write-put s a (branch (record b { parent = p }))),
  put-Writes s a (branch (record b { parent = p })),
)
set_parent-Writes s a p (leaf l) h =
    (s, ground arith, record { at = h; others = λ b e. refl; root = refl })

pub recalculate-Writes :
    (s : VmaTree) (a : ℕ) (b : BranchNode)
    → node_at s a ≡ branch b
    → (t : VmaTree) × (recalculate_max_empty_area_size a s ≡ some (tt, t))
      × Writes s a
          (branch (record b {
            max_empty_area_size =
                max (empty_area (node_at s b.left)) (empty_area (node_at s b.right));
          }))
          t
unfolding recalculate_max_empty_area_size children_area
recalculate-Writes s a b h = (
  _,
  ground (
    arith,
    modify-put s a
        (λ c. record c {
          max_empty_area_size =
              max (empty_area (node_at s b.left)) (empty_area (node_at s b.right));
        })
        b h,
  ),
  put-Writes s a _,
)

-- Tests of addresses, counted.
pub differs : (x y : ℕ) → to_bit (x == y) ≡ 0 → x ≢ y
differs x y h i = ground arith

pub counts_itself : (x : ℕ) → to_bit (x == x) ≡ 1
counts_itself x = rw (==_refl x) refl

pub counts_apart : (x y : ℕ) → x ≢ y → to_bit (x == y) ≡ 0
counts_apart x y h = ground arith

pub occurs-address_of : (t : Shape) → 1 ≤ occurs (address_of t) t
unfolding occurs
occurs-address_of (tip a l) = ground arith
occurs-address_of (fork a w m lower upper) = ground arith

-- A tree stays where none of its nodes is written.
pub Holds-same :
    (f g : ℕ → Node) (p : Option ℕ) (t : Shape)
    → ((b : ℕ) → 1 ≤ occurs b t → g b ≡ f b)
    → Holds f p t
    → Holds g p t
unfolding occurs
Holds-same f g p (tip a l) same h = same a (ground arith) ∙ h
Holds-same f g p (fork a w m lower upper) same h = (
  same a (ground arith) ∙ h.0,
  Holds-same f g (some a) lower (λ b e. same b (ground arith)) (h.1),
  Holds-same f g (some a) upper (λ b e. same b (ground arith)) (h.2),
)

-- So do the branches around a place, apart from the pointer to it.
pub HoldsAt-same :
    (f g : ℕ → Node) (hole : ℕ) (c : Place)
    → ((b : ℕ) → 1 ≤ occurs_at b c → g b ≡ f b)
    → HoldsAt f hole c
    → HoldsAt g hole c
unfolding occurs occurs_at
HoldsAt-same f g hole top same h = tt
HoldsAt-same f g hole (below side a w m other above) same h = (
  same a (ground arith) ∙ h.0,
  Holds-same f g (some a) other (λ b e. same b (ground arith)) (h.1),
  HoldsAt-same f g a above (λ b e. same b (ground arith)) (h.2),
)

-- A tree is taken below another parent by a write of its first node.
pub Holds-with_parent :
    (f g : ℕ → Node) (p q : Option ℕ) (t : Shape)
    → ((b : ℕ) → occurs b t ≤ 1)
    → g (address_of t) ≡ with_parent q (f (address_of t))
    → ((b : ℕ) → 1 ≤ occurs b t → b ≢ address_of t → g b ≡ f b)
    → Holds f p t
    → Holds g q t
unfolding occurs
Holds-with_parent f g p q (tip a l) once at same h = at ∙ ap (λ n. with_parent q n) h
Holds-with_parent f g p q (fork a w m lower upper) once at same h = (
  at ∙ ap (λ n. with_parent q n) (h.0),
  Holds-same f g (some a) lower (λ b e. same b (ground arith) (λ i. ground (arith, once b))) (h.1),
  Holds-same f g (some a) upper (λ b e. same b (ground arith) (λ i. ground (arith, once b))) (h.2),
)

-- The largest empty area that a branch above a tree counts for it.
abbrev pub area_of : Shape → ℕ
area_of (tip a l) = empty_area (leaf l)
area_of (fork a w m lower upper) = m

pub empty_area-Holds :
    (f : ℕ → Node) (p : Option ℕ) (t : Shape)
    → Holds f p t
    → empty_area (f (address_of t)) ≡ area_of t
empty_area-Holds f p (tip a l) h = rw h refl
empty_area-Holds f p (fork a w m lower upper) h = rw (h.0) refl

pub empty_area-with_parent : (p : Option ℕ) (n : Node) → empty_area (with_parent p n) ≡ empty_area n
empty_area-with_parent p (branch b) = refl
empty_area-with_parent p (leaf l) = refl
