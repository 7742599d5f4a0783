-- ===== src/Vma/Tree/Reach.antt =====
-- The search for an address arrives at the place that the address belongs to.
use x.Base.{
  ℕ, suc, ◌+◌, ◌-◌, ◌<◌, ◌≤◌, ◌≡◌, ap, ◌∙◌, true, false, ltb, leb, lt→ltb, le→leb, le→ltb, none,
  some, arith,
}
use x.Vma.Node.{left_side, right_side, LeafNode, pivot}
use x.Vma.Tree.{VmaTree, highest_user_address, descend, get_leaf_containing}
use x.Vma.Tree.Shape.{
  Shape, tip, fork, Place, top, below, plug, beside, address_of, lo_of, hi_of, Stands, Ordered,
  Ordered-lt, key, height,
}
use x.Vma.Tree.Search.{descend-leaf, descend-lower, descend-upper}
use x.Vma.Tree.Zoom.{zoom_out}
use x.Vma.Tree.Leaves.{zoom_down}

pub Ordered-plug :
    (c : Place) (t : Shape)
    → Ordered (plug c t) 0 (highest_user_address + 1)
    → Ordered t (lo_of c) (hi_of c)
Ordered-plug top t o = o
Ordered-plug (below left_side a w m other above) t o = (Ordered-plug above (fork a w m t other) o).0
Ordered-plug (below right_side a w m other above) t o =
    (Ordered-plug above (fork a w m other t) o).1

-- The rounds down to a place.
reach :
    (c : Place) (t : Shape) (rounds addr : ℕ) (s : VmaTree)
    → Stands s c t
    → Ordered (plug c t) 0 (highest_user_address + 1)
    → lo_of c ≤ addr
    → addr < hi_of c
    → descend (height c + suc rounds) addr s.root none 0 (highest_user_address + 1) s
      ≡ descend (suc rounds) addr (address_of t) (beside c) (lo_of c) (hi_of c) s
unfolding height pivot key
reach top t rounds addr s st o lo hi =
    ap (λ n. descend n addr s.root none 0 (highest_user_address + 1) s) (omega arith)
    ∙ ap (λ r. descend (suc rounds) addr r none 0 (highest_user_address + 1) s) (st.root)
reach (below left_side a w m other above) t rounds addr s st o lo hi =
    let whole = Ordered-plug above (fork a w m t other) o in
    let within = Ordered-lt other (key w) (hi_of above) (whole.1) in
    let st' = zoom_out left_side a w m other above t st in
    let down = reach above (fork a w m t other) (suc rounds) addr s st' o lo (omega arith) in
    let b1 : ltb addr (key w) ≡ true = lt→ltb _ _ hi in
    let b2 : leb (key w) (hi_of above) ≡ true = le→leb _ _ (omega arith) in
    ap (λ n. descend n addr s.root none 0 (highest_user_address + 1) s) (omega arith)
    ∙ down
    ∙ descend-lower (suc rounds) addr a (beside above) (lo_of above) (hi_of above) s _ (st'.here.0)
        b1 b2
reach (below right_side a w m other above) t rounds addr s st o lo hi =
    let whole = Ordered-plug above (fork a w m other t) o in
    let within = Ordered-lt other (lo_of above) (key w) (whole.0) in
    let st' = zoom_out right_side a w m other above t st in
    let down = reach above (fork a w m other t) (suc rounds) addr s st' o (omega arith) hi in
    let b1 : ltb addr (key w) ≡ false = le→ltb _ _ lo in
    let b2 : leb (lo_of above) (key w) ≡ true = le→leb _ _ (omega arith) in
    ap (λ n. descend n addr s.root none 0 (highest_user_address + 1) s) (omega arith)
    ∙ down
    ∙ descend-upper (suc rounds) addr a (beside above) (lo_of above) (hi_of above) s _ (st'.here.0)
        b1 b2

-- The search for an address of the area at a place ends at the leaf there, with the bounds, the parent
-- and the side of the place, within a round more than the place has branches above it.
pub get_leaf_containing-plug :
    (c : Place) (a : ℕ) (l : LeafNode) (rounds addr : ℕ) (s : VmaTree)
    → Stands s top (plug c (tip a l))
    → Ordered (plug c (tip a l)) 0 (highest_user_address + 1)
    → lo_of c ≤ addr
    → addr < hi_of c
    → addr ≤ highest_user_address
    → height c < rounds
    → get_leaf_containing rounds addr s
      ≡ some (
        record { leaf_node = a; parent_and_side = beside c; start = lo_of c; end = hi_of c - 1 },
        s,
      )
unfolding get_leaf_containing
get_leaf_containing-plug c a l rounds addr s st o lo hi lim h =
    let here = zoom_down c (tip a l) st in
    let rest = rounds - height c - 1 in
    let e : rounds ≡ height c + suc rest = omega arith in
    let b : leb addr highest_user_address ≡ true = le→leb _ _ lim in
    let b1 : leb 1 (hi_of c) ≡ true = le→leb _ _ (omega arith) in
    rw b (
      ap (λ n. descend n addr s.root none 0 (highest_user_address + 1) s) e
      ∙ reach c (tip a l) rest addr s here o lo hi
      ∙ descend-leaf rest addr a (beside c) (lo_of c) (hi_of c) s l (here.here) b1)

-- Order is a matter of the bounds alone.
pub Ordered-content :
    (c : Place) (t t' : Shape) (lo hi : ℕ)
    → ((k l : ℕ) → Ordered t k l → Ordered t' k l)
    → Ordered (plug c t) lo hi
    → Ordered (plug c t') lo hi
Ordered-content top t t' lo hi f o = f lo hi o
Ordered-content (below left_side a w m other above) t t' lo hi f o =
    Ordered-content above (fork a w m t other) (fork a w m t' other) lo hi
      (λ k l p. (f k (key w) (p.0), p.1)) o
Ordered-content (below right_side a w m other above) t t' lo hi f o =
    Ordered-content above (fork a w m other t) (fork a w m other t') lo hi
      (λ k l p. (p.0, f (key w) l (p.1))) o
