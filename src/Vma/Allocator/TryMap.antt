-- ===== src/Vma/Allocator/TryMap.antt =====
-- The start of a map task: which areas it refuses.
use x.Base.{
  ℕ, ◌+◌, ◌-◌, ◌⊎◌, ◌==◌, ◌&&◌, sym, subst, ◌%◌, ◌^◌, ◌<◌, ◌≤◌, ◌≡◌, refl, ◌∙◌, true, false, ltb,
  leb, ◌==◌, Option, some, Result, ok, err, arith, Bool-cases, inl, inr,
}
use x.Paging.{page_size}
use x.Vma.Node.{LeafNode, leaf, empty, used, Segment}
use x.Vma.Storage.{VmaMapError, segment_already_exists}
use x.Vma.Tree.{VmaTree, LeafInfo, node_at, get_leaf_containing, highest_user_address}
use x.Vma.Tree.Shape.{Shape, tip, Place, top, plug, lo_of, hi_of, depth, Stands, Ordered}
use x.Vma.Tree.Search.{Finds, finds, get_leaf_containing-Finds}
use x.Vma.Tree.Same.{size}
use x.Vma.Allocator.InGap.{
  StartsMap, task_for, locked_leaf, new_flags, Filled, start_in_gap-StartsMap, start_in_gap-exact,
}
use x.Vma.Allocator.{start_try_map_at, start_in_gap, map_found}
use x.UserMapper.MapTask.{MapMemTask}
use x.Base.{◌>>=◌, lt→ltb, le→leb, le→ltb}

-- What mapping a segment at its place does: an area that is used or too short is an error, and nothing
-- changes.
pub data TryMaps (node_size fuel : ℕ) (s : VmaTree) (g : Segment) (t : Shape)
    : Option (Result VmaMapError MapMemTask × VmaTree) → Type 0 where
  too_short :
      (c : Place) (a : ℕ) (l : LeafNode)
      → plug c (tip a l) ≡ t
      → lo_of c ≤ g.start
      → g.start < hi_of c
      → hi_of c < g.start + g.len
      → TryMaps node_size fuel s g t (some (err segment_already_exists, s))
  in_use :
      (c : Place) (a flags : ℕ)
      → plug c (tip a (used flags)) ≡ t
      → lo_of c ≤ g.start
      → g.start + g.len ≤ hi_of c
      → TryMaps node_size fuel s g t (some (err segment_already_exists, s))
  fills_gap :
      (c : Place) (a area : ℕ) (u : VmaTree) (tree : Shape)
      → plug c (tip a (empty area)) ≡ t
      → lo_of c ≡ g.start
      → hi_of c ≡ g.start + g.len
      → Filled g c a u tree
      → TryMaps node_size fuel s g t (some (ok (task_for g), locked_leaf u a (new_flags g)))
  beside_gap :
      (c : Place) (a area : ℕ) {o : Option (Result VmaMapError MapMemTask × VmaTree)}
      → plug c (tip a (empty area)) ≡ t
      → lo_of c ≤ g.start
      → g.start + g.len ≤ hi_of c
      → (lo_of c < g.start) ⊎ (g.start + g.len < hi_of c)
      → StartsMap node_size fuel s g o
      → TryMaps node_size fuel s g t o

beside_of :
    (g : Segment) (c : Place)
    → lo_of c ≤ g.start
    → g.start + g.len ≤ hi_of c
    → (lo_of c == g.start && hi_of c == g.start + g.len) ≡ false
    → (lo_of c < g.start) ⊎ (g.start + g.len < hi_of c)
beside_of g c lo hi other = elim (Bool-cases (lo_of c == g.start)) [
  | inl first ↦ inr (ground arith)
  | inr later ↦ inl (ground arith)
]

-- The checks of the segment, then what the search finds.
module _ (node_size fuel : ℕ) (g : Segment) (s : VmaTree) (info : LeafInfo)
    (aligned : g.start % page_size ≡ 0) (whole : g.len % page_size ≡ 0) (some_pages : 0 < g.len)
    (in_range : g.start + g.len ≤ highest_user_address + 1)
    (run : get_leaf_containing fuel g.start s ≡ some (info, s)) (t : Shape) (st : Stands s top t)
    (o : Ordered t 0 (highest_user_address + 1)) (small : size t < fuel) where
  checked :
      start_try_map_at node_size fuel g s ≡ map_found node_size fuel g (g.start + g.len - 1) info s
  unfolding start_try_map_at
  checked =
      let b1 : (g.start % page_size == 0) ≡ true = rw aligned refl in
      let b2 : (g.len % page_size == 0) ≡ true = rw whole refl in
      let b3 : ltb (g.start + g.len) (2 ^ 64) ≡ true = lt→ltb _ _ (omega arith) in
      let b4 : leb 1 (g.start + g.len) ≡ true = le→leb _ _ (omega arith) in
      let b5 : leb (g.start + g.len - 1) highest_user_address ≡ true = le→leb _ _ (omega arith) in
      simp (b1, b2, b3, b4, b5) (rw (run, ◌>>=◌) refl)

  refuse_short :
      info.end + 1 < g.start + g.len
      → map_found node_size fuel g (g.start + g.len - 1) info s
        ≡ some (err segment_already_exists, s)
  unfolding map_found
  refuse_short h =
      let b : ltb (info.end) (g.start + g.len - 1) ≡ true = lt→ltb _ _ (omega arith) in ground arith

  refuse_used :
      (flags : ℕ)
      → g.start + g.len ≤ info.end + 1
      → node_at s info.leaf_node ≡ leaf (used flags)
      → map_found node_size fuel g (g.start + g.len - 1) info s
        ≡ some (err segment_already_exists, s)
  unfolding map_found
  refuse_used flags h e =
      let b : ltb (info.end) (g.start + g.len - 1) ≡ false = le→ltb _ _ (omega arith) in
      ground arith

  allow_empty :
      (area : ℕ)
      → g.start + g.len ≤ info.end + 1
      → node_at s info.leaf_node ≡ leaf (empty area)
      → map_found node_size fuel g (g.start + g.len - 1) info s ≡ start_in_gap node_size fuel g s
  unfolding map_found
  allow_empty area h e =
      let b : ltb (info.end) (g.start + g.len - 1) ≡ false = le→ltb _ _ (omega arith) in
      ground arith

  -- A free area that the segment fits in.
  in_gap :
      (c : Place) (a area : ℕ)
      → plug c (tip a (empty area)) ≡ t
      → lo_of c ≤ g.start
      → g.start + g.len ≤ hi_of c
      → TryMaps node_size fuel s g t (start_in_gap node_size fuel g s)
  in_gap c a area p lo hi = elim (Bool-cases (lo_of c == g.start && hi_of c == g.start + g.len)) [
    | inr other ↦
        beside_gap c a area p lo hi (beside_of g c lo hi other)
          (start_in_gap-StartsMap node_size fuel g s)
    | inl exact ↦
        let first : lo_of c ≡ g.start = ground arith in
        let last : hi_of c ≡ g.start + g.len = ground arith in
        let (u, tree, run', filled) =
          start_in_gap-exact node_size fuel g s c a area (subst (λ x. Stands s top x) (sym p) st)
            (subst (λ x. Ordered x 0 (highest_user_address + 1)) (sym p) o) some_pages first last
            (omega (arith, last, in_range)) (subst (λ x. size x < fuel) (sym p) small) in
        rw run' (fills_gap c a area u tree p first last filled)
  ]

  from_long :
      (c : Place) (l : LeafNode)
      → g.start + g.len ≤ info.end + 1
      → plug c (tip info.leaf_node l) ≡ t
      → node_at s info.leaf_node ≡ leaf l
      → info.start ≡ lo_of c
      → info.end + 1 ≡ hi_of c
      → info.start ≤ g.start
      → TryMaps node_size fuel s g t (start_try_map_at node_size fuel g s)
  from_long c (empty area) h p e lo hi b =
      rw (checked ∙ allow_empty area h e)
        (in_gap c info.leaf_node area p (omega (arith, lo, b)) (omega (arith, h, hi)))
  from_long c (used flags) h p e lo hi b =
      rw (checked ∙ refuse_used flags h e)
        (in_use c info.leaf_node flags p (omega arith) (omega arith))

  from_leaf :
      (c : Place) (l : LeafNode)
      → plug c (tip info.leaf_node l) ≡ t
      → node_at s info.leaf_node ≡ leaf l
      → info.start ≡ lo_of c
      → info.end + 1 ≡ hi_of c
      → info.start ≤ g.start
      → g.start ≤ info.end
      → TryMaps node_size fuel s g t (start_try_map_at node_size fuel g s)
  from_leaf c l p e lo hi b1 b2 = elim (Bool-cases (leb (g.start + g.len) (info.end + 1))) [
    | inr short ↦
        let h : info.end + 1 < g.start + g.len = ground arith in
        rw (checked ∙ refuse_short h)
          (too_short c info.leaf_node l p (omega arith) (omega arith) (omega arith))
    | inl long ↦
        let h : g.start + g.len ≤ info.end + 1 = ground arith in from_long c l h p e lo hi b1
  ]

from_search :
    (node_size fuel : ℕ) (s : VmaTree) (g : Segment) (t : Shape)
    → g.start % page_size ≡ 0
    → g.len % page_size ≡ 0
    → 0 < g.len
    → g.start + g.len ≤ highest_user_address + 1
    → Stands s top t
    → Ordered t 0 (highest_user_address + 1)
    → size t < fuel
    → (r : Option (LeafInfo × VmaTree)) → get_leaf_containing fuel g.start s ≡ r
    → Finds s g.start t r
    → TryMaps node_size fuel s g t (start_try_map_at node_size fuel g s)
from_search node_size fuel s g t al wh pos rng st o small r run (finds c l info p e b lo hi b1 b2) =
    from_leaf node_size fuel g s info al wh pos rng run t st o small c l p e lo hi b1 b2

-- For a segment of whole pages among the addresses of a process, `start_try_map_at` answers with the
-- error for an existing segment, and changes nothing, when the area that the first address is in ends
-- before the segment does or is in use. A free area of exactly the addresses of the segment gets the
-- flags of the segment, with all other areas as they were, its leaf is then locked, and the answer is
-- the task for all pages of the segment. In a free area that is larger, the answer is the error of
-- `insert` for the segment if it fails, and else the task, with the leaf that `insert` gives locked;
-- it panics only where `insert` panics or gives a node that is no leaf in use. The tree must be held
-- by the memory, with its pivots in order, be less deep than the rounds of the search, and have fewer
-- branches than there are rounds.
pub start_try_map_at-TryMaps :
    (node_size fuel : ℕ) (s : VmaTree) (g : Segment) (t : Shape)
    → Stands s top t
    → Ordered t 0 (highest_user_address + 1)
    → g.start % page_size ≡ 0
    → g.len % page_size ≡ 0
    → 0 < g.len
    → g.start + g.len ≤ highest_user_address + 1
    → depth t < fuel
    → size t < fuel
    → TryMaps node_size fuel s g t (start_try_map_at node_size fuel g s)
start_try_map_at-TryMaps node_size fuel s g t st o al wh pos rng d small =
    from_search node_size fuel s g t al wh pos rng st o small _ refl
      (get_leaf_containing-Finds s t fuel g.start st o (omega arith) d)
