-- ===== src/Vma/Allocator/InGap.antt =====
-- The start of a map task in a free area: the segment is inserted, and its leaf is locked.
use x.Base.{
  ℕ, ◌+◌, ◌-◌, ◌/◌, ◌<◌, ◌≤◌, ◌≡◌, ◌≢◌, refl, subst, true, Option, none, some, Result, ok, err,
  arith, List, [], ◌∷◌, ◌++◌, All,
}
use x.Paging.{page_size}
use x.UserMapper.MapTask.{MapMemTask, new_map}
use x.Vma.Node.{Node, branch, leaf, empty, used, Segment, node_flags, set_locked}
use x.Vma.Storage.{VmaMapError}
use x.Vma.Tree.{VmaTree, node_at, highest_user_address}
use x.Vma.Tree.Heap.{put, write-put}
use x.Vma.Tree.Shape.{
  Shape, tip, fork, Place, top, plug, lo_of, hi_of, key, Area, areas, all_areas, areas_before,
  areas_behind, Holds, Stands, Ordered,
}
use x.Vma.Tree.Insert.{insert}
use x.Vma.Tree.Insert.Exact.{insert-exact}
use x.Vma.Tree.Link.Locate.{size-plug_same}
use x.Vma.Tree.Same.{size}
use x.Vma.Allocator.{start_in_gap, set_locked_at}

-- The new leaf of a segment, as `insert` writes it, and as it is once it is locked.
abbrev pub new_flags : Segment → ℕ
new_flags g = node_flags g.flags

abbrev pub locked_leaf : VmaTree → (a flags : ℕ) → VmaTree
locked_leaf u a flags = put u a (leaf (used (set_locked true flags)))

abbrev pub task_for : Segment → MapMemTask
task_for g = new_map g.start (g.len / page_size) g.flags

-- By what inserting the segment comes to: its panic or its error is passed on; a used leaf that it
-- gives is locked, and no other node changes, and the task is for all pages of the segment.
pub data StartsMap (node_size fuel : ℕ) (s : VmaTree) (g : Segment)
    : Option (Result VmaMapError MapMemTask × VmaTree) → Type 0 where
  insert_panics :
      insert node_size fuel g.start g.len (new_flags g) s ≡ none → StartsMap node_size fuel s g none
  insert_fails :
      (e : VmaMapError) (u : VmaTree)
      → insert node_size fuel g.start g.len (new_flags g) s ≡ some (err e, u)
      → StartsMap node_size fuel s g (some (err e, u))
  not_used :
      (a : ℕ) (u : VmaTree)
      → insert node_size fuel g.start g.len (new_flags g) s ≡ some (ok a, u)
      → ((flags : ℕ) → node_at u a ≢ leaf (used flags))
      → StartsMap node_size fuel s g none
  inserted :
      (a flags : ℕ) (u : VmaTree)
      → insert node_size fuel g.start g.len (new_flags g) s ≡ some (ok a, u)
      → node_at u a ≡ leaf (used flags)
      → StartsMap node_size fuel s g (some (ok (task_for g), locked_leaf u a flags))

All-append : (P : Area → Type 0) (xs ys : List Area) → All P xs → All P ys → All P (xs ++ ys)
All-append P [] ys p q = q
All-append P (x ∷ xs) ys p q = (p.0, All-append P xs ys p.1 q)

All-middle : (P : Area → Type 0) (xs ys : List Area) (x : Area) → All P (xs ++ x ∷ ys) → P x
All-middle P [] ys x p = p.0
All-middle P (y ∷ xs) ys x p = All-middle P xs ys x p.1

-- A tree that stands in the memory holds the leaf of each of its areas.
Holds-areas :
    (nodes : ℕ → Node) (p : Option ℕ) (t : Shape) (lo hi : ℕ)
    → Holds nodes p t
    → All (λ r. nodes r.leaf_node ≡ leaf r.content) (areas t lo hi)
unfolding areas
Holds-areas nodes p (tip a l) lo hi h = (h, tt)
Holds-areas nodes p (fork a w m lower upper) lo hi h =
    All-append (λ r. nodes r.leaf_node ≡ leaf r.content) (areas lower lo (key w))
      (areas upper (key w) hi) (Holds-areas nodes (some a) lower lo (key w) h.1)
      (Holds-areas nodes (some a) upper (key w) hi h.2)

module _ (node_size fuel : ℕ) (g : Segment) (s : VmaTree) where
  abbrev pub inserts : Option (Result VmaMapError ℕ × VmaTree)
  inserts = insert node_size fuel g.start g.len (new_flags g) s

  start_none : inserts ≡ none → start_in_gap node_size fuel g s ≡ none
  unfolding start_in_gap
  start_none e = ground (arith, e)

  start_err :
      (x : VmaMapError) (u : VmaTree)
      → inserts ≡ some (err x, u)
      → start_in_gap node_size fuel g s ≡ some (err x, u)
  unfolding start_in_gap
  start_err x u e = ground (arith, e)

  pub start_used :
      (a flags : ℕ) (u : VmaTree)
      → inserts ≡ some (ok a, u)
      → node_at u a ≡ leaf (used flags)
      → start_in_gap node_size fuel g s ≡ some (ok (task_for g), locked_leaf u a flags)
  unfolding start_in_gap set_locked_at
  start_used a flags u e n =
      let w = write-put u a (leaf (used (set_locked true flags))) in ground (arith, e, n, w)

  start_branch :
      (a : ℕ) (u : VmaTree) (n : Node)
      → inserts ≡ some (ok a, u)
      → node_at u a ≡ n
      → ((flags : ℕ) → n ≢ leaf (used flags))
      → start_in_gap node_size fuel g s ≡ none
  unfolding start_in_gap set_locked_at
  start_branch a u (branch b) e n unused = ground (arith, e, n)
  start_branch a u (leaf (empty size)) e n unused = ground (arith, e, n)
  start_branch a u (leaf (used flags)) e n unused = absurd (unused flags refl)

  by_node :
      (a : ℕ) (u : VmaTree) (n : Node)
      → inserts ≡ some (ok a, u)
      → node_at u a ≡ n
      → StartsMap node_size fuel s g (start_in_gap node_size fuel g s)
  by_node a u (branch b) e n =
      rw (start_branch a u (branch b) e n (λ flags h. ground (arith, h)))
        (not_used a u e (λ flags h. ground (arith, n, h)))
  by_node a u (leaf (empty size)) e n =
      rw (start_branch a u (leaf (empty size)) e n (λ flags h. ground (arith, h)))
        (not_used a u e (λ flags h. ground (arith, n, h)))
  by_node a u (leaf (used flags)) e n = rw (start_used a flags u e n) (inserted a flags u e n)

  by_result :
      (r : Option (Result VmaMapError ℕ × VmaTree))
      → inserts ≡ r
      → StartsMap node_size fuel s g (start_in_gap node_size fuel g s)
  by_result none e = rw (start_none e) (insert_panics e)
  by_result (some (err x, u)) e = rw (start_err x u e) (insert_fails x u e)
  by_result (some (ok a, u)) e = by_node a u (node_at u a) e refl

  pub start_in_gap-StartsMap : StartsMap node_size fuel s g (start_in_gap node_size fuel g s)
  start_in_gap-StartsMap = by_result inserts refl

-- What a segment that fills a free area leaves.
abbrev pub Filled : (g : Segment) (c : Place) (a : ℕ) (u : VmaTree) (tree : Shape) → Type 0
Filled g c a u tree =
    Stands u top tree
    × (all_areas tree
        ≡ areas_before c
          ++ (record {
            start = lo_of c;
            behind = hi_of c;
            leaf_node = a;
            content = used (new_flags g);
          }
              ∷ areas_behind c))
    × Ordered tree 0 (highest_user_address + 1)

pub start_in_gap-exact :
    (node_size fuel : ℕ) (g : Segment) (s : VmaTree) (c : Place) (a area : ℕ)
    → Stands s top (plug c (tip a (empty area)))
    → Ordered (plug c (tip a (empty area))) 0 (highest_user_address + 1)
    → 0 < g.len
    → lo_of c ≡ g.start
    → hi_of c ≡ g.start + g.len
    → hi_of c ≤ highest_user_address + 1
    → size (plug c (tip a (empty area))) < fuel
    → (u : VmaTree) × (tree : Shape) × (start_in_gap node_size fuel g s
        ≡ some (ok (task_for g), locked_leaf u a (new_flags g)))
      × Filled g c a u tree
unfolding size
start_in_gap-exact node_size fuel g s c a area st o pos lo hi lim h =
    let flags = new_flags g in
    let same = size-plug_same c (tip a (used flags)) (tip a (empty area)) refl in
    let (u, tree, run, st', together, o') =
      insert-exact node_size fuel flags s c a area st o (omega (arith, lo, hi)) lim
        (omega (arith, same, h)) in
    let long : hi_of c - g.start ≡ g.len = omega (arith, lo, hi) in
    let run' : inserts node_size fuel g s ≡ some (ok a, u) = rw (lo, long) at run in
    let held = Holds-areas u.storage.nodes none tree 0 (highest_user_address + 1) st'.here in
    let there : node_at u a ≡ leaf (used flags) =
      All-middle (λ r. u.storage.nodes r.leaf_node ≡ leaf r.content) (areas_before c)
        (areas_behind c) _
        (subst (λ l. All (λ (r : Area). u.storage.nodes r.leaf_node ≡ leaf r.content) l) together
          held) in
    (u, tree, start_used node_size fuel g s a flags u run' there, (st', together, o'))
