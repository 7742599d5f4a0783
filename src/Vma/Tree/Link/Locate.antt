-- ===== src/Vma/Tree/Link/Locate.antt =====
-- A branch of a tree by its address, and the update of the empty areas from there.
use x.Base.{ℕ, ◌+◌, ◌≤◌, ◌≡◌, refl, ◌==◌, to_bit, some, arith, Bool-cases, inl, inr}
use x.Vma.Node.{left_side, right_side}
use x.Vma.Tree.{VmaTree}
use x.Vma.Tree.Shape.{height, Shape, tip, fork, fork_on, Place, top, below, plug, Stands}
use x.Vma.Tree.Heap.{area_of}
use x.Vma.Tree.Same.{Same, Same-refl, Same-fork_on}
use x.Vma.Tree.Zoom.{zoom_in}
use x.Base.{zero, suc, ◌⊎◌}
use x.Base.{◌<◌, max}
use x.Vma.Tree.{update_max_empty_area_data}
use x.Vma.Tree.Same.{forks, size, size-fork_on, forks-fork_on}
use x.Vma.Tree.Measure.{update_lem, remeasured-Same, remeasured-top_color, remeasured, top_color}
use x.Vma.Tree.Balance.{
  black_height, Balanced, plug-Balanced, replaced-Balanced, remeasured-Balanced,
}

-- The place of a branch.
pub record Located (s : VmaTree) (b : ℕ) (tree : Shape) (bound : ℕ) : Type 0 where
  pub place : Place
  pub packed : ℕ
  pub area : ℕ
  pub lower : Shape
  pub upper : Shape
  pub stands : Stands s place (fork b packed area lower upper)
  pub whole : plug place (fork b packed area lower upper) ≡ tree
  pub near : height place < bound

zero_or : (n : ℕ) → (n ≡ 0) ⊎ (1 ≤ n)
zero_or zero = inl refl
zero_or (suc n) = inr (omega arith)

locate_from :
    (s : VmaTree) (b : ℕ) (t : Shape) (c : Place)
    → Stands s c t
    → 1 ≤ forks b t
    → Located s b (plug c t) (height c + size t)
unfolding forks size height
locate_from s b (tip a l) c st h = absurd (omega arith)
locate_from s b (fork a w m lower upper) c st h = elim (Bool-cases (b == a)) [
  | inl here ↦
      let same : b ≡ a = ground arith in
      rw same (record {
        place = c;
        packed = w;
        area = m;
        lower = lower;
        upper = upper;
        stands = st;
        whole = refl;
        near = omega arith;
      })
  | inr away ↦
      let gone : to_bit (b == a) ≡ 0 = rw away refl in
      elim (zero_or (forks b lower)) [
        | inl none_below ↦
            let f =
              locate_from s b upper (below right_side a w m lower c)
                (zoom_in right_side a w m lower c upper st) (omega arith) in
            record {
              place = f.place;
              packed = f.packed;
              area = f.area;
              lower = f.lower;
              upper = f.upper;
              stands = f.stands;
              whole = f.whole;
              near = omega (arith, f.near);
            }
        | inr some_below ↦
            let f =
              locate_from s b lower (below left_side a w m upper c)
                (zoom_in left_side a w m upper c lower st) some_below in
            record {
              place = f.place;
              packed = f.packed;
              area = f.area;
              lower = f.lower;
              upper = f.upper;
              stands = f.stands;
              whole = f.whole;
              near = omega (arith, f.near);
            }
      ]
]

pub forks-plug : (b : ℕ) (c : Place) (t : Shape) → forks b t ≤ forks b (plug c t)
forks-plug b top t = omega arith
forks-plug b (below side a w m other above) t =
    omega
      (arith, forks-plug b above (fork_on side a w m t other), forks-fork_on side b a w m t other)

pub height-size : (c : Place) (t : Shape) → height c + size t ≤ size (plug c t)
unfolding height
height-size top t = omega arith
height-size (below side a w m other above) t =
    omega (arith, height-size above (fork_on side a w m t other), size-fork_on side a w m t other)

-- The update of the empty areas from a branch of the tree.
pub update_from :
    (rounds b : ℕ) (s : VmaTree) (tree : Shape)
    → Stands s top tree
    → 1 ≤ forks b tree
    → size tree < rounds
    → (t : VmaTree) × (tree' : Shape) × (update_max_empty_area_data rounds (some b) s
        ≡ some (tt, t))
      × Stands t top tree'
      × Same tree tree'
      × (top_color tree' ≡ top_color tree)
      × (Balanced tree → Balanced tree')
unfolding height black_height
update_from rounds b s tree st h r =
    let f = locate_from s b tree top st h in
    let n = max (area_of (f.lower)) (area_of (f.upper)) in
    let (t, run, st') =
      update_lem rounds (f.place) b (f.packed) (f.area) (f.lower) (f.upper) s
        (omega (arith, f.near)) (f.stands) in
    (
      t,
      remeasured (f.place) (fork b (f.packed) n (f.lower) (f.upper)),
      run,
      st',
      rw (f.whole) at (
          remeasured-Same (f.place) (fork b (f.packed) (f.area) (f.lower) (f.upper)) _ (
            Same-fork_on left_side b (f.packed) (f.packed) (f.area) n refl (Same-refl (f.lower))
              (Same-refl (f.upper)))),
      rw (f.whole) at (
          remeasured-top_color (f.place) b (f.packed) (f.area) n (f.lower) (f.upper) (f.lower)
            (f.upper)),
      λ bal.
          let bal' : Balanced (plug (f.place) (fork b (f.packed) (f.area) (f.lower) (f.upper))) =
            rw (f.whole) bal in
          remeasured-Balanced (f.place) _ (
            replaced-Balanced (f.place) (fork b (f.packed) (f.area) (f.lower) (f.upper)) _
              ((plug-Balanced (f.place) _ bal').0) refl (λ e. e) bal'),
    )

pub size-plug_same :
    (c : Place) (t t' : Shape) → size t ≡ size t' → size (plug c t) ≡ size (plug c t')
size-plug_same top t t' e = e
size-plug_same (below side a w m other above) t t' e =
    size-plug_same above (fork_on side a w m t other) (fork_on side a w m t' other)
      (omega (arith, e, size-fork_on side a w m t other, size-fork_on side a w m t' other))
