-- ===== src/Vma/Tree/Link/Red.antt =====
-- A round of `fix_insert` below a red uncle, and the choice between the two.
use x.Base.{ℕ, ◌≡◌, some, arith}
use x.Vma.Node.{NodeColor, red, black, Side, left_side, right_side, opposite, color}
use x.Vma.Tree.{VmaTree, node_at}
use x.Vma.Tree.Link.{fix_red_uncle, fix_black_uncle, fix_insert_round}
use x.Vma.Tree.Shape.{Shape, fork, fork_on, Place, below, address_of, Stands}
use x.Vma.Tree.Same.{Same, Same-refl, Same-fork_on}
use x.Vma.Tree.Zoom.{recolor, key-recolor, zoom_out, zoom_in, set_color-Stands}
use x.Vma.Tree.Link.Uncle.{parent_k, grandparent_k, is_on_p, out_g, recolor_parents_lem}
use x.Vma.Tree.Link.Settle.{flip, flip_back}

module _ (k wk mk : ℕ) (kl ku : Shape) (ps : Side) (p mp : ℕ) (o : Shape) (gs : Side) (g mg : ℕ)
    (above : Place) (wp wg : ℕ) (s : VmaTree) where
  abbrev nk : Shape
  nk = fork k wk mk kl ku

  -- A red uncle takes the color of the parents, and the loop goes on at the grandparent.
  pub red_uncle :
      (ua wu mu : ℕ) (ul ur : Shape)
      → Stands s (below ps p wp mp o (below gs g wg mg (fork ua wu mu ul ur) above)) nk
      → (t : VmaTree) × (fix_red_uncle k ua s ≡ some (g, t))
        × Stands t above (
            fork_on gs g
              (recolor red wg)
              mg
              (fork_on ps p (recolor black wp) mp nk o)
              (fork ua (recolor black wu) mu ul ur))
  unfolding fix_red_uncle
  red_uncle ua wu mu ul ur st =
      let u = fork ua wu mu ul ur in
      let u' = fork ua (recolor black wu) mu ul ur in
      let at_p = fork_on ps p wp mp nk o in
      let f1 = flip above gs g wg mg at_p u (out_g k wk mk kl ku ps p mp o gs g mg u above st) in
      let in1 = zoom_in (opposite gs) g wg mg at_p above u f1 in
      let (s1, run1, st1) =
        set_color-Stands s (below (opposite gs) g wg mg at_p above) left_side ua wu mu ul ur black
          in1 in
      let f2 =
        flip_back above gs g wg mg at_p u' (zoom_out (opposite gs) g wg mg at_p above u' st1) in
      let in2 =
        zoom_in ps p wp mp o (below gs g wg mg u' above) nk (zoom_in gs g wg mg u' above at_p f2) in
      let (t, run2, st2) =
        recolor_parents_lem k wk mk kl ku ps p mp o gs g mg u' above wp wg s1 in2 in
      let run3 = grandparent_k k wk mk kl ku ps p mp o gs g mg u' above st2 in
      (t, ground arith, out_g k wk mk kl ku ps p mp o gs g mg u' above st2)

  pub red_uncle-Same :
      (ua wu mu : ℕ) (ul ur : Shape)
      → Same (fork_on gs g wg mg (fork_on ps p wp mp nk o) (fork ua wu mu ul ur)) (
          fork_on gs g
            (recolor red wg)
            mg
            (fork_on ps p (recolor black wp) mp nk o)
            (fork ua (recolor black wu) mu ul ur))
  red_uncle-Same ua wu mu ul ur =
      Same-fork_on gs g wg (recolor red wg) mg mg (key-recolor red wg)
        (Same-fork_on ps p wp (recolor black wp) mp mp (key-recolor black wp) (Same-refl nk)
          (Same-refl o))
        (Same-fork_on left_side ua wu (recolor black wu) mu mu (key-recolor black wu) (Same-refl ul)
          (Same-refl ur))

-- A round, by the color of the uncle.
pub round_by_color :
    (k wk mk : ℕ) (kl ku : Shape) (ps : Side) (p mp : ℕ) (o : Shape) (gs : Side) (g mg : ℕ)
    (u : Shape) (above : Place) (wp wg : ℕ) (s : VmaTree) (c : NodeColor)
    → Stands s (below ps p wp mp o (below gs g wg mg u above)) (fork k wk mk kl ku)
    → color (node_at s (address_of u)) ≡ c
    → fix_insert_round k s
      ≡ elim c [ red ↦ fix_red_uncle k (address_of u) s | black ↦ fix_black_uncle gs k s ]
unfolding fix_insert_round
round_by_color k wk mk kl ku ps p mp o left_side g mg u above wp wg s c st e =
    let e1 = parent_k k wk mk kl ku ps p mp o left_side g mg u above st in
    let e2 = is_on_p k wk mk kl ku ps p mp o left_side g mg u above st right_side in
    let e3 = grandparent_k k wk mk kl ku ps p mp o left_side g mg u above st in
    let e4 = st.around.2.0 in ground arith
round_by_color k wk mk kl ku ps p mp o right_side g mg u above wp wg s c st e =
    let e1 = parent_k k wk mk kl ku ps p mp o right_side g mg u above st in
    let e2 = is_on_p k wk mk kl ku ps p mp o right_side g mg u above st right_side in
    let e3 = grandparent_k k wk mk kl ku ps p mp o right_side g mg u above st in
    let e4 = st.around.2.0 in ground arith
