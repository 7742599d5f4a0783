-- ===== src/Vma/Tree/Link/Loop.antt =====
-- The loop of `fix_insert`, on a tree that the memory holds.
use x.Base.{sym, ℕ, zero, suc, ==_refl, ◌≤◌, ◌≡◌, refl, ap, ◌∙◌, some, arith, inl, inr}
use x.Vma.Node.{red, black, Side, left_side, right_side, color}
use x.Vma.Tree.{VmaTree, node_at}
use x.Vma.Tree.Shape.{
  height, Shape, tip, fork, fork_on, Place, top, below, plug, address_of, Stands,
  address_of-fork_on,
}
use x.Vma.Tree.Same.{Same-refl, Same-plug}
use x.Vma.Tree.Zoom.{color_of, recolor}
use x.Vma.Tree.Link.Reads.{get_parent_lem, not_root, color_parent, color-top_color}
use x.Vma.Tree.Link.Uncle.{parent_k}
use x.Vma.Tree.Link.{fix_insert_loop}
use x.Vma.Tree.Link.Round.{outer-Settled, inner-Settled}
use x.Vma.Tree.Link.Red.{red_uncle, red_uncle-Same, round_by_color}
use x.Vma.Tree.Balance.{NodeColor-cases, Grown, Grown-plug}
use x.Vma.Tree.Link.Colors.{Grown-red_uncle}
use x.Vma.Tree.Link.Fixed.{Fixed, Fixed-top, Fixed-on, Fixed-Same}
use x.Vma.Tree.Link.Rounds.{loop_ends, loop_goes_on, loop_at_root, Settled-loop}

-- The root above a place is black; a place at the top has none.
abbrev pub RootBlack : Place → Type 0
RootBlack top = Unit {0}
RootBlack (below side a w m other top) = color_of w ≡ black
RootBlack (below side a w m other (below side' a' w' m' other' above)) =
    RootBlack (below side' a' w' m' other' above)

-- What the loop does with so many rounds, from a branch `k` that is not the root.
abbrev pub LoopRuns : ℕ → Type 0
LoopRuns rounds =
    (c : Place) (k wk mk : ℕ) (kl ku : Shape) (s : VmaTree)
    → 1 ≤ height c
    → height c ≤ rounds
    → RootBlack c
    → Stands s c (fork k wk mk kl ku)
    → (t : VmaTree) × (fix_insert_loop rounds k s ≡ some (tt, t))
      × Fixed (Grown c (fork k wk mk kl ku)) (plug c (fork k wk mk kl ku)) t

-- The same for a branch on a side.
runs_on :
    (rounds : ℕ)
    → LoopRuns rounds
    → (c : Place) (side : Side) (a w m : ℕ) (near far : Shape) (s : VmaTree) → 1 ≤ height c
    → height c ≤ rounds
    → RootBlack c
    → Stands s c (fork_on side a w m near far)
    → (t : VmaTree) × (fix_insert_loop rounds a s ≡ some (tt, t))
      × Fixed (Grown c (fork_on side a w m near far)) (plug c (fork_on side a w m near far)) t
runs_on rounds ih c left_side a w m near far s h1 h2 rb st = ih c a w m near far s h1 h2 rb st
runs_on rounds ih c right_side a w m near far s h1 h2 rb st = ih c a w m far near s h1 h2 rb st

module _ (n k wk mk : ℕ) (kl ku : Shape) (p mp : ℕ) (o : Shape) (g mg : ℕ) (wp wg : ℕ)
    (s : VmaTree) where
  -- Below a black uncle.
  black_case :
      (ps gs : Side) (u : Shape) (above : Place)
      → 1 ≤ n
      → Stands s (below ps p wp mp o (below gs g wg mg u above)) (fork k wk mk kl ku)
      → color (node_at s p) ≡ red
      → color (node_at s (address_of u)) ≡ black
      → (t : VmaTree) × (fix_insert_loop (suc n) k s ≡ some (tt, t))
        × Fixed
            (Grown (below ps p wp mp o (below gs g wg mg u above)) (fork k wk mk kl ku))
            (plug (below ps p wp mp o (below gs g wg mg u above)) (fork k wk mk kl ku))
            t
  black_case left_side left_side u above h st f b =
      let (k', t, run, d) = outer-Settled k wk mk kl ku p mp o left_side g mg u above wp wg s st in
      let e = parent_k k wk mk kl ku left_side p mp o left_side g mg u above st in
      let r =
        round_by_color k wk mk kl ku left_side p mp o left_side g mg u above wp wg s black st b in
      let rc =
        sym (color_parent s left_side p wp mp o (below left_side g wg mg u above) _ st) ∙ f in
      let cu = sym (color-top_color _ (some g) u (st.around.2.1)) ∙ b in
      Settled-loop (λ gr. (gr, rc, cu)) (suc n) k p s left_side above _ e f (omega arith)
        (k', t, r ∙ run, d)
  black_case left_side right_side u above h st f b =
      let (k', t, run, d) = inner-Settled k wk mk kl ku p mp o right_side g mg u above wp wg s st in
      let e = parent_k k wk mk kl ku left_side p mp o right_side g mg u above st in
      let r =
        round_by_color k wk mk kl ku left_side p mp o right_side g mg u above wp wg s black st b in
      let rc =
        sym (color_parent s left_side p wp mp o (below right_side g wg mg u above) _ st) ∙ f in
      let cu = sym (color-top_color _ (some g) u (st.around.2.1)) ∙ b in
      Settled-loop (λ gr. (gr, rc, cu)) (suc n) k p s right_side above _ e f (omega arith)
        (k', t, r ∙ run, d)
  black_case right_side left_side u above h st f b =
      let (k', t, run, d) = inner-Settled k wk mk kl ku p mp o left_side g mg u above wp wg s st in
      let e = parent_k k wk mk kl ku right_side p mp o left_side g mg u above st in
      let r =
        round_by_color k wk mk kl ku right_side p mp o left_side g mg u above wp wg s black st b in
      let rc =
        sym (color_parent s right_side p wp mp o (below left_side g wg mg u above) _ st) ∙ f in
      let cu = sym (color-top_color _ (some g) u (st.around.2.1)) ∙ b in
      Settled-loop (λ gr. (gr, rc, cu)) (suc n) k p s left_side above _ e f (omega arith)
        (k', t, r ∙ run, d)
  black_case right_side right_side u above h st f b =
      let (k', t, run, d) = outer-Settled k wk mk kl ku p mp o right_side g mg u above wp wg s st in
      let e = parent_k k wk mk kl ku right_side p mp o right_side g mg u above st in
      let r =
        round_by_color k wk mk kl ku right_side p mp o right_side g mg u above wp wg s black st b in
      let rc =
        sym (color_parent s right_side p wp mp o (below right_side g wg mg u above) _ st) ∙ f in
      let cu = sym (color-top_color _ (some g) u (st.around.2.1)) ∙ b in
      Settled-loop (λ gr. (gr, rc, cu)) (suc n) k p s right_side above _ e f (omega arith)
        (k', t, r ∙ run, d)

  -- Below a red uncle.
  module _ (ih : LoopRuns n) (ps gs : Side) (ua wu mu : ℕ) (ul ur : Shape) where
    abbrev u : Shape
    u = fork ua wu mu ul ur

    rp :
        (above : Place)
        → Stands s (below ps p wp mp o (below gs g wg mg u above)) (fork k wk mk kl ku)
        → color (node_at s p) ≡ red
        → color_of wp ≡ red
    rp above st f = sym (color_parent s ps p wp mp o (below gs g wg mg u above) _ st) ∙ f

    ru :
        (above : Place)
        → Stands s (below ps p wp mp o (below gs g wg mg u above)) (fork k wk mk kl ku)
        → color (node_at s ua) ≡ red
        → color_of wu ≡ red
    ru above st b = sym (color-top_color _ (some g) u (st.around.2.1)) ∙ b

    red_case :
        (above : Place)
        → height above ≤ n
        → RootBlack (below gs g wg mg u above)
        → Stands s (below ps p wp mp o (below gs g wg mg u above)) (fork k wk mk kl ku)
        → color (node_at s p) ≡ red
        → color (node_at s ua) ≡ red
        → (t : VmaTree) × (fix_insert_loop (suc n) k s ≡ some (tt, t))
          × Fixed
              (Grown (below ps p wp mp o (below gs g wg mg u above)) (fork k wk mk kl ku))
              (plug (below ps p wp mp o (below gs g wg mg u above)) (fork k wk mk kl ku))
              t
    unfolding height
    red_case top h rb st f b =
        let (t, run, st') =
          red_uncle k wk mk kl ku ps p mp o gs g mg top wp wg s ua wu mu ul ur st in
        let e = parent_k k wk mk kl ku ps p mp o gs g mg u top st in
        let r = round_by_color k wk mk kl ku ps p mp o gs g mg u top wp wg s red st b in
        (
          t,
          loop_at_root n k p s e g t f (r ∙ run) (
              rw
                (
                  st'.root,
                  address_of-fork_on gs g (recolor red wg) mg
                      (fork_on ps p (recolor black wp) mp (fork k wk mk kl ku) o)
                      (fork ua (recolor black wu) mu ul ur),
                )
                (==_refl g)),
          Fixed-on top _ t gs g _ mg _ _ st'
              (red_uncle-Same k wk mk kl ku ps p mp o gs g mg top wp wg s ua wu mu ul ur)
              (λ gr.
                (Grown-red_uncle ps p wp mp o gs g wg mg ua wu mu ul ur top (fork k wk mk kl ku) gr
                  (rp top st f) (ru top st b)).0),
        )
    red_case (below hs a wa ma oa above) h rb st f b =
        let c = below hs a wa ma oa above in
        let (t, run, st') = red_uncle k wk mk kl ku ps p mp o gs g mg c wp wg s ua wu mu ul ur st in
        let e = parent_k k wk mk kl ku ps p mp o gs g mg u c st in
        let r = round_by_color k wk mk kl ku ps p mp o gs g mg u c wp wg s red st b in
        let (t', run', fixed) = runs_on n ih c gs g _ mg _ _ t (omega arith) h rb st' in
        let ne = not_root t hs a wa ma oa above _ st' in
        (
          t',
          loop_goes_on n k p s e g t f (r ∙ run) (
                rw
                  (address_of-fork_on gs g (recolor red wg) mg
                    (fork_on ps p (recolor black wp) mp (fork k wk mk kl ku) o)
                    (fork ua (recolor black wu) mu ul ur))
                  at ne)
              ∙ run',
          Fixed-Same
              (Same-plug c _ _
                (red_uncle-Same k wk mk kl ku ps p mp o gs g mg c wp wg s ua wu mu ul ur))
              (λ gr.
                Grown-red_uncle ps p wp mp o gs g wg mg ua wu mu ul ur c (fork k wk mk kl ku) gr
                  (rp c st f) (ru c st b))
              fixed,
        )

pub loop_lem : (rounds : ℕ) → LoopRuns rounds
unfolding height color
loop_lem zero c k wk mk kl ku s h1 h2 rb st = absurd (omega arith)
loop_lem (suc n) top k wk mk kl ku s h1 h2 rb st = absurd (omega arith)
loop_lem (suc n) (below ps p wp mp o top) k wk mk kl ku s h1 h2 rb st =
    let e = get_parent_lem s k p _ (st.here.0) refl in
    let f = color_parent s ps p wp mp o top _ st in
    (
      s,
      loop_ends n k p s e (f ∙ rb),
      Fixed-top (below ps p wp mp o top) _ s k wk mk kl ku st (Same-refl _)
          (Grown-plug (below ps p wp mp o top) (fork k wk mk kl ku) rb),
    )
loop_lem (suc n) (below ps p wp mp o (below gs g wg mg (tip ua l) above)) k wk mk kl ku s h1 h2 rb
      st =
    let e = get_parent_lem s k p _ (st.here.0) refl in
    let c = below gs g wg mg (tip ua l) above in
    elim (NodeColor-cases (color (node_at s p))) [
      | inl is_red ↦
          black_case n k wk mk kl ku p mp o g mg wp wg s ps gs (tip ua l) above (omega arith) st
            is_red (ap color (st.around.2.1))
      | inr is_black ↦ (
        s,
        loop_ends n k p s e is_black,
        Fixed-top (below ps p wp mp o c) _ s k wk mk kl ku st (Same-refl _) (
            Grown-plug (below ps p wp mp o c) (fork k wk mk kl ku)
              (sym (color_parent s ps p wp mp o c _ st) ∙ is_black)),
      )
    ]
loop_lem (suc n) (below ps p wp mp o (below gs g wg mg (fork ua wu mu ul ur) above)) k wk mk kl ku s
      h1 h2 rb st =
    let e = get_parent_lem s k p _ (st.here.0) refl in
    let u = fork ua wu mu ul ur in
    let c = below gs g wg mg u above in
    elim (NodeColor-cases (color (node_at s p))) [
      | inl is_red ↦ elim (NodeColor-cases (color (node_at s ua))) [
        | inl uncle_red ↦
            red_case n k wk mk kl ku p mp o g mg wp wg s (loop_lem n) ps gs ua wu mu ul ur above
              (omega arith) rb st is_red uncle_red
        | inr uncle_black ↦
            black_case n k wk mk kl ku p mp o g mg wp wg s ps gs u above (omega arith) st is_red
              uncle_black
      ]
      | inr is_black ↦ (
        s,
        loop_ends n k p s e is_black,
        Fixed-top (below ps p wp mp o c) _ s k wk mk kl ku st (Same-refl _) (
            Grown-plug (below ps p wp mp o c) (fork k wk mk kl ku)
              (sym (color_parent s ps p wp mp o c _ st) ∙ is_black)),
      )
    ]
