-- ===== src/Vma/Tree/Link/Rounds.antt =====
-- How one round of the loop of `fix_insert` goes on or ends it.
use x.Base.{ℕ, ◌≤◌, ◌≡◌, ◌∙◌, true, false, ◌==◌, some, arith}
use x.Vma.Node.{red, black, Side, color}
use x.Vma.Tree.{VmaTree, node_at, get_parent}
use x.Vma.Tree.Link.{fix_insert_round}
use x.Vma.Tree.Shape.{Shape, fork_on, Place, plug}
use x.Vma.Tree.Balance.{Balanced-plug, top_color-fork_on}
use x.Vma.Tree.Same.{Same-plug}
use x.Vma.Tree.Zoom.{zoom_out}
use x.Base.{zero, suc}
use x.Vma.Tree.Link.{fix_insert_loop}
use x.Vma.Tree.Link.Round.{Settled}
use x.Vma.Tree.Link.Reads.{not_root}
use x.Vma.Tree.Link.Fixed.{Fixed, Fixed-on}

module _ (rounds k p : ℕ) (s : VmaTree) (e : get_parent k s ≡ some (p, s)) where
  pub loop_ends : color (node_at s p) ≡ black → fix_insert_loop (suc rounds) k s ≡ some (tt, s)
  unfolding fix_insert_loop
  loop_ends f = ground arith

  pub loop_goes_on :
      (k' : ℕ) (t : VmaTree)
      → color (node_at s p) ≡ red
      → fix_insert_round k s ≡ some (k', t)
      → (k' == t.root) ≡ false
      → fix_insert_loop (suc rounds) k s ≡ fix_insert_loop rounds k' t
  unfolding fix_insert_loop
  loop_goes_on k' t f r ne = ground arith

  pub loop_at_root :
      (k' : ℕ) (t : VmaTree)
      → color (node_at s p) ≡ red
      → fix_insert_round k s ≡ some (k', t)
      → (k' == t.root) ≡ true
      → fix_insert_loop (suc rounds) k s ≡ some (tt, t)
  unfolding fix_insert_loop
  loop_at_root k' t f r ne = ground arith

-- How a round ends the loop, by what a black uncle leaves.
pub Settled-loop :
    {Ruled Ruled' : Type 0} (grow : Ruled → Ruled') (rounds k p : ℕ) (s : VmaTree) (gs : Side)
    (above : Place) (old : Shape)
    → get_parent k s ≡ some (p, s)
    → color (node_at s p) ≡ red
    → 2 ≤ rounds
    → (k' : ℕ) × (t : VmaTree) × (fix_insert_round k s ≡ some (k', t))
      × Settled Ruled' gs above old k' t
    → (t : VmaTree) × (fix_insert_loop rounds k s ≡ some (tt, t)) × Fixed Ruled (plug above old) t
Settled-loop grow zero k p s gs above old e f h r = absurd (omega arith)
Settled-loop grow (suc zero) k p s gs above old e f h r = absurd (omega arith)
Settled-loop grow (suc (suc n)) k p s gs above old e f h (k', t, run, d) =
    let ne = not_root t gs d.parent d.packed d.area d.other above d.focus (d.stands) in
    (
      t,
      loop_goes_on (suc n) k p s e k' t f run (rw (d.named) at ne)
          ∙ loop_ends n k' d.parent t (d.parent_is) (d.color_is),
      Fixed-on above _ t gs d.parent d.packed d.area d.focus d.other
          (zoom_out gs d.parent d.packed d.area d.other above d.focus (d.stands))
          (Same-plug above old (fork_on gs d.parent d.packed d.area d.focus d.other) (d.same))
          (λ r.
            Balanced-plug above (fork_on gs d.parent d.packed d.area d.focus d.other)
              ((d.balanced (grow r)).0) ((d.balanced (grow r)).1)
              (λ e. top_color-fork_on gs d.parent d.packed d.area d.focus d.other ∙ d.black_is)),
    )
