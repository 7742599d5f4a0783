-- ===== src/Vma/Tree/Zoom.antt =====
-- Steps from a place of a `VMATree` to the place above it and back, and a write of the fields of the
-- branch at a place.
use x.Base.{
  ℕ, ◌+◌, ◌*◌, ◌/◌, ◌%◌, ◌^◌, ◌≤◌, ◌≡◌, refl, ◌∙◌, bit_and, bit_or, ◌==◌, if◌then◌else◌, to_bit,
  Option, some, arith,
}
use x.Base.Bits.{bit_and_field, bit_and_mask, bit_or_high_low}
use x.Paging.{not_u64}
use x.Vma.Node.{NodeColor, red, black, Side, left_side, right_side, branch, color_bit, with_color}
use x.Vma.Tree.{VmaTree, node_at, set_color}
use x.Vma.Tree.Shape.{
  Shape, fork_on, Place, below, address_of, above_of, key, occurs, occurs_at, Stands, branch_on,
  Holds-fork_on, occurs-fork_on, address_of-fork_on,
}
use x.Vma.Tree.Heap.{Writes, put-Writes, put, modify-put, differs, Holds-same, HoldsAt-same}

module _ {s : VmaTree} (side : Side) (a w m : ℕ) (other : Shape) (above : Place) (t : Shape) where
  pub zoom_out :
      Stands s (below side a w m other above) t → Stands s above (fork_on side a w m t other)
  zoom_out st = record {
    root = rw (address_of-fork_on side a w m t other) (st.root);
    here = (Holds-fork_on side _ _ a w m t other).1 (st.around.0, st.here, st.around.1);
    around = rw (address_of-fork_on side a w m t other) (st.around.2);
    once = λ b.
        rw (occurs-fork_on side b a w m t other) (unfold occurs_at in omega (arith, st.once b));
  }

  pub zoom_in :
      Stands s above (fork_on side a w m t other) → Stands s (below side a w m other above) t
  zoom_in st =
      let held = (Holds-fork_on side _ _ a w m t other).0 st.here in
      record {
        root = rw (address_of-fork_on side a w m t other) at (st.root);
        here = held.1;
        around = (held.0, held.2, rw (address_of-fork_on side a w m t other) at (st.around));
        once = λ b.
            let e = st.once b in
            let e' = rw (occurs-fork_on side b a w m t other) at e in
            unfold occurs_at in omega arith;
      }

-- The fields of the branch at a place are written.
pub Writes-Stands :
    (s t : VmaTree) (c : Place) (side : Side) (a w m w' m' : ℕ) (near far : Shape)
    → Stands s c (fork_on side a w m near far)
    → Writes s a (branch (branch_on side w' m' (above_of c) (address_of near) (address_of far))) t
    → Stands t c (fork_on side a w' m' near far)
Writes-Stands s t c side a w m w' m' near far st wr =
    let held = (Holds-fork_on side _ _ a w m near far).0 st.here in
    let apart : (b : ℕ) → occurs_at b c + (to_bit (b == a) + occurs b near + occurs b far) ≤ 1 =
      λ b. rw (← occurs-fork_on side b a w m near far) (st.once b) in
    let same : (b : ℕ) → to_bit (b == a) ≡ 0 → node_at t b ≡ node_at s b =
      λ b e. wr.others b (differs b a e) in
    record {
      root =
          rw (address_of-fork_on side a w' m' near far)
            (wr.root ∙ (rw (address_of-fork_on side a w m near far) at (st.root)));
      here = (Holds-fork_on side _ _ a w' m' near far).1 (
        wr.at,
        Holds-same _ _ (some a) near (λ b e. same b (omega (arith, apart b))) (held.1),
        Holds-same _ _ (some a) far (λ b e. same b (omega (arith, apart b))) (held.2),
      );
      around = rw (address_of-fork_on side a w' m' near far) (
          HoldsAt-same _ _ a c (λ b e. same b (omega (arith, apart b)))
            (rw (address_of-fork_on side a w m near far) at (st.around)));
      once = λ b. rw (occurs-fork_on side b a w' m' near far) (apart b);
    }

-- `with_color` on the packed fields.
unfoldable pub recolor : NodeColor → ℕ → ℕ
recolor c w = bit_or (bit_and w (not_u64 1)) (color_bit c)

unfoldable pub color_of : ℕ → NodeColor
color_of w = if bit_and w 1 == 0 then red else black

recolor_lem : (c : NodeColor) (w : ℕ) → recolor c w ≡ w / 2 % 2 ^ 63 * 2 + color_bit c
unfolding recolor
recolor_lem c w =
    let rest : bit_and w (not_u64 1) ≡ w / 2 % 2 ^ 63 * 2 ^ 1 =
      omega (arith, bit_and_field 1 63 w) in
    rw rest (omega (arith, bit_or_high_low 1 (w / 2 % 2 ^ 63) (color_bit c) (ground arith)))

pub key-recolor : (c : NodeColor) (w : ℕ) → key (recolor c w) ≡ key w
unfolding key
key-recolor red w =
    rw (recolor_lem red w)
      (omega (arith, bit_and_field 2 62 w, bit_and_field 2 62 (w / 2 % 2 ^ 63 * 2 + 0)))
key-recolor black w =
    rw (recolor_lem black w)
      (omega (arith, bit_and_field 2 62 w, bit_and_field 2 62 (w / 2 % 2 ^ 63 * 2 + 1)))

pub color_of-recolor : (c : NodeColor) (w : ℕ) → color_of (recolor c w) ≡ c
unfolding color_of
color_of-recolor red w =
    rw (recolor_lem red w) (ground (arith, bit_and_mask 1 (w / 2 % 2 ^ 63 * 2 + 0)))
color_of-recolor black w =
    rw (recolor_lem black w) (ground (arith, bit_and_mask 1 (w / 2 % 2 ^ 63 * 2 + 1)))

with_color-branch_on :
    (side : Side) (c : NodeColor) (w m : ℕ) (p : Option ℕ) (near far : ℕ)
    → with_color c (branch_on side w m p near far) ≡ branch_on side (recolor c w) m p near far
unfolding with_color recolor
with_color-branch_on left_side c w m p near far = refl
with_color-branch_on right_side c w m p near far = refl

-- `set_color` at the branch of a place.
pub set_color-Stands :
    (s : VmaTree) (c : Place) (side : Side) (a w m : ℕ) (near far : Shape) (k : NodeColor)
    → Stands s c (fork_on side a w m near far)
    → (t : VmaTree) × (set_color k a s ≡ some (tt, t))
      × Stands t c (fork_on side a (recolor k w) m near far)
unfolding set_color
set_color-Stands s c side a w m near far k st =
    let held = (Holds-fork_on side _ _ a w m near far).0 st.here in
    let new = branch_on side w m (above_of c) (address_of near) (address_of far) in
    let new' = branch_on side (recolor k w) m (above_of c) (address_of near) (address_of far) in
    (
      put s a (branch new'),
      rw (with_color-branch_on side k w m (above_of c) (address_of near) (address_of far)) at
          (modify-put s a (with_color k) new (held.0)),
      Writes-Stands s _ c side a w m (recolor k w) m near far st (put-Writes s a (branch new')),
    )
