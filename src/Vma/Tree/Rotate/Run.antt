-- ===== src/Vma/Tree/Rotate/Run.antt =====
-- The steps of a rotation of `VMATree` on a tree that the memory holds.
use x.Base.{ℕ, ◌≡◌, ◌≢◌, sym, ap, ◌∙◌, some, arith}
use x.Vma.Node.{Side, branch, empty_area}
use x.Vma.Tree.{VmaTree, node_at, set_parent, replace_child, recalculate_max_empty_area_size}
use x.Vma.Tree.Link.{rotate}
use x.Vma.Tree.Shape.{
  Shape, fork_on, Place, address_of, above_of, occurs_at, HoldsAt, branch_on, Stands,
  address_of-fork_on, parent-branch_on, area-branch_on,
}
use x.Vma.Tree.Heap.{
  put, put_same, put_other, root-put, empty_area-with_parent, Writes, put-Writes, with_parent,
  set_parent-Writes, HoldsAt-same, occurs-address_of, differs, counts_itself, area_of,
  empty_area-Holds,
}
use x.Vma.Tree.Relink.{Relinks, replace_child-Relinks}
use x.Vma.Tree.Rotate.Steps.{rotate-steps, recalculate-on, max_on}
use x.Vma.Tree.Rotate.Chain.{
  apart, outer, inner, n_not_r, b_not_n, b_not_r, a_not_b, d_not_b, c_not_b, chain-Stands,
}

module _ (s : VmaTree) (c : Place) (side : Side) (n w m r w' m' : ℕ) (a b d : Shape) where
  abbrev area_n : ℕ
  area_n = max_on side (area_of a) (area_of b)

  abbrev area_r : ℕ
  area_r = max_on side area_n (area_of d)

  module _ (st : Stands s c (fork_on side n w m a (fork_on side r w' m' b d))) where
    -- The first three writes, which part `r` from its near child.
    detach :
        (s2 : VmaTree) × (set_parent
            (address_of b)
            (some n)
            (put s n (branch (branch_on side w m (above_of c) (address_of a) (address_of b))))
          ≡ some (tt, s2))
        × Writes
            (put s n (branch (branch_on side w m (above_of c) (address_of a) (address_of b))))
            (address_of b)
            (with_parent (some n) (node_at s (address_of b)))
            s2
    detach =
        let x1 = branch (branch_on side w m (above_of c) (address_of a) (address_of b)) in
        let bn = b_not_n s c side n w m r w' m' a b d st in
        set_parent-Writes (put s n x1) (address_of b) (some n) (node_at s (address_of b))
          ((put-Writes s n x1).others _ bn)

    abbrev s1 : VmaTree
    s1 = put s n (branch (branch_on side w m (above_of c) (address_of a) (address_of b)))

    abbrev s3 : VmaTree → VmaTree
    s3 s2 = put s2 r (branch (branch_on side w' m' (above_of c) (address_of b) (address_of d)))

    module _ (s2 : VmaTree)
        (w2 : Writes s1 (address_of b) (with_parent (some n) (node_at s (address_of b))) s2) where
      n_at_s2 :
          node_at s2 n ≡ branch (branch_on side w m (above_of c) (address_of a) (address_of b))
      n_at_s2 =
          w2.others n (λ i. b_not_n s c side n w m r w' m' a b d st (sym i))
          ∙ put_same s n (branch (branch_on side w m (above_of c) (address_of a) (address_of b)))

      r_at_s2 : node_at s2 r ≡ branch (branch_on side w' m' (some n) (address_of b) (address_of d))
      r_at_s2 =
          w2.others r (λ i. b_not_r s c side n w m r w' m' a b d st (sym i))
          ∙ put_other s n _ r (λ i. n_not_r s c side n w m r w' m' a b d st (sym i))
          ∙ (inner s c side n w m r w' m' a b d st).0

      kept_s3 : (x : ℕ) → x ≢ n → x ≢ r → x ≢ address_of b → node_at (s3 s2) x ≡ node_at s x
      kept_s3 x xn xr xb = put_other s2 r _ x xr ∙ w2.others x xb ∙ put_other s n _ x xn

      around_s3 : HoldsAt (s3 s2).storage.nodes n c
      around_s3 =
          HoldsAt-same _ _ n c
            (λ x e.
              let once = apart s c side n w m r w' m' a b d st x in
              kept_s3 x (differs x n (omega arith)) (differs x r (omega arith))
                (c_not_b s c side n w m r w' m' a b d st x e))
            (rw (address_of-fork_on side n w m a (fork_on side r w' m' b d)) at (st.around))

      relink : (s4 : VmaTree) × (replace_child n r (s3 s2) ≡ some (tt, s4)) × Relinks (s3 s2) c r s4
      relink =
          replace_child-Relinks (s3 s2) c n r
            (branch_on side w m (above_of c) (address_of a) (address_of b))
            (put_other s2 r _ n (n_not_r s c side n w m r w' m' a b d st) ∙ n_at_s2)
            (parent-branch_on side w m (above_of c) (address_of a) (address_of b))
            (root-put s2 r _
              ∙ w2.root
              ∙ root-put s n _
              ∙ (rw (address_of-fork_on side n w m a (fork_on side r w' m' b d)) at (st.root)))
            around_s3 (λ x. omega (arith, apart s c side n w m r w' m' a b d st x))
            (omega (arith, apart s c side n w m r w' m' a b d st n, counts_itself n))

      module _ (s4 : VmaTree) (w4 : Relinks (s3 s2) c r s4) where
        abbrev s5 : VmaTree
        s5 = put s4 r (branch (branch_on side w' m' (above_of c) n (address_of d)))

        abbrev s6 : VmaTree
        s6 = put s5 n (branch (branch_on side w m (some r) (address_of a) (address_of b)))

        r_at_s4 :
            node_at s4 r ≡ branch (branch_on side w' m' (above_of c) (address_of b) (address_of d))
        r_at_s4 =
            w4.others r (omega (arith, apart s c side n w m r w' m' a b d st r, counts_itself r))
            ∙ put_same s2 r _

        n_at_s5 :
            node_at s5 n ≡ branch (branch_on side w m (above_of c) (address_of a) (address_of b))
        n_at_s5 =
            let ne = n_not_r s c side n w m r w' m' a b d st in
            put_other s4 r _ n ne
            ∙ w4.others n (omega (arith, apart s c side n w m r w' m' a b d st n, counts_itself n))
            ∙ put_other s2 r _ n ne
            ∙ n_at_s2

        kept_s6 :
            (x : ℕ)
            → occurs_at x c ≡ 0
            → x ≢ n
            → x ≢ r
            → x ≢ address_of b
            → node_at s6 x ≡ node_at s x
        kept_s6 x o xn xr xb =
            put_other s5 n _ x xn ∙ put_other s4 r _ x xr ∙ w4.others x o ∙ kept_s3 x xn xr xb

        -- What is read of the trees `a`, `b` and `d`.
        area_a : empty_area (node_at s6 (address_of a)) ≡ area_of a
        area_a =
            let once = apart s c side n w m r w' m' a b d st (address_of a) in
            let root = occurs-address_of a in
            ap empty_area (
              kept_s6 (address_of a) (omega arith) (differs _ n (omega arith))
                (differs _ r (omega arith))
                (a_not_b s c side n w m r w' m' a b d st (address_of a) root))
            ∙ empty_area-Holds s.storage.nodes (some n) a
                ((outer s c side n w m r w' m' a b d st).1)

        area_d : empty_area (node_at s6 (address_of d)) ≡ area_of d
        area_d =
            let once = apart s c side n w m r w' m' a b d st (address_of d) in
            let root = occurs-address_of d in
            ap empty_area (
              kept_s6 (address_of d) (omega arith) (differs _ n (omega arith))
                (differs _ r (omega arith))
                (d_not_b s c side n w m r w' m' a b d st (address_of d) root))
            ∙ empty_area-Holds s.storage.nodes (some r) d
                ((inner s c side n w m r w' m' a b d st).2)

        area_b : empty_area (node_at s6 (address_of b)) ≡ area_of b
        area_b =
            let once = apart s c side n w m r w' m' a b d st (address_of b) in
            let root = occurs-address_of b in
            let bn = b_not_n s c side n w m r w' m' a b d st in
            let br = b_not_r s c side n w m r w' m' a b d st in
            ap empty_area (
              put_other s5 n _ (address_of b) bn
              ∙ put_other s4 r _ (address_of b) br
              ∙ w4.others (address_of b) (omega arith)
              ∙ put_other s2 r _ (address_of b) br
              ∙ w2.at)
            ∙ empty_area-with_parent (some n) (node_at s (address_of b))
            ∙ empty_area-Holds s.storage.nodes (some r) b
                ((inner s c side n w m r w' m' a b d st).1)

        recalculate_n :
            (s7 : VmaTree) × (recalculate_max_empty_area_size n s6 ≡ some (tt, s7))
            × Writes s6 n
                (branch (branch_on side w area_n (some r) (address_of a) (address_of b)))
                s7
        recalculate_n =
            recalculate-on side s6 n w m (some r) (address_of a) (address_of b) (area_of a)
              (area_of b) (put_same s5 n _) area_a area_b

        module _ (s7 : VmaTree)
            (w7 : Writes s6 n
              (branch (branch_on side w area_n (some r) (address_of a) (address_of b)))
              s7) where
          recalculate_r :
              (s8 : VmaTree) × (recalculate_max_empty_area_size r s7 ≡ some (tt, s8))
              × Writes s7 r (branch (branch_on side w' area_r (above_of c) n (address_of d))) s8
          recalculate_r =
              let rn : r ≢ n = λ i. n_not_r s c side n w m r w' m' a b d st (sym i) in
              let dn : address_of d ≢ n = differs _ n (
                omega (
                  arith,
                  apart s c side n w m r w' m' a b d st (address_of d),
                  occurs-address_of d,
                )) in
              recalculate-on side s7 r w' m' (above_of c) n (address_of d) area_n (area_of d)
                (w7.others r rn ∙ put_other s5 n _ r rn ∙ put_same s4 r _)
                (ap empty_area (w7.at)
                  ∙ area-branch_on side w area_n (some r) (address_of a) (address_of b))
                (ap empty_area (w7.others _ dn) ∙ area_d)

    -- A rotation makes the child on its far side the parent of the node, and takes over that child's
    -- near tree; the empty areas of both are those of their children then.
    pub rotate_lem :
        (t : VmaTree) × (rotate side n s ≡ some (tt, t))
        × Stands t c (fork_on side r w' area_r (fork_on side n w area_n a b) d)
    rotate_lem =
        let (s2, run2, w2) = detach in
        let (s4, run4, w4) = relink s2 w2 in
        let (s7, run7, w7) = recalculate_n s2 w2 s4 w4 in
        let (s8, run8, w8) = recalculate_r s2 w2 s4 w4 s7 w7 in
        (
          s8,
          rotate-steps n w m r w' m' (above_of c) (some n) (address_of a) (address_of b)
              (address_of d) side s s2 s4 s7 s8 ((outer s c side n w m r w' m' a b d st).0)
              ((inner s c side n w m r w' m' a b d st).0) run2 (n_at_s2 s2 w2) (r_at_s2 s2 w2) run4
              (r_at_s4 s2 w2 s4 w4) (n_at_s5 s2 w2 s4 w4) run7 run8,
          chain-Stands s c side n w m r w' m' a b d st (record {
            w1 = put-Writes s n _;
            w2 = w2;
            w3 = put-Writes s2 r _;
            w4 = w4;
            w5 = put-Writes s4 r _;
            w6 = put-Writes (s5 s2 w2 s4 w4) n _;
            w7 = w7;
            w8 = w8;
          }),
        )
