-- ===== src/Vma/Tree/Rotate/Chain.antt =====
-- The states between the writes of a rotation of `VMATree`, and what the memory holds at the end.
use x.Base.{ℕ, ◌+◌, ◌≤◌, ◌≡◌, ◌≢◌, ◌∙◌, ◌==◌, to_bit, some, arith}
use x.Vma.Node.{Side, branch}
use x.Vma.Tree.{VmaTree, node_at}
use x.Vma.Tree.Shape.{
  Shape, fork_on, Place, address_of, above_of, occurs, occurs_at, Holds, HoldsAt, branch_on, Stands,
  Holds-fork_on, occurs-fork_on, address_of-fork_on,
}
use x.Vma.Tree.Heap.{
  Writes, with_parent, Holds-same, HoldsAt-same, Holds-with_parent, occurs-address_of, differs,
  counts_itself,
}
use x.Vma.Tree.Relink.{Relinks}

module _ (s : VmaTree) (c : Place) (side : Side) (n w m r w' m' : ℕ) (a b d : Shape) where
  -- The tree before: `r` is the child of `n` on the far side.
  abbrev pub Before : Type 0
  Before = Stands s c (fork_on side n w m a (fork_on side r w' m' b d))

  module _ (st : Before) where
    pub apart :
        (x : ℕ)
        → occurs_at x c
            + (to_bit (x == n) + occurs x a + (to_bit (x == r) + occurs x b + occurs x d))
          ≤ 1
    apart x =
        rw
          (
            ← occurs-fork_on side x r w' m' b d,
            ← occurs-fork_on side x n w m a (fork_on side r w' m' b d),
          )
          (st.once x)

    pub outer :
        (node_at s n ≡ branch (branch_on side w m (above_of c) (address_of a) r))
        × Holds s.storage.nodes (some n) a
        × Holds s.storage.nodes (some n) (fork_on side r w' m' b d)
    outer =
        rw (address_of-fork_on side r w' m' b d) at
          ((Holds-fork_on side _ _ n w m a (fork_on side r w' m' b d)).0 st.here)

    pub inner :
        (node_at s r ≡ branch (branch_on side w' m' (some n) (address_of b) (address_of d)))
        × Holds s.storage.nodes (some r) b
        × Holds s.storage.nodes (some r) d
    inner = (Holds-fork_on side _ _ r w' m' b d).0 (outer.2)

    pub n_not_r : n ≢ r
    n_not_r = differs n r (omega (arith, apart n, counts_itself n))

    pub b_not_n : address_of b ≢ n
    b_not_n = differs (address_of b) n (omega (arith, apart (address_of b), occurs-address_of b))

    pub b_not_r : address_of b ≢ r
    b_not_r = differs (address_of b) r (omega (arith, apart (address_of b), occurs-address_of b))

    pub a_not_b : (x : ℕ) → 1 ≤ occurs x a → x ≢ address_of b
    a_not_b x e i =
        let e' = rw i at e in omega (arith, apart (address_of b), occurs-address_of b, e')

    pub d_not_b : (x : ℕ) → 1 ≤ occurs x d → x ≢ address_of b
    d_not_b x e i =
        let e' = rw i at e in omega (arith, apart (address_of b), occurs-address_of b, e')

    pub c_not_b : (x : ℕ) → 1 ≤ occurs_at x c → x ≢ address_of b
    c_not_b x e i =
        let e' = rw i at e in omega (arith, apart (address_of b), occurs-address_of b, e')

    -- The states of a rotation, one for each write.
    pub record RotationStates (s1 s2 s3 s4 s5 s6 s7 s8 : VmaTree) (m1 m2 : ℕ) : Type 0 where
      pub w1 :
          Writes s n (branch (branch_on side w m (above_of c) (address_of a) (address_of b))) s1
      pub w2 : Writes s1 (address_of b) (with_parent (some n) (node_at s (address_of b))) s2
      pub w3 :
          Writes s2 r (branch (branch_on side w' m' (above_of c) (address_of b) (address_of d))) s3
      pub w4 : Relinks s3 c r s4
      pub w5 : Writes s4 r (branch (branch_on side w' m' (above_of c) n (address_of d))) s5
      pub w6 : Writes s5 n (branch (branch_on side w m (some r) (address_of a) (address_of b))) s6
      pub w7 : Writes s6 n (branch (branch_on side w m1 (some r) (address_of a) (address_of b))) s7
      pub w8 : Writes s7 r (branch (branch_on side w' m2 (above_of c) n (address_of d))) s8

    module _ {s1 s2 s3 s4 s5 s6 s7 s8 : VmaTree} {m1 m2 : ℕ}
        (ch : RotationStates s1 s2 s3 s4 s5 s6 s7 s8 m1 m2) where
      chain_kept :
          (x : ℕ)
          → occurs_at x c ≡ 0
          → x ≢ n
          → x ≢ r
          → x ≢ address_of b
          → node_at s8 x ≡ node_at s x
      chain_kept x o xn xr xb =
          ch.w8.others x xr
          ∙ ch.w7.others x xn
          ∙ ch.w6.others x xn
          ∙ ch.w5.others x xr
          ∙ ch.w4.others x o
          ∙ ch.w3.others x xr
          ∙ ch.w2.others x xb
          ∙ ch.w1.others x xn

      chain_in :
          (x : ℕ)
          → x ≢ address_of b
          → 1 ≤ occurs x a + occurs x b + occurs x d
          → node_at s8 x ≡ node_at s x
      chain_in x xb e =
          let once = apart x in
          chain_kept x (omega arith) (differs x n (omega arith)) (differs x r (omega arith)) xb

      chain_b : node_at s8 (address_of b) ≡ with_parent (some n) (node_at s (address_of b))
      chain_b =
          let once = apart (address_of b) in
          let root_b = occurs-address_of b in
          let bn = b_not_n in
          let br = b_not_r in
          ch.w8.others _ br
          ∙ ch.w7.others _ bn
          ∙ ch.w6.others _ bn
          ∙ ch.w5.others _ br
          ∙ ch.w4.others _ (omega arith)
          ∙ ch.w3.others _ br
          ∙ ch.w2.at

      chain_around : HoldsAt s8.storage.nodes r c
      chain_around =
          HoldsAt-same _ _ r c
            (λ x e.
              let once = apart x in
              let xn = differs x n (omega arith) in
              let xr = differs x r (omega arith) in
              ch.w8.others x xr ∙ ch.w7.others x xn ∙ ch.w6.others x xn ∙ ch.w5.others x xr)
            (ch.w4.around)

      chain_once :
          (x : ℕ) → occurs_at x c + occurs x (fork_on side r w' m2 (fork_on side n w m1 a b) d) ≤ 1
      chain_once x =
          let once = apart x in
          rw
            (
              occurs-fork_on side x r w' m2 (fork_on side n w m1 a b) d,
              occurs-fork_on side x n w m1 a b,
            )
            (omega arith)

      pub chain-Stands : Stands s8 c (fork_on side r w' m2 (fork_on side n w m1 a b) d)
      chain-Stands = record {
        root =
            rw (address_of-fork_on side r w' m2 (fork_on side n w m1 a b) d)
              (ch.w8.root ∙ ch.w7.root ∙ ch.w6.root ∙ ch.w5.root ∙ ch.w4.root);
        here = (Holds-fork_on side _ _ r w' m2 (fork_on side n w m1 a b) d).1 (
          rw (address_of-fork_on side n w m1 a b) (ch.w8.at),
          (Holds-fork_on side _ _ n w m1 a b).1 (
            ch.w8.others n n_not_r ∙ ch.w7.at,
            Holds-same _ _ (some n) a (λ x e. chain_in x (a_not_b x e) (omega arith)) (outer.1),
            Holds-with_parent _ _ (some r) (some n) b (λ x. omega (arith, apart x)) chain_b
                (λ x e f. chain_in x f (omega arith)) (inner.1),
          ),
          Holds-same _ _ (some r) d (λ x e. chain_in x (d_not_b x e) (omega arith)) (inner.2),
        );
        around = rw (address_of-fork_on side r w' m2 (fork_on side n w m1 a b) d) chain_around;
        once = chain_once;
      }
