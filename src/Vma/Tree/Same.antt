-- ===== src/Vma/Tree/Same.antt =====
-- Trees with the same areas and the same branches, which rotations and colors keep; and the steps from
-- a place of a `VMATree` to the place above it.
use x.Base.{ℕ, suc, ◌+◌, ◌≡◌, refl, ◌∙◌, ◌==◌, to_bit, arith}
use x.Vma.Node.{Side, left_side, right_side}
use x.Vma.Tree.Shape.{Shape, tip, fork, fork_on, Place, top, below, plug, areas, key, Ordered}
use x.Vma.Tree.Rotate.{areas-fork_on, Ordered-fork_on}

-- How often an address is that of a branch of a tree.
unfoldable pub forks : ℕ → Shape → ℕ
forks b (tip a l) = 0
forks b (fork a w m lower upper) = to_bit (b == a) + forks b lower + forks b upper

-- The number of branches.
unfoldable pub size : Shape → ℕ
size (tip a l) = 0
size (fork a w m lower upper) = suc (size lower + size upper)

-- The second tree has the areas of the first one, its branches, and is in order if that is.
pub record Same (t t' : Shape) : Type 0 where
  pub areas_same : (lo hi : ℕ) → areas t' lo hi ≡ areas t lo hi
  pub ordered : (lo hi : ℕ) → Ordered t lo hi → Ordered t' lo hi
  pub forks_same : (b : ℕ) → forks b t' ≡ forks b t
  pub size_same : size t' ≡ size t

pub Same-refl : (t : Shape) → Same t t
Same-refl t = record {
  areas_same = λ lo hi. refl;
  ordered = λ lo hi o. o;
  forks_same = λ b. refl;
  size_same = refl;
}

pub Same-trans : {t u v : Shape} → Same t u → Same u v → Same t v
Same-trans p q = record {
  areas_same = λ lo hi. q.areas_same lo hi ∙ p.areas_same lo hi;
  ordered = λ lo hi o. q.ordered lo hi (p.ordered lo hi o);
  forks_same = λ b. q.forks_same b ∙ p.forks_same b;
  size_same = q.size_same ∙ p.size_same;
}

-- A branch over the same trees, with the same pivot.
pub Same-fork_on :
    (side : Side) (a w w' m m' : ℕ) {t t' u u' : Shape}
    → key w' ≡ key w
    → Same t t'
    → Same u u'
    → Same (fork_on side a w m t u) (fork_on side a w' m' t' u')
unfolding areas forks size
Same-fork_on left_side a w w' m m' k p q = record {
  areas_same = λ lo hi. rw (k, p.areas_same lo (key w), q.areas_same (key w) hi) refl;
  ordered = λ lo hi o. rw k (p.ordered lo (key w) (o.0), q.ordered (key w) hi (o.1));
  forks_same = λ b. rw (p.forks_same b, q.forks_same b) refl;
  size_same = omega (arith, p.size_same, q.size_same);
}
Same-fork_on right_side a w w' m m' k p q = record {
  areas_same = λ lo hi. rw (k, q.areas_same lo (key w), p.areas_same (key w) hi) refl;
  ordered = λ lo hi o. rw k (q.ordered lo (key w) (o.0), p.ordered (key w) hi (o.1));
  forks_same = λ b. rw (p.forks_same b, q.forks_same b) refl;
  size_same = omega (arith, p.size_same, q.size_same);
}

pub Same-plug : (c : Place) (t t' : Shape) → Same t t' → Same (plug c t) (plug c t')
Same-plug top t t' p = p
Same-plug (below side a w m other above) t t' p =
    Same-plug above (fork_on side a w m t other) (fork_on side a w m t' other)
      (Same-fork_on side a w w m m refl p (Same-refl other))

pub forks-fork_on :
    (side : Side) (b a w m : ℕ) (near far : Shape)
    → forks b (fork_on side a w m near far) ≡ to_bit (b == a) + forks b near + forks b far
unfolding forks
forks-fork_on left_side b a w m near far = refl
forks-fork_on right_side b a w m near far = omega arith

pub size-fork_on :
    (side : Side) (a w m : ℕ) (near far : Shape)
    → size (fork_on side a w m near far) ≡ suc (size near + size far)
unfolding size
size-fork_on left_side a w m near far = refl
size-fork_on right_side a w m near far = omega arith

pub Same-rotated :
    (side : Side) (n w m r w' m' m1 m2 : ℕ) (a b d : Shape)
    → Same
        (fork_on side n w m a (fork_on side r w' m' b d))
        (fork_on side r w' m2 (fork_on side n w m1 a b) d)
Same-rotated side n w m r w' m' m1 m2 a b d = record {
  areas_same = areas-fork_on side n w m r w' m' m1 m2 a b d;
  ordered = Ordered-fork_on side n w m r w' m' m1 m2 a b d;
  forks_same = λ x.
      rw
        (
          forks-fork_on side x r w' m2 (fork_on side n w m1 a b) d,
          forks-fork_on side x n w m1 a b,
          forks-fork_on side x n w m a (fork_on side r w' m' b d),
          forks-fork_on side x r w' m' b d,
        )
        (omega arith);
  size_same =
      rw
        (
          size-fork_on side r w' m2 (fork_on side n w m1 a b) d,
          size-fork_on side n w m1 a b,
          size-fork_on side n w m a (fork_on side r w' m' b d),
          size-fork_on side r w' m' b d,
        )
        (omega arith);
}
