-- ===== src/UserMapper/UnmapTask/Call.antt =====
-- What one call of `unmap_page` leaves to the calls after it.
use x.Base.{
  ℕ, suc, ◌≤◌, ◌≡◌, refl, sym, ◌∙◌, true, ltb, if◌then◌else◌, Option, none, some, inl, inr,
  Bool-cases, List, [], ◌∷◌, take, arith,
}
use x.Paging.{present, address}
use x.PageAllocator.{Machine, Memory}
use x.PageAllocator.Covered.{Covers}
use x.PageTable.{levels, table_index}
use x.PageTable.Walk.{NoHuge, leaf, leaf-present, leaf-missing}
use x.UserMapper.Unmap.{Below, clear_all-Below}
use x.UserMapper.Cut.{PageUnmapped, no_translation, tables_freed, tables_up}

module _ (m m' : Memory) (below : Below m' m) (v : ℕ) where
  -- Clearing words maps nothing new, and makes no huge pages.
  pub leaf-Below :
      (ls : List (ℕ × ℕ)) (table : ℕ) → leaf ls m v table ≡ none → leaf ls m' v table ≡ none
  leaf-Below [] table h = unfold leaf in refl
  leaf-Below ((i, level_mask) ∷ []) table h =
      unfold leaf in ground (arith, h, below table (table_index i level_mask v))
  leaf-Below ((i, level_mask) ∷ next ∷ rest) table h =
      let index : ℕ = table_index i level_mask v in
      elim (Bool-cases (present (m' table index))) [
        | inr is_not ↦ leaf-missing i level_mask next rest m' v table is_not
        | inl is ↦ elim (below table index) [
          | inr gone ↦ absurd (ground (arith, gone, is))
          | inl kept ↦
              let was : present (m table index) ≡ true = rw (← kept) is in
              leaf-present i level_mask next rest m' v table is
              ∙ rw kept (
                  leaf-Below (next ∷ rest) (address (m table index))
                    (sym (leaf-present i level_mask next rest m v table was) ∙ h))
        ]
      ]

  pub NoHuge-Below : (ls : List (ℕ × ℕ)) (table : ℕ) → NoHuge ls m v table → NoHuge ls m' v table
  NoHuge-Below [] table n = tt
  NoHuge-Below ((i, level_mask) ∷ rest) table n = elim (below table (table_index i level_mask v)) [
    | inl kept ↦ rw kept (n.0, λ is. NoHuge-Below rest _ (n.1 is))
    | inr gone ↦ rw gone (refl, λ is. absurd (cc is))
  ]

pub Below-trans : (a b c : Memory) → Below a b → Below b c → Below a c
Below-trans a b c f g t i = elim (f t i) [
  | inl same ↦ elim (g t i) [ inl kept ↦ inl (same ∙ kept) | inr gone ↦ inr (same ∙ gone) ]
  | inr gone ↦ inr gone
]

-- What the task relies on of each call.
pub record PageDone (s : Machine) (pml4 v : ℕ) (o : Option (ℕ × Machine)) : Type 0 where
  pub freed : ℕ
  pub left : Machine
  pub returns : o ≡ some (freed, left)
  pub few : freed ≤ 4
  pub ended : leaf levels left.memory v pml4 ≡ none
  pub below : Below left.memory s.memory
  pub covers : Covers left.allocator

pub PageUnmapped-PageDone :
    (s : Machine) (pml4 v depth : ℕ) {o : Option (ℕ × Machine)}
    → Covers s.allocator
    → PageUnmapped s pml4 v depth o
    → PageDone s pml4 v o
PageUnmapped-PageDone s pml4 v depth c (no_translation h) = record {
  freed = 0;
  left = s;
  returns = refl;
  few = omega arith;
  ended = h;
  below = λ a i. inl refl;
  covers = c;
}
PageUnmapped-PageDone s pml4 v depth c (tables_freed entry t h memory cut covers) = record {
  freed = (if ltb depth 4 then suc depth else 4);
  left = t;
  returns = refl;
  few = ground arith;
  ended = cut 3 v (omega arith) (omega arith) (refl, (refl, (refl, (refl, tt))));
  below = rw memory (clear_all-Below (take (suc depth) (tables_up s v pml4)) s.memory);
  covers = covers;
}
