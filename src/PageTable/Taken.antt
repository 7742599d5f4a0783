-- ===== src/PageTable/Taken.antt =====
-- The walks of the processor after a page has been reserved.
use x.Base.{ℕ, ◌*◌, ◌/◌, ◌≡◌, ◌≢◌, refl, sym, ◌∙◌, inl, inr, Bool-cases, arith, List, [], ◌∷◌}
use x.Paging.{present, page_size}
use x.PageAllocator.{Machine}
use x.PageAllocator.Reserve.{Takes}
use x.PageTable.{table_index}
use x.PageTable.Extend.{Backs, IsSound, Extends}
use x.PageTable.Walk.{leaf, Backed, leaf-present, leaf-missing}

-- Reserving a page extends the state, and every walk reads what it read.
module _ (s : Machine) (p : ℕ) (t : Machine) (sound : IsSound s) (take : Takes s p t) where
  reserved_memory : (a i : ℕ) → Backs s a → t.memory a i ≡ s.memory a i
  reserved_memory a i b =
      let ne : a ≢ p * page_size = λ e.
        let number : a / page_size ≡ p = omega arith in
        let b' = rw number at b in cc (take.was_free) in
      ground (arith, take.cleared a i)

  pub Takes-Extends : Extends s t
  Takes-Extends = record {
    sound = record { valid = take.valid; fits = omega (arith, take.total, sound.fits) };
    backs = λ a h. ground (arith, take.reserved (a / page_size));
    keeps = λ a i b h. reserved_memory a i b;
    table = take.table;
    total = take.total;
  }

  pub Backed-Takes : (ls : List (ℕ × ℕ)) (v table : ℕ) → Backed ls s v table → Backed ls t v table
  Backed-Takes [] v table b = tt
  Backed-Takes ((i, level_mask) ∷ rest) v table b =
      let same = reserved_memory table (table_index i level_mask v) b.0 in
      (Takes-Extends.backs table b.0, λ is. rw same (Backed-Takes rest v _ (b.1 (rw same at is))))

  pub leaf-Takes :
      (ls : List (ℕ × ℕ)) (v table : ℕ)
      → Backed ls s v table
      → leaf ls t.memory v table ≡ leaf ls s.memory v table
  leaf-Takes [] v table b = unfold leaf in refl
  leaf-Takes ((i, level_mask) ∷ []) v table b =
      unfold leaf in rw (reserved_memory table (table_index i level_mask v) b.0)
  leaf-Takes ((i, level_mask) ∷ next ∷ rest) v table b =
      let same = reserved_memory table (table_index i level_mask v) b.0 in
      elim (Bool-cases (present (s.memory table (table_index i level_mask v)))) [
        | inl is ↦
            leaf-present i level_mask next rest t.memory v table (rw same is)
            ∙ rw same (leaf-Takes (next ∷ rest) v _ (b.1 is))
            ∙ sym (leaf-present i level_mask next rest s.memory v table is)
        | inr is_not ↦
            leaf-missing i level_mask next rest t.memory v table (rw same is_not)
            ∙ sym (leaf-missing i level_mask next rest s.memory v table is_not)
      ]
