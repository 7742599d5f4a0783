-- ===== src/UserMapper/Unmap.antt =====
-- `unmap_page` of the user page mapper: the entries that it clears, and the translations that this
-- ends.
use x.Base.{
  ℕ, zero, suc, ◌+◌, ◌-◌, ◌<◌, ◌≡◌, refl, ap, ◌∙◌, true, false, ◌==◌, ◌&&◌, ==_refl, if◌then◌else◌,
  List, [], ◌∷◌, none, some, inl, inr, ◌⊎◌, Bool-cases, arith, leb, length, take, get_elem?, pure,
}
use x.Paging.{address}
use x.PageAllocator.{Memory, Machine, free_page}
use x.PageAllocator.Covered.{Covers, free_page-Covers}
use x.PageTable.{write_entry}
use x.UserMapper.{free_tables}

-- The memory with those entries cleared.
unfoldable pub clear_all : List (ℕ × ℕ) → Memory → Memory
clear_all [] m = m
clear_all ((index, table) ∷ rest) m = clear_all rest (write_entry m table index 0)

-- Every word is what it was or zero.
abbrev pub Below : Memory → Memory → Type 0
Below m' m = (a i : ℕ) → (m' a i ≡ m a i) ⊎ (m' a i ≡ 0)

write_entry-zero :
    (m : Memory) (table index a i : ℕ)
    → (write_entry m table index 0 a i ≡ m a i) ⊎ (write_entry m table index 0 a i ≡ 0)
unfolding write_entry
write_entry-zero m table index a i = elim (Bool-cases (a == table && i == index)) [
  | inl here ↦ inr (rw here refl)
  | inr elsewhere ↦ inl (rw elsewhere refl)
]

pub clear_all-Below : (ts : List (ℕ × ℕ)) (m : Memory) → Below (clear_all ts m) m
unfolding clear_all
clear_all-Below [] m a i = inl refl
clear_all-Below ((index, table) ∷ rest) m a i =
    elim (clear_all-Below rest (write_entry m table index 0) a i) [
      | inl same ↦ elim (write_entry-zero m table index a i) [
        | inl kept ↦ inl (same ∙ kept)
        | inr gone ↦ inr (same ∙ gone)
      ]
      | inr gone ↦ inr gone
    ]

cleared : (m : Memory) (table index : ℕ) → write_entry m table index 0 table index ≡ 0
unfolding write_entry
cleared m table index = rw (==_refl table, ==_refl index) refl

-- The entries of the list are zero.
pub clear_all-get_elem? :
    (ts : List (ℕ × ℕ)) (n d index table : ℕ) (m : Memory)
    → d < n
    → get_elem? ts d ≡ some (index, table)
    → clear_all (take n ts) m table index ≡ 0
unfolding clear_all
clear_all-get_elem? [] n d index table m h e = absurd (cc e)
clear_all-get_elem? (x ∷ rest) zero d index table m h e = absurd (omega arith)
clear_all-get_elem? ((i, t) ∷ rest) (suc n) zero index table m h e =
    let same_index : i ≡ index = cc e in
    let same_table : t ≡ table = cc e in
    elim (clear_all-Below (take n rest) (write_entry m t i 0) table index) [
      | inl same ↦ same ∙ (rw (← same_index, ← same_table) (cleared m t i))
      | inr gone ↦ gone
    ]
clear_all-get_elem? (x ∷ rest) (suc n) (suc d) index table m h e =
    clear_all-get_elem? rest n d index table (write_entry m x.1 x.0 0) (omega arith) e

-- A round of the second loop, once the page is freed.
free_tables-free :
    (rest : List (ℕ × ℕ)) (index table checked freed depth : ℕ) (s t : Machine)
    → free_page
        (address (s.memory table index))
        (record s { memory = write_entry s.memory table index 0 })
      ≡ some (tt, t)
    → free_tables ((index, table) ∷ rest) checked freed depth s ≡ (
        if leb depth checked
        then some (freed + 1, t)
        else free_tables rest (checked + 1) (freed + 1) depth t)
unfolding free_tables
free_tables-free rest index table checked freed depth s t e =
    ap
      (λ o. elim o [
        | none ↦ none
        | some (u, t') ↦
            (if leb depth checked
                then pure (freed + 1)
                else free_tables rest (checked + 1) (freed + 1) depth)
              t'
      ])
      e
    ∙ elim (Bool-cases (leb depth checked)) [ inl last ↦ rw last refl | inr more ↦ rw more refl ]

-- What the second loop does, from the level that it has come to.
pub free_tables_lem :
    (ts : List (ℕ × ℕ)) (k checked freed depth : ℕ) (s : Machine)
    → Covers s.allocator
    → k ≡ depth - checked
    → (t : Machine) × (free_tables ts checked freed depth s
        ≡ some (freed + length (take (suc k) ts), t))
      × (t.memory ≡ clear_all (take (suc k) ts) s.memory)
      × Covers t.allocator
unfolding free_tables clear_all
free_tables_lem [] k checked freed depth s c e = (s, ap (λ n. some (n, s)) (omega arith), refl, c)
free_tables_lem ((index, table) ∷ rest) zero checked freed depth s c e =
    let s' = record s { memory = write_entry s.memory table index 0 } in
    let (t, run, memory, covers) = free_page-Covers (address (s.memory table index)) s' c in
    let last : leb depth checked ≡ true = ground arith in
    (
      t,
      free_tables-free rest index table checked freed depth s t run ∙ rw last refl,
      memory,
      covers,
    )
free_tables_lem ((index, table) ∷ rest) (suc k) checked freed depth s c e =
    let s' = record s { memory = write_entry s.memory table index 0 } in
    let (t, run, memory, covers) = free_page-Covers (address (s.memory table index)) s' c in
    let more : leb depth checked ≡ false = ground arith in
    let (u, later, cleared_below, covers_below) =
      free_tables_lem rest k (checked + 1) (freed + 1) depth t covers (omega arith) in
    (
      u,
      free_tables-free rest index table checked freed depth s t run
          ∙ rw more (later ∙ ap (λ n. some (n, u)) (omega arith)),
      cleared_below ∙ ap (λ m. clear_all (take (suc k) rest) m) memory,
      covers_below,
    )
