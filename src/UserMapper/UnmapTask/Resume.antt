-- ===== src/UserMapper/UnmapTask/Resume.antt =====
-- A task that was suspended, taken up again, ends as if it had never been suspended.
use x.Base.{
  ℕ, zero, suc, ◌+◌, ◌-◌, ◌^◌, ◌<◌, ◌≡◌, refl, ap, sym, ◌∙◌, Bool, true, false, ◌&&◌, ltb, leb,
  ◌==◌, if◌then◌else◌, Option, none, some, inl, inr, Bool-cases, Option-cases, arith,
}
use x.PageAllocator.{Machine}
use x.UserMapper.{unmap_page}
use x.UserMapper.UnmapTask.{
  UnmapMemTask, Poll, pending, ready, advance, run_page, run_from, run, free_table_check_depth,
}

-- Never to be suspended.
abbrev pub never : ℕ → Bool
never call = false

-- What a round makes of the page.
abbrev after :
    (pml4 : ℕ) (should_suspend : ℕ → Bool) (fuel call : ℕ)
    → Option (UnmapMemTask × Machine)
    → Option (Poll × UnmapMemTask × Machine)
after pml4 should_suspend fuel call none = none
after pml4 should_suspend fuel call (some (next, t)) =
    if next.pages_left == 0
    then some (ready next.pages_freed, next, t)
    else run_from pml4 should_suspend fuel (suc call) next t

pub run_from-page :
    (pml4 : ℕ) (should_suspend : ℕ → Bool) (fuel call : ℕ) (task : UnmapMemTask) (s : Machine)
    {o : Option (UnmapMemTask × Machine)}
    → should_suspend call ≡ false
    → run_page pml4 task s ≡ o
    → run_from pml4 should_suspend (suc fuel) call task s ≡ after pml4 should_suspend fuel call o
unfolding run_from
run_from-page pml4 should_suspend fuel call task s on e =
    rw on (ap (after pml4 should_suspend fuel call) e)

abbrev left_of : Option (UnmapMemTask × Machine) → ℕ
left_of none = 0
left_of (some (next, t)) = next.pages_left

abbrev guard : UnmapMemTask → ℕ → Bool
guard task freed = leb 1 task.pages_left && ltb (task.pages_freed + freed) (2 ^ 64)

advance-pages_left :
    (task next : UnmapMemTask) (o : Option (ℕ × Machine)) (t : Machine)
    → advance task o ≡ some (next, t)
    → task.pages_left ≡ suc next.pages_left
unfolding advance
advance-pages_left task next none t e = absurd (cc e)
advance-pages_left task next (some (freed, s)) t e = elim (Bool-cases (guard task freed)) [
  | inl inside ↦
      let known : advance task (some (freed, s))
          ≡ some (
            record {
              current_address = task.current_address + 4096;
              pages_left = task.pages_left - 1;
              pages_freed = task.pages_freed + freed;
            },
            s,
          ) =
        rw inside refl in
      let left = ap left_of (sym known ∙ e) in ground (arith, left, inside)
  | inr outside ↦
      let known : advance task (some (freed, s)) ≡ none = rw outside refl in
      absurd (cc (sym known ∙ e))
]

-- A page that is done leaves one page less.
pub run_page-pages_left :
    (pml4 : ℕ) (task next : UnmapMemTask) (s t : Machine)
    → run_page pml4 task s ≡ some (next, t)
    → task.pages_left ≡ suc next.pages_left
unfolding run_page
run_page-pages_left pml4 task next s t e =
    elim (Bool-cases (ltb (task.current_address + 4096) (2 ^ 64))) [
      | inl inside ↦
          let unmapped = unmap_page pml4 task.current_address (free_table_check_depth task) s in
          let known : run_page pml4 task s ≡ advance task unmapped = rw inside refl in
          advance-pages_left task next unmapped t (sym known ∙ e)
      | inr outside ↦
          let known : run_page pml4 task s ≡ none = rw outside refl in absurd (cc (sym known ∙ e))
    ]

module _ (pml4 : ℕ) where
  -- More fuel changes nothing, nor does the number of calls before.
  enough_fuel :
      (fuel more call other : ℕ) (task : UnmapMemTask) (s : Machine)
      → task.pages_left < fuel
      → task.pages_left < more
      → run_from pml4 never fuel call task s ≡ run_from pml4 never more other task s
  enough_fuel zero more call other task s a b = absurd (omega arith)
  enough_fuel (suc fuel) zero call other task s a b = absurd (omega arith)
  enough_fuel (suc fuel) (suc more) call other task s a b =
      elim (Option-cases (run_page pml4 task s)) [
        | inl e ↦
            run_from-page pml4 never fuel call task s refl e
            ∙ sym (run_from-page pml4 never more other task s refl e)
        | inr ((next, t), e) ↦
            let less = run_page-pages_left pml4 task next s t e in
            let rest =
              enough_fuel fuel more (suc call) (suc other) next t (omega arith) (omega arith) in
            run_from-page pml4 never fuel call task s refl e
            ∙ elim (Bool-cases (next.pages_left == 0)) [
              | inl done ↦ rw done refl
              | inr left ↦ rw left rest
            ]
            ∙ sym (run_from-page pml4 never more other task s refl e)
      ]

  -- A round of a run without breaks.
  run_next :
      (task next : UnmapMemTask) (s t : Machine)
      → run_page pml4 task s ≡ some (next, t)
      → (next.pages_left == 0) ≡ false
      → run pml4 never task s ≡ run pml4 never next t
  unfolding run
  run_next task next s t e left =
      let less = run_page-pages_left pml4 task next s t e in
      let known : after pml4 never task.pages_left 0 (some (next, t))
          ≡ run_from pml4 never task.pages_left 1 next t =
        rw left refl in
      run_from-page pml4 never task.pages_left 0 task s refl e
      ∙ known
      ∙ enough_fuel task.pages_left (suc next.pages_left) 1 0 next t (omega arith) (omega arith)

  suspended :
      (should_suspend : ℕ → Bool) (fuel call : ℕ) (task : UnmapMemTask) (s : Machine)
      → should_suspend call ≡ true
      → run_from pml4 should_suspend (suc fuel) call task s ≡ some (pending, task, s)
  unfolding run_from
  suspended should_suspend fuel call task s now = rw now refl

  abbrev resumed : Option (Poll × UnmapMemTask × Machine) → Option (Poll × UnmapMemTask × Machine)
  resumed none = none
  resumed (some (poll, task, s)) = run pml4 never task s

  resume_from :
      (should_suspend : ℕ → Bool) (fuel call : ℕ) (task later : UnmapMemTask) (s t : Machine)
      → task.pages_left < fuel
      → run_from pml4 should_suspend fuel call task s ≡ some (pending, later, t)
      → run pml4 never task s ≡ run pml4 never later t
  resume_from should_suspend zero call task later s t a e = absurd (omega arith)
  resume_from should_suspend (suc fuel) call task later s t a e =
      elim (Bool-cases (should_suspend call)) [
        | inl now ↦ ap resumed (sym (suspended should_suspend fuel call task s now) ∙ e)
        | inr on ↦ elim (Option-cases (run_page pml4 task s)) [
          | inl o ↦ absurd (cc (sym (run_from-page pml4 should_suspend fuel call task s on o) ∙ e))
          | inr ((next, u), o) ↦
              let less = run_page-pages_left pml4 task next s u o in
              let round = sym (run_from-page pml4 should_suspend fuel call task s on o) ∙ e in
              elim (Bool-cases (next.pages_left == 0)) [
                | inl done ↦
                    let known : after pml4 should_suspend fuel call (some (next, u))
                        ≡ some (ready next.pages_freed, next, u) =
                      rw done refl in
                    absurd (cc (sym known ∙ round))
                | inr left ↦
                    let known : after pml4 should_suspend fuel call (some (next, u))
                        ≡ run_from pml4 should_suspend fuel (suc call) next u =
                      rw left refl in
                    run_next task next s u o left
                    ∙ resume_from should_suspend fuel (suc call) next later u t (omega arith)
                        (sym known ∙ round)
              ]
        ]
      ]

-- When a run is suspended, running the task that it leaves to its end comes to what running the
-- whole task without a break comes to: the same count, task, memory and allocator, or a panic.
pub run-run :
    (pml4 : ℕ) (should_suspend : ℕ → Bool) (task later : UnmapMemTask) (s t : Machine)
    → run pml4 should_suspend task s ≡ some (pending, later, t)
    → run pml4 never task s ≡ run pml4 never later t
unfolding run
run-run pml4 should_suspend task later s t e =
    resume_from pml4 should_suspend (suc task.pages_left) 0 task later s t (omega arith) e
