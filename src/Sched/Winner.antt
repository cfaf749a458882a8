-- ===== src/Sched/Winner.antt =====
-- Which task `find_next_task` of kernel/sched.c elects.
use mx_os.Prelude.{
  ℕ, zero, suc, ◌+◌, ◌-◌, ◌%◌, ◌<◌, ◌≡◌, ◌↔◌, refl, ◌∙◌, sym, ap, true, false, inl, inr, Option,
  none, some, List, [], ◌∷◌, arith, length, Bool-cases, Option-cases, subst,
}
use mx_os.Prelude.Int.{ℤ, pos, negsuc, ◌≤ℤ◌, ◌<ℤ◌}
use mx_os.Task.{Task, task_at, max_tasks}
use mx_os.Sched.{Scan, scan, first_active, fallback, find_next_task}
use mx_os.Sched.Round.{is_ready, woken, candidate}
use mx_os.Sched.Scanned.{Best, Leads, Scanned, Scanned-start, Scanned-scan}

-- The first active task, as a search over the table gives it.
abbrev pub FirstActive : List Task → Option ℕ → Type 0
FirstActive ts none = (c : ℕ) → (task_at ts c).active ≡ false
FirstActive ts (some m) =
    (m < length ts)
    × ((task_at ts m).active ≡ true)
    × ((c : ℕ) → c < m → (task_at ts c).active ≡ false)

first_active-none :
    (i : ℕ) (ts : List Task) → first_active i ts ≡ none → (c : ℕ) → (task_at ts c).active ≡ false
unfolding first_active
first_active-none i [] e c = refl
first_active-none i (t ∷ ts) e zero = ground arith
first_active-none i (t ∷ ts) e (suc c) = first_active-none (i + 1) ts (ground arith) c

inactive_before :
    (t : Task) (ts : List Task) (d : ℕ)
    → t.active ≡ false
    → ((c : ℕ) → c < d → (task_at ts c).active ≡ false)
    → (c : ℕ) → c < suc d
    → (task_at (t ∷ ts) c).active ≡ false
inactive_before t ts d off f zero h = off
inactive_before t ts d off f (suc c) h = f c (omega arith)

first_active-some :
    (i m : ℕ) (ts : List Task)
    → first_active i ts ≡ some m
    → (d : ℕ) × (m ≡ i + d) × FirstActive ts (some d)
unfolding first_active
first_active-some i m [] e = cc
first_active-some i m (t ∷ ts) e = elim (Bool-cases t.active) [
  | inl on ↦ (0, ground arith, (omega arith, on, λ c h. absurd (omega arith)))
  | inr off ↦
      let (d, at, f) = first_active-some (i + 1) m ts (rw off at e) in
      (suc d, omega (arith, at), (omega (arith, f.0), f.1, inactive_before t ts d off f.2))
]

FirstActive-first_active : (ts : List Task) → FirstActive ts (first_active 0 ts)
FirstActive-first_active ts = elim (Option-cases (first_active 0 ts)) [
  | inl e ↦ rw e (first_active-none 0 ts e)
  | inr (m, e) ↦
      let (d, at, f) = first_active-some 0 m ts e in
      let same : m ≡ d = omega arith in rw (e, same) f
]

woken-active : (ticks : ℕ) (t : Task) → (woken ticks t).active ≡ t.active
woken-active ticks t = ground arith

module _ (ticks current : ℕ) (ts : List Task) (here : current < 16) (sixteen : length ts ≡ 16) where
  -- The loop's variables when it ends.
  abbrev last : Scan
  last =
      scan max_tasks 1 ticks current
        (record { tasks = ts; next_task = none; best_priority = negsuc 0 })

  last-Scanned : Scanned ticks current ts 17 last
  last-Scanned =
      Scanned-scan ticks current ts 16 1 17 _ (omega arith) sixteen (omega arith)
        (Scanned-start ticks current ts)

  -- The round that looks at task `c`.
  abbrev round_of : ℕ → ℕ
  round_of c = (c + 15 - current) % 16 + 1

  round_of_lem : (c : ℕ) → c < 16 → candidate current (round_of c) ≡ c
  round_of_lem c h = omega arith

  find-tasks : (find_next_task ticks current ts).0 ≡ last.tasks
  unfolding find_next_task
  find-tasks = refl

  -- The loop wakes every task that is active, asleep and due, and changes nothing else.
  pub find_next_task-woken :
      (c : ℕ) → c < 16 → task_at (find_next_task ticks current ts).0 c ≡ woken ticks (task_at ts c)
  find_next_task-woken c h = rw find-tasks (
      subst (λ d. task_at last.tasks d ≡ woken ticks (task_at ts d)) (round_of_lem c h)
        (last-Scanned.done (round_of c) (omega arith) (omega arith)))

  -- Task `m` is ready, no ready task has a higher priority, and every ready task that comes before
  -- it on the way round the table from the current task has a lower one.
  pub record Wins (m : ℕ) : Type 0 where
    pub in_table : m < 16
    pub ready : is_ready ticks (task_at ts m) ≡ true
    pub most :
        (c : ℕ)
        → c < 16
        → is_ready ticks (task_at ts c) ≡ true
        → (task_at ts c).priority ≤ℤ (task_at ts m).priority
    pub earliest :
        (c : ℕ)
        → c < 16
        → is_ready ticks (task_at ts c) ≡ true
        → (c + 15 - current) % 16 < (m + 15 - current) % 16
        → (task_at ts c).priority <ℤ (task_at ts m).priority

  Wins-of_Leads :
      (m i : ℕ) (best : ℤ) → m ≡ candidate current i → Leads ticks current ts 17 best i → Wins m
  Wins-of_Leads m i best e w = record {
    in_table = omega arith;
    ready = rw e w.ready;
    most = λ c h run.
        subst (λ p. (task_at ts c).priority ≤ℤ p) (sym same)
          (subst (λ d. is_ready ticks (task_at ts d) ≡ true → (task_at ts d).priority ≤ℤ best)
            (round_of_lem c h) (w.most (round_of c) (omega arith) (omega arith)) run);
    earliest = λ c h run lt.
        subst (λ p. (task_at ts c).priority <ℤ p) (sym same)
          (subst (λ d. is_ready ticks (task_at ts d) ≡ true → (task_at ts d).priority <ℤ best)
            (round_of_lem c h)
            (w.earliest (round_of c) (omega arith) (omega (arith, w.from_one, w.below))) run);
  }
    where
      same : (task_at ts m).priority ≡ best
      same = ap (λ d. (task_at ts d).priority) e ∙ w.has_best

  find-result : (find_next_task ticks current ts).1 ≡ fallback last.next_task last.tasks
  unfolding find_next_task
  find-result = refl

  -- Waking changes no task's `active`.
  last-active : (c : ℕ) → (task_at last.tasks c).active ≡ (task_at ts c).active
  last-active c = elim (last-Scanned.entry c) [
    | inl e ↦ ap (λ (t : Task). t.active) e
    | inr e ↦ ap (λ (t : Task). t.active) e ∙ woken-active ticks (task_at ts c)
  ]

  FirstActive-last : (o : Option ℕ) → FirstActive last.tasks o → FirstActive ts o
  FirstActive-last none f = λ c. sym (last-active c) ∙ f c
  FirstActive-last (some m) f = (
    omega (arith, f.0, last-Scanned.size),
    sym (last-active m) ∙ f.1,
    λ c h. sym (last-active c) ∙ f.2 c h,
  )

  -- What the loop elected, in terms of the table before it.
  elected_cases :
      (o : Option ℕ) → last.next_task ≡ o → Best ticks current ts 17 o last.best_priority
  elected_cases o e = rw (← e) (last-Scanned.best)

  -- Where a task of priority 0 or more is ready, `find_next_task` elects a ready task of the highest
  -- priority, and of several such the one that comes first after the current task.
  pub find_next_task-Wins :
      (c : ℕ)
      → c < 16
      → is_ready ticks (task_at ts c) ≡ true
      → pos 0 ≤ℤ (task_at ts c).priority
      → (m : ℕ) × ((find_next_task ticks current ts).1 ≡ some m) × Wins m
  unfolding fallback
  find_next_task-Wins c h run up = elim (Option-cases last.next_task) [
    | inr (m, e) ↦
        let (i, at, w) = elected_cases (some m) e in
        (m, rw (find-result, e), Wins-of_Leads m i last.best_priority at w)
    | inl e ↦
        let low =
          subst (λ d. is_ready ticks (task_at ts d) ≡ true → (task_at ts d).priority ≤ℤ negsuc 0)
            (round_of_lem c h) ((elected_cases none e).1 (round_of c) (omega arith) (omega arith))
            run in
        absurd (omega arith)
  ]

  -- Where every ready task has a negative priority, `find_next_task` ignores readiness and priority:
  -- it gives the active task of the lowest index, asleep or not.
  pub find_next_task-negative :
      ((c : ℕ) → c < 16 → is_ready ticks (task_at ts c) ≡ true → (task_at ts c).priority <ℤ pos 0)
      → FirstActive ts (find_next_task ticks current ts).1
  unfolding fallback
  find_next_task-negative low = elim (Option-cases last.next_task) [
    | inr (m, e) ↦
        let (i, at, w) = elected_cases (some m) e in
        let won = Wins-of_Leads m i last.best_priority at w in
        absurd (
          omega (
            arith,
            subst (λ p. p <ℤ pos 0) (ap (λ d. (task_at ts d).priority) at ∙ w.has_best)
                (low m won.in_table won.ready),
            w.not_negative,
          ))
    | inl e ↦
        rw (find-result, e)
          (FirstActive-last (first_active 0 last.tasks) (FirstActive-first_active last.tasks))
  ]

  fallback-active :
      (o : Option ℕ)
      → FirstActive ts o
      → (m : ℕ) → o ≡ some m
      → (m < 16) × ((task_at ts m).active ≡ true)
  fallback-active none f m e = cc
  fallback-active (some d) f m e = let same : d ≡ m = cc in rw (← same) (omega (arith, f.0), f.1)

  -- `find_next_task` never elects an inactive task.
  pub find_next_task-active :
      (m : ℕ)
      → (find_next_task ticks current ts).1 ≡ some m
      → (m < 16) × ((task_at ts m).active ≡ true)
  unfolding fallback
  find_next_task-active m e = elim (Option-cases last.next_task) [
    | inr (d, next) ↦
        let (i, at, w) = elected_cases (some d) next in
        let won = Wins-of_Leads d i last.best_priority at w in
        let same : some d ≡ some m = rw (find-result, next) at e in
        let eq : d ≡ m = cc in rw (← eq) (won.in_table, ground (arith, won.ready))
    | inl next ↦
        fallback-active (first_active 0 last.tasks)
          (FirstActive-last (first_active 0 last.tasks) (FirstActive-first_active last.tasks)) m
          (rw (find-result, next) at e)
  ]

  fallback-none :
      (o : Option ℕ) → FirstActive ts o → o ≡ none → (c : ℕ) → (task_at ts c).active ≡ false
  fallback-none none f e = f
  fallback-none (some m) f e = cc

  -- `find_next_task` finds no task exactly when no task is active.
  pub find_next_task-none_iff :
      ((find_next_task ticks current ts).1 ≡ none) ↔ ((c : ℕ) → (task_at ts c).active ≡ false)
  unfolding fallback
  find_next_task-none_iff = (
    λ e. elim (Option-cases last.next_task) [
      | inr (d, next) ↦ cc (rw (find-result, next) at e)
      | inl next ↦
          fallback-none (first_active 0 last.tasks)
            (FirstActive-last (first_active 0 last.tasks) (FirstActive-first_active last.tasks))
            (rw (find-result, next) at e)
    ],
    λ off. elim (Option-cases (find_next_task ticks current ts).1) [
      | inl e ↦ e
      | inr (m, e) ↦ cc (off m, (find_next_task-active m e).1)
    ],
  )
