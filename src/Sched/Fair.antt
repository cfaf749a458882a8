-- ===== src/Sched/Fair.antt =====
-- No task of the highest priority waits for ever: `schedule` of kernel/sched.c, tick after tick.
use mx_os.Prelude.{
  ℕ, zero, suc, ◌+◌, ◌-◌, ◌%◌, ◌≤◌, ◌<◌, ◌≡◌, ◌≢◌, refl, ◌∙◌, sym, ap, subst, true, inl, inr, ◌⊎◌,
  Option, some, List, arith, ltb, ◌==◌, if◌then◌else◌, Bool-cases, ==_iff,
}
use mx_os.Prelude.Int.{pos, ◌≤ℤ◌, ◌<ℤ◌}
use mx_os.Paging.{Layout}
use mx_os.Pit.{timer_tick}
use mx_os.Task.{Task, task_at, Kernel}
use mx_os.Sched.{schedule, find_next_task, switch_to}
use mx_os.Sched.Round.{is_ready}
use mx_os.Sched.Winner.{Wins, find_next_task-Wins}
use mx_os.Sched.Switch.{IsTable, saved_tasks, saved_size, saved_at, chosen, elect-some, schedule-on}

-- At the next tick task `j` can run, has a priority of at least 0, and no task that can run then
-- has a higher priority.
pub record IsFavoured (j : ℕ) (k : Kernel) : Type 0 where
  pub table : IsTable k
  pub on : k.multitasking_enabled ≡ true
  pub in_table : j < 16
  pub ready : is_ready (timer_tick k.pit).ticks (task_at k.tasks j) ≡ true
  pub up : pos 0 ≤ℤ (task_at k.tasks j).priority
  pub most :
      (c : ℕ)
      → c < 16
      → is_ready (timer_tick k.pit).ticks (task_at k.tasks c) ≡ true
      → (task_at k.tasks c).priority ≤ℤ (task_at k.tasks j).priority

-- How many tasks `find_next_task` looks at before `j` when `current` runs.
abbrev pub turns : ℕ → ℕ → ℕ
turns current j = (j + 15 - current) % 16

-- Saving an ESP changes neither whether a task can run nor its priority.
module _ (ticks esp c i : ℕ) (ts : List Task) where
  pick_ready :
      is_ready ticks (if c == i then record (task_at ts i) { esp = esp } else task_at ts c)
      ≡ is_ready ticks (task_at ts c)
  pick_ready = elim (Bool-cases (c == i)) [
    | inl e ↦ rw e (ap (λ (d : ℕ). is_ready ticks (task_at ts d)) (sym ((==_iff c i).0 e)))
    | inr e ↦ rw e refl
  ]

  pick_priority :
      (if c == i then record (task_at ts i) { esp = esp } else task_at ts c).priority
      ≡ (task_at ts c).priority
  pick_priority = elim (Bool-cases (c == i)) [
    | inl e ↦ rw e (ap (λ (d : ℕ). (task_at ts d).priority) (sym ((==_iff c i).0 e)))
    | inr e ↦ rw e refl
  ]

switch_to-runs : (l : Layout) (m : ℕ) (k : Kernel) → (switch_to l m k).1.current_task ≡ m
unfolding switch_to
switch_to-runs l m k = refl

module _ (l : Layout) (esp j : ℕ) (k : Kernel) (v : IsFavoured j k) where
  abbrev ticked : Kernel
  ticked = record k { pit = timer_tick k.pit }

  abbrev ticked-IsTable : IsTable ticked
  ticked-IsTable = record { sixteen = v.table.sixteen; here = v.table.here }

  abbrev saved : List Task
  saved = saved_tasks l esp ticked ticked-IsTable

  saved_ready :
      (c : ℕ)
      → is_ready ticked.pit.ticks (task_at saved c) ≡ is_ready ticked.pit.ticks (task_at k.tasks c)
  saved_ready c =
      ap (is_ready ticked.pit.ticks) (saved_at l esp ticked ticked-IsTable c)
      ∙ pick_ready ticked.pit.ticks esp c k.current_task k.tasks

  saved_priority : (c : ℕ) → (task_at saved c).priority ≡ (task_at k.tasks c).priority
  saved_priority c =
      ap (λ (t : Task). t.priority) (saved_at l esp ticked ticked-IsTable c)
      ∙ pick_priority ticked.pit.ticks esp c k.current_task k.tasks

  Elects : ℕ → Type 0
  Elects m =
      ((find_next_task ticked.pit.ticks k.current_task saved).1 ≡ some m)
      × Wins ticked.pit.ticks k.current_task saved v.table.here
          (saved_size l esp ticked ticked-IsTable) m

  elected : (m : ℕ) × Elects m
  unfolding Elects
  elected =
      let (m, e, wins) =
        find_next_task-Wins ticked.pit.ticks k.current_task saved v.table.here
          (saved_size l esp ticked ticked-IsTable) j v.in_table (saved_ready j ∙ v.ready)
          (subst (λ p. pos 0 ≤ℤ p) (sym (saved_priority j)) v.up) in
      (m, (e, wins))

  Elects-runs : (m : ℕ) → Elects m → (schedule l esp k).1.current_task ≡ m
  unfolding Elects
  Elects-runs m (e, wins) =
      ap (λ (r : Option ℕ × Kernel). r.1.current_task)
        (schedule-on l esp k v.on ∙ elect-some l esp ticked ticked-IsTable m e)
      ∙ switch_to-runs l m (chosen l esp ticked ticked-IsTable)

  -- No later in the round than `j`, which has as high a priority.
  Elects-turns : (m : ℕ) → Elects m → (m < 16) × (turns k.current_task m ≤ turns k.current_task j)
  unfolding Elects
  Elects-turns m (e, wins) =
      elim (Bool-cases (ltb (turns k.current_task j) (turns k.current_task m))) [
        | inr not_before ↦ (wins.in_table, ground arith)
        | inl before ↦
            let lower = wins.earliest j v.in_table (saved_ready j ∙ v.ready) (ground arith) in
            let higher = v.most m wins.in_table (sym (saved_ready m) ∙ wins.ready) in
            let lower : (task_at k.tasks j).priority <ℤ (task_at k.tasks m).priority =
              subst (λ p. p <ℤ (task_at k.tasks m).priority) (saved_priority j)
                (subst (λ p. (task_at saved j).priority <ℤ p) (saved_priority m) lower) in
            absurd (omega (arith, lower, higher))
      ]

  -- One tick: `j` runs, or is nearer to its turn.
  schedule-nearer :
      ((schedule l esp k).1.current_task ≡ j)
      ⊎ (turns (schedule l esp k).1.current_task j < turns k.current_task j)
  schedule-nearer =
      let (m, e) = elected in
      let (inside, near) = Elects-turns m e in
      let here = v.table.here in
      let there = v.in_table in
      elim (Bool-cases (m == j)) [
        | inl same ↦ inl (Elects-runs m e ∙ (==_iff m j).0 same)
        | inr other ↦ inr (
            subst (λ c. turns c j < turns k.current_task j) (sym (Elects-runs m e))
              (farther m (ground arith) inside near here there))
      ]
    where
      farther :
          (m : ℕ)
          → m ≢ j
          → m < 16
          → turns k.current_task m ≤ turns k.current_task j
          → k.current_task < 16
          → j < 16
          → turns m j < turns k.current_task j
      farther m other inside near here there = omega arith

-- While `j` is favoured at each of `n` ticks in a row, more than it is from its turn, one of them
-- has it run.
module _ (l : Layout) (j : ℕ) (esps : ℕ → ℕ) (ks : ℕ → Kernel) where
  runs_within :
      (n i : ℕ)
      → ((d : ℕ) → d < n → IsFavoured j (ks (i + d)))
      → ((d : ℕ)
          → d < n
          → (ks (i + d + 1)).current_task ≡ (schedule l (esps (i + d)) (ks (i + d))).1.current_task)
      → turns (ks i).current_task j < n
      → (d : ℕ) × (d < n) × ((ks (i + d + 1)).current_task ≡ j)
  runs_within zero i favoured ticks near = absurd (omega arith)
  runs_within (suc n) i favoured ticks near =
      let at : i + 0 ≡ i = omega arith in
      let v : IsFavoured j (ks i) =
        subst (λ x. IsFavoured j (ks x)) at (favoured 0 (omega arith)) in
      let step : (ks (i + 0 + 1)).current_task ≡ (schedule l (esps i) (ks i)).1.current_task =
        ticks 0 (omega arith) ∙ ap (λ x. (schedule l (esps x) (ks x)).1.current_task) at in
      elim (schedule-nearer l (esps i) j (ks i) v) [
        | inl runs ↦ (0, omega arith, step ∙ runs)
        | inr nearer ↦
            let shift : (d : ℕ) → i + suc d ≡ i + 1 + d = λ d. omega arith in
            let (d, below, runs) =
              runs_within n (i + 1)
                (λ d below.
                  subst (λ x. IsFavoured j (ks x)) (shift d) (favoured (suc d) (omega arith)))
                (λ d below.
                  subst
                    (λ x. (ks (x + 1)).current_task ≡ (schedule l (esps x) (ks x)).1.current_task)
                    (shift d) (ticks (suc d) (omega arith)))
                (subst (λ x. turns x j < n) (sym step ∙ ap (λ x. (ks (x + 1)).current_task) at)
                  (omega arith)) in
            (suc d, omega (arith, below), ap (λ x. (ks (x + 1)).current_task) (shift d) ∙ runs)
      ]

-- Multitasking is on, and the task table has 16 entries, one of them the current task. If task `j`
-- has a priority of at least 0 and can run, and no task that can run has a higher priority, at each
-- of 16 ticks in a row at which `schedule` decides which task runs next, then `schedule` has it run
-- within these 16 ticks, whatever the tasks that run meanwhile change besides.
pub schedule-IsFavoured :
    (l : Layout) (j : ℕ) (esps : ℕ → ℕ) (ks : ℕ → Kernel)
    → ((d : ℕ) → d < 16 → IsFavoured j (ks d))
    → ((d : ℕ) → d < 16 → (ks (d + 1)).current_task ≡ (schedule l (esps d) (ks d)).1.current_task)
    → (d : ℕ) × (d < 16) × ((ks (d + 1)).current_task ≡ j)
schedule-IsFavoured l j esps ks favoured ticks =
    let at : (d : ℕ) → d ≡ 0 + d = λ d. omega arith in
    let (d, below, runs) =
      runs_within l j esps ks 16 0
        (λ d below. subst (λ x. IsFavoured j (ks x)) (at d) (favoured d below))
        (λ d below.
          subst (λ x. (ks (x + 1)).current_task ≡ (schedule l (esps x) (ks x)).1.current_task)
            (at d) (ticks d below))
        (omega arith) in
    (d, below, subst (λ x. (ks (x + 1)).current_task ≡ j) (sym (at d)) runs)
