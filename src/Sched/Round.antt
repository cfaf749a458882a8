-- ===== src/Sched/Round.antt =====
-- One round of the loop in `find_next_task` of kernel/sched.c.
use mx_os.Prelude.{
  ℕ, ◌+◌, ◌%◌, ◌<◌, ◌≡◌, refl, ◌∙◌, sym, ap, Bool, true, false, not, ◌&&◌, ◌||◌, ◌⊎◌, inl, inr,
  some, arith, length, length-set, set, get_or-set, leb, ◌==◌, if◌then◌else◌, Bool-cases,
}
use mx_os.Prelude.Int.{ℤ, ◌≤ℤ◌, ◌<ℤ◌}
use mx_os.Task.{Task, task_at, no_task}
use mx_os.Sched.{Scan, compare_priority, look_at}

-- A task that may run at this tick: active, and not asleep or due to wake.
abbrev pub is_ready : ℕ → Task → Bool
is_ready ticks t = t.active && (not t.sleeping || leb t.wake_tick ticks)

-- A ready task is awake after the scan; nothing else changes.
abbrev pub woken : ℕ → Task → Task
woken ticks t = if is_ready ticks t then record t { sleeping = false } else t

-- The task that round `i` looks at.
abbrev pub candidate : ℕ → ℕ → ℕ
candidate current i = (current + i) % 16

compare_priority-tasks : (c : ℕ) (p : ℤ) (s : Scan) → (compare_priority c p s).tasks ≡ s.tasks
unfolding compare_priority
compare_priority-tasks c p s = ground arith

-- The three ways through the loop's body.
look_at-passed :
    (ticks c : ℕ) (s : Scan) → is_ready ticks (task_at s.tasks c) ≡ false → look_at ticks c s ≡ s
unfolding look_at
look_at-passed ticks c s no_run = ground arith

look_at-awake :
    (ticks c : ℕ) (s : Scan)
    → is_ready ticks (task_at s.tasks c) ≡ true
    → (task_at s.tasks c).sleeping ≡ false
    → look_at ticks c s ≡ compare_priority c (task_at s.tasks c).priority s
unfolding look_at
look_at-awake ticks c s run up = ground arith

look_at-wakes :
    (ticks c : ℕ) (s : Scan)
    → is_ready ticks (task_at s.tasks c) ≡ true
    → (task_at s.tasks c).sleeping ≡ true
    → look_at ticks c s
      ≡ compare_priority c
          (task_at s.tasks c).priority
          (record s { tasks = set s.tasks c (record (task_at s.tasks c) { sleeping = false }) })
unfolding look_at
look_at-wakes ticks c s run asleep = ground arith

-- One round wakes its candidate if that is due, and leaves the other tasks.
pub look_at-tasks :
    (ticks c d : ℕ) (s : Scan)
    → c < length s.tasks
    → task_at (look_at ticks c s).tasks d
      ≡ (if d == c then woken ticks (task_at s.tasks c) else task_at s.tasks d)
look_at-tasks ticks c d s h = elim (Bool-cases (is_ready ticks (task_at s.tasks c))) [
  | inr no_run ↦ rw (look_at-passed ticks c s no_run, no_run) (at_self (task_at s.tasks c) refl)
  | inl run ↦ elim (Bool-cases (task_at s.tasks c).sleeping) [
    | inr up ↦
        rw
          (
            look_at-awake ticks c s run up,
            compare_priority-tasks c (task_at s.tasks c).priority s,
            run,
          )
          (at_self (record (task_at s.tasks c) { sleeping = false })
            (λ i. record (task_at s.tasks c) { sleeping = sym up i }))
    | inl asleep ↦
        rw (look_at-wakes ticks c s run asleep, run)
          (ap (λ ts. task_at ts d)
              (compare_priority-tasks c (task_at s.tasks c).priority (record s {
                tasks = set s.tasks c (record (task_at s.tasks c) { sleeping = false });
              }))
            ∙ get_or-set s.tasks c d (record (task_at s.tasks c) { sleeping = false }) no_task h)
  ]
]
  where
    at_self :
        (t : Task)
        → t ≡ task_at s.tasks c
        → task_at s.tasks d ≡ (if d == c then t else task_at s.tasks d)
    at_self t e = elim (Bool-cases (d == c)) [
      | inl at ↦ let same : d ≡ c = ground arith in rw (at, same) (sym e)
      | inr other ↦ rw other
    ]

-- What one round does to `next_task` and `best_priority`: nothing, if the task is not ready or its
-- priority is not above the best so far, and else it takes the task.
pub look_at-best :
    (ticks c : ℕ) (s : Scan)
    → (((look_at ticks c s).next_task ≡ s.next_task)
        × ((look_at ticks c s).best_priority ≡ s.best_priority)
        × (is_ready ticks (task_at s.tasks c) ≡ true
            → (task_at s.tasks c).priority ≤ℤ s.best_priority))
      ⊎ (((look_at ticks c s).next_task ≡ some c)
          × ((look_at ticks c s).best_priority ≡ (task_at s.tasks c).priority)
          × (is_ready ticks (task_at s.tasks c) ≡ true)
          × (s.best_priority <ℤ (task_at s.tasks c).priority))
unfolding look_at compare_priority
look_at-best ticks c s = ground arith

pub length-look_at : (ticks c : ℕ) (s : Scan) → length (look_at ticks c s).tasks ≡ length s.tasks
unfolding look_at
length-look_at ticks c s = ground (
  arith,
  compare_priority-tasks c (task_at s.tasks c).priority s,
  compare_priority-tasks c (task_at s.tasks c).priority
      (record s { tasks = set s.tasks c (record (task_at s.tasks c) { sleeping = false }) }),
  length-set s.tasks c (record (task_at s.tasks c) { sleeping = false }),
)
