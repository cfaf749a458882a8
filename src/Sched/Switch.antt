-- ===== src/Sched/Switch.antt =====
-- The context switch of `schedule` in kernel/sched.c.
use mx_os.Prelude.{
  ℕ, ◌<◌, ◌≡◌, refl, ◌∙◌, sym, ap, Bool, true, false, inl, inr, ◌⊎◌, Option, none, some, List,
  arith, length, length-set, set, get_or-set, ◌==◌, if◌then◌else◌, Bool-cases, ==_iff, Option-cases,
  add32, subst,
}
use mx_os.Paging.{
  Layout, paging_switch_directory, paging_task_directory_phys, paging_kernel_directory_phys,
}
use mx_os.Pit.{timer_tick}
use mx_os.Task.{Task, task_at, no_task, Kernel, self, task_stack_size}
use mx_os.Sched.{find_next_task, switch_to, run_elected, elect, schedule}
use mx_os.Sched.Round.{woken}
use mx_os.Sched.Winner.{find_next_task-woken, find_next_task-active, find_next_task-none_iff}

-- The page directory that a task runs under.
unfoldable pub directory_for : Layout → Task → ℕ
directory_for l t = elim t.addr_space [
  | some s ↦ paging_task_directory_phys l s
  | none ↦ paging_kernel_directory_phys l
]

-- The task table has its size, and the current task is in it.
pub record IsTable (k : Kernel) : Type 0 where
  pub sixteen : length k.tasks ≡ 16
  pub here : k.current_task < 16

-- The machine after a switch by `schedule`: an active task runs, on its own stack and directory. It
-- goes on with the ESP that it was left with, which for the interrupted task is `last_esp`.
pub record Switched (l : Layout) (last_esp esp : ℕ) (before after : Kernel) : Type 0 where
  pub in_table : after.current_task < 16
  pub active : (self after).active ≡ true
  pub resumes : esp ≡ (
      if after.current_task == before.current_task
      then last_esp
      else (task_at before.tasks after.current_task).esp)
  pub saved : (task_at after.tasks before.current_task).esp ≡ last_esp
  pub stack : after.esp0 ≡ add32 (self after).stack_base task_stack_size
  pub directory : after.paging.cr3 ≡ directory_for l (self after)

woken-esp : (ticks : ℕ) (t : Task) → (woken ticks t).esp ≡ t.esp
woken-esp ticks t = ground arith

woken-active : (ticks : ℕ) (t : Task) → (woken ticks t).active ≡ t.active
woken-active ticks t = ground arith

pick_esp :
    (esp : ℕ) (s t : Task) (b : Bool)
    → (if b then record s { esp = esp } else t).esp ≡ (if b then esp else t.esp)
pick_esp esp s t true = refl
pick_esp esp s t false = refl

own : (i x y : ℕ) → (if i == i then x else y) ≡ x
own i x y = ground arith

pick_active :
    (esp : ℕ) (s t : Task) (b : Bool)
    → (if b then record s { esp = esp } else t).active ≡ (if b then s.active else t.active)
pick_active esp s t true = refl
pick_active esp s t false = refl

module _ (l : Layout) (last_esp : ℕ) (k : Kernel) (v : IsTable k) where
  -- The table once the interrupted task's ESP is saved.
  abbrev pub saved_tasks : List Task
  saved_tasks = set k.tasks k.current_task (record (self k) { esp = last_esp })

  pub saved_size : length saved_tasks ≡ 16
  saved_size = length-set k.tasks k.current_task _ ∙ v.sixteen

  pub saved_at :
      (c : ℕ)
      → task_at saved_tasks c
        ≡ (if c == k.current_task then record (self k) { esp = last_esp } else task_at k.tasks c)
  saved_at c =
      get_or-set k.tasks k.current_task c (record (self k) { esp = last_esp }) no_task
        (omega (arith, v.sixteen, v.here))

  abbrev pub found : List Task × Option ℕ
  found = find_next_task k.pit.ticks k.current_task saved_tasks

  found_at : (c : ℕ) → c < 16 → task_at found.0 c ≡ woken k.pit.ticks (task_at saved_tasks c)
  found_at c h = find_next_task-woken k.pit.ticks k.current_task saved_tasks v.here saved_size c h

  -- The kernel when `find_next_task` returns.
  abbrev pub chosen : Kernel
  chosen = record k { tasks = found.0 }

  pub elect-some :
      (m : ℕ)
      → found.1 ≡ some m
      → elect l last_esp k ≡ (some (switch_to l m chosen).0, (switch_to l m chosen).1)
  unfolding elect run_elected switch_to
  elect-some m e = rw (e, run_elected)

  elect-none : found.1 ≡ none → (elect l last_esp k).0 ≡ none
  unfolding elect run_elected
  elect-none e = rw (e, run_elected)

  chosen_esp :
      (m : ℕ)
      → m < 16
      → (task_at found.0 m).esp
        ≡ (if m == k.current_task then last_esp else (task_at k.tasks m).esp)
  chosen_esp m h =
      ap (λ (t : Task). t.esp) (found_at m h)
      ∙ woken-esp k.pit.ticks (task_at saved_tasks m)
      ∙ ap (λ (t : Task). t.esp) (saved_at m)
      ∙ pick_esp last_esp (self k) (task_at k.tasks m) (m == k.current_task)

  switch-Switched :
      (m : ℕ)
      → found.1 ≡ some m
      → Switched l last_esp (switch_to l m chosen).0 k (switch_to l m chosen).1
  unfolding switch_to directory_for paging_switch_directory
  switch-Switched m e =
      let (lt, on) =
        find_next_task-active k.pit.ticks k.current_task saved_tasks v.here saved_size m e in
      record {
        in_table = lt;
        active =
            ap (λ (t : Task). t.active) (found_at m lt)
            ∙ woken-active k.pit.ticks (task_at saved_tasks m)
            ∙ on;
        resumes = chosen_esp m lt;
        saved = chosen_esp k.current_task v.here ∙ own k.current_task last_esp _;
        stack = refl;
        directory = refl;
      }

same_active :
    (c i : ℕ) (ts : List Task)
    → (if c == i then (task_at ts i).active else (task_at ts c).active) ≡ (task_at ts c).active
same_active c i ts = elim (Bool-cases (c == i)) [
  | inl e ↦ rw e (ap (λ (d : ℕ). (task_at ts d).active) (sym ((==_iff c i).0 e)))
  | inr e ↦ rw e refl
]

none-idle :
    (l : Layout) (last_esp : ℕ) (k : Kernel) (v : IsTable k)
    → (found l last_esp k v).1 ≡ none
    → (c : ℕ) → (task_at (saved_tasks l last_esp k v) c).active ≡ false
none-idle l last_esp k v =
    (find_next_task-none_iff k.pit.ticks k.current_task (saved_tasks l last_esp k v) v.here
      (saved_size l last_esp k v)).0

saved-active :
    (l : Layout) (last_esp : ℕ) (k : Kernel) (v : IsTable k) (c : ℕ)
    → (task_at (saved_tasks l last_esp k v) c).active ≡ (task_at k.tasks c).active
saved-active l last_esp k v c =
    ap (λ (t : Task). t.active) (saved_at l last_esp k v c)
    ∙ pick_active last_esp (self k) (task_at k.tasks c) (c == k.current_task)
    ∙ same_active c k.current_task k.tasks

pub schedule-on :
    (l : Layout) (last_esp : ℕ) (k : Kernel)
    → k.multitasking_enabled ≡ true
    → schedule l last_esp k ≡ elect l last_esp (record k { pit = timer_tick k.pit })
unfolding schedule
schedule-on l last_esp k on = rw on refl

schedule-off :
    (l : Layout) (last_esp : ℕ) (k : Kernel)
    → k.multitasking_enabled ≡ false
    → schedule l last_esp k ≡ (some last_esp, record k { pit = timer_tick k.pit })
unfolding schedule
schedule-off l last_esp k off = rw off refl

-- What `schedule` may give: it halts where no task is active, or it makes a complete switch.
pub Outcome : Layout → ℕ → Kernel → Option ℕ × Kernel → Type 0
Outcome l last_esp k r =
    ((r.0 ≡ none) × ((c : ℕ) → (task_at k.tasks c).active ≡ false))
    ⊎ ((esp : ℕ) × (r.0 ≡ some esp) × (r.1.pit ≡ timer_tick k.pit) × Switched l last_esp esp k r.1)

resume :
    (l : Layout) (last_esp : ℕ) (k ticked : Kernel) (p : ℕ × Kernel) (r : Option ℕ × Kernel)
    → ticked.tasks ≡ k.tasks
    → ticked.current_task ≡ k.current_task
    → r ≡ (some p.0, p.1)
    → p.1.pit ≡ timer_tick k.pit
    → Switched l last_esp p.0 ticked p.1
    → (esp : ℕ) × (r.0 ≡ some esp) × (r.1.pit ≡ timer_tick k.pit) × Switched l last_esp esp k r.1
resume l last_esp k ticked p r same here e on s = rw e (
  p.0,
  refl,
  on,
  record {
    in_table = s.in_table;
    active = s.active;
    resumes = rw (same, here) at s.resumes;
    saved = rw here at s.saved;
    stack = s.stack;
    directory = s.directory;
  },
)

elect-Outcome :
    (l : Layout) (last_esp : ℕ) (k : Kernel)
    → IsTable k
    → Outcome l last_esp k (elect l last_esp (record k { pit = timer_tick k.pit }))
unfolding Outcome switch_to
elect-Outcome l last_esp k v =
    let ticked : Kernel = record k { pit = timer_tick k.pit } in
    let w : IsTable ticked = record { sixteen = v.sixteen; here = v.here } in
    elim (Option-cases (found l last_esp ticked w).1) [
      | inl e ↦ inl (
        elect-none l last_esp ticked w e,
        λ c. sym (saved-active l last_esp ticked w c) ∙ none-idle l last_esp ticked w e c,
      )
      | inr (m, e) ↦ inr (
          resume l last_esp k ticked (switch_to l m (chosen l last_esp ticked w)) _ refl refl
            (elect-some l last_esp ticked w m e) refl (switch-Switched l last_esp ticked w m e))
    ]

-- `schedule` counts a tick. With multitasking off it returns to the interrupted code. With multitasking
-- on it either halts, where no task at all is active, or makes a complete switch.
pub schedule-Switched :
    (l : Layout) (last_esp : ℕ) (k : Kernel)
    → IsTable k
    → ((k.multitasking_enabled ≡ false)
        × (schedule l last_esp k ≡ (some last_esp, record k { pit = timer_tick k.pit })))
      ⊎ ((k.multitasking_enabled ≡ true) × Outcome l last_esp k (schedule l last_esp k))
schedule-Switched l last_esp k v = elim (Bool-cases k.multitasking_enabled) [
  | inr off ↦ inl (off, schedule-off l last_esp k off)
  | inl on ↦ inr (
    on,
    subst (Outcome l last_esp k) (sym (schedule-on l last_esp k on)) (elect-Outcome l last_esp k v),
  )
]
