-- ===== src/Sched.antt =====
-- The scheduler of kernel/sched.c: `find_next_task`, `schedule`, `init_multitasking`, sleep and
-- priorities.
pub mod Dump
pub mod Fair
pub mod Messages
pub mod Round
pub mod Scanned
pub mod Switch
pub mod Tests
pub mod Winner
use mx_os.Prelude.{
  ℕ, zero, suc, ◌+◌, ◌*◌, ◌/◌, ◌%◌, Bool, true, false, Option, none, some, List, [], ◌∷◌, set, leb,
  ltb, ◌==◌, if◌then◌else◌, add32, mul32, map,
}
use mx_os.Prelude.Int.{ℤ, pos, negsuc, ltb_ℤ}
use mx_os.Ipc.{Message, mailbox_reset, post, fetch}
use mx_os.Paging.{
  Layout, paging_switch_directory, paging_task_directory_phys, paging_kernel_directory_phys,
}
use mx_os.Pit.{timer_tick, get_ticks, pit_get_frequency}
use mx_os.Task.{Task, task_at, Kernel, self, put_task, max_tasks, task_stack_size}

-- The local variables of the loop in `find_next_task`; `none` is the index -1.
pub record Scan : Type 0 where
  pub tasks : List Task
  pub next_task : Option ℕ
  pub best_priority : ℤ

-- The end of the loop's body, for a task that is ready.
pub compare_priority : ℕ → ℤ → Scan → Scan
compare_priority candidate priority s =
    if ltb_ℤ s.best_priority priority
    then record s { best_priority = priority; next_task = some candidate }
    else s

-- The loop's body: an inactive task is passed over, a sleeping one too unless it is due; a sleeper
-- that is due is woken.
pub look_at : ℕ → ℕ → Scan → Scan
look_at ticks candidate s =
    let t = task_at s.tasks candidate in
    if t.active
    then if t.sleeping
      then if leb t.wake_tick ticks
        then compare_priority candidate t.priority
            (record s { tasks = set s.tasks candidate (record t { sleeping = false }) })
        else s
      else compare_priority candidate t.priority s
    else s

-- `n` rounds of the loop from round `i` on.
pub scan : ℕ → ℕ → ℕ → ℕ → Scan → Scan
scan zero i ticks current s = s
scan (suc n) i ticks current s =
    scan n (i + 1) ticks current (look_at ticks ((current + i) % max_tasks) s)

-- The second loop: the first active task, from index `i` on.
pub first_active : ℕ → List Task → Option ℕ
first_active i [] = none
first_active i (t ∷ ts) = if t.active then some i else first_active (i + 1) ts

-- The second `if` of `find_next_task`: where no task is elected, the first active one is.
pub fallback : Option ℕ → List Task → Option ℕ
fallback (some m) ts = some m
fallback none ts = first_active 0 ts

-- The table that `find_next_task` leaves, and its result.
pub find_next_task : ℕ → ℕ → List Task → List Task × Option ℕ
find_next_task ticks current ts =
    let s =
      scan max_tasks 1 ticks current
        (record { tasks = ts; next_task = none; best_priority = negsuc 0 }) in
    (s.tasks, fallback s.next_task s.tasks)

module _ (l : Layout) where
  -- The end of `schedule`, once a task is elected: the context switch.
  pub switch_to : ℕ → Kernel → ℕ × Kernel
  switch_to m k =
      let t = task_at k.tasks m in
      (
        t.esp,
        record k {
          current_task = m;
          esp0 = add32 t.stack_base task_stack_size;
          paging =
              paging_switch_directory
                (elim t.addr_space [
                  | some s ↦ paging_task_directory_phys l s
                  | none ↦ paging_kernel_directory_phys l
                ])
                k.paging;
        },
      )

  -- What `find_next_task` gives: halt for good, or switch.
  pub run_elected : Option ℕ → Kernel → Option ℕ × Kernel
  run_elected none k = (none, k)
  run_elected (some m) k = (some (switch_to m k).0, (switch_to m k).1)

  -- `schedule` behind its first `return`.
  pub elect : ℕ → Kernel → Option ℕ × Kernel
  elect last_esp k =
      let saved = put_task k k.current_task (record (self k) { esp = last_esp }) in
      let found = find_next_task (get_ticks k.pit) k.current_task saved.tasks in
      run_elected found.1 (record saved { tasks = found.0 })

  -- The ESP that `schedule` returns; `none` where it halts the machine for good.
  pub schedule : ℕ → Kernel → Option ℕ × Kernel
  schedule last_esp k =
      let ticked = record k { pit = timer_tick k.pit } in
      if k.multitasking_enabled then elect last_esp ticked else (some last_esp, ticked)

-- `(ms * freq) / 1000`, at least 1.
pub ticks_to_wait : ℕ → ℕ → ℕ
ticks_to_wait ms freq = let t = mul32 ms freq / 1000 in if t == 0 then 1 else t

-- What `task_sleep` and `task_sleep_and_reschedule` do before they wait.
pub fall_asleep : ℕ → Kernel → Kernel
fall_asleep ms k = put_task k k.current_task (record (self k) {
  wake_tick = add32 (get_ticks k.pit) (ticks_to_wait ms (pit_get_frequency k.pit));
  sleeping = true;
})

pub task_sleep_and_reschedule : Layout → ℕ → ℕ → Kernel → Option ℕ × Kernel
task_sleep_and_reschedule l ms current_esp k = schedule l current_esp (fall_asleep ms k)

-- A pid is the bit pattern of an `int`, so a negative one is out of range too. A pid out of range
-- or of an inactive task has no effect.
pub task_set_priority : ℕ → ℤ → Kernel → Kernel
task_set_priority pid priority k =
    if ltb pid max_tasks
    then if (task_at k.tasks pid).active
      then put_task k pid (record (task_at k.tasks pid) { priority = priority })
      else k
    else k

unfoldable pub task_is_active : ℕ → Kernel → Bool
task_is_active pid k = if ltb pid max_tasks then (task_at k.tasks pid).active else false

-- A message for another task: -1 for a pid out of range or of an inactive task, else what the target's
-- mailbox answers. `data_at` gives the byte at each offset from the sender's pointer.
unfoldable pub ipc_send : ℕ → (ℕ → ℕ) → ℕ → Kernel → ℤ × Kernel
ipc_send target_pid data_at len k =
    let t = task_at k.tasks target_pid in
    let r = post t.box data_at len k.current_task in
    if ltb target_pid max_tasks
    then if t.active
      then (pos r.0, put_task k target_pid (record t { box = r.1 }))
      else (negsuc 0, k)
    else (negsuc 0, k)

-- The oldest message for the current task; `none` is the result 0.
pub ipc_recv : Kernel → Option Message × Kernel
ipc_recv k =
    let r = fetch (self k).box in (r.0, put_task k k.current_task (record (self k) { box = r.1 }))

-- One round of the loop in `init_multitasking`.
unfoldable pub clear_task : Task → Task
clear_task t = record t {
  active = false;
  sleeping = false;
  wake_tick = 0;
  addr_space = none;
  priority = pos 0;
  box = mailbox_reset t.box;
}

-- `shell` is the address of the name.
unfoldable pub init_multitasking : ℕ → Kernel → Kernel
init_multitasking shell k =
    let ts = map clear_task k.tasks in
    record k {
      tasks = set ts 0 (record (task_at ts 0) { name = shell; active = true; priority = pos 0 });
      task_count = 1;
      current_task = 0;
      multitasking_enabled = true;
    }

abbrev pub sched_current_pid : Kernel → ℕ
sched_current_pid k = k.current_task
