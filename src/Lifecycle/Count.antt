-- ===== src/Lifecycle/Count.antt =====
-- `task_count` of kernel/sched.c counts the active tasks.
use mx_os.Prelude.{
  ℕ, suc, ◌+◌, ◌-◌, ◌≤◌, ◌<◌, ◌≡◌, refl, ◌∙◌, ap, true, false, Option, none, some, List, [], ◌∷◌,
  arith, length, length-set, set, bit, leb, ltb, ltb→lt, ◌==◌, Bool-cases, Option-cases, inl, inr,
}
use mx_os.Mem.{kmalloc, Heap}
use mx_os.Ipc.{mailbox_reset}
use mx_os.Paging.{Layout, Paging, paging_free_task_directory}
use mx_os.Task.{Task, task_at, self, Kernel, task_stack_size, drop_one}
use mx_os.Task.Table.{count_active, count_active-set}
use mx_os.Lifecycle.{
  first_inactive, start_task, free_entry, create_at, create_task, UserTask, user_with_space,
  user_at, create_user_task_argv, free_stack, free_space, end_task, task_exit_current, clear_box,
  task_kill,
}

-- The table has its size, the current task is in it, and `task_count` counts the active tasks.
pub record IsCounted (k : Kernel) : Type 0 where
  pub sixteen : length k.tasks ≡ 16
  pub here : k.current_task < 16
  pub counted : k.task_count ≡ count_active k.tasks

first_inactive-some :
    (i m : ℕ) (ts : List Task)
    → first_inactive i ts ≡ some m
    → (i ≤ m) × (m < i + length ts) × ((task_at ts (m - i)).active ≡ false)
unfolding first_inactive
first_inactive-some i m [] e = cc
first_inactive-some i m (t ∷ ts) e = elim (Bool-cases t.active) [
  | inl on ↦
      let (a, b, c) = first_inactive-some (i + 1) m ts (rw on at e) in
      let shift : m - i ≡ suc (m - (i + 1)) = omega (arith, a) in
      (omega (arith, a), omega (arith, b), rw shift c)
  | inr off ↦
      let found : some i ≡ some m = rw off at e in
      let same : i ≡ m = cc in
      let none_before : m - i ≡ 0 = omega arith in (omega arith, omega arith, rw none_before off)
]

grown :
    (ts : List Task) (i : ℕ) (t : Task) (n : ℕ)
    → i < length ts
    → (task_at ts i).active ≡ false
    → t.active ≡ true
    → n ≡ count_active ts
    → n + 1 ≡ count_active (set ts i t)
grown ts i t n h off on e = omega (arith, count_active-set ts i t h, ap bit off, ap bit on, e)

start_task-IsCounted :
    (i a name : ℕ) (frame : List ℕ) (space : Option ℕ) (k : Kernel)
    → IsCounted k
    → i < 16
    → (task_at k.tasks i).active ≡ false
    → IsCounted (start_task i a frame name space k)
unfolding start_task
start_task-IsCounted i a name frame space k v h off = record {
  sixteen = length-set k.tasks i _ ∙ v.sixteen;
  here = v.here;
  counted = grown k.tasks i _ k.task_count (omega (arith, v.sixteen)) off refl v.counted;
}

-- An entry of the table is written without a change to `active`.
same-IsCounted :
    (i : ℕ) (t : Task) (k : Kernel)
    → IsCounted k
    → t.active ≡ (task_at k.tasks i).active
    → i < 16
    → IsCounted (record k { tasks = set k.tasks i t })
same-IsCounted i t k v e h = record {
  sixteen = length-set k.tasks i t ∙ v.sixteen;
  here = v.here;
  counted =
      let change = count_active-set k.tasks i t (omega (arith, v.sixteen)) in
      omega (arith, v.counted, change, ap bit e);
}

free_stack-IsCounted : (i : ℕ) (k : Kernel) → IsCounted k → i < 16 → IsCounted (free_stack i k)
unfolding free_stack
free_stack-IsCounted i k v h = elim (Bool-cases ((task_at k.tasks i).stack_base == 0)) [
  | inl e ↦ rw e v
  | inr e ↦ rw e (
      let w = same-IsCounted i _ k v refl h in
      record { sixteen = w.sixteen; here = w.here; counted = w.counted })
]

free_space-none : (i : ℕ) (k : Kernel) → (task_at k.tasks i).addr_space ≡ none → free_space i k ≡ k
unfolding free_space
free_space-none i k e = rw (e, free_space)

free_space-some :
    (i s : ℕ) (k : Kernel)
    → (task_at k.tasks i).addr_space ≡ some s
    → free_space i k ≡ record k {
      paging = paging_free_task_directory s k.paging;
      tasks = set k.tasks i (record (task_at k.tasks i) { addr_space = none });
    }
unfolding free_space
free_space-some i s k e = rw (e, free_space)

free_space-IsCounted : (i : ℕ) (k : Kernel) → IsCounted k → i < 16 → IsCounted (free_space i k)
free_space-IsCounted i k v h = elim (Option-cases (task_at k.tasks i).addr_space) [
  | inl e ↦ rw (free_space-none i k e) v
  | inr (s, e) ↦
      let w = same-IsCounted i (record (task_at k.tasks i) { addr_space = none }) k v refl h in
      rw (free_space-some i s k e)
        (record { sixteen = w.sixteen; here = w.here; counted = w.counted })
]

end_task-IsCounted :
    (i : ℕ) (k : Kernel)
    → IsCounted k
    → i < 16
    → (task_at k.tasks i).active ≡ true
    → IsCounted (end_task i k)
unfolding end_task
end_task-IsCounted i k v h on =
    free_space-IsCounted i _
      (free_stack-IsCounted i _
        (record {
          sixteen = length-set k.tasks i _ ∙ v.sixteen;
          here = v.here;
          counted =
              let change =
                count_active-set k.tasks i
                  (record (task_at k.tasks i) { active = false; sleeping = false })
                  (omega (arith, v.sixteen)) in
              dropped k.task_count _ (omega (arith, v.counted, change, ap bit on));
        })
        h)
      h
  where
    dropped : (n m : ℕ) → m + 1 ≡ n → drop_one n ≡ m
    dropped n m e = ground arith

-- `task_exit_current` ends the current task, if it is active.
pub task_exit_current-IsCounted : (k : Kernel) → IsCounted k → IsCounted (task_exit_current k)
unfolding task_exit_current
task_exit_current-IsCounted k v = elim (Bool-cases (self k).active) [
  | inl on ↦ rw on (end_task-IsCounted k.current_task k v v.here on)
  | inr off ↦ rw off v
]

clear_box-IsCounted : (i : ℕ) (k : Kernel) → IsCounted k → i < 16 → IsCounted (clear_box i k)
unfolding clear_box
clear_box-IsCounted i k v h =
    same-IsCounted i (record (task_at k.tasks i) { box = mailbox_reset (task_at k.tasks i).box }) k
      v refl h

-- `task_kill` ends another task, or does nothing.
pub task_kill-IsCounted : (pid : ℕ) (k : Kernel) → IsCounted k → IsCounted (task_kill pid k).1
unfolding task_kill
task_kill-IsCounted pid k v = elim (Bool-cases (ltb pid 16)) [
  | inr out ↦ rw out v
  | inl h ↦ elim (Bool-cases (task_at k.tasks pid).active) [
    | inr off ↦ rw (h, off) v
    | inl on ↦ elim (Bool-cases (pid == k.current_task)) [
      | inl own ↦ rw (h, on, own) v
      | inr other ↦
          rw (h, on, other)
            (clear_box-IsCounted pid (end_task pid k)
              (end_task-IsCounted pid k v (ltb→lt pid 16 h) on) (ltb→lt pid 16 h))
    ]
  ]
]

held-IsCounted : (k : Kernel) (heap : Heap) → IsCounted k → IsCounted (record k { heap = heap })
held-IsCounted k heap v = record { sixteen = v.sixteen; here = v.here; counted = v.counted }

free_entry-inactive :
    (i : ℕ) (k : Kernel)
    → IsCounted k
    → free_entry k ≡ some i
    → (i < 16) × ((task_at k.tasks i).active ≡ false)
unfolding free_entry
free_entry-inactive i k v e = elim (Bool-cases (leb 16 k.task_count)) [
  | inl full ↦ cc (rw full at e)
  | inr room ↦
      let (a, b, c) = first_inactive-some 0 i k.tasks (rw room at e) in
      let same : i - 0 ≡ i = omega arith in (omega (arith, b, v.sixteen), rw same at c)
]

create_at-IsCounted :
    (task_exit entry name i : ℕ) (k : Kernel)
    → IsCounted k
    → i < 16
    → (task_at k.tasks i).active ≡ false
    → IsCounted (create_at task_exit entry name i k).1
unfolding create_at
create_at-IsCounted task_exit entry name i k v h off =
    elim (Bool-cases ((kmalloc k.heap task_stack_size).0 == 0)) [
      | inl e ↦ rw e (held-IsCounted k _ v)
      | inr e ↦ rw e (start_task-IsCounted i _ name _ none _ (held-IsCounted k _ v) h off)
    ]

create_task-none : (x e n : ℕ) (k : Kernel) → free_entry k ≡ none → create_task x e n k ≡ (none, k)
unfolding create_task
create_task-none x e n k full = rw (full, create_task)

create_task-some :
    (x e n i : ℕ) (k : Kernel) → free_entry k ≡ some i → create_task x e n k ≡ create_at x e n i k
unfolding create_task
create_task-some x e n i k got = rw (got, create_task)

pub create_task-IsCounted :
    (task_exit entry name : ℕ) (k : Kernel)
    → IsCounted k
    → IsCounted (create_task task_exit entry name k).1
create_task-IsCounted task_exit entry name k v = elim (Option-cases (free_entry k)) [
  | inl e ↦ rw (create_task-none task_exit entry name k e) v
  | inr (i, e) ↦
      let (h, off) = free_entry-inactive i k v e in
      rw (create_task-some task_exit entry name i k e)
        (create_at-IsCounted task_exit entry name i k v h off)
]

user_with_space-IsCounted :
    (l : Layout) (u : UserTask) (i a : ℕ) (p : Option ℕ × Paging) (k : Kernel)
    → IsCounted k
    → i < 16
    → (task_at k.tasks i).active ≡ false
    → IsCounted (user_with_space l u i a p k).1
unfolding user_with_space
user_with_space-IsCounted l u i a (none, p) k v h off = record {
  sixteen = v.sixteen;
  here = v.here;
  counted = v.counted;
}
user_with_space-IsCounted l u i a (some s, p) k v h off =
    start_task-IsCounted i a u.name _ (some s) (record k { paging = p })
      (record { sixteen = v.sixteen; here = v.here; counted = v.counted }) h off

user_at-IsCounted :
    (l : Layout) (u : UserTask) (i : ℕ) (k : Kernel)
    → IsCounted k
    → i < 16
    → (task_at k.tasks i).active ≡ false
    → IsCounted (user_at l u i k).1
unfolding user_at
user_at-IsCounted l u i k v h off = elim (Bool-cases ((kmalloc k.heap task_stack_size).0 == 0)) [
  | inl e ↦ rw e (held-IsCounted k _ v)
  | inr e ↦ rw e (user_with_space-IsCounted l u i _ _ _ (held-IsCounted k _ v) h off)
]

user-none :
    (l : Layout) (u : UserTask) (k : Kernel)
    → free_entry k ≡ none
    → create_user_task_argv l u k ≡ (none, k)
unfolding create_user_task_argv
user-none l u k full = rw (full, create_user_task_argv)

user-some :
    (l : Layout) (u : UserTask) (i : ℕ) (k : Kernel)
    → free_entry k ≡ some i
    → create_user_task_argv l u k ≡ user_at l u i k
unfolding create_user_task_argv
user-some l u i k got = rw (got, create_user_task_argv)

pub create_user_task_argv-IsCounted :
    (l : Layout) (u : UserTask) (k : Kernel)
    → IsCounted k
    → IsCounted (create_user_task_argv l u k).1
create_user_task_argv-IsCounted l u k v = elim (Option-cases (free_entry k)) [
  | inl e ↦ rw (user-none l u k e) v
  | inr (i, e) ↦
      let (h, off) = free_entry-inactive i k v e in
      rw (user-some l u i k e) (user_at-IsCounted l u i k v h off)
]

-- With 16 entries in the table, the current task among them and `task_count` the number of active
-- ones, creating a kernel task, creating a user task, exiting and killing each keep all three.
pub lifecycle-IsCounted :
    (l : Layout) (u : UserTask) (task_exit entry name pid : ℕ) (k : Kernel)
    → IsCounted k
    → IsCounted (create_task task_exit entry name k).1
      × IsCounted (create_user_task_argv l u k).1
      × IsCounted (task_exit_current k)
      × IsCounted (task_kill pid k).1
lifecycle-IsCounted l u task_exit entry name pid k v = (
  create_task-IsCounted task_exit entry name k v,
  create_user_task_argv-IsCounted l u k v,
  task_exit_current-IsCounted k v,
  task_kill-IsCounted pid k v,
)
