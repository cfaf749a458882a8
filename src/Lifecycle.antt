-- ===== src/Lifecycle.antt =====
-- Creating and ending tasks, in kernel/sched.c. A new task's stack is prepared so that the first
-- switch to it starts its entry point.
pub mod Frame
pub mod Count
pub mod Tests
use mx_os.Prelude.{
  ℕ, zero, suc, ◌+◌, ◌-◌, Bool, true, false, Option, none, some, List, [], ◌∷◌, set, leb, ltb, ◌==◌,
  if◌then◌else◌, add32, sub32, update,
}
use mx_os.Prelude.Int.{pos}
use mx_os.Ipc.{mailbox_reset}
use mx_os.Mem.{kmalloc, kfree}
use mx_os.Paging.{Layout, Paging, paging_create_task_directory_ex, paging_free_task_directory}
use mx_os.Task.{Task, task_at, Kernel, drop_one, max_tasks, task_stack_size, put_task}
use mx_os.Sched.{schedule}

-- A stack pointer, and the words of memory.
pub record Stack : Type 0 where
  pub sp : ℕ
  pub ram : ℕ → ℕ

-- `*(--stack) = value`
pub push : ℕ → Stack → Stack
push value s = let sp = sub32 s.sp 4 in record { sp = sp; ram = update s.ram sp value }

pub push_all : List ℕ → Stack → Stack
push_all [] s = s
push_all (v ∷ vs) s = push_all vs (push v s)

-- What `create_task` pushes, in the order of its statements.
abbrev pub kernel_frame : ℕ → ℕ → List ℕ
kernel_frame task_exit entry = task_exit ∷ 0x202 ∷ 0x08 ∷ entry ∷ 0 ∷ 0 ∷ 0 ∷ 0 ∷ 0 ∷ 0 ∷ 0 ∷ 0 ∷ []

-- What `create_user_task_argv` pushes: SS, ESP, EFLAGS, CS, EIP, then EAX, ECX, EDX, EBX, ESP, EBP,
-- ESI and EDI.
abbrev pub user_frame : ℕ → ℕ → ℕ → ℕ → List ℕ
user_frame user_stack_top entry init_ebx init_ecx =
    0x23 ∷ user_stack_top ∷ 0x202 ∷ 0x1B ∷ entry ∷ 0 ∷ init_ecx ∷ 0 ∷ init_ebx ∷ 0 ∷ 0 ∷ 0 ∷ 0 ∷ []

-- The first inactive entry, from index `i` on.
pub first_inactive : ℕ → List Task → Option ℕ
first_inactive i [] = none
first_inactive i (t ∷ ts) = if t.active then first_inactive (i + 1) ts else some i

-- The end of both creating functions: the frame is pushed and the entry filled in.
pub start_task : ℕ → ℕ → List ℕ → ℕ → Option ℕ → Kernel → Kernel
start_task i stack_address frame name addr_space k =
    let t = task_at k.tasks i in
    let s = push_all frame (record { sp = add32 stack_address task_stack_size; ram = k.ram }) in
    record k {
      ram = s.ram;
      tasks = set k.tasks i (record t {
        stack_base = sub32 (add32 stack_address task_stack_size) task_stack_size;
        sleeping = false;
        wake_tick = 0;
        esp = s.sp;
        active = true;
        name = name;
        addr_space = addr_space;
        box = mailbox_reset t.box;
        priority = pos 0;
      });
      task_count = k.task_count + 1;
    }

-- Both functions give up where the table is full.
pub free_entry : Kernel → Option ℕ
free_entry k = if leb max_tasks k.task_count then none else first_inactive 0 k.tasks

-- `create_task` behind its choice of an entry. `none` is the result -1.
pub create_at : ℕ → ℕ → ℕ → ℕ → Kernel → Option ℕ × Kernel
create_at task_exit entry name i k =
    let got = kmalloc k.heap task_stack_size in
    let held = record k { heap = got.1 } in
    if got.0 == 0
    then (none, held)
    else (some i, start_task i got.0 (kernel_frame task_exit entry) name none held)

pub create_task : ℕ → ℕ → ℕ → Kernel → Option ℕ × Kernel
create_task task_exit entry name k = elim (free_entry k) [
  | none ↦ (none, k)
  | some i ↦ create_at task_exit entry name i k
]

-- The arguments of `create_user_task_argv`.
pub record UserTask : Type 0 where
  pub entry : ℕ
  pub name : ℕ
  pub user_stack_top : ℕ
  pub user_stack_size : ℕ
  pub code_base : ℕ
  pub code_size : ℕ
  pub init_ebx : ℕ
  pub init_ecx : ℕ

module _ (l : Layout) where
  -- With the stack allocated: the address space, or the stack given back.
  pub user_with_space : UserTask → ℕ → ℕ → Option ℕ × Paging → Kernel → Option ℕ × Kernel
  user_with_space u i stack_address (none, paging) k =
      (none, record k { heap = kfree k.heap stack_address; paging = paging })
  user_with_space u i stack_address (some space, paging) k = (
    some i,
    start_task i stack_address (user_frame u.user_stack_top u.entry u.init_ebx u.init_ecx) u.name
        (some space) (record k { paging = paging }),
  )

  pub user_at : UserTask → ℕ → Kernel → Option ℕ × Kernel
  user_at u i k =
      let got = kmalloc k.heap task_stack_size in
      let held = record k { heap = got.1 } in
      if got.0 == 0
      then (none, held)
      else user_with_space u i got.0
          (paging_create_task_directory_ex l u.code_base u.code_size
            (sub32 u.user_stack_top u.user_stack_size) u.user_stack_size k.paging)
          held

  pub create_user_task_argv : UserTask → Kernel → Option ℕ × Kernel
  create_user_task_argv u k = elim (free_entry k) [ none ↦ (none, k) | some i ↦ user_at u i k ]

  unfoldable pub create_user_task_ex : ℕ → ℕ → ℕ → ℕ → ℕ → ℕ → Kernel → Option ℕ × Kernel
  create_user_task_ex entry name user_stack_top user_stack_size code_base code_size k =
      create_user_task_argv
        (record {
          entry = entry;
          name = name;
          user_stack_top = user_stack_top;
          user_stack_size = user_stack_size;
          code_base = code_base;
          code_size = code_size;
          init_ebx = 0;
          init_ecx = 0;
        })
        k

  unfoldable pub create_user_task : ℕ → ℕ → ℕ → ℕ → Kernel → Option ℕ × Kernel
  create_user_task entry name user_stack_top user_stack_size k =
      create_user_task_ex entry name user_stack_top user_stack_size 0 0 k

-- The stack goes back to the heap, if the task has one.
pub free_stack : ℕ → Kernel → Kernel
free_stack i k =
    let t = task_at k.tasks i in
    if t.stack_base == 0 then k else record k {
      heap = kfree k.heap t.stack_base;
      tasks = set k.tasks i (record t { stack_base = 0 });
    }

-- The address space goes back to the pool, if the task has one.
pub free_space : ℕ → Kernel → Kernel
free_space i k =
    let t = task_at k.tasks i in
    elim t.addr_space [
      | none ↦ k
      | some s ↦ record k {
        paging = paging_free_task_directory s k.paging;
        tasks = set k.tasks i (record t { addr_space = none });
      }
    ]

-- What the three ways of ending a task have in common.
pub end_task : ℕ → Kernel → Kernel
end_task i k = free_space i (
    free_stack i (record k {
      tasks = set k.tasks i (record (task_at k.tasks i) { active = false; sleeping = false });
      task_count = drop_one k.task_count;
    }))

-- `task_exit_current` then waits for good.
pub task_exit_current : Kernel → Kernel
task_exit_current k =
    if (task_at k.tasks k.current_task).active then end_task k.current_task k else k

-- `none` where the last task is gone and the machine halts.
pub task_exit_and_reschedule : Layout → ℕ → Kernel → Option ℕ × Kernel
task_exit_and_reschedule l current_esp k =
    let ended = task_exit_current k in
    if ended.task_count == 0 then (none, ended) else schedule l current_esp ended

-- Clears the mailbox of the task that `task_kill` has ended.
pub clear_box : ℕ → Kernel → Kernel
clear_box i k =
    put_task k i (record (task_at k.tasks i) { box = mailbox_reset (task_at k.tasks i).box })

-- 1 if a task was ended. A pid out of range, of an inactive task or of the current one gives 0.
pub task_kill : ℕ → Kernel → ℕ × Kernel
task_kill pid k =
    if ltb pid max_tasks
    then if (task_at k.tasks pid).active
      then if pid == k.current_task then (0, k) else (1, clear_box pid (end_task pid k))
      else (0, k)
    else (0, k)
