-- ===== src/Task.antt =====
-- The task table of kernel/sched.c, and the state of the kernel that its operations share: the timer,
-- the heap, the address spaces, `tss.esp0` of kernel/gdt.c, and the words of memory that hold stacks.
pub mod Table
use mx_os.Prelude.{ℕ, Bool, false, Option, none, List, [], set, get_or, ltb, if◌then◌else◌, ◌-◌}
use mx_os.Prelude.Int.{ℤ, pos}
use mx_os.Ipc.{Mailbox}
use mx_os.Mem.{Heap}
use mx_os.Paging.{Paging}
use mx_os.Pit.{Pit}

abbrev pub max_tasks : ℕ
max_tasks = 16

abbrev pub task_stack_size : ℕ
task_stack_size = 4096

-- `Task` of kernel/sched.h. `addr_space` is `none` for -1; `name` is a pointer.
pub record Task : Type 0 where
  pub esp : ℕ
  pub stack_base : ℕ
  pub active : Bool
  pub name : ℕ
  pub sleeping : Bool
  pub wake_tick : ℕ
  pub addr_space : Option ℕ
  pub box : Mailbox
  pub priority : ℤ

-- What a read out of the table gives; the code makes none.
abbrev pub no_task : Task
no_task = record {
  esp = 0;
  stack_base = 0;
  active = false;
  name = 0;
  sleeping = false;
  wake_tick = 0;
  addr_space = none;
  box = record {
    mailbox = [];
    mailbox_len = [];
    mailbox_sender = [];
    mailbox_head = 0;
    mailbox_count = 0;
  };
  priority = pos 0;
}

-- `tasks[i]`
abbrev pub task_at : List Task → ℕ → Task
task_at ts i = get_or ts i no_task

pub record Kernel : Type 0 where
  pub tasks : List Task
  pub current_task : ℕ
  pub multitasking_enabled : Bool
  pub task_count : ℕ
  pub pit : Pit
  pub heap : Heap
  pub paging : Paging
  pub esp0 : ℕ
  pub ram : ℕ → ℕ

-- `tasks[current_task]`
abbrev pub self : Kernel → Task
self k = task_at k.tasks k.current_task

-- Writes one entry of the table.
abbrev pub put_task : Kernel → ℕ → Task → Kernel
put_task k i t = record k { tasks = set k.tasks i t }

-- `if (task_count > 0) task_count--`
abbrev pub drop_one : ℕ → ℕ
drop_one n = if ltb 0 n then n - 1 else n
