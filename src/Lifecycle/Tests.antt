-- ===== src/Lifecycle/Tests.antt =====
-- Creating and ending tasks at a concrete table.
use mx_os.Prelude.{◌≡◌, refl, true, false, some, [], ◌∷◌, arith, replicate}
use mx_os.Paging.{Layout}
use mx_os.Task.{task_at, no_task, Kernel}
use mx_os.Task.Table.{count_active}
use mx_os.Lifecycle.{
  start_task, user_frame, UserTask, create_task, create_user_task_argv, task_exit_current,
  task_kill,
}
use mx_os.Lifecycle.Count.{IsCounted, lifecycle-IsCounted}
use mx_os.Lifecycle.Frame.{pops, start_task-user_frame}

abbrev pub layout : Layout
layout = record {
  text_start = 0x1000;
  ro_end = 0x11000;
  page_directory = 0x20000;
  first_page_table = 0x21000;
  task_directories = 0x22000;
  task_tables = 0x28000;
}

-- Tasks 0 and 1 are active, 0 runs.
abbrev pub machine : Kernel
machine = record {
  tasks =
      record no_task { active = true } ∷ record no_task { active = true } ∷ replicate 14 no_task;
  current_task = 0;
  multitasking_enabled = true;
  task_count = 2;
  pit = record { ticks = 4; frequency = 100 };
  heap = record {
    heap_start = 0x100000;
    cells = λ a. record { size = 0x10000; next = 0; is_free = true };
  };
  paging = record {
    page_directory = [];
    first_page_table = [];
    spaces = [];
    task_dir_used = replicate 6 false;
    cr3 = 0x20000;
    enabled = true;
  };
  esp0 = 0;
  ram = λ a. 0;
}

machine-IsCounted : IsCounted machine
unfolding count_active
machine-IsCounted = record { sixteen = refl; here = omega arith; counted = refl }

abbrev program : UserTask
program = record {
  entry = 0x300000;
  name = 0x5000;
  user_stack_top = 0x51000;
  user_stack_size = 0x1000;
  code_base = 0x300000;
  code_size = 0x20000;
  init_ebx = 2;
  init_ecx = 0x50000;
}

lifecycle-IsCounted_example :
    IsCounted (create_task 0x7000 0x8000 0x5000 machine).1
    × IsCounted (create_user_task_argv layout program machine).1
    × IsCounted (task_exit_current machine)
    × IsCounted (task_kill 1 machine).1
lifecycle-IsCounted_example =
    lifecycle-IsCounted layout program 0x7000 0x8000 0x5000 1 machine machine-IsCounted

start_task-user_frame_example :
    let after =
      start_task 2 0x100018 (user_frame 0x51000 0x300000 2 0x50000) 0x5000 (some 0) machine in
    pops 13 (task_at after.tasks 2).esp after.ram
    ≡ 0 ∷ 0 ∷ 0 ∷ 0 ∷ 2 ∷ 0 ∷ 0x50000 ∷ 0 ∷ 0x300000 ∷ 0x1B ∷ 0x202 ∷ 0x51000 ∷ 0x23 ∷ []
start_task-user_frame_example =
    start_task-user_frame 2 0x100018 0x5000 0x300000 0x51000 2 0x50000 (some 0) machine
      (omega arith)
