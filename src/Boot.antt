-- ===== src/Boot.antt =====
-- `main_entry` of kernel/init.c, over the models of the parts that it starts. The addresses that the
-- linker gives are parameters; the bytes of the BSS are the zeros of the state that it starts from.
pub mod Counted
mod Tests
use mx_os.Prelude.{ℕ, Option, none, some, List}
use mx_os.Exec.{exec_seed_programs}
use mx_os.Fs.{Disk, Fs, fs_init}
use mx_os.Gdt.{Segments, gdt_init}
use mx_os.Idt.{IdtEntry, install_gates}
use mx_os.Lifecycle.{create_task, create_user_task}
use mx_os.Mem.{heap_init}
use mx_os.Paging.{Layout, paging_init}
use mx_os.Pit.{pit_init}
use mx_os.Sched.{init_multitasking}
use mx_os.Shell.{Shell}
use mx_os.Shell.Start.{shell_init}
use mx_os.Task.{Kernel}

-- The addresses of the tables, of the handlers, of the tasks' code and names, and of the demo's stack.
pub record Symbols : Type 0 where
  pub tss : ℕ
  pub boot_stack : ℕ
  pub isr : ℕ → ℕ
  pub timer_handler : ℕ
  pub keyboard_handler : ℕ
  pub syscall_handler : ℕ
  pub task_exit : ℕ
  pub task_clock : ℕ
  pub user_task_demo : ℕ
  pub user_demo_stack_top : ℕ
  pub user_demo_stack_size : ℕ
  pub shell_name : ℕ
  pub clock_name : ℕ
  pub demo_name : ℕ

-- The two programs that are part of the kernel's image.
pub record Embedded : Type 0 where
  pub hello_at : ℕ → ℕ
  pub hello_size : ℕ
  pub echo_at : ℕ → ℕ
  pub echo_size : ℕ

pub record Computer (D : Type 0) : Type 0 where
  pub segments : Segments
  pub idt : List IdtEntry
  pub kernel : Kernel
  pub fs : Fs D
  pub shell : Shell

-- From `paging_init` to the creation of the two tasks, neither of which must succeed.
pub start_kernel : Layout → Symbols → Kernel → Kernel
start_kernel l y k =
    let ready = record k {
      paging = paging_init l k.paging;
      heap = heap_init 0x100000 0x100000 k.heap;
    } in
    let multitasking = init_multitasking y.shell_name ready in
    let clock = create_task y.task_exit y.task_clock y.clock_name multitasking in
    (create_user_task l y.user_task_demo y.demo_name y.user_demo_stack_top y.user_demo_stack_size
      clock.1).1

-- `main_entry` up to its loop.
pub main_entry : {D : Type 0} → Disk D → Layout → Symbols → Embedded → Computer D → Computer D
main_entry dev l y e c =
    let fs =
      exec_seed_programs dev e.hello_at e.hello_size e.echo_at e.echo_size (fs_init dev c.fs) in
    let shell = shell_init dev c.shell fs in
    record {
      segments = gdt_init y.tss y.boot_stack c.segments;
      idt = install_gates y.isr y.timer_handler y.keyboard_handler y.syscall_handler c.idt;
      kernel = start_kernel l y (record c.kernel { pit = (pit_init 100).0 });
      fs = shell.1.1;
      shell = shell.1.0;
    }
