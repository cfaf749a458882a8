-- ===== src/Boot/Tests.antt =====
-- The start of kernel/init.c from a concrete state.
use mx_os.Prelude.{refl, ◌+◌}
use mx_os.Lifecycle.Count.{IsCounted}
use mx_os.Lifecycle.Tests.{machine, layout}
use mx_os.Boot.{Symbols, start_kernel}
use mx_os.Boot.Counted.{start_kernel-IsCounted}

abbrev symbols : Symbols
symbols = record {
  tss = 0x30000;
  boot_stack = 0x90000;
  isr = λ n. 0x10000 + n;
  timer_handler = 0x11000;
  keyboard_handler = 0x12000;
  syscall_handler = 0x13000;
  task_exit = 0x14000;
  task_clock = 0x15000;
  user_task_demo = 0x16000;
  user_demo_stack_top = 0x41000;
  user_demo_stack_size = 0x1000;
  shell_name = 0x5000;
  clock_name = 0x5010;
  demo_name = 0x5020;
}

start_kernel-IsCounted_example : IsCounted (start_kernel layout symbols machine)
start_kernel-IsCounted_example = start_kernel-IsCounted layout symbols machine refl
