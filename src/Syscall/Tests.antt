-- ===== src/Syscall/Tests.antt =====
-- The system calls of kernel/syscall.c: task 0 sends five bytes to task 3.
use mx_os.Prelude.{ℕ, ◌+◌, ◌<◌, ◌≡◌, refl, some, arith, length, u32, inl}
use mx_os.Sched.{ipc_send}
use mx_os.Sched.Tests.{layout, boxes, boxes-empty, empty_box-IsMailbox}
use mx_os.Syscall.{Registers, System, syscall_dispatch}
use mx_os.Syscall.Deliver.{send-recv}

abbrev pub sender : System
sender = record {
  kernel = boxes;
  memory = λ a. a;
  screen = record { cursor_x = 0; cursor_y = 0; current_color = 15; vidmem = λ i. 0 };
}

abbrev pub send_regs : Registers
send_regs = record {
  edi = 0;
  esi = 0;
  ebp = 0;
  esp_dummy = 0;
  ebx = 3;
  edx = 5;
  ecx = 0x51000;
  eax = 4;
}

abbrev recv_regs : Registers
recv_regs = record send_regs { ebx = 0x61000; edx = 0x61104; ecx = 0x61100; eax = 5 }

-- Task 3 runs, in its own memory.
abbrev receiver : System
receiver =
    let after = (syscall_dispatch layout 0x9000 send_regs sender).1.1 in
    record after { kernel = record after.kernel { current_task = 3 }; memory = λ a. 0 }

receiver-sixteen : length receiver.kernel.tasks ≡ 16
unfolding syscall_dispatch ipc_send
receiver-sixteen = refl

send-recv_example :
    let sent = syscall_dispatch layout 0x9000 send_regs sender in
    let got = syscall_dispatch layout 0x9100 recv_regs receiver in
    (sent.0 ≡ some 0x9000)
    × (sent.1.0.eax ≡ 1)
    × (got.0 ≡ some 0x9100)
    × (got.1.0.eax ≡ 1)
    × ((i : ℕ) → i < 5 → got.1.1.memory (0x61000 + i) ≡ u32 (0x51000 + i))
send-recv_example =
    send-recv layout 0x9000 0x9100 send_regs recv_regs sender receiver refl refl refl (omega arith)
      refl empty_box-IsMailbox boxes-empty (omega arith) receiver-sixteen refl refl (omega arith)
      (λ i below. (inl (omega arith), inl (omega arith)))
