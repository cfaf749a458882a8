-- ===== src/Syscall.antt =====
-- `syscall_dispatch` of kernel/syscall.c. Memory gives the byte at each address; the registers that
-- `pushal` leaves on the stack are a record, changed in place. `current_esp` is their address.
pub mod Deliver
pub mod Tests
use mx_os.Prelude.{
  ℕ, zero, suc, ◌+◌, ◌-◌, ◌*◌, ◌^◌, Option, none, some, List, [], ◌∷◌, length, ◌==◌, if◌then◌else◌,
  u32,
}
use mx_os.Prelude.Int.{ℤ, pos, negsuc}
use mx_os.Elf.{write32}
use mx_os.Exec.{put_bytes}
use mx_os.Ipc.{Message}
use mx_os.Lifecycle.{task_exit_and_reschedule}
use mx_os.Paging.{Layout}
use mx_os.Sched.{task_sleep_and_reschedule, ipc_send, ipc_recv}
use mx_os.Screen.{Screen, kprint}
use mx_os.Task.{Kernel}

abbrev pub sys_print : ℕ
sys_print = 1

abbrev pub sys_exit : ℕ
sys_exit = 2

abbrev pub sys_sleep : ℕ
sys_sleep = 3

abbrev pub sys_send : ℕ
sys_send = 4

abbrev pub sys_recv : ℕ
sys_recv = 5

pub record Registers : Type 0 where
  pub edi : ℕ
  pub esi : ℕ
  pub ebp : ℕ
  pub esp_dummy : ℕ
  pub ebx : ℕ
  pub edx : ℕ
  pub ecx : ℕ
  pub eax : ℕ

pub record System : Type 0 where
  pub kernel : Kernel
  pub memory : ℕ → ℕ
  pub screen : Screen

-- `(uint32_t)` of an `int`.
unfoldable pub to_u32 : ℤ → ℕ
to_u32 (pos n) = u32 n
to_u32 (negsuc n) = 2 ^ 32 - 1 - u32 n

-- The bytes from address `p` to the first that is 0, and no more than `n` of them.
unfoldable pub string_at : ℕ → ℕ → (ℕ → ℕ) → List ℕ
string_at zero p mem = []
string_at (suc n) p mem =
    let rest = string_at n (p + 1) mem in if mem (u32 p) == 0 then [] else mem (u32 p) ∷ rest

-- What SYS_RECV writes through its three pointers.
pub hand_over : Message → Registers → (ℕ → ℕ) → ℕ → ℕ
hand_over msg regs mem =
    let out = put_bytes msg.bytes regs.ebx mem in
    let with_len = if regs.ecx == 0 then out else write32 out regs.ecx (length msg.bytes) in
    if regs.edx == 0 then with_len else write32 with_len regs.edx (to_u32 msg.sender)

pub receive_call : Registers → System → Registers × System
receive_call regs s =
    let got = ipc_recv s.kernel in
    elim got.0 [
      | none ↦ (record regs { eax = 0 }, record s { kernel = got.1 })
      | some msg ↦ (
        record regs { eax = 1 },
        record s { kernel = got.1; memory = hand_over msg regs s.memory },
      )
    ]

-- With a negative target, the bit pattern in EBX is out of range as well. The result is the ESP to
-- load, `none` where no task is left to run.
unfoldable pub syscall_dispatch : Layout → ℕ → Registers → System → Option ℕ × (Registers × System)
syscall_dispatch l current_esp regs s =
    let exit = task_exit_and_reschedule l current_esp s.kernel in
    let sleep = task_sleep_and_reschedule l regs.ebx current_esp s.kernel in
    let sent = ipc_send regs.ebx (λ i. s.memory (u32 (regs.ecx + i))) regs.edx s.kernel in
    if regs.eax == sys_print
    then (
      some current_esp,
      (regs, record s { screen = kprint (string_at (2 ^ 32) regs.ebx s.memory) s.screen }),
    )
    else if regs.eax == sys_exit
    then (exit.0, (regs, record s { kernel = exit.1 }))
    else if regs.eax == sys_sleep
    then (sleep.0, (regs, record s { kernel = sleep.1 }))
    else if regs.eax == sys_send
    then (some current_esp, (record regs { eax = to_u32 sent.0 }, record s { kernel = sent.1 }))
    else if regs.eax == sys_recv
    then (some current_esp, receive_call regs s)
    else (some current_esp, (regs, s))
