-- ===== src/User/Send.antt =====
-- What the programs of userprogs and the task of kernel/usermode.c send to the Shell, and what
-- `shell_poll_ipc` of kernel/shell.c then prints.
use mx_os.Prelude.{
  ℕ, zero, suc, ◌+◌, ◌≤◌, ◌<◌, ◌≡◌, refl, ◌∙◌, sym, ap, true, false, inl, inr, some, List, [], ◌∷◌,
  arith, length, length-set, get_or, get_or-default, ltb, ◌==◌, u32, Bool-cases, if◌then◌else◌,
}
use mx_os.Prelude.Int.{pos}
use mx_os.Ipc.{Message}
use mx_os.Ipc.Fifo
use mx_os.Ipc.Refine.{IsMailbox}
use mx_os.Paging.{Layout}
use mx_os.Screen.Text.{IsText}
use mx_os.Sched.{ipc_recv, ipc_send}
use mx_os.Sched.Messages.{waiting}
use mx_os.Shell.Run.{string_from}
use mx_os.Shell.Start.{shell_poll_ipc}
use mx_os.Syscall.{Registers, System, to_u32, syscall_dispatch}
use mx_os.Syscall.Deliver.{
  dispatch-send, ipc_send-alone, ipc_recv-alone, get_or-bytes_from, length-bytes_from,
}
use mx_os.Task.{task_at, Kernel}
use mx_os.User.Libc.{sys_send}

string_from-text :
    (text : List ℕ) (n i : ℕ) (buf : ℕ → ℕ)
    → length text ≤ n
    → IsText text
    → ((j : ℕ) → j < length text → buf (i + j) ≡ get_or text j 0)
    → buf (i + length text) ≡ 0
    → string_from n i buf ≡ text
unfolding string_from IsText
string_from-text [] zero i buf fits plain bytes end = refl
string_from-text [] (suc n) i buf fits plain bytes end =
    let at : i + 0 ≡ i = omega arith in let stop : buf i ≡ 0 = ap buf (sym at) ∙ end in rw stop refl
string_from-text (c ∷ text) zero i buf fits plain bytes end = absurd (omega arith)
string_from-text (c ∷ text) (suc n) i buf fits (nonzero, plain) bytes end =
    let at : i + 0 ≡ i = omega arith in
    let first : buf i ≡ c = ap buf (sym at) ∙ bytes 0 (omega arith) in
    let other : (c == 0) ≡ false = ground arith in
    let next : i + 1 + length text ≡ i + suc (length text) = omega arith in
    let rest =
      string_from-text text n (i + 1) buf (omega arith) plain
        (λ j below. ap buf (omega arith) ∙ bytes (suc j) (omega arith)) (ap buf next ∙ end) in
    rw (first, other) (ap (λ t. c ∷ t) rest)

module _ (k : Kernel) (msg : Message) (got : (ipc_recv k).0 ≡ some msg) where
  -- The Shell prints a text of at most 127 characters, whether its terminator was sent or not.
  shell_poll_ipc-text :
      (text : List ℕ)
      → IsText text
      → length text ≤ 127
      → length text ≤ length msg.bytes
      → ((j : ℕ) → get_or msg.bytes j 0 ≡ get_or text j 0)
      → (shell_poll_ipc k).0 ≡ some (msg.sender, text)
  unfolding shell_poll_ipc
  shell_poll_ipc-text text plain short fits bytes =
      let limit : ℕ = if ltb 127 (length msg.bytes) then 127 else length msg.bytes in
      let enough : length text ≤ limit = ground arith in
      rw (got, shell_poll_ipc)
        (ap (λ (t : List ℕ). some (msg.sender, t))
          (string_from-text text limit 0 (λ i. get_or msg.bytes i 0) enough plain
            (λ j below. bytes (0 + j) ∙ ap (λ n. get_or text n 0) (omega arith))
            (bytes (0 + length text) ∙ get_or-default text (0 + length text) 0 (omega arith))))

ipc_send-length :
    (pid : ℕ) (data_at : ℕ → ℕ) (len : ℕ) (k : Kernel)
    → length (ipc_send pid data_at len k).1.tasks ≡ length k.tasks
unfolding ipc_send
ipc_send-length pid data_at len k = elim (Bool-cases (ltb pid 16)) [
  | inr out ↦ rw out refl
  | inl inside ↦ elim (Bool-cases (task_at k.tasks pid).active) [
    | inl on ↦ rw (inside, on) (length-set k.tasks pid _)
    | inr off ↦ rw (inside, off) refl
  ]
]

module _ (l : Layout) (esp : ℕ) (regs : Registers) where
  pub sys_send-length :
      (pid msg len : ℕ) (s : System)
      → length (sys_send l esp regs pid msg len s).1.1.kernel.tasks ≡ length s.kernel.tasks
  unfolding sys_send syscall_dispatch
  sys_send-length pid msg len s = ipc_send-length pid (λ i. s.memory (u32 (msg + i))) len s.kernel

  pub sys_send-sent :
      (msg len : ℕ) (s : System)
      → len ≤ 128
      → length s.kernel.tasks ≡ 16
      → (task_at s.kernel.tasks 0).active ≡ true
      → IsMailbox (task_at s.kernel.tasks 0).box
      → waiting s.kernel 0 ≡ []
      → (sys_send l esp regs 0 msg len s).1.0.eax ≡ 1
  unfolding sys_send
  sys_send-sent msg len s below sixteen active box empty =
      let call = record regs { eax = 4; ebx = 0; ecx = msg; edx = len } in
      let data_at : ℕ → ℕ = λ i. s.memory (u32 (msg + i)) in
      let sent =
        ipc_send-alone 0 data_at len s.kernel sixteen (omega arith) active box empty below in
      ap (λ r. r.1.0.eax) (dispatch-send l esp call s refl)
      ∙ ap to_u32 sent.0
      ∙ unfold to_u32 in omega arith

  -- A text, with or without its terminator, goes to the Shell, whose queue is empty, and the Shell
  -- takes it.
  pub sys_send-shown :
      (msg len : ℕ) (text : List ℕ) (s : System) (k : Kernel)
      → IsText text
      → length text ≤ 127
      → length text ≤ len
      → len ≤ 128
      → ((j : ℕ) → j < len → s.memory (u32 (msg + j)) ≡ get_or text j 0)
      → length s.kernel.tasks ≡ 16
      → (task_at s.kernel.tasks 0).active ≡ true
      → IsMailbox (task_at s.kernel.tasks 0).box
      → waiting s.kernel 0 ≡ []
      → k.current_task ≡ 0
      → length k.tasks ≡ 16
      → waiting k 0 ≡ waiting (sys_send l esp regs 0 msg len s).1.1.kernel 0
      → (shell_poll_ipc k).0 ≡ some (pos s.kernel.current_task, text)
  unfolding sys_send
  sys_send-shown msg len text s k plain short fits below bytes sixteen active box empty current
        sixteen2 same =
      let call = record regs { eax = 4; ebx = 0; ecx = msg; edx = len } in
      let data_at : ℕ → ℕ = λ i. s.memory (u32 (msg + i)) in
      let bytes_sent = Fifo.bytes_from len 0 data_at in
      let m : Message = record { bytes = bytes_sent; sender = pos s.kernel.current_task } in
      let step = dispatch-send l esp call s refl in
      let sent =
        ipc_send-alone 0 data_at len s.kernel sixteen (omega arith) active box empty below in
      let many : length bytes_sent ≡ len = length-bytes_from len 0 data_at in
      let queue : waiting k 0 ≡ m ∷ [] = same ∙ ap (λ r. waiting r.1.1.kernel 0) step ∙ sent.1 in
      let got = ipc_recv-alone 0 m k sixteen2 (omega arith) current queue in
      let byte : (j : ℕ) → get_or bytes_sent j 0 ≡ get_or text j 0 = λ j.
        elim (Bool-cases (ltb j len)) [
          | inl inside ↦
              get_or-bytes_from len 0 j data_at (ground arith)
              ∙ ap data_at (omega arith)
              ∙ bytes j (ground arith)
          | inr outside ↦
              let past : len ≤ j = ground arith in
              get_or-default bytes_sent j 0 (omega (arith, many))
              ∙ sym (get_or-default text j 0 (omega arith))
        ] in
      shell_poll_ipc-text k m got text plain short (omega (arith, many)) byte
