-- ===== src/Syscall/Deliver.antt =====
-- A message from one task to another through SYS_SEND and SYS_RECV of kernel/syscall.c.
use mx_os.Prelude.{
  ℕ, zero, suc, ◌+◌, ◌^◌, ◌≤◌, ◌<◌, ◌≡◌, refl, ◌∙◌, ap, Bool, true, false, some, List, [], ◌∷◌,
  arith, length, get_or, ltb, ◌==◌, if◌then◌else◌, u32, update,
}
use mx_os.Prelude.Int.{pos}
use mx_os.Elf.{write32}
use mx_os.Elf.Bytes.{Outside, write32-Outside}
use mx_os.Exec.{put_bytes}
use mx_os.Exec.Isolated.{put_bytes-kept}
use mx_os.Ipc.{Message}
use mx_os.Ipc.Fifo
use mx_os.Ipc.Refine.{IsMailbox}
use mx_os.Paging.{Layout}
use mx_os.Sched.{ipc_send, ipc_recv}
use mx_os.Sched.Messages.{waiting, ipc_send_refines, ipc_recv_refines}
use mx_os.Task.{task_at, Kernel}
use mx_os.Syscall.{Registers, System, to_u32, hand_over, receive_call, syscall_dispatch}

pub put_bytes-at :
    (bytes : List ℕ) (x : ℕ) (mem : ℕ → ℕ) (i : ℕ)
    → x + length bytes ≤ 2 ^ 32
    → i < length bytes
    → put_bytes bytes x mem (x + i) ≡ get_or bytes i 0
unfolding put_bytes
put_bytes-at [] x mem i top h = absurd (omega arith)
put_bytes-at (b ∷ bytes) x mem zero top h =
    let at : x + 0 ≡ x = omega arith in
    let place : u32 x ≡ x = omega arith in
    let here : (x == x) ≡ true = ground arith in
    rw at (
      put_bytes-kept (x + 1) (2 ^ 32) x (omega arith) (omega arith) bytes (x + 1)
        (update mem (u32 x) b) (omega arith) (omega arith)
      ∙ rw (place, here) refl)
put_bytes-at (b ∷ bytes) x mem (suc i) top h =
    let at : x + suc i ≡ x + 1 + i = omega arith in
    rw at (put_bytes-at bytes (x + 1) (update mem (u32 x) b) i (omega arith) (omega arith))

pub length-bytes_from : (n k : ℕ) (src : ℕ → ℕ) → length (Fifo.bytes_from n k src) ≡ n
unfolding Fifo.bytes_from
length-bytes_from zero k src = refl
length-bytes_from (suc n) k src = ap suc (length-bytes_from n (k + 1) src)

pub get_or-bytes_from :
    (n k i : ℕ) (src : ℕ → ℕ) → i < n → get_or (Fifo.bytes_from n k src) i 0 ≡ src (k + i)
unfolding Fifo.bytes_from
get_or-bytes_from zero k i src h = absurd (omega arith)
get_or-bytes_from (suc n) k zero src h = ap src (omega arith)
get_or-bytes_from (suc n) k (suc i) src h =
    get_or-bytes_from n (k + 1) i src (omega arith) ∙ ap src (omega arith)

-- The bytes of the message stand at EBX, apart from the places of its length and its sender.
hand_over-bytes :
    (msg : Message) (regs : Registers) (mem : ℕ → ℕ) (i : ℕ)
    → regs.ebx + length msg.bytes ≤ 2 ^ 32
    → i < length msg.bytes
    → Outside regs.ecx (regs.ecx + 4) (regs.ebx + i)
    → Outside regs.edx (regs.edx + 4) (regs.ebx + i)
    → hand_over msg regs mem (regs.ebx + i) ≡ get_or msg.bytes i 0
unfolding hand_over
hand_over-bytes msg regs mem i top h len_apart sender_apart =
    let out = put_bytes msg.bytes regs.ebx mem in
    let with_len = if regs.ecx == 0 then out else write32 out regs.ecx (length msg.bytes) in
    unless_null (regs.edx == 0) with_len regs.edx (to_u32 msg.sender) sender_apart
    ∙ unless_null (regs.ecx == 0) out regs.ecx (length msg.bytes) len_apart
    ∙ put_bytes-at msg.bytes regs.ebx mem i top h
  where
    unless_null :
        (null : Bool) (before : ℕ → ℕ) (p v : ℕ)
        → Outside p (p + 4) (regs.ebx + i)
        → (if null then before else write32 before p v) (regs.ebx + i) ≡ before (regs.ebx + i)
    unless_null true before p v apart = refl
    unless_null false before p v apart = write32-Outside before p v (regs.ebx + i) apart

pub dispatch-send :
    (l : Layout) (esp : ℕ) (regs : Registers) (s : System)
    → regs.eax ≡ 4
    → syscall_dispatch l esp regs s ≡ (
      some esp,
      (
        record regs {
          eax = to_u32 (ipc_send regs.ebx (λ i. s.memory (u32 (regs.ecx + i))) regs.edx s.kernel).0;
        },
        record s {
          kernel = (ipc_send regs.ebx (λ i. s.memory (u32 (regs.ecx + i))) regs.edx s.kernel).1;
        },
      ),
    )
unfolding syscall_dispatch
dispatch-send l esp regs s send = rw send refl

dispatch-recv :
    (l : Layout) (esp : ℕ) (regs : Registers) (s : System)
    → regs.eax ≡ 5
    → syscall_dispatch l esp regs s ≡ (some esp, receive_call regs s)
unfolding syscall_dispatch
dispatch-recv l esp regs s recv = rw recv refl

receive_call-some :
    (regs : Registers) (s : System) (msg : Message)
    → (ipc_recv s.kernel).0 ≡ some msg
    → ((receive_call regs s).0.eax ≡ 1)
      × ((receive_call regs s).1.memory ≡ hand_over msg regs s.memory)
unfolding receive_call
receive_call-some regs s msg got = rw (got, receive_call) (refl, refl)

message-short :
    (src : ℕ → ℕ) (len sender : ℕ)
    → len ≤ 128
    → Fifo.message src len sender
      ≡ record { bytes = Fifo.bytes_from len 0 src; sender = pos sender }
unfolding Fifo.message
message-short src len sender h = let short : ltb 128 len ≡ false = ground arith in rw short refl

send-empty : (m : Message) → Fifo.send [] m ≡ (1, m ∷ [])
unfolding Fifo.send
send-empty m = refl

-- A short message to an empty queue is alone in it.
pub ipc_send-alone :
    (pid : ℕ) (data_at : ℕ → ℕ) (len : ℕ) (k : Kernel)
    → length k.tasks ≡ 16
    → pid < 16
    → (task_at k.tasks pid).active ≡ true
    → IsMailbox (task_at k.tasks pid).box
    → waiting k pid ≡ []
    → len ≤ 128
    → ((ipc_send pid data_at len k).0 ≡ pos 1)
      × (waiting (ipc_send pid data_at len k).1 pid
          ≡ record { bytes = Fifo.bytes_from len 0 data_at; sender = pos k.current_task } ∷ [])
ipc_send-alone pid data_at len k sixteen target active box empty short =
    let sent = ipc_send_refines pid data_at len pid k sixteen target active box in
    let alone : Fifo.send (waiting k pid) (Fifo.message data_at len k.current_task)
        ≡ (1, record { bytes = Fifo.bytes_from len 0 data_at; sender = pos k.current_task } ∷ []) =
      ap (λ q. Fifo.send q (Fifo.message data_at len k.current_task)) empty
      ∙ send-empty (Fifo.message data_at len k.current_task)
      ∙ ap (λ (m : Message). (1, m ∷ [])) (message-short data_at len k.current_task short) in
    let here : (pid == pid) ≡ true = ground arith in
    (sent.0 ∙ ap (λ r. pos r.0) alone, sent.1 ∙ rw here (ap (λ r. r.1) alone))

-- The current task takes the message that is alone in its queue.
pub ipc_recv-alone :
    (pid : ℕ) (m : Message) (k : Kernel)
    → length k.tasks ≡ 16
    → pid < 16
    → k.current_task ≡ pid
    → waiting k pid ≡ m ∷ []
    → (ipc_recv k).0 ≡ some m
ipc_recv-alone pid m k sixteen target current queue =
    (ipc_recv_refines pid k (omega arith)).0
    ∙ ap (λ c. (Fifo.receive (waiting k c)).0) current
    ∙ ap (λ q. (Fifo.receive q).0) queue
    ∙ unfold Fifo.receive in refl

-- A task calls SYS_SEND for at most 128 bytes to an active task whose queue is empty: EAX is 1. Later,
-- when the target runs and its queue has not changed, it calls SYS_RECV, with room for the message
-- below 2^32, apart from the four bytes at ECX and at EDX: EAX is 1, and the bytes at its EBX are those
-- that the sender had at its ECX, whatever became of the memory meanwhile. Both calls return the ESP
-- of their caller.
pub send-recv :
    (l : Layout) (esp1 esp2 : ℕ) (r1 r2 : Registers) (s1 s2 : System)
    → r1.eax ≡ 4
    → r2.eax ≡ 5
    → length s1.kernel.tasks ≡ 16
    → r1.ebx < 16
    → (task_at s1.kernel.tasks r1.ebx).active ≡ true
    → IsMailbox (task_at s1.kernel.tasks r1.ebx).box
    → waiting s1.kernel r1.ebx ≡ []
    → r1.edx ≤ 128
    → length s2.kernel.tasks ≡ 16
    → s2.kernel.current_task ≡ r1.ebx
    → waiting s2.kernel r1.ebx ≡ waiting (syscall_dispatch l esp1 r1 s1).1.1.kernel r1.ebx
    → r2.ebx + r1.edx ≤ 2 ^ 32
    → ((i : ℕ)
        → i < r1.edx
        → Outside r2.ecx (r2.ecx + 4) (r2.ebx + i) × Outside r2.edx (r2.edx + 4) (r2.ebx + i))
    → let sent = syscall_dispatch l esp1 r1 s1 in
      let got = syscall_dispatch l esp2 r2 s2 in
      (sent.0 ≡ some esp1)
      × (sent.1.0.eax ≡ 1)
      × (got.0 ≡ some esp2)
      × (got.1.0.eax ≡ 1)
      × ((i : ℕ) → i < r1.edx → got.1.1.memory (r2.ebx + i) ≡ s1.memory (u32 (r1.ecx + i)))
send-recv l esp1 esp2 r1 r2 s1 s2 send recv sixteen target active box empty short sixteen2 current
      same top apart =
    let data_at : ℕ → ℕ = λ i. s1.memory (u32 (r1.ecx + i)) in
    let msg : Message = record {
      bytes = Fifo.bytes_from r1.edx 0 data_at;
      sender = pos s1.kernel.current_task;
    } in
    let step1 = dispatch-send l esp1 r1 s1 send in
    let step2 = dispatch-recv l esp2 r2 s2 recv in
    let sent =
      ipc_send-alone r1.ebx data_at r1.edx s1.kernel sixteen target active box empty short in
    let many : length msg.bytes ≡ r1.edx = length-bytes_from r1.edx 0 data_at in
    let queue : waiting s2.kernel r1.ebx ≡ msg ∷ [] =
      same ∙ ap (λ r. waiting r.1.1.kernel r1.ebx) step1 ∙ sent.1 in
    let got : (ipc_recv s2.kernel).0 ≡ some msg =
      ipc_recv-alone r1.ebx msg s2.kernel sixteen2 target current queue in
    let called = receive_call-some r2 s2 msg got in
    (
      ap (λ r. r.0) step1,
      ap (λ r. r.1.0.eax) step1 ∙ ap to_u32 sent.0 ∙ unfold to_u32 in omega arith,
      ap (λ r. r.0) step2,
      ap (λ r. r.1.0.eax) step2 ∙ called.0,
      λ i below.
          ap (λ r. r.1.1.memory (r2.ebx + i)) step2
          ∙ ap (λ m. m (r2.ebx + i)) called.1
          ∙ hand_over-bytes msg r2 s2.memory i (omega (arith, many)) (omega (arith, many))
              (apart i below).0 (apart i below).1
          ∙ get_or-bytes_from r1.edx 0 i data_at below
          ∙ ap data_at (omega arith),
    )
