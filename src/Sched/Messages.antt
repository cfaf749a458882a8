-- ===== src/Sched/Messages.antt =====
-- `ipc_send` and `ipc_recv` of kernel/sched.c, on the queues of all tasks.
use mx_os.Prelude.{
  ℕ, ◌<◌, ◌≡◌, refl, ◌∙◌, ap, Bool, true, false, Option, List, arith, length, set, get_or-set,
  lt→ltb, ◌==◌, if◌then◌else◌,
}
use mx_os.Prelude.Int.{ℤ, pos}
use mx_os.Ipc.{Message, Mailbox, post}
use mx_os.Ipc.Fifo
use mx_os.Ipc.Refine.{IsMailbox, contents, post_refines, fetch_refines}
use mx_os.Task.{Task, task_at, no_task, Kernel, self}
use mx_os.Sched.{ipc_send, ipc_recv}

-- The messages that wait for task `c`.
abbrev pub waiting : Kernel → ℕ → List Message
waiting k c = contents (task_at k.tasks c).box

-- The queues after the mailbox of task `i` is replaced.
waiting-put :
    (k : Kernel) (i c : ℕ) (b : Mailbox)
    → i < length k.tasks
    → contents (task_at (set k.tasks i (record (task_at k.tasks i) { box = b })) c).box
      ≡ (if c == i then contents b else waiting k c)
waiting-put k i c b h =
    ap (λ (t : Task). contents t.box)
      (get_or-set k.tasks i c (record (task_at k.tasks i) { box = b }) no_task h)
    ∙ pick (c == i)
  where
    pick :
        (e : Bool)
        → contents (if e then record (task_at k.tasks i) { box = b } else task_at k.tasks c).box
          ≡ (if e then contents b else waiting k c)
    pick true = refl
    pick false = refl

ipc_send-active :
    (pid : ℕ) (data_at : ℕ → ℕ) (len : ℕ) (k : Kernel)
    → pid < 16
    → (task_at k.tasks pid).active ≡ true
    → ipc_send pid data_at len k ≡ (
      pos (post (task_at k.tasks pid).box data_at len k.current_task).0,
      record k {
        tasks = set k.tasks pid (record (task_at k.tasks pid) {
          box = (post (task_at k.tasks pid).box data_at len k.current_task).1;
        });
      },
    )
unfolding ipc_send
ipc_send-active pid data_at len k h on = rw (lt→ltb pid 16 h, on) refl

-- A message to an active task is answered as that task's queue answers, reaches that queue, and no
-- other.
pub ipc_send_refines :
    (pid : ℕ) (data_at : ℕ → ℕ) (len c : ℕ) (k : Kernel)
    → length k.tasks ≡ 16
    → pid < 16
    → (task_at k.tasks pid).active ≡ true
    → IsMailbox (task_at k.tasks pid).box
    → let sent = Fifo.send (waiting k pid) (Fifo.message data_at len k.current_task) in
      ((ipc_send pid data_at len k).0 ≡ pos sent.0)
      × (waiting (ipc_send pid data_at len k).1 c ≡ (if c == pid then sent.1 else waiting k c))
ipc_send_refines pid data_at len c k size h on v =
    let both = post_refines (task_at k.tasks pid).box data_at len k.current_task v in
    (
      ap (λ r. r.0) (ipc_send-active pid data_at len k h on) ∙ ap (λ r. pos r.0) both,
      ap (λ (r : ℤ × Kernel). waiting r.1 c) (ipc_send-active pid data_at len k h on)
          ∙ waiting-put k pid c _ (omega (arith, size))
          ∙ ap (λ (r : ℕ × List Message). if c == pid then r.1 else waiting k c) both,
    )

-- A receive takes the oldest message of the current task's queue, and leaves the other queues.
pub ipc_recv_refines :
    (c : ℕ) (k : Kernel)
    → k.current_task < length k.tasks
    → let got = Fifo.receive (waiting k k.current_task) in
      ((ipc_recv k).0 ≡ got.0)
      × (waiting (ipc_recv k).1 c ≡ (if c == k.current_task then got.1 else waiting k c))
unfolding ipc_recv
ipc_recv_refines c k h =
    let both = fetch_refines (self k).box in
    (
      ap (λ (r : Option Message × List Message). r.0) both,
      waiting-put k k.current_task c _ h
          ∙ ap
              (λ (r : Option Message × List Message).
                if c == k.current_task then r.1 else waiting k c)
              both,
    )
