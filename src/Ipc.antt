-- ===== src/Ipc.antt =====
-- The mailbox of a task: the fields of `Task` in kernel/sched.h, and what `mailbox_reset`, `ipc_send`
-- and `ipc_recv` of kernel/sched.c do to them.
pub mod Fifo
pub mod Refine
use mx_os.Prelude.{
  ℕ, zero, suc, ◌+◌, ◌-◌, ◌%◌, Option, none, some, List, [], ◌∷◌, set, get_or, take, replicate, ltb,
  leb, ◌==◌, if◌then◌else◌,
}
use mx_os.Prelude.Int.{ℤ, pos, negsuc}

abbrev pub mailbox_queue_size : ℕ
mailbox_queue_size = 4

-- `sizeof(mailbox[0])`
abbrev pub message_size : ℕ
message_size = 128

pub record Mailbox : Type 0 where
  pub mailbox : List (List ℕ)
  pub mailbox_len : List ℕ
  pub mailbox_sender : List ℤ
  pub mailbox_head : ℕ
  pub mailbox_count : ℕ

-- The bytes of the messages stay as they are.
pub mailbox_reset : Mailbox → Mailbox
mailbox_reset b = record b {
  mailbox_head = 0;
  mailbox_count = 0;
  mailbox_len = replicate mailbox_queue_size 0;
  mailbox_sender = replicate mailbox_queue_size (negsuc 0);
}

-- `for (k = i; k < i + n; k++) dst[k] = src[k]`
pub copy_bytes : ℕ → ℕ → (ℕ → ℕ) → List ℕ → List ℕ
copy_bytes zero k src dst = dst
copy_bytes (suc n) k src dst = copy_bytes n (k + 1) src (set dst k (src k))

-- The slot that the next message goes to.
pub tail_slot : Mailbox → ℕ
tail_slot b = (b.mailbox_head + b.mailbox_count) % mailbox_queue_size

-- `if (len > sizeof(mailbox[0])) len = sizeof(mailbox[0])`
pub clip : ℕ → ℕ
clip len = if ltb message_size len then message_size else len

-- The part of `ipc_send` behind its guard on the target. `data` gives the byte at each offset from
-- the sender's pointer. The result is 1, or 0 for a full queue.
pub post : Mailbox → (ℕ → ℕ) → ℕ → ℕ → ℕ × Mailbox
post b data_at len sender =
    let slot = tail_slot b in
    if leb mailbox_queue_size b.mailbox_count then (0, b) else (
      1,
      record b {
        mailbox = set b.mailbox slot (copy_bytes (clip len) 0 data_at (get_or b.mailbox slot []));
        mailbox_len = set b.mailbox_len slot (clip len);
        mailbox_sender = set b.mailbox_sender slot (pos sender);
        mailbox_count = b.mailbox_count + 1;
      },
    )

-- What `ipc_recv` hands over: the bytes written to `out`, whose number is `*out_len`, and the sender.
pub record Message : Type 0 where
  pub bytes : List ℕ
  pub sender : ℤ

-- `ipc_recv` on the caller's mailbox; `none` is the result 0.
pub fetch : Mailbox → Option Message × Mailbox
fetch b =
    let slot = b.mailbox_head in
    if b.mailbox_count == 0 then (none, b) else (
      some (record {
        bytes = take (get_or b.mailbox_len slot 0) (get_or b.mailbox slot []);
        sender = get_or b.mailbox_sender slot (negsuc 0);
      }),
      record b {
        mailbox_head = (slot + 1) % mailbox_queue_size;
        mailbox_count = b.mailbox_count - 1;
      },
    )
