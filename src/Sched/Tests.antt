-- ===== src/Sched/Tests.antt =====
-- The scheduler of kernel/sched.c at concrete tables.
use mx_os.Prelude.{
  ℕ, ◌%◌, ◌∙◌, zero, suc, ◌+◌, ◌==◌, if◌then◌else◌, ◌<◌, ◌≡◌, refl, true, false, ◌⊎◌, some, List,
  [], ◌∷◌, arith, replicate, get_or-replicate,
}
use mx_os.Prelude.Int.{pos, negsuc, ◌<ℤ◌, ◌≤ℤ◌}
use mx_os.Ipc.{Mailbox}
use mx_os.Ipc.Fifo
use mx_os.Ipc.Refine.{IsMailbox, contents}
use mx_os.Paging.{Layout}
use mx_os.Pit.{timer_tick}
use mx_os.Task.{Task, task_at, no_task, Kernel}
use mx_os.Sched.{
  compare_priority, elect, fallback, find_next_task, ipc_recv, ipc_send, look_at, run_elected, scan,
  schedule, switch_to,
}
use mx_os.Sched.Fair.{IsFavoured, schedule-IsFavoured}
use mx_os.Sched.Messages.{waiting, ipc_send_refines, ipc_recv_refines}
use mx_os.Sched.Round.{is_ready}
use mx_os.Sched.Winner.{FirstActive, Wins, find_next_task-Wins, find_next_task-negative}
use mx_os.Sched.Switch.{IsTable, Outcome, schedule-Switched}

-- Task 1 has the higher priority, and sleeps until tick 5.
abbrev two : List Task
two =
    record no_task { active = true; priority = pos 1 }
    ∷ record no_task { active = true; sleeping = true; wake_tick = 5; priority = pos 2 }
    ∷ replicate 14 no_task

-- The one active task has priority -1.
abbrev below : List Task
below = record no_task { active = true; priority = negsuc 0 } ∷ replicate 15 no_task

below_low :
    (c : ℕ) → c < 16 → is_ready 9 (task_at below c) ≡ true → (task_at below c).priority <ℤ pos 0
below_low zero h run = omega arith
below_low (suc c) h run = cc (rw (get_or-replicate 15 c no_task) at run)

find_next_task-Wins_example :
    (m : ℕ) × ((find_next_task 5 0 two).1 ≡ some m) × Wins 5 0 two (omega arith) refl m
find_next_task-Wins_example =
    find_next_task-Wins 5 0 two (omega arith) refl 1 (omega arith) refl (omega arith)

find_next_task-negative_example : FirstActive below (find_next_task 9 0 below).1
find_next_task-negative_example = find_next_task-negative 9 0 below (omega arith) refl below_low

abbrev pub layout : Layout
layout = record {
  text_start = 0x1000;
  ro_end = 0x11000;
  page_directory = 0x20000;
  first_page_table = 0x21000;
  task_directories = 0x22000;
  task_tables = 0x28000;
}

abbrev machine : Kernel
machine = record {
  tasks = two;
  current_task = 0;
  multitasking_enabled = true;
  task_count = 2;
  pit = record { ticks = 4; frequency = 100 };
  heap = record { heap_start = 0; cells = λ a. record { size = 0; next = 0; is_free = false } };
  paging = record {
    page_directory = [];
    first_page_table = [];
    spaces = [];
    task_dir_used = replicate 6 false;
    cr3 = 0x20000;
    enabled = true;
  };
  esp0 = 0;
  ram = λ a. 0;
}

machine-IsTable : IsTable machine
machine-IsTable = record { sixteen = refl; here = omega arith }

schedule-Switched_example :
    ((machine.multitasking_enabled ≡ false)
      × (schedule layout 0x9000 machine
          ≡ (some 0x9000, record machine { pit = timer_tick machine.pit })))
    ⊎ ((machine.multitasking_enabled ≡ true)
        × Outcome layout 0x9000 machine (schedule layout 0x9000 machine))
schedule-Switched_example = schedule-Switched layout 0x9000 machine machine-IsTable

abbrev pub empty_box : Mailbox
empty_box = record {
  mailbox = replicate 4 (replicate 128 0);
  mailbox_len = replicate 4 0;
  mailbox_sender = replicate 4 (negsuc 0);
  mailbox_head = 0;
  mailbox_count = 0;
}

pub empty_box-IsMailbox : IsMailbox empty_box
empty_box-IsMailbox = record {
  four = refl;
  lens = refl;
  senders = refl;
  full = (refl, (refl, (refl, (refl, tt))));
  head_in = omega arith;
  count_in = omega arith;
}

-- Sixteen active tasks with empty mailboxes.
abbrev pub boxes : Kernel
boxes = record machine { tasks = replicate 16 (record no_task { active = true; box = empty_box }) }

pub boxes-empty : waiting boxes 3 ≡ []
unfolding contents
boxes-empty = refl

ipc_send_refines_example :
    let sent = Fifo.send (waiting boxes 3) (Fifo.message (λ i. i + 1) 5 0) in
    ((ipc_send 3 (λ i. i + 1) 5 boxes).0 ≡ pos sent.0)
    × (waiting (ipc_send 3 (λ i. i + 1) 5 boxes).1 3 ≡ (if 3 == 3 then sent.1 else waiting boxes 3))
ipc_send_refines_example =
    ipc_send_refines 3 (λ i. i + 1) 5 3 boxes refl (omega arith) refl empty_box-IsMailbox

ipc_recv_refines_example :
    let got = Fifo.receive (waiting boxes 0) in
    ((ipc_recv boxes).0 ≡ got.0)
    × (waiting (ipc_recv boxes).1 0 ≡ (if 0 == 0 then got.1 else waiting boxes 0))
ipc_recv_refines_example = ipc_recv_refines 0 boxes (omega arith)

-- Tasks 0 and 1 can run, with the same priority, and take turns.
abbrev equals : List Task
equals = record no_task { active = true } ∷ record no_task { active = true } ∷ replicate 14 no_task

abbrev in_turn : ℕ → Kernel
in_turn c = record machine { tasks = equals; current_task = c }

equal_priority : (c : ℕ) → (task_at equals c).priority ≤ℤ pos 0
equal_priority zero = omega arith
equal_priority (suc zero) = omega arith
equal_priority (suc (suc c)) = rw (get_or-replicate 14 c no_task) (omega arith)

turn : (c : ℕ) → c < 2 → IsFavoured 1 (in_turn c)
unfolding timer_tick
turn c below = record {
  table = record { sixteen = refl; here = omega arith };
  on = refl;
  in_table = omega arith;
  ready = refl;
  up = omega arith;
  most = λ d inside ready. equal_priority d;
}

next_turn : (c : ℕ) → c < 2 → (c + 1) % 2 ≡ (schedule layout 0x9000 (in_turn c)).1.current_task
unfolding schedule elect run_elected find_next_task fallback scan look_at timer_tick
    compare_priority switch_to
next_turn zero below = refl
next_turn (suc zero) below = refl
next_turn (suc (suc c)) below = absurd (omega arith)

schedule-IsFavoured_example : (d : ℕ) × (d < 16) × ((in_turn ((d + 1) % 2)).current_task ≡ 1)
schedule-IsFavoured_example =
    schedule-IsFavoured layout 1 (λ d. 0x9000) (λ d. in_turn (d % 2))
      (λ d below. turn (d % 2) (omega arith))
      (λ d below.
        let at : (d + 1) % 2 ≡ (d % 2 + 1) % 2 = omega arith in
        at ∙ next_turn (d % 2) (omega arith))
