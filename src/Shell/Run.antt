-- ===== src/Shell/Run.antt =====
-- `shell_execute`, `shell_update`, `shell_poll` and the history's file of kernel/shell.c, over the
-- models of the file system, the loader and the tasks. What the commands print is left out, and so
-- are the terminators that "exec" and "write" put into `input_buffer` behind the words: no
-- character from `buffer_idx` on is read again.
pub mod Persist
pub mod Reload
pub mod Text
use mx_os.Prelude.{
  ℕ, zero, suc, ◌+◌, ◌-◌, Option, none, some, List, [], ◌∷◌, length, drop, get_or, ltb, ◌==◌,
  if◌then◌else◌, update, Bool-cases, inl, inr,
}
use mx_os.Exec.{Machine, exec_run}
use mx_os.Fs.{Disk, Fs, fs_file_exists, fs_load_file, fs_delete_file, fs_write_file}
use mx_os.Fs.Output.{fs_read_file}
use mx_os.Keyboard.{Keyboard, keyboard_read_char}
use mx_os.Lifecycle.{task_kill}
use mx_os.Paging.{Layout}
use mx_os.Sched.{task_set_priority}
use mx_os.Shell.{Shell, slot_back, max_steps, history_from_bytes, record_line, prompt, edit_key}
use mx_os.Shell.Command.{
  Command, help, clear, ver, ls, cat, rm, exec_usage, exec, ps, kill_usage, kill, priority_usage,
  priority, write_usage, write, mem, uptime, reboot, unknown, nothing, skip_spaces, parse,
}
use mx_os.Shell.Keys.{edit_key-IsShell, prompt-IsShell}
use mx_os.Shell.Line.{IsShell}

-- "history.dat"
abbrev pub history_file : List ℕ
history_file = b'h' ∷ b'i' ∷ b's' ∷ b't' ∷ b'o' ∷ b'r' ∷ b'y' ∷ b'.' ∷ b'd' ∷ b'a' ∷ b't' ∷ []

-- `if (len < sizeof(buf) - 1) buf[len++] = c`
pub add_char : ℕ → (ℕ → ℕ) × ℕ → (ℕ → ℕ) × ℕ
add_char c (buf, len) = if ltb len 2047 then (update buf len c, len + 1) else (buf, len)

pub add_line : ℕ → ℕ → (ℕ → ℕ) → (ℕ → ℕ) × ℕ → (ℕ → ℕ) × ℕ
add_line zero i row saved = saved
add_line (suc n) i row saved = add_line n (i + 1) row (add_char (row i) saved)

-- The loop of `history_save`, for the last `n` commands.
pub add_lines : ℕ → Shell → (ℕ → ℕ) × ℕ → (ℕ → ℕ) × ℕ
add_lines zero s saved = saved
add_lines (suc n) s saved =
    let slot = slot_back n s in
    add_lines n s (add_char 10 (add_line (s.history_len slot) 0 (s.history slot) saved))

-- The C string at the start of a buffer, with `n` more characters at most.
unfoldable pub string_from : ℕ → ℕ → (ℕ → ℕ) → List ℕ
string_from zero i buf = []
string_from (suc n) i buf =
    let rest = string_from n (i + 1) buf in if buf i == 0 then [] else buf i ∷ rest

module _ {D : Type 0} (dev : Disk D) where
  pub history_save : Shell → Fs D → Fs D
  history_save s fs =
      let saved = add_lines (max_steps s) s (λ i. 0, 0) in
      if saved.1 == 0
      then fs
      else (fs_write_file dev history_file saved.0 saved.1 (fs_delete_file dev history_file fs).1).1

  pub history_load_from_disk : Shell → Fs D → Shell × Fs D
  history_load_from_disk s fs =
      let file = fs_load_file dev history_file 2048 fs in
      if fs_file_exists dev history_file fs
      then if file.0.0
        then (history_from_bytes (λ i. get_or file.0.1 i 0) (length file.0.1) s, file.1)
        else (s, file.1)
      else (s, fs)

module _ {D : Type 0} (dev : Disk D) (l : Layout) (exec_stacks input_address : ℕ) where
  -- What a command does to the machine; `none` where it does not return. `line` is its text.
  pub run : List ℕ → Command → Machine D → Option (Machine D)
  run line (cat name) m = some (record m { fs = (fs_read_file dev name m.fs).1 })
  run line (rm name) m = some (record m { fs = (fs_delete_file dev name m.fs).1 })
  run line (exec argv) m =
      let offset = length line - length (skip_spaces (drop 5 line)) in
      some (exec_run dev l exec_stacks (get_or argv 0 []) (input_address + offset) argv m).1
  run line (kill pid) m = some (record m { kernel = (task_kill pid m.kernel).1 })
  run line (priority pid level) m =
      some (record m { kernel = task_set_priority pid level m.kernel })
  run line (write name content) m =
      some (record m {
        fs = (fs_write_file dev name (λ i. get_or content i 0) (length content) m.fs).1;
      })
  run line reboot m = none
  run line help m = some m
  run line clear m = some m
  run line ver m = some m
  run line ls m = some m
  run line exec_usage m = some m
  run line ps m = some m
  run line kill_usage m = some m
  run line priority_usage m = some m
  run line write_usage m = some m
  run line mem m = some m
  run line uptime m = some m
  run line (unknown text) m = some m
  run line nothing m = some m

  -- `none` where the machine is started again.
  pub shell_execute : Shell → Machine D → Option (Shell × Machine D)
  shell_execute s m =
      let recorded = record_line s in
      let saved =
        if ltb 0 s.buffer_idx then record m { fs = history_save dev recorded m.fs } else m in
      let line = string_from 256 0 recorded.input_buffer in
      elim (run line (parse line s.buffer_idx) saved) [
        | none ↦ none
        | some after ↦ some (prompt recorded, after)
      ]

  pub shell_update : ℕ → Shell → Machine D → Option (Shell × Machine D)
  shell_update c s m = if c == 10 then shell_execute s m else some (edit_key c s, m)

  -- The loop of `shell_poll`; the queue has at most `n` keys.
  unfoldable pub poll_keys :
      ℕ → Keyboard → Shell → Machine D → Option (Keyboard × (Shell × Machine D))
  poll_keys zero keys s m = some (keys, (s, m))
  poll_keys (suc n) keys s m =
      let key = keyboard_read_char keys in
      elim key.0 [
        | none ↦ some (keys, (s, m))
        | some c ↦ elim (shell_update c s m) [
          | none ↦ none
          | some after ↦ poll_keys n key.1 after.0 after.1
        ]
      ]

  -- Where the machine still runs, the shell's invariant holds.
  abbrev pub LeavesShell : Option (Shell × Machine D) → Type 0
  LeavesShell none = Unit
  LeavesShell (some after) = IsShell after.0

  shell_execute-LeavesShell :
      (s : Shell) (m : Machine D) → IsShell s → LeavesShell (shell_execute s m)
  unfolding shell_execute
  shell_execute-LeavesShell s m h = outcome (
      run (string_from 256 0 (record_line s).input_buffer)
        (parse (string_from 256 0 (record_line s).input_buffer) s.buffer_idx)
        (if ltb 0 s.buffer_idx then record m { fs = history_save dev (record_line s) m.fs } else m))
    where
      outcome :
          (o : Option (Machine D))
          → LeavesShell (elim o as (λ x. Option (Shell × Machine D)) [
            | none ↦ none
            | some after ↦ some (prompt (record_line s), after)
          ])
      outcome none = tt
      outcome (some after) = prompt-IsShell s h

  -- Every key, Enter and the command that it runs included, keeps the shell's invariant where the
  -- machine is not started again: the buffers are not overrun, the navigation stays in the commands
  -- that are kept, and what is shown after the prompt is the line in `input_buffer`.
  pub shell_update-LeavesShell :
      (c : ℕ) (s : Shell) (m : Machine D) → IsShell s → LeavesShell (shell_update c s m)
  unfolding shell_update
  shell_update-LeavesShell c s m h = elim (Bool-cases (c == 10)) [
    | inl enter ↦ rw enter (shell_execute-LeavesShell s m h)
    | inr other ↦ rw other (edit_key-IsShell c s h)
  ]
