-- ===== src/Shell/Tests.antt =====
-- The command line of kernel/shell.c from its first state.
use mx_os.Prelude.{take, ◌⊎◌, ◌≢◌, ◌<◌, List, ℕ, zero, suc, ◌≡◌, refl, none, [], ◌∷◌, arith, get_or}
use mx_os.Ata.{ata_disk}
use mx_os.Ata.Drive.{drive, drive-Reliable}
use mx_os.Exec.Tests.{running}
use mx_os.Fs.Cleared.{cleared}
use mx_os.Fs.RoundTrip.{NoRoom}
use mx_os.Fs.Tests.{memory, no_files_drive, no_files-IsDirectory, no_files-bitmap, no_files-IsOnly}
use mx_os.Lifecycle.Tests.{layout}
use mx_os.Screen.{dec_text}
use mx_os.Shell.Command.{exec, kill, parse}
use mx_os.Shell.Command.Pids.{parse-kill}
use mx_os.Shell.Command.Words.{AreWords, IsSpaceless, joined, parse-exec}
use mx_os.Shell.Run.Persist.{IsSavable, history_save-Keeps}
use mx_os.Shell.Run.Reload.{AreLines}
use mx_os.Shell.Run.Text.{rows_of, text_size}
use mx_os.Shell.Run.{
  history_file, history_save, history_load_from_disk, LeavesShell, shell_update,
  shell_update-LeavesShell,
}
use mx_os.Shell.{Shell, copy, edit_key, history_push, max_steps, slot_back}
use mx_os.Shell.Echo.{IsPlain, shown, last_first}
use mx_os.Shell.Keys.{edit_key-IsShell, history_push-IsShell}
use mx_os.Shell.Line.{IsShell}
use mx_os.Shell.Recent.{Keeps, history_push-Keeps, press_up, press_down, press_up-shown}

abbrev fresh : Shell
fresh = record {
  input_buffer = λ i. 0;
  buffer_idx = 0;
  history = λ k i. 0;
  history_len = λ k. 0;
  history_count = 0;
  history_nav = none;
  saved_line = λ i. 0;
  saved_line_len = 0;
  echo = [];
}

fresh-IsShell : IsShell fresh
unfolding IsPlain shown last_first
fresh-IsShell = record {
  typed = record {
    idx = omega arith;
    saved = omega arith;
    lens = λ k below. omega arith;
    line = refl;
    plain = λ i below. absurd (omega arith);
    plain_saved = λ i below. absurd (omega arith);
    plain_history = λ k below i inside. absurd (omega arith);
  };
  nav = λ n at. cc at;
}

-- Enter behind the character "a".
shell_update-LeavesShell_example :
    LeavesShell memory layout 0x40000 0x6000
      (shell_update memory layout 0x40000 0x6000 10 (edit_key 97 fresh) running)
shell_update-LeavesShell_example =
    shell_update-LeavesShell memory layout 0x40000 0x6000 10 (edit_key 97 fresh) running
      (edit_key-IsShell 97 fresh fresh-IsShell)

-- "echo hi"
abbrev words : List (List ℕ)
words = (b'e' ∷ b'c' ∷ b'h' ∷ b'o' ∷ []) ∷ (b'h' ∷ b'i' ∷ []) ∷ []

words-AreWords : AreWords words
unfolding AreWords IsSpaceless
words-AreWords = ground arith

parse-exec_example : parse (b'e' ∷ b'x' ∷ b'e' ∷ b'c' ∷ b' ' ∷ joined words) 12 ≡ exec words
parse-exec_example = parse-exec words 12 (omega arith) (omega arith) words-AreWords

parse-kill_example : parse (b'k' ∷ b'i' ∷ b'l' ∷ b'l' ∷ b' ' ∷ dec_text 12) 7 ≡ kill 12
parse-kill_example = parse-kill 12 7 (omega arith)

-- The command "ls".
abbrev ls : ℕ → ℕ
ls i = get_or (108 ∷ 115 ∷ []) i 0

ls-IsPlain : IsPlain 2 ls
unfolding IsPlain
ls-IsPlain zero below = omega arith
ls-IsPlain (suc zero) below = omega arith
ls-IsPlain (suc (suc i)) below = absurd (omega arith)

fresh-Keeps : Keeps fresh []
unfolding Keeps
fresh-Keeps = (refl, λ k near below. absurd (omega arith))

abbrev after_ls : Shell
after_ls = history_push ls 2 fresh

history_push-Keeps_example : Keeps after_ls (last_first 2 ls ∷ [])
history_push-Keeps_example = history_push-Keeps ls 2 fresh [] fresh-Keeps

after_ls-Keeps : Keeps after_ls ((115 ∷ 108 ∷ []) ∷ [])
unfolding last_first
after_ls-Keeps = history_push-Keeps ls 2 fresh [] fresh-Keeps

press_up-shown_example :
    (shown (press_up 1 after_ls).echo ≡ 115 ∷ 108 ∷ [])
    × (shown (press_down 1 (press_up 1 after_ls)).echo ≡ shown after_ls.echo)
    × ((press_down 1 (press_up 1 after_ls)).history_nav ≡ none)
press_up-shown_example =
    press_up-shown 0 after_ls ((115 ∷ 108 ∷ []) ∷ [])
      (history_push-IsShell ls 2 fresh ls-IsPlain fresh-IsShell) after_ls-Keeps
      (unfold history_push in refl) (omega arith) (omega arith)

after_ls-IsSavable : IsSavable after_ls
unfolding history_push slot_back max_steps rows_of AreLines text_size copy
after_ls-IsSavable = record {
  some_command = omega arith;
  lines = (omega arith, omega arith, chars, tt);
  room = omega arith;
}
  where
    chars :
        (i : ℕ)
        → i < 2
        → (after_ls.history 0 i ≢ 10) × (after_ls.history 0 i ≢ 0) × (after_ls.history 0 i < 256)
    chars zero below = (omega arith, omega arith, omega arith)
    chars (suc zero) below = (omega arith, omega arith, omega arith)
    chars (suc (suc i)) below = absurd (omega arith)

-- The history with the one command, saved to an empty directory.
history_save-Keeps_example :
    Keeps
      (history_load_from_disk
        (ata_disk drive)
        fresh
        (history_save (ata_disk drive) after_ls no_files_drive)).0
      (take 8 ((115 ∷ 108 ∷ []) ∷ []))
    ⊎ NoRoom
        (text_size (rows_of (max_steps after_ls) after_ls))
        (cleared (ata_disk drive) history_file no_files_drive)
history_save-Keeps_example =
    history_save-Keeps (ata_disk drive) drive-Reliable after_ls fresh ((115 ∷ 108 ∷ []) ∷ [])
      no_files_drive no_files-IsDirectory no_files-bitmap (no_files-IsOnly history_file)
      after_ls-Keeps after_ls-IsSavable fresh-Keeps
