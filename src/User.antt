-- ===== src/User.antt =====
-- The programs of userprogs, and the task of kernel/usermode.c. They reach the kernel by system calls
-- alone. The addresses of their constant strings and of their buffers are parameters, since the linker
-- gives them. SYS_PRINT and SYS_SEND come back to the program that made them; between SYS_SLEEP and its
-- return other tasks run, and `resumed` stands for what they do.
pub mod Libc
pub mod Arguments
pub mod Echo
pub mod Send
pub mod Shown
pub mod Hello
mod Tests
use mx_os.Prelude.{
  ℕ, zero, suc, ◌+◌, ◌*◌, Bool, true, false, ◌&&◌, Option, List, [], ◌∷◌, ◌++◌, length, ltb, ◌==◌,
  if◌then◌else◌, update, u32,
}
use mx_os.Elf.{read32}
use mx_os.Exec.{put_bytes}
use mx_os.Paging.{Layout}
use mx_os.Syscall.{Registers, System}
use mx_os.User.Libc.{sys_print, sys_exit, sys_sleep, sys_send, u_strlen}

-- `argv[i]`
unfoldable pub argument : ℕ → ℕ → (ℕ → ℕ) → ℕ
argument argv i mem = read32 mem (u32 (argv + 4 * i))

abbrev pub shell_pid : ℕ
shell_pid = 0

abbrev pub line_max : ℕ
line_max = 128

-- The inner loop of echo_user.c, which copies the `n` characters from address `p` on to the line.
unfoldable pub echo_chars : ℕ → ℕ → (ℕ → ℕ) → List ℕ → List ℕ
echo_chars zero p mem line = line
echo_chars (suc n) p mem line =
    let rest = echo_chars n (p + 1) mem (line ++ mem (u32 p) ∷ []) in
    if ltb (length line) 126 then rest else line

-- What one turn of the outer loop makes of the line.
unfoldable pub echo_word : ℕ → ℕ → ℕ → (ℕ → ℕ) → List ℕ → List ℕ
echo_word i argc argv mem line =
    let arg = argument argv i mem in
    let text = echo_chars (u_strlen arg mem) arg mem line in
    if ltb (i + 1) argc && ltb (length text) 126 then text ++ 32 ∷ [] else text

-- The outer loop from argument `i` on, `n` of which are left. The line is the buffer's first bytes,
-- which are apart from the arguments.
unfoldable pub echo_words : ℕ → ℕ → ℕ → ℕ → (ℕ → ℕ) → List ℕ → List ℕ
echo_words zero i argc argv mem line = line
echo_words (suc n) i argc argv mem line =
    let rest = echo_words n (i + 1) argc argv mem (echo_word i argc argv mem line) in
    if ltb (length line) 126 then rest else line

unfoldable pub echo_line : ℕ → ℕ → (ℕ → ℕ) → List ℕ
echo_line argc argv mem = echo_words argc 0 argc argv mem []

module _ (l : Layout) (esp : ℕ) (regs : Registers) where
  -- A text printed.
  abbrev pub printed : ℕ → System → System
  printed msg s = (sys_print l esp regs msg s).1.1

  -- The loop of hello_user.c from argument `i` on, `n` of which are left.
  unfoldable pub print_args : ℕ → ℕ → ℕ → ℕ → System → System
  print_args zero i argv space s = s
  print_args (suc n) i argv space s =
      print_args n (i + 1) argv space (printed space (printed (argument argv i s.memory) s))

  -- `user_main` of hello_user.c.
  unfoldable pub hello_user : ℕ → ℕ → ℕ → ℕ → ℕ → ℕ → System → Option ℕ × (Registers × System)
  hello_user hello received space newline argc argv s =
      let greeted = printed hello s in
      let listed = printed newline (print_args argc 0 argv space (printed received greeted)) in
      sys_exit l esp regs (if ltb 0 argc then listed else greeted)

  -- The loop that sends, `n` attempts of which are left.
  unfoldable pub echo_send : (System → System) → ℕ → ℕ → ℕ → System → System
  echo_send resumed zero line len s = s
  echo_send resumed (suc n) line len s =
      let sent = sys_send l esp regs shell_pid line len s in
      let rest = echo_send resumed n line len (resumed (sys_sleep l esp regs 1 sent.1.1).1.1) in
      if sent.1.0.eax == 0 then rest else sent.1.1

  -- The line stands in the static buffer, with its terminator.
  unfoldable pub store_line : ℕ → List ℕ → (ℕ → ℕ) → ℕ → ℕ
  store_line at text mem = update (put_bytes text at mem) (u32 (at + length text)) 0

  -- `user_main` of echo_user.c before it exits.
  unfoldable pub echo_body : (System → System) → ℕ → ℕ → ℕ → ℕ → ℕ → System → System
  echo_body resumed prefix newline line argc argv s =
      let started = printed prefix s in
      let text = echo_line argc argv started.memory in
      let built = record started { memory = store_line line text started.memory } in
      echo_send resumed 4 line (length text) (printed newline (printed line built))

  -- `user_main` of echo_user.c.
  pub echo_user : (System → System) → ℕ → ℕ → ℕ → ℕ → ℕ → System → Option ℕ × (Registers × System)
  echo_user resumed prefix newline line argc argv s =
      sys_exit l esp regs (echo_body resumed prefix newline line argc argv s)

  -- `user_task_demo` of kernel/usermode.c before it exits.
  unfoldable pub demo_body : ℕ → ℕ → System → System
  demo_body hello msg s =
      let greeted = printed hello s in
      let len = u_strlen msg greeted.memory in
      (sys_send l esp regs shell_pid msg (u32 (len + 1)) greeted).1.1

  pub user_task_demo : ℕ → ℕ → System → Option ℕ × (Registers × System)
  user_task_demo hello msg s = sys_exit l esp regs (demo_body hello msg s)
