-- ===== src/User/Shown.antt =====
-- echo_user.c of userprogs and the task of kernel/usermode.c, up to the text that the Shell prints.
use mx_os.Prelude.{
  ℕ, zero, suc, ◌+◌, ◌*◌, ◌^◌, ◌≤◌, ◌<◌, ◌≡◌, refl, ◌∙◌, sym, ap, subst, true, some, List, [], ◌∷◌,
  arith, length, get_or, get_or-default, take, u32,
}
use mx_os.Prelude.Int.{pos}
use mx_os.Elf.Bytes.{update-Outside}
use mx_os.Exec.{put_bytes, build_argv}
use mx_os.Ipc.Refine.{IsMailbox}
use mx_os.Paging.{Layout}
use mx_os.Sched.Messages.{waiting}
use mx_os.Screen.Text.{IsText, IsText-append}
use mx_os.Screen.{kprint}
use mx_os.Shell.Command.Words.{spaced, joined}
use mx_os.Shell.Start.{shell_poll_ipc}
use mx_os.Syscall.{Registers, System, string_at, syscall_dispatch}
use mx_os.Syscall.Deliver.{put_bytes-at}
use mx_os.Task.{task_at, Kernel}
use mx_os.User.{printed, echo_line, echo_send, store_line, echo_body, demo_body}
use mx_os.User.Arguments.{args_size, AreTexts, string_at-text}
use mx_os.User.Echo.{echo_line-build_argv, length-take_le, u_strlen-length}
use mx_os.User.Libc.{sys_print, sys_send, u_strlen}
use mx_os.User.Send.{sys_send-length, sys_send-sent, sys_send-shown}

IsText-take : (n : ℕ) (xs : List ℕ) → IsText xs → IsText (take n xs)
unfolding IsText
IsText-take zero xs p = tt
IsText-take (suc n) [] p = tt
IsText-take (suc n) (x ∷ xs) (nonzero, p) = (nonzero, IsText-take n xs p)

IsText-spaced : (ws : List (List ℕ)) → AreTexts ws → IsText (spaced ws)
unfolding IsText AreTexts spaced
IsText-spaced [] p = tt
IsText-spaced (w ∷ ws) (pw, p) =
    let rest = IsText-append w (spaced ws) pw (IsText-spaced ws p) in (omega arith, rest)

IsText-joined : (ws : List (List ℕ)) → AreTexts ws → IsText (joined ws)
unfolding AreTexts joined
IsText-joined [] p = unfold IsText in tt
IsText-joined (w ∷ ws) (pw, p) = IsText-append w (spaced ws) pw (IsText-spaced ws p)

module _ (l : Layout) (esp : ℕ) (regs : Registers) where
  -- SYS_PRINT changes the screen only.
  printed-screen :
      (msg : ℕ) (s : System)
      → printed l esp regs msg s
        ≡ record s { screen = kprint (string_at (2 ^ 32) msg s.memory) s.screen }
  unfolding sys_print syscall_dispatch
  printed-screen msg s = refl

  echo_send-first :
      (resumed : System → System) (n line len : ℕ) (s : System)
      → (sys_send l esp regs 0 line len s).1.0.eax ≡ 1
      → echo_send l esp regs resumed (suc n) line len s ≡ (sys_send l esp regs 0 line len s).1.1
  unfolding echo_send
  echo_send-first resumed n line len s sent = rw sent refl

  store_line-at :
      (line : ℕ) (text : List ℕ) (mem : ℕ → ℕ) (j : ℕ)
      → line + length text < 2 ^ 32
      → j < length text
      → store_line l esp regs line text mem (u32 (line + j)) ≡ get_or text j 0
  unfolding store_line
  store_line-at line text mem j top below =
      let end : u32 (line + length text) ≡ line + length text = omega arith in
      let at : u32 (line + j) ≡ line + j = omega arith in
      rw (end, at)
        (update-Outside (put_bytes text line mem) (line + length text) 0 (line + j) (omega arith)
          ∙ put_bytes-at text line mem j (omega arith) below)

  -- The queue of the Shell, task 0, which is active, is empty in `s`; in `k` the Shell runs, and its
  -- queue is the one that `after` leaves.
  pub record ShellIsIdle (s after : System) (k : Kernel) : Type 0 where
    pub sixteen : length s.kernel.tasks ≡ 16
    pub active : (task_at s.kernel.tasks 0).active ≡ true
    pub box : IsMailbox (task_at s.kernel.tasks 0).box
    pub empty : waiting s.kernel 0 ≡ []
    pub runs : k.current_task ≡ 0
    pub sixteen_later : length k.tasks ≡ 16
    pub same : waiting k 0 ≡ waiting after.kernel 0

  -- The system when echo_user comes to send its line.
  abbrev ready : ℕ → ℕ → ℕ → List ℕ → System → System
  ready prefix newline line text s =
      let started = printed l esp regs prefix s in
      let built = record started { memory = store_line l esp regs line text started.memory } in
      printed l esp regs newline (printed l esp regs line built)

  echo_body-sent :
      (resumed : System → System) (prefix newline line argc argv : ℕ) (s : System)
      → length (echo_line argc argv s.memory) ≤ 126
      → length s.kernel.tasks ≡ 16
      → (task_at s.kernel.tasks 0).active ≡ true
      → IsMailbox (task_at s.kernel.tasks 0).box
      → waiting s.kernel 0 ≡ []
      → let text = echo_line argc argv s.memory in
        echo_body l esp regs resumed prefix newline line argc argv s
        ≡ (sys_send l esp regs 0 line (length text) (ready prefix newline line text s)).1.1
  unfolding echo_body sys_print syscall_dispatch
  echo_body-sent resumed prefix newline line argc argv s short sixteen active box empty =
      let text = echo_line argc argv s.memory in
      let here = ready prefix newline line text s in
      echo_send-first resumed 3 line (length text) here
        (sys_send-sent l esp regs line (length text) here (omega arith) sixteen active box empty)

  pub echo_body-length :
      (resumed : System → System) (prefix newline line argc argv : ℕ) (s : System)
      → length (echo_line argc argv s.memory) ≤ 126
      → length s.kernel.tasks ≡ 16
      → (task_at s.kernel.tasks 0).active ≡ true
      → IsMailbox (task_at s.kernel.tasks 0).box
      → waiting s.kernel 0 ≡ []
      → length (echo_body l esp regs resumed prefix newline line argc argv s).kernel.tasks ≡ 16
  unfolding sys_print syscall_dispatch
  echo_body-length resumed prefix newline line argc argv s short sixteen active box empty =
      let text = echo_line argc argv s.memory in
      ap (λ (after : System). length after.kernel.tasks)
        (echo_body-sent resumed prefix newline line argc argv s short sixteen active box empty)
      ∙ sys_send-length l esp regs 0 line (length text) (ready prefix newline line text s)
      ∙ sixteen

  ready-shown :
      (prefix newline line : ℕ) (text : List ℕ) (s : System) (k : Kernel)
      → IsText text
      → length text ≤ 126
      → line + 128 ≤ 2 ^ 32
      → ShellIsIdle s
          (sys_send l esp regs 0 line (length text) (ready prefix newline line text s)).1.1
          k
      → (shell_poll_ipc k).0 ≡ some (pos s.kernel.current_task, text)
  unfolding sys_print syscall_dispatch
  ready-shown prefix newline line text s k plain short room idle =
      sys_send-shown l esp regs line (length text) text (ready prefix newline line text s) k plain
        (omega arith) (omega arith) (omega arith)
        (λ j below. store_line-at line text s.memory j (omega arith) below) idle.sixteen idle.active
        idle.box idle.empty idle.runs idle.sixteen_later idle.same

  echo_text-shown :
      (resumed : System → System) (prefix newline line argc argv : ℕ) (s : System) (k : Kernel)
      → IsText (echo_line argc argv s.memory)
      → length (echo_line argc argv s.memory) ≤ 126
      → line + 128 ≤ 2 ^ 32
      → ShellIsIdle s (echo_body l esp regs resumed prefix newline line argc argv s) k
      → (shell_poll_ipc k).0 ≡ some (pos s.kernel.current_task, echo_line argc argv s.memory)
  echo_text-shown resumed prefix newline line argc argv s k plain short room idle =
      ready-shown prefix newline line (echo_line argc argv s.memory) s k plain short room (
        subst (λ after. ShellIsIdle s after k)
          (echo_body-sent resumed prefix newline line argc argv s short idle.sixteen idle.active
            idle.box idle.empty)
          idle)

  -- echo_user runs with the arguments that `build_argv` left, which fit and have no byte 0. Its buffer
  -- is below 2^32, the Shell is active with an empty queue, and is the next to take a message from it.
  -- The Shell then prints the pid of the program and the arguments with a space between two of them,
  -- cut off at 126 characters.
  pub echo_body-shown :
      (resumed : System → System) (prefix newline line base : ℕ) (args : List (List ℕ))
      (mem : ℕ → ℕ) (s : System) (k : Kernel)
      → base + 512 ≤ 2 ^ 32
      → AreTexts args
      → 4 * (length args + 1) + args_size args ≤ 512
      → line + 128 ≤ 2 ^ 32
      → s.memory ≡ build_argv base args mem
      → ShellIsIdle s (echo_body l esp regs resumed prefix newline line (length args) base s) k
      → (shell_poll_ipc k).0 ≡ some (pos s.kernel.current_task, take 126 (joined args))
  echo_body-shown resumed prefix newline line base args mem s k top texts fits room built idle =
      let text : List ℕ = echo_line (length args) base s.memory in
      let is_joined : text ≡ take 126 (joined args) =
        ap (echo_line (length args) base) built
        ∙ echo_line-build_argv base args mem top texts fits in
      let plain : IsText text =
        subst IsText (sym is_joined) (IsText-take 126 (joined args) (IsText-joined args texts)) in
      let short : length text ≤ 126 =
        subst (λ t. length t ≤ 126) (sym is_joined) (length-take_le 126 (joined args)) in
      echo_text-shown resumed prefix newline line (length args) base s k plain short room idle
      ∙ ap (λ (t : List ℕ). some (pos s.kernel.current_task, t)) is_joined

  pub demo_body-length :
      (hello msg : ℕ) (s : System)
      → length (demo_body l esp regs hello msg s).kernel.tasks ≡ length s.kernel.tasks
  unfolding demo_body sys_print syscall_dispatch
  demo_body-length hello msg s =
      sys_send-length l esp regs 0 msg (u32 (u_strlen msg s.memory + 1))
        (printed l esp regs hello s)

  -- The task of usermode.c greets the Shell, which is active with an empty queue and the next to take a
  -- message from it: its text stands in memory with its terminator, and has at most 127 characters. The
  -- greeting is printed, and the Shell prints the pid of the task and the text, although the terminator
  -- was sent with it.
  pub demo_body-shown :
      (hello msg : ℕ) (text : List ℕ) (s : System) (k : Kernel)
      → IsText text
      → length text ≤ 127
      → msg + length text < 2 ^ 32
      → ((j : ℕ) → j ≤ length text → s.memory (msg + j) ≡ get_or text j 0)
      → ShellIsIdle s (demo_body l esp regs hello msg s) k
      → ((demo_body l esp regs hello msg s).screen
          ≡ kprint (string_at (2 ^ 32) hello s.memory) s.screen)
        × ((shell_poll_ipc k).0 ≡ some (pos s.kernel.current_task, text))
  unfolding demo_body sys_print sys_send syscall_dispatch
  demo_body-shown hello msg text s k plain short top bytes idle =
      let len : u_strlen msg s.memory ≡ length text =
        u_strlen-length msg s.memory
        ∙ ap length (
            string_at-text text (2 ^ 32) msg s.memory (omega arith) top plain
              (λ j below. bytes j (omega arith))
              (bytes (length text) (omega arith)
                ∙ get_or-default text (length text) 0 (omega arith))) in
      (
        refl,
        sys_send-shown l esp regs msg (u32 (u_strlen msg s.memory + 1)) text
            (printed l esp regs hello s) k plain short (omega (arith, len)) (omega (arith, len))
            (λ j below. ap s.memory (omega arith) ∙ bytes j (omega (arith, len))) idle.sixteen
            idle.active idle.box idle.empty idle.runs idle.sixteen_later idle.same,
      )
