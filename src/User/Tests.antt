-- ===== src/User/Tests.antt =====
-- The programs of userprogs with the arguments "ab" and "c".
use mx_os.Prelude.{ℕ, ◌+◌, ◌*◌, ◌≤◌, subst, sym, ◌≡◌, refl, arith, length, List, [], ◌∷◌, some}
use mx_os.Prelude.Int.{pos}
use mx_os.Exec.{build_argv}
use mx_os.Screen.Text.{IsText}
use mx_os.Sched.Tests.{layout, boxes, empty_box-IsMailbox}
use mx_os.Shell.Start.{shell_poll_ipc}
use mx_os.Syscall.{System}
use mx_os.Syscall.Tests.{sender, send_regs}
use mx_os.Task.{Kernel}
use mx_os.User.{echo_body, echo_line}
use mx_os.User.Arguments.{AreTexts, args_size}
use mx_os.User.Echo.{echo_line-build_argv}
use mx_os.Sched.Messages.{waiting}
use mx_os.Ipc.Refine.{contents}
use mx_os.Shell.Command.Words.{joined, spaced}
use mx_os.User.Shown.{ShellIsIdle, echo_body-length, echo_body-shown}

abbrev args : List (List ℕ)
args = (97 ∷ 98 ∷ []) ∷ (99 ∷ []) ∷ []

args-AreTexts : AreTexts args
unfolding AreTexts IsText
args-AreTexts = ((omega arith, (omega arith, tt)), ((omega arith, tt), tt))

args-size : 4 * (length args + 1) + args_size args ≤ 512
unfolding args_size
args-size = omega arith

shell-empty : waiting boxes 0 ≡ []
unfolding contents
shell-empty = refl

-- Task 3 has its arguments at 0x60000.
abbrev with_args : System
with_args = record sender {
  kernel = record boxes { current_task = 3 };
  memory = build_argv 0x60000 args (λ a. 9);
}

abbrev echoed : System
echoed = echo_body layout 0x9000 send_regs (λ s. s) 0x70000 0x70010 0x71000 2 0x60000 with_args

abbrev takes_next : System → Kernel
takes_next after = record after.kernel { current_task = 0 }

line-short : length (echo_line 2 0x60000 (build_argv 0x60000 args (λ a. 9))) ≤ 126
line-short =
    let line = echo_line-build_argv 0x60000 args (λ a. 9) (omega arith) args-AreTexts args-size in
    subst (λ t. length t ≤ 126) (sym line) (unfold joined spaced in omega arith)

echoed-ShellIsIdle : ShellIsIdle layout 0x9000 send_regs with_args echoed (takes_next echoed)
echoed-ShellIsIdle = record {
  sixteen = refl;
  active = refl;
  box = empty_box-IsMailbox;
  empty = shell-empty;
  runs = refl;
  sixteen_later =
      echo_body-length layout 0x9000 send_regs (λ s. s) 0x70000 0x70010 0x71000 2 0x60000 with_args
        line-short refl refl empty_box-IsMailbox shell-empty;
  same = refl;
}

echo_body-shown_example :
    (shell_poll_ipc (takes_next echoed)).0 ≡ some (pos 3, 97 ∷ 98 ∷ 32 ∷ 99 ∷ [])
unfolding joined spaced
echo_body-shown_example =
    echo_body-shown layout 0x9000 send_regs (λ s. s) 0x70000 0x70010 0x71000 0x60000 args (λ a. 9)
      with_args (takes_next echoed) (omega arith) args-AreTexts args-size (omega arith) refl
      echoed-ShellIsIdle
