-- ===== src/Exceptions/Tests.antt =====
-- A page fault at EIP 0x1234 with code 2 for the address 0xDEAD.
use mx_os.Prelude.{ℕ, ◌≡◌, refl, Bool, ◌||◌, ◌&&◌, leb, [], ◌∷◌, arith, ◌==◌}
use mx_os.Screen.{kprint}
use mx_os.Syscall.Tests.{sender, send_regs}
use mx_os.Exceptions.{isr, isr_common_stub}
use mx_os.Exceptions.Reported.{delivered, report, isr-reported}

abbrev i386 : ℕ → Bool
i386 m = (m == 8) || (leb 10 m && leb m 14) || (m == 17)

isr-reported_example :
    isr_common_stub send_regs
      (isr 14 (delivered i386 14 2 0x1234 (8 ∷ 2 ∷ [])))
      0xDEAD
      sender.screen
    ≡ kprint (report 14 2 0x1234 0xDEAD) sender.screen
isr-reported_example =
    isr-reported i386 14 2 0x1234 0xDEAD (8 ∷ 2 ∷ []) send_regs sender.screen (omega arith)
      (λ m below. refl)
