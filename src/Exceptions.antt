-- ===== src/Exceptions.antt =====
-- The stubs and the report of kernel/exceptions.c. The stack is the list of its 32-bit words, the top
-- first. The way back by `popal` and `iret` is never taken, since the report halts.
pub mod Reported
mod Tests
use mx_os.Prelude.{ℕ, Bool, ◌||◌, List, [], ◌∷◌, get_or, ◌==◌, if◌then◌else◌}
use mx_os.Screen.{Screen, kprint, kprint_dec, kprint_hex}
use mx_os.Syscall.{Registers}

-- The vectors whose stub is made by EXC_ERR.
unfoldable pub exc_err : ℕ → Bool
exc_err n = (n == 8) || (n == 10) || (n == 11) || (n == 12) || (n == 13) || (n == 14) || (n == 17)

-- The stub of vector `n`, up to its jump.
unfoldable pub isr : ℕ → List ℕ → List ℕ
isr n stack = if exc_err n then n ∷ stack else n ∷ 0 ∷ stack

-- `pushal`
pub pushal : Registers → List ℕ → List ℕ
pushal regs stack =
    regs.edi ∷ regs.esi ∷ regs.ebp ∷ regs.esp_dummy ∷ regs.ebx ∷ regs.edx ∷ regs.ecx ∷ regs.eax
    ∷ stack

-- "\n*** EXCEPTION "
abbrev pub exception_label : List ℕ
exception_label = 10 ∷ 42 ∷ 42 ∷ 42 ∷ 32 ∷ 69 ∷ 88 ∷ 67 ∷ 69 ∷ 80 ∷ 84 ∷ 73 ∷ 79 ∷ 78 ∷ 32 ∷ []

-- " (code "
abbrev pub code_label : List ℕ
code_label = 32 ∷ 40 ∷ 99 ∷ 111 ∷ 100 ∷ 101 ∷ 32 ∷ []

-- ") at EIP="
abbrev pub eip_label : List ℕ
eip_label = 41 ∷ 32 ∷ 97 ∷ 116 ∷ 32 ∷ 69 ∷ 73 ∷ 80 ∷ 61 ∷ []

-- " CR2="
abbrev pub cr2_label : List ℕ
cr2_label = 32 ∷ 67 ∷ 82 ∷ 50 ∷ 61 ∷ []

-- " - System Halted ***\n"
abbrev pub halted_label : List ℕ
halted_label =
    32 ∷ 45 ∷ 32 ∷ 83 ∷ 121 ∷ 115 ∷ 116 ∷ 101 ∷ 109 ∷ 32 ∷ 72 ∷ 97 ∷ 108 ∷ 116 ∷ 101 ∷ 100 ∷ 32 ∷ 42
    ∷ 42 ∷ 42 ∷ 10 ∷ []

-- `exception_report` before it halts; `regs` is the stack from its argument's address on.
pub exception_report : List ℕ → ℕ → Screen → Screen
exception_report regs cr2 s =
    let vector = get_or regs 8 0 in
    let error_code = get_or regs 9 0 in
    let eip = get_or regs 10 0 in
    let numbered = kprint_dec vector (kprint exception_label s) in
    let coded = kprint_hex error_code (kprint code_label numbered) in
    let placed = kprint_hex eip (kprint eip_label coded) in
    let fault = kprint_hex cr2 (kprint cr2_label placed) in
    kprint halted_label (if vector == 14 then fault else placed)

-- `isr_common_stub` as far as it gets.
pub isr_common_stub : Registers → List ℕ → ℕ → Screen → Screen
isr_common_stub regs stack cr2 s = exception_report (pushal regs stack) cr2 s
