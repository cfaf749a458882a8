-- ===== src/Idt/Tests.antt =====
-- The gates of kernel/interrupts.c for handlers at concrete addresses.
use mx_os.Prelude.{ℕ, ◌+◌, ◌*◌, ◌%◌, ◌^◌, ◌<◌, ◌≡◌, ◌↔◌, arith, replicate}
use mx_os.Idt.{install_gates}
use mx_os.Idt.Privilege.{no_gate, gate_at, privilege, install_gates-privilege}

-- The stub of each vector.
abbrev stub : ℕ → ℕ
stub n = 0x1000 + 16 * (n % 32)

stub_small : (n : ℕ) → stub n < 2 ^ 32
stub_small n = omega arith

install_gates-privilege_example :
    (privilege (gate_at (install_gates stub 0x2000 0x3000 0x14000 (replicate 256 no_gate)) 128) ≡ 3)
    ↔ (◌≡◌ {A = ℕ} 128 128)
install_gates-privilege_example =
    install_gates-privilege stub stub_small 0x2000 0x3000 0x14000 128 (omega arith) (omega arith)
      (omega arith)
