-- ===== src/Idt.antt =====
-- The interrupt gates of kernel/interrupts.c, and who sets them: kernel/exceptions.c, kernel/syscall.c
-- and `main_entry` of kernel/init.c. Writes to ports are values.
pub mod Privilege
mod Tests
use mx_os.Prelude.{ℕ, zero, suc, ◌+◌, ◌-◌, ◌*◌, ◌/◌, ◌%◌, List, [], ◌∷◌, set}
use mx_os.Pit.{Out}

pub record IdtEntry : Type 0 where
  pub base_low : ℕ
  pub sel : ℕ
  pub always0 : ℕ
  pub flags : ℕ
  pub base_high : ℕ

pub set_idt_gate_flags : ℕ → ℕ → ℕ → List IdtEntry → List IdtEntry
set_idt_gate_flags n handler flags idt = set idt n (record {
  base_low = handler % 65536;
  sel = 0x08;
  always0 = 0;
  flags = flags;
  base_high = handler / 65536 % 65536;
})

pub set_idt_gate : ℕ → ℕ → List IdtEntry → List IdtEntry
set_idt_gate n handler idt = set idt n (record {
  base_low = handler % 65536;
  sel = 0x08;
  always0 = 0;
  flags = 0x8E;
  base_high = handler / 65536 % 65536;
})

-- `n` calls of `set_idt_gate`, from vector `i` on; `isr` gives the stub of each vector.
pub install_from : ℕ → ℕ → (ℕ → ℕ) → List IdtEntry → List IdtEntry
install_from zero i isr idt = idt
install_from (suc n) i isr idt = install_from n (i + 1) isr (set_idt_gate i (isr i) idt)

pub install_exception_handlers : (ℕ → ℕ) → List IdtEntry → List IdtEntry
install_exception_handlers isr idt = install_from 32 0 isr idt

pub syscall_init : ℕ → List IdtEntry → List IdtEntry
syscall_init syscall_handler idt = set_idt_gate_flags 0x80 syscall_handler 0xEE idt

-- The gates that `main_entry` sets, in its order.
pub install_gates : (ℕ → ℕ) → ℕ → ℕ → ℕ → List IdtEntry → List IdtEntry
install_gates isr timer_handler keyboard_handler syscall_handler idt =
    syscall_init syscall_handler (
      set_idt_gate 33 keyboard_handler
        (set_idt_gate 32 timer_handler (install_exception_handlers isr idt)))

-- What `load_idt` puts in `idtp` for `lidt`: the limit, 256 entries of 8 bytes less one, and the base.
abbrev pub load_idt : ℕ → ℕ × ℕ
load_idt idt_address = (256 * 8 - 1, idt_address)

-- The bytes that `remap_pic` writes to the ports of the two interrupt controllers.
abbrev pub remap_pic : List Out
remap_pic =
    (0x20, 0x11)
    ∷ (0xA0, 0x11)
    ∷ (0x21, 0x20)
    ∷ (0xA1, 0x28)
    ∷ (0x21, 0x04)
    ∷ (0xA1, 0x02)
    ∷ (0x21, 0x01)
    ∷ (0xA1, 0x01)
    ∷ (0x21, 0xFC)
    ∷ (0xA1, 0xFF)
    ∷ []
