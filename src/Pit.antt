-- ===== src/Pit.antt =====
-- kernel/pit.c: the timer's tick counter and frequency.
mod Tests
pub mod Divisor
use mx_os.Prelude.{ℕ, ◌/◌, ◌%◌, ◌*◌, ◌+◌, ◌^◌, List, [], ◌∷◌, ltb, ◌==◌, if◌then◌else◌, add32}

-- `ticks` and `frequency`.
pub record Pit : Type 0 where
  pub ticks : ℕ
  pub frequency : ℕ

abbrev pub pit_base_freq : ℕ
pit_base_freq = 1193182

-- A byte written to an I/O port.
abbrev pub Out : Type 0
Out = ℕ × ℕ

-- The divisor that `pit_init` programs, kept within 16 bits.
pub divisor : ℕ → ℕ
divisor frequency_hz =
    let d = pit_base_freq / frequency_hz in
    let d = if d == 0 then 1 else d in if ltb 0xffff d then 0xffff else d

-- The state after `pit_init`, and what it writes to the ports.
pub pit_init : ℕ → Pit × List Out
pit_init frequency_hz =
    let f = if frequency_hz == 0 then 100 else frequency_hz in
    (
      record { ticks = 0; frequency = f },
      (0x43, 0x36) ∷ (0x40, divisor f % 256) ∷ (0x40, divisor f / 256 % 256) ∷ [],
    )

unfoldable pub timer_tick : Pit → Pit
timer_tick p = record p { ticks = add32 p.ticks 1 }

abbrev pub get_ticks : Pit → ℕ
get_ticks p = p.ticks

abbrev pub pit_get_frequency : Pit → ℕ
pit_get_frequency p = p.frequency
