-- ===== src/Pit/Tests.antt =====
-- The timer of kernel/pit.c at 100 Hz.
use mx_os.Prelude.{◌≡◌, refl, [], ◌∷◌}
use mx_os.Pit.{pit_init, divisor}

-- What the kernel programs: 11931 is 0x2e9b.
at_100_hz : (pit_init 100).1 ≡ (0x43, 0x36) ∷ (0x40, 0x9b) ∷ (0x40, 0x2e) ∷ []
unfolding pit_init divisor
at_100_hz = refl
