-- ===== src/Pit/Divisor.antt =====
-- The divisor that `pit_init` of kernel/pit.c programs.
use mx_os.Prelude.{ℕ, ◌+◌, ◌*◌, List, [], ◌∷◌, ◌==◌, if◌then◌else◌}
use mx_os.Pit.{Out}

-- What the timer takes for its divisor: two bytes sent to channel 0, the low one first.
unfoldable pub programmed : List Out → ℕ
programmed ((c, m) ∷ (p, lo) ∷ (q, hi) ∷ []) =
    if c == 0x43 then (if p == 0x40 then (if q == 0x40 then lo + 256 * hi else 0) else 0) else 0
programmed other = 0
