-- ===== src/Task/Table.antt =====
-- The task table as a list: how many tasks are active, and what one write does to that number.
use mx_os.Prelude.{ℕ, zero, suc, ◌+◌, ◌<◌, ◌≡◌, List, [], ◌∷◌, arith, length, set, bit}
use mx_os.Task.{Task, task_at}

unfoldable pub count_active : List Task → ℕ
count_active [] = 0
count_active (t ∷ ts) = bit t.active + count_active ts

-- A write trades the old entry for the new one.
pub count_active-set :
    (ts : List Task) (i : ℕ) (t : Task)
    → i < length ts
    → count_active (set ts i t) + bit (task_at ts i).active ≡ count_active ts + bit t.active
unfolding count_active
count_active-set [] i t h = absurd (omega arith)
count_active-set (u ∷ ts) zero t h = omega arith
count_active-set (u ∷ ts) (suc i) t h = omega (arith, count_active-set ts i t (omega arith))
