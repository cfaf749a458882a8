-- ===== src/Exec/Slots.antt =====
-- Which slot `find_free_slot` of kernel/exec.c takes, and that the running programs keep theirs.
use mathlib.Core.Bool.{true≢false}
use mx_os.Prelude.{
  ℕ, zero, suc, ◌+◌, ◌*◌, ◌≤◌, ◌<◌, ◌≡◌, refl, ◌∙◌, sym, ap, ◌⊎◌, ◌≢◌, Bool, true, false, Option,
  none, some, List, [], ◌∷◌, arith, length, get_or, not, Bool-cases, inl, inr,
}
use mx_os.Prelude.Int.{ℤ, pos, negsuc}
use mx_os.Elf.Bytes.{Outside}
use mx_os.Fs.{Disk, fs_load_file}
use mx_os.Paging.{Layout}
use mx_os.Sched.{task_is_active}
use mx_os.Task.{Kernel}
use mx_os.Exec.{
  user_prog_max_size, slot_base, Machine, free_slot_from, staged, find_free_slot, exec_run,
}
use mx_os.Exec.Isolated.{IsWellSized, run_in_slot-kept}

-- A slot that was never used or whose task is over.
unfoldable pub is_free : Kernel → ℤ → Bool
is_free k (negsuc n) = true
is_free k (pos pid) = not (task_is_active pid k)

unfoldable pub IsFirst : Kernel → List ℤ → ℕ → Type 0
IsFirst k pids n =
    (n < length pids)
    × (is_free k (get_or pids n (negsuc 0)) ≡ true)
    × ((j : ℕ) → j < n → is_free k (get_or pids j (negsuc 0)) ≡ false)

IsFirst-here : (k : Kernel) (p : ℤ) (pids : List ℤ) → is_free k p ≡ true → IsFirst k (p ∷ pids) 0
unfolding IsFirst
IsFirst-here k p pids free = (omega arith, free, λ j below. absurd (omega arith))

IsFirst-there :
    (k : Kernel) (p : ℤ) (pids : List ℤ) (n : ℕ)
    → is_free k p ≡ false
    → IsFirst k pids n
    → IsFirst k (p ∷ pids) (suc n)
unfolding IsFirst
IsFirst-there k p pids n busy (inside, free, before) = (omega arith, free, earlier)
  where
    earlier : (j : ℕ) → j < suc n → is_free k (get_or (p ∷ pids) j (negsuc 0)) ≡ false
    earlier zero below = busy
    earlier (suc j) below = before j (omega arith)

-- What the scan from slot `i` on returns.
abbrev pub Scan : Kernel → List ℤ → ℕ → Option ℕ → Type 0
Scan k pids i found =
    ((found ≡ none) × ((j : ℕ) → j < length pids → is_free k (get_or pids j (negsuc 0)) ≡ false))
    ⊎ ((n : ℕ) × (found ≡ some (i + n)) × IsFirst k pids n)

Scan-there :
    (k : Kernel) (p : ℤ) (pids : List ℤ) (i : ℕ) (found : Option ℕ)
    → is_free k p ≡ false
    → Scan k pids (i + 1) found
    → Scan k (p ∷ pids) i found
Scan-there k p pids i found busy (inl (none_there, all)) = inl (none_there, every)
  where
    every : (j : ℕ) → j < length (p ∷ pids) → is_free k (get_or (p ∷ pids) j (negsuc 0)) ≡ false
    every zero below = busy
    every (suc j) below = all j (omega arith)
Scan-there k p pids i found busy (inr (n, there, first)) =
    let at : i + 1 + n ≡ i + suc n = omega arith in
    inr (suc n, there ∙ ap some at, IsFirst-there k p pids n busy first)

free_slot_from-Scan : (k : Kernel) (pids : List ℤ) (i : ℕ) → Scan k pids i (free_slot_from i pids k)
unfolding free_slot_from is_free
free_slot_from-Scan k [] i = inl (refl, λ j below. absurd (omega arith))
free_slot_from-Scan k (negsuc n ∷ pids) i =
    let at : i ≡ i + 0 = omega arith in inr (0, ap some at, IsFirst-here k (negsuc n) pids refl)
free_slot_from-Scan k (pos pid ∷ pids) i = elim (Bool-cases (task_is_active pid k)) [
  | inl active ↦ rw active (
      Scan-there k (pos pid) pids i (free_slot_from (i + 1) pids k) (ap not active)
        (free_slot_from-Scan k pids (i + 1)))
  | inr over ↦
      let at : i ≡ i + 0 = omega arith in
      rw over (inr (0, ap some at, IsFirst-here k (pos pid) pids (ap not over)))
]

-- The slot that is taken is not that of an active task.
other_slot :
    (k : Kernel) (pids : List ℤ) (i j pid : ℕ)
    → get_or pids j (negsuc 0) ≡ pos pid
    → task_is_active pid k ≡ true
    → IsFirst k pids i
    → i ≢ j
unfolding IsFirst is_free
other_slot k pids i j pid owner active (inside, free, before) same =
    let mine : is_free k (get_or pids j (negsuc 0)) ≡ false = rw (owner, active) refl in
    true≢false (sym free ∙ ap (λ x. is_free k (get_or pids x (negsuc 0))) same ∙ mine)

IsFirst-inside : (k : Kernel) (pids : List ℤ) (n : ℕ) → length pids ≡ 4 → IsFirst k pids n → n < 4
unfolding IsFirst
IsFirst-inside k pids n four (inside, free, before) = omega (arith, inside)

-- The window and the stack of slot `j`, where the stacks are at `s`.
abbrev pub InSlot : ℕ → ℕ → ℕ → Type 0
InSlot s j a =
    ((slot_base j ≤ a) × (a < slot_base j + user_prog_max_size))
    ⊎ ((s + 4096 * j ≤ a) × (a < s + 4096 * j + 4096))

module _ (i j a s : ℕ) (low : s + 16384 ≤ 0x300000) (hi : i < 4) (hj : j < 4) (other : i ≢ j) where
  apart_window : InSlot s j a → Outside (slot_base i) (slot_base i + user_prog_max_size) a
  unfolding Outside
  apart_window mine = omega arith

  apart_area : InSlot s j a → Outside (s + 4096 * i) (s + 4096 * i + 512) a
  unfolding Outside
  apart_area mine = omega arith

module _ {D : Type 0} (dev : Disk D) (l : Layout) (exec_stacks : ℕ) where
  -- `find_free_slot` returns the first slot that was never used or whose task is over, and -1 only
  -- where each slot has an active task.
  pub find_free_slot-Scan :
      (m : Machine D) → Scan m.kernel m.slot_pid 0 (find_free_slot dev l exec_stacks m)
  unfolding find_free_slot
  find_free_slot-Scan m = free_slot_from-Scan m.kernel m.slot_pid 0

  -- Where the four stacks lie below the windows, the program's arguments are at most 127, and no
  -- segment to load of its file has more bytes in the file than in memory, `exec_run` changes no
  -- byte of the window or of the stack of a slot `j` whose task is active, whether or not it starts
  -- the program.
  pub exec_run-kept :
      (name : List ℕ) (name_address : ℕ) (argv : List (List ℕ)) (m : Machine D) (j a pid : ℕ)
      → exec_stacks + 16384 ≤ 0x300000
      → length m.slot_pid ≡ 4
      → length argv ≤ 127
      → IsWellSized (staged (fs_load_file dev name user_prog_max_size m.fs).0.1 m.elf_staging)
      → j < 4
      → get_or m.slot_pid j (negsuc 0) ≡ pos pid
      → task_is_active pid m.kernel ≡ true
      → InSlot exec_stacks j a
      → (exec_run dev l exec_stacks name name_address argv m).1.memory a ≡ m.memory a
  unfolding exec_run
  exec_run-kept name name_address argv m j a pid low four few sized slot owner active mine =
      elim (find_free_slot-Scan m) [
        | inl (full, all) ↦ rw (full, exec_run) refl
        | inr (i, free, first) ↦
            let other : i ≢ j = other_slot m.kernel m.slot_pid i j pid owner active first in
            let inside : i < 4 = IsFirst-inside m.kernel m.slot_pid i four first in
            let at : 0 + i ≡ i = omega arith in
            rw (free, exec_run, at)
              (run_in_slot-kept dev l exec_stacks i a (omega arith) (omega arith)
                (apart_window i j a exec_stacks low inside slot other mine)
                (apart_area i j a exec_stacks low inside slot other mine) name name_address argv m
                few sized)
      ]
