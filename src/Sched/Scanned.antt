-- ===== src/Sched/Scanned.antt =====
-- The loop in `find_next_task` of kernel/sched.c: what is known after some of its rounds.
use mx_os.Prelude.{
  ℕ, zero, suc, ◌+◌, ◌≤◌, ◌<◌, ◌≡◌, refl, ◌∙◌, sym, ap, true, ◌⊎◌, inl, inr, Option, none, some,
  List, arith, length, ◌==◌, if◌then◌else◌, Bool-cases, subst,
}
use native.Mathlib.Decide.{ℕ_discrete}
use mx_os.Prelude.Int.{ℤ, negsuc, ◌≤ℤ◌, ◌<ℤ◌}
use mx_os.Task.{Task, task_at}
use mx_os.Sched.{Scan, look_at, scan}
use mx_os.Sched.Round.{is_ready, woken, candidate, look_at-tasks, look_at-best, length-look_at}

-- A fact of all rounds below `n` and of round `n`.
below_next {ℓ} : (P : ℕ → Type ℓ) (n j : ℕ) → j < n + 1 → (j < n → P j) → P n → P j
below_next P n j h before at = elim (ℕ_discrete j n) [
  | yes e ↦ subst P (sym e) at
  | no ne ↦ before (omega arith)
]

-- Waking twice is waking once, and does not change who is ready.
woken_lem :
    (ticks : ℕ) (t : Task)
    → (is_ready ticks (woken ticks t) ≡ is_ready ticks t)
      × ((woken ticks t).priority ≡ t.priority)
      × (woken ticks (woken ticks t) ≡ woken ticks t)
woken_lem ticks t = elim (Bool-cases (is_ready ticks t)) [
  | inl run ↦ rw run (ground arith, refl, ground arith)
  | inr no_run ↦ rw no_run (no_run, refl, rw no_run)
]

module _ (ticks current : ℕ) (ts : List Task) where
  -- The task of round `i`, before the loop.
  abbrev pub seen : ℕ → Task
  seen i = task_at ts (candidate current i)

  -- Round `i` has won among the rounds below `n`: its task is ready, of a priority that is at least
  -- that of every ready task, and above that of every ready task of an earlier round.
  pub record Leads (n : ℕ) (best : ℤ) (i : ℕ) : Type 0 where
    pub from_one : 1 ≤ i
    pub below : i < n
    pub ready : is_ready ticks (seen i) ≡ true
    pub has_best : (seen i).priority ≡ best
    pub not_negative : negsuc 0 <ℤ best
    pub most : (j : ℕ) → 1 ≤ j → j < n → is_ready ticks (seen j) ≡ true → (seen j).priority ≤ℤ best
    pub earliest :
        (j : ℕ) → 1 ≤ j → j < i → is_ready ticks (seen j) ≡ true → (seen j).priority <ℤ best

  -- What the two local variables say.
  abbrev pub Best : ℕ → Option ℕ → ℤ → Type 0
  Best n none best =
      (best ≡ negsuc 0)
      × ((j : ℕ) → 1 ≤ j → j < n → is_ready ticks (seen j) ≡ true → (seen j).priority ≤ℤ negsuc 0)
  Best n (some m) best = (i : ℕ) × (m ≡ candidate current i) × Leads n best i

  pub record Scanned (n : ℕ) (s : Scan) : Type 0 where
    pub size : length s.tasks ≡ length ts
    pub entry :
        (c : ℕ)
        → (task_at s.tasks c ≡ task_at ts c) ⊎ (task_at s.tasks c ≡ woken ticks (task_at ts c))
    pub done :
        (j : ℕ) → 1 ≤ j → j < n → task_at s.tasks (candidate current j) ≡ woken ticks (seen j)
    pub best : Best n s.next_task s.best_priority

  -- Readiness and priority can be read off the table as it is in the loop.
  pub same_task :
      (n c : ℕ) (s : Scan)
      → Scanned n s
      → (is_ready ticks (task_at s.tasks c) ≡ is_ready ticks (task_at ts c))
        × ((task_at s.tasks c).priority ≡ (task_at ts c).priority)
        × (woken ticks (task_at s.tasks c) ≡ woken ticks (task_at ts c))
  same_task n c s v = elim (v.entry c) [
    | inl e ↦ rw e (refl, refl, refl)
    | inr e ↦ rw e (woken_lem ticks (task_at ts c))
  ]

  -- A round that takes nothing.
  Best-keep :
      (n : ℕ) (o : Option ℕ) (best : ℤ)
      → Best n o best
      → (is_ready ticks (seen n) ≡ true → (seen n).priority ≤ℤ best)
      → Best (n + 1) o best
  Best-keep n none best (e, all) h = (
    e,
    λ j lo hi.
        below_next (λ k. is_ready ticks (seen k) ≡ true → (seen k).priority ≤ℤ negsuc 0) n j hi
          (λ lt. all j lo lt) (λ r. rw e at (h r)),
  )
  Best-keep n (some m) best (i, e, w) h = (
    i,
    e,
    record {
      from_one = w.from_one;
      below = omega (arith, w.below);
      ready = w.ready;
      has_best = w.has_best;
      not_negative = w.not_negative;
      most = λ j lo hi.
          below_next (λ k. is_ready ticks (seen k) ≡ true → (seen k).priority ≤ℤ best) n j hi
            (λ lt. w.most j lo lt) h;
      earliest = w.earliest;
    },
  )

  Best-max :
      (n : ℕ) (o : Option ℕ) (best : ℤ)
      → Best n o best
      → (negsuc 0 ≤ℤ best)
        × ((j : ℕ) → 1 ≤ j → j < n → is_ready ticks (seen j) ≡ true → (seen j).priority ≤ℤ best)
  Best-max n none best (e, all) = rw e (omega arith, all)
  Best-max n (some m) best (i, e, w) = (omega (arith, w.not_negative), w.most)

  -- A round that takes its task.
  Best-take :
      (n : ℕ) (o : Option ℕ) (best p : ℤ)
      → 1 ≤ n
      → Best n o best
      → is_ready ticks (seen n) ≡ true
      → (seen n).priority ≡ p
      → best <ℤ p
      → Best (n + 1) (some (candidate current n)) p
  Best-take n o best p one b run e up =
      let (low, all) = Best-max n o best b in
      (
        n,
        refl,
        record {
          from_one = one;
          below = omega arith;
          ready = run;
          has_best = e;
          not_negative = omega arith;
          most = λ j lo hi.
              below_next (λ k. is_ready ticks (seen k) ≡ true → (seen k).priority ≤ℤ p) n j hi
                (λ lt r. omega (arith, all j lo lt r)) (λ r. rw e (omega arith));
          earliest = λ j lo hi r. omega (arith, all j lo hi r);
        },
      )

  pub Scanned-start : Scanned 1 (record { tasks = ts; next_task = none; best_priority = negsuc 0 })
  Scanned-start = record {
    size = refl;
    entry = λ c. inl refl;
    done = λ j lo hi. absurd (omega arith);
    best = (refl, λ j lo hi r. absurd (omega arith));
  }

  module _ (n : ℕ) (s : Scan) (one : 1 ≤ n) (sixteen : length ts ≡ 16) (v : Scanned n s) where
    abbrev c : ℕ
    c = candidate current n

    abbrev after : Scan
    after = look_at ticks c s

    in_table : c < length s.tasks
    in_table = omega (arith, v.size)

    after_task :
        (d : ℕ)
        → task_at after.tasks d ≡ (if d == c then woken ticks (task_at ts c) else task_at s.tasks d)
    after_task d =
        look_at-tasks ticks c d s in_table
        ∙ ap (λ t. if d == c then t else task_at s.tasks d) (same_task n c s v).2

    after_entry :
        (d : ℕ)
        → (task_at after.tasks d ≡ task_at ts d)
          ⊎ (task_at after.tasks d ≡ woken ticks (task_at ts d))
    after_entry d = elim (Bool-cases (d == c)) [
      | inl at ↦ let same : d ≡ c = ground arith in inr (after_task d ∙ rw (at, same) refl)
      | inr other ↦ rw (after_task d, other) (v.entry d)
    ]

    after_done :
        (j : ℕ)
        → 1 ≤ j
        → j < n + 1
        → task_at after.tasks (candidate current j) ≡ woken ticks (seen j)
    after_done j lo hi = elim (Bool-cases (candidate current j == c)) [
      | inl at ↦
          let same : candidate current j ≡ c = ground arith in
          after_task (candidate current j) ∙ rw (at, same) refl
      | inr other ↦
          let before : j < n = elim (ℕ_discrete j n) [
            | yes e ↦ absurd (ground arith)
            | no ne ↦ omega arith
          ] in
          rw (after_task (candidate current j), other) (v.done j lo before)
    ]

    after-Best : Best (n + 1) after.next_task after.best_priority
    after-Best = elim (look_at-best ticks c s) [
      | inl (next, best, low) ↦
          rw (next, best)
            (Best-keep n s.next_task s.best_priority v.best (λ r.
              subst (λ p. p ≤ℤ s.best_priority) (same_task n c s v).1
                (low ((same_task n c s v).0 ∙ r))))
      | inr (next, best, run, up) ↦
          rw (next, best)
            (Best-take n s.next_task s.best_priority _ one v.best (sym (same_task n c s v).0 ∙ run)
              (sym (same_task n c s v).1) up)
    ]

    Scanned-look_at : Scanned (n + 1) after
    Scanned-look_at = record {
      size = length-look_at ticks c s ∙ v.size;
      entry = after_entry;
      done = after_done;
      best = after-Best;
    }

  -- The rounds from `i` on, up to round `m - 1`.
  pub Scanned-scan :
      (n i m : ℕ) (s : Scan)
      → 1 ≤ i
      → length ts ≡ 16
      → i + n ≡ m
      → Scanned i s
      → Scanned m (scan n i ticks current s)
  unfolding scan
  Scanned-scan zero i m s one six e v = let at : i ≡ m = omega arith in rw at at v
  Scanned-scan (suc n) i m s one six e v =
      Scanned-scan n (i + 1) m (look_at ticks (candidate current i) s) (omega arith) six
        (omega arith) (Scanned-look_at i s one six v)
