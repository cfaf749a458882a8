-- ===== src/Sched/Dump.antt =====
-- `sched_dump_tasks` of kernel/sched.c, which the command "ps" runs, and what it leaves on the
-- screen. The strings of the names are given by their addresses.
use mx_os.Prelude.{
  ℕ, ◌+◌, ◌≡◌, refl, ◌∙◌, sym, ap, Bool, true, false, inl, inr, Option, none, some, List, [], ◌∷◌,
  ◌++◌, ◌==◌, if◌then◌else◌, Bool-cases,
}
use mx_os.Screen.Text.{IsText, kprint-append, IsText-append, dec_text-IsText, no_nul-IsText}
use mx_os.Screen.{Screen, kprint, kprint_dec, dec_text}
use mx_os.Task.{Task, Kernel}

abbrev pub dump_title : List ℕ
dump_title =
    80 ∷ 73 ∷ 68 ∷ 32 ∷ 32 ∷ 78 ∷ 79 ∷ 77 ∷ 32 ∷ 32 ∷ 32 ∷ 32 ∷ 32 ∷ 32 ∷ 32 ∷ 32 ∷ 32 ∷ 32 ∷ 32
    ∷ 32 ∷ 32 ∷ 32 ∷ 69 ∷ 84 ∷ 65 ∷ 84 ∷ 32 ∷ 32 ∷ 32 ∷ 32 ∷ 32 ∷ 32 ∷ 32 ∷ 69 ∷ 83 ∷ 80 ∷ 65 ∷ 67
    ∷ 69 ∷ 10 ∷ []

abbrev pub pid_gap : List ℕ
pid_gap = 32 ∷ 32 ∷ 32 ∷ 32 ∷ []

abbrev pub name_gap : List ℕ
name_gap = 32 ∷ 32 ∷ 32 ∷ 32 ∷ 32 ∷ 32 ∷ 32 ∷ 32 ∷ 32 ∷ 32 ∷ 32 ∷ 32 ∷ []

abbrev pub no_name : List ℕ
no_name = 63 ∷ []

abbrev pub running_label : List ℕ
running_label = 101 ∷ 110 ∷ 32 ∷ 99 ∷ 111 ∷ 117 ∷ 114 ∷ 115 ∷ 32 ∷ 32 ∷ []

abbrev pub sleeping_label : List ℕ
sleeping_label = 115 ∷ 111 ∷ 109 ∷ 109 ∷ 101 ∷ 105 ∷ 108 ∷ 32 ∷ 32 ∷ 32 ∷ []

abbrev pub ready_label : List ℕ
ready_label = 112 ∷ 114 ∷ 101 ∷ 116 ∷ 101 ∷ 32 ∷ 32 ∷ 32 ∷ 32 ∷ 32 ∷ []

abbrev pub isolated_label : List ℕ
isolated_label = 105 ∷ 115 ∷ 111 ∷ 108 ∷ 101 ∷ 32 ∷ 40 ∷ 114 ∷ 105 ∷ 110 ∷ 103 ∷ 51 ∷ 41 ∷ []

abbrev pub shared_label : List ℕ
shared_label = 110 ∷ 111 ∷ 121 ∷ 97 ∷ 117 ∷ 32 ∷ 112 ∷ 97 ∷ 114 ∷ 116 ∷ 97 ∷ 103 ∷ 101 ∷ []

abbrev pub row_end : List ℕ
row_end = 10 ∷ []

module _ (name_at : ℕ → List ℕ) where
  -- The name of a task, a null pointer aside.
  abbrev shown_name : Task → List ℕ
  shown_name t = if t.name == 0 then no_name else name_at t.name

  -- Its state; `current` is `current_task`.
  abbrev shown_state : ℕ → ℕ → Task → List ℕ
  shown_state current i t =
      if i == current then running_label else if t.sleeping then sleeping_label else ready_label

  -- Its address space.
  abbrev shown_space : Option ℕ → List ℕ
  shown_space none = shared_label
  shown_space (some i) = isolated_label

  -- The body of the loop for an active task.
  unfoldable pub dump_task : ℕ → ℕ → Task → Screen → Screen
  dump_task current i t s =
      let numbered = kprint pid_gap (kprint_dec i s) in
      let named = kprint name_gap (kprint (shown_name t) numbered) in
      let stated = kprint (shown_state current i t) named in
      kprint row_end (kprint (shown_space t.addr_space) stated)

  -- The loop from task `i` on.
  unfoldable pub dump_from : ℕ → ℕ → List Task → Screen → Screen
  dump_from current i [] s = s
  dump_from current i (t ∷ tasks) s =
      dump_from current (i + 1) tasks (if t.active then dump_task current i t s else s)

  unfoldable pub sched_dump_tasks : Kernel → Screen → Screen
  sched_dump_tasks k s = dump_from k.current_task 0 k.tasks (kprint dump_title s)

  -- The row of a task, and the rows of all that are active, in the order of their pids.
  unfoldable pub row : ℕ → ℕ → Task → List ℕ
  row current i t =
      dec_text i
      ++ (pid_gap
          ++ (shown_name t
              ++ (name_gap ++ (shown_state current i t ++ (shown_space t.addr_space ++ row_end)))))

  unfoldable pub rows : ℕ → ℕ → List Task → List ℕ
  rows current i [] = []
  rows current i (t ∷ tasks) =
      let rest = rows current (i + 1) tasks in if t.active then row current i t ++ rest else rest

  module _ (plain : (a : ℕ) → IsText (name_at a)) where
    shown_name-IsText : (t : Task) → IsText (shown_name t)
    shown_name-IsText t = elim (Bool-cases (t.name == 0)) [
      | inl null ↦ rw null (no_nul-IsText no_name refl)
      | inr named ↦ rw named (plain t.name)
    ]

    shown_state-IsText : (current i : ℕ) (t : Task) → IsText (shown_state current i t)
    shown_state-IsText current i t = elim (Bool-cases (i == current)) [
      | inl runs ↦ rw runs (no_nul-IsText running_label refl)
      | inr waits ↦ elim (Bool-cases t.sleeping) [
        | inl asleep ↦ rw (waits, asleep) (no_nul-IsText sleeping_label refl)
        | inr ready ↦ rw (waits, ready) (no_nul-IsText ready_label refl)
      ]
    ]

    shown_space-IsText : (space : Option ℕ) → IsText (shown_space space)
    shown_space-IsText none = no_nul-IsText shared_label refl
    shown_space-IsText (some i) = no_nul-IsText isolated_label refl

    row-IsText : (current i : ℕ) (t : Task) → IsText (row current i t)
    unfolding row
    row-IsText current i t =
        let ending =
          IsText-append (shown_space t.addr_space) row_end (shown_space-IsText t.addr_space)
            (no_nul-IsText row_end refl) in
        let stated =
          IsText-append (shown_state current i t) (shown_space t.addr_space ++ row_end)
            (shown_state-IsText current i t) ending in
        let gap = IsText-append name_gap _ (no_nul-IsText name_gap refl) stated in
        let named = IsText-append (shown_name t) _ (shown_name-IsText t) gap in
        IsText-append (dec_text i) _ (dec_text-IsText i)
          (IsText-append pid_gap _ (no_nul-IsText pid_gap refl) named)

    dump_task-row :
        (current i : ℕ) (t : Task) (s : Screen)
        → dump_task current i t s ≡ kprint (row current i t) s
    unfolding dump_task row kprint_dec
    dump_task-row current i t s =
        let state = shown_state current i t in
        let space = shown_space t.addr_space in
        let s1 = kprint (dec_text i) s in
        let s2 = kprint pid_gap s1 in
        let s3 = kprint (shown_name t) s2 in
        let s4 = kprint name_gap s3 in
        sym (
          kprint-append (dec_text i) _ s (dec_text-IsText i)
          ∙ kprint-append pid_gap _ s1 (no_nul-IsText pid_gap refl)
          ∙ kprint-append (shown_name t) _ s2 (shown_name-IsText t)
          ∙ kprint-append name_gap _ s3 (no_nul-IsText name_gap refl)
          ∙ kprint-append state _ s4 (shown_state-IsText current i t)
          ∙ kprint-append space row_end (kprint state s4) (shown_space-IsText t.addr_space))

    one_row :
        (current i : ℕ) (t : Task) (rest : List ℕ) (s : Screen) (active : Bool)
        → kprint rest (if active then dump_task current i t s else s)
          ≡ kprint (if active then row current i t ++ rest else rest) s
    one_row current i t rest s true =
        ap (kprint rest) (dump_task-row current i t s)
        ∙ sym (kprint-append (row current i t) rest s (row-IsText current i t))
    one_row current i t rest s false = refl

    dump_from-rows :
        (current i : ℕ) (tasks : List Task) (s : Screen)
        → dump_from current i tasks s ≡ kprint (rows current i tasks) s
    unfolding dump_from rows
    dump_from-rows current i [] s = unfold kprint in refl
    dump_from-rows current i (t ∷ tasks) s =
        dump_from-rows current (i + 1) tasks (if t.active then dump_task current i t s else s)
        ∙ one_row current i t (rows current (i + 1) tasks) s t.active

    -- The title, and a row for each active task.
    pub sched_dump_tasks-rows :
        (k : Kernel) (s : Screen)
        → sched_dump_tasks k s ≡ kprint (dump_title ++ rows k.current_task 0 k.tasks) s
    unfolding sched_dump_tasks
    sched_dump_tasks-rows k s =
        dump_from-rows k.current_task 0 k.tasks (kprint dump_title s)
        ∙ sym (
            kprint-append dump_title (rows k.current_task 0 k.tasks) s
              (no_nul-IsText dump_title refl))
