-- ===== src/Lifecycle/Frame.antt =====
-- The stack of a new task of kernel/sched.c, as `popal` and `iret` at the end of the timer's
-- interrupt read it.
use mx_os.Prelude.{
  ℕ, zero, suc, ◌+◌, ◌*◌, ◌%◌, ◌^◌, ◌≤◌, ◌<◌, ◌≡◌, refl, ◌∙◌, ap, Option, List, [], ◌∷◌, arith,
  length, add32, sub32, update, ◌==◌, get_or-set_self, none, false, true, ==_iff,
}
use mx_os.Task.{task_at, no_task, Kernel, task_stack_size}
use mx_os.Lifecycle.{Stack, push, push_all, start_task, user_frame, kernel_frame}

-- The `n` words from `sp` upwards, in the order in which they are popped.
unfoldable pub pops : ℕ → ℕ → (ℕ → ℕ) → List ℕ
pops zero sp ram = []
pops (suc n) sp ram = ram sp ∷ pops n (add32 sp 4) ram

-- `vs`, last first, and then `acc`.
unfoldable pub rev_onto : List ℕ → List ℕ → List ℕ
rev_onto [] acc = acc
rev_onto (v ∷ vs) acc = rev_onto vs (v ∷ acc)

-- A write `d` bytes below `sp` is not among the words above, as long as the address space is not
-- gone round.
pops-update :
    (n d a sp v : ℕ) (ram : ℕ → ℕ)
    → a < 2 ^ 32
    → sp ≡ (a + d) % 2 ^ 32
    → 0 < d
    → d + 4 * n ≤ 2 ^ 32
    → pops n sp (update ram a v) ≡ pops n sp ram
unfolding pops
pops-update zero d a sp v ram ha e h room = refl
pops-update (suc n) d a sp v ram ha e h room =
    let apart : (sp == a) ≡ false = ground arith in
    rw apart (
      ap (λ ws. ram sp ∷ ws)
        (pops-update n (d + 4) a (add32 sp 4) v ram ha (omega arith) (omega arith) (omega arith)))

push_in : (v : ℕ) (s : Stack) → (push v s).sp < 2 ^ 32
unfolding push
push_in v s = omega arith

pops-push :
    (v m : ℕ) (s : Stack)
    → s.sp < 2 ^ 32
    → 4 * (m + 1) ≤ 2 ^ 32
    → pops (suc m) (push v s).sp (push v s).ram ≡ v ∷ pops m s.sp s.ram
unfolding push pops
pops-push v m s below room =
    let own : (sub32 s.sp 4 == sub32 s.sp 4) ≡ true =
      (==_iff (sub32 s.sp 4) (sub32 s.sp 4)).1 refl in
    let back : add32 (sub32 s.sp 4) 4 ≡ s.sp = omega arith in
    rw (own, back)
      (ap (λ ws. v ∷ ws)
        (pops-update m 4 (sub32 s.sp 4) s.sp v s.ram (omega arith) (omega arith) (omega arith)
          (omega arith)))

-- What is pushed is popped in the reverse order, and then what was there before.
pops-push_all :
    (vs : List ℕ) (m : ℕ) (s : Stack)
    → s.sp < 2 ^ 32
    → 4 * (length vs + m) ≤ 2 ^ 32
    → pops (length vs + m) (push_all vs s).sp (push_all vs s).ram ≡ rev_onto vs (pops m s.sp s.ram)
unfolding push_all rev_onto
pops-push_all [] m s below room = ap (λ n. pops n s.sp s.ram) (omega arith)
pops-push_all (v ∷ vs) m s below room =
    ap (λ n. pops n (push_all vs (push v s)).sp (push_all vs (push v s)).ram) (omega arith)
    ∙ pops-push_all vs (suc m) (push v s) (push_in v s) (omega arith)
    ∙ ap (rev_onto vs) (pops-push v m s below (omega arith))

-- The first switch to a new user task finds EDI, ESI, EBP, ESP, EBX, EDX, ECX, EAX for `popal` and EIP,
-- CS, EFLAGS, ESP, SS for `iret`: ring 3, interrupts enabled, the entry point, the stack of the task,
-- and the two arguments in EBX and ECX.
pub start_task-user_frame :
    (i stack_address name entry top ebx ecx : ℕ) (space : Option ℕ) (k : Kernel)
    → i < length k.tasks
    → let after = start_task i stack_address (user_frame top entry ebx ecx) name space k in
      pops 13 (task_at after.tasks i).esp after.ram
      ≡ 0 ∷ 0 ∷ 0 ∷ 0 ∷ ebx ∷ 0 ∷ ecx ∷ 0 ∷ entry ∷ 0x1B ∷ 0x202 ∷ top ∷ 0x23 ∷ []
unfolding start_task rev_onto pops
start_task-user_frame i stack_address name entry top ebx ecx space k h =
    rw (get_or-set_self k.tasks i _ no_task h) (
      pops-push_all (user_frame top entry ebx ecx) 0
        (record { sp = add32 stack_address task_stack_size; ram = k.ram }) (omega arith)
        (omega arith))

-- The first switch to a new kernel task finds zeros for `popal`, EIP, CS and EFLAGS for `iret`, in
-- ring 0, and above them `task_exit` as the return address of the entry point.
pub start_task-kernel_frame :
    (i stack_address name entry exit : ℕ) (k : Kernel)
    → i < length k.tasks
    → let after = start_task i stack_address (kernel_frame exit entry) name none k in
      pops 12 (task_at after.tasks i).esp after.ram
      ≡ 0 ∷ 0 ∷ 0 ∷ 0 ∷ 0 ∷ 0 ∷ 0 ∷ 0 ∷ entry ∷ 8 ∷ 0x202 ∷ exit ∷ []
unfolding start_task rev_onto pops
start_task-kernel_frame i stack_address name entry exit k h =
    rw (get_or-set_self k.tasks i _ no_task h) (
      pops-push_all (kernel_frame exit entry) 0
        (record { sp = add32 stack_address task_stack_size; ram = k.ram }) (omega arith)
        (omega arith))
