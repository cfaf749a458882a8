-- ===== src/Boot/Counted.antt =====
-- The tasks that main_entry of kernel/init.c leaves.
use mx_os.Prelude.{
  ℕ, suc, ◌+◌, ◌≡◌, refl, ◌∙◌, ap, List, [], ◌∷◌, map, arith, length, set, length-set, bit, true,
  false,
}
use mx_os.Lifecycle.{UserTask, create_task, create_user_task_ex, create_user_task}
use mx_os.Mem.{heap_init}
use mx_os.Lifecycle.Count.{IsCounted, lifecycle-IsCounted}
use mx_os.Paging.{Layout, paging_init}
use mx_os.Prelude.Int.{pos}
use mx_os.Sched.{clear_task, init_multitasking}
use mx_os.Task.{Task, task_at, Kernel}
use mx_os.Task.Table.{count_active, count_active-set}
use mx_os.Boot.{Symbols, start_kernel}

count_active-cleared : (ts : List Task) → count_active (map clear_task ts) ≡ 0
unfolding count_active clear_task
count_active-cleared [] = refl
count_active-cleared (t ∷ ts) = omega (arith, count_active-cleared ts)

length-cleared : (ts : List Task) → length (map clear_task ts) ≡ length ts
length-cleared [] = refl
length-cleared (t ∷ ts) = ap suc (length-cleared ts)

init_multitasking-IsCounted :
    (shell : ℕ) (k : Kernel) → length k.tasks ≡ 16 → IsCounted (init_multitasking shell k)
unfolding init_multitasking
init_multitasking-IsCounted shell k sixteen =
    let ts = map clear_task k.tasks in
    let first = record (task_at ts 0) { name = shell; active = true; priority = pos 0 } in
    let many : length ts ≡ 16 = length-cleared k.tasks ∙ sixteen in
    let none_on : count_active ts ≡ 0 = count_active-cleared k.tasks in
    let off : (task_at ts 0).active ≡ false = first_off k.tasks in
    record {
      sixteen = length-set ts 0 first ∙ many;
      here = omega arith;
      counted = one ts first (count_active-set ts 0 first (omega (arith, many))) none_on off;
    }
  where
    first_off : (us : List Task) → (task_at (map clear_task us) 0).active ≡ false
    first_off [] = refl
    first_off (t ∷ us) = unfold clear_task in refl

    one :
        (ts : List Task) (t : Task)
        → count_active (set ts 0 t) + bit (task_at ts 0).active ≡ count_active ts + bit t.active
        → count_active ts ≡ 0
        → (task_at ts 0).active ≡ false
        → bit t.active ≡ count_active (set ts 0 t)
    one ts t counts none_on off = omega (arith, rw (off, none_on) at counts)

-- From any state with 16 entries in the table, the start leaves `task_count` the number of active
-- tasks and the current task in the table, whether or not its two tasks could be created.
pub start_kernel-IsCounted :
    (l : Layout) (y : Symbols) (k : Kernel) → length k.tasks ≡ 16 → IsCounted (start_kernel l y k)
unfolding start_kernel create_user_task create_user_task_ex
start_kernel-IsCounted l y k sixteen =
    let ready : Kernel = record k {
      paging = paging_init l k.paging;
      heap = heap_init 0x100000 0x100000 k.heap;
    } in
    let started = init_multitasking-IsCounted y.shell_name ready sixteen in
    let clock =
      create_task y.task_exit y.task_clock y.clock_name (init_multitasking y.shell_name ready) in
    let demo : UserTask = record {
      entry = y.user_task_demo;
      name = y.demo_name;
      user_stack_top = y.user_demo_stack_top;
      user_stack_size = y.user_demo_stack_size;
      code_base = 0;
      code_size = 0;
      init_ebx = 0;
      init_ecx = 0;
    } in
    let with_clock : IsCounted clock.1 =
      (lifecycle-IsCounted l demo y.task_exit y.task_clock y.clock_name 0
        (init_multitasking y.shell_name ready) started).0 in
    (lifecycle-IsCounted l demo 0 0 0 0 clock.1 with_clock).1
