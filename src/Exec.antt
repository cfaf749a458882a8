-- ===== src/Exec.antt =====
-- The program loader of kernel/exec.c: slots, the arguments' area, and `exec_run`. Memory gives the
-- byte at each address. The clearing of the window, the file system, the ELF loader and the
-- creation of the task follow one another as in the code; the messages on the screen are left out.
pub mod Isolated
pub mod Slots
pub mod Tests
use mx_os.Prelude.{
  ℕ, zero, suc, ◌+◌, ◌*◌, Bool, true, false, Option, none, some, List, [], ◌∷◌, length, set, get_or,
  ltb, if◌then◌else◌, update, u32, add32,
}
use mx_os.Prelude.Int.{ℤ, pos, negsuc}
use mx_os.Elf.{write32, elf_load}
use mx_os.Fs.{Disk, Fs, fs_load_file, fs_file_exists, fs_write_file}
use mx_os.Lifecycle.{UserTask, create_user_task_argv}
use mx_os.Paging.{Layout}
use mx_os.Sched.{task_is_active}
use mx_os.Task.{Kernel}

abbrev pub user_prog_max_size : ℕ
user_prog_max_size = 0x20000

abbrev pub slot_stride : ℕ
slot_stride = 0x30000

abbrev pub slot_base : ℕ → ℕ
slot_base i = 0x300000 + i * slot_stride

abbrev pub link_base : ℕ
link_base = 0x300000

abbrev pub argv_area_size : ℕ
argv_area_size = 512

-- `slot_pid` has a negative number where the slot was never used.
pub record Machine (D : Type 0) : Type 0 where
  pub kernel : Kernel
  pub fs : Fs D
  pub memory : ℕ → ℕ
  pub elf_staging : ℕ → ℕ
  pub slot_pid : List ℤ

-- The loop of `find_free_slot`, from slot `i` on.
pub free_slot_from : ℕ → List ℤ → Kernel → Option ℕ
free_slot_from i [] k = none
free_slot_from i (negsuc n ∷ pids) k = some i
free_slot_from i (pos pid ∷ pids) k =
    let rest = free_slot_from (i + 1) pids k in if task_is_active pid k then rest else some i

-- The bytes of `bytes`, one after the other from address `a` on.
unfoldable pub put_bytes : List ℕ → ℕ → (ℕ → ℕ) → ℕ → ℕ
put_bytes [] a mem = mem
put_bytes (b ∷ bytes) a mem = put_bytes bytes (a + 1) (update mem (u32 a) b)

-- `ptr_table[j] = 0` for each argument that is left, from index `i` on.
pub null_pointers : List (List ℕ) → ℕ → ℕ → (ℕ → ℕ) → ℕ → ℕ
null_pointers [] i stack_base mem = mem
null_pointers (arg ∷ args) i stack_base mem =
    null_pointers args (i + 1) stack_base (write32 mem (u32 (stack_base + 4 * i)) 0)

-- The loop of `build_argv`, from argument `i` on; `str_area` is always `stack_base + used`. An argument
-- is the list of the bytes before its terminator.
unfoldable pub put_args : List (List ℕ) → ℕ → ℕ → ℕ → (ℕ → ℕ) → ℕ → ℕ
put_args [] i used stack_base mem = mem
put_args (arg ∷ args) i used stack_base mem =
    let len = length arg + 1 in
    let str_area = stack_base + used in
    let copied = update (put_bytes arg str_area mem) (u32 (str_area + length arg)) 0 in
    let rest =
      put_args args (i + 1) (used + len) stack_base
        (write32 copied (u32 (stack_base + 4 * i)) (u32 str_area)) in
    if ltb argv_area_size (used + len) then null_pointers (arg ∷ args) i stack_base mem else rest

-- `build_argv`, which returns `stack_base`.
unfoldable pub build_argv : ℕ → List (List ℕ) → (ℕ → ℕ) → ℕ → ℕ
build_argv stack_base argv mem =
    write32 (put_args argv 0 ((length argv + 1) * 4) stack_base mem)
      (u32 (stack_base + 4 * length argv)) 0

-- `((uint8_t*)base)[i] = 0` for `n` bytes from `a` on.
pub clear_bytes : ℕ → ℕ → (ℕ → ℕ) → ℕ → ℕ
clear_bytes zero a mem = mem
clear_bytes (suc n) a mem = clear_bytes n (a + 1) (update mem (u32 a) 0)

-- The staging buffer once `bytes` have been written to its start.
pub staged : List ℕ → (ℕ → ℕ) → ℕ → ℕ
staged bytes old o = if ltb o (length bytes) then get_or bytes o 0 else old o

module _ {D : Type 0} (dev : Disk D) (l : Layout) (exec_stacks : ℕ) where
  -- The stack of a slot; `exec_stacks` is the linker's.
  abbrev pub stack_of : ℕ → ℕ
  stack_of slot = exec_stacks + 4096 * slot

  pub find_free_slot : Machine D → Option ℕ
  find_free_slot m = free_slot_from 0 m.slot_pid m.kernel

  -- The file in the staging buffer, whatever comes of it.
  pub load_program : List ℕ → ℕ → Machine D → (Bool × ℕ) × Machine D
  load_program name slot m =
      let file = fs_load_file dev name user_prog_max_size m.fs in
      (
        (file.0.0, length file.0.1),
        record m {
          memory = clear_bytes user_prog_max_size (slot_base slot) m.memory;
          fs = file.1;
          elf_staging = staged file.0.1 m.elf_staging;
        },
      )

  -- With the program in memory: its arguments and its task.
  pub start_program : ℕ → List (List ℕ) → ℕ → ℕ → Machine D → Option ℕ × Machine D
  start_program name_address argv slot entry m =
      let stack = stack_of slot in
      let memory = build_argv stack argv m.memory in
      let task =
        create_user_task_argv l
          (record {
            entry = entry;
            name = name_address;
            user_stack_top = add32 stack 4096;
            user_stack_size = 4096;
            code_base = slot_base slot;
            code_size = user_prog_max_size;
            init_ebx = length argv;
            init_ecx = stack;
          })
          m.kernel in
      elim task.0 [
        | none ↦ (none, record m { memory = memory; kernel = task.1 })
        | some pid ↦ (
          some pid,
          record m { memory = memory; kernel = task.1; slot_pid = set m.slot_pid slot (pos pid) },
        )
      ]

  pub run_loaded : ℕ → List (List ℕ) → ℕ → ℕ → Machine D → Option ℕ × Machine D
  run_loaded name_address argv slot size m =
      let elf =
        elf_load m.elf_staging size (slot_base slot) user_prog_max_size link_base m.memory in
      elim elf.0 [
        | none ↦ (none, record m { memory = elf.1 })
        | some entry ↦ start_program name_address argv slot entry (record m { memory = elf.1 })
      ]

  pub run_in_slot : List ℕ → ℕ → List (List ℕ) → ℕ → Machine D → Option ℕ × Machine D
  run_in_slot name name_address argv slot m =
      let loaded = load_program name slot m in
      if loaded.0.0 then run_loaded name_address argv slot loaded.0.1 loaded.1 else (none, loaded.1)

  -- `name` is a string at `name_address`; `none` is the result -1.
  pub exec_run : List ℕ → ℕ → List (List ℕ) → Machine D → Option ℕ × Machine D
  exec_run name name_address argv m = elim (find_free_slot m) [
    | none ↦ (none, m)
    | some slot ↦ run_in_slot name name_address argv slot m
  ]

-- A program that is not on the disk yet is written there; `size` is that of the embedded file.
pub seed_program : {D : Type 0} → Disk D → List ℕ → (ℕ → ℕ) → ℕ → Fs D → Fs D
seed_program dev name data_at size fs =
    if fs_file_exists dev name fs
    then fs
    else if ltb 0 size
    then (fs_write_file dev name data_at size fs).1
    else fs

-- `exec_seed_programs`, for the two embedded files.
pub exec_seed_programs : {D : Type 0} → Disk D → (ℕ → ℕ) → ℕ → (ℕ → ℕ) → ℕ → Fs D → Fs D
exec_seed_programs dev hello_at hello_size echo_at echo_size fs =
    seed_program dev (101 ∷ 99 ∷ 104 ∷ 111 ∷ []) echo_at echo_size
      (seed_program dev (104 ∷ 101 ∷ 108 ∷ 108 ∷ 111 ∷ []) hello_at hello_size fs)
