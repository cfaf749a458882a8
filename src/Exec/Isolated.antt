-- ===== src/Exec/Isolated.antt =====
-- What `exec_run` of kernel/exec.c writes to: the window and the arguments' area of its slot.
use mx_os.Prelude.{
  ℕ, zero, suc, ◌+◌, ◌*◌, ◌^◌, ◌≤◌, ◌≡◌, refl, ◌∙◌, Option, none, some, List, [], ◌∷◌, arith,
  length, set, ltb, update, u32, add32, Bool-cases, Option-cases, inl, inr,
}
use mx_os.Prelude.Int.{pos}
use mx_os.Elf.{write32, elf_load, read16, read32}
use mx_os.Elf.Bytes.{Outside, put-Outside, write32-Outside}
use mx_os.Elf.Window.{IsSmall, elf_load-kept}
use mx_os.Fs.{Disk, fs_load_file}
use mx_os.Lifecycle.{create_user_task_argv}
use mx_os.Paging.{Layout}
use mx_os.Task.{Kernel}
use mx_os.Exec.{
  user_prog_max_size, link_base, Machine, put_bytes, null_pointers, put_args, build_argv,
  clear_bytes, staged, stack_of, slot_base, load_program, start_program, run_loaded, run_in_slot,
}

-- No segment to load of the ELF file `image` has more bytes in the file than in memory.
unfoldable pub IsWellSized : (ℕ → ℕ) → Type 0
IsWellSized image = IsSmall image (read16 image 44) (read32 image 28)

module _ (lo hi a : ℕ) (top : hi ≤ 2 ^ 32) (apart : Outside lo hi a) where
  pub put_bytes-kept :
      (bytes : List ℕ) (x : ℕ) (mem : ℕ → ℕ)
      → lo ≤ x
      → x + length bytes ≤ hi
      → put_bytes bytes x mem a ≡ mem a
  unfolding put_bytes
  put_bytes-kept [] x mem above below = refl
  put_bytes-kept (b ∷ bytes) x mem above below =
      put_bytes-kept bytes (x + 1) (update mem (u32 x) b) (omega arith) (omega arith)
      ∙ put-Outside mem x b lo hi a top above (omega arith) apart

  word-kept : (mem : ℕ → ℕ) (x v : ℕ) → lo ≤ x → x + 4 ≤ hi → write32 mem (u32 x) v a ≡ mem a
  word-kept mem x v above below =
      let at : u32 x ≡ x = omega arith in rw at (write32-Outside mem x v a (omega arith))

  clear_bytes-kept : (n x : ℕ) (mem : ℕ → ℕ) → lo ≤ x → x + n ≤ hi → clear_bytes n x mem a ≡ mem a
  unfolding clear_bytes
  clear_bytes-kept zero x mem above below = refl
  clear_bytes-kept (suc n) x mem above below =
      clear_bytes-kept n (x + 1) (update mem (u32 x) 0) (omega arith) (omega arith)
      ∙ put-Outside mem x 0 lo hi a top above (omega arith) apart

module _ (base a : ℕ) (top : base + 512 ≤ 2 ^ 32) (apart : Outside base (base + 512) a) where
  null_pointers-kept :
      (args : List (List ℕ)) (i : ℕ) (mem : ℕ → ℕ)
      → 4 * (i + length args) ≤ 512
      → null_pointers args i base mem a ≡ mem a
  unfolding null_pointers
  null_pointers-kept [] i mem fits = refl
  null_pointers-kept (arg ∷ args) i mem fits =
      null_pointers-kept args (i + 1) (write32 mem (u32 (base + 4 * i)) 0) (omega arith)
      ∙ word-kept base (base + 512) a top apart mem (base + 4 * i) 0 (omega arith) (omega arith)

  put_args-kept :
      (args : List (List ℕ)) (i used : ℕ) (mem : ℕ → ℕ)
      → 4 * (i + length args) ≤ 512
      → put_args args i used base mem a ≡ mem a
  unfolding put_args
  put_args-kept [] i used mem fits = refl
  put_args-kept (arg ∷ args) i used mem fits =
      elim (Bool-cases (ltb 512 (used + (length arg + 1)))) [
        | inl full ↦ rw full (null_pointers-kept (arg ∷ args) i mem fits)
        | inr held ↦
            let room : used + (length arg + 1) ≤ 512 = ground arith in
            let text = put_bytes arg (base + used) mem in
            let copied = update text (u32 (base + used + length arg)) 0 in
            rw held (
              put_args-kept args (i + 1) (used + (length arg + 1))
                (write32 copied (u32 (base + 4 * i)) (u32 (base + used))) (omega arith)
              ∙ word-kept base (base + 512) a top apart copied (base + 4 * i) (u32 (base + used))
                  (omega arith) (omega arith)
              ∙ put-Outside text (base + used + length arg) 0 base (base + 512) a top (omega arith)
                  (omega arith) apart
              ∙ put_bytes-kept base (base + 512) a top apart arg (base + used) mem (omega arith)
                  (omega arith))
      ]

  -- The arguments stay in their 512 bytes, however long they are.
  pub build_argv-kept :
      (argv : List (List ℕ)) (mem : ℕ → ℕ) → length argv ≤ 127 → build_argv base argv mem a ≡ mem a
  unfolding build_argv
  build_argv-kept argv mem few =
      word-kept base (base + 512) a top apart _ (base + 4 * length argv) 0 (omega arith)
        (omega arith)
      ∙ put_args-kept argv 0 ((length argv + 1) * 4) mem (omega arith)

module _ {D : Type 0} (dev : Disk D) (l : Layout) (exec_stacks : ℕ) where
  start_program-memory :
      (name_address : ℕ) (argv : List (List ℕ)) (slot entry : ℕ) (m : Machine D)
      → (start_program dev l exec_stacks name_address argv slot entry m).1.memory
        ≡ build_argv (stack_of dev l exec_stacks slot) argv m.memory
  unfolding start_program
  start_program-memory name_address argv slot entry m =
      let stack = stack_of dev l exec_stacks slot in
      let task =
        create_user_task_argv l
          (record {
            entry = entry;
            name = name_address;
            user_stack_top = add32 stack 4096;
            user_stack_size = 4096;
            code_base = slot_base slot;
            code_size = user_prog_max_size;
            init_ebx = length argv;
            init_ecx = stack;
          })
          m.kernel in
      either task.0 task.1 (build_argv stack argv m.memory) slot m
    where
      either :
          (o : Option ℕ) (k : Kernel) (memory : ℕ → ℕ) (slot : ℕ) (m : Machine D)
          → (elim o as (λ x. Option ℕ × Machine D) [
            | none ↦ (none, record m { memory = memory; kernel = k })
            | some pid ↦ (
              some pid,
              record m { memory = memory; kernel = k; slot_pid = set m.slot_pid slot (pos pid) },
            )
          ]).1.memory
            ≡ memory
      either none k memory slot m = refl
      either (some pid) k memory slot m = refl

  -- The bytes at `a`, which is in neither the window nor the arguments' area of slot `slot`.
  module _ (slot a : ℕ) (window_top : slot_base slot + user_prog_max_size ≤ 2 ^ 32)
      (stack_top : stack_of dev l exec_stacks slot + 512 ≤ 2 ^ 32)
      (window : Outside (slot_base slot) (slot_base slot + user_prog_max_size) a)
      (area : Outside
        (stack_of dev l exec_stacks slot)
        (stack_of dev l exec_stacks slot + 512)
        a) where
    run_loaded-kept :
        (name_address : ℕ) (argv : List (List ℕ)) (size : ℕ) (m : Machine D)
        → length argv ≤ 127
        → IsWellSized m.elf_staging
        → (run_loaded dev l exec_stacks name_address argv slot size m).1.memory a ≡ m.memory a
    unfolding run_loaded IsWellSized
    run_loaded-kept name_address argv size m few small =
        let elf =
          elf_load m.elf_staging size (slot_base slot) user_prog_max_size link_base m.memory in
        let kept =
          elf_load-kept m.elf_staging size (slot_base slot) user_prog_max_size link_base m.memory
            window_top small a window in
        elim (Option-cases elf.0) [
          | inl refused ↦ rw (refused, run_loaded) kept
          | inr (entry, ran) ↦
              rw
                (
                  ran,
                  run_loaded,
                  start_program-memory name_address argv slot entry (record m { memory = elf.1 }),
                )
                (build_argv-kept (stack_of dev l exec_stacks slot) a stack_top area argv elf.1 few
                  ∙ kept)
        ]

    pub run_in_slot-kept :
        (name : List ℕ) (name_address : ℕ) (argv : List (List ℕ)) (m : Machine D)
        → length argv ≤ 127
        → IsWellSized (staged (fs_load_file dev name user_prog_max_size m.fs).0.1 m.elf_staging)
        → (run_in_slot dev l exec_stacks name name_address argv slot m).1.memory a ≡ m.memory a
    unfolding run_in_slot load_program
    run_in_slot-kept name name_address argv m few small =
        let loaded = load_program dev l exec_stacks name slot m in
        let cleared =
          clear_bytes-kept (slot_base slot) (slot_base slot + user_prog_max_size) a window_top
            window user_prog_max_size (slot_base slot) m.memory (omega arith) (omega arith) in
        elim (Bool-cases loaded.0.0) [
          | inr missing ↦ rw missing cleared
          | inl found ↦
              rw found (run_loaded-kept name_address argv loaded.0.1 loaded.1 few small ∙ cleared)
        ]
