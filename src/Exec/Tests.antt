-- ===== src/Exec/Tests.antt =====
-- The program loader of kernel/exec.c with a small ELF file on the disk and one program running.
use mx_os.Prelude.{
  ℕ, zero, suc, ◌≡◌, refl, true, List, [], ◌∷◌, ◌++◌, take, arith, inl, replicate, sym, subst,
}
use mx_os.Prelude.Int.{pos, negsuc}
use mx_os.Elf.{read16, read32, segment_at}
use mx_os.Elf.Tests.{bytes}
use mx_os.Elf.Window.{IsSmall}
use mx_os.Fs.Tests.{memory, one_file, one_file-content}
use mx_os.Lifecycle.Tests.{machine, layout}
use mx_os.Sched.{task_is_active}
use mx_os.Exec.{Machine, exec_run, staged}
use mx_os.Exec.Isolated.{IsWellSized}
use mx_os.Exec.Slots.{exec_run-kept}

abbrev content : List ℕ
content = bytes ++ replicate 428 0

-- Task 1 runs in slot 0.
abbrev pub running : Machine (ℕ → List ℕ)
running = record {
  kernel = machine;
  fs = one_file content;
  memory = λ a. 9;
  elf_staging = λ o. 0;
  slot_pid = pos 1 ∷ negsuc 0 ∷ negsuc 0 ∷ negsuc 0 ∷ [];
}

content-IsWellSized : IsWellSized (staged (take 512 content ++ []) (λ o. 0))
unfolding IsWellSized IsSmall segment_at read32 read16 staged
content-IsWellSized zero h t = omega arith
content-IsWellSized (suc i) h t = absurd (omega arith)

running-active : task_is_active 1 running.kernel ≡ true
unfolding task_is_active
running-active = refl

exec_run-kept_example :
    (exec_run memory layout 0x40000 (97 ∷ []) 0x5000 ((97 ∷ []) ∷ []) running).1.memory 0x300000 ≡ 9
exec_run-kept_example =
    exec_run-kept memory layout 0x40000 (97 ∷ []) 0x5000 ((97 ∷ []) ∷ []) running 0 0x300000 1
      (omega arith) refl (omega arith)
      (subst (λ file. IsWellSized (staged file (λ o. 0))) (sym (one_file-content content))
        content-IsWellSized)
      (omega arith) refl running-active (inl (omega arith))
