-- ===== src/Paging.antt =====
-- kernel/paging.c: the kernel's page directory, and a directory of its own for each ring3 task.
pub mod Isolation
pub mod Pool
mod Tests
use Prim.Native.Nat.{bit_or}
use mx_os.Prelude.{
  ℕ, zero, suc, ◌+◌, ◌*◌, Bool, true, false, ◌&&◌, not, Option, none, some, List, [], ◌∷◌, ltb, leb,
  ◌==◌, if◌then◌else◌, add32, set, get_or, replicate,
}

-- The addresses that the linker gives: the bounds of the code shared with ring3 and the page
-- tables' static arrays.
pub record Layout : Type 0 where
  pub text_start : ℕ
  pub ro_end : ℕ
  pub page_directory : ℕ
  pub first_page_table : ℕ
  pub task_directories : ℕ
  pub task_tables : ℕ

abbrev pub max_addr_spaces : ℕ
max_addr_spaces = 6

-- A task's directory and its page table.
pub record Space : Type 0 where
  pub directory : List ℕ
  pub table : List ℕ

-- The static arrays of paging.c, the directory in CR3, and the paging bit of CR0.
pub record Paging : Type 0 where
  pub page_directory : List ℕ
  pub first_page_table : List ℕ
  pub spaces : List Space
  pub task_dir_used : List Bool
  pub cr3 : ℕ
  pub enabled : Bool

-- The page at `phys` meets the window from `start` to `end`.
pub overlaps : ℕ → ℕ → ℕ → Bool
overlaps phys start end = ltb start (phys + 4096) && ltb phys end

-- The first free index, from `i` on.
pub find_unused : ℕ → List Bool → Option ℕ
find_unused i [] = none
find_unused i (u ∷ us) = if u then find_unused (i + 1) us else some i

module _ (l : Layout) where
  -- The flags of the page at `phys`: Present and Read/Write, and User in the three windows.
  pub page_flags : ℕ → ℕ → ℕ → ℕ → ℕ → ℕ
  page_flags phys user_start user_end code_start code_end =
      let flags = if overlaps phys l.text_start l.ro_end then 7 else 3 in
      let flags =
        if not (user_start == user_end) && overlaps phys user_start user_end then 7 else flags in
      if not (code_start == code_end) && overlaps phys code_start code_end then 7 else flags

  -- `table[i] = phys | flags` for `n` entries from `i` on.
  pub fill_from : ℕ → ℕ → ℕ → ℕ → ℕ → ℕ → List ℕ
  fill_from zero i user_start user_end code_start code_end = []
  fill_from (suc n) i user_start user_end code_start code_end =
      bit_or (i * 4096) (page_flags (i * 4096) user_start user_end code_start code_end)
      ∷ fill_from n (i + 1) user_start user_end code_start code_end

  pub fill_identity_table : ℕ → ℕ → ℕ → ℕ → List ℕ
  fill_identity_table user_start user_end code_start code_end =
      fill_from 1024 0 user_start user_end code_start code_end

  -- A directory that maps only the first 4 MB, by the table at `table`.
  pub directory_of : ℕ → List ℕ
  directory_of table = set (replicate 1024 2) 0 (bit_or table 7)

  pub paging_init : Paging → Paging
  paging_init p = record p {
    page_directory = directory_of l.first_page_table;
    first_page_table = fill_identity_table 0 0 0 0;
    cr3 = l.page_directory;
    enabled = true;
  }

  pub paging_kernel_directory_phys : ℕ
  paging_kernel_directory_phys = l.page_directory

  -- The body of the loop in `paging_create_task_directory_ex`, at the index found.
  pub set_up_space : ℕ → ℕ → ℕ → ℕ → ℕ → Paging → Paging
  set_up_space code_base code_size user_stack_base user_stack_size i p = record p {
    task_dir_used = set p.task_dir_used i true;
    spaces = set p.spaces i (record {
      directory = directory_of (l.task_tables + 4096 * i);
      table =
          fill_identity_table user_stack_base (add32 user_stack_base user_stack_size) code_base
            (add32 code_base code_size);
    });
  }

  -- `none` is the -1 for a pool that is used up.
  pub paging_create_task_directory_ex : ℕ → ℕ → ℕ → ℕ → Paging → Option ℕ × Paging
  paging_create_task_directory_ex code_base code_size user_stack_base user_stack_size p =
      elim (find_unused 0 p.task_dir_used) [
        | none ↦ (none, p)
        | some i ↦ (some i, set_up_space code_base code_size user_stack_base user_stack_size i p)
      ]

  pub paging_create_task_directory : ℕ → ℕ → Paging → Option ℕ × Paging
  paging_create_task_directory user_stack_base user_stack_size =
      paging_create_task_directory_ex 0 0 user_stack_base user_stack_size

  -- An index out of range gives the kernel's directory.
  pub paging_task_directory_phys : ℕ → ℕ
  paging_task_directory_phys idx =
      if ltb idx max_addr_spaces then l.task_directories + 4096 * idx else l.page_directory

pub paging_free_task_directory : ℕ → Paging → Paging
paging_free_task_directory idx p =
    if ltb idx max_addr_spaces
    then record p { task_dir_used = set p.task_dir_used idx false }
    else p

unfoldable pub paging_switch_directory : ℕ → Paging → Paging
paging_switch_directory phys_addr p = record p { cr3 = phys_addr }
