-- ===== src/Paging/Tests.antt =====
-- Address spaces of kernel/paging.c at concrete addresses.
use mx_os.Prelude.{◌%◌, ◌≡◌, ◌↔◌, refl, true, false, some, [], ◌∷◌, arith, replicate, get_or}
use mx_os.Paging.{
  Layout, Paging, fill_identity_table, paging_create_task_directory_ex, paging_free_task_directory,
  find_unused,
}
use mx_os.Paging.Isolation.{is_user, frame_of, Open, fill_identity_table-is_user}
use mx_os.Paging.Pool.{free-create}

-- The kernel's code at 4 KB, 64 KB long, and the tables behind it.
abbrev layout : Layout
layout = record {
  text_start = 0x1000;
  ro_end = 0x11000;
  page_directory = 0x20000;
  first_page_table = 0x21000;
  task_directories = 0x22000;
  task_tables = 0x28000;
}

abbrev fresh : Paging
fresh = record {
  page_directory = [];
  first_page_table = [];
  spaces = [];
  task_dir_used = replicate 6 false;
  cr3 = 0x20000;
  enabled = true;
}

second_space :
    (paging_create_task_directory_ex layout 0 0 0x50000 0x1000
      (record fresh { task_dir_used = true ∷ false ∷ [] })).0
    ≡ some 1
unfolding paging_create_task_directory_ex find_unused
second_space = refl

-- With the stack at 0x50000 and the code at 0x300000, page 0x50 is open to ring3.
fill_identity_table-is_user_example :
    let e = get_or (fill_identity_table layout 0x50000 0x51000 0x300000 0x320000) 0x50 0 in
    (frame_of e ≡ 0x50)
    × (e % 4 ≡ 3)
    × ((is_user e ≡ true) ↔ Open layout 0x50000 0x51000 0x300000 0x320000 0x50)
fill_identity_table-is_user_example =
    fill_identity_table-is_user layout 0x50000 0x51000 0x300000 0x320000 0x50 (omega arith)
      (omega arith) (omega arith) (omega arith)

free-create_example :
    (paging_free_task_directory 0
      (paging_create_task_directory_ex layout 0 0 0x50000 0x1000 fresh).1).task_dir_used
    ≡ fresh.task_dir_used
unfolding paging_create_task_directory_ex find_unused
free-create_example = free-create layout 0 0 0x50000 0x1000 fresh 0 refl refl
