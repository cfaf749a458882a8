-- ===== src/Gdt.antt =====
-- The segment descriptors and the task state segment of kernel/gdt.c. `gdt_flush` and `tss_flush` are
-- assembly.
pub mod Decode
mod Tests
use mx_os.Prelude.{ℕ, ◌+◌, ◌*◌, ◌/◌, ◌%◌, List, [], ◌∷◌, set, replicate, add32}

pub record GdtEntry : Type 0 where
  pub limit_low : ℕ
  pub base_low : ℕ
  pub base_middle : ℕ
  pub access : ℕ
  pub granularity : ℕ
  pub base_high : ℕ

pub record TssEntry : Type 0 where
  pub prev_tss : ℕ
  pub esp0 : ℕ
  pub ss0 : ℕ
  pub es : ℕ
  pub cs : ℕ
  pub ss : ℕ
  pub ds : ℕ
  pub fs : ℕ
  pub gs : ℕ
  pub iomap_base : ℕ

abbrev pub gdt_entries : ℕ
gdt_entries = 6

-- `sizeof(tss)`
abbrev pub tss_size : ℕ
tss_size = 104

pub record Segments : Type 0 where
  pub gdt : List GdtEntry
  pub tss : TssEntry

-- The masks and shifts of the code, as divisions; `gran` is a byte.
pub gdt_set_gate : ℕ → ℕ → ℕ → ℕ → ℕ → List GdtEntry → List GdtEntry
gdt_set_gate num base limit access gran gdt = set gdt num (record {
  limit_low = limit % 65536;
  base_low = base % 65536;
  base_middle = base / 65536 % 256;
  access = access;
  granularity = limit / 65536 % 16 + gran / 16 * 16;
  base_high = base / 16777216 % 256;
})

-- The address of the structure and that of the stack are the linker's. The fields that are not
-- listed are 0.
pub write_tss : ℕ → ℕ → ℕ → Segments → Segments
write_tss num tss_address stack_address s = record {
  gdt = gdt_set_gate num tss_address (add32 tss_address tss_size) 0x89 0 s.gdt;
  tss = record {
    prev_tss = 0;
    esp0 = add32 stack_address 4096;
    ss0 = 0x10;
    es = 0x13;
    cs = 0x0B;
    ss = 0x13;
    ds = 0x13;
    fs = 0x13;
    gs = 0x13;
    iomap_base = tss_size;
  };
}

pub gdt_init : ℕ → ℕ → Segments → Segments
gdt_init tss_address stack_address s =
    let null = gdt_set_gate 0 0 0 0 0 s.gdt in
    let code = gdt_set_gate 1 0 0xFFFFFFFF 0x9A 0xCF null in
    let rw_data = gdt_set_gate 2 0 0xFFFFFFFF 0x92 0xCF code in
    let user_code = gdt_set_gate 3 0 0xFFFFFFFF 0xFA 0xCF rw_data in
    let user_data = gdt_set_gate 4 0 0xFFFFFFFF 0xF2 0xCF user_code in
    write_tss 5 tss_address stack_address (record s { gdt = user_data })

pub tss_set_kernel_stack : ℕ → Segments → Segments
tss_set_kernel_stack esp0 s = record s { tss = record s.tss { esp0 = esp0 } }
