-- ===== src/Gdt/Tests.antt =====
-- The descriptors of kernel/gdt.c at concrete addresses.
use mx_os.Prelude.{ℕ, ◌≡◌, ◌≢◌, refl, arith, get_or, replicate}
use mx_os.Gdt.{Segments, gdt_set_gate, gdt_init, write_tss}
use mx_os.Gdt.Decode.{no_gate, decode, decode-gdt_set_gate}

abbrev blank : Segments
blank = record {
  gdt = replicate 6 no_gate;
  tss = record {
    prev_tss = 0;
    esp0 = 0;
    ss0 = 0;
    es = 0;
    cs = 0;
    ss = 0;
    ds = 0;
    fs = 0;
    gs = 0;
    iomap_base = 0;
  };
}

-- The user's code segment is flat, in ring 3.
user_code_segment :
    decode (get_or (gdt_init 0x15000 0x16000 blank).gdt 3 no_gate)
    ≡ record { base = 0; limit = 0xFFFFF; access = 0xFA; flags = 0xC }
unfolding gdt_init gdt_set_gate write_tss decode
user_code_segment = refl

-- The limit of the task state segment holds its address too.
tss_limit : (decode (get_or (gdt_init 0x15000 0x16000 blank).gdt 5 no_gate)).limit ≡ 0x15068
unfolding gdt_init gdt_set_gate write_tss decode
tss_limit = refl

decode-gdt_set_gate_example :
    (decode (get_or (gdt_set_gate 5 0x15000 0x15068 0x89 0 blank.gdt) 5 no_gate)
      ≡ record { base = 0x15000; limit = 0x15068; access = 0x89; flags = 0 })
    × ((other : ℕ)
        → 5 ≢ other
        → get_or (gdt_set_gate 5 0x15000 0x15068 0x89 0 blank.gdt) other no_gate
          ≡ get_or blank.gdt other no_gate)
decode-gdt_set_gate_example =
    decode-gdt_set_gate 5 0x15000 0x15068 0x89 0 blank.gdt (omega arith) (omega arith) (omega arith)
