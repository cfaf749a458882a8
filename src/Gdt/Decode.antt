-- ===== src/Gdt/Decode.antt =====
-- What the processor reads in the descriptors of kernel/gdt.c.
use mx_os.Prelude.{
  ℕ, ◌+◌, ◌*◌, ◌/◌, ◌%◌, ◌^◌, ◌<◌, ◌≡◌, ◌≢◌, refl, ◌∙◌, ap, List, arith, length, get_or,
  get_or-set_self, get_or-set_ne,
}
use mx_os.Gdt.{GdtEntry, gdt_set_gate}

-- The zero descriptor.
abbrev pub no_gate : GdtEntry
no_gate = record {
  limit_low = 0;
  base_low = 0;
  base_middle = 0;
  access = 0;
  granularity = 0;
  base_high = 0;
}

-- Base, limit (20 bits), access byte and flags (4 bits) of a descriptor.
pub record Decoded : Type 0 where
  pub base : ℕ
  pub limit : ℕ
  pub access : ℕ
  pub flags : ℕ

unfoldable pub decode : GdtEntry → Decoded
decode g = record {
  base = g.base_low + 65536 * g.base_middle + 16777216 * g.base_high;
  limit = g.limit_low + 65536 * (g.granularity % 16);
  access = g.access;
  flags = g.granularity / 16;
}

Decoded-eq :
    (b l a f b' l' a' f' : ℕ)
    → b ≡ b'
    → l ≡ l'
    → a ≡ a'
    → f ≡ f'
    → ◌≡◌ {A = Decoded}
        (record { base = b; limit = l; access = a; flags = f })
        (record { base = b'; limit = l'; access = a'; flags = f' })
Decoded-eq b l a f b' l' a' f' eb el ea ef = rw (eb, el, ea, ef) refl

-- The processor reads in the descriptor what `gdt_set_gate` was given: the base, the low 20 bits of
-- the limit, the access byte and the high four bits of `gran`. The other descriptors stay.
pub decode-gdt_set_gate :
    (num base limit access gran : ℕ) (gdt : List GdtEntry)
    → num < length gdt
    → base < 2 ^ 32
    → gran < 256
    → (decode (get_or (gdt_set_gate num base limit access gran gdt) num no_gate)
        ≡ record { base = base; limit = limit % 2 ^ 20; access = access; flags = gran / 16 })
      × ((other : ℕ)
          → num ≢ other
          → get_or (gdt_set_gate num base limit access gran gdt) other no_gate
            ≡ get_or gdt other no_gate)
unfolding gdt_set_gate decode
decode-gdt_set_gate num base limit access gran gdt h small byte = (
  ap decode (get_or-set_self gdt num _ no_gate h)
      ∙ Decoded-eq _ _ _ _ base (limit % 2 ^ 20) access (gran / 16) (omega arith) (omega arith) refl
          (omega arith),
  λ other apart. get_or-set_ne gdt num other _ no_gate apart,
)
