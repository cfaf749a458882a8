-- ===== src/Idt/Privilege.antt =====
-- Where the gates of kernel/interrupts.c lead to, and from which ring they can be called.
use mx_os.Prelude.{
  ℕ, zero, suc, ◌+◌, ◌*◌, ◌/◌, ◌%◌, ◌^◌, ◌≤◌, ◌<◌, ◌≡◌, ◌↔◌, refl, ◌∙◌, sym, ap, subst, List, arith,
  length, length-set, get_or, get_or-set, replicate, length-replicate, get_or-replicate, ◌==◌,
  if◌then◌else◌, Bool, true, false, Bool-cases, ==_iff, inl, inr, leb, ltb, ◌&&◌,
}
use mx_os.Idt.{
  IdtEntry, set_idt_gate, set_idt_gate_flags, install_from, install_exception_handlers,
  syscall_init, install_gates,
}

-- A gate as the BSS leaves it: not present.
abbrev pub no_gate : IdtEntry
no_gate = record { base_low = 0; sel = 0; always0 = 0; flags = 0; base_high = 0 }

abbrev pub gate_at : List IdtEntry → ℕ → IdtEntry
gate_at idt i = get_or idt i no_gate

-- The address that a gate leads to.
unfoldable pub offset : IdtEntry → ℕ
offset g = g.base_low + 65536 * g.base_high

-- The least privileged ring that may call it: bits 5 and 6.
unfoldable pub privilege : IdtEntry → ℕ
privilege g = g.flags / 32 % 4

-- The flags and the address of a gate.
unfoldable pub leads : IdtEntry → ℕ × ℕ
unfolding offset
leads g = (g.flags, offset g)

-- One gate is set, the others stay.
set_idt_gate-leads :
    (n handler c : ℕ) (idt : List IdtEntry)
    → n < length idt
    → handler < 2 ^ 32
    → leads (gate_at (set_idt_gate n handler idt) c)
      ≡ (if c == n then (0x8E, handler) else leads (gate_at idt c))
unfolding set_idt_gate leads offset
set_idt_gate-leads n handler c idt h small =
    ap leads (get_or-set idt n c _ no_gate h) ∙ pick (c == n) (gate_at idt c) (omega arith)
  where
    pick :
        (b : Bool) (g : IdtEntry)
        → handler % 65536 + 65536 * (handler / 65536 % 65536) ≡ handler
        → leads (
            if b
            then (record {
              base_low = handler % 65536;
              sel = 0x08;
              always0 = 0;
              flags = 0x8E;
              base_high = handler / 65536 % 65536;
            })
            else g)
          ≡ (if b then (0x8E, handler) else leads g)
    pick true g whole = ap (λ o. (0x8E, o)) whole
    pick false g whole = refl

syscall_init-leads :
    (handler c : ℕ) (idt : List IdtEntry)
    → length idt ≡ 256
    → handler < 2 ^ 32
    → leads (gate_at (syscall_init handler idt) c)
      ≡ (if c == 128 then (0xEE, handler) else leads (gate_at idt c))
unfolding syscall_init set_idt_gate_flags leads offset
syscall_init-leads handler c idt size small =
    ap leads (get_or-set idt 128 c _ no_gate (omega (arith, size)))
    ∙ pick (c == 128) (gate_at idt c) (omega arith)
  where
    pick :
        (b : Bool) (g : IdtEntry)
        → handler % 65536 + 65536 * (handler / 65536 % 65536) ≡ handler
        → leads (
            if b
            then (record {
              base_low = handler % 65536;
              sel = 0x08;
              always0 = 0;
              flags = 0xEE;
              base_high = handler / 65536 % 65536;
            })
            else g)
          ≡ (if b then (0xEE, handler) else leads g)
    pick true g whole = ap (λ o. (0xEE, o)) whole
    pick false g whole = refl

length-set_idt_gate :
    (n handler : ℕ) (idt : List IdtEntry) → length (set_idt_gate n handler idt) ≡ length idt
unfolding set_idt_gate
length-set_idt_gate n handler idt = length-set idt n _

length-install_from :
    (n i : ℕ) (isr : ℕ → ℕ) (idt : List IdtEntry) → length (install_from n i isr idt) ≡ length idt
unfolding install_from
length-install_from zero i isr idt = refl
length-install_from (suc n) i isr idt =
    length-install_from n (i + 1) isr (set_idt_gate i (isr i) idt)
    ∙ length-set_idt_gate i (isr i) idt

module _ (isr : ℕ → ℕ) (small : (n : ℕ) → isr n < 2 ^ 32) where
  install_from-leads :
      (n i c : ℕ) (idt : List IdtEntry)
      → i + n ≤ length idt
      → leads (gate_at (install_from n i isr idt) c)
        ≡ (if leb i c && ltb c (i + n) then (0x8E, isr c) else leads (gate_at idt c))
  unfolding install_from
  install_from-leads zero i c idt h =
      let outside : leb i c && ltb c (i + 0) ≡ false = ground arith in rw outside refl
  install_from-leads (suc n) i c idt h =
      let next =
        install_from-leads n (i + 1) c (set_idt_gate i (isr i) idt)
          (omega (arith, length-set_idt_gate i (isr i) idt)) in
      let one = set_idt_gate-leads i (isr i) c idt (omega arith) (small i) in
      elim (Bool-cases (c == i)) [
        | inl at ↦
            let same : c ≡ i = (==_iff c i).0 at in
            let behind : leb (i + 1) c && ltb c (i + 1 + n) ≡ false = ground arith in
            let inside : leb i c && ltb c (i + suc n) ≡ true = ground arith in
            next ∙ rw (behind, inside) (one ∙ rw (at, same) refl)
        | inr apart ↦
            let both : leb (i + 1) c && ltb c (i + 1 + n) ≡ leb i c && ltb c (i + suc n) =
              ground arith in
            next ∙ rw (both, one, apart) refl
      ]

  -- What the table should hold: the exceptions, the timer, the keyboard and the system call.
  unfoldable pub intended : ℕ → ℕ → ℕ → ℕ → ℕ × ℕ
  intended timer keyboard syscall n =
      if n == 128
      then (0xEE, syscall)
      else if n == 33
      then (0x8E, keyboard)
      else if n == 32
      then (0x8E, timer)
      else if ltb n 32
      then (0x8E, isr n)
      else (0, 0)

  -- After `main_entry` has set its gates in a zeroed table of 256, each leads where it should, and
  -- the vectors that have no handler are not present.
  pub install_gates-leads :
      (timer keyboard syscall n : ℕ)
      → timer < 2 ^ 32
      → keyboard < 2 ^ 32
      → syscall < 2 ^ 32
      → leads (gate_at (install_gates isr timer keyboard syscall (replicate 256 no_gate)) n)
        ≡ intended timer keyboard syscall n
  unfolding install_gates install_exception_handlers intended
  install_gates-leads timer keyboard syscall n ht hk hs =
      let zeros = replicate 256 no_gate in
      let size : length zeros ≡ 256 = length-replicate 256 no_gate in
      let exceptions = install_from 32 0 isr zeros in
      let size_e : length exceptions ≡ 256 = length-install_from 32 0 isr zeros ∙ size in
      let with_timer = set_idt_gate 32 timer exceptions in
      let size_t : length with_timer ≡ 256 = length-set_idt_gate 32 timer exceptions ∙ size_e in
      let with_keys = set_idt_gate 33 keyboard with_timer in
      let size_k : length with_keys ≡ 256 = length-set_idt_gate 33 keyboard with_timer ∙ size_t in
      let blank : leads (gate_at zeros n) ≡ (0, 0) =
        ap leads (get_or-replicate 256 n no_gate) ∙ (unfold leads in unfold offset in refl) in
      let low : leb 0 n && ltb n (0 + 32) ≡ ltb n 32 = ground arith in
      syscall_init-leads syscall n with_keys size_k hs
      ∙ rw
          (
            set_idt_gate-leads 33 keyboard n with_timer (omega (arith, size_t)) hk,
            set_idt_gate-leads 32 timer n exceptions (omega (arith, size_e)) ht,
            install_from-leads 32 0 n zeros (omega (arith, size)),
            low,
            blank,
          )
          refl

-- The only gate that a program in ring 3 can call is that of the system call.
pub install_gates-privilege :
    (isr : ℕ → ℕ) (small : (n : ℕ) → isr n < 2 ^ 32) (timer keyboard syscall n : ℕ)
    → timer < 2 ^ 32
    → keyboard < 2 ^ 32
    → syscall < 2 ^ 32
    → (privilege (gate_at (install_gates isr timer keyboard syscall (replicate 256 no_gate)) n) ≡ 3)
      ↔ (n ≡ 128)
unfolding privilege intended leads
install_gates-privilege isr small timer keyboard syscall n ht hk hs =
    subst (λ f. (f / 32 % 4 ≡ 3) ↔ (n ≡ 128)) (sym flags) callable
  where
    flags :
        (gate_at (install_gates isr timer keyboard syscall (replicate 256 no_gate)) n).flags
        ≡ (intended isr small timer keyboard syscall n).0
    flags =
        ap (λ (p : ℕ × ℕ). p.0) (install_gates-leads isr small timer keyboard syscall n ht hk hs)

    callable : ((intended isr small timer keyboard syscall n).0 / 32 % 4 ≡ 3) ↔ (n ≡ 128)
    callable = ground arith
