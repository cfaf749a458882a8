-- ===== src/User/Libc.antt =====
-- userprogs/libc.c: the wrappers of the system calls and the functions on strings. A wrapper sets the
-- registers of `int 0x80`; the others, and the ESP that the interrupt leaves, are parameters.
use mx_os.Prelude.{
  ℕ, zero, suc, ◌+◌, ◌-◌, ◌^◌, ◌&&◌, not, Option, ltb, ◌==◌, if◌then◌else◌, update, u32,
}
use mx_os.Prelude.Int.{ℤ, pos, negsuc}
use mx_os.Paging.{Layout}
use mx_os.Syscall.{Registers, System, syscall_dispatch}

module _ (l : Layout) (esp : ℕ) (regs : Registers) where
  unfoldable pub sys_print : ℕ → System → Option ℕ × (Registers × System)
  sys_print msg s = syscall_dispatch l esp (record regs { eax = 1; ebx = msg }) s

  -- The endless loop behind the call is never reached.
  unfoldable pub sys_exit : System → Option ℕ × (Registers × System)
  sys_exit s = syscall_dispatch l esp (record regs { eax = 2 }) s

  unfoldable pub sys_sleep : ℕ → System → Option ℕ × (Registers × System)
  sys_sleep ticks s = syscall_dispatch l esp (record regs { eax = 3; ebx = ticks }) s

  -- The value returned is EAX.
  unfoldable pub sys_send : ℕ → ℕ → ℕ → System → Option ℕ × (Registers × System)
  sys_send pid msg len s =
      syscall_dispatch l esp (record regs { eax = 4; ebx = pid; ecx = msg; edx = len }) s

  unfoldable pub sys_recv : ℕ → ℕ → ℕ → System → Option ℕ × (Registers × System)
  sys_recv buf out_len out_sender s =
      syscall_dispatch l esp (record regs { eax = 5; ebx = buf; ecx = out_len; edx = out_sender }) s

-- The loop of `u_strlen` from `n` on.
unfoldable pub strlen_from : ℕ → ℕ → ℕ → (ℕ → ℕ) → ℕ
strlen_from zero s n mem = n
strlen_from (suc fuel) s n mem =
    let rest = strlen_from fuel s (n + 1) mem in if mem (u32 (s + n)) == 0 then n else rest

unfoldable pub u_strlen : ℕ → (ℕ → ℕ) → ℕ
u_strlen s mem = strlen_from (2 ^ 32) s 0 mem

-- The difference of two bytes.
unfoldable pub byte_difference : ℕ → ℕ → ℤ
byte_difference x y = if ltb x y then negsuc (y - x - 1) else pos (x - y)

-- The loop of `u_strcmp` and what follows it.
unfoldable pub strcmp_from : ℕ → ℕ → ℕ → (ℕ → ℕ) → ℤ
strcmp_from zero a b mem = byte_difference (mem (u32 a)) (mem (u32 b))
strcmp_from (suc fuel) a b mem =
    let rest = strcmp_from fuel (a + 1) (b + 1) mem in
    if not (mem (u32 a) == 0) && (mem (u32 a) == mem (u32 b))
    then rest
    else byte_difference (mem (u32 a)) (mem (u32 b))

unfoldable pub u_strcmp : ℕ → ℕ → (ℕ → ℕ) → ℤ
u_strcmp a b mem = strcmp_from (2 ^ 32) a b mem

-- The loop of `u_strcpy`, each turn of which copies a byte and then tests it.
unfoldable pub strcpy_from : ℕ → ℕ → ℕ → (ℕ → ℕ) → ℕ → ℕ
strcpy_from zero d src mem = mem
strcpy_from (suc fuel) d src mem =
    let copied = update mem (u32 d) (mem (u32 src)) in
    let rest = strcpy_from fuel (d + 1) (src + 1) copied in
    if mem (u32 src) == 0 then copied else rest

-- The memory; the value returned is `dst`.
unfoldable pub u_strcpy : ℕ → ℕ → (ℕ → ℕ) → ℕ → ℕ
u_strcpy dst src mem = strcpy_from (2 ^ 32) dst src mem
