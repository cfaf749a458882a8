-- ===== src/Elf/Bytes.antt =====
-- Writes to memory and the bytes that they leave, for kernel/elf.c and kernel/exec.c.
use mx_os.Prelude.{ℕ, ◌+◌, ◌/◌, ◌%◌, ◌^◌, ◌≤◌, ◌<◌, ◌≡◌, ◌⊎◌, ◌∙◌, false, arith, ◌==◌, update, u32}
use mx_os.Elf.{write32}

-- The address `a` is not between `lo` and `hi`.
abbrev pub Outside : ℕ → ℕ → ℕ → Type 0
Outside lo hi a = (a < lo) ⊎ (hi ≤ a)

pub update-Outside : (mem : ℕ → ℕ) (i v a : ℕ) → Outside i (i + 1) a → update mem i v a ≡ mem a
update-Outside mem i v a apart = let other : (a == i) ≡ false = ground arith in rw other

pub write32-Outside : (mem : ℕ → ℕ) (x v a : ℕ) → Outside x (x + 4) a → write32 mem x v a ≡ mem a
unfolding write32
write32-Outside mem x v a apart =
    let one = update mem x (v % 256) in
    let two = update one (x + 1) (v / 256 % 256) in
    let three = update two (x + 2) (v / 65536 % 256) in
    update-Outside three (x + 3) (v / 16777216 % 256) a (omega arith)
    ∙ update-Outside two (x + 2) (v / 65536 % 256) a (omega arith)
    ∙ update-Outside one (x + 1) (v / 256 % 256) a (omega arith)
    ∙ update-Outside mem x (v % 256) a (omega arith)

-- A write between `lo` and `hi`.
pub put-Outside :
    (mem : ℕ → ℕ) (x v lo hi a : ℕ)
    → hi ≤ 2 ^ 32
    → lo ≤ x
    → x < hi
    → Outside lo hi a
    → update mem (u32 x) v a ≡ mem a
put-Outside mem x v lo hi a top above below apart =
    let at : u32 x ≡ x = omega arith in rw at (update-Outside mem x v a (omega arith))
