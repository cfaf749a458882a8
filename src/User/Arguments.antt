-- ===== src/User/Arguments.antt =====
-- The arguments that `build_argv` of kernel/exec.c leaves in memory are those that a program of
-- userprogs reads there.
use mx_os.Prelude.{
  ℕ, zero, suc, ◌+◌, ◌*◌, ◌/◌, ◌%◌, ◌^◌, ◌≤◌, ◌<◌, ◌≡◌, refl, ◌∙◌, ap, ap₂, true, false, List, [],
  ◌∷◌, arith, length, get_or, ltb, ◌==◌, update, u32,
}
use mx_os.Elf.{read32, write32}
use mx_os.Elf.Bytes.{Outside, update-Outside, write32-Outside}
use mx_os.Exec.{put_bytes, put_args, build_argv}
use mx_os.Exec.Isolated.{put_bytes-kept}
use mx_os.Screen.Text.{IsText}
use mx_os.Syscall.{string_at}
use mx_os.Syscall.Deliver.{put_bytes-at}

-- The bytes that strings take, each with its terminator.
unfoldable pub args_size : List (List ℕ) → ℕ
args_size [] = 0
args_size (arg ∷ args) = length arg + 1 + args_size args

unfoldable pub AreTexts : List (List ℕ) → Type 0
AreTexts [] = Unit
AreTexts (arg ∷ args) = IsText arg × AreTexts args

-- The strings that the `n` pointers from address `argv` on point to.
unfoldable pub read_args : ℕ → ℕ → (ℕ → ℕ) → List (List ℕ)
read_args zero argv mem = []
read_args (suc n) argv mem = string_at (2 ^ 32) (read32 mem argv) mem ∷ read_args n (argv + 4) mem

-- The string that stands at `p`.
pub string_at-text :
    (text : List ℕ) (n p : ℕ) (mem : ℕ → ℕ)
    → length text < n
    → p + length text < 2 ^ 32
    → IsText text
    → ((j : ℕ) → j < length text → mem (p + j) ≡ get_or text j 0)
    → mem (p + length text) ≡ 0
    → string_at n p mem ≡ text
unfolding string_at IsText
string_at-text text zero p mem enough top plain bytes end = absurd (omega arith)
string_at-text [] (suc n) p mem enough top plain bytes end =
    let at : u32 p ≡ p + 0 = omega arith in rw (at, end) refl
string_at-text (c ∷ text) (suc n) p mem enough top (nonzero, plain) bytes end =
    let at : u32 p ≡ p + 0 = omega arith in
    let first = bytes 0 (omega arith) in
    let other : (c == 0) ≡ false = ground arith in
    let next : p + 1 + length text ≡ p + suc (length text) = omega arith in
    let rest =
      string_at-text text n (p + 1) mem (omega arith) (omega arith) plain
        (λ j below. ap mem (omega arith) ∙ bytes (suc j) (omega arith)) (ap mem next ∙ end) in
    rw (at, first, other) (ap (λ t. c ∷ t) rest)

read32-cong :
    (f g : ℕ → ℕ) (a : ℕ) → ((j : ℕ) → a ≤ j → j < a + 4 → f j ≡ g j) → read32 f a ≡ read32 g a
unfolding read32
read32-cong f g a h =
    let h0 : f a ≡ g a = h a (omega arith) (omega arith) in
    let h1 : f (a + 1) ≡ g (a + 1) = h (a + 1) (omega arith) (omega arith) in
    let h2 : f (a + 2) ≡ g (a + 2) = h (a + 2) (omega arith) (omega arith) in
    let h3 : f (a + 3) ≡ g (a + 3) = h (a + 3) (omega arith) (omega arith) in
    omega (arith, h0, h1, h2, h3)

pub update-at : (mem : ℕ → ℕ) (a v : ℕ) → update mem a v a ≡ v
update-at mem a v = let here : (a == a) ≡ true = ground arith in rw here refl

read32-write32 : (mem : ℕ → ℕ) (a v : ℕ) → v < 2 ^ 32 → read32 (write32 mem a v) a ≡ v
unfolding read32 write32
read32-write32 mem a v h =
    let one = update mem a (v % 256) in
    let two = update one (a + 1) (v / 256 % 256) in
    let three = update two (a + 2) (v / 65536 % 256) in
    let four = update three (a + 3) (v / 16777216 % 256) in
    let b0 : four a ≡ v % 256 =
      update-Outside three (a + 3) _ a (omega arith)
      ∙ update-Outside two (a + 2) _ a (omega arith)
      ∙ update-Outside one (a + 1) _ a (omega arith)
      ∙ update-at mem a (v % 256) in
    let b1 : four (a + 1) ≡ v / 256 % 256 =
      update-Outside three (a + 3) _ (a + 1) (omega arith)
      ∙ update-Outside two (a + 2) _ (a + 1) (omega arith)
      ∙ update-at one (a + 1) (v / 256 % 256) in
    let b2 : four (a + 2) ≡ v / 65536 % 256 =
      update-Outside three (a + 3) _ (a + 2) (omega arith)
      ∙ update-at two (a + 2) (v / 65536 % 256) in
    let b3 : four (a + 3) ≡ v / 16777216 % 256 = update-at three (a + 3) (v / 16777216 % 256) in
    omega (arith, b0, b1, b2, b3)

module _ (base : ℕ) (top : base + 512 ≤ 2 ^ 32) where
  -- What one argument writes.
  abbrev one_arg : List ℕ → ℕ → ℕ → (ℕ → ℕ) → ℕ → ℕ
  one_arg arg i used mem =
      write32 (update (put_bytes arg (base + used) mem) (u32 (base + used + length arg)) 0)
        (u32 (base + 4 * i)) (u32 (base + used))

  put_args-fits :
      (arg : List ℕ) (args : List (List ℕ)) (i used : ℕ) (mem : ℕ → ℕ)
      → used + (length arg + 1) ≤ 512
      → put_args (arg ∷ args) i used base mem
        ≡ put_args args (i + 1) (used + (length arg + 1)) base (one_arg arg i used mem)
  unfolding put_args
  put_args-fits arg args i used mem fits =
      let room : ltb 512 (used + (length arg + 1)) ≡ false = ground arith in rw room refl

  -- The pointer is written after the text.
  one_arg-text :
      (arg : List ℕ) (i used : ℕ) (mem : ℕ → ℕ) (a : ℕ)
      → used + (length arg + 1) ≤ 512
      → 4 * i + 4 ≤ used
      → Outside (base + 4 * i) (base + 4 * i + 4) a
      → one_arg arg i used mem a
        ≡ update (put_bytes arg (base + used) mem) (base + used + length arg) 0 a
  one_arg-text arg i used mem a fits below word =
      let place : u32 (base + 4 * i) ≡ base + 4 * i = omega arith in
      let end : u32 (base + used + length arg) ≡ base + used + length arg = omega arith in
      rw (place, end)
        (write32-Outside (update (put_bytes arg (base + used) mem) (base + used + length arg) 0)
          (base + 4 * i) (u32 (base + used)) a (omega arith))

  one_arg-apart :
      (arg : List ℕ) (i used : ℕ) (mem : ℕ → ℕ) (a : ℕ)
      → used + (length arg + 1) ≤ 512
      → 4 * i + 4 ≤ used
      → Outside (base + 4 * i) (base + 4 * i + 4) a
      → Outside (base + used) (base + used + length arg + 1) a
      → one_arg arg i used mem a ≡ mem a
  one_arg-apart arg i used mem a fits below word text =
      one_arg-text arg i used mem a fits below word
      ∙ update-Outside (put_bytes arg (base + used) mem) (base + used + length arg) 0 a
          (omega arith)
      ∙ put_bytes-kept (base + used) (base + used + length arg + 1) a (omega arith) text arg
          (base + used) mem (omega arith) (omega arith)

  put_args-apart :
      (args : List (List ℕ)) (i used : ℕ) (mem : ℕ → ℕ) (a : ℕ)
      → used + args_size args ≤ 512
      → 4 * (i + length args) ≤ used
      → Outside (base + 4 * i) (base + 4 * (i + length args)) a
      → Outside (base + used) (base + used + args_size args) a
      → put_args args i used base mem a ≡ mem a
  unfolding args_size
  put_args-apart [] i used mem a fits below words texts = unfold put_args in refl
  put_args-apart (arg ∷ args) i used mem a fits below words texts =
      ap (λ (m : ℕ → ℕ). m a) (put_args-fits arg args i used mem (omega arith))
      ∙ put_args-apart args (i + 1) (used + (length arg + 1)) (one_arg arg i used mem) a
          (omega arith) (omega arith) (omega arith) (omega arith)
      ∙ one_arg-apart arg i used mem a (omega arith) (omega arith) (omega arith) (omega arith)

  -- What stands in a memory that agrees with the one left by the loop, but for the last pointer.
  read_args-put_args :
      (args : List (List ℕ)) (i n used : ℕ) (mem g : ℕ → ℕ)
      → AreTexts args
      → used + args_size args ≤ 512
      → i + length args ≡ n
      → 4 * n + 4 ≤ used
      → ((a : ℕ)
          → Outside (base + 4 * n) (base + 4 * n + 4) a
          → g a ≡ put_args args i used base mem a)
      → read_args (length args) (base + 4 * i) g ≡ args
  unfolding read_args AreTexts args_size
  read_args-put_args [] i n used mem g texts fits last below same = refl
  read_args-put_args (arg ∷ args) i n used mem g (text, texts) fits last below same =
      let more = used + (length arg + 1) in
      let m1 = one_arg arg i used mem in
      let final : (a : ℕ)
          → Outside (base + 4 * n) (base + 4 * n + 4) a
          → g a ≡ put_args args (i + 1) more base m1 a =
        λ a h.
          same a h ∙ ap (λ (m : ℕ → ℕ). m a) (put_args-fits arg args i used mem (omega arith)) in
      let early : (a : ℕ)
          → a < base + more
          → Outside (base + 4 * (i + 1)) (base + 4 * n + 4) a
          → g a ≡ m1 a =
        λ a h apart.
          final a (omega arith)
          ∙ put_args-apart args (i + 1) more m1 a (omega arith) (omega arith) (omega arith)
              (omega arith) in
      let word : (base + 4 * i) + 4 ≤ 2 ^ 32 = omega arith in
      let place : u32 (base + 4 * i) ≡ base + 4 * i = omega arith in
      let pointer : read32 g (base + 4 * i) ≡ base + used =
        read32-cong g m1 (base + 4 * i) (λ j lo hi. early j (omega arith) (omega arith))
        ∙ ap
            (λ p.
              read32
                (write32
                  (update (put_bytes arg (base + used) mem) (u32 (base + used + length arg)) 0) p
                  (u32 (base + used)))
                (base + 4 * i))
            place
        ∙ read32-write32
            (update (put_bytes arg (base + used) mem) (u32 (base + used + length arg)) 0)
            (base + 4 * i) (u32 (base + used)) (omega arith)
        ∙ (omega arith) in
      let string : string_at (2 ^ 32) (base + used) g ≡ arg =
        string_at-text arg (2 ^ 32) (base + used) g (omega arith) (omega arith) text
          (λ j h.
            early (base + used + j) (omega arith) (omega arith)
            ∙ one_arg-text arg i used mem (base + used + j) (omega arith) (omega arith)
                (omega arith)
            ∙ update-Outside (put_bytes arg (base + used) mem) (base + used + length arg) 0
                (base + used + j) (omega arith)
            ∙ put_bytes-at arg (base + used) mem j (omega arith) h)
          (early (base + used + length arg) (omega arith) (omega arith)
            ∙ one_arg-text arg i used mem (base + used + length arg) (omega arith) (omega arith)
                (omega arith)
            ∙ update-at (put_bytes arg (base + used) mem) (base + used + length arg) 0) in
      let step : base + 4 * i + 4 ≡ base + 4 * (i + 1) = omega arith in
      ap₂ (λ s rest. s ∷ rest) (ap (λ p. string_at (2 ^ 32) p g) pointer ∙ string)
        (ap (λ a. read_args (length args) a g) step
          ∙ read_args-put_args args (i + 1) n more m1 g texts (omega arith) (omega arith)
              (omega arith) final)

-- The arguments fit in the 512 bytes with their pointers, and no byte of them is 0: the program reads
-- them, and the pointer behind the last one is null.
pub read_args-build_argv :
    (base : ℕ) (args : List (List ℕ)) (mem : ℕ → ℕ)
    → base + 512 ≤ 2 ^ 32
    → AreTexts args
    → 4 * (length args + 1) + args_size args ≤ 512
    → (read_args (length args) base (build_argv base args mem) ≡ args)
      × (read32 (build_argv base args mem) (base + 4 * length args) ≡ 0)
unfolding build_argv
read_args-build_argv base args mem top texts fits =
    let used = (length args + 1) * 4 in
    let loop = put_args args 0 used base mem in
    let place : u32 (base + 4 * length args) ≡ base + 4 * length args = omega arith in
    let start : base ≡ base + 4 * 0 = omega arith in
    rw place (
      ap (λ a. read_args (length args) a (write32 loop (base + 4 * length args) 0)) start
          ∙ read_args-put_args base top args 0 (length args) used mem
              (write32 loop (base + 4 * length args) 0) texts (omega arith) (omega arith)
              (omega arith) (λ a h. write32-Outside loop (base + 4 * length args) 0 a h),
      read32-write32 loop (base + 4 * length args) 0 (omega arith),
    )
