-- ===== src/Screen/Cursor.antt =====
-- The cursor of kernel/screen.c stays on the screen, and no write leaves the 4000 bytes of video
-- memory.
use mx_os.Prelude.{
  ℕ, zero, suc, ◌+◌, ◌*◌, ◌≤◌, ◌<◌, ◌≡◌, refl, ◌∙◌, ap, List, [], ◌∷◌, arith, leb, ◌==◌, Bool-cases,
  false, inl, inr, update,
}
use mx_os.Screen.{
  Screen, blank_cells, copy_up, scroll, kprint_char_at, step_back, wrap_line, wrap_screen,
  kprint_char, kprint,
}

-- The cursor is on the screen.
pub record OnScreen (s : Screen) : Type 0 where
  pub column : s.cursor_x < 80
  pub row : s.cursor_y < 25

-- The bytes behind the screen's are as they were.
abbrev pub Kept : Screen → Screen → Type 0
Kept before after = (a : ℕ) → 4000 ≤ a → after.vidmem a ≡ before.vidmem a

update-kept : (mem : ℕ → ℕ) (i v a : ℕ) → i < 4000 → 4000 ≤ a → update mem i v a ≡ mem a
update-kept mem i v a hi ha = let apart : (a == i) ≡ false = ground arith in rw apart

blank_cells-kept :
    (n i color : ℕ) (mem : ℕ → ℕ) (a : ℕ)
    → i + 2 * n ≤ 4000
    → 4000 ≤ a
    → blank_cells n i color mem a ≡ mem a
unfolding blank_cells
blank_cells-kept zero i color mem a h ha = refl
blank_cells-kept (suc n) i color mem a h ha =
    blank_cells-kept n (i + 2) color (update (update mem i 32) (i + 1) color) a (omega arith) ha
    ∙ update-kept (update mem i 32) (i + 1) color a (omega arith) ha
    ∙ update-kept mem i 32 a (omega arith) ha

copy_up-kept : (n i : ℕ) (mem : ℕ → ℕ) (a : ℕ) → i + n ≤ 4000 → 4000 ≤ a → copy_up n i mem a ≡ mem a
unfolding copy_up
copy_up-kept zero i mem a h ha = refl
copy_up-kept (suc n) i mem a h ha =
    copy_up-kept n (i + 1) (update mem i (mem (i + 160))) a (omega arith) ha
    ∙ update-kept mem i (mem (i + 160)) a (omega arith) ha

scroll-Kept : (s : Screen) → Kept s (scroll s)
unfolding scroll
scroll-Kept s a ha =
    blank_cells-kept 80 3840 s.current_color (copy_up 3840 0 s.vidmem) a (omega arith) ha
    ∙ copy_up-kept 3840 0 s.vidmem a (omega arith) ha

kprint_char_at-Kept : (c x y : ℕ) (s : Screen) → x < 80 → y < 25 → Kept s (kprint_char_at c x y s)
unfolding kprint_char_at
kprint_char_at-Kept c x y s hx hy a ha =
    update-kept (update s.vidmem ((y * 80 + x) * 2) c) ((y * 80 + x) * 2 + 1) s.current_color a
      (omega arith) ha
    ∙ update-kept s.vidmem ((y * 80 + x) * 2) c a (omega arith) ha

scroll-OnScreen : (s : Screen) → s.cursor_x < 80 → OnScreen (scroll s)
unfolding scroll
scroll-OnScreen s h = record { column = h; row = omega arith }

wrap_screen-OnScreen : (s : Screen) → s.cursor_x < 80 → OnScreen (wrap_screen s)
unfolding wrap_screen
wrap_screen-OnScreen s h = elim (Bool-cases (leb 25 s.cursor_y)) [
  | inl e ↦ rw e (scroll-OnScreen s h)
  | inr e ↦ rw e (record { column = h; row = ground arith })
]

wrap_screen-Kept : (s : Screen) → Kept s (wrap_screen s)
unfolding wrap_screen
wrap_screen-Kept s a ha = elim (Bool-cases (leb 25 s.cursor_y)) [
  | inl e ↦ rw e (scroll-Kept s a ha)
  | inr e ↦ rw e refl
]

wrap_line-column : (s : Screen) → (wrap_line s).cursor_x < 80
unfolding wrap_line
wrap_line-column s = ground arith

wrap_line-vidmem : (s : Screen) → (wrap_line s).vidmem ≡ s.vidmem
unfolding wrap_line
wrap_line-vidmem s = ground arith

-- Wherever the cursor is, it is brought back to the screen.
settle : (s : Screen) → OnScreen (wrap_screen (wrap_line s)) × Kept s (wrap_screen (wrap_line s))
settle s = (
  wrap_screen-OnScreen (wrap_line s) (wrap_line-column s),
  λ a ha. wrap_screen-Kept (wrap_line s) a ha ∙ ap (λ (f : ℕ → ℕ). f a) (wrap_line-vidmem s),
)

step_back-OnScreen : (s : Screen) → OnScreen s → OnScreen (step_back s)
unfolding step_back
step_back-OnScreen s v = ground arith

step_back-vidmem : (s : Screen) → (step_back s).vidmem ≡ s.vidmem
unfolding step_back
step_back-vidmem s = ground arith

backspace : (b : Screen) → OnScreen b → OnScreen (kprint_char_at 32 b.cursor_x b.cursor_y b)
unfolding kprint_char_at
backspace b v = record { column = v.column; row = v.row }

-- One character, whatever it is.
pub kprint_char-OnScreen :
    (c : ℕ) (s : Screen) → OnScreen s → OnScreen (kprint_char c s) × Kept s (kprint_char c s)
unfolding kprint_char
kprint_char-OnScreen c s v = elim (Bool-cases (c == 10)) [
  | inl newline ↦ rw newline (settle (record s { cursor_x = 0; cursor_y = s.cursor_y + 1 }))
  | inr other ↦ elim (Bool-cases (c == 8)) [
    | inl back ↦
        let b = step_back-OnScreen s v in
        rw (other, back)
          (
            backspace (step_back s) b,
            λ a ha.
                kprint_char_at-Kept 32 (step_back s).cursor_x (step_back s).cursor_y (step_back s)
                  b.column b.row a ha
                ∙ ap (λ (f : ℕ → ℕ). f a) (step_back-vidmem s),
          )
    | inr plain ↦
        let put = kprint_char_at c s.cursor_x s.cursor_y s in
        let end = settle (record put { cursor_x = s.cursor_x + 1 }) in
        rw (other, plain)
          (
            end.0,
            λ a ha. end.1 a ha ∙ kprint_char_at-Kept c s.cursor_x s.cursor_y s v.column v.row a ha,
          )
  ]
]

-- Printing a string, whatever its characters are, leaves the cursor on the screen, and every byte
-- behind the screen's 4000 as it was.
pub kprint-OnScreen :
    (str : List ℕ) (s : Screen) → OnScreen s → OnScreen (kprint str s) × Kept s (kprint str s)
unfolding kprint
kprint-OnScreen [] s v = (v, λ a ha. refl)
kprint-OnScreen (c ∷ cs) s v = elim (Bool-cases (c == 0)) [
  | inl e ↦ rw e (v, λ a ha. refl)
  | inr e ↦
      let one = kprint_char-OnScreen c s v in
      let more = kprint-OnScreen cs (kprint_char c s) one.0 in
      rw e (more.0, λ a ha. more.1 a ha ∙ one.1 a ha)
]
