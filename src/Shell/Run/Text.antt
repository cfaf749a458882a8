-- ===== src/Shell/Run/Text.antt =====
-- The text of the history's file: what `history_save` of kernel/shell.c writes, and what
-- `history_load_from_disk` reads in it.
use mx_os.Prelude.{
  ℕ, zero, suc, ◌+◌, ◌≤◌, ◌<◌, ◌≡◌, refl, ◌∙◌, sym, ap, subst, true, false, List, [], ◌∷◌, arith,
  ltb, ◌==◌, update,
}
use mx_os.Shell.{Shell, slot_back}
use mx_os.Shell.Run.{add_char, add_line, add_lines}

-- A command: its length and its characters.
abbrev pub Row : Type 0
Row = ℕ × (ℕ → ℕ)

-- The text from `p` to `q` is that of the commands, each with a line feed behind it.
unfoldable pub LinesAt : (ℕ → ℕ) → ℕ → List Row → ℕ → Type 0
LinesAt buf p [] q = p ≡ q
LinesAt buf p ((n, row) ∷ rows) q =
    ((i : ℕ) → i < n → buf (p + i) ≡ row i) × (buf (p + n) ≡ 10) × LinesAt buf (p + n + 1) rows q

-- The last `n` commands of the history, the oldest first, and the bytes that they take.
unfoldable pub rows_of : ℕ → Shell → List Row
rows_of zero s = []
rows_of (suc n) s = (s.history_len (slot_back n s), s.history (slot_back n s)) ∷ rows_of n s

unfoldable pub text_size : List Row → ℕ
text_size [] = 0
text_size ((n, row) ∷ rows) = n + 1 + text_size rows

-- Two buffers agree before `p`.
abbrev pub Same : ℕ → (ℕ → ℕ) → (ℕ → ℕ) → Type 0
Same p f g = (j : ℕ) → j < p → f j ≡ g j

pub LinesAt-Same :
    (f g : ℕ → ℕ) (p q : ℕ) (rows : List Row)
    → p + text_size rows ≡ q
    → Same q f g
    → LinesAt f p rows q
    → LinesAt g p rows q
unfolding LinesAt text_size
LinesAt-Same f g p q [] size same h = h
LinesAt-Same f g p q ((n, row) ∷ rows) size same (chars, feed, h) = (
  λ i below. sym (same (p + i) (omega arith)) ∙ chars i below,
  sym (same (p + n) (omega arith)) ∙ feed,
  LinesAt-Same f g (p + n + 1) q rows (omega arith) same h,
)

add_char-room :
    (c : ℕ) (buf : ℕ → ℕ) (len : ℕ)
    → len < 2047
    → add_char c (buf, len) ≡ (update buf len c, len + 1)
unfolding add_char
add_char-room c buf len h = let room : ltb len 2047 ≡ true = ground arith in rw room refl

update-Same : (buf : ℕ → ℕ) (p c : ℕ) → Same p (update buf p c) buf
update-Same buf p c j below = let other : (j == p) ≡ false = ground arith in rw other refl

update-here : (buf : ℕ → ℕ) (p c : ℕ) → update buf p c p ≡ c
update-here buf p c = let here : (p == p) ≡ true = ground arith in rw here refl

-- The characters of one command are put behind the text.
add_line-room :
    (n i : ℕ) (row buf : ℕ → ℕ) (len : ℕ)
    → len + n ≤ 2047
    → let (out, end) = add_line n i row (buf, len) in
      (end ≡ len + n) × Same len out buf × ((j : ℕ) → j < n → out (len + j) ≡ row (i + j))
unfolding add_line
add_line-room zero i row buf len room =
    (omega arith, λ j below. refl, λ j below. absurd (omega arith))
add_line-room (suc n) i row buf len room =
    let (end, same, chars) =
      add_line-room n (i + 1) row (update buf len (row i)) (len + 1) (omega arith) in
    rw (add_char-room (row i) buf len (omega arith), add_line)
      (
        omega (arith, end),
        λ j below. same j (omega arith) ∙ update-Same buf len (row i) j below,
        char (add_line n (i + 1) row (update buf len (row i), len + 1)).0 same chars,
      )
  where
    char :
        (out : ℕ → ℕ)
        → Same (len + 1) out (update buf len (row i))
        → ((j : ℕ) → j < n → out (len + 1 + j) ≡ row (i + 1 + j))
        → (j : ℕ) → j < suc n
        → out (len + j) ≡ row (i + j)
    char out same chars zero below =
        let at : len + 0 ≡ len = omega arith in
        let first : i + 0 ≡ i = omega arith in
        rw (at, first) (same len (omega arith) ∙ update-here buf len (row i))
    char out same chars (suc j) below =
        let at : len + suc j ≡ len + 1 + j = omega arith in
        let next : i + suc j ≡ i + 1 + j = omega arith in rw (at, next) (chars j (omega arith))

-- `history_save` writes the commands that are kept, where there is room for them.
pub add_lines-LinesAt :
    (n : ℕ) (s : Shell) (buf : ℕ → ℕ) (len : ℕ)
    → len + text_size (rows_of n s) ≤ 2047
    → let (out, end) = add_lines n s (buf, len) in
      (end ≡ len + text_size (rows_of n s)) × Same len out buf × LinesAt out len (rows_of n s) end
unfolding add_lines rows_of text_size LinesAt
add_lines-LinesAt zero s buf len room = (omega arith, λ j below. refl, refl)
add_lines-LinesAt (suc n) s buf len room =
    let l = s.history_len (slot_back n s) in
    let mid = add_line l 0 (s.history (slot_back n s)) (buf, len) in
    let (stop, before, chars) =
      add_line-room l 0 (s.history (slot_back n s)) buf len (omega arith) in
    let fed = update mid.0 (len + l) 10 in
    let next : add_char 10 mid ≡ (fed, len + l + 1) =
      add_char-room 10 mid.0 mid.1 (omega (arith, stop, room))
      ∙ ap (λ e. (update mid.0 e 10, e + 1)) stop in
    let (end, same, lines) = add_lines-LinesAt n s fed (len + l + 1) (omega arith) in
    subst (λ st. Written (add_lines n s st)) (sym next)
      (
        omega (arith, end),
        λ j below.
            same j (omega arith) ∙ update-Same mid.0 (len + l) 10 j (omega arith) ∙ before j below,
        (
          λ i below.
              same (len + i) (omega arith)
              ∙ update-Same mid.0 (len + l) 10 (len + i) (omega arith)
              ∙ chars i below
              ∙ ap (s.history (slot_back n s)) (omega arith),
          same (len + l) (omega arith) ∙ update-here mid.0 (len + l) 10,
          lines,
        ),
      )
  where
    Written : (ℕ → ℕ) × ℕ → Type 0
    Written (out, end) =
        (end ≡ len + text_size (rows_of (suc n) s))
        × Same len out buf
        × LinesAt out len (rows_of (suc n) s) end
