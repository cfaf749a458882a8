-- ===== src/Shell/Echo.antt =====
-- What the editor of kernel/shell.c puts on the screen, and its copies of buffers.
use mx_os.Prelude.{
  ℕ, zero, suc, ◌+◌, ◌≤◌, ◌<◌, ◌≡◌, refl, ◌∙◌, sym, ap, ap₂, subst, ◌≢◌, true, false, List, [], ◌∷◌,
  arith, length, drop, ◌==◌, if◌then◌else◌, update, Bool-cases, inl, inr,
}
use mx_os.Shell.{Shell, copy, put_char, erase, print_from, redraw_input_line}

-- What a terminal shows of the characters in `echo`, the last character first: a backspace takes
-- one away.
unfoldable pub shown : List ℕ → List ℕ
shown [] = []
shown (c ∷ echo) = let before = shown echo in if c == 8 then drop 1 before else c ∷ before

-- The first `n` characters of a buffer, the last one first.
unfoldable pub last_first : ℕ → (ℕ → ℕ) → List ℕ
last_first zero buf = []
last_first (suc n) buf = buf n ∷ last_first n buf

-- None of the first `n` characters is a backspace.
unfoldable pub IsPlain : ℕ → (ℕ → ℕ) → Type 0
IsPlain n buf = (i : ℕ) → i < n → buf i ≢ 8

-- The echo after `n` backspaces, and after `n` characters of a buffer from index `i` on.
pub erased : ℕ → List ℕ → List ℕ
erased zero echo = echo
erased (suc n) echo = erased n (8 ∷ echo)

pub printed : ℕ → ℕ → (ℕ → ℕ) → List ℕ → List ℕ
printed zero i buf echo = echo
printed (suc n) i buf echo = printed n (i + 1) buf (buf i ∷ echo)

erase-erased :
    (n : ℕ) (s : Shell)
    → erase n (record s { buffer_idx = n }) ≡ record s { buffer_idx = 0; echo = erased n s.echo }
unfolding erase erased put_char
erase-erased zero s = refl
erase-erased (suc n) s = erase-erased n (record s { echo = 8 ∷ s.echo })

print_from-printed :
    (n i : ℕ) (s : Shell) → print_from n i s ≡ record s { echo = printed n i s.input_buffer s.echo }
unfolding print_from printed put_char
print_from-printed zero i s = refl
print_from-printed (suc n) i s = print_from-printed n (i + 1) (put_char (s.input_buffer i) s)

pub redraw-printed :
    (n : ℕ) (s : Shell)
    → redraw_input_line n s
      ≡ record s { buffer_idx = n; echo = printed n 0 s.input_buffer (erased s.buffer_idx s.echo) }
unfolding redraw_input_line
redraw-printed n s =
    ap (λ (t : Shell). record (print_from n 0 t) { buffer_idx = n }) (erase-erased s.buffer_idx s)
    ∙ ap (λ (t : Shell). record t { buffer_idx = n })
        (print_from-printed n 0 (record s { buffer_idx = 0; echo = erased s.buffer_idx s.echo }))

length-drop_one : (xs : List ℕ) (n : ℕ) → length xs ≤ suc n → length (drop 1 xs) ≤ n
length-drop_one [] n h = omega arith
length-drop_one (x ∷ xs) n h = omega (arith, h)

none_left : (xs : List ℕ) → length xs ≤ 0 → xs ≡ []
none_left [] h = refl
none_left (x ∷ xs) h = absurd (omega (arith, h))

shown-erased : (n : ℕ) (echo : List ℕ) → length (shown echo) ≤ n → shown (erased n echo) ≡ []
unfolding shown erased
shown-erased zero echo h = none_left (shown echo) h
shown-erased (suc n) echo h = shown-erased n (8 ∷ echo) (length-drop_one (shown echo) n h)

pub shown-put : (c : ℕ) (echo : List ℕ) → c ≢ 8 → shown (c ∷ echo) ≡ c ∷ shown echo
unfolding shown
shown-put c echo h = let other : (c == 8) ≡ false = ground arith in rw other refl

pub last_first-suc : (i : ℕ) (buf : ℕ → ℕ) → last_first (i + 1) buf ≡ buf i ∷ last_first i buf
last_first-suc i buf = let at : i + 1 ≡ suc i = omega arith in rw at (unfold last_first in refl)

shown-printed :
    (n i : ℕ) (buf : ℕ → ℕ) (echo : List ℕ)
    → IsPlain (i + n) buf
    → shown echo ≡ last_first i buf
    → shown (printed n i buf echo) ≡ last_first (i + n) buf
unfolding printed IsPlain
shown-printed zero i buf echo plain h = let at : i + 0 ≡ i = omega arith in rw at h
shown-printed (suc n) i buf echo plain h =
    let at : i + suc n ≡ i + 1 + n = omega arith in
    rw at (
      shown-printed n (i + 1) buf (buf i ∷ echo) (subst (λ m. IsPlain m buf) at plain) (
        shown-put (buf i) echo (plain i (omega arith))
        ∙ ap (λ xs. buf i ∷ xs) h
        ∙ sym (last_first-suc i buf)))

pub length-last_first : (n : ℕ) (buf : ℕ → ℕ) → length (last_first n buf) ≡ n
unfolding last_first
length-last_first zero buf = refl
length-last_first (suc n) buf = ap suc (length-last_first n buf)

pub last_first-cong :
    (n : ℕ) (f g : ℕ → ℕ) → ((i : ℕ) → i < n → f i ≡ g i) → last_first n f ≡ last_first n g
unfolding last_first
last_first-cong zero f g h = refl
last_first-cong (suc n) f g h =
    ap₂ (λ x xs. x ∷ xs) (h n (omega arith)) (last_first-cong n f g (λ i below. h i (omega arith)))

-- What `redraw_input_line` leaves on the screen.
pub redraw-shown :
    (n idx : ℕ) (buf : ℕ → ℕ) (echo : List ℕ)
    → length (shown echo) ≤ idx
    → IsPlain n buf
    → shown (printed n 0 buf (erased idx echo)) ≡ last_first n buf
redraw-shown n idx buf echo before plain =
    subst (λ m. shown (printed n 0 buf (erased idx echo)) ≡ last_first m buf) zero_add
      (shown-printed n 0 buf (erased idx echo) (subst (λ m. IsPlain m buf) (sym zero_add) plain)
        (shown-erased idx echo before ∙ unfold last_first in refl))
  where
    zero_add : 0 + n ≡ n
    zero_add = omega arith

pub copy-out : (n i : ℕ) (src dst : ℕ → ℕ) (j : ℕ) → j < i → copy n i src dst j ≡ dst j
unfolding copy
copy-out zero i src dst j h = refl
copy-out (suc n) i src dst j h =
    let other : (j == i) ≡ false = ground arith in
    copy-out n (i + 1) src (update dst i (src i)) j (omega arith) ∙ rw other refl

pub copy-in : (n i : ℕ) (src dst : ℕ → ℕ) (j : ℕ) → i ≤ j → j < i + n → copy n i src dst j ≡ src j
unfolding copy
copy-in zero i src dst j lo hi = absurd (omega arith)
copy-in (suc n) i src dst j lo hi = elim (Bool-cases (j == i)) [
  | inl here ↦
      let at : j ≡ i = ground arith in
      rw at (
        copy-out n (i + 1) src (update dst i (src i)) i (omega arith)
        ∙ (let same : (i == i) ≡ true = ground arith in rw same refl))
  | inr later ↦ copy-in n (i + 1) src (update dst i (src i)) j (ground arith) (omega arith)
]
