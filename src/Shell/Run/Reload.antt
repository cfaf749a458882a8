-- ===== src/Shell/Run/Reload.antt =====
-- What `history_load_from_disk` of kernel/shell.c finds in the text of the history's file.
use mx_os.Prelude.{
  ℕ, zero, suc, ◌+◌, ◌-◌, ◌≤◌, ◌<◌, ◌≡◌, ◌≢◌, refl, ◌∙◌, sym, ap, subst, ◌⊎◌, inl, inr, true, false,
  List, [], ◌∷◌, ◌++◌, take, arith, length, get_or, ltb, ◌==◌, if◌then◌else◌, Bool-cases,
}
use mx_os.Shell.{Shell, history_push, trim_from, trim_to_first_nul, push_lines, history_from_bytes}
use mx_os.Shell.Echo.{last_first, last_first-cong}
use mx_os.Shell.Recent.{Keeps, history_push-Keeps}
use mx_os.Shell.Run.Text.{Row, LinesAt, rows_of, text_size}

-- Each command has 1 to 255 characters, which are bytes, none of them a line feed or 0.
unfoldable pub AreLines : List Row → Type 0
AreLines [] = Unit
AreLines ((n, row) ∷ rows) =
    (0 < n)
    × (n ≤ 255)
    × ((i : ℕ) → i < n → (row i ≢ 10) × (row i ≢ 0) × (row i < 256))
    × AreLines rows

-- The commands `cs` with those of `rows` in front, each as its characters, the last one first.
unfoldable pub pushed : List Row → List (List ℕ) → List (List ℕ)
pushed [] cs = cs
pushed ((n, row) ∷ rows) cs = pushed rows (last_first n row ∷ cs)

-- Characters that are no line feed are passed.
push_lines-char :
    (m i start : ℕ) (buf : ℕ → ℕ) (size : ℕ) (s : Shell)
    → i ≢ size
    → buf i ≢ 10
    → push_lines (suc m) i start buf size s ≡ push_lines m (i + 1) start buf size s
unfolding push_lines
push_lines-char m i start buf size s inside other =
    let within : (i == size) ≡ false = ground arith in
    let no_feed : (buf i == 10) ≡ false = ground arith in rw (within, no_feed) refl

push_lines-chars :
    (n m i start : ℕ) (buf : ℕ → ℕ) (size : ℕ) (s : Shell)
    → i + n ≤ size
    → ((j : ℕ) → j < n → buf (i + j) ≢ 10)
    → push_lines (n + m) i start buf size s ≡ push_lines m (i + n) start buf size s
push_lines-chars zero m i start buf size s inside plain =
    let at : i + 0 ≡ i = omega arith in let rounds : 0 + m ≡ m = omega arith in rw (at, rounds) refl
push_lines-chars (suc n) m i start buf size s inside plain =
    let at : i + suc n ≡ i + 1 + n = omega arith in
    let rounds : suc n + m ≡ suc (n + m) = omega arith in
    let here : i + 0 ≡ i = omega arith in
    let first : buf i ≢ 10 = subst (λ x. buf x ≢ 10) here (plain 0 (omega arith)) in
    let next : (j : ℕ) → i + suc j ≡ i + 1 + j = λ j. omega arith in
    rw (at, rounds)
      (push_lines-char (n + m) i start buf size s (omega arith) first
        ∙ push_lines-chars n m (i + 1) start buf size s (omega arith)
            (λ j below. subst (λ x. buf x ≢ 10) (next j) (plain (suc j) (omega arith))))

-- At a line feed, the command is pushed.
push_lines-feed :
    (m i start : ℕ) (buf : ℕ → ℕ) (size : ℕ) (s : Shell)
    → i ≢ size
    → buf i ≡ 10
    → start < i
    → push_lines (suc m) i start buf size s
      ≡ push_lines m (i + 1) (i + 1) buf size (history_push (λ k. buf (start + k)) (i - start) s)
unfolding push_lines
push_lines-feed m i start buf size s inside feed some_char =
    let within : (i == size) ≡ false = ground arith in
    let here : (buf i == 10) ≡ true = ground arith in
    let longer : ltb start i ≡ true = ground arith in rw (within, here, longer) refl

push_lines-end : (i : ℕ) (buf : ℕ → ℕ) (s : Shell) → push_lines 1 i i buf i s ≡ s
unfolding push_lines
push_lines-end i buf s =
    let there : (i == i) ≡ true = ground arith in
    let empty : ltb i i ≡ false = ground arith in rw (there, empty) refl

pub LinesAt-size :
    (buf : ℕ → ℕ) (p q : ℕ) (rows : List Row) → LinesAt buf p rows q → q ≡ p + text_size rows
unfolding LinesAt text_size
LinesAt-size buf p q [] h = omega (arith, h)
LinesAt-size buf p q ((n, row) ∷ rows) (chars, feed, h) =
    omega (arith, LinesAt-size buf (p + n + 1) q rows h)

-- The text from `p` on is read back as its commands.
push_lines-Keeps :
    (buf : ℕ → ℕ) (p q : ℕ) (rows : List Row) (s : Shell) (cs : List (List ℕ))
    → LinesAt buf p rows q
    → AreLines rows
    → Keeps s cs
    → Keeps (push_lines (text_size rows + 1) p p buf q s) (pushed rows cs)
unfolding LinesAt AreLines text_size pushed
push_lines-Keeps buf p q [] s cs h lines keeps =
    let rounds : 0 + 1 ≡ 1 = omega arith in rw (rounds, h, push_lines-end q buf s) keeps
push_lines-Keeps buf p q ((n, row) ∷ rows) s cs (chars, feed, h) (some_char, short, plain, lines)
      keeps =
    let on = LinesAt-size buf (p + n + 1) q rows h in
    let taken = history_push (λ k. buf (p + k)) (p + n - p) s in
    let rounds : n + 1 + text_size rows + 1 ≡ n + suc (text_size rows + 1) = omega arith in
    let read : push_lines (n + 1 + text_size rows + 1) p p buf q s
        ≡ push_lines (text_size rows + 1) (p + n + 1) (p + n + 1) buf q taken =
      ap (λ m. push_lines m p p buf q s) rounds
      ∙ push_lines-chars n (suc (text_size rows + 1)) p p buf q s (omega (arith, on))
          (λ j below. subst (λ c. c ≢ 10) (sym (chars j below)) (plain j below).0)
      ∙ push_lines-feed (text_size rows + 1) (p + n) p buf q s (omega (arith, on)) feed
          (omega arith) in
    let width : p + n - p ≡ n = omega arith in
    let kept : Keeps taken (last_first n row ∷ cs) =
      subst (λ c. Keeps taken (c ∷ cs)) (content n width short chars)
        (history_push-Keeps (λ k. buf (p + k)) (p + n - p) s cs keeps) in
    subst (λ t. Keeps t (pushed rows (last_first n row ∷ cs))) (sym read)
      (push_lines-Keeps buf (p + n + 1) q rows taken (last_first n row ∷ cs) h lines kept)
  where
    content :
        (m : ℕ)
        → p + n - p ≡ m
        → m ≤ 255
        → ((i : ℕ) → i < m → buf (p + i) ≡ row i)
        → last_first (if ltb 255 (p + n - p) then 255 else p + n - p) (λ k. buf (p + k))
          ≡ last_first m row
    content m width short chars =
        let whole : ltb 255 m ≡ false = ground arith in
        rw (width, whole) (last_first-cong m (λ k. buf (p + k)) row chars)

-- A text without 0 is not cut before its end.
trim_from-end :
    (n i : ℕ) (buf : ℕ → ℕ) (q : ℕ)
    → i ≤ q
    → ((j : ℕ) → i ≤ j → j < q → buf j ≢ 0)
    → (q ≡ i + n) ⊎ ((q < i + n) × (buf q ≡ 0))
    → trim_from n i buf ≡ q
unfolding trim_from
trim_from-end zero i buf q le plain end = omega arith
trim_from-end (suc n) i buf q le plain end = elim (Bool-cases (i == q)) [
  | inl there ↦
      let at : i ≡ q = ground arith in let nul : (buf i == 0) ≡ true = stop i at end in rw nul at
  | inr before ↦
      let char : (buf i == 0) ≡ false = not_nul (buf i) (plain i (omega arith) (ground arith)) in
      rw char (
        trim_from-end n (i + 1) buf q (ground arith) (λ j a b. plain j (omega arith) b)
          (omega (arith, end)))
]
  where
    stop : (i : ℕ) → i ≡ q → (q ≡ i + suc n) ⊎ ((q < i + suc n) × (buf q ≡ 0)) → (buf i == 0) ≡ true
    stop i at (inl past) = absurd (omega arith)
    stop i at (inr (inside, nul)) = rw (at, nul) refl

    not_nul : (c : ℕ) → c ≢ 0 → (c == 0) ≡ false
    not_nul c h = ground arith

-- Every character of the lines is one of the text.
LinesAt-plain :
    (buf : ℕ → ℕ) (p q : ℕ) (rows : List Row)
    → LinesAt buf p rows q
    → AreLines rows
    → (j : ℕ) → p ≤ j
    → j < q
    → buf j ≢ 0
unfolding LinesAt AreLines
LinesAt-plain buf p q [] h lines j lo hi = absurd (omega arith)
LinesAt-plain buf p q ((n, row) ∷ rows) (chars, feed, h) (some_char, short, plain, lines) j lo hi =
    elim (Bool-cases (ltb j (p + n))) [
      | inl char ↦
          let at : p + (j - p) ≡ j = omega arith in
          subst (λ x. buf x ≢ 0) at
            (subst (λ c. c ≢ 0) (sym (chars (j - p) (ground arith)))
              (plain (j - p) (ground arith)).1)
      | inr rest ↦ elim (Bool-cases (j == p + n)) [
        | inl end ↦ let at : j ≡ p + n = ground arith in rw (at, feed) (omega arith)
        | inr after ↦ LinesAt-plain buf (p + n + 1) q rows h lines j (ground arith) hi
      ]
    ]

pub LinesAt-bytes :
    (buf : ℕ → ℕ) (p q : ℕ) (rows : List Row)
    → LinesAt buf p rows q
    → AreLines rows
    → (j : ℕ) → p ≤ j
    → j < q
    → buf j < 256
unfolding LinesAt AreLines
LinesAt-bytes buf p q [] h lines j lo hi = absurd (omega arith)
LinesAt-bytes buf p q ((n, row) ∷ rows) (chars, feed, h) (some_char, short, plain, lines) j lo hi =
    elim (Bool-cases (ltb j (p + n))) [
      | inl char ↦
          let at : p + (j - p) ≡ j = omega arith in
          subst (λ x. buf x < 256) at
            (subst (λ c. c < 256) (sym (chars (j - p) (ground arith)))
              (plain (j - p) (ground arith)).2)
      | inr rest ↦ elim (Bool-cases (j == p + n)) [
        | inl end ↦ let at : j ≡ p + n = ground arith in rw (at, feed) (omega arith)
        | inr after ↦ LinesAt-bytes buf (p + n + 1) q rows h lines j (ground arith) hi
      ]
    ]

-- A buffer that starts with the text of `rows`, and has a 0 behind it or ends there, gives these
-- commands.
pub history_from_bytes-Keeps :
    (buf : ℕ → ℕ) (q loaded : ℕ) (rows : List Row) (s : Shell)
    → LinesAt buf 0 rows q
    → AreLines rows
    → (q ≡ loaded) ⊎ ((q < loaded) × (buf q ≡ 0))
    → Keeps s []
    → Keeps (history_from_bytes buf loaded s) (pushed rows [])
unfolding history_from_bytes trim_to_first_nul
history_from_bytes-Keeps buf q loaded rows s h lines end keeps =
    let size : trim_from loaded 0 buf ≡ q =
      trim_from-end loaded 0 buf q (omega arith) (λ j a b. LinesAt-plain buf 0 q rows h lines j a b)
        (omega arith) in
    let rounds : q + 1 ≡ text_size rows + 1 = omega (arith, LinesAt-size buf 0 q rows h) in
    rw (size, rounds) (push_lines-Keeps buf 0 q rows s [] h lines keeps)

-- Pushed in their order, the last `n` commands of a history are again the last ones.
pub pushed-rows_of :
    (n : ℕ) (s : Shell) (cs acc : List (List ℕ))
    → Keeps s cs
    → n ≤ 8
    → n ≤ length cs
    → pushed (rows_of n s) acc ≡ take n cs ++ acc
unfolding pushed rows_of Keeps
pushed-rows_of zero s cs acc keeps near many = refl
pushed-rows_of (suc n) s cs acc (count, kept) near many =
    ap (λ c. pushed (rows_of n s) (c ∷ acc)) (kept n (omega arith) (omega arith))
    ∙ pushed-rows_of n s cs (get_or cs n [] ∷ acc) (count, kept) (omega arith) (omega arith)
    ∙ take-more n cs acc (omega arith)
  where
    take-more :
        (n : ℕ) (cs acc : List (List ℕ))
        → n < length cs
        → take n cs ++ (get_or cs n [] ∷ acc) ≡ take (suc n) cs ++ acc
    take-more n [] acc h = absurd (omega arith)
    take-more zero (c ∷ cs) acc h = refl
    take-more (suc n) (c ∷ cs) acc h = ap (λ xs. c ∷ xs) (take-more n cs acc (omega arith))
