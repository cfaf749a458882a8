-- ===== src/User/Echo.antt =====
-- The line that echo_user.c of userprogs makes of the arguments.
use mx_os.Prelude.{
  ℕ, zero, suc, ◌+◌, ◌*◌, ◌^◌, ◌≤◌, ◌<◌, ◌≡◌, refl, ◌∙◌, sym, ap, subst, true, false, inl, inr,
  List, [], ◌∷◌, ◌++◌, append-nil, append_assoc, arith, length, length-append, length-take, take,
  ltb, ◌==◌, u32, Bool-cases, dec_lt,
}
use mathlib.Core.List.{head-eq_of_cons-eq, tail-eq_of_cons-eq}
use mx_os.Exec.{build_argv}
use mx_os.Shell.Command.Words.{spaced, joined}
use mx_os.Syscall.{string_at}
use mx_os.User.{argument, echo_chars, echo_word, echo_words, echo_line}
use mx_os.User.Arguments.{args_size, AreTexts, read_args, read_args-build_argv}
use mx_os.User.Libc.{strlen_from, u_strlen}

-- The beginning of a list that is long enough.
take-front : (n : ℕ) (xs ys : List ℕ) → n ≤ length xs → take n (xs ++ ys) ≡ take n xs
take-front zero xs ys h = refl
take-front (suc n) [] ys h = absurd (omega arith)
take-front (suc n) (x ∷ xs) ys h = ap (λ t. x ∷ t) (take-front n xs ys (omega arith))

take-all : (n : ℕ) (xs : List ℕ) → length xs ≤ n → take n xs ≡ xs
take-all zero [] h = refl
take-all zero (x ∷ xs) h = absurd (omega arith)
take-all (suc n) [] h = refl
take-all (suc n) (x ∷ xs) h = ap (λ t. x ∷ t) (take-all n xs (omega arith))

pub length-take_le : (n : ℕ) (xs : List ℕ) → length (take n xs) ≤ n
length-take_le zero xs = omega arith
length-take_le (suc n) [] = omega arith
length-take_le (suc n) (x ∷ xs) = let rest = length-take_le n xs in omega (arith, rest)

length-take_short : (n : ℕ) (xs : List ℕ) → length (take n xs) < n → take n xs ≡ xs
length-take_short zero xs h = absurd (omega arith)
length-take_short (suc n) [] h = refl
length-take_short (suc n) (x ∷ xs) h = ap (λ t. x ∷ t) (length-take_short n xs (omega arith))

take-full : (n : ℕ) (xs ys : List ℕ) → length xs ≤ n → n ≤ length xs → take n (xs ++ ys) ≡ xs
take-full n xs ys short long = take-front n xs ys long ∙ take-all n xs short

strlen_from-length :
    (fuel s n : ℕ) (mem : ℕ → ℕ)
    → strlen_from fuel s n mem ≡ n + length (string_at fuel (s + n) mem)
unfolding strlen_from string_at
strlen_from-length zero s n mem = omega arith
strlen_from-length (suc fuel) s n mem = elim (Bool-cases (mem (u32 (s + n)) == 0)) [
  | inl end ↦ rw end (omega arith)
  | inr more ↦
      let next : s + (n + 1) ≡ s + n + 1 = omega arith in
      rw more (
        strlen_from-length fuel s (n + 1) mem
        ∙ ap (λ p. n + 1 + length (string_at fuel p mem)) next
        ∙ omega arith)
]

-- `u_strlen` is the length of the string that SYS_PRINT would print.
pub u_strlen-length : (s : ℕ) (mem : ℕ → ℕ) → u_strlen s mem ≡ length (string_at (2 ^ 32) s mem)
unfolding u_strlen
u_strlen-length s mem =
    let at : s + 0 ≡ s = omega arith in
    let none_before : 0 + length (string_at (2 ^ 32) (s + 0) mem)
        ≡ length (string_at (2 ^ 32) (s + 0) mem) =
      omega arith in
    strlen_from-length (2 ^ 32) s 0 mem
    ∙ none_before
    ∙ ap (λ p. length (string_at (2 ^ 32) p mem)) at

echo_chars_lem :
    (n p : ℕ) (mem : ℕ → ℕ) (line : List ℕ)
    → length line ≤ 126
    → echo_chars (length (string_at n p mem)) p mem line ≡ take 126 (line ++ string_at n p mem)
unfolding echo_chars string_at
echo_chars_lem zero p mem line short =
    sym (ap (take 126) (append-nil line) ∙ take-all 126 line short)
echo_chars_lem (suc n) p mem line short = elim (Bool-cases (mem (u32 p) == 0)) [
  | inl end ↦ rw end (sym (ap (take 126) (append-nil line) ∙ take-all 126 line short))
  | inr more ↦ elim (Bool-cases (ltb (length line) 126)) [
    | inl room ↦
        let one = length-append line (mem (u32 p) ∷ []) in
        let below : length line < 126 = ground arith in
        rw (more, room)
          (echo_chars_lem n (p + 1) mem (line ++ mem (u32 p) ∷ []) (omega (arith, one))
            ∙ ap (take 126) (append_assoc line (mem (u32 p) ∷ []) (string_at n (p + 1) mem)))
    | inr full ↦
        let long : 126 ≤ length line = ground arith in
        rw (more, full)
          (sym (take-full 126 line (mem (u32 p) ∷ string_at n (p + 1) mem) short long))
  ]
]

-- The text of one argument behind the line.
echo_text :
    (p : ℕ) (mem : ℕ → ℕ) (line w : List ℕ)
    → length line ≤ 126
    → string_at (2 ^ 32) p mem ≡ w
    → echo_chars (u_strlen p mem) p mem line ≡ take 126 (line ++ w)
echo_text p mem line w short string =
    ap (λ n. echo_chars n p mem line) (u_strlen-length p mem)
    ∙ echo_chars_lem (2 ^ 32) p mem line short
    ∙ ap (λ t. take 126 (line ++ t)) string

-- The strings of the arguments from number `i` on.
unfoldable pub AreStrings : ℕ → ℕ → (ℕ → ℕ) → List (List ℕ) → Type 0
AreStrings i argv mem [] = Unit
AreStrings i argv mem (w ∷ ws) =
    (string_at (2 ^ 32) (argument argv i mem) mem ≡ w) × AreStrings (i + 1) argv mem ws

-- Whatever follows a text that has no room left is cut off.
full_line :
    (line w r1 r2 : List ℕ)
    → 126 ≤ length (take 126 (line ++ w))
    → take 126 (take 126 (line ++ w) ++ r1) ≡ take 126 (line ++ (w ++ r2))
full_line line w r1 r2 full =
    let text = line ++ w in
    let long : 126 ≤ length text = omega (arith, full, length-take 126 text) in
    take-full 126 (take 126 text) r1 (length-take_le 126 text) full
    ∙ sym (take-front 126 text r2 long)
    ∙ ap (take 126) (append_assoc line w r2)

ltb-below : (n : ℕ) → n < 126 → ltb n 126 ≡ true
ltb-below n h = ground arith

ltb-full : (n : ℕ) → 126 ≤ n → ltb n 126 ≡ false
ltb-full n h = ground arith

-- A line with room takes one argument, and a space where another one follows.
echo_word-last :
    (i argc argv : ℕ) (mem : ℕ → ℕ) (line w : List ℕ)
    → length line ≤ 126
    → string_at (2 ^ 32) (argument argv i mem) mem ≡ w
    → argc ≤ i + 1
    → echo_word i argc argv mem line ≡ take 126 (line ++ w)
unfolding echo_word
echo_word-last i argc argv mem line w short string last =
    let none_left : ltb (i + 1) argc ≡ false = ground arith in
    rw none_left (echo_text (argument argv i mem) mem line w short string)

echo_word-more :
    (i argc argv : ℕ) (mem : ℕ → ℕ) (line w : List ℕ)
    → length line ≤ 126
    → string_at (2 ^ 32) (argument argv i mem) mem ≡ w
    → i + 1 < argc
    → length (take 126 (line ++ w)) < 126
    → echo_word i argc argv mem line ≡ (line ++ w) ++ 32 ∷ []
unfolding echo_word
echo_word-more i argc argv mem line w short string more room =
    let some_left : ltb (i + 1) argc ≡ true = ground arith in
    let text = echo_text (argument argv i mem) mem line w short string in
    let whole = text ∙ length-take_short 126 (line ++ w) room in
    let room2 : length (line ++ w) < 126 =
      subst (λ t. length t < 126) (length-take_short 126 (line ++ w) room) room in
    let fits = ltb-below (length (line ++ w)) room2 in rw (some_left, whole, fits) refl

echo_word-full :
    (i argc argv : ℕ) (mem : ℕ → ℕ) (line w : List ℕ)
    → length line ≤ 126
    → string_at (2 ^ 32) (argument argv i mem) mem ≡ w
    → 126 ≤ length (take 126 (line ++ w))
    → echo_word i argc argv mem line ≡ take 126 (line ++ w)
unfolding echo_word
echo_word-full i argc argv mem line w short string full =
    let text = echo_text (argument argv i mem) mem line w short string in
    let no_room = ltb-full (length (take 126 (line ++ w))) full in
    elim (Bool-cases (ltb (i + 1) argc)) [
      | inl more ↦ rw (more, text, no_room) refl
      | inr last ↦ rw last text
    ]

echo_words-step :
    (n i argc argv : ℕ) (mem : ℕ → ℕ) (line : List ℕ)
    → length line < 126
    → echo_words (suc n) i argc argv mem line
      ≡ echo_words n (i + 1) argc argv mem (echo_word i argc argv mem line)
unfolding echo_words
echo_words-step n i argc argv mem line room =
    let yes_room : ltb (length line) 126 ≡ true = ground arith in rw yes_room refl

-- The arguments behind one that is added to the line.
echo_words-rest :
    (w : List ℕ) (ws : List (List ℕ)) (i argc argv : ℕ) (mem : ℕ → ℕ) (line : List ℕ)
    → length line ≤ 126
    → i + length (w ∷ ws) ≡ argc
    → string_at (2 ^ 32) (argument argv i mem) mem ≡ w
    → ((next : List ℕ)
        → length next ≤ 126
        → echo_words (length ws) (i + 1) argc argv mem next ≡ take 126 (next ++ joined ws))
    → echo_words (length ws) (i + 1) argc argv mem (echo_word i argc argv mem line)
      ≡ take 126 (line ++ (w ++ spaced ws))
unfolding joined spaced
echo_words-rest w [] i argc argv mem line short count string others =
    unfold echo_words in
    echo_word-last i argc argv mem line w short string (omega arith)
    ∙ ap (λ t. take 126 (line ++ t)) (sym (append-nil w))
echo_words-rest w (v ∷ vs) i argc argv mem line short count string others =
    let words : List ℕ → List ℕ = echo_words (length (v ∷ vs)) (i + 1) argc argv mem in
    elim (dec_lt (length (take 126 (line ++ w))) 126) [
      | yes room ↦
          let whole = length-take_short 126 (line ++ w) room in
          let below = subst (λ t. length t < 126) whole room in
          ap words (echo_word-more i argc argv mem line w short string (omega arith) room)
          ∙ others ((line ++ w) ++ 32 ∷ [])
              (omega (arith, below, length-append (line ++ w) (32 ∷ [])))
          ∙ ap (take 126) (
              append_assoc (line ++ w) (32 ∷ []) (joined (v ∷ vs))
              ∙ append_assoc line w (32 ∷ joined (v ∷ vs)))
      | no full ↦
          let full : 126 ≤ length (take 126 (line ++ w)) = omega arith in
          ap words (echo_word-full i argc argv mem line w short string full)
          ∙ others (take 126 (line ++ w)) (length-take_le 126 (line ++ w))
          ∙ full_line line w (joined (v ∷ vs)) (spaced (v ∷ vs)) full
    ]

echo_words_lem :
    (ws : List (List ℕ)) (i argc argv : ℕ) (mem : ℕ → ℕ) (line : List ℕ)
    → length line ≤ 126
    → i + length ws ≡ argc
    → AreStrings i argv mem ws
    → echo_words (length ws) i argc argv mem line ≡ take 126 (line ++ joined ws)
unfolding AreStrings joined spaced
echo_words_lem [] i argc argv mem line short count strings =
    unfold echo_words in sym (ap (take 126) (append-nil line) ∙ take-all 126 line short)
echo_words_lem (w ∷ ws) i argc argv mem line short count (string, strings) =
    elim (Bool-cases (ltb (length line) 126)) [
      | inr full ↦
          let long : 126 ≤ length line = ground arith in
          unfold echo_words in rw full (sym (take-full 126 line (w ++ spaced ws) short long))
      | inl room ↦
          let below : length line < 126 = ground arith in
          echo_words-step (length ws) i argc argv mem line below
          ∙ echo_words-rest w ws i argc argv mem line short count string
              (λ next fits. echo_words_lem ws (i + 1) argc argv mem next fits (omega arith) strings)
    ]

pub AreStrings-read_args :
    (ws : List (List ℕ)) (i argv : ℕ) (mem : ℕ → ℕ)
    → argv + 4 * (i + length ws) ≤ 2 ^ 32
    → read_args (length ws) (argv + 4 * i) mem ≡ ws
    → AreStrings i argv mem ws
unfolding AreStrings read_args argument
AreStrings-read_args [] i argv mem top same = tt
AreStrings-read_args (w ∷ ws) i argv mem top same =
    let at : u32 (argv + 4 * i) ≡ argv + 4 * i = omega arith in
    let next : argv + 4 * (i + 1) ≡ argv + 4 * i + 4 = omega arith in
    (
      rw at (head-eq_of_cons-eq same),
      AreStrings-read_args ws (i + 1) argv mem (omega arith)
          (ap (λ a. read_args (length ws) a mem) next ∙ tail-eq_of_cons-eq same),
    )

-- Arguments without a byte 0 that fit with their pointers in the 512 bytes of `build_argv`: echo_user
-- makes the line of them with a space between two of them, cut off at 126 characters.
pub echo_line-build_argv :
    (base : ℕ) (args : List (List ℕ)) (mem : ℕ → ℕ)
    → base + 512 ≤ 2 ^ 32
    → AreTexts args
    → 4 * (length args + 1) + args_size args ≤ 512
    → echo_line (length args) base (build_argv base args mem) ≡ take 126 (joined args)
unfolding echo_line
echo_line-build_argv base args mem top texts fits =
    let final = build_argv base args mem in
    let start : base + 4 * 0 ≡ base = omega arith in
    echo_words_lem args 0 (length args) base final [] (omega arith) (omega arith) (
      AreStrings-read_args args 0 base final (omega arith) (
        ap (λ a. read_args (length args) a final) start
        ∙ (read_args-build_argv base args mem top texts fits).0))
