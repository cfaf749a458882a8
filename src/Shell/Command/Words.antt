-- ===== src/Shell/Command/Words.antt =====
-- The arguments that kernel/shell.c finds in a command are those that were typed.
use mx_os.Prelude.{
  ℕ, zero, suc, ◌≤◌, ◌<◌, ◌≡◌, refl, ◌∙◌, ap, ◌≢◌, false, List, [], ◌∷◌, ◌++◌, arith, length,
  length-append, ◌==◌,
}
use mx_os.Shell.Command.{
  exec, m_strcmp, m_strncmp, skip_spaces, word, after_word, split_args, exec_command, parse,
}

-- No character is a space.
unfoldable pub IsSpaceless : List ℕ → Type 0
IsSpaceless [] = Unit
IsSpaceless (c ∷ w) = (c ≢ 32) × IsSpaceless w

-- Every one has a character and no space.
unfoldable pub AreWords : List (List ℕ) → Type 0
AreWords [] = Unit
AreWords (w ∷ ws) = (0 < length w) × IsSpaceless w × AreWords ws

-- A space before each of the words, and the words with one space between two of them.
unfoldable pub spaced : List (List ℕ) → List ℕ
spaced [] = []
spaced (w ∷ ws) = 32 ∷ w ++ spaced ws

unfoldable pub joined : List (List ℕ) → List ℕ
joined [] = []
joined (w ∷ ws) = w ++ spaced ws

word-spaced : (w : List ℕ) (ws : List (List ℕ)) → IsSpaceless w → word (w ++ spaced ws) ≡ w
unfolding IsSpaceless spaced word
word-spaced [] [] h = refl
word-spaced [] (v ∷ ws) h = refl
word-spaced (c ∷ w) ws (other, h) =
    let no : (c == 32) ≡ false = ground arith in rw no (ap (λ xs. c ∷ xs) (word-spaced w ws h))

after_word-spaced :
    (w : List ℕ) (ws : List (List ℕ)) → IsSpaceless w → after_word (w ++ spaced ws) ≡ spaced ws
unfolding IsSpaceless spaced after_word
after_word-spaced [] [] h = refl
after_word-spaced [] (v ∷ ws) h = refl
after_word-spaced (c ∷ w) ws (other, h) =
    let no : (c == 32) ≡ false = ground arith in rw no (after_word-spaced w ws h)

skip_spaces-word : (w t : List ℕ) → 0 < length w → IsSpaceless w → skip_spaces (w ++ t) ≡ w ++ t
unfolding IsSpaceless skip_spaces
skip_spaces-word [] t some_char h = absurd (omega arith)
skip_spaces-word (c ∷ w) t some_char (other, h) =
    let no : (c == 32) ≡ false = ground arith in rw no refl

skip_spaces-spaced : (ws : List (List ℕ)) → AreWords ws → skip_spaces (spaced ws) ≡ joined ws
unfolding AreWords spaced joined skip_spaces
skip_spaces-spaced [] h = refl
skip_spaces-spaced (w ∷ ws) (some_char, plain, h) = skip_spaces-word w (spaced ws) some_char plain

split_args-cons :
    (n : ℕ) (p : List ℕ)
    → 0 < length p
    → split_args (suc n) p ≡ word p ∷ split_args n (skip_spaces (after_word p))
unfolding split_args
split_args-cons n [] h = absurd (omega arith)
split_args-cons n (c ∷ p) h = refl

split_args-joined :
    (n : ℕ) (ws : List (List ℕ)) → length ws ≤ n → AreWords ws → split_args n (joined ws) ≡ ws
unfolding AreWords joined
split_args-joined zero [] few h = unfold split_args in refl
split_args-joined (suc n) [] few h = unfold split_args in refl
split_args-joined zero (w ∷ ws) few h = absurd (omega arith)
split_args-joined (suc n) (w ∷ ws) few (some_char, plain, h) =
    split_args-cons n (w ++ spaced ws) (omega (arith, length-append w (spaced ws)))
    ∙ rw (word-spaced w ws plain, after_word-spaced w ws plain, skip_spaces-spaced ws h)
        (ap (λ xs. w ∷ xs) (split_args-joined n ws (omega arith) h))

skip_spaces-joined : (ws : List (List ℕ)) → AreWords ws → skip_spaces (joined ws) ≡ joined ws
unfolding AreWords joined
skip_spaces-joined [] h = unfold skip_spaces in refl
skip_spaces-joined (w ∷ ws) (some_char, plain, h) = skip_spaces-word w (spaced ws) some_char plain

exec_command-words :
    (args w : List ℕ) (ws : List (List ℕ))
    → split_args 8 (skip_spaces args) ≡ w ∷ ws
    → exec_command args ≡ exec (w ∷ ws)
unfolding exec_command
exec_command-words args w ws found = rw found refl

parse-exec_prefix :
    (s : List ℕ) (idx : ℕ) → parse (b'e' ∷ b'x' ∷ b'e' ∷ b'c' ∷ b' ' ∷ s) idx ≡ exec_command s
unfolding parse m_strcmp m_strncmp
parse-exec_prefix s idx = refl

-- The command "exec", a space, and one to eight words with a space between two of them, each of
-- them with a character and without spaces, is read as the run of the first word with these
-- arguments.
pub parse-exec :
    (ws : List (List ℕ)) (idx : ℕ)
    → 0 < length ws
    → length ws ≤ 8
    → AreWords ws
    → parse (b'e' ∷ b'x' ∷ b'e' ∷ b'c' ∷ b' ' ∷ joined ws) idx ≡ exec ws
parse-exec [] idx some_word few words = absurd (omega arith)
parse-exec (w ∷ ws) idx some_word few words =
    parse-exec_prefix (joined (w ∷ ws)) idx
    ∙ exec_command-words (joined (w ∷ ws)) w ws (
        ap (split_args 8) (skip_spaces-joined (w ∷ ws) words)
        ∙ split_args-joined 8 (w ∷ ws) few words)
