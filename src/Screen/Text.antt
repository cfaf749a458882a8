-- ===== src/Screen/Text.antt =====
-- Strings on the screen of kernel/screen.c, one behind the other.
use mx_os.Prelude.{
  ℕ, zero, suc, ◌+◌, ◌/◌, ◌%◌, ◌^◌, ◌<◌, ◌≡◌, ◌≢◌, refl, ◌∙◌, sym, Bool, true, false, ◌&&◌, not,
  inl, inr, List, [], ◌∷◌, ◌++◌, arith, length, get_or, ◌==◌, Bool-cases,
}
use mathlib.Core.Bool.{true≢false}
use mx_os.Screen.{Screen, kprint, kprint_char, dec_loop, dec_text, hex_digits, hex_loop, hex_text}

-- No byte is the terminator.
unfoldable pub IsText : List ℕ → Type 0
IsText [] = Unit
IsText (c ∷ text) = (c ≢ 0) × IsText text

pub kprint-append :
    (xs ys : List ℕ) (s : Screen) → IsText xs → kprint (xs ++ ys) s ≡ kprint ys (kprint xs s)
unfolding kprint IsText
kprint-append [] ys s plain = refl
kprint-append (c ∷ xs) ys s (nonzero, plain) =
    let other : (c == 0) ≡ false = ground arith in
    rw other (kprint-append xs ys (kprint_char c s) plain)

pub IsText-append : (xs ys : List ℕ) → IsText xs → IsText ys → IsText (xs ++ ys)
unfolding IsText
IsText-append [] ys px py = py
IsText-append (x ∷ xs) ys (nonzero, px) py = (nonzero, IsText-append xs ys px py)

IsText-get_or : (text : List ℕ) (j : ℕ) → j < length text → IsText text → get_or text j 0 ≢ 0
unfolding IsText
IsText-get_or [] j below plain = absurd (omega arith)
IsText-get_or (c ∷ text) zero below (nonzero, plain) = nonzero
IsText-get_or (c ∷ text) (suc j) below (nonzero, plain) = IsText-get_or text j (omega arith) plain

dec_loop-IsText : (n value : ℕ) (digits : List ℕ) → IsText digits → IsText (dec_loop n value digits)
unfolding dec_loop
dec_loop-IsText zero value digits plain = plain
dec_loop-IsText (suc n) value digits plain = elim (Bool-cases (value == 0)) [
  | inl done ↦ rw done plain
  | inr more ↦
      let next : IsText ((48 + value % 10) ∷ digits) = unfold IsText in (omega arith, plain) in
      rw more (dec_loop-IsText n (value / 10) ((48 + value % 10) ∷ digits) next)
]

pub dec_text-IsText : (value : ℕ) → IsText (dec_text value)
unfolding dec_text IsText
dec_text-IsText value = elim (Bool-cases (value == 0)) [
  | inl none ↦ rw none (omega arith, tt)
  | inr more ↦ rw more (dec_loop-IsText 10 value [] tt)
]

-- No byte is 0, tested.
abbrev pub no_nul : List ℕ → Bool
no_nul [] = true
no_nul (c ∷ text) = not (c == 0) && no_nul text

pub no_nul-IsText : (text : List ℕ) → no_nul text ≡ true → IsText text
unfolding IsText
no_nul-IsText [] h = tt
no_nul-IsText (c ∷ text) h = elim (Bool-cases (c == 0)) [
  | inl zero_byte ↦ absurd (true≢false (sym h ∙ rw zero_byte refl))
  | inr other ↦
      let nonzero : c ≢ 0 = ground arith in (nonzero, no_nul-IsText text (sym (rw other refl) ∙ h))
]

hex_digits-IsText : IsText hex_digits
hex_digits-IsText = no_nul-IsText hex_digits refl

hex_loop-IsText : (n value : ℕ) → IsText (hex_loop n value)
unfolding hex_loop IsText
hex_loop-IsText zero value = tt
hex_loop-IsText (suc n) value = (
  IsText-get_or hex_digits (value / 16 ^ n % 16) (omega arith) hex_digits-IsText,
  hex_loop-IsText n value,
)

pub hex_text-IsText : (value : ℕ) → IsText (hex_text value)
unfolding hex_text IsText
hex_text-IsText value = (omega arith, (omega arith, hex_loop-IsText 8 value))
