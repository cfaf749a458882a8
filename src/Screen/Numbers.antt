-- ===== src/Screen/Numbers.antt =====
-- The digits that kernel/screen.c prints, read back.
use native.Mathlib.Nat.{pow-suc}
use mx_os.Prelude.{
  ℕ, zero, suc, ◌+◌, ◌-◌, ◌*◌, ◌/◌, ◌%◌, ◌^◌, ◌≤◌, ◌<◌, ◌≡◌, refl, ◌∙◌, ap, List, [], ◌∷◌, arith,
  ◌==◌, ==_iff, Bool-cases, inl, inr,
}
use mx_os.Screen.{dec_loop, dec_text}

-- The number that decimal digits spell, behind those of `acc`.
unfoldable pub read_dec : ℕ → List ℕ → ℕ
read_dec acc [] = acc
read_dec acc (c ∷ cs) = read_dec (10 * acc + (c - 48)) cs

-- Every character is a digit.
unfoldable pub Digits : List ℕ → Type 0
Digits [] = Unit
Digits (c ∷ cs) = (48 ≤ c) × (c ≤ 57) × Digits cs

read-dec_loop :
    (n value : ℕ) (digits : List ℕ)
    → value < 10 ^ n
    → read_dec 0 (dec_loop n value digits) ≡ read_dec value digits
unfolding dec_loop read_dec
read-dec_loop zero value digits h = let none_left : value ≡ 0 = omega arith in rw none_left refl
read-dec_loop (suc n) value digits h = elim (Bool-cases (value == 0)) [
  | inl e ↦ let z : value ≡ 0 = (==_iff value 0).0 e in rw (e, z) refl
  | inr e ↦
      let whole : 10 * (value / 10) + (48 + value % 10 - 48) ≡ value = omega arith in
      rw e (
        read-dec_loop n (value / 10) ((48 + value % 10) ∷ digits) (smaller n value h)
        ∙ ap (λ v. read_dec v digits) whole)
]
  where
    smaller : (n value : ℕ) → value < 10 ^ suc n → value / 10 < 10 ^ n
    smaller n value h = omega (arith, pow-suc 10 n)

Digits-dec_loop : (n value : ℕ) (digits : List ℕ) → Digits digits → Digits (dec_loop n value digits)
unfolding dec_loop Digits
Digits-dec_loop zero value digits d = d
Digits-dec_loop (suc n) value digits d = elim (Bool-cases (value == 0)) [
  | inl e ↦ rw e d
  | inr e ↦
      rw e
        (Digits-dec_loop n (value / 10) ((48 + value % 10) ∷ digits) (omega arith, omega arith, d))
]

-- The ten places of the buffer are enough for every `uint32_t`: the characters that `kprint_dec`
-- prints are decimal digits, and spell the number.
pub read-dec_text :
    (value : ℕ) → value < 2 ^ 32 → (read_dec 0 (dec_text value) ≡ value) × Digits (dec_text value)
unfolding dec_text read_dec Digits
read-dec_text value h = elim (Bool-cases (value == 0)) [
  | inl e ↦
      let z : value ≡ 0 = (==_iff value 0).0 e in rw (e, z) (refl, (omega arith, omega arith, tt))
  | inr e ↦ rw e (read-dec_loop 10 value [] (omega arith), Digits-dec_loop 10 value [] tt)
]
