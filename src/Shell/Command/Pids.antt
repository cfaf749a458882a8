-- ===== src/Shell/Command/Pids.antt =====
-- The numbers that kernel/shell.c reads are those that kernel/screen.c prints.
use mx_os.Prelude.{
  ℕ, ◌+◌, ◌-◌, ◌*◌, ◌^◌, ◌≤◌, ◌<◌, ◌≡◌, refl, ◌∙◌, ap, true, false, List, [], ◌∷◌, arith, length,
  ◌==◌, u32, Bool-cases, inl, inr,
}
use mx_os.Screen.{dec_text}
use mx_os.Screen.Numbers.{read_dec, Digits, read-dec_text}
use mx_os.Shell.Command.{
  kill, m_strcmp, m_strncmp, skip_spaces, is_digit, read_number, no_digit, kill_command, parse,
}

read_dec-grows : (acc : ℕ) (cs : List ℕ) → acc ≤ read_dec acc cs
unfolding read_dec
read_dec-grows acc [] = omega arith
read_dec-grows acc (c ∷ cs) = omega (arith, read_dec-grows (10 * acc + (c - 48)) cs)

digit : (c : ℕ) → 48 ≤ c → c ≤ 57 → is_digit c ≡ true
unfolding is_digit
digit c lo hi = ground arith

-- Digits are read to their end, where the number that they spell is a `uint32_t`.
read_number-Digits :
    (acc : ℕ) (cs : List ℕ)
    → Digits cs
    → read_dec acc cs < 2 ^ 32
    → read_number acc cs ≡ (read_dec acc cs, [])
unfolding read_number read_dec Digits
read_number-Digits acc [] d h = refl
read_number-Digits acc (c ∷ cs) (lo, hi, d) h =
    let grows = read_dec-grows (10 * acc + (c - 48)) cs in
    let at : u32 (acc * 10 + (c - 48)) ≡ 10 * acc + (c - 48) = omega (arith, grows, h) in
    rw (digit c lo hi, at) (read_number-Digits (10 * acc + (c - 48)) cs d h)

kill_command-Digits :
    (cs : List ℕ)
    → 0 < length cs
    → Digits cs
    → read_dec 0 cs < 2 ^ 32
    → kill_command cs ≡ kill (read_dec 0 cs)
unfolding kill_command skip_spaces no_digit Digits
kill_command-Digits [] some_char d h = absurd (omega arith)
kill_command-Digits (c ∷ cs) some_char (lo, hi, d) h =
    let no : (c == 32) ≡ false = ground arith in
    rw (no, digit c lo hi)
      (ap (λ (r : ℕ × List ℕ). kill r.0) (read_number-Digits 0 (c ∷ cs) (lo, hi, d) h))

some_digit : (value : ℕ) (cs : List ℕ) → read_dec 0 cs ≡ value → 0 < value → 0 < length cs
unfolding read_dec
some_digit value [] same h = absurd (omega arith)
some_digit value (c ∷ cs) same h = omega arith

zero_digit : (value : ℕ) → value ≡ 0 → 0 < length (dec_text value)
unfolding dec_text
zero_digit value none_left = rw none_left (omega arith)

length-dec_text : (value : ℕ) → value < 2 ^ 32 → 0 < length (dec_text value)
length-dec_text value h = elim (Bool-cases (value == 0)) [
  | inl e ↦ zero_digit value (ground arith)
  | inr e ↦ some_digit value (dec_text value) (read-dec_text value h).0 (ground arith)
]

parse-kill_prefix :
    (s : List ℕ) (idx : ℕ) → parse (b'k' ∷ b'i' ∷ b'l' ∷ b'l' ∷ b' ' ∷ s) idx ≡ kill_command s
unfolding parse m_strcmp m_strncmp
parse-kill_prefix s idx = refl

-- The command "kill", a space and a pid as `kprint_dec` prints it is read as the end of that task.
pub parse-kill :
    (pid idx : ℕ)
    → pid < 2 ^ 32
    → parse (b'k' ∷ b'i' ∷ b'l' ∷ b'l' ∷ b' ' ∷ dec_text pid) idx ≡ kill pid
parse-kill pid idx h =
    let (reads, digits) = read-dec_text pid h in
    parse-kill_prefix (dec_text pid) idx
    ∙ kill_command-Digits (dec_text pid) (length-dec_text pid h) digits (rw reads h)
    ∙ ap kill reads
