-- ===== src/Exceptions/Reported.antt =====
-- What kernel/exceptions.c reports of an exception.
use mx_os.Prelude.{
  ℕ, ◌<◌, ◌≡◌, refl, ◌∙◌, sym, Bool, true, false, ◌||◌, ◌&&◌, inl, inr, List, ◌∷◌, ◌++◌, arith, leb,
  ◌==◌, if◌then◌else◌, Bool-cases,
}
use mx_os.Screen.Text.{IsText, kprint-append, dec_text-IsText, hex_text-IsText, no_nul-IsText}
use mx_os.Screen.{Screen, kprint, kprint_dec, kprint_hex, dec_text, hex_text}
use mx_os.Syscall.{Registers}
use mx_os.Exceptions.{
  exc_err, isr, pushal, exception_label, code_label, eip_label, cr2_label, halted_label,
  exception_report, isr_common_stub,
}

-- The words that the processor has pushed when a stub starts: EIP and what is below it, after the code
-- of the exceptions that have one.
unfoldable pub delivered : (ℕ → Bool) → ℕ → ℕ → ℕ → List ℕ → List ℕ
delivered has_code n code eip below = if has_code n then code ∷ eip ∷ below else eip ∷ below

-- The line for an exception; only a page fault has an address.
unfoldable pub report : ℕ → ℕ → ℕ → ℕ → List ℕ
report vector code eip address =
    let ending =
      if vector == 14 then cr2_label ++ (hex_text address ++ halted_label) else halted_label in
    exception_label
    ++ (dec_text vector
        ++ (code_label ++ (hex_text code ++ (eip_label ++ (hex_text eip ++ ending)))))

-- Two strings, one behind the other.
label_then :
    (label text rest : List ℕ) (s : Screen)
    → IsText label
    → IsText text
    → kprint rest (kprint text (kprint label s)) ≡ kprint (label ++ (text ++ rest)) s
label_then label text rest s plain_label plain = sym (
    kprint-append label (text ++ rest) s plain_label
    ∙ kprint-append text rest (kprint label s) plain)

exception_label-IsText : IsText exception_label
exception_label-IsText = no_nul-IsText exception_label refl

code_label-IsText : IsText code_label
code_label-IsText = no_nul-IsText code_label refl

eip_label-IsText : IsText eip_label
eip_label-IsText = no_nul-IsText eip_label refl

cr2_label-IsText : IsText cr2_label
cr2_label-IsText = no_nul-IsText cr2_label refl

-- The part that every exception has, and what follows it.
placed_lem :
    (vector code eip : ℕ) (ending : List ℕ) (s : Screen)
    → kprint ending (
        kprint (hex_text eip) (
          kprint eip_label (
            kprint
              (hex_text code)
              (kprint code_label (kprint (dec_text vector) (kprint exception_label s))))))
      ≡ kprint
          (exception_label
            ++ (dec_text vector
                ++ (code_label ++ (hex_text code ++ (eip_label ++ (hex_text eip ++ ending))))))
          s
placed_lem vector code eip ending s =
    let numbered = kprint (dec_text vector) (kprint exception_label s) in
    let coded = kprint (hex_text code) (kprint code_label numbered) in
    let placed = eip_label ++ (hex_text eip ++ ending) in
    label_then eip_label (hex_text eip) ending coded eip_label-IsText (hex_text-IsText eip)
    ∙ label_then code_label (hex_text code) placed numbered code_label-IsText (hex_text-IsText code)
    ∙ label_then exception_label (dec_text vector) (code_label ++ (hex_text code ++ placed)) s
        exception_label-IsText (dec_text-IsText vector)

report_lem :
    (vector code eip cr2 : ℕ) (below : List ℕ) (r : Registers) (s : Screen)
    → isr_common_stub r (vector ∷ code ∷ eip ∷ below) cr2 s ≡ kprint (report vector code eip cr2) s
unfolding isr_common_stub exception_report pushal report kprint_dec kprint_hex
report_lem vector code eip cr2 below r s = elim (Bool-cases (vector == 14)) [
  | inl fault ↦
      let placed = kprint (hex_text eip) (
        kprint eip_label (
          kprint (hex_text code)
            (kprint code_label (kprint (dec_text vector) (kprint exception_label s))))) in
      rw fault (
        label_then cr2_label (hex_text cr2) halted_label placed cr2_label-IsText
          (hex_text-IsText cr2)
        ∙ placed_lem vector code eip (cr2_label ++ (hex_text cr2 ++ halted_label)) s)
  | inr other ↦ rw other (placed_lem vector code eip halted_label s)
]

exc_err-range : (n : ℕ) → exc_err n ≡ ((n == 8) || (leb 10 n && leb n 14) || (n == 17))
unfolding exc_err
exc_err-range n = ground arith

-- An exception comes with its vector, below 32, and the processor pushes a code for the vectors 8,
-- 10 to 14 and 17 only. Its stub prints the vector, the code, 0 where there is none, the EIP that
-- was pushed, and for the page fault the address in CR2.
pub isr-reported :
    (has_code : ℕ → Bool) (n code eip cr2 : ℕ) (below : List ℕ) (r : Registers) (s : Screen)
    → n < 32
    → ((m : ℕ) → m < 32 → has_code m ≡ ((m == 8) || (leb 10 m && leb m 14) || (m == 17)))
    → isr_common_stub r (isr n (delivered has_code n code eip below)) cr2 s
      ≡ kprint (report n (if has_code n then code else 0) eip cr2) s
unfolding isr delivered
isr-reported has_code n code eip cr2 below r s h documented = elim (Bool-cases (has_code n)) [
  | inl coded ↦
      let stub : exc_err n ≡ true = exc_err-range n ∙ sym (documented n h) ∙ coded in
      rw (coded, stub) (report_lem n code eip cr2 below r s)
  | inr plain ↦
      let stub : exc_err n ≡ false = exc_err-range n ∙ sym (documented n h) ∙ plain in
      rw (plain, stub) (report_lem n 0 eip cr2 below r s)
]
