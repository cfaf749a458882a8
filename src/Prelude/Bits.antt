-- ===== src/Prelude/Bits.antt =====
-- `bit_or` of a page's address and small flags.
use Prim.Native.Nat.{ℕ, zero, suc, ◌+◌, ◌*◌, ◌<◌, bit_or}
use mathlib.Core.Path.{◌≡◌, refl}
use mathlib.Core.Logic.{inl, inr}
use native.Mathlib.Omega.{arith}
use mx_os.Prelude.Tests.{◌==◌, ==_iff, if◌then◌else◌, Bool-cases}

-- How many of the first `pages` addresses have bits in common with the flags.
wrong : (flags pages : ℕ) → ℕ
wrong flags zero = 0
wrong flags (suc page) =
    wrong flags page + (if bit_or (page * 4096) flags == page * 4096 + flags then 0 else 1)

-- Where none has, the flags stand beside each address.
wrong-beside :
    (flags pages i : ℕ)
    → wrong flags pages ≡ 0
    → i < pages
    → bit_or (i * 4096) flags ≡ i * 4096 + flags
unfolding wrong
wrong-beside flags zero i none_wrong h = absurd (omega arith)
wrong-beside flags (suc page) i none_wrong h = elim (Bool-cases (i == page)) [
  | inl last ↦
      let same : i ≡ page = (==_iff i page).0 last in
      rw same (elim (Bool-cases (bit_or (page * 4096) flags == page * 4096 + flags)) [
        | inl right ↦ (==_iff (bit_or (page * 4096) flags) (page * 4096 + flags)).0 right
        | inr bad ↦
            let counted : wrong flags page + 1 ≡ 0 = rw bad at none_wrong in absurd (omega arith)
      ])
  | inr earlier ↦ wrong-beside flags page i (omega (arith, none_wrong)) (ground arith)
]

three_beside : wrong 3 1024 ≡ 0
unfolding wrong
three_beside = refl

seven_beside : wrong 7 1024 ≡ 0
unfolding wrong
seven_beside = refl

-- The flags of a page table entry stand beside the page's address.
pub page-or-three : (i : ℕ) → i < 1024 → bit_or (i * 4096) 3 ≡ i * 4096 + 3
page-or-three i = wrong-beside 3 1024 i three_beside

pub page-or-seven : (i : ℕ) → i < 1024 → bit_or (i * 4096) 7 ≡ i * 4096 + 7
page-or-seven i = wrong-beside 7 1024 i seven_beside
