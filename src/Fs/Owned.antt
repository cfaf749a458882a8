-- ===== src/Fs/Owned.antt =====
-- Which sectors the files of drivers/fs.c own, and the bitmap that keeps them apart.
use mx_os.Prelude.{
  ℕ, zero, suc, ◌+◌, ◌-◌, ◌≤◌, ◌<◌, ◌≡◌, ◌≢◌, refl, ◌∙◌, sym, ap, subst, ◌⊎◌, inl, inr, true, false,
  ◌&&◌, List, [], ◌∷◌, take, arith, length, set, get_or, get_or-set_ne, get_or-set_self, length-set,
  ltb, ◌==◌, Bool-cases, dec_lt, ℕ_discrete,
}
use mathlib.Core.Bool.{true≢false}
use mx_os.Fs.{FileEntry, valid_name, valid_from, mark_from, marked}
use mx_os.Fs.Cleared.{blank}
use mx_os.Fs.Table.{file_at, no_file}

mark_from-outside :
    (n i idx count used p : ℕ) (bitmap : List ℕ)
    → (p < idx + i) ⊎ (idx + count ≤ p)
    → get_or (mark_from n i idx count used bitmap) p 0 ≡ get_or bitmap p 0
unfolding mark_from
mark_from-outside zero i idx count used p bitmap apart = refl
mark_from-outside (suc n) i idx count used p bitmap apart =
    elim (Bool-cases (ltb i count && ltb (idx + i) 511)) [
      | inr done ↦ rw done refl
      | inl more ↦
          let inside : i < count = ground arith in
          rw more (
            mark_from-outside n (i + 1) idx count used p (set bitmap (idx + i) used) (omega arith)
            ∙ get_or-set_ne bitmap (idx + i) p used 0 (omega arith))
    ]

mark_from-inside :
    (n i idx count used p : ℕ) (bitmap : List ℕ)
    → idx + i ≤ p
    → p < idx + count
    → idx + count ≤ 511
    → count ≤ i + n
    → length bitmap ≡ 512
    → get_or (mark_from n i idx count used bitmap) p 0 ≡ used
unfolding mark_from
mark_from-inside zero i idx count used p bitmap lo hi fits fuel size = absurd (omega arith)
mark_from-inside (suc n) i idx count used p bitmap lo hi fits fuel size =
    let first : ltb i count ≡ true = ground arith in
    let second : ltb (idx + i) 511 ≡ true = ground arith in
    rw (first, second)
      (elim (Bool-cases (p == idx + i)) [
        | inl at ↦
            let here : p ≡ idx + i = ground arith in
            mark_from-outside n (i + 1) idx count used p (set bitmap (idx + i) used) (omega arith)
            ∙ rw here (get_or-set_self bitmap (idx + i) used 0 (omega arith))
        | inr later ↦
            let behind : idx + (i + 1) ≤ p = ground arith in
            mark_from-inside n (i + 1) idx count used p (set bitmap (idx + i) used) behind hi fits
              (omega arith) (length-set bitmap (idx + i) used ∙ size)
      ])

-- Sectors that are not marked keep their place in the bitmap.
pub marked-outside :
    (start count used l : ℕ) (bitmap : List ℕ)
    → 86 ≤ l
    → (l < start) ⊎ (start + count ≤ l)
    → get_or (marked start count used bitmap) (l - 86) 0 ≡ get_or bitmap (l - 86) 0
unfolding marked
marked-outside start count used l bitmap lower apart = elim (Bool-cases (ltb start 86)) [
  | inl low ↦ rw low refl
  | inr high ↦
      let above : 86 ≤ start = ground arith in
      rw high (mark_from-outside 511 0 (start - 86) count used (l - 86) bitmap (omega arith))
]

pub marked-inside :
    (start count used l : ℕ) (bitmap : List ℕ)
    → 86 ≤ start
    → start ≤ l
    → l < start + count
    → start + count ≤ 597
    → length bitmap ≡ 512
    → get_or (marked start count used bitmap) (l - 86) 0 ≡ used
unfolding marked
marked-inside start count used l bitmap above lo hi fits size =
    let high : ltb start 86 ≡ false = ground arith in
    rw high (
      mark_from-inside 511 0 (start - 86) count used (l - 86) bitmap (omega arith) (omega arith)
        (omega arith) (omega arith) size)

-- The sector `l` belongs to an entry that has a name.
abbrev pub Owns : FileEntry → ℕ → Type 0
Owns f l = (valid_name f.name ≡ true) × (f.start_lba ≤ l) × (l < f.start_lba + f.size_sect)

-- Every sector of a file is one of the data area that the bitmap has as used, and no other file's.
pub record IsAllocated (files : List FileEntry) (bitmap : List ℕ) : Type 0 where
  pub used :
      (j l : ℕ)
      → j < 32
      → Owns (file_at files j) l
      → (86 ≤ l) × (l < 597) × (get_or bitmap (l - 86) 0 ≢ 0)
  pub alone :
      (j k l : ℕ) → j < 32 → k < 32 → Owns (file_at files j) l → Owns (file_at files k) l → j ≡ k

-- No file owns a sector that is free.
pub free-Owns :
    (files : List FileEntry) (bitmap : List ℕ) (j l : ℕ)
    → IsAllocated files bitmap
    → j < 32
    → get_or bitmap (l - 86) 0 ≡ 0
    → Owns (file_at files j) l
    → ⊥
free-Owns files bitmap j l v h free owns = (v.used j l h owns).2 free

set-same :
    (files : List FileEntry) (i : ℕ) (e : FileEntry)
    → i < length files
    → file_at (set files i e) i ≡ e
set-same files i e h = get_or-set_self files i e no_file h

set-apart :
    (files : List FileEntry) (i j : ℕ) (e : FileEntry)
    → i ≢ j
    → file_at (set files i e) j ≡ file_at files j
set-apart files i j e apart = get_or-set_ne files i j e no_file apart

pub blank-Owns : (l : ℕ) → Owns blank l → ⊥
unfolding valid_name valid_from
blank-Owns l owns = true≢false (sym owns.0)

-- An entry that is cleared gives its sectors back.
pub cleared-IsAllocated :
    (files : List FileEntry) (bitmap : List ℕ) (i : ℕ)
    → length files ≡ 32
    → i < 32
    → valid_name (file_at files i).name ≡ true
    → IsAllocated files bitmap
    → let f = file_at files i in
      IsAllocated (set files i blank) (marked f.start_lba f.size_sect 0 bitmap)
cleared-IsAllocated files bitmap i entries h valid v = record {
  used = still_used;
  alone = still_alone;
}
  where
    old : (j l : ℕ) → Owns (file_at (set files i blank) j) l → (i ≢ j) × Owns (file_at files j) l
    old j l owns = elim (ℕ_discrete i j) [
      | yes at ↦ absurd (
          blank-Owns l (
            subst (λ f. Owns f l)
              (ap (file_at (set files i blank)) (sym at)
                ∙ set-same files i blank (omega (arith, entries)))
              owns))
      | no apart ↦ (apart, subst (λ f. Owns f l) (set-apart files i j blank apart) owns)
    ]

    outside :
        (j l : ℕ)
        → j < 32
        → i ≢ j
        → Owns (file_at files j) l
        → (l < (file_at files i).start_lba)
          ⊎ ((file_at files i).start_lba + (file_at files i).size_sect ≤ l)
    outside j l hj apart owns = elim (dec_lt l (file_at files i).start_lba) [
      | yes below ↦ inl below
      | no above ↦ elim (dec_lt l ((file_at files i).start_lba + (file_at files i).size_sect)) [
        | no past ↦ inr (omega arith)
        | yes inside ↦ absurd (apart (v.alone i j l h hj (valid, omega arith, inside) owns))
      ]
    ]

    still_used :
        (j l : ℕ)
        → j < 32
        → Owns (file_at (set files i blank) j) l
        → (86 ≤ l)
          × (l < 597)
          × (get_or
                (marked (file_at files i).start_lba (file_at files i).size_sect 0 bitmap)
                (l - 86)
                0
              ≢ 0)
    still_used j l hj owns =
        let (apart, before) = old j l owns in
        let (lower, below, marks) = v.used j l hj before in
        (
          lower,
          below,
          λ e. marks (
              sym (
                marked-outside (file_at files i).start_lba (file_at files i).size_sect 0 l bitmap
                  lower (outside j l hj apart before))
              ∙ e),
        )

    still_alone :
        (j k l : ℕ)
        → j < 32
        → k < 32
        → Owns (file_at (set files i blank) j) l
        → Owns (file_at (set files i blank) k) l
        → j ≡ k
    still_alone j k l hj hk a b = v.alone j k l hj hk (old j l a).1 (old k l b).1

-- A free run takes an entry without a name.
pub added-IsAllocated :
    (files : List FileEntry) (bitmap : List ℕ) (i : ℕ) (e : FileEntry)
    → length files ≡ 32
    → length bitmap ≡ 512
    → i < 32
    → 86 ≤ e.start_lba
    → e.start_lba + e.size_sect ≤ 597
    → ((l : ℕ) → e.start_lba ≤ l → l < e.start_lba + e.size_sect → get_or bitmap (l - 86) 0 ≡ 0)
    → IsAllocated files bitmap
    → IsAllocated (set files i e) (marked e.start_lba e.size_sect 1 bitmap)
added-IsAllocated files bitmap i e entries size h lower room free v = record {
  used = all_used;
  alone = all_alone;
}
  where
    case :
        (j l : ℕ)
        → Owns (file_at (set files i e) j) l
        → ((i ≡ j) × Owns e l) ⊎ Owns (file_at files j) l
    case j l owns = elim (ℕ_discrete i j) [
      | yes at ↦ inl (
        at,
        subst (λ f. Owns f l)
            (ap (file_at (set files i e)) (sym at) ∙ set-same files i e (omega (arith, entries)))
            owns,
      )
      | no apart ↦ inr (subst (λ f. Owns f l) (set-apart files i j e apart) owns)
    ]

    outside :
        (j l : ℕ)
        → j < 32
        → Owns (file_at files j) l
        → (l < e.start_lba) ⊎ (e.start_lba + e.size_sect ≤ l)
    outside j l hj owns = elim (dec_lt l e.start_lba) [
      | yes below ↦ inl below
      | no above ↦ elim (dec_lt l (e.start_lba + e.size_sect)) [
        | no past ↦ inr (omega arith)
        | yes inside ↦ absurd (free-Owns files bitmap j l v hj (free l (omega arith) inside) owns)
      ]
    ]

    all_used :
        (j l : ℕ)
        → j < 32
        → Owns (file_at (set files i e) j) l
        → (86 ≤ l) × (l < 597) × (get_or (marked e.start_lba e.size_sect 1 bitmap) (l - 86) 0 ≢ 0)
    all_used j l hj owns = elim (case j l owns) [
      | inl (at, (valid, lo, hi)) ↦
          let one = marked-inside e.start_lba e.size_sect 1 l bitmap lower lo hi room size in
          (omega arith, omega arith, omega (arith, one))
      | inr before ↦
          let (low, below, marks) = v.used j l hj before in
          let kept =
            marked-outside e.start_lba e.size_sect 1 l bitmap low (outside j l hj before) in
          (low, below, λ z. marks (sym kept ∙ z))
    ]

    all_alone :
        (j k l : ℕ)
        → j < 32
        → k < 32
        → Owns (file_at (set files i e) j) l
        → Owns (file_at (set files i e) k) l
        → j ≡ k
    all_alone j k l hj hk a b = elim (case j l a) [
      | inl (at, (valid, lo, hi)) ↦ elim (case k l b) [
        | inl (at2, y) ↦ sym at ∙ at2
        | inr y ↦ absurd (free-Owns files bitmap k l v hk (free l lo hi) y)
      ]
      | inr x ↦ elim (case k l b) [
        | inl (at, (valid, lo, hi)) ↦ absurd (free-Owns files bitmap j l v hj (free l lo hi) x)
        | inr y ↦ v.alone j k l hj hk x y
      ]
    ]

-- A sector that is used is not in a free run.
pub used-outside :
    (lba k l : ℕ) (bitmap : List ℕ)
    → ((s : ℕ) → lba ≤ s → s < lba + k → get_or bitmap (s - 86) 0 ≡ 0)
    → get_or bitmap (l - 86) 0 ≢ 0
    → (l < lba) ⊎ (lba + k ≤ l)
used-outside lba k l bitmap free marks = elim (dec_lt l lba) [
  | yes below ↦ inl below
  | no up ↦ elim (dec_lt l (lba + k)) [
    | no past ↦ inr (omega arith)
    | yes inside ↦ absurd (marks (free l (omega arith) inside))
  ]
]

-- A run that is taken and given back.
pub given_back-IsAllocated :
    (files : List FileEntry) (bitmap : List ℕ) (lba k : ℕ)
    → ((s : ℕ) → lba ≤ s → s < lba + k → get_or bitmap (s - 86) 0 ≡ 0)
    → IsAllocated files bitmap
    → IsAllocated files (marked lba k 0 (marked lba k 1 bitmap))
given_back-IsAllocated files bitmap lba k free v = record {
  used = λ j l hj owns.
      let (low, below, marks) = v.used j l hj owns in
      let apart = used-outside lba k l bitmap free marks in
      (
        low,
        below,
        λ z. marks (
            sym (
              marked-outside lba k 0 l (marked lba k 1 bitmap) low apart
              ∙ marked-outside lba k 1 l bitmap low apart)
            ∙ z),
      );
  alone = v.alone;
}

-- Free as the search sees it.
pub get_or-take_zero :
    (n i : ℕ) (bitmap : List ℕ) → get_or (take n bitmap) i 1 ≡ 0 → get_or bitmap i 0 ≡ 0
get_or-take_zero zero i bitmap e = absurd (omega (arith, e))
get_or-take_zero (suc n) i [] e = refl
get_or-take_zero (suc n) zero (b ∷ bitmap) e = e
get_or-take_zero (suc n) (suc i) (b ∷ bitmap) e = get_or-take_zero n i bitmap e
