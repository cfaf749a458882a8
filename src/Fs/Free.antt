-- ===== src/Fs/Free.antt =====
-- The search of drivers/fs.c for a run of free sectors.
use mx_os.Prelude.{
  ℕ, suc, ◌+◌, ◌-◌, ◌≤◌, ◌<◌, ◌≡◌, ◌≢◌, refl, ◌∙◌, sym, ap, Option, none, some, List, [], ◌∷◌,
  arith, length, get_or, take, length-take, leb, ◌==◌, ==_iff, if◌then◌else◌, Bool-cases, inl, inr,
}
use mx_os.Fs.{find_run, bitmap_find_free_run, data_sectors, fs_data_lba}

-- `count` entries from index `s` on are 0.
abbrev pub Free : (ℕ → ℕ) → ℕ → ℕ → Type 0
Free g count s = (k : ℕ) → k < count → g (s + k) ≡ 0

-- What the loop's variables say when it comes to sector `i`.
record Looking (g : ℕ → ℕ) (count i run_start run_len : ℕ) : Type 0 where
  back : run_len ≤ i
  short : run_len < count
  zeros : (j : ℕ) → i ≤ j + run_len → j < i → g j ≡ 0
  stop : run_len < i → g (i - 1 - run_len) ≢ 0
  start : run_len ≢ 0 → run_start ≡ i - run_len
  before : (s : ℕ) → s + count ≤ i → Free g count s → ⊥

-- What the search may give, for the sectors below `n`.
abbrev pub Found : (ℕ → ℕ) → ℕ → ℕ → Option ℕ → Type 0
Found g count n none = (s : ℕ) → s + count ≤ n → Free g count s → ⊥
Found g count n (some m) = (m + count ≤ n) × Free g count m × ((s : ℕ) → s < m → Free g count s → ⊥)

module _ (g : ℕ → ℕ) (count : ℕ) where
  Looking-used : (i rs rl : ℕ) → Looking g count i rs rl → g i ≢ 0 → Looking g count (i + 1) rs 0
  Looking-used i rs rl v h = record {
    back = omega arith;
    short = omega (arith, v.short);
    zeros = λ j a b. absurd (omega arith);
    stop = λ a. let at : i + 1 - 1 - 0 ≡ i = omega arith in rw at h;
    start = λ a. absurd (a refl);
    before = λ s a f. elim (Bool-cases (s + count == i + 1)) [
      | inl e ↦
          let at : s + (count - 1) ≡ i = ground (arith, v.short) in
          h (sym (ap g at) ∙ f (count - 1) (omega (arith, v.short)))
      | inr e ↦ v.before s (ground arith) f
    ];
  }

  Looking-free :
      (i rs rl : ℕ)
      → Looking g count i rs rl
      → g i ≡ 0
      → rl + 1 < count
      → Looking g count (i + 1) (if rl == 0 then i else rs) (rl + 1)
  Looking-free i rs rl v h more = record {
    back = omega (arith, v.back);
    short = more;
    zeros = λ j a b. elim (Bool-cases (j == i)) [
      | inl e ↦ let at : j ≡ i = (==_iff j i).0 e in rw at h
      | inr e ↦ v.zeros j (omega arith) (ground arith)
    ];
    stop = λ a.
        let at : i + 1 - 1 - (rl + 1) ≡ i - 1 - rl = omega arith in rw at (v.stop (omega arith));
    start = λ a. elim (Bool-cases (rl == 0)) [
      | inl e ↦ let z : rl ≡ 0 = (==_iff rl 0).0 e in rw z (omega arith)
      | inr e ↦ rw e (v.start (ground arith) ∙ (omega arith))
    ];
    before = λ s a f. elim (Bool-cases (s + count == i + 1)) [
      | inl e ↦
          let whole : s + count ≡ i + 1 = (==_iff (s + count) (i + 1)).0 e in
          let at : s + (i - 1 - rl - s) ≡ i - 1 - rl = omega (arith, v.short) in
          v.stop (omega (arith, more)) (sym (ap g at) ∙ f (i - 1 - rl - s) (omega (arith, v.short)))
      | inr e ↦ v.before s (ground arith) f
    ];
  }

  -- The round that ends the search.
  Looking-full :
      (i rs rl n : ℕ)
      → Looking g count i rs rl
      → g i ≡ 0
      → count ≤ rl + 1
      → i < n
      → Found g count n (some (if rl == 0 then i else rs))
  Looking-full i rs rl n v h full hn =
      let at : (if rl == 0 then i else rs) + rl ≡ i = elim (Bool-cases (rl == 0)) [
        | inl e ↦ let z : rl ≡ 0 = (==_iff rl 0).0 e in rw (e, z) (omega arith)
        | inr e ↦ rw e (let st = v.start (ground arith) in omega (arith, st, v.back))
      ] in
      (
        omega (arith, v.short),
        λ k a. elim (Bool-cases (k == rl)) [
          | inl e ↦ let same : k ≡ rl = (==_iff k rl).0 e in rw (same, at) h
          | inr e ↦ v.zeros _ (omega arith) (ground (arith, v.short))
        ],
        λ s a. v.before s (omega (arith, v.short)),
      )

  find_run-Found :
      (i rs rl n : ℕ) (bs : List ℕ)
      → n ≡ i + length bs
      → ((j : ℕ) → get_or bs j 1 ≡ g (i + j))
      → Looking g count i rs rl
      → Found g count n (find_run count i rs rl bs)
  unfolding find_run
  find_run-Found i rs rl n [] e same v = λ s a. v.before s (omega arith)
  find_run-Found i rs rl n (b ∷ bs) e same v =
      let here : b ≡ g i = same 0 ∙ ap g (omega arith) in
      let next : (j : ℕ) → get_or bs j 1 ≡ g (i + 1 + j) = λ j. same (suc j) ∙ ap g (omega arith) in
      elim (Bool-cases (b == 0)) [
        | inr used ↦ rw used (
            find_run-Found (i + 1) rs 0 n bs (omega arith) next
              (Looking-used i rs rl v (λ z. absurd (ground arith))))
        | inl free ↦
            let zero_here : g i ≡ 0 = sym here ∙ (==_iff b 0).0 free in
            elim (Bool-cases (leb count (rl + 1))) [
              | inl full ↦
                  rw (free, full) (Looking-full i rs rl n v zero_here (ground arith) (omega arith))
              | inr more ↦
                  rw (free, more)
                    (find_run-Found (i + 1) _ (rl + 1) n bs (omega arith) next
                      (Looking-free i rs rl v zero_here (ground arith)))
            ]
      ]

  Looking-start : 0 < count → Looking g count 0 0 0
  Looking-start h = record {
    back = omega arith;
    short = h;
    zeros = λ j a b. absurd (omega arith);
    stop = λ a. absurd (omega arith);
    start = λ a. absurd (a refl);
    before = λ s a f. absurd (omega arith);
  }

-- Whether data sector `i` is used: 0 where it is not, and 1 beyond the sectors that the bitmap has.
abbrev pub sector_use : List ℕ → ℕ → ℕ
sector_use bitmap i = get_or (take data_sectors bitmap) i 1

-- The LBA that the search gives, as an index of the bitmap.
abbrev pub AtLba : (ℕ → ℕ) → ℕ → Option ℕ → Type 0
AtLba g count none = Found g count data_sectors none
AtLba g count (some lba) = (m : ℕ) × (lba ≡ fs_data_lba + m) × Found g count data_sectors (some m)

-- For at least one sector, the search gives the first run of free sectors, which lies in the data
-- area, and gives none only where there is no such run.
pub bitmap_find_free_run-Found :
    (count : ℕ) (bitmap : List ℕ)
    → length bitmap ≡ 512
    → 0 < count
    → AtLba (sector_use bitmap) count (bitmap_find_free_run count bitmap)
unfolding bitmap_find_free_run
bitmap_find_free_run-Found count bitmap size h =
    let full : 511 ≡ 0 + length (take data_sectors bitmap) =
      omega (arith, size, length-take data_sectors bitmap) in
    let found =
      find_run-Found (sector_use bitmap) count 0 0 0 511 (take data_sectors bitmap) full
        (λ j. ap (sector_use bitmap) (omega arith)) (Looking-start (sector_use bitmap) count h) in
    at_lba (find_run count 0 0 0 (take data_sectors bitmap)) found
  where
    at_lba :
        (r : Option ℕ)
        → Found (sector_use bitmap) count data_sectors r
        → AtLba (sector_use bitmap) count (elim r [ some m ↦ some (fs_data_lba + m) | none ↦ none ])
    at_lba none f = f
    at_lba (some m) f = (m, refl, f)
