-- ===== src/Fs/Others.antt =====
-- Writing or deleting a file in drivers/fs.c leaves the others as they are.
use mx_os.Prelude.{
  ℕ, zero, suc, ◌+◌, ◌-◌, ◌*◌, ◌^◌, ◌≤◌, ◌<◌, ◌≡◌, ◌≢◌, refl, ◌∙◌, sym, ap, ap₂, inl, inr, Bool,
  true, false, Option, some, List, [], ◌∷◌, ◌++◌, arith, length, set, get_or, take, min, ltb, ◌==◌,
  u32, if◌then◌else◌, Bool-cases, Option-cases, ℕ_discrete,
}
use mathlib.Core.Bool.{true≢false}
use mx_os.Fs.{
  Disk, Fs, FileEntry, m_strcmp, find_entry, load_loop, load_entry, bad_entry, fs_load_file,
}
use mx_os.Fs.Data.{load_loop-done, load_loop-step}
use mx_os.Fs.Names.{is_named}
use mx_os.Fs.Sectors.{Reliable}
use mx_os.Fs.Table.{file_at}

m_strcmp-cons :
    (d c : ℕ) (s a : List ℕ)
    → c ≢ 0
    → m_strcmp (d ∷ s) (c ∷ a) ≡ true
    → (d ≡ c) × (m_strcmp s a ≡ true)
unfolding m_strcmp
m_strcmp-cons d c s a nonzero e = elim (Bool-cases (d == 0)) [
  | inl nul ↦ absurd (nonzero (ground (arith, rw nul at e)))
  | inr more ↦ elim (Bool-cases (d == c)) [
    | inl same ↦ (ground arith, rw (more, same) at e)
    | inr other ↦ absurd (true≢false (sym (rw (more, other) at e)))
  ]
]

-- A stored name is equal to one name only.
pub m_strcmp_unique :
    (s a b : List ℕ)
    → ((j : ℕ) → j < length a → get_or a j 0 ≢ 0)
    → ((j : ℕ) → j < length b → get_or b j 0 ≢ 0)
    → m_strcmp s a ≡ true
    → m_strcmp s b ≡ true
    → a ≡ b
unfolding m_strcmp
m_strcmp_unique [] [] [] pa pb ea eb = refl
m_strcmp_unique [] (c ∷ a) b pa pb ea eb = absurd (pa 0 (omega arith) (ground arith))
m_strcmp_unique [] [] (c ∷ b) pa pb ea eb = absurd (pb 0 (omega arith) (ground arith))
m_strcmp_unique (d ∷ s) [] [] pa pb ea eb = refl
m_strcmp_unique (d ∷ s) [] (c ∷ b) pa pb ea eb =
    let nul : d ≡ 0 = ground arith in absurd (pb 0 (omega arith) (ground arith))
m_strcmp_unique (d ∷ s) (c ∷ a) [] pa pb ea eb =
    let nul : d ≡ 0 = ground arith in absurd (pa 0 (omega arith) (ground arith))
m_strcmp_unique (d ∷ s) (c ∷ a) (e ∷ b) pa pb ea eb =
    let (here, rest) = m_strcmp-cons d c s a (pa 0 (omega arith)) ea in
    let (here2, rest2) = m_strcmp-cons d e s b (pb 0 (omega arith)) eb in
    ap₂ ◌∷◌ (sym here ∙ here2) (
      m_strcmp_unique s a b (λ j h. pa (suc j) (omega arith)) (λ j h. pb (suc j) (omega arith)) rest
        rest2)

pub find_entry-other :
    (name : List ℕ) (n i : ℕ) (files : List FileEntry) (e : FileEntry)
    → is_named name (file_at files i) ≡ false
    → is_named name e ≡ false
    → find_entry name n (set files i e) ≡ find_entry name n files
unfolding find_entry is_named
find_entry-other name n i [] e old new = refl
find_entry-other name n zero (f ∷ files) e old new = rw (old, new) refl
find_entry-other name n (suc i) (f ∷ files) e old new =
    ap (λ (rest : Option (ℕ × FileEntry)). if is_named name f then some (n, f) else rest)
      (find_entry-other name (n + 1) i files e old new)

module _ {D : Type 0} (dev : Disk D) (ok : Reliable dev) where
  load_loop-same :
      (n k lba total : ℕ) (d d2 : D)
      → total ≤ 512 * k
      → ((l : ℕ) → lba ≤ l → l < lba + k → (l < 2 ^ 28) × (ok.sectors d2 l ≡ ok.sectors d l))
      → (load_loop dev n lba total d2).0 ≡ (load_loop dev n lba total d).0
  load_loop-same zero k lba total d d2 fits same = unfold load_loop in refl
  load_loop-same (suc n) k lba total d d2 fits same = elim (ℕ_discrete total 0) [
    | yes none_left ↦ rw none_left (
        ap (λ (r : (Bool × List ℕ) × D). r.0) (load_loop-done dev ok (suc n) lba d2)
        ∙ ap (λ (r : (Bool × List ℕ) × D). r.0) (sym (load_loop-done dev ok (suc n) lba d)))
    | no more ↦
        let here = same lba (omega arith) (omega arith) in
        let next = (dev.read_sector lba d).1 in
        let next2 = (dev.read_sector lba d2).1 in
        let rest =
          load_loop-same n (k - 1) (lba + 1) (total - min 512 total) next next2 (omega arith)
            (λ l lo hi.
              let (low, at) = same l (omega arith) (omega arith) in
              (low, ok.unchanged lba d2 l here.0 ∙ at ∙ sym (ok.unchanged lba d l here.0))) in
        load_loop-step dev ok n lba total d2 more here.0
        ∙ ap₂ (λ (b : List ℕ) (r : Bool × List ℕ). (r.0, take (min 512 total) b ++ r.1)) here.1 rest
        ∙ sym (load_loop-step dev ok n lba total d more here.0)
  ]

  -- An entry whose sectors are the same gives the same file.
  load_entry-same :
      (f : FileEntry) (max_size : ℕ) (fs fs2 : Fs D)
      → ((l : ℕ)
          → f.start_lba ≤ l
          → l < f.start_lba + f.size_sect
          → (l < 2 ^ 28) × (ok.sectors fs2.disk l ≡ ok.sectors fs.disk l))
      → (load_entry dev f max_size fs2).0 ≡ (load_entry dev f max_size fs).0
  unfolding load_entry
  load_entry-same f max_size fs fs2 same =
      let total = u32 (f.size_sect * 512) in
      elim (Bool-cases (bad_entry dev f)) [
        | inl bad ↦ rw bad refl
        | inr good ↦ elim (Bool-cases (ltb max_size total)) [
          | inl large ↦ rw (good, large) refl
          | inr fits ↦
              rw (good, fits)
                (load_loop-same total f.size_sect f.start_lba total fs.disk fs2.disk (omega arith)
                  same)
        ]
      ]

  -- A search that finds the same entry, whose sectors are the same, loads the same file.
  pub fs_load_file-same :
      (name : List ℕ) (max_size : ℕ) (fs fs2 : Fs D)
      → find_entry name 0 fs2.root.files ≡ find_entry name 0 fs.root.files
      → ((i l : ℕ) (f : FileEntry)
          → find_entry name 0 fs.root.files ≡ some (i, f)
          → f.start_lba ≤ l
          → l < f.start_lba + f.size_sect
          → (l < 2 ^ 28) × (ok.sectors fs2.disk l ≡ ok.sectors fs.disk l))
      → (fs_load_file dev name max_size fs2).0 ≡ (fs_load_file dev name max_size fs).0
  unfolding fs_load_file
  fs_load_file-same name max_size fs fs2 found same = elim (Bool-cases (get_or name 0 0 == 0)) [
    | inl empty ↦ rw empty refl
    | inr named ↦ elim (Option-cases (find_entry name 0 fs.root.files)) [
      | inl missing ↦ let missing2 = found ∙ missing in rw (named, missing2, missing) refl
      | inr ((i, f), there) ↦
          let there2 = found ∙ there in
          rw (named, there2, there)
            (load_entry-same f max_size fs fs2 (λ l lo hi. same i l f there lo hi))
    ]
  ]
