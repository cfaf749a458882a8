-- ===== src/Fs/Table.antt =====
-- The searches of drivers/fs.c in the table of files.
use mx_os.Prelude.{
  ℕ, zero, suc, ◌+◌, ◌<◌, ◌≡◌, refl, ◌∙◌, sym, ap, true, false, Option, none, some, List, [], ◌∷◌,
  arith, length, set, get_or, ◌==◌, Bool-cases, inl, inr,
}
use mx_os.Fs.{FileEntry, find_entry, free_entry}
use mx_os.Fs.Names.{is_named}

-- What a read beyond the table gives; the code makes none.
abbrev pub no_file : FileEntry
no_file = record { name = []; start_lba = 0; size_sect = 0 }

abbrev pub file_at : List FileEntry → ℕ → FileEntry
file_at files j = get_or files j no_file

-- No entry has the name.
abbrev pub Absent : List ℕ → List FileEntry → Type 0
Absent name files = (j : ℕ) → j < length files → is_named name (file_at files j) ≡ false

-- At most one entry has the name.
abbrev pub IsOnly : List ℕ → List FileEntry → Type 0
IsOnly name files =
    (j k : ℕ)
    → j < length files
    → k < length files
    → is_named name (file_at files j) ≡ true
    → is_named name (file_at files k) ≡ true
    → j ≡ k

-- What a search from index `i` on may give.
abbrev pub Searched : List ℕ → ℕ → List FileEntry → Option (ℕ × FileEntry) → Type 0
Searched name i files none = Absent name files
Searched name i files (some (m, f)) =
    (k : ℕ) × (m ≡ i + k) × (k < length files) × (file_at files k ≡ f) × (is_named name f ≡ true)

Absent-cons :
    (name : List ℕ) (f : FileEntry) (files : List FileEntry)
    → is_named name f ≡ false
    → Absent name files
    → Absent name (f ∷ files)
Absent-cons name f files not_here absent zero h = not_here
Absent-cons name f files not_here absent (suc j) h = absent j (omega arith)

further :
    (name : List ℕ) (i : ℕ) (f : FileEntry) (files : List FileEntry)
    → is_named name f ≡ false
    → (o : Option (ℕ × FileEntry)) → Searched name (i + 1) files o
    → Searched name i (f ∷ files) o
further name i f files not_here none absent = Absent-cons name f files not_here absent
further name i f files not_here (some (m, g)) (k, at, lt, same, named) =
    (suc k, omega (arith, at), omega arith, same, named)

pub find_entry-Searched :
    (name : List ℕ) (i : ℕ) (files : List FileEntry)
    → Searched name i files (find_entry name i files)
unfolding find_entry is_named
find_entry-Searched name i [] = λ j h. absurd (omega arith)
find_entry-Searched name i (f ∷ files) = elim (Bool-cases (is_named name f)) [
  | inl here ↦ rw here (0, omega arith, omega arith, refl, here)
  | inr not_here ↦ rw not_here (
      further name i f files not_here (find_entry name (i + 1) files)
        (find_entry-Searched name (i + 1) files))
]

pub find_entry-Absent :
    (name : List ℕ) (i : ℕ) (files : List FileEntry)
    → Absent name files
    → find_entry name i files ≡ none
unfolding find_entry is_named
find_entry-Absent name i [] absent = refl
find_entry-Absent name i (f ∷ files) absent =
    rw (absent 0 (omega arith))
      (find_entry-Absent name (i + 1) files (λ j h. absent (suc j) (omega arith)))

-- A search finds what is written behind no other entry of that name.
pub find_entry-set :
    (name : List ℕ) (i k : ℕ) (files : List FileEntry) (e : FileEntry)
    → Absent name files
    → k < length files
    → is_named name e ≡ true
    → find_entry name i (set files k e) ≡ some (i + k, e)
unfolding find_entry is_named
find_entry-set name i k [] e absent h named = absurd (omega arith)
find_entry-set name i zero (f ∷ files) e absent h named =
    rw named (ap (λ m. some (m, e)) (omega arith))
find_entry-set name i (suc k) (f ∷ files) e absent h named = rw (absent 0 (omega arith)) (
    find_entry-set name (i + 1) k files e (λ j h. absent (suc j) (omega arith)) (omega arith) named
    ∙ ap (λ m. some (m, e)) (omega arith))

pub free_entry-some :
    (i m : ℕ) (files : List FileEntry) (f : FileEntry)
    → free_entry i files ≡ some (m, f)
    → (k : ℕ) × (m ≡ i + k) × (k < length files) × (file_at files k ≡ f)
unfolding free_entry
free_entry-some i m [] f e = cc
free_entry-some i m (g ∷ files) f e = elim (Bool-cases (get_or g.name 0 0 == 0)) [
  | inl free ↦
      let found : some (i, g) ≡ some (m, f) = rw free at e in
      let here : i ≡ m = cc in let same : g ≡ f = cc in (0, omega arith, omega arith, same)
  | inr used ↦
      let (k, at, lt, same) = free_entry-some (i + 1) m files f (rw used at e) in
      (suc k, omega (arith, at), omega (arith, lt), same)
]

-- The entry that is free has no name.
pub free_entry-unnamed :
    (i m : ℕ) (files : List FileEntry) (f : FileEntry)
    → free_entry i files ≡ some (m, f)
    → get_or f.name 0 0 ≡ 0
unfolding free_entry
free_entry-unnamed i m [] f e = cc
free_entry-unnamed i m (g ∷ files) f e = elim (Bool-cases (get_or g.name 0 0 == 0)) [
  | inl free ↦
      let found : some (i, g) ≡ some (m, f) = rw free at e in
      let same : g ≡ f = cc in
      let nul : get_or g.name 0 0 ≡ 0 = ground arith in
      ap (λ (h : FileEntry). get_or h.name 0 0) (sym same) ∙ nul
  | inr used ↦ free_entry-unnamed (i + 1) m files f (rw used at e)
]
