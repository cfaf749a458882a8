-- ===== src/Fs/Isolated.antt =====
-- Deleting a file of drivers/fs.c, seen by the other files, and what isolation is.
use mx_os.Prelude.{
  ℕ, ◌-◌, ◌≤◌, ◌<◌, ◌≡◌, ◌≢◌, refl, ◌∙◌, sym, ap, subst, inl, inr, true, false, List, arith, length,
  set, get_or, Bool-cases, Option-cases,
}
use mathlib.Core.Bool.{true≢false}
use mx_os.Fs.{
  Disk, Fs, FileEntry, RootDirectory, m_strcmp, valid_name, valid_from, find_entry, fs_load_file,
  fs_root_save, put_entry, bitmap_mark, marked,
}
use mx_os.Fs.Cleared.{blank, blank-is_named, cleared, exists-none, exists-some}
use mx_os.Fs.Names.{IsName, is_named}
use mx_os.Fs.Others.{m_strcmp_unique, find_entry-other, fs_load_file-same}
use mx_os.Fs.Owned.{Owns, IsAllocated, cleared-IsAllocated}
use mx_os.Fs.Saved.{fs_root_save-root, put_entry-files, put_entry-disk}
use mx_os.Fs.Sectors.{
  Reliable, fs_root_save-kept, bitmap_mark-kept, bitmap_mark-root, bitmap_mark-bitmap,
}
use mx_os.Fs.Table.{file_at, Searched, find_entry-Searched}

is_named-valid :
    (name : List ℕ) (f : FileEntry)
    → is_named name f ≡ true
    → (valid_name f.name ≡ true) × (m_strcmp f.name name ≡ true)
unfolding is_named
is_named-valid name f e = elim (Bool-cases (valid_name f.name)) [
  | inl valid ↦ (valid, rw valid at e)
  | inr bad ↦ absurd (true≢false (sym (rw bad at e)))
]

-- An entry has one name.
pub other_name :
    (name other : List ℕ) (f : FileEntry)
    → IsName name
    → IsName other
    → other ≢ name
    → is_named name f ≡ true
    → is_named other f ≡ false
other_name name other f v w differ e = elim (Bool-cases (is_named other f)) [
  | inr no_match ↦ no_match
  | inl both ↦ absurd (
      differ (
        m_strcmp_unique f.name other name w.no_nul v.no_nul (is_named-valid other f both).1
          (is_named-valid name f e).1))
]

unnamed-invalid : (f : FileEntry) → get_or f.name 0 0 ≡ 0 → valid_name f.name ≡ false
unfolding valid_name valid_from
unnamed-invalid f nul = rw nul refl

pub unnamed : (name : List ℕ) (f : FileEntry) → get_or f.name 0 0 ≡ 0 → is_named name f ≡ false
unfolding is_named
unnamed name f nul = let bad = unnamed-invalid f nul in rw bad refl

module _ {D : Type 0} (dev : Disk D) (ok : Reliable dev) where
  -- The used sectors are the same, and a search for the name finds the same entry.
  pub used-Same :
      (other : List ℕ) (max_size : ℕ) (fs fs2 : Fs D)
      → length fs.root.files ≡ 32
      → IsAllocated fs.root.files fs.bitmap
      → find_entry other 0 fs2.root.files ≡ find_entry other 0 fs.root.files
      → ((l : ℕ)
          → 86 ≤ l
          → get_or fs.bitmap (l - 86) 0 ≢ 0
          → ok.sectors fs2.disk l ≡ ok.sectors fs.disk l)
      → (fs_load_file dev other max_size fs2).0 ≡ (fs_load_file dev other max_size fs).0
  used-Same other max_size fs fs2 entries v found same =
      fs_load_file-same dev ok other max_size fs fs2 found (λ i l f there lo hi.
        let (k, at, lt, here, named) =
          subst (Searched other 0 fs.root.files) there
            (find_entry-Searched other 0 fs.root.files) in
        let owned : Owns (file_at fs.root.files k) l =
          subst (λ g. Owns g l) (sym here) ((is_named-valid other f named).0, lo, hi) in
        let (above, below, marks) = v.used k l (omega (arith, entries)) owned in
        (omega (arith, below), same l above marks))

  -- The entry of the name is cleared, and its sectors are given back.
  without : ℕ → Fs D → Fs D
  without i fs =
      let f = file_at fs.root.files i in
      (fs_root_save dev (put_entry dev i blank (bitmap_mark dev f.start_lba f.size_sect 0 fs))).1

  without-files : (i : ℕ) (fs : Fs D) → (without i fs).root.files ≡ set fs.root.files i blank
  unfolding without
  without-files i fs =
      let f = file_at fs.root.files i in
      let given_back = bitmap_mark dev f.start_lba f.size_sect 0 fs in
      ap (λ (r : RootDirectory). r.files) (fs_root_save-root dev (put_entry dev i blank given_back))
      ∙ put_entry-files dev i blank given_back
      ∙ ap (λ (r : RootDirectory). set r.files i blank)
          (bitmap_mark-root dev ok f.start_lba f.size_sect 0 fs)

  without-bitmap :
      (i : ℕ) (fs : Fs D)
      → (without i fs).bitmap
        ≡ marked (file_at fs.root.files i).start_lba (file_at fs.root.files i).size_sect 0 fs.bitmap
  unfolding without fs_root_save put_entry
  without-bitmap i fs =
      let f = file_at fs.root.files i in bitmap_mark-bitmap dev ok f.start_lba f.size_sect 0 fs

  without-disk :
      (i : ℕ) (fs : Fs D) (l : ℕ) → 86 ≤ l → ok.sectors (without i fs).disk l ≡ ok.sectors fs.disk l
  unfolding without
  without-disk i fs l above =
      let f = file_at fs.root.files i in
      let given_back = bitmap_mark dev f.start_lba f.size_sect 0 fs in
      (fs_root_save-kept dev ok (put_entry dev i blank given_back) l (omega arith)).1
      ∙ ap (λ d. ok.sectors d l) (put_entry-disk dev i blank given_back)
      ∙ bitmap_mark-kept dev ok f.start_lba f.size_sect 0 fs l above

  -- Nothing the other files see has changed, and the sectors of the files are apart.
  pub record Isolates (name : List ℕ) (fs fs2 : Fs D) : Type 0 where
    pub allocated : IsAllocated fs2.root.files fs2.bitmap
    pub others :
        (other : List ℕ) (max_size : ℕ)
        → IsName other
        → other ≢ name
        → (fs_load_file dev other max_size fs2).0 ≡ (fs_load_file dev other max_size fs).0

  without-Isolates :
      (name : List ℕ) (i : ℕ) (fs : Fs D)
      → IsName name
      → length fs.root.files ≡ 32
      → IsAllocated fs.root.files fs.bitmap
      → i < 32
      → is_named name (file_at fs.root.files i) ≡ true
      → Isolates name fs (without i fs)
  without-Isolates name i fs v entries h lt named = record {
    allocated =
        subst (λ files. IsAllocated files (without i fs).bitmap) (sym (without-files i fs))
          (subst (IsAllocated (set fs.root.files i blank)) (sym (without-bitmap i fs)) (
            cleared-IsAllocated fs.root.files fs.bitmap i entries lt
              (is_named-valid name (file_at fs.root.files i) named).0 h));
    others = λ other max_size w differ.
        used-Same other max_size fs (without i fs) entries h
          (ap (find_entry other 0) (without-files i fs)
            ∙ find_entry-other other 0 i fs.root.files blank
                (other_name name other (file_at fs.root.files i) v w differ named)
                (blank-is_named other))
          (λ l above marks. without-disk i fs l above);
  }

  pub cleared-Isolates :
      (name : List ℕ) (fs : Fs D)
      → IsName name
      → length fs.root.files ≡ 32
      → IsAllocated fs.root.files fs.bitmap
      → Isolates name fs (cleared dev name fs)
  unfolding without
  cleared-Isolates name fs v entries h = elim (Option-cases (find_entry name 0 fs.root.files)) [
    | inl missing ↦
        rw (exists-none dev name fs v missing)
          (record { allocated = h; others = λ other max_size w differ. refl })
    | inr ((i, f), there) ↦
        let (k, at, lt, here, named) =
          subst (Searched name 0 fs.root.files) there (find_entry-Searched name 0 fs.root.files) in
        let place : i ≡ k = omega (arith, at) in
        let entry : file_at fs.root.files i ≡ f = ap (file_at fs.root.files) place ∙ here in
        subst (Isolates name fs)
          (ap
              (λ g.
                (fs_root_save dev
                  (put_entry dev i blank (bitmap_mark dev g.start_lba g.size_sect 0 fs))).1)
              entry
            ∙ sym (exists-some dev name i f fs v there))
          (without-Isolates name i fs v entries h (omega (arith, lt, entries))
            (ap (is_named name) entry ∙ named))
  ]
