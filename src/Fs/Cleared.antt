-- ===== src/Fs/Cleared.antt =====
-- Deleting a file in drivers/fs.c, as `fs_write_file_impl` does before it writes one of the same name.
use mx_os.Prelude.{
  ℕ, zero, suc, ◌+◌, ◌-◌, ◌<◌, ◌≡◌, refl, ◌∙◌, ap, Bool, true, false, ◌&&◌, none, some, List, arith,
  length, length-set, set, get_or, get_or-set, replicate, length-replicate, subst, ltb, ◌==◌,
  if◌then◌else◌, Bool-cases, Option-cases, inl, inr,
}
use mx_os.Fs.{
  Disk, Fs, FileEntry, valid_name, valid_from, find_entry, mark_from, marked, bitmap_mark,
  bitmap_persist, fs_root_save, put_entry, fs_file_exists, fs_delete_file, fs_write_file,
  write_allocated,
}
use mx_os.Fs.Sectors.{Reliable, bitmap_mark-root}
use mx_os.Fs.Names.{IsName, is_named}
use mx_os.Fs.Table.{file_at, no_file, Absent, IsOnly, Searched, find_entry-Searched}
use mx_os.Fs.Saved.{IsDirectory}

-- An entry that `fs_delete_file_impl` has cleared.
abbrev pub blank : FileEntry
blank = record { name = replicate 24 0; start_lba = 0; size_sect = 0 }

pub blank-is_named : (name : List ℕ) → is_named name blank ≡ false
unfolding is_named valid_name valid_from
blank-is_named name = refl

pub set-IsDirectory :
    (files : List FileEntry) (i : ℕ) (f : FileEntry)
    → IsDirectory files
    → i < 32
    → length f.name ≡ 24
    → IsDirectory (set files i f)
set-IsDirectory files i f dir h size = record {
  entries = length-set files i f ∙ dir.entries;
  room = λ j lt.
      ap (λ (g : FileEntry). length g.name)
        (get_or-set files i j f no_file (omega (arith, dir.entries)))
      ∙ pick (file_at files j) (j == i) (dir.room j lt);
}
  where
    pick : (g : FileEntry) (b : Bool) → length g.name ≡ 24 → length (if b then f else g).name ≡ 24
    pick g true old = size
    pick g false old = old

-- Where one entry at most has the name, none has it once that one is cleared.
blank-Absent :
    (name : List ℕ) (files : List FileEntry) (i : ℕ)
    → IsOnly name files
    → i < length files
    → is_named name (file_at files i) ≡ true
    → Absent name (set files i blank)
blank-Absent name files i only h named j lt = elim (Bool-cases (j == i)) [
  | inl at ↦ ap (is_named name) (get_or-set files i j blank no_file h) ∙ rw at (blank-is_named name)
  | inr apart ↦
      ap (is_named name) (get_or-set files i j blank no_file h)
      ∙ rw apart (elim (Bool-cases (is_named name (file_at files j))) [
        | inr other ↦ other
        | inl same ↦
            let one : j ≡ i = only j i (omega (arith, lt, length-set files i blank)) h same named in
            absurd (ground arith)
      ])
]

pub length-mark_from :
    (n i idx count used : ℕ) (bitmap : List ℕ)
    → length (mark_from n i idx count used bitmap) ≡ length bitmap
unfolding mark_from
length-mark_from zero i idx count used bitmap = refl
length-mark_from (suc n) i idx count used bitmap =
    elim (Bool-cases (ltb i count && ltb (idx + i) 511)) [
      | inl more ↦ rw more (
          length-mark_from n (i + 1) idx count used (set bitmap (idx + i) used)
          ∙ length-set bitmap (idx + i) used)
      | inr done ↦ rw done refl
    ]

module _ {D : Type 0} (dev : Disk D) where
  -- What `fs_write_file_impl` starts from: no file of that name.
  pub cleared : List ℕ → Fs D → Fs D
  cleared name fs = if fs_file_exists dev name fs then (fs_delete_file dev name fs).1 else fs

  pub length-bitmap_mark :
      (start count used : ℕ) (fs : Fs D)
      → length (bitmap_mark dev start count used fs).bitmap ≡ length fs.bitmap
  unfolding bitmap_mark bitmap_persist marked
  length-bitmap_mark start count used fs = elim (Bool-cases (ltb start 86)) [
    | inl low ↦ rw low refl
    | inr high ↦ rw high (length-mark_from 511 0 (start - 86) count used fs.bitmap)
  ]

  pub exists-none :
      (name : List ℕ) (fs : Fs D)
      → IsName name
      → find_entry name 0 fs.root.files ≡ none
      → cleared name fs ≡ fs
  unfolding cleared fs_file_exists
  exists-none name fs v e =
      let named : (get_or name 0 0 == 0) ≡ false = ground (arith, v.no_nul 0, v.some_byte) in
      rw named (rw (e, cleared))

  pub exists-some :
      (name : List ℕ) (i : ℕ) (f : FileEntry) (fs : Fs D)
      → IsName name
      → find_entry name 0 fs.root.files ≡ some (i, f)
      → cleared name fs
        ≡ (fs_root_save dev
            (put_entry dev i blank (bitmap_mark dev f.start_lba f.size_sect 0 fs))).1
  unfolding cleared fs_file_exists fs_delete_file
  exists-some name i f fs v e =
      let named : (get_or name 0 0 == 0) ≡ false = ground (arith, v.no_nul 0, v.some_byte) in
      rw named (rw (e, cleared))

  pub fs_write_file-cleared :
      (name : List ℕ) (data_at : ℕ → ℕ) (size : ℕ) (fs : Fs D)
      → IsName name
      → 0 < size
      → fs_write_file dev name data_at size fs
        ≡ write_allocated dev name data_at size (cleared name fs)
  unfolding fs_write_file cleared
  fs_write_file-cleared name data_at size fs v pos =
      let named : (get_or name 0 0 == 0) ≡ false = ground (arith, v.no_nul 0, v.some_byte) in
      let some_data : (size == 0) ≡ false = ground arith in
      rw (named, some_data)
        (elim (Bool-cases (fs_file_exists dev name fs)) [
          | inl there ↦ rw there refl
          | inr not_there ↦ rw not_there refl
        ])

-- A file system to write to: the directory and the bitmap have their sizes, and no entry has the name.
pub record IsReady {D : Type 0} (name : List ℕ) (fs : Fs D) : Type 0 where
  pub directory : IsDirectory fs.root.files
  pub absent : Absent name fs.root.files
  pub sizes : length fs.bitmap ≡ 512

module _ {D : Type 0} (dev : Disk D) (ok : Reliable dev) where
  deleted-IsReady :
      (name : List ℕ) (i lba size : ℕ) (fs : Fs D)
      → IsDirectory fs.root.files
      → length fs.bitmap ≡ 512
      → IsOnly name fs.root.files
      → i < 32
      → is_named name (file_at fs.root.files i) ≡ true
      → IsReady name (fs_root_save dev (put_entry dev i blank (bitmap_mark dev lba size 0 fs))).1
  unfolding fs_root_save put_entry
  deleted-IsReady name i lba size fs dir sizes only h named =
      rw (bitmap_mark-root dev ok lba size 0 fs) (record {
        directory = set-IsDirectory fs.root.files i blank dir h (length-replicate {A = ℕ} 24 0);
        absent = blank-Absent name fs.root.files i only (omega (arith, dir.entries)) named;
        sizes = length-bitmap_mark dev lba size 0 fs ∙ sizes;
      })

  pub cleared-IsReady :
      (name : List ℕ) (fs : Fs D)
      → IsName name
      → IsDirectory fs.root.files
      → length fs.bitmap ≡ 512
      → IsOnly name fs.root.files
      → IsReady name (cleared dev name fs)
  cleared-IsReady name fs v dir sizes only = elim (Option-cases (find_entry name 0 fs.root.files)) [
    | inl e ↦ rw (exists-none dev name fs v e) (record {
      directory = dir;
      absent = subst (Searched name 0 fs.root.files) e (find_entry-Searched name 0 fs.root.files);
      sizes = sizes;
    })
    | inr ((i, f), e) ↦
        let (k, at, lt, same, named) =
          subst (Searched name 0 fs.root.files) e (find_entry-Searched name 0 fs.root.files) in
        let here : i ≡ k = omega (arith, at) in
        rw (exists-some dev name i f fs v e) (
          deleted-IsReady name i f.start_lba f.size_sect fs dir sizes only
            (omega (arith, lt, dir.entries))
            (ap (λ n. is_named name (file_at fs.root.files n)) here
              ∙ ap (is_named name) same
              ∙ named))
  ]
