-- ===== src/Fs/Tests.antt =====
-- The file system of drivers/fs.c at a concrete bitmap and on a disk in memory.
use mx_os.Prelude.{
  ℕ, zero, suc, ◌*◌, ◌%◌, ◌<◌, ◌≤◌, ◌≡◌, refl, ap, sym, subst, ◌≢◌, ◌-◌, false, get_or, ◌∙◌, ◌⊎◌,
  true, List, [], ◌∷◌, ◌++◌, take, map, ◌^◌, arith, replicate, length, length-replicate,
  get_or-replicate_lt, some, update, inl, inr,
}
use mathlib.Core.Bool.{true≢false}
use mx_os.Fs.Isolated.{Isolates}
use mx_os.Fs.Owned.{Owns, IsAllocated, blank-Owns}
use mx_os.Fs.Durable.{blank-IsEntry, fs_write_file-Lasts}
use mx_os.Fs.Encoded.{IsEntry, IsEncodable}
use mx_os.Fs.Written.{fs_write_file-Isolates}
use mx_os.Fs.{
  Disk, Fs, FileEntry, fs_init, find_run, free_entry, padded, fs_write_file, fs_load_file,
  load_entry, load_loop, bad_entry, find_entry, valid_name, valid_from, m_strcmp,
  bitmap_find_free_run,
}
use mx_os.Ata.{ata_disk}
use mx_os.Ata.Drive.{Drive, drive, drive-Reliable}
use mx_os.Fs.Bytes.{replicate-AreBytes}
use mx_os.Fs.Restart.{Restored}
use mx_os.Fs.Sectors.{AreBytes}
use mx_os.Fs.Bounds.{fs_load_file-length}
use mx_os.Fs.Output.{shown_char, fs_read_file, fs_read_file-load}
use mx_os.Fs.Names.{IsName, is_named}
use mx_os.Fs.Table.{IsOnly, file_at, no_file}
use mx_os.Fs.Saved.{IsDirectory, Loaded}
use mx_os.Fs.Cleared.{blank, blank-is_named, cleared, exists-none}
use mx_os.Fs.RoundTrip.{sectors_of, NoRoom, fs_write_file-Loaded}
use mx_os.Fs.Free.{sector_use, AtLba, bitmap_find_free_run-Found}

-- A hole of one sector, and the free sectors from index 4 on.
abbrev holes : List ℕ
holes = 1 ∷ 0 ∷ 1 ∷ 1 ∷ replicate 508 0

bitmap_find_free_run-Found_example : AtLba (sector_use holes) 2 (bitmap_find_free_run 2 holes)
bitmap_find_free_run-Found_example = bitmap_find_free_run-Found 2 holes refl (omega arith)

-- A disk in memory.
abbrev pub memory : Disk (ℕ → List ℕ)
memory = record {
  read_sector = λ lba d. (some (d lba), d);
  write_sector = λ lba b d. (true, update d lba b);
}

-- The first entry has the name "a" already.
abbrev old_file : FileEntry
old_file = record { name = 97 ∷ replicate 23 0; start_lba = 86; size_sect = 1 }

abbrev pub one_file : List ℕ → Fs (ℕ → List ℕ)
one_file content = record {
  root = record {
    magic = 827541069;
    files = old_file ∷ replicate 31 blank;
    next_free_lba = 86;
    reserved = replicate 24 0;
  };
  bitmap = 1 ∷ replicate 511 0;
  disk = λ l. content;
}

-- The same directory on a drive that is all zeros.
abbrev empty_drive : Drive
empty_drive = record {
  contents = λ l i. 0;
  lba_low = 0;
  lba_mid = 0;
  lba_high = 0;
  drive_sel = 0;
  position = 0;
}

abbrev one_file_drive : Fs Drive
one_file_drive = record {
  root = (one_file []).root;
  bitmap = (one_file []).bitmap;
  disk = empty_drive;
}

-- The data of the files that are written.
abbrev some_bytes : ℕ → ℕ
some_bytes i = i % 256

some_bytes-small : (j : ℕ) → j < 600 → some_bytes j < 256
some_bytes-small j below = omega arith

-- What is read of its one sector.
pub one_file-content :
    (content : List ℕ)
    → (fs_load_file memory (97 ∷ []) 0x20000 (one_file content)).0.1 ≡ take 512 content ++ []
unfolding fs_load_file load_entry load_loop bad_entry find_entry valid_name valid_from m_strcmp
one_file-content content = refl

named_a : IsName (97 ∷ [])
named_a = record {
  some_byte = omega arith;
  fits = omega arith;
  no_nul = λ j h. let at : j ≡ 0 = omega arith in rw at (omega arith);
}

blank_at : (j : ℕ) → j < 31 → file_at (replicate 31 blank) j ≡ blank
blank_at j h = get_or-replicate_lt 31 j blank no_file h

one_file-IsDirectory : IsDirectory (one_file (replicate 512 0)).root.files
one_file-IsDirectory = record { entries = refl; room = rooms }
  where
    rooms : (j : ℕ) → j < 32 → length (file_at (one_file (replicate 512 0)).root.files j).name ≡ 24
    rooms zero h = refl
    rooms (suc j) h = ap (λ (f : FileEntry). length f.name) (blank_at j (omega arith))

-- The other entries have no name.
second :
    {P : Type 0} (m : ℕ) → m < 31 → is_named (97 ∷ []) (file_at (replicate 31 blank) m) ≡ true → P
second m h named =
    let at_blank : is_named (97 ∷ []) blank ≡ true =
      ap (is_named (97 ∷ [])) (sym (blank_at m h)) ∙ named in
    cc (at_blank, blank-is_named (97 ∷ []))

one_file-IsOnly : IsOnly (97 ∷ []) (one_file (replicate 512 0)).root.files
one_file-IsOnly zero zero hj hk j k = refl
one_file-IsOnly zero (suc m) hj hk j k = second m (omega arith) k
one_file-IsOnly (suc m) n hj hk j k = second m (omega arith) j

fs_write_file-Loaded_example :
    Loaded
      (ata_disk drive)
      drive-Reliable
      (97 ∷ [])
      4096
      (padded (512 * sectors_of 600) 0 600 some_bytes)
      (fs_write_file (ata_disk drive) (97 ∷ []) some_bytes 600 one_file_drive)
    ⊎ NoRoom 600 (cleared (ata_disk drive) (97 ∷ []) one_file_drive)
fs_write_file-Loaded_example =
    fs_write_file-Loaded (ata_disk drive) drive-Reliable (97 ∷ []) some_bytes 600 4096
      one_file_drive named_a one_file-IsDirectory (length-replicate {A = ℕ} 512 0) one_file-IsOnly
      (omega arith) (omega arith) (omega arith) some_bytes-small

named_b : IsName (98 ∷ [])
named_b = record {
  some_byte = omega arith;
  fits = omega arith;
  no_nul = λ j h. let at : j ≡ 0 = omega arith in rw at (omega arith);
}

blank_after : (m l : ℕ) → m < 31 → Owns (file_at (replicate 31 blank) m) l → ⊥
blank_after m l h owns = blank-Owns l (subst (λ f. Owns f l) (blank_at m h) owns)

one_file-IsAllocated :
    IsAllocated (one_file (replicate 512 0)).root.files (one_file (replicate 512 0)).bitmap
one_file-IsAllocated = record { used = own_sector; alone = one_owner }
  where
    own_sector :
        (j l : ℕ)
        → j < 32
        → Owns (file_at (one_file (replicate 512 0)).root.files j) l
        → (86 ≤ l) × (l < 597) × (get_or (one_file (replicate 512 0)).bitmap (l - 86) 0 ≢ 0)
    own_sector zero l h (valid, lo, hi) =
        let first : l - 86 ≡ 0 = omega arith in (lo, omega arith, rw first (omega arith))
    own_sector (suc m) l h owns = absurd (blank_after m l (omega arith) owns)

    one_owner :
        (j k l : ℕ)
        → j < 32
        → k < 32
        → Owns (file_at (one_file (replicate 512 0)).root.files j) l
        → Owns (file_at (one_file (replicate 512 0)).root.files k) l
        → j ≡ k
    one_owner zero zero l hj hk a b = refl
    one_owner zero (suc m) l hj hk a b = absurd (blank_after m l (omega arith) b)
    one_owner (suc m) k l hj hk a b = absurd (blank_after m l (omega arith) a)

no_b :
    (j : ℕ)
    → j < 32
    → is_named (98 ∷ []) (file_at (one_file (replicate 512 0)).root.files j) ≡ false
unfolding is_named valid_name valid_from m_strcmp
no_b zero h = refl
no_b (suc m) h = ap (is_named (98 ∷ [])) (blank_at m (omega arith)) ∙ blank-is_named (98 ∷ [])

one_file-IsOnly_b : IsOnly (98 ∷ []) (one_file (replicate 512 0)).root.files
one_file-IsOnly_b j k hj hk nj nk = absurd (true≢false (sym nj ∙ no_b j hj))

-- "b" is written beside "a".
fs_write_file-Isolates_example :
    Isolates
      (ata_disk drive)
      drive-Reliable
      (98 ∷ [])
      one_file_drive
      (fs_write_file (ata_disk drive) (98 ∷ []) some_bytes 600 one_file_drive).1
fs_write_file-Isolates_example =
    fs_write_file-Isolates (ata_disk drive) drive-Reliable (98 ∷ []) some_bytes 600 one_file_drive
      named_b one_file-IsDirectory (length-replicate {A = ℕ} 512 0) one_file-IsOnly_b
      one_file-IsAllocated (omega arith) (omega arith)

a-AreBytes : AreBytes (97 ∷ replicate 23 0)
a-AreBytes zero = omega arith
a-AreBytes (suc i) = replicate-AreBytes 23 0 (omega arith) i

b-AreBytes : AreBytes (98 ∷ [])
b-AreBytes zero = omega arith
b-AreBytes (suc i) = omega arith

bitmap-AreBytes : AreBytes (1 ∷ replicate 511 0)
bitmap-AreBytes zero = omega arith
bitmap-AreBytes (suc i) = replicate-AreBytes 511 0 (omega arith) i

one_file-IsEncodable : IsEncodable (one_file (replicate 512 0)).root
one_file-IsEncodable = record {
  word = omega arith;
  entries = refl;
  files = λ j h. entry_at j h;
  next = omega arith;
  rest = refl;
  rest_bytes = replicate-AreBytes 24 0 (omega arith);
}
  where
    entry_at : (j : ℕ) → j < 32 → IsEntry (file_at (one_file (replicate 512 0)).root.files j)
    entry_at zero h = record {
      room = refl;
      bytes = a-AreBytes;
      start = omega arith;
      size = omega arith;
    }
    entry_at (suc m) h = subst IsEntry (sym (blank_at m (omega arith))) blank-IsEntry

-- There is no "b" yet, a run of two free sectors and a free entry.
cleared_b : cleared (ata_disk drive) (98 ∷ []) one_file_drive ≡ one_file_drive
unfolding find_entry valid_name valid_from m_strcmp
cleared_b = exists-none (ata_disk drive) (98 ∷ []) one_file_drive named_b refl

free_run_b : bitmap_find_free_run 2 one_file_drive.bitmap ≡ some 87
unfolding bitmap_find_free_run find_run
free_run_b = refl

free_entry_b : free_entry 0 one_file_drive.root.files ≡ some (1, blank)
unfolding free_entry
free_entry_b = refl

room_for_b : NoRoom 600 (cleared (ata_disk drive) (98 ∷ []) one_file_drive) → ⊥
room_for_b h = full (subst (NoRoom 600) cleared_b h)
  where
    full : NoRoom 600 one_file_drive → ⊥
    full (inl run) = cc (run, free_run_b)
    full (inr entry) = cc (entry, free_entry_b)

b_is_written : (fs_write_file (ata_disk drive) (98 ∷ []) some_bytes 600 one_file_drive).0 ≡ true
b_is_written =
    elim (fs_write_file-Loaded (ata_disk drive) drive-Reliable (98 ∷ []) some_bytes 600 4096
      one_file_drive named_b one_file-IsDirectory (length-replicate {A = ℕ} 512 0) one_file-IsOnly_b
      (omega arith) (omega arith) (omega arith) some_bytes-small) [
        | inl (done, file) ↦ done
        | inr full ↦ absurd (room_for_b full)
      ]

fs_read_file-load_example : fs_read_file memory (97 ∷ []) (one_file (replicate 512 7)) ≡ (
  map shown_char (fs_load_file memory (97 ∷ []) (2 ^ 32) (one_file (replicate 512 7))).0.1,
  (fs_load_file memory (97 ∷ []) (2 ^ 32) (one_file (replicate 512 7))).1,
)
fs_read_file-load_example = fs_read_file-load memory (97 ∷ []) (one_file (replicate 512 7))

-- An empty directory.
abbrev pub no_files : Fs (ℕ → List ℕ)
no_files = record {
  root = record {
    magic = 827541069;
    files = replicate 32 blank;
    next_free_lba = 86;
    reserved = replicate 24 0;
  };
  bitmap = replicate 512 0;
  disk = λ l. replicate 512 0;
}

abbrev pub no_files_drive : Fs Drive
no_files_drive = record { root = no_files.root; bitmap = no_files.bitmap; disk = empty_drive }

blank_file : (j : ℕ) → j < length (replicate 32 blank) → file_at (replicate 32 blank) j ≡ blank
blank_file j h = get_or-replicate_lt 32 j blank no_file (omega (arith, length-replicate 32 blank))

pub no_files-IsDirectory : IsDirectory no_files.root.files
no_files-IsDirectory = record {
  entries = length-replicate 32 blank;
  room = λ j h.
      ap (λ (f : FileEntry). length f.name)
        (blank_file j (omega (arith, length-replicate 32 blank)));
}

pub no_files-IsOnly : (name : List ℕ) → IsOnly name no_files.root.files
no_files-IsOnly name j k hj hk nj nk =
    let blank_named : is_named name blank ≡ true =
      ap (is_named name) (sym (blank_file j hj)) ∙ nj in
    cc (blank_named, blank-is_named name)

pub no_files-bitmap : length no_files.bitmap ≡ 512
no_files-bitmap = length-replicate {A = ℕ} 512 0

fs_load_file-length_example :
    length (fs_load_file memory (97 ∷ []) 600 (one_file (replicate 512 7))).0.1 ≤ 600
fs_load_file-length_example = fs_load_file-length memory (97 ∷ []) 600 (one_file (replicate 512 7))

-- "b" is there after a restart with an empty directory in memory.
fs_write_file-Lasts_example :
    let after = (fs_write_file (ata_disk drive) (98 ∷ []) some_bytes 600 one_file_drive).1 in
    Restored
      (ata_disk drive)
      drive-Reliable
      after
      (fs_init (ata_disk drive) (record no_files_drive { disk = after.disk }))
fs_write_file-Lasts_example =
    fs_write_file-Lasts (ata_disk drive) drive-Reliable (98 ∷ []) some_bytes 600 one_file_drive
      no_files_drive named_b one_file-IsDirectory (length-replicate {A = ℕ} 512 0) one_file-IsOnly_b
      one_file-IsEncodable refl (omega arith) (omega arith) b-AreBytes bitmap-AreBytes b_is_written
