-- ===== src/Fs/RoundTrip.antt =====
-- Writing a file with `fs_write_file_impl` of drivers/fs.c and loading it with `fs_load_file`.
use mx_os.Prelude.{
  ℕ, ◌+◌, ◌*◌, ◌/◌, ◌^◌, ◌≤◌, ◌<◌, ◌≡◌, refl, subst, ◌⊎◌, inl, inr, none, some, List, arith, length,
  u32, Option-cases,
}
use mx_os.Fs.{
  Disk, Fs, padded, write_allocated, write_at, fs_write_file, free_entry, bitmap_find_free_run,
}
use mx_os.Fs.Free.{sector_use, AtLba, bitmap_find_free_run-Found}
use mx_os.Fs.Sectors.{Reliable}
use mx_os.Fs.Names.{IsName}
use mx_os.Fs.Table.{IsOnly}
use mx_os.Fs.Saved.{IsDirectory, Loaded, write_at-Holds}
use mx_os.Fs.Cleared.{IsReady, cleared, cleared-IsReady, fs_write_file-cleared}

-- The sectors that `size` bytes take.
abbrev pub sectors_of : ℕ → ℕ
sectors_of size = (size + 511) / 512

-- No run of free sectors is long enough, or no entry is free.
abbrev pub NoRoom : {D : Type 0} → ℕ → Fs D → Type 0
NoRoom size fs =
    (bitmap_find_free_run (sectors_of size) fs.bitmap ≡ none) ⊎ (free_entry 0 fs.root.files ≡ none)

module _ {D : Type 0} (dev : Disk D) where
  pub allocated-some :
      (name : List ℕ) (data_at : ℕ → ℕ) (size lba : ℕ) (fs : Fs D)
      → size + 511 < 2 ^ 32
      → bitmap_find_free_run (sectors_of size) fs.bitmap ≡ some lba
      → write_allocated dev name data_at size fs
        ≡ write_at dev name data_at size (sectors_of size) lba fs
  unfolding write_allocated
  allocated-some name data_at size lba fs small e =
      let whole : u32 (size + 511) ≡ size + 511 = omega arith in
      rw (whole, e, write_allocated) (rw whole refl)

module _ {D : Type 0} (dev : Disk D) (ok : Reliable dev) where
  allocated-Loaded :
      (name : List ℕ) (data_at : ℕ → ℕ) (size max_size : ℕ) (fs : Fs D)
      → IsName name
      → IsReady name fs
      → 0 < size
      → size + 511 < 2 ^ 32
      → 512 * sectors_of size ≤ max_size
      → ((j : ℕ) → j < size → data_at j < 256)
      → Loaded dev ok name max_size
          (padded (512 * sectors_of size) 0 size data_at)
          (write_allocated dev name data_at size fs)
        ⊎ NoRoom size fs
  allocated-Loaded name data_at size max_size fs v ready pos small fits bytes =
      elim (Option-cases (bitmap_find_free_run (sectors_of size) fs.bitmap)) [
        | inl full ↦ inr (inl full)
        | inr (lba, run) ↦ elim (Option-cases (free_entry 0 fs.root.files)) [
          | inl full ↦ inr (inr full)
          | inr ((i, f), free) ↦
              let (m, at, found) = subst (AtLba (sector_use fs.bitmap) (sectors_of size)) run (
                bitmap_find_free_run-Found (sectors_of size) fs.bitmap ready.sizes (omega arith)) in
              inl (
                rw (allocated-some dev name data_at size lba fs small run, at)
                  (write_at-Holds dev ok name data_at size (sectors_of size) m i max_size f fs v
                    ready.directory ready.absent free (omega arith) found.0 (omega arith)
                    (omega arith) fits bytes))
        ]
      ]

  -- The disk has no errors and stores sectors of 512 bytes. The directory has 32 entries with names
  -- of 24 bytes, and the bitmap 512. The new name has 1 to 23 characters, none 0, and at most one
  -- entry has it. The size is above 0, `size + 511` is below 2^32, the values written are bytes,
  -- and the buffer that is loaded to holds the sectors. Then either, once a file of that name is
  -- deleted, there is no room, or `fs_write_file` succeeds, and `fs_load_file` then gives the bytes
  -- written, with zeros up to the end of the last sector.
  pub fs_write_file-Loaded :
      (name : List ℕ) (data_at : ℕ → ℕ) (size max_size : ℕ) (fs : Fs D)
      → IsName name
      → IsDirectory fs.root.files
      → length fs.bitmap ≡ 512
      → IsOnly name fs.root.files
      → 0 < size
      → size + 511 < 2 ^ 32
      → 512 * sectors_of size ≤ max_size
      → ((j : ℕ) → j < size → data_at j < 256)
      → Loaded dev ok name max_size
          (padded (512 * sectors_of size) 0 size data_at)
          (fs_write_file dev name data_at size fs)
        ⊎ NoRoom size (cleared dev name fs)
  fs_write_file-Loaded name data_at size max_size fs v dir sizes only pos small fits bytes =
      rw (fs_write_file-cleared dev name data_at size fs v pos) (
        allocated-Loaded name data_at size max_size (cleared dev name fs) v
          (cleared-IsReady dev ok name fs v dir sizes only) pos small fits bytes)
