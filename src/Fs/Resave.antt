-- ===== src/Fs/Resave.antt =====
-- A file that is deleted and written again, as kernel/shell.c does, over drivers/fs.c.
use mx_os.Prelude.{
  ℕ, zero, suc, ◌+◌, ◌*◌, ◌^◌, ◌≤◌, ◌<◌, ◌≡◌, refl, ◌∙◌, sym, ap, subst, ◌⊎◌, inl, inr, true, false,
  List, arith, length, get_or, ltb, ◌==◌, if◌then◌else◌, Bool-cases, Option-cases,
}
use mathlib.Core.Bool.{true≢false}
use mx_os.Fs.{
  Disk, Fs, padded, find_entry, fs_file_exists, fs_load_file, fs_delete_file, fs_write_file,
}
use mx_os.Fs.Sectors.{Reliable}
use mx_os.Fs.Names.{IsName}
use mx_os.Fs.Table.{IsOnly, find_entry-Absent}
use mx_os.Fs.Saved.{IsDirectory, Loaded}
use mx_os.Fs.Cleared.{cleared, cleared-IsReady, exists-none, exists-some}
use mx_os.Fs.RoundTrip.{sectors_of, NoRoom, fs_write_file-Loaded}

-- The bytes of a sector's worth of data, and the zeros behind them.
pub get_or-padded :
    (n i chunk : ℕ) (data_at : ℕ → ℕ) (j : ℕ)
    → j < n
    → get_or (padded n i chunk data_at) j 0 ≡ (if ltb (i + j) chunk then data_at (i + j) else 0)
unfolding padded
get_or-padded zero i chunk data_at j h = absurd (omega arith)
get_or-padded (suc n) i chunk data_at zero h =
    let at : i ≡ i + 0 = omega arith in ap (λ k. if ltb k chunk then data_at k else 0) at
get_or-padded (suc n) i chunk data_at (suc j) h =
    let at : i + 1 + j ≡ i + suc j = omega arith in
    get_or-padded n (i + 1) chunk data_at j (omega arith)
    ∙ ap (λ k. if ltb k chunk then data_at k else 0) at

module _ {D : Type 0} (dev : Disk D) where
  -- `fs_delete_file` leaves what a write of that file starts from.
  pub fs_delete_file-cleared :
      (name : List ℕ) (fs : Fs D)
      → IsName name
      → (fs_delete_file dev name fs).1 ≡ cleared dev name fs
  unfolding fs_delete_file
  fs_delete_file-cleared name fs v =
      let named : (get_or name 0 0 == 0) ≡ false = ground (arith, v.no_nul 0, v.some_byte) in
      elim (Option-cases (find_entry name 0 fs.root.files)) [
        | inl missing ↦ rw (exists-none dev name fs v missing, named, missing) refl
        | inr ((i, f), found) ↦ rw (exists-some dev name i f fs v found, named, found) refl
      ]

  -- A file that can be loaded exists.
  pub fs_load_file-exists :
      (name : List ℕ) (max_size : ℕ) (fs : Fs D)
      → (fs_load_file dev name max_size fs).0.0 ≡ true
      → fs_file_exists dev name fs ≡ true
  unfolding fs_load_file fs_file_exists
  fs_load_file-exists name max_size fs done = elim (Bool-cases (get_or name 0 0 == 0)) [
    | inl empty ↦ cc (rw empty at done)
    | inr named ↦ elim (Option-cases (find_entry name 0 fs.root.files)) [
      | inl missing ↦ cc (rw (named, missing) at done)
      | inr (f, found) ↦ rw (named, found) refl
    ]
  ]

module _ {D : Type 0} (dev : Disk D) (ok : Reliable dev) where
  -- Deleted first, a file is written as well.
  pub resaved-Loaded :
      (name : List ℕ) (data_at : ℕ → ℕ) (size max_size : ℕ) (fs : Fs D)
      → IsName name
      → IsDirectory fs.root.files
      → length fs.bitmap ≡ 512
      → IsOnly name fs.root.files
      → 0 < size
      → size + 511 < 2 ^ 32
      → 512 * sectors_of size ≤ max_size
      → ((j : ℕ) → j < size → data_at j < 256)
      → Loaded dev ok name max_size
          (padded (512 * sectors_of size) 0 size data_at)
          (fs_write_file dev name data_at size (fs_delete_file dev name fs).1)
        ⊎ NoRoom size (cleared dev name fs)
  resaved-Loaded name data_at size max_size fs v dir sizes only pos small fits bytes =
      let ready = cleared-IsReady dev ok name fs v dir sizes only in
      let again : cleared dev name (cleared dev name fs) ≡ cleared dev name fs =
        exists-none dev name (cleared dev name fs) v
          (find_entry-Absent name 0 (cleared dev name fs).root.files ready.absent) in
      let alone : IsOnly name (cleared dev name fs).root.files =
        λ j k hj hk nj nk. absurd (true≢false (sym nj ∙ ready.absent j hj)) in
      rw (fs_delete_file-cleared dev name fs v) (
        subst
          (λ x.
            Loaded dev ok name max_size (padded (512 * sectors_of size) 0 size data_at)
              (fs_write_file dev name data_at size (cleared dev name fs))
            ⊎ NoRoom size x)
          again
          (fs_write_file-Loaded dev ok name data_at size max_size (cleared dev name fs) v
            ready.directory ready.sizes alone pos small fits bytes))
