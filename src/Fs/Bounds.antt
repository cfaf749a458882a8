-- ===== src/Fs/Bounds.antt =====
-- `fs_load_file` of drivers/fs.c stays in the buffer that it is given.
use mx_os.Prelude.{
  ℕ, zero, suc, ◌+◌, ◌-◌, ◌*◌, ◌≤◌, List, take, arith, length, length-append, length-take, get_or,
  ltb, ◌==◌, min, u32, Bool-cases, Option-cases, inl, inr,
}
use mx_os.Fs.{Disk, Fs, FileEntry, find_entry, bad_entry, load_loop, load_entry, fs_load_file}

module _ {D : Type 0} (dev : Disk D) where
  load_loop-length :
      (n lba remaining : ℕ) (d : D) → length (load_loop dev n lba remaining d).0.1 ≤ remaining
  unfolding load_loop
  load_loop-length zero lba remaining d = omega arith
  load_loop-length (suc n) lba remaining d =
      let r = dev.read_sector lba d in
      let chunk = min 512 remaining in
      let rest = (load_loop dev n (lba + 1) (remaining - chunk) r.1).0.1 in
      let more = load_loop-length n (lba + 1) (remaining - chunk) r.1 in
      elim (Bool-cases (remaining == 0)) [
        | inl done ↦ rw done (omega arith)
        | inr on ↦ elim (Option-cases r.0) [
          | inl failed ↦ rw (on, failed) (omega arith)
          | inr (b, read) ↦
              rw (on, read)
                (omega (arith, more, length-append (take chunk b) rest, length-take chunk b))
        ]
      ]

  load_entry-length :
      (f : FileEntry) (max_size : ℕ) (fs : Fs D)
      → length (load_entry dev f max_size fs).0.1 ≤ max_size
  unfolding load_entry
  load_entry-length f max_size fs =
      let total = u32 (f.size_sect * 512) in
      let loaded = load_loop-length total f.start_lba total fs.disk in
      elim (Bool-cases (bad_entry dev f)) [
        | inl bad ↦ rw bad (omega arith)
        | inr good ↦ elim (Bool-cases (ltb max_size total)) [
          | inl large ↦ rw (good, large) (omega arith)
          | inr fits ↦ rw (good, fits) (ground (arith, loaded))
        ]
      ]

  -- Whatever the directory and the sectors hold, and whether or not it succeeds, `fs_load_file`
  -- writes at most `max_size` bytes to the buffer.
  pub fs_load_file-length :
      (name : List ℕ) (max_size : ℕ) (fs : Fs D)
      → length (fs_load_file dev name max_size fs).0.1 ≤ max_size
  unfolding fs_load_file
  fs_load_file-length name max_size fs = elim (Bool-cases (get_or name 0 0 == 0)) [
    | inl empty ↦ rw empty (omega arith)
    | inr named ↦ elim (Option-cases (find_entry name 0 fs.root.files)) [
      | inl missing ↦ rw (named, missing) (omega arith)
      | inr (f, found) ↦ rw (named, found) (load_entry-length f.1 max_size fs)
    ]
  ]
