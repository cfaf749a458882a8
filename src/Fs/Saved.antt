-- ===== src/Fs/Saved.antt =====
-- A file that `fs_write_file_impl` of drivers/fs.c has written is what `fs_load_file` loads.
use mx_os.Prelude.{
  ℕ, ◌+◌, ◌-◌, ◌*◌, ◌^◌, ◌≤◌, ◌<◌, ◌≡◌, refl, ◌∙◌, sym, ap, subst, Bool, true, false, none, some,
  List, arith, length, set, get_or, ltb, ◌==◌, u32,
}
use mx_os.Fs.{
  Disk, Fs, FileEntry, RootDirectory, padded, write_loop, copy_name, free_entry, find_entry,
  fs_root_save, put_entry, fs_add_entry, bitmap_mark, bad_entry, load_entry, fs_load_file, write_at,
}
use mx_os.Fs.Sectors.{Reliable, fs_root_save-kept, bitmap_mark-kept, bitmap_mark-root}
use mx_os.Fs.Data.{Holds, Holds-same, Wrote, write_loop-Wrote, load_loop-Holds}
use mx_os.Fs.Names.{IsName, stored-is_named}
use mx_os.Fs.Table.{file_at, Absent, find_entry-set, free_entry-some}

-- The directory has its 32 entries, each with room for a name.
pub record IsDirectory (files : List FileEntry) : Type 0 where
  pub entries : length files ≡ 32
  pub room : (j : ℕ) → j < 32 → length (file_at files j).name ≡ 24

-- A search finds the name where it is stored.
find-stored :
    (name : List ℕ) (lba k i : ℕ) (f : FileEntry) (files : List FileEntry)
    → IsName name
    → IsDirectory files
    → Absent name files
    → free_entry 0 files ≡ some (i, f)
    → let e : FileEntry = record {
      name = set (copy_name 23 0 name f.name) 23 0;
      start_lba = lba;
      size_sect = k;
    } in
      find_entry name 0 (set files i e) ≡ some (i, e)
find-stored name lba k i f files v dir absent free =
    let (c, at, lt, same) = free_entry-some 0 i files f free in
    let here : i ≡ c = omega (arith, at) in
    let old : length f.name ≡ 24 =
      ap (λ (g : FileEntry). length g.name) (sym same)
      ∙ dir.room c (omega (arith, lt, dir.entries)) in
    let e : FileEntry = record {
      name = set (copy_name 23 0 name f.name) 23 0;
      start_lba = lba;
      size_sect = k;
    } in
    let first : 0 + i ≡ i = omega arith in
    find_entry-set name 0 i files e absent (omega (arith, lt))
      (stored-is_named name f.name lba k v old)
    ∙ ap (λ n. some (n, e)) first

module _ {D : Type 0} (dev : Disk D) where
  pub fs_add_entry-some :
      (name : List ℕ) (lba size i : ℕ) (f : FileEntry) (fs : Fs D)
      → free_entry 0 fs.root.files ≡ some (i, f)
      → fs_add_entry dev name lba size fs
        ≡ fs_root_save dev (
            put_entry dev i
              (record {
                name = set (copy_name 23 0 name f.name) 23 0;
                start_lba = lba;
                size_sect = size;
              })
              fs)
  unfolding fs_add_entry
  fs_add_entry-some name lba size i f fs e = rw (e, fs_add_entry)

  pub fs_add_entry-none :
      (name : List ℕ) (lba size : ℕ) (fs : Fs D)
      → free_entry 0 fs.root.files ≡ none
      → fs_add_entry dev name lba size fs ≡ (false, fs)
  unfolding fs_add_entry
  fs_add_entry-none name lba size fs e = rw (e, fs_add_entry)

  pub fs_root_save-root : (fs : Fs D) → (fs_root_save dev fs).1.root ≡ fs.root
  unfolding fs_root_save
  fs_root_save-root fs = refl

  pub put_entry-files :
      (i : ℕ) (f : FileEntry) (fs : Fs D)
      → (put_entry dev i f fs).root.files ≡ set fs.root.files i f
  unfolding put_entry
  put_entry-files i f fs = refl

  pub put_entry-disk : (i : ℕ) (f : FileEntry) (fs : Fs D) → (put_entry dev i f fs).disk ≡ fs.disk
  unfolding put_entry
  put_entry-disk i f fs = refl

  load-found :
      (name : List ℕ) (max_size i : ℕ) (f : FileEntry) (fs : Fs D)
      → IsName name
      → find_entry name 0 fs.root.files ≡ some (i, f)
      → fs_load_file dev name max_size fs ≡ load_entry dev f max_size fs
  unfolding fs_load_file
  load-found name max_size i f fs v e =
      let named : (get_or name 0 0 == 0) ≡ false = ground (arith, v.no_nul 0, v.some_byte) in
      rw named (rw (e, fs_load_file))

  good_entry :
      (f : FileEntry)
      → 86 ≤ f.start_lba
      → 0 < f.size_sect
      → f.start_lba + f.size_sect ≤ 597
      → bad_entry dev f ≡ false
  unfolding bad_entry
  good_entry f lo pos hi =
      let a : ltb f.start_lba 86 ≡ false = ground arith in
      let b : (f.size_sect == 0) ≡ false = ground arith in
      let c : ltb 1048576 f.size_sect ≡ false = ground arith in
      let d : ltb (2 ^ 32 - 1 - f.size_sect) f.start_lba ≡ false = ground arith in
      rw (a, b, c, d) refl

module _ {D : Type 0} (dev : Disk D) (ok : Reliable dev) where
  -- An entry whose sectors hold the data is loaded.
  load_entry-Holds :
      (f : FileEntry) (max_size size : ℕ) (data_at : ℕ → ℕ) (fs : Fs D)
      → 86 ≤ f.start_lba
      → 0 < f.size_sect
      → f.start_lba + f.size_sect ≤ 597
      → 512 * f.size_sect ≤ max_size
      → Holds (ok.sectors fs.disk) f.size_sect f.start_lba size data_at
      → (load_entry dev f max_size fs).0 ≡ (true, padded (512 * f.size_sect) 0 size data_at)
  unfolding load_entry
  load_entry-Holds f max_size size data_at fs lo pos hi fits h =
      let total : u32 (f.size_sect * 512) ≡ 512 * f.size_sect = omega arith in
      let room : ltb max_size (512 * f.size_sect) ≡ false = ground arith in
      let loaded =
        load_loop-Holds dev ok (512 * f.size_sect) f.size_sect (512 * f.size_sect) f.start_lba size
          data_at fs.disk refl (omega arith) (omega arith) h in
      rw (good_entry dev f lo pos hi, total, room, loaded) refl

  write_at-added :
      (name : List ℕ) (data_at : ℕ → ℕ) (size k lba : ℕ) (fs : Fs D)
      → let w = write_loop dev size lba size data_at fs.disk in
        let added =
          fs_add_entry dev name lba k (bitmap_mark dev lba k 1 (record fs { disk = w.1 })) in
        w.0 ≡ true → added.0 ≡ true → write_at dev name data_at size k lba fs ≡ added
  unfolding write_at
  write_at-added name data_at size k lba fs done added = rw (done, added) refl

  -- The file system once the data is written and the entry `e` saved.
  unfoldable pub with_entry : ℕ → ℕ → ℕ → FileEntry → D → Fs D → Bool × Fs D
  with_entry lba k i e d fs =
      fs_root_save dev (put_entry dev i e (bitmap_mark dev lba k 1 (record fs { disk = d })))

  pub with_entry-files :
      (lba k i : ℕ) (e : FileEntry) (d : D) (fs : Fs D)
      → (with_entry lba k i e d fs).1.root.files ≡ set fs.root.files i e
  unfolding with_entry
  with_entry-files lba k i e d fs =
      ap (λ (r : RootDirectory). r.files)
        (fs_root_save-root dev
          (put_entry dev i e (bitmap_mark dev lba k 1 (record fs { disk = d }))))
      ∙ put_entry-files dev i e (bitmap_mark dev lba k 1 (record fs { disk = d }))
      ∙ ap (λ (r : RootDirectory). set r.files i e)
          (bitmap_mark-root dev ok lba k 1 (record fs { disk = d }))

  pub with_entry-disk :
      (lba k i : ℕ) (e : FileEntry) (d : D) (fs : Fs D) (l : ℕ)
      → 86 ≤ l
      → ((with_entry lba k i e d fs).0 ≡ true)
        × (ok.sectors (with_entry lba k i e d fs).1.disk l ≡ ok.sectors d l)
  unfolding with_entry
  with_entry-disk lba k i e d fs l h =
      let marked_fs = bitmap_mark dev lba k 1 (record fs { disk = d }) in
      let saved = fs_root_save-kept dev ok (put_entry dev i e marked_fs) l (omega arith) in
      (
        saved.0,
        saved.1
            ∙ ap (λ x. ok.sectors x l) (put_entry-disk dev i e marked_fs)
            ∙ bitmap_mark-kept dev ok lba k 1 (record fs { disk = d }) l h,
      )

  -- With a free entry, `write_at` uses it.
  pub write_at-some :
      (name : List ℕ) (data_at : ℕ → ℕ) (size k lba i : ℕ) (f : FileEntry) (fs : Fs D)
      → (write_loop dev size lba size data_at fs.disk).0 ≡ true
      → free_entry 0 fs.root.files ≡ some (i, f)
      → let e : FileEntry = record {
        name = set (copy_name 23 0 name f.name) 23 0;
        start_lba = lba;
        size_sect = k;
      } in
        write_at dev name data_at size k lba fs
        ≡ with_entry lba k i e (write_loop dev size lba size data_at fs.disk).1 fs
  unfolding with_entry
  write_at-some name data_at size k lba i f fs done free =
      let w = write_loop dev size lba size data_at fs.disk in
      let e : FileEntry = record {
        name = set (copy_name 23 0 name f.name) 23 0;
        start_lba = lba;
        size_sect = k;
      } in
      let free_there =
        ap (λ (r : RootDirectory). free_entry 0 r.files)
          (bitmap_mark-root dev ok lba k 1 (record fs { disk = w.1 }))
        ∙ free in
      let added : _ ≡ with_entry lba k i e w.1 fs =
        fs_add_entry-some dev name lba k i f (bitmap_mark dev lba k 1 (record fs { disk = w.1 }))
          free_there in
      write_at-added name data_at size k lba fs done (
        ap (λ (r : Bool × Fs D). r.0) added ∙ (with_entry-disk lba k i e w.1 fs 86 (omega arith)).0)
      ∙ added

  -- Without one, the sectors are given back.
  pub write_at-none :
      (name : List ℕ) (data_at : ℕ → ℕ) (size k lba : ℕ) (fs : Fs D)
      → (write_loop dev size lba size data_at fs.disk).0 ≡ true
      → free_entry 0 fs.root.files ≡ none
      → write_at dev name data_at size k lba fs ≡ (
        false,
        bitmap_mark dev lba k 0 (
            bitmap_mark dev lba k 1
              (record fs { disk = (write_loop dev size lba size data_at fs.disk).1 })),
      )
  unfolding write_at
  write_at-none name data_at size k lba fs done free =
      let w = write_loop dev size lba size data_at fs.disk in
      let free_there =
        ap (λ (r : RootDirectory). free_entry 0 r.files)
          (bitmap_mark-root dev ok lba k 1 (record fs { disk = w.1 }))
        ∙ free in
      let added =
        fs_add_entry-none dev name lba k (bitmap_mark dev lba k 1 (record fs { disk = w.1 }))
          free_there in
      rw (done, added) refl

  -- The operation succeeded, and the file can be loaded.
  abbrev pub Loaded : List ℕ → ℕ → List ℕ → Bool × Fs D → Type 0
  Loaded name max_size bytes r =
      (r.0 ≡ true) × ((fs_load_file dev name max_size r.1).0 ≡ (true, bytes))

  -- What `write_at` leaves when it writes to a free run.
  pub write_at-Holds :
      (name : List ℕ) (data_at : ℕ → ℕ) (size k m i max_size : ℕ) (f : FileEntry) (fs : Fs D)
      → IsName name
      → IsDirectory fs.root.files
      → Absent name fs.root.files
      → free_entry 0 fs.root.files ≡ some (i, f)
      → 0 < k
      → m + k ≤ 511
      → size ≤ 512 * k
      → 512 * k < size + 512
      → 512 * k ≤ max_size
      → ((j : ℕ) → j < size → data_at j < 256)
      → ((write_at dev name data_at size k (86 + m) fs).0 ≡ true)
        × ((fs_load_file dev name max_size (write_at dev name data_at size k (86 + m) fs).1).0
            ≡ (true, padded (512 * k) 0 size data_at))
  unfolding Wrote with_entry
  write_at-Holds name data_at size k m i max_size f fs v dir absent free pos inside lo hi fits
        bytes =
      let w = write_loop dev size (86 + m) size data_at fs.disk in
      let (done, holds, kept) =
        write_loop-Wrote dev ok size k (86 + m) size data_at fs.disk (omega arith) lo hi
          (omega arith) in
      let e : FileEntry = record {
        name = set (copy_name 23 0 name f.name) 23 0;
        start_lba = 86 + m;
        size_sect = k;
      } in
      let all_done = with_entry-disk (86 + m) k i e w.1 fs 86 (omega arith) in
      let result = write_at-some name data_at size k (86 + m) i f fs done free in
      subst (Loaded name max_size (padded (512 * k) 0 size data_at)) (sym result) (
        all_done.0,
        ap (λ (r : (Bool × List ℕ) × Fs D). r.0)
              (load-found dev name max_size i e (with_entry (86 + m) k i e w.1 fs).1 v (
                ap (find_entry name 0) (with_entry-files (86 + m) k i e w.1 fs)
                ∙ find-stored name (86 + m) k i f fs.root.files v dir absent free))
            ∙ load_entry-Holds e max_size size data_at (with_entry (86 + m) k i e w.1 fs).1
                (omega arith) pos (omega arith) fits
                (Holds-same (ok.sectors w.1) (ok.sectors (with_entry (86 + m) k i e w.1 fs).1.disk)
                  k (86 + m) size data_at
                  (λ l a b. (with_entry-disk (86 + m) k i e w.1 fs l (omega arith)).1)
                  (holds bytes)),
      )
