-- ===== src/Fs/Written.antt =====
-- Writing a file with `fs_write_file_impl` of drivers/fs.c: the files keep their sectors, and the other
-- files what they hold.
use mx_os.Prelude.{
  ℕ, ◌+◌, ◌-◌, ◌*◌, ◌^◌, ◌≤◌, ◌<◌, ◌≡◌, refl, ◌∙◌, sym, ap, ap₂, subst, ◌⊎◌, inl, inr, Bool, true,
  false, none, List, arith, length, set, get_or, u32, Option-cases,
}
use mx_os.Fs.{
  Disk, Fs, FileEntry, RootDirectory, find_entry, free_entry, fs_root_save, put_entry, bitmap_mark,
  marked, copy_name, write_loop, write_at, write_allocated, fs_write_file, fs_delete_file,
  bitmap_find_free_run,
}
use mx_os.Fs.Cleared.{cleared, cleared-IsReady, fs_write_file-cleared}
use mx_os.Fs.Data.{Wrote, write_loop-Wrote}
use mx_os.Fs.Free.{sector_use, AtLba, bitmap_find_free_run-Found}
use mx_os.Fs.Isolated.{Isolates, used-Same, other_name, unnamed, cleared-Isolates}
use mx_os.Fs.Names.{IsName, is_named, stored-is_named}
use mx_os.Fs.Others.{find_entry-other}
use mx_os.Fs.Owned.{
  IsAllocated, added-IsAllocated, used-outside, given_back-IsAllocated, get_or-take_zero,
}
use mx_os.Fs.Resave.{fs_delete_file-cleared}
use mx_os.Fs.RoundTrip.{sectors_of, allocated-some}
use mx_os.Fs.Saved.{
  IsDirectory, with_entry, with_entry-files, with_entry-disk, write_at-some, write_at-none,
}
use mx_os.Fs.Sectors.{Reliable, bitmap_mark-kept, bitmap_mark-root, bitmap_mark-bitmap}
use mx_os.Fs.Table.{file_at, IsOnly, free_entry-some, free_entry-unnamed}

module _ {D : Type 0} (dev : Disk D) (ok : Reliable dev) where
  with_entry-bitmap :
      (lba k i : ℕ) (e : FileEntry) (d : D) (fs : Fs D)
      → (with_entry dev ok lba k i e d fs).1.bitmap ≡ marked lba k 1 fs.bitmap
  unfolding with_entry fs_root_save put_entry
  with_entry-bitmap lba k i e d fs = bitmap_mark-bitmap dev ok lba k 1 (record fs { disk = d })

  added-Isolates :
      (name : List ℕ) (k lba i : ℕ) (f e : FileEntry) (d : D) (fs : Fs D)
      → IsName name
      → IsDirectory fs.root.files
      → length fs.bitmap ≡ 512
      → IsAllocated fs.root.files fs.bitmap
      → i < 32
      → get_or (file_at fs.root.files i).name 0 0 ≡ 0
      → is_named name e ≡ true
      → e.start_lba ≡ lba
      → e.size_sect ≡ k
      → 86 ≤ lba
      → lba + k ≤ 597
      → ((l : ℕ) → lba ≤ l → l < lba + k → get_or fs.bitmap (l - 86) 0 ≡ 0)
      → ((l : ℕ) → (l < lba) ⊎ (lba + k ≤ l) → ok.sectors d l ≡ ok.sectors fs.disk l)
      → Isolates dev ok name fs (with_entry dev ok lba k i e d fs).1
  added-Isolates name k lba i f e d fs v dir size h lt nul named at_lba at_k above fits free kept =
      let after = (with_entry dev ok lba k i e d fs).1 in
      let files = with_entry-files dev ok lba k i e d fs in
      let bitmap : after.bitmap ≡ marked e.start_lba e.size_sect 1 fs.bitmap =
        with_entry-bitmap lba k i e d fs
        ∙ ap₂ (λ a n. marked a n 1 fs.bitmap) (sym at_lba) (sym at_k) in
      record {
        allocated =
            subst (λ fl. IsAllocated fl after.bitmap) (sym files)
              (subst (IsAllocated (set fs.root.files i e)) (sym bitmap) (
                added-IsAllocated fs.root.files fs.bitmap i e dir.entries size lt (omega arith)
                  (omega arith) (λ l lo hi. free l (omega arith) (omega arith)) h));
        others = λ other max_size w differ.
            used-Same dev ok other max_size fs after dir.entries h
              (ap (find_entry other 0) files
                ∙ find_entry-other other 0 i fs.root.files e
                    (unnamed other (file_at fs.root.files i) nul)
                    (other_name name other e v w differ named))
              (λ l low marks.
                (with_entry-disk dev ok lba k i e d fs l low).1
                ∙ kept l (used-outside lba k l fs.bitmap free marks));
      }

  given_back-Isolates :
      (name : List ℕ) (k lba : ℕ) (d : D) (fs : Fs D)
      → length fs.root.files ≡ 32
      → IsAllocated fs.root.files fs.bitmap
      → ((l : ℕ) → lba ≤ l → l < lba + k → get_or fs.bitmap (l - 86) 0 ≡ 0)
      → ((l : ℕ) → (l < lba) ⊎ (lba + k ≤ l) → ok.sectors d l ≡ ok.sectors fs.disk l)
      → Isolates dev ok name fs
          (bitmap_mark dev lba k 0 (bitmap_mark dev lba k 1 (record fs { disk = d })))
  given_back-Isolates name k lba d fs entries h free kept =
      let taken = bitmap_mark dev lba k 1 (record fs { disk = d }) in
      let after = bitmap_mark dev lba k 0 taken in
      let root : after.root ≡ fs.root =
        bitmap_mark-root dev ok lba k 0 taken
        ∙ bitmap_mark-root dev ok lba k 1 (record fs { disk = d }) in
      let bitmap : after.bitmap ≡ marked lba k 0 (marked lba k 1 fs.bitmap) =
        bitmap_mark-bitmap dev ok lba k 0 taken
        ∙ ap (marked lba k 0) (bitmap_mark-bitmap dev ok lba k 1 (record fs { disk = d })) in
      record {
        allocated =
            subst (λ (r : RootDirectory). IsAllocated r.files after.bitmap) (sym root)
              (subst (IsAllocated fs.root.files) (sym bitmap)
                (given_back-IsAllocated fs.root.files fs.bitmap lba k free h));
        others = λ other max_size w differ.
            used-Same dev ok other max_size fs after entries h
              (ap (λ (r : RootDirectory). find_entry other 0 r.files) root)
              (λ l low marks.
                bitmap_mark-kept dev ok lba k 0 taken l low
                ∙ bitmap_mark-kept dev ok lba k 1 (record fs { disk = d }) l low
                ∙ kept l (used-outside lba k l fs.bitmap free marks));
      }

  write_at-Isolates :
      (name : List ℕ) (data_at : ℕ → ℕ) (size k lba : ℕ) (fs : Fs D)
      → IsName name
      → IsDirectory fs.root.files
      → length fs.bitmap ≡ 512
      → IsAllocated fs.root.files fs.bitmap
      → size ≤ 512 * k
      → 512 * k < size + 512
      → 86 ≤ lba
      → lba + k ≤ 597
      → ((l : ℕ) → lba ≤ l → l < lba + k → get_or fs.bitmap (l - 86) 0 ≡ 0)
      → Isolates dev ok name fs (write_at dev name data_at size k lba fs).1
  unfolding Wrote
  write_at-Isolates name data_at size k lba fs v dir sizes h lo hi above fits free =
      let w = write_loop dev size lba size data_at fs.disk in
      let (done, holds, kept) =
        write_loop-Wrote dev ok size k lba size data_at fs.disk (omega arith) lo hi (omega arith) in
      elim (Option-cases (free_entry 0 fs.root.files)) [
        | inl full ↦
            subst (λ (r : Bool × Fs D). Isolates dev ok name fs r.1)
              (sym (write_at-none dev ok name data_at size k lba fs done full))
              (given_back-Isolates name k lba w.1 fs dir.entries h free kept)
        | inr ((i, f), there) ↦
            let (c, at, lt, same) = free_entry-some 0 i fs.root.files f there in
            let place : i ≡ c = omega (arith, at) in
            let entry : file_at fs.root.files i ≡ f = ap (file_at fs.root.files) place ∙ same in
            let inside : i < 32 = omega (arith, lt, dir.entries) in
            let room : length f.name ≡ 24 =
              ap (λ (g : FileEntry). length g.name) (sym entry) ∙ dir.room i inside in
            let e : FileEntry = record {
              name = set (copy_name 23 0 name f.name) 23 0;
              start_lba = lba;
              size_sect = k;
            } in
            subst (λ (r : Bool × Fs D). Isolates dev ok name fs r.1)
              (sym (write_at-some dev ok name data_at size k lba i f fs done there))
              (added-Isolates name k lba i f e w.1 fs v dir sizes h inside
                (ap (λ (g : FileEntry). get_or g.name 0 0) entry
                  ∙ free_entry-unnamed 0 i fs.root.files f there)
                (stored-is_named name f.name lba k v room) refl refl above fits free kept)
      ]

  pub allocated-none :
      (name : List ℕ) (data_at : ℕ → ℕ) (size : ℕ) (fs : Fs D)
      → size + 511 < 2 ^ 32
      → bitmap_find_free_run (sectors_of size) fs.bitmap ≡ none
      → write_allocated dev name data_at size fs ≡ (false, fs)
  unfolding write_allocated
  allocated-none name data_at size fs small e =
      let whole : u32 (size + 511) ≡ size + 511 = omega arith in rw (whole, e, write_allocated)

  allocated-Isolates :
      (name : List ℕ) (data_at : ℕ → ℕ) (size : ℕ) (fs : Fs D)
      → IsName name
      → IsDirectory fs.root.files
      → length fs.bitmap ≡ 512
      → IsAllocated fs.root.files fs.bitmap
      → 0 < size
      → size + 511 < 2 ^ 32
      → Isolates dev ok name fs (write_allocated dev name data_at size fs).1
  allocated-Isolates name data_at size fs v dir sizes h pos small =
      let k = sectors_of size in
      elim (Option-cases (bitmap_find_free_run k fs.bitmap)) [
        | inl full ↦
            subst (λ (r : Bool × Fs D). Isolates dev ok name fs r.1)
              (sym (allocated-none name data_at size fs small full))
              (record { allocated = h; others = λ other max_size w differ. refl })
        | inr (lba, run) ↦
            let (m, at, found) =
              subst (AtLba (sector_use fs.bitmap) k) run
                (bitmap_find_free_run-Found k fs.bitmap sizes (omega arith)) in
            subst (λ (r : Bool × Fs D). Isolates dev ok name fs r.1)
              (sym (allocated-some dev name data_at size lba fs small run))
              (write_at-Isolates name data_at size k lba fs v dir sizes h (omega arith)
                (omega arith) (omega (arith, at)) (omega (arith, at, found.0))
                (λ l lo hi.
                  let place : l - 86 ≡ m + (l - lba) = omega (arith, at) in
                  get_or-take_zero 511 (l - 86) fs.bitmap
                    (ap (sector_use fs.bitmap) place ∙ found.1 (l - lba) (omega arith))))
      ]

  Isolates-trans :
      (name : List ℕ) (fs fs2 fs3 : Fs D)
      → Isolates dev ok name fs fs2
      → Isolates dev ok name fs2 fs3
      → Isolates dev ok name fs fs3
  Isolates-trans name fs fs2 fs3 a b = record {
    allocated = b.allocated;
    others = λ other max_size w differ.
        b.others other max_size w differ ∙ a.others other max_size w differ;
  }

  -- The disk has no errors and stores sectors of 512 bytes. The directory has 32 entries with names
  -- of 24 bytes, and the bitmap 512. Every sector of a file is in the data area, marked as used and
  -- no other file's. The new name has 1 to 23 characters, none 0, and at most one entry has it. The
  -- size is above 0, and `size + 511` is below 2^32. After `fs_write_file`, whether it succeeds or
  -- not, the sectors of the files are so again, and `fs_load_file` gives for every other name of 1
  -- to 23 characters what it gave before.
  pub fs_write_file-Isolates :
      (name : List ℕ) (data_at : ℕ → ℕ) (size : ℕ) (fs : Fs D)
      → IsName name
      → IsDirectory fs.root.files
      → length fs.bitmap ≡ 512
      → IsOnly name fs.root.files
      → IsAllocated fs.root.files fs.bitmap
      → 0 < size
      → size + 511 < 2 ^ 32
      → Isolates dev ok name fs (fs_write_file dev name data_at size fs).1
  fs_write_file-Isolates name data_at size fs v dir sizes only h pos small =
      let ready = cleared-IsReady dev ok name fs v dir sizes only in
      let emptied = cleared-Isolates dev ok name fs v dir.entries h in
      subst (λ (r : Bool × Fs D). Isolates dev ok name fs r.1)
        (sym (fs_write_file-cleared dev name data_at size fs v pos))
        (Isolates-trans name fs (cleared dev name fs)
          (write_allocated dev name data_at size (cleared dev name fs)).1 emptied
          (allocated-Isolates name data_at size (cleared dev name fs) v ready.directory ready.sizes
            emptied.allocated pos small))

  -- On such a disk, the same holds after `fs_delete_file`.
  pub fs_delete_file-Isolates :
      (name : List ℕ) (fs : Fs D)
      → IsName name
      → IsDirectory fs.root.files
      → IsAllocated fs.root.files fs.bitmap
      → Isolates dev ok name fs (fs_delete_file dev name fs).1
  fs_delete_file-Isolates name fs v dir h =
      subst (Isolates dev ok name fs) (sym (fs_delete_file-cleared dev name fs v))
        (cleared-Isolates dev ok name fs v dir.entries h)
