-- ===== src/Fs/Durable.antt =====
-- A write of drivers/fs.c that succeeds outlasts a restart.
use mx_os.Prelude.{
  ℕ, ◌+◌, ◌*◌, ◌^◌, ◌≤◌, ◌<◌, ◌≡◌, ◌∙◌, sym, ap, subst, Bool, true, false, inl, inr, List, arith,
  length, length-set, length-replicate, set, get_or-set, get_or-set_ne, dec_lt, ltb, ◌==◌,
  if◌then◌else◌, Option-cases,
}
use mathlib.Core.Bool.{true≢false}
use mx_os.Fs.{
  Disk, Fs, FileEntry, RootDirectory, fs_magic, copy_name, find_entry, free_entry, fs_root_save,
  put_entry, bitmap_mark, bitmap_persist, write_loop, write_at, write_allocated, fs_write_file,
  fs_init, bitmap_find_free_run, marked,
}
use mx_os.Fs.Cleared.{
  blank, cleared, exists-none, exists-some, cleared-IsReady, fs_write_file-cleared,
  length-bitmap_mark,
}
use mx_os.Fs.Data.{Wrote, write_loop-Wrote}
use mx_os.Fs.Encoded.{IsEntry, IsEncodable}
use mx_os.Fs.Free.{sector_use, AtLba, bitmap_find_free_run-Found}
use mx_os.Fs.Names.{IsName, length-copy_name}
use mx_os.Fs.Restart.{Restored, fs_init-fs_root_save}
use mx_os.Fs.Bytes.{replicate-AreBytes, set-AreBytes, marked-AreBytes, copy_name-AreBytes}
use mx_os.Fs.RoundTrip.{sectors_of, allocated-some}
use mx_os.Fs.Saved.{IsDirectory, with_entry, write_at-some, write_at-none}
use mx_os.Fs.Sectors.{Reliable, AreBytes, bitmap_mark-root, bitmap_mark-bitmap}
use mx_os.Fs.Table.{file_at, no_file, IsOnly, free_entry-some}
use mx_os.Fs.Written.{allocated-none}

set-IsEncodable :
    (r : RootDirectory) (i : ℕ) (e : FileEntry)
    → IsEncodable r
    → IsEntry e
    → IsEncodable (record r { files = set r.files i e })
set-IsEncodable r i e v entry = record {
  word = v.word;
  entries = length-set r.files i e ∙ v.entries;
  files = λ j lt. entry_at j lt;
  next = v.next;
  rest = v.rest;
  rest_bytes = v.rest_bytes;
}
  where
    pick : (g : FileEntry) (b : Bool) → IsEntry g → IsEntry (if b then e else g)
    pick g true old = entry
    pick g false old = old

    entry_at : (j : ℕ) → j < 32 → IsEntry (file_at (set r.files i e) j)
    entry_at j lt = elim (dec_lt i 32) [
      | yes inside ↦
          subst IsEntry (sym (get_or-set r.files i j e no_file (omega (arith, v.entries))))
            (pick (file_at r.files j) (j == i) (v.files j lt))
      | no past ↦
          let apart : i ≡ j → ⊥ = λ same. omega (arith, same) in
          subst IsEntry (sym (get_or-set_ne r.files i j e no_file apart)) (v.files j lt)
    ]

pub blank-IsEntry : IsEntry blank
blank-IsEntry = record {
  room = length-replicate {A = ℕ} 24 0;
  bytes = replicate-AreBytes 24 0 (omega arith);
  start = omega arith;
  size = omega arith;
}

module _ {D : Type 0} (dev : Disk D) (ok : Reliable dev) where
  -- The bitmap on the disk is the one in memory.
  bitmap_mark-sector :
      (start count used : ℕ) (fs : Fs D)
      → 86 ≤ start
      → used < 256
      → length fs.bitmap ≡ 512
      → AreBytes fs.bitmap
      → ok.sectors (bitmap_mark dev start count used fs).disk 85
        ≡ (bitmap_mark dev start count used fs).bitmap
  unfolding bitmap_mark bitmap_persist
  bitmap_mark-sector start count used fs above small sizes bytes =
      let high : ltb start 86 ≡ false = ground arith in
      let map = marked start count used fs.bitmap in
      let long : length map ≡ 512 =
        ap length (sym (bitmap_mark-bitmap dev ok start count used fs))
        ∙ length-bitmap_mark dev start count used fs
        ∙ sizes in
      rw high (
        ok.stored 85 map fs.disk (omega arith) long
          (marked-AreBytes start count used fs.bitmap small bytes))

  with_entry-restart :
      (lba k i : ℕ) (e : FileEntry) (d : D) (fs fs0 : Fs D)
      → 86 ≤ lba
      → IsEncodable fs.root
      → fs.root.magic ≡ fs_magic
      → IsEntry e
      → length fs.bitmap ≡ 512
      → AreBytes fs.bitmap
      → Restored dev ok
          (with_entry dev ok lba k i e d fs).1
          (fs_init dev (record fs0 { disk = (with_entry dev ok lba k i e d fs).1.disk }))
  unfolding with_entry put_entry
  with_entry-restart lba k i e d fs fs0 above v magic entry sizes bytes =
      let taken = bitmap_mark dev lba k 1 (record fs { disk = d }) in
      let root : taken.root ≡ fs.root = bitmap_mark-root dev ok lba k 1 (record fs { disk = d }) in
      let encodable : IsEncodable (record taken.root { files = set taken.root.files i e }) =
        set-IsEncodable taken.root i e (subst IsEncodable (sym root) v) entry in
      fs_init-fs_root_save dev ok (put_entry dev i e taken) fs0 encodable
        (ap (λ (r : RootDirectory). r.magic) root ∙ magic)
        (bitmap_mark-sector lba k 1 (record fs { disk = d }) above (omega arith) sizes bytes)

  cleared-IsEncodable :
      (name : List ℕ) (fs : Fs D)
      → IsName name
      → IsEncodable fs.root
      → fs.root.magic ≡ fs_magic
      → IsEncodable (cleared dev name fs).root × ((cleared dev name fs).root.magic ≡ fs_magic)
  unfolding fs_root_save put_entry
  cleared-IsEncodable name fs v h magic = elim (Option-cases (find_entry name 0 fs.root.files)) [
    | inl missing ↦ rw (exists-none dev name fs v missing) (h, magic)
    | inr ((i, f), there) ↦
        let back = bitmap_mark dev f.start_lba f.size_sect 0 fs in
        let root : back.root ≡ fs.root = bitmap_mark-root dev ok f.start_lba f.size_sect 0 fs in
        rw (exists-some dev name i f fs v there) (
          set-IsEncodable back.root i blank (subst IsEncodable (sym root) h) blank-IsEntry,
          ap (λ (r : RootDirectory). r.magic) root ∙ magic,
        )
  ]

  cleared-AreBytes :
      (name : List ℕ) (fs : Fs D)
      → IsName name
      → AreBytes fs.bitmap
      → AreBytes (cleared dev name fs).bitmap
  unfolding fs_root_save put_entry
  cleared-AreBytes name fs v bytes = elim (Option-cases (find_entry name 0 fs.root.files)) [
    | inl missing ↦ rw (exists-none dev name fs v missing) bytes
    | inr ((i, f), there) ↦ rw (exists-some dev name i f fs v there) (
        subst AreBytes (sym (bitmap_mark-bitmap dev ok f.start_lba f.size_sect 0 fs))
          (marked-AreBytes f.start_lba f.size_sect 0 fs.bitmap (omega arith) bytes))
  ]

  -- If it succeeded, a restart gives it back.
  abbrev Lasts : Bool × Fs D → Type 0
  Lasts r =
      (fs0 : Fs D) → r.0 ≡ true → Restored dev ok r.1 (fs_init dev (record fs0 { disk = r.1.disk }))

  write_at-Lasts :
      (name : List ℕ) (data_at : ℕ → ℕ) (size k lba : ℕ) (fs : Fs D)
      → IsDirectory fs.root.files
      → IsEncodable fs.root
      → fs.root.magic ≡ fs_magic
      → size ≤ 512 * k
      → 512 * k < size + 512
      → 86 ≤ lba
      → lba + k ≤ 597
      → AreBytes name
      → length fs.bitmap ≡ 512
      → AreBytes fs.bitmap
      → Lasts (write_at dev name data_at size k lba fs)
  unfolding Wrote
  write_at-Lasts name data_at size k lba fs dir v magic lo hi above fits named sizes bytes =
      let w = write_loop dev size lba size data_at fs.disk in
      let (done, holds, kept) =
        write_loop-Wrote dev ok size k lba size data_at fs.disk (omega arith) lo hi (omega arith) in
      elim (Option-cases (free_entry 0 fs.root.files)) [
        | inl full ↦
            subst Lasts (sym (write_at-none dev ok name data_at size k lba fs done full))
              (λ fs0 success. absurd (true≢false (sym success)))
        | inr ((i, f), there) ↦
            let (c, at, lt, same) = free_entry-some 0 i fs.root.files f there in
            let room : length f.name ≡ 24 =
              ap (λ (g : FileEntry). length g.name) (sym same)
              ∙ dir.room c (omega (arith, lt, dir.entries)) in
            let e : FileEntry = record {
              name = set (copy_name 23 0 name f.name) 23 0;
              start_lba = lba;
              size_sect = k;
            } in
            let entry : IsEntry e = record {
              room =
                  length-set (copy_name 23 0 name f.name) 23 0
                  ∙ length-copy_name 23 0 name f.name
                  ∙ room;
              bytes = set-AreBytes (copy_name 23 0 name f.name) 23 0 (omega arith) (
                  copy_name-AreBytes 23 0 name f.name named (
                    subst (λ (g : FileEntry). AreBytes g.name) same
                      (v.files c (omega (arith, lt, dir.entries))).bytes));
              start = omega arith;
              size = omega arith;
            } in
            subst Lasts (sym (write_at-some dev ok name data_at size k lba i f fs done there))
              (λ fs0 success.
                with_entry-restart lba k i e w.1 fs fs0 above v magic entry sizes bytes)
      ]

  allocated-Lasts :
      (name : List ℕ) (data_at : ℕ → ℕ) (size : ℕ) (fs : Fs D)
      → IsDirectory fs.root.files
      → length fs.bitmap ≡ 512
      → IsEncodable fs.root
      → fs.root.magic ≡ fs_magic
      → 0 < size
      → size + 511 < 2 ^ 32
      → AreBytes name
      → AreBytes fs.bitmap
      → Lasts (write_allocated dev name data_at size fs)
  allocated-Lasts name data_at size fs dir sizes v magic pos small named bytes =
      let k = sectors_of size in
      elim (Option-cases (bitmap_find_free_run k fs.bitmap)) [
        | inl full ↦
            subst Lasts (sym (allocated-none dev ok name data_at size fs small full))
              (λ fs0 success. absurd (true≢false (sym success)))
        | inr (lba, run) ↦
            let (m, at, found) =
              subst (AtLba (sector_use fs.bitmap) k) run
                (bitmap_find_free_run-Found k fs.bitmap sizes (omega arith)) in
            subst Lasts (sym (allocated-some dev name data_at size lba fs small run)) (
              write_at-Lasts name data_at size k lba fs dir v magic (omega arith) (omega arith)
                (omega (arith, at)) (omega (arith, at, found.0)) named sizes bytes)
      ]

  -- The disk has no errors and stores sectors of 512 bytes. The directory has 32 entries, its magic
  -- number, 32-bit numbers, names of 24 bytes and 24 reserved bytes; the bitmap has 512 bytes. The
  -- new name is valid, of bytes, and at most one entry has it. The size is above 0, and `size +
  -- 511` is below 2^32. If `fs_write_file` then returns 1, `fs_init` after a restart, whatever was
  -- in memory, gives the directory and the bitmap that the write left, and leaves what all sectors
  -- hold.
  pub fs_write_file-Lasts :
      (name : List ℕ) (data_at : ℕ → ℕ) (size : ℕ) (fs fs0 : Fs D)
      → IsName name
      → IsDirectory fs.root.files
      → length fs.bitmap ≡ 512
      → IsOnly name fs.root.files
      → IsEncodable fs.root
      → fs.root.magic ≡ fs_magic
      → 0 < size
      → size + 511 < 2 ^ 32
      → AreBytes name
      → AreBytes fs.bitmap
      → (fs_write_file dev name data_at size fs).0 ≡ true
      → Restored dev ok
          (fs_write_file dev name data_at size fs).1
          (fs_init dev (record fs0 { disk = (fs_write_file dev name data_at size fs).1.disk }))
  fs_write_file-Lasts name data_at size fs fs0 n dir sizes only v magic pos small named bytes
        success =
      let ready = cleared-IsReady dev ok name fs n dir sizes only in
      let (encodable, still_magic) = cleared-IsEncodable name fs n v magic in
      subst Lasts (sym (fs_write_file-cleared dev name data_at size fs n pos))
        (allocated-Lasts name data_at size (cleared dev name fs) ready.directory ready.sizes
          encodable still_magic pos small named (cleared-AreBytes name fs n bytes))
        fs0 success
