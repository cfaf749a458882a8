-- ===== src/Fs.antt =====
-- The file system of drivers/fs.c, above the sectors of drivers/ata.c. A name is the list of the bytes
-- before its terminator; a null pointer takes the branches of an empty name. The messages on the
-- screen are left out, so the verbose and the silent variants are one function here.
pub mod Bounds
pub mod Bytes
pub mod Cleared
pub mod Data
pub mod Durable
pub mod Encoded
pub mod Free
pub mod Names
pub mod Output
pub mod Owned
pub mod Others
pub mod Isolated
pub mod Written
pub mod Resave
pub mod Restart
pub mod RoundTrip
pub mod Saved
pub mod Sectors
pub mod Table
pub mod Tests
use mx_os.Prelude.{
  ℕ, zero, suc, ◌+◌, ◌-◌, ◌*◌, ◌/◌, ◌%◌, ◌^◌, Bool, true, false, ◌&&◌, ◌||◌, Option, none, some,
  List, [], ◌∷◌, ◌++◌, set, get_or, take, drop, replicate, map, ltb, leb, ◌==◌, if◌then◌else◌,
  sub32, u32, min,
}

abbrev pub fs_root_lba : ℕ
fs_root_lba = 81

abbrev pub fs_max_files : ℕ
fs_max_files = 32

abbrev pub fs_bitmap_lba : ℕ
fs_bitmap_lba = 85

abbrev pub fs_data_lba : ℕ
fs_data_lba = 86

-- `FS_DATA_SECTORS - 1`
abbrev pub data_sectors : ℕ
data_sectors = 511

-- 0x3153464D
abbrev pub fs_magic : ℕ
fs_magic = 827541069

pub record FileEntry : Type 0 where
  pub name : List ℕ
  pub start_lba : ℕ
  pub size_sect : ℕ

pub record RootDirectory : Type 0 where
  pub magic : ℕ
  pub files : List FileEntry
  pub next_free_lba : ℕ
  pub reserved : List ℕ

-- The driver below: `ata_read_sector` and `ata_write_sector`, on the state of the disk.
pub record Disk (D : Type 0) : Type 0 where
  pub read_sector : ℕ → D → Option (List ℕ) × D
  pub write_sector : ℕ → List ℕ → D → Bool × D

pub record Fs (D : Type 0) : Type 0 where
  pub root : RootDirectory
  pub bitmap : List ℕ
  pub disk : D

-- `m_strcmp(s1, s2) == 0`
pub m_strcmp : List ℕ → List ℕ → Bool
m_strcmp [] s2 = get_or s2 0 0 == 0
m_strcmp (c ∷ s1) s2 =
    let rest = m_strcmp s1 (drop 1 s2) in
    if c == 0 then get_or s2 0 0 == 0 else if c == get_or s2 0 0 then rest else false

-- The loop of `valid_name` from index `i` on, for `n` more indices.
pub valid_from : ℕ → ℕ → List ℕ → Bool
valid_from zero i name = false
valid_from (suc n) i name =
    let rest = valid_from n (i + 1) name in if get_or name i 0 == 0 then ltb 0 i else rest

pub valid_name : List ℕ → Bool
valid_name name = valid_from 24 0 name

-- The bytes of a `uint32_t` in memory.
pub le32 : ℕ → List ℕ
le32 n = n % 256 ∷ n / 256 % 256 ∷ n / 65536 % 256 ∷ n / 16777216 % 256 ∷ []

pub of_le32 : List ℕ → ℕ
of_le32 b = get_or b 0 0 + 256 * get_or b 1 0 + 65536 * get_or b 2 0 + 16777216 * get_or b 3 0

pub raw_entries : List FileEntry → List ℕ
raw_entries [] = []
raw_entries (f ∷ fs) = f.name ++ le32 f.start_lba ++ le32 f.size_sect ++ raw_entries fs

-- `root` as the bytes of its packed structure.
pub raw : RootDirectory → List ℕ
raw r = le32 r.magic ++ raw_entries r.files ++ le32 r.next_free_lba ++ r.reserved

pub entries_of : ℕ → List ℕ → List FileEntry
entries_of zero b = []
entries_of (suc n) b =
    record { name = take 24 b; start_lba = of_le32 (drop 24 b); size_sect = of_le32 (drop 28 b) }
    ∷ entries_of n (drop 32 b)

pub root_of : List ℕ → RootDirectory
root_of b = record {
  magic = of_le32 b;
  files = entries_of fs_max_files (drop 4 b);
  next_free_lba = of_le32 (drop 1028 b);
  reserved = take 24 (drop 1032 b);
}

-- The loop of `bitmap_find_free_run`, from sector `i` on.
pub find_run : ℕ → ℕ → ℕ → ℕ → List ℕ → Option ℕ
find_run count i run_start run_len [] = none
find_run count i run_start run_len (b ∷ bs) =
    let start = if run_len == 0 then i else run_start in
    let used = find_run count (i + 1) run_start 0 bs in
    let free = find_run count (i + 1) start (run_len + 1) bs in
    if b == 0 then if leb count (run_len + 1) then some start else free else used

-- `none` is the result 0.
pub bitmap_find_free_run : ℕ → List ℕ → Option ℕ
bitmap_find_free_run count bitmap = elim (find_run count 0 0 0 (take data_sectors bitmap)) [
  | some run_start ↦ some (fs_data_lba + run_start)
  | none ↦ none
]

-- The loop of `bitmap_mark` from round `i` on; `n` bounds its rounds.
pub mark_from : ℕ → ℕ → ℕ → ℕ → ℕ → List ℕ → List ℕ
mark_from zero i idx count used bitmap = bitmap
mark_from (suc n) i idx count used bitmap =
    let rest = mark_from n (i + 1) idx count used (set bitmap (idx + i) used) in
    if ltb i count && ltb (idx + i) data_sectors then rest else bitmap

pub marked : ℕ → ℕ → ℕ → List ℕ → List ℕ
marked start_lba count used bitmap =
    if ltb start_lba fs_data_lba
    then bitmap
    else mark_from data_sectors 0 (start_lba - fs_data_lba) count used bitmap

-- The first entry with a valid name that is equal to `name`, and its index, from index `i` on.
pub find_entry : List ℕ → ℕ → List FileEntry → Option (ℕ × FileEntry)
find_entry name i [] = none
find_entry name i (f ∷ fs) =
    let rest = find_entry name (i + 1) fs in
    if valid_name f.name && m_strcmp f.name name then some (i, f) else rest

-- The first entry whose name is empty, from index `i` on.
pub free_entry : ℕ → List FileEntry → Option (ℕ × FileEntry)
free_entry i [] = none
free_entry i (f ∷ fs) =
    let rest = free_entry (i + 1) fs in if get_or f.name 0 0 == 0 then some (i, f) else rest

-- The loop of `fs_add_entry` that copies a name, from index `j` on for `n` more indices. The bytes
-- behind the terminator stay.
pub copy_name : ℕ → ℕ → List ℕ → List ℕ → List ℕ
copy_name zero j name dst = dst
copy_name (suc n) j name dst =
    let rest = copy_name n (j + 1) name (set dst j (get_or name j 0)) in
    if get_or name j 0 == 0 then set dst j 0 else rest

-- The bytes from offset `i` on: the first `chunk` of `data`, and zeros up to `n`.
pub padded : ℕ → ℕ → ℕ → (ℕ → ℕ) → List ℕ
padded zero i chunk data_at = []
padded (suc n) i chunk data_at =
    (if ltb i chunk then data_at i else 0) ∷ padded n (i + 1) chunk data_at

module _ {D : Type 0} (dev : Disk D) where
  -- Writes the sectors of `bytes` from LBA `lba` on, `n` of them, and stops at the first failure.
  pub save_from : ℕ → ℕ → List ℕ → D → Bool × D
  save_from zero lba bytes d = (true, d)
  save_from (suc n) lba bytes d =
      let w = dev.write_sector lba (padded 512 0 512 (λ i. get_or bytes i 0)) d in
      let rest = save_from n (lba + 1) (drop 512 bytes) w.1 in if w.0 then rest else (false, w.1)

  -- `FS_ROOT_SECTORS` is 3: the structure has 1056 bytes.
  pub fs_root_save : Fs D → Bool × Fs D
  fs_root_save fs =
      let w = save_from 3 fs_root_lba (raw fs.root) fs.disk in (w.0, record fs { disk = w.1 })

  pub load_from : ℕ → ℕ → D → Option (List ℕ) × D
  load_from zero lba d = (some [], d)
  load_from (suc n) lba d =
      let r = dev.read_sector lba d in
      let rest = load_from n (lba + 1) r.1 in
      elim r.0 [
        | none ↦ (none, r.1)
        | some b ↦ elim rest.0 [
          | none ↦ (none, rest.1)
          | some bs ↦ (some (take 512 b ++ bs), rest.1)
        ]
      ]

  -- `none` is the result 0; its only caller then discards what `root` holds.
  pub fs_root_load : Fs D → Option RootDirectory × Fs D
  fs_root_load fs =
      let r = load_from 3 fs_root_lba fs.disk in
      let after = record fs { disk = r.1 } in
      elim r.0 [ none ↦ (none, after) | some b ↦ (some (root_of (take 1056 b)), after) ]

  pub bitmap_persist : Fs D → Fs D
  bitmap_persist fs = record fs { disk = (dev.write_sector fs_bitmap_lba fs.bitmap fs.disk).1 }

  -- An LBA below the data has no effect, and the bitmap is not written either.
  pub bitmap_mark : ℕ → ℕ → ℕ → Fs D → Fs D
  bitmap_mark start_lba count used fs =
      if ltb start_lba fs_data_lba
      then fs
      else bitmap_persist (record fs { bitmap = marked start_lba count used fs.bitmap })

  -- The first branch of `fs_init`: an empty file system.
  pub format : Fs D → Fs D
  format fs =
      (fs_root_save (
        bitmap_persist (record fs {
          root = record {
            magic = fs_magic;
            files =
                replicate fs_max_files
                  (record { name = replicate 24 0; start_lba = 0; size_sect = 0 });
            next_free_lba = fs_data_lba;
            reserved = replicate 24 0;
          };
          bitmap = replicate 512 0;
        }))).1

  pub load_bitmap : Fs D → Fs D
  load_bitmap fs =
      let r = dev.read_sector fs_bitmap_lba fs.disk in
      elim r.0 [
        | none ↦ record fs { bitmap = replicate 512 0; disk = r.1 }
        | some b ↦ record fs { bitmap = b; disk = r.1 }
      ]

  pub fs_init : Fs D → Fs D
  fs_init fs =
      let r = fs_root_load fs in
      elim r.0 [
        | none ↦ format r.1
        | some root ↦
            if root.magic == fs_magic then load_bitmap (record r.1 { root = root }) else format r.1
      ]

  pub fs_file_exists : List ℕ → Fs D → Bool
  fs_file_exists name fs =
      if get_or name 0 0 == 0
      then false
      else elim (find_entry name 0 fs.root.files) [ none ↦ false | some f ↦ true ]

  -- The test on an entry's metadata in `fs_load_file` and `fs_read_file`.
  pub bad_entry : FileEntry → Bool
  bad_entry f =
      ltb f.start_lba fs_data_lba
      || f.size_sect == 0
      || ltb 1048576 f.size_sect
      || ltb (2 ^ 32 - 1 - f.size_sect) f.start_lba

  -- The loop of `fs_load_file`: whether every read was done, and the bytes written to `dest`. The
  -- bytes that remain bound its rounds.
  pub load_loop : ℕ → ℕ → ℕ → D → (Bool × List ℕ) × D
  load_loop zero lba remaining d = ((true, []), d)
  load_loop (suc n) lba remaining d =
      let r = dev.read_sector lba d in
      let chunk = min 512 remaining in
      let rest = load_loop n (lba + 1) (remaining - chunk) r.1 in
      if remaining == 0 then ((true, []), d) else elim r.0 [
        | none ↦ ((false, []), r.1)
        | some b ↦ ((rest.0.0, take chunk b ++ rest.0.1), rest.1)
      ]

  pub load_entry : FileEntry → ℕ → Fs D → (Bool × List ℕ) × Fs D
  load_entry f max_size fs =
      let total_bytes = u32 (f.size_sect * 512) in
      if bad_entry f
      then ((false, []), fs)
      else if ltb max_size total_bytes
      then ((false, []), fs)
      else let r = load_loop total_bytes f.start_lba total_bytes fs.disk in
        (r.0, record fs { disk = r.1 })

  -- The result with the bytes written to `dest`, which is not null; on success their number is
  -- `*out_size`.
  pub fs_load_file : List ℕ → ℕ → Fs D → (Bool × List ℕ) × Fs D
  fs_load_file name max_size fs =
      if get_or name 0 0 == 0 then ((false, []), fs) else elim (find_entry name 0 fs.root.files) [
        | none ↦ ((false, []), fs)
        | some f ↦ load_entry f.1 max_size fs
      ]

  pub put_entry : ℕ → FileEntry → Fs D → Fs D
  put_entry i f fs = record fs { root = record fs.root { files = set fs.root.files i f } }

  pub fs_add_entry : List ℕ → ℕ → ℕ → Fs D → Bool × Fs D
  fs_add_entry name start_lba size_sect fs = elim (free_entry 0 fs.root.files) [
    | none ↦ (false, fs)
    | some f ↦ fs_root_save (
        put_entry f.0
          (record {
            name = set (copy_name 23 0 name f.1.name) 23 0;
            start_lba = start_lba;
            size_sect = size_sect;
          })
          fs)
  ]

  pub fs_create_file : List ℕ → ℕ → ℕ → Fs D → Fs D
  fs_create_file name start_lba size_sect fs =
      if get_or name 0 0 == 0 || ltb start_lba fs_data_lba || size_sect == 0
      then fs
      else (fs_add_entry name start_lba size_sect fs).1

  pub fs_delete_file : List ℕ → Fs D → Bool × Fs D
  fs_delete_file name fs =
      if get_or name 0 0 == 0 then (false, fs) else elim (find_entry name 0 fs.root.files) [
        | none ↦ (false, fs)
        | some f ↦ fs_root_save (
            put_entry f.0 (record { name = replicate 24 0; start_lba = 0; size_sect = 0 })
              (bitmap_mark f.1.start_lba f.1.size_sect 0 fs))
      ]

  -- The loop of `fs_write_file_impl`. The bytes that remain bound its rounds.
  pub write_loop : ℕ → ℕ → ℕ → (ℕ → ℕ) → D → Bool × D
  write_loop zero lba remaining data_at d = (true, d)
  write_loop (suc n) lba remaining data_at d =
      let chunk = min 512 remaining in
      let w = dev.write_sector lba (padded 512 0 chunk data_at) d in
      let rest = write_loop n (lba + 1) (remaining - chunk) (λ i. data_at (chunk + i)) w.1 in
      if remaining == 0 then (true, d) else if w.0 then rest else (false, w.1)

  -- `fs_write_file_impl` behind the allocation.
  pub write_at : List ℕ → (ℕ → ℕ) → ℕ → ℕ → ℕ → Fs D → Bool × Fs D
  write_at name data_at size_bytes size_sect start_lba fs =
      let w = write_loop size_bytes start_lba size_bytes data_at fs.disk in
      let added =
        fs_add_entry name start_lba size_sect
          (bitmap_mark start_lba size_sect 1 (record fs { disk = w.1 })) in
      if w.0
      then if added.0 then added else (false, bitmap_mark start_lba size_sect 0 added.1)
      else (false, record fs { disk = w.1 })

  pub write_allocated : List ℕ → (ℕ → ℕ) → ℕ → Fs D → Bool × Fs D
  write_allocated name data_at size_bytes fs =
      let size_sect = u32 (size_bytes + 511) / 512 in
      elim (bitmap_find_free_run size_sect fs.bitmap) [
        | none ↦ (false, fs)
        | some start_lba ↦ write_at name data_at size_bytes size_sect start_lba fs
      ]

  -- `fs_write_file_impl`; `data` is not null, and gives the byte at each offset.
  pub fs_write_file : List ℕ → (ℕ → ℕ) → ℕ → Fs D → Bool × Fs D
  fs_write_file name data_at size_bytes fs =
      if get_or name 0 0 == 0 || size_bytes == 0
      then (false, fs)
      else if fs_file_exists name fs
      then write_allocated name data_at size_bytes (fs_delete_file name fs).1
      else write_allocated name data_at size_bytes fs
