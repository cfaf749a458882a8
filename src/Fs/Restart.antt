-- ===== src/Fs/Restart.antt =====
-- What `fs_init` of drivers/fs.c loads after a restart is what `fs_root_save` left on the disk.
use mx_os.Prelude.{
  ℕ, zero, suc, ◌+◌, ◌-◌, ◌*◌, ◌≤◌, ◌<◌, ◌≡◌, refl, ◌∙◌, sym, ap, ap₂, true, inl, inr, some, List,
  [], ◌∷◌, ◌++◌, arith, length, length-append, get_or, take, ◌^◌, length-take, drop, ltb, ◌==◌,
  dec_lt,
}
use mx_os.Fs.{
  Disk, Fs, RootDirectory, fs_magic, padded, raw, root_of, save_from, load_from, fs_root_save,
  fs_root_load, load_bitmap, fs_init,
}
use mx_os.Fs.Bytes.{drop-AreBytes}
use mx_os.Fs.Data.{length-padded, padded-AreBytes, take-all}
use mx_os.Fs.Encoded.{IsEncodable, length-raw, raw-AreBytes, root_of-raw}
use mx_os.Fs.Resave.{get_or-padded}
use mx_os.Fs.Sectors.{Reliable, AreBytes, save_from-kept}

get_or-append_left :
    (xs ys : List ℕ) (i : ℕ) → i < length xs → get_or (xs ++ ys) i 0 ≡ get_or xs i 0
get_or-append_left [] ys i h = absurd (omega arith)
get_or-append_left (x ∷ xs) ys zero h = refl
get_or-append_left (x ∷ xs) ys (suc i) h = get_or-append_left xs ys i (omega arith)

get_or-append_right : (xs ys : List ℕ) (i : ℕ) → get_or (xs ++ ys) (length xs + i) 0 ≡ get_or ys i 0
get_or-append_right [] ys i = ap (λ n. get_or ys n 0) (omega arith)
get_or-append_right (x ∷ xs) ys i =
    let next : suc (length xs) + i ≡ suc (length xs + i) = omega arith in
    ap (λ n. get_or (x ∷ (xs ++ ys)) n 0) next ∙ get_or-append_right xs ys i

pub get_or-drop : (n i : ℕ) (xs : List ℕ) → get_or (drop n xs) i 0 ≡ get_or xs (n + i) 0
get_or-drop zero i xs = ap (λ n. get_or xs n 0) (omega arith)
get_or-drop (suc n) i [] = refl
get_or-drop (suc n) i (x ∷ xs) =
    let next : suc n + i ≡ suc (n + i) = omega arith in
    get_or-drop n i xs ∙ ap (λ k. get_or (x ∷ xs) k 0) (sym next)

get_or-take : (n i : ℕ) (xs : List ℕ) → i < n → get_or (take n xs) i 0 ≡ get_or xs i 0
get_or-take zero i xs h = absurd (omega arith)
get_or-take (suc n) i [] h = refl
get_or-take (suc n) zero (x ∷ xs) h = refl
get_or-take (suc n) (suc i) (x ∷ xs) h = get_or-take n i xs (omega arith)

list_ext :
    (xs ys : List ℕ)
    → length xs ≡ length ys
    → ((i : ℕ) → i < length xs → get_or xs i 0 ≡ get_or ys i 0)
    → xs ≡ ys
list_ext [] [] e h = refl
list_ext [] (y ∷ ys) e h = absurd (omega arith)
list_ext (x ∷ xs) [] e h = absurd (omega arith)
list_ext (x ∷ xs) (y ∷ ys) e h =
    ap₂ ◌∷◌ (h 0 (omega arith)) (list_ext xs ys (omega arith) (λ i lt. h (suc i) (omega arith)))

-- A sector with the first bytes of `bytes`, and zeros behind them.
abbrev sector : List ℕ → List ℕ
sector bytes = padded 512 0 512 (λ i. get_or bytes i 0)

-- What `n` sectors hold.
in_sectors : ℕ → List ℕ → List ℕ
in_sectors zero bytes = []
in_sectors (suc n) bytes = sector bytes ++ in_sectors n (drop 512 bytes)

length-in_sectors : (n : ℕ) (bytes : List ℕ) → length (in_sectors n bytes) ≡ 512 * n
unfolding in_sectors
length-in_sectors zero bytes = omega arith
length-in_sectors (suc n) bytes =
    let first = length-padded 512 0 512 (λ i. get_or bytes i 0) in
    length-append (sector bytes) (in_sectors n (drop 512 bytes))
    ∙ omega (arith, first, length-in_sectors n (drop 512 bytes))

get_or-in_sectors :
    (n i : ℕ) (bytes : List ℕ) → i < 512 * n → get_or (in_sectors n bytes) i 0 ≡ get_or bytes i 0
unfolding in_sectors
get_or-in_sectors zero i bytes h = absurd (omega arith)
get_or-in_sectors (suc n) i bytes h =
    let first = length-padded 512 0 512 (λ j. get_or bytes j 0) in
    let others = in_sectors n (drop 512 bytes) in
    elim (dec_lt i 512) [
      | yes below ↦
          let inside : ltb (0 + i) 512 ≡ true = ground arith in
          let at : 0 + i ≡ i = omega arith in
          get_or-append_left (sector bytes) others i (omega (arith, first))
          ∙ get_or-padded 512 0 512 (λ j. get_or bytes j 0) i below
          ∙ rw inside (ap (λ p. get_or bytes p 0) at)
      | no above ↦
          let place : i ≡ length (sector bytes) + (i - 512) = omega (arith, first) in
          let back : 512 + (i - 512) ≡ i = omega arith in
          ap (λ p. get_or (sector bytes ++ others) p 0) place
          ∙ get_or-append_right (sector bytes) others (i - 512)
          ∙ get_or-in_sectors n (i - 512) (drop 512 bytes) (omega arith)
          ∙ get_or-drop 512 (i - 512) bytes
          ∙ ap (λ p. get_or bytes p 0) back
    ]

take-in_sectors :
    (n m : ℕ) (bytes : List ℕ)
    → length bytes ≡ m
    → m ≤ 512 * n
    → take m (in_sectors n bytes) ≡ bytes
take-in_sectors n m bytes size fits =
    let long = length-in_sectors n bytes in
    let cut = length-take m (in_sectors n bytes) in
    list_ext (take m (in_sectors n bytes)) bytes (omega (arith, size, long, cut)) (λ i lt.
      get_or-take m i (in_sectors n bytes) (omega (arith, cut))
      ∙ get_or-in_sectors n i bytes (omega (arith, cut)))

module _ {D : Type 0} (dev : Disk D) (ok : Reliable dev) where
  -- The sectors from `lba` on, `n` of them, hold the bytes.
  HoldsBytes : ℕ → ℕ → List ℕ → D → Type 0
  HoldsBytes zero lba bytes d = Unit
  HoldsBytes (suc n) lba bytes d =
      (ok.sectors d lba ≡ sector bytes) × HoldsBytes n (lba + 1) (drop 512 bytes) d

  HoldsBytes-same :
      (n lba : ℕ) (bytes : List ℕ) (d d2 : D)
      → ((l : ℕ) → lba ≤ l → l < lba + n → ok.sectors d2 l ≡ ok.sectors d l)
      → HoldsBytes n lba bytes d
      → HoldsBytes n lba bytes d2
  unfolding HoldsBytes
  HoldsBytes-same zero lba bytes d d2 same h = tt
  HoldsBytes-same (suc n) lba bytes d d2 same (here, h) = (
    same lba (omega arith) (omega arith) ∙ here,
    HoldsBytes-same n (lba + 1) (drop 512 bytes) d d2
        (λ l lo hi. same l (omega arith) (omega arith)) h,
  )

  save_from-HoldsBytes :
      (n lba : ℕ) (bytes : List ℕ) (d : D)
      → lba + n ≤ 2 ^ 28
      → AreBytes bytes
      → HoldsBytes n lba bytes (save_from dev n lba bytes d).1
  unfolding HoldsBytes save_from
  save_from-HoldsBytes zero lba bytes d low small = tt
  save_from-HoldsBytes (suc n) lba bytes d low small =
      let w = (dev.write_sector lba (sector bytes) d).1 in
      rw (ok.written lba (sector bytes) d) (
        (save_from-kept dev ok n (lba + 1) (drop 512 bytes) w lba (omega arith)
              (inl (omega arith))).1
            ∙ ok.stored lba (sector bytes) d (omega arith)
                (length-padded 512 0 512 (λ i. get_or bytes i 0))
                (padded-AreBytes 512 0 512 (λ i. get_or bytes i 0) (λ j below. small j)),
        save_from-HoldsBytes n (lba + 1) (drop 512 bytes) w (omega arith)
            (drop-AreBytes 512 bytes small),
      )

  -- The loop reads what the sectors hold, and leaves them.
  load_from-HoldsBytes :
      (n lba : ℕ) (bytes : List ℕ) (d : D)
      → lba + n ≤ 2 ^ 28
      → HoldsBytes n lba bytes d
      → ((load_from dev n lba d).0 ≡ some (in_sectors n bytes))
        × ((l : ℕ) → ok.sectors (load_from dev n lba d).1 l ≡ ok.sectors d l)
  unfolding HoldsBytes load_from in_sectors
  load_from-HoldsBytes zero lba bytes d low h = (refl, λ l. refl)
  load_from-HoldsBytes (suc n) lba bytes d low (here, h) =
      let d2 = (dev.read_sector lba d).1 in
      let (rest, same) = load_from-HoldsBytes n (lba + 1) (drop 512 bytes) d2 (omega arith) (
        HoldsBytes-same n (lba + 1) (drop 512 bytes) d d2
          (λ l lo hi. ok.unchanged lba d l (omega arith)) h) in
      let whole = take-all 512 (sector bytes) (length-padded 512 0 512 (λ i. get_or bytes i 0)) in
      let first : take 512 (ok.sectors d lba) ≡ sector bytes = ap (take 512) here ∙ whole in
      rw (ok.reads lba d (omega arith), load_from)
        (rw (rest, load_from)
          (
            ap (λ (b : List ℕ). some (b ++ in_sectors n (drop 512 bytes))) first,
            λ l. same l ∙ ok.unchanged lba d l (omega arith),
          ))

  -- Loaded from the disk: the directory and the bitmap of `fs`, on a disk with the same sectors.
  abbrev pub Restored : Fs D → Fs D → Type 0
  Restored fs fs2 =
      (fs2.root ≡ fs.root)
      × (fs2.bitmap ≡ fs.bitmap)
      × ((l : ℕ) → ok.sectors fs2.disk l ≡ ok.sectors fs.disk l)

  load_root :
      (r : RootDirectory) (fs : Fs D)
      → IsEncodable r
      → HoldsBytes 3 81 (raw r) fs.disk
      → ((fs_root_load dev fs).0 ≡ some r)
        × ((l : ℕ) → ok.sectors (fs_root_load dev fs).1.disk l ≡ ok.sectors fs.disk l)
  unfolding fs_root_load
  load_root r fs v h =
      let (bytes, same) = load_from-HoldsBytes 3 81 (raw r) fs.disk (omega arith) h in
      let decoded : root_of (take 1056 (in_sectors 3 (raw r))) ≡ r =
        ap root_of (take-in_sectors 3 1056 (raw r) (length-raw r v) (omega arith))
        ∙ root_of-raw r v in
      rw (bytes, fs_root_load) (ap (λ (x : RootDirectory). some x) decoded, same)

  load_bitmap-Restored :
      (bitmap : List ℕ) (fs : Fs D)
      → ok.sectors fs.disk 85 ≡ bitmap
      → ((load_bitmap dev fs).root ≡ fs.root)
        × ((load_bitmap dev fs).bitmap ≡ bitmap)
        × ((l : ℕ) → ok.sectors (load_bitmap dev fs).disk l ≡ ok.sectors fs.disk l)
  unfolding load_bitmap
  load_bitmap-Restored bitmap fs same =
      rw (ok.reads 85 fs.disk (omega arith), load_bitmap)
        (refl, same, λ l. ok.unchanged 85 fs.disk l (omega arith))

  -- On a disk without errors whose bitmap sector is up to date, a directory whose numbers have 32
  -- bits, whose names have 24 bytes each, and which has its magic number, is saved. After a
  -- restart, whatever was in memory, `fs_init` gives the same directory and the same bitmap, and
  -- leaves all sectors as they are.
  pub fs_init-fs_root_save :
      (fs fs0 : Fs D)
      → IsEncodable fs.root
      → fs.root.magic ≡ fs_magic
      → ok.sectors fs.disk 85 ≡ fs.bitmap
      → Restored
          (fs_root_save dev fs).1
          (fs_init dev (record fs0 { disk = (fs_root_save dev fs).1.disk }))
  unfolding fs_init fs_root_save
  fs_init-fs_root_save fs fs0 v magic bitmap =
      let disk = (save_from dev 3 81 (raw fs.root) fs.disk).1 in
      let started : Fs D = record fs0 { disk = disk } in
      let (root, same) =
        load_root fs.root started v (
          save_from-HoldsBytes 3 81 (raw fs.root) fs.disk (omega arith) (raw-AreBytes fs.root v)) in
      let is_magic : (fs.root.magic == fs_magic) ≡ true = ground arith in
      let kept : ok.sectors disk 85 ≡ fs.bitmap =
        (save_from-kept dev ok 3 81 (raw fs.root) fs.disk 85 (omega arith) (inr (omega arith))).1
        ∙ bitmap in
      let loaded : Fs D = record (fs_root_load dev started).1 { root = fs.root } in
      let (r, b, s) = load_bitmap-Restored fs.bitmap loaded (same 85 ∙ kept) in
      rw (root, fs_init) (rw (is_magic, fs_init) (r, b, λ l. s l ∙ same l))
