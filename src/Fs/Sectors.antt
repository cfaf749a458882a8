-- ===== src/Fs/Sectors.antt =====
-- A disk that works, and what the operations of drivers/fs.c leave on it.
use mx_os.Prelude.{
  ℕ, zero, suc, ◌+◌, ◌≤◌, ◌<◌, ◌≡◌, refl, ◌∙◌, true, some, List, arith, length, ◌^◌, ◌⊎◌, inl, inr,
  get_or, drop, ltb, Bool-cases,
}
use mx_os.Fs.{Disk, Fs, raw, padded, save_from, fs_root_save, bitmap_persist, bitmap_mark, marked}

-- Each element is a byte.
abbrev pub AreBytes : List ℕ → Type 0
AreBytes b = (i : ℕ) → get_or b i 0 < 256

-- A disk without errors, with addresses of 28 bits: `sectors` is what it holds. A write is done, leaves
-- the other sectors, and stores 512 bytes as they are; a read gives what the sector holds and leaves
-- all sectors.
pub record Reliable {D : Type 0} (dev : Disk D) : Type 0 where
  pub sectors : D → ℕ → List ℕ
  pub written : (lba : ℕ) (b : List ℕ) (d : D) → (dev.write_sector lba b d).0 ≡ true
  pub kept :
      (lba : ℕ) (b : List ℕ) (d : D) (l : ℕ)
      → lba < 2 ^ 28
      → (l < lba) ⊎ (lba < l)
      → sectors (dev.write_sector lba b d).1 l ≡ sectors d l
  pub stored :
      (lba : ℕ) (b : List ℕ) (d : D)
      → lba < 2 ^ 28
      → length b ≡ 512
      → AreBytes b
      → sectors (dev.write_sector lba b d).1 lba ≡ b
  pub reads : (lba : ℕ) (d : D) → lba < 2 ^ 28 → (dev.read_sector lba d).0 ≡ some (sectors d lba)
  pub unchanged :
      (lba : ℕ) (d : D) (l : ℕ) → lba < 2 ^ 28 → sectors (dev.read_sector lba d).1 l ≡ sectors d l

module _ {D : Type 0} (dev : Disk D) (ok : Reliable dev) where
  pub save_from-kept :
      (n lba : ℕ) (bytes : List ℕ) (d : D) (l : ℕ)
      → lba + n ≤ 2 ^ 28
      → (l < lba) ⊎ (lba + n ≤ l)
      → ((save_from dev n lba bytes d).0 ≡ true)
        × (ok.sectors (save_from dev n lba bytes d).1 l ≡ ok.sectors d l)
  unfolding save_from
  save_from-kept zero lba bytes d l low apart = (refl, refl)
  save_from-kept (suc n) lba bytes d l low apart =
      let first = padded 512 0 512 (λ i. get_or bytes i 0) in
      let rest =
        save_from-kept n (lba + 1) (drop 512 bytes) (dev.write_sector lba first d).1 l (omega arith)
          (omega arith) in
      rw (ok.written lba first d)
        (rest.0, rest.1 ∙ ok.kept lba first d l (omega arith) (omega arith))

  -- Saving the directory is done, and keeps all sectors but its own.
  pub fs_root_save-kept :
      (fs : Fs D) (l : ℕ)
      → 84 ≤ l
      → ((fs_root_save dev fs).0 ≡ true)
        × (ok.sectors (fs_root_save dev fs).1.disk l ≡ ok.sectors fs.disk l)
  unfolding fs_root_save
  fs_root_save-kept fs l h =
      save_from-kept 3 81 (raw fs.root) fs.disk l (omega arith) (inr (omega arith))

  -- Marking writes one sector at most, which is before the data.
  pub bitmap_mark-kept :
      (start count used : ℕ) (fs : Fs D) (l : ℕ)
      → 86 ≤ l
      → ok.sectors (bitmap_mark dev start count used fs).disk l ≡ ok.sectors fs.disk l
  unfolding bitmap_mark bitmap_persist
  bitmap_mark-kept start count used fs l h = elim (Bool-cases (ltb start 86)) [
    | inl low ↦ rw low refl
    | inr high ↦
        rw high
          (ok.kept 85 (marked start count used fs.bitmap) fs.disk l (omega arith) (omega arith))
  ]

  pub bitmap_mark-root :
      (start count used : ℕ) (fs : Fs D) → (bitmap_mark dev start count used fs).root ≡ fs.root
  unfolding bitmap_mark bitmap_persist
  bitmap_mark-root start count used fs = elim (Bool-cases (ltb start 86)) [
    | inl low ↦ rw low refl
    | inr high ↦ rw high refl
  ]

  pub bitmap_mark-bitmap :
      (start count used : ℕ) (fs : Fs D)
      → (bitmap_mark dev start count used fs).bitmap ≡ marked start count used fs.bitmap
  unfolding bitmap_mark bitmap_persist marked
  bitmap_mark-bitmap start count used fs = elim (Bool-cases (ltb start 86)) [
    | inl low ↦ rw low refl
    | inr high ↦ rw high refl
  ]
