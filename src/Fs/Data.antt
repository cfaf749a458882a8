-- ===== src/Fs/Data.antt =====
-- The sectors that the loop of `fs_write_file_impl` in drivers/fs.c writes, and what `fs_load_file`
-- reads from them.
use mx_os.Prelude.{
  ℕ, zero, suc, ◌+◌, ◌-◌, ◌*◌, ◌^◌, ◌≤◌, ◌<◌, ◌≡◌, ◌≢◌, refl, ◌∙◌, sym, ap, subst, ap₂, Bool, true,
  false, List, [], ◌∷◌, ◌++◌, arith, ◌⊎◌, inl, inr, length, take, ltb, ◌==◌, if◌then◌else◌,
  Bool-cases, min,
}
use mx_os.Fs.{Disk, padded, write_loop, load_loop}
use mx_os.Fs.Sectors.{Reliable, AreBytes}

pub length-padded : (n i chunk : ℕ) (data_at : ℕ → ℕ) → length (padded n i chunk data_at) ≡ n
unfolding padded
length-padded zero i chunk data_at = refl
length-padded (suc n) i chunk data_at = ap suc (length-padded n (i + 1) chunk data_at)

pub take-all : (n : ℕ) (xs : List ℕ) → length xs ≡ n → take n xs ≡ xs
take-all zero [] h = refl
take-all zero (x ∷ xs) h = absurd (omega arith)
take-all (suc n) [] h = refl
take-all (suc n) (x ∷ xs) h = ap (λ ys. x ∷ ys) (take-all n xs (omega arith))

padded-split :
    (a b i chunk : ℕ) (data_at : ℕ → ℕ)
    → padded (a + b) i chunk data_at ≡ padded a i chunk data_at ++ padded b (i + a) chunk data_at
unfolding padded
padded-split zero b i chunk data_at =
    ap₂ (λ n k. padded n k chunk data_at) (omega arith) (omega arith)
padded-split (suc a) b i chunk data_at =
    let up : suc a + b ≡ suc (a + b) = omega arith in
    let along : i + 1 + a ≡ i + suc a = omega arith in
    rw up (
      ap (λ ys. (if ltb i chunk then data_at i else 0) ∷ ys)
        (padded-split a b (i + 1) chunk data_at
          ∙ ap (λ k. padded a (i + 1) chunk data_at ++ padded b k chunk data_at) along))

-- Only the first `n` bytes matter.
padded-min :
    (n i chunk : ℕ) (data_at : ℕ → ℕ)
    → i + n ≤ 512
    → padded n i chunk data_at ≡ padded n i (min 512 chunk) data_at
unfolding padded
padded-min zero i chunk data_at h = refl
padded-min (suc n) i chunk data_at h =
    let same : ltb i chunk ≡ ltb i (min 512 chunk) = ground arith in
    rw same (
      ap (λ ys. (if ltb i (min 512 chunk) then data_at i else 0) ∷ ys)
        (padded-min n (i + 1) chunk data_at (omega arith)))

-- The bytes behind the first sector.
padded-shift :
    (n i chunk : ℕ) (data_at : ℕ → ℕ)
    → padded n (512 + i) chunk data_at
      ≡ padded n i (chunk - min 512 chunk) (λ j. data_at (min 512 chunk + j))
unfolding padded
padded-shift zero i chunk data_at = refl
padded-shift (suc n) i chunk data_at =
    ap₂ ◌∷◌ (entry (Bool-cases (ltb (512 + i) chunk)))
      (ap (λ k. padded n k chunk data_at) (omega arith) ∙ padded-shift n (i + 1) chunk data_at)
  where
    entry :
        ((ltb (512 + i) chunk ≡ true) ⊎ (ltb (512 + i) chunk ≡ false))
        → (if ltb (512 + i) chunk then data_at (512 + i) else 0)
          ≡ (if ltb i (chunk - min 512 chunk) then data_at (min 512 chunk + i) else 0)
    entry (inl e) =
        let same : ltb i (chunk - min 512 chunk) ≡ true = ground arith in
        let whole : min 512 chunk ≡ 512 = ground arith in rw (e, same, whole) refl
    entry (inr e) =
        let same : ltb i (chunk - min 512 chunk) ≡ false = ground arith in rw (e, same) refl

-- The bytes of `k` sectors: the first `remaining` of the data, and zeros.
pub padded-next :
    (k remaining : ℕ) (data_at : ℕ → ℕ)
    → padded (512 + k) 0 remaining data_at
      ≡ padded 512 0 (min 512 remaining) data_at
        ++ padded k 0 (remaining - min 512 remaining) (λ j. data_at (min 512 remaining + j))
padded-next k remaining data_at =
    padded-split 512 k 0 remaining data_at
    ∙ ap₂ ◌++◌ (padded-min 512 0 remaining data_at (omega arith))
        (padded-shift k 0 remaining data_at)

pub padded-AreBytes :
    (n i chunk : ℕ) (data_at : ℕ → ℕ)
    → ((j : ℕ) → j < chunk → data_at j < 256)
    → AreBytes (padded n i chunk data_at)
unfolding padded
padded-AreBytes zero i chunk data_at bytes j = omega arith
padded-AreBytes (suc n) i chunk data_at bytes zero = elim (Bool-cases (ltb i chunk)) [
  | inl inside ↦ rw inside (bytes i (ground arith))
  | inr past ↦ rw past (omega arith)
]
padded-AreBytes (suc n) i chunk data_at bytes (suc j) =
    padded-AreBytes n (i + 1) chunk data_at bytes j

-- `k` sectors from `lba` on hold the first `remaining` bytes of the data, and zeros behind them.
pub Holds : (ℕ → List ℕ) → ℕ → ℕ → ℕ → (ℕ → ℕ) → Type 0
Holds s zero lba remaining data_at = Unit
Holds s (suc k) lba remaining data_at =
    (s lba ≡ padded 512 0 (min 512 remaining) data_at)
    × Holds s k (lba + 1) (remaining - min 512 remaining) (λ j. data_at (min 512 remaining + j))

pub Holds-same :
    (s t : ℕ → List ℕ) (k lba remaining : ℕ) (data_at : ℕ → ℕ)
    → ((l : ℕ) → lba ≤ l → l < lba + k → t l ≡ s l)
    → Holds s k lba remaining data_at
    → Holds t k lba remaining data_at
unfolding Holds
Holds-same s t zero lba remaining data_at same h = h
Holds-same s t (suc k) lba remaining data_at same h = (
  same lba (omega arith) (omega arith) ∙ h.0,
  Holds-same s t k (lba + 1) _ _ (λ l lo hi. same l (omega arith) (omega arith)) h.1,
)

module _ {D : Type 0} (dev : Disk D) (ok : Reliable dev) where
  write_loop-done :
      (n lba : ℕ) (data_at : ℕ → ℕ) (d : D) → write_loop dev n lba 0 data_at d ≡ (true, d)
  unfolding write_loop
  write_loop-done zero lba data_at d = refl
  write_loop-done (suc n) lba data_at d = refl

  write_loop-step :
      (n lba remaining : ℕ) (data_at : ℕ → ℕ) (d : D)
      → remaining ≢ 0
      → write_loop dev (suc n) lba remaining data_at d
        ≡ write_loop dev n
            (lba + 1)
            (remaining - min 512 remaining)
            (λ j. data_at (min 512 remaining + j))
            (dev.write_sector lba (padded 512 0 (min 512 remaining) data_at) d).1
  unfolding write_loop
  write_loop-step n lba remaining data_at d ne =
      let more : (remaining == 0) ≡ false = ground arith in
      rw (more, ok.written lba (padded 512 0 (min 512 remaining) data_at) d) refl

  pub load_loop-done : (n lba : ℕ) (d : D) → load_loop dev n lba 0 d ≡ ((true, []), d)
  unfolding load_loop
  load_loop-done zero lba d = refl
  load_loop-done (suc n) lba d = refl

  pub load_loop-step :
      (n lba total : ℕ) (d : D)
      → total ≢ 0
      → lba < 2 ^ 28
      → let rest = load_loop dev n (lba + 1) (total - min 512 total) (dev.read_sector lba d).1 in
        (load_loop dev (suc n) lba total d).0
        ≡ (rest.0.0, take (min 512 total) (ok.sectors d lba) ++ rest.0.1)
  unfolding load_loop
  load_loop-step n lba total d ne low =
      let more : (total == 0) ≡ false = ground arith in rw (more, ok.reads lba d low) refl

  -- All writes are done. The sectors from `lba` on hold the data, where it is bytes, and the others are
  -- kept.
  unfoldable pub Wrote : ℕ → ℕ → ℕ → (ℕ → ℕ) → D → Bool × D → Type 0
  Wrote k lba remaining data_at d r =
      (r.0 ≡ true)
      × (((j : ℕ) → j < remaining → data_at j < 256)
          → Holds (ok.sectors r.1) k lba remaining data_at)
      × ((l : ℕ) → (l < lba) ⊎ (lba + k ≤ l) → ok.sectors r.1 l ≡ ok.sectors d l)

  pub write_loop-Wrote :
      (n k lba remaining : ℕ) (data_at : ℕ → ℕ) (d : D)
      → remaining ≤ n
      → remaining ≤ 512 * k
      → 512 * k < remaining + 512
      → lba + k ≤ 2 ^ 28
      → Wrote k lba remaining data_at d (write_loop dev n lba remaining data_at d)
  unfolding Wrote Holds
  write_loop-Wrote zero zero lba remaining data_at d fuel lo hi low =
      let done : remaining ≡ 0 = omega arith in
      rw (done, write_loop-done zero lba data_at d) (refl, λ bytes. tt, λ l a. refl)
  write_loop-Wrote zero (suc k) lba remaining data_at d fuel lo hi low = absurd (omega arith)
  write_loop-Wrote (suc n) zero lba remaining data_at d fuel lo hi low =
      let done : remaining ≡ 0 = omega arith in
      rw (done, write_loop-done (suc n) lba data_at d) (refl, λ bytes. tt, λ l a. refl)
  write_loop-Wrote (suc n) (suc k) lba remaining data_at d fuel lo hi low =
      let chunk = min 512 remaining in
      let sector = padded 512 0 chunk data_at in
      let (done, holds, kept) =
        write_loop-Wrote n k (lba + 1) (remaining - chunk) (λ j. data_at (chunk + j))
          (dev.write_sector lba sector d).1 (omega arith) (omega arith) (omega arith)
          (omega arith) in
      subst (Wrote (suc k) lba remaining data_at d)
        (sym (write_loop-step n lba remaining data_at d (omega arith)))
        (
          done,
          λ bytes. (
            kept lba (inl (omega arith))
                ∙ ok.stored lba sector d (omega arith) (length-padded 512 0 chunk data_at)
                    (padded-AreBytes 512 0 chunk data_at (λ j below. bytes j (omega arith))),
            holds (λ j below. bytes (chunk + j) (omega arith)),
          ),
          λ l apart. kept l (omega arith) ∙ ok.kept lba sector d l (omega arith) (omega arith),
        )

  -- Reading these sectors gives the data and the zeros behind it.
  pub load_loop-Holds :
      (n k total lba remaining : ℕ) (data_at : ℕ → ℕ) (d : D)
      → total ≡ 512 * k
      → total ≤ n
      → lba + k ≤ 2 ^ 28
      → Holds (ok.sectors d) k lba remaining data_at
      → (load_loop dev n lba total d).0 ≡ (true, padded total 0 remaining data_at)
  unfolding Holds
  load_loop-Holds n zero total lba remaining data_at d e fuel low h =
      let none_left : total ≡ 0 = omega arith in
      rw (none_left, load_loop-done n lba d) (unfold padded in refl)
  load_loop-Holds zero (suc k) total lba remaining data_at d e fuel low h = absurd (omega arith)
  load_loop-Holds (suc n) (suc k) total lba remaining data_at d e fuel low h =
      let chunk : min 512 total ≡ 512 = omega arith in
      let split : total ≡ 512 + (total - 512) = omega arith in
      let size = length-padded 512 0 (min 512 remaining) data_at in
      let first = padded 512 0 (min 512 remaining) data_at in
      let d2 = (dev.read_sector lba d).1 in
      let rest =
        load_loop-Holds n k (total - 512) (lba + 1) (remaining - min 512 remaining)
          (λ j. data_at (min 512 remaining + j)) d2 (omega arith) (omega arith) (omega arith)
          (Holds-same (ok.sectors d) (ok.sectors d2) k (lba + 1) _ _
            (λ l lo hi. ok.unchanged lba d l (omega arith)) h.1) in
      load_loop-step n lba total d (omega arith) (omega arith)
      ∙ rw (chunk, rest, h.0, take-all 512 first size) refl
      ∙ ap (λ (b : List ℕ). (true, b))
          (sym (padded-next (total - 512) remaining data_at)
            ∙ ap (λ t. padded t 0 remaining data_at) (sym split))
