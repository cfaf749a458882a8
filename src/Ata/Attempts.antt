-- ===== src/Ata/Attempts.antt =====
-- The attempts of drivers/ata.c: an operation fails only when all three do.
use mx_os.Prelude.{
  ℕ, zero, suc, ◌<◌, ◌≡◌, refl, ◌∙◌, ◌⊎◌, Option, none, some, List, arith, Option-cases, inl, inr,
}
use mx_os.Ata.{Ports, ata_read_sector_once, try_read, ata_read_sector}

module _ {S : Type 0} (io : Ports S) where
  -- The devices after `n` attempts to read.
  unfoldable pub reads_done : ℕ → ℕ → S → S
  reads_done zero lba s = s
  reads_done (suc n) lba s = reads_done n lba (ata_read_sector_once io lba s).1

  -- Attempt `i`, from 0 on, after the ones before it.
  abbrev pub read_attempt : ℕ → ℕ → S → Option (List ℕ) × S
  read_attempt i lba s = ata_read_sector_once io lba (reads_done i lba s)

  try_read-none :
      (n lba : ℕ) (s : S)
      → (ata_read_sector_once io lba s).0 ≡ none
      → try_read io (suc n) lba s ≡ try_read io n lba (ata_read_sector_once io lba s).1
  unfolding try_read
  try_read-none n lba s e =
      again (ata_read_sector_once io lba s).0 (ata_read_sector_once io lba s)
        (try_read io n lba (ata_read_sector_once io lba s).1) e
    where
      again :
          (o : Option (List ℕ)) (r p : Option (List ℕ) × S)
          → o ≡ none
          → (elim o as (λ x. Option (List ℕ) × S) [ some b ↦ r | none ↦ p ]) ≡ p
      again none r p e = refl
      again (some b) r p e = cc

  pub try_read-some :
      (n lba : ℕ) (b : List ℕ) (s : S)
      → (ata_read_sector_once io lba s).0 ≡ some b
      → try_read io (suc n) lba s ≡ ata_read_sector_once io lba s
  unfolding try_read
  try_read-some n lba b s e =
      done (ata_read_sector_once io lba s).0 (ata_read_sector_once io lba s)
        (try_read io n lba (ata_read_sector_once io lba s).1) b e
    where
      done :
          (o : Option (List ℕ)) (r p : Option (List ℕ) × S) (b : List ℕ)
          → o ≡ some b
          → (elim o as (λ x. Option (List ℕ) × S) [ some b ↦ r | none ↦ p ]) ≡ r
      done none r p b e = cc
      done (some c) r p b e = refl

  -- Either no attempt gives the sector, or the result is that of the first one that does.
  abbrev pub Tried : ℕ → ℕ → S → Option (List ℕ) × S → Type 0
  Tried n lba s r =
      ((r ≡ (none, reads_done n lba s)) × ((i : ℕ) → i < n → (read_attempt i lba s).0 ≡ none))
      ⊎ ((i : ℕ) × (b : List ℕ) × (i < n)
          × ((read_attempt i lba s).0 ≡ some b)
          × (r ≡ read_attempt i lba s)
          × ((j : ℕ) → j < i → (read_attempt j lba s).0 ≡ none))

  before :
      (n lba : ℕ) (s : S)
      → (ata_read_sector_once io lba s).0 ≡ none
      → ((i : ℕ) → i < n → (read_attempt i lba (ata_read_sector_once io lba s).1).0 ≡ none)
      → (i : ℕ) → i < suc n
      → (read_attempt i lba s).0 ≡ none
  unfolding reads_done
  before n lba s e f zero h = e
  before n lba s e f (suc i) h = f i (omega arith)

  try_read-Tried : (n lba : ℕ) (s : S) → Tried n lba s (try_read io n lba s)
  unfolding reads_done
  try_read-Tried zero lba s = inl (unfold try_read in refl, λ i h. absurd (omega arith))
  try_read-Tried (suc n) lba s = elim (Option-cases (ata_read_sector_once io lba s).0) [
    | inr (b, e) ↦
        inr (0, b, omega arith, e, try_read-some n lba b s e, λ j h. absurd (omega arith))
    | inl e ↦ elim (try_read-Tried n lba (ata_read_sector_once io lba s).1) [
      | inl (r, f) ↦ inl (try_read-none n lba s e ∙ r, before n lba s e f)
      | inr (i, b, h, got, r, f) ↦
          inr (suc i, b, omega arith, got, try_read-none n lba s e ∙ r, before i lba s e f)
    ]
  ]

  -- Reading a sector fails exactly when three attempts in a row fail; else it gives what the first
  -- attempt that succeeds gives, and makes no further one.
  pub ata_read_sector-Tried : (lba : ℕ) (s : S) → Tried 3 lba s (ata_read_sector io lba s)
  unfolding ata_read_sector
  ata_read_sector-Tried lba s = try_read-Tried 3 lba s
