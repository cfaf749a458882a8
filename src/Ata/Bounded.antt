-- ===== src/Ata/Bounded.antt =====
-- How long the operations of drivers/ata.c can take, whatever the devices answer.
use mx_os.Prelude.{
  ℕ, zero, suc, ◌+◌, ◌*◌, ◌≤◌, ◌≡◌, not, ◌&&◌, Option, none, some, List, arith, get_or, Bool-cases,
  inl, inr,
}
use mx_os.Ata.{
  Ports, err, bsy, drq, wait_bsy, ata_wait_bsy_clear, wait_ready, ata_wait_ready, select_sector,
  read_words, write_words, ata_read_sector_once, ata_write_sector_once, try_read, try_write,
  ata_read_sector, ata_write_sector,
}

-- The same ports, with a count of the accesses.
abbrev pub counted : {S : Type 0} → Ports S → Ports (ℕ × S)
counted io = record {
  inb = λ p s. let r = io.inb p s.1 in (r.0, (s.0 + 1, r.1));
  inw = λ p s. let r = io.inw p s.1 in (r.0, (s.0 + 1, r.1));
  outb = λ p v s. (s.0 + 1, io.outb p v s.1);
  outw = λ p v s. (s.0 + 1, io.outw p v s.1);
}

module _ {S : Type 0} (io : Ports S) where
  wait_bsy-count : (n : ℕ) (s : ℕ × S) → (wait_bsy (counted io) n s).1.0 ≤ s.0 + n
  unfolding wait_bsy
  wait_bsy-count zero s = omega arith
  wait_bsy-count (suc n) s =
      let r = io.inb 0x1F7 s.1 in
      let rest = wait_bsy-count n (s.0 + 1, r.1) in
      elim (Bool-cases (err r.0)) [
        | inl e ↦ rw e (omega arith)
        | inr ok ↦ elim (Bool-cases (bsy r.0)) [
          | inl busy ↦ rw (ok, busy) (omega (arith, rest))
          | inr free ↦ rw (ok, free) (omega arith)
        ]
      ]

  wait_ready-count : (n : ℕ) (s : ℕ × S) → (wait_ready (counted io) n s).1.0 ≤ s.0 + n
  unfolding wait_ready
  wait_ready-count zero s = omega arith
  wait_ready-count (suc n) s =
      let r = io.inb 0x1F7 s.1 in
      let rest = wait_ready-count n (s.0 + 1, r.1) in
      elim (Bool-cases (err r.0)) [
        | inl e ↦ rw e (omega arith)
        | inr ok ↦ elim (Bool-cases (not (bsy r.0) && drq r.0)) [
          | inl ready ↦ rw (ok, ready) (omega arith)
          | inr wait ↦ rw (ok, wait) (omega (arith, rest))
        ]
      ]

  clear-count : (s : ℕ × S) → (ata_wait_bsy_clear (counted io) s).1.0 ≤ s.0 + 1000000
  unfolding ata_wait_bsy_clear
  clear-count s = wait_bsy-count 1000000 s

  ready-count : (s : ℕ × S) → (ata_wait_ready (counted io) s).1.0 ≤ s.0 + 1000000
  unfolding ata_wait_ready
  ready-count s = wait_ready-count 1000000 s

  select-count :
      (lba command : ℕ) (s : ℕ × S) → (select_sector (counted io) lba command s).0 ≡ s.0 + 6
  unfolding select_sector
  select-count lba command s = omega arith

  read_words-count : (n : ℕ) (s : ℕ × S) → (read_words (counted io) n s).1.0 ≡ s.0 + n
  unfolding read_words
  read_words-count zero s = omega arith
  read_words-count (suc n) s = omega (arith, read_words-count n (s.0 + 1, (io.inw 0x1F0 s.1).1))

  write_words-count :
      (n i : ℕ) (buffer : List ℕ) (s : ℕ × S) → (write_words (counted io) n i buffer s).0 ≡ s.0 + n
  unfolding write_words
  write_words-count zero i buffer s = omega arith
  write_words-count (suc n) i buffer s = omega (
    arith,
    write_words-count n (i + 1) buffer
        (s.0 + 1, io.outw 0x1F0 (get_or buffer (2 * i) 0 + 256 * get_or buffer (2 * i + 1) 0) s.1),
  )

  read_once-count :
      (lba : ℕ) (s : ℕ × S) → (ata_read_sector_once (counted io) lba s).1.0 ≤ s.0 + 2000262
  unfolding ata_read_sector_once
  read_once-count lba s =
      let idle = ata_wait_bsy_clear (counted io) s in
      let chosen = select_sector (counted io) lba 0x20 idle.1 in
      let ready = ata_wait_ready (counted io) chosen in
      let counts : (idle.1.0 ≤ s.0 + 1000000)
          × (chosen.0 ≡ idle.1.0 + 6)
          × (ready.1.0 ≤ chosen.0 + 1000000) =
        (clear-count s, select-count lba 0x20 idle.1, ready-count chosen) in
      let words = read_words-count 256 ready.1 in
      elim (Bool-cases idle.0) [
        | inr busy ↦ rw busy (omega (arith, counts))
        | inl on ↦ elim (Bool-cases ready.0) [
          | inr late ↦ rw (on, late) (omega (arith, counts))
          | inl up ↦ rw (on, up) (omega (arith, counts, words))
        ]
      ]

  write_once-count :
      (lba : ℕ) (buffer : List ℕ) (s : ℕ × S)
      → (ata_write_sector_once (counted io) lba buffer s).1.0 ≤ s.0 + 3000263
  unfolding ata_write_sector_once
  write_once-count lba buffer s =
      let idle = ata_wait_bsy_clear (counted io) s in
      let chosen = select_sector (counted io) lba 0x30 idle.1 in
      let ready = ata_wait_ready (counted io) chosen in
      let counts : (idle.1.0 ≤ s.0 + 1000000)
          × (chosen.0 ≡ idle.1.0 + 6)
          × (ready.1.0 ≤ chosen.0 + 1000000) =
        (clear-count s, select-count lba 0x30 idle.1, ready-count chosen) in
      let sent = write_words (counted io) 256 0 buffer ready.1 in
      let words = write_words-count 256 0 buffer ready.1 in
      let flushed = clear-count (sent.0 + 1, io.outb 0x1F7 0xE7 sent.1) in
      elim (Bool-cases idle.0) [
        | inr busy ↦ rw busy (omega (arith, counts))
        | inl on ↦ elim (Bool-cases ready.0) [
          | inr late ↦ rw (on, late) (omega (arith, counts))
          | inl up ↦ rw (on, up) (omega (arith, counts, words, flushed))
        ]
      ]

  try_read-count : (n lba : ℕ) (s : ℕ × S) → (try_read (counted io) n lba s).1.0 ≤ s.0 + n * 2000262
  unfolding try_read
  try_read-count zero lba s = omega arith
  try_read-count (suc n) lba s =
      let r = ata_read_sector_once (counted io) lba s in
      let one = read_once-count lba s in
      let rest = try_read-count n lba r.1 in
      either r.0 r (try_read (counted io) n lba r.1) (s.0 + suc n * 2000262) (omega (arith, one))
        (omega (arith, one, rest))
    where
      either :
          (o : Option (List ℕ)) (r p : Option (List ℕ) × (ℕ × S)) (bound : ℕ)
          → r.1.0 ≤ bound
          → p.1.0 ≤ bound
          → (elim o as (λ x. Option (List ℕ) × (ℕ × S)) [ some b ↦ r | none ↦ p ]).1.0 ≤ bound
      either (some b) r p bound hr hp = hr
      either none r p bound hr hp = hp

  try_write-count :
      (n lba : ℕ) (buffer : List ℕ) (s : ℕ × S)
      → (try_write (counted io) n lba buffer s).1.0 ≤ s.0 + n * 3000263
  unfolding try_write
  try_write-count zero lba buffer s = omega arith
  try_write-count (suc n) lba buffer s =
      let r = ata_write_sector_once (counted io) lba buffer s in
      let one = write_once-count lba buffer s in
      let rest = try_write-count n lba buffer r.1 in
      elim (Bool-cases r.0) [
        | inl done ↦ rw done (omega (arith, one))
        | inr again ↦ rw again (omega (arith, one, rest))
      ]

  -- Whatever the devices answer, reading a sector ends after at most 6,000,786 accesses to the ports,
  -- and writing one after at most 9,000,789.
  pub ata_sector-count :
      (lba : ℕ) (buffer : List ℕ) (s : S)
      → ((ata_read_sector (counted io) lba (0, s)).1.0 ≤ 6000786)
        × ((ata_write_sector (counted io) lba buffer (0, s)).1.0 ≤ 9000789)
  unfolding ata_read_sector ata_write_sector
  ata_sector-count lba buffer s = (
    omega (arith, try_read-count 3 lba (0, s)),
    omega (arith, try_write-count 3 lba buffer (0, s)),
  )
