-- ===== src/Ata.antt =====
-- The disk driver of drivers/ata.c. The ports are a parameter: what a read gives and what a write does
-- to the state of the devices.
pub mod Attempts
pub mod Bounded
pub mod Drive
mod Tests
use mx_os.Prelude.{
  ℕ, zero, suc, ◌+◌, ◌*◌, ◌/◌, ◌%◌, Bool, true, false, not, ◌&&◌, Option, none, some, List, [], ◌∷◌,
  get_or, ◌==◌, if◌then◌else◌,
}
use mx_os.Fs.{Disk}

-- `inb` and `inw` may change the state of a device too.
pub record Ports (S : Type 0) : Type 0 where
  pub inb : ℕ → S → ℕ × S
  pub inw : ℕ → S → ℕ × S
  pub outb : ℕ → ℕ → S → S
  pub outw : ℕ → ℕ → S → S

abbrev pub ata_data : ℕ
ata_data = 0x1F0

abbrev pub ata_sector_cnt : ℕ
ata_sector_cnt = 0x1F2

abbrev pub ata_lba_low : ℕ
ata_lba_low = 0x1F3

abbrev pub ata_lba_mid : ℕ
ata_lba_mid = 0x1F4

abbrev pub ata_lba_high : ℕ
ata_lba_high = 0x1F5

abbrev pub ata_drive_sel : ℕ
ata_drive_sel = 0x1F6

abbrev pub ata_command : ℕ
ata_command = 0x1F7

abbrev pub ata_status : ℕ
ata_status = 0x1F7

abbrev pub ata_cmd_read : ℕ
ata_cmd_read = 0x20

abbrev pub ata_cmd_write : ℕ
ata_cmd_write = 0x30

abbrev pub timeout_rounds : ℕ
timeout_rounds = 1000000

abbrev pub ata_max_retries : ℕ
ata_max_retries = 3

-- Bit 0 of the status, an error.
abbrev pub err : ℕ → Bool
err status = status % 2 == 1

-- Bit 7, busy.
abbrev pub bsy : ℕ → Bool
bsy status = status / 128 % 2 == 1

-- Bit 3, data to transfer.
abbrev pub drq : ℕ → Bool
drq status = status / 8 % 2 == 1

module _ {S : Type 0} (io : Ports S) where
  -- The loop of `ata_wait_bsy_clear`, for `n` more rounds.
  pub wait_bsy : ℕ → S → Bool × S
  wait_bsy zero s = (false, s)
  wait_bsy (suc n) s =
      let r = io.inb ata_status s in
      let rest = wait_bsy n r.1 in
      if err r.0 then (false, r.1) else if not (bsy r.0) then (true, r.1) else rest

  pub ata_wait_bsy_clear : S → Bool × S
  ata_wait_bsy_clear s = wait_bsy timeout_rounds s

  pub wait_ready : ℕ → S → Bool × S
  wait_ready zero s = (false, s)
  wait_ready (suc n) s =
      let r = io.inb ata_status s in
      let rest = wait_ready n r.1 in
      if err r.0 then (false, r.1) else if not (bsy r.0) && drq r.0 then (true, r.1) else rest

  pub ata_wait_ready : S → Bool × S
  ata_wait_ready s = wait_ready timeout_rounds s

  -- Drive, sector count, address and command.
  pub select_sector : ℕ → ℕ → S → S
  select_sector lba command s = io.outb ata_command command (
      io.outb ata_lba_high (lba / 65536 % 256) (
        io.outb ata_lba_mid (lba / 256 % 256) (
          io.outb ata_lba_low (lba % 256)
            (io.outb ata_sector_cnt 1 (io.outb ata_drive_sel (0xE0 + lba / 16777216 % 16) s)))))

  -- `n` words, each as the two bytes that it is in the buffer.
  pub read_words : ℕ → S → List ℕ × S
  read_words zero s = ([], s)
  read_words (suc n) s =
      let r = io.inw ata_data s in
      let rest = read_words n r.1 in (r.0 % 256 ∷ r.0 / 256 % 256 ∷ rest.0, rest.1)

  -- `none` is the result 0.
  pub ata_read_sector_once : ℕ → S → Option (List ℕ) × S
  ata_read_sector_once lba s =
      let idle = ata_wait_bsy_clear s in
      let ready = ata_wait_ready (select_sector lba ata_cmd_read idle.1) in
      let words = read_words 256 ready.1 in
      if idle.0
      then if ready.0 then (some words.0, words.1) else (none, ready.1)
      else (none, idle.1)

  -- `n` words of the buffer, from word `i` on.
  pub write_words : ℕ → ℕ → List ℕ → S → S
  write_words zero i buffer s = s
  write_words (suc n) i buffer s =
      write_words n (i + 1) buffer
        (io.outw ata_data (get_or buffer (2 * i) 0 + 256 * get_or buffer (2 * i + 1) 0) s)

  pub ata_write_sector_once : ℕ → List ℕ → S → Bool × S
  ata_write_sector_once lba buffer s =
      let idle = ata_wait_bsy_clear s in
      let ready = ata_wait_ready (select_sector lba ata_cmd_write idle.1) in
      let flushed =
        ata_wait_bsy_clear (io.outb ata_command 0xE7 (write_words 256 0 buffer ready.1)) in
      if idle.0 then if ready.0 then flushed else (false, ready.1) else (false, idle.1)

  -- `n` attempts.
  pub try_read : ℕ → ℕ → S → Option (List ℕ) × S
  try_read zero lba s = (none, s)
  try_read (suc n) lba s =
      let r = ata_read_sector_once lba s in
      let rest = try_read n lba r.1 in elim r.0 [ some b ↦ r | none ↦ rest ]

  pub ata_read_sector : ℕ → S → Option (List ℕ) × S
  ata_read_sector lba s = try_read ata_max_retries lba s

  pub try_write : ℕ → ℕ → List ℕ → S → Bool × S
  try_write zero lba buffer s = (false, s)
  try_write (suc n) lba buffer s =
      let r = ata_write_sector_once lba buffer s in
      let rest = try_write n lba buffer r.1 in if r.0 then r else rest

  pub ata_write_sector : ℕ → List ℕ → S → Bool × S
  ata_write_sector lba buffer s = try_write ata_max_retries lba buffer s

  -- The sectors on which drivers/fs.c works.
  pub ata_disk : Disk S
  ata_disk = record { read_sector = ata_read_sector; write_sector = ata_write_sector }
