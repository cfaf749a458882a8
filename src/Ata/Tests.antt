-- ===== src/Ata/Tests.antt =====
-- The driver of drivers/ata.c on devices with a fixed answer.
use mx_os.Prelude.{ℕ, ◌+◌, ◌≤◌, replicate}
use mx_os.Ata.{Ports, ata_read_sector, ata_write_sector}
use mx_os.Ata.Bounded.{counted, ata_sector-count}

-- Every status is ready for data; the words count up.
abbrev ready : Ports ℕ
ready = record {
  inb = λ p s. (0x58, s);
  inw = λ p s. (s, s + 1);
  outb = λ p v s. s;
  outw = λ p v s. s + v;
}

ata_sector-count_example :
    ((ata_read_sector (counted ready) 86 (0, 0)).1.0 ≤ 6000786)
    × ((ata_write_sector (counted ready) 86 (replicate 512 7) (0, 0)).1.0 ≤ 9000789)
ata_sector-count_example = ata_sector-count ready 86 (replicate 512 7) 0
