-- ===== src/Ata/Drive.antt =====
-- A drive that works, for the driver of drivers/ata.c: it is always ready, it takes the address
-- from its registers, and its data port passes the words of the addressed sector in order. With it
-- the driver is a disk without errors.
use mx_os.Prelude.{
  ℕ, zero, suc, ◌+◌, ◌*◌, ◌/◌, ◌%◌, ◌^◌, ◌≤◌, ◌<◌, ◌≡◌, ◌≢◌, refl, ◌∙◌, sym, ap, ap₂, true, false,
  some, List, [], ◌∷◌, arith, length, get_or, dec_lt, subst, ◌⊎◌, ◌==◌, if◌then◌else◌, Bool-cases,
  inl, inr,
}
use mx_os.Ata.{
  Ports, wait_bsy, ata_wait_bsy_clear, wait_ready, ata_wait_ready, select_sector, read_words,
  write_words, ata_read_sector_once, ata_write_sector_once, try_write, ata_read_sector,
  ata_write_sector, ata_disk,
}
use mx_os.Ata.Attempts.{try_read-some}
use mx_os.Fs.Sectors.{Reliable, AreBytes}

-- `contents l i` is byte `i` of sector `l`; `position` is the number of words passed of the current
-- sector.
pub record Drive : Type 0 where
  pub contents : ℕ → ℕ → ℕ
  pub lba_low : ℕ
  pub lba_mid : ℕ
  pub lba_high : ℕ
  pub drive_sel : ℕ
  pub position : ℕ

-- The sector that the registers address, with the four high bits in the drive register.
address : Drive → ℕ
address s = s.lba_low + 256 * s.lba_mid + 65536 * s.lba_high + 16777216 * (s.drive_sel % 16)

-- The sector with the two bytes of a word at word `p`.
with_word : ℕ → ℕ → (ℕ → ℕ) → ℕ → ℕ
with_word p v bytes i =
    if i == 2 * p then v % 256 else if i == 2 * p + 1 then v / 256 % 256 else bytes i

with_sector : ℕ → (ℕ → ℕ) → (ℕ → ℕ → ℕ) → ℕ → ℕ → ℕ
with_sector a bytes contents l = if l == a then bytes else contents l

abbrev written_word : ℕ → Drive → Drive
written_word v s = record s {
  contents = with_sector (address s) (with_word s.position v (s.contents (address s))) s.contents;
  position = s.position + 1;
}

set_register : ℕ → ℕ → Drive → Drive
set_register port v s =
    if port == 0x1F3
    then record s { lba_low = v }
    else if port == 0x1F4
    then record s { lba_mid = v }
    else if port == 0x1F5
    then record s { lba_high = v }
    else if port == 0x1F6
    then record s { drive_sel = v }
    else if port == 0x1F7
    then record s { position = 0 }
    else s

-- Status 0x48: ready, with data to transfer.
pub drive : Ports Drive
drive = record {
  inb = λ port s. (0x48, s);
  inw = λ port s. (
    s.contents (address s) (2 * s.position) % 256
        + 256 * (s.contents (address s) (2 * s.position + 1) % 256),
    record s { position = s.position + 1 },
  );
  outb = set_register;
  outw = λ port v s. written_word v s;
}

-- `n` words from word `p` on, as bytes.
word_bytes : ℕ → ℕ → (ℕ → ℕ) → List ℕ
word_bytes zero p bytes = []
word_bytes (suc n) p bytes =
    bytes (2 * p) % 256 ∷ bytes (2 * p + 1) % 256 ∷ word_bytes n (p + 1) bytes

word_bytes-list :
    (n p : ℕ) (bytes : ℕ → ℕ) (b : List ℕ)
    → length b ≡ 2 * n
    → ((j : ℕ) → j < 2 * n → bytes (2 * p + j) % 256 ≡ get_or b j 0)
    → word_bytes n p bytes ≡ b
unfolding word_bytes
word_bytes-list zero p bytes [] size same = refl
word_bytes-list zero p bytes (x ∷ b) size same = absurd (omega arith)
word_bytes-list (suc n) p bytes [] size same = absurd (omega arith)
word_bytes-list (suc n) p bytes (x ∷ []) size same = absurd (omega arith)
word_bytes-list (suc n) p bytes (x ∷ y ∷ b) size same =
    let here : 2 * p ≡ 2 * p + 0 = omega arith in
    let next : (j : ℕ) → 2 * (p + 1) + j ≡ 2 * p + suc (suc j) = λ j. omega arith in
    ap₂ ◌∷◌ (ap (λ k. bytes k % 256) here ∙ same 0 (omega arith)) (
      ap₂ ◌∷◌ (same 1 (omega arith)) (
        word_bytes-list n (p + 1) bytes b (omega arith)
          (λ j below. ap (λ k. bytes k % 256) (next j) ∙ same (suc (suc j)) (omega arith))))

waits :
    (n : ℕ) (s : Drive)
    → (wait_bsy drive (suc n) s ≡ (true, s)) × (wait_ready drive (suc n) s ≡ (true, s))
unfolding drive wait_bsy wait_ready
waits n s = (refl, refl)

clear : (s : Drive) → ata_wait_bsy_clear drive s ≡ (true, s)
unfolding ata_wait_bsy_clear
clear s = (waits 999999 s).0

ready : (s : Drive) → ata_wait_ready drive s ≡ (true, s)
unfolding ata_wait_ready
ready s = (waits 999999 s).1

-- The drive with a sector addressed.
abbrev selected : ℕ → Drive → Drive
selected lba s = record s {
  lba_low = lba % 256;
  lba_mid = lba / 256 % 256;
  lba_high = lba / 65536 % 256;
  drive_sel = 0xE0 + lba / 16777216 % 16;
  position = 0;
}

select_sector-selected :
    (lba command : ℕ) (s : Drive) → select_sector drive lba command s ≡ selected lba s
unfolding drive select_sector set_register
select_sector-selected lba command s = refl

address-selected : (lba : ℕ) (s : Drive) → lba < 2 ^ 28 → address (selected lba s) ≡ lba
unfolding address
address-selected lba s low = omega arith

read_words-bytes :
    (n : ℕ) (s : Drive)
    → read_words drive n s
      ≡ (word_bytes n s.position (s.contents (address s)), record s { position = s.position + n })
unfolding drive read_words word_bytes address
read_words-bytes zero s =
    let same : s.position ≡ s.position + 0 = omega arith in
    λ i. ([], record s { position = same i })
read_words-bytes (suc n) s =
    let rest = read_words-bytes n (record s { position = s.position + 1 }) in
    let x = s.contents (address s) (2 * s.position) in
    let y = s.contents (address s) (2 * s.position + 1) in
    let low : (x % 256 + 256 * (y % 256)) % 256 ≡ x % 256 = omega arith in
    let high : (x % 256 + 256 * (y % 256)) / 256 % 256 ≡ y % 256 = omega arith in
    let at : s.position + 1 + n ≡ s.position + suc n = omega arith in
    let words = word_bytes n (s.position + 1) (s.contents (address s)) in
    (λ i. (low i ∷ high i ∷ (rest i).0, (rest i).1))
    ∙ ap (λ k. (x % 256 ∷ y % 256 ∷ words, record s { position = k })) at

with_sector-other :
    (a l : ℕ) (bytes : ℕ → ℕ) (contents : ℕ → ℕ → ℕ)
    → l ≢ a
    → with_sector a bytes contents l ≡ contents l
unfolding with_sector
with_sector-other a l bytes contents apart = let no : (l == a) ≡ false = ground arith in rw no refl

with_sector-same :
    (a : ℕ) (bytes : ℕ → ℕ) (contents : ℕ → ℕ → ℕ) → with_sector a bytes contents a ≡ bytes
unfolding with_sector
with_sector-same a bytes contents = let at : (a == a) ≡ true = ground arith in rw at refl

with_word-other :
    (p v j : ℕ) (bytes : ℕ → ℕ) → (j < 2 * p) ⊎ (2 * p + 1 < j) → with_word p v bytes j ≡ bytes j
unfolding with_word
with_word-other p v j bytes apart =
    let low : (j == 2 * p) ≡ false = ground arith in
    let high : (j == 2 * p + 1) ≡ false = ground arith in rw (low, high) refl

-- The two bytes of the word that the driver makes of two bytes.
with_word-bytes :
    (p x y : ℕ) (bytes : ℕ → ℕ)
    → x < 256
    → y < 256
    → (with_word p (x + 256 * y) bytes (2 * p) ≡ x)
      × (with_word p (x + 256 * y) bytes (2 * p + 1) ≡ y)
unfolding with_word
with_word-bytes p x y bytes small_x small_y =
    let low : (2 * p == 2 * p) ≡ true = ground arith in
    let odd : (2 * p + 1 == 2 * p) ≡ false = ground arith in
    let high : (2 * p + 1 == 2 * p + 1) ≡ true = ground arith in
    (rw low (omega arith), rw (odd, high) (omega arith))

-- After `n` words from word `i` on of a buffer, the other sectors are as before, and so is what
-- stands before these words; they are in their place.
abbrev Put : ℕ → ℕ → List ℕ → Drive → Drive → Type 0
Put n i buffer s r =
    ((l : ℕ) → l ≢ address s → r.contents l ≡ s.contents l)
    × ((j : ℕ) → j < 2 * i → r.contents (address s) j ≡ s.contents (address s) j)
    × (AreBytes buffer
        → (j : ℕ) → 2 * i ≤ j
        → j < 2 * (i + n)
        → r.contents (address s) j ≡ get_or buffer j 0)

write_words-Put :
    (n i : ℕ) (buffer : List ℕ) (s : Drive)
    → s.position ≡ i
    → Put n i buffer s (write_words drive n i buffer s)
unfolding drive write_words address
write_words-Put zero i buffer s at =
    (λ l apart. refl, λ j below. refl, λ bytes j lo hi. absurd (omega arith))
write_words-Put (suc n) i buffer s at =
    let x = get_or buffer (2 * i) 0 in
    let y = get_or buffer (2 * i + 1) 0 in
    let v = x + 256 * y in
    let a = address s in
    let next = written_word v s in
    let (others, before, there) = write_words-Put n (i + 1) buffer next (ap (λ k. k + 1) at) in
    let now : next.contents a ≡ with_word s.position v (s.contents a) =
      with_sector-same a (with_word s.position v (s.contents a)) s.contents in
    let here : (j : ℕ) → next.contents a j ≡ with_word i v (s.contents a) j =
      λ j. ap (λ f. f j) now ∙ ap (λ k. with_word k v (s.contents a) j) at in
    (
      λ l apart.
          others l apart
          ∙ with_sector-other a l (with_word s.position v (s.contents a)) s.contents apart,
      λ j below. before j (omega arith) ∙ here j ∙ with_word-other i v j (s.contents a) (inl below),
      λ bytes j lo hi. elim (dec_lt j (2 * (i + 1))) [
        | no past ↦ there bytes j (omega arith) (omega arith)
        | yes inside ↦
            before j inside
            ∙ here j
            ∙ placed (with_word i v (s.contents a)) j
                (with_word-bytes i x y (s.contents a) (bytes (2 * i)) (bytes (2 * i + 1))) lo inside
      ],
    )
  where
    placed :
        (f : ℕ → ℕ) (j : ℕ)
        → (f (2 * i) ≡ get_or buffer (2 * i) 0) × (f (2 * i + 1) ≡ get_or buffer (2 * i + 1) 0)
        → 2 * i ≤ j
        → j < 2 * (i + 1)
        → f j ≡ get_or buffer j 0
    placed f j (low, high) lo hi = elim (Bool-cases (j == 2 * i)) [
      | inl even ↦
          let e : j ≡ 2 * i = ground arith in subst (λ k. f k ≡ get_or buffer k 0) (sym e) low
      | inr odd ↦
          let e : j ≡ 2 * i + 1 = ground arith in subst (λ k. f k ≡ get_or buffer k 0) (sym e) high
    ]

abbrev sector_of : Drive → ℕ → List ℕ
sector_of s l = word_bytes 256 0 (s.contents l)

abbrev after_read : ℕ → Drive → Drive
after_read lba s = record (selected lba s) { position = 256 }

read_once :
    (lba : ℕ) (s : Drive)
    → lba < 2 ^ 28
    → ata_read_sector_once drive lba s ≡ (some (sector_of s lba), after_read lba s)
unfolding ata_read_sector_once
read_once lba s low =
    rw (clear s, ata_read_sector_once)
      (rw (select_sector-selected lba 0x20 s, ata_read_sector_once)
        (rw (ready (selected lba s), ata_read_sector_once)
          (ap (λ (r : List ℕ × Drive). (some r.0, r.1)) (read_words-bytes 256 (selected lba s))
            ∙ ap (λ l. (some (word_bytes 256 0 (s.contents l)), after_read lba s))
                (address-selected lba s low))))

read-sector :
    (lba : ℕ) (s : Drive)
    → lba < 2 ^ 28
    → ata_read_sector drive lba s ≡ (some (sector_of s lba), after_read lba s)
unfolding ata_read_sector
read-sector lba s low =
    try_read-some drive 2 lba (sector_of s lba) s (ap (λ r. r.0) (read_once lba s low))
    ∙ read_once lba s low

abbrev filled : ℕ → List ℕ → Drive → Drive
filled lba b s = write_words drive 256 0 b (selected lba s)

write_once :
    (lba : ℕ) (b : List ℕ) (s : Drive)
    → ata_write_sector_once drive lba b s ≡ (true, set_register 0x1F7 0xE7 (filled lba b s))
unfolding ata_write_sector_once
write_once lba b s =
    rw (clear s, ata_write_sector_once)
      (rw (select_sector-selected lba 0x30 s, ata_write_sector_once)
        (rw (ready (selected lba s), ata_write_sector_once)
          (unfold drive in clear (set_register 0x1F7 0xE7 (filled lba b s)))))

write-sector :
    (lba : ℕ) (b : List ℕ) (s : Drive)
    → ata_write_sector drive lba b s ≡ (true, set_register 0x1F7 0xE7 (filled lba b s))
unfolding ata_write_sector try_write
write-sector lba b s = rw (write_once lba b s, try_write) refl

set_register-contents :
    (v : ℕ) (s : Drive) (l : ℕ) → (set_register 0x1F7 v s).contents l ≡ s.contents l
unfolding set_register
set_register-contents v s l = refl

stored_byte :
    (lba : ℕ) (b : List ℕ) (s : Drive) (j : ℕ)
    → lba < 2 ^ 28
    → length b ≡ 512
    → AreBytes b
    → j < 512
    → (filled lba b s).contents lba (2 * 0 + j) % 256 ≡ get_or b j 0
stored_byte lba b s j low size bytes below =
    let at : address (selected lba s) ≡ lba = address-selected lba s low in
    let (others, before, there) = write_words-Put 256 0 b (selected lba s) refl in
    let here : (filled lba b s).contents lba j ≡ get_or b j 0 =
      subst (λ l. (filled lba b s).contents l j ≡ get_or b j 0) at
        (there bytes j (omega arith) (omega arith)) in
    let start : 2 * 0 + j ≡ j = omega arith in
    ap (λ k. (filled lba b s).contents lba k % 256) start
    ∙ ap (λ v. v % 256) here
    ∙ omega (arith, bytes j)

other : (lba l : ℕ) → (l < lba) ⊎ (lba < l) → l ≢ lba
other lba l apart = omega arith

pub drive-Reliable : Reliable (ata_disk drive)
unfolding ata_disk
drive-Reliable = record {
  sectors = sector_of;
  written = λ lba b s. ap (λ r. r.0) (write-sector lba b s);
  kept = λ lba b s l low apart.
      ap (λ r. sector_of r.1 l) (write-sector lba b s)
      ∙ ap (word_bytes 256 0) (
          set_register-contents 0xE7 (filled lba b s) l
          ∙ (write_words-Put 256 0 b (selected lba s) refl).0 l
              (λ same. other lba l apart (same ∙ address-selected lba s low)));
  stored = λ lba b s low size bytes.
      ap (λ r. sector_of r.1 lba) (write-sector lba b s)
      ∙ ap (word_bytes 256 0) (set_register-contents 0xE7 (filled lba b s) lba)
      ∙ word_bytes-list 256 0 ((filled lba b s).contents lba) b size
          (λ j below. stored_byte lba b s j low size bytes below);
  reads = λ lba s low. ap (λ r. r.0) (read-sector lba s low);
  unchanged = λ lba s l low. ap (λ r. sector_of r.1 l) (read-sector lba s low);
}
