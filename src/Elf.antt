-- ===== src/Elf.antt =====
-- The ELF loader of kernel/elf.c. The file in memory gives the byte at each offset, and the memory the
-- byte at each address. The messages on the screen are left out.
pub mod Bytes
pub mod Window
pub mod Tests
use mx_os.Prelude.{
  ℕ, zero, suc, ◌+◌, ◌-◌, ◌*◌, ◌/◌, ◌%◌, ◌^◌, Bool, true, false, ◌&&◌, ◌||◌, not, Option, none,
  some, ltb, leb, ◌==◌, if◌then◌else◌, update, add32, sub32, u32,
}

-- A field of two or four bytes, the lowest first.
unfoldable pub read16 : (ℕ → ℕ) → ℕ → ℕ
read16 b o = b o + 256 * b (o + 1)

unfoldable pub read32 : (ℕ → ℕ) → ℕ → ℕ
read32 b o = b o + 256 * b (o + 1) + 65536 * b (o + 2) + 16777216 * b (o + 3)

-- `*word = value`, at a word that does not cross the end of memory.
unfoldable pub write32 : (ℕ → ℕ) → ℕ → ℕ → ℕ → ℕ
write32 mem a value =
    update
      (update (update (update mem a (value % 256)) (a + 1) (value / 256 % 256)) (a + 2)
        (value / 65536 % 256))
      (a + 3) (value / 16777216 % 256)

pub in_window : ℕ → ℕ → ℕ → Bool
in_window off len window_size =
    if ltb window_size len then false else if ltb (window_size - len) off then false else true

-- The class, the signature and the machine.
pub header_ok : (ℕ → ℕ) → Bool
header_ok image =
    (image 0 == 0x7F)
    && (image 1 == 69)
    && (image 2 == 76)
    && (image 3 == 70)
    && (image 4 == 1)
    && (read16 image 18 == 3)

-- A program header.
pub record Segment : Type 0 where
  pub p_type : ℕ
  pub p_offset : ℕ
  pub p_vaddr : ℕ
  pub p_filesz : ℕ
  pub p_memsz : ℕ

unfoldable pub segment_at : (ℕ → ℕ) → ℕ → Segment
segment_at image o = record {
  p_type = read32 image o;
  p_offset = read32 image (o + 4);
  p_vaddr = read32 image (o + 8);
  p_filesz = read32 image (o + 16);
  p_memsz = read32 image (o + 20);
}

module _ (image : ℕ → ℕ) (image_size load_base window_size link_base : ℕ) where
  -- `for (k = from; k < from + n; k++) dest[k] = src[k]`
  pub copy_segment : ℕ → ℕ → ℕ → ℕ → (ℕ → ℕ) → ℕ → ℕ
  copy_segment zero k dest_off src mem = mem
  copy_segment (suc n) k dest_off src mem =
      copy_segment n (k + 1) dest_off src
        (update mem (u32 (load_base + dest_off + k)) (image (src + k)))

  -- `for (k = from; k < from + n; k++) dest[k] = 0`
  pub zero_fill : ℕ → ℕ → ℕ → (ℕ → ℕ) → ℕ → ℕ
  zero_fill zero k dest_off mem = mem
  zero_fill (suc n) k dest_off mem =
      zero_fill n (k + 1) dest_off (update mem (u32 (load_base + dest_off + k)) 0)

  -- The two loops for one segment.
  pub fill_segment : Segment → (ℕ → ℕ) → ℕ → ℕ
  fill_segment ph mem =
      let dest_off = sub32 ph.p_vaddr link_base in
      zero_fill (ph.p_memsz - ph.p_filesz) ph.p_filesz dest_off
        (copy_segment ph.p_filesz 0 dest_off ph.p_offset mem)

  -- The loop over the program headers from offset `o` on, `n` of them; false is the result 0.
  pub load_segments : ℕ → ℕ → (ℕ → ℕ) → Bool × (ℕ → ℕ)
  load_segments zero o mem = (true, mem)
  load_segments (suc n) o mem =
      let ph = segment_at image o in
      let skipped = load_segments n (o + 32) mem in
      let filled = load_segments n (o + 32) (fill_segment ph mem) in
      if ph.p_type == 1
      then if in_window (sub32 ph.p_vaddr link_base) ph.p_memsz window_size
        then if ltb image_size (add32 ph.p_offset ph.p_filesz) then (false, mem) else filled
        else (false, mem)
      else skipped

  -- One relocation, from offset `o` of the file.
  pub relocate : ℕ → (ℕ → ℕ) → ℕ → ℕ
  relocate o mem =
      let dest_off = sub32 (read32 image o) link_base in
      let word = u32 (load_base + dest_off) in
      if read32 image (o + 4) % 256 == 1
      then if in_window dest_off 4 window_size
        then write32 mem word (add32 (read32 mem word) (sub32 load_base link_base))
        else mem
      else mem

  pub relocate_all : ℕ → ℕ → (ℕ → ℕ) → ℕ → ℕ
  relocate_all zero o mem = mem
  relocate_all (suc n) o mem = relocate_all n (o + 8) (relocate o mem)

  -- One section header, from offset `o` of the file.
  pub relocate_section : ℕ → (ℕ → ℕ) → ℕ → ℕ
  relocate_section o mem =
      let sh_offset = read32 image (o + 16) in
      let sh_size = read32 image (o + 20) in
      let sh_entsize = read32 image (o + 36) in
      let rel_count = if sh_entsize == 0 then 0 else sh_size / sh_entsize in
      if read32 image (o + 4) == 9
      then if ltb image_size (add32 sh_offset sh_size)
        then mem
        else relocate_all rel_count sh_offset mem
      else mem

  pub relocate_sections : ℕ → ℕ → (ℕ → ℕ) → ℕ → ℕ
  relocate_sections zero o mem = mem
  relocate_sections (suc n) o mem = relocate_sections n (o + 40) (relocate_section o mem)

  -- The part of `elf_load` behind the segments.
  pub relocate_image : (ℕ → ℕ) → ℕ → ℕ
  relocate_image mem =
      let e_shoff = read32 image 32 in
      let e_shnum = read16 image 48 in
      if not (e_shoff == 0) && leb (add32 e_shoff (e_shnum * 40)) image_size
      then relocate_sections e_shnum e_shoff mem
      else mem

  -- The entry point, or `none` for the result 0, and the memory.
  pub elf_load : (ℕ → ℕ) → Option ℕ × (ℕ → ℕ)
  elf_load mem =
      let e_phoff = read32 image 28 in
      let e_phnum = read16 image 44 in
      let loaded = load_segments e_phnum e_phoff mem in
      if ltb image_size 52
      then (none, mem)
      else if not (header_ok image)
      then (none, mem)
      else if ltb image_size (add32 e_phoff (e_phnum * 32))
      then (none, mem)
      else if loaded.0
      then (some (add32 load_base (sub32 (read32 image 24) link_base)), relocate_image loaded.1)
      else (none, loaded.1)
