-- ===== src/Elf/Window.antt =====
-- Where the loader of kernel/elf.c writes.
use mx_os.Prelude.{
  ℕ, zero, suc, ◌+◌, ◌-◌, ◌*◌, ◌%◌, ◌^◌, ◌≤◌, ◌<◌, ◌≡◌, refl, ◌∙◌, ◌⊎◌, true, not, ◌&&◌, arith, ltb,
  leb, ◌==◌, ==_iff, Bool-cases, inl, inr, update, u32, add32, sub32,
}
use mx_os.Elf.Bytes.{put-Outside, write32-Outside}
use mx_os.Elf.{
  read32, read16, in_window, header_ok, Segment, segment_at, copy_segment, zero_fill, fill_segment,
  load_segments, relocate, relocate_all, relocate_section, relocate_sections, relocate_image,
  elf_load,
}

-- No PT_LOAD segment of the `n` headers from offset `o` on has more bytes in the file than in memory.
unfoldable pub IsSmall : (ℕ → ℕ) → ℕ → ℕ → Type 0
IsSmall image n o =
    (i : ℕ)
    → i < n
    → (segment_at image (o + 32 * i)).p_type ≡ 1
    → (segment_at image (o + 32 * i)).p_filesz ≤ (segment_at image (o + 32 * i)).p_memsz

IsSmall-first :
    (image : ℕ → ℕ) (n o : ℕ)
    → IsSmall image (suc n) o
    → (segment_at image o).p_type ≡ 1
    → (segment_at image o).p_filesz ≤ (segment_at image o).p_memsz
unfolding IsSmall
IsSmall-first image n o small =
    let at : o + 32 * 0 ≡ o = omega arith in rw at at (small 0 (omega arith))

IsSmall-rest : (image : ℕ → ℕ) (n o : ℕ) → IsSmall image (suc n) o → IsSmall image n (o + 32)
unfolding IsSmall
IsSmall-rest image n o small i h =
    let at : o + 32 * (i + 1) ≡ o + 32 + 32 * i = omega arith in
    rw at at (small (i + 1) (omega arith))

in_window-fits : (off len w : ℕ) → in_window off len w ≡ true → off + len ≤ w
unfolding in_window
in_window-fits off len w h = ground arith

module _ (image : ℕ → ℕ) (image_size load_base window_size link_base : ℕ)
    (below : load_base + window_size ≤ 2 ^ 32) (a : ℕ)
    (outside : (a < load_base) ⊎ (load_base + window_size ≤ a)) where
  -- A write in the window.
  put-kept :
      (mem : ℕ → ℕ) (x v : ℕ)
      → load_base ≤ x
      → x < load_base + window_size
      → update mem (u32 x) v a ≡ mem a
  put-kept mem x v lo hi =
      put-Outside mem x v load_base (load_base + window_size) a below lo hi outside

  copy_segment-kept :
      (n k dest_off src : ℕ) (mem : ℕ → ℕ)
      → dest_off + k + n ≤ window_size
      → copy_segment image image_size load_base window_size link_base n k dest_off src mem a ≡ mem a
  unfolding copy_segment
  copy_segment-kept zero k dest_off src mem h = refl
  copy_segment-kept (suc n) k dest_off src mem h =
      copy_segment-kept n (k + 1) dest_off src
        (update mem (u32 (load_base + dest_off + k)) (image (src + k))) (omega arith)
      ∙ put-kept mem (load_base + dest_off + k) (image (src + k)) (omega arith) (omega arith)

  zero_fill-kept :
      (n k dest_off : ℕ) (mem : ℕ → ℕ)
      → dest_off + k + n ≤ window_size
      → zero_fill image image_size load_base window_size link_base n k dest_off mem a ≡ mem a
  unfolding zero_fill
  zero_fill-kept zero k dest_off mem h = refl
  zero_fill-kept (suc n) k dest_off mem h =
      zero_fill-kept n (k + 1) dest_off (update mem (u32 (load_base + dest_off + k)) 0)
        (omega arith)
      ∙ put-kept mem (load_base + dest_off + k) 0 (omega arith) (omega arith)

  fill_segment-kept :
      (ph : Segment) (mem : ℕ → ℕ)
      → in_window (sub32 ph.p_vaddr link_base) ph.p_memsz window_size ≡ true
      → ph.p_filesz ≤ ph.p_memsz
      → fill_segment image image_size load_base window_size link_base ph mem a ≡ mem a
  unfolding fill_segment
  fill_segment-kept ph mem inside small =
      let fits = in_window-fits (sub32 ph.p_vaddr link_base) ph.p_memsz window_size inside in
      zero_fill-kept (ph.p_memsz - ph.p_filesz) ph.p_filesz (sub32 ph.p_vaddr link_base) _
        (omega (arith, fits))
      ∙ copy_segment-kept ph.p_filesz 0 (sub32 ph.p_vaddr link_base) ph.p_offset mem
          (omega (arith, fits))

  load_segments-kept :
      (n o : ℕ) (mem : ℕ → ℕ)
      → IsSmall image n o
      → (load_segments image image_size load_base window_size link_base n o mem).1 a ≡ mem a
  unfolding load_segments
  load_segments-kept zero o mem small = refl
  load_segments-kept (suc n) o mem small =
      let ph = segment_at image o in
      let next : IsSmall image n (o + 32) = IsSmall-rest image n o small in
      elim (Bool-cases (ph.p_type == 1)) [
        | inr other ↦ rw other (load_segments-kept n (o + 32) mem next)
        | inl load ↦
            elim (Bool-cases (in_window (sub32 ph.p_vaddr link_base) ph.p_memsz window_size)) [
              | inr out ↦ rw (load, out) refl
              | inl inside ↦ elim (Bool-cases (ltb image_size (add32 ph.p_offset ph.p_filesz))) [
                | inl beyond ↦ rw (load, inside, beyond) refl
                | inr held ↦
                    rw (load, inside, held)
                      (load_segments-kept n (o + 32)
                          (fill_segment image image_size load_base window_size link_base ph mem)
                          next
                        ∙ fill_segment-kept ph mem inside
                            (IsSmall-first image n o small ((==_iff ph.p_type 1).0 load)))
              ]
            ]
      ]

  relocate-kept :
      (o : ℕ) (mem : ℕ → ℕ)
      → relocate image image_size load_base window_size link_base o mem a ≡ mem a
  unfolding relocate
  relocate-kept o mem = elim (Bool-cases (read32 image (o + 4) % 256 == 1)) [
    | inr other ↦ rw other refl
    | inl absolute ↦
        let d = sub32 (read32 image o) link_base in
        elim (Bool-cases (in_window d 4 window_size)) [
          | inr out ↦ rw (absolute, out) refl
          | inl inside ↦
              let fits = in_window-fits d 4 window_size inside in
              let at : u32 (load_base + d) ≡ load_base + d = omega (arith, fits) in
              rw (absolute, inside, at)
                (write32-Outside mem (load_base + d) _ a (omega (arith, fits)))
        ]
  ]

  relocate_all-kept :
      (n o : ℕ) (mem : ℕ → ℕ)
      → relocate_all image image_size load_base window_size link_base n o mem a ≡ mem a
  unfolding relocate_all
  relocate_all-kept zero o mem = refl
  relocate_all-kept (suc n) o mem = relocate_all-kept n (o + 8) _ ∙ relocate-kept o mem

  relocate_section-kept :
      (o : ℕ) (mem : ℕ → ℕ)
      → relocate_section image image_size load_base window_size link_base o mem a ≡ mem a
  unfolding relocate_section
  relocate_section-kept o mem = elim (Bool-cases (read32 image (o + 4) == 9)) [
    | inr other ↦ rw other refl
    | inl rel ↦
        elim (Bool-cases (ltb image_size (add32 (read32 image (o + 16)) (read32 image (o + 20))))) [
          | inl beyond ↦ rw (rel, beyond) refl
          | inr held ↦ rw (rel, held) (relocate_all-kept _ (read32 image (o + 16)) mem)
        ]
  ]

  relocate_sections-kept :
      (n o : ℕ) (mem : ℕ → ℕ)
      → relocate_sections image image_size load_base window_size link_base n o mem a ≡ mem a
  unfolding relocate_sections
  relocate_sections-kept zero o mem = refl
  relocate_sections-kept (suc n) o mem =
      relocate_sections-kept n (o + 40) _ ∙ relocate_section-kept o mem

  relocate_image-kept :
      (mem : ℕ → ℕ) → relocate_image image image_size load_base window_size link_base mem a ≡ mem a
  unfolding relocate_image
  relocate_image-kept mem =
      elim (Bool-cases (
        not (read32 image 32 == 0)
        && leb (add32 (read32 image 32) (read16 image 48 * 40)) image_size)) [
          | inl held ↦ rw held (relocate_sections-kept (read16 image 48) (read32 image 32) mem)
          | inr none_there ↦ rw none_there refl
        ]

-- Where every PT_LOAD segment has at most as many bytes in the file as in memory, and the window
-- lies in the 32-bit address space, `elf_load` changes no byte outside the window, whatever else
-- the file holds and whether or not it is refused.
pub elf_load-kept :
    (image : ℕ → ℕ) (image_size load_base window_size link_base : ℕ) (mem : ℕ → ℕ)
    → load_base + window_size ≤ 2 ^ 32
    → IsSmall image (read16 image 44) (read32 image 28)
    → (a : ℕ) → (a < load_base) ⊎ (load_base + window_size ≤ a)
    → (elf_load image image_size load_base window_size link_base mem).1 a ≡ mem a
unfolding elf_load
elf_load-kept image image_size load_base window_size link_base mem below small a outside =
    let segments =
      load_segments-kept image image_size load_base window_size link_base below a outside
        (read16 image 44) (read32 image 28) mem small in
    let loaded =
      load_segments image image_size load_base window_size link_base (read16 image 44)
        (read32 image 28) mem in
    elim (Bool-cases (ltb image_size 52)) [
      | inl short ↦ rw short refl
      | inr long ↦ elim (Bool-cases (not (header_ok image))) [
        | inl bad ↦ rw (long, bad) refl
        | inr good ↦
            elim (Bool-cases (ltb image_size (add32 (read32 image 28) (read16 image 44 * 32)))) [
              | inl beyond ↦ rw (long, good, beyond) refl
              | inr held ↦ elim (Bool-cases loaded.0) [
                | inl all ↦
                    rw (long, good, held, all)
                      (relocate_image-kept image image_size load_base window_size link_base below a
                          outside loaded.1
                        ∙ segments)
                | inr refused ↦ rw (long, good, held, refused) segments
              ]
            ]
      ]
    ]
