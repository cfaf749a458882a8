-- ===== src/Elf/Tests.antt =====
-- The loader of kernel/elf.c on a small file.
use mx_os.Prelude.{
  ℕ, zero, suc, ◌≡◌, refl, arith, List, [], ◌∷◌, ◌++◌, get_or, replicate, inl, some,
}
use mx_os.Elf.{
  elf_load, load_segments, fill_segment, copy_segment, zero_fill, segment_at, header_ok, in_window,
  read32, read16,
}
use mx_os.Elf.Window.{IsSmall, elf_load-kept}

-- One PT_LOAD segment: 4 bytes of the file at offset 0, 8 bytes in memory.
abbrev pub bytes : List ℕ
bytes =
    (0x7F ∷ 69 ∷ 76 ∷ 70 ∷ 1 ∷ [])
    ++ replicate 13 0
    ++ (3 ∷ 0 ∷ 0 ∷ 0 ∷ 0 ∷ 0 ∷ [])
    ++ (0 ∷ 0 ∷ 48 ∷ 0 ∷ 52 ∷ 0 ∷ 0 ∷ 0 ∷ [])
    ++ replicate 12 0
    ++ (1 ∷ 0 ∷ [])
    ++ replicate 6 0
    ++ (1 ∷ 0 ∷ 0 ∷ 0 ∷ 0 ∷ 0 ∷ 0 ∷ 0 ∷ 0 ∷ 0 ∷ 48 ∷ 0 ∷ [])
    ++ replicate 4 0
    ++ (4 ∷ 0 ∷ 0 ∷ 0 ∷ 8 ∷ 0 ∷ 0 ∷ 0 ∷ [])
    ++ replicate 8 0

abbrev image : ℕ → ℕ
image o = get_or bytes o 0

-- Loaded at the second slot.
loaded_entry : (elf_load image 84 0x330000 0x20000 0x300000 (λ a. 9)).0 ≡ some 0x330000
unfolding elf_load load_segments fill_segment copy_segment zero_fill segment_at header_ok in_window
    read32 read16
loaded_entry = refl

image-IsSmall : IsSmall image (read16 image 44) (read32 image 28)
unfolding IsSmall segment_at read32 read16
image-IsSmall zero h t = omega arith
image-IsSmall (suc i) h t = absurd (omega arith)

elf_load-kept_example : (elf_load image 84 0x330000 0x20000 0x300000 (λ a. 9)).1 0x300000 ≡ 9
elf_load-kept_example =
    elf_load-kept image 84 0x330000 0x20000 0x300000 (λ a. 9) (omega arith) image-IsSmall 0x300000
      (inl (omega arith))
