-- ===== src/Fs/Output.antt =====
-- `fs_list` and `fs_read_file` of drivers/fs.c. Their output is a value: the names that are listed,
-- and the characters of the file; the messages around them are left out.
use mx_os.Prelude.{
  ℕ, zero, suc, ◌+◌, ◌-◌, ◌*◌, ◌^◌, ◌≡◌, refl, ◌∙◌, sym, ap, Bool, false, ◌&&◌, ◌||◌, none, some,
  List, [], ◌∷◌, ◌++◌, map, take, arith, get_or, ltb, leb, ◌==◌, if◌then◌else◌, u32, min,
  Bool-cases, Option-cases, inl, inr,
}
use mx_os.Fs.{
  Disk, Fs, FileEntry, valid_name, find_entry, bad_entry, load_loop, load_entry, fs_load_file,
}

-- The loop of `fs_list`.
pub listed : List FileEntry → List (List ℕ)
listed [] = []
listed (f ∷ files) = let rest = listed files in if valid_name f.name then f.name ∷ rest else rest

pub fs_list : {D : Type 0} → Fs D → List (List ℕ)
fs_list fs = listed fs.root.files

pub shown_char : ℕ → ℕ
shown_char c = if c == 10 || c == 13 || c == 9 || (leb 32 c && ltb c 127) then c else 46

pub print_text_buffer : ℕ → List ℕ → List ℕ
print_text_buffer zero b = []
print_text_buffer (suc n) [] = []
print_text_buffer (suc n) (c ∷ b) = shown_char c ∷ print_text_buffer n b

module _ {D : Type 0} (dev : Disk D) where
  -- The loop of `fs_read_file`; the bytes that remain bound its rounds.
  pub print_loop : ℕ → ℕ → ℕ → D → List ℕ × D
  print_loop zero lba remaining d = ([], d)
  print_loop (suc n) lba remaining d =
      let r = dev.read_sector lba d in
      let chunk = min 512 remaining in
      let rest = print_loop n (lba + 1) (remaining - chunk) r.1 in
      if remaining == 0
      then ([], d)
      else elim r.0 [ none ↦ ([], r.1) | some b ↦ (print_text_buffer chunk b ++ rest.0, rest.1) ]

  pub print_entry : FileEntry → Fs D → List ℕ × Fs D
  print_entry f fs =
      let total_bytes = u32 (f.size_sect * 512) in
      let r = print_loop total_bytes f.start_lba total_bytes fs.disk in
      if bad_entry dev f then ([], fs) else (r.0, record fs { disk = r.1 })

  pub fs_read_file : List ℕ → Fs D → List ℕ × Fs D
  fs_read_file name fs =
      if get_or name 0 0 == 0
      then ([], fs)
      else elim (find_entry name 0 fs.root.files) [ none ↦ ([], fs) | some f ↦ print_entry f.1 fs ]

print_text_buffer-take : (n : ℕ) (b : List ℕ) → print_text_buffer n b ≡ map shown_char (take n b)
unfolding print_text_buffer
print_text_buffer-take zero b = refl
print_text_buffer-take (suc n) [] = refl
print_text_buffer-take (suc n) (c ∷ b) = ap (λ xs. shown_char c ∷ xs) (print_text_buffer-take n b)

map-append : (f : ℕ → ℕ) (xs ys : List ℕ) → map f (xs ++ ys) ≡ map f xs ++ map f ys
map-append f [] ys = refl
map-append f (x ∷ xs) ys = ap (λ zs. f x ∷ zs) (map-append f xs ys)

module _ {D : Type 0} (dev : Disk D) where
  -- What is printed of what was loaded.
  abbrev pub printed : (Bool × List ℕ) × D → List ℕ × D
  printed r = (map shown_char r.0.1, r.1)

  print_loop-load :
      (n lba remaining : ℕ) (d : D)
      → print_loop dev n lba remaining d ≡ printed (load_loop dev n lba remaining d)
  unfolding print_loop load_loop
  print_loop-load zero lba remaining d = refl
  print_loop-load (suc n) lba remaining d =
      let r = dev.read_sector lba d in
      let rest = print_loop-load n (lba + 1) (remaining - min 512 remaining) r.1 in
      elim (Bool-cases (remaining == 0)) [
        | inl done ↦ rw done refl
        | inr more ↦ elim (Option-cases r.0) [
          | inl failed ↦ rw (more, failed) refl
          | inr (b, read) ↦
              rw (more, read)
                (step (min 512 remaining) b
                  (print_loop dev n (lba + 1) (remaining - min 512 remaining) r.1)
                  (load_loop dev n (lba + 1) (remaining - min 512 remaining) r.1) rest)
        ]
      ]
    where
      step :
          (n : ℕ) (b : List ℕ) (p : List ℕ × D) (q : (Bool × List ℕ) × D)
          → p ≡ printed q
          → ◌≡◌ {A = List ℕ × D}
              (print_text_buffer n b ++ p.0, p.1)
              (map shown_char (take n b ++ q.0.1), q.1)
      step n b p q same =
          ap (λ (r : List ℕ × D). (print_text_buffer n b ++ r.0, r.1)) same
          ∙ ap (λ xs. (xs, q.1))
              (ap (λ ys. ys ++ map shown_char q.0.1) (print_text_buffer-take n b)
                ∙ sym (map-append shown_char (take n b) q.0.1))

  print_entry-load :
      (f : FileEntry) (fs : Fs D)
      → print_entry dev f fs
        ≡ (map shown_char (load_entry dev f (2 ^ 32) fs).0.1, (load_entry dev f (2 ^ 32) fs).1)
  unfolding print_entry load_entry
  print_entry-load f fs =
      let total = u32 (f.size_sect * 512) in
      let same = print_loop-load total f.start_lba total fs.disk in
      let fits : ltb (2 ^ 32) total ≡ false = ground arith in
      elim (Bool-cases (bad_entry dev f)) [
        | inl bad ↦ rw bad refl
        | inr good ↦ rw (good, fits) (ap (λ (r : List ℕ × D). (r.0, record fs { disk = r.1 })) same)
      ]

  -- `fs_read_file` prints, character by character, what `fs_load_file` loads where there is room
  -- for every file, up to the first sector that cannot be read, and does the same to the disk. A
  -- character that is neither printable nor a line feed, a carriage return or a tab is printed as a
  -- full stop.
  pub fs_read_file-load :
      (name : List ℕ) (fs : Fs D)
      → fs_read_file dev name fs ≡ (
        map shown_char (fs_load_file dev name (2 ^ 32) fs).0.1,
        (fs_load_file dev name (2 ^ 32) fs).1,
      )
  unfolding fs_read_file fs_load_file
  fs_read_file-load name fs = elim (Bool-cases (get_or name 0 0 == 0)) [
    | inl empty ↦ rw empty refl
    | inr named ↦ elim (Option-cases (find_entry name 0 fs.root.files)) [
      | inl missing ↦ rw (named, missing) refl
      | inr (f, found) ↦ rw (named, found) (print_entry-load f.1 fs)
    ]
  ]
