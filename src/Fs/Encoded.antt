-- ===== src/Fs/Encoded.antt =====
-- The bytes of the directory of drivers/fs.c, and the directory that they decode to.
use mx_os.Prelude.{
  ℕ, zero, suc, ◌+◌, ◌*◌, ◌^◌, ◌<◌, ◌≡◌, refl, ◌∙◌, sym, ap, List, [], ◌∷◌, ◌++◌, append-nil,
  append_assoc, arith, length, length-append, take, drop,
}
use mx_os.Fs.{FileEntry, RootDirectory, le32, of_le32, raw_entries, raw, entries_of, root_of}
use mx_os.Fs.Bytes.{append-AreBytes, le32-AreBytes}
use mx_os.Fs.Sectors.{AreBytes}
use mx_os.Fs.Table.{file_at}

take-here : (n : ℕ) (xs ys : List ℕ) → length xs ≡ n → take n (xs ++ ys) ≡ xs
take-here zero [] ys h = refl
take-here zero (x ∷ xs) ys h = absurd (omega arith)
take-here (suc n) [] ys h = absurd (omega arith)
take-here (suc n) (x ∷ xs) ys h = ap (λ t. x ∷ t) (take-here n xs ys (omega arith))

drop-here : (n : ℕ) (xs ys : List ℕ) → length xs ≡ n → drop n (xs ++ ys) ≡ ys
drop-here zero [] ys h = refl
drop-here zero (x ∷ xs) ys h = absurd (omega arith)
drop-here (suc n) [] ys h = absurd (omega arith)
drop-here (suc n) (x ∷ xs) ys h = drop-here n xs ys (omega arith)

drop-nil : (n : ℕ) → drop {A = ℕ} n [] ≡ []
drop-nil zero = refl
drop-nil (suc n) = refl

-- Four strings of bytes, one behind the other.
append-four : (a b c d : List ℕ) → a ++ b ++ c ++ d ≡ a ++ (b ++ (c ++ d))
append-four a b c d = append_assoc (a ++ b) c d ∙ append_assoc a b (c ++ d)

drop-drop : (n m : ℕ) (xs : List ℕ) → drop (n + m) xs ≡ drop m (drop n xs)
drop-drop zero m xs = ap (λ k. drop k xs) (omega arith)
drop-drop (suc n) m [] = drop-nil (suc n + m) ∙ sym (drop-nil m)
drop-drop (suc n) m (x ∷ xs) =
    let next : suc n + m ≡ suc (n + m) = omega arith in
    ap (λ k. drop k (x ∷ xs)) next ∙ drop-drop n m xs

of_le32-le32 : (n : ℕ) (rest : List ℕ) → n < 2 ^ 32 → of_le32 (le32 n ++ rest) ≡ n
unfolding of_le32 le32
of_le32-le32 n rest h = omega arith

-- The fields of an entry are 32-bit numbers, and its name has 24 bytes.
pub record IsEntry (f : FileEntry) : Type 0 where
  pub room : length f.name ≡ 24
  pub bytes : AreBytes f.name
  pub start : f.start_lba < 2 ^ 32
  pub size : f.size_sect < 2 ^ 32

-- A directory that its bytes hold.
pub record IsEncodable (r : RootDirectory) : Type 0 where
  pub word : r.magic < 2 ^ 32
  pub entries : length r.files ≡ 32
  pub files : (j : ℕ) → j < 32 → IsEntry (file_at r.files j)
  pub next : r.next_free_lba < 2 ^ 32
  pub rest : length r.reserved ≡ 24
  pub rest_bytes : AreBytes r.reserved

raw_entries-cons :
    (f : FileEntry) (files : List FileEntry)
    → raw_entries (f ∷ files)
      ≡ f.name ++ (le32 f.start_lba ++ (le32 f.size_sect ++ raw_entries files))
unfolding raw_entries
raw_entries-cons f files =
    append-four f.name (le32 f.start_lba) (le32 f.size_sect) (raw_entries files)

raw-parts :
    (r : RootDirectory)
    → raw r ≡ le32 r.magic ++ (raw_entries r.files ++ (le32 r.next_free_lba ++ r.reserved))
unfolding raw
raw-parts r = append-four (le32 r.magic) (raw_entries r.files) (le32 r.next_free_lba) r.reserved

length-raw_entries :
    (files : List FileEntry)
    → ((j : ℕ) → j < length files → IsEntry (file_at files j))
    → length (raw_entries files) ≡ 32 * length files
unfolding raw_entries le32
length-raw_entries [] h = omega arith
length-raw_entries (f ∷ files) h =
    let first = (h 0 (omega arith)).room in
    let others = length-raw_entries files (λ j lt. h (suc j) (omega arith)) in
    ap length (raw_entries-cons f files)
    ∙ length-append f.name (le32 f.start_lba ++ (le32 f.size_sect ++ raw_entries files))
    ∙ omega (arith, first, others)

entries_of-raw_entries :
    (files : List FileEntry) (n : ℕ) (rest : List ℕ)
    → length files ≡ n
    → ((j : ℕ) → j < length files → IsEntry (file_at files j))
    → entries_of n (raw_entries files ++ rest) ≡ files
unfolding entries_of raw_entries
entries_of-raw_entries [] zero rest count h = refl
entries_of-raw_entries [] (suc n) rest count h = absurd (omega arith)
entries_of-raw_entries (f ∷ files) zero rest count h = absurd (omega arith)
entries_of-raw_entries (f ∷ files) (suc n) rest count h =
    let entry = h 0 (omega arith) in
    let behind = le32 f.start_lba ++ (le32 f.size_sect ++ (raw_entries files ++ rest)) in
    let bytes : raw_entries (f ∷ files) ++ rest ≡ f.name ++ behind =
      ap (λ b. b ++ rest) (raw_entries-cons f files)
      ∙ append_assoc f.name (le32 f.start_lba ++ (le32 f.size_sect ++ raw_entries files)) rest
      ∙ unfold le32 in refl in
    let b24 : drop 24 (f.name ++ behind) ≡ behind = drop-here 24 f.name behind entry.room in
    let b28 : drop 28 (f.name ++ behind) ≡ le32 f.size_sect ++ (raw_entries files ++ rest) =
      drop-drop 24 4 (f.name ++ behind) ∙ ap (drop 4) b24 ∙ unfold le32 in refl in
    let b32 : drop 32 (f.name ++ behind) ≡ raw_entries files ++ rest =
      drop-drop 24 8 (f.name ++ behind) ∙ ap (drop 8) b24 ∙ unfold le32 in refl in
    let name = ap (take 24) bytes ∙ take-here 24 f.name behind entry.room in
    let start =
      ap (λ b. of_le32 (drop 24 b)) bytes
      ∙ ap of_le32 b24
      ∙ of_le32-le32 f.start_lba (le32 f.size_sect ++ (raw_entries files ++ rest)) entry.start in
    let size =
      ap (λ b. of_le32 (drop 28 b)) bytes
      ∙ ap of_le32 b28
      ∙ of_le32-le32 f.size_sect (raw_entries files ++ rest) entry.size in
    let others =
      ap (λ b. entries_of n (drop 32 b)) bytes
      ∙ ap (entries_of n) b32
      ∙ entries_of-raw_entries files n rest (omega arith) (λ j lt. h (suc j) (omega arith)) in
    λ i. record { name = name i; start_lba = start i; size_sect = size i } ∷ others i

pub length-raw : (r : RootDirectory) → IsEncodable r → length (raw r) ≡ 1056
unfolding le32
length-raw r v =
    let whole = length-raw_entries r.files (λ j lt. v.files j (omega (arith, v.entries))) in
    let last = le32 r.next_free_lba ++ r.reserved in
    let sum = length-append (raw_entries r.files) last in
    ap length (raw-parts r) ∙ omega (arith, whole, sum, v.entries, v.rest)

-- Decoding gives the directory back.
pub root_of-raw : (r : RootDirectory) → IsEncodable r → root_of (raw r) ≡ r
unfolding root_of
root_of-raw r v =
    let last = le32 r.next_free_lba ++ r.reserved in
    let body = raw_entries r.files ++ last in
    let fits = λ (j : ℕ) (lt : j < length r.files). v.files j (omega (arith, v.entries)) in
    let whole : length (raw_entries r.files) ≡ 1024 =
      length-raw_entries r.files fits ∙ omega (arith, v.entries) in
    let b4 : drop 4 (le32 r.magic ++ body) ≡ body = unfold le32 in refl in
    let b1028 : drop 1028 (le32 r.magic ++ body) ≡ last =
      drop-drop 4 1024 (le32 r.magic ++ body)
      ∙ ap (drop 1024) b4
      ∙ drop-here 1024 (raw_entries r.files) last whole in
    let b1032 : drop 1032 (le32 r.magic ++ body) ≡ r.reserved =
      drop-drop 1028 4 (le32 r.magic ++ body) ∙ ap (drop 4) b1028 ∙ unfold le32 in refl in
    let magic = of_le32-le32 r.magic body v.word in
    let files = ap (entries_of 32) b4 ∙ entries_of-raw_entries r.files 32 last v.entries fits in
    let next = ap of_le32 b1028 ∙ of_le32-le32 r.next_free_lba r.reserved v.next in
    let reserved =
      ap (take 24) (b1032 ∙ sym (append-nil r.reserved)) ∙ take-here 24 r.reserved [] v.rest in
    ap root_of (raw-parts r) ∙ (λ i. record {
      magic = magic i;
      files = files i;
      next_free_lba = next i;
      reserved = reserved i;
    })

raw_entries-AreBytes :
    (files : List FileEntry)
    → ((j : ℕ) → j < length files → IsEntry (file_at files j))
    → AreBytes (raw_entries files)
unfolding raw_entries
raw_entries-AreBytes [] h = λ i. omega arith
raw_entries-AreBytes (f ∷ files) h =
    append-AreBytes (f.name ++ le32 f.start_lba ++ le32 f.size_sect) (raw_entries files)
      (append-AreBytes (f.name ++ le32 f.start_lba) (le32 f.size_sect)
        (append-AreBytes f.name (le32 f.start_lba) (h 0 (omega arith)).bytes
          (le32-AreBytes f.start_lba))
        (le32-AreBytes f.size_sect))
      (raw_entries-AreBytes files (λ j lt. h (suc j) (omega arith)))

pub raw-AreBytes : (r : RootDirectory) → IsEncodable r → AreBytes (raw r)
unfolding raw
raw-AreBytes r v =
    let files = raw_entries-AreBytes r.files (λ j lt. v.files j (omega (arith, v.entries))) in
    append-AreBytes (le32 r.magic ++ raw_entries r.files ++ le32 r.next_free_lba) r.reserved
      (append-AreBytes (le32 r.magic ++ raw_entries r.files) (le32 r.next_free_lba)
        (append-AreBytes (le32 r.magic) (raw_entries r.files) (le32-AreBytes r.magic) files)
        (le32-AreBytes r.next_free_lba))
      v.rest_bytes
