-- ===== src/Shell/Run/Persist.antt =====
-- The history's file of kernel/shell.c survives a restart.
use mx_os.Prelude.{
  ℕ, zero, suc, ◌+◌, ◌*◌, ◌≤◌, ◌<◌, ◌≡◌, ◌≢◌, refl, ◌∙◌, sym, ap, subst, ◌⊎◌, inl, inr, Bool, true,
  false, List, [], ◌∷◌, append-nil, take, arith, length, get_or, ltb, ◌==◌, Bool-cases,
}
use mx_os.Fs.{Disk, Fs, padded, fs_load_file, fs_file_exists, fs_delete_file, fs_write_file}
use mx_os.Fs.Cleared.{cleared}
use mx_os.Fs.Data.{length-padded}
use mx_os.Fs.Names.{IsName}
use mx_os.Fs.Resave.{get_or-padded, fs_load_file-exists, resaved-Loaded}
use mx_os.Fs.RoundTrip.{sectors_of, NoRoom}
use mx_os.Fs.Saved.{IsDirectory}
use mx_os.Fs.Sectors.{Reliable}
use mx_os.Fs.Table.{IsOnly}
use mx_os.Shell.{Shell, max_steps, history_from_bytes}
use mx_os.Shell.Recent.{Keeps}
use mx_os.Shell.Run.{history_file, add_lines, history_save, history_load_from_disk}
use mx_os.Shell.Run.Reload.{
  AreLines, pushed, LinesAt-bytes, LinesAt-size, history_from_bytes-Keeps, pushed-rows_of,
}
use mx_os.Shell.Run.Text.{LinesAt, LinesAt-Same, rows_of, text_size, add_lines-LinesAt}

-- Every byte is at least 1.
ArePositive : List ℕ → Type 0
ArePositive [] = Unit
ArePositive (c ∷ cs) = (0 < c) × ArePositive cs

get_or-ArePositive : (cs : List ℕ) → ArePositive cs → (j : ℕ) → j < length cs → get_or cs j 0 ≢ 0
unfolding ArePositive
get_or-ArePositive [] h j below = absurd (omega arith)
get_or-ArePositive (c ∷ cs) (some_byte, h) zero below = omega arith
get_or-ArePositive (c ∷ cs) (some_byte, h) (suc j) below = get_or-ArePositive cs h j (omega arith)

history_file-IsName : IsName history_file
history_file-IsName = record {
  some_byte = omega arith;
  fits = omega arith;
  no_nul = get_or-ArePositive history_file (unfold ArePositive in omega arith);
}

-- What can be saved: each command that is kept has 1 to 255 characters, bytes other than a line
-- feed and 0, and with a line feed behind each they take at most 2047 bytes.
pub record IsSavable (s : Shell) : Type 0 where
  pub some_command : 0 < s.history_count
  pub lines : AreLines (rows_of (max_steps s) s)
  pub room : text_size (rows_of (max_steps s) s) ≤ 2047

module _ {D : Type 0} (dev : Disk D) where
  history_save-some :
      (s : Shell) (fs : Fs D)
      → let (buf, len) = add_lines (max_steps s) s (λ i. 0, 0) in
        len ≢ 0
        → history_save dev s fs
          ≡ (fs_write_file dev history_file buf len (fs_delete_file dev history_file fs).1).1
  unfolding history_save
  history_save-some s fs h =
      let some_text : ((add_lines (max_steps s) s (λ i. 0, 0)).1 == 0) ≡ false = ground arith in
      rw some_text refl

  history_load-bytes :
      (bytes : List ℕ) (s : Shell) (fs : Fs D)
      → (fs_load_file dev history_file 2048 fs).0 ≡ (true, bytes)
      → (history_load_from_disk dev s fs).0
        ≡ history_from_bytes (λ i. get_or bytes i 0) (length bytes) s
  unfolding history_load_from_disk
  history_load-bytes bytes s fs file =
      let there : fs_file_exists dev history_file fs ≡ true =
        fs_load_file-exists dev history_file 2048 fs (ap (λ r. r.0) file) in
      let done : (fs_load_file dev history_file 2048 fs).0.0 ≡ true = ap (λ r. r.0) file in
      rw (there, done)
        (ap (λ (r : Bool × List ℕ). history_from_bytes (λ i. get_or r.1 i 0) (length r.1) s) file)

-- The bytes of the file are the text, with zeros behind it.
padded-Keeps :
    (size len : ℕ) (buf : ℕ → ℕ) (s t : Shell) (n : ℕ)
    → len ≤ size
    → LinesAt buf 0 (rows_of n s) len
    → AreLines (rows_of n s)
    → Keeps t []
    → Keeps
        (history_from_bytes
          (λ i. get_or (padded size 0 len buf) i 0)
          (length (padded size 0 len buf))
          t)
        (pushed (rows_of n s) [])
padded-Keeps size len buf s t n fits text lines keeps =
    history_from_bytes-Keeps (λ i. get_or (padded size 0 len buf) i 0) len
      (length (padded size 0 len buf)) (rows_of n s) t
      (LinesAt-Same buf (λ i. get_or (padded size 0 len buf) i 0) 0 len (rows_of n s)
        (sym (LinesAt-size buf 0 len (rows_of n s) text)) same text)
      lines end keeps
  where
    same : (j : ℕ) → j < len → buf j ≡ get_or (padded size 0 len buf) j 0
    same j below =
        let at : 0 + j ≡ j = omega arith in
        let inside : ltb j len ≡ true = ground arith in
        sym (get_or-padded size 0 len buf j (omega arith) ∙ rw (at, inside) refl)

    end :
        (len ≡ length (padded size 0 len buf))
        ⊎ ((len < length (padded size 0 len buf)) × (get_or (padded size 0 len buf) len 0 ≡ 0))
    end = elim (Bool-cases (ltb len size)) [
      | inr full ↦ inl (ground (arith, length-padded size 0 len buf))
      | inl more ↦
          let at : 0 + len ≡ len = omega arith in
          let past : ltb len len ≡ false = ground arith in
          inr (
            ground (arith, length-padded size 0 len buf),
            get_or-padded size 0 len buf len (ground arith) ∙ rw (at, past) refl,
          )
    ]

text_size-rows : (n : ℕ) (s : Shell) → 0 < n → 0 < text_size (rows_of n s)
unfolding text_size rows_of
text_size-rows zero s h = absurd (omega arith)
text_size-rows (suc n) s h = omega arith

take-all : (n : ℕ) (cs : List (List ℕ)) → length cs ≤ n → take n cs ≡ cs
take-all zero [] h = refl
take-all (suc n) [] h = refl
take-all zero (c ∷ cs) h = absurd (omega arith)
take-all (suc n) (c ∷ cs) h = ap (λ xs. c ∷ xs) (take-all n cs (omega arith))

take-max_steps : (s : Shell) (cs : List (List ℕ)) → Keeps s cs → take (max_steps s) cs ≡ take 8 cs
unfolding Keeps max_steps
take-max_steps s cs (count, kept) = elim (Bool-cases (ltb s.history_count 8)) [
  | inl few ↦ rw few (
      take-all s.history_count cs (omega (arith, count))
      ∙ sym (take-all 8 cs (ground (arith, count))))
  | inr many ↦ rw many refl
]

max_steps-cs :
    (s : Shell) (cs : List (List ℕ)) → Keeps s cs → (max_steps s ≤ 8) × (max_steps s ≤ length cs)
unfolding Keeps max_steps
max_steps-cs s cs (count, kept) = ground arith

module _ {D : Type 0} (dev : Disk D) (ok : Reliable dev) where
  -- On a disk without errors that stores sectors of 512 bytes, with a directory and a bitmap of
  -- their sizes and at most one file of that name: if a shell keeps a command at least and all that
  -- it keeps can be saved (each 1 to 255 bytes, none a line feed or 0, 2047 bytes in all with a
  -- line feed behind each), then after `history_save`, where there was room for the file,
  -- `history_load_from_disk` gives a shell without history the same commands, the last eight.
  pub history_save-Keeps :
      (s t : Shell) (cs : List (List ℕ)) (fs : Fs D)
      → IsDirectory fs.root.files
      → length fs.bitmap ≡ 512
      → IsOnly history_file fs.root.files
      → Keeps s cs
      → IsSavable s
      → Keeps t []
      → Keeps (history_load_from_disk dev t (history_save dev s fs)).0 (take 8 cs)
        ⊎ NoRoom (text_size (rows_of (max_steps s) s)) (cleared dev history_file fs)
  history_save-Keeps s t cs fs dir sizes only keeps ready fresh =
      let n = max_steps s in
      let size = text_size (rows_of n s) in
      let (near, many) = max_steps-cs s cs keeps in
      let (end, same, text) = add_lines-LinesAt n s (λ i. 0) 0 (omega (arith, ready.room)) in
      let buf = (add_lines n s (λ i. 0, 0)).0 in
      let whole : (add_lines n s (λ i. 0, 0)).1 ≡ size = omega (arith, end) in
      let some_text : 0 < size =
        text_size-rows n s (unfold max_steps in ground (arith, ready.some_command)) in
      let saved : history_save dev s fs
          ≡ (fs_write_file dev history_file buf size (fs_delete_file dev history_file fs).1).1 =
        history_save-some dev s fs (omega (arith, whole, some_text))
        ∙ ap (λ k. (fs_write_file dev history_file buf k (fs_delete_file dev history_file fs).1).1)
            whole in
      let commands : pushed (rows_of n s) [] ≡ take 8 cs =
        pushed-rows_of n s cs [] keeps near many
        ∙ append-nil (take n cs)
        ∙ take-max_steps s cs keeps in
      let lines : LinesAt buf 0 (rows_of n s) size =
        subst (LinesAt buf 0 (rows_of n s)) whole text in
      elim (resaved-Loaded dev ok history_file buf size 2048 fs history_file-IsName dir sizes only
        some_text (omega (arith, ready.room)) (omega (arith, ready.room))
        (λ j below.
          LinesAt-bytes buf 0 size (rows_of n s) lines ready.lines j (omega arith) below)) [
            | inr full ↦ inr full
            | inl (done, file) ↦ inl (
                rw saved (
                  subst (λ u. Keeps u (take 8 cs))
                    (sym
                      (history_load-bytes dev (padded (512 * sectors_of size) 0 size buf) t _ file))
                    (subst
                      (λ c.
                        Keeps
                          (history_from_bytes
                            (λ i. get_or (padded (512 * sectors_of size) 0 size buf) i 0)
                            (length (padded (512 * sectors_of size) 0 size buf)) t)
                          c)
                      commands
                      (padded-Keeps (512 * sectors_of size) size buf s t n (omega arith) lines
                        ready.lines fresh))))
          ]
