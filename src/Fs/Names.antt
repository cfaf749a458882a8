-- ===== src/Fs/Names.antt =====
-- Names in the directory of drivers/fs.c: how one is stored, and which entry a search finds.
use mx_os.Prelude.{
  ℕ, zero, suc, ◌+◌, ◌≤◌, ◌<◌, ◌≡◌, ◌≢◌, refl, ◌∙◌, sym, Bool, true, false, ◌&&◌, List, [], ◌∷◌,
  arith, inl, inr, length, length-set, set, get_or, get_or-default, get_or-set_self, get_or-set_ne,
  ltb, ◌==◌, ==_iff, Bool-cases,
}
use mx_os.Fs.{FileEntry, m_strcmp, valid_from, valid_name, copy_name}

-- A name that an entry can hold: 1 to 23 bytes, and no 0 among them.
pub record IsName (name : List ℕ) : Type 0 where
  pub some_byte : 0 < length name
  pub fits : length name ≤ 23
  pub no_nul : (j : ℕ) → j < length name → get_or name j 0 ≢ 0

-- The test of the searches.
unfoldable pub is_named : List ℕ → FileEntry → Bool
is_named name f = valid_name f.name && m_strcmp f.name name

m_strcmp-same :
    (s name : List ℕ)
    → ((j : ℕ) → j < length name → get_or name j 0 ≢ 0)
    → ((j : ℕ) → j ≤ length name → get_or s j 0 ≡ get_or name j 0)
    → m_strcmp s name ≡ true
unfolding m_strcmp
m_strcmp-same [] [] no_nul same = refl
m_strcmp-same [] (c ∷ name) no_nul same =
    absurd (no_nul 0 (omega arith) (sym (same 0 (omega arith))))
m_strcmp-same (d ∷ s) [] no_nul same = let z : d ≡ 0 = same 0 (omega arith) in rw z refl
m_strcmp-same (d ∷ s) (c ∷ name) no_nul same =
    let first : d ≡ c = same 0 (omega arith) in
    let not_nul : (c == 0) ≡ false = ground (arith, no_nul 0) in
    let own : (c == c) ≡ true = (==_iff c c).1 refl in
    rw (first, not_nul, own)
      (m_strcmp-same s name (λ j h. no_nul (suc j) (omega arith))
        (λ j h. same (suc j) (omega arith)))

valid_from-ends :
    (n i e : ℕ) (name : List ℕ)
    → i ≤ e
    → e < i + n
    → 0 < e
    → ((j : ℕ) → j < e → get_or name j 0 ≢ 0)
    → get_or name e 0 ≡ 0
    → valid_from n i name ≡ true
unfolding valid_from
valid_from-ends zero i e name lo hi pos no_nul nul = absurd (omega arith)
valid_from-ends (suc n) i e name lo hi pos no_nul nul = elim (Bool-cases (i == e)) [
  | inl at ↦
      let same : i ≡ e = (==_iff i e).0 at in
      let positive : ltb 0 e ≡ true = ground arith in rw (same, nul, positive) refl
  | inr apart ↦
      let goes_on : (get_or name i 0 == 0) ≡ false = ground (arith, no_nul i) in
      rw goes_on (valid_from-ends n (i + 1) e name (ground arith) (omega arith) pos no_nul nul)
]

pub length-copy_name : (n j : ℕ) (name dst : List ℕ) → length (copy_name n j name dst) ≡ length dst
unfolding copy_name
length-copy_name zero j name dst = refl
length-copy_name (suc n) j name dst = elim (Bool-cases (get_or name j 0 == 0)) [
  | inl nul ↦ rw nul (length-set dst j 0)
  | inr more ↦ rw more (
      length-copy_name n (j + 1) name (set dst j (get_or name j 0))
      ∙ length-set dst j (get_or name j 0))
]

-- The loop leaves what stands before it.
copy_name-before :
    (n j i : ℕ) (name dst : List ℕ) → i < j → get_or (copy_name n j name dst) i 0 ≡ get_or dst i 0
unfolding copy_name
copy_name-before zero j i name dst h = refl
copy_name-before (suc n) j i name dst h = elim (Bool-cases (get_or name j 0 == 0)) [
  | inl nul ↦ rw nul (get_or-set_ne dst j i 0 0 (omega arith))
  | inr more ↦ rw more (
      copy_name-before n (j + 1) i name (set dst j (get_or name j 0)) (omega arith)
      ∙ get_or-set_ne dst j i (get_or name j 0) 0 (omega arith))
]

-- It copies the name with its terminator, as far as the rounds reach.
copy_name-at :
    (n j i : ℕ) (name dst : List ℕ)
    → j ≤ i
    → i < j + n
    → i < length dst
    → ((c : ℕ) → c < i → get_or name c 0 ≢ 0)
    → get_or (copy_name n j name dst) i 0 ≡ get_or name i 0
unfolding copy_name
copy_name-at zero j i name dst lo hi room no_nul = absurd (omega arith)
copy_name-at (suc n) j i name dst lo hi room no_nul = elim (Bool-cases (get_or name j 0 == 0)) [
  | inl nul ↦
      let stop : get_or name j 0 ≡ 0 = (==_iff (get_or name j 0) 0).0 nul in
      elim (Bool-cases (j == i)) [
        | inl at ↦
            let same : j ≡ i = (==_iff j i).0 at in
            rw nul (rw same (get_or-set_self dst i 0 0 room ∙ sym (rw same at stop)))
        | inr apart ↦ absurd (no_nul j (ground arith) stop)
      ]
  | inr more ↦ elim (Bool-cases (j == i)) [
    | inl at ↦
        let same : j ≡ i = (==_iff j i).0 at in
        rw more (
          copy_name-before n (j + 1) i name (set dst j (get_or name j 0)) (omega arith)
          ∙ rw same (get_or-set_self dst i (get_or name i 0) 0 room))
    | inr apart ↦ rw more (
        copy_name-at n (j + 1) i name (set dst j (get_or name j 0)) (ground arith) (omega arith)
          (omega (arith, length-set dst j (get_or name j 0))) no_nul)
  ]
]

-- A name that fits is found again in the entry that `fs_add_entry` stores it in.
pub stored-is_named :
    (name old : List ℕ) (lba size : ℕ)
    → IsName name
    → length old ≡ 24
    → is_named name
        (record { name = set (copy_name 23 0 name old) 23 0; start_lba = lba; size_sect = size })
      ≡ true
unfolding valid_name is_named
stored-is_named name old lba size v room =
    rw
      (
        valid_from-ends 24 0 (length name) stored (omega arith) (omega (arith, v.fits)) v.some_byte
            (λ j h e. v.no_nul j h (sym (same j (omega arith)) ∙ e))
            (same (length name) (omega arith) ∙ ends),
        m_strcmp-same stored name v.no_nul same,
      )
      refl
  where
    stored : List ℕ
    stored = set (copy_name 23 0 name old) 23 0

    ends : get_or name (length name) 0 ≡ 0
    ends = get_or-default name (length name) 0 (omega arith)

    same : (j : ℕ) → j ≤ length name → get_or stored j 0 ≡ get_or name j 0
    same j h = elim (Bool-cases (j == 23)) [
      | inl at ↦
          let last : j ≡ 23 = (==_iff j 23).0 at in
          let whole : length name ≡ 23 = omega (arith, v.fits) in
          rw last (
            get_or-set_self (copy_name 23 0 name old) 23 0 0
              (omega (arith, length-copy_name 23 0 name old))
            ∙ sym (rw whole at ends))
      | inr apart ↦
          get_or-set_ne (copy_name 23 0 name old) 23 j 0 0 (ground arith)
          ∙ copy_name-at 23 0 j name old (omega arith) (ground (arith, v.fits))
              (omega (arith, v.fits)) (λ c lt. v.no_nul c (omega arith))
    ]
