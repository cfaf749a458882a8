-- ===== src/Paging/Isolation.antt =====
-- Which pages the tables of kernel/paging.c open to ring3.
use Prim.Native.Nat.{bit_or}
use mx_os.Prelude.{
  ℕ, zero, suc, ◌+◌, ◌*◌, ◌/◌, ◌%◌, ◌≤◌, ◌<◌, ◌≡◌, ◌↔◌, ◌⊎◌, inl, inr, ◌∙◌, ap, Bool, true, not,
  ◌&&◌, arith, ◌==◌, leb, get_or, if◌then◌else◌, Bool-cases,
}
use mx_os.Prelude.Bits.{page-or-three, page-or-seven}
use mx_os.Paging.{Layout, overlaps, page_flags, fill_from, fill_identity_table}

-- The page that an entry maps to, and its User bit.
abbrev pub frame_of : ℕ → ℕ
frame_of e = e / 4096

abbrev pub is_user : ℕ → Bool
is_user e = e / 4 % 2 == 1

-- Some byte of page `j` lies between `lo` and `hi`.
abbrev pub Meets : ℕ → ℕ → ℕ → Type 0
Meets j lo hi = (x : ℕ) × (x / 4096 ≡ j) × (lo ≤ x) × (x < hi)

overlaps-Meets : (j lo hi : ℕ) → lo < hi → overlaps (j * 4096) lo hi ≡ true → Meets j lo hi
unfolding overlaps
overlaps-Meets j lo hi h e =
    (if leb lo (j * 4096) then j * 4096 else lo, ground arith, ground arith, ground arith)

Meets-overlaps : (j lo hi : ℕ) → Meets j lo hi → overlaps (j * 4096) lo hi ≡ true
unfolding overlaps
Meets-overlaps j lo hi (x, p, q, r) = ground arith

-- The test of an optional window, in which equal ends stand for no window.
abbrev tests : ℕ → ℕ → ℕ → Bool
tests j lo hi = not (lo == hi) && overlaps (j * 4096) lo hi

tests-Meets : (j lo hi : ℕ) → lo ≤ hi → tests j lo hi ≡ true → Meets j lo hi
tests-Meets j lo hi h e = overlaps-Meets j lo hi (ground arith) (ground arith)

Meets-tests : (j lo hi : ℕ) → Meets j lo hi → tests j lo hi ≡ true
Meets-tests j lo hi (x, p, q, r) = ground (arith, Meets-overlaps j lo hi (x, p, q, r))

-- A page that User code may touch has a byte of one of the three windows.
module _ (l : Layout) (us ue cs ce : ℕ) where
  get_or-fill_from :
      (n i j : ℕ)
      → j < n
      → get_or (fill_from l n i us ue cs ce) j 0
        ≡ bit_or ((i + j) * 4096) (page_flags l ((i + j) * 4096) us ue cs ce)
  unfolding fill_from
  get_or-fill_from zero i j h = absurd (omega arith)
  get_or-fill_from (suc n) i zero h =
      ap (λ k. bit_or (k * 4096) (page_flags l (k * 4096) us ue cs ce)) (omega arith)
  get_or-fill_from (suc n) i (suc j) h =
      get_or-fill_from n (i + 1) j (omega arith)
      ∙ ap (λ k. bit_or (k * 4096) (page_flags l (k * 4096) us ue cs ce)) (omega arith)

  abbrev pub Open : ℕ → Type 0
  Open j = Meets j l.text_start l.ro_end ⊎ Meets j us ue ⊎ Meets j cs ce

  -- The flags are 7 where one of the three windows meets the page, and 3 elsewhere.
  page_flags_cases :
      (j : ℕ)
      → l.text_start < l.ro_end
      → us ≤ ue
      → cs ≤ ce
      → ((page_flags l (j * 4096) us ue cs ce ≡ 7) × Open j)
        ⊎ ((page_flags l (j * 4096) us ue cs ce ≡ 3) × ¬ Open j)
  unfolding page_flags
  page_flags_cases j ht hu hc = elim (Bool-cases (tests j cs ce)) [
    | inl c ↦ inl (rw c, inr (inr (tests-Meets j cs ce hc c)))
    | inr c ↦ elim (Bool-cases (tests j us ue)) [
      | inl u ↦ inl (rw (c, u), inr (inl (tests-Meets j us ue hu u)))
      | inr u ↦ elim (Bool-cases (overlaps (j * 4096) l.text_start l.ro_end)) [
        | inl t ↦ inl (rw (c, u, t), inl (overlaps-Meets j l.text_start l.ro_end ht t))
        | inr t ↦ inr (
          rw (c, u, t),
          λ m. elim m [
            | inl a ↦ cc (Meets-overlaps j l.text_start l.ro_end a)
            | inr (inl a) ↦ cc (Meets-tests j us ue a)
            | inr (inr a) ↦ cc (Meets-tests j cs ce a)
          ],
        )
      ]
    ]
  ]

  -- The shared code is not empty (`text_start` is below `ro_end`), and the windows of stack and
  -- code do not wrap: neither ends below its start. Then every entry of a table maps its page to
  -- itself, Present and writable. Its User bit is set exactly where the page has a byte of the
  -- shared code, of the task's stack or of its code window.
  pub fill_identity_table-is_user :
      (j : ℕ)
      → j < 1024
      → l.text_start < l.ro_end
      → us ≤ ue
      → cs ≤ ce
      → let e = get_or (fill_identity_table l us ue cs ce) j 0 in
        (frame_of e ≡ j) × (e % 4 ≡ 3) × ((is_user e ≡ true) ↔ Open j)
  unfolding fill_identity_table
  fill_identity_table-is_user j h ht hu hc = rw entry (elim (page_flags_cases j ht hu hc) [
    | inl (f, m) ↦ rw (f, page-or-seven j h) (omega arith, omega arith, (λ _. m, λ _. ground arith))
    | inr (f, m) ↦
        rw (f, page-or-three j h)
          (omega arith, omega arith, (λ t. absurd (ground (arith, t)), λ o. absurd (m o)))
  ])
    where
      entry :
          get_or (fill_from l 1024 0 us ue cs ce) j 0
          ≡ bit_or (j * 4096) (page_flags l (j * 4096) us ue cs ce)
      entry =
          get_or-fill_from 1024 0 j h
          ∙ ap (λ k. bit_or (k * 4096) (page_flags l (k * 4096) us ue cs ce)) (omega arith)
