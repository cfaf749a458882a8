-- ===== src/Paging/Pool.antt =====
-- The pool of address spaces of kernel/paging.c.
use mx_os.Prelude.{
  ℕ, zero, suc, ◌+◌, ◌-◌, ◌≤◌, ◌<◌, ◌≡◌, refl, sym, ltb, ◌⊎◌, ap, Bool, true, false, none, some,
  List, [], ◌∷◌, arith, length, set, get_or, if◌then◌else◌, Option-cases, inl, inr,
}
use mx_os.Paging.{
  Layout, Paging, max_addr_spaces, set_up_space, find_unused, paging_create_task_directory_ex,
  paging_free_task_directory,
}

-- Every space is in use.
unfoldable pub all_used : List Bool → Bool
all_used [] = true
all_used (u ∷ us) = if u then all_used us else false

find_unused-none : (i : ℕ) (us : List Bool) → find_unused i us ≡ none → all_used us ≡ true
unfolding find_unused all_used
find_unused-none i [] e = refl
find_unused-none i (u ∷ us) e = ground (arith, find_unused-none (i + 1) us)

-- What `find_unused` finds is the first free index.
find_unused-some :
    (i k : ℕ) (us : List Bool)
    → find_unused i us ≡ some k
    → (i ≤ k) × (k < i + length us) × (get_or us (k - i) true ≡ false)
unfolding find_unused
find_unused-some i k [] e = cc
find_unused-some i k (true ∷ us) e =
    let rest = find_unused-some (i + 1) k us e in
    let shift : k - i ≡ suc (k - (i + 1)) = omega (arith, rest.0) in
    (omega (arith, rest.0), omega (arith, rest.1), rw shift rest.2)
find_unused-some i k (false ∷ us) e =
    let at : k ≡ i = cc in
    let none_before : k - i ≡ 0 = omega arith in (omega arith, omega arith, rw none_before)

module _ (l : Layout) (cb cs ub us : ℕ) (p : Paging) where
  create_none :
      find_unused 0 p.task_dir_used ≡ none
      → paging_create_task_directory_ex l cb cs ub us p ≡ (none, p)
  unfolding paging_create_task_directory_ex
  create_none e = rw (e, paging_create_task_directory_ex)

  create_some :
      (i : ℕ)
      → find_unused 0 p.task_dir_used ≡ some i
      → paging_create_task_directory_ex l cb cs ub us p ≡ (some i, set_up_space l cb cs ub us i p)
  unfolding paging_create_task_directory_ex
  create_some i e = rw (e, paging_create_task_directory_ex)

  -- Creating an address space fails exactly when every one is in use, and then changes nothing.
  -- Else it takes the index of one that is not in use and sets that one up.
  pub create_cases :
      ((paging_create_task_directory_ex l cb cs ub us p ≡ (none, p))
        × (all_used p.task_dir_used ≡ true))
      ⊎ ((i : ℕ) × (paging_create_task_directory_ex l cb cs ub us p
            ≡ (some i, set_up_space l cb cs ub us i p))
          × (i < length p.task_dir_used)
          × (get_or p.task_dir_used i true ≡ false))
  create_cases = elim (Option-cases (find_unused 0 p.task_dir_used)) [
    | inl e ↦ inl (create_none e, find_unused-none 0 p.task_dir_used e)
    | inr (k, e) ↦
        let found = find_unused-some 0 k p.task_dir_used e in
        let same : k - 0 ≡ k = omega arith in
        inr (k, create_some k e, omega (arith, found.1), rw same at (found.2))
  ]

set-set_self :
    (us : List Bool) (i : ℕ) (v : Bool) → get_or us i true ≡ false → set (set us i v) i false ≡ us
set-set_self [] i v e = refl
set-set_self (u ∷ us) zero v e = ap (λ b. b ∷ us) (sym e)
set-set_self (u ∷ us) (suc i) v e = ap (λ bs. u ∷ bs) (set-set_self us i v e)

-- Freeing the space that was just created gives back the pool as it was.
pub free-create :
    (l : Layout) (cb cs ub us : ℕ) (p : Paging) (i : ℕ)
    → length p.task_dir_used ≡ max_addr_spaces
    → (paging_create_task_directory_ex l cb cs ub us p).0 ≡ some i
    → (paging_free_task_directory i
        (paging_create_task_directory_ex l cb cs ub us p).1).task_dir_used
      ≡ p.task_dir_used
unfolding paging_free_task_directory set_up_space
free-create l cb cs ub us p i six e = elim (create_cases l cb cs ub us p) [
  | inl (full, _) ↦ cc
  | inr (k, made, lt, unused) ↦
      let same : some k ≡ some i = rw made at e in
      let at : k ≡ i = cc in
      let small : ltb i 6 ≡ true = ground (arith, lt, at) in
      rw (made, small) (rw at (set-set_self p.task_dir_used i true (rw at at unused)))
]
