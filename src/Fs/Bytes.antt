-- ===== src/Fs/Bytes.antt =====
-- What drivers/fs.c stores consists of bytes: its names, its numbers and its bitmap.
use mx_os.Prelude.{
  ℕ, zero, suc, ◌+◌, ◌-◌, ◌<◌, ◌&&◌, inl, inr, List, [], ◌∷◌, ◌++◌, arith, get_or, drop, set,
  replicate, ltb, ◌==◌, Bool-cases,
}
use mx_os.Fs.{le32, mark_from, marked, copy_name}
use mx_os.Fs.Sectors.{AreBytes}

pub append-AreBytes : (xs ys : List ℕ) → AreBytes xs → AreBytes ys → AreBytes (xs ++ ys)
append-AreBytes [] ys px py i = py i
append-AreBytes (x ∷ xs) ys px py zero = px 0
append-AreBytes (x ∷ xs) ys px py (suc i) = append-AreBytes xs ys (λ j. px (suc j)) py i

pub drop-AreBytes : (n : ℕ) (xs : List ℕ) → AreBytes xs → AreBytes (drop n xs)
drop-AreBytes zero xs px i = px i
drop-AreBytes (suc n) [] px i = omega arith
drop-AreBytes (suc n) (x ∷ xs) px i = drop-AreBytes n xs (λ j. px (suc j)) i

pub set-AreBytes : (xs : List ℕ) (i v : ℕ) → v < 256 → AreBytes xs → AreBytes (set xs i v)
set-AreBytes [] i v small px j = omega arith
set-AreBytes (x ∷ xs) zero v small px zero = small
set-AreBytes (x ∷ xs) zero v small px (suc j) = px (suc j)
set-AreBytes (x ∷ xs) (suc i) v small px zero = px 0
set-AreBytes (x ∷ xs) (suc i) v small px (suc j) = set-AreBytes xs i v small (λ k. px (suc k)) j

pub replicate-AreBytes : (n v : ℕ) → v < 256 → AreBytes (replicate n v)
replicate-AreBytes zero v small i = omega arith
replicate-AreBytes (suc n) v small zero = small
replicate-AreBytes (suc n) v small (suc i) = replicate-AreBytes n v small i

pub le32-AreBytes : (n : ℕ) → AreBytes (le32 n)
unfolding le32
le32-AreBytes n zero = omega arith
le32-AreBytes n (suc zero) = omega arith
le32-AreBytes n (suc (suc zero)) = omega arith
le32-AreBytes n (suc (suc (suc zero))) = omega arith
le32-AreBytes n (suc (suc (suc (suc i)))) = omega arith

mark_from-AreBytes :
    (n i idx count used : ℕ) (bitmap : List ℕ)
    → used < 256
    → AreBytes bitmap
    → AreBytes (mark_from n i idx count used bitmap)
unfolding mark_from
mark_from-AreBytes zero i idx count used bitmap small bytes = bytes
mark_from-AreBytes (suc n) i idx count used bitmap small bytes =
    elim (Bool-cases (ltb i count && ltb (idx + i) 511)) [
      | inr done ↦ rw done bytes
      | inl more ↦ rw more (
          mark_from-AreBytes n (i + 1) idx count used (set bitmap (idx + i) used) small
            (set-AreBytes bitmap (idx + i) used small bytes))
    ]

pub marked-AreBytes :
    (start count used : ℕ) (bitmap : List ℕ)
    → used < 256
    → AreBytes bitmap
    → AreBytes (marked start count used bitmap)
unfolding marked
marked-AreBytes start count used bitmap small bytes = elim (Bool-cases (ltb start 86)) [
  | inl low ↦ rw low bytes
  | inr high ↦ rw high (mark_from-AreBytes 511 0 (start - 86) count used bitmap small bytes)
]

pub copy_name-AreBytes :
    (n j : ℕ) (name dst : List ℕ) → AreBytes name → AreBytes dst → AreBytes (copy_name n j name dst)
unfolding copy_name
copy_name-AreBytes zero j name dst bytes old = old
copy_name-AreBytes (suc n) j name dst bytes old = elim (Bool-cases (get_or name j 0 == 0)) [
  | inl nul ↦ rw nul (set-AreBytes dst j 0 (omega arith) old)
  | inr more ↦ rw more (
      copy_name-AreBytes n (j + 1) name (set dst j (get_or name j 0)) bytes
        (set-AreBytes dst j (get_or name j 0) (bytes j) old))
]
