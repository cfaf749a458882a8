-- ===== src/Mem/Release.antt =====
-- Freeing a block of a row takes its region out of those in use.
use mx_os.Prelude.{
  ℕ, ◌+◌, ◌≤◌, ◌≡◌, refl, ap, true, false, inl, inr, List, [], ◌∷◌, ◌++◌, arith, ◌==◌, ==_iff,
  Bool-cases,
}
use mathlib.Core.Path.{subst}
use mx_os.Mem.Blocks.{Block, join, release, is_payload}
use mx_os.Mem.Live.{Region, live, has, erase, Separate, Added}

has-live-le : (p a : ℕ) (bs : List Block) → has p (live a bs) ≡ true → a + 12 ≤ p
unfolding has live
has-live-le p a [] h = cc
has-live-le p a (b ∷ bs) h = elim (Bool-cases b.is_free) [
  | inl free ↦ omega (arith, has-live-le p (a + 12 + b.size) bs (ground arith))
  | inr used ↦ elim (Bool-cases (p == a + 12)) [
    | inl at ↦ ground arith
    | inr past ↦ omega (arith, has-live-le p (a + 12 + b.size) bs (ground arith))
  ]
]

-- A region in use is a payload.
pub is_payload_of_has :
    (p a : ℕ) (bs : List Block) → has p (live a bs) ≡ true → is_payload p a bs ≡ true
unfolding has live is_payload
is_payload_of_has p a [] h = cc
is_payload_of_has p a (b ∷ bs) h = ground (arith, is_payload_of_has p (a + 12 + b.size) bs)

live-join : (a : ℕ) (b : Block) (bs : List Block) → live a (join b bs) ≡ live (a + 12 + b.size) bs
unfolding live join
live-join a b [] = refl
live-join a b (d ∷ bs) = elim (Bool-cases d.is_free) [
  | inl free ↦ rw free (ap (λ n. live n bs) (omega arith))
  | inr used ↦ rw used
]

-- The block in front is the one in use at `p`, since a free one has all regions behind it.
live-release_here :
    (p a : ℕ) (b : Block) (bs : List Block)
    → has p (live a (b ∷ bs)) ≡ true
    → (p == a + 12) ≡ true
    → live a (release p a (b ∷ bs)) ≡ erase p (live a (b ∷ bs))
unfolding release live has erase join
live-release_here p a b bs h at = elim (Bool-cases b.is_free) [
  | inl free ↦
      absurd
        (omega (arith, has-live-le p (a + 12 + b.size) bs (ground arith), (==_iff p (a + 12)).0 at))
  | inr used ↦ rw (used, at) (live-join a b bs)
]

live-release_later :
    (p a : ℕ) (b : Block) (bs : List Block)
    → (p == a + 12) ≡ false
    → (has p (live (a + 12 + b.size) bs) ≡ true
        → live (a + 12 + b.size) (release p (a + 12 + b.size) bs)
          ≡ erase p (live (a + 12 + b.size) bs))
    → has p (live a (b ∷ bs)) ≡ true
    → live a (release p a (b ∷ bs)) ≡ erase p (live a (b ∷ bs))
unfolding release live has erase
live-release_later p a b bs past ih h = elim (Bool-cases b.is_free) [
  | inl free ↦ rw (past, free) (ih (ground arith))
  | inr used ↦ rw (past, used) (rw past (ap (λ rs. (a + 12, b.size) ∷ rs) (ih (ground arith))))
]

pub live-release :
    (p a : ℕ) (bs : List Block)
    → has p (live a bs) ≡ true
    → live a (release p a bs) ≡ erase p (live a bs)
live-release p a [] h = unfold has live in (cc)
live-release p a (b ∷ bs) h = elim (Bool-cases (p == a + 12)) [
  | inl at ↦ live-release_here p a b bs h at
  | inr past ↦ live-release_later p a b bs past (λ k. live-release p (a + 12 + b.size) bs k) h
]

erase-append :
    (p n lo : ℕ) (xs ys : List Region) (limit : ℕ)
    → Separate lo (xs ++ (p, n) ∷ ys) limit
    → (lo + 12 ≤ p) × (has p (xs ++ (p, n) ∷ ys) ≡ true) × (erase p (xs ++ (p, n) ∷ ys) ≡ xs ++ ys)
unfolding has erase
erase-append p n lo [] ys limit s = ground arith
erase-append p n lo ((q, m) ∷ xs) ys limit s =
    let rest = erase-append p n (q + m) xs ys limit s.1 in
    let ne : (p == q) ≡ false = ground arith in
    rw ne (omega arith, rest.1, ap (λ rs. (q, m) ∷ rs) rest.2)

-- Taking out the region that was added gives back the regions before.
pub erase-Added :
    (size p lo : ℕ) (before after : List Region) (limit : ℕ)
    → Added size p before after
    → Separate lo after limit
    → (has p after ≡ true) × (erase p after ≡ before) × (lo + 12 ≤ p)
erase-Added size p lo before after limit d s =
    let facts =
      erase-append p d.given lo d.xs d.ys limit (subst (λ rs. Separate lo rs limit) d.now s) in
    rw (d.now, d.was) (facts.1, facts.2, facts.0)
