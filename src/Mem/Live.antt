-- ===== src/Mem/Live.antt =====
-- The regions that a heap has handed out: what the users of kernel/mem.c rely on.
use mx_os.Prelude.{
  ℕ, ◌+◌, ◌-◌, ◌≤◌, ◌≡◌, refl, ap, Bool, true, false, inl, inr, Option, none, some, List, [], ◌∷◌,
  ◌++◌, arith, ltb, ◌==◌, Bool-cases, if◌then◌else◌,
}
use mathlib.Core.Option
use mx_os.Mem.{Header}
use mx_os.Mem.Blocks.{Block, block, fits, alloc}
use mx_os.Mem.Chain.{IsChain}

-- Address and size of a payload.
abbrev pub Region : Type 0
Region = ℕ × ℕ

-- The payloads in use, in the order of their addresses.
unfoldable pub live : ℕ → List Block → List Region
live a [] = []
live a (b ∷ bs) =
    if b.is_free then live (a + 12 + b.size) bs else (a + 12, b.size) ∷ live (a + 12 + b.size) bs

-- A region begins at `p`.
unfoldable pub has : ℕ → List Region → Bool
has p [] = false
has p ((q, n) ∷ rs) = if p == q then true else has p rs

-- Without the first region that begins at `p`.
unfoldable pub erase : ℕ → List Region → List Region
erase p [] = []
erase p ((q, n) ∷ rs) = if p == q then rs else (q, n) ∷ erase p rs

-- The regions lie in order between `lo` and `limit`, each behind a header of its own.
abbrev pub Separate : ℕ → List Region → ℕ → Type 0
Separate lo [] limit = lo ≤ limit
Separate lo ((p, n) ∷ rs) limit = (lo + 12 ≤ p) × Separate (p + n) rs limit

-- One region of at least `size` bytes has been added at `p`.
pub record Added (size p : ℕ) (before after : List Region) : Type 0 where
  pub xs : List Region
  pub ys : List Region
  pub given : ℕ
  pub enough : size ≤ given
  pub was : before ≡ xs ++ ys
  pub now : after ≡ xs ++ (p, given) ∷ ys

Separate-weaken :
    (lo lo' : ℕ) (rs : List Region) (limit : ℕ)
    → lo ≤ lo'
    → Separate lo' rs limit
    → Separate lo rs limit
Separate-weaken lo lo' [] limit h s = omega arith
Separate-weaken lo lo' ((p, n) ∷ rs) limit h s = (omega arith, s.1)

-- The regions in use of a chain do not overlap, and lie inside its memory.
pub live-Separate :
    (cells : ℕ → Header) (a : ℕ) (bs : List Block) (limit : ℕ)
    → IsChain cells a bs limit
    → Separate a (live a bs) limit
unfolding live
live-Separate cells a [] limit c = omega arith
live-Separate cells a (b ∷ bs) limit c = elim (Bool-cases b.is_free) [
  | inl free ↦ rw free (
      Separate-weaken a (a + 12 + b.size) (live (a + 12 + b.size) bs) limit (omega arith)
        (live-Separate cells (a + 12 + b.size) bs limit c.1))
  | inr used ↦ rw used (omega arith, live-Separate cells (a + 12 + b.size) bs limit c.1)
]

Added-cons :
    (size p : ℕ) (r : Region) (before after : List Region)
    → Added size p before after
    → Added size p (r ∷ before) (r ∷ after)
Added-cons size p r before after d = record {
  xs = r ∷ d.xs;
  ys = d.ys;
  given = d.given;
  enough = d.enough;
  was = ap (λ rs. r ∷ rs) d.was;
  now = ap (λ rs. r ∷ rs) d.now;
}

-- The same block in front of both rows.
Added-block :
    (size p a : ℕ) (b : Block) (bs cs : List Block)
    → Added size p (live (a + 12 + b.size) bs) (live (a + 12 + b.size) cs)
    → Added size p (live a (b ∷ bs)) (live a (b ∷ cs))
unfolding live
Added-block size p a b bs cs d = elim (Bool-cases b.is_free) [
  | inl free ↦ rw free d
  | inr used ↦ rw used (Added-cons size p (a + 12, b.size) _ _ d)
]

-- The regions after a first-fit allocation, if there is one.
abbrev pub Grows : ℕ → ℕ → List Block → Option (ℕ × List Block) → Type 0
Grows size a bs none = Unit
Grows size a bs (some (p, cs)) = Added size p (live a bs) (live a cs)

Grows-map :
    (size a : ℕ) (b : Block) (bs : List Block) (o : Option (ℕ × List Block))
    → Grows size (a + 12 + b.size) bs o
    → Grows size a (b ∷ bs) (Option.map (λ (q : ℕ × List Block). (q.0, b ∷ q.1)) o)
Grows-map size a b bs none g = tt
Grows-map size a b bs (some (p, cs)) g = Added-block size p a b bs cs g

Grows-here :
    (size a : ℕ) (b : Block) (bs : List Block)
    → fits size b ≡ true
    → Added size (a + 12) (live a (b ∷ bs)) (
        live a (
          if ltb (size + 16) b.size
          then block size false ∷ block (b.size - size - 12) true ∷ bs
          else block b.size false ∷ bs))
unfolding live
Grows-here size a b bs fit = elim (Bool-cases (ltb (size + 16) b.size)) [
  | inl split ↦
      let back : a + 12 + size + 12 + (b.size - size - 12) ≡ a + 12 + b.size = ground arith in
      rw (split, back, free)
        (record {
          xs = [];
          ys = live (a + 12 + b.size) bs;
          given = size;
          enough = omega arith;
          was = refl;
          now = refl;
        })
  | inr whole ↦
      rw (whole, free)
        (record {
          xs = [];
          ys = live (a + 12 + b.size) bs;
          given = b.size;
          enough = ground arith;
          was = refl;
          now = refl;
        })
]
  where
    free : b.is_free ≡ true
    free = ground arith

pub alloc-Grows : (size a : ℕ) (bs : List Block) → Grows size a bs (alloc size a bs)
unfolding alloc
alloc-Grows size a [] = tt
alloc-Grows size a (b ∷ bs) = elim (Bool-cases (fits size b)) [
  | inl fit ↦ rw fit (Grows-here size a b bs fit)
  | inr small ↦ rw small (
      Grows-map size a b bs (alloc size (a + 12 + b.size) bs)
        (alloc-Grows size (a + 12 + b.size) bs))
]
