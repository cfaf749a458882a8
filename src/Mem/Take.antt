-- ===== src/Mem/Take.antt =====
-- The loop of `kmalloc` in kernel/mem.c, on a chain of headers, against `alloc` on its row.
use mx_os.Prelude.{
  ℕ, zero, suc, ◌+◌, ◌-◌, ◌^◌, ◌≤◌, ◌<◌, ◌≡◌, ◌≢◌, refl, true, false, Option, none, some, List, [],
  ◌∷◌, arith, length, Bool-cases, inl, inr, ltb, ◌∙◌, ◌==◌, add32,
}
use mathlib.Core.Option
use mx_os.Mem.{Header, header_size, take_block, kmalloc_loop}
use mx_os.Mem.Blocks.{Block, block, fits, alloc}
use mx_os.Mem.Chain.{first, IsChain, IsChain-le, IsChain-above}

-- What `kmalloc` leaves, against the row that `alloc` gives: NULL and no change, or the payload's
-- address and its row, with nothing changed below `a`.
abbrev pub Took : (ℕ → Header) → ℕ → ℕ → ℕ × (ℕ → Header) → Option (ℕ × List Block) → Type 0
Took cells a limit r none = r ≡ (0, cells)
Took cells a limit r (some (p, bs)) =
    (r.0 ≡ p) × IsChain r.1 a bs limit × (0 < length bs) × ((x : ℕ) → x < a → r.1 x ≡ cells x)

-- The header that a chain begins with, at its three fields.
module _ (cells : ℕ → Header) (a size : ℕ) (b : Block) (bs : List Block) (limit : ℕ) (lo : 4 < a)
    (hi : limit < 2 ^ 32) (c : IsChain cells a (b ∷ bs) limit) (fit : size ≤ b.size) where
  room : a + 12 + b.size ≤ limit
  room = omega (arith, IsChain-le cells (a + 12 + b.size) bs limit c.1)

  sizes : (cells a).size ≡ b.size
  sizes = cc (c.0)

  -- Only the block's own headers change.
  take_block-elsewhere : (x : ℕ) → x ≢ a → x ≢ a + 12 + size → take_block cells a size x ≡ cells x
  unfolding take_block
  take_block-elsewhere x p q = ground (arith, room, sizes)

  take_block-split :
      ltb (size + 16) b.size ≡ true
      → IsChain
          (take_block cells a size)
          a
          (block size false ∷ block (b.size - size - 12) true ∷ bs)
          limit
  unfolding take_block
  take_block-split split = (
    ground (arith, room, sizes),
    (
      rw back (ground (arith, room, c.0)),
      rw back (
          IsChain-above cells _ (a + 12 + b.size) bs limit
            (λ x h. take_block-elsewhere x (omega arith) (ground arith)) c.1),
    ),
  )
    where
      back : a + 12 + size + 12 + (b.size - size - 12) ≡ a + 12 + b.size
      back = ground arith

  take_block-whole :
      ltb (size + 16) b.size ≡ false
      → IsChain (take_block cells a size) a (block b.size false ∷ bs) limit
  unfolding take_block
  take_block-whole whole = (
    ground (arith, room, c.0),
    IsChain-above cells _ (a + 12 + b.size) bs limit (λ x h. ground (arith, room, c.0)) c.1,
  )

  -- The block at `a` is taken.
  Took-here :
      fits size b ≡ true
      → Took cells a limit (add32 a header_size, take_block cells a size) (alloc size a (b ∷ bs))
  unfolding alloc
  Took-here fit_b = rw fit_b (elim (Bool-cases (ltb (size + 16) b.size)) [
    | inl split ↦
        rw split (ground (arith, room), take_block-split split, omega arith, λ x h. outside x h)
    | inr whole ↦
        rw whole (ground (arith, room), take_block-whole whole, omega arith, λ x h. outside x h)
  ])
    where
      outside : (x : ℕ) → x < a → take_block cells a size x ≡ cells x
      outside x h = take_block-elsewhere x (ground arith) (ground arith)

-- A block is taken further on: the block in front stays.
Took-map :
    (cells : ℕ → Header) (a : ℕ) (b d : Block) (bs : List Block) (limit : ℕ)
    → IsChain cells a (b ∷ d ∷ bs) limit
    → (r : ℕ × (ℕ → Header)) (o : Option (ℕ × List Block)) → Took cells (a + 12 + b.size) limit r o
    → Took cells a limit r (Option.map (λ (q : ℕ × List Block). (q.0, b ∷ q.1)) o)
Took-map cells a b d bs limit c r none t = t
Took-map cells a b d bs limit c r (some (p, [])) t = absurd (omega arith)
Took-map cells a b d bs limit c r (some (p, e ∷ es)) t =
    (t.0, (t.3 a (omega arith) ∙ c.0, t.1), omega arith, λ x h. t.3 x (omega arith))

Took-later :
    (cells : ℕ → Header) (a size : ℕ) (b : Block) (bs : List Block) (limit : ℕ)
    → IsChain cells a (b ∷ bs) limit
    → fits size b ≡ false
    → (r : ℕ × (ℕ → Header))
    → Took cells (a + 12 + b.size) limit r (alloc size (a + 12 + b.size) bs)
    → Took cells a limit r (alloc size a (b ∷ bs))
unfolding alloc
Took-later cells a size b [] limit c small r t = rw small t
Took-later cells a size b (d ∷ bs) limit c small r t =
    rw small (Took-map cells a b d bs limit c r (alloc size (a + 12 + b.size) (d ∷ bs)) t)

pub kmalloc_loop-Took :
    (fuel : ℕ) (cells : ℕ → Header) (a size : ℕ) (bs : List Block) (limit : ℕ)
    → 4 < a
    → limit < 2 ^ 32
    → length bs < fuel
    → IsChain cells a bs limit
    → Took cells a limit (kmalloc_loop fuel cells (first a bs) size) (alloc size a bs)
unfolding kmalloc_loop
kmalloc_loop-Took zero cells a size bs limit lo hi en c = absurd (omega arith)
kmalloc_loop-Took (suc fuel) cells a size [] limit lo hi en c = unfold alloc in refl
kmalloc_loop-Took (suc fuel) cells a size (b ∷ bs) limit lo hi en c =
    let nonzero : (a == 0) ≡ false = ground arith in
    rw (nonzero, c.0)
      (elim (Bool-cases (fits size b)) [
        | inl fit ↦ rw fit (Took-here cells a size b bs limit lo hi c (ground arith) fit)
        | inr small ↦ rw small (
            Took-later cells a size b bs limit c small _ (
              kmalloc_loop-Took fuel cells (a + 12 + b.size) size bs limit (omega arith) hi
                (omega arith) c.1))
      ])
