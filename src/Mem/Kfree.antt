-- ===== src/Mem/Kfree.antt =====
-- `kfree` of kernel/mem.c, against the row of blocks.
use mx_os.Prelude.{
  ℕ, ◌+◌, ◌-◌, ◌^◌, ◌≤◌, ◌<◌, ◌≡◌, ◌≢◌, refl, ap, ◌∙◌, true, false, List, [], ◌∷◌, arith, length,
  ◌==◌, Bool-cases, ==_iff, inl, inr, sub32,
}
use mx_os.Mem.{Header, Heap, mark_free, coalesce, kfree}
use mx_os.Mem.Blocks.{Block, block, join, release, is_payload}
use mx_os.Mem.Chain.{first, IsChain, IsHeap, IsChain-le, IsChain-above}

mark_free-IsChain :
    (cells : ℕ → Header) (a : ℕ) (b : Block) (bs : List Block) (limit : ℕ)
    → IsChain cells a (b ∷ bs) limit
    → IsChain (mark_free cells a) a (block b.size true ∷ bs) limit
unfolding mark_free
mark_free-IsChain cells a b bs limit c = (
  ground (arith, c.0),
  IsChain-above cells _ (a + 12 + b.size) bs limit (λ x h. ground arith) c.1,
)

coalesce-elsewhere : (cells : ℕ → Header) (a x : ℕ) → x ≢ a → coalesce cells a x ≡ cells x
unfolding coalesce
coalesce-elsewhere cells a x ne = ground arith

-- Joining a free block with the one behind it, where that is free.
coalesce-join :
    (cells : ℕ → Header) (a n : ℕ) (bs : List Block) (limit : ℕ)
    → 4 < a
    → limit < 2 ^ 32
    → IsChain cells a (block n true ∷ bs) limit
    → IsChain (coalesce cells a) a (join (block n true) bs) limit
unfolding coalesce join
coalesce-join cells a n [] limit lo hi c = (ground (arith, c.0), c.1)
coalesce-join cells a n (d ∷ bs) limit lo hi c = elim (Bool-cases d.is_free) [
  | inl free ↦ rw free (
    ground (arith, room, c.0, c.1.0),
    rw back (IsChain-above cells _ (a + 12 + n + 12 + d.size) bs limit (λ x h. after x h) c.1.1),
  )
  | inr taken ↦ rw taken (
    ground (arith, room, c.0, c.1.0),
    (
      ground (arith, room, c.0, c.1.0),
      IsChain-above cells _ (a + 12 + n + 12 + d.size) bs limit (λ x h. after x h) c.1.1,
    ),
  )
]
  where
    room : a + 12 + n + 12 + d.size ≤ limit
    room = omega (arith, IsChain-le cells (a + 12 + n + 12 + d.size) bs limit c.1.1)

    back : a + 12 + (n + d.size + 12) ≡ a + 12 + n + 12 + d.size
    back = omega arith

    after : (x : ℕ) → a + 12 + n + 12 + d.size ≤ x → coalesce cells a x ≡ cells x
    after x h = coalesce-elsewhere cells a x (ground arith)

-- The headers that `kfree` leaves.
abbrev freed : (ℕ → Header) → ℕ → ℕ → Header
freed cells p = coalesce (mark_free cells (sub32 p 12)) (sub32 p 12)

-- Outside the block's own header nothing changes.
freed-elsewhere :
    (cells : ℕ → Header) (p x : ℕ) → 12 ≤ p → p < 2 ^ 32 → x ≢ p - 12 → freed cells p x ≡ cells x
unfolding mark_free
freed-elsewhere cells p x lo hi ne =
    ground (arith, coalesce-elsewhere (mark_free cells (sub32 p 12)) (sub32 p 12) x)

first-eq : (a : ℕ) (xs ys : List Block) → 0 < length xs → 0 < length ys → first a xs ≡ first a ys
first-eq a [] ys h k = absurd (omega arith)
first-eq a (x ∷ xs) [] h k = absurd (omega arith)
first-eq a (x ∷ xs) (y ∷ ys) h k = refl

length-join : (b : Block) (bs : List Block) → 0 < length (join b bs)
unfolding join
length-join b [] = omega arith
length-join b (d ∷ bs) = ground arith

-- A payload lies behind its header, in the region.
is_payload_bounds :
    (p a : ℕ) (bs : List Block) (cells : ℕ → Header) (limit : ℕ)
    → is_payload p a bs ≡ true
    → IsChain cells a bs limit
    → (a + 12 ≤ p) × (p ≤ limit) × (0 < length bs)
unfolding is_payload
is_payload_bounds p a [] cells limit m c = cc
is_payload_bounds p a (b ∷ bs) cells limit m c = ground (
  arith,
  IsChain-le cells (a + 12 + b.size) bs limit c.1,
  λ (n : is_payload p (a + 12 + b.size) bs ≡ true).
      is_payload_bounds p (a + 12 + b.size) bs cells limit n c.1,
)

length-release : (p a : ℕ) (bs : List Block) → 0 < length bs → 0 < length (release p a bs)
unfolding release
length-release p a [] h = h
length-release p a (b ∷ bs) h = ground (arith, length-join b bs)

join-size : (b : Block) (bs : List Block) → join (block b.size true) bs ≡ join b bs
unfolding join
join-size b [] = refl
join-size b (d ∷ bs) = refl

header_at : (p a : ℕ) → p ≡ a + 12 → a + 12 < 2 ^ 32 → sub32 p 12 ≡ a
header_at p a e h = omega arith

-- The freed block is the one in front.
freed-here :
    (cells : ℕ → Header) (p a : ℕ) (b : Block) (bs : List Block) (limit : ℕ)
    → 4 < a
    → limit < 2 ^ 32
    → (p == a + 12) ≡ true
    → IsChain cells a (b ∷ bs) limit
    → IsChain (freed cells p) a (release p a (b ∷ bs)) limit
unfolding release
freed-here cells p a b bs limit lo hi at c =
    let top = IsChain-le cells (a + 12 + b.size) bs limit c.1 in
    let e = header_at p a ((==_iff p (a + 12)).0 at) (omega (arith, top)) in
    rw (at, e, ← join-size)
      (coalesce-join (mark_free cells a) a b.size bs limit lo hi
        (mark_free-IsChain cells a b bs limit c))

-- The freed block is further on: the block in front stays.
freed-later :
    (cells : ℕ → Header) (p a : ℕ) (b : Block) (bs : List Block) (limit : ℕ)
    → limit < 2 ^ 32
    → (p == a + 12) ≡ false
    → is_payload p (a + 12 + b.size) bs ≡ true
    → IsChain cells a (b ∷ bs) limit
    → IsChain (freed cells p) (a + 12 + b.size) (release p (a + 12 + b.size) bs) limit
    → IsChain (freed cells p) a (release p a (b ∷ bs)) limit
unfolding release
freed-later cells p a b bs limit hi past m c rest = rw past (
  freed-elsewhere cells p a (omega (arith, bounds)) (omega (arith, bounds)) (ground (arith, bounds))
      ∙ c.0
      ∙ ap (λ n. record { size = b.size; next = n; is_free = b.is_free })
          (first-eq (a + 12 + b.size) bs (release p (a + 12 + b.size) bs) bounds.2
            (length-release p (a + 12 + b.size) bs bounds.2)),
  rest,
)
  where
    bounds : (a + 12 + b.size + 12 ≤ p) × (p ≤ limit) × (0 < length bs)
    bounds = is_payload_bounds p (a + 12 + b.size) bs cells limit m c.1

-- Freeing a payload turns the chain into that of `release`.
freed-release :
    (cells : ℕ → Header) (p a : ℕ) (bs : List Block) (limit : ℕ)
    → 4 < a
    → limit < 2 ^ 32
    → is_payload p a bs ≡ true
    → IsChain cells a bs limit
    → IsChain (freed cells p) a (release p a bs) limit
unfolding is_payload
freed-release cells p a [] limit lo hi m c = cc
freed-release cells p a (b ∷ bs) limit lo hi m c = elim (Bool-cases (p == a + 12)) [
  | inl at ↦ freed-here cells p a b bs limit lo hi at c
  | inr past ↦
      let m' : is_payload p (a + 12 + b.size) bs ≡ true = ground arith in
      freed-later cells p a b bs limit hi past m' c
        (freed-release cells p (a + 12 + b.size) bs limit (omega arith) hi m' c.1)
]

-- `kfree` of a payload's address keeps the heap a chain over the same memory, and frees the
-- payload's block, joined with the block behind it where that is free.
pub kfree-release :
    (h : Heap) (p : ℕ) (bs : List Block) (limit : ℕ)
    → IsHeap h bs limit
    → is_payload p h.heap_start bs ≡ true
    → IsHeap (kfree h p) (release p h.heap_start bs) limit × ((kfree h p).heap_start ≡ h.heap_start)
unfolding kfree
kfree-release h p bs limit v m =
    let bounds = is_payload_bounds p h.heap_start bs h.cells limit m v.chain in
    let nonzero : (p == 0) ≡ false = ground arith in
    rw nonzero (
      record {
        chain = freed-release h.cells p h.heap_start bs limit v.above v.below m v.chain;
        above = v.above;
        below = v.below;
        some_block = length-release p h.heap_start bs v.some_block;
      },
      refl,
    )
