-- ===== src/Mem/Chain.antt =====
-- The chain of headers that stands for a row of blocks.
use mx_os.Prelude.{ℕ, ◌+◌, ◌*◌, ◌^◌, ◌≤◌, ◌<◌, ◌≡◌, List, [], ◌∷◌, arith, length}
use mx_os.Mem.{Header, Heap}
use mx_os.Mem.Blocks.{Block}

-- The address of the first header, NULL for no block.
abbrev pub first : ℕ → List Block → ℕ
first a [] = 0
first a (b ∷ bs) = a

-- From `a` on the headers describe `bs`, which tile the memory up to `limit`.
abbrev pub IsChain : (ℕ → Header) → ℕ → List Block → ℕ → Type 0
IsChain cells a [] limit = a ≡ limit
IsChain cells a (b ∷ bs) limit =
    (cells a ≡ record { size = b.size; next = first (a + 12 + b.size) bs; is_free = b.is_free })
    × IsChain cells (a + 12 + b.size) bs limit

-- The heap is the row `bs` over the memory from `heap_start` to `limit`.
pub record IsHeap (h : Heap) (bs : List Block) (limit : ℕ) : Type 0 where
  pub chain : IsChain h.cells h.heap_start bs limit
  pub above : 4 < h.heap_start
  pub below : limit < 2 ^ 32
  pub some_block : 0 < length bs

pub IsChain-le :
    (cells : ℕ → Header) (a : ℕ) (bs : List Block) (limit : ℕ)
    → IsChain cells a bs limit
    → a + 12 * length bs ≤ limit
IsChain-le cells a [] limit c = omega arith
IsChain-le cells a (b ∷ bs) limit c = omega (arith, IsChain-le cells (a + 12 + b.size) bs limit c.1)

-- A chain depends on the headers from its beginning on.
pub IsChain-above :
    (cells cells' : ℕ → Header) (a : ℕ) (bs : List Block) (limit : ℕ)
    → ((x : ℕ) → a ≤ x → cells' x ≡ cells x)
    → IsChain cells a bs limit
    → IsChain cells' a bs limit
IsChain-above cells cells' a [] limit same c = c
IsChain-above cells cells' a (b ∷ bs) limit same c = (
  ground (arith, same a, c.0),
  IsChain-above cells cells' (a + 12 + b.size) bs limit (λ x h. same x (omega arith)) c.1,
)
