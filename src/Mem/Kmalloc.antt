-- ===== src/Mem/Kmalloc.antt =====
-- `heap_init` and `kmalloc` of kernel/mem.c, against the row of blocks.
use mx_os.Prelude.{
  ℕ, ◌+◌, ◌-◌, ◌%◌, ◌^◌, ◌≤◌, ◌<◌, ◌≡◌, refl, true, false, Option, none, some, List, [], ◌∷◌, arith,
  length, ◌==◌,
}
use mathlib.Core.Path.{subst}
use mx_os.Mem.{Heap, max_blocks, align, kmalloc_loop, kmalloc, heap_init}
use mx_os.Mem.Blocks.{Block, block, alloc}
use mx_os.Mem.Chain.{first, IsHeap, IsChain-le}
use mx_os.Mem.Take.{Took, kmalloc_loop-Took}

-- What `kmalloc` returns and leaves, against the answer of `alloc`.
abbrev pub Serves : Heap → ℕ → ℕ × Heap → Option (ℕ × List Block) → Type 0
Serves h limit r none = r ≡ (0, h)
Serves h limit r (some (p, bs)) = (r.0 ≡ p) × IsHeap r.1 bs limit × (r.1.heap_start ≡ h.heap_start)

-- A region of more than a header, not too low and not past 32 bits, becomes one free block.
pub heap_init-IsHeap :
    (start size : ℕ) (h : Heap)
    → 4 < start
    → 12 ≤ size
    → start + size < 2 ^ 32
    → IsHeap (heap_init start size h) (block (size - 12) true ∷ []) (start + size)
unfolding heap_init
heap_init-IsHeap start size h lo big hi = ground arith

first-eq : (a : ℕ) (bs : List Block) → 0 < length bs → first a bs ≡ a
first-eq a [] h = absurd (omega arith)
first-eq a (b ∷ bs) h = refl

Serves-of_Took :
    (h : Heap) (limit : ℕ) (r : ℕ × (ℕ → _)) (o : Option (ℕ × List Block))
    → 4 < h.heap_start
    → limit < 2 ^ 32
    → Took h.cells h.heap_start limit r o
    → Serves h limit (r.0, record h { cells = r.1 }) o
Serves-of_Took h limit r none lo hi t = rw t
Serves-of_Took h limit r (some (p, bs)) lo hi t =
    (t.0, record { chain = t.1; above = lo; below = hi; some_block = t.2 }, refl)

-- `kmalloc` answers as first fit on the row of blocks does for the aligned size: NULL with the heap
-- unchanged where no free block is large enough, else the payload of the first one that is, and a
-- heap that is again a chain over the same memory.
pub kmalloc-alloc :
    (h : Heap) (size : ℕ) (bs : List Block) (limit : ℕ)
    → IsHeap h bs limit
    → Serves h limit (kmalloc h size) (alloc (align size) h.heap_start bs)
unfolding kmalloc
kmalloc-alloc h size bs limit v =
    let nonzero : (h.heap_start == 0) ≡ false = ground arith in
    rw nonzero (
      Serves-of_Took h limit _ (alloc (align size) h.heap_start bs) v.above v.below (
        subst
          (λ c.
            Took h.cells h.heap_start limit (kmalloc_loop max_blocks h.cells c (align size))
              (alloc (align size) h.heap_start bs))
          (first-eq h.heap_start bs v.some_block)
          (kmalloc_loop-Took max_blocks h.cells h.heap_start (align size) bs limit v.above v.below
            (omega (arith, IsChain-le h.cells h.heap_start bs limit v.chain)) v.chain)))

-- The request is rounded up to a multiple of 4, if that does not wrap.
pub align_bounds :
    (size : ℕ)
    → size ≤ 2 ^ 32 - 4
    → (size ≤ align size) × (align size < size + 4) × (align size % 4 ≡ 0)
unfolding align
align_bounds size h = omega arith

-- The last three sizes wrap to 0.
pub align-wraps : (size : ℕ) → 2 ^ 32 - 4 < size → size < 2 ^ 32 → align size ≡ 0
unfolding align
align-wraps size lo hi = omega arith
