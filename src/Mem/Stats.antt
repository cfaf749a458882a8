-- ===== src/Mem/Stats.antt =====
-- `heap_stats` of kernel/mem.c.
use mx_os.Prelude.{
  ℕ, zero, suc, ◌+◌, ◌*◌, ◌^◌, ◌≤◌, ◌<◌, ◌≡◌, refl, sym, List, [], ◌∷◌, arith, length, ◌==◌,
  Bool-cases, inl, inr, false, add32,
}
use mathlib.Core.Path.{subst}
use mx_os.Mem.{Header, Heap, max_blocks, stats_loop, heap_stats}
use mx_os.Mem.Blocks.{Block, used_bytes, free_bytes}
use mx_os.Mem.Chain.{first, IsChain, IsHeap, IsChain-le}

-- Payloads and headers fill the memory.
bytes-fill :
    (cells : ℕ → Header) (a : ℕ) (bs : List Block) (limit : ℕ)
    → IsChain cells a bs limit
    → a + used_bytes bs + free_bytes bs + 12 * length bs ≡ limit
unfolding used_bytes free_bytes
bytes-fill cells a [] limit c = omega arith
bytes-fill cells a (b ∷ bs) limit c =
    ground (arith, bytes-fill cells (a + 12 + b.size) bs limit c.1)

stats_loop-bytes :
    (fuel : ℕ) (cells : ℕ → Header) (a used free : ℕ) (bs : List Block) (limit : ℕ)
    → 4 < a
    → limit < 2 ^ 32
    → length bs < fuel
    → used + free ≤ a
    → IsChain cells a bs limit
    → stats_loop fuel cells (first a bs) (used, free) ≡ (used + used_bytes bs, free + free_bytes bs)
unfolding used_bytes free_bytes stats_loop
stats_loop-bytes zero cells a used free bs limit lo hi en small c = absurd (omega arith)
stats_loop-bytes (suc fuel) cells a used free [] limit lo hi en small c = ground arith
stats_loop-bytes (suc fuel) cells a used free (b ∷ bs) limit lo hi en small c =
    let nonzero : (a == 0) ≡ false = ground arith in
    let top = IsChain-le cells (a + 12 + b.size) bs limit c.1 in
    rw (nonzero, c.0)
      (elim (Bool-cases b.is_free) [
        | inl is ↦
            let e : add32 free b.size ≡ free + b.size = omega (arith, top) in
            rw (is, e)
              (ground (
                arith,
                stats_loop-bytes fuel cells (a + 12 + b.size) used (free + b.size) bs limit
                    (omega arith) hi (omega arith) (omega arith) c.1,
              ))
        | inr is ↦
            let e : add32 used b.size ≡ used + b.size = omega (arith, top) in
            rw (is, e)
              (ground (
                arith,
                stats_loop-bytes fuel cells (a + 12 + b.size) (used + b.size) free bs limit
                    (omega arith) hi (omega arith) (omega arith) c.1,
              ))
      ])

first-eq : (a : ℕ) (bs : List Block) → 0 < length bs → a ≡ first a bs
first-eq a [] h = absurd (omega arith)
first-eq a (b ∷ bs) h = refl

loop_total :
    (fuel : ℕ) (h : Heap) (bs : List Block) (limit : ℕ)
    → IsHeap h bs limit
    → length bs < fuel
    → stats_loop fuel h.cells h.heap_start (0, 0) ≡ (used_bytes bs, free_bytes bs)
loop_total fuel h bs limit v en =
    let loop =
      stats_loop-bytes fuel h.cells h.heap_start 0 0 bs limit v.above v.below en (omega arith)
        v.chain in
    subst (λ c. stats_loop fuel h.cells c (0, 0) ≡ (used_bytes bs, free_bytes bs))
      (sym (first-eq h.heap_start bs v.some_block)) (ground (arith, loop))

-- In a heap whose headers form the chain of the blocks `bs`, one at least, from an address above 4
-- up to `limit` below 2^32, `heap_stats` counts the bytes of the blocks in use and of the free
-- ones. With 12 bytes for each header they make up the whole memory of the heap.
pub heap_stats-bytes :
    (h : Heap) (bs : List Block) (limit : ℕ)
    → IsHeap h bs limit
    → (heap_stats h ≡ (used_bytes bs, free_bytes bs))
      × (h.heap_start + (heap_stats h).0 + (heap_stats h).1 + 12 * length bs ≡ limit)
heap_stats-bytes h bs limit v =
    (counted, rw counted (bytes-fill h.cells h.heap_start bs limit v.chain))
  where
    counted : heap_stats h ≡ (used_bytes bs, free_bytes bs)
    counted =
        unfold heap_stats in
        (loop_total max_blocks h bs limit v
          (omega (arith, IsChain-le h.cells h.heap_start bs limit v.chain)))
