-- ===== src/Mem/Tests.antt =====
-- The heap of kernel/mem.c at small inputs, and its theorems there.
use mx_os.Prelude.{◌+◌, ◌*◌, ◌-◌, ◌≡◌, ◌↔◌, ◌==◌, if◌then◌else◌, refl, true, false, [], ◌∷◌, arith}
use mx_os.Mem.{
  Heap, heap_init, kmalloc, kfree, heap_stats, align, kmalloc_loop, take_block, mark_free, coalesce,
  stats_loop,
}
use mx_os.Mem.Blocks.{block, used_bytes, free_bytes}
use mx_os.Mem.Stats.{heap_stats-bytes}
use mx_os.Mem.Chain.{IsHeap}
use mx_os.Mem.Live.{live, has, erase}
use mx_os.Mem.Safety.{
  InUse, Served, heap_init-InUse, kmalloc-InUse, kfree-InUse, kfree-kmalloc, kmalloc-null_iff,
  any_fits,
}

abbrev blank : Heap
blank = record { heap_start = 0; cells = λ _. record { size = 0; next = 0; is_free = false } }

-- The kernel's heap: 1 MB from 1 MB on.
abbrev kernel_heap : Heap
kernel_heap = heap_init 0x100000 0x100000 blank

first_stack : (kmalloc kernel_heap 4096).0 ≡ 0x10000c
unfolding kmalloc kmalloc_loop heap_init align take_block
first_stack = refl

-- Two stacks, the first given back, and a third in its place.
second_stack : (kmalloc (kmalloc kernel_heap 4096).1 4096).0 ≡ 0x101018
unfolding kmalloc kmalloc_loop heap_init align take_block
second_stack = refl

reused : (kmalloc (kfree (kmalloc (kmalloc kernel_heap 4096).1 4096).1 0x10000c) 100).0 ≡ 0x10000c
unfolding kmalloc kmalloc_loop heap_init align take_block kfree mark_free coalesce
reused = refl

stats_after : heap_stats (kmalloc kernel_heap 5).1 ≡ (8, 0x100000 - 12 - 8 - 12)
unfolding kmalloc kmalloc_loop heap_init align take_block heap_stats stats_loop
stats_after = refl

kernel_heap-IsHeap : IsHeap kernel_heap (block (0x100000 - 12) true ∷ []) 0x200000
unfolding heap_init
kernel_heap-IsHeap = ground arith

fresh : InUse kernel_heap [] 0x200000
fresh = heap_init-InUse 0x100000 0x100000 blank (omega arith) (omega arith) (omega arith)

heap_stats-bytes_example :
    (heap_stats kernel_heap ≡ (
      used_bytes (block (0x100000 - 12) true ∷ []),
      free_bytes (block (0x100000 - 12) true ∷ []),
    ))
    × (kernel_heap.heap_start + (heap_stats kernel_heap).0 + (heap_stats kernel_heap).1 + 12 * 1
        ≡ 0x200000)
heap_stats-bytes_example =
    heap_stats-bytes kernel_heap (block (0x100000 - 12) true ∷ []) 0x200000 kernel_heap-IsHeap

kmalloc-InUse_example : Served 4096 kernel_heap [] 0x200000 (kmalloc kernel_heap 4096)
kmalloc-InUse_example = kmalloc-InUse kernel_heap 4096 [] 0x200000 (omega arith) fresh

kmalloc-null_iff_example :
    ((kmalloc kernel_heap 0x100000).0 ≡ 0)
    ↔ (any_fits (align 0x100000) (block (0x100000 - 12) true ∷ []) ≡ false)
kmalloc-null_iff_example =
    kmalloc-null_iff kernel_heap 0x100000 (block (0x100000 - 12) true ∷ []) 0x200000
      kernel_heap-IsHeap

-- A heap of 64 bytes from address 64 on, with one block of 8 bytes in use.
abbrev small_heap : Heap
small_heap = record {
  heap_start = 64;
  cells = λ a.
      if a == 64
      then record { size = 8; next = 84; is_free = false }
      else record { size = 32; next = 0; is_free = true };
}

small_in_use : InUse small_heap ((76, 8) ∷ []) 128
unfolding live
small_in_use = record {
  blocks = block 8 false ∷ block 32 true ∷ [];
  heap = ground arith;
  regions = refl;
}

kfree-InUse_example : InUse (kfree small_heap 76) [] 128
unfolding has erase
kfree-InUse_example = kfree-InUse small_heap 76 ((76, 8) ∷ []) 128 refl small_in_use

kfree-kmalloc_example :
    InUse (kfree (kmalloc small_heap 10).1 (kmalloc small_heap 10).0) ((76, 8) ∷ []) 128
unfolding kmalloc kmalloc_loop align
kfree-kmalloc_example =
    kfree-kmalloc small_heap 10 ((76, 8) ∷ []) 128 (omega arith) small_in_use (omega arith)
