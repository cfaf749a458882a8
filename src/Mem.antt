-- ===== src/Mem.antt =====
-- kernel/mem.c: the kernel heap, a chain of headers in the memory that it hands out.
pub mod Blocks
pub mod Chain
pub mod Kfree
pub mod Kmalloc
pub mod Live
pub mod Release
pub mod Safety
pub mod Stats
pub mod Take
mod Tests
use mx_os.Prelude.{
  ℕ, zero, suc, ◌+◌, ◌*◌, ◌/◌, ◌%◌, ◌^◌, Bool, true, false, ◌&&◌, not, ltb, leb, ◌==◌,
  if◌then◌else◌, add32, sub32, update,
}

-- `header_t`. A `next` of 0 is NULL.
pub record Header : Type 0 where
  pub size : ℕ
  pub next : ℕ
  pub is_free : Bool

-- `heap_start`, and the header that stands at each address.
pub record Heap : Type 0 where
  pub heap_start : ℕ
  pub cells : ℕ → Header

-- `sizeof(header_t)`: two words, and a byte padded to a word.
abbrev pub header_size : ℕ
header_size = 12

-- A chain of more headers than this does not fit into 32-bit addresses.
abbrev pub max_blocks : ℕ
max_blocks = 2 ^ 32

pub heap_init : ℕ → ℕ → Heap → Heap
heap_init start size h = record {
  heap_start = start;
  cells = update h.cells start (record { size = sub32 size header_size; next = 0; is_free = true });
}

-- `(size + 3) & ~3`
pub align : ℕ → ℕ
align size = add32 size 3 / 4 * 4

-- The body of the `if` in `kmalloc`: splits the block at `curr` if it is large enough, and takes it.
pub take_block : (ℕ → Header) → ℕ → ℕ → ℕ → Header
take_block cells curr size =
    let h = cells curr in
    let next = add32 (add32 curr header_size) size in
    if ltb (add32 (add32 size header_size) 4) h.size
    then update
        (update cells next
          (record { size = sub32 (sub32 h.size size) header_size; next = h.next; is_free = true }))
        curr (record { size = size; next = next; is_free = false })
    else update cells curr (record { size = h.size; next = h.next; is_free = false })

-- The loop of `kmalloc`, from `curr` on. What a `let` binds waits.
pub kmalloc_loop : ℕ → (ℕ → Header) → ℕ → ℕ → ℕ × (ℕ → Header)
kmalloc_loop zero cells curr size = (0, cells)
kmalloc_loop (suc fuel) cells curr size =
    let rest = kmalloc_loop fuel cells (cells curr).next size in
    if curr == 0
    then (0, cells)
    else if (cells curr).is_free && leb size (cells curr).size
    then (add32 curr header_size, take_block cells curr size)
    else rest

-- The address that `kmalloc` returns (0 is NULL), and the heap that it leaves.
pub kmalloc : Heap → ℕ → ℕ × Heap
kmalloc h size =
    let (p, cells) = kmalloc_loop max_blocks h.cells h.heap_start (align size) in
    if h.heap_start == 0 then (0, h) else (p, record h { cells = cells })

-- `header->is_free = 1`
pub mark_free : (ℕ → Header) → ℕ → ℕ → Header
mark_free cells a = update cells a (record (cells a) { is_free = true })

-- The last `if` of `kfree`: joins the block at `a` with the next one, if that is free.
pub coalesce : (ℕ → Header) → ℕ → ℕ → Header
coalesce cells a =
    let n = (cells a).next in
    if not (n == 0) && (cells n).is_free
    then update cells a (record (cells a) {
      size = add32 (cells a).size (add32 (cells n).size header_size);
      next = (cells n).next;
    })
    else cells

pub kfree : Heap → ℕ → Heap
kfree h ptr =
    let a = sub32 ptr header_size in
    if ptr == 0 then h else record h { cells = coalesce (mark_free h.cells a) a }

-- The loop of `heap_stats`: the bytes in use, and the free bytes.
pub stats_loop : ℕ → (ℕ → Header) → ℕ → ℕ × ℕ → ℕ × ℕ
stats_loop zero cells curr (used, free) = (used, free)
stats_loop (suc fuel) cells curr (used, free) =
    let rest = stats_loop fuel cells (cells curr).next (
      if (cells curr).is_free
      then (used, add32 free (cells curr).size)
      else (add32 used (cells curr).size, free)) in
    if curr == 0 then (used, free) else rest

pub heap_stats : Heap → ℕ × ℕ
heap_stats h = stats_loop max_blocks h.cells h.heap_start (0, 0)
