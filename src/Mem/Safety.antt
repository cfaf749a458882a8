-- ===== src/Mem/Safety.antt =====
-- What the users of kernel/mem.c rely on: `kmalloc` and `kfree` on the set of regions in use.
use mx_os.Prelude.{
  ℕ, ◌+◌, ◌-◌, ◌^◌, ◌≤◌, ◌<◌, ◌≡◌, ◌≢◌, refl, ◌∙◌, sym, ap, true, false, ◌||◌, inl, inr, Option,
  none, some, Bool, List, [], ◌∷◌, ◌⊎◌, ◌↔◌, arith, ltb, Bool-cases, if◌then◌else◌,
}
use mx_os.Mem.{Heap, align, kmalloc, kfree, heap_init}
use mx_os.Mem.Blocks.{Block, block, fits, alloc, release}
use mx_os.Mem.Chain.{IsHeap}
use mx_os.Mem.Kmalloc.{Serves, heap_init-IsHeap, kmalloc-alloc, align_bounds}
use mx_os.Mem.Kfree.{kfree-release}
use mx_os.Mem.Live.{Region, live, has, erase, Separate, Added, live-Separate, Grows, alloc-Grows}
use mx_os.Mem.Release.{is_payload_of_has, live-release, erase-Added}

-- The heap is a chain over the memory up to `limit`, and has handed out exactly these regions.
pub record InUse (h : Heap) (rs : List Region) (limit : ℕ) : Type 0 where
  pub blocks : List Block
  pub heap : IsHeap h blocks limit
  pub regions : live h.heap_start blocks ≡ rs

-- After `heap_init` nothing is in use.
pub heap_init-InUse :
    (start size : ℕ) (h : Heap)
    → 4 < start
    → 12 ≤ size
    → start + size < 2 ^ 32
    → InUse (heap_init start size h) [] (start + size)
unfolding live
heap_init-InUse start size h lo big hi = record {
  blocks = _;
  heap = heap_init-IsHeap start size h lo big hi;
  regions = refl;
}

-- The regions in use lie in order inside the memory, each behind a header: no two overlap.
pub InUse-Separate :
    (h : Heap) (rs : List Region) (limit : ℕ) → InUse h rs limit → Separate h.heap_start rs limit
InUse-Separate h rs limit u =
    rw (← u.regions) (live-Separate h.cells h.heap_start u.blocks limit u.heap.chain)

-- What a call of `kmalloc` does to the regions in use.
abbrev pub Served : ℕ → Heap → List Region → ℕ → ℕ × Heap → Type 0
Served size h rs limit r =
    (r ≡ (0, h)) ⊎ ((after : List Region) × Added size r.0 rs after × InUse r.1 after limit)

Served-of_Serves :
    (size want : ℕ) (h : Heap) (rs : List Region) (limit : ℕ) (u : InUse h rs limit)
    → size ≤ want
    → (r : ℕ × Heap) (o : Option (ℕ × List Block)) → Serves h limit r o
    → Grows want h.heap_start u.blocks o
    → Served size h rs limit r
Served-of_Serves size want h rs limit u le r none s g = inl s
Served-of_Serves size want h rs limit u le r (some (p, bs)) s g = inr (
  live h.heap_start bs,
  record {
    xs = g.xs;
    ys = g.ys;
    given = g.given;
    enough = omega (arith, g.enough);
    was = sym u.regions ∙ g.was;
    now = rw (s.0) (g.now);
  },
  record { blocks = bs; heap = s.1; regions = ap (λ a. live a bs) s.2 },
)

-- `kmalloc` of at most 2^32 - 4 bytes returns NULL and changes nothing, or adds one region of at
-- least that many bytes at the address that it returns, and no other region changes.
pub kmalloc-InUse :
    (h : Heap) (size : ℕ) (rs : List Region) (limit : ℕ)
    → size ≤ 2 ^ 32 - 4
    → InUse h rs limit
    → Served size h rs limit (kmalloc h size)
kmalloc-InUse h size rs limit small u =
    Served-of_Serves size (align size) h rs limit u (omega (arith, (align_bounds size small).0)) _ _
      (kmalloc-alloc h size u.blocks limit u.heap) (alloc-Grows (align size) h.heap_start u.blocks)

-- `kfree` of a region in use takes out that region, and no other region changes.
pub kfree-InUse :
    (h : Heap) (p : ℕ) (rs : List Region) (limit : ℕ)
    → has p rs ≡ true
    → InUse h rs limit
    → InUse (kfree h p) (erase p rs) limit
kfree-InUse h p rs limit used u =
    let used' : has p (live h.heap_start u.blocks) ≡ true = rw u.regions used in
    let f =
      kfree-release h p u.blocks limit u.heap (is_payload_of_has p h.heap_start u.blocks used') in
    record {
      blocks = release p h.heap_start u.blocks;
      heap = f.0;
      regions =
          ap (λ a. live a (release p h.heap_start u.blocks)) f.1
          ∙ live-release p h.heap_start u.blocks used'
          ∙ ap (erase p) u.regions;
    }

-- What `kmalloc` gives, `kfree` takes back: the regions in use are those before both calls.
pub kfree-kmalloc :
    (h : Heap) (size : ℕ) (rs : List Region) (limit : ℕ)
    → size ≤ 2 ^ 32 - 4
    → InUse h rs limit
    → (kmalloc h size).0 ≢ 0
    → InUse (kfree (kmalloc h size).1 (kmalloc h size).0) rs limit
kfree-kmalloc h size rs limit small u got = elim (kmalloc-InUse h size rs limit small u) [
  | inl null ↦ absurd (got (ap (λ (r : ℕ × Heap). r.0) null))
  | inr (after, added, v) ↦
      let e =
        erase-Added size (kmalloc h size).0 (kmalloc h size).1.heap_start rs after limit added
          (InUse-Separate (kmalloc h size).1 after limit v) in
      rw (e.1) at (kfree-InUse (kmalloc h size).1 (kmalloc h size).0 after limit e.0 v)
]

-- Some free block has room for `size` bytes.
unfoldable pub any_fits : ℕ → List Block → Bool
any_fits size [] = false
any_fits size (b ∷ bs) = fits size b || any_fits size bs

any_fits-alloc : (size a : ℕ) (bs : List Block) → any_fits size bs ≡ false → alloc size a bs ≡ none
unfolding any_fits alloc
any_fits-alloc size a [] h = refl
any_fits-alloc size a (b ∷ bs) h = ground (arith, any_fits-alloc size (a + 12 + b.size) bs)

alloc-any_fits :
    (size a : ℕ) (bs : List Block)
    → any_fits size bs ≡ true
    → (p : ℕ) × (cs : List Block) × (alloc size a bs ≡ some (p, cs)) × (a < p)
unfolding any_fits alloc
alloc-any_fits size a [] h = cc
alloc-any_fits size a (b ∷ bs) h = elim (Bool-cases (fits size b)) [
  | inl fit ↦
      let cs =
        if ltb (size + 16) b.size
        then block size false ∷ block (b.size - size - 12) true ∷ bs
        else block b.size false ∷ bs in
      (a + 12, cs, rw fit, omega arith)
  | inr small ↦
      let (p, cs, e, lt) = alloc-any_fits size (a + 12 + b.size) bs (rw small at h) in
      (p, b ∷ cs, rw (small, e), omega arith)
]

null_of_Serves :
    (h : Heap) (limit : ℕ) (r : ℕ × Heap) (o : Option (ℕ × List Block))
    → Serves h limit r o
    → o ≡ none
    → r.0 ≡ 0
null_of_Serves h limit r none s e = ap (λ (q : ℕ × Heap). q.0) s
null_of_Serves h limit r (some q) s e = cc

address_of_Serves :
    (h : Heap) (limit p : ℕ) (bs : List Block) (r : ℕ × Heap) (o : Option (ℕ × List Block))
    → Serves h limit r o
    → o ≡ some (p, bs)
    → r.0 ≡ p
address_of_Serves h limit p bs r none s e = cc
address_of_Serves h limit p bs r (some q) s e = ground (arith, s.0)

-- `kmalloc` returns NULL exactly when no free block has room for the aligned size.
pub kmalloc-null_iff :
    (h : Heap) (size : ℕ) (bs : List Block) (limit : ℕ)
    → IsHeap h bs limit
    → ((kmalloc h size).0 ≡ 0) ↔ (any_fits (align size) bs ≡ false)
kmalloc-null_iff h size bs limit v = (
  λ null. elim (Bool-cases (any_fits (align size) bs)) [
    | inl fit ↦
        let (p, cs, e, lt) = alloc-any_fits (align size) h.heap_start bs fit in
        absurd
          (omega (arith, address_of_Serves h limit p cs _ _ (kmalloc-alloc h size bs limit v) e))
    | inr full ↦ full
  ],
  λ full.
      null_of_Serves h limit _ _ (kmalloc-alloc h size bs limit v)
        (any_fits-alloc (align size) h.heap_start bs full),
)
