-- ===== src/Mem/Blocks.antt =====
-- The heap of kernel/mem.c as a row of blocks that tile a region of memory, without pointers.
use mx_os.Prelude.{
  ℕ, ◌+◌, ◌-◌, Bool, true, false, ◌&&◌, Option, none, some, List, [], ◌∷◌, ltb, leb, ◌==◌,
  if◌then◌else◌,
}
use mathlib.Core.Option

-- A block's payload size, and whether it is free; its header stands before the payload.
pub record Block : Type 0 where
  pub size : ℕ
  pub is_free : Bool

abbrev pub block : ℕ → Bool → Block
block n b = record { size = n; is_free = b }

-- Whether a request fits a block.
abbrev pub fits : ℕ → Block → Bool
fits size b = b.is_free && leb size b.size

-- First fit from address `a` on: the payload's address, and the blocks after.
unfoldable pub alloc : ℕ → ℕ → List Block → Option (ℕ × List Block)
alloc size a [] = none
alloc size a (b ∷ bs) =
    if fits size b
    then some (
      a + 12,
      if ltb (size + 16) b.size
          then block size false ∷ block (b.size - size - 12) true ∷ bs
          else block b.size false ∷ bs,
    )
    else Option.map (λ (r : ℕ × List Block). (r.0, b ∷ r.1)) (alloc size (a + 12 + b.size) bs)

-- A block that has become free, joined with a free block behind it.
unfoldable pub join : Block → List Block → List Block
join b [] = block b.size true ∷ []
join b (c ∷ cs) =
    if c.is_free then block (b.size + c.size + 12) true ∷ cs else block b.size true ∷ c ∷ cs

-- Frees the block whose payload begins at `p`.
unfoldable pub release : ℕ → ℕ → List Block → List Block
release p a [] = []
release p a (b ∷ bs) = if p == a + 12 then join b bs else b ∷ release p (a + 12 + b.size) bs

-- `p` is the address of some payload.
unfoldable pub is_payload : ℕ → ℕ → List Block → Bool
is_payload p a [] = false
is_payload p a (b ∷ bs) = if p == a + 12 then true else is_payload p (a + 12 + b.size) bs

unfoldable pub used_bytes : List Block → ℕ
used_bytes [] = 0
used_bytes (b ∷ bs) = (if b.is_free then 0 else b.size) + used_bytes bs

unfoldable pub free_bytes : List Block → ℕ
free_bytes [] = 0
free_bytes (b ∷ bs) = (if b.is_free then b.size else 0) + free_bytes bs
