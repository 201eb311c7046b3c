-- ===== src/Heap/Blocks.antt =====
-- The list of blocks of src/heap.c, and the loops of the heap's operations over it.
use flopnix.Base.{
  ℕ, ◌+◌, ◌-◌, Bool, true, false, ◌&&◌, ◌||◌, not, Option, none, some, List, [], ◌∷◌, ltb, ◌==◌,
  if◌then◌else◌,
}

-- `DebugHeapBlock` of src/debug.h with its own address; `magic` is the same in all.
pub record Block : Type 0 where
  pub addr : ℕ
  pub size : ℕ
  pub free : Bool

-- `sizeof(Blk)`.
abbrev pub header : ℕ
header = 16

abbrev pub end_of : Block → ℕ
end_of b = b.addr + header + b.size

abbrev pub swallow : Block → Block → Block
swallow r x = record r { size = r.size + (header + x.size) }

-- The loop of `split`: a free block takes in the free blocks that follow it without a gap.
unfoldable pub absorb : Block → List Block → List Block
absorb r [] = r ∷ []
absorb r (x ∷ xs) = if x.free && (end_of r == x.addr) then absorb (swallow r x) xs else r ∷ x ∷ xs

-- `split`, on a block and those behind it.
unfoldable pub split : Block → List Block → ℕ → List Block
unfolding absorb
split b rest n =
    if ltb b.size (n + header + 8)
    then b ∷ rest
    else record b { size = n }
      ∷ absorb (record { addr = b.addr + header + n; size = b.size - n - header; free = true }) rest

-- `b->free = 0` on the block that the list starts with.
abbrev pub occupy : List Block → List Block
occupy [] = []
occupy (b ∷ bs) = record b { free = false } ∷ bs

-- The scan of one pass of `kmalloc`: the first free block that is large enough is split and taken.
unfoldable pub fit : ℕ → List Block → Option (ℕ × List Block)
fit n [] = none
fit n (b ∷ bs) =
    let rest = fit n bs in
    if not b.free || ltb b.size n
    then elim rest [ none ↦ none | some (a, cs) ↦ some (a, b ∷ cs) ]
    else some (b.addr, occupy (split b bs n))

-- The loops of `kfree`: block by block, a free block takes in the free one behind it.
unfoldable pub join_from : Block → List Block → List Block
join_from s [] = s ∷ []
join_from s (x ∷ xs) = elim (s.free && (x.free && (end_of s == x.addr))) [
  | true ↦ join_from (swallow s x) xs
  | false ↦ s ∷ join_from x xs
]

unfoldable pub join : List Block → List Block
unfolding join_from
join [] = []
join (b ∷ bs) = join_from b bs

-- The size of the live block whose header is at `a`: HMAGIC, and not free.
unfoldable pub live_size : ℕ → List Block → Option ℕ
live_size a [] = none
live_size a (b ∷ bs) = if not b.free && (b.addr == a) then some b.size else live_size a bs

-- `b->free = 1` on the live block whose header is at `a`.
unfoldable pub release : ℕ → List Block → List Block
release a [] = []
release a (b ∷ bs) =
    if not b.free && (b.addr == a) then record b { free = true } ∷ bs else b ∷ release a bs

unfoldable pub last? : List Block → Option Block
last? [] = none
last? (b ∷ []) = some b
last? (b ∷ c ∷ bs) = last? (c ∷ bs)

-- Puts other blocks in place of the last one.
unfoldable pub on_last : (Block → List Block) → List Block → List Block
on_last f [] = []
on_last f (b ∷ []) = f b
on_last f (b ∷ c ∷ bs) = b ∷ on_last f (c ∷ bs)

-- What `heap_grow` makes of the last block: a larger one, or one with a new free block behind it.
unfoldable pub extended : ℕ → Block → List Block
extended bytes b = record b { size = b.size + bytes } ∷ []

unfoldable pub added : ℕ → ℕ → Block → List Block
added at bytes b = b ∷ record { addr = at; size = bytes - header; free = true } ∷ []

unfoldable pub drop_last : List Block → List Block
drop_last [] = []
drop_last (b ∷ []) = []
drop_last (b ∷ c ∷ bs) = b ∷ drop_last (c ∷ bs)

-- `heap_free`, `heap_blocks` and `heap_largest`, from the values so far.
unfoldable pub free_bytes : List Block → ℕ
free_bytes [] = 0
free_bytes (b ∷ bs) = (if b.free then b.size else 0) + free_bytes bs

unfoldable pub free_blocks : List Block → ℕ
free_blocks [] = 0
free_blocks (b ∷ bs) = (if b.free then 1 else 0) + free_blocks bs

unfoldable pub largest_from : ℕ → List Block → ℕ
largest_from best [] = best
largest_from best (b ∷ bs) = largest_from (if b.free && ltb best b.size then b.size else best) bs
