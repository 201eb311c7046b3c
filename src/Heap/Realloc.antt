-- ===== src/Heap/Realloc.antt =====
-- `krealloc` of src/heap.c. The block of the pointer takes what it needs: bytes at the end of the
-- heap, the free block behind it, or else another block; what is left over is split off. What a
-- block's bytes hold is not in the model, so `memcpy` does nothing here.
mod Steps
mod Kept
mod Laws
mod Tests
use flopnix.Base.{
  ℕ, zero, suc, ◌+◌, ◌-◌, ◌/◌, ◌*◌, Bool, true, false, ◌&&◌, ◌||◌, not, Option, none, some, List,
  [], ◌∷◌, map, ltb, leb, ◌==◌, if◌then◌else◌,
}
use flopnix.Heap.{Heap, extent, expand_bytes, contains, header_of, trim, kmalloc, kfree}
use flopnix.Heap.Blocks.{Block, header, end_of, swallow, split, live_size, on_last, extended}
use flopnix.Heap.Buffers.{Buffer}

-- The next block is free, and there is no gap.
abbrev pub follows : Block → Block → Bool
follows b x = x.free && (end_of b == x.addr)

-- The bytes that `heap_expand` is asked for, on the block and those behind it; 0 is no call. The
-- block that grows is the last of the list.
unfoldable pub missing : (size grow_top : ℕ) → Block → List Block → ℕ
missing size grow_top b [] = if ltb b.size size && (end_of b == grow_top) then size - b.size else 0
missing size grow_top b (x ∷ []) =
    if ltb b.size size
      && (follows b x && (ltb (b.size + (header + x.size)) size && (end_of x == grow_top)))
    then size - (b.size + (header + x.size))
    else 0
missing size grow_top b (x ∷ y ∷ ys) = 0

-- From the live block whose header is at `a`.
unfoldable pub missing_at : (size grow_top a : ℕ) → List Block → ℕ
unfolding missing
missing_at size grow_top a [] = 0
missing_at size grow_top a (b ∷ bs) =
    let rest = missing_at size grow_top a bs in
    if not b.free && (b.addr == a) then missing size grow_top b bs else rest

-- What `heap_expand` answers, if it is called.
abbrev pub expanded : ℕ → ℕ → ℕ
expanded room need = if need == 0 then 0 else expand_bytes room need

-- `last->size += bytes`.
abbrev pub widen_by : ℕ → Heap → Heap
widen_by bytes h =
    if bytes == 0
    then h
    else record h { blocks = on_last (extended bytes) h.blocks; grow_top = h.grow_top + bytes }

-- `last->size += heap_expand(size - available)`.
unfoldable pub widen : (size a : ℕ) → Heap → Heap
unfolding missing_at expand_bytes on_last extended
widen size a h =
    widen_by (expanded (h.grow_limit - h.grow_top) (missing_at size h.grow_top a h.blocks)) h

-- The block takes in the free one behind it, if it is too small alone and large enough with it.
unfoldable pub merge : ℕ → Block → List Block → List Block
merge size b [] = b ∷ []
merge size b (x ∷ xs) =
    if ltb b.size size && (follows b x && leb size (b.size + (header + x.size)))
    then swallow b x ∷ xs
    else b ∷ x ∷ xs

-- Changes the list from the live block on whose header is at `a`.
unfoldable pub at_live : (Block → List Block → List Block) → ℕ → List Block → List Block
at_live f a [] = []
at_live f a (b ∷ bs) =
    let rest = at_live f a bs in if not b.free && (b.addr == a) then f b bs else b ∷ rest

-- `split` with the size last.
abbrev pub split_to : ℕ → Block → List Block → List Block
split_to size b rest = split b rest size

-- The loop over `panic_buffers`.
abbrev pub moved : ℕ → ℕ → ℕ → Buffer → Buffer
moved p next n b =
    if not (b.size == 0) && (b.base == p) then record b { base = next; size = n } else b

abbrev pub retrack : ℕ → ℕ → ℕ → Heap → Heap
retrack p next n h = record h { buffers = map (moved p next n) h.buffers }

-- The block is large enough.
abbrev pub is_enough : ℕ → Option ℕ → Bool
is_enough size none = false
is_enough size (some s) = leb size s

module _ (reclaim : Heap → Heap) where
  -- The other block, if there is one.
  abbrev pub replace : ℕ → ℕ → Option ℕ × Heap → Option ℕ × Heap
  replace p n (none, h) = (none, h)
  replace p n (some next, h) = (some next, kfree p (retrack p next n h))

  -- From the widened heap on.
  unfoldable pub resize : (p n size : ℕ) → Heap → Option ℕ × Heap
  unfolding at_live merge live_size split
  resize p n size h =
      let merged : Heap = record h { blocks = at_live (merge size) (header_of p) h.blocks } in
      if is_enough size (live_size (header_of p) merged.blocks)
      then (
        some p,
        trim (
            retrack p p n
              (record merged { blocks = at_live (split_to size) (header_of p) merged.blocks })),
      )
      else replace p n (kmalloc reclaim n merged)

  pub krealloc : ℕ → ℕ → Heap → Option ℕ × Heap
  unfolding widen resize live_size
  krealloc p n h =
      if p == 0
      then kmalloc reclaim n h
      else if n == 0
      then (none, kfree p h)
      else if not h.is_on || ltb (extent h) n || not (contains h (header_of p))
      then (none, h)
      else elim (live_size (header_of p) h.blocks) [
        | none ↦ (none, h)
        | some s ↦ resize p n ((n + 7) / 8 * 8) (widen ((n + 7) / 8 * 8) (header_of p) h)
      ]
