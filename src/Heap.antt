-- ===== src/Heap.antt =====
-- The kernel heap, src/heap.c. The headers that `next` links are the list of the blocks, in list
-- order; a header is 16 bytes, and its block's bytes follow it. An address that is no header's has
-- no HMAGIC; a header that a merge has swallowed still has it, and is marked free, so both are
-- refused alike. All sizes are checked against the extent of the heap first, which lies below 2^31,
-- so no sum wraps. `irq_save` and `irq_restore` make each call atomic.
pub mod Blocks
pub mod Buffers
pub mod Chain
pub mod Live
pub mod Last
pub mod Grow
pub mod Layout
mod Tests
pub mod Alloc
pub mod Free
pub mod Realloc
use flopnix.Base.{
  ℕ, zero, suc, ◌+◌, ◌-◌, ◌*◌, ◌/◌, ◌%◌, ◌^◌, Bool, true, false, ◌&&◌, ◌||◌, not, Option, none,
  some, List, [], ◌∷◌, ltb, leb, ◌==◌, if◌then◌else◌,
}
use Buffers.{Buffer, no_buffers, untrack}
use Blocks.{
  Block, header, end_of, fit, join, live_size, release, last?, on_last, extended, added, drop_last,
  free_bytes, free_blocks, largest_from,
}

pub record Heap : Type 0 where
  pub blocks : List Block
  -- HEAP_BASE, `heap_top`, `grow_base`, `grow_top`, `grow_limit` and `heap_on`.
  pub base : ℕ
  pub top : ℕ
  pub grow_base : ℕ
  pub grow_top : ℕ
  pub grow_limit : ℕ
  pub is_on : Bool
  -- `panic_buffers`.
  pub buffers : List Buffer

-- `heap_init`, from the memory layout and the limit that `memory_heap_limit` computes.
pub init : (base heap_end pool_end limit : ℕ) → Heap
init base heap_end pool_end limit =
    let grow = if ltb heap_end pool_end then pool_end else heap_end in
    let is_on = not (ltb heap_end (base + 0x8000)) in
    record {
      blocks =
          if is_on
          then record { addr = base; size = heap_end - base - header; free = true } ∷ []
          else [];
      base = base;
      top = heap_end;
      grow_base = grow;
      grow_top = grow;
      grow_limit = if ltb limit grow then grow else limit;
      is_on = is_on;
      buffers = no_buffers;
    }

-- `heap_expand`: the bytes that the heap grows by, 0 if there is no room.
unfoldable pub expand_bytes : ℕ → ℕ → ℕ
expand_bytes room need =
    let rounded = (need + 4095) / 4096 * 4096 in
    let bytes = if ltb rounded 65536 then 65536 else rounded in
    if ltb room need then 0 else if ltb room bytes then room else bytes

-- The last block ends where the heap does, and is free.
can_extend : Heap → Block → Bool
can_extend h b = b.free && (end_of b == h.grow_top)

-- The branch of `heap_grow` after `heap_expand`.
grow_by : Heap → Bool → ℕ → Bool × Heap
unfolding on_last extended added
grow_by h extend bytes = if bytes == 0 then (false, h) else (
  true,
  record h {
    blocks = on_last (if extend then extended bytes else added h.grow_top bytes) h.blocks;
    grow_top = h.grow_top + bytes;
  },
)

-- `heap_grow`. The list of a heap that is on is never empty.
pub grow : ℕ → Heap → Bool × Heap
unfolding grow_by can_extend expand_bytes last?
grow n h = elim (last? h.blocks) [
  | none ↦ (false, h)
  | some last ↦
      let extend = can_extend h last in
      grow_by h extend
        (expand_bytes (h.grow_limit - h.grow_top) (if extend then n - last.size else n + header))
]

-- `heap_trim`: gives a free last block of the growth area back, unless it is the only block.
pub trim : Heap → Heap
unfolding last? drop_last
trim h = elim (last? h.blocks) [
  | none ↦ h
  | some last ↦ elim (drop_last h.blocks) [
    | [] ↦ h
    | b ∷ bs ↦
        if last.free && (leb h.grow_base last.addr && (end_of last == h.grow_top))
        then record h { blocks = b ∷ bs; grow_top = last.addr }
        else h
  ]
]

-- `heap_contains`.
pub contains : Heap → ℕ → Bool
contains h p =
    (p % 8 == 0)
    && ((leb h.base p && leb p (h.top - header))
        || (leb h.grow_base p && (ltb p h.grow_top && leb p (h.grow_top - header))))

-- One pass of `kmalloc` over the list: the address of the block's bytes, and the heap with the
-- block taken.
scan : ℕ → Heap → Option (ℕ × Heap)
unfolding fit
scan n h = elim (fit n h.blocks) [
  | none ↦ none
  | some (a, bs) ↦ some (a + header, record h { blocks = bs })
]

-- The most that the heap can ever hold.
abbrev pub extent : Heap → ℕ
extent h = h.top - h.base + h.grow_limit - h.grow_base

-- `fs_cache_clear` and `win_image_trim`, which free what the file cache and the windows can spare:
-- they reach the heap through `kfree` only.
module _ (reclaim : Heap → Heap) where
  -- The passes of `kmalloc`, with `k` more to go after this one; `none` is the null pointer.
  passes : ℕ → ℕ → Heap → Option ℕ × Heap
  unfolding scan
  passes zero n h = elim (scan n h) [ some (p, h') ↦ (some p, h') | none ↦ (none, h) ]
  passes (suc k) n h = elim (scan n h) [
    | some (p, h') ↦ (some p, h')
    | none ↦ passes k n (let (grown, h') = grow n h in if grown then h' else reclaim h')
  ]

  pub kmalloc : ℕ → Heap → Option ℕ × Heap
  unfolding passes
  kmalloc n h =
      if (n == 0) || (not h.is_on || ltb (extent h) n)
      then (none, h)
      else passes 2 ((n + 7) / 8 * 8) h

-- `(Blk *)p - 1`, in 32 bits.
abbrev pub header_of : ℕ → ℕ
header_of p = (p + 2 ^ 32 - header) % 2 ^ 32

-- `kfree`. A pointer that is null, outside the heap, or no live block's changes nothing.
pub kfree : ℕ → Heap → Heap
unfolding live_size release join trim
kfree p h =
    if not h.is_on || ((p == 0) || not (contains h (header_of p)))
    then h
    else elim (live_size (header_of p) h.blocks) [
      | none ↦ h
      | some size ↦ trim (record h {
        blocks = join (release (header_of p) h.blocks);
        buffers = untrack p h.buffers;
      })
    ]

-- `heap_free`, `heap_avail`, `heap_largest`, `heap_blocks`, `heap_capacity` and `heap_limit`.
pub heap_free : Heap → ℕ
heap_free h = if h.is_on then free_bytes h.blocks else 0

pub heap_avail : Heap → ℕ
unfolding heap_free
heap_avail h = if h.is_on then heap_free h + h.grow_limit - h.grow_top else 0

pub heap_largest : Heap → ℕ
heap_largest h = if h.is_on then largest_from 0 h.blocks else 0

pub heap_blocks : Heap → ℕ
heap_blocks h = if h.is_on then free_blocks h.blocks else 0

heap_end : Heap → ℕ
heap_end h = if h.is_on then h.top else h.base

pub heap_capacity : Heap → ℕ
unfolding heap_end
heap_capacity h = heap_end h - h.base + h.grow_top - h.grow_base

pub heap_limit : Heap → ℕ
unfolding heap_end
heap_limit h = heap_end h - h.base + h.grow_limit - h.grow_base
