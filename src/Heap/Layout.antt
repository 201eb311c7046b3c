-- ===== src/Heap/Layout.antt =====
-- src/memlayout.inc: the reservations of physical memory, and the heap that starts in them.
use flopnix.Base.{
  ℕ, ◌+◌, ◌-◌, ◌*◌, ◌/◌, ◌%◌, ◌^◌, ◌≤◌, ◌<◌, ◌≡◌, ◌⊎◌, refl, inl, inr, true, false, ◌&&◌, ltb, leb,
  ◌==◌, if◌then◌else◌, arith, Bool-cases,
}
use flopnix.Heap.{Heap, init}
use flopnix.Heap.Chain.{total}
use flopnix.Heap.Grow.{IsHeap}

pub record MemoryLayout : Type 0 where
  pub fb : ℕ
  pub fb_end : ℕ
  pub arena : ℕ
  pub arena_end : ℕ
  pub pool : ℕ
  pub pool_end : ℕ
  pub heap : ℕ
  pub heap_end : ℕ

-- MEM_IO_BASE, MEM_IO_END and MEM_DMA_BASE.
abbrev io_base : ℕ
io_base = 0x270000

abbrev io_end : ℕ
io_end = 0x3B4000

abbrev dma_base : ℕ
dma_base = 0x80000

-- `x & ~(m - 1)` for a power of two `m`.
abbrev round_down : ℕ → ℕ → ℕ
round_down x m = x / m * m

-- `memory_heap_limit`.
unfoldable pub memory_heap_limit : ℕ → ℕ → ℕ
memory_heap_limit kb lfb =
    let end = if leb 0x100000 kb then 0x40000000 else kb * 1024 in
    let below = if leb 0x400000 lfb && ltb lfb end then round_down lfb 0x400000 else end in
    round_down below 4096

-- The first part of `memory_layout`: 9 MB of memory or more.
unfoldable pub large_layout : ℕ → MemoryLayout
large_layout screen =
    let at_least = if ltb screen (640 * 480) then 640 * 480 else screen in
    let shown = if ltb 0x100000 at_least then 0x100000 else at_least in
    let fb_end = io_end + round_down (shown + 4095) 4096 in
    let pool =
      if fb_end / 2 ^ 22 == (fb_end + 0xFFFFF) / 2 ^ 22
      then fb_end
      else round_down (fb_end + 0x3FFFFF) 0x400000 in
    record {
      fb = io_end;
      fb_end = fb_end;
      arena = io_base - 0x100000;
      arena_end = io_base;
      pool = pool;
      pool_end = pool + 0x100000;
      heap = 0x30000;
      heap_end = dma_base;
    }

-- The second part: less memory, or an unknown amount.
unfoldable pub small_layout : ℕ → MemoryLayout
small_layout kb =
    let roomy = leb 5120 kb in
    let heap = if roomy then io_end + 0x50000 else io_end in
    let heap_end = if kb == 0 then 0x400000 else kb * 1024 in
    record {
      fb = if roomy then io_end else 0x170000;
      fb_end = if roomy then io_end + 0x50000 else 0x1C0000;
      arena = if roomy then io_base - 0x100000 else 0x1C0000;
      arena_end = io_base;
      pool = 0x30000;
      pool_end = dma_base;
      heap = heap;
      heap_end = if ltb heap_end heap then heap else heap_end;
    }

unfoldable pub memory_layout : ℕ → ℕ → MemoryLayout
memory_layout kb screen = if leb 9216 kb then large_layout screen else small_layout kb

-- The heap of a machine with `kb` kilobytes of memory and a linear framebuffer at `lfb`.
abbrev pub boot_heap : (kb screen lfb : ℕ) → Heap
boot_heap kb screen lfb =
    let m = memory_layout kb screen in init m.heap m.heap_end m.pool_end (memory_heap_limit kb lfb)

-- The limit is a multiple of a page and, on a small machine, not above the memory.
limit_lem :
    (kb lfb : ℕ)
    → (memory_heap_limit kb lfb % 8 ≡ 0) × (kb < 9216 → memory_heap_limit kb lfb ≤ kb * 1024)
unfolding memory_heap_limit
limit_lem kb lfb = ground arith

-- The ends that `heap_init` reads.
abbrev Ends : MemoryLayout → Type 0
Ends m = (m.heap % 8 ≡ 0) × (m.heap_end % 8 ≡ 0) × (m.pool_end % 8 ≡ 0) × (m.heap ≤ m.heap_end)

small-Ends : (kb : ℕ) → Ends (small_layout kb)
unfolding small_layout
small-Ends kb = ground arith

large-Ends : (screen : ℕ) → Ends (large_layout screen) × (dma_base < (large_layout screen).pool_end)
unfolding large_layout
large-Ends screen = ground arith

init-IsHeap :
    (base heap_end pool_end limit : ℕ)
    → base % 8 ≡ 0
    → heap_end % 8 ≡ 0
    → pool_end % 8 ≡ 0
    → limit % 8 ≡ 0
    → base ≤ heap_end
    → (heap_end < pool_end) ⊎ (limit ≤ heap_end)
    → (init base heap_end pool_end limit).is_on ≡ true
    → IsHeap (init base heap_end pool_end limit)
unfolding init
init-IsHeap base heap_end pool_end limit a b c d le gap on =
    let large : ltb heap_end (base + 0x8000) ≡ false = ground arith in
    rw large (record {
      on = refl;
      some_block = λ e. cc;
      base_aligned = a;
      top_aligned = b;
      grow_aligned = ground arith;
      grow_top_aligned = ground arith;
      limit_aligned = ground arith;
      base_le = le;
      top_le = ground arith;
      grow_le = omega arith;
      limit_le = ground arith;
      gap = ground arith;
      chain = (omega arith, a, ground arith, inl (ground arith), ground arith);
      accounted = unfold total in ground arith;
    })

low_end : (screen : ℕ) → (large_layout screen).heap_end < (large_layout screen).pool_end
low_end screen = let e = (large-Ends screen).1 in unfold large_layout in e

-- A small machine's heap reaches the end of its memory, so the growth limit is below it.
no_growth : (kb lfb : ℕ) → kb < 9216 → memory_heap_limit kb lfb ≤ (small_layout kb).heap_end
unfolding small_layout
no_growth kb lfb h = ground (arith, (limit_lem kb lfb).1)

-- On a machine whose heap is on after `heap_init`, the heap is well formed: whatever memory the
-- machine has and whatever its screen needs, `memory_layout` and `memory_heap_limit` place its two
-- areas so.
pub boot_heap-IsHeap :
    (kb screen lfb : ℕ) → (boot_heap kb screen lfb).is_on ≡ true → IsHeap (boot_heap kb screen lfb)
unfolding memory_layout
boot_heap-IsHeap kb screen lfb on =
    let l = limit_lem kb lfb in
    elim (Bool-cases (leb 9216 kb)) [
      | inl large ↦
          let e = large-Ends screen in
          let on' : (init (large_layout screen).heap (large_layout screen).heap_end
                (large_layout screen).pool_end (memory_heap_limit kb lfb)).is_on
              ≡ true =
            rw large at on in
          rw large (init-IsHeap _ _ _ _ e.0.0 e.0.1 e.0.2 l.0 e.0.3 (inl (low_end screen)) on')
      | inr small ↦
          let e = small-Ends kb in
          let on' : (init (small_layout kb).heap (small_layout kb).heap_end
                (small_layout kb).pool_end (memory_heap_limit kb lfb)).is_on
              ≡ true =
            rw small at on in
          rw small
            (init-IsHeap _ _ _ _ e.0 e.1 e.2 l.0 e.3 (inr (no_growth kb lfb (ground arith))) on')
    ]
