-- ===== src/Heap/Realloc/Tests.antt =====
-- A block of 104 bytes at the start of a heap that grows to 200 in place, and the theorem there.
use flopnix.Base.{ℕ, ◌≡◌, refl, Bool, true, false, some, [], ◌∷◌, arith}
use flopnix.Heap.{Heap, kmalloc, contains}
use flopnix.Heap.Blocks.{live_size, fit, split, absorb}
use flopnix.Heap.Buffers.{no_buffers}
use flopnix.Heap.Grow.{IsHeap}
use flopnix.Heap.Alloc.{kmalloc-Got}
use flopnix.Heap.Layout.{memory_layout, memory_heap_limit, boot_heap-IsHeap, large_layout}
use flopnix.Heap.Realloc.{krealloc}
use flopnix.Heap.Realloc.Laws.{Moved, krealloc-Moved}

abbrev keep : Heap → Heap
keep h = h

abbrev no_cache : ℕ → Bool
no_cache a = false

-- The heap of a 16 MB machine, as it starts.
abbrev fresh : Heap
fresh = record {
  blocks = record { addr = 0x30000; size = 327664; free = true } ∷ [];
  base = 0x30000;
  top = 0x80000;
  grow_base = 0x500000;
  grow_top = 0x500000;
  grow_limit = 0x1000000;
  is_on = true;
  buffers = no_buffers;
}

abbrev one_block : Heap
one_block = record fresh {
  blocks =
      record { addr = 0x30000; size = 104; free = false }
      ∷ record { addr = 0x30078; size = 327544; free = true }
      ∷ [];
}

grows_in_place : krealloc keep 0x30010 200 one_block ≡ (
  some 0x30010,
  record fresh {
    blocks =
        record { addr = 0x30000; size = 200; free = false }
        ∷ record { addr = 0x300D8; size = 327448; free = true }
        ∷ [];
  },
)
unfolding krealloc contains flopnix.Heap.trim
grows_in_place = refl

one_block-IsHeap : IsHeap one_block
unfolding kmalloc fit split absorb memory_layout memory_heap_limit large_layout flopnix.Heap.init
one_block-IsHeap =
    (kmalloc-Got keep no_cache 100 fresh (λ h v. (v, λ a c. refl))
      (boot_heap-IsHeap 16384 307200 0 refl)).0

krealloc-Moved_example :
    Moved keep no_cache 0x30010 200 104 one_block (krealloc keep 0x30010 200 one_block)
unfolding live_size
krealloc-Moved_example =
    krealloc-Moved keep no_cache 0x30010 200 104 one_block (λ h v. (v, λ a c. refl))
      one_block-IsHeap (omega arith) (omega arith) (omega arith) refl refl
