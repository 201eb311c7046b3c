-- ===== src/Heap/Tests.antt =====
-- The heap of a 16 MB machine, and the theorems there.
use flopnix.Base.{ℕ, ◌≡◌, refl, Bool, true, false, some, [], ◌∷◌, arith}
use flopnix.Heap.{Heap, init, kmalloc, kfree, heap_largest, contains}
use flopnix.Heap.Buffers.{no_buffers, untrack}
use flopnix.Heap.Blocks.{live_size, fit, split, absorb, largest_from}
use flopnix.Heap.Grow.{IsHeap}
use flopnix.Heap.Alloc.{Got, kmalloc-Got, kmalloc_succeeds}
use flopnix.Heap.Free.{kfree-live}
use flopnix.Heap.Layout.{
  memory_layout, memory_heap_limit, boot_heap, boot_heap-IsHeap, large_layout,
}

abbrev keep : Heap → Heap
keep h = h

abbrev no_cache : ℕ → Bool
no_cache a = false

abbrev fresh : Heap
fresh = record {
  blocks = record { addr = 0x30000; size = 327664; free = true } ∷ [];
  base = 0x30000;
  top = 0x80000;
  grow_base = 0x500000;
  grow_top = 0x500000;
  grow_limit = 0x1000000;
  is_on = true;
  buffers = no_buffers;
}

boot_runs : boot_heap 16384 307200 0 ≡ fresh
unfolding memory_layout memory_heap_limit init large_layout
boot_runs = refl

boot_heap-IsHeap_example : IsHeap fresh
unfolding memory_layout memory_heap_limit init large_layout
boot_heap-IsHeap_example = boot_heap-IsHeap 16384 307200 0 refl

-- After one request for 100 bytes.
abbrev one_block : Heap
one_block = record fresh {
  blocks =
      record { addr = 0x30000; size = 104; free = false }
      ∷ record { addr = 0x30078; size = 327544; free = true }
      ∷ [];
}

kmalloc_runs : kmalloc keep 100 fresh ≡ (some 0x30010, one_block)
unfolding kmalloc fit split absorb
kmalloc_runs = refl

kfree_runs_back : kfree 0x30010 one_block ≡ fresh
unfolding kfree contains untrack
kfree_runs_back = refl

fresh-IsHeap : IsHeap fresh
unfolding memory_layout memory_heap_limit init large_layout
fresh-IsHeap = boot_heap-IsHeap 16384 307200 0 refl

one_block-IsHeap : IsHeap one_block
unfolding kmalloc fit split absorb
one_block-IsHeap = (kmalloc-Got keep no_cache 100 fresh (λ h v. (v, λ a c. refl)) fresh-IsHeap).0

kmalloc-Got_example : Got keep no_cache 100 fresh (kmalloc keep 100 fresh)
kmalloc-Got_example = kmalloc-Got keep no_cache 100 fresh (λ h v. (v, λ a c. refl)) fresh-IsHeap

kmalloc_succeeds_example : (p : ℕ) × ((kmalloc keep 100 fresh).0 ≡ some p)
unfolding heap_largest largest_from
kmalloc_succeeds_example =
    kmalloc_succeeds keep 100 fresh fresh-IsHeap (omega arith) (omega arith) (omega arith)

kfree-live_example : IsHeap (kfree 0x30010 one_block)
unfolding live_size
kfree-live_example = (kfree-live one_block 0x30000 104 one_block-IsHeap (omega arith) refl).0
