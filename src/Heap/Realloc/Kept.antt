-- ===== src/Heap/Realloc/Kept.antt =====
-- Heaps that differ in one live block, and the bytes that `krealloc` adds at the end of the heap.
use flopnix.Base.{
  ℕ, ◌+◌, ◌-◌, ◌%◌, ◌≤◌, ◌≡◌, ◌≢◌, ◌⊎◌, refl, inl, inr, true, some, List, ◌==◌, arith, Bool-cases,
  ==_ne,
}
use flopnix.Heap.{Heap, expand_bytes}
use flopnix.Heap.Blocks.{Block, end_of, live_size, on_last, extended, last?}
use flopnix.Heap.Last.{Chain-extend, on_last-ne-nil}
use flopnix.Heap.Grow.{IsHeap, IsHeap-blocks, IsHeap-grown, expand_bytes_lem}
use flopnix.Heap.Realloc.{missing_at, widen_by, widen}
use flopnix.Heap.Realloc.Steps.{Resized, missing-last, live_size-widened, own-widened}

-- A well-formed heap in which only the block at `a` has changed, and has `m` bytes at least.
pub record Kept (a m : ℕ) (h h' : Heap) : Type 0 where
  pub heap : IsHeap h'
  pub others : (x : ℕ) → x ≢ a → live_size x h'.blocks ≡ live_size x h.blocks
  pub own : (s : ℕ) × (m ≤ s) × (live_size a h'.blocks ≡ some s)

pub Kept-Resized :
    (a m : ℕ) (h : Heap) (bs : List Block)
    → IsHeap h
    → Resized h.top h.grow_base h.base h.grow_top a m h.blocks bs
    → Kept a m h (record h { blocks = bs })
Kept-Resized a m h bs v r = record {
  heap = IsHeap-blocks h bs v r.ne_nil r.chain r.bytes;
  others = r.others;
  own = r.own;
}

widened :
    (a s bytes : ℕ) (h : Heap) (last : Block)
    → IsHeap h
    → live_size a h.blocks ≡ some s
    → last? h.blocks ≡ some last
    → end_of last ≡ h.grow_top
    → (last.free ≡ true) ⊎ (last.addr ≡ a)
    → bytes ≤ h.grow_limit - h.grow_top
    → bytes % 8 ≡ 0
    → Kept a s h
        (record h { blocks = on_last (extended bytes) h.blocks; grow_top = h.grow_top + bytes })
widened a s bytes h last v l is ends who room al = record {
  heap =
      IsHeap-grown h (on_last (extended bytes) h.blocks) bytes v
        (on_last-ne-nil (extended bytes) h.blocks (λ b. unfold extended in λ e. cc) v.some_block)
        room al
        (Chain-extend h.top h.grow_base h.base h.blocks last h.grow_top bytes is ends al v.top_le
          v.grow_le v.chain);
  others = live_size-widened a bytes h.blocks last is who;
  own = own-widened a bytes s h.blocks l;
}

same_heap : (a s : ℕ) (h : Heap) → IsHeap h → live_size a h.blocks ≡ some s → Kept a s h h
same_heap a s h v l = record { heap = v; others = λ x ne. refl; own = (s, omega arith, l) }

widen_by-Kept :
    (a s bytes : ℕ) (h : Heap)
    → IsHeap h
    → live_size a h.blocks ≡ some s
    → (last : Block) × (last? h.blocks ≡ some last)
      × (end_of last ≡ h.grow_top)
      × ((last.free ≡ true) ⊎ (last.addr ≡ a))
    → bytes ≤ h.grow_limit - h.grow_top
    → bytes % 8 ≡ 0
    → Kept a s h (widen_by bytes h)
widen_by-Kept a s bytes h v l last room al = elim (Bool-cases (bytes == 0)) [
  | inl none_ ↦ rw none_ (same_heap a s h v l)
  | inr more ↦ rw more (widened a s bytes h last.0 v l last.1 last.2 last.3 room al)
]

pub widen-Kept :
    (size a s : ℕ) (h : Heap)
    → IsHeap h
    → live_size a h.blocks ≡ some s
    → Kept a s h (widen size a h)
unfolding widen
widen-Kept size a s h v l =
    let need : ℕ = missing_at size h.grow_top a h.blocks in
    let room : ℕ = h.grow_limit - h.grow_top in
    elim (Bool-cases (need == 0)) [
      | inl none_ ↦ rw none_ (same_heap a s h v l)
      | inr asks ↦ rw asks (
          widen_by-Kept a s (expand_bytes room need) h v l
            (missing-last size h.grow_top a h.blocks ((==_ne need 0) asks))
            (expand_bytes_lem room need).0 ((expand_bytes_lem room need).1 (omega arith)))
    ]
