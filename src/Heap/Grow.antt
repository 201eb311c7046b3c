-- ===== src/Heap/Grow.antt =====
-- Growing and trimming the heap.
use flopnix.Base.{
  ℕ, ◌+◌, ◌-◌, ◌%◌, ◌≤◌, ◌<◌, ◌≡◌, ◌≢◌, ◌⊎◌, refl, inl, inr, true, false, ◌&&◌, some, List, [], ◌∷◌,
  leb, ◌==◌, if◌then◌else◌, arith, ap, sym, subst, ◌∙◌, Bool-cases,
}
use flopnix.Heap.{Heap, expand_bytes, can_extend, grow_by, grow, trim}
use flopnix.Heap.Blocks.{Block, header, end_of, live_size, last?, extended, added, drop_last}
use flopnix.Heap.Buffers.{Buffer}
use flopnix.Heap.Chain.{total, Chain}
use flopnix.Heap.Last.{
  live_size-extended, live_size-added, live_size-drop_last, on_last-ne-nil, last?-some,
  last?-aligned, List-cases, Chain-extend, Chain-add, Chain-drop_last,
}

-- A heap that is on: its two areas are in place and their borders aligned, the block list is a
-- chain of them that is not empty, and every byte of both areas is in a block.
pub record IsHeap (h : Heap) : Type 0 where
  pub on : h.is_on ≡ true
  pub some_block : h.blocks ≢ []
  pub base_aligned : h.base % 8 ≡ 0
  pub top_aligned : h.top % 8 ≡ 0
  pub grow_aligned : h.grow_base % 8 ≡ 0
  pub grow_top_aligned : h.grow_top % 8 ≡ 0
  pub limit_aligned : h.grow_limit % 8 ≡ 0
  pub base_le : h.base ≤ h.top
  pub top_le : h.top ≤ h.grow_base
  pub grow_le : h.grow_base ≤ h.grow_top
  pub limit_le : h.grow_top ≤ h.grow_limit
  -- The growth area does not touch the first one, or stays empty.
  pub gap : (h.top < h.grow_base) ⊎ (h.grow_limit ≡ h.grow_base)
  pub chain : Chain h.top h.grow_base h.base h.blocks h.grow_top
  pub accounted : h.base + total h.blocks + h.grow_base ≡ h.top + h.grow_top

pub expand_bytes_lem :
    (room need : ℕ)
    → let bytes = expand_bytes room need in
      (bytes ≤ room) × (room % 8 ≡ 0 → bytes % 8 ≡ 0) × (bytes ≢ 0 → need ≤ bytes)
unfolding expand_bytes
expand_bytes_lem room need = ground arith

-- The heap after a call has the same live blocks.
abbrev pub SameLive : Heap → Heap → Type 0
SameLive h h' = (a : ℕ) → live_size a h'.blocks ≡ live_size a h.blocks

-- The same heap with other blocks, which keep its bytes.
pub IsHeap-blocks :
    (h : Heap) (bs : List Block)
    → IsHeap h
    → bs ≢ []
    → Chain h.top h.grow_base h.base bs h.grow_top
    → total bs ≡ total h.blocks
    → IsHeap (record h { blocks = bs })
IsHeap-blocks h bs v ne c t = record {
  on = v.on;
  some_block = ne;
  base_aligned = v.base_aligned;
  top_aligned = v.top_aligned;
  grow_aligned = v.grow_aligned;
  grow_top_aligned = v.grow_top_aligned;
  limit_aligned = v.limit_aligned;
  base_le = v.base_le;
  top_le = v.top_le;
  grow_le = v.grow_le;
  limit_le = v.limit_le;
  gap = v.gap;
  chain = c;
  accounted = omega arith;
}

-- What is tracked does not matter.
pub IsHeap-buffers : (h : Heap) (ts : List Buffer) → IsHeap h → IsHeap (record h { buffers = ts })
IsHeap-buffers h ts v = record {
  on = v.on;
  some_block = v.some_block;
  base_aligned = v.base_aligned;
  top_aligned = v.top_aligned;
  grow_aligned = v.grow_aligned;
  grow_top_aligned = v.grow_top_aligned;
  limit_aligned = v.limit_aligned;
  base_le = v.base_le;
  top_le = v.top_le;
  grow_le = v.grow_le;
  limit_le = v.limit_le;
  gap = v.gap;
  chain = v.chain;
  accounted = v.accounted;
}

-- A heap whose blocks and growth limit have changed as `heap_grow` changes them.
pub IsHeap-grown :
    (h : Heap) (bs : List Block) (bytes : ℕ)
    → IsHeap h
    → bs ≢ []
    → bytes ≤ h.grow_limit - h.grow_top
    → bytes % 8 ≡ 0
    → Chain h.top h.grow_base h.base bs (h.grow_top + bytes) × (total bs ≡ total h.blocks + bytes)
    → IsHeap (record h { blocks = bs; grow_top = h.grow_top + bytes })
IsHeap-grown h bs bytes v ne room al c = record {
  on = v.on;
  some_block = ne;
  base_aligned = v.base_aligned;
  top_aligned = v.top_aligned;
  grow_aligned = v.grow_aligned;
  grow_top_aligned = omega arith;
  limit_aligned = v.limit_aligned;
  base_le = v.base_le;
  top_le = v.top_le;
  grow_le = omega arith;
  limit_le = omega arith;
  gap = v.gap;
  chain = c.0;
  accounted = omega arith;
}

grow_by-IsHeap :
    (h : Heap) (last : Block) (bytes : ℕ)
    → IsHeap h
    → last? h.blocks ≡ some last
    → bytes ≤ h.grow_limit - h.grow_top
    → bytes % 8 ≡ 0
    → (can_extend h last ≡ false → bytes ≢ 0 → header ≤ bytes)
    → IsHeap (grow_by h (can_extend h last) bytes).1
      × SameLive h (grow_by h (can_extend h last) bytes).1
unfolding grow_by can_extend
grow_by-IsHeap h last bytes v l room al enough = elim (Bool-cases (bytes == 0)) [
  | inl nothing ↦ rw nothing (v, λ a. refl)
  | inr some_bytes ↦ elim (Bool-cases (last.free && (end_of last == h.grow_top))) [
    | inl ext ↦
        rw (some_bytes, ext)
          (
            IsHeap-grown h _ bytes v
                (on_last-ne-nil (extended bytes) h.blocks (λ b. unfold extended in λ e. cc)
                  v.some_block)
                room al
                (Chain-extend h.top h.grow_base h.base h.blocks last h.grow_top bytes l
                  (ground arith) al v.top_le v.grow_le v.chain),
            λ a. live_size-extended a bytes h.blocks last l (ground arith),
          )
    | inr new ↦
        rw (some_bytes, new)
          (
            IsHeap-grown h _ bytes v
                (on_last-ne-nil (added h.grow_top bytes) h.blocks (λ b. unfold added in λ e. cc)
                  v.some_block)
                room al
                (Chain-add h.top h.grow_base h.base h.blocks h.grow_top bytes v.some_block
                  (enough new (ground arith)) al v.grow_top_aligned v.grow_le v.chain),
            λ a. live_size-added a h.grow_top bytes h.blocks,
          )
  ]
]

-- `heap_grow` keeps a heap well formed and its live blocks as they are.
pub grow-IsHeap : (n : ℕ) (h : Heap) → IsHeap h → IsHeap (grow n h).1 × SameLive h (grow n h).1
unfolding grow
grow-IsHeap n h v =
    let (last, l) = last?-some h.blocks v.some_block in
    let need : ℕ = if can_extend h last then n - last.size else n + header in
    let e = expand_bytes_lem (h.grow_limit - h.grow_top) need in
    rw (l, grow)
      (grow_by-IsHeap h last (expand_bytes (h.grow_limit - h.grow_top) need) v l e.0
        (e.1 (omega arith))
        (λ new more.
          let behind : need ≡ n + header = ap (λ c. if c then n - last.size else n + header) new in
          omega (arith, e.2 more)))

IsHeap-trimmed :
    (h : Heap) (b : Block) (bs : List Block) (last : Block)
    → IsHeap h
    → last? h.blocks ≡ some last
    → drop_last h.blocks ≡ b ∷ bs
    → h.grow_base ≤ last.addr
    → end_of last ≡ h.grow_top
    → last.addr % 8 ≡ 0
    → IsHeap (record h { blocks = b ∷ bs; grow_top = last.addr })
IsHeap-trimmed h b bs last v l d low e al =
    let c = Chain-drop_last h.top h.grow_base h.base h.blocks last h.grow_top l v.chain in
    let less : total h.blocks ≡ total (b ∷ bs) + (header + last.size) =
      c.1 ∙ ap (λ ds. total ds + (header + last.size)) d in
    record {
      on = v.on;
      some_block = λ f. cc;
      base_aligned = v.base_aligned;
      top_aligned = v.top_aligned;
      grow_aligned = v.grow_aligned;
      grow_top_aligned = al;
      limit_aligned = v.limit_aligned;
      base_le = v.base_le;
      top_le = v.top_le;
      grow_le = low;
      limit_le = omega arith;
      gap = v.gap;
      chain = subst (λ ds. Chain h.top h.grow_base h.base ds last.addr) d c.0;
      accounted = omega arith;
    }

-- `heap_trim` keeps a heap well formed and its live blocks as they are.
pub trim-IsHeap : (h : Heap) → IsHeap h → IsHeap (trim h) × SameLive h (trim h)
unfolding trim
trim-IsHeap h v =
    let (last, l) = last?-some h.blocks v.some_block in
    elim (List-cases (drop_last h.blocks)) [
      | inl single ↦ rw (l, trim) (rw (single, trim) (v, λ a. refl))
      | inr (b, bs, d) ↦
          elim (Bool-cases
            (last.free && (leb h.grow_base last.addr && (end_of last == h.grow_top)))) [
              | inr keep ↦ rw (l, trim) (rw (d, trim) (rw keep (v, λ a. refl)))
              | inl drop ↦
                  rw (l, trim)
                    (rw (d, trim)
                      (rw drop (
                        IsHeap-trimmed h b bs last v l d (ground arith) (ground arith) (
                            last?-aligned h.top h.grow_base h.base h.blocks last h.grow_top l
                              v.chain),
                        λ a.
                            ap (live_size a) (sym d)
                            ∙ live_size-drop_last a h.blocks last l (ground arith),
                      )))
            ]
    ]
