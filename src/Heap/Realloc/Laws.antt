-- ===== src/Heap/Realloc/Laws.antt =====
-- `krealloc`: what the caller gets, and what nobody else loses.
use flopnix.Base.{
  ℕ, ◌+◌, ◌-◌, ◌*◌, ◌/◌, ◌%◌, ◌^◌, ◌≤◌, ◌<◌, ◌≡◌, ◌≢◌, refl, subst, sym, ap, ◌∙◌, inl, inr, Bool,
  false, ◌||◌, not, Option, none, some, List, ltb, leb, ◌==◌, if◌then◌else◌, arith, Bool-cases,
  ==_self,
}
use flopnix.Heap.{Heap, extent, contains, header_of, trim, kmalloc, kfree}
use flopnix.Heap.Blocks.{header, live_size}
use flopnix.Heap.Buffers.{Buffer}
use flopnix.Heap.Grow.{IsHeap, IsHeap-buffers, trim-IsHeap}
use flopnix.Heap.Alloc.{Reclaims, Got, kmalloc-Got}
use flopnix.Heap.Free.{live-bounds, kfree-live}
use flopnix.Heap.Realloc.{widen, merge, at_live, split_to, retrack, replace, resize, krealloc}
use flopnix.Heap.Realloc.Steps.{at_live-Resized, merge-Resizes, split_to-Resizes}
use flopnix.Heap.Realloc.Kept.{Kept, Kept-Resized, widen-Kept}

other : (a x : ℕ) (o : Option ℕ) → a ≢ x → (if a == x then none else o) ≡ o
other a x o ne = ground arith

module _ (reclaim : Heap → Heap) (cached : ℕ → Bool) where
  -- What resizing the block of `p`, which has `s` bytes, to `n` bytes may do: the heap stays well
  -- formed, and the other live blocks, those of the caches apart, are as they were. Null leaves the
  -- block live, with at least its bytes. A pointer is 8-byte aligned, to a live block of at least `n`
  -- bytes, which is the block of `p` or was no live one; if it is another, that of `p` is free.
  abbrev pub Moved : (p n s : ℕ) → Heap → Option ℕ × Heap → Type 0
  Moved p n s h (none, h') =
      IsHeap h'
      × ((x : ℕ)
          → cached x ≡ false
          → x ≢ header_of p
          → live_size x h'.blocks ≡ live_size x h.blocks)
      × ((s' : ℕ) × (s ≤ s') × (live_size (header_of p) h'.blocks ≡ some s'))
  Moved p n s h (some q, h') =
      IsHeap h'
      × (header ≤ q)
      × (q % 8 ≡ 0)
      × ((s' : ℕ) × (n ≤ s') × (live_size (q - header) h'.blocks ≡ some s'))
      × ((x : ℕ)
          → cached x ≡ false
          → x ≢ header_of p
          → (x ≡ q - header → live_size x h.blocks ≡ none)
            × (x ≢ q - header → live_size x h'.blocks ≡ live_size x h.blocks))
      × (q ≢ p → live_size (header_of p) h'.blocks ≡ none)

  -- The block stays where it is.
  stays-Moved :
      (p n s m : ℕ) (h h' : Heap) (bs : List Buffer)
      → p ≡ header_of p + header
      → p % 8 ≡ 0
      → n ≤ m
      → Kept (header_of p) m h h'
      → Moved p n s h (some p, trim (record h' { buffers = bs }))
  stays-Moved p n s m h h' bs at al le k =
      let t = trim-IsHeap (record h' { buffers = bs }) (IsHeap-buffers h' bs k.heap) in
      let own : p - header ≡ header_of p = omega (arith, at) in
      (
        t.0,
        omega (arith, at),
        al,
        (
          k.own.0,
          omega (arith, le, k.own.1),
          ap (λ a. live_size a (trim (record h' { buffers = bs })).blocks) own
              ∙ t.1 (header_of p)
              ∙ k.own.2,
        ),
        λ x c ne. (λ e. absurd (ne (e ∙ own)), λ away. t.1 x ∙ k.others x ne),
        λ away. absurd (away refl),
      )

  -- Freeing the old block.
  freed :
      (p s : ℕ) (h : Heap)
      → p ≡ header_of p + header
      → p < 2 ^ 32
      → IsHeap h
      → live_size (header_of p) h.blocks ≡ some s
      → IsHeap (kfree p h)
        × ((x : ℕ)
            → live_size x (kfree p h).blocks
              ≡ (if header_of p == x then none else live_size x h.blocks))
  freed p s h at w v l =
      let a = header_of p in
      let f = kfree-live h a s v (omega (arith, at, w)) l in
      let same : kfree (a + header) h ≡ kfree p h = ap (λ k. kfree k h) (sym at) in
      (subst IsHeap same f.0, λ x. ap (λ k. live_size x k.blocks) (sym same) ∙ f.2 x)

  -- The block is another one, or none.
  replace-Moved :
      (p n s m : ℕ) (h h1 : Heap) (r : Option ℕ × Heap)
      → p ≡ header_of p + header
      → p < 2 ^ 32
      → s ≤ m
      → cached (header_of p) ≡ false
      → Kept (header_of p) m h h1
      → Got reclaim cached n h1 r
      → Moved p n s h (replace reclaim p n r)
  replace-Moved p n s m h h1 (none, h') at w le c k g = (
    g.0,
    λ x cx ne. g.1 x cx ∙ k.others x ne,
    (k.own.0, omega (arith, le, k.own.1), g.1 (header_of p) c ∙ k.own.2),
  )
  replace-Moved p n s m h h1 (some q, h') at w le c k g =
      let a = header_of p in
      let away : a ≢ q - header =
        λ e. let gone : some k.own.0 ≡ none = sym k.own.2 ∙ (g.4 a c).0 e in absurd cc in
      let b = retrack p q n h' in
      let f =
        freed p k.own.0 b at w (IsHeap-buffers h' b.buffers g.0) ((g.4 a c).1 away ∙ k.own.2) in
      (
        f.0,
        g.1,
        g.2,
        (g.3.0, g.3.1, f.1 (q - header) ∙ other a (q - header) _ away ∙ g.3.2),
        λ x cx ne. (
          λ e. sym (k.others x ne) ∙ (g.4 x cx).0 e,
          λ apart. f.1 x ∙ other a x _ (λ e. ne (sym e)) ∙ (g.4 x cx).1 apart ∙ k.others x ne,
        ),
        λ ne. f.1 a ∙ rw (==_self a) refl,
      )

  Kept-trans : (a m k : ℕ) (h h1 h2 : Heap) → Kept a m h h1 → Kept a k h1 h2 → Kept a k h h2
  Kept-trans a m k h h1 h2 x y = record {
    heap = y.heap;
    others = λ z ne. y.others z ne ∙ x.others z ne;
    own = y.own;
  }

  resize-Moved :
      (p n s : ℕ) (h h1 : Heap)
      → p ≡ header_of p + header
      → p % 8 ≡ 0
      → p < 2 ^ 32
      → cached (header_of p) ≡ false
      → Reclaims reclaim cached
      → Kept (header_of p) s h h1
      → Moved p n s h (resize reclaim p n ((n + 7) / 8 * 8) h1)
  unfolding resize
  resize-Moved p n s h h1 at al w c rec k =
      let a = header_of p in
      let size : ℕ = (n + 7) / 8 * 8 in
      let v = k.heap in
      let ms = at_live (merge size) a h1.blocks in
      let merged : Heap = record h1 { blocks = ms } in
      let k2 = Kept-Resized a s h1 ms v (
        at_live-Resized h1.top h1.grow_base h1.grow_top s (merge size) h1.base a k.own.0 h1.blocks
          (merge-Resizes h1.top h1.grow_base h1.grow_top s size v.top_le) k.own.1 k.own.2
          v.chain) in
      let both = Kept-trans a s s h h1 merged k k2 in
      elim (Bool-cases (leb size k2.own.0)) [
        | inl large ↦
            let k3 = Kept-Resized a size merged (at_live (split_to size) a ms) k2.heap (
              at_live-Resized h1.top h1.grow_base h1.grow_top size (split_to size) h1.base a
                k2.own.0 ms
                (split_to-Resizes h1.top h1.grow_base h1.grow_top size v.top_le (omega arith))
                (ground (arith, large)) k2.own.2 k2.heap.chain) in
            rw (k2.own.2, large)
              (stays-Moved p n s size h _ _ at al (omega arith) (
                Kept-trans a s size h merged
                  (record merged { blocks = at_live (split_to size) a ms }) both k3))
        | inr small ↦
            rw (k2.own.2, small)
              (replace-Moved p n s s h merged (kmalloc reclaim n merged) at w (omega arith) c both
                (kmalloc-Got reclaim cached n merged rec k2.heap))
      ]

  -- `krealloc` of the pointer to a live block that is no cache's, to a size that is not 0, on a
  -- well-formed heap: the heap stays well formed, and the other live blocks, those of the caches
  -- apart, are as they were. Null leaves the block live, with at least the bytes that it had. A
  -- pointer is 8-byte aligned, to a live block of at least `n` bytes, which is the old block or was
  -- no live one; if it is another one, the old one is free.
  pub krealloc-Moved :
      (p n s : ℕ) (h : Heap)
      → Reclaims reclaim cached
      → IsHeap h
      → header ≤ p
      → p < 2 ^ 32
      → 0 < n
      → live_size (header_of p) h.blocks ≡ some s
      → cached (header_of p) ≡ false
      → Moved p n s h (krealloc reclaim p n h)
  unfolding krealloc
  krealloc-Moved p n s h rec v some_p w some_n l c =
      let at : p ≡ header_of p + header = omega (arith, some_p, w) in
      let bounds =
        live-bounds h.top h.grow_base h.base (header_of p) h.blocks h.grow_top s v.chain l in
      let al : p % 8 ≡ 0 = omega (arith, at, bounds.1) in
      let p0 : (p == 0) ≡ false = ground arith in
      let n0 : (n == 0) ≡ false = ground arith in
      elim (Bool-cases (not h.is_on || ltb (extent h) n || not (contains h (header_of p)))) [
        | inl out ↦ rw (p0, n0, out) (v, λ x cx ne. refl, (s, omega arith, l))
        | inr in_ ↦
            rw (p0, n0, in_, l)
              (resize-Moved p n s h (widen ((n + 7) / 8 * 8) (header_of p) h) at al w c rec
                (widen-Kept ((n + 7) / 8 * 8) (header_of p) s h v l))
      ]
