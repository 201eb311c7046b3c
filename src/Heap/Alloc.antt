-- ===== src/Heap/Alloc.antt =====
-- `kmalloc`: what a caller gets, what nobody else loses, and when it must succeed.
use flopnix.Base.{
  ℕ, zero, suc, ◌+◌, ◌-◌, ◌*◌, ◌/◌, ◌%◌, ◌≤◌, ◌<◌, ◌≡◌, ◌≢◌, refl, inl, inr, Bool, true, false,
  ◌&&◌, ◌||◌, not, Option, none, some, List, [], ◌∷◌, ltb, ◌==◌, if◌then◌else◌, arith, sym, ◌∙◌,
  All, Bool-cases, Option-cases,
}
use flopnix.Heap.{Heap, grow, scan, passes, extent, kmalloc, heap_largest}
use flopnix.Heap.Blocks.{Block, header, live_size, fit, largest_from}
use flopnix.Heap.Live.{Fits, fit-Fits}
use flopnix.Heap.Grow.{IsHeap, IsHeap-blocks, grow-IsHeap}

-- The block taken: well formed heap, aligned bytes, `n` of them at least, from a block that was
-- not live; all other blocks stay.
abbrev Carved : ℕ → Heap → ℕ → Heap → Type 0
Carved n h p h' =
    IsHeap h'
    × (header ≤ p)
    × (p % 8 ≡ 0)
    × (live_size (p - header) h.blocks ≡ none)
    × ((s : ℕ) × (n ≤ s) × (live_size (p - header) h'.blocks ≡ some s))
    × ((a : ℕ) → a ≢ p - header → live_size a h'.blocks ≡ live_size a h.blocks)

abbrev Scanned : ℕ → Heap → Option (ℕ × Heap) → Type 0
Scanned n h none = All (λ b. b.free ≡ true → b.size < n) h.blocks
Scanned n h (some (p, h')) = Carved n h p h'

live-ne-nil : (a : ℕ) (bs : List Block) {s : ℕ} → live_size a bs ≡ some s → bs ≢ []
unfolding live_size
live-ne-nil a [] h = λ e. cc
live-ne-nil a (b ∷ bs) h = λ e. cc

scan-Scanned : (n : ℕ) (h : Heap) → IsHeap h → n % 8 ≡ 0 → Scanned n h (scan n h)
unfolding scan
scan-Scanned n h v al =
    let f = fit-Fits h.top h.grow_base n h.base h.blocks h.grow_top v.top_le al v.chain in
    elim (Option-cases (fit n h.blocks)) [
      | inl miss ↦
          rw (miss, scan)
            (let f' : Fits h.top h.grow_base n h.base h.blocks h.grow_top none = rw miss at f in f')
      | inr ((a, bs), hit) ↦
          let f' : Fits h.top h.grow_base n h.base h.blocks h.grow_top (some (a, bs)) =
            rw hit at f in
          let back : a + header - header ≡ a = omega arith in
          rw (hit, scan)
            (
              IsHeap-blocks h bs v (live-ne-nil a bs f'.5.2) f'.3 f'.4,
              omega arith,
              omega arith,
              rw back f'.2,
              (f'.5.0, f'.5.1, rw back f'.5.2),
              λ x ne. f'.6 x (λ e. ne (e ∙ sym back)),
            )
    ]

module _ (reclaim : Heap → Heap) (cached : ℕ → Bool) where
  -- What `kmalloc` needs of the calls that drop caches: the heap stays well formed, and no live
  -- block goes but those of the caches.
  abbrev pub Reclaims : Type 0
  Reclaims =
      (h : Heap)
      → IsHeap h
      → IsHeap (reclaim h)
        × ((a : ℕ) → cached a ≡ false → live_size a (reclaim h).blocks ≡ live_size a h.blocks)

  -- The outcome of a request for `n` bytes: the heap is well formed; a pointer is to at least `n`
  -- bytes, 8-byte aligned, of a block that no owner but a cache had; all other blocks keep their
  -- place and size, the caches' apart.
  abbrev pub Got : ℕ → Heap → Option ℕ × Heap → Type 0
  Got n h (none, h') =
      IsHeap h' × ((a : ℕ) → cached a ≡ false → live_size a h'.blocks ≡ live_size a h.blocks)
  Got n h (some p, h') =
      IsHeap h'
      × (header ≤ p)
      × (p % 8 ≡ 0)
      × ((s : ℕ) × (n ≤ s) × (live_size (p - header) h'.blocks ≡ some s))
      × ((a : ℕ)
          → cached a ≡ false
          → (a ≡ p - header → live_size a h.blocks ≡ none)
            × (a ≢ p - header → live_size a h'.blocks ≡ live_size a h.blocks))

  Got-step :
      (n : ℕ) (h h1 : Heap) (r : Option ℕ × Heap)
      → ((a : ℕ) → cached a ≡ false → live_size a h1.blocks ≡ live_size a h.blocks)
      → Got n h1 r
      → Got n h r
  Got-step n h h1 (none, h') same g = (g.0, λ a c. g.1 a c ∙ same a c)
  Got-step n h h1 (some p, h') same g = (
    g.0,
    g.1,
    g.2,
    g.3,
    λ a c. (λ e. sym (same a c) ∙ (g.4 a c).0 e, λ ne. (g.4 a c).1 ne ∙ same a c),
  )

  Carved-Got : (n p : ℕ) (h h' : Heap) → Carved n h p h' → Got n h (some p, h')
  Carved-Got n p h h' t = (t.0, t.1, t.2, t.4, λ a c. (λ e. rw e t.3, λ ne. t.5 a ne))

  -- The heap that the next pass scans.
  abbrev next : ℕ → Heap → Heap
  next n h = let (grown, h') = grow n h in if grown then h' else reclaim h'

  next_keeps :
      (n : ℕ) (h : Heap)
      → Reclaims
      → IsHeap h
      → IsHeap (next n h)
        × ((a : ℕ) → cached a ≡ false → live_size a (next n h).blocks ≡ live_size a h.blocks)
  next_keeps n h rec v =
      let g = grow-IsHeap n h v in
      let r = rec (grow n h).1 g.0 in
      elim (Bool-cases (grow n h).0) [
        | inl grown ↦ rw grown (g.0, λ a c. g.1 a)
        | inr stuck ↦ rw stuck (r.0, λ a c. r.1 a c ∙ g.1 a)
      ]

  passes-Got :
      (k n : ℕ) (h : Heap) → Reclaims → IsHeap h → n % 8 ≡ 0 → Got n h (passes reclaim k n h)
  unfolding passes
  passes-Got zero n h rec v al =
      let s = scan-Scanned n h v al in
      elim (Option-cases (scan n h)) [
        | inl miss ↦ rw (miss, passes) (v, λ a c. refl)
        | inr ((p, h'), hit) ↦
            rw (hit, passes)
              (Carved-Got n p h h' (let t : Scanned n h (some (p, h')) = rw hit at s in t))
      ]
  passes-Got (suc k) n h rec v al =
      let s = scan-Scanned n h v al in
      let after = next_keeps n h rec v in
      elim (Option-cases (scan n h)) [
        | inl miss ↦
            rw (miss, passes)
              (Got-step n h (next n h) _ after.1 (passes-Got k n (next n h) rec after.0 al))
        | inr ((p, h'), hit) ↦
            rw (hit, passes)
              (Carved-Got n p h h' (let t : Scanned n h (some (p, h')) = rw hit at s in t))
      ]

  Got-less : (n m : ℕ) (h : Heap) (r : Option ℕ × Heap) → n ≤ m → Got m h r → Got n h r
  Got-less n m h (none, h') less g = g
  Got-less n m h (some p, h') less g = (g.0, g.1, g.2, (g.3.0, omega arith, g.3.2), g.4)

  -- On a well-formed heap `kmalloc n` leaves a well-formed heap. A pointer that it returns is 8-byte
  -- aligned, to a live block of at least `n` bytes whose header no live block had, but for a block
  -- of the caches that may be dropped; and every other live block, those of the caches apart, keeps
  -- its place and its size, as all do when it returns null.
  pub kmalloc-Got : (n : ℕ) (h : Heap) → Reclaims → IsHeap h → Got n h (kmalloc reclaim n h)
  unfolding kmalloc
  kmalloc-Got n h rec v = elim (Bool-cases ((n == 0) || (not h.is_on || ltb (extent h) n))) [
    | inl refused ↦ rw refused (v, λ a c. refl)
    | inr tried ↦ rw tried (
        Got-less n ((n + 7) / 8 * 8) h _ (omega arith)
          (passes-Got 2 ((n + 7) / 8 * 8) h rec v (omega arith)))
  ]

largest_from-lt :
    (best n : ℕ) (bs : List Block)
    → best < n
    → All (λ b. b.free ≡ true → b.size < n) bs
    → largest_from best bs < n
unfolding largest_from
largest_from-lt best n [] h a = h
largest_from-lt best n (b ∷ bs) h a =
    largest_from-lt (if b.free && ltb best b.size then b.size else best) n bs (ground arith) a.1

-- A request of at least one byte, and of no more than the heap's extent, that fits the free block
-- that `heap_largest` reports never fails, whatever the calls that drop caches do.
pub kmalloc_succeeds :
    (reclaim : Heap → Heap) (n : ℕ) (h : Heap)
    → IsHeap h
    → 0 < n
    → n ≤ extent h
    → (n + 7) / 8 * 8 ≤ heap_largest h
    → (p : ℕ) × ((kmalloc reclaim n h).0 ≡ some p)
unfolding kmalloc passes heap_largest
kmalloc_succeeds reclaim n h v pos fits room =
    let s = scan-Scanned ((n + 7) / 8 * 8) h v (omega arith) in
    elim (Option-cases (scan ((n + 7) / 8 * 8) h)) [
      | inl miss ↦
          let small : Scanned ((n + 7) / 8 * 8) h none = rw miss at s in
          absurd
            (ground (arith, v.on, largest_from-lt 0 ((n + 7) / 8 * 8) h.blocks (omega arith) small))
      | inr ((p, h'), hit) ↦ (p, ground (arith, v.on, hit))
    ]
