-- ===== src/Heap/Realloc/Steps.antt =====
-- The steps of `krealloc` on the list of blocks: each keeps the list a chain, loses no byte, and
-- changes no live block but the one that is resized.
use flopnix.Base.{
  ℕ, ◌+◌, ◌-◌, ◌%◌, ◌≤◌, ◌≡◌, ◌≢◌, ◌⊎◌, refl, subst, inl, inr, true, false, ◌&&◌, not, some, List,
  [], ◌∷◌, ltb, leb, ◌==◌, arith, Bool-cases,
}
use flopnix.Heap.Blocks.{Block, header, end_of, swallow, split, live_size, last?, on_last, extended}
use flopnix.Heap.Chain.{total, Chain, Chain-split, Within-swallow}
use flopnix.Heap.Live.{live_size-absorb, total-split}
use flopnix.Heap.Realloc.{follows, missing, missing_at, merge, at_live, split_to}

-- A change of the block at `a`: it stays live, with at least `m` bytes.
pub record Resized (top grow lo hi a m : ℕ) (bs cs : List Block) : Type 0 where
  pub ne_nil : cs ≢ []
  pub chain : Chain top grow lo cs hi
  pub bytes : total cs ≡ total bs
  pub others : (x : ℕ) → x ≢ a → live_size x cs ≡ live_size x bs
  pub own : (s : ℕ) × (m ≤ s) × (live_size a cs ≡ some s)

-- A block's own change, whatever is behind it.
abbrev pub Resizes : (top grow hi m : ℕ) → (Block → List Block → List Block) → Type 0
Resizes top grow hi m f =
    (lo : ℕ) (b : Block) (rest : List Block)
    → b.free ≡ false
    → m ≤ b.size
    → Chain top grow lo (b ∷ rest) hi
    → Resized top grow lo hi b.addr m (b ∷ rest) (f b rest)

pub at_live-Resized :
    (top grow hi m : ℕ) (f : Block → List Block → List Block) (lo a s : ℕ) (bs : List Block)
    → Resizes top grow hi m f
    → m ≤ s
    → live_size a bs ≡ some s
    → Chain top grow lo bs hi
    → Resized top grow lo hi a m bs (at_live f a bs)
unfolding at_live live_size total
at_live-Resized top grow hi m f lo a s [] r h l c = absurd (ground arith)
at_live-Resized top grow hi m f lo a s (b ∷ bs) r h l c =
    elim (Bool-cases (not b.free && (b.addr == a))) [
      | inl hit ↦
          let e : b.addr ≡ a = ground arith in
          let large : m ≤ b.size = ground arith in
          let live : b.free ≡ false = ground arith in
          rw hit
            (subst (λ k. Resized top grow lo hi k m (b ∷ bs) (f b bs)) e (r lo b bs live large c))
      | inr miss ↦
          let ih = at_live-Resized top grow hi m f (end_of b) a s bs r h (rw miss at l) c.4 in
          rw (miss, at_live)
            (record {
              ne_nil = λ e. cc;
              chain = (c.0, c.1, c.2, c.3, ih.chain);
              bytes = omega (arith, ih.bytes);
              others = λ x ne. ground (arith, ih.others x ne);
              own = (ih.own.0, ih.own.1, rw miss ih.own.2);
            })
    ]

-- A live block that stays as it is.
unchanged :
    (top grow lo hi m : ℕ) (b : Block) (rest : List Block)
    → b.free ≡ false
    → m ≤ b.size
    → Chain top grow lo (b ∷ rest) hi
    → Resized top grow lo hi b.addr m (b ∷ rest) (b ∷ rest)
unchanged top grow lo hi m b rest f h c = record {
  ne_nil = λ e. cc;
  chain = c;
  bytes = refl;
  others = λ x ne. refl;
  own = (b.size, h, unfold live_size in ground arith);
}

pub merge-Resizes : (top grow hi m size : ℕ) → top ≤ grow → Resizes top grow hi m (merge size)
unfolding merge live_size total
merge-Resizes top grow hi m size apart lo b [] f h c = unchanged top grow lo hi m b [] f h c
merge-Resizes top grow hi m size apart lo b (x ∷ xs) f h c =
    elim (Bool-cases (ltb b.size size && (follows b x && leb size (b.size + (header + x.size))))) [
      | inr keep ↦ rw keep (unchanged top grow lo hi m b (x ∷ xs) f h c)
      | inl join ↦
          let touch : end_of b ≡ x.addr = ground arith in
          let free : x.free ≡ true = ground arith in
          let ends : end_of x ≡ end_of (swallow b x) = omega arith in
          rw join (record {
            ne_nil = λ e. cc;
            chain = (
              c.0,
              c.1,
              omega arith,
              Within-swallow top grow apart b x touch c.3 c.4.3,
              rw ends at c.4.4,
            );
            bytes = omega arith;
            others = λ y ne. ground arith;
            own = (b.size + (header + x.size), omega arith, ground arith);
          })
    ]

pub split_to-Resizes :
    (top grow hi size : ℕ) → top ≤ grow → size % 8 ≡ 0 → Resizes top grow hi size (split_to size)
unfolding split live_size total
split_to-Resizes top grow hi size apart al lo b rest f h c =
    elim (Bool-cases (ltb b.size (size + header + 8))) [
      | inl small ↦ rw small (unchanged top grow lo hi size b rest f h c)
      | inr large ↦
          let tail : Block = record {
            addr = b.addr + header + size;
            size = b.size - size - header;
            free = true;
          } in
          rw large (record {
            ne_nil = λ e. cc;
            chain = rw large at (Chain-split top grow apart lo b rest size hi al c);
            bytes = rw large at (total-split b rest size);
            others = λ x ne. ground (arith, live_size-absorb x tail rest refl);
            own = (size, omega arith, ground arith);
          })
    ]

-- The block that `heap_expand` is asked for is the last one, at the end of the heap; it is free, or
-- it is the block at `a` itself.
pub missing-last :
    (size end a : ℕ) (bs : List Block)
    → missing_at size end a bs ≢ 0
    → (last : Block) × (last? bs ≡ some last)
      × (end_of last ≡ end)
      × ((last.free ≡ true) ⊎ (last.addr ≡ a))
unfolding missing_at missing last?
missing-last size end a [] n = absurd (n refl)
missing-last size end a (b ∷ []) n = (b, refl, ground (arith, n), inr (ground (arith, n)))
missing-last size end a (b ∷ x ∷ []) n = elim (Bool-cases (not b.free && (b.addr == a))) [
  | inl hit ↦ (x, refl, ground (arith, n), inl (ground (arith, n)))
  | inr miss ↦ missing-last size end a (x ∷ []) (rw miss at n)
]
missing-last size end a (b ∷ x ∷ y ∷ ys) n = elim (Bool-cases (not b.free && (b.addr == a))) [
  | inl hit ↦ absurd ((rw hit at n) refl)
  | inr miss ↦ missing-last size end a (x ∷ y ∷ ys) (rw miss at n)
]

pub live_size-widened :
    (a bytes : ℕ) (bs : List Block) (last : Block)
    → last? bs ≡ some last
    → (last.free ≡ true) ⊎ (last.addr ≡ a)
    → (x : ℕ) → x ≢ a
    → live_size x (on_last (extended bytes) bs) ≡ live_size x bs
unfolding live_size on_last last? extended
live_size-widened a bytes [] last l w x ne = refl
live_size-widened a bytes (b ∷ []) last l w x ne =
    let same : b ≡ last = ground arith in ground arith
live_size-widened a bytes (b ∷ c ∷ bs) last l w x ne =
    ground (arith, live_size-widened a bytes (c ∷ bs) last l w x ne)

pub own-widened :
    (a bytes s : ℕ) (bs : List Block)
    → live_size a bs ≡ some s
    → (s' : ℕ) × (s ≤ s') × (live_size a (on_last (extended bytes) bs) ≡ some s')
unfolding live_size on_last extended
own-widened a bytes s [] l = absurd (ground arith)
own-widened a bytes s (b ∷ []) l = (s + bytes, omega arith, ground arith)
own-widened a bytes s (b ∷ c ∷ bs) l = elim (Bool-cases (not b.free && (b.addr == a))) [
  | inl hit ↦ (s, omega arith, ground arith)
  | inr miss ↦ let ih = own-widened a bytes s (c ∷ bs) (rw miss at l) in (ih.0, ih.1, rw miss ih.2)
]
