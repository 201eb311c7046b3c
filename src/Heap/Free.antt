-- ===== src/Heap/Free.antt =====
-- `kfree`: the block of the pointer is given back, and nothing else is.
use flopnix.Base.{
  ℕ, ◌+◌, ◌%◌, ◌^◌, ◌≤◌, ◌<◌, ◌≡◌, ◌≢◌, ◌⊎◌, refl, inl, inr, true, false, ◌&&◌, ◌||◌, not, none,
  some, List, [], ◌∷◌, leb, ◌==◌, if◌then◌else◌, arith, ap, ◌∙◌, Bool-cases, Option-cases,
}
use flopnix.Heap.{Heap, contains, header_of, trim, kfree}
use flopnix.Heap.Blocks.{
  Block, header, end_of, swallow, live_size, release, join_from, join, last?, drop_last,
}
use flopnix.Heap.Buffers.{untrack}
use flopnix.Heap.Chain.{total, Chain, Chain-le, Chain-release, Chain-join_from}
use flopnix.Heap.Live.{live_size-join_from, live_size-release, total-join_from, total-release}
use flopnix.Heap.Grow.{IsHeap, IsHeap-blocks, IsHeap-buffers, trim-IsHeap}

pub live-bounds :
    (top grow lo a : ℕ) (bs : List Block) (hi s : ℕ)
    → Chain top grow lo bs hi
    → live_size a bs ≡ some s
    → (lo ≤ a)
      × (a % 8 ≡ 0)
      × ((a + header ≤ top) ⊎ ((grow ≤ a) ⊎ (top ≡ grow)))
      × (a + header ≤ hi)
unfolding live_size
live-bounds top grow lo a [] hi s c l = absurd (ground arith)
live-bounds top grow lo a (b ∷ bs) hi s c l = elim (Bool-cases (not b.free && (b.addr == a))) [
  | inl hit ↦
      let e : b.addr ≡ a = ground arith in
      let up = Chain-le top grow (end_of b) bs hi c.4 in
      (omega arith, omega arith, ground arith, omega arith)
  | inr miss ↦
      let ih = live-bounds top grow (end_of b) a bs hi s c.4 (rw miss at l) in
      (omega arith, ih.1, ih.2, ih.3)
]

-- `heap_contains` accepts the header of every live block.
pub contains-live :
    (h : Heap) (a s : ℕ) → IsHeap h → live_size a h.blocks ≡ some s → contains h a ≡ true
unfolding contains
contains-live h a s v l =
    let b = live-bounds h.top h.grow_base h.base a h.blocks h.grow_top s v.chain l in ground arith

-- No free block is followed by a free one without a gap.
abbrev pub IsJoined : List Block → Type 0
IsJoined [] = Unit {0}
IsJoined (b ∷ []) = Unit {0}
IsJoined (b ∷ c ∷ bs) = (b.free ≡ true → c.free ≡ true → end_of b ≢ c.addr) × IsJoined (c ∷ bs)

-- `bs` starts with a block at the address of `x`, free exactly if `x` is.
abbrev Heads : Block → List Block → Type 0
Heads x [] = ⊥
Heads x (b ∷ bs) = (b.addr ≡ x.addr) × (b.free ≡ x.free)

join_from-Heads : (s : Block) (xs : List Block) → Heads s (join_from s xs)
unfolding join_from
join_from-Heads s [] = (refl, refl)
join_from-Heads s (x ∷ xs) = elim (Bool-cases (s.free && (x.free && (end_of s == x.addr)))) [
  | inl go ↦ rw (go, join_from) (join_from-Heads (swallow s x) xs)
  | inr stop ↦ rw (stop, join_from) (refl, refl)
]

IsJoined-cons :
    (s x : Block) (bs : List Block)
    → (s.free && (x.free && (end_of s == x.addr))) ≡ false
    → Heads x bs
    → IsJoined bs
    → IsJoined (s ∷ bs)
IsJoined-cons s x [] stop h j = tt
IsJoined-cons s x (b ∷ bs) stop h j = (λ f g e. ground arith, j)

join_from-IsJoined : (s : Block) (xs : List Block) → IsJoined (join_from s xs)
unfolding join_from
join_from-IsJoined s [] = tt
join_from-IsJoined s (x ∷ xs) = elim (Bool-cases (s.free && (x.free && (end_of s == x.addr)))) [
  | inl go ↦ rw (go, join_from) (join_from-IsJoined (swallow s x) xs)
  | inr stop ↦
      rw (stop, join_from)
        (IsJoined-cons s x (join_from x xs) stop (join_from-Heads x xs) (join_from-IsJoined x xs))
]

IsJoined-drop_last : (bs : List Block) → IsJoined bs → IsJoined (drop_last bs)
unfolding drop_last
IsJoined-drop_last [] j = tt
IsJoined-drop_last (b ∷ []) j = tt
IsJoined-drop_last (b ∷ c ∷ []) j = tt
IsJoined-drop_last (b ∷ c ∷ d ∷ bs) j = (j.0, IsJoined-drop_last (c ∷ d ∷ bs) j.1)

trim-IsJoined : (h : Heap) → IsJoined h.blocks → IsJoined (trim h).blocks
unfolding trim
trim-IsJoined h j = elim (Option-cases (last? h.blocks)) [
  | inl empty ↦ rw (empty, trim) j
  | inr (last, l) ↦ rw (l, trim) (dropped last (drop_last h.blocks) (IsJoined-drop_last h.blocks j))
]
  where
    dropped :
        (last : Block) (bs : List Block)
        → IsJoined bs
        → IsJoined (
            let r : Heap = elim bs [
              | [] ↦ h
              | b ∷ ds ↦
                  if last.free && (leb h.grow_base last.addr && (end_of last == h.grow_top))
                  then record h { blocks = b ∷ ds; grow_top = last.addr }
                  else h
            ] in
            r.blocks)
    dropped last [] i = j
    dropped last (b ∷ ds) i =
        elim (Bool-cases
          (last.free && (leb h.grow_base last.addr && (end_of last == h.grow_top)))) [
            | inl drop ↦ rw drop i
            | inr keep ↦ rw keep j
          ]

Heads-ne-nil : (x : Block) (bs : List Block) → Heads x bs → bs ≢ []
Heads-ne-nil x [] h = absurd h
Heads-ne-nil x (b ∷ bs) h = λ e. cc

release-ne-nil : (a : ℕ) (bs : List Block) → bs ≢ [] → release a bs ≢ []
unfolding release
release-ne-nil a [] n = n
release-ne-nil a (b ∷ bs) n = elim (Bool-cases (not b.free && (b.addr == a))) [
  | inl hit ↦ rw hit (λ e. cc)
  | inr miss ↦ rw miss (λ e. cc)
]

-- All that `kfree` needs of its loops.
record Joins (top grow lo hi : ℕ) (bs cs : List Block) : Type 0 where
  ne_nil : cs ≢ []
  chain : Chain top grow lo cs hi
  bytes : total cs ≡ total bs
  live : (x : ℕ) → live_size x cs ≡ live_size x bs
  joined : IsJoined cs

join-Joins :
    (top grow lo hi : ℕ) (bs : List Block)
    → top ≤ grow
    → bs ≢ []
    → Chain top grow lo bs hi
    → Joins top grow lo hi bs (join bs)
unfolding join
join-Joins top grow lo hi [] apart n c = absurd (n refl)
join-Joins top grow lo hi (b ∷ bs) apart n c = record {
  ne_nil = Heads-ne-nil b (join_from b bs) (join_from-Heads b bs);
  chain = Chain-join_from top grow apart lo b bs hi c;
  bytes = total-join_from b bs;
  live = λ x. live_size-join_from x b bs;
  joined = join_from-IsJoined b bs;
}

kfree_runs :
    (h : Heap) (a s : ℕ)
    → IsHeap h
    → a + header < 2 ^ 32
    → live_size a h.blocks ≡ some s
    → kfree (a + header) h
      ≡ trim (record h {
        blocks = join (release a h.blocks);
        buffers = untrack (a + header) h.buffers;
      })
unfolding kfree
kfree_runs h a s v w l =
    let at : header_of (a + header) ≡ a = omega arith in
    let enters : (not h.is_on || ((a + header == 0) || not (contains h a))) ≡ false =
      ground (arith, v.on, contains-live h a s v l) in
    simp at (
      simp enters (
        simp l (
          ap
            (λ k. trim (record h {
              blocks = join (release k h.blocks);
              buffers = untrack (a + header) h.buffers;
            }))
            at)))

-- Freeing the pointer to a live block, on a well-formed heap, leaves a well-formed heap in which
-- that block is no longer live, all others are as they were, and no two free blocks touch.
pub kfree-live :
    (h : Heap) (a s : ℕ)
    → IsHeap h
    → a + header < 2 ^ 32
    → live_size a h.blocks ≡ some s
    → let h' = kfree (a + header) h in
      IsHeap h'
      × IsJoined h'.blocks
      × ((x : ℕ) → live_size x h'.blocks ≡ (if a == x then none else live_size x h.blocks))
unfolding kfree
kfree-live h a s v w l =
    let rel : List Block = release a h.blocks in
    let j =
      join-Joins h.top h.grow_base h.base h.grow_top rel v.top_le
        (release-ne-nil a h.blocks v.some_block)
        (Chain-release h.top h.grow_base a h.base h.blocks h.grow_top v.chain) in
    let h1 : Heap = record h { blocks = join rel; buffers = untrack (a + header) h.buffers } in
    let t = trim-IsHeap h1 (
      IsHeap-buffers (record h { blocks = join rel }) (untrack (a + header) h.buffers)
        (IsHeap-blocks h (join rel) v j.ne_nil j.chain (j.bytes ∙ total-release a h.blocks))) in
    rw (kfree_runs h a s v w l) (
      t.0,
      trim-IsJoined h1 j.joined,
      λ x.
          t.1 x
          ∙ j.live x
          ∙ live_size-release h.top h.grow_base h.base h.blocks h.grow_top a x v.chain,
    )

-- Any other pointer changes nothing: null, one that was freed before, or one into a block.
pub kfree_other : (h : Heap) (p : ℕ) → live_size (header_of p) h.blocks ≡ none → kfree p h ≡ h
unfolding kfree
kfree_other h p l =
    elim (Bool-cases (not h.is_on || ((p == 0) || not (contains h (header_of p))))) [
      | inl out ↦ rw out
      | inr inside ↦ rw (l, kfree) (rw inside)
    ]
