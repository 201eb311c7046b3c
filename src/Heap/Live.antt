-- ===== src/Heap/Live.antt =====
-- What the loops of the allocator do to the live blocks and to the count of bytes: the live blocks
-- stay where and as large as they are, but for the one that a call takes or gives back.
use flopnix.Base.{
  ℕ, ◌+◌, ◌-◌, ◌%◌, ◌≤◌, ◌<◌, ◌≡◌, ◌≢◌, refl, inl, inr, true, ◌||◌, not, Option, none, some, List,
  [], ◌∷◌, ltb, ◌==◌, if◌then◌else◌, arith, All, Bool-cases,
}
use flopnix.Heap.Blocks.{
  Block, header, end_of, swallow, absorb, split, occupy, fit, join_from, live_size, release,
}
use flopnix.Heap.Chain.{total, Chain, Chain-split}

pub live_size-absorb :
    (a : ℕ) (r : Block) (xs : List Block)
    → r.free ≡ true
    → live_size a (absorb r xs) ≡ live_size a xs
unfolding absorb live_size
live_size-absorb a r [] f = ground arith
live_size-absorb a r (x ∷ xs) f = ground (arith, live_size-absorb a (swallow r x) xs f)

pub live_size-join_from :
    (a : ℕ) (r : Block) (xs : List Block) → live_size a (join_from r xs) ≡ live_size a (r ∷ xs)
unfolding join_from live_size
live_size-join_from a r [] = refl
live_size-join_from a r (x ∷ xs) =
    ground (arith, live_size-join_from a (swallow r x) xs, live_size-join_from a x xs)

pub total-absorb : (r : Block) (xs : List Block) → total (absorb r xs) ≡ total (r ∷ xs)
unfolding absorb total
total-absorb r [] = refl
total-absorb r (x ∷ xs) = ground (arith, total-absorb (swallow r x) xs)

pub total-join_from : (r : Block) (xs : List Block) → total (join_from r xs) ≡ total (r ∷ xs)
unfolding join_from total
total-join_from r [] = refl
total-join_from r (x ∷ xs) = ground (arith, total-join_from (swallow r x) xs, total-join_from x xs)

pub total-split :
    (b : Block) (rest : List Block) (n : ℕ) → total (occupy (split b rest n)) ≡ total (b ∷ rest)
unfolding split total
total-split b rest n = ground (
  arith,
  total-absorb (record { addr = b.addr + header + n; size = b.size - n - header; free = true })
      rest,
)

pub total-release : (a : ℕ) (bs : List Block) → total (release a bs) ≡ total bs
unfolding release total
total-release a [] = refl
total-release a (b ∷ bs) = ground (arith, total-release a bs)

-- A block that starts below the chain is not in it.
pub live_size_below :
    (top grow a lo : ℕ) (bs : List Block) (hi : ℕ)
    → Chain top grow lo bs hi
    → a < lo
    → live_size a bs ≡ none
unfolding live_size
live_size_below top grow a lo [] hi c h = refl
live_size_below top grow a lo (b ∷ bs) hi c h =
    ground (arith, live_size_below top grow a (end_of b) bs hi c.4)

pub live_size-release :
    (top grow lo : ℕ) (bs : List Block) (hi a x : ℕ)
    → Chain top grow lo bs hi
    → live_size x (release a bs) ≡ (if a == x then none else live_size x bs)
unfolding live_size release
live_size-release top grow lo [] hi a x c = ground arith
live_size-release top grow lo (b ∷ bs) hi a x c = ground (
  arith,
  live_size-release top grow (end_of b) bs hi a x c.4,
  live_size_below top grow b.addr (end_of b) bs hi c.4,
)

-- Taking the first block of a chain for `n` bytes.
live_size-split :
    (b : Block) (rest : List Block) (n : ℕ)
    → b.free ≡ true
    → n ≤ b.size
    → (s : ℕ) × (n ≤ s)
      × ((x : ℕ)
          → live_size x (occupy (split b rest n))
            ≡ (if b.addr == x then some s else live_size x rest))
unfolding split live_size
live_size-split b rest n f h = elim (Bool-cases (ltb b.size (n + header + 8))) [
  | inl small ↦ (b.size, h, λ x. rw small (ground arith))
  | inr large ↦ (
    n,
    omega arith,
    λ x. rw large (
        ground (
          arith,
          live_size-absorb x
              (record { addr = b.addr + header + n; size = b.size - n - header; free = true }) rest
              refl,
        )),
  )
]

-- What a scan that looks for `n` bytes finds: no free block is large enough; or one that was free is
-- taken, with all other live blocks as they were and no byte lost.
abbrev pub Fits : ℕ → ℕ → ℕ → ℕ → List Block → ℕ → Option (ℕ × List Block) → Type 0
Fits top grow n lo bs hi none = All (λ b. b.free ≡ true → b.size < n) bs
Fits top grow n lo bs hi (some (a, cs)) =
    (lo ≤ a)
    × (a % 8 ≡ 0)
    × (live_size a bs ≡ none)
    × Chain top grow lo cs hi
    × (total cs ≡ total bs)
    × ((s : ℕ) × (n ≤ s) × (live_size a cs ≡ some s))
    × ((x : ℕ) → x ≢ a → live_size x cs ≡ live_size x bs)

Fits-skip :
    (top grow n lo : ℕ) (b : Block) (bs : List Block) (hi : ℕ) (r : Option (ℕ × List Block))
    → Chain top grow lo (b ∷ bs) hi
    → (not b.free || ltb b.size n) ≡ true
    → Fits top grow n (end_of b) bs hi r
    → Fits top grow n lo (b ∷ bs) hi (elim r [ none ↦ none | some (a, cs) ↦ some (a, b ∷ cs) ])
unfolding live_size total
Fits-skip top grow n lo b bs hi none c skip f = (λ g. ground arith, f)
Fits-skip top grow n lo b bs hi (some (a, cs)) c skip f = (
  omega arith,
  f.1,
  ground arith,
  (c.0, c.1, c.2, c.3, f.3),
  omega arith,
  (f.5.0, f.5.1, ground arith),
  λ x ne. ground (arith, f.6 x ne),
)

pub fit-Fits :
    (top grow n lo : ℕ) (bs : List Block) (hi : ℕ)
    → top ≤ grow
    → n % 8 ≡ 0
    → Chain top grow lo bs hi
    → Fits top grow n lo bs hi (fit n bs)
unfolding fit
fit-Fits top grow n lo [] hi apart al c = tt
fit-Fits top grow n lo (b ∷ bs) hi apart al c = elim (Bool-cases (not b.free || ltb b.size n)) [
  | inl skip ↦
      rw skip (
        Fits-skip top grow n lo b bs hi _ c skip
          (fit-Fits top grow n (end_of b) bs hi apart al c.4))
  | inr hit ↦
      let is_free : b.free ≡ true = ground arith in
      let room : n ≤ b.size = ground arith in
      let t = live_size-split b bs n is_free room in
      let below = live_size_below top grow b.addr (end_of b) bs hi c.4 (omega arith) in
      rw hit (
        c.0,
        c.1,
        unfold live_size in ground arith,
        Chain-split top grow apart lo b bs n hi al c,
        total-split b bs n,
        (t.0, t.1, ground (arith, t.2 b.addr)),
        λ x ne. unfold live_size in ground (arith, t.2 x),
      )
]
