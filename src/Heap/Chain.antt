-- ===== src/Heap/Chain.antt =====
-- Well-formed block lists: ascending, aligned, apart and inside the two areas of the heap. The loops
-- of the allocator keep them so, and keep every byte accounted for.
use flopnix.Base.{
  ℕ, ◌+◌, ◌-◌, ◌%◌, ◌≤◌, ◌≡◌, ◌⊎◌, inl, inr, true, ◌&&◌, not, List, [], ◌∷◌, ltb, ◌==◌, arith,
  Bool-cases,
}
use flopnix.Heap.Blocks.{Block, header, end_of, swallow, absorb, split, occupy, join_from, release}

-- The bytes of the blocks, headers included.
unfoldable pub total : List Block → ℕ
total [] = 0
total (b ∷ bs) = header + b.size + total bs

module _ (top grow_base : ℕ) where
  -- A block does not reach over the gap between the two areas, if there is one.
  abbrev pub Within : Block → Type 0
  Within b = (end_of b ≤ top) ⊎ ((grow_base ≤ b.addr) ⊎ (top ≡ grow_base))

  -- The blocks lie in ascending order between `lo` and `hi`, 8-byte aligned, none over the gap.
  abbrev pub Chain : ℕ → List Block → ℕ → Type 0
  Chain lo [] hi = lo ≤ hi
  Chain lo (b ∷ bs) hi =
      (lo ≤ b.addr) × (b.addr % 8 ≡ 0) × (b.size % 8 ≡ 0) × Within b × Chain (end_of b) bs hi

  pub Chain-le : (lo : ℕ) (bs : List Block) (hi : ℕ) → Chain lo bs hi → lo ≤ hi
  Chain-le lo [] hi c = c
  Chain-le lo (b ∷ bs) hi c = omega (arith, Chain-le (end_of b) bs hi c.4)

  pub Chain-lower :
      (lo lo' : ℕ) (bs : List Block) (hi : ℕ) → lo' ≤ lo → Chain lo bs hi → Chain lo' bs hi
  Chain-lower lo lo' [] hi h c = omega arith
  Chain-lower lo lo' (b ∷ bs) hi h c = (omega arith, c.1, c.2, c.3, c.4)

  pub Chain-upper :
      (lo : ℕ) (bs : List Block) (hi hi' : ℕ) → hi ≤ hi' → Chain lo bs hi → Chain lo bs hi'
  Chain-upper lo [] hi hi' h c = omega arith
  Chain-upper lo (b ∷ bs) hi hi' h c = (c.0, c.1, c.2, c.3, Chain-upper (end_of b) bs hi hi' h c.4)

  module _ (apart : top ≤ grow_base) where
    -- Two blocks of the chain that touch make one of the chain.
    pub Within-swallow :
        (r x : Block) → end_of r ≡ x.addr → Within r → Within x → Within (swallow r x)
    Within-swallow r x e w v = ground arith

    pub Chain-absorb :
        (lo : ℕ) (r : Block) (xs : List Block) (hi : ℕ)
        → Chain lo (r ∷ xs) hi
        → Chain lo (absorb r xs) hi
    unfolding absorb
    Chain-absorb lo r [] hi c = c
    Chain-absorb lo r (x ∷ xs) hi c = elim (Bool-cases (x.free && (end_of r == x.addr))) [
      | inr stop ↦ rw stop c
      | inl go ↦
          let touch : end_of r ≡ x.addr = ground arith in
          let ends : end_of x ≡ end_of (swallow r x) = omega arith in
          rw go (
            Chain-absorb lo (swallow r x) xs hi
              (c.0, c.1, omega arith, Within-swallow r x touch c.3 c.4.3, rw ends at c.4.4))
    ]

    pub Chain-join_from :
        (lo : ℕ) (r : Block) (xs : List Block) (hi : ℕ)
        → Chain lo (r ∷ xs) hi
        → Chain lo (join_from r xs) hi
    unfolding join_from
    Chain-join_from lo r [] hi c = c
    Chain-join_from lo r (x ∷ xs) hi c =
        elim (Bool-cases (r.free && (x.free && (end_of r == x.addr)))) [
          | inr stop ↦
              rw (stop, join_from) (c.0, c.1, c.2, c.3, Chain-join_from (end_of r) x xs hi c.4)
          | inl go ↦
              let touch : end_of r ≡ x.addr = ground arith in
              let ends : end_of x ≡ end_of (swallow r x) = omega arith in
              rw (go, join_from)
                (Chain-join_from lo (swallow r x) xs hi
                  (c.0, c.1, omega arith, Within-swallow r x touch c.3 c.4.3, rw ends at c.4.4))
        ]

    pub Chain-split :
        (lo : ℕ) (b : Block) (rest : List Block) (n hi : ℕ)
        → n % 8 ≡ 0
        → Chain lo (b ∷ rest) hi
        → Chain lo (occupy (split b rest n)) hi
    unfolding split
    Chain-split lo b rest n hi a c = elim (Bool-cases (ltb b.size (n + header + 8))) [
      | inl small ↦ rw small c
      | inr large ↦
          let tail : Block = record {
            addr = b.addr + header + n;
            size = b.size - n - header;
            free = true;
          } in
          let ends : end_of b ≡ end_of tail = ground arith in
          rw large (
            c.0,
            c.1,
            a,
            ground arith,
            Chain-absorb (b.addr + header + n) tail rest hi
                (omega arith, omega arith, ground arith, ground arith, rw ends at c.4),
          )
    ]

  pub Chain-release :
      (a lo : ℕ) (bs : List Block) (hi : ℕ) → Chain lo bs hi → Chain lo (release a bs) hi
  unfolding release
  Chain-release a lo [] hi c = c
  Chain-release a lo (b ∷ bs) hi c = elim (Bool-cases (not b.free && (b.addr == a))) [
    | inl hit ↦ rw hit c
    | inr miss ↦ rw miss (c.0, c.1, c.2, c.3, Chain-release a (end_of b) bs hi c.4)
  ]
