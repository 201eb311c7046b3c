-- ===== src/Heap/Last.antt =====
-- What growing and trimming do to the last block of the list.
use flopnix.Base.{
  ℕ, ◌+◌, ◌%◌, ◌≤◌, ◌≡◌, ◌≢◌, ◌⊎◌, refl, inl, inr, true, some, List, [], ◌∷◌, arith, ap, ◌∙◌,
}
use flopnix.Heap.Blocks.{
  Block, header, end_of, live_size, last?, on_last, extended, added, drop_last,
}
use flopnix.Heap.Chain.{total, Chain}

live_size_cons :
    (a : ℕ) (b : Block) (bs cs : List Block)
    → live_size a bs ≡ live_size a cs
    → live_size a (b ∷ bs) ≡ live_size a (b ∷ cs)
unfolding live_size
live_size_cons a b bs cs e = ground arith

pub live_size-extended :
    (a bytes : ℕ) (bs : List Block) (last : Block)
    → last? bs ≡ some last
    → last.free ≡ true
    → live_size a (on_last (extended bytes) bs) ≡ live_size a bs
unfolding on_last last? extended
live_size-extended a bytes [] last l f = refl
live_size-extended a bytes (b ∷ []) last l f =
    let same : b ≡ last = ground arith in rw same (unfold live_size in ground arith)
live_size-extended a bytes (b ∷ c ∷ bs) last l f =
    live_size_cons a b (on_last (extended bytes) (c ∷ bs)) (c ∷ bs)
      (live_size-extended a bytes (c ∷ bs) last l f)

pub live_size-added :
    (a at bytes : ℕ) (bs : List Block) → live_size a (on_last (added at bytes) bs) ≡ live_size a bs
unfolding on_last added
live_size-added a at bytes [] = refl
live_size-added a at bytes (b ∷ []) = unfold live_size in refl
live_size-added a at bytes (b ∷ c ∷ bs) =
    live_size_cons a b (on_last (added at bytes) (c ∷ bs)) (c ∷ bs)
      (live_size-added a at bytes (c ∷ bs))

module _ (top grow : ℕ) where
  pub Chain-extend :
      (lo : ℕ) (bs : List Block) (last : Block) (hi bytes : ℕ)
      → last? bs ≡ some last
      → end_of last ≡ hi
      → bytes % 8 ≡ 0
      → top ≤ grow
      → grow ≤ hi
      → Chain top grow lo bs hi
      → Chain top grow lo (on_last (extended bytes) bs) (hi + bytes)
        × (total (on_last (extended bytes) bs) ≡ total bs + bytes)
  unfolding on_last last? total extended
  Chain-extend lo [] last hi bytes l e a t g c = absurd (ground arith)
  Chain-extend lo (b ∷ []) last hi bytes l e a t g c =
      let same : b ≡ last = ground arith in
      let ends : end_of b ≡ hi = ap (λ (k : Block). end_of k) same ∙ e in
      ((c.0, c.1, omega arith, ground arith, omega arith), omega arith)
  Chain-extend lo (b ∷ d ∷ bs) last hi bytes l e a t g c =
      let ih = Chain-extend (end_of b) (d ∷ bs) last hi bytes l e a t g c.4 in
      ((c.0, c.1, c.2, c.3, ih.0), omega arith)

  pub Chain-add :
      (lo : ℕ) (bs : List Block) (hi bytes : ℕ)
      → bs ≢ []
      → header ≤ bytes
      → bytes % 8 ≡ 0
      → hi % 8 ≡ 0
      → grow ≤ hi
      → Chain top grow lo bs hi
      → Chain top grow lo (on_last (added hi bytes) bs) (hi + bytes)
        × (total (on_last (added hi bytes) bs) ≡ total bs + bytes)
  unfolding on_last total added
  Chain-add lo [] hi bytes n m a b g c = absurd (n refl)
  Chain-add lo (b ∷ []) hi bytes n m a b' g c =
      ((c.0, c.1, c.2, c.3, (c.4, b', omega arith, inr (inl g), omega arith)), omega arith)
  Chain-add lo (b ∷ d ∷ bs) hi bytes n m a b' g c =
      let ih = Chain-add (end_of b) (d ∷ bs) hi bytes (λ e. cc) m a b' g c.4 in
      ((c.0, c.1, c.2, c.3, ih.0), omega arith)

  pub Chain-drop_last :
      (lo : ℕ) (bs : List Block) (last : Block) (hi : ℕ)
      → last? bs ≡ some last
      → Chain top grow lo bs hi
      → Chain top grow lo (drop_last bs) last.addr
        × (total bs ≡ total (drop_last bs) + (header + last.size))
  unfolding drop_last last? total
  Chain-drop_last lo [] last hi l c = absurd (ground arith)
  Chain-drop_last lo (b ∷ []) last hi l c =
      let same : b ≡ last = ground arith in rw (← same) (c.0, omega arith)
  Chain-drop_last lo (b ∷ d ∷ bs) last hi l c =
      let ih = Chain-drop_last (end_of b) (d ∷ bs) last hi l c.4 in
      ((c.0, c.1, c.2, c.3, ih.0), omega arith)

pub live_size-drop_last :
    (a : ℕ) (bs : List Block) (last : Block)
    → last? bs ≡ some last
    → last.free ≡ true
    → live_size a (drop_last bs) ≡ live_size a bs
unfolding drop_last last?
live_size-drop_last a [] last l f = refl
live_size-drop_last a (b ∷ []) last l f =
    let same : b ≡ last = ground arith in rw same (unfold live_size in ground arith)
live_size-drop_last a (b ∷ c ∷ bs) last l f =
    live_size_cons a b (drop_last (c ∷ bs)) (c ∷ bs) (live_size-drop_last a (c ∷ bs) last l f)

pub on_last-ne-nil :
    (f : Block → List Block) (bs : List Block)
    → ((b : Block) → f b ≢ [])
    → bs ≢ []
    → on_last f bs ≢ []
unfolding on_last
on_last-ne-nil f [] n h = h
on_last-ne-nil f (b ∷ []) n h = n b
on_last-ne-nil f (b ∷ c ∷ bs) n h = λ e. cc

pub last?-some : (bs : List Block) → bs ≢ [] → (b : Block) × (last? bs ≡ some b)
unfolding last?
last?-some [] n = absurd (n refl)
last?-some (b ∷ []) n = (b, refl)
last?-some (b ∷ c ∷ bs) n = last?-some (c ∷ bs) (λ e. cc)

pub last?-aligned :
    (top grow lo : ℕ) (bs : List Block) (last : Block) (hi : ℕ)
    → last? bs ≡ some last
    → Chain top grow lo bs hi
    → last.addr % 8 ≡ 0
unfolding last?
last?-aligned top grow lo [] last hi l c = absurd (ground arith)
last?-aligned top grow lo (b ∷ []) last hi l c =
    ap (λ (k : Block). k.addr % 8) (let same : last ≡ b = ground arith in same) ∙ c.1
last?-aligned top grow lo (b ∷ d ∷ bs) last hi l c =
    last?-aligned top grow (end_of b) (d ∷ bs) last hi l c.4

pub List-cases : (bs : List Block) → (bs ≡ []) ⊎ ((b : Block) × (cs : List Block) × (bs ≡ b ∷ cs))
List-cases [] = inl refl
List-cases (b ∷ bs) = inr (b, bs, refl)
