-- ===== src/Fs/Alloc/Laws.antt =====
-- `alloc` finds the first free run, and fails only if there is none.
use flopnix.Base.{
  ℕ, zero, suc, ◌+◌, ◌-◌, ◌≤◌, ◌<◌, ◌≡◌, ◌⊎◌, inl, inr, true, false, ◌&&◌, Option, none, some, List,
  [], ◌∷◌, ltb, leb, arith, All, leb→le, sym, ◌∙◌, Bool-cases, Option-cases,
}
use flopnix.Base.Sorted.{Above}
use flopnix.Fs.Bad.{clash}
use flopnix.Fs.Bad.Laws.{has, Clashes, clash-Clashes}
use flopnix.Fs.Entry.{Entry, in_use}
use flopnix.Fs.Alloc.{meets, next_start, alloc_from, alloc}

-- No used entry has a sector of the run.
abbrev pub Unused : List Entry → ℕ → ℕ → Type 0
Unused es start n =
    All (λ e. in_use e ≡ true → (e.start + e.nsect ≤ start) ⊎ (start + n ≤ e.start)) es

-- The `n` sectors from `start` belong to no file and are not bad.
abbrev pub IsFree : List Entry → List ℕ → ℕ → ℕ → Type 0
IsFree es bad n start =
    Unused es start n × ((s : ℕ) → start ≤ s → s < start + n → has bad s ≡ false)

-- What a round of the inner loop finds: a place before which no run from `start` on is free.
abbrev Meets : List Entry → ℕ → ℕ → Option ℕ → Type 0
Meets es start n none = Unused es start n
Meets es start n (some to) = (start < to) × ((s : ℕ) → start ≤ s → s < to → Unused es s n → ⊥)

Meets-skip :
    (e : Entry) (es : List Entry) (start n : ℕ) (r : Option ℕ)
    → (in_use e && (ltb start (e.start + e.nsect) && ltb e.start (start + n))) ≡ false
    → Meets es start n r
    → Meets (e ∷ es) start n r
Meets-skip e es start n none miss m = (λ u. ground arith, m)
Meets-skip e es start n (some to) miss m = (m.0, λ s p q u. m.1 s p q u.1)

meets-Meets : (es : List Entry) (start n : ℕ) → Meets es start n (meets es start n)
unfolding meets
meets-Meets [] start n = tt
meets-Meets (e ∷ es) start n =
    elim (Bool-cases (in_use e && (ltb start (e.start + e.nsect) && ltb e.start (start + n)))) [
      | inl hit ↦ rw hit (
        ground arith,
        λ s p q u. elim (u.0 (ground arith)) [ inl l ↦ omega arith | inr r ↦ ground arith ],
      )
      | inr miss ↦ rw miss (Meets-skip e es start n _ miss (meets-Meets es start n))
    ]

-- What a round finds: a free run, or a place before which no run from `start` on is free.
abbrev Round : List Entry → List ℕ → ℕ → ℕ → Option ℕ → Type 0
Round es bad n start none = IsFree es bad n start
Round es bad n start (some to) =
    (start < to) × ((s : ℕ) → start ≤ s → s < to → IsFree es bad n s → ⊥)

next_start-Round :
    (es : List Entry) (bad : List ℕ) (n start : ℕ)
    → Above 0 bad
    → Round es bad n start (next_start es bad n start)
unfolding next_start
next_start-Round es bad n start sound =
    let m = meets-Meets es start n in
    elim (Option-cases (meets es start n)) [
      | inr (to, hit) ↦
          let m' : Meets es start n (some to) = rw hit at m in
          rw (hit, next_start) (m'.0, λ s p q f. m'.1 s p q f.0)
      | inl apart ↦
          let unused : Meets es start n none = rw apart at m in
          let c = clash-Clashes 0 bad start n sound in
          elim (Option-cases (clash bad start n)) [
            | inl good ↦
                let clear : Clashes bad start n none = rw good at c in
                rw (apart, good, next_start) (unused, clear)
            | inr (b, hit) ↦
                let found : Clashes bad start n (some b) = rw hit at c in
                rw (apart, hit, next_start)
                  (
                    omega arith,
                    λ s p q f.
                        let clear = f.1 b (omega arith) (omega arith) in
                        let there = found.0 in cc (sym there ∙ clear),
                  )
          ]
    ]

-- The first free run of `n` sectors in the volume from sector `first` on; none if there is none.
abbrev pub FirstFree : List Entry → List ℕ → ℕ → ℕ → ℕ → Option ℕ → Type 0
FirstFree es bad first end n none = (s : ℕ) → first ≤ s → s + n ≤ end → IsFree es bad n s → ⊥
FirstFree es bad first end n (some a) =
    (first ≤ a)
    × (a + n ≤ end)
    × IsFree es bad n a
    × ((s : ℕ) → first ≤ s → s < a → IsFree es bad n s → ⊥)

FirstFree-skip :
    (es : List Entry) (bad : List ℕ) (first to end n : ℕ) (r : Option ℕ)
    → first < to
    → ((s : ℕ) → first ≤ s → s < to → IsFree es bad n s → ⊥)
    → FirstFree es bad to end n r
    → FirstFree es bad first end n r
FirstFree-skip es bad first to end n none less skip f = λ s p q free. elim (Bool-cases (ltb s to)) [
  | inl before ↦ skip s p (ground arith) free
  | inr after ↦ f s (ground arith) q free
]
FirstFree-skip es bad first to end n (some a) less skip f = (
  omega arith,
  f.1,
  f.2,
  λ s p q free. elim (Bool-cases (ltb s to)) [
    | inl before ↦ skip s p (ground arith) free
    | inr after ↦ f.3 s (ground arith) q free
  ],
)

alloc_from-FirstFree :
    (es : List Entry) (bad : List ℕ) (end n fuel start : ℕ)
    → Above 0 bad
    → end < start + fuel
    → FirstFree es bad start end n (alloc_from es bad end n fuel start)
unfolding alloc_from
alloc_from-FirstFree es bad end n zero start sound h = λ s p q free. omega arith
alloc_from-FirstFree es bad end n (suc fuel) start sound h =
    elim (Bool-cases (leb (start + n) end)) [
      | inr past ↦ rw past (λ s p q free. ground arith)
      | inl fits ↦
          let r = next_start-Round es bad n start sound in
          elim (Option-cases (next_start es bad n start)) [
            | inl here ↦
                let free : Round es bad n start none = rw here at r in
                rw (fits, here, alloc_from)
                  (omega arith, leb→le _ _ fits, free, λ s p q f. omega arith)
            | inr (to, later) ↦
                let skip : Round es bad n start (some to) = rw later at r in
                rw (fits, later, alloc_from)
                  (FirstFree-skip es bad start to end n _ skip.0 skip.1
                    (alloc_from-FirstFree es bad end n fuel to sound (omega arith)))
          ]
    ]

-- `alloc` answers the first run of `n` sectors in the volume that no used entry occupies and
-- that holds no bad sector, and answers -1 only if there is no such run.
pub alloc-FirstFree :
    (es : List Entry) (bad : List ℕ) (first end n : ℕ)
    → Above 0 bad
    → FirstFree es bad first end n (alloc es bad first end n)
unfolding alloc
alloc-FirstFree es bad first end n sound =
    alloc_from-FirstFree es bad end n (suc end - first) first sound (omega arith)
