-- ===== src/Heap/Buffers/Laws.antt =====
-- The table of named buffers as a map from addresses to sizes.
use flopnix.Base.{
  ℕ, zero, suc, ◌+◌, ◌≡◌, ◌≢◌, ◌⊎◌, refl, ap, ◌∙◌, inl, inr, true, false, ◌&&◌, not, Option, none,
  some, List, [], ◌∷◌, ◌==◌, if◌then◌else◌, set, take, arith, All, Bool-cases, Option-cases,
}
use flopnix.Heap.Buffers.{Buffer, untrack, slot_for, track}

-- The size under which an address is tracked, 0 if it is not.
unfoldable pub tracked : ℕ → List Buffer → ℕ
tracked a [] = 0
tracked a (b ∷ bs) = if not (b.size == 0) && (b.base == a) then b.size else tracked a bs

-- After `mem_untrack` the address is not tracked, and all others are as before.
pub tracked-untrack :
    (ptr a : ℕ) (bs : List Buffer)
    → tracked a (untrack ptr bs) ≡ (if ptr == a then 0 else tracked a bs)
unfolding tracked untrack
tracked-untrack ptr a [] = ground arith
tracked-untrack ptr a (b ∷ bs) = elim (Bool-cases (b.base == ptr)) [
  | inl hit ↦ rw hit (tracked-untrack ptr a bs ∙ ground arith)
  | inr miss ↦ rw miss (elim (Bool-cases (not (b.size == 0) && (b.base == a))) [
    | inl there ↦ rw there (ground arith)
    | inr other ↦ rw other (tracked-untrack ptr a bs)
  ])
]

-- The first slot with the address, and a free slot.
abbrev First : ℕ → ℕ → List Buffer → Type 0
First ptr m [] = ⊥
First ptr zero (b ∷ bs) = (not (b.size == 0) && (b.base == ptr)) ≡ true
First ptr (suc m) (b ∷ bs) = ((not (b.size == 0) && (b.base == ptr)) ≡ false) × First ptr m bs

abbrev Free : ℕ → List Buffer → Type 0
Free m [] = ⊥
Free zero (b ∷ bs) = b.size ≡ 0
Free (suc m) (b ∷ bs) = Free m bs

-- The slot that the loop of `mem_track` answers, from slot `k` on with `slot` so far.
abbrev Slot : ℕ → ℕ → Option ℕ → List Buffer → Option ℕ → Type 0
Slot ptr k slot bs none = (slot ≡ none) × (tracked ptr bs ≡ 0) × All (λ b. b.size ≢ 0) bs
Slot ptr k slot bs (some j) =
    ((m : ℕ) × (j ≡ k + m) × First ptr m bs)
    ⊎ ((tracked ptr bs ≡ 0) × ((slot ≡ some j) ⊎ ((m : ℕ) × (j ≡ k + m) × Free m bs)))

Slot-free :
    (ptr k : ℕ) (slot : Option ℕ) (b : Buffer) (bs : List Buffer) (r : Option ℕ)
    → (b.size == 0) ≡ true
    → Slot ptr (k + 1) (some k) bs r
    → Slot ptr k slot (b ∷ bs) r
unfolding tracked
Slot-free ptr k slot b bs none e s = absurd (let x = s.0 in cc)
Slot-free ptr k slot b bs (some j) e (inl (m, at, f)) = inl (suc m, omega arith, (ground arith, f))
Slot-free ptr k slot b bs (some j) e (inr (t, inl here)) =
    let is : k ≡ j = ap (λ o. elim o [ none ↦ k | some x ↦ x ]) here in
    inr (ground arith, inr (0, omega arith, ground arith))
Slot-free ptr k slot b bs (some j) e (inr (t, inr (m, at, f))) =
    inr (ground arith, inr (suc m, omega arith, f))

Slot-used :
    (ptr k : ℕ) (slot : Option ℕ) (b : Buffer) (bs : List Buffer) (r : Option ℕ)
    → (b.size == 0) ≡ false
    → (not (b.size == 0) && (b.base == ptr)) ≡ false
    → Slot ptr (k + 1) slot bs r
    → Slot ptr k slot (b ∷ bs) r
unfolding tracked
Slot-used ptr k slot b bs none e n s = (s.0, rw n s.1, (ground arith, s.2))
Slot-used ptr k slot b bs (some j) e n (inl (m, at, f)) = inl (suc m, omega arith, (n, f))
Slot-used ptr k slot b bs (some j) e n (inr (t, inl so_far)) = inr (rw n t, inl so_far)
Slot-used ptr k slot b bs (some j) e n (inr (t, inr (m, at, f))) =
    inr (rw n t, inr (suc m, omega arith, f))

slot_for-Slot :
    (ptr k : ℕ) (slot : Option ℕ) (bs : List Buffer) → Slot ptr k slot bs (slot_for ptr k slot bs)
unfolding slot_for tracked
slot_for-Slot ptr k none [] = (refl, refl, tt)
slot_for-Slot ptr k (some j) [] = inr (refl, inl refl)
slot_for-Slot ptr k slot (b ∷ bs) = elim (Bool-cases (not (b.size == 0) && (b.base == ptr))) [
  | inl own ↦ rw own (inl (0, omega arith, own))
  | inr not_own ↦ elim (Bool-cases (b.size == 0)) [
    | inl free ↦
        rw (not_own, slot_for)
          (rw free (Slot-free ptr k slot b bs _ free (slot_for-Slot ptr (k + 1) (some k) bs)))
    | inr used ↦
        rw (not_own, slot_for)
          (rw used (Slot-used ptr k slot b bs _ used not_own (slot_for-Slot ptr (k + 1) slot bs)))
  ]
]

tracked-First :
    (a m : ℕ) (new : Buffer) (bs : List Buffer)
    → new.size ≢ 0
    → First new.base m bs
    → tracked a (set bs m new) ≡ (if new.base == a then new.size else tracked a bs)
unfolding tracked
tracked-First a m new [] n f = absurd f
tracked-First a zero new (b ∷ bs) n f = ground arith
tracked-First a (suc m) new (b ∷ bs) n f = ground (arith, tracked-First a m new bs n f.1)

tracked-Free :
    (a m : ℕ) (new : Buffer) (bs : List Buffer)
    → new.size ≢ 0
    → tracked new.base bs ≡ 0
    → Free m bs
    → tracked a (set bs m new) ≡ (if new.base == a then new.size else tracked a bs)
unfolding tracked
tracked-Free a m new [] n t f = absurd f
tracked-Free a zero new (b ∷ bs) n t f = ground arith
tracked-Free a (suc m) new (b ∷ bs) n t f = ground (arith, tracked-Free a m new bs n)

-- Tracking a buffer that is neither null nor empty either records the size for its address and
-- keeps all other addresses as they were, or finds all slots used and the address untracked, and
-- changes nothing.
pub tracked-track :
    (owner ptr size : ℕ) (name : List ℕ) (bs : List Buffer)
    → ptr ≢ 0
    → size ≢ 0
    → let cs = track owner (some name) ptr size bs in
      ((a : ℕ) → tracked a cs ≡ (if ptr == a then size else tracked a bs))
      ⊎ ((cs ≡ bs) × (tracked ptr bs ≡ 0) × All (λ b. b.size ≢ 0) bs)
unfolding track
tracked-track owner ptr size name bs p n =
    let new : Buffer = record { name = take 23 name; base = ptr; size = size; owner = owner } in
    let s = slot_for-Slot ptr 0 none bs in
    let p' : (ptr == 0) ≡ false = ground arith in
    let n' : (size == 0) ≡ false = ground arith in
    elim (Option-cases (slot_for ptr 0 none bs)) [
      | inl full ↦
          let s' : Slot ptr 0 none bs none = rw full at s in
          rw (p', n', full) (inr (refl, s'.1, s'.2))
      | inr (j, hit) ↦
          let s' : Slot ptr 0 none bs (some j) = rw hit at s in
          rw (p', n', hit)
            (inl (λ a. elim s' [
              | inl (m, at, f) ↦
                  let is : j ≡ m = omega arith in rw is (tracked-First a m new bs n f)
              | inr (t, inl so_far) ↦ absurd cc
              | inr (t, inr (m, at, f)) ↦
                  let is : j ≡ m = omega arith in rw is (tracked-Free a m new bs n t f)
            ]))
    ]
