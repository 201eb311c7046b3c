-- ===== src/Util/Sort.antt =====
-- `ksort` of src/util.c, an insertion sort, and what it promises for an ordering `cmp`. The part of
-- the array that is sorted already is kept from its end on, as the inner loop walks it.
mod Tests
use mathlib.Core.List.{Perm, perm_middle}
use mathlib.Core.List.Perm
use flopnix.Base.{
  ℕ, ◌≡◌, refl, Bool, true, false, List, [], ◌∷◌, ◌++◌, ltb, if◌then◌else◌, All, Bool-cases, inl,
  inr, append-nil, subst, sym, arith, ◌≤◌,
}

module _ {A : Type 0} (above : A → A → Bool) where
  -- The inner loop: `cmp(a + j, tmp) > 0` moves element `j` up.
  insert_back : A → List A → List A
  insert_back tmp [] = tmp ∷ []
  insert_back tmp (e ∷ es) = if above e tmp then e ∷ insert_back tmp es else tmp ∷ e ∷ es

  -- The outer loop.
  sort_loop : List A → List A → List A
  unfolding insert_back
  sort_loop [] sorted = sorted
  sort_loop (tmp ∷ es) sorted = sort_loop es (insert_back tmp sorted)

  turn : List A → List A → List A
  turn [] acc = acc
  turn (e ∷ es) acc = turn es (e ∷ acc)

  -- Elements of more than 256 bytes do not fit in `tmp`, and nothing is done.
  pub ksort : ℕ → List A → List A
  unfolding sort_loop turn
  ksort size xs = if ltb 256 size then xs else turn (sort_loop xs []) []

  -- No element is above a later one.
  abbrev pub Ascending : List A → Type 0
  Ascending [] = Unit {0}
  Ascending (e ∷ es) = All (λ b. above e b ≡ false) es × Ascending es

  abbrev Descending : List A → Type 0
  Descending [] = Unit {0}
  Descending (e ∷ es) = All (λ b. above b e ≡ false) es × Descending es

  insert_back-perm : (t : A) (es : List A) → Perm (insert_back t es) (t ∷ es)
  unfolding insert_back
  insert_back-perm t [] = Perm.refl (t ∷ [])
  insert_back-perm t (e ∷ es) = elim (Bool-cases (above e t)) [
    | inl up ↦ rw up (Perm.trans (Perm.cons e (insert_back-perm t es)) (Perm.swap t e es))
    | inr stop ↦ rw stop (Perm.refl (t ∷ e ∷ es))
  ]

  sort_loop-perm : (es sorted : List A) → Perm (sort_loop es sorted) (es ++ sorted)
  unfolding sort_loop
  sort_loop-perm [] sorted = Perm.refl sorted
  sort_loop-perm (t ∷ es) sorted =
      Perm.trans (sort_loop-perm es (insert_back t sorted))
        (Perm.trans (Perm.append_left es (insert_back-perm t sorted)) (perm_middle es sorted))

  turn-perm : (es acc : List A) → Perm (turn es acc) (es ++ acc)
  unfolding turn
  turn-perm [] acc = Perm.refl acc
  turn-perm (e ∷ es) acc = Perm.trans (turn-perm es (e ∷ acc)) (perm_middle es acc)

  -- `ksort` loses and invents no element, whatever the comparison answers.
  pub ksort-perm : (size : ℕ) (xs : List A) → Perm (ksort size xs) xs
  unfolding ksort
  ksort-perm size xs = elim (Bool-cases (ltb 256 size)) [
    | inl large ↦ rw large (Perm.refl xs)
    | inr small ↦ rw small (
        subst (λ ys. Perm (turn (sort_loop xs []) []) ys) (append-nil xs)
          (Perm.trans (turn-perm (sort_loop xs []) []) (
            subst (λ ys. Perm ys (xs ++ [])) (sym (append-nil (sort_loop xs [])))
              (sort_loop-perm xs []))))
  ]

  All-insert_back :
      (P : A → Type 0) (t : A) (es : List A) → P t → All P es → All P (insert_back t es)
  unfolding insert_back
  All-insert_back P t [] p a = (p, tt)
  All-insert_back P t (e ∷ es) p a = elim (Bool-cases (above e t)) [
    | inl up ↦ rw up (a.0, All-insert_back P t es p a.1)
    | inr stop ↦ rw stop (p, a)
  ]

  module _ (asym : (a b : A) → above a b ≡ true → above b a ≡ false)
      (through : (a b c : A) → above a b ≡ false → above b c ≡ false → above a c ≡ false) where
    lower_still :
        (t e : A) (es : List A)
        → above e t ≡ false
        → All (λ b. above b e ≡ false) es
        → All (λ b. above b t ≡ false) es
    lower_still t e [] h a = tt
    lower_still t e (b ∷ bs) h a = (through b e t a.0 h, lower_still t e bs h a.1)

    insert_back-Descending : (t : A) (es : List A) → Descending es → Descending (insert_back t es)
    unfolding insert_back
    insert_back-Descending t [] d = (tt, tt)
    insert_back-Descending t (e ∷ es) d = elim (Bool-cases (above e t)) [
      | inl up ↦ rw up (
        All-insert_back (λ b. above b e ≡ false) t es (asym e t up) d.0,
        insert_back-Descending t es d.1,
      )
      | inr stop ↦ rw stop ((stop, lower_still t e es stop d.0), d)
    ]

    sort_loop-Descending :
        (es sorted : List A) → Descending sorted → Descending (sort_loop es sorted)
    unfolding sort_loop
    sort_loop-Descending [] sorted d = d
    sort_loop-Descending (t ∷ es) sorted d =
        sort_loop-Descending es (insert_back t sorted) (insert_back-Descending t sorted d)

    both :
        (e : A) (acc : List A) (es : List A)
        → All (λ b. above b e ≡ false) es
        → All (λ b. All (λ a. above b a ≡ false) acc) es
        → All (λ b. All (λ a. above b a ≡ false) (e ∷ acc)) es
    both e acc [] d c = tt
    both e acc (b ∷ bs) d c = ((d.0, c.0), both e acc bs d.1 c.1)

    nothing : (es : List A) → All (λ b. All (λ a. above b a ≡ false) []) es
    nothing [] = tt
    nothing (b ∷ bs) = (tt, nothing bs)

    turn-Ascending :
        (es acc : List A)
        → Descending es
        → Ascending acc
        → All (λ e. All (λ a. above e a ≡ false) acc) es
        → Ascending (turn es acc)
    unfolding turn
    turn-Ascending [] acc d s c = s
    turn-Ascending (e ∷ es) acc d s c =
        turn-Ascending es (e ∷ acc) d.1 (c.0, s) (both e acc es d.0 c.1)

    -- `ksort` leaves the same elements in ascending order, if the comparison is a total preorder and
    -- an element has 256 bytes at most.
    pub ksort-Ascending :
        (size : ℕ) (xs : List A) → size ≤ 256 → Ascending (ksort size xs) × Perm (ksort size xs) xs
    unfolding ksort
    ksort-Ascending size xs h =
        let small : ltb 256 size ≡ false = ground arith in
        let order =
          turn-Ascending (sort_loop xs []) [] (sort_loop-Descending xs [] tt) tt
            (nothing (sort_loop xs [])) in
        (rw small order, ksort-perm size xs)
