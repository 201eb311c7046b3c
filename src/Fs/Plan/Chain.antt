-- ===== src/Fs/Plan/Chain.antt =====
-- A plan is in the order of the files, and says of each what the entry said.
use flopnix.Base.{
  ℕ, ◌+◌, ◌≤◌, ◌<◌, ◌%◌, ◌^◌, ◌≡◌, inl, inr, Bool, true, false, ltb, List, [], ◌∷◌, arith, All,
  Bool-cases, if◌then◌else◌,
}
use flopnix.Base.Sorted.{Above}
use flopnix.Fs.Plan.{PlanEntry, insert_down, gather, choose, place, reverse_onto, plan}
use flopnix.Fs.Plan.Laws.{Apart, choose-Good}
use flopnix.Fs.Plan.Order.{
  Separate, Down, Cross-nil, gather-Down, Apart-reverse_onto, All-insert_down,
}

-- Files in ascending order from `old` on, the new places in that order from `new` on, none higher
-- than before.
abbrev pub Chained : (old new : ℕ) → List PlanEntry → Type 0
Chained old new [] = Unit {0}
Chained old new (p ∷ ps) =
    (old ≤ p.start)
    × (new ≤ p.nstart)
    × (p.nstart ≤ p.start)
    × (p.start < 2 ^ 16)
    × Chained (p.start + p.sects) (p.nstart + p.sects) ps

place-Chained :
    (bad : List ℕ) (old new : ℕ) (es : List PlanEntry)
    → Above 0 bad
    → Apart old es
    → new ≤ old
    → Chained old new (place bad new es)
unfolding place
place-Chained bad old new [] sound a h = tt
place-Chained bad old new (e ∷ es) sound a h =
    let g = choose-Good bad sound new e (omega (arith, a.0, h)) in
    let fits : choose bad new e % 2 ^ 16 ≡ choose bad new e = omega (arith, g.1, a.1) in
    rw fits (
      a.0,
      g.0,
      g.1,
      a.1,
      place-Chained bad (e.start + e.sects) (choose bad new e + e.sects) es sound a.2
          (omega (arith, g.1)),
    )

module _ (P : PlanEntry → Type 0) where
  gather-All :
      (es sorted : List PlanEntry)
      → All (λ e. e.used ≡ true → P e) es
      → All P sorted
      → All P (gather es sorted)
  unfolding gather
  gather-All [] sorted a b = b
  gather-All (t ∷ es) sorted a b = elim (Bool-cases t.used) [
    | inl u ↦
        simp u (gather-All es (insert_down t sorted) a.1 (All-insert_down P t sorted (a.0 u) b))
    | inr v ↦ simp v (gather-All es sorted a.1 b)
  ]

  reverse_onto-All : (es acc : List PlanEntry) → All P es → All P acc → All P (reverse_onto es acc)
  unfolding reverse_onto
  reverse_onto-All [] acc a b = b
  reverse_onto-All (e ∷ es) acc a b = reverse_onto-All es (e ∷ acc) a.1 (a.0, b)

  place-All :
      (bad : List ℕ) (new : ℕ) (es : List PlanEntry)
      → ((e : PlanEntry) (n : ℕ) → P e → P (record e { nstart = n }))
      → All P es
      → All P (place bad new es)
  unfolding place
  place-All bad new [] keeps a = tt
  place-All bad new (e ∷ es) keeps a = (
    keeps e (choose bad new e % 2 ^ 16) a.0,
    place-All bad (choose bad new e + e.sects) es keeps a.1,
  )

  pub plan-Chained :
      (entries : List PlanEntry) (first end : ℕ) (bad : List ℕ)
      → Separate first end entries
      → end ≤ 2 ^ 16
      → first ≤ end
      → Above 0 bad
      → ((e : PlanEntry) (n : ℕ) → P e → P (record e { nstart = n }))
      → All (λ e. e.used ≡ true → P e) entries
      → Chained first first (plan entries first bad).0 × All P (plan entries first bad).0
  unfolding plan
  plan-Chained entries first end bad s w f sound keeps a =
      let sorted = reverse_onto (gather entries []) [] in
      let down : Down first end (gather entries []) =
        gather-Down first end entries [] s (Cross-nil entries) f in
      (
        place-Chained bad first first sorted sound
            (Apart-reverse_onto first end (gather entries []) [] w down tt) (omega arith),
        place-All bad first sorted keeps
            (reverse_onto-All (gather entries []) [] (gather-All entries [] a tt) tt),
      )

  insert_down-Each :
      (t : PlanEntry) (es : List PlanEntry) → All P (insert_down t es) → P t × All P es
  unfolding insert_down
  insert_down-Each t [] a = (a.0, tt)
  insert_down-Each t (e ∷ es) a = elim (Bool-cases (ltb t.start e.start)) [
    | inl less ↦
        let b : P e × All P (insert_down t es) = rw less at a in
        let rest = insert_down-Each t es b.1 in (rest.0, (b.0, rest.1))
    | inr more ↦ let b : P t × All P (e ∷ es) = rw more at a in b
  ]

  picked :
      (t : PlanEntry) (sorted : List PlanEntry) (used : Bool)
      → All P (if used then insert_down t sorted else sorted)
      → (used ≡ true → P t) × All P sorted
  picked t sorted true a = let both = insert_down-Each t sorted a in ((λ u. both.0), both.1)
  picked t sorted false a = ((λ u. absurd cc), a)

  gather-Each :
      (es sorted : List PlanEntry)
      → All P (gather es sorted)
      → All (λ e. e.used ≡ true → P e) es × All P sorted
  unfolding gather
  gather-Each [] sorted a = (tt, a)
  gather-Each (t ∷ es) sorted a =
      let rest = gather-Each es (if t.used then insert_down t sorted else sorted) a in
      let here = picked t sorted t.used rest.1 in ((here.0, rest.0), here.1)

  reverse_onto-Each : (es acc : List PlanEntry) → All P (reverse_onto es acc) → All P es × All P acc
  unfolding reverse_onto
  reverse_onto-Each [] acc a = (tt, a)
  reverse_onto-Each (e ∷ es) acc a =
      let rest = reverse_onto-Each es (e ∷ acc) a in ((rest.1.0, rest.0), rest.1.1)

  place-Each :
      (bad : List ℕ) (new : ℕ) (es : List PlanEntry)
      → ((e : PlanEntry) (n : ℕ) → P (record e { nstart = n }) → P e)
      → All P (place bad new es)
      → All P es
  unfolding place
  place-Each bad new [] keeps a = tt
  place-Each bad new (e ∷ es) keeps a = (
    keeps e (choose bad new e % 2 ^ 16) a.0,
    place-Each bad (choose bad new e + e.sects) es keeps a.1,
  )

  -- What holds of each file of the plan holds of each used entry.
  pub plan-Each :
      (entries : List PlanEntry) (first : ℕ) (bad : List ℕ)
      → ((e : PlanEntry) (n : ℕ) → P (record e { nstart = n }) → P e)
      → All P (plan entries first bad).0
      → All (λ e. e.used ≡ true → P e) entries
  unfolding plan
  plan-Each entries first bad keeps a =
      let sorted = reverse_onto (gather entries []) [] in
      (gather-Each entries []
        ((reverse_onto-Each (gather entries []) [] (place-Each bad first sorted keeps a)).0)).0
