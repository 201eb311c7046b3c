-- ===== src/Fs/Plan/Order.antt =====
-- The first loop of `fs_plan` sorts: files that lie apart come out in ascending order, none lost.
use mathlib.Core.List.{Perm, perm_middle}
use mathlib.Core.List.Perm
use flopnix.Base.{
  ℕ, ◌+◌, ◌≤◌, ◌<◌, ◌^◌, ◌≡◌, ◌⊎◌, inl, inr, true, List, [], ◌∷◌, ◌++◌, ltb, if◌then◌else◌, arith,
  All, append-nil, map, Bool-cases,
}
use flopnix.Base.Sorted.{Above}
use flopnix.Fs.Plan.{PlanEntry, insert_down, gather, reverse_onto, plan}
use flopnix.Fs.Plan.Laws.{Apart, Apart-mono, Safe, source, place-Safe, place_keeps_sources}

-- Two files share no sector.
abbrev pub Disjoint : PlanEntry → PlanEntry → Type 0
Disjoint a b = (a.start + a.sects ≤ b.start) ⊎ (b.start + b.sects ≤ a.start)

-- A used entry lies in the volume and has sectors.
abbrev pub Fits : ℕ → ℕ → PlanEntry → Type 0
Fits first end e = (first ≤ e.start) × (0 < e.sects) × (e.start + e.sects ≤ end)

-- The used entries of the list fit and are pairwise disjoint.
abbrev pub Separate : ℕ → ℕ → List PlanEntry → Type 0
Separate first end [] = Unit {0}
Separate first end (t ∷ es) =
    (t.used ≡ true → Fits first end t × All (λ e. e.used ≡ true → Disjoint e t) es)
    × Separate first end es

module _ (first : ℕ) where
  -- Files in descending order below sector `hi`.
  abbrev pub Down : ℕ → List PlanEntry → Type 0
  Down hi [] = first ≤ hi
  Down hi (e ∷ es) = (e.start + e.sects ≤ hi) × (0 < e.sects) × Down e.start es

  Down-insert_down :
      (hi : ℕ) (t : PlanEntry) (es : List PlanEntry)
      → Fits first hi t
      → All (Disjoint t) es
      → Down hi es
      → Down hi (insert_down t es)
  unfolding insert_down
  Down-insert_down hi t [] f a d = (f.2, f.1, f.0)
  Down-insert_down hi t (e ∷ es) f a d = elim (Bool-cases (ltb t.start e.start)) [
    | inl less ↦ rw less (d.0, d.1, Down-insert_down e.start t es (f.0, f.1, ground arith) a.1 d.2)
    | inr more ↦ rw more (f.2, f.1, (ground arith, d.1, d.2))
  ]

  pub Apart-reverse_onto :
      (hi : ℕ) (es acc : List PlanEntry)
      → hi ≤ 2 ^ 16
      → Down hi es
      → Apart hi acc
      → Apart first (reverse_onto es acc)
  unfolding reverse_onto
  Apart-reverse_onto hi [] acc w d a = Apart-mono acc d a
  Apart-reverse_onto hi (e ∷ es) acc w d a =
      Apart-reverse_onto e.start es (e ∷ acc) (omega arith) d.2
        (omega arith, omega arith, Apart-mono acc d.0 a)

pub All-insert_down :
    (P : PlanEntry → Type 0) (t : PlanEntry) (es : List PlanEntry)
    → P t
    → All P es
    → All P (insert_down t es)
unfolding insert_down
All-insert_down P t [] p a = (p, tt)
All-insert_down P t (e ∷ es) p a = elim (Bool-cases (ltb t.start e.start)) [
  | inl less ↦ rw less (a.0, All-insert_down P t es p a.1)
  | inr more ↦ rw more (p, a)
]

-- What is still to be gathered is disjoint from what is sorted.
abbrev pub Cross : List PlanEntry → List PlanEntry → Type 0
Cross es sorted = All (λ e. e.used ≡ true → All (Disjoint e) sorted) es

Cross-insert_down :
    (t : PlanEntry) (es sorted : List PlanEntry)
    → All (λ e. e.used ≡ true → Disjoint e t) es
    → Cross es sorted
    → Cross es (insert_down t sorted)
Cross-insert_down t [] sorted a c = tt
Cross-insert_down t (e ∷ es) sorted a c = (
  λ u. All-insert_down (Disjoint e) t sorted (a.0 u) (c.0 u),
  Cross-insert_down t es sorted a.1 c.1,
)

pub Cross-nil : (es : List PlanEntry) → Cross es []
Cross-nil [] = tt
Cross-nil (e ∷ es) = (λ u. tt, Cross-nil es)

pub gather-Down :
    (first end : ℕ) (es sorted : List PlanEntry)
    → Separate first end es
    → Cross es sorted
    → Down first end sorted
    → Down first end (gather es sorted)
unfolding gather
gather-Down first end [] sorted s c d = d
gather-Down first end (t ∷ es) sorted s c d = elim (Bool-cases t.used) [
  | inl u ↦ simp u (
      gather-Down first end es (insert_down t sorted) s.1
        (Cross-insert_down t es sorted (s.0 u).1 c.1)
        (Down-insert_down first end t sorted (s.0 u).0 (c.0 u) d))
  | inr v ↦ simp v (gather-Down first end es sorted s.1 c.1 d)
]

-- The used entries, in their order in the array.
pub used_entries : List PlanEntry → List PlanEntry
used_entries [] = []
used_entries (e ∷ es) = if e.used then e ∷ used_entries es else used_entries es

insert_down-perm : (t : PlanEntry) (es : List PlanEntry) → Perm (insert_down t es) (t ∷ es)
unfolding insert_down
insert_down-perm t [] = Perm.refl (t ∷ [])
insert_down-perm t (e ∷ es) = elim (Bool-cases (ltb t.start e.start)) [
  | inl less ↦ rw less (Perm.trans (Perm.cons e (insert_down-perm t es)) (Perm.swap t e es))
  | inr more ↦ rw more (Perm.refl (t ∷ e ∷ es))
]

gather-perm : (es sorted : List PlanEntry) → Perm (gather es sorted) (used_entries es ++ sorted)
unfolding gather used_entries
gather-perm [] sorted = Perm.refl sorted
gather-perm (t ∷ es) sorted = elim (Bool-cases t.used) [
  | inl u ↦ simp u (
      Perm.trans (gather-perm es (insert_down t sorted)) (
        Perm.trans (Perm.append_left (used_entries es) (insert_down-perm t sorted))
          (perm_middle (used_entries es) sorted)))
  | inr v ↦ simp v (gather-perm es sorted)
]

reverse_onto-perm : (es acc : List PlanEntry) → Perm (reverse_onto es acc) (es ++ acc)
unfolding reverse_onto
reverse_onto-perm [] acc = Perm.refl acc
reverse_onto-perm (e ∷ es) acc = Perm.trans (reverse_onto-perm es (e ∷ acc)) (perm_middle es acc)

-- For used entries that lie in the volume and apart, `fs_plan` plans each of them exactly once,
-- none moves up, the new places lie apart and in the volume from its first sector on, and a file
-- that moves lands on no bad sector.
pub plan_lem :
    (entries : List PlanEntry) (first end : ℕ) (bad : List ℕ)
    → Separate first end entries
    → end ≤ 2 ^ 16
    → first ≤ end
    → Above 0 bad
    → let planned = (plan entries first bad).0 in
      Safe bad first planned × Perm (map source planned) (map source (used_entries entries))
unfolding plan
plan_lem entries first end bad s w f sound =
    let sorted = reverse_onto (gather entries []) [] in
    let down : Down first end (gather entries []) =
      gather-Down first end entries [] s (Cross-nil entries) f in
    (
      place-Safe bad sound first sorted
          (Apart-reverse_onto first end (gather entries []) [] w down tt),
      rw (place_keeps_sources bad first sorted) (
          Perm.map source (
            Perm.trans (reverse_onto-perm (gather entries []) [])
              (rw append-nil (rw append-nil at (gather-perm entries []))))),
    )
