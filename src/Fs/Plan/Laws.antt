-- ===== src/Fs/Plan/Laws.antt =====
-- A plan moves files down only, keeps them apart, and keeps them off the bad sectors.
use flopnix.Base.{
  ℕ, zero, suc, ◌+◌, ◌-◌, ◌≤◌, ◌<◌, ◌%◌, ◌^◌, ◌≡◌, ◌⊎◌, refl, inl, inr, ◌||◌, none, some, List, [],
  ◌∷◌, ltb, is_some, arith, map, ap, Bool-cases, Option-cases,
}
use flopnix.Base.Sorted.{Above}
use flopnix.Fs.Bad.{clash}
use flopnix.Fs.Bad.Laws.{Clashes, clash-Clashes}
use flopnix.Fs.Plan.{PlanEntry, slide, choose, place}

-- Files in ascending order from sector `next` on, each whole before the next one.
abbrev pub Apart : ℕ → List PlanEntry → Type 0
Apart next [] = Unit {0}
Apart next (e ∷ es) = (next ≤ e.start) × (e.start < 2 ^ 16) × Apart (e.start + e.sects) es

pub Apart-mono : {a b : ℕ} (es : List PlanEntry) → a ≤ b → Apart b es → Apart a es
Apart-mono [] h s = tt
Apart-mono (e ∷ es) h s = (omega arith, s.1, s.2)

module _ (bad : List ℕ) where
  -- The place that `choose` picks lies between the free sector and the file's own place, and is
  -- its own place or free of bad sectors.
  abbrev pub Good : ℕ → PlanEntry → ℕ → Type 0
  Good next e at = (next ≤ at) × (at ≤ e.start) × ((at ≡ e.start) ⊎ (clash bad at e.sects ≡ none))

  -- A plan from sector `next` on.
  abbrev pub Safe : ℕ → List PlanEntry → Type 0
  Safe next [] = Unit {0}
  Safe next (p ∷ ps) = Good next p p.nstart × Safe (p.nstart + p.sects) ps

module _ (bad : List ℕ) (sound : Above 0 bad) where
  slide_lem :
      (start sects fuel at : ℕ)
      → start ≤ at + fuel
      → let to = slide bad start sects fuel at in
        (at ≤ to) × ((start ≤ to) ⊎ (clash bad to sects ≡ none))
  unfolding slide
  slide_lem start sects zero at h = (omega arith, inl (omega arith))
  slide_lem start sects (suc fuel) at h = elim (Bool-cases (ltb at start)) [
    | inr past ↦ rw past (omega arith, inl (ground arith))
    | inl short ↦ elim (Option-cases (clash bad at sects)) [
      | inl free ↦ rw (short, free, slide) (omega arith, inr free)
      | inr (b, hit) ↦
          let above : Clashes bad at sects (some b) =
            let c = clash-Clashes 0 bad at sects sound in rw hit at c in
          let ih = slide_lem start sects fuel (b + 1) (omega arith) in
          rw (short, hit, slide) (omega arith, ih.1)
    ]
  ]

  pub choose-Good :
      (next : ℕ) (e : PlanEntry) → next ≤ e.start → Good bad next e (choose bad next e)
  unfolding choose
  choose-Good next e h =
      let s = slide_lem e.start e.sects (e.start - next) next (omega arith) in
      elim (Bool-cases (
        ltb e.start (slide bad e.start e.sects (e.start - next) next)
        || is_some (clash bad e.start e.sects))) [
          | inl stay ↦ rw stay (h, omega arith, inl refl)
          | inr go ↦ rw go (s.0, ground arith, ground arith)
        ]

  pub place-Safe :
      (next : ℕ) (es : List PlanEntry) → Apart next es → Safe bad next (place bad next es)
  unfolding place
  place-Safe next [] a = tt
  place-Safe next (e ∷ es) a =
      let g = choose-Good next e a.0 in
      let fits : choose bad next e % 2 ^ 16 ≡ choose bad next e = omega arith in
      rw fits (g, place-Safe (choose bad next e + e.sects) es (Apart-mono es (omega arith) a.2))

-- An entry without the place that the plan gives it.
abbrev pub source : PlanEntry → PlanEntry
source e = record e { nstart = 0 }

pub place_keeps_sources :
    (bad : List ℕ) (next : ℕ) (es : List PlanEntry) → map source (place bad next es) ≡ map source es
unfolding place
place_keeps_sources bad next [] = refl
place_keeps_sources bad next (e ∷ es) =
    ap (◌∷◌ (source e)) (place_keeps_sources bad (choose bad next e + e.sects) es)
