-- ===== src/Fs/Defrag/Laws.antt =====
-- Defragmenting loses no file.
use flopnix.Base.{
  ℕ, zero, suc, ◌+◌, ◌≤◌, ◌<◌, ◌^◌, ◌≡◌, ◌≢◌, ◌⊎◌, refl, sym, ap, ◌∙◌, inl, inr, Bool, true, false,
  ◌||◌, Option, none, some, List, [], ◌∷◌, ltb, ◌==◌, arith, All, Bool-cases,
}
use flopnix.Fs.Entry.{Entry}
use flopnix.Fs.Volume.{Sectors, entry_sectors}
use flopnix.Fs.Device.{Device}
use flopnix.Fs.Move.{Outcome, moved, intact, restored, torn, move}
use flopnix.Fs.Move.Laws.{Moves, move-Moves}
use flopnix.Fs.Plan.{PlanEntry}
use flopnix.Fs.Defrag.{set_start, is_moved, flush_tries, move_files}

-- Where the table says that the file of an entry starts.
unfoldable pub start_of : List Entry → ℕ → Option ℕ
start_of [] i = none
start_of (e ∷ es) zero = some e.start
start_of (e ∷ es) (suc i) = start_of es i

pub start_of-set_start :
    (es : List Entry) (i a b : ℕ) → start_of es i ≡ some a → start_of (set_start es i b) i ≡ some b
unfolding start_of set_start
start_of-set_start [] i a b h = absurd cc
start_of-set_start (e ∷ es) zero a b h = refl
start_of-set_start (e ∷ es) (suc i) a b h = start_of-set_start es i a b h

start_of_other :
    (es : List Entry) (i j b : ℕ) → j ≢ i → start_of (set_start es i b) j ≡ start_of es j
unfolding start_of set_start
start_of_other [] i j b h = refl
start_of_other (e ∷ es) zero zero b h = absurd (h refl)
start_of_other (e ∷ es) zero (suc j) b h = refl
start_of_other (e ∷ es) (suc i) zero b h = refl
start_of_other (e ∷ es) (suc i) (suc j) b h = start_of_other es i j b (λ s. h (ap suc s))

-- A plan for the files of a table, which start at `old` or after it, each whole before the next one:
-- no file goes up, and the new places follow one another from `new` on.
abbrev pub Planned : List Entry → (old new : ℕ) → List PlanEntry → Type 0
Planned table old new [] = Unit {0}
Planned table old new (p ∷ ps) =
    (old ≤ p.start)
    × (new ≤ p.nstart)
    × (p.nstart ≤ p.start)
    × (p.start < 2 ^ 32)
    × (start_of table p.idx ≡ some p.start)
    × All (λ q. q.idx ≢ p.idx) ps
    × Planned table (p.start + p.sects) (p.nstart + p.sects) ps

pub Planned-set_start :
    (table : List Entry) (i at old new : ℕ) (ps : List PlanEntry)
    → All (λ q. q.idx ≢ i) ps
    → Planned table old new ps
    → Planned (set_start table i at) old new ps
Planned-set_start table i at old new [] a h = tt
Planned-set_start table i at old new (p ∷ ps) a h = (
  h.0,
  h.1,
  h.2,
  h.3,
  start_of_other table i p.idx at a.0 ∙ h.4,
  h.5,
  Planned-set_start table i at (p.start + p.sects) (p.nstart + p.sects) ps a.1 h.6,
)

-- What `move-Moves` says of a move, whatever its outcome.
module _ (dev : Device) (src dst len : ℕ) (st : dev.State) (d : dst ≤ src) (w : src < 2 ^ 32) where
  open dev use {State, content}

  outside :
      (r : Outcome × State)
      → Moves dev src dst len (content st) r
      → (j : ℕ) → (j < dst) ⊎ (src + len ≤ j)
      → content r.1 j ≡ content st j
  outside (moved, s) h = h.1
  outside (intact, s) h = h.1
  outside (restored, s) h = h.1
  outside (torn, s) h = h.0

  at_new_place :
      (r : Outcome × State)
      → is_moved r.0 ≡ true
      → Moves dev src dst len (content st) r
      → (i : ℕ) → i < len
      → content r.1 (dst + i) ≡ content st (src + i)
  unfolding is_moved
  at_new_place (moved, s) m h = h.0
  at_new_place (intact, s) m h = absurd cc
  at_new_place (restored, s) m h = absurd cc
  at_new_place (torn, s) m h = absurd cc

  at_old_place :
      (r : Outcome × State)
      → is_moved r.0 ≡ false
      → r.0 ≢ torn
      → Moves dev src dst len (content st) r
      → (i : ℕ) → i < len
      → content r.1 (src + i) ≡ content st (src + i)
  unfolding is_moved
  at_old_place (moved, s) m t h = absurd cc
  at_old_place (intact, s) m t h = h.0
  at_old_place (restored, s) m t h = h.0
  at_old_place (torn, s) m t h = absurd (t refl)

  abbrev result : Outcome × State
  result = move dev src dst len st

  result-Moves : Moves dev src dst len (content st) result
  result-Moves = move-Moves dev src dst len st d w

  pub move_outside : (j : ℕ) → (j < dst) ⊎ (src + len ≤ j) → content result.1 j ≡ content st j
  move_outside = outside result result-Moves

  pub moved_whole :
      is_moved result.0 ≡ true
      → (i : ℕ) → i < len
      → content result.1 (dst + i) ≡ content st (src + i)
  moved_whole m = at_new_place result m result-Moves

  pub stopped_whole :
      is_moved result.0 ≡ false
      → result.0 ≢ torn
      → (i : ℕ) → i < len
      → content result.1 (src + i) ≡ content st (src + i)
  stopped_whole m t = at_old_place result m t result-Moves

module _ (dev : Device) (flush : Sectors → List Entry → dev.State → Bool × dev.State) where
  open dev use {State, content}

  -- Writing the table leaves the data area, from sector `first` on, as it is.
  abbrev pub KeepsData : ℕ → Type 0
  KeepsData first =
      (marked : Sectors) (table : List Entry) (st : State) (j : ℕ)
      → first ≤ j
      → content (flush marked table st).1 j ≡ content st j

  module _ (first : ℕ) (keeps : KeepsData first) where
    pub flush_tries_keep :
        (n : ℕ) (marked : Sectors) (table : List Entry) (st : State) (j : ℕ)
        → first ≤ j
        → content (flush_tries dev flush n marked table st).1 j ≡ content st j
    unfolding flush_tries
    flush_tries_keep zero marked table st j h = refl
    flush_tries_keep (suc n) marked table st j h = elim (Bool-cases (flush marked table st).0) [
      | inl ok ↦ rw (ok, flush_tries) (keeps marked table st j h)
      | inr bad ↦
          rw (bad, flush_tries)
            (flush_tries_keep n marked table (flush marked table st).1 j h
              ∙ keeps marked table st j h)
    ]

    -- The data area below the new places is left as it is.
    pub kept_below :
        (slots : ℕ) (table : List Entry) (old new : ℕ) (ps : List PlanEntry) (st : State) (j : ℕ)
        → Planned table old new ps
        → first ≤ j
        → j < new
        → content (move_files dev flush first slots ps table st).2 j ≡ content st j
    unfolding move_files
    kept_below slots table old new [] st j h f l = refl
    kept_below slots table old new (p ∷ ps) st j h f l = elim (Bool-cases (p.nstart == p.start)) [
      | inl stays ↦
          rw (stays, move_files)
            (kept_below slots table (p.start + p.sects) (p.nstart + p.sects) ps st j h.6 f
              (omega (arith, l, h.1)))
      | inr goes ↦ elim (Bool-cases (ltb p.nstart first || ltb p.start first)) [
        | inl below ↦ rw (goes, below, move_files) refl
        | inr fits ↦
            let r = move dev p.start p.nstart p.sects st in
            let t = set_start table p.idx p.nstart in
            let f' = flush_tries dev flush 3 (entry_sectors slots p.idx) t r.1 in
            let kept =
              move_outside dev p.start p.nstart p.sects st h.2 h.3 j
                (inl (omega (arith, l, h.1))) in
            let flushed = flush_tries_keep 3 (entry_sectors slots p.idx) t r.1 j f ∙ kept in
            elim (Bool-cases (is_moved r.0)) [
              | inr stop ↦ rw (goes, fits, stop, move_files) kept
              | inl gone ↦ elim (Bool-cases f'.0) [
                | inr lost ↦ rw (goes, fits, gone, lost, move_files) flushed
                | inl written ↦
                    rw (goes, fits, gone, written, move_files)
                      (kept_below slots t (p.start + p.sects) (p.nstart + p.sects) ps f'.1 j
                          (Planned-set_start table p.idx p.nstart (p.start + p.sects)
                            (p.nstart + p.sects) ps h.5 h.6)
                          f (omega (arith, l, h.1))
                        ∙ flushed)
              ]
            ]
      ]
    ]

    -- An entry that is not in the plan keeps its start.
    pub kept_start :
        (slots : ℕ) (table : List Entry) (ps : List PlanEntry) (st : State) (i : ℕ)
        → All (λ q. q.idx ≢ i) ps
        → start_of (move_files dev flush first slots ps table st).1 i ≡ start_of table i
    unfolding move_files
    kept_start slots table [] st i a = refl
    kept_start slots table (p ∷ ps) st i a = elim (Bool-cases (p.nstart == p.start)) [
      | inl stays ↦ rw (stays, move_files) (kept_start slots table ps st i a.1)
      | inr goes ↦ elim (Bool-cases (ltb p.nstart first || ltb p.start first)) [
        | inl below ↦ rw (goes, below, move_files) refl
        | inr fits ↦
            let r = move dev p.start p.nstart p.sects st in
            let t = set_start table p.idx p.nstart in
            let f' = flush_tries dev flush 3 (entry_sectors slots p.idx) t r.1 in
            let other = start_of_other table p.idx i p.nstart (λ e. a.0 (sym e)) in
            elim (Bool-cases (is_moved r.0)) [
              | inr stop ↦ rw (goes, fits, stop, move_files) refl
              | inl gone ↦ elim (Bool-cases f'.0) [
                | inr lost ↦ rw (goes, fits, gone, lost, move_files) other
                | inl written ↦
                    rw (goes, fits, gone, written, move_files)
                      (kept_start slots t ps f'.1 i a.1 ∙ other)
              ]
            ]
      ]
    ]
