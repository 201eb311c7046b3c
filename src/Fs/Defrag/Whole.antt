-- ===== src/Fs/Defrag/Whole.antt =====
-- Every file is whole after defragmenting, unless a file was reported damaged.
use flopnix.Base.{
  ℕ, ◌+◌, ◌≤◌, ◌<◌, ◌≡◌, ◌≢◌, refl, sym, subst, ap, ◌∙◌, inl, inr, Bool, true, false, ◌||◌, some,
  List, [], ◌∷◌, ltb, ◌==◌, arith, All, Bool-cases,
}
use flopnix.Fs.Entry.{Entry}
use flopnix.Fs.Volume.{Sectors, entry_sectors}
use flopnix.Fs.Device.{Device}
use flopnix.Fs.Move.{Outcome, torn, move}
use flopnix.Fs.Plan.{PlanEntry}
use flopnix.Fs.Defrag.{
  set_start, is_moved, Ended, all_moved, refused_plan, ended_with, flush_tries, move_files,
}
use flopnix.Fs.Defrag.Laws.{
  start_of, start_of-set_start, Planned, Planned-set_start, move_outside, moved_whole,
  stopped_whole, KeepsData, flush_tries_keep, kept_below, kept_start,
}

module _ (dev : Device) (c0 : ℕ → dev.Data) where
  open dev use {State, content}

  -- The table has a place for the file, and the sectors from there on hold what the file had; if all
  -- files were moved, it is the place of the plan.
  abbrev pub Whole : Ended × List Entry × State → PlanEntry → Type 0
  Whole r p =
      (a : ℕ) × (start_of r.1 p.idx ≡ some a)
      × ((i : ℕ) → i < p.sects → content r.2 (a + i) ≡ c0 (p.start + i))
      × (r.0 ≡ all_moved → a ≡ p.nstart)

  -- From sector `old` on nothing has changed.
  abbrev pub Untouched : ℕ → State → Type 0
  Untouched old st = (j : ℕ) → old ≤ j → content st j ≡ c0 j

  Untouched-Whole :
      (w : Ended) (table : List Entry) (old new : ℕ) (ps : List PlanEntry) (st : State)
      → w ≢ all_moved
      → Planned table old new ps
      → Untouched old st
      → All (Whole (w, table, st)) ps
  Untouched-Whole w table old new [] st n h u = tt
  Untouched-Whole w table old new (p ∷ ps) st n h u = (
    (p.start, h.4, (λ i l. u (p.start + i) (omega (arith, h.0))), λ e. absurd (n e)),
    Untouched-Whole w table (p.start + p.sects) (p.nstart + p.sects) ps st n h.6
        (λ j l. u j (omega (arith, l, h.0))),
  )

stopped_not_all : (o : Outcome) → ended_with o ≢ all_moved
stopped_not_all o e = absurd cc

module _ (dev : Device) (flush : Sectors → List Entry → dev.State → Bool × dev.State) where
  module _ (first slots : ℕ) (keeps : KeepsData dev flush first) (c0 : ℕ → dev.Data) where
    open dev use {State, content}

    abbrev files_moved : List PlanEntry → List Entry → State → Ended × List Entry × State
    files_moved ps table st = move_files dev flush first slots ps table st

    -- A file that was moved, whose place the table on the floppy has, is whole at the end.
    moved-Whole :
        (table : List Entry) (p : PlanEntry) (ps : List PlanEntry) (old new : ℕ) (st : State)
        → first ≤ new
        → Planned table old new (p ∷ ps)
        → Untouched dev c0 old st
        → let r = move dev p.start p.nstart p.sects st in
          let t = set_start table p.idx p.nstart in
          let f = flush_tries dev flush 3 (entry_sectors slots p.idx) t r.1 in
          is_moved r.0 ≡ true
          → Whole dev c0 (files_moved ps t f.1) p
            × Planned t (p.start + p.sects) (p.nstart + p.sects) ps
            × Untouched dev c0 (p.start + p.sects) f.1
    moved-Whole table p ps old new st f h u gone =
        let r = move dev p.start p.nstart p.sects st in
        let t = set_start table p.idx p.nstart in
        let w = flush_tries dev flush 3 (entry_sectors slots p.idx) t r.1 in
        let flushed = flush_tries_keep dev flush first keeps 3 (entry_sectors slots p.idx) t r.1 in
        let later : Planned t (p.start + p.sects) (p.nstart + p.sects) ps =
          Planned-set_start table p.idx p.nstart (p.start + p.sects) (p.nstart + p.sects) ps h.5
            h.6 in
        (
          (
            p.nstart,
            kept_start dev flush first keeps slots t ps w.1 p.idx h.5
                ∙ start_of-set_start table p.idx p.start p.nstart h.4,
            (λ i l.
                kept_below dev flush first keeps slots t (p.start + p.sects) (p.nstart + p.sects) ps
                  w.1 (p.nstart + i) later (omega (arith, f, h.1)) (omega (arith, l))
                ∙ flushed (p.nstart + i) (omega (arith, f, h.1))
                ∙ moved_whole dev p.start p.nstart p.sects st h.2 h.3 gone i l
                ∙ u (p.start + i) (omega (arith, h.0))),
            λ e. refl,
          ),
          later,
          λ j l.
              flushed j (omega (arith, l, f, h.1, h.2))
              ∙ move_outside dev p.start p.nstart p.sects st h.2 h.3 j (inr l)
              ∙ u j (omega (arith, l, h.0)),
        )

    -- A file whose move failed, and was not reported damaged, is where it was, like those after it.
    failed-Whole :
        (table : List Entry) (p : PlanEntry) (ps : List PlanEntry) (old new : ℕ) (st : State)
        → Planned table old new (p ∷ ps)
        → Untouched dev c0 old st
        → let r = move dev p.start p.nstart p.sects st in
          is_moved r.0 ≡ false
          → r.0 ≢ torn
          → All (Whole dev c0 (ended_with r.0, table, r.1)) (p ∷ ps)
    failed-Whole table p ps old new st h u stop whole =
        let r = move dev p.start p.nstart p.sects st in
        (
          (
            p.start,
            h.4,
            (λ i l.
                stopped_whole dev p.start p.nstart p.sects st h.2 h.3 stop whole i l
                ∙ u (p.start + i) (omega (arith, h.0))),
            λ e. absurd (stopped_not_all r.0 e),
          ),
          Untouched-Whole dev c0 (ended_with r.0) table (p.start + p.sects) (p.nstart + p.sects) ps
              r.1 (stopped_not_all r.0) h.6
              (λ j l.
                move_outside dev p.start p.nstart p.sects st h.2 h.3 j (inr l)
                ∙ u j (omega (arith, l, h.0))),
        )

    -- A file whose place is the plan's is left alone.
    stays-Whole :
        (table : List Entry) (p : PlanEntry) (ps : List PlanEntry) (old new : ℕ) (st : State)
        → first ≤ new
        → Planned table old new (p ∷ ps)
        → Untouched dev c0 old st
        → p.start ≡ p.nstart
        → Whole dev c0 (files_moved ps table st) p
    stays-Whole table p ps old new st f h u at_place = (
      p.start,
      kept_start dev flush first keeps slots table ps st p.idx h.5 ∙ h.4,
      (λ i l.
          kept_below dev flush first keeps slots table (p.start + p.sects) (p.nstart + p.sects) ps
            st (p.start + i) h.6 (omega (arith, f, h.1, at_place)) (omega (arith, l, at_place))
          ∙ u (p.start + i) (omega (arith, h.0))),
      λ e. at_place,
    )

    -- The loop of `fs_defrag` on a plan that moves no file up and keeps the files apart, where
    -- writing the table does not touch the data area, which begins at `first`. If the loop does not
    -- answer FSD_TORN, each file is whole at the place where the table has it then, whatever reads,
    -- writes and table writes failed; if the loop goes through, that is the place of the plan.
    pub move_files-Whole :
        (table : List Entry) (old new : ℕ) (ps : List PlanEntry) (st : State)
        → first ≤ new
        → Planned table old new ps
        → Untouched dev c0 old st
        → (move_files dev flush first slots ps table st).0 ≢ ended_with torn
        → All (Whole dev c0 (move_files dev flush first slots ps table st)) ps
    unfolding move_files
    move_files-Whole table old new [] st f h u ok = tt
    move_files-Whole table old new (p ∷ ps) st f h u ok =
        let all = move_files dev flush first slots (p ∷ ps) table st in
        let by : (x : Ended × List Entry × State)
            → all ≡ x
            → All (Whole dev c0 x) (p ∷ ps)
            → All (Whole dev c0 all) (p ∷ ps) =
          λ x e. subst (λ y. All (Whole dev c0 y) (p ∷ ps)) (sym e) in
        elim (Bool-cases (p.nstart == p.start)) [
          | inl stays ↦
              let same : all ≡ files_moved ps table st = rw (stays, move_files) refl in
              by _ same (
                stays-Whole table p ps old new st f h u (ground (arith, stays)),
                move_files-Whole table (p.start + p.sects) (p.nstart + p.sects) ps st
                    (omega (arith, f, h.1)) h.6 (λ j l. u j (omega (arith, l, h.0)))
                    (λ e. ok (ap (λ x. x.0) same ∙ e)),
              )
          | inr goes ↦ elim (Bool-cases (ltb p.nstart first || ltb p.start first)) [
            | inl below ↦
                by (refused_plan, table, st) (rw (goes, below, move_files) refl)
                  (Untouched-Whole dev c0 refused_plan table old new (p ∷ ps) st (λ e. absurd cc) h
                    u)
            | inr fits ↦
                let r = move dev p.start p.nstart p.sects st in
                let t = set_start table p.idx p.nstart in
                let w = flush_tries dev flush 3 (entry_sectors slots p.idx) t r.1 in
                elim (Bool-cases (is_moved r.0)) [
                  | inr stop ↦
                      let same : all ≡ (ended_with r.0, table, r.1) =
                        rw (goes, fits, stop, move_files) refl in
                      by _ same (
                        failed-Whole table p ps old new st h u stop
                          (λ e. ok (ap (λ x. x.0) same ∙ ap ended_with e)))
                  | inl gone ↦ elim (Bool-cases w.0) [
                    | inr lost ↦
                        let same : all ≡ (ended_with torn, t, w.1) =
                          rw (goes, fits, gone, lost, move_files) refl in
                        absurd (ok (ap (λ x. x.0) same))
                    | inl written ↦
                        let same : all ≡ files_moved ps t w.1 =
                          rw (goes, fits, gone, written, move_files) refl in
                        let now = moved-Whole table p ps old new st f h u gone in
                        by _ same (
                          now.0,
                          move_files-Whole t (p.start + p.sects) (p.nstart + p.sects) ps w.1
                              (omega (arith, f, h.1)) now.1 now.2
                              (λ e. ok (ap (λ x. x.0) same ∙ e)),
                        )
                  ]
                ]
          ]
        ]
