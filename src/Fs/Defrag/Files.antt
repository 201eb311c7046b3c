-- ===== src/Fs/Defrag/Files.antt =====
-- `fs_defrag` on a valid volume keeps its files.
use flopnix.Base.{
  ℕ, suc, ◌+◌, ◌≤◌, ◌<◌, ◌%◌, ◌^◌, ◌≡◌, ◌≢◌, ◌⊎◌, refl, sym, subst, ap, ◌∙◌, inl, inr, Bool, true,
  ◌&&◌, not, none, some, List, [], ◌∷◌, leb, ◌==◌, arith, All, length, Bool-cases,
}
use flopnix.Fs.Entry.{Entry, in_use, is_dir, volume_end}
use flopnix.Fs.Check.Laws.{Distinct, IsTable}
use flopnix.Fs.Bad.Kept.{IsBadList-Above}
use flopnix.Fs.Volume.{Volume, IsVolume, Sectors}
use flopnix.Fs.Device.{Device}
use flopnix.Fs.Move.{torn}
use flopnix.Fs.Plan.{PlanEntry, plan}
use flopnix.Fs.Plan.Order.{Disjoint, Separate}
use flopnix.Fs.Plan.Chain.{Chained, plan-Chained, plan-Each}
use flopnix.Fs.Defrag.{plan_entries, Ended, ended_with, move_files, defrag}
use flopnix.Fs.Defrag.Laws.{start_of, Planned, KeepsData}
use flopnix.Fs.Defrag.Whole.{Whole, move_files-Whole}

-- The entry of the first loop for an entry of the table.
abbrev planned : ℕ → Entry → PlanEntry
planned i e = record {
  start = e.start;
  sects = e.nsect;
  nstart = 0;
  used = in_use e && not (e.nsect == 0);
  idx = i % 2 ^ 16;
}

disjoint_of :
    (e b : Entry)
    → 0 < e.nsect
    → 0 < b.nsect
    → Distinct e b
    → (e.start + e.nsect ≤ b.start) ⊎ (b.start + b.nsect ≤ e.start)
disjoint_of e b p q d = elim (Bool-cases (leb (e.start + e.nsect) b.start)) [
  | inl before ↦ inl (ground (arith, before))
  | inr late ↦ elim (Bool-cases (leb (b.start + b.nsect) e.start)) [
    | inl after ↦ inr (ground (arith, after))
    | inr early ↦ absurd (elim (Bool-cases (leb e.start b.start)) [
      | inl first ↦
          d.1 b.start (ground (arith, first)) (ground (arith, late)) (omega arith)
            (omega (arith, q))
      | inr second ↦
          d.1 e.start (omega arith) (omega (arith, p)) (ground (arith, second))
            (ground (arith, early))
    ])
  ]
]

beside-Disjoint :
    (e : Entry) (k i : ℕ) (es : List Entry)
    → 0 < e.nsect
    → All (λ b. in_use b ≡ true → Distinct e b) es
    → All (λ q. q.used ≡ true → Disjoint q (planned k e)) (plan_entries i es)
unfolding plan_entries
beside-Disjoint e k i [] p a = tt
beside-Disjoint e k i (b ∷ bs) p a = (
  λ u. elim (disjoint_of e b p (ground (arith, u)) (a.0 (ground (arith, u)))) [
    | inl before ↦ inr before
    | inr after ↦ inl after
  ],
  beside-Disjoint e k (i + 1) bs p a.1,
)

plan_entries-Separate :
    (i first end : ℕ) (es : List Entry)
    → IsTable first end es
    → Separate first end (plan_entries i es)
unfolding plan_entries
plan_entries-Separate i first end [] t = tt
plan_entries-Separate i first end (e ∷ es) t = (
  λ u.
      let v = t.0 (ground (arith, u)) in
      let some_sector : 0 < e.nsect = ground (arith, u) in
      elim (Bool-cases (is_dir e)) [
        | inl dir ↦
            absurd (let none_there = (v.0.3 dir).2 in omega (arith, none_there, some_sector))
        | inr file ↦
            let area = v.0.4 file in
            ((area.0, some_sector, area.2), beside-Disjoint e i (i + 1) es some_sector v.1)
      ],
  plan_entries-Separate (i + 1) first end es t.1,
)

-- The table has the start of the file where the entry says, and the file has sectors.
abbrev Known : List Entry → PlanEntry → Type 0
Known table p = (start_of table p.idx ≡ some p.start) × (0 < p.sects)

plan_entries-Known :
    (table : List Entry) (i : ℕ) (es : List Entry)
    → i + length es ≤ 2 ^ 16
    → ((k : ℕ) → start_of table (i + k) ≡ start_of es k)
    → All (λ p. p.used ≡ true → Known table p) (plan_entries i es)
unfolding plan_entries start_of
plan_entries-Known table i [] l h = tt
plan_entries-Known table i (e ∷ es) l h = (
  λ u.
      let fits : i % 2 ^ 16 ≡ i + 0 = omega (arith, l) in
      (ap (start_of table) fits ∙ h 0, ground (arith, u)),
  plan_entries-Known table (i + 1) es (omega (arith, l))
      (λ k. ap (start_of table) (let s : i + 1 + k ≡ i + suc k = omega arith in s) ∙ h (suc k)),
)

some_same : (a b : ℕ) → some a ≡ some b → a ≡ b
some_same a b e = ap (λ o. elim o [ none ↦ a | some x ↦ x ]) e

-- Files in order have different entries, as they start at different sectors.
apart_from :
    (table : List Entry) (p : PlanEntry) (old new : ℕ) (ps : List PlanEntry)
    → p.start < old
    → start_of table p.idx ≡ some p.start
    → Chained old new ps
    → All (Known table) ps
    → All (λ q. q.idx ≢ p.idx) ps
apart_from table p old new [] l s c k = tt
apart_from table p old new (q ∷ qs) l s c k = (
  λ e. omega (arith, some_same q.start p.start (sym k.0.0 ∙ ap (start_of table) e ∙ s), l, c.0),
  apart_from table p (q.start + q.sects) (q.nstart + q.sects) qs (omega (arith, l, c.0)) s c.4 k.1,
)

Chained-Planned :
    (table : List Entry) (old new : ℕ) (ps : List PlanEntry)
    → Chained old new ps
    → All (Known table) ps
    → Planned table old new ps
Chained-Planned table old new [] c k = tt
Chained-Planned table old new (p ∷ ps) c k = (
  c.0,
  c.1,
  c.2,
  omega (arith, c.3),
  k.0.0,
  apart_from table p (p.start + p.sects) (p.nstart + p.sects) ps (omega (arith, k.0.1)) k.0.0 c.4
      k.1,
  Chained-Planned table (p.start + p.sects) (p.nstart + p.sects) ps c.4 k.1,
)

-- The table has a place for a file, and the sectors from there on hold what they held for it.
abbrev pub Kept : (dev : Device) → (ℕ → dev.Data) → List Entry → dev.State → PlanEntry → Type 0
Kept dev c0 table st p =
    (a : ℕ) × (start_of table p.idx ≡ some a)
    × ((i : ℕ) → i < p.sects → dev.content st (a + i) ≡ c0 (p.start + i))

Whole-Kept :
    (dev : Device) (c0 : ℕ → dev.Data) (r : Ended × List Entry × dev.State) (ps : List PlanEntry)
    → All (Whole dev c0 r) ps
    → All (Kept dev c0 r.1 r.2) ps
Whole-Kept dev c0 r [] a = tt
Whole-Kept dev c0 r (p ∷ ps) a = ((a.0.0, a.0.1, a.0.2), Whole-Kept dev c0 r ps a.1)

Known-Kept :
    (dev : Device) (c0 : ℕ → dev.Data) (table : List Entry) (st : dev.State) (ps : List PlanEntry)
    → ((j : ℕ) → dev.content st j ≡ c0 j)
    → All (λ p. p.used ≡ true → Known table p) ps
    → All (λ p. p.used ≡ true → Kept dev c0 table st p) ps
Known-Kept dev c0 table st [] same a = tt
Known-Kept dev c0 table st (p ∷ ps) same a =
    ((λ u. (p.start, (a.0 u).0, λ i l. same (p.start + i))), Known-Kept dev c0 table st ps same a.1)

-- `fs_defrag` on a valid volume, where writing the table does not touch the data area: unless it
-- answers FSD_TORN, the table has at the end a place for each file, and the sectors from there on
-- hold what those of the file held before, whatever reads, writes and table writes failed.
pub defrag-Kept :
    (dev : Device) (flush : Sectors → List Entry → dev.State → Bool × dev.State) (v : Volume)
    (st : dev.State)
    → IsVolume v
    → v.first ≤ volume_end
    → length v.table ≤ 2 ^ 16
    → KeepsData dev flush v.first
    → let r = defrag dev flush v st in
      r.1 ≢ ended_with torn
      → All (λ p. p.used ≡ true → Kept dev (dev.content st) r.2 r.3 p) (plan_entries 0 v.table)
unfolding defrag
defrag-Kept dev flush v st w f l keeps ok =
    let entries = plan_entries 0 v.table in
    let known =
      plan_entries-Known v.table 0 v.table (omega (arith, l))
        (λ k. ap (start_of v.table) (let s : 0 + k ≡ k = omega arith in s)) in
    elim (Bool-cases ((plan entries v.first v.bad).1 == 0)) [
      | inl none_moves ↦
          rw none_moves (Known-Kept dev (dev.content st) v.table st entries (λ j. refl) known)
      | inr some_move ↦
          let chain =
            plan-Chained (Known v.table) entries v.first volume_end v.bad
              (plan_entries-Separate 0 v.first volume_end v.table w.valid) (omega arith) f
              (IsBadList-Above v.first volume_end v.bad w.first_pos w.bad_valid) (λ e n k. k)
              known in
          let files = (plan entries v.first v.bad).0 in
          let ran = move_files dev flush v.first v.slots files v.table st in
          let result : ℕ × Ended × List Entry × dev.State =
            ((plan entries v.first v.bad).1, ran.0, ran.1, ran.2) in
          let same : defrag dev flush v st ≡ result = rw some_move refl in
          subst
            (λ d.
              All (λ p. p.used ≡ true → Kept dev (dev.content st) d.2 d.3 p)
                (plan_entries 0 v.table))
            (sym same)
            (plan-Each (Kept dev (dev.content st) ran.1 ran.2) entries v.first v.bad (λ e n k. k)
              (Whole-Kept dev (dev.content st) ran files (
                move_files-Whole dev flush v.first v.slots keeps (dev.content st) v.table v.first
                  v.first files st (omega arith)
                  (Chained-Planned v.table v.first v.first files chain.0 chain.1) (λ j l. refl)
                  (λ e. ok (ap (λ d. d.1) same ∙ e)))))
    ]
