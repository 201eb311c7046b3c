-- ===== src/Fs/Check/Laws.antt =====
-- What a table that passes `fs_table_valid` promises.
use flopnix.Base.{
  ℕ, ◌+◌, ◌*◌, ◌≤◌, ◌<◌, ◌≡◌, ◌≢◌, ◌↔◌, refl, inl, inr, true, false, List, [], ◌∷◌, leb, length,
  arith, All, ap, sym, Bool-cases,
}
use flopnix.Util.Strings.{same, eq_of_same, same_refl}
use flopnix.Fs.Entry.{Entry, name_len, is_dir, in_use}
use flopnix.Fs.Check.{entry_valid, overlap, pairs_valid, valid_from, table_valid}

-- A used entry by itself: a name that ends, no sectors for a directory, and for a file sectors of
-- the data area that can hold its bytes.
abbrev pub IsEntry : ℕ → ℕ → Entry → Type 0
IsEntry first end e =
    (e.used ≡ 1)
    × (0 < length e.name)
    × (length e.name ≢ name_len)
    × (is_dir e ≡ true → (e.size ≡ 0) × (e.start ≡ 0) × (e.nsect ≡ 0))
    × (is_dir e ≡ false
        → (first ≤ e.start) × (0 < e.nsect) × (e.start + e.nsect ≤ end) × (e.size ≤ e.nsect * 512))

-- Two used entries: distinct names and no common sector.
abbrev pub Distinct : Entry → Entry → Type 0
Distinct e b =
    (e.name ≢ b.name)
    × ((s : ℕ) → e.start ≤ s → s < e.start + e.nsect → b.start ≤ s → s < b.start + b.nsect → ⊥)

entry_valid_sound :
    (e : Entry) (first end : ℕ) → entry_valid e first end ≡ true → IsEntry first end e
unfolding entry_valid
entry_valid_sound e first end h =
    (ground arith, ground arith, ground arith, ground arith, ground arith)

entry_valid_complete :
    (e : Entry) (first end : ℕ) → IsEntry first end e → entry_valid e first end ≡ true
unfolding entry_valid
entry_valid_complete e first end v = elim (Bool-cases (is_dir e)) [
  | inl d ↦ let z = v.3 d in ground arith
  | inr f ↦ let z = v.4 f in ground arith
]

overlap_sound :
    (e b : Entry)
    → overlap e b ≡ false
    → (s : ℕ) → e.start ≤ s
    → s < e.start + e.nsect
    → b.start ≤ s
    → s < b.start + b.nsect
    → ⊥
unfolding overlap
overlap_sound e b h s p q r t = ground arith

-- Two entries that overlap share the sector where the later one begins.
overlap_complete : (e b : Entry) → Distinct e b → overlap e b ≡ false
unfolding overlap
overlap_complete e b d = elim (Bool-cases (overlap e b)) [
  | inr apart ↦ apart
  | inl meet ↦ absurd (elim (Bool-cases (leb e.start b.start)) [
    | inl first ↦ d.1 b.start (ground arith) (ground arith) (ground arith) (ground arith)
    | inr second ↦ d.1 e.start (ground arith) (ground arith) (ground arith) (ground arith)
  ])
]

-- The entries in use are entries, and pairwise distinct.
abbrev pub IsTable : ℕ → ℕ → List Entry → Type 0
IsTable first end [] = Unit {0}
IsTable first end (e ∷ es) =
    (in_use e ≡ true → IsEntry first end e × All (λ b. in_use b ≡ true → Distinct e b) es)
    × IsTable first end es

pub Distinct-symm : (e b : Entry) → Distinct e b → Distinct b e
Distinct-symm e b d = (λ p. d.0 (sym p), λ s p q r t. d.1 s r t p q)

-- The entries of `bs` that are in use are distinct from `e`.
abbrev Beside : Entry → List Entry → Type 0
Beside e bs = All (λ b. in_use b ≡ true → Distinct e b) bs

pairs_valid_sound : (e : Entry) (bs : List Entry) → pairs_valid e bs ≡ true → Beside e bs
unfolding pairs_valid
pairs_valid_sound e [] h = tt
pairs_valid_sound e (b ∷ bs) h = (
  λ u. (
    λ p. let s = same_refl b.name in ground (arith, ap (λ n. same n b.name) p),
    overlap_sound e b (ground arith),
  ),
  pairs_valid_sound e bs (ground arith),
)

pairs_valid_complete : (e : Entry) (bs : List Entry) → Beside e bs → pairs_valid e bs ≡ true
unfolding pairs_valid
pairs_valid_complete e [] v = refl
pairs_valid_complete e (b ∷ bs) v = elim (Bool-cases (in_use b)) [
  | inr free ↦ ground (arith, pairs_valid_complete e bs v.1)
  | inl used ↦
      let d = v.0 used in
      ground (
        arith,
        overlap_complete e b d,
        d.0,
        eq_of_same e.name b.name,
        pairs_valid_complete e bs v.1,
      )
]

-- The entries of `es` in use are distinct from those of `before`.
abbrev Crossed : List Entry → List Entry → Type 0
Crossed before es = All (λ x. in_use x ≡ true → Beside x before) es

cross_apart :
    (e : Entry) (before es : List Entry)
    → Crossed (e ∷ before) es
    → (in_use e ≡ true → Beside e es) × Crossed before es
cross_apart e before [] c = (λ u. tt, tt)
cross_apart e before (x ∷ es) c =
    let rest = cross_apart e before es c.1 in
    (λ u. (λ v. Distinct-symm x e ((c.0 v).0 u), rest.0 u), (λ v. (c.0 v).1, rest.1))

cross_again :
    (e : Entry) (before es : List Entry)
    → (in_use e ≡ true → Beside e es)
    → Crossed before es
    → Crossed (e ∷ before) es
cross_again e before [] b c = tt
cross_again e before (x ∷ es) b c =
    (λ v. (λ u. Distinct-symm e x ((b u).0 v), c.0 v), cross_again e before es (λ u. (b u).1) c.1)

valid_from_sound :
    (before es : List Entry) (first end : ℕ)
    → valid_from before es first end ≡ true
    → IsTable first end es × Crossed before es
unfolding valid_from
valid_from_sound before [] first end h = (tt, tt)
valid_from_sound before (e ∷ es) first end h =
    let ih = valid_from_sound (e ∷ before) es first end (ground arith) in
    let split = cross_apart e before es ih.1 in
    (
      (λ u. (entry_valid_sound e first end (ground arith), split.0 u), ih.0),
      (λ u. pairs_valid_sound e before (ground arith), split.1),
    )

valid_from_complete :
    (before es : List Entry) (first end : ℕ)
    → IsTable first end es
    → Crossed before es
    → valid_from before es first end ≡ true
unfolding valid_from
valid_from_complete before [] first end v c = refl
valid_from_complete before (e ∷ es) first end v c =
    let rest =
      valid_from_complete (e ∷ before) es first end v.1
        (cross_again e before es (λ u. (v.0 u).1) c.1) in
    elim (Bool-cases (in_use e)) [
      | inr free ↦ ground arith
      | inl used ↦
          let good = entry_valid_complete e first end (v.0 used).0 in
          let beside = pairs_valid_complete e before (c.0 used) in ground arith
    ]

Crossed-nil : (es : List Entry) → Crossed [] es
Crossed-nil [] = tt
Crossed-nil (e ∷ es) = (λ u. tt, Crossed-nil es)

-- `fs_table_valid` accepts exactly the tables in which every used entry is whole by itself (a
-- name that ends, a directory without sectors, a file within the volume and no longer than its
-- sectors) and any two used entries have distinct names and no common sector.
pub table_valid-iff-IsTable :
    (entries : List Entry) (first end : ℕ)
    → (table_valid entries first end ≡ true) ↔ IsTable first end entries
unfolding table_valid
table_valid-iff-IsTable entries first end = (
  λ h. (valid_from_sound [] entries first end h).0,
  λ v. valid_from_complete [] entries first end v (Crossed-nil entries),
)
