-- ===== src/Fs/Marks.antt =====
-- `bad_mark` and `fs_bad_locked` of src/fs.c: marking sectors bad on a mounted volume.
mod Tests
use flopnix.Base.{
  ℕ, ◌+◌, ◌-◌, ◌^◌, ◌≤◌, ◌<◌, ◌≡◌, refl, sym, ap, ◌∙◌, subst, inl, inr, Bool, true, false, ◌||◌,
  not, Option, none, some, List, [], ◌∷◌, ltb, leb, ◌==◌, if◌then◌else◌, length, get_elem?, arith,
  All, ◌⊎◌, Bool-cases, Option-cases,
}
use flopnix.Fs.Bad.{max_bad, clash, add, del, Added}
use flopnix.Fs.Bad.Laws.{has, del-add}
use flopnix.Fs.Bad.Kept.{
  IsBadList-Above, add-IsBadList, del-IsBadList, length-del, del-absent, add-del,
}
use flopnix.Fs.Bad.Stored.{IsBadList, InArea}
use flopnix.Fs.Entry.{volume_end}
use flopnix.Fs.Volume.{Volume, IsVolume, Medium, IsMedium}

-- FSB_COUNT, FSB_GET, FSB_MARK and FSB_CLEAR.
pub data BadOp : Type 0 where
  count get mark clear : BadOp

abbrev pub with_bad : List ℕ → Volume → Volume
with_bad bad v = record v { bad = bad }

module _ (m : Medium) where
  pub bad_mark : ℕ → Volume → Bool × Volume
  bad_mark lba v =
      let r = add v.bad lba in
      if ltb lba v.first || leb volume_end lba then (false, v) else elim r.0 [
        | Added.listed ↦ (false, v)
        | Added.full ↦ (false, v)
        | Added.added ↦
            if m.flush_bad (with_bad r.1 v)
            then (true, with_bad r.1 v)
            else (false, with_bad (del r.1 lba).1 v)
      ]

  -- The case FSB_CLEAR; `none` is -1.
  bad_clear : ℕ → Volume → Option ℕ × Volume
  bad_clear lba v =
      let left = if lba == 0 then [] else (del v.bad lba).1 in
      if length left == length v.bad
      then (some 0, with_bad left v)
      else if m.flush_bad (with_bad left v)
      then (some (length v.bad - length left), with_bad left v)
      else (none, with_bad (if lba == 0 then v.bad else (add left lba).1) v)

  -- The switch of `fs_bad_locked`.
  bad_switch : BadOp → ℕ → Volume → Option ℕ × Volume
  unfolding bad_mark bad_clear
  bad_switch count lba v = (some (length v.bad), v)
  bad_switch get lba v = (get_elem? v.bad lba, v)
  bad_switch mark lba v = elim (clash v.bad lba 1) [
    | some b ↦ (some 0, v)
    | none ↦ ((if (bad_mark lba v).0 then some 1 else none), (bad_mark lba v).1)
  ]
  bad_switch clear lba v = bad_clear lba v

  -- `fs_bad_locked`.
  pub bad_op : BadOp → ℕ → Volume → Option ℕ × Volume
  unfolding bad_switch
  bad_op op lba v0 =
      if not (m.ensure v0).0 then (none, (m.ensure v0).1) else bad_switch op lba (m.ensure v0).1

-- After an answer that is not -1 a volume with the same table, and after -1 the very same volume.
abbrev pub Marked : Volume → Option ℕ × Volume → Type 0
Marked v (none, w) = w ≡ v
Marked v (some k, w) = IsVolume w × (w.table ≡ v.table)

small_from :
    (first : ℕ) (list : List ℕ) (lba : ℕ)
    → All (InArea first volume_end) list
    → has list lba ≡ true
    → lba < 2 ^ 16
unfolding has
small_from first [] lba a h = absurd cc
small_from first (b ∷ bs) lba a h = elim (Bool-cases (b == lba)) [
  | inl hit ↦ ground (arith, a.0)
  | inr miss ↦ small_from first bs lba a.1 (rw miss at h)
]

small :
    (first : ℕ) (list : List ℕ) (lba : ℕ)
    → IsBadList first volume_end list
    → has list lba ≡ true
    → lba < 2 ^ 16
small first list lba v h = small_from first list lba v.1 h

with_bad-IsVolume :
    (bad : List ℕ) (v : Volume)
    → IsVolume v
    → IsBadList v.first volume_end bad
    → IsVolume (with_bad bad v)
with_bad-IsVolume bad v w b = record {
  valid = w.valid;
  bad_valid = b;
  slots_le = w.slots_le;
  name_le = w.name_le;
  first_pos = w.first_pos;
}

pub Added-cases : (x : Added) → (x ≡ Added.added) ⊎ ((x ≡ Added.listed) ⊎ (x ≡ Added.full))
Added-cases Added.listed = inr (inl refl)
Added-cases Added.full = inr (inr refl)
Added-cases Added.added = inl refl

-- Marking a sector leaves a volume with the same table, or fails and changes nothing.
pub bad_mark-Marked :
    (m : Medium) (lba : ℕ) (v : Volume)
    → IsVolume v
    → Marked v ((if (bad_mark m lba v).0 then some 1 else none), (bad_mark m lba v).1)
unfolding bad_mark
bad_mark-Marked m lba v w =
    let above = IsBadList-Above v.first volume_end v.bad w.first_pos w.bad_valid in
    let pos = w.first_pos in
    elim (Bool-cases (ltb lba v.first || leb volume_end lba)) [
      | inl outside ↦ rw outside refl
      | inr inside ↦ rw inside (elim (Added-cases (add v.bad lba).0) [
        | inr (inl old) ↦ rw old refl
        | inr (inr full) ↦ rw full refl
        | inl new ↦ rw new (elim (Bool-cases (m.flush_bad (with_bad (add v.bad lba).1 v))) [
          | inl written ↦ rw written (
            with_bad-IsVolume (add v.bad lba).1 v w (
                add-IsBadList v.first volume_end v.bad lba pos (omega arith) w.bad_valid
                  (ground arith, ground arith) new),
            refl,
          )
          | inr lost ↦ rw lost (
              ap (λ l. with_bad l v)
                (ap (λ r. r.1) (del-add 0 v.bad lba above (ground arith) (ground arith) new)))
        ])
      ])
    ]

Marked-IsVolume :
    (b : Bool) (u v : Volume) → IsVolume v → Marked v ((if b then some 1 else none), u) → IsVolume u
Marked-IsVolume true u v w h = h.0
Marked-IsVolume false u v w h = subst IsVolume (sym h) w

-- `bad_mark` leaves a volume that differs in its list of bad sectors at most.
pub bad_mark-with_bad :
    (m : Medium) (lba : ℕ) (v : Volume)
    → IsVolume v
    → IsVolume (bad_mark m lba v).1 × ((bad : List ℕ) × ((bad_mark m lba v).1 ≡ with_bad bad v))
unfolding bad_mark
bad_mark-with_bad m lba v w = (
  Marked-IsVolume (bad_mark m lba v).0 (bad_mark m lba v).1 v w (bad_mark-Marked m lba v w),
  elim (Bool-cases (ltb lba v.first || leb volume_end lba)) [
    | inl outside ↦ rw outside (v.bad, refl)
    | inr inside ↦ elim (Added-cases (add v.bad lba).0) [
      | inr (inl old) ↦ rw inside (rw old (v.bad, refl))
      | inr (inr full) ↦ rw inside (rw full (v.bad, refl))
      | inl new ↦ elim (Bool-cases (m.flush_bad (with_bad (add v.bad lba).1 v))) [
        | inl written ↦ rw inside (rw new (rw written ((add v.bad lba).1, refl)))
        | inr lost ↦ rw inside (rw new (rw lost ((del (add v.bad lba).1 lba).1, refl)))
      ]
    ]
  ],
)

bad_clear-Marked : (m : Medium) (lba : ℕ) (v : Volume) → IsVolume v → Marked v (bad_clear m lba v)
unfolding bad_clear
bad_clear-Marked m lba v w =
    let above = IsBadList-Above v.first volume_end v.bad w.first_pos w.bad_valid in
    let left = if lba == 0 then [] else (del v.bad lba).1 in
    let left-IsBadList : IsBadList v.first volume_end left = elim (Bool-cases (lba == 0)) [
      | inl all ↦ rw all (tt, tt, omega arith)
      | inr one ↦ rw one (del-IsBadList v.first volume_end v.bad lba w.first_pos w.bad_valid)
    ] in
    let valid = with_bad-IsVolume left v w left-IsBadList in
    elim (Bool-cases (length left == length v.bad)) [
      | inl none_left ↦ rw none_left (valid, refl)
      | inr fewer ↦ rw fewer (elim (Bool-cases (m.flush_bad (with_bad left v))) [
        | inl written ↦ rw written (valid, refl)
        | inr lost ↦ rw lost (elim (Bool-cases (lba == 0)) [
          | inl all ↦ rw all refl
          | inr one ↦ rw one (elim (Bool-cases (has v.bad lba)) [
            | inr absent ↦ absurd (ground (arith, rw one at fewer, length-del v.bad lba))
            | inl there ↦
                ap (λ l. with_bad l v)
                  (ap (λ r. r.1)
                    (add-del 0 v.bad lba above (small v.first v.bad lba w.bad_valid there)
                      w.bad_valid.2 there))
          ])
        ])
      ])
    ]

unchanged-Marked : (v : Volume) → IsVolume v → (answer : Option ℕ) → Marked v (answer, v)
unchanged-Marked v w none = refl
unchanged-Marked v w (some k) = (w, refl)

mark_new-Marked :
    (m : Medium) (lba : ℕ) (v : Volume)
    → IsVolume v
    → (listed : Option ℕ)
    → Marked v (elim listed [
      | some b ↦ (some 0, v)
      | none ↦ ((if (bad_mark m lba v).0 then some 1 else none), (bad_mark m lba v).1)
    ])
mark_new-Marked m lba v w none = bad_mark-Marked m lba v w
mark_new-Marked m lba v w (some b) = (w, refl)

bad_switch-Marked :
    (m : Medium) (op : BadOp) (lba : ℕ) (v : Volume) → IsVolume v → Marked v (bad_switch m op lba v)
unfolding bad_switch
bad_switch-Marked m count lba v w = (w, refl)
bad_switch-Marked m get lba v w = unchanged-Marked v w (get_elem? v.bad lba)
bad_switch-Marked m mark lba v w = mark_new-Marked m lba v w (clash v.bad lba 1)
bad_switch-Marked m clear lba v w = bad_clear-Marked m lba v w

-- Whatever is asked of the list of bad sectors, an answer other than -1 leaves a valid volume with
-- the same table, and -1 leaves the volume as mounting left it.
pub bad_op-Marked :
    (m : Medium) (op : BadOp) (lba : ℕ) (v : Volume)
    → IsMedium m
    → IsVolume v
    → Marked (m.ensure v).1 (bad_op m op lba v)
unfolding bad_op
bad_op-Marked m op lba v0 sound w0 = elim (Bool-cases (m.ensure v0).0) [
  | inr down ↦ rw down refl
  | inl up ↦ rw up (bad_switch-Marked m op lba (m.ensure v0).1 (sound.ensured v0 w0))
]
