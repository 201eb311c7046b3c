-- ===== src/Fs/Volume/Laws.antt =====
-- What the operations on files and directories do to the table, seen through `find`.
use flopnix.Base.{
  ℕ, ◌+◌, ◌-◌, ◌≡◌, ◌≢◌, refl, inl, inr, sym, ap, ◌∙◌, Bool, true, false, ◌||◌, Option, none, some,
  List, length, arith, set, get_elem?, get_elem?-lt, length-set, subst, Bool-cases, Option-cases,
  if◌then◌else◌, leb, take, take_all, is_some,
}
use flopnix.Util.Strings.{same, eq_of_same, same_refl}
use flopnix.Fs.Entry.{Entry, find, in_use, is_dir, attr_dir, name_len, volume_end}
use flopnix.Fs.Check.Laws.{IsEntry}
use flopnix.Fs.Path.{name_ok, dirname_ok, dirname_ok-short}
use flopnix.Fs.Volume.{
  Volume, IsVolume, Status, done, refused, minus_two, entry_sectors, Medium, IsMedium, with_entry,
  slot_from, finish, delete, touch, rename, mkdir,
}
use flopnix.Fs.Volume.Table.{
  Others, Apart, set-IsTable, entry_of, Others-map, Others-both, All-Others, found, Unnamed,
  not_found, find_nothing, only-find, slot_free, other-find_from, All-replaced,
}

-- A volume in any case, and after the answer 0 one with the property.
abbrev pub After : (Volume → Type 0) → Status × Volume → Type 0
After P (done, w) = IsVolume w × P w
After P (refused, w) = IsVolume w
After P (minus_two, w) = IsVolume w

-- The other names are found as before.
abbrev pub Same : List ℕ → Volume → Volume → Type 0
Same name v w = (n : List ℕ) → n ≢ name → find w.table n ≡ find v.table n

-- The new name has the old name's entry, the old name is gone unless it is the same, and all other
-- names are found as before.
abbrev pub Renamed : List ℕ → List ℕ → Volume → Volume → Type 0
Renamed old new v w =
    ((i : ℕ) × (e : Entry) × (find v.table old ≡ some (i, e))
      × (find w.table new ≡ some (i, record e { name = new })))
    × ((n : List ℕ) → n ≢ old → n ≢ new → find w.table n ≡ find v.table n)
    × (old ≢ new → find w.table old ≡ none)

is_none : (o : Option (ℕ × Entry)) (c : Bool) → (is_some o || c) ≡ false → o ≡ none
is_none none c h = refl
is_none (some x) c h = absurd cc

pub with_entry-IsVolume :
    (i : ℕ) (e : Entry) (v : Volume)
    → IsVolume v
    → (in_use e ≡ true → IsEntry v.first volume_end e × Others (Apart e) i v.table)
    → IsVolume (with_entry i e v)
with_entry-IsVolume i e v w new = record {
  valid = set-IsTable v.first volume_end i e v.table w.valid new;
  bad_valid = w.bad_valid;
  slots_le = omega (arith, w.slots_le, length-set v.table i e);
  name_le = w.name_le;
  first_pos = w.first_pos;
}

module _ (m : Medium) (sound : IsMedium m) where
  finish-After :
      (P : Volume → Type 0) (i : ℕ) (bad : Status) (v : Volume)
      → ((w : Volume) → IsVolume w → After P (bad, w))
      → IsVolume v
      → P v
      → After P (finish m i bad v)
  unfolding finish
  finish-After P i bad v fails w p =
      let s = entry_sectors v.slots i in
      elim (Bool-cases (m.commit s v).0) [
        | inl ok ↦ rw ok (sound.committed s v w, subst P (sym (sound.kept s v ok)) p)
        | inr failed ↦ rw failed (fails (m.commit s v).1 (sound.committed s v w))
      ]

  -- `fs_delete` leaves a valid table; if it answers 0, the name is gone, and all other names are
  -- found where they were.
  pub delete-After :
      (name : List ℕ) (v : Volume)
      → IsVolume v
      → After (λ w. (find w.table name ≡ none) × Same name (m.ensure v).1 w) (delete m name v)
  unfolding delete
  delete-After name v0 w0 =
      let v = (m.ensure v0).1 in
      let w = sound.ensured v0 w0 in
      elim (Bool-cases (m.ensure v0).0) [
        | inr down ↦ rw down w
        | inl up ↦ rw up (elim (Option-cases (find v.table name)) [
          | inl miss ↦ rw miss w
          | inr ((i, e), hit) ↦
              let f = found v.table name i e hit in
              let here = entry_of v.first volume_end i v.table w.valid f.0 f.1 in
              let gone = record e { used = 0 } in
              rw hit (
                finish-After _ i minus_two (with_entry i gone v) (λ x y. y)
                  (with_entry-IsVolume i gone v w (λ u. absurd cc))
                  (
                    find_nothing 0 (set v.table i gone) name (
                        All-replaced (Unnamed name) i gone v.table (λ u. absurd cc)
                          (Others-map (Apart e) (Unnamed name) i v.table
                            (λ b a u p. (a u).0 (f.2 ∙ sym p)) here.1)),
                    λ n ne.
                        other-find_from 0 i v.table e gone n f.0 (λ u p. ne (sym p ∙ f.2))
                          (λ u. absurd cc),
                  ))
        ])
      ]

  -- `fs_touch` leaves a valid table; if it answers 0, the name's entry has the new time and is
  -- otherwise as it was, and all other names are found as before.
  pub touch-After :
      (now : ℕ) (name : List ℕ) (v : Volume)
      → IsVolume v
      → After
          (λ w.
            ((i : ℕ) × (e : Entry) × (find (m.ensure v).1.table name ≡ some (i, e))
              × (find w.table name ≡ some (i, record e { mtime = now })))
            × Same name (m.ensure v).1 w)
          (touch m now name v)
  unfolding touch
  touch-After now name v0 w0 =
      let v = (m.ensure v0).1 in
      let w = sound.ensured v0 w0 in
      elim (Bool-cases (m.ensure v0).0) [
        | inr down ↦ rw down w
        | inl up ↦ rw up (elim (Option-cases (find v.table name)) [
          | inl miss ↦ rw miss w
          | inr ((i, e), hit) ↦
              let f = found v.table name i e hit in
              let here = entry_of v.first volume_end i v.table w.valid f.0 f.1 in
              let new = record e { mtime = now } in
              rw hit (
                finish-After _ i minus_two (with_entry i new v) (λ x y. y)
                  (with_entry-IsVolume i new v w (λ u. here))
                  (
                    (
                      i,
                      e,
                      refl,
                      only-find i v.table new name (get_elem?-lt v.table i f.0)
                          (Others-map (Apart e) (Unnamed name) i v.table
                            (λ b a u p. (a u).0 (f.2 ∙ sym p)) here.1)
                          f.1 f.2,
                    ),
                    λ n ne.
                        other-find_from 0 i v.table e new n f.0 (λ u p. ne (sym p ∙ f.2))
                          (λ u p. ne (sym p ∙ f.2)),
                  ))
        ])
      ]

  -- The last part of `fs_rename_locked`, on an entry that is there.
  renamed :
      (old new : List ℕ) (v : Volume) (i : ℕ) (e : Entry)
      → IsVolume v
      → find v.table old ≡ some (i, e)
      → name_ok new ≡ true
      → After (Renamed old new v) (
          if same old new
          then (done, v)
          else if is_some (find v.table new) || leb v.name_cap (length new)
          then (refused, v)
          else finish m i refused (with_entry i (record e { name = take (name_len - 1) new }) v))
  renamed old new v i e w hit good =
      let f = found v.table old i e hit in
      let here = entry_of v.first volume_end i v.table w.valid f.0 f.1 in
      elim (Bool-cases (same old new)) [
        | inl eq ↦
            let p : old ≡ new = eq_of_same old new eq in
            rw eq (
              w,
              (
                (
                  i,
                  e,
                  hit,
                  subst (λ n. find v.table n ≡ some (i, record e { name = n })) p
                      (hit ∙ ap (λ n. some (i, record e { name = n })) f.2),
                ),
                (λ n x y. refl),
                λ ne. absurd (ne p),
              ),
            )
        | inr differ ↦
            let ne : old ≢ new =
              λ p. ground (arith, subst (λ n. same old n ≡ true) p (same_refl old)) in
            rw differ
              (elim (Bool-cases (is_some (find v.table new) || leb v.name_cap (length new))) [
                | inl taken ↦ rw taken w
                | inr free ↦
                    let short : take (name_len - 1) new ≡ new =
                      take_all (name_len - 1) new (ground arith) in
                    let entry = record e { name = new } in
                    let unnamed = not_found v.table new (is_none (find v.table new) _ free) in
                    rw (free, short)
                      (finish-After (Renamed old new v) i refused (with_entry i entry v) (λ x y. y)
                        (with_entry-IsVolume i entry v w (λ u. (
                          (
                            here.0.0,
                            ground arith,
                            (λ l. absurd (ground arith)),
                            here.0.3,
                            here.0.4,
                          ),
                          Others-both i v.table (λ b a x y. ((λ p. x y (sym p)), (a y).1)) here.1
                              (All-Others (Unnamed new) i v.table unnamed),
                        )))
                        (
                          (
                            i,
                            e,
                            hit,
                            only-find i v.table entry new (get_elem?-lt v.table i f.0)
                                (All-Others (Unnamed new) i v.table unnamed) f.1 refl,
                          ),
                          (λ n x y.
                              other-find_from 0 i v.table e entry n f.0 (λ u p. x (sym p ∙ f.2))
                                (λ u p. y (sym p))),
                          λ z. find_nothing 0 (set v.table i entry) old (
                              All-replaced (Unnamed old) i entry v.table (λ u p. ne (sym p))
                                (Others-map (Apart e) (Unnamed old) i v.table
                                  (λ b a u p. (a u).0 (f.2 ∙ sym p)) here.1)),
                        ))
              ])
      ]

  -- `fs_rename` leaves a valid table; if it answers 0, the new name is the old name's entry at the
  -- old one's place in the table, the old name is gone unless it is the same, and all other names
  -- are found as before.
  pub rename-After :
      (old new : List ℕ) (v : Volume)
      → IsVolume v
      → After (Renamed old new (m.ensure v).1) (rename m old new v)
  unfolding rename
  rename-After old new v0 w0 =
      let v = (m.ensure v0).1 in
      let w = sound.ensured v0 w0 in
      elim (Bool-cases (name_ok new)) [
        | inr bad ↦ rw bad w0
        | inl good ↦ elim (Bool-cases (m.ensure v0).0) [
          | inr down ↦ rw (good, down) w
          | inl up ↦
              rw (good, up)
                (elim (Option-cases (find v.table old)) [
                  | inl miss ↦ rw miss w
                  | inr ((i, e), hit) ↦ rw hit (renamed old new v i e w hit good)
                ])
        ]
      ]

  abbrev directory : ℕ → List ℕ → Entry
  directory now name = record {
    name = name;
    size = 0;
    mtime = now;
    start = 0;
    nsect = 0;
    used = 1;
    attr = attr_dir;
  }

  -- The last part of `fs_mkdir_locked`, with a free slot.
  made :
      (now : ℕ) (name : List ℕ) (v : Volume) (i : ℕ)
      → IsVolume v
      → slot_from 0 v.slots v.table ≡ some i
      → dirname_ok name ≡ true
      → find v.table name ≡ none
      → After
          (λ w.
            (find v.table name ≡ none)
            × ((i : ℕ) × (e : Entry) × (find w.table name ≡ some (i, e)) × (is_dir e ≡ true))
            × Same name v w)
          (finish m i refused (with_entry i (directory now (take (name_len - 1) name)) v))
  made now name v i w hit good absent =
      let slot = slot_free 0 v.slots v.table i hit in
      let i' : i ≡ slot.0 = omega (arith, slot.2) in
      let at = subst (λ j. get_elem? v.table j ≡ some slot.1) (sym i') slot.3 in
      let len = dirname_ok-short name good in
      let short : take (name_len - 1) name ≡ name = take_all (name_len - 1) name (omega arith) in
      let entry = directory now name in
      let unnamed = All-Others (Unnamed name) i v.table (not_found v.table name absent) in
      rw short (
        finish-After _ i refused (with_entry i entry v) (λ x y. y)
          (with_entry-IsVolume i entry v w (λ u. (
            (refl, len.0, (λ l. absurd (omega arith)), (λ d. (refl, refl, refl)), (λ d. absurd cc)),
            Others-map (Unnamed name) (Apart entry) i v.table
                (λ b a u. ((λ p. a u (sym p)), λ s p q. absurd (omega arith))) unnamed,
          )))
          (
            absent,
            (
              i,
              entry,
              only-find i v.table entry name (get_elem?-lt v.table i at) unnamed refl refl,
              refl,
            ),
            λ n ne.
                other-find_from 0 i v.table slot.1 entry n at (λ u. absurd (ground (arith, slot.4)))
                  (λ u p. ne (sym p)),
          ))

  -- `fs_mkdir` leaves a valid table; if it answers 0, the name is a directory that was not there
  -- before, and all other names are found as before.
  pub mkdir-After :
      (now : ℕ) (name : List ℕ) (v : Volume)
      → IsVolume v
      → After
          (λ w.
            (find (m.ensure v).1.table name ≡ none)
            × ((i : ℕ) × (e : Entry) × (find w.table name ≡ some (i, e)) × (is_dir e ≡ true))
            × Same name (m.ensure v).1 w)
          (mkdir m now name v)
  unfolding mkdir
  mkdir-After now name v0 w0 =
      let v = (m.ensure v0).1 in
      let w = sound.ensured v0 w0 in
      elim (Bool-cases (dirname_ok name)) [
        | inr bad ↦ rw bad w0
        | inl good ↦ elim (Bool-cases (m.ensure v0).0) [
          | inr down ↦ rw (good, down) w
          | inl up ↦
              rw (good, up)
                (elim (Bool-cases
                  (leb v.name_cap (length name + 2) || is_some (find v.table name))) [
                    | inl taken ↦ rw taken w
                    | inr free ↦ rw free (elim (Option-cases (slot_from 0 v.slots v.table)) [
                      | inl full ↦ rw full w
                      | inr (i, hit) ↦ rw hit (made now name v i w hit good (ground arith))
                    ])
                  ])
        ]
      ]
