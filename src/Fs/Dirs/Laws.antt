-- ===== src/Fs/Dirs/Laws.antt =====
-- Renaming a directory keeps a volume valid.
use flopnix.Base.{
  ℕ, suc, ◌+◌, ◌≡◌, ◌≢◌, ◌⊎◌, refl, subst, sym, ap, ◌∙◌, true, ◌||◌, not, inl, inr, List, [], ◌∷◌,
  map, leb, ◌==◌, arith, Bool-cases, is_some, All, length,
}
use flopnix.Util.Strings.{same}
use flopnix.Fs.Entry.{Entry, find, in_use, volume_end}
use flopnix.Fs.Path.{under, dirname_ok, dirname_ok-short}
use flopnix.Fs.Check.Laws.{IsEntry, Distinct, IsTable}
use flopnix.Fs.Volume.{Volume, IsVolume, Status, Medium, IsMedium}
use flopnix.Fs.Volume.Table.{not_found}
use flopnix.Fs.Dirs.{any_under, rename_entry, rename_all, after_scan, rename_dir}
use flopnix.Fs.Dirs.Names.{Moves, Moves-injective, new_name-else}
use flopnix.Fs.Dirs.Scan.{is_none, moving, next, Fresh, scan_names-Fresh}

module _ (olddir newdir : List ℕ) where
  -- Of two used entries with distinct names, the new names are distinct.
  names_apart :
      (e b : Entry)
      → in_use e ≡ true
      → in_use b ≡ true
      → e.name ≢ b.name
      → Fresh olddir newdir (b ∷ []) e
      → Fresh olddir newdir (e ∷ []) b
      → next olddir newdir e ≢ next olddir newdir b
  names_apart e b u w ne f g same_next = elim (Bool-cases (moving olddir newdir e)) [
    | inl me ↦ elim (Bool-cases (moving olddir newdir b)) [
      | inl mb ↦ ne (
          Moves-injective olddir newdir e.name b.name (next olddir newdir b)
            (subst (Moves olddir newdir e.name) same_next (f u me).0) (g w mb).0)
      | inr kb ↦ (f u me).3.0 w (sym (new_name-else olddir newdir b.name kb) ∙ sym same_next)
    ]
    | inr ke ↦ elim (Bool-cases (moving olddir newdir b)) [
      | inl mb ↦ (g w mb).3.0 u (sym (new_name-else olddir newdir e.name ke) ∙ same_next)
      | inr kb ↦ ne (
          sym (new_name-else olddir newdir e.name ke)
          ∙ same_next
          ∙ new_name-else olddir newdir b.name kb)
    ]
  ]

  -- A used entry with its new name.
  named : Entry → Entry
  named e = record e { name = next olddir newdir e }

  used_named : (e : Entry) → in_use e ≡ true → rename_entry olddir newdir e ≡ named e
  unfolding named
  used_named e u = rw u refl

  used_before : (e : Entry) → in_use (rename_entry olddir newdir e) ≡ true → in_use e ≡ true
  used_before e h = elim (Bool-cases (in_use e)) [ inl u ↦ u | inr free ↦ rw free at h ]

  named-IsEntry :
      (first end : ℕ) (table : List Entry) (e : Entry)
      → in_use e ≡ true
      → Fresh olddir newdir table e
      → IsEntry first end e
      → IsEntry first end (named e)
  unfolding named
  named-IsEntry first end table e u f v = elim (Bool-cases (moving olddir newdir e)) [
    | inl me ↦ (v.0, (f u me).1, λ e. omega (arith, e, (f u me).2), v.3, v.4)
    | inr ke ↦ rw (new_name-else olddir newdir e.name ke) v
  ]

  named-Distinct :
      (e b : Entry)
      → in_use e ≡ true
      → in_use b ≡ true
      → Distinct e b
      → Fresh olddir newdir (b ∷ []) e
      → Fresh olddir newdir (e ∷ []) b
      → Distinct (named e) (named b)
  unfolding named
  named-Distinct e b u w d f g = (names_apart e b u w d.0 f g, d.1)

  only :
      (x : Entry) (xs : List Entry) (e : Entry)
      → Fresh olddir newdir (x ∷ xs) e
      → Fresh olddir newdir (x ∷ []) e
  only x xs e f = λ u m. ((f u m).0, (f u m).1, (f u m).2, ((f u m).3.0, tt))

  narrow :
      (x : Entry) (xs : List Entry) (e : Entry)
      → Fresh olddir newdir (x ∷ xs) e
      → Fresh olddir newdir xs e
  narrow x xs e f = λ u m. ((f u m).0, (f u m).1, (f u m).2, (f u m).3.1)

  All-only :
      (x : Entry) (xs es : List Entry)
      → All (Fresh olddir newdir (x ∷ xs)) es
      → All (Fresh olddir newdir (x ∷ [])) es
  All-only x xs [] a = tt
  All-only x xs (e ∷ es) a = (only x xs e a.0, All-only x xs es a.1)

  All-narrow :
      (x : Entry) (xs es : List Entry)
      → All (Fresh olddir newdir (x ∷ xs)) es
      → All (Fresh olddir newdir xs) es
  All-narrow x xs [] a = tt
  All-narrow x xs (e ∷ es) a = (narrow x xs e a.0, All-narrow x xs es a.1)

  beside :
      (e : Entry) (es : List Entry)
      → in_use e ≡ true
      → Fresh olddir newdir es e
      → All (λ b. in_use b ≡ true → Distinct e b) es
      → All (Fresh olddir newdir (e ∷ [])) es
      → All (λ b. in_use b ≡ true → Distinct (named e) b) (map (rename_entry olddir newdir) es)
  beside e [] u f d g = tt
  beside e (b ∷ bs) u f d g = (
    λ w'.
        let w = used_before b w' in
        subst (Distinct (named e)) (sym (used_named b w))
          (named-Distinct e b u w (d.0 w) (only b bs e f) g.0),
    beside e bs u (narrow b bs e f) d.1 g.1,
  )

  renamed-IsTable :
      (first end : ℕ) (es : List Entry)
      → IsTable first end es
      → All (Fresh olddir newdir es) es
      → IsTable first end (map (rename_entry olddir newdir) es)
  renamed-IsTable first end [] t a = tt
  renamed-IsTable first end (e ∷ es) t a = (
    λ u'.
        let u = used_before e u' in
        subst
          (λ x.
            IsEntry first end x
            × All (λ b. in_use b ≡ true → Distinct x b) (map (rename_entry olddir newdir) es))
          (sym (used_named e u))
          (
            named-IsEntry first end (e ∷ es) e u a.0 (t.0 u).0,
            beside e es u (narrow e es e a.0) (t.0 u).1 (All-only e es es a.1),
          ),
    renamed-IsTable first end es t.1 (All-narrow e es es a.1),
  )

  length-renamed : (es : List Entry) → length (map (rename_entry olddir newdir) es) ≡ length es
  length-renamed [] = refl
  length-renamed (e ∷ es) = ap suc (length-renamed es)

  renamed-IsVolume :
      (v : Volume)
      → IsVolume v
      → All (Fresh olddir newdir v.table) v.table
      → IsVolume (record v { table = map (rename_entry olddir newdir) v.table })
  renamed-IsVolume v w a = record {
    valid = renamed-IsTable v.first volume_end v.table w.valid a;
    bad_valid = w.bad_valid;
    slots_le = omega (arith, w.slots_le, length-renamed v.table);
    name_le = w.name_le;
    first_pos = w.first_pos;
  }

after_scan-keeps :
    (P : Volume → Type 0) (m : Medium) (olddir newdir : List ℕ) (v : Volume) (scan : Status ⊎ ℕ)
    → P v
    → ((hits : ℕ) → scan ≡ inr hits → P (rename_all m olddir newdir v).1)
    → P (after_scan m olddir newdir v scan).1
unfolding after_scan
after_scan-keeps P m olddir newdir v (inl status) p all = p
after_scan-keeps P m olddir newdir v (inr hits) p all = elim (Bool-cases (hits == 0)) [
  | inl zero ↦ rw zero p
  | inr some_hits ↦ rw some_hits (all hits refl)
]

-- `fs_rename_dir` keeps a volume valid, whatever its answer: with the new names, each of a directory
-- and of all that is under it, every name is short enough and no two used entries have the same one.
pub rename_dir-IsVolume :
    (m : Medium) (olddir newdir : List ℕ) (v : Volume)
    → IsMedium m
    → IsVolume v
    → IsVolume (rename_dir m olddir newdir v).1
unfolding rename_dir
rename_dir-IsVolume m olddir newdir v0 sound w0 =
    let v = (m.ensure v0).1 in
    let w = sound.ensured v0 w0 in
    elim (Bool-cases (not (dirname_ok newdir) || under newdir olddir)) [
      | inl bad ↦ rw bad w0
      | inr good ↦ elim (Bool-cases (not (m.ensure v0).0 || leb v.name_cap (length newdir + 2))) [
        | inl down ↦ rw (good, down) w
        | inr up ↦ elim (Bool-cases (same olddir newdir)) [
          | inl same_name ↦ rw (good, up, same_name) w
          | inr other ↦
              elim (Bool-cases (is_some (find v.table newdir) || any_under newdir v.table)) [
                | inl taken ↦ rw (good, up, other, taken) w
                | inr free ↦
                    let short = dirname_ok-short newdir (ground (arith, good)) in
                    let new = is_none (find v.table newdir) (ground (arith, free)) in
                    rw (good, up, other, free)
                      (after_scan-keeps IsVolume m olddir newdir v _ w (λ hits s.
                        sound.committed _ _ (
                          renamed-IsVolume olddir newdir v w (
                            scan_names-Fresh olddir newdir v.name_cap v.table 0 hits v.table
                              w.name_le short.0 short.1 (not_found v.table newdir new) s))))
              ]
        ]
      ]
    ]
