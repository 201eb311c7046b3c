-- ===== src/Fs/Write/Stored.antt =====
-- `fs_write_locked` as a whole: what each of its answers promises.
use flopnix.Base.{
  ℕ, zero, suc, ◌-◌, ◌*◌, ◌<◌, ◌≡◌, ◌≢◌, refl, sym, ap, ◌∙◌, subst, Bool, true, false, ◌||◌, not,
  Option, none, some, List, inl, inr, ltb, leb, ◌==◌, if◌then◌else◌, arith, Bool-cases,
  Option-cases, length,
}
use flopnix.Fs.Drive.{Drive, IsDrive, run}
use flopnix.Fs.Drive.Laws.{run_same}
use flopnix.Fs.Entry.{Entry, find, in_use, is_dir, name_len, volume_end}
use flopnix.Fs.Path.{name_ok}
use flopnix.Fs.Probe.{probe}
use flopnix.Fs.Probe.Laws.{probe-Probed}
use flopnix.Fs.Volume.{Volume, IsVolume, with_entry, entry_sectors}
use flopnix.Fs.Volume.Laws.{with_entry-IsVolume}
use flopnix.Fs.Volume.Table.{Apart, Others-map, Unnamed, only-find, other-find_from}
use flopnix.Fs.Write.{
  Written, stored, failed, no_room, is_directory, sectors_for, blocks_of, place_file, put_file,
  write_placed, write_pass, write_passes, write,
}
use flopnix.Fs.Write.Laws.{put_file-Put}
use flopnix.Fs.Write.Place.{IsPlace, place_file-IsPlaced, some-eq, Elsewhere, Elsewhere-Away}
use flopnix.Fs.Write.Restored.{Restored, Restored-Listed, undone, get_elem?-at}

module _ (d : Drive) where
  -- The sectors of all other files hold what they held.
  abbrev pub Kept : List ℕ → Volume → d.State → d.State → Type 0
  Kept name v s t = (j : ℕ) → Elsewhere v name j → d.content t j ≡ d.content s j

  -- The name has an entry of that size, whose sectors hold the bytes, and the other names are found
  -- as before.
  abbrev pub Holds : List ℕ → List ℕ → Volume → Volume → d.State → Type 0
  Holds name bytes v u t =
      ((i : ℕ) × (e : Entry) × (find u.table name ≡ some (i, e))
        × (e.size ≡ length bytes)
        × (is_dir e ≡ false)
        × (run (d.content t) e.start (sectors_for (length bytes)) ≡ blocks_of bytes))
      × ((n : List ℕ) → n ≢ name → find u.table n ≡ find v.table n)

  -- By the answer: after 0 the file is there, and after -2 and -3 every name is found as before.
  abbrev pub Says : List ℕ → List ℕ → Volume → Written → Volume → d.State → Type 0
  Says name bytes v stored u t = Holds name bytes v u t
  Says name bytes v failed u t = Unit {0}
  Says name bytes v no_room u t = (n : List ℕ) → find u.table n ≡ find v.table n
  Says name bytes v is_directory u t = (n : List ℕ) → find u.table n ≡ find v.table n

  abbrev pub Outcome : List ℕ → List ℕ → Volume → d.State → Written × Volume × d.State → Type 0
  Outcome name bytes v s (answer, u, t) =
      Kept name v s t × IsVolume u × Says name bytes v answer u t

  -- The same after a pass, which may also leave the volume for another one.
  abbrev Passed :
      List ℕ → List ℕ → Volume → d.State → Option Written × ℕ × Volume × d.State → Type 0
  Passed name bytes v s (some answer, k, u, t) = Outcome name bytes v s (answer, u, t)
  Passed name bytes v s (none, k, u, t) = Kept name v s t × Restored name v u

  module _ (sound : IsDrive d) (now : ℕ) (name bytes : List ℕ) (short : 0 < length name)
      (long : length name < name_len) where
    placed_entry :
        (v : Volume) (i : ℕ) (e : Entry)
        → IsVolume v
        → IsPlace v name (sectors_for (length bytes)) i e
        → IsVolume (with_entry i (record e { size = length bytes; mtime = now }) v)
    placed_entry v i e w p =
        let first = p.from_first in
        let end = p.to_end in
        let room = p.enough in
        let pos = w.first_pos in
        with_entry-IsVolume i (record e { size = length bytes; mtime = now }) v w
          (λ u. (
            (
              p.used_one,
              subst (λ n. 0 < length n) (sym p.named) short,
              (λ l. absurd (let q = ap length p.named in omega arith)),
              (λ dir. absurd (let q = p.is_file in cc)),
              (λ file. (first, ground arith, end, ground arith)),
            ),
            p.others,
          ))

    found_after :
        (v u : Volume) (t : d.State) (i : ℕ) (e : Entry)
        → IsPlace v name (sectors_for (length bytes)) i e
        → run (d.content t) e.start (sectors_for (length bytes)) ≡ blocks_of bytes
        → u ≡ with_entry i (record e { size = length bytes; mtime = now }) v
        → Holds name bytes v u t
    found_after v u t i e p there is =
        let new = record e { size = length bytes; mtime = now } in
        let used : in_use e ≡ true = let q = p.used_one in ground arith in
        let at = get_elem?-at v.table i p.index_lt in
        let unnamed =
          Others-map (Apart e) (Unnamed name) i v.table (λ b a x q. (a x).0 (p.named ∙ sym q))
            p.others in
        (
          (
            i,
            new,
            ap (λ y. find y.table name) is
                ∙ only-find i v.table new name p.index_lt unnamed used p.named,
            refl,
            p.is_file,
            there,
          ),
          λ n ne.
              ap (λ y. find y.table n) is
              ∙ other-find_from 0 i v.table at.0 new n at.1 (λ x q. ne (sym q ∙ p.held at.0 at.1 x))
                  (λ x q. ne (sym q ∙ p.named)),
        )

    commit_Passed :
        (v : Volume) (s t : d.State) (i : ℕ) (e : Entry)
        → IsVolume v
        → IsPlace v name (sectors_for (length bytes)) i e
        → run (d.content t) e.start (sectors_for (length bytes)) ≡ blocks_of bytes
        → Kept name v s t
        → let w = with_entry i (record e { size = length bytes; mtime = now }) v in
          let c = d.commit (entry_sectors w.slots i) w t in
          Outcome name bytes v s ((if c.0.0 then stored else failed), c.0.1, c.1)
    commit_Passed v s t i e w p there kept =
        let new = with_entry i (record e { size = length bytes; mtime = now }) v in
        let sectors = entry_sectors new.slots i in
        let c = d.commit sectors new t in
        let valid = placed_entry v i e w p in
        let m = sound.medium t in
        let after : Kept name v s c.1 = λ j h.
          let a = Elsewhere-Away v name (sectors_for (length bytes)) i j e w p h in
          sound.commit_keeps sectors new t j a.0 ∙ kept j h in
        elim (Bool-cases c.0.0) [
          | inr lost ↦ rw lost (after, m.committed sectors new valid, tt)
          | inl done ↦
              let same = m.kept sectors new done in
              let first = p.from_first in
              let still =
                run_same (d.content c.1) (d.content t) e.start (sectors_for (length bytes))
                  (λ j lo hi. sound.commit_keeps sectors new t j (omega arith)) in
              rw done (
                after,
                m.committed sectors new valid,
                found_after v c.0.1 c.1 i e p (still ∙ there) same,
              )
        ]

    write_placed-Passed :
        (v : Volume) (s : d.State) (i : ℕ) (e : Entry)
        → IsVolume v
        → IsPlace v name (sectors_for (length bytes)) i e
        → (old : Option (ℕ × Entry)) → find v.table name ≡ old
        → Passed name bytes v s (write_placed d now bytes old i e v s)
    unfolding write_placed
    write_placed-Passed v s i e w p old is =
        let n = sectors_for (length bytes) in
        let new = record e { size = length bytes; mtime = now } in
        let put = put_file d e.start bytes (with_entry i new v) s in
        let did = put_file-Put d sound e.start bytes (with_entry i new v) s in
        let kept : Kept name v s put.1 = λ j h. did.1 j (Elsewhere-Away v name n i j e w p h).1 in
        let back : Volume = elim old [
          | none ↦ with_entry i (record new { used = 0 }) (with_entry i new v)
          | some (j, saved) ↦ with_entry i saved (with_entry i new v)
        ] in
        let r = undone name v n i e new w p old is in
        let tried = probe-Probed d sound e.start n (some (blocks_of bytes)) back put.1 r.0 in
        elim (Bool-cases put.0) [
          | inl ok ↦
              let c = d.commit (entry_sectors v.slots i) (with_entry i new v) put.1 in
              let is : write_placed d now bytes old i e v s
                  ≡ (some (if c.0.0 then stored else failed), 0, c.0.1, c.1) =
                rw (ok, write_placed) refl in
              subst (Passed name bytes v s) (sym is)
                (commit_Passed v s put.1 i e w p (did.0 ok) kept)
          | inr bad ↦
              let q = probe d e.start n (some (blocks_of bytes)) back put.1 in
              let is : write_placed d now bytes old i e v s ≡ (none, q.0, q.1, q.2) =
                rw (bad, write_placed) refl in
              subst (Passed name bytes v s) (sym is) (
                (λ j h.
                    let a = Elsewhere-Away v name n i j e w p h in
                    tried.1 j (omega (arith, a.0, r.1)) a.1 ∙ kept j h),
                Restored-Listed name v back _ r tried.0,
              )
        ]

    write_pass-Passed :
        (fresh : Bool) (v : Volume) (s : d.State)
        → IsVolume v
        → Passed name bytes v s (write_pass d now fresh name bytes v s)
    unfolding write_pass
    write_pass-Passed fresh v s w =
        let nothing : (answer : Written) → ((n : List ℕ) → find v.table n ≡ find v.table n) =
          λ a n. refl in
        elim (Bool-cases
          (elim (find v.table name) as (λ x. Bool) [ none ↦ false | some (i, e) ↦ is_dir e ])) [
            | inl dir ↦ rw dir ((λ j h. refl), w, λ n. refl)
            | inr file ↦
                let placed =
                  place_file-IsPlaced v w name (sectors_for (length bytes)) fresh long file in
                elim (Option-cases (place_file (sectors_for (length bytes)) fresh name v)) [
                  | inl full ↦ rw file (rw full ((λ j h. refl), w, λ n. refl))
                  | inr ((i, e), got) ↦
                      let p : IsPlace v name (sectors_for (length bytes)) i e = rw got at placed in
                      rw file (rw got (write_placed-Passed v s i e w p (find v.table name) refl))
                ]
          ]

    -- After a pass that has left everything as it was, what the rest promises is promised from the
    -- start.
    Outcome-Restored :
        (v u : Volume) (s t : d.State) (r : Written × Volume × d.State)
        → Kept name v s t
        → Restored name v u
        → Outcome name bytes u t r
        → Outcome name bytes v s r
    Outcome-Restored v u s t (stored, x, y) kept back o =
        ((λ j h. o.0 j (back.3 j h) ∙ kept j h), o.1, (o.2.0, λ n ne. o.2.1 n ne ∙ back.2 n))
    Outcome-Restored v u s t (failed, x, y) kept back o =
        ((λ j h. o.0 j (back.3 j h) ∙ kept j h), o.1, tt)
    Outcome-Restored v u s t (no_room, x, y) kept back o =
        ((λ j h. o.0 j (back.3 j h) ∙ kept j h), o.1, λ n. o.2 n ∙ back.2 n)
    Outcome-Restored v u s t (is_directory, x, y) kept back o =
        ((λ j h. o.0 j (back.3 j h) ∙ kept j h), o.1, λ n. o.2 n ∙ back.2 n)

    Passed-none :
        (v : Volume) (s : d.State) (r : Option Written × ℕ × Volume × d.State)
        → r.0 ≡ none
        → Passed name bytes v s r
        → Kept name v s r.3 × Restored name v r.2
    Passed-none v s (none, k, u, t) e p = p
    Passed-none v s (some answer, k, u, t) e p = absurd cc

    Passed-some :
        (v : Volume) (s : d.State) (r : Option Written × ℕ × Volume × d.State) (answer : Written)
        → r.0 ≡ some answer
        → Passed name bytes v s r
        → Outcome name bytes v s (answer, r.2, r.3)
    Passed-some v s (none, k, u, t) answer e p = absurd cc
    Passed-some v s (some a, k, u, t) answer e p =
        subst (λ x. Outcome name bytes v s (x, u, t)) (some-eq e) p

    write_passes-Outcome :
        (left : ℕ) (fresh : Bool) (v : Volume) (s : d.State)
        → IsVolume v
        → Outcome name bytes v s (write_passes d left now fresh name bytes v s)
    unfolding write_passes
    write_passes-Outcome zero fresh v s w =
        let r = write_pass d now fresh name bytes v s in
        let p = write_pass-Passed fresh v s w in
        elim (Option-cases r.0) [
          | inl over ↦ let q = Passed-none v s r over p in rw (over, write_passes) (q.0, q.1.0, tt)
          | inr (answer, said) ↦ rw (said, write_passes) (Passed-some v s r answer said p)
        ]
    write_passes-Outcome (suc left) fresh v s w =
        let r = write_pass d now fresh name bytes v s in
        let p = write_pass-Passed fresh v s w in
        elim (Option-cases r.0) [
          | inr (answer, said) ↦ rw (said, write_passes) (Passed-some v s r answer said p)
          | inl over ↦
              let q = Passed-none v s r over p in
              elim (Bool-cases (r.1 == 0)) [
                | inl clean ↦ rw (over, write_passes) (rw (clean, write_passes) (q.0, q.1.0, tt))
                | inr marked ↦
                    rw (over, write_passes)
                      (rw (marked, write_passes)
                        (Outcome-Restored v r.2 s r.3 _ q.0 q.1
                          (write_passes-Outcome left true r.2 r.3 q.1.0)))
              ]
        ]

-- `fs_write` on a drive that may fail at any time leaves a valid volume, and the sectors of all other
-- files hold what they held. If it answers 0, the name has an entry of the size that was written,
-- the sectors from its start hold the bytes, filled up with 0, and all other names are found as
-- before; if it answers -2 or -3, every name is found as before.
pub write-Outcome :
    (d : Drive) (now : ℕ) (fresh : Bool) (name bytes : List ℕ) (v : Volume) (s : d.State)
    → IsDrive d
    → IsVolume v
    → Outcome d name bytes (d.ensure v s).0.1 s (write d now fresh name bytes v s)
unfolding write
write-Outcome d now fresh name bytes v0 s0 sound w0 =
    let m = d.ensure v0 s0 in
    let v = m.0.1 in
    let w = (sound.medium s0).ensured v0 w0 in
    let same : (j : ℕ) → d.content m.1 j ≡ d.content s0 j = sound.ensure_keeps v0 s0 in
    elim (Bool-cases (name_ok name)) [
      | inr bad ↦ rw (bad, write) ((λ j h. refl), w0, tt)
      | inl good ↦ elim (Bool-cases (not m.0.0 || leb v.name_cap (length name))) [
        | inl down ↦ rw (good, write) (rw (down, write) ((λ j h. same j), w, tt))
        | inr up ↦ elim (Bool-cases (ltb ((volume_end - v.first) * 512) (length bytes))) [
          | inl large ↦
              rw (good, write) (rw (up, write) (rw (large, write) ((λ j h. same j), w, λ n. refl)))
          | inr fits ↦
              let r =
                write_passes-Outcome d sound now name bytes (ground arith) (ground arith) 7 fresh v
                  m.1 w in
              let is : write d now fresh name bytes v0 s0
                  ≡ write_passes d 7 now fresh name bytes v m.1 =
                rw (good, write) (rw (up, write) (rw (fits, write) refl)) in
              subst (Outcome d name bytes v s0) (sym is) ((λ j h. r.0 j h ∙ same j), r.1, r.2)
        ]
      ]
    ]
