-- ===== src/Fs/Probe/Laws.antt =====
-- Probing writes no sector but those that it probes, and leaves the table alone.
use flopnix.Base.{
  ℕ, zero, suc, ◌+◌, ◌-◌, ◌%◌, ◌≤◌, ◌≡◌, refl, ap, ◌∙◌, ◌||◌, not, Option, none, some, List, [],
  ◌∷◌, inl, inr, ltb, leb, if◌then◌else◌, arith, Bool-cases, get_or,
}
use flopnix.Fs.Bad.{add}
use flopnix.Fs.Drive.{SectorBytes, Drive, IsDrive}
use flopnix.Fs.Drive
use flopnix.Fs.Drive.Laws.{Away, Away-part}
use flopnix.Fs.Entry.{volume_end}
use flopnix.Fs.Marks.{with_bad, bad_mark-with_bad, Added-cases}
use flopnix.Fs.Probe.{track_sectors, medium_error, mark_bad, fails, probe_from, probe}
use flopnix.Fs.Volume.{Volume, IsVolume}

-- A volume that differs only in the list of bad sectors.
abbrev pub Listed : Volume → Volume → Type 0
Listed v w = IsVolume w × ((bad : List ℕ) × (w ≡ with_bad bad v))

module _ (d : Drive) (sound : IsDrive d) where
  -- Marking a sector writes no sector of the data area.
  mark_bad-Listed :
      (lba : ℕ) (v : Volume) (s : d.State)
      → IsVolume v
      → Listed v (mark_bad d lba v s).1
        × ((j : ℕ) → v.first ≤ j → d.content (mark_bad d lba v s).2 j ≡ d.content s j)
  unfolding mark_bad
  mark_bad-Listed lba v s w =
      let m = bad_mark-with_bad (Drive.answers d s) lba v w in
      (
        m,
        λ j h. elim (Bool-cases (ltb lba v.first || leb volume_end lba)) [
          | inl outside ↦ rw outside refl
          | inr inside ↦ elim (Added-cases (add v.bad lba).0) [
            | inr (inl old) ↦ rw inside (rw old refl)
            | inr (inr full) ↦ rw inside (rw full refl)
            | inl new ↦ rw inside (rw new (sound.flush_keeps (with_bad (add v.bad lba).1 v) s j h))
          ]
        ],
      )

  fails_keeps :
      (at k : ℕ) (blocks : Option (List SectorBytes)) (s : d.State) (j : ℕ)
      → Away at 1 j
      → d.content (fails d at k blocks s).1 j ≡ d.content s j
  unfolding fails
  fails_keeps at k none s j a = sound.read_keeps at 1 s j
  fails_keeps at k (some bs) s j a =
      let b = get_or bs k [] ∷ [] in
      let w = sound.write_elsewhere at b s j a in
      elim (Bool-cases (d.write_many at b s).0) [
        | inl ok ↦ rw ok (sound.verify_keeps at b (d.write_many at b s).1 j ∙ w)
        | inr bad ↦ rw bad w
      ]

  -- After some probing of sectors from `start` on, `n` of them.
  abbrev pub Probed : ℕ → ℕ → Volume → d.State → ℕ × Volume × d.State → Type 0
  Probed start n v s r =
      Listed v r.1 × ((j : ℕ) → v.first ≤ j → Away start n j → d.content r.2 j ≡ d.content s j)

  probe_from-Probed :
      (left at k : ℕ) (blocks : Option (List SectorBytes)) (v : Volume) (s : d.State) (marked : ℕ)
      → IsVolume v
      → Probed at left v s (probe_from d left at k blocks v s marked)
  unfolding probe_from
  probe_from-Probed zero at k blocks v s marked w = ((w, (v.bad, refl)), λ j h a. refl)
  probe_from-Probed (suc left) at k blocks v s marked w =
      elim (Bool-cases (fails d at k blocks s).0) [
        | inl bad ↦
            let f = (fails d at k blocks s).1 in
            let m = mark_bad-Listed at v f w in
            let ih =
              probe_from-Probed left (at + 1) (k + 1) blocks (mark_bad d at v f).1
                (mark_bad d at v f).2 _ m.0.0 in
            let first : (mark_bad d at v f).1.first ≡ v.first = ap (λ x. x.first) m.0.1.1 in
            rw (bad, probe_from)
              (
                (ih.0.0, (ih.0.1.0, ih.0.1.1 ∙ ap (with_bad ih.0.1.0) m.0.1.1)),
                λ j h a.
                    ih.1 j (omega (arith, first))
                      (Away-part at (suc left) (at + 1) left j (omega arith) (omega arith) a)
                    ∙ m.1 j h
                    ∙ fails_keeps at k blocks s j
                        (Away-part at (suc left) at 1 j (omega arith) (omega arith) a),
              )
        | inr fine ↦
            let f = (fails d at k blocks s).1 in
            let ih = probe_from-Probed left (at + 1) (k + 1) blocks v f marked w in
            rw (fine, probe_from)
              (
                ih.0,
                λ j h a.
                    ih.1 j h (Away-part at (suc left) (at + 1) left j (omega arith) (omega arith) a)
                    ∙ fails_keeps at k blocks s j
                        (Away-part at (suc left) at 1 j (omega arith) (omega arith) a),
              )
      ]

  -- `fs_probe` changes no more of the volume than its list of bad sectors, which stays sound, and
  -- writes to no sector of the data area but the `count` sectors from `start`.
  pub probe-Probed :
      (start count : ℕ) (blocks : Option (List SectorBytes)) (v : Volume) (s : d.State)
      → IsVolume v
      → Probed start count v s (probe d start count blocks v s)
  unfolding probe
  probe-Probed start count blocks v s w =
      let r = d.result s in
      let next = r.lba + track_sectors - r.lba % track_sectors in
      let hi = if ltb (start + count) next then start + count else next in
      let nothing : Probed start count v s (0, v, s) = ((w, (v.bad, refl)), λ j h a. refl) in
      elim (Bool-cases (not (medium_error r))) [
        | inl clean ↦ rw clean nothing
        | inr error ↦ elim (Bool-cases (ltb r.lba start || leb count (r.lba - start))) [
          | inl outside ↦ rw error (rw outside nothing)
          | inr inside ↦
              let p = probe_from-Probed (hi - r.lba) r.lba (r.lba - start) blocks v s 0 w in
              let lo : start ≤ r.lba = ground arith in
              let within : r.lba + (hi - r.lba) ≤ start + count = ground arith in
              rw error (
                rw inside
                  (p.0, λ j h a. p.1 j h (Away-part start count r.lba (hi - r.lba) j lo within a)))
        ]
      ]
