-- ===== src/Fs/Move/Laws.antt =====
-- `fsd_move` never loses data silently: each outcome says where the file's sectors are.
use flopnix.Base.{
  ℕ, zero, suc, ◌+◌, ◌-◌, ◌%◌, ◌^◌, ◌≤◌, ◌<◌, ◌≡◌, ◌⊎◌, refl, inl, inr, Bool, true, false, ◌||◌,
  ltb, ◌==◌, if◌then◌else◌, arith, ◌∙◌, ap, Bool-cases, Option-cases,
}
use flopnix.Fs.Device.{Device}
use flopnix.Fs.Move.{
  Outcome, moved, intact, restored, torn, Copy, probe, copy, restore, to_restore, recover,
  check_source, move,
}

module _ (dev : Device) (src dst len : ℕ) (c0 : ℕ → dev.Data) where
  open dev use {State, Data, content, read, write}

  -- Outside the two areas the medium is as it was.
  abbrev Outside : State → Type 0
  Outside st = (j : ℕ) → (j < dst) ⊎ (src + len ≤ j) → content st j ≡ c0 j

  -- The first `at` sectors are copied; only sectors below `dst + hurt` may differ from before.
  abbrev Copied : ℕ → ℕ → State → Type 0
  Copied at hurt st =
      ((i : ℕ) → i < at → content st (dst + i) ≡ c0 (src + i))
      × ((j : ℕ) → (j < dst) ⊎ (dst + hurt ≤ j) → content st j ≡ c0 j)

  abbrev Stopped : Copy dev → Type 0
  Stopped c =
      (c.at ≤ len)
      × (c.at ≡ len → c.wfail ≡ false)
      × Copied c.at (if c.wfail then c.at + 1 else c.at) c.state

  Copied-read : (a at hurt : ℕ) (st : State) → Copied at hurt st → Copied at hurt (read a st).1
  Copied-read a at hurt st h =
      (λ i p. dev.read_keeps a st (dst + i) ∙ h.0 i p, λ j p. dev.read_keeps a st j ∙ h.1 j p)

  Copied-write :
      (s : ℕ) (v : Data) (st : State) → Copied s s st → Copied s (s + 1) (write (dst + s) v st).1
  Copied-write s v st h = (
    λ i p. dev.write_elsewhere (dst + s) v st (dst + i) (omega arith) ∙ h.0 i p,
    λ j p. dev.write_elsewhere (dst + s) v st j (ground arith) ∙ h.1 j (ground arith),
  )

  Copied-written :
      (s : ℕ) (v : Data) (st : State)
      → v ≡ c0 (src + s)
      → (write (dst + s) v st).0 ≡ true
      → Copied s s st
      → Copied (s + 1) (s + 1) (write (dst + s) v st).1
  Copied-written s v st e ok h =
      let rest = Copied-write s v st h in
      (
        λ i p. elim (Bool-cases (i == s)) [
          | inl here ↦ let e' : i ≡ s = ground arith in rw e' (dev.write_done (dst + s) v st ok ∙ e)
          | inr there ↦ rest.0 i (ground arith)
        ],
        rest.1,
      )

  copy-Stopped :
      (left s : ℕ) (st : State)
      → s + left ≡ len
      → dst < src
      → Copied s s st
      → Stopped (copy dev src dst left s st)
  unfolding copy
  copy-Stopped zero s st e d h = (omega arith, λ _. refl, h)
  copy-Stopped (suc left) s st e d h = elim (Option-cases (read (src + s) st).0) [
    | inl f ↦ rw (f, copy) (omega arith, λ _. refl, Copied-read (src + s) s s st h)
    | inr (v, g) ↦
        let at = (read (src + s) st).1 in
        let kept : Copied s s at = Copied-read (src + s) s s st h in
        let same : v ≡ c0 (src + s) =
          dev.read_gives (src + s) st v g ∙ h.1 (src + s) (inr (omega arith)) in
        elim (Bool-cases (write (dst + s) v at).0) [
          | inl ok ↦
              rw (g, copy)
                (rw (ok, copy)
                  (copy-Stopped left (s + 1) (write (dst + s) v at).1 (omega arith) d
                    (Copied-written s v at same ok kept)))
          | inr bad ↦
              rw (g, copy)
                (rw (bad, copy)
                  (omega arith, λ full. absurd (omega arith), Copied-write s v at kept))
        ]
  ]

  -- What each outcome says of the medium.
  abbrev pub Moves : Outcome × State → Type 0
  Moves (moved, st) = ((i : ℕ) → i < len → content st (dst + i) ≡ c0 (src + i)) × Outside st
  Moves (intact, st) = ((i : ℕ) → i < len → content st (src + i) ≡ c0 (src + i)) × Outside st
  Moves (restored, st) =
      ((i : ℕ) → i < len → content st (src + i) ≡ c0 (src + i)) × Outside st × (src < dst + len)
  Moves (torn, st) = Outside st × (src < dst + len)

  -- The way back has reached sector `k`: from there on the source is whole, and below it the copy.
  abbrev Restoring : ℕ → State → Type 0
  Restoring k st =
      ((i : ℕ) → k ≤ i → i < len → content st (src + i) ≡ c0 (src + i))
      × ((i : ℕ) → i < k → content st (dst + i) ≡ c0 (src + i))
      × Outside st

  Restoring-read : (a k : ℕ) (st : State) → Restoring k st → Restoring k (read a st).1
  Restoring-read a k st h = (
    λ i p q. dev.read_keeps a st (src + i) ∙ h.0 i p q,
    λ i p. dev.read_keeps a st (dst + i) ∙ h.1 i p,
    λ j p. dev.read_keeps a st j ∙ h.2 j p,
  )

  Outside-write :
      (k : ℕ) (v : Data) (st : State)
      → k < len
      → dst < src
      → Outside st
      → Outside (write (src + k) v st).1
  Outside-write k v st less d h = λ j p. dev.write_elsewhere (src + k) v st j (ground arith) ∙ h j p

  Restoring-written :
      (k : ℕ) (v : Data) (st : State)
      → k < len
      → dst < src
      → v ≡ c0 (src + k)
      → (write (src + k) v st).0 ≡ true
      → Restoring (suc k) st
      → Restoring k (write (src + k) v st).1
  Restoring-written k v st less d e ok h = (
    λ i p q. elim (Bool-cases (i == k)) [
      | inl here ↦ let e' : i ≡ k = ground arith in rw e' (dev.write_done (src + k) v st ok ∙ e)
      | inr there ↦
          dev.write_elsewhere (src + k) v st (src + i) (ground arith) ∙ h.0 i (ground arith) q
    ],
    λ i p. dev.write_elsewhere (src + k) v st (dst + i) (omega arith) ∙ h.1 i (omega arith),
    Outside-write k v st less d h.2,
  )

  restore-Moves :
      (k : ℕ) (st : State)
      → k ≤ len
      → dst < src
      → src < dst + len
      → Restoring k st
      → Moves (restore dev src dst k st)
  unfolding restore
  restore-Moves zero st f d o h = (λ i p. h.0 i (omega arith) p, h.2, o)
  restore-Moves (suc k) st f d o h = elim (Option-cases (read (dst + k) st).0) [
    | inl bad ↦ rw (bad, restore) ((Restoring-read (dst + k) (suc k) st h).2, o)
    | inr (v, g) ↦
        let at = (read (dst + k) st).1 in
        let kept : Restoring (suc k) at = Restoring-read (dst + k) (suc k) st h in
        let same : v ≡ c0 (src + k) = dev.read_gives (dst + k) st v g ∙ h.1 k (omega arith) in
        elim (Bool-cases (write (src + k) v at).0) [
          | inl ok ↦
              rw (g, restore)
                (rw (ok, restore)
                  (restore-Moves k (write (src + k) v at).1 (omega arith) d o
                    (Restoring-written k v at f d same ok kept)))
          | inr bad ↦ rw (g, restore) (rw (bad, restore) (Outside-write k v at f d kept.2, o))
        ]
  ]

  Copied-Restoring :
      (at hurt back : ℕ) (st : State)
      → dst < src
      → back ≤ at
      → hurt ≤ len
      → hurt ≤ back + (src - dst)
      → Copied at hurt st
      → Restoring back st
  Copied-Restoring at hurt back st d p q r h = (
    λ i p' q'. h.1 (src + i) (inr (omega arith)),
    λ i p'. h.0 i (omega arith),
    λ j o. h.1 j (ground arith),
  )

  -- The count of sectors to restore covers all that the copy has hurt.
  to_restore_bounds :
      (at : ℕ) (wfail : Bool)
      → dst < src
      → at < len
      → let back = to_restore dev len (src - dst) at wfail in
        let hurt = if wfail then at + 1 else at in
        (back ≤ at) × (hurt ≤ len) × (hurt ≤ back + (src - dst)) × (0 < back → src < dst + len)
  unfolding to_restore
  to_restore_bounds at wfail d less = ground arith

  recover-Moves :
      (c : Copy dev) → dst < src → Stopped c → Moves (recover dev src dst len (src - dst) c)
  unfolding recover
  recover-Moves c d h = elim (Bool-cases (c.at == len)) [
    | inl full ↦
        let e : c.at ≡ len = ground arith in
        rw full (λ i p. h.2.0 i (omega arith), λ j o. h.2.1 j (rw (h.1 e) (ground arith)))
    | inr short ↦
        let less : c.at < len = ground arith in
        let b = to_restore_bounds c.at c.wfail d less in
        let back : ℕ = to_restore dev len (src - dst) c.at c.wfail in
        let start : Restoring back c.state =
          Copied-Restoring c.at (if c.wfail then c.at + 1 else c.at) back c.state d b.0 b.1 b.2
            h.2 in
        elim (Bool-cases (back == 0)) [
          | inl none_hurt ↦ rw (short, none_hurt) (λ i p. start.0 i (ground arith) p, start.2)
          | inr some_hurt ↦
              rw (short, some_hurt)
                (restore-Moves back c.state (omega arith) d (b.3 (ground arith)) start)
        ]
  ]

  probe_keeps :
      (left s : ℕ) (st : State) (j : ℕ) → content (probe dev src left s st).1 j ≡ content st j
  unfolding probe
  probe_keeps zero s st j = refl
  probe_keeps (suc left) s st j = elim (Option-cases (read (src + s) st).0) [
    | inl bad ↦ rw (bad, probe) (dev.read_keeps (src + s) st j)
    | inr (v, g) ↦
        rw (g, probe)
          (probe_keeps left (s + 1) (read (src + s) st).1 j ∙ dev.read_keeps (src + s) st j)
  ]

  check_source_keeps :
      (gap : ℕ) (st : State) (j : ℕ) → content (check_source dev src len gap st).1 j ≡ content st j
  unfolding check_source
  check_source_keeps gap st j = elim (Bool-cases (ltb gap len)) [
    | inl overlap ↦ rw overlap (probe_keeps len 0 st j)
    | inr apart ↦ rw apart
  ]

-- Moving a file's `len` sectors down, from `src` to `dst`, on a medium that holds `c0`. FSD_MOVED: the
-- sectors from `dst` on hold the file. FSD_INTACT and FSD_RESTORED: the sectors from `src` on still
-- hold it. FSD_RESTORED and FSD_TORN are answered only if the two areas overlap. In every case no
-- sector outside the two areas has changed, whatever reads and writes failed.
pub move-Moves :
    (dev : Device) (src dst len : ℕ) (st : dev.State)
    → dst ≤ src
    → src < 2 ^ 32
    → Moves dev src dst len (dev.content st) (move dev src dst len st)
unfolding move
move-Moves dev src dst len st d w = elim (Bool-cases ((dst == src) || (len == 0))) [
  | inl nothing ↦ rw nothing (λ i p. ap (λ k. dev.content st (k + i)) (ground arith), λ j o. refl)
  | inr something ↦
      let no_wrap : (src + 2 ^ 32 - dst) % 2 ^ 32 ≡ src - dst = omega arith in
      let checked = check_source dev src len (src - dst) st in
      let same = check_source_keeps dev src dst len (dev.content st) (src - dst) st in
      elim (Bool-cases checked.0) [
        | inl good ↦
            rw (something, no_wrap, good)
              (recover-Moves dev src dst len (dev.content st) (copy dev src dst len 0 checked.1)
                (ground arith)
                (copy-Stopped dev src dst len (dev.content st) len 0 checked.1 (omega arith)
                  (ground arith) (λ i p. absurd (omega arith), λ j o. same j)))
        | inr bad ↦ rw (something, no_wrap, bad) (λ i p. same (src + i), λ j o. same j)
      ]
]
