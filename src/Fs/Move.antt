-- ===== src/Fs/Move.antt =====
-- `fsd_move` of src/fsdefrag.inc: moving `len` sectors from `src` down to `dst` on a device, with
-- the way back when a sector fails. Sector numbers are far below 2^32, so only the gap, which the
-- code computes before it is known to be positive, is written with its wrap-around.
pub mod Laws
mod Tests
use flopnix.Base.{
  ℕ, zero, suc, ◌+◌, ◌-◌, ◌%◌, ◌^◌, Bool, true, false, ◌||◌, not, Option, none, some, ltb, leb,
  ◌==◌, if◌then◌else◌,
}
use flopnix.Fs.Device.{Device}

-- FSD_MOVED, FSD_INTACT, FSD_RESTORED and FSD_TORN.
pub data Outcome : Type 0 where
  moved intact restored torn : Outcome

module _ (dev : Device) where
  open dev use {State, Data, read, write}

  -- Where the copy stopped (`F`), whether by a failed write (`wfail`), and the state then.
  pub record Copy : Type 0 where
    pub at : ℕ
    pub wfail : Bool
    pub state : State

  -- The first loop of `fsd_move`: reads sectors `s` to `s + left` of the source; false if one fails.
  unfoldable pub probe : ℕ → ℕ → ℕ → State → Bool × State
  probe src zero s st = (true, st)
  probe src (suc left) s st = elim (read (src + s) st).0 [
    | none ↦ (false, (read (src + s) st).1)
    | some v ↦ probe src left (s + 1) (read (src + s) st).1
  ]

  -- The second loop: copies sector after sector.
  unfoldable pub copy : ℕ → ℕ → ℕ → ℕ → State → Copy
  copy src dst zero s st = record { at = s; wfail = false; state = st }
  copy src dst (suc left) s st =
      let got = read (src + s) st in
      elim got.0 [
        | none ↦ record { at = s; wfail = false; state = got.1 }
        | some v ↦ elim (write (dst + s) v got.1).0 [
          | true ↦ copy src dst left (s + 1) (write (dst + s) v got.1).1
          | false ↦ record { at = s; wfail = true; state = (write (dst + s) v got.1).1 }
        ]
      ]

  -- The third loop: copies the first `k` sectors back, the last one first.
  unfoldable pub restore : ℕ → ℕ → ℕ → State → Outcome × State
  restore src dst zero st = (restored, st)
  restore src dst (suc k) st =
      let got = read (dst + k) st in
      elim got.0 [
        | none ↦ (torn, got.1)
        | some v ↦ elim (write (src + k) v got.1).0 [
          | true ↦ restore src dst k (write (src + k) v got.1).1
          | false ↦ (torn, (write (src + k) v got.1).1)
        ]
      ]

  -- How many sectors of the source the copy has overwritten.
  unfoldable pub to_restore : ℕ → ℕ → ℕ → Bool → ℕ
  to_restore len gap at wfail =
      if leb len gap then 0 else if ltb at gap then 0 else if wfail then at - gap + 1 else at - gap

  -- What follows the second loop.
  unfoldable pub recover : ℕ → ℕ → ℕ → ℕ → Copy → Outcome × State
  unfolding to_restore
  recover src dst len gap c =
      let back = to_restore len gap c.at c.wfail in
      if c.at == len
      then (moved, c.state)
      else if back == 0
      then (intact, c.state)
      else restore src dst back c.state

  -- The first loop runs only if the areas overlap.
  unfoldable pub check_source : ℕ → ℕ → ℕ → State → Bool × State
  unfolding probe
  check_source src len gap st = if ltb gap len then probe src len 0 st else (true, st)

  -- `fsd_move`.
  unfoldable pub move : ℕ → ℕ → ℕ → State → Outcome × State
  unfolding check_source copy recover
  move src dst len st =
      let gap = (src + 2 ^ 32 - dst) % 2 ^ 32 in
      let checked = check_source src len gap st in
      if (dst == src) || (len == 0)
      then (moved, st)
      else if not checked.0
      then (intact, checked.1)
      else recover src dst len gap (copy src dst len 0 checked.1)
