-- ===== src/Threads/Sched.antt =====
-- src/sched.inc: which thread runs next.
mod Tests
use flopnix.Base.{
  ℕ, zero, suc, ◌+◌, ◌-◌, ◌%◌, ◌≤◌, ◌<◌, ◌≡◌, refl, inl, inr, Bool, true, false, ◌&&◌, Option, none,
  some, leb, ◌==◌, if◌then◌else◌, arith, Bool-cases, subst, sym, Option-cases,
}

-- THR_FREE to THR_DEAD.
pub data ThreadState : Type 0 where
  free ready run blocked dead : ThreadState

abbrev pub runnable : ThreadState → Bool
runnable ready = true
runnable run = true
runnable _ = false

-- `thr_may_switch`; `armed` is not read.
pub may_switch : Bool → ℕ → ℕ → Bool
may_switch on depth irqnest = on && ((depth == 0) && leb irqnest 1)

-- The loop of `sched_next`, at `i` with `left` rounds to go; `none` is -1.
sched_from : (ℕ → ThreadState) → ℕ → ℕ → ℕ → ℕ → Option ℕ
sched_from state n cur i zero = none
sched_from state n cur i (suc left) =
    let rest = sched_from state n cur (i + 1) left in
    if runnable (state ((cur + i) % n)) then some ((cur + i) % n) else rest

pub sched_next : (ℕ → ThreadState) → ℕ → ℕ → Option ℕ
unfolding sched_from
sched_next state n cur = sched_from state n cur 1 n

-- THR_MAX.
abbrev pub thr_max : ℕ
thr_max = 8

-- What the loop has found from `i` on: the first round that meets a runnable thread.
abbrev Met : (ℕ → ThreadState) → ℕ → ℕ → ℕ → Option ℕ → Type 0
Met state cur i left none =
    (j : ℕ) → i ≤ j → j < i + left → runnable (state ((cur + j) % thr_max)) ≡ false
Met state cur i left (some s) =
    (k : ℕ) × (i ≤ k)
    × (k < i + left)
    × (s ≡ (cur + k) % thr_max)
    × (runnable (state s) ≡ true)
    × ((j : ℕ) → i ≤ j → j < k → runnable (state ((cur + j) % thr_max)) ≡ false)

Met-later :
    (state : ℕ → ThreadState) (cur i left : ℕ) (r : Option ℕ)
    → runnable (state ((cur + i) % thr_max)) ≡ false
    → Met state cur (i + 1) left r
    → Met state cur i (suc left) r
Met-later state cur i left none e m = λ j p q. elim (Bool-cases (j == i)) [
  | inl here ↦
      let is : i ≡ j = ground arith in
      subst (λ x. runnable (state ((cur + x) % thr_max)) ≡ false) is e
  | inr later ↦ m j (ground arith) (omega arith)
]
Met-later state cur i left (some s) e m = (
  m.0,
  omega (arith, m.1),
  omega (arith, m.2),
  m.3,
  m.4,
  λ j p q. elim (Bool-cases (j == i)) [
    | inl here ↦
        let is : i ≡ j = ground arith in
        subst (λ x. runnable (state ((cur + x) % thr_max)) ≡ false) is e
    | inr later ↦ m.5 j (ground arith) q
  ],
)

sched_from-Met :
    (state : ℕ → ThreadState) (cur i left : ℕ)
    → Met state cur i left (sched_from state thr_max cur i left)
unfolding sched_from
sched_from-Met state cur i zero = λ j p q. absurd (omega arith)
sched_from-Met state cur i (suc left) = elim (Bool-cases (runnable (state ((cur + i) % thr_max)))) [
  | inl hit ↦ rw hit (i, omega arith, omega arith, refl, hit, λ j p q. absurd (omega arith))
  | inr miss ↦
      rw (miss, sched_from)
        (Met-later state cur i left _ miss (sched_from-Met state cur (i + 1) left))
]

-- How many threads the ring has between the current one and `j`.
abbrev pub ahead : ℕ → ℕ → ℕ
ahead cur j = (j + 7 - cur) % thr_max

-- The first runnable thread behind the current one, in the ring of the eight.
abbrev pub NextRunnable : (ℕ → ThreadState) → ℕ → Option ℕ → Type 0
NextRunnable state cur none = (j : ℕ) → j < thr_max → runnable (state j) ≡ false
NextRunnable state cur (some s) =
    (s < thr_max)
    × (runnable (state s) ≡ true)
    × ((j : ℕ) → j < thr_max → ahead cur j < ahead cur s → runnable (state j) ≡ false)

Met-NextRunnable :
    (state : ℕ → ThreadState) (cur : ℕ) (r : Option ℕ)
    → cur < thr_max
    → Met state cur 1 thr_max r
    → NextRunnable state cur r
Met-NextRunnable state cur none c m = λ j h.
    let k = suc (ahead cur j) in
    let is : (cur + k) % thr_max ≡ j = omega arith in
    subst (λ x. runnable (state x) ≡ false) is (m k (omega arith) (omega arith))
Met-NextRunnable state cur (some s) c m = (
  omega (arith, m.3),
  m.4,
  λ j h before.
      let k = suc (ahead cur j) in
      let is : (cur + k) % thr_max ≡ j = omega arith in
      subst (λ x. runnable (state x) ≡ false) is
        (m.5 k (omega arith) (omega (arith, m.1, m.2, m.3))),
)

-- `sched_next` on the kernel's eight threads answers the first runnable one behind the current
-- thread, which comes last itself, and -1 only if none is runnable.
pub sched_next-NextRunnable :
    (state : ℕ → ThreadState) (cur : ℕ)
    → cur < thr_max
    → NextRunnable state cur (sched_next state thr_max cur)
unfolding sched_next
sched_next-NextRunnable state cur c =
    Met-NextRunnable state cur _ c (sched_from-Met state cur 1 thr_max)
