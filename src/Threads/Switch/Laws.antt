-- ===== src/Threads/Switch/Laws.antt =====
-- The steps of the thread table, and what every reachable state has.
use flopnix.Base.{
  ℕ, zero, suc, ◌+◌, ◌-◌, ◌*◌, ◌/◌, ◌%◌, ◌^◌, ◌≤◌, ◌<◌, ◌≡◌, ◌≢◌, ◌⊎◌, refl, sym, ap, ◌∙◌, subst,
  Bool, true, false, ◌&&◌, ◌||◌, not, Option, none, some, List, inl, inr, ltb, ◌==◌, if◌then◌else◌,
  arith, Bool-cases, Option-cases, length,
}
use flopnix.Threads.Mutex.{Locks, unwind}
use flopnix.Threads.Mutex.Unwind.{length-unwind}
use flopnix.Threads.Sched.{
  ThreadState, free, ready, run, blocked, dead, NextRunnable, sched_next-NextRunnable, may_switch,
  thr_max,
}
use flopnix.Threads.Switch.{
  Thread, Threads, with_state, first_time, threads_init, stack_ok, live, slot_of, thread_create,
  check_stack, check_stacks, stopped, switch_to, run_next, reschedule, thr_yield, thr_tick,
  thr_exit, preempt_restore, thr_preempt_set, held_count, guard_snap, guard_unwind,
}

-- The current thread is one of the eight, no other one has the state THR_RUN, and once threads are
-- on, the current one has it, unless it has died.
abbrev pub IsThreads : Threads → Type 0
IsThreads s =
    (s.self < thr_max)
    × ((i : ℕ) → (s.table i).state ≡ run → i ≡ s.self)
    × (s.is_on ≡ true → ((s.table s.self).state ≡ run) ⊎ ((s.table s.self).state ≡ dead))

-- The calls that change the table, made by the thread that runs, and what it may do to its own
-- stack and to the locks meanwhile.
pub data Step : Threads → Threads → Type 0 where
  start : (s : Threads) → Step s (threads_init s)
  create :
      (owner : Option ℕ) (has_fn : Bool) (name : List ℕ) (s : Threads)
      → (s.table s.self).state ≡ run
      → Step s (thread_create owner has_fn name s).1
  yield : (current : Option ℕ) (s : Threads) → Step s (thr_yield current s)
  tick : (current : Option ℕ) (nest : ℕ) (s : Threads) → Step s (thr_tick current nest s)
  exit : (current : Option ℕ) (s : Threads) → Step s (thr_exit current s)
  preempt :
      (on : Bool) (depth : ℕ) (s : Threads) → Step s (preempt_restore depth (thr_preempt_set on s))
  works :
      (intact : ℕ → Bool) (locks : Locks) (s : Threads)
      → Step s (record s { intact = intact; locks = locks })

-- The states that the steps lead to, from the zeroed table at boot.
pub data Reachable : Threads → Type 0 where
  boot :
      (s : Threads)
      → s.self ≡ 0
      → s.is_on ≡ false
      → ((i : ℕ) → (s.table i).state ≡ free)
      → Reachable s
  next : (s t : Threads) → Reachable s → Step s t → Reachable t

with_state-IsThreads : (i : ℕ) (s : Threads) → IsThreads s → IsThreads (with_state i dead s)
with_state-IsThreads i s w = (
  w.0,
  (λ j h. elim (Bool-cases (j == i)) [
    | inl same ↦ absurd (let g : dead ≡ run = rw same at h in cc)
    | inr other ↦ w.1 j (rw other at h)
  ]),
  (λ on. elim (Bool-cases (s.self == i)) [
    | inl same ↦ rw same (inr refl)
    | inr other ↦ rw other (w.2 on)
  ]),
)

check_stack-IsThreads : (i : ℕ) (s : Threads) → IsThreads s → IsThreads (check_stack i s)
unfolding check_stack
check_stack-IsThreads i s w = elim (Bool-cases (not (stack_ok s i) && live (s.table i).state)) [
  | inl blown ↦ rw blown (with_state-IsThreads i s w)
  | inr fine ↦ rw fine w
]

check_stack_on : (i : ℕ) (s : Threads) → (check_stack i s).is_on ≡ s.is_on
unfolding check_stack
check_stack_on i s = elim (Bool-cases (not (stack_ok s i) && live (s.table i).state)) [
  | inl blown ↦ rw blown refl
  | inr fine ↦ rw fine refl
]

check_stacks-IsThreads :
    (i left : ℕ) (s : Threads)
    → IsThreads s
    → IsThreads (check_stacks i left s) × ((check_stacks i left s).is_on ≡ s.is_on)
unfolding check_stacks
check_stacks-IsThreads i zero s w = (w, refl)
check_stacks-IsThreads i (suc left) s w =
    let r = check_stacks-IsThreads (i + 1) left (check_stack i s) (check_stack-IsThreads i s w) in
    (r.0, r.1 ∙ check_stack_on i s)

stopped_not_run : (x : ThreadState) → stopped x ≢ run
stopped_not_run free e = cc
stopped_not_run ready e = cc
stopped_not_run run e = cc
stopped_not_run blocked e = cc
stopped_not_run dead e = cc

switch_to-IsThreads :
    (current : Option ℕ) (n : ℕ) (s : Threads)
    → n < thr_max
    → IsThreads s
    → IsThreads (switch_to current n s)
unfolding switch_to
switch_to-IsThreads current n s top w = (
  top,
  (λ j h. elim (Bool-cases (j == n)) [
    | inl here ↦ ground arith
    | inr other ↦ elim (Bool-cases (j == s.self)) [
      | inl prev ↦ absurd (stopped_not_run (s.table s.self).state (rw prev at (rw other at h)))
      | inr third ↦ absurd (let is = w.1 j (rw third at (rw other at h)) in ground arith)
    ]
  ]),
  (λ on. let here : (n == n) ≡ true = ground arith in rw here (inl refl)),
)

by_test : (b : Bool) (s t : Threads) → IsThreads s → IsThreads t → IsThreads (if b then s else t)
by_test true s t v w = v
by_test false s t v w = w

eq_of : (a b : ℕ) → (a == b) ≡ true → a ≡ b
eq_of a b h = ground arith

run_next-IsThreads :
    (chosen current : Option ℕ) (s : Threads)
    → NextRunnable (λ i. (s.table i).state) s.self chosen
    → IsThreads s
    → IsThreads (run_next chosen current s)
unfolding run_next
run_next-IsThreads none current s c w = w
run_next-IsThreads (some n) current s c w = elim (Bool-cases (n == s.self)) [
  | inl same ↦ rw same w
  | inr other ↦ rw other (switch_to-IsThreads current n s c.0 w)
]

reschedule-IsThreads :
    (current : Option ℕ) (s : Threads) → IsThreads s → IsThreads (reschedule current s)
unfolding reschedule
reschedule-IsThreads current s w =
    let checked = check_stacks 0 thr_max s in
    let w' = (check_stacks-IsThreads 0 thr_max s w).0 in
    let chosen = sched_next-NextRunnable (λ i. (checked.table i).state) checked.self w'.0 in
    by_test (not s.is_on) s _ w (run_next-IsThreads _ current checked chosen w')

slot_of-not_live :
    (table : ℕ → Thread) (i left k : ℕ)
    → slot_of table i left ≡ some k
    → (live (table k).state ≡ false) × (k < i + left)
unfolding slot_of
slot_of-not_live table i zero k e = absurd cc
slot_of-not_live table i (suc left) k e = elim (Bool-cases (live (table i).state)) [
  | inl used ↦
      let r = slot_of-not_live table (i + 1) left k (rw (used, slot_of) at e) in
      (r.0, omega (arith, r.1))
  | inr unused ↦
      let is : i ≡ k = ap (λ o. elim o as (λ x. ℕ) [ none ↦ i | some x ↦ x ]) (rw unused at e) in
      (subst (λ x. live (table x).state ≡ false) is unused, omega arith)
]

create-IsThreads :
    (owner : Option ℕ) (has_fn : Bool) (name : List ℕ) (s : Threads)
    → IsThreads s
    → (s.table s.self).state ≡ run
    → IsThreads (thread_create owner has_fn name s).1
unfolding thread_create
create-IsThreads owner has_fn name s w runs = elim (Bool-cases (not s.is_on || not has_fn)) [
  | inl refused ↦ rw refused w
  | inr going ↦ elim (Option-cases (slot_of s.table 1 (thr_max - 1))) [
    | inl full ↦ rw going (rw full w)
    | inr (k, slot) ↦
        let unused = (slot_of-not_live s.table 1 (thr_max - 1) k slot).0 in
        let other : (s.self == k) ≡ false = elim (Bool-cases (s.self == k)) [
          | inr differ ↦ differ
          | inl same ↦
              let is = eq_of s.self k same in
              absurd (
                let l = subst (λ x. live (s.table x).state ≡ false) (sym is) unused in
                let r = rw runs at l in cc)
        ] in
        rw going (
          rw slot (
            w.0,
            (λ j h. elim (Bool-cases (j == k)) [
              | inl here ↦ absurd (let g : ready ≡ run = rw here at h in cc)
              | inr third ↦ w.1 j (rw third at h)
            ]),
            (λ on. rw other (inl runs)),
          ))
  ]
]

first_time-IsThreads : (b : Bool) (s : Threads) → IsThreads s → IsThreads (first_time b s)
unfolding first_time
first_time-IsThreads true s w = w
first_time-IsThreads false s w = (
  omega arith,
  (λ j h. elim (Bool-cases (j == 0)) [
    | inl zeroth ↦ eq_of j 0 zeroth
    | inr other ↦ absurd (let g : free ≡ run = rw other at h in cc)
  ]),
  (λ on. inl refl),
)

tick-IsThreads :
    (current : Option ℕ) (nest : ℕ) (s : Threads)
    → IsThreads s
    → IsThreads (thr_tick current nest s)
unfolding thr_tick
tick-IsThreads current nest s w =
    by_test (s.is_on && may_switch s.preempt s.nopreempt nest) (reschedule current s) s
      (reschedule-IsThreads current s w) w

exit-IsThreads : (current : Option ℕ) (s : Threads) → IsThreads s → IsThreads (thr_exit current s)
unfolding thr_exit
exit-IsThreads current s w = reschedule-IsThreads current _ (
    by_test (s.is_on && ltb 0 s.self) (with_state s.self dead s) s (with_state-IsThreads s.self s w)
      w)

Step-IsThreads : (s t : Threads) → Step s t → IsThreads s → IsThreads t
Step-IsThreads _ _ (start s) w = unfold threads_init in first_time-IsThreads s.is_on s w
Step-IsThreads _ _ (create owner has_fn name s runs) w = create-IsThreads owner has_fn name s w runs
Step-IsThreads _ _ (yield current s) w =
    by_test s.is_on (reschedule current s) s (reschedule-IsThreads current s w) w
Step-IsThreads _ _ (tick current nest s) w = tick-IsThreads current nest s w
Step-IsThreads _ _ (exit current s) w = exit-IsThreads current s w
Step-IsThreads _ _ (preempt on depth s) w = w
Step-IsThreads _ _ (works intact locks s) w = w

-- In every state that the steps reach from boot, the current thread is one of the eight and no
-- other has the state THR_RUN; once threads are on, the current one has it, unless it has died.
pub Reachable-IsThreads : (s : Threads) → Reachable s → IsThreads s
Reachable-IsThreads _ (boot s at_0 off all_free) =
    (omega (arith, at_0), (λ i h. absurd (let f = all_free i in cc)), (λ on. absurd cc))
Reachable-IsThreads _ (next s t r step) = Step-IsThreads s t step (Reachable-IsThreads s r)

-- `guard_unwind` with an earlier snapshot of the same thread sets the depth of `preempt_disable` back
-- to what it was, and leaves no more mutexes held than there were.
pub guard_unwind-guard_snap :
    (s t : Threads)
    → held_count s < 2 ^ 16
    → t.is_on ≡ true
    → ((guard_unwind (guard_snap s) t).nopreempt ≡ s.nopreempt)
      × (held_count (guard_unwind (guard_snap s) t) ≤ held_count s)
unfolding guard_unwind guard_snap
guard_unwind-guard_snap s t few on =
    let depth : (held_count s + s.nopreempt * 2 ^ 16) / 2 ^ 16 ≡ s.nopreempt = omega arith in
    let count : (held_count s + s.nopreempt * 2 ^ 16) % 2 ^ 16 ≡ held_count s = omega arith in
    let left = length-unwind t.self (guard_snap s % 2 ^ 16) t.locks in
    rw on (
      depth,
      subst (λ n. length ((unwind t.self (guard_snap s % 2 ^ 16) t.locks).stack t.self) ≤ n) count
          left,
    )
