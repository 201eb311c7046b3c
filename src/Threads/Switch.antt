-- ===== src/Threads/Switch.antt =====
-- The thread table of src/thread.c: creating, stopping and switching threads. `intact` tells for
-- each stack whether its canary stands; what a thread has on its stack, the registers that a switch
-- saves and the worker pool's own table are not part of the state, and log lines are left out.
pub mod Laws
mod Tests
use flopnix.Base.{
  ℕ, zero, suc, ◌+◌, ◌-◌, ◌*◌, ◌/◌, ◌%◌, ◌^◌, Bool, true, false, ◌&&◌, ◌||◌, not, Option, none,
  some, List, [], ◌∷◌, ltb, leb, ◌==◌, if◌then◌else◌, length, take,
}
use flopnix.Threads.Mutex.{Locks, put, unwind}
use flopnix.Threads.Sched.{ThreadState, sched_next, may_switch, thr_max}

-- Thread; `kext` and `creator` are -1 or an extension.
pub record Thread : Type 0 where
  pub state : ThreadState
  pub runs : ℕ
  pub kext : Option ℕ
  pub creator : Option ℕ
  pub name : List ℕ

-- `panic_threads`, the stacks' canaries, `thr_self`, `thr_on`, `preempt`, `nopreempt`,
-- `thr_overflow` and the locks.
pub record Threads : Type 0 where
  pub table : ℕ → Thread
  pub intact : ℕ → Bool
  pub self : ℕ
  pub is_on : Bool
  pub preempt : Bool
  pub nopreempt : ℕ
  pub overflow : Option ℕ
  pub locks : Locks

abbrev pub with_state : ℕ → ThreadState → Threads → Threads
with_state i x s = record s { table = put s.table i (record (s.table i) { state = x }) }

abbrev main_name : List ℕ
main_name = b'm' ∷ b'a' ∷ b'i' ∷ b'n' ∷ []

-- `threads_init`, if threads are not on yet.
first_time : Bool → Threads → Threads
first_time true s = s
first_time false s = record s {
  table = λ i.
      if i == 0
      then record (s.table i) { state = ThreadState.run; kext = none; name = main_name }
      else record (s.table i) { state = ThreadState.free; kext = none };
  self = 0;
  is_on = true;
}

pub threads_init : Threads → Threads
unfolding first_time
threads_init s = first_time s.is_on s

-- `stack_ok`.
abbrev pub stack_ok : Threads → ℕ → Bool
stack_ok s i = (i == 0) || s.intact i

-- Neither THR_FREE nor THR_DEAD.
abbrev pub live : ThreadState → Bool
live ThreadState.free = false
live ThreadState.dead = false
live _ = true

-- The search of `thread_create`, from slot `i` on, with `left` to go.
slot_of : (ℕ → Thread) → ℕ → ℕ → Option ℕ
slot_of table i zero = none
slot_of table i (suc left) =
    let rest = slot_of table (i + 1) left in if live (table i).state then rest else some i

-- `thread_create`, for the extension `owner`; `none` is -1. A name that is null is "thread".
pub thread_create : Option ℕ → Bool → List ℕ → Threads → Option ℕ × Threads
unfolding slot_of
thread_create owner has_fn name s =
    if not s.is_on || not has_fn then (none, s) else elim (slot_of s.table 1 (thr_max - 1)) [
      | none ↦ (none, s)
      | some i ↦ (
        some i,
        record s {
          table = put s.table i (record (s.table i) {
            state = ThreadState.ready;
            creator = owner;
            kext = none;
            name = take 11 name;
          });
          intact = put s.intact i true;
        },
      )
    ]

-- `thr_reap`: the locks of a thread that has died.
abbrev pub thr_reap : ℕ → Threads → Threads
thr_reap t s = record s { locks = unwind t 0 s.locks }

-- One round of the loop of `reschedule`: a thread that has lost its canary is killed.
unfoldable pub check_stack : ℕ → Threads → Threads
check_stack i s =
    if not (stack_ok s i) && live (s.table i).state
    then thr_reap i (record (with_state i ThreadState.dead s) { overflow = some i })
    else s

-- The loop, from thread `i` on, with `left` to go.
check_stacks : ℕ → ℕ → Threads → Threads
unfolding check_stack
check_stacks i zero s = s
check_stacks i (suc left) s = check_stacks (i + 1) left (check_stack i s)

-- The state of a thread that another one takes over from.
abbrev pub stopped : ThreadState → ThreadState
stopped ThreadState.free = ThreadState.free
stopped ThreadState.ready = ThreadState.ready
stopped ThreadState.run = ThreadState.ready
stopped ThreadState.blocked = ThreadState.blocked
stopped ThreadState.dead = ThreadState.dead

-- The switch to another thread; `current` is the extension that runs.
unfoldable pub switch_to : Option ℕ → ℕ → Threads → Threads
switch_to current next s =
    let prev = s.table s.self in
    let left = record prev { state = stopped prev.state; kext = current } in
    let chosen = s.table next in
    record s {
      table =
          put (put s.table s.self left) next
            (record chosen { state = ThreadState.run; runs = chosen.runs + 1 });
      self = next;
    }

-- The end of `reschedule`, with what `sched_next` has answered.
run_next : Option ℕ → Option ℕ → Threads → Threads
unfolding switch_to
run_next none current s = s
run_next (some next) current s = if next == s.self then s else switch_to current next s

-- `reschedule`.
pub reschedule : Option ℕ → Threads → Threads
reschedule current s =
    let checked = check_stacks 0 thr_max s in
    if not s.is_on
    then s
    else run_next (sched_next (λ i. (checked.table i).state) thr_max checked.self) current checked

-- `thr_yield`.
abbrev pub thr_yield : Option ℕ → Threads → Threads
thr_yield current s = if s.is_on then reschedule current s else s

-- `thr_tick`, in `nest` interrupts; what `app_break_poll` and `app_kill_poll` do is outside.
pub thr_tick : Option ℕ → ℕ → Threads → Threads
unfolding reschedule
thr_tick current nest s =
    if s.is_on && may_switch s.preempt s.nopreempt nest then reschedule current s else s

-- `thr_exit`, up to its first switch.
pub thr_exit : Option ℕ → Threads → Threads
unfolding reschedule
thr_exit current s =
    reschedule current (if s.is_on && ltb 0 s.self then with_state s.self ThreadState.dead s else s)

-- `preempt_disable`, `preempt_enable`, `preempt_restore` and `thr_preempt_set`.
abbrev pub preempt_disable : Threads → Threads
preempt_disable s = record s { nopreempt = s.nopreempt + 1 }

abbrev pub preempt_enable : Threads → Threads
preempt_enable s = record s { nopreempt = s.nopreempt - 1 }

abbrev pub preempt_restore : ℕ → Threads → Threads
preempt_restore depth s = record s { nopreempt = depth }

abbrev pub thr_preempt_set : Bool → Threads → Threads
thr_preempt_set on s = record s { preempt = on }

-- `mtx_held_count`.
abbrev pub held_count : Threads → ℕ
held_count s = if s.is_on then length (s.locks.stack s.self) else 0

-- `guard_snap`: at most eight mutexes are held, so the two parts of the number do not meet.
pub guard_snap : Threads → ℕ
guard_snap s = held_count s + s.nopreempt * 2 ^ 16

-- `guard_unwind`.
pub guard_unwind : ℕ → Threads → Threads
guard_unwind snap s =
    let r = preempt_restore (snap / 2 ^ 16) s in
    if s.is_on then record r { locks = unwind r.self (snap % 2 ^ 16) r.locks } else r

-- Whether an entry is the extension's.
abbrev same_kext : ℕ → Option ℕ → Bool
same_kext owner none = false
same_kext owner (some k) = k == owner

-- The loop of `thread_kext_busy`, from thread `i` on.
busy_from : ℕ → Threads → ℕ → ℕ → Bool
busy_from owner s i zero = false
busy_from owner s i (suc left) =
    let t = s.table i in
    (not (i == s.self) && (live t.state && (same_kext owner t.creator || same_kext owner t.kext)))
    || busy_from owner s (i + 1) left

-- `thread_kext_busy`.
pub thread_kext_busy : ℕ → Threads → Bool
unfolding busy_from
thread_kext_busy owner s = busy_from owner s 0 thr_max

abbrev is_free : ThreadState → Bool
is_free ThreadState.free = true
is_free _ = false

-- The loop of `thread_guard_mask`, from thread `i` on.
guard_from : Threads → ℕ → ℕ → ℕ
guard_from s i zero = 0
guard_from s i (suc left) =
    (if not (is_free (s.table i).state) && not (stack_ok s i) then 2 ^ i else 0)
    + guard_from s (i + 1) left

-- `thread_guard_mask`.
pub thread_guard_mask : Threads → ℕ
unfolding guard_from
thread_guard_mask s = guard_from s 1 (thr_max - 1)
