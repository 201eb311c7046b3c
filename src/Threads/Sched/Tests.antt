-- ===== src/Threads/Sched/Tests.antt =====
-- Threads 0 and 5 run or are ready; the theorem there.
use flopnix.Base.{ℕ, ◌≡◌, refl, some, ◌==◌, if◌then◌else◌, arith}
use flopnix.Threads.Sched.{
  ThreadState, run, ready, blocked, sched_next, NextRunnable, sched_next-NextRunnable, thr_max,
}

abbrev two_threads : ℕ → ThreadState
two_threads i = if i == 0 then run else if i == 5 then ready else blocked

chooses : sched_next two_threads thr_max 0 ≡ some 5
unfolding sched_next
chooses = refl

sched_next-NextRunnable_example : NextRunnable two_threads 0 (sched_next two_threads thr_max 0)
sched_next-NextRunnable_example = sched_next-NextRunnable two_threads 0 (omega arith)
