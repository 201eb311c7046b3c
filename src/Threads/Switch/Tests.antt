-- ===== src/Threads/Switch/Tests.antt =====
-- A second thread created and switched to, and the theorems there.
use flopnix.Base.{refl, true, false, none, [], ◌∷◌}
use flopnix.Threads.Mutex.{Mutex}
use flopnix.Threads.Sched.{ThreadState}
use flopnix.Threads.Switch.{Threads, first_time, threads_init, thread_create, thr_yield}
use flopnix.Threads.Switch.Laws.{IsThreads, Step, Reachable, Reachable-IsThreads}

abbrev open_mutex : Mutex
open_mutex = record { held = false; owner = none; depth = 0; want = λ t. false }

abbrev zeroed : Threads
zeroed = record {
  table =
      λ i. record { state = ThreadState.free; runs = 0; kext = none; creator = none; name = [] };
  intact = λ i. false;
  self = 0;
  is_on = false;
  preempt = false;
  nopreempt = 0;
  overflow = none;
  locks = record { mutex = λ m. open_mutex; stack = λ t. []; wait = λ t. none };
}

abbrev started : Threads
started = threads_init zeroed

abbrev two : Threads
two = (thread_create none true (b'w' ∷ []) started).1

abbrev switched : Threads
switched = thr_yield none two

started-Reachable : Reachable started
started-Reachable =
    Reachable.next zeroed started (Reachable.boot zeroed refl refl (λ i. refl)) (Step.start zeroed)

switched-Reachable : Reachable switched
unfolding threads_init first_time
switched-Reachable =
    Reachable.next two switched
      (Reachable.next started two started-Reachable
        (Step.create none true (b'w' ∷ []) started refl))
      (Step.yield none two)

Reachable-IsThreads_example : IsThreads switched
Reachable-IsThreads_example = Reachable-IsThreads switched switched-Reachable
