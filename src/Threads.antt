-- ===== src/Threads.antt =====
-- Threads: the scheduler's choice, the switch and the mutexes, src/sched.inc and src/thread.c.
pub mod Mutex
pub mod Sched
pub mod Switch
