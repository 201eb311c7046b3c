-- ===== src/Threads/Mutex/Tests.antt =====
-- A mutex that thread 2 holds twice, and the theorems there.
use flopnix.Base.{ℕ, refl, Bool, true, false, none, some, [], ◌∷◌, arith}
use flopnix.Threads.Mutex.{Mutex, Locks, lock_round}
use flopnix.Threads.Mutex.Laws.{IsMutex, Tried, lock_round-Tried}

abbrev twice : Mutex
twice = record { held = true; owner = some 2; depth = 2; want = λ t. false }

abbrev locks : Locks
locks = record { mutex = λ m. twice; stack = λ t. 7 ∷ 7 ∷ []; wait = λ t. none }

abbrev nobody : ℕ → Bool
nobody t = false

twice-IsMutex : IsMutex twice
twice-IsMutex = ((λ f. absurd cc), (λ t. (omega arith, (2, refl))))

lock_round-Tried_example : Tried nobody 1 7 locks (lock_round nobody 1 7 locks)
lock_round-Tried_example = lock_round-Tried nobody 1 7 locks twice-IsMutex
