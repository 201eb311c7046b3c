-- ===== src/Threads/Mutex.antt =====
-- The mutexes of src/thread.c, once threads are on. A mutex is named by its address; the mutexes
-- that a thread holds are a list with the last one first. Each function runs with interrupts off;
-- what `mtx_lock` does between two rounds, and `mtx_unlock` after a release, is to yield.
pub mod Laws
mod Tests
pub mod Unwind
use flopnix.Base.{
  ℕ, zero, suc, ◌+◌, ◌-◌, Bool, true, false, ◌&&◌, ◌||◌, not, Option, none, some, List, [], ◌∷◌,
  ltb, leb, ◌==◌, if◌then◌else◌, length,
}

pub record Mutex : Type 0 where
  pub held : Bool
  -- `none` is -1.
  pub owner : Option ℕ
  pub depth : ℕ
  -- The bits of `want`.
  pub want : ℕ → Bool

-- `mheld` with `mheldn`, and `mwait`.
pub record Locks : Type 0 where
  pub mutex : ℕ → Mutex
  pub stack : ℕ → List ℕ
  pub wait : ℕ → Option ℕ

-- MTX_HELD_MAX.
abbrev pub held_max : ℕ
held_max = 8

abbrev pub put {ℓ} : {A : Type ℓ} → (ℕ → A) → ℕ → A → ℕ → A
put f k v j = if j == k then v else f j

unfoldable pub is_owner : Option ℕ → ℕ → Bool
is_owner none t = false
is_owner (some o) t = o == t

unfoldable pub owner_dead : (ℕ → Bool) → Option ℕ → Bool
owner_dead dead none = false
owner_dead dead (some o) = dead o

-- A mutex whose owner has died is free.
unfoldable pub abandoned : (ℕ → Bool) → Mutex → Mutex
unfolding owner_dead
abandoned dead x =
    if x.held && owner_dead dead x.owner
    then record x { held = false; owner = none; depth = 0 }
    else x

-- One more level of a mutex that is free or the thread's own.
unfoldable pub entered : ℕ → Mutex → Mutex
entered self x =
    if x.held
    then record x { depth = x.depth + 1; want = put x.want self false }
    else record x { held = true; owner = some self; depth = 1; want = put x.want self false }

-- One round of `mtx_lock`: whether it returns, and the locks then.
pub lock_round : (ℕ → Bool) → ℕ → ℕ → Locks → Bool × Locks
unfolding abandoned entered is_owner
lock_round dead self m l =
    let x = abandoned dead (l.mutex m) in
    if not x.held || is_owner x.owner self
    then (
      true,
      record {
        mutex = put l.mutex m (entered self x);
        stack =
            put l.stack self
              (if ltb (length (l.stack self)) held_max then m ∷ l.stack self else l.stack self);
        wait = put l.wait self none;
      },
    )
    else (
      false,
      record l {
        mutex = put l.mutex m (record x { want = put x.want self true });
        wait = put l.wait self (some m);
      },
    )

-- `mheldn--` if the mutex was the last one taken.
unfoldable pub pop_held : ℕ → List ℕ → List ℕ
pop_held m [] = []
pop_held m (k ∷ ks) = if k == m then ks else k ∷ ks

-- One level less, and free after the last.
unfoldable pub left : Mutex → Mutex
left x =
    if leb x.depth 1
    then record x { held = false; owner = none; depth = 0 }
    else record x { depth = x.depth - 1 }

-- `mtx_release`, without its answer, which says whether to yield.
unfoldable pub release : ℕ → ℕ → Locks → Locks
unfolding is_owner pop_held left
release self m l =
    if is_owner (l.mutex m).owner self
    then record l {
      mutex = put l.mutex m (left (l.mutex m));
      stack = put l.stack self (pop_held m (l.stack self));
    }
    else l

-- The loop of `mtx_unwind`, with `n` mutexes to give back: each round ends with one less held.
unwind_loop : ℕ → ℕ → Locks → Locks
unwind_loop self zero l = l
unwind_loop self (suc n) l = elim (l.stack self) [
  | [] ↦ l
  | m ∷ ms ↦
      unwind_loop self n (let r = release self m l in record r { stack = put r.stack self ms })
]

-- `mtx_unwind`.
pub unwind : ℕ → ℕ → Locks → Locks
unfolding unwind_loop
unwind self snap l =
    let calm : Locks = elim (l.wait self) [
      | none ↦ l
      | some w ↦ record l {
        mutex = put l.mutex w (record (l.mutex w) { want = put (l.mutex w).want self false });
        wait = put l.wait self none;
      }
    ] in
    unwind_loop self (length (l.stack self) - snap) calm
