-- ===== src/Threads/Mutex/Unwind.antt =====
-- How many mutexes `mtx_unwind` gives back.
use flopnix.Base.{
  ℕ, zero, suc, ◌-◌, ◌≤◌, ◌≡◌, ◌⊎◌, refl, false, none, List, [], ◌∷◌, length, arith, inl, inr,
  Option-cases, ==_self,
}
use flopnix.Threads.Mutex.{Locks, put, release, unwind_loop, unwind}

List-cases : (ms : List ℕ) → (ms ≡ []) ⊎ ((m : ℕ) × (ks : List ℕ) × (ms ≡ m ∷ ks))
List-cases [] = inl refl
List-cases (m ∷ ks) = inr (m, ks, refl)

length-unwind_loop :
    (self n : ℕ) (l : Locks)
    → length ((unwind_loop self n l).stack self) ≤ length (l.stack self) - n
unfolding unwind_loop
length-unwind_loop self zero l = omega arith
length-unwind_loop self (suc n) l = elim (List-cases (l.stack self)) [
  | inl empty ↦ rw (empty, unwind_loop) (rw empty (omega arith))
  | inr (m, ks, full) ↦
      let r = release self m l in
      let popped = record r { stack = put r.stack self ks } in
      let top : popped.stack self ≡ ks = rw (==_self self) refl in
      let ih = length-unwind_loop self n popped in
      let less : length ((unwind_loop self n popped).stack self) ≤ length ks - n = rw top at ih in
      rw (full, unwind_loop) (omega (arith, less))
]

-- `mtx_unwind` leaves no more mutexes held than the snapshot says.
pub length-unwind : (self snap : ℕ) (l : Locks) → length ((unwind self snap l).stack self) ≤ snap
unfolding unwind
length-unwind self snap l = elim (Option-cases (l.wait self)) [
  | inl calm ↦
      rw calm (let d = length-unwind_loop self (length (l.stack self) - snap) l in omega (arith, d))
  | inr (w, waits) ↦
      let calm = record l {
        mutex = put l.mutex w (record (l.mutex w) { want = put (l.mutex w).want self false });
        wait = put l.wait self none;
      } in
      rw waits
        (let d = length-unwind_loop self (length (l.stack self) - snap) calm in omega (arith, d))
]
